-- ===== src/Directory/Lookup.antt =====
-- What the server of skeleton/server.c answers to a request for a file, by what happened to the file.
use cpe_464_program.Base.{
  ℕ, zero, suc, ◌+◌, ◌≤◌, ◌<◌, ◌≡◌, refl, ◌∙◌, ap, true, false, ◌&&◌, none, some, List, [], ◌∷◌,
  ◌++◌, arith, leb, ◌==◌, length, length-take, get_or, get_or-set_self, set, Bool-cases, inl, inr,
  ==_iff,
}
use cpe_464_program.Protocol.Tcp.{
  ShareFile, tcp_message, tcp_file_location, err_none, err_file_not_found, sizeof_tcp_file_location,
}
use cpe_464_program.Directory.{
  SharedFile, Directory, max_files, blank_client, blank_file, client_at, file_at, listed,
  find_index, find_client, find_file, remove_client,
}
use cpe_464_program.Directory.Messages.{
  send_response, error_reply, shared_entry, file_location, handle_share_file, handle_request_file,
  handle_unregister,
}
use cpe_464_program.Directory.Removal.{kept, listed-remove_client}
use cpe_464_program.Directory.Invariant.{Ascending, kept-Ascending, IsDirectory, take-set}

-- The search passes over files with lower ids.
find_index-last :
    (lo hi : ℕ) (files : List SharedFile) (f : SharedFile)
    → f.file_id ≡ hi
    → Ascending lo hi files
    → find_index (λ g. g.file_id == hi) (files ++ (f ∷ [])) ≡ some (length files)
find_index-last lo hi [] f e a = rw ((==_iff f.file_id hi).1 e) refl
find_index-last lo hi (g ∷ files) f e a =
    let lower : (g.file_id == hi) ≡ false =
      ground (arith, Ascending-le (g.file_id + 1) hi files a.1) in
    rw (lower, find_index-last (g.file_id + 1) hi files f e a.1) refl
  where
    Ascending-le : (lo hi : ℕ) (files : List SharedFile) → Ascending lo hi files → lo ≤ hi
    Ascending-le lo hi [] a = a
    Ascending-le lo hi (g ∷ files) a = omega (arith, a.0, Ascending-le (g.file_id + 1) hi files a.1)

-- A request for a file that is found, of an owner that is found, is answered with its location.
pub handle_request_file_located :
    (d : Directory) (j file_id k m : ℕ)
    → find_file d file_id ≡ some k
    → find_client d (file_at d k).owner_id ≡ some m
    → handle_request_file d j file_id
      ≡ send_response d j (
          tcp_message tcp_file_location err_none sizeof_tcp_file_location
            (file_location (file_at d k) (client_at d m)))
unfolding handle_request_file
handle_request_file_located d j file_id k m found owner =
    rw (found, handle_request_file, owner) refl

module _ (d : Directory) (i : ℕ) (share : ShareFile) (v : IsDirectory d)
    (room : d.num_files < max_files) where
  abbrev entry : SharedFile
  entry = shared_entry d.next_file_id (client_at d i).client_id share

  pub handle_share_file-added :
      ((handle_share_file d i share).files ≡ set d.files d.num_files entry)
      × ((handle_share_file d i share).num_files ≡ d.num_files + 1)
      × ((handle_share_file d i share).clients ≡ d.clients)
  unfolding handle_share_file
  handle_share_file-added =
      let space : leb max_files d.num_files ≡ false = ground arith in
      rw (space, handle_share_file) (refl, refl, refl)

  small : d.num_files < length d.files
  small = omega (arith, v.entries)

  pub find_file-shared : find_file (handle_share_file d i share) d.next_file_id ≡ some d.num_files
  unfolding find_file
  find_file-shared =
      let (files, num, clients) = handle_share_file-added in
      rw (files, num, take-set d.files d.num_files entry small)
        (find_index-last 1 d.next_file_id (listed d) entry refl v.ascending
          ∙ ap some (omega (arith, length-take d.num_files d.files, v.entries)))

  pub file_at-shared : file_at (handle_share_file d i share) d.num_files ≡ entry
  file_at-shared =
      ap (λ files. get_or files d.num_files blank_file) handle_share_file-added.0
      ∙ get_or-set_self d.files d.num_files entry blank_file small

  -- In a valid directory with room for a file, a client that is the first active
  -- one under its id shares a file. Then a request for the file's new id, by any client, is answered with
  -- the location of this file: its id, size, hash and name, and the owner's address and UDP port.
  pub handle_request_file-handle_share_file :
      (j : ℕ)
      → find_client d (client_at d i).client_id ≡ some i
      → handle_request_file (handle_share_file d i share) j d.next_file_id
        ≡ send_response (handle_share_file d i share) j (
            tcp_message tcp_file_location err_none sizeof_tcp_file_location (
              file_location
                (shared_entry d.next_file_id (client_at d i).client_id share)
                (client_at d i)))
  unfolding find_client
  handle_request_file-handle_share_file j owner =
      let d' = handle_share_file d i share in
      let (files, num, same_clients) = handle_share_file-added in
      let owner' : find_client d' (file_at d' d.num_files).owner_id ≡ some i =
        ap (λ f. find_client d' f.owner_id) file_at-shared
        ∙ ap (find_index (λ c. c.active && c.client_id == (client_at d i).client_id)) same_clients
        ∙ owner in
      handle_request_file_located d' j d.next_file_id d.num_files i find_file-shared owner'
      ∙ ap
          (λ f. send_response d' j (
            tcp_message tcp_file_location err_none sizeof_tcp_file_location
              (file_location f (client_at d' i))))
          file_at-shared
      ∙ ap
          (λ clients. send_response d' j (
            tcp_message tcp_file_location err_none sizeof_tcp_file_location
              (file_location entry (get_or clients i blank_client))))
          same_clients

-- No file has an id below the ones in the list.
find_index-below :
    (id lo hi : ℕ) (files : List SharedFile)
    → id < lo
    → Ascending lo hi files
    → find_index (λ g. g.file_id == id) files ≡ none
find_index-below id lo hi [] h a = refl
find_index-below id lo hi (g ∷ files) h a =
    let other : (g.file_id == id) ≡ false = ground (arith, a.0) in
    rw (other, find_index-below id (g.file_id + 1) hi files (omega (arith, a.0)) a.1) refl

Ascending-get_or :
    (lo hi : ℕ) (files : List SharedFile) (k : ℕ)
    → k < length files
    → Ascending lo hi files
    → lo ≤ (get_or files k blank_file).file_id
Ascending-get_or lo hi [] k h a = absurd (omega arith)
Ascending-get_or lo hi (g ∷ files) zero h a = a.0
Ascending-get_or lo hi (g ∷ files) (suc k) h a =
    omega (arith, a.0, Ascending-get_or (g.file_id + 1) hi files k (omega arith) a.1)

-- The search finds no file of the removed owner.
find_index-kept :
    (owner lo hi : ℕ) (files : List SharedFile) (k : ℕ)
    → k < length files
    → Ascending lo hi files
    → (get_or files k blank_file).owner_id ≡ owner
    → find_index (λ g. g.file_id == (get_or files k blank_file).file_id) (kept owner files) ≡ none
find_index-kept owner lo hi [] k h a theirs = absurd (omega arith)
find_index-kept owner lo hi (g ∷ files) zero h a theirs = rw ((==_iff g.owner_id owner).1 theirs) (
    find_index-below g.file_id (g.file_id + 1) hi (kept owner files) (omega arith)
      (kept-Ascending owner (g.file_id + 1) hi files a.1))
find_index-kept owner lo hi (g ∷ files) (suc k) h a theirs =
    let rest = find_index-kept owner (g.file_id + 1) hi files k (omega arith) a.1 theirs in
    let other : (g.file_id == (get_or files k blank_file).file_id) ≡ false =
      ground (arith, Ascending-get_or (g.file_id + 1) hi files k (omega arith) a.1) in
    elim (Bool-cases (g.owner_id == owner)) [
      | inl same ↦ rw same rest
      | inr others ↦ rw (others, other, rest) refl
    ]

-- In a valid directory, once the active client `i` has unregistered, a request for any file that was
-- listed under its id is answered with ERR_FILE_NOT_FOUND, whoever asks.
pub handle_request_file-handle_unregister :
    (d : Directory) (i j k : ℕ)
    → IsDirectory d
    → (client_at d i).active ≡ true
    → k < d.num_files
    → (get_or (listed d) k blank_file).owner_id ≡ (client_at d i).client_id
    → handle_request_file (handle_unregister d i) j (get_or (listed d) k blank_file).file_id
      ≡ send_response (handle_unregister d i) j (error_reply err_file_not_found)
unfolding handle_request_file handle_unregister find_file
handle_request_file-handle_unregister d i j k v active inside theirs =
    rw (missing, handle_request_file) refl
  where
    missing : find_file (remove_client d i) (get_or (listed d) k blank_file).file_id ≡ none
    missing =
        rw (listed-remove_client d i (omega (arith, v.within, v.entries)), active)
          (find_index-kept (client_at d i).client_id 1 d.next_file_id (listed d) k
            (omega (arith, length-take d.num_files d.files, v.within, v.entries)) v.ascending
            theirs)
