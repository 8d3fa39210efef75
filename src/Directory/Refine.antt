-- ===== src/Directory/Refine.antt =====
-- The messages of skeleton/server.c against the operations of the catalogue.
use mathlib.Core.Path.{ap₂}
use cpe_464_program.Base.{
  ℕ, zero, suc, ◌+◌, ◌^◌, ◌<◌, ◌≡◌, refl, sym, ◌∙◌, ap, Bool, true, false, List, [], ◌∷◌, ◌++◌, map,
  arith, leb, length, length-take, get_or, set, u32, ◌*◌, Bool-cases, Option-cases, inl, inr, All,
}
use cpe_464_program.Protocol.Tcp.{ShareFile, sizeof_tcp_header, sizeof_file_info}
use cpe_464_program.Directory.{
  Directory, max_files, blank_client, client_at, file_at, listed, find_file, find_client,
  remove_client,
}
use cpe_464_program.Directory.Messages.{
  shared_entry, process_client_message, handle_register, handle_share_file, handle_list_files,
  handle_request_file, handle_unregister,
}
use cpe_464_program.Directory.Removal.{kept, remove_files-Removes}
use cpe_464_program.Directory.Invariant.{IsDirectory, take-set}
use cpe_464_program.Directory.Events.{process_client_message-Follows}
use cpe_464_program.Directory.Requests.{
  register_message_handled, share_message_handled, list_message_handled, request_message_handled,
  unregister_message_handled,
}
use cpe_464_program.Directory.Catalogue.{
  Member, Request, registers, shares, lists, asks, leaves, member_of, member_at, enroll, publish,
  withdraw, serve, serve_all, message, Fits, view, process_all,
}

map-set {ℓ κ} :
    {A : Type ℓ} {B : Type κ} (f : A → B) (xs : List A) (i : ℕ) (v : A)
    → map f (set xs i v) ≡ set (map f xs) i (f v)
map-set f [] i v = refl
map-set f (x ∷ xs) zero v = refl
map-set f (x ∷ xs) (suc i) v = ap (λ r. f x ∷ r) (map-set f xs i v)

get_or-map {ℓ κ} :
    {A : Type ℓ} {B : Type κ} (f : A → B) (xs : List A) (i : ℕ) (d : A)
    → get_or (map f xs) i (f d) ≡ f (get_or xs i d)
get_or-map f [] i d = refl
get_or-map f (x ∷ xs) zero d = refl
get_or-map f (x ∷ xs) (suc i) d = get_or-map f xs i d

member_at-view : (d : Directory) (i : ℕ) → member_at (view d) i ≡ member_of (client_at d i)
member_at-view d i = get_or-map member_of d.clients i blank_client

view-handle_register :
    (d : Directory) (i udp_port : ℕ) → view (handle_register d i udp_port) ≡ enroll i (view d)
unfolding handle_register
view-handle_register d i udp_port =
    ap (λ roster. record (view d) { roster = roster; next_client = u32 (d.next_client_id + 1) })
      (map-set member_of d.clients i _)

view-handle_share_file :
    (d : Directory) (i : ℕ) (share : ShareFile)
    → IsDirectory d
    → view (handle_share_file d i share) ≡ publish i share (view d)
unfolding handle_share_file
view-handle_share_file d i share v =
    let count : length (listed d) ≡ d.num_files =
      omega (arith, length-take d.num_files d.files, v.entries, v.within) in
    elim (Bool-cases (leb max_files d.num_files)) [
      | inl full ↦
          let full' : leb max_files (length (listed d)) ≡ true = ap (leb max_files) count ∙ full in
          rw (full, full') refl
      | inr room ↦
          let room' : leb max_files (length (listed d)) ≡ false = ap (leb max_files) count ∙ room in
          let small : d.num_files < length d.files = ground (arith, v.entries) in
          rw (room, room')
            (ap
                (λ entries. record (view d) {
                  entries = entries;
                  next_file = u32 (d.next_file_id + 1);
                })
                (take-set d.files d.num_files
                  (shared_entry d.next_file_id (client_at d i).client_id share) small)
              ∙ ap {A = Member}
                  (λ m. record (view d) {
                    entries = listed d ++ (shared_entry d.next_file_id m.client_id share ∷ []);
                    next_file = u32 (d.next_file_id + 1);
                  })
                  (sym (member_at-view d i)))
    ]

view-remove_client :
    (d : Directory) (i : ℕ) → IsDirectory d → view (remove_client d i) ≡ withdraw i (view d)
unfolding remove_client
view-remove_client d i v =
    let at = member_at-view d i in
    elim (Bool-cases (client_at d i).active) [
      | inr idle ↦
          let idle' : (member_at (view d) i).active ≡ false = ap (λ m. m.active) at ∙ idle in
          rw (idle, idle') refl
      | inl active ↦
          let active' : (member_at (view d) i).active ≡ true = ap (λ m. m.active) at ∙ active in
          let rest =
            (remove_files-Removes (client_at d i).client_id d.num_files d.files
              (omega (arith, v.entries, v.within))).rest in
          rw (active, active')
            (ap₂ (λ entries roster. record (view d) { entries = entries; roster = roster }) rest
                (map-set member_of d.clients i _)
              ∙ ap {A = Member}
                  (λ m. record (view d) {
                    entries = kept m.client_id (listed d);
                    roster = set (map member_of d.clients) i (record m { active = false });
                  })
                  (sym at))
    ]

view-handle_list_files :
    (malloc : ℕ → Bool) (d : Directory) (i : ℕ) → view (handle_list_files malloc d i) ≡ view d
unfolding handle_list_files
view-handle_list_files malloc d i =
    elim (Bool-cases (malloc (sizeof_tcp_header + d.num_files * sizeof_file_info))) [
      | inl there ↦ rw there refl
      | inr none_left ↦ rw none_left refl
    ]

view-handle_request_file :
    (d : Directory) (i file_id : ℕ) → view (handle_request_file d i file_id) ≡ view d
unfolding handle_request_file
view-handle_request_file d i file_id = elim (Option-cases (find_file d file_id)) [
  | inl missing ↦ rw (missing, handle_request_file) refl
  | inr (k, found) ↦ elim (Option-cases (find_client d (file_at d k).owner_id)) [
    | inl gone ↦ rw (found, handle_request_file, gone) refl
    | inr (j, owner) ↦ rw (found, handle_request_file, owner) refl
  ]
]

-- One message: it does to the view what the request does to the catalogue.
view-process_client_message :
    (malloc : ℕ → Bool) (d : Directory) (i : ℕ) (q : Request)
    → IsDirectory d
    → Fits q
    → view (process_client_message malloc d i (message q)) ≡ serve i q (view d)
unfolding handle_unregister
view-process_client_message malloc d i (registers udp_port) v fits =
    ap (λ d'. view d') (register_message_handled malloc d i udp_port fits)
    ∙ view-handle_register d i udp_port
view-process_client_message malloc d i (shares size hash name) v fits =
    ap (λ d'. view d') (share_message_handled malloc d i size hash name fits.0 fits.1)
    ∙ view-handle_share_file d i _ v
view-process_client_message malloc d i lists v fits =
    ap (λ d'. view d') (list_message_handled malloc d i) ∙ view-handle_list_files malloc d i
view-process_client_message malloc d i (asks file_id) v fits =
    ap (λ d'. view d') (request_message_handled malloc d i file_id fits)
    ∙ view-handle_request_file d i file_id
view-process_client_message malloc d i leaves v fits =
    ap (λ d'. view d') (unregister_message_handled malloc d i) ∙ view-remove_client d i v

-- A valid directory takes any sequence of the clients' requests, in any order, whose fields fit their
-- messages, and has ids left for them. Then what it lists, who is registered under which id, and
-- the next ids are what the operations of the catalogue make of the directory's view at the start, and
-- the directory is valid.
pub process_all-Refines :
    (malloc : ℕ → Bool) (requests : List (ℕ × Request)) (d : Directory)
    → IsDirectory d
    → All (λ q. Fits q.1) requests
    → d.next_file_id + length requests < 2 ^ 32
    → (view (process_all malloc requests d) ≡ serve_all requests (view d))
      × IsDirectory (process_all malloc requests d)
process_all-Refines malloc [] d v fit ids = (refl, v)
process_all-Refines malloc (q ∷ requests) d v fit ids =
    let after = process_client_message malloc d q.0 (message q.1) in
    let f = process_client_message-Follows malloc d v (omega (arith, ids)) q.0 (message q.1) in
    let (same, valid) =
      process_all-Refines malloc requests after f.valid fit.1 (omega (arith, ids, f.next)) in
    (same ∙ ap (serve_all requests) (view-process_client_message malloc d q.0 q.1 v fit.0), valid)
