-- ===== src/Directory/Listing.antt =====
-- The length that `handle_list_files` of skeleton/server.c declares, and the bytes that it sends.
use cpe_464_program.Base.{
  ℕ, zero, suc, ◌+◌, ◌*◌, ◌≤◌, ◌≡◌, refl, ap, Bool, true, List, [], ◌∷◌, arith, ◌==◌, u16, length,
  length-append, length-replicate, length-take, All, Bool-cases, inl, inr,
}
use cpe_464_program.Protocol.Udp.{be16}
use cpe_464_program.Protocol.Tcp.{
  strncpy, filename_of, tcp_message, tcp_file_list, err_none, sizeof_tcp_header, sizeof_file_info,
}
use cpe_464_program.Directory.{SharedFile, Directory, listed}
use cpe_464_program.Directory.Messages.{send_response, file_info, file_infos, handle_list_files}
use cpe_464_program.Directory.Invariant.{IsDirectory}

pub length-strncpy : (n : ℕ) (src : List ℕ) → length (strncpy n src) ≡ n
length-strncpy zero src = refl
length-strncpy (suc n) [] = ap suc (length-strncpy n [])
length-strncpy (suc n) (c ∷ src) = elim (Bool-cases (c == 0)) [
  | inl zero_byte ↦ rw zero_byte (length-replicate (suc n) 0)
  | inr char ↦ rw char (ap suc (length-strncpy n src))
]

pub length-file_info :
    (f : SharedFile) → length f.hash ≡ 32 → length (file_info f) ≡ sizeof_file_info
length-file_info f h = omega (
  arith,
  length-append f.hash (1 ∷ filename_of f.filename),
  length-append (strncpy 255 f.filename) (0 ∷ []),
  length-strncpy 255 f.filename,
)

pub length-file_infos :
    (files : List SharedFile)
    → All (λ f. length f.hash ≡ 32) files
    → length (file_infos files) ≡ length files * sizeof_file_info
length-file_infos [] h = refl
length-file_infos (f ∷ files) h = omega (
  arith,
  length-append (file_info f) (file_infos files),
  length-file_info f h.0,
  length-file_infos files h.1,
)

-- A server whose tables are in order, whose listed files have hashes of 32 bytes, and for which `malloc`
-- succeeds answers a request for the list with one message. While it lists at most 220 files, the length
-- that the message's header declares is the length of what follows the header.
pub handle_list_files_framed :
    (malloc : ℕ → Bool) (d : Directory) (i : ℕ)
    → IsDirectory d
    → All (λ f. length f.hash ≡ 32) (listed d)
    → malloc (sizeof_tcp_header + d.num_files * sizeof_file_info) ≡ true
    → d.num_files ≤ 220
    → (bytes : List ℕ) × (handle_list_files malloc d i ≡ send_response d i bytes)
      × (sizeof_tcp_header + be16 bytes 2 ≡ length bytes)
unfolding handle_list_files
handle_list_files_framed malloc d i v hashes memory few = (
  tcp_message tcp_file_list err_none (u16 (d.num_files * sizeof_file_info)) (file_infos (listed d)),
  rw (memory, handle_list_files) refl,
  omega (
    arith,
    length-file_infos (listed d) hashes,
    length-take d.num_files d.files,
    v.entries,
    v.within,
  ),
)
