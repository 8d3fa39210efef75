-- ===== src/Client/Together.antt =====
-- Two clients of skeleton/client.c and the server of skeleton/server.c: one shares a file, the other asks for it.
mod Tests
use cpe_464_program.Base.{
  ℕ, ◌+◌, ◌^◌, ◌≤◌, ◌<◌, ◌≡◌, refl, Bool, true, false, Option, some, List, [], ◌∷◌, length,
  length-append,
}
use native.Mathlib.Nat.{le_refl}
use cpe_464_program.Transfer.Sender.{Addr}
use cpe_464_program.Directory.{Client, SharedFile, Directory, max_files, find_file}
use cpe_464_program.Directory.Invariant.{IsDirectory}
use cpe_464_program.Directory.Lookup.{find_file-shared}
use cpe_464_program.Shares.{OfferedFile, Shares}
use cpe_464_program.Client.{World}
use cpe_464_program.Client.Dialogue.{share_message}
use cpe_464_program.Client.Dialogue.Laws.{IsReady}
use cpe_464_program.Client.Owner.{Owner}

module _ (read_file : List ℕ → Option (List ℕ)) (sha256 : List ℕ → List ℕ)
    (filename contents : List ℕ) (got : read_file filename ≡ some contents)
    (small : length contents < 2 ^ 32) (digest : length (sha256 contents) ≡ 32) (malloc : ℕ → Bool)
    (d : Directory) (i j : ℕ) (v : IsDirectory d) (room : d.num_files < max_files)
    (ids : d.next_file_id < 2 ^ 32) (owner other : World) (ready : IsReady 296 8 owner.socket)
    (asks : IsReady 8 306 other.socket) (rest left : List ℕ) where
  abbrev offer : List ℕ
  offer = share_message (length contents) (sha256 contents) filename
