-- ===== src/Client/Command/Tests.antt =====
-- Lines that a user types.
use native.Mathlib.Nat.{le_refl}
use mathlib.Core.Path.{subst}
use cpe_464_program.Base.{
  ℕ, zero, suc, ◌+◌, ◌≡◌, refl, sym, ap, Bool, true, false, Option, some, List, [], ◌∷◌, ◌++◌,
  arith, replicate, if◌then◌else◌, length, take-all,
}
use cpe_464_program.Transfer.Sender.{Datagram}
use cpe_464_program.Directory.{Directory, SharedFile, max_files, initial, client_at, listed}
use cpe_464_program.Directory.Invariant.{IsDirectory, Ascending, initial-IsDirectory}
use cpe_464_program.Directory.Messages.{process_client_message}
use cpe_464_program.Directory.Removal.{kept}
use cpe_464_program.Directory.Requests.{last_reply}
use cpe_464_program.Directory.Tests.{joined, joined-IsDirectory}
use cpe_464_program.Client.{World}
use cpe_464_program.Client.Tests.{single-IsLive}
use cpe_464_program.Client.Dialogue.{share_message, unregister_message, quit}
use cpe_464_program.Client.Dialogue.Tests.{facing, facing-IsReady, text, name, on_disk, digest}
use cpe_464_program.Client.Command.{
  blank, unknown, usage, invalid_id, share_file, get_file, quit_client, word_share, word_get,
  word_quit, word_list, parse_command, handle_command, strtoul,
}
use cpe_464_program.Client.Command.Laws.{decimal, parse_get, parse_share}
use cpe_464_program.Client.Command.Server.{quit_unregisters, share_refused_ends}

parse_get_example :
    parse_command (word_get ++ (32 ∷ (decimal 10 1025 ++ (10 ∷ [])))) ≡ get_file 1025
parse_get_example = parse_get 1025 (omega arith)

-- `share my file`
parse_share_example :
    parse_command
      (word_share ++ (32 ∷ ((109 ∷ 121 ∷ 32 ∷ 102 ∷ 105 ∷ 108 ∷ 101 ∷ []) ++ (10 ∷ []))))
    ≡ share_file (109 ∷ 121 ∷ 32 ∷ 102 ∷ 105 ∷ 108 ∷ 101 ∷ [])
parse_share_example =
    parse_share 109 (121 ∷ 32 ∷ 102 ∷ 105 ∷ 108 ∷ 101 ∷ []) refl
      (refl, (refl, (refl, (refl, (refl, (refl, (refl, tt))))))) (omega arith)

-- `get 4294967297`: the number is cut to 32 bits.
get_cut :
    parse_command (word_get ++ (32 ∷ 52 ∷ 50 ∷ 57 ∷ 52 ∷ 57 ∷ 54 ∷ 55 ∷ 50 ∷ 57 ∷ 55 ∷ 10 ∷ []))
    ≡ get_file 1
unfolding parse_command strtoul
get_cut = refl

-- `get -1`
get_negative : parse_command (word_get ++ (32 ∷ 45 ∷ 49 ∷ 10 ∷ [])) ≡ get_file 4294967295
unfolding parse_command strtoul
get_negative = refl

-- `get 1x`, `get` and `list 1`
wrong_lines :
    (parse_command (word_get ++ (32 ∷ 49 ∷ 120 ∷ 10 ∷ [])) ≡ invalid_id)
    × (parse_command (word_get ++ (32 ∷ 10 ∷ [])) ≡ usage)
    × (parse_command (word_list ++ (32 ∷ 49 ∷ 10 ∷ [])) ≡ unknown)
    × (parse_command (32 ∷ 9 ∷ 10 ∷ []) ≡ blank)
unfolding parse_command strtoul
wrong_lines = (refl, refl, refl, refl)

abbrev line_quit : List ℕ
line_quit = word_quit ++ (10 ∷ [])

quit_read : parse_command line_quit ≡ quit_client
unfolding parse_command
quit_read = refl

abbrev sendto : Datagram → Bool
sendto d = true

abbrev malloc : ℕ → Option (List ℕ)
malloc n = some (replicate n 0)

abbrev server_malloc : ℕ → Bool
server_malloc n = true

abbrev writable : List ℕ → Option (ℕ → ℕ)
writable filename = some (λ size. size)

quit_unregisters_example :
    (handle_command 4 sendto malloc digest writable on_disk line_quit (facing 4 0 [])
      ≡ some (false, quit (facing 4 0 [])))
    × ((quit (facing 4 0 [])).shares ≡ (facing 4 0 []).shares)
    × ((quit (facing 4 0 [])).socket.outgoing ≡ [] ++ unregister_message)
    × (listed (process_client_message server_malloc joined 0 unregister_message) ≡ (
        if (client_at joined 0).active
        then kept (client_at joined 0).client_id (listed joined)
        else listed joined))
quit_unregisters_example =
    quit_unregisters 4 sendto malloc digest writable on_disk server_malloc joined 0
      joined-IsDirectory line_quit (facing 4 0 []) quit_read (single-IsLive 4)

-- A server whose table is full.
abbrev files_from : ℕ → ℕ → List SharedFile
files_from zero id = []
files_from (suc n) id =
    record { file_id = id; file_size = 3; hash = []; filename = name; owner_id = 1 }
    ∷ files_from n (id + 1)

length-files_from : (n id : ℕ) → length (files_from n id) ≡ n
length-files_from zero id = refl
length-files_from (suc n) id = ap suc (length-files_from n (id + 1))

files_from-Ascending : (n id : ℕ) → Ascending id (id + n) (files_from n id)
files_from-Ascending zero id = omega arith
files_from-Ascending (suc n) id = (
  le_refl id,
  subst (λ hi. Ascending (id + 1) hi (files_from n (id + 1))) (omega arith)
      (files_from-Ascending n (id + 1)),
)

module _ (files : List SharedFile) where
  abbrev holding : Directory
  holding = record initial { files = files; num_files = max_files; next_file_id = 1025 }

  holding-IsDirectory : length files ≡ max_files → Ascending 1 1025 files → IsDirectory holding
  holding-IsDirectory long ascending = record {
    slots = initial-IsDirectory.slots;
    entries = long;
    within = le_refl _;
    ascending =
        subst (λ l. Ascending 1 1025 l) (sym (take-all max_files files (omega (arith, long))))
          ascending;
  }

abbrev full : Directory
full = holding (files_from max_files 1)

full-IsDirectory : IsDirectory full
full-IsDirectory =
    holding-IsDirectory (files_from max_files 1) (length-files_from max_files 1)
      (files_from-Ascending max_files 1)

abbrev line_share : List ℕ
line_share = word_share ++ (32 ∷ (name ++ (10 ∷ [])))

share_read : parse_command line_share ≡ share_file name
unfolding parse_command
share_read = refl

abbrev refused : World
refused = facing 296 8 (
    last_reply
      (process_client_message server_malloc full 0 (share_message 3 (digest text) name)).replies
    ++ [])

share_refused_ends_example :
    (w' : World) × (handle_command 4 sendto malloc digest writable on_disk line_share refused
      ≡ some (false, quit w'))
    × (w'.shares ≡ refused.shares)
    × (w'.socket.incoming ≡ [])
share_refused_ends_example =
    share_refused_ends 4 sendto malloc digest writable on_disk name text refl (omega arith) refl
      server_malloc full 0 full-IsDirectory refused (facing-IsReady 296 8 refused.socket.incoming)
      [] refl (le_refl _) line_share share_read
