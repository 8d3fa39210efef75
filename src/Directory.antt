-- ===== src/Directory.antt =====
-- skeleton/server.c: the directory server's state and the functions that look it up or clear it.
-- The static variables are the fields of `Directory`; a `client_t *` is an index into `clients`, and a
-- `shared_file_t *` an index into `files`. What is printed is left out.
pub mod Messages
pub mod Removal
pub mod Lookup
pub mod Invariant
pub mod Cases
pub mod Events
pub mod Ids
pub mod Owners
pub mod Listing
pub mod Requests
pub mod Catalogue
pub mod Refine
pub mod Tests
use cpe_464_program.Base.{
  ℕ, zero, suc, ◌+◌, ◌-◌, Bool, true, false, ◌&&◌, Option, none, some, List, [], ◌∷◌, ◌++◌, ltb,
  ◌==◌, if◌then◌else◌, get_or, set, take, replicate,
}
use cpe_464_program.Transfer.Sender.{Addr}

abbrev pub max_clients : ℕ
max_clients = 256

abbrev pub max_files : ℕ
max_files = 1024

-- `client_t`; an `fd` of -1 is `none`.
pub record Client : Type 0 where
  pub fd : Option ℕ
  pub client_id : ℕ
  pub addr : Addr
  pub udp_port : ℕ
  pub active : Bool

-- `shared_file_t`.
pub record SharedFile : Type 0 where
  pub file_id : ℕ
  pub file_size : ℕ
  pub hash : List ℕ
  pub filename : List ℕ
  pub owner_id : ℕ

-- A call of `send` on a client's socket.
pub record Reply : Type 0 where
  pub to : Option ℕ
  pub bytes : List ℕ

-- The static variables, with the sockets that were closed and the replies that were sent.
pub record Directory : Type 0 where
  pub clients : List Client
  pub files : List SharedFile
  pub next_client_id : ℕ
  pub next_file_id : ℕ
  pub num_clients : ℕ
  pub num_files : ℕ
  pub closed : List (Option ℕ)
  pub replies : List Reply

unfoldable pub blank_client : Client
blank_client = record {
  fd = some 0;
  client_id = 0;
  addr = record { ip = 0; port = 0 };
  udp_port = 0;
  active = false;
}

unfoldable pub blank_file : SharedFile
blank_file = record {
  file_id = 0;
  file_size = 0;
  hash = replicate 32 0;
  filename = replicate 256 0;
  owner_id = 0;
}

-- The state before the event loop.
abbrev pub initial : Directory
initial = record {
  clients = replicate max_clients blank_client;
  files = replicate max_files blank_file;
  next_client_id = 1;
  next_file_id = 1;
  num_clients = 0;
  num_files = 0;
  closed = [];
  replies = [];
}

abbrev pub client_at : Directory → ℕ → Client
client_at d i = get_or d.clients i blank_client

abbrev pub file_at : Directory → ℕ → SharedFile
file_at d i = get_or d.files i blank_file

-- The files in the table.
abbrev pub listed : Directory → List SharedFile
listed d = take d.num_files d.files

-- A loop `for (i = 0; ...; i++) if (test) return &array[i]; return NULL`.
abbrev pub find_index {ℓ} : {A : Type ℓ} → (A → Bool) → List A → Option ℕ
find_index test [] = none
find_index test (x ∷ xs) =
    if test x then some 0 else elim (find_index test xs) [ none ↦ none | some i ↦ some (suc i) ]

abbrev pub has_fd : ℕ → Client → Bool
has_fd fd c = elim c.fd [ none ↦ false | some f ↦ f == fd && ltb 0 f ]

unfoldable pub find_client : Directory → ℕ → Option ℕ
find_client d client_id = find_index (λ c. c.active && c.client_id == client_id) d.clients

unfoldable pub find_client_by_fd : Directory → ℕ → Option ℕ
find_client_by_fd d fd = find_index (has_fd fd) d.clients

unfoldable pub find_file : Directory → ℕ → Option ℕ
find_file d file_id = find_index (λ f. f.file_id == file_id) (listed d)

-- The inner loop of `remove_client`: `count` files move one place down, from place `j` on.
unfoldable pub shift_down : ℕ → List SharedFile → ℕ → List SharedFile
shift_down zero files j = files
shift_down (suc count) files j =
    shift_down count (set files j (get_or files (j + 1) blank_file)) (j + 1)

-- The outer loop, with fuel `num_files - i`, which each round makes one less: the files and `num_files`
-- after it.
unfoldable pub remove_files : ℕ → ℕ → List SharedFile → ℕ → ℕ → List SharedFile × ℕ
remove_files owner zero files num i = (files, num)
remove_files owner (suc fuel) files num i = elim ((get_or files i blank_file).owner_id == owner) [
  | true ↦ remove_files owner fuel (shift_down (num - 1 - i) files i) (num - 1) i
  | false ↦ remove_files owner fuel files num (i + 1)
]

-- `remove_client` of a client that is not null.
unfoldable pub remove_client : Directory → ℕ → Directory
remove_client d i =
    let client = client_at d i in
    let (files, num) = remove_files client.client_id d.num_files d.files d.num_files 0 in
    if client.active
    then record d {
      files = files;
      num_files = num;
      closed = d.closed ++ (client.fd ∷ []);
      clients = set d.clients i (record client { fd = none; active = false });
      num_clients = d.num_clients - 1;
    }
    else d
