-- ===== src/Directory/Catalogue.antt =====
-- What skeleton/server.c promises its clients, without slots, arrays and bytes: a catalogue of files and a roster
-- of clients, and the requests as the messages that skeleton/client.c sends.
use cpe_464_program.Base.{
  ℕ, ◌+◌, ◌^◌, ◌<◌, ◌≡◌, Bool, true, false, List, [], ◌∷◌, ◌++◌, map, leb, if◌then◌else◌, length,
  get_or, set, u32,
}
use cpe_464_program.Protocol.Tcp.{ShareFile, filename_of}
use cpe_464_program.Directory.{Client, SharedFile, Directory, max_files, blank_client, listed}
use cpe_464_program.Directory.Messages.{shared_entry, process_client_message}
use cpe_464_program.Directory.Removal.{kept}
use cpe_464_program.Client.Dialogue.{
  register_message, share_message, list_message, request_message, unregister_message,
}

pub record Member : Type 0 where
  pub client_id : ℕ
  pub active : Bool

-- The files on offer in the order of their ids, who is connected at which place, and the next ids.
pub record Catalogue : Type 0 where
  pub entries : List SharedFile
  pub roster : List Member
  pub next_file : ℕ
  pub next_client : ℕ

pub data Request : Type 0 where
  registers : ℕ → Request
  shares : ℕ → List ℕ → List ℕ → Request
  lists : Request
  asks : ℕ → Request
  leaves : Request

abbrev pub member_of : Client → Member
member_of c = record { client_id = c.client_id; active = c.active }

abbrev pub member_at : Catalogue → ℕ → Member
member_at c i = get_or c.roster i (member_of blank_client)

abbrev pub enroll : ℕ → Catalogue → Catalogue
enroll i c = record c {
  roster = set c.roster i (record { client_id = c.next_client; active = true });
  next_client = u32 (c.next_client + 1);
}

abbrev pub publish : ℕ → ShareFile → Catalogue → Catalogue
publish i share c = if leb max_files (length c.entries) then c else record c {
  entries = c.entries ++ (shared_entry c.next_file (member_at c i).client_id share ∷ []);
  next_file = u32 (c.next_file + 1);
}

abbrev pub withdraw : ℕ → Catalogue → Catalogue
withdraw i c =
    let m = member_at c i in
    if m.active
    then record c {
      entries = kept m.client_id c.entries;
      roster = set c.roster i (record m { active = false });
    }
    else c

-- What the client at place `i` asks for, done to the catalogue.
abbrev pub serve : ℕ → Request → Catalogue → Catalogue
serve i (registers udp_port) c = enroll i c
serve i (shares size hash name) c =
    publish i (record { file_size = size; hash = hash; filename = filename_of name }) c
serve i lists c = c
serve i (asks file_id) c = c
serve i leaves c = withdraw i c

abbrev pub serve_all : List (ℕ × Request) → Catalogue → Catalogue
serve_all [] c = c
serve_all (q ∷ requests) c = serve_all requests (serve q.0 q.1 c)

-- The message of a request, as the client sends it.
abbrev pub message : Request → List ℕ
message (registers udp_port) = register_message udp_port
message (shares size hash name) = share_message size hash name
message lists = list_message
message (asks file_id) = request_message file_id
message leaves = unregister_message

-- The fields fit the message.
abbrev pub Fits : Request → Type 0
Fits (registers udp_port) = udp_port < 2 ^ 16
Fits (shares size hash name) = (size < 2 ^ 32) × (length hash ≡ 32)
Fits lists = Unit
Fits (asks file_id) = file_id < 2 ^ 32
Fits leaves = Unit

abbrev pub view : Directory → Catalogue
view d = record {
  entries = listed d;
  roster = map member_of d.clients;
  next_file = d.next_file_id;
  next_client = d.next_client_id;
}

-- The server over a sequence of requests, each from the client at its place.
abbrev pub process_all : (ℕ → Bool) → List (ℕ × Request) → Directory → Directory
process_all malloc [] d = d
process_all malloc (q ∷ requests) d =
    process_all malloc requests (process_client_message malloc d q.0 (message q.1))
