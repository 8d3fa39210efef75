-- ===== src/Client/Dialogue/Tests.antt =====
-- A client and a server with one other client, message by message.
use cpe_464_program.Base.{
  ℕ, ◌^◌, ◌≡◌, ◌<◌, refl, Bool, true, Option, some, List, [], ◌∷◌, ◌++◌, arith, replicate,
}
use cpe_464_program.Directory.{
  client_at, find_client, find_file, find_client_by_fd, blank_client, file_at,
}
use cpe_464_program.Directory.Messages.{
  process_client_message, handle_share_file, handle_register, handle_events, handle_event,
  accept_new_client, client_readable, dispatch,
}
use cpe_464_program.Directory.Requests.{last_reply}
use cpe_464_program.Directory.Tests.{joined, shared}
use cpe_464_program.Shares.{no_shares}
use cpe_464_program.Client.{World, Arrival}
use cpe_464_program.Client.Tests.{single, single-IsLive}
use cpe_464_program.Client.Dialogue.{Location, share_message, list_message, request_message, locate}
use cpe_464_program.Client.Dialogue.Laws.{IsReady}
use cpe_464_program.Client.Dialogue.Laws.Fields.{IsEncodable, location_of}
use cpe_464_program.Client.Dialogue.Laws.Locate.{locate_found}

abbrev pub server_malloc : ℕ → Bool
server_malloc n = true

-- A client whose connection brings the given bytes, one at a time.
abbrev pub facing : ℕ → ℕ → List ℕ → World
facing sends receives incoming = record {
  socket = record {
    incoming = incoming;
    recv_sizes = single receives;
    outgoing = [];
    send_sizes = single sends;
  };
  shares = no_shares;
  arrivals = [];
  sent = [];
  saved = [];
}

pub facing-IsReady :
    (sends receives : ℕ) (incoming : List ℕ)
    → IsReady sends receives (facing sends receives incoming).socket
facing-IsReady sends receives incoming = record {
  sends = single-IsLive sends;
  receives = single-IsLive receives;
}

abbrev pub text : List ℕ
text = 7 ∷ 8 ∷ 9 ∷ []

abbrev pub name : List ℕ
name = 97 ∷ 98 ∷ []

abbrev pub on_disk : List ℕ → Option (List ℕ)
on_disk filename = some text

abbrev pub digest : List ℕ → List ℕ
digest contents = replicate 32 1

abbrev pub sharing : World
sharing = facing 296 8 (
    last_reply
      (process_client_message server_malloc joined 0 (share_message 3 (digest text) name)).replies
    ++ [])

pub ids : joined.next_file_id < 2 ^ 32
unfolding handle_events handle_event accept_new_client client_readable find_client_by_fd
    process_client_message dispatch handle_register blank_client
ids = omega arith

abbrev asking : World
asking =
    facing 8 306
      (last_reply (process_client_message server_malloc shared 1 (request_message 1)).replies ++ [])

found : find_file shared 1 ≡ some 0
unfolding handle_events handle_event accept_new_client client_readable find_client_by_fd
    process_client_message dispatch handle_register blank_client handle_share_file find_file
found = refl

owned : find_client shared (file_at shared 0).owner_id ≡ some 0
unfolding handle_events handle_event accept_new_client client_readable find_client_by_fd
    process_client_message dispatch handle_register blank_client handle_share_file find_client
owned = refl

numbered : (file_at shared 0).file_id ≡ 1
unfolding handle_events handle_event accept_new_client client_readable find_client_by_fd
    process_client_message dispatch handle_register blank_client handle_share_file
numbered = refl

encodable : IsEncodable (file_at shared 0)
unfolding handle_events handle_event accept_new_client client_readable find_client_by_fd
    process_client_message dispatch handle_register blank_client handle_share_file
encodable = record { id_fits = omega arith; size_fits = omega arith; hash_fits = refl }

address : ((client_at shared 0).addr.ip < 2 ^ 32) × ((client_at shared 0).udp_port < 2 ^ 16)
unfolding handle_events handle_event accept_new_client client_readable find_client_by_fd
    process_client_message dispatch handle_register blank_client handle_share_file
address = (omega arith, omega arith)

locate_found_example :
    ((locate 1 asking).0 ≡ some (location_of (file_at shared 0) (client_at shared 0)))
    × ((locate 1 asking).1.socket.outgoing ≡ [] ++ request_message 1)
    × ((locate 1 asking).1.socket.incoming ≡ [])
locate_found_example =
    locate_found server_malloc shared 1 asking [] 0 0 1 found owned numbered encodable address.0
      address.1 (facing-IsReady 8 306 asking.socket.incoming) refl

abbrev pub located_at : Location
located_at = location_of (file_at shared 0) (client_at shared 0)

abbrev pub asking_with : List (Option Arrival) → World
asking_with arrivals = record asking { arrivals = arrivals }

pub located :
    (arrivals : List (Option Arrival)) → (locate 1 (asking_with arrivals)).0 ≡ some located_at
located arrivals =
    (locate_found server_malloc shared 1 (asking_with arrivals) [] 0 0 1 found owned numbered
      encodable address.0 address.1 (facing-IsReady 8 306 asking.socket.incoming) refl).0

pub located_hash : located_at.hash ≡ replicate 32 1
unfolding handle_events handle_event accept_new_client client_readable find_client_by_fd
    process_client_message dispatch handle_register blank_client handle_share_file
located_hash = refl

pub located_peer : (located_at.peer_ip ≡ 16777343) × (located_at.peer_port ≡ 8080)
unfolding handle_events handle_event accept_new_client client_readable find_client_by_fd
    process_client_message dispatch handle_register blank_client handle_share_file
located_peer = (refl, refl)

abbrev listing : World
listing =
    facing 4 301
      (last_reply (process_client_message server_malloc shared 1 list_message).replies ++ [])
