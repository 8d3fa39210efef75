-- ===== src/Directory/Tests.antt =====
-- A server with two clients, of which the first shares a file.
use cpe_464_program.Base.{
  ℕ, ◌<◌, ◌≡◌, refl, Bool, true, some, List, [], ◌∷◌, arith, get_or, replicate, All, length, ◌+◌,
  ◌^◌,
}
use cpe_464_program.Protocol.Tcp.{ShareFile, err_file_not_found, sizeof_tcp_header}
use cpe_464_program.Transfer.Sender.{Addr}
use cpe_464_program.Directory.{
  Directory, max_files, initial, blank_client, blank_file, client_at, listed, find_client,
  find_client_by_fd,
}
use cpe_464_program.Directory.Messages.{
  send_response, error_reply, handle_share_file, handle_request_file, handle_unregister,
  handle_register, dispatch, process_client_message, accept_new_client, client_readable, Event,
  connection, readable, handle_event, handle_events, handle_list_files,
}
use cpe_464_program.Directory.Lookup.{handle_request_file-handle_unregister}
use cpe_464_program.Directory.Invariant.{IsDirectory, initial-IsDirectory}
use cpe_464_program.Directory.Listing.{handle_list_files_framed}
use cpe_464_program.Protocol.Udp.{be16}
use cpe_464_program.Directory.Catalogue.{
  Request, shares, asks, lists, leaves, view, process_all, serve_all,
}
use cpe_464_program.Directory.Owners.{find_client-client_at}
use cpe_464_program.Directory.Refine.{process_all-Refines}
use cpe_464_program.Directory.Events.{handle_events-IsDirectory}

abbrev malloc : ℕ → Bool
malloc n = true

abbrev pub home : Addr
home = record { ip = 16777343; port = 40000 }

-- Two clients connect, and the first registers with UDP port 8080.
abbrev joining : List Event
joining =
    connection (some (5, home))
    ∷ readable 5 (some (1 ∷ 0 ∷ 0 ∷ 2 ∷ 31 ∷ 144 ∷ []))
    ∷ connection (some (6, home))
    ∷ []

abbrev pub joined : Directory
joined = handle_events malloc initial joining

abbrev pub notes : ShareFile
notes = record { file_size = 3; hash = replicate 32 1; filename = 97 ∷ 98 ∷ [] }

abbrev pub shared : Directory
shared = handle_share_file joined 0 notes

handle_events-IsDirectory_example : IsDirectory (handle_events malloc initial joining)
handle_events-IsDirectory_example =
    handle_events-IsDirectory malloc initial joining initial-IsDirectory (omega arith)

pub joined-IsDirectory : IsDirectory joined
joined-IsDirectory =
    handle_events-IsDirectory malloc initial joining initial-IsDirectory (omega arith)

pub room : joined.num_files < max_files
unfolding handle_events handle_event accept_new_client client_readable find_client_by_fd
    process_client_message dispatch handle_register blank_client
room = omega arith

pub owner : find_client joined (client_at joined 0).client_id ≡ some 0
unfolding handle_events handle_event accept_new_client client_readable find_client_by_fd
    process_client_message dispatch handle_register blank_client find_client
owner = refl

first_active : (client_at (handle_events malloc initial joining) 0).active ≡ true
unfolding handle_events handle_event accept_new_client client_readable find_client_by_fd
    process_client_message dispatch handle_register blank_client
first_active = refl

find_client-client_at_example :
    find_client
      (handle_events malloc initial joining)
      (client_at (handle_events malloc initial joining) 0).client_id
    ≡ some 0
find_client-client_at_example = find_client-client_at malloc joining 0 (omega arith) first_active

ids_left : joined.next_file_id + 4 < 2 ^ 32
unfolding handle_events handle_event accept_new_client client_readable find_client_by_fd
    process_client_message dispatch handle_register blank_client
ids_left = omega arith

-- The first client shares a file, the second asks for it, and the first leaves.
abbrev requests : List (ℕ × Request)
requests = (0, shares 3 (replicate 32 1) (97 ∷ [])) ∷ (1, asks 1) ∷ (1, lists) ∷ (0, leaves) ∷ []

process_all-Refines_example :
    (view (process_all malloc requests joined) ≡ serve_all requests (view joined))
    × IsDirectory (process_all malloc requests joined)
process_all-Refines_example =
    process_all-Refines malloc requests joined joined-IsDirectory
      ((omega arith, refl), (omega arith, (tt, (tt, tt)))) ids_left

-- The message by which the first client shares a file without a name.
abbrev sharing : List Event
sharing =
    connection (some (5, home))
    ∷ readable 5 (some (1 ∷ 0 ∷ 0 ∷ 2 ∷ 31 ∷ 144 ∷ []))
    ∷ readable 5 (some (3 ∷ 0 ∷ 1 ∷ 36 ∷ replicate 292 0))
    ∷ []

abbrev offering : Directory
offering = handle_events malloc initial sharing

offering-IsDirectory : IsDirectory offering
offering-IsDirectory =
    handle_events-IsDirectory malloc initial sharing initial-IsDirectory (omega arith)

one_file : offering.num_files ≡ 1
unfolding handle_events handle_event accept_new_client client_readable find_client_by_fd
    process_client_message dispatch handle_register handle_share_file blank_client
one_file = refl

registered : (client_at offering 0).active ≡ true
unfolding handle_events handle_event accept_new_client client_readable find_client_by_fd
    process_client_message dispatch handle_register handle_share_file blank_client
registered = refl

theirs : (get_or (listed offering) 0 blank_file).owner_id ≡ (client_at offering 0).client_id
unfolding handle_events handle_event accept_new_client client_readable find_client_by_fd
    process_client_message dispatch handle_register handle_share_file blank_client blank_file
theirs = refl

handle_request_file-handle_unregister_example :
    handle_request_file
      (handle_unregister offering 0)
      1
      (get_or (listed offering) 0 blank_file).file_id
    ≡ send_response (handle_unregister offering 0) 1 (error_reply err_file_not_found)
handle_request_file-handle_unregister_example =
    handle_request_file-handle_unregister offering 0 1 0 offering-IsDirectory registered
      (omega (arith, one_file)) theirs

hashes : All (λ f. length f.hash ≡ 32) (listed offering)
unfolding handle_events handle_event accept_new_client client_readable find_client_by_fd
    process_client_message dispatch handle_register handle_share_file blank_client blank_file
hashes = (refl, tt)

handle_list_files_framed_example :
    (bytes : List ℕ) × (handle_list_files malloc offering 0 ≡ send_response offering 0 bytes)
    × (sizeof_tcp_header + be16 bytes 2 ≡ length bytes)
handle_list_files_framed_example =
    handle_list_files_framed malloc offering 0 offering-IsDirectory hashes refl
      (omega (arith, one_file))
