-- ===== src/Program/Tests.antt =====
-- The programs on concrete arguments.
use mathlib.Core.Option.{some-injective}
use cpe_464_program.Base.{
  ℕ, ◌≡◌, ◌≢◌, refl, ap, Bool, true, false, Option, none, some, List, [], ◌∷◌, ◌++◌, arith,
  replicate, take, map,
}
use cpe_464_program.Transfer.Sender.{Addr, Datagram}
use cpe_464_program.Directory.{initial, find_client_by_fd, blank_client}
use cpe_464_program.Directory.Messages.{
  accept_new_client, client_readable, process_client_message, dispatch, handle_register,
}
use cpe_464_program.Client.{Socket, World}
use cpe_464_program.Directory.Invariant.{initial-IsDirectory}
use cpe_464_program.Directory.Requests.{last_reply}
use cpe_464_program.Client.Tests.{single, single-IsLive}
use cpe_464_program.Client.Dialogue.Laws.Register.{IsRegistered}
use cpe_464_program.Program.ClientMain.Joins.{loop_and_close, client_main_joins}
use cpe_464_program.Client.Command.{word_quit}
use cpe_464_program.Client.Command.Laws.{decimal}
use cpe_464_program.Client.Dialogue.{register_message}
use cpe_464_program.Client.Main.{Poll, polled}
use cpe_464_program.Client.Owner.{OpenFile}
use cpe_464_program.Program.{get_time_ms, port_of, create_udp_socket, create_tcp_socket}
use cpe_464_program.Program.ClientMain.{
  ClientCalls, ClientExit, refused, ended, client_main, open_udp, connect_server,
}
use cpe_464_program.Program.ClientMain.Closes.{IsClientExit, client_main-IsClientExit}
use cpe_464_program.Program.ServerMain.{
  ServerCalls, Report, poll_failed, interrupted, ready, server_main, server_loop, read_clients,
}
use cpe_464_program.Program.ServerMain.Closes.{IsServerExit, server_main-IsServerExit}

abbrev address : List ℕ
address = 49 ∷ 48 ∷ []

abbrev listener : Addr
listener = record { ip = 16777343; port = 9000 }

port_read : (port_of (decimal 5 9000) ≡ 9000) × (port_of (45 ∷ 49 ∷ []) ≡ 65535) × (port_of [] ≡ 0)
unfolding port_of
port_read = (refl, refl, refl)

abbrev client_calls : ClientCalls
client_calls = record {
  udp_socket = some 3;
  udp_reuse = true;
  bind = λ fd addr. true;
  getsockname = some 8080;
  time = 1;
  tcp_socket = some 4;
  tcp_reuse = true;
  inet_pton = λ s. some 16777343;
  connect = λ addr. true;
}

abbrev client_argv : List (List ℕ)
client_argv = (99 ∷ []) ∷ address ∷ decimal 5 9000 ∷ []

-- The acknowledgement of the registration, with the id 1.
abbrev socket : Socket
socket = record {
  incoming = 2 ∷ 0 ∷ 0 ∷ 4 ∷ 0 ∷ 0 ∷ 0 ∷ 1 ∷ [];
  recv_sizes = some 4 ∷ some 4 ∷ [];
  outgoing = [];
  send_sizes = some 6 ∷ some 4 ∷ [];
}

abbrev sendto : Datagram → Bool
sendto d = true

abbrev malloc : ℕ → Option (List ℕ)
malloc n = some (replicate n 0)

abbrev digest : List ℕ → List ℕ
digest contents = replicate 32 1

abbrev writable : List ℕ → Option (ℕ → ℕ)
writable filename = some (λ size. size)

abbrev read_file : List ℕ → Option (List ℕ)
read_file filename = none

abbrev on_disk : OpenFile
on_disk = record { size = 3; contents = 7 ∷ 8 ∷ 9 ∷ [] }

abbrev fopen : List ℕ → Option OpenFile
fopen name = some on_disk

abbrev quits : List Poll
quits =
    polled (record {
      line = some (word_quit ++ (10 ∷ []));
      datagram = false;
      opened_at = 1;
      sent_at = 2;
      checked_at = 3;
    })
    ∷ []

different : (a b : ℕ) → some 3 ≡ some a → some 4 ≡ some b → b ≢ a
different a b first second same =
    omega (arith, some-injective 3 a first, some-injective 4 b second, same)

client_main-IsClientExit_example : IsClientExit (0 ∷ 1 ∷ 2 ∷ []) quits (
    client_main sendto malloc digest writable read_file fopen client_calls client_argv socket []
      quits
      (0 ∷ 1 ∷ 2 ∷ []))
client_main-IsClientExit_example =
    client_main-IsClientExit sendto malloc digest writable read_file fopen
      (λ name file opened. omega (arith, ap (λ f. f.size) (some-injective on_disk file opened)))
      client_calls client_argv socket [] quits (0 ∷ 1 ∷ 2 ∷ []) different

abbrev has_memory : ℕ → Bool
has_memory n = true

abbrev server_calls : ServerCalls
server_calls = record {
  tcp_socket = some 3;
  tcp_reuse = true;
  bind = λ fd addr. true;
  getsockname = some 9000;
  listen = λ fd. true;
}

-- A client connects and registers; then `poll` fails.
abbrev rounds : List Report
rounds =
    ready (some (some (4, listener))) []
    ∷ interrupted
    ∷ ready none (some (some (register_message 8080)) ∷ [])
    ∷ poll_failed
    ∷ []

server_main-IsServerExit_example :
    IsServerExit
      (0 ∷ 1 ∷ 2 ∷ [])
      (server_main has_memory server_calls ((115 ∷ []) ∷ []) rounds (0 ∷ 1 ∷ 2 ∷ []))
server_main-IsServerExit_example =
    server_main-IsServerExit has_memory server_calls ((115 ∷ []) ∷ []) rounds (0 ∷ 1 ∷ 2 ∷ [])
      (omega arith)

abbrev left_open : Option ClientExit → ℕ × List ℕ
left_open none = (2, [])
left_open (some (refused fds)) = (1, fds)
left_open (some (ended n fds)) = (0, fds)

-- Without arguments, and without a server.
early_returns :
    (left_open (
        client_main sendto malloc digest writable read_file fopen client_calls [] socket [] quits
          (7 ∷ []))
      ≡ (1, 7 ∷ []))
    × (left_open (
          client_main sendto malloc digest writable read_file fopen
            (record client_calls { connect = λ addr. false })
            client_argv
            socket
            []
            quits
            (7 ∷ []))
        ≡ (1, 7 ∷ []))
unfolding client_main open_udp create_udp_socket connect_server create_tcp_socket port_of
early_returns = (refl, refl)

-- One client is registered, with the port that it has sent.
registered :
    map {B = ℕ × ℕ × Bool}
      (λ c. (c.client_id, c.udp_port, c.active))
      (take 1 (server_loop has_memory rounds initial).clients)
    ≡ (1, 8080, true) ∷ []
unfolding server_loop read_clients accept_new_client client_readable process_client_message dispatch
    handle_register find_client_by_fd blank_client
registered = refl

-- The server's answer to the registration from its first slot.
abbrev answered : Socket
answered = record {
  incoming =
      last_reply (process_client_message has_memory initial 0 (register_message 8080)).replies
      ++ [];
  recv_sizes = single 8;
  outgoing = [];
  send_sizes = single 6;
}

bound_there : open_udp client_calls client_argv [] ≡ (some (3, 8080), 3 ∷ [])
unfolding open_udp create_udp_socket
bound_there = refl

connected_there : connect_server client_calls client_argv 3 (3 ∷ []) ≡ (some 4, 4 ∷ 3 ∷ [])
unfolding connect_server create_tcp_socket
connected_there = refl

client_main_joins_example :
    (w : World) × (client_main sendto malloc digest writable read_file fopen client_calls
        client_argv answered [] quits []
      ≡ loop_and_close sendto malloc digest writable read_file fopen 3 4 quits w (4 ∷ 3 ∷ []))
    × (w.socket.outgoing ≡ [] ++ register_message 8080)
    × (w.socket.incoming ≡ [])
    × IsRegistered (process_client_message has_memory initial 0 (register_message 8080)) 0 1 8080
client_main_joins_example =
    client_main_joins sendto malloc digest writable read_file fopen has_memory initial 0 []
      client_calls client_argv answered [] quits [] (3 ∷ []) (4 ∷ 3 ∷ []) 3 4 8080 (omega arith)
      bound_there connected_there (omega (arith, initial-IsDirectory.slots)) (omega arith)
      (omega arith) (record { sends = single-IsLive 6; receives = single-IsLive 8 }) refl

one_and_a_half : get_time_ms 1 500000 ≡ 1500
one_and_a_half = refl
