-- ===== src/Program/ClientMain/Joins.antt =====
-- How `main` of skeleton/client.c enters its loop, with skeleton/server.c on the other end.
use cpe_464_program.Base.{
  ℕ, ◌≤◌, ◌^◌, ◌<◌, ◌≡◌, refl, ◌∙◌, Bool, false, Option, none, some, List, ◌++◌, arith, ltb, length,
}
use cpe_464_program.Transfer.Sender.{Datagram}
use cpe_464_program.Directory.{Directory}
use cpe_464_program.Directory.Messages.{process_client_message}
use cpe_464_program.Directory.Requests.{last_reply}
use cpe_464_program.Client.{Socket, Arrival, World}
use cpe_464_program.Client.Dialogue.{register, register_message}
use cpe_464_program.Client.Dialogue.Laws.{IsReady}
use cpe_464_program.Client.Dialogue.Laws.Register.{IsRegistered, register_agrees}
use cpe_464_program.Client.Owner.{OpenFile}
use cpe_464_program.Client.Main.{Poll, main_loop}
use cpe_464_program.Program.{close}
use cpe_464_program.Program.ClientMain.{
  ClientCalls, open_udp, connect_server, new_world, new_node, ClientExit, ended, run_client,
  client_main,
}

module _ (sendto : Datagram → Bool) (malloc : ℕ → Option (List ℕ)) (sha256 : List ℕ → List ℕ)
    (writable : List ℕ → Option (ℕ → ℕ)) (read_file : List ℕ → Option (List ℕ))
    (fopen : List ℕ → Option OpenFile) where
  -- The loop from a state, and the end of `main`.
  abbrev pub loop_and_close : ℕ → ℕ → List Poll → World → List ℕ → Option ClientExit
  loop_and_close udp_fd tcp_fd polls w fds =
      elim (main_loop udp_fd sendto malloc sha256 writable read_file fopen polls (new_node w)) [
        | none ↦ none
        | some n ↦ some (ended n (close udp_fd (close tcp_fd fds)))
      ]

  run_client_registered :
      (udp_fd tcp_fd udp_port client_id : ℕ) (polls : List Poll) (w : World) (fds : List ℕ)
      → (register udp_port w).0 ≡ some client_id
      → run_client sendto malloc sha256 writable read_file fopen udp_fd tcp_fd udp_port polls w fds
        ≡ loop_and_close udp_fd tcp_fd polls (register udp_port w).1 fds
  unfolding run_client
  run_client_registered udp_fd tcp_fd udp_port client_id polls w fds given =
      simp (given, run_client)

  client_main_started :
      (calls : ClientCalls) (argv : List (List ℕ)) (socket : Socket)
      (arrivals : List (Option Arrival)) (polls : List Poll) (fds held all_held : List ℕ)
      (udp_fd tcp_fd udp_port : ℕ)
      → 3 ≤ length argv
      → open_udp calls argv fds ≡ (some (udp_fd, udp_port), held)
      → connect_server calls argv udp_fd held ≡ (some tcp_fd, all_held)
      → client_main sendto malloc sha256 writable read_file fopen calls argv socket arrivals polls
          fds
        ≡ run_client sendto malloc sha256 writable read_file fopen udp_fd tcp_fd udp_port polls
            (new_world socket arrivals)
            all_held
  unfolding client_main
  client_main_started calls argv socket arrivals polls fds held all_held udp_fd tcp_fd udp_port long
        bound connected =
      let enough : ltb (length argv) 3 ≡ false = ground arith in
      rw (enough, client_main, bound, connected) refl

  -- With a server's address among its arguments, a UDP socket that is bound to `udp_port` and a connection to
  -- a server that has an id to give, on which the server's answer comes back, `main` of the client enters its loop: it has
  -- sent the registration with this port and nothing else and has read the answer and no more, and the server has
  -- the client in its slot with the id that it gave and this port. What `main` returns is then what the loop comes to.
  pub client_main_joins :
      (server_malloc : ℕ → Bool) (d : Directory) (i : ℕ) (rest : List ℕ) (calls : ClientCalls)
      (argv : List (List ℕ)) (socket : Socket) (arrivals : List (Option Arrival))
      (polls : List Poll) (fds held all_held : List ℕ) (udp_fd tcp_fd udp_port : ℕ)
      → 3 ≤ length argv
      → open_udp calls argv fds ≡ (some (udp_fd, udp_port), held)
      → connect_server calls argv udp_fd held ≡ (some tcp_fd, all_held)
      → i < length d.clients
      → udp_port < 2 ^ 16
      → d.next_client_id < 2 ^ 32
      → IsReady 6 8 socket
      → socket.incoming
        ≡ last_reply (process_client_message server_malloc d i (register_message udp_port)).replies
          ++ rest
      → (w : World) × (client_main sendto malloc sha256 writable read_file fopen calls argv socket
            arrivals polls fds
          ≡ loop_and_close udp_fd tcp_fd polls w all_held)
        × (w.socket.outgoing ≡ socket.outgoing ++ register_message udp_port)
        × (w.socket.incoming ≡ rest)
        × IsRegistered
            (process_client_message server_malloc d i (register_message udp_port))
            i
            d.next_client_id
            udp_port
  client_main_joins server_malloc d i rest calls argv socket arrivals polls fds held all_held udp_fd
        tcp_fd udp_port long bound connected slot small ids ready answered =
      let w = new_world socket arrivals in
      let (given, outgoing, incoming, registered) =
        register_agrees server_malloc d i w rest udp_port slot small ids ready answered in
      (
        (register udp_port w).1,
        client_main_started calls argv socket arrivals polls fds held all_held udp_fd tcp_fd
              udp_port long bound connected
            ∙ run_client_registered udp_fd tcp_fd udp_port d.next_client_id polls w all_held given,
        outgoing,
        incoming,
        registered,
      )
