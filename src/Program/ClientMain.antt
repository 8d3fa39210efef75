-- ===== src/Program/ClientMain.antt =====
-- `main` of skeleton/client.c, around its loop.
pub mod Closes
pub mod Joins
pub mod Rate
use cpe_464_program.Base.{
  ℕ, Bool, true, false, not, Option, none, some, List, [], leb, ltb, ◌==◌, if◌then◌else◌, get_or,
  length,
}
use cpe_464_program.Shares.{no_shares}
use cpe_464_program.Transfer.Sender.{Addr, Datagram}
use cpe_464_program.Lossy.{Double, zero_loss, Link, lossy_init}
use cpe_464_program.Client.{Socket, Arrival, World}
use cpe_464_program.Client.Dialogue.{register}
use cpe_464_program.Client.Owner.{OpenFile}
use cpe_464_program.Client.Main.{Node, Poll, main_loop}
use cpe_464_program.Program.{close, create_tcp_socket, create_udp_socket, bind_socket, port_of}

-- What the calls of the system return: a socket, its option, and so on in the order of `main`.
pub record ClientCalls : Type 0 where
  pub udp_socket : Option ℕ
  pub udp_reuse : Bool
  pub bind : ℕ → Addr → Bool
  pub getsockname : Option ℕ
  pub time : ℕ
  pub tcp_socket : Option ℕ
  pub tcp_reuse : Bool
  pub inet_pton : List ℕ → Option ℕ
  pub connect : Addr → Bool

-- The UDP socket and the port that it has.
unfoldable pub open_udp : ClientCalls → List (List ℕ) → List ℕ → Option (ℕ × ℕ) × List ℕ
open_udp calls argv fds =
    let asked = if leb 4 (length argv) then port_of (get_or argv 3 []) else 0 in
    let (made, held) = create_udp_socket calls.udp_socket calls.udp_reuse fds in
    elim made [
      | none ↦ (none, held)
      | some fd ↦
          if not (bind_socket calls.bind fd asked)
          then (none, close fd held)
          else if not (asked == 0)
          then (some (fd, asked), held)
          else elim calls.getsockname [
            | none ↦ (none, close fd held)
            | some port ↦ (some (fd, port), held)
          ]
    ]

-- The link, with what `atof` makes of an argument, and what the conversion to `float` makes of that; the
-- conversion of this back to `double` is exact.
abbrev pub new_link : ClientCalls → (List ℕ → Double) → (Double → Double) → List (List ℕ) → ℕ → Link
new_link calls atof to_float argv udp_fd =
    lossy_init udp_fd
      (if leb 5 (length argv) then to_float (atof (get_or argv 4 [])) else zero_loss) calls.time

-- The connection to the server.
unfoldable pub connect_server : ClientCalls → List (List ℕ) → ℕ → List ℕ → Option ℕ × List ℕ
connect_server calls argv udp_fd fds =
    let (made, held) = create_tcp_socket calls.tcp_socket calls.tcp_reuse fds in
    elim made [
      | none ↦ (none, close udp_fd held)
      | some tcp_fd ↦ elim (calls.inet_pton (get_or argv 1 [])) [
        | none ↦ (none, close tcp_fd (close udp_fd held))
        | some ip ↦
            if calls.connect (record { ip = ip; port = port_of (get_or argv 2 []) })
            then (some tcp_fd, held)
            else (none, close udp_fd (close tcp_fd held))
      ]
    ]

-- The state before the registration: what the sockets will bring, and nothing else.
abbrev pub new_world : Socket → List (Option Arrival) → World
new_world socket arrivals = record {
  socket = socket;
  shares = no_shares;
  arrivals = arrivals;
  sent = [];
  saved = [];
}

abbrev pub new_node : World → Node
new_node w = record {
  world = w;
  transfer = none;
  stats = record { packets_sent = 0; packets_retransmitted = 0; acks_received = 0 };
  running = true;
}

-- `return 1`, or `return 0` after the loop, and the descriptors that are still open.
pub data ClientExit : Type 0 where
  refused : List ℕ → ClientExit
  ended : Node → List ℕ → ClientExit

module _ (sendto : Datagram → Bool) (malloc : ℕ → Option (List ℕ)) (sha256 : List ℕ → List ℕ)
    (writable : List ℕ → Option (ℕ → ℕ)) (read_file : List ℕ → Option (List ℕ))
    (fopen : List ℕ → Option OpenFile) where
  -- From the registration on.
  unfoldable pub run_client : ℕ → ℕ → ℕ → List Poll → World → List ℕ → Option ClientExit
  run_client udp_fd tcp_fd udp_port polls w fds =
      let (client_id, w') = register udp_port w in
      elim client_id [
        | none ↦ some (refused (close udp_fd (close tcp_fd fds)))
        | some id ↦
            elim (main_loop udp_fd sendto malloc sha256 writable read_file fopen polls
              (new_node w')) [
                | none ↦ none
                | some n ↦ some (ended n (close udp_fd (close tcp_fd fds)))
              ]
      ]

  -- What follows `connect_server` and `open_udp`.
  abbrev pub with_server : ℕ → ℕ → List Poll → World → Option ℕ × List ℕ → Option ClientExit
  with_server udp_fd udp_port polls w (none, fds) = some (refused fds)
  with_server udp_fd udp_port polls w (some tcp_fd, fds) =
      run_client udp_fd tcp_fd udp_port polls w fds

  abbrev pub with_udp :
      ClientCalls → List (List ℕ) → List Poll → World → Option (ℕ × ℕ) × List ℕ → Option ClientExit
  with_udp calls argv polls w (none, fds) = some (refused fds)
  with_udp calls argv polls w (some (udp_fd, udp_port), fds) =
      with_server udp_fd udp_port polls w (connect_server calls argv udp_fd fds)

  -- `main`: `none` is a copy outside an array in the loop.
  unfoldable pub client_main :
      ClientCalls
      → List (List ℕ)
      → Socket
      → List (Option Arrival)
      → List Poll
      → List ℕ
      → Option ClientExit
  client_main calls argv socket arrivals polls fds =
      if ltb (length argv) 3
      then some (refused fds)
      else with_udp calls argv polls (new_world socket arrivals) (open_udp calls argv fds)
