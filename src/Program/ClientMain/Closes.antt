-- ===== src/Program/ClientMain/Closes.antt =====
-- What `main` of skeleton/client.c leaves behind on each of its returns.
use mathlib.Core.Path.{subst}
use cpe_464_program.Base.{
  ℕ, ◌≤◌, ◌≡◌, ◌≢◌, refl, sym, ap, Bool, Option, none, some, List, [], ◌∷◌, leb, ltb, ◌==◌, ==_iff,
  if◌then◌else◌, get_or, length, Bool-cases, Option-cases, inl, inr,
}
use cpe_464_program.Protocol.Tcp.{tcp_register_ack}
use cpe_464_program.Transfer.Window.{max_file_size}
use cpe_464_program.Transfer.Sender.{Datagram}
use cpe_464_program.Client.{Socket, Arrival, World, send_exact}
use cpe_464_program.Client.Dialogue.{register, register_message, recv_reply}
use cpe_464_program.Client.Owner.{OpenFile}
use cpe_464_program.Client.Main.{Node, Poll}
use cpe_464_program.Client.Main.State.{
  IsWorld, no_shares-IsShares, Preserves, bind-Preserves, send_exact-Preserves,
  recv_reply-Preserves,
}
use cpe_464_program.Client.Main.Invariant.{IsNode, AsksForFile, IsLoopEnd, main_loop-IsNode}
use cpe_464_program.Program.{close, create_tcp_socket, create_udp_socket, bind_socket, port_of}
use cpe_464_program.Program.Sockets.{close_first}
use cpe_464_program.Program.ClientMain.{
  ClientCalls, open_udp, connect_server, new_world, new_node, ClientExit, refused, ended,
  run_client, with_server, with_udp, client_main,
}

-- The second of two descriptors.
close_second : (a b : ℕ) (fds : List ℕ) → a ≢ b → close b (a ∷ b ∷ fds) ≡ a ∷ fds
close_second a b fds differ = elim (Bool-cases (a == b)) [
  | inl same ↦ absurd (differ ((==_iff a b).0 same))
  | inr other ↦ rw (other, close) (ap (λ l. a ∷ l) (close_first b fds))
]

-- A UDP socket is open, or nothing is.
abbrev IsBound : ClientCalls → List ℕ → Option (ℕ × ℕ) × List ℕ → Type 0
IsBound calls fds (none, held) = held ≡ fds
IsBound calls fds (some (fd, port), held) = (held ≡ fd ∷ fds) × (calls.udp_socket ≡ some fd)

module _ (calls : ClientCalls) (argv : List (List ℕ)) (fds : List ℕ) where
  abbrev asked_port : ℕ
  asked_port = if leb 4 (length argv) then port_of (get_or argv 3 []) else 0

  open_udp-IsBound : IsBound calls fds (open_udp calls argv fds)
  unfolding open_udp create_udp_socket
  open_udp-IsBound = elim (Option-cases calls.udp_socket) [
    | inl no_socket ↦ simp (no_socket, open_udp, create_udp_socket)
    | inr (fd, made) ↦
        let shut = close_first fd fds in
        elim (Bool-cases calls.udp_reuse) [
          | inr fixed ↦ simp (made, fixed, shut, open_udp, create_udp_socket)
          | inl reused ↦ elim (Bool-cases (bind_socket calls.bind fd asked_port)) [
            | inr in_use ↦ simp (made, reused, in_use, shut, open_udp, create_udp_socket)
            | inl bound ↦ elim (Bool-cases (asked_port == 0)) [
              | inr given ↦
                  simp (made, reused, bound, given, open_udp, create_udp_socket) (refl, refl)
              | inl chosen ↦ elim (Option-cases calls.getsockname) [
                | inl unnamed ↦
                    simp (made, reused, bound, chosen, unnamed, shut, open_udp, create_udp_socket)
                | inr (port, named) ↦
                    simp (made, reused, bound, chosen, named, open_udp, create_udp_socket)
                      (refl, refl)
              ]
            ]
          ]
        ]
  ]

-- The connection is there, or nothing is open.
abbrev IsConnected : ℕ → List ℕ → Option ℕ × List ℕ → Type 0
IsConnected udp_fd fds (none, held) = held ≡ fds
IsConnected udp_fd fds (some fd, held) = held ≡ fd ∷ udp_fd ∷ fds

module _ (calls : ClientCalls) (argv : List (List ℕ)) (udp_fd : ℕ) (fds : List ℕ)
    (fresh : (fd : ℕ) → calls.tcp_socket ≡ some fd → fd ≢ udp_fd) where
  connect_server-IsConnected :
      IsConnected udp_fd fds (connect_server calls argv udp_fd (udp_fd ∷ fds))
  unfolding connect_server create_tcp_socket
  connect_server-IsConnected = elim (Option-cases calls.tcp_socket) [
    | inl no_socket ↦ simp (no_socket, close_first udp_fd fds, connect_server, create_tcp_socket)
    | inr (fd, made) ↦
        let shut = close_first fd (udp_fd ∷ fds) in
        let last = close_first udp_fd fds in
        elim (Bool-cases calls.tcp_reuse) [
          | inr fixed ↦ simp (made, fixed, shut, last, connect_server, create_tcp_socket)
          | inl reused ↦ elim (Option-cases (calls.inet_pton (get_or argv 1 []))) [
            | inl wrong ↦ simp (
              made,
              reused,
              wrong,
              close_second fd udp_fd fds (fresh fd made),
              close_first fd fds,
              connect_server,
              create_tcp_socket,
            )
            | inr (ip, read) ↦
                elim (Bool-cases
                  (calls.connect (record { ip = ip; port = port_of (get_or argv 2 []) }))) [
                    | inr failed ↦
                        simp (
                          made, reused, read, failed, shut, last, connect_server, create_tcp_socket,
                        )
                    | inl connected ↦
                        simp (made, reused, read, connected, connect_server, create_tcp_socket)
                  ]
          ]
        ]
  ]

register-Preserves : (udp_port : ℕ) → Preserves (register udp_port)
unfolding register
register-Preserves udp_port =
    bind-Preserves (send_exact (register_message udp_port)) _ (send_exact-Preserves _) (λ _.
      bind-Preserves (recv_reply tcp_register_ack 4) _ (recv_reply-Preserves tcp_register_ack 4)
        (λ body w v. v))

-- What an exit comes to.
abbrev pub IsClientExit : List ℕ → List Poll → Option ClientExit → Type 0
IsClientExit fds polls none = AsksForFile polls
IsClientExit fds polls (some (refused held)) = held ≡ fds
IsClientExit fds polls (some (ended n held)) = (held ≡ fds) × IsNode n

new_world-IsWorld :
    (socket : Socket) (arrivals : List (Option Arrival)) → IsWorld (new_world socket arrivals)
new_world-IsWorld socket arrivals = record { shares = no_shares-IsShares; sent = tt }

module _ (sendto : Datagram → Bool) (malloc : ℕ → Option (List ℕ)) (sha256 : List ℕ → List ℕ)
    (writable : List ℕ → Option (ℕ → ℕ)) (read_file : List ℕ → Option (List ℕ))
    (fopen : List ℕ → Option OpenFile)
    (small : (name : List ℕ) (file : OpenFile)
      → fopen name ≡ some file
      → file.size ≤ max_file_size) where
  after_loop :
      (udp_fd tcp_fd : ℕ) (polls : List Poll) (w : World) (fds : List ℕ) (end : Option Node)
      → IsLoopEnd polls end
      → IsClientExit fds polls (elim end [
        | none ↦ none
        | some n ↦ some (ended n (close udp_fd (close tcp_fd (tcp_fd ∷ udp_fd ∷ fds))))
      ])
  after_loop udp_fd tcp_fd polls w fds none asks = asks
  after_loop udp_fd tcp_fd polls w fds (some n) ok =
      (rw (close_first tcp_fd (udp_fd ∷ fds)) (close_first udp_fd fds), ok)

  run_client-IsClientExit :
      (udp_fd tcp_fd udp_port : ℕ) (polls : List Poll) (w : World) (fds : List ℕ)
      → IsWorld w
      → IsClientExit fds polls (
          run_client sendto malloc sha256 writable read_file fopen udp_fd tcp_fd udp_port polls w
            (tcp_fd ∷ udp_fd ∷ fds))
  unfolding run_client
  run_client-IsClientExit udp_fd tcp_fd udp_port polls w fds v =
      elim (Option-cases (register udp_port w).0) [
        | inl turned_away ↦
            simp (turned_away, run_client)
              (rw (close_first tcp_fd (udp_fd ∷ fds)) (close_first udp_fd fds))
        | inr (id, given) ↦
            simp (given, run_client)
              (after_loop udp_fd tcp_fd polls w fds _ (
                main_loop-IsNode udp_fd sendto malloc sha256 writable read_file fopen small polls
                  (new_node (register udp_port w).1)
                  (record { world = register-Preserves udp_port w v; transfer = tt })))
      ]

  with_server-IsClientExit :
      (udp_fd udp_port : ℕ) (polls : List Poll) (w : World) (fds : List ℕ)
      (connected : Option ℕ × List ℕ)
      → IsWorld w
      → IsConnected udp_fd fds connected
      → IsClientExit fds polls (
          with_server sendto malloc sha256 writable read_file fopen udp_fd udp_port polls w
            connected)
  with_server-IsClientExit udp_fd udp_port polls w fds (none, held) v same = same
  with_server-IsClientExit udp_fd udp_port polls w fds (some tcp_fd, held) v same =
      subst
        (λ l. IsClientExit fds polls (
          run_client sendto malloc sha256 writable read_file fopen udp_fd tcp_fd udp_port polls w
            l))
        (sym same) (run_client-IsClientExit udp_fd tcp_fd udp_port polls w fds v)

  with_udp-IsClientExit :
      (calls : ClientCalls) (argv : List (List ℕ)) (polls : List Poll) (w : World) (fds : List ℕ)
      (bound : Option (ℕ × ℕ) × List ℕ)
      → IsWorld w
      → ((udp_fd tcp_fd : ℕ)
          → calls.udp_socket ≡ some udp_fd
          → calls.tcp_socket ≡ some tcp_fd
          → tcp_fd ≢ udp_fd)
      → IsBound calls fds bound
      → IsClientExit fds polls
          (with_udp sendto malloc sha256 writable read_file fopen calls argv polls w bound)
  with_udp-IsClientExit calls argv polls w fds (none, held) v fresh same = same
  with_udp-IsClientExit calls argv polls w fds (some (udp_fd, udp_port), held) v fresh
        (same, made) =
      with_server-IsClientExit udp_fd udp_port polls w fds (connect_server calls argv udp_fd held) v
        (subst (λ l. IsConnected udp_fd fds (connect_server calls argv udp_fd l)) (sym same)
          (connect_server-IsConnected calls argv udp_fd fds (λ fd. fresh udp_fd fd made)))

  -- Where no file that can be opened is larger than `max_file_size`, and the TCP socket is not the
  -- descriptor of the UDP socket, `main` of the client has closed the sockets that it has made on every
  -- return, and the descriptors from before are as they were: with 1 on a wrong argument, a failed
  -- call or a failed registration, and with 0 after its loop, in a state whose table is within its
  -- size, whose datagrams are of the client's own kinds and whose running transfer is valid. It
  -- has a copy outside an array only where one of the lines is `get` with a number.
  pub client_main-IsClientExit :
      (calls : ClientCalls) (argv : List (List ℕ)) (socket : Socket)
      (arrivals : List (Option Arrival)) (polls : List Poll) (fds : List ℕ)
      → ((udp_fd tcp_fd : ℕ)
          → calls.udp_socket ≡ some udp_fd
          → calls.tcp_socket ≡ some tcp_fd
          → tcp_fd ≢ udp_fd)
      → IsClientExit fds polls (
          client_main sendto malloc sha256 writable read_file fopen calls argv socket arrivals polls
            fds)
  unfolding client_main
  client_main-IsClientExit calls argv socket arrivals polls fds fresh =
      elim (Bool-cases (ltb (length argv) 3)) [
        | inl few ↦ rw (few, client_main) refl
        | inr enough ↦
            rw (enough, client_main)
              (with_udp-IsClientExit calls argv polls (new_world socket arrivals) fds
                (open_udp calls argv fds) (new_world-IsWorld socket arrivals) fresh
                (open_udp-IsBound calls argv fds))
      ]
