-- ===== src/Program/ServerMain.antt =====
-- `main` of skeleton/server.c: its start, the loop over `poll`, and what it closes at its end.
pub mod Rounds
pub mod Closes
use cpe_464_program.Base.{
  ℕ, Bool, true, false, not, Option, none, some, List, [], ◌∷◌, ◌++◌, ltb, ◌==◌, if◌then◌else◌,
  get_or, length, map,
}
use cpe_464_program.Transfer.Sender.{Addr}
use cpe_464_program.Directory.{Client, Directory, initial}
use cpe_464_program.Directory.Messages.{accept_new_client, client_readable}
use cpe_464_program.Program.{close, create_tcp_socket, bind_socket, port_of}

-- What the calls of the system return.
pub record ServerCalls : Type 0 where
  pub tcp_socket : Option ℕ
  pub tcp_reuse : Bool
  pub bind : ℕ → Addr → Bool
  pub getsockname : Option ℕ
  pub listen : ℕ → Bool

-- The sockets of the clients in the array for `poll`.
abbrev pub client_fds : List Client → List ℕ
client_fds [] = []
client_fds (c ∷ clients) = elim c.fd [
  | none ↦ client_fds clients
  | some fd ↦ if ltb 0 fd then fd ∷ client_fds clients else client_fds clients
]

-- What a round's `poll` returns: an error other than `EINTR`, `EINTR`, nothing in time, or the entries with
-- `POLLIN`: for the first one what `accept` returns, and for each other one what `recv` returns.
pub data Report : Type 0 where
  poll_failed interrupted timed_out : Report
  ready :
      (listening : Option (Option (ℕ × Addr))) (clients : List (Option (Option (List ℕ)))) → Report

abbrev pub take_connection : Option (Option (ℕ × Addr)) → Directory → Directory
take_connection none d = d
take_connection (some accepted) d = accept_new_client d accepted

module _ (malloc : ℕ → Bool) where
  -- The entries of the array from the second on.
  unfoldable pub read_clients : List ℕ → List (Option (Option (List ℕ))) → Directory → Directory
  read_clients [] reports d = d
  read_clients (fd ∷ fds) [] d = d
  read_clients (fd ∷ fds) (none ∷ reports) d = read_clients fds reports d
  read_clients (fd ∷ fds) (some packet ∷ reports) d =
      read_clients fds reports (client_readable malloc d fd packet)

  -- `while (running)`, for the rounds up to the one in which `sigint_handler` has run.
  unfoldable pub server_loop : List Report → Directory → Directory
  server_loop [] d = d
  server_loop (poll_failed ∷ reports) d = d
  server_loop (interrupted ∷ reports) d = server_loop reports d
  server_loop (timed_out ∷ reports) d = server_loop reports d
  server_loop (ready listening clients ∷ reports) d =
      server_loop reports
        (read_clients (client_fds d.clients) clients (take_connection listening d))

  -- The closing of the clients' sockets after the loop.
  abbrev pub shut_down : Directory → Directory
  shut_down d = record d { closed = d.closed ++ map some (client_fds d.clients) }

-- `if (listen(listen_fd, 10) < 0)`
abbrev pub start_listening : ServerCalls → ℕ → List ℕ → Option ℕ × List ℕ
start_listening calls fd fds = if calls.listen fd then (some fd, fds) else (none, close fd fds)

-- The listening socket.
unfoldable pub open_listener : ServerCalls → List (List ℕ) → List ℕ → Option ℕ × List ℕ
open_listener calls argv fds =
    let port = if length argv == 2 then port_of (get_or argv 1 []) else 0 in
    let (made, held) = create_tcp_socket calls.tcp_socket calls.tcp_reuse fds in
    elim made [
      | none ↦ (none, held)
      | some fd ↦
          if not (bind_socket calls.bind fd port)
          then (none, close fd held)
          else if not (port == 0)
          then start_listening calls fd held
          else elim calls.getsockname [
            | none ↦ (none, close fd held)
            | some chosen ↦ start_listening calls fd held
          ]
    ]

-- `return 1`, or `return 0` after the loop, with the program's own descriptors that are still open.
pub data ServerExit : Type 0 where
  refused : List ℕ → ServerExit
  ended : Directory → List ℕ → ServerExit

module _ (malloc : ℕ → Bool) where
  abbrev pub serve : List Report → Option ℕ × List ℕ → ServerExit
  serve reports (none, fds) = refused fds
  serve reports (some listen_fd, fds) =
      ended (shut_down malloc (server_loop malloc reports initial)) (close listen_fd fds)

  -- `main`
  unfoldable pub server_main : ServerCalls → List (List ℕ) → List Report → List ℕ → ServerExit
  server_main calls argv reports fds =
      if ltb 2 (length argv) then refused fds else serve reports (open_listener calls argv fds)
