-- ===== src/Program/ServerMain/Closes.antt =====
-- What `main` of skeleton/server.c keeps and leaves behind.
use mathlib.Core.Path.{subst}
use cpe_464_program.Base.{
  ℕ, ◌+◌, ◌*◌, ◌^◌, ◌≤◌, ◌<◌, ◌≡◌, refl, sym, ◌∙◌, ap, Bool, Option, none, some, List, [], ◌∷◌,
  ◌++◌, arith, ltb, ◌==◌, length, Bool-cases, Option-cases, inl, inr, if◌then◌else◌, get_or, map,
}
use cpe_464_program.Directory.{Directory, max_clients, initial}
use cpe_464_program.Directory.Messages.{Event, handle_event, handle_events}
use cpe_464_program.Directory.Invariant.{IsDirectory, initial-IsDirectory}
use cpe_464_program.Directory.Events.{handle_event-Follows}
use cpe_464_program.Program.{close, create_tcp_socket, bind_socket, port_of}
use cpe_464_program.Program.Sockets.{close_first}
use cpe_464_program.Program.ServerMain.{
  client_fds, Report, poll_failed, interrupted, timed_out, ready, server_loop, shut_down,
  ServerCalls, open_listener, start_listening, ServerExit, refused, ended, serve, server_main,
}
use cpe_464_program.Program.ServerMain.Rounds.{
  length-client_fds, ready-handle_events, round_events, length-round_events,
}

-- Valid tables, and few new file ids.
record Grows (d : Directory) (n : ℕ) (after : Directory) : Type 0 where
  valid : IsDirectory after
  next : after.next_file_id ≤ d.next_file_id + n

module _ (malloc : ℕ → Bool) where
  handle_events-Grows :
      (d : Directory) (events : List Event)
      → IsDirectory d
      → d.next_file_id + length events < 2 ^ 32
      → Grows d (length events) (handle_events malloc d events)
  unfolding handle_events
  handle_events-Grows d [] v ids = record { valid = v; next = omega arith }
  handle_events-Grows d (e ∷ events) v ids =
      let f = handle_event-Follows malloc d v (omega arith) e in
      let rest =
        handle_events-Grows (handle_event malloc d e) events f.valid (omega (arith, f.next)) in
      record { valid = rest.valid; next = omega (arith, f.next, rest.next) }

  server_loop-IsDirectory :
      (reports : List Report) (d : Directory)
      → IsDirectory d
      → d.next_file_id + 257 * length reports < 2 ^ 32
      → IsDirectory (server_loop malloc reports d)
  unfolding server_loop
  server_loop-IsDirectory [] d v ids = v
  server_loop-IsDirectory (poll_failed ∷ reports) d v ids = v
  server_loop-IsDirectory (interrupted ∷ reports) d v ids =
      server_loop-IsDirectory reports d v (omega arith)
  server_loop-IsDirectory (timed_out ∷ reports) d v ids =
      server_loop-IsDirectory reports d v (omega arith)
  server_loop-IsDirectory (ready listening clients ∷ reports) d v ids =
      let events = round_events malloc listening clients d in
      let few = length-round_events malloc listening clients d v.slots in
      let after = handle_events-Grows d events v (omega (arith, few)) in
      subst (λ d'. IsDirectory (server_loop malloc reports d'))
        (sym (ready-handle_events malloc listening clients d))
        (server_loop-IsDirectory reports (handle_events malloc d events) after.valid
          (omega (arith, few, after.next)))

-- The listening socket is open, or nothing is.
abbrev IsListening : List ℕ → Option ℕ × List ℕ → Type 0
IsListening fds (none, held) = held ≡ fds
IsListening fds (some fd, held) = held ≡ fd ∷ fds

module _ (calls : ServerCalls) (argv : List (List ℕ)) (fds : List ℕ) where
  abbrev asked_port : ℕ
  asked_port = if length argv == 2 then port_of (get_or argv 1 []) else 0

  start_listening-IsListening : (fd : ℕ) → IsListening fds (start_listening calls fd (fd ∷ fds))
  start_listening-IsListening fd = elim (Bool-cases (calls.listen fd)) [
    | inl listens ↦ simp (listens, start_listening)
    | inr deaf ↦ simp (deaf, start_listening, close_first fd fds)
  ]

  open_listener-IsListening : IsListening fds (open_listener calls argv fds)
  unfolding open_listener create_tcp_socket
  open_listener-IsListening = elim (Option-cases calls.tcp_socket) [
    | inl no_socket ↦ simp (no_socket, open_listener, create_tcp_socket)
    | inr (fd, made) ↦
        let shut = close_first fd fds in
        elim (Bool-cases calls.tcp_reuse) [
          | inr fixed ↦ simp (made, fixed, shut, open_listener, create_tcp_socket)
          | inl reused ↦ elim (Bool-cases (bind_socket calls.bind fd asked_port)) [
            | inr in_use ↦ simp (made, reused, in_use, shut, open_listener, create_tcp_socket)
            | inl bound ↦ elim (Bool-cases (asked_port == 0)) [
              | inr given ↦
                  simp (made, reused, bound, given, open_listener, create_tcp_socket)
                    (start_listening-IsListening fd)
              | inl chosen ↦ elim (Option-cases calls.getsockname) [
                | inl unnamed ↦
                    simp
                      (made, reused, bound, chosen, unnamed, shut, open_listener, create_tcp_socket)
                | inr (port, named) ↦
                    simp (made, reused, bound, chosen, named, open_listener, create_tcp_socket)
                      (start_listening-IsListening fd)
              ]
            ]
          ]
        ]
  ]

-- What an exit comes to.
abbrev pub IsServerExit : List ℕ → ServerExit → Type 0
IsServerExit fds (refused held) = held ≡ fds
IsServerExit fds (ended d held) =
    (held ≡ fds)
    × IsDirectory d
    × (length (client_fds d.clients) ≤ max_clients)
    × ((before : List (Option ℕ)) × (d.closed ≡ before ++ map some (client_fds d.clients)))

module _ (malloc : ℕ → Bool) where
  shut_down-IsDirectory : (d : Directory) → IsDirectory d → IsDirectory (shut_down malloc d)
  shut_down-IsDirectory d v = record {
    slots = v.slots;
    entries = v.entries;
    within = v.within;
    ascending = v.ascending;
  }

  serve-IsServerExit :
      (reports : List Report) (fds : List ℕ) (listener : Option ℕ × List ℕ)
      → 257 * length reports + 1 < 2 ^ 32
      → IsListening fds listener
      → IsServerExit fds (serve malloc reports listener)
  serve-IsServerExit reports fds (none, held) ids same = same
  serve-IsServerExit reports fds (some listen_fd, held) ids same =
      let d = server_loop malloc reports initial in
      let v =
        server_loop-IsDirectory malloc reports initial initial-IsDirectory (omega (arith, ids)) in
      (
        ap (close listen_fd) same ∙ close_first listen_fd fds,
        shut_down-IsDirectory d v,
        omega (arith, length-client_fds d.clients, v.slots),
        (d.closed, refl),
      )

  -- Where 257 times the number of rounds of the loop is less than 2 ^ 32 - 1, `main` of the server
  -- has closed its listening socket, if it was made, on every return, and the descriptors from before
  -- are as they were: with 1 on a wrong argument or a failed call, and with 0 after its loop, whatever
  -- `poll`, `accept` and `recv` return in its rounds. Then the tables have their sizes and the files
  -- ascending ids below the next one, the array for `poll` has no more than `max_clients` sockets
  -- beside the listening one, and the sockets that are in the table are closed.
  pub server_main-IsServerExit :
      (calls : ServerCalls) (argv : List (List ℕ)) (reports : List Report) (fds : List ℕ)
      → 257 * length reports + 1 < 2 ^ 32
      → IsServerExit fds (server_main malloc calls argv reports fds)
  unfolding server_main
  server_main-IsServerExit calls argv reports fds ids = elim (Bool-cases (ltb 2 (length argv))) [
    | inl many ↦ rw (many, server_main) refl
    | inr few ↦
        rw (few, server_main)
          (serve-IsServerExit reports fds (open_listener calls argv fds) ids
            (open_listener-IsListening calls argv fds))
  ]
