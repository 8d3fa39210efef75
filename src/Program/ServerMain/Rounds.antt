-- ===== src/Program/ServerMain/Rounds.antt =====
-- The rounds of the loop in skeleton/server.c as sequences of events, and what they keep.
use cpe_464_program.Base.{
  ℕ, ◌+◌, ◌≤◌, ◌≡◌, refl, sym, ◌∙◌, ap, Bool, Option, none, some, List, [], ◌∷◌, ◌++◌, arith, ltb,
  length, length-append, Bool-cases, Option-cases, inl, inr,
}
use cpe_464_program.Transfer.Sender.{Addr}
use cpe_464_program.Directory.{Client, Directory, max_clients}
use cpe_464_program.Directory.Messages.{
  Event, connection, readable, handle_event, handle_events, client_readable,
}
use cpe_464_program.Program.ServerMain.{client_fds, take_connection, read_clients}

-- No more sockets than slots.
pub length-client_fds : (clients : List Client) → length (client_fds clients) ≤ length clients
length-client_fds [] = omega arith
length-client_fds (c ∷ clients) = elim (Option-cases c.fd) [
  | inl gone ↦ rw (gone, client_fds) (omega (arith, length-client_fds clients))
  | inr (fd, there) ↦ elim (Bool-cases (ltb 0 fd)) [
    | inl positive ↦ rw (there, client_fds, positive) (omega (arith, length-client_fds clients))
    | inr zero_fd ↦ rw (there, client_fds, zero_fd) (omega (arith, length-client_fds clients))
  ]
]

abbrev connections : Option (Option (ℕ × Addr)) → List Event
connections none = []
connections (some accepted) = connection accepted ∷ []

abbrev readings : List ℕ → List (Option (Option (List ℕ))) → List Event
readings [] reports = []
readings (fd ∷ fds) [] = []
readings (fd ∷ fds) (none ∷ reports) = readings fds reports
readings (fd ∷ fds) (some packet ∷ reports) = readable fd packet ∷ readings fds reports

length-readings :
    (fds : List ℕ) (reports : List (Option (Option (List ℕ))))
    → length (readings fds reports) ≤ length fds
length-readings [] reports = omega arith
length-readings (fd ∷ fds) [] = omega arith
length-readings (fd ∷ fds) (none ∷ reports) = omega (arith, length-readings fds reports)
length-readings (fd ∷ fds) (some packet ∷ reports) = omega (arith, length-readings fds reports)

module _ (malloc : ℕ → Bool) where
  handle_events-append :
      (d : Directory) (first second : List Event)
      → handle_events malloc d (first ++ second)
        ≡ handle_events malloc (handle_events malloc d first) second
  unfolding handle_events
  handle_events-append d [] second = refl
  handle_events-append d (e ∷ first) second =
      handle_events-append (handle_event malloc d e) first second

  read_clients-handle_events :
      (fds : List ℕ) (reports : List (Option (Option (List ℕ)))) (d : Directory)
      → read_clients malloc fds reports d ≡ handle_events malloc d (readings fds reports)
  unfolding read_clients handle_events handle_event
  read_clients-handle_events [] reports d = refl
  read_clients-handle_events (fd ∷ fds) [] d = refl
  read_clients-handle_events (fd ∷ fds) (none ∷ reports) d =
      read_clients-handle_events fds reports d
  read_clients-handle_events (fd ∷ fds) (some packet ∷ reports) d =
      read_clients-handle_events fds reports (client_readable malloc d fd packet)

  take_connection-handle_events :
      (listening : Option (Option (ℕ × Addr))) (d : Directory)
      → take_connection listening d ≡ handle_events malloc d (connections listening)
  unfolding handle_events handle_event
  take_connection-handle_events none d = refl
  take_connection-handle_events (some accepted) d = refl

  -- A round as events.
  abbrev pub round_events :
      Option (Option (ℕ × Addr)) → List (Option (Option (List ℕ))) → Directory → List Event
  round_events listening clients d =
      connections listening ++ readings (client_fds d.clients) clients

  pub ready-handle_events :
      (listening : Option (Option (ℕ × Addr))) (clients : List (Option (Option (List ℕ))))
      (d : Directory)
      → read_clients malloc (client_fds d.clients) clients (take_connection listening d)
        ≡ handle_events malloc d (round_events listening clients d)
  ready-handle_events listening clients d =
      read_clients-handle_events (client_fds d.clients) clients (take_connection listening d)
      ∙ ap (λ e. handle_events malloc e (readings (client_fds d.clients) clients))
          (take_connection-handle_events listening d)
      ∙ sym
          (handle_events-append d (connections listening) (readings (client_fds d.clients) clients))

  length-connections : (listening : Option (Option (ℕ × Addr))) → length (connections listening) ≤ 1
  length-connections none = omega arith
  length-connections (some accepted) = omega arith

  pub length-round_events :
      (listening : Option (Option (ℕ × Addr))) (clients : List (Option (Option (List ℕ))))
      (d : Directory)
      → length d.clients ≡ max_clients
      → length (round_events listening clients d) ≤ max_clients + 1
  length-round_events listening clients d slots = omega (
    arith,
    length-append (connections listening) (readings (client_fds d.clients) clients),
    length-connections listening,
    length-readings (client_fds d.clients) clients,
    length-client_fds d.clients,
    slots,
  )
