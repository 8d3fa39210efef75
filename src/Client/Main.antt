-- ===== src/Client/Main.antt =====
-- The loop of `main` in skeleton/client.c: the commands, the datagrams and the transfer on one state.
pub mod State
pub mod Outbox
pub mod Commands
pub mod Steps
pub mod Invariant
mod Tests
use cpe_464_program.Base.{
  ℕ, Bool, true, false, not, Option, none, some, List, [], ◌∷◌, if◌then◌else◌,
}
use cpe_464_program.Transfer.Sender.{Datagram, Stats, Tx}
use cpe_464_program.Client.{World}
use cpe_464_program.Client.Get.{lossy_recv}
use cpe_464_program.Client.Owner.{Owner, OpenFile, on_datagram, drive_transfer}
use cpe_464_program.Client.Command.{handle_command, has_memory}

-- The connection, the table and the files of `world`, the transfer that the client serves, and `running`.
pub record Node : Type 0 where
  pub world : World
  pub transfer : Option Tx
  pub stats : Stats
  pub running : Bool

-- The owner's side of the state: the table and what was handed over are the same.
abbrev pub owner_of : Node → Owner
owner_of n = record {
  shares = n.world.shares;
  transfer = n.transfer;
  stats = n.stats;
  sent = n.world.sent;
}

abbrev pub with_owner : Owner → Node → Node
with_owner o n = record n {
  world = record (n.world) { shares = o.shares; sent = o.sent };
  transfer = o.transfer;
  stats = o.stats;
}

-- What `poll` reports: a line that `fgets` reads, whether a datagram is there, and the times of the
-- round's calls that read the clock.
pub record Ready : Type 0 where
  pub line : Option (List ℕ)
  pub datagram : Bool
  pub opened_at : ℕ
  pub sent_at : ℕ
  pub checked_at : ℕ

pub data Poll : Type 0 where
  poll_failed : Poll
  polled : Ready → Poll

module _ (udp_fd : ℕ) (sendto : Datagram → Bool) (malloc : ℕ → Option (List ℕ))
    (sha256 : List ℕ → List ℕ) (writable : List ℕ → Option (ℕ → ℕ))
    (read_file : List ℕ → Option (List ℕ)) (fopen : List ℕ → Option OpenFile) where
  -- `if (fds[0].revents & POLLIN)`: `none` is a copy outside an array.
  abbrev take_line : Option (List ℕ) → Node → Option Node
  take_line none n = some n
  take_line (some line) n =
      elim (handle_command udp_fd sendto malloc sha256 writable read_file line (n.world)) [
        | none ↦ none
        | some (goes_on, w) ↦ some (record n { world = w; running = goes_on })
      ]

  abbrev pub memory_for : ℕ → Bool
  memory_for size = has_memory udp_fd sendto malloc sha256 writable read_file size

  -- `if (fds[1].revents & POLLIN)`; the Boolean is false after a `continue`.
  abbrev pub take_datagram : Ready → Node → Bool × Node
  take_datagram r n =
      if not r.datagram
      then (true, n)
      else let (got, w) = lossy_recv (n.world) in
        let received : Node = record n { world = w } in
        elim got [
          | none ↦ (false, received)
          | some a ↦
              let (goes_on, o) =
                on_datagram udp_fd fopen sendto memory_for r.opened_at a (owner_of received) in
              (goes_on, with_owner o received)
        ]

  -- What is left of a round once its line was taken.
  abbrev pub finish_round : Ready → Node → Node
  finish_round r n =
      let (goes_on, taken) = take_datagram r n in
      if goes_on
      then with_owner (drive_transfer r.sent_at r.checked_at (owner_of taken)) taken
      else taken

  -- `while (running)`, for what the next calls of `poll` report.
  unfoldable pub main_loop : List Poll → Node → Option Node
  main_loop [] n = some n
  main_loop (p ∷ polls) n = elim n.running [
    | false ↦ some n
    | true ↦ elim p [
      | poll_failed ↦ some n
      | polled r ↦ elim (take_line r.line n) [
        | none ↦ none
        | some after_line ↦ main_loop polls (finish_round r after_line)
      ]
    ]
  ]
