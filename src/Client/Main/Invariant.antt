-- ===== src/Client/Main/Invariant.antt =====
-- The state that the loop of `main` in skeleton/client.c keeps, whatever `poll` reports.
use mathlib.Core.Path.{subst}
use cpe_464_program.Base.{
  ℕ, ◌≤◌, ◌≡◌, refl, Bool, true, Option, none, some, List, [], ◌∷◌, Bool-cases, Option-cases, inl,
  inr, sym,
}
use cpe_464_program.Transfer.Window.{max_file_size}
use cpe_464_program.Transfer.Sender.{Datagram}
use cpe_464_program.Client.{World, Arrival}
use cpe_464_program.Client.Get.{lossy_recv}
use cpe_464_program.Client.Owner.{Owner, OpenFile, on_datagram, drive_transfer}
use cpe_464_program.Client.Owner.Invariant.{IsIdleOrRunning}
use cpe_464_program.Client.Owner.Sound.{
  IsSoundFor, on_datagram-IsSoundFor, drive_transfer-IsSoundFor,
}
use cpe_464_program.Client.Owner.Table.{on_datagram-shares, drive_transfer-shares}
use cpe_464_program.Client.Command.{get_file, handle_command, parse_command}
use cpe_464_program.Client.Main.{
  Node, owner_of, with_owner, Ready, Poll, poll_failed, polled, memory_for, take_datagram,
  finish_round, main_loop,
}
use cpe_464_program.Client.Main.Steps.{looped-line, looped-fault, looped-no_line}
use cpe_464_program.Client.Main.State.{IsFromClient, owned, IsShares, IsWorld, lossy_recv-Preserves}
use cpe_464_program.Client.Main.Commands.{IsCommandAfter, handle_command-IsWorld}

-- A table within its size, nothing but the client's own datagrams, and a transfer that is valid.
pub record IsNode (n : Node) : Type 0 where
  pub world : IsWorld n.world
  pub transfer : IsIdleOrRunning n.transfer

-- One of the lines is the command `get` with a number.
pub data AsksForFile : List Poll → Type 0 where
  here :
      {polls : List Poll} (r : Ready) (line : List ℕ) (file_id : ℕ)
      → r.line ≡ some line
      → parse_command line ≡ get_file file_id
      → AsksForFile (polled r ∷ polls)
  there : {polls : List Poll} (p : Poll) → AsksForFile polls → AsksForFile (p ∷ polls)

-- What the loop comes to: a copy outside an array comes from `get` only.
abbrev pub IsLoopEnd : List Poll → Option Node → Type 0
IsLoopEnd polls none = AsksForFile polls
IsLoopEnd polls (some n) = IsNode n

later-IsLoopEnd :
    (p : Poll) (polls : List Poll) (end : Option Node)
    → IsLoopEnd polls end
    → IsLoopEnd (p ∷ polls) end
later-IsLoopEnd p polls none asks = there p asks
later-IsLoopEnd p polls (some n) ok = ok

sound : (n : Node) → IsNode n → IsSoundFor IsFromClient (owner_of n)
sound n v = record { running = v.transfer; outputs = v.world.sent }

with_owner-IsNode :
    (o : Owner) (n : Node) → IsShares o.shares → IsSoundFor IsFromClient o → IsNode (with_owner o n)
with_owner-IsNode o n shares s = record {
  world = record { shares = shares; sent = s.outputs };
  transfer = s.running;
}

drive-IsNode :
    (now later : ℕ) (n : Node)
    → IsNode n
    → IsNode (with_owner (drive_transfer now later (owner_of n)) n)
drive-IsNode now later n v =
    with_owner-IsNode (drive_transfer now later (owner_of n)) n
      (subst IsShares (sym (drive_transfer-shares now later (owner_of n))) v.world.shares)
      (drive_transfer-IsSoundFor IsFromClient (λ d output. owned output) now later (owner_of n)
        (sound n v))

module _ (udp_fd : ℕ) (sendto : Datagram → Bool) (malloc : ℕ → Option (List ℕ))
    (sha256 : List ℕ → List ℕ) (writable : List ℕ → Option (ℕ → ℕ))
    (read_file : List ℕ → Option (List ℕ)) (fopen : List ℕ → Option OpenFile)
    (small : (name : List ℕ) (file : OpenFile)
      → fopen name ≡ some file
      → file.size ≤ max_file_size) where
  abbrev has_room : ℕ → Bool
  has_room = memory_for udp_fd sendto malloc sha256 writable read_file fopen

  datagram-IsNode :
      (r : Ready) (a : Arrival) (n : Node)
      → IsNode n
      → IsNode
          (with_owner (on_datagram udp_fd fopen sendto has_room r.opened_at a (owner_of n)).1 n)
  datagram-IsNode r a n v =
      with_owner-IsNode _ n
        (subst IsShares
          (sym (on_datagram-shares udp_fd fopen sendto has_room r.opened_at a (owner_of n)))
          v.world.shares)
        (on_datagram-IsSoundFor IsFromClient (λ d output. owned output) udp_fd fopen sendto has_room
          small r.opened_at a (owner_of n) (sound n v))

  take_datagram-IsNode :
      (r : Ready) (n : Node)
      → IsNode n
      → IsNode (take_datagram udp_fd sendto malloc sha256 writable read_file fopen r n).1
  take_datagram-IsNode r n v =
      let heard : IsNode (record n { world = (lossy_recv n.world).1 }) = record {
        world = lossy_recv-Preserves n.world v.world;
        transfer = v.transfer;
      } in
      elim (Bool-cases r.datagram) [
        | inr silent ↦ rw (silent, take_datagram) v
        | inl ready ↦ elim (Option-cases (lossy_recv n.world).0) [
          | inl lost ↦ rw (ready, take_datagram, lost) heard
          | inr (a, got) ↦
              rw (ready, take_datagram, got)
                (datagram-IsNode r a (record n { world = (lossy_recv n.world).1 }) heard)
        ]
      ]

  finish_round-IsNode :
      (r : Ready) (n : Node)
      → IsNode n
      → IsNode (finish_round udp_fd sendto malloc sha256 writable read_file fopen r n)
  finish_round-IsNode r n v =
      let taken = take_datagram udp_fd sendto malloc sha256 writable read_file fopen r n in
      let ok = take_datagram-IsNode r n v in
      elim (Bool-cases taken.0) [
        | inl goes_on ↦ rw (goes_on, finish_round) (drive-IsNode r.sent_at r.checked_at taken.1 ok)
        | inr skips ↦ rw (skips, finish_round) ok
      ]

  abbrev looped : List Poll → Node → Option Node
  looped polls n = main_loop udp_fd sendto malloc sha256 writable read_file fopen polls n

  abbrev RanTo : List ℕ → Node → Option (Bool × World) → Type 0
  RanTo line n out =
      handle_command udp_fd sendto malloc sha256 writable read_file line n.world ≡ out

  after_line :
      (r : Ready) (line : List ℕ) (polls : List Poll) (n : Node) (out : Option (Bool × World))
      → r.line ≡ some line
      → RanTo line n out
      → IsNode n
      → n.running ≡ true
      → ((next : Node) → IsNode next → IsLoopEnd polls (looped polls next))
      → IsCommandAfter udp_fd sendto malloc sha256 writable read_file (parse_command line) out
      → IsLoopEnd (polled r ∷ polls) (looped (polled r ∷ polls) n)
  after_line r line polls n none read ran v running rest (file_id, asks) =
      subst (IsLoopEnd (polled r ∷ polls))
        (sym (
          looped-fault udp_fd sendto malloc sha256 writable read_file fopen r line polls n running
            read ran))
        (here r line file_id read asks)
  after_line r line polls n (some (goes_on, w)) read ran v running rest w_ok =
      subst (IsLoopEnd (polled r ∷ polls))
        (sym (
          looped-line udp_fd sendto malloc sha256 writable read_file fopen r line polls n goes_on w
            running read ran))
        (later-IsLoopEnd (polled r) polls _ (
          rest _ (
            finish_round-IsNode r (record n { world = w; running = goes_on })
              (record { world = w_ok; transfer = v.transfer }))))

  -- One round of a loop that runs, and the loop behind it.
  round-IsLoopEnd :
      (p : Poll) (polls : List Poll) (n : Node)
      → IsNode n
      → n.running ≡ true
      → ((next : Node) → IsNode next → IsLoopEnd polls (looped polls next))
      → IsLoopEnd (p ∷ polls) (looped (p ∷ polls) n)
  unfolding main_loop
  round-IsLoopEnd poll_failed polls n v running rest = rw (running, main_loop) v
  round-IsLoopEnd (polled r) polls n v running rest = elim (Option-cases r.line) [
    | inl no_line ↦
        subst (IsLoopEnd (polled r ∷ polls))
          (sym (
            looped-no_line udp_fd sendto malloc sha256 writable read_file fopen r polls n running
              no_line))
          (later-IsLoopEnd (polled r) polls _ (rest _ (finish_round-IsNode r n v)))
    | inr (line, read) ↦
        after_line r line polls n _ read refl v running rest (
          handle_command-IsWorld udp_fd sendto malloc sha256 writable read_file line n.world
            v.world)
  ]

  -- Where no file that can be opened is larger than `max_file_size`, the loop of `main` keeps the client's
  -- state over any rounds, whatever `poll` reports, whatever comes on either socket, and whatever calls
  -- fail: at the end the table of offers is within its size, every datagram that was handed over is a
  -- request of `get`, an acknowledgement, a confirmation or a chunk of a file, and the sender of a running
  -- transfer is valid and settled. The loop has a copy outside an array only where one of the lines is `get` with a
  -- number.
  pub main_loop-IsNode :
      (polls : List Poll) (n : Node)
      → IsNode n
      → IsLoopEnd polls (main_loop udp_fd sendto malloc sha256 writable read_file fopen polls n)
  unfolding main_loop
  main_loop-IsNode [] n v = v
  main_loop-IsNode (p ∷ polls) n v = elim (Bool-cases n.running) [
    | inr over ↦ rw (over, main_loop) v
    | inl running ↦ round-IsLoopEnd p polls n v running (main_loop-IsNode polls)
  ]
