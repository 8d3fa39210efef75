-- ===== src/Transfer/Sender/SendWindow.antt =====
-- The loop of `sr_sender_send_window` of skeleton/selective_repeat.c.
use Prim.Native.Nat.{min}
use cpe_464_program.Base.{
  ℕ, zero, suc, ◌+◌, ◌≤◌, ◌<◌, ◌≡◌, refl, sym, ◌∙◌, ap, Bool, true, false, List, [], ◌∷◌, ◌++◌,
  arith, if◌then◌else◌, Bool-cases, inl, inr,
}
use native.Mathlib.Decide.{ℕ_discrete}
use mathlib.Core.List.{append_assoc, append-nil}
use cpe_464_program.Protocol.Udp.{window_size}
use cpe_464_program.Transfer.Sender.{
  Sender, Addr, Datagram, Tx, can_send, send_one, send_loop, sr_sender_send_window, slot, is_acked,
}
use cpe_464_program.Transfer.Sender.Invariant.{IsValid, IsSettled, acked_at, data_packet}
use cpe_464_program.Transfer.Sender.Sending.{
  after, sender-send_one, outbox-send_one, after-IsValid, after-IsSettled, others, itself,
  entry_waits,
}

module _ (via : Bool) (dest : Addr) (file : List ℕ) where
  -- The datagrams of the `n` chunks from `seq` on.
  abbrev pub chunk_datagrams : ℕ → ℕ → List Datagram
  chunk_datagrams seq zero = []
  chunk_datagrams seq (suc n) =
      record { via_link = via; dest = dest; bytes = data_packet file seq }
      ∷ chunk_datagrams (seq + 1) n

abbrev pub datagrams : Sender → ℕ → ℕ → List Datagram
datagrams s = chunk_datagrams s.lossy_link s.peer_addr s.file_data

-- What no sending changes.
pub record SameTransfer (s t : Sender) : Type 0 where
  pub file_data : t.file_data ≡ s.file_data
  pub file_size : t.file_size ≡ s.file_size
  pub num_chunks : t.num_chunks ≡ s.num_chunks
  pub peer_addr : t.peer_addr ≡ s.peer_addr
  pub lossy_link : t.lossy_link ≡ s.lossy_link

-- The outcome of a sending of the whole window.
pub record Sends (tx out : Tx) (count : ℕ) : Type 0 where
  pub valid : IsValid out.sender
  pub settled : IsSettled out.sender
  pub same : SameTransfer tx.sender out.sender
  pub base : out.sender.base ≡ tx.sender.base
  pub acked : out.sender.chunks_acked ≡ tx.sender.chunks_acked
  pub filled : out.sender.next_seq ≡ min (tx.sender.base + window_size) tx.sender.num_chunks
  pub kept :
      (seq : ℕ)
      → tx.sender.base ≤ seq
      → seq < tx.sender.next_seq
      → slot out.sender.window seq ≡ slot tx.sender.window seq
  pub fresh :
      (seq : ℕ)
      → tx.sender.next_seq ≤ seq
      → seq < out.sender.next_seq
      → acked_at out.sender.window seq ≡ false
  pub number : tx.sender.next_seq + count ≡ out.sender.next_seq
  pub outbox : out.outbox ≡ tx.outbox ++ datagrams tx.sender tx.sender.next_seq count
  pub retransmitted : out.stats.packets_retransmitted ≡ tx.stats.packets_retransmitted
  pub packets_sent :
      out.stats.packets_sent ≡ tx.stats.packets_sent + (if tx.sender.lossy_link then count else 0)

stop :
    (tx : Tx)
    → IsValid tx.sender
    → can_send tx.sender ≡ false
    → tx.sender.next_seq ≡ min (tx.sender.base + window_size) tx.sender.num_chunks
unfolding can_send
stop tx v h =
    ground (arith, v.small, v.chunks, v.bounded, v.sent, v.fits, v.free tx.sender.next_seq)

stopped :
    (tx : Tx) → IsValid tx.sender → IsSettled tx.sender → can_send tx.sender ≡ false → Sends tx tx 0
stopped tx v settled h = record {
  valid = v;
  settled = settled;
  same = record {
    file_data = refl;
    file_size = refl;
    num_chunks = refl;
    peer_addr = refl;
    lossy_link = refl;
  };
  base = refl;
  acked = refl;
  filled = stop tx v h;
  kept = λ seq l u. refl;
  fresh = λ seq l u. absurd (omega arith);
  number = omega arith;
  outbox = sym (append-nil tx.outbox);
  retransmitted = refl;
  packets_sent = ground arith;
}

stats-send_one :
    (now : ℕ) (tx : Tx)
    → ((send_one now tx).stats.packets_retransmitted ≡ tx.stats.packets_retransmitted)
      × ((send_one now tx).stats.packets_sent
          ≡ tx.stats.packets_sent + (if tx.sender.lossy_link then 1 else 0))
unfolding send_one
stats-send_one now tx = ground arith

again :
    (now : ℕ) (tx : Tx) (v : IsValid tx.sender) (go : can_send tx.sender ≡ true) {out : Tx}
    {count : ℕ}
    → Sends (send_one now tx) out count
    → Sends tx out (suc count)
again now tx v go {out} {count} rest = record {
  valid = rest.valid;
  settled = rest.settled;
  same =
      let h = rw e at rest.same in
      record {
        file_data = h.file_data;
        file_size = h.file_size;
        num_chunks = h.num_chunks;
        peer_addr = h.peer_addr;
        lossy_link = h.lossy_link;
      };
  base = rw e at rest.base;
  acked = rw e at rest.acked;
  filled = rw e at rest.filled;
  kept = λ seq l u.
      kept_after seq (rw base_kept l) (rw next_grows (omega arith))
      ∙ window_after seq
      ∙ others now tx v go seq l (omega (arith, v.fits)) (omega arith);
  fresh = λ seq l u. elim (ℕ_discrete seq tx.sender.next_seq) [
    | yes here ↦
        ap (λ r. is_acked r.state)
          (kept_after seq (rw base_kept (omega (arith, v.sent))) (rw next_grows (omega arith))
            ∙ window_after seq)
        ∙ ap (λ k. acked_at (after now tx v go).window k) here
        ∙ ap (λ r. is_acked r.state) (itself now tx v go)
        ∙ entry_waits now tx v go
    | no ne ↦ rest.fresh seq (rw next_grows (omega arith)) u
  ];
  number = let h = rw e at rest.number in omega arith;
  outbox =
      (rw (e, outbox-send_one now tx v go) at rest.outbox)
      ∙ append_assoc tx.outbox (datagrams tx.sender tx.sender.next_seq 1)
          (datagrams tx.sender (tx.sender.next_seq + 1) count);
  retransmitted = omega (arith, rest.retransmitted, stats-send_one now tx);
  packets_sent = let h = rw e at rest.packets_sent in ground (arith, stats-send_one now tx);
}
  where
    e : (send_one now tx).sender ≡ after now tx v go
    e = sender-send_one now tx v go

    base_kept : (send_one now tx).sender.base ≡ tx.sender.base
    base_kept = ap (λ s. s.base) e

    next_grows : (send_one now tx).sender.next_seq ≡ tx.sender.next_seq + 1
    next_grows = ap (λ s. s.next_seq) e

    kept_after :
        (seq : ℕ)
        → (send_one now tx).sender.base ≤ seq
        → seq < (send_one now tx).sender.next_seq
        → slot out.sender.window seq ≡ slot (send_one now tx).sender.window seq
    kept_after = rest.kept

    window_after :
        (seq : ℕ) → slot (send_one now tx).sender.window seq ≡ slot (after now tx v go).window seq
    window_after seq = ap (λ s. slot s.window seq) e

send_loop-Sends :
    (fuel now : ℕ) (tx : Tx) (packets : ℕ)
    → IsValid tx.sender
    → IsSettled tx.sender
    → tx.sender.base + window_size < tx.sender.next_seq + fuel
    → (count : ℕ) × ((send_loop fuel now tx packets).1 ≡ packets + count)
      × Sends tx (send_loop fuel now tx packets).0 count
unfolding send_loop
send_loop-Sends zero now tx packets v settled h = absurd (omega (arith, v.fits))
send_loop-Sends (suc fuel) now tx packets v settled h = elim (Bool-cases (can_send tx.sender)) [
  | inl go ↦
      let e = sender-send_one now tx v go in
      let (count, total, sends) =
        send_loop-Sends fuel now (send_one now tx) (packets + 1) (rw e (after-IsValid now tx v go))
          (rw e (after-IsSettled now tx v go settled)) (rw e (omega arith)) in
      rw (go, send_loop) (suc count, omega arith, again now tx v go sends)
  | inr end ↦ rw (end, send_loop) (0, omega arith, stopped tx v settled end)
]

-- A call of `sr_sender_send_window` on a valid sender ends, sends every chunk of the window that was
-- not yet sent, once and in order, and nothing else; it returns how many those are, the window is then
-- full up to its limit or the end of the file, and the invariant holds.
pub sr_sender_send_window-Sends :
    (now : ℕ) (tx : Tx)
    → IsValid tx.sender
    → IsSettled tx.sender
    → Sends tx (sr_sender_send_window now tx).0 (sr_sender_send_window now tx).1
unfolding sr_sender_send_window
sr_sender_send_window-Sends now tx v settled =
    let (count, total, sends) =
      send_loop-Sends (window_size + 1) now tx 0 v settled (omega (arith, v.sent)) in
    let e : (send_loop (window_size + 1) now tx 0).1 ≡ count = omega (arith, total) in rw e sends
