-- ===== src/Transfer/Sender/Mark.antt =====
-- `sr_sender_handle_ack` before it slides the window: the packet that it marks.
use native.Mathlib.Decide.{ℕ_discrete}
use cpe_464_program.Base.{
  ℕ, ◌+◌, ◌-◌, ◌%◌, ◌≤◌, ◌<◌, ◌≡◌, ◌≢◌, refl, sym, ◌∙◌, Bool, true, false, ◌&&◌, ◌||◌, arith,
  Bool-cases, inl, inr, length, length-set, get_or-set_ne, u32, ltb, ◌==◌,
}
use cpe_464_program.Protocol.Udp.{chunk_size, window_size}
use cpe_464_program.Transfer.Window.{
  slot-set_self, slot-set_ne, count_from, count_from-le, count_from_update,
}
use cpe_464_program.Transfer.Sender.{
  Sender, SendEntry, Tx, acked, is_pending, slot, set_slot, blank_entry, mark_acked,
}
use cpe_464_program.Transfer.Sender.Invariant.{Holds, acked_at, IsValid}
use cpe_464_program.Transfer.Sender.SendWindow.{SameTransfer}

-- The packets below `next_seq` that the sender knows to be acknowledged.
abbrev pub done : Sender → ℕ → Bool
done s seq = ltb seq s.base || acked_at s.window seq

module _ (s : Sender) (v : IsValid s) (a : ℕ) (low : s.base ≤ a) (high : a < s.next_seq)
    (waits : is_pending (slot s.window a).state ≡ true) where
  marked : SendEntry
  marked = record (slot s.window a) { state = acked }

  abbrev after : Sender
  after = record s { window = set_slot s.window a marked; chunks_acked = s.chunks_acked + 1 }

  others :
      (seq : ℕ)
      → s.base ≤ seq
      → seq < s.base + window_size
      → a ≢ seq
      → slot after.window seq ≡ slot s.window seq
  others seq l u ne =
      slot-set_ne s.window v.slots marked blank_entry s.base a seq low (omega (arith, v.fits)) l u
        ne

  itself : slot after.window a ≡ marked
  itself = slot-set_self s.window v.slots marked blank_entry a

  marked-Holds : Holds s.file_data a marked
  unfolding marked
  marked-Holds =
      let h = v.in_flight a low high in
      record { occupied = refl; numbered = h.numbered; sized = h.sized; buffered = h.buffered }

  after-IsValid : IsValid after
  after-IsValid = record {
    small = v.small;
    file = v.file;
    chunks = v.chunks;
    slots = length-set s.window (a % window_size) marked ∙ v.slots;
    sent = v.sent;
    bounded = v.bounded;
    fits = v.fits;
    arrays = arrays;
    in_flight = in_flight;
    free = λ seq l u. rw (others seq (omega (arith, v.sent)) u (omega arith)) (v.free seq l u);
    counted = counted;
  }
    where
      arrays : (seq : ℕ) → length (slot after.window seq).bytes ≡ chunk_size
      arrays seq = elim (ℕ_discrete (a % window_size) (seq % window_size)) [
        | yes e ↦ rw (← e, itself) (unfold marked in v.arrays a)
        | no ne ↦
            rw (get_or-set_ne s.window (a % window_size) (seq % window_size) marked blank_entry ne)
              (v.arrays seq)
      ]

      in_flight :
          (seq : ℕ)
          → s.base ≤ seq
          → seq < s.next_seq
          → Holds s.file_data seq (slot after.window seq)
      in_flight seq l u = elim (ℕ_discrete a seq) [
        | yes e ↦ rw (← e, itself) marked-Holds
        | no ne ↦ rw (others seq l (omega (arith, v.fits)) ne) (v.in_flight seq l u)
      ]

      counted :
          s.chunks_acked + 1
          ≡ s.base + count_from (acked_at after.window) s.base (s.next_seq - s.base)
      counted = omega (
        arith,
        v.counted,
        count_from_update (acked_at s.window) (acked_at after.window) s.base (s.next_seq - s.base) a
            low (omega arith) (ground arith) (rw itself (unfold marked in refl))
            (λ k l u ne. rw (others k l (omega (arith, v.fits, v.sent)) (λ e. ne (sym e)))),
      )

-- Either the packet is marked, or it was not waiting for an acknowledgement.
pub record Marks (a : ℕ) (tx out : Tx) : Type 0 where
  pub valid : IsValid out.sender
  pub same : SameTransfer tx.sender out.sender
  pub base : out.sender.base ≡ tx.sender.base
  pub next_seq : out.sender.next_seq ≡ tx.sender.next_seq
  pub outbox : out.outbox ≡ tx.outbox
  pub acks :
      (seq : ℕ)
      → tx.sender.base ≤ seq
      → seq < tx.sender.next_seq
      → acked_at out.sender.window seq ≡ (acked_at tx.sender.window seq || seq == a)
  pub kept :
      (seq : ℕ)
      → tx.sender.base ≤ seq
      → seq < tx.sender.next_seq
      → seq ≢ a
      → slot out.sender.window seq ≡ slot tx.sender.window seq

module _ (tx : Tx) (v : IsValid tx.sender) (a : ℕ) (low : tx.sender.base ≤ a)
    (high : a < tx.sender.base + window_size) where
  open tx use {sender as s}

  waiting_sent : is_pending (slot s.window a).state ≡ true → a < s.next_seq
  waiting_sent waits = ground (arith, v.free a)

  exact : u32 (s.chunks_acked + 1) ≡ s.chunks_acked + 1
  exact = omega (
    arith,
    v.counted,
    count_from-le (acked_at s.window) s.base (s.next_seq - s.base),
    v.small,
    v.chunks,
    v.bounded,
    v.sent,
  )

  -- The slot of a packet in flight carries its number.
  occupied :
      a < s.next_seq
      → (is_pending (slot s.window a).state && (slot s.window a).seq_num == a) ≡ false
      → acked_at s.window a ≡ true
  occupied u h = let holds = v.in_flight a low u in ground (arith, holds.occupied, holds.numbered)

  unmarked :
      (is_pending (slot s.window a).state && (slot s.window a).seq_num == a) ≡ false → Marks a tx tx
  unmarked h = record {
    valid = v;
    same = record {
      file_data = refl;
      file_size = refl;
      num_chunks = refl;
      peer_addr = refl;
      lossy_link = refl;
    };
    base = refl;
    next_seq = refl;
    outbox = refl;
    acks = λ seq l u. elim (ℕ_discrete seq a) [
      | yes e ↦ rw e (ground (arith, occupied (rw e at u) h))
      | no ne ↦ ground arith
    ];
    kept = λ seq l u ne. refl;
  }

  module _ (sent : a < s.next_seq) (waits : is_pending (slot s.window a).state ≡ true) where
    abbrev marked_tx : Tx
    marked_tx = record tx {
      sender = after s v a low sent waits;
      stats = record (tx.stats) { acks_received = tx.stats.acks_received + 1 };
    }

    marked_tx-Marks : Marks a tx marked_tx
    marked_tx-Marks = record {
      valid = after-IsValid s v a low sent waits;
      same = record {
        file_data = refl;
        file_size = refl;
        num_chunks = refl;
        peer_addr = refl;
        lossy_link = refl;
      };
      base = refl;
      next_seq = refl;
      outbox = refl;
      acks = acks;
      kept =
          λ seq l u ne. others s v a low sent waits seq l (omega (arith, v.fits)) (λ e. ne (sym e));
    }
      where
        acks :
            (seq : ℕ)
            → s.base ≤ seq
            → seq < s.next_seq
            → acked_at marked_tx.sender.window seq ≡ (acked_at s.window seq || seq == a)
        acks seq l u = elim (ℕ_discrete seq a) [
          | yes e ↦ rw (e, itself s v a low sent waits) (unfold marked in ground arith)
          | no ne ↦
              rw (others s v a low sent waits seq l (omega (arith, v.fits)) (λ e. ne (sym e)))
                (ground arith)
        ]

  pub mark_acked-Marks : Marks a tx (mark_acked a tx)
  unfolding mark_acked marked
  mark_acked-Marks =
      elim (Bool-cases (is_pending (slot s.window a).state && (slot s.window a).seq_num == a)) [
        | inl yes_waits ↦
            let waits : is_pending (slot s.window a).state ≡ true = ground arith in
            rw yes_waits (rw exact (marked_tx-Marks (waiting_sent waits) waits))
        | inr no_wait ↦ rw no_wait (unmarked no_wait)
      ]
