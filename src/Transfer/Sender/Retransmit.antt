-- ===== src/Transfer/Sender/Retransmit.antt =====
-- One retransmission by `sr_sender_check_timeouts` of skeleton/selective_repeat.c.
use native.Mathlib.Decide.{ℕ_discrete}
use cpe_464_program.Base.{
  ℕ, ◌+◌, ◌-◌, ◌%◌, ◌≤◌, ◌<◌, ◌≡◌, ◌≢◌, refl, sym, ◌∙◌, ap, [], ◌∷◌, ◌++◌, arith, if◌then◌else◌,
  length, length-set, get_or-set_ne, take-all,
}
use native.Mathlib.Nat.{le_refl}
use cpe_464_program.Protocol.Udp.{chunk_size, window_size}
use cpe_464_program.Transfer.Packet.Laws.{build_data_packet_ext}
use cpe_464_program.Transfer.Window.{slot-set_self, slot-set_ne, count_from_ext, chunk}
use cpe_464_program.Transfer.Sender.{
  Sender, SendEntry, Tx, is_acked, slot, set_slot, blank_entry, retransmit, hand_over,
}
use cpe_464_program.Transfer.Sender.Invariant.{Holds, acked_at, IsValid, data_packet}

module _ (now : ℕ) (tx : Tx) (v : IsValid tx.sender) (a : ℕ) (low : tx.sender.base ≤ a)
    (high : a < tx.sender.next_seq) where
  open tx use {sender as s}

  pub again : SendEntry
  again = record (slot s.window a) { send_time_ms = now; retries = (slot s.window a).retries + 1 }

  abbrev pub after : Sender
  after = record s { window = set_slot s.window a again }

  pub sender-retransmit : (retransmit now a tx).sender ≡ after
  unfolding retransmit again
  sender-retransmit = refl

  -- The buffered bytes are the chunk, so the packet is the one that was sent first.
  pub outbox-retransmit :
      (retransmit now a tx).outbox ≡ tx.outbox ++ (hand_over s (data_packet s.file_data a) ∷ [])
  unfolding retransmit
  outbox-retransmit = rw (
    h.numbered,
    h.sized,
    build_data_packet_ext a (slot s.window a).bytes (chunk s.file_data a)
        (length (chunk s.file_data a))
        (h.buffered ∙ sym (take-all _ (chunk s.file_data a) (le_refl _))),
  )
    where
      h : Holds s.file_data a (slot s.window a)
      h = v.in_flight a low high

  pub others :
      (seq : ℕ)
      → s.base ≤ seq
      → seq < s.base + window_size
      → a ≢ seq
      → slot after.window seq ≡ slot s.window seq
  others seq l u ne =
      slot-set_ne s.window v.slots again blank_entry s.base a seq low (omega (arith, v.fits)) l u ne

  pub itself : slot after.window a ≡ again
  itself = slot-set_self s.window v.slots again blank_entry a

  pub state_kept : (seq : ℕ) → (slot after.window seq).state ≡ (slot s.window seq).state
  state_kept seq = elim (ℕ_discrete (a % window_size) (seq % window_size)) [
    | yes e ↦ rw (← e, itself) (unfold again in refl)
    | no ne ↦ rw (get_or-set_ne s.window (a % window_size) (seq % window_size) again blank_entry ne)
  ]

  again-Holds : Holds s.file_data a again
  unfolding again
  again-Holds =
      let h = v.in_flight a low high in
      record {
        occupied = h.occupied;
        numbered = h.numbered;
        sized = h.sized;
        buffered = h.buffered;
      }

  pub after-IsValid : IsValid after
  after-IsValid = record {
    small = v.small;
    file = v.file;
    chunks = v.chunks;
    slots = length-set s.window (a % window_size) again ∙ v.slots;
    sent = v.sent;
    bounded = v.bounded;
    fits = v.fits;
    arrays = arrays;
    in_flight = in_flight;
    free = λ seq l u. state_kept seq ∙ v.free seq l u;
    counted =
        v.counted
        ∙ ap (λ k. s.base + k)
            (count_from_ext (acked_at s.window) (acked_at after.window) s.base (s.next_seq - s.base)
              (λ k l u. ap is_acked (sym (state_kept k))));
  }
    where
      arrays : (seq : ℕ) → length (slot after.window seq).bytes ≡ chunk_size
      arrays seq = elim (ℕ_discrete (a % window_size) (seq % window_size)) [
        | yes e ↦ rw (← e, itself) (unfold again in v.arrays a)
        | no ne ↦
            rw (get_or-set_ne s.window (a % window_size) (seq % window_size) again blank_entry ne)
              (v.arrays seq)
      ]

      in_flight :
          (seq : ℕ)
          → s.base ≤ seq
          → seq < s.next_seq
          → Holds s.file_data seq (slot after.window seq)
      in_flight seq l u = elim (ℕ_discrete a seq) [
        | yes e ↦ rw (← e, itself) again-Holds
        | no ne ↦ rw (others seq l (omega (arith, v.fits)) ne) (v.in_flight seq l u)
      ]

  pub stats-retransmit :
      let out = (retransmit now a tx).stats in
      (out.acks_received ≡ tx.stats.acks_received)
      × (out.packets_sent ≡ tx.stats.packets_sent + (if s.lossy_link then 1 else 0))
      × (out.packets_retransmitted
          ≡ tx.stats.packets_retransmitted + (if s.lossy_link then 1 else 0))
  unfolding retransmit
  stats-retransmit = ground arith

  pub again-entry :
      again
      ≡ record (slot s.window a) { send_time_ms = now; retries = (slot s.window a).retries + 1 }
  unfolding again
  again-entry = refl
