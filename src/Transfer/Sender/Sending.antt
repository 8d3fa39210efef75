-- ===== src/Transfer/Sender/Sending.antt =====
-- One round of the loop of `sr_sender_send_window` of skeleton/selective_repeat.c.
use native.Mathlib.Decide.{ℕ_discrete}
use cpe_464_program.Base.{
  ℕ, suc, ◌+◌, ◌-◌, ◌*◌, ◌%◌, ◌≤◌, ◌<◌, ◌≡◌, ◌≢◌, refl, sym, ◌∙◌, ap, true, false, [], ◌∷◌, ◌++◌,
  arith, length, take, drop, splice, u32, length-set, get_or-set_ne, length-splice, take-splice,
  take-length-take, take-all,
}
use cpe_464_program.Protocol.Udp.{chunk_size, window_size}
use cpe_464_program.Transfer.Packet.{build_data_packet}
use cpe_464_program.Transfer.Packet.Laws.{build_data_packet_ext}
use native.Mathlib.Nat.{le_refl}
use cpe_464_program.Transfer.Window.{
  slot-set_self, slot-set_ne, count_from, count_from_ext, count_from-suc, chunk, chunks_of,
  length-chunk,
}
use cpe_464_program.Transfer.Sender.{
  Sender, SendEntry, pending, is_acked, Tx, slot, set_slot, blank_entry, chunk_len, can_send,
  send_one, hand_over,
}
use cpe_464_program.Transfer.Sender.Invariant.{
  Holds, acked_at, IsValid, IsSettled, chunk_len-eq, u32_offset, data_packet,
}

module _ (now : ℕ) (tx : Tx) (v : IsValid tx.sender) (go : can_send tx.sender ≡ true) where
  open tx use {sender as s}

  -- What the guard of the loop says.
  pub guard : (s.next_seq < s.base + window_size) × (s.next_seq < s.num_chunks)
  unfolding can_send
  guard = ground (arith, v.small, v.chunks, v.bounded, v.sent)

  in_file : s.next_seq < chunks_of (length s.file_data)
  in_file = omega (arith, guard, v.chunks, v.file)

  -- The entry that is stored.
  pub entry : SendEntry
  entry = record {
    state = pending;
    seq_num = s.next_seq;
    bytes = splice (slot s.window s.next_seq).bytes 0 (chunk s.file_data s.next_seq);
    data_len = length (chunk s.file_data s.next_seq);
    send_time_ms = now;
    retries = 0;
  }

  exact_len :
      chunk_len (u32 (s.next_seq * chunk_size)) s.file_size ≡ length (chunk s.file_data s.next_seq)
  exact_len = rw (← v.file) (chunk_len-eq s.file_data s.next_seq (rw v.file v.small) in_file)

  exact_offset : u32 (s.next_seq * chunk_size) ≡ s.next_seq * chunk_size
  exact_offset = (u32_offset s.file_size s.next_seq v.small (rw (← v.chunks) guard.1)).0

  exact_next : u32 (s.next_seq + 1) ≡ s.next_seq + 1
  exact_next = omega (arith, guard, v.chunks, v.small)

  exact_chunk :
      take (length (chunk s.file_data s.next_seq)) (drop (s.next_seq * chunk_size) s.file_data)
      ≡ chunk s.file_data s.next_seq
  exact_chunk = take-length-take chunk_size (drop (s.next_seq * chunk_size) s.file_data)

  exact_packet :
      build_data_packet s.next_seq
        (drop (s.next_seq * chunk_size) s.file_data)
        (length (chunk s.file_data s.next_seq))
      ≡ data_packet s.file_data s.next_seq
  exact_packet =
      build_data_packet_ext s.next_seq (drop (s.next_seq * chunk_size) s.file_data)
        (chunk s.file_data s.next_seq) (length (chunk s.file_data s.next_seq))
        (exact_chunk ∙ sym (take-all _ (chunk s.file_data s.next_seq) (le_refl _)))

  -- The step in terms of the chunk that it sends.
  pub sender-send_one :
      (send_one now tx).sender
      ≡ record s { next_seq = s.next_seq + 1; window = set_slot s.window s.next_seq entry }
  unfolding send_one entry
  sender-send_one = rw (exact_len, exact_offset, exact_next, exact_chunk)

  pub outbox-send_one :
      (send_one now tx).outbox
      ≡ tx.outbox ++ (hand_over s (data_packet s.file_data s.next_seq) ∷ [])
  unfolding send_one
  outbox-send_one = rw (exact_len, exact_offset, exact_packet)

  abbrev pub after : Sender
  after = record s { next_seq = s.next_seq + 1; window = set_slot s.window s.next_seq entry }

  entry-Holds : Holds s.file_data s.next_seq entry
  unfolding entry
  entry-Holds = record {
    occupied = refl;
    numbered = refl;
    sized = refl;
    buffered =
        ap (λ k. take k entry.bytes) {x = length (chunk s.file_data s.next_seq)}
          {y = 0 + length (chunk s.file_data s.next_seq)} (omega arith)
        ∙ take-splice (slot s.window s.next_seq).bytes 0 (chunk s.file_data s.next_seq) fits;
  }
    where
      fits : 0 + length (chunk s.file_data s.next_seq) ≤ length (slot s.window s.next_seq).bytes
      fits = omega (arith, v.arrays s.next_seq, length-chunk s.file_data s.next_seq)

  length-entry : length entry.bytes ≡ chunk_size
  unfolding entry
  length-entry =
      length-splice (slot s.window s.next_seq).bytes 0 (chunk s.file_data s.next_seq)
        (omega (arith, v.arrays s.next_seq, length-chunk s.file_data s.next_seq))
      ∙ v.arrays s.next_seq

  -- The slots of the window other than that of `next_seq` stay.
  pub others :
      (seq : ℕ)
      → s.base ≤ seq
      → seq < s.base + window_size
      → s.next_seq ≢ seq
      → slot after.window seq ≡ slot s.window seq
  others seq l u ne =
      slot-set_ne s.window v.slots entry blank_entry s.base s.next_seq seq v.sent guard.0 l u ne

  pub itself : slot after.window s.next_seq ≡ entry
  itself = slot-set_self s.window v.slots entry blank_entry s.next_seq

  pub after-IsValid : IsValid after
  after-IsValid = record {
    small = v.small;
    file = v.file;
    chunks = v.chunks;
    slots = length-set s.window (s.next_seq % window_size) entry ∙ v.slots;
    sent = omega (arith, v.sent);
    bounded = omega (arith, guard);
    fits = omega (arith, guard);
    arrays = arrays;
    in_flight = in_flight;
    free = λ seq l u.
        rw (others seq (omega (arith, v.sent)) u (omega arith)) (v.free seq (omega arith) u);
    counted = counted;
  }
    where
      arrays : (seq : ℕ) → length (slot after.window seq).bytes ≡ chunk_size
      arrays seq = elim (ℕ_discrete (s.next_seq % window_size) (seq % window_size)) [
        | yes e ↦ rw (← e, itself) length-entry
        | no ne ↦
            rw
              (get_or-set_ne s.window (s.next_seq % window_size) (seq % window_size) entry
                blank_entry ne)
              (v.arrays seq)
      ]

      in_flight :
          (seq : ℕ)
          → s.base ≤ seq
          → seq < s.next_seq + 1
          → Holds s.file_data seq (slot after.window seq)
      in_flight seq l u = elim (ℕ_discrete s.next_seq seq) [
        | yes e ↦ rw (← e, itself) entry-Holds
        | no ne ↦ rw (others seq l (omega (arith, guard)) ne) (v.in_flight seq l (omega arith))
      ]

      n : ℕ
      n = s.next_seq - s.base

      shape : s.next_seq + 1 - s.base ≡ suc n
      shape = omega (arith, v.sent)

      last : acked_at after.window (s.base + n) ≡ false
      last = rw (reaches, itself) (unfold entry in refl)
        where
          reaches : s.base + n ≡ s.next_seq
          reaches = omega (arith, v.sent)

      counted :
          s.chunks_acked
          ≡ s.base + count_from (acked_at after.window) s.base (s.next_seq + 1 - s.base)
      counted = rw shape (
          ground (
            arith,
            v.counted,
            last,
            count_from-suc (acked_at after.window) s.base n,
            count_from_ext (acked_at s.window) (acked_at after.window) s.base n
                (λ k l u. rw (others k l (omega (arith, guard)) (omega arith))),
          ))

  pub send_one-IsValid : IsValid (send_one now tx).sender
  send_one-IsValid = rw sender-send_one after-IsValid

  pub after-IsSettled : IsSettled s → IsSettled after
  after-IsSettled settled more = elim (ℕ_discrete s.next_seq s.base) [
    | yes e ↦ rw (← e, itself) (unfold entry in refl)
    | no ne ↦ rw (others s.base (le_refl _) (omega arith) ne) (settled (omega (arith, v.sent)))
  ]

  pub entry_waits : is_acked entry.state ≡ false
  unfolding entry
  entry_waits = refl

  pub entry_sent : entry.send_time_ms ≡ now
  unfolding entry
  entry_sent = refl
