-- ===== src/Transfer/Receiver/DeliverOne.antt =====
-- The loop of `sr_receiver_handle_data` in skeleton/selective_repeat.c: one chunk is delivered.
use native.Mathlib.Decide.{ℕ_discrete, dec_lt}
use native.Mathlib.Nat.{le_refl}
use cpe_464_program.Base.{
  ℕ, ◌+◌, ◌*◌, ◌%◌, ◌≤◌, ◌<◌, ◌≡◌, refl, sym, ◌∙◌, ap, true, false, some, List, arith, length, take,
  length-set, get_or-set_ne, u32, splice, take-splice, length-splice, leb, le→leb, true-ne-false,
  ◌++◌,
}
use cpe_464_program.Protocol.Udp.{chunk_size, window_size}
use cpe_464_program.Transfer.Window.{
  slot-set_self, slot-set_ne, count_from_slide, chunk, length-chunk, take-suc-chunk,
}
use cpe_464_program.Transfer.Receiver.{
  Receiver, RecvEntry, slot, set_slot, blank_entry, can_deliver, deliver_one,
}
use cpe_464_program.Transfer.Receiver.Invariant.{received_at, Holds, prefix, IsReceiving}

module _ (file : List ℕ) (r : Receiver) (v : IsReceiving file r) (go : can_deliver r ≡ true) where
  pub ready : (r.base < r.num_chunks) × (received_at r.window r.base ≡ true)
  unfolding can_deliver
  ready = ground arith

  pub next : List ℕ
  next = chunk file r.base

  pub freed : RecvEntry
  freed = record (slot r.window r.base) { received = false }

  abbrev pub moved : Receiver
  moved = record r {
    file_buffer = splice r.file_buffer (r.base * chunk_size) next;
    window = set_slot r.window r.base freed;
    base = r.base + 1;
  }

  base_Holds : Holds file r.base (slot r.window r.base)
  base_Holds = (v.held r.base (le_refl _) (omega arith) ready.1).1

  fits : r.base * chunk_size + length next ≤ length r.file_buffer
  unfolding next
  fits = omega (arith, length-chunk file r.base, ready, v.chunks, v.buffer)

  -- The copy is in bounds, and copies the chunk.
  pub deliver_one-eq : deliver_one r ≡ some moved
  unfolding deliver_one freed
  deliver_one-eq = rw (copied, exact_offset, in_bounds, deliver_one) (rw exact_base)
    where
      copied : take (slot r.window r.base).data_len (slot r.window r.base).bytes ≡ next
      copied = unfold next in rw (base_Holds.sized) (base_Holds.buffered)

      exact_offset : u32 (r.base * chunk_size) ≡ r.base * chunk_size
      exact_offset = omega (arith, ready, v.chunks, v.small)

      exact_base : u32 (r.base + 1) ≡ r.base + 1
      exact_base = omega (arith, ready, v.chunks, v.small)

      in_bounds : leb (r.base * chunk_size + length next) (length r.file_buffer) ≡ true
      in_bounds = le→leb _ _ fits

  pub others :
      (seq : ℕ)
      → r.base < seq
      → seq < r.base + window_size
      → slot moved.window seq ≡ slot r.window seq
  others seq l u =
      slot-set_ne r.window v.slots freed blank_entry r.base r.base seq (le_refl _) (omega arith)
        (omega arith) u (omega arith)

  itself : slot moved.window r.base ≡ freed
  itself = slot-set_self r.window v.slots freed blank_entry r.base

  -- The slot that the window gains is the one that it lost.
  pub gained :
      (seq : ℕ)
      → r.base + window_size ≤ seq
      → seq < r.base + 1 + window_size
      → received_at moved.window seq ≡ false
  gained seq l u =
      let wraps : seq % window_size ≡ r.base % window_size = omega arith in
      rw (received_at, wraps, itself) (unfold freed in refl)

  pub moved-IsReceiving : IsReceiving file moved
  unfolding next
  moved-IsReceiving = record {
    small = v.small;
    size = v.size;
    chunks = v.chunks;
    buffer = length-splice r.file_buffer (r.base * chunk_size) next fits ∙ v.buffer;
    slots = length-set r.window (r.base % window_size) freed ∙ v.slots;
    arrays = arrays;
    bounded = omega (arith, ready);
    held = held;
    delivered = delivered;
    counted = omega (
      arith,
      v.counted,
      count_from_slide (received_at r.window) (received_at moved.window) r.base window_size
          (omega arith) ready.1 (gained (r.base + window_size) (le_refl _) (omega arith))
          (λ k l u. ap (λ e. e.received) (sym (others k l u))),
    );
  }
    where
      arrays : (seq : ℕ) → length (slot moved.window seq).bytes ≡ chunk_size
      arrays seq = elim (ℕ_discrete (r.base % window_size) (seq % window_size)) [
        | yes e ↦ rw (← e, itself) (unfold freed in v.arrays r.base)
        | no ne ↦
            rw
              (get_or-set_ne r.window (r.base % window_size) (seq % window_size) freed blank_entry
                ne)
              (v.arrays seq)
      ]

      held :
          (seq : ℕ)
          → r.base + 1 ≤ seq
          → seq < r.base + 1 + window_size
          → received_at moved.window seq ≡ true
          → (seq < r.num_chunks) × Holds file seq (slot moved.window seq)
      held seq l u there = elim (dec_lt seq (r.base + window_size)) [
        | yes within ↦
            let same = others seq (omega arith) within in
            rw same (v.held seq (omega arith) within (sym (ap (λ e. e.received) same) ∙ there))
        | no new ↦ absurd (true-ne-false (sym there ∙ gained seq (omega arith) u))
      ]

      size_here : prefix file r.base ≡ r.base * chunk_size
      size_here = omega (arith, ready, v.chunks)

      size_next : prefix file (r.base + 1) ≡ r.base * chunk_size + length next
      size_next = omega (arith, ready, v.chunks, length-chunk file r.base)

      before : take (r.base * chunk_size) r.file_buffer ≡ take (r.base * chunk_size) file
      before = rw size_here at (v.delivered)

      delivered :
          take (prefix file (r.base + 1)) moved.file_buffer ≡ take (prefix file (r.base + 1)) file
      delivered = rw size_next (
          take-splice r.file_buffer (r.base * chunk_size) next fits
          ∙ ap (λ t. t ++ next) before
          ∙ sym (take-suc-chunk file r.base))
