-- ===== src/Transfer/Receiver/Buffer.antt =====
-- The copy of a new packet of the file to its slot of the receiver's window.
use native.Mathlib.Decide.{ℕ_discrete, dec_lt}
use native.Mathlib.Nat.{le_refl}
use cpe_464_program.Base.{
  ℕ, ◌+◌, ◌%◌, ◌≤◌, ◌<◌, ◌≡◌, ◌≢◌, refl, sym, ◌∙◌, ap, true, false, some, List, arith, ◌||◌, ◌==◌,
  length, take, length-set, get_or-set_ne, u32, splice, take-splice, length-splice, le→leb,
  take-all,
}
use cpe_464_program.Protocol.Udp.{chunk_size, window_size}
use cpe_464_program.Transfer.Window.{
  slot-set_self, slot-set_ne, count_from-le, count_from_update, chunk, length-chunk,
}
use cpe_464_program.Transfer.Receiver.{
  Receiver, RecvEntry, slot, set_slot, blank_entry, buffer_packet,
}
use cpe_464_program.Transfer.Receiver.Invariant.{received_at, Holds, IsReceiving, has}

module _ (file : List ℕ) (r : Receiver) (v : IsReceiving file r) (a : ℕ) (low : r.base ≤ a)
    (high : a < r.base + window_size) (inside : a < r.num_chunks)
    (fresh : received_at r.window a ≡ false) where
  unfoldable pub payload : List ℕ
  payload = chunk file a

  pub stored : RecvEntry
  stored = record {
    received = true;
    seq_num = a;
    bytes = splice (slot r.window a).bytes 0 payload;
    data_len = length payload;
  }

  abbrev pub buffered : Receiver
  buffered = record r {
    window = set_slot r.window a stored;
    chunks_received = r.chunks_received + 1;
  }

  fits : 0 + length payload ≤ length (slot r.window a).bytes
  unfolding payload
  fits = omega (arith, v.arrays a, length-chunk file a)

  exact : u32 (r.chunks_received + 1) ≡ r.chunks_received + 1
  exact = omega (
    arith,
    v.counted,
    v.bounded,
    v.chunks,
    v.small,
    count_from-le (received_at r.window) r.base window_size,
  )

  pub buffer_packet-eq : buffer_packet r a (length payload) payload ≡ some buffered
  unfolding buffer_packet stored
  buffer_packet-eq = rw (fresh, whole, le→leb _ _ fits, buffer_packet) (rw exact)
    where
      whole : take (length payload) payload ≡ payload
      whole = take-all _ payload (le_refl _)

  others :
      (seq : ℕ)
      → r.base ≤ seq
      → seq < r.base + window_size
      → a ≢ seq
      → slot buffered.window seq ≡ slot r.window seq
  others seq l u ne = slot-set_ne r.window v.slots stored blank_entry r.base a seq low high l u ne

  itself : slot buffered.window a ≡ stored
  itself = slot-set_self r.window v.slots stored blank_entry a

  stored-Holds : Holds file a stored
  unfolding stored payload
  stored-Holds = record {
    numbered = refl;
    sized = refl;
    buffered =
        ap (λ k. take k (splice (slot r.window a).bytes 0 payload)) {x = length payload}
          {y = 0 + length payload} (omega arith)
        ∙ take-splice (slot r.window a).bytes 0 payload fits;
  }

  pub buffered-IsReceiving : IsReceiving file buffered
  buffered-IsReceiving = record {
    small = v.small;
    size = v.size;
    chunks = v.chunks;
    buffer = v.buffer;
    slots = length-set r.window (a % window_size) stored ∙ v.slots;
    arrays = arrays;
    bounded = v.bounded;
    held = held;
    delivered = v.delivered;
    counted = omega (
      arith,
      v.counted,
      count_from_update (received_at r.window) (received_at buffered.window) r.base window_size a
          low high fresh (ap (λ e. e.received) itself ∙ (unfold stored in refl))
          (λ k l u ne. ap (λ e. e.received) (sym (others k l u (λ e. ne (sym e))))),
    );
  }
    where
      arrays : (seq : ℕ) → length (slot buffered.window seq).bytes ≡ chunk_size
      arrays seq = elim (ℕ_discrete (a % window_size) (seq % window_size)) [
        | yes e ↦
            rw (← e, itself)
              (unfold stored in length-splice (slot r.window a).bytes 0 payload fits ∙ v.arrays a)
        | no ne ↦
            rw (get_or-set_ne r.window (a % window_size) (seq % window_size) stored blank_entry ne)
              (v.arrays seq)
      ]

      held :
          (seq : ℕ)
          → r.base ≤ seq
          → seq < r.base + window_size
          → received_at buffered.window seq ≡ true
          → (seq < r.num_chunks) × Holds file seq (slot buffered.window seq)
      held seq l u there = elim (ℕ_discrete a seq) [
        | yes e ↦ rw (← e, itself) (inside, stored-Holds)
        | no ne ↦
            let same = others seq l u ne in
            rw same (v.held seq l u (sym (ap (λ e. e.received) same) ∙ there))
      ]

  stored_there : received_at buffered.window a ≡ true
  unfolding stored
  stored_there = ap (λ e. e.received) itself

  pub has-buffered : (seq : ℕ) → has buffered seq ≡ (has r seq || seq == a)
  has-buffered seq = elim (ℕ_discrete seq a) [
    | yes e ↦ rw e (ground (arith, stored_there))
    | no ne ↦ elim (dec_lt seq r.base) [
      | yes below ↦ ground arith
      | no above ↦ elim (dec_lt seq (r.base + window_size)) [
        | yes within ↦
            ground (arith, ap (λ e. e.received) (others seq (omega arith) within (λ e. ne (sym e))))
        | no beyond ↦ ground arith
      ]
    ]
  ]
