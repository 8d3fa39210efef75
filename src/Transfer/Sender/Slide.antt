-- ===== src/Transfer/Sender/Slide.antt =====
-- The loop of `sr_sender_handle_ack` that slides the window over what is acknowledged.
use native.Mathlib.Decide.{ℕ_discrete}
use native.Mathlib.Nat.{le_refl}
use cpe_464_program.Base.{
  ℕ, zero, suc, ◌+◌, ◌-◌, ◌%◌, ◌≤◌, ◌<◌, ◌≡◌, refl, ◌∙◌, ap, true, false, arith, Bool-cases, inl,
  inr, length, length-set, get_or-set_ne, u32,
}
use cpe_464_program.Protocol.Udp.{chunk_size, window_size}
use cpe_464_program.Transfer.Window.{slot-set_self, slot-set_ne, count_from, count_from_ext}
use cpe_464_program.Transfer.Sender.{
  Sender, SendEntry, empty, slot, set_slot, blank_entry, can_slide, slide_one, slide_loop,
}
use cpe_464_program.Transfer.Sender.Invariant.{acked_at, IsValid, IsSettled}
use cpe_464_program.Transfer.Sender.SendWindow.{SameTransfer}

module _ (s : Sender) (v : IsValid s) (go : can_slide s ≡ true) where
  -- A slot that is acknowledged is in flight.
  base_sent : s.base < s.next_seq
  unfolding can_slide
  base_sent = ground (arith, v.sent, v.free s.base)

  base_acked : acked_at s.window s.base ≡ true
  unfolding can_slide
  base_acked = ground arith

  emptied : SendEntry
  emptied = record (slot s.window s.base) { state = empty }

  abbrev slid : Sender
  slid = record s { window = set_slot s.window s.base emptied; base = s.base + 1 }

  slide_one-eq : slide_one s ≡ slid
  unfolding slide_one emptied
  slide_one-eq = ap (λ b. record s { window = set_slot s.window s.base emptied; base = b }) exact
    where
      exact : u32 (s.base + 1) ≡ s.base + 1
      exact = omega (arith, base_sent, v.bounded, v.chunks, v.small)

  others :
      (seq : ℕ)
      → s.base < seq
      → seq < s.base + window_size
      → slot slid.window seq ≡ slot s.window seq
  others seq l u =
      slot-set_ne s.window v.slots emptied blank_entry s.base s.base seq (le_refl _) (omega arith)
        (omega arith) u (omega arith)

  itself : slot slid.window s.base ≡ emptied
  itself = slot-set_self s.window v.slots emptied blank_entry s.base

  slid-IsValid : IsValid slid
  unfolding count_from
  slid-IsValid = record {
    small = v.small;
    file = v.file;
    chunks = v.chunks;
    slots = length-set s.window (s.base % window_size) emptied ∙ v.slots;
    sent = omega (arith, base_sent);
    bounded = v.bounded;
    fits = omega (arith, v.fits);
    arrays = arrays;
    in_flight = λ seq l u.
        rw (others seq (omega arith) (omega (arith, v.fits))) (v.in_flight seq (omega arith) u);
    free = free;
    counted = counted;
  }
    where
      arrays : (seq : ℕ) → length (slot slid.window seq).bytes ≡ chunk_size
      arrays seq = elim (ℕ_discrete (s.base % window_size) (seq % window_size)) [
        | yes e ↦ rw (← e, itself) (unfold emptied in v.arrays s.base)
        | no ne ↦
            rw
              (get_or-set_ne s.window (s.base % window_size) (seq % window_size) emptied blank_entry
                ne)
              (v.arrays seq)
      ]

      free :
          (seq : ℕ)
          → s.next_seq ≤ seq
          → seq < s.base + 1 + window_size
          → (slot slid.window seq).state ≡ empty
      free seq l u = elim (ℕ_discrete seq (s.base + window_size)) [
        | yes e ↦
            let wraps : seq % window_size ≡ s.base % window_size = omega arith in
            rw (wraps, itself) (unfold emptied in refl)
        | no ne ↦
            rw (others seq (omega (arith, base_sent)) (omega arith)) (v.free seq l (omega arith))
      ]

      n : ℕ
      n = s.next_seq - (s.base + 1)

      shape : s.next_seq - s.base ≡ suc n
      shape = omega (arith, base_sent)

      before : s.chunks_acked ≡ s.base + count_from (acked_at s.window) s.base (suc n)
      before = rw shape at v.counted

      counted : s.chunks_acked ≡ s.base + 1 + count_from (acked_at slid.window) (s.base + 1) n
      counted = ground (
        arith,
        before,
        base_acked,
        count_from_ext (acked_at s.window) (acked_at slid.window) (s.base + 1) n
            (λ k l u. rw (others k (omega arith) (omega (arith, v.fits)))),
      )

-- Where the loop leads from `s`: over acknowledged packets only, to one that is not.
pub record Slides (s t : Sender) : Type 0 where
  pub valid : IsValid t
  pub settled : IsSettled t
  pub same : SameTransfer s t
  pub next_seq : t.next_seq ≡ s.next_seq
  pub chunks_acked : t.chunks_acked ≡ s.chunks_acked
  pub forward : s.base ≤ t.base
  pub passed : (seq : ℕ) → s.base ≤ seq → seq < t.base → acked_at s.window seq ≡ true
  pub kept : (seq : ℕ) → t.base ≤ seq → seq < t.next_seq → slot t.window seq ≡ slot s.window seq

rests : (s : Sender) → IsValid s → can_slide s ≡ false → Slides s s
unfolding can_slide
rests s v h = record {
  valid = v;
  settled = λ more. ground (arith, v.bounded);
  same = record {
    file_data = refl;
    file_size = refl;
    num_chunks = refl;
    peer_addr = refl;
    lossy_link = refl;
  };
  next_seq = refl;
  chunks_acked = refl;
  forward = le_refl _;
  passed = λ seq l u. absurd (omega arith);
  kept = λ seq l u. refl;
}

Slides-slid :
    (s : Sender) (v : IsValid s) (go : can_slide s ≡ true) {t : Sender}
    → Slides (slid s v go) t
    → Slides s t
Slides-slid s v go {t} rest = record {
  valid = rest.valid;
  settled = rest.settled;
  same = record {
    file_data = rest.same.file_data;
    file_size = rest.same.file_size;
    num_chunks = rest.same.num_chunks;
    peer_addr = rest.same.peer_addr;
    lossy_link = rest.same.lossy_link;
  };
  next_seq = rest.next_seq;
  chunks_acked = rest.chunks_acked;
  forward = omega (arith, rest.forward);
  passed = passed;
  kept = λ seq l u.
      rest.kept seq l u
      ∙ others s v go seq (omega (arith, rest.forward)) (omega (arith, rest.next_seq, v.fits));
}
  where
    passed : (seq : ℕ) → s.base ≤ seq → seq < t.base → acked_at s.window seq ≡ true
    passed seq l u = elim (ℕ_discrete seq s.base) [
      | yes e ↦ rw e (base_acked s v go)
      | no ne ↦
          let known = rest.passed seq (omega arith) u in
          rw
            (others s v go seq (omega arith)
              (omega (arith, v.fits, rest.valid.sent, rest.next_seq)))
            at known
    ]

-- The loop ends within its fuel.
pub slide_loop-Slides :
    (fuel : ℕ) (s : Sender) → IsValid s → s.next_seq < s.base + fuel → Slides s (slide_loop fuel s)
unfolding slide_loop
slide_loop-Slides zero s v h = absurd (omega (arith, v.sent))
slide_loop-Slides (suc fuel) s v h = elim (Bool-cases (can_slide s)) [
  | inl go ↦
      let rest = slide_loop-Slides fuel (slid s v go) (slid-IsValid s v go) (omega arith) in
      rw (go, slide_loop, slide_one-eq s v go) (Slides-slid s v go rest)
  | inr end ↦ rw (end, slide_loop) (rests s v end)
]
