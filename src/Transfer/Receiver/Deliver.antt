-- ===== src/Transfer/Receiver/Deliver.antt =====
-- The loop of `sr_receiver_handle_data` that moves packets from the window to the file.
use native.Mathlib.Decide.{ℕ_discrete, dec_lt}
use native.Mathlib.Nat.{le_refl}
use cpe_464_program.Base.{
  ℕ, zero, suc, ◌+◌, ◌≤◌, ◌<◌, ◌≡◌, refl, sym, ◌∙◌, ap, true, false, some, List, arith, Bool-cases,
  inl, inr, true-ne-false,
}
use cpe_464_program.Protocol.Udp.{window_size}
use cpe_464_program.Transfer.Receiver.{Receiver, can_deliver, deliver_loop}
use cpe_464_program.Transfer.Receiver.Invariant.{received_at, IsReceiving, IsSettled, has}
use cpe_464_program.Transfer.Receiver.DeliverOne.{
  ready, deliver_one-eq, others, gained, moved-IsReceiving, moved,
}

-- Where the loop leads from `r`: past packets that are there, to one that is not.
pub record Delivers (file : List ℕ) (r t : Receiver) : Type 0 where
  pub valid : IsReceiving file t
  pub settled : IsSettled t
  pub peer_addr : t.peer_addr ≡ r.peer_addr
  pub lossy_link : t.lossy_link ≡ r.lossy_link
  pub forward : r.base ≤ t.base
  pub chunks_received : t.chunks_received ≡ r.chunks_received
  pub exactly : (seq : ℕ) → has t seq ≡ has r seq

rests :
    (file : List ℕ) (r : Receiver) → IsReceiving file r → can_deliver r ≡ false → Delivers file r r
unfolding can_deliver
rests file r v h = record {
  valid = v;
  settled = λ more. ground arith;
  peer_addr = refl;
  lossy_link = refl;
  forward = le_refl _;
  chunks_received = refl;
  exactly = λ seq. refl;
}

-- Moving a packet to the file changes nothing of what the receiver has.
has-moved :
    (file : List ℕ) (r : Receiver) (v : IsReceiving file r) (go : can_deliver r ≡ true) (seq : ℕ)
    → has (moved file r v go) seq ≡ has r seq
has-moved file r v go seq = elim (dec_lt seq r.base) [
  | yes below ↦ ground arith
  | no above ↦ elim (ℕ_discrete seq r.base) [
    | yes here ↦ rw here (ground (arith, ready file r v go))
    | no ne ↦ elim (dec_lt seq (r.base + window_size)) [
      | yes within ↦
          ground (arith, ap (λ e. e.received) (others file r v go seq (omega arith) within))
      | no outside ↦ elim (dec_lt seq (r.base + 1 + window_size)) [
        | yes new ↦ ground (arith, gained file r v go seq (omega arith) new)
        | no beyond ↦ ground arith
      ]
    ]
  ]
]

Delivers-moved :
    (file : List ℕ) (r : Receiver) (v : IsReceiving file r) (go : can_deliver r ≡ true)
    {t : Receiver}
    → Delivers file (moved file r v go) t
    → Delivers file r t
Delivers-moved file r v go rest = record {
  valid = rest.valid;
  settled = rest.settled;
  peer_addr = rest.peer_addr;
  lossy_link = rest.lossy_link;
  forward = omega (arith, rest.forward);
  chunks_received = rest.chunks_received;
  exactly = λ seq. rest.exactly seq ∙ has-moved file r v go seq;
}

-- The loop never writes out of bounds, and ends within its fuel: `limit` is the end of the window that
-- it started with, behind which nothing has been received.
deliver_loop-Delivers :
    (fuel limit : ℕ) (file : List ℕ) (r : Receiver)
    → IsReceiving file r
    → r.base ≤ limit
    → limit < r.base + fuel
    → ((seq : ℕ) → limit ≤ seq → seq < r.base + window_size → received_at r.window seq ≡ false)
    → (t : Receiver) × (deliver_loop fuel r ≡ some t) × Delivers file r t
unfolding deliver_loop
deliver_loop-Delivers zero limit file r v low high none_behind = absurd (omega arith)
deliver_loop-Delivers (suc fuel) limit file r v low high none_behind =
    elim (Bool-cases (can_deliver r)) [
      | inl go ↦
          let more : r.base < limit = before_limit go in
          let (t, e, d) =
            deliver_loop-Delivers fuel limit file (moved file r v go)
              (moved-IsReceiving file r v go) (omega arith) (omega arith) (still go more) in
          (t, rw (go, deliver_one-eq file r v go, deliver_loop) e, Delivers-moved file r v go d)
      | inr end ↦ (r, rw (end, deliver_loop), rests file r v end)
    ]
  where
    before_limit : can_deliver r ≡ true → r.base < limit
    before_limit go = elim (dec_lt r.base limit) [
      | yes p ↦ p
      | no n ↦ absurd (
          true-ne-false
            (sym (ready file r v go).1 ∙ none_behind r.base (omega arith) (omega arith)))
    ]

    still :
        (go : can_deliver r ≡ true)
        → r.base < limit
        → (seq : ℕ) → limit ≤ seq
        → seq < r.base + 1 + window_size
        → received_at (moved file r v go).window seq ≡ false
    still go more seq l u = elim (dec_lt seq (r.base + window_size)) [
      | yes within ↦
          ap (λ e. e.received) (others file r v go seq (omega arith) within)
          ∙ none_behind seq l within
      | no outside ↦ gained file r v go seq (omega arith) u
    ]

-- The sliding loop of `sr_receiver_handle_data`.
pub deliver-Delivers :
    (file : List ℕ) (r : Receiver)
    → IsReceiving file r
    → (t : Receiver) × (deliver_loop (window_size + 1) r ≡ some t) × Delivers file r t
deliver-Delivers file r v =
    deliver_loop-Delivers (window_size + 1) (r.base + window_size) file r v (omega arith)
      (omega arith) (λ seq l u. absurd (omega arith))
