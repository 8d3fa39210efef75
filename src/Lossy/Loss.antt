-- ===== src/Lossy/Loss.antt =====
-- Which datagrams the link of skeleton/lossy_udp.c drops.
use native.Mathlib.Nat.{one-le-pow, mul-lt-mul_of_pos_right}
use mathlib.Core.Path.{subst}
use cpe_464_program.Base.{
  ℕ, zero, suc, ◌*◌, ◌/◌, ◌^◌, ◌≤◌, ◌<◌, ◌≡◌, refl, sym, ◌∙◌, ap, Bool, true, false, List, [], ◌∷◌,
  ◌++◌, arith, ltb, lt→ltb, length, ◌==◌, if◌then◌else◌, Bool-cases, inl, inr,
}
use cpe_464_program.Transfer.Sender.{Datagram}
use cpe_464_program.Lossy.{
  Double, nan, infinite, finite, draw_below, clamp, Link, xs64, lossy_init, lossy_send,
}
use cpe_464_program.Lossy.Generator.{IsState, xs64-IsState}

-- Some of the elements of a list, in their order.
pub data IsPartOf {ℓ} {A : Type ℓ} : List A → List A → Type ℓ where
  ends : IsPartOf [] []
  keeps : (a : A) {xs ys : List A} → IsPartOf xs ys → IsPartOf (a ∷ xs) (a ∷ ys)
  skips : (a : A) {xs ys : List A} → IsPartOf xs ys → IsPartOf xs (a ∷ ys)

-- No draw is below a rate of at most 0, nor below a rate that is no number.
pub data IsNever : Double → Type 0 where
  no_number : IsNever nan
  lowest : IsNever (infinite true)
  negative : (n k : ℕ) → IsNever (finite true n k)
  zero_rate : (k : ℕ) → IsNever (finite false 0 k)

-- Every draw is below a rate of at least 1.
pub data IsAlways : Double → Type 0 where
  highest : IsAlways (infinite false)
  at_least : (n k : ℕ) → 2 ^ k ≤ n → IsAlways (finite false n k)

-- The draws that follow a state of the generator.
abbrev draws : ℕ → ℕ → List ℕ
draws zero s = []
draws (suc n) s = (xs64 s).0 / 2 ^ 11 ∷ draws n (xs64 s).1

-- The calls of `lossy_send` with one datagram after another: those that reach `sendto`, and the link.
module _ (sendto : Datagram → Bool) where
  abbrev pub link_run : List Datagram → Link → List Datagram × Link
  link_run [] l = ([], l)
  link_run (d ∷ ds) l =
      let (ok, passed, l') = lossy_send sendto d l in
      let (rest, end) = link_run ds l' in (passed ++ rest, end)

scaled : (m n p : ℕ) → 1 ≤ p → p ≤ n → m < 2 ^ 53 → m * p < n * 2 ^ 53
scaled m n p positive enough small =
    omega (arith, mul-lt-mul_of_pos_right {m = m} {n = 2 ^ 53} {k = p} small (omega arith))

never_below : (loss : Double) → IsNever loss → (m : ℕ) → draw_below m (clamp loss) ≡ false
never_below nan no_number m = refl
never_below (infinite true) lowest m = ground arith
never_below (finite true n k) (negative _ _) m = elim (Bool-cases (ltb 0 n)) [
  | inl below ↦ rw (below, clamp) (ground arith)
  | inr zero_n ↦ rw (zero_n, clamp) refl
]
never_below (finite false zero k) (zero_rate _) m = ground arith
never_below (infinite false) never m = elim never [ ]
never_below (finite false (suc n) k) never m = elim never [ ]

always_below :
    (loss : Double) → IsAlways loss → (m : ℕ) → m < 2 ^ 53 → draw_below m (clamp loss) ≡ true
always_below nan always m small = elim always [ ]
always_below (infinite true) always m small = elim always [ ]
always_below (finite true n k) always m small = elim always [ ]
always_below (infinite false) highest m small = ground arith
always_below (finite false n k) (at_least _ _ enough) m small = elim (Bool-cases (ltb (2 ^ k) n)) [
  | inl above ↦ rw (above, clamp) (ground arith)
  | inr exact ↦
      rw (exact, clamp)
        (lt→ltb (m * 2 ^ k) (n * 2 ^ 53)
          (scaled m n (2 ^ k) (one-le-pow k 2 (omega arith)) enough small))
]

-- The datagrams that the draws leave.
abbrev left_by : Double → List ℕ → List Datagram → List Datagram
left_by loss [] ds = []
left_by loss (m ∷ ms) [] = []
left_by loss (m ∷ ms) (d ∷ ds) =
    let rest = left_by loss ms ds in if draw_below m loss then rest else d ∷ rest

left_by-IsPartOf :
    (loss : Double) (ms : List ℕ) (ds : List Datagram) → IsPartOf (left_by loss ms ds) ds
left_by-IsPartOf loss [] [] = ends
left_by-IsPartOf loss [] (d ∷ ds) = skips d (left_by-IsPartOf loss [] ds)
left_by-IsPartOf loss (m ∷ ms) [] = ends
left_by-IsPartOf loss (m ∷ ms) (d ∷ ds) = elim (Bool-cases (draw_below m loss)) [
  | inl drops ↦ rw (drops, left_by) (skips d (left_by-IsPartOf loss ms ds))
  | inr passes ↦ rw (passes, left_by) (keeps d (left_by-IsPartOf loss ms ds))
]

all_left :
    (loss : Double) (rng : ℕ) (ds : List Datagram)
    → IsNever loss
    → left_by (clamp loss) (draws (length ds) rng) ds ≡ ds
all_left loss rng [] never = refl
all_left loss rng (d ∷ ds) never =
    rw (never_below loss never ((xs64 rng).0 / 2 ^ 11), left_by)
      (ap (λ l. d ∷ l) (all_left loss (xs64 rng).1 ds never))

draw-small : (rng : ℕ) → (xs64 rng).0 / 2 ^ 11 < 2 ^ 53
unfolding xs64
draw-small rng = omega arith

none_left :
    (loss : Double) (rng : ℕ) (ds : List Datagram)
    → IsAlways loss
    → left_by (clamp loss) (draws (length ds) rng) ds ≡ []
none_left loss rng [] always = refl
none_left loss rng (d ∷ ds) always =
    rw (always_below loss always ((xs64 rng).0 / 2 ^ 11) (draw-small rng), left_by)
      (none_left loss (xs64 rng).1 ds always)

-- What a link does to a list of datagrams.
record Loses (ds : List Datagram) (l : Link) (out : List Datagram × Link) : Type 0 where
  passed : out.0 ≡ left_by l.loss (draws (length ds) l.rng) ds
  state : IsState out.1.rng
  same : out.1.loss ≡ l.loss

module _ (sendto : Datagram → Bool) where
  link_run-Loses :
      (ds : List Datagram) (l : Link) → IsState l.rng → Loses ds l (link_run sendto ds l)
  unfolding lossy_send
  link_run-Loses [] l v = record { passed = refl; state = v; same = refl }
  link_run-Loses (d ∷ ds) l v =
      let rest = link_run-Loses ds (record l { rng = (xs64 l.rng).1 }) (xs64-IsState l.rng v) in
      elim (Bool-cases (draw_below ((xs64 l.rng).0 / 2 ^ 11) l.loss)) [
        | inl drops ↦ record {
          passed = rw (drops, lossy_send) rest.passed;
          state = rw (drops, lossy_send) rest.state;
          same = rw (drops, lossy_send) rest.same;
        }
        | inr passes ↦ record {
          passed = rw (passes, lossy_send) (ap (λ x. d ∷ x) rest.passed);
          state = rw (passes, lossy_send) rest.state;
          same = rw (passes, lossy_send) rest.same;
        }
      ]

-- What a new link does to a list of datagrams.
pub record IsLossOf (loss : Double) (ds passed : List Datagram) (l : Link) : Type 0 where
  pub part : IsPartOf passed ds
  pub all : IsNever loss → passed ≡ ds
  pub nothing : IsAlways loss → passed ≡ []
  pub state : IsState l.rng
  pub same : l.loss ≡ clamp loss

seed-IsState :
    (fd : ℕ) (loss : Double) (seed : ℕ) → seed < 2 ^ 64 → IsState (lossy_init fd loss seed).rng
unfolding lossy_init
seed-IsState fd loss seed small = elim (Bool-cases (seed == 0)) [
  | inl zero_seed ↦
      rw (zero_seed, lossy_init) (record { positive = omega arith; small = omega arith })
  | inr other ↦ rw (other, lossy_init) (record { positive = ground arith; small = small })
]

-- From a new link, with any loss rate and any seed of 64 bits, the calls of `lossy_send` give to `sendto` some of
-- the datagrams in their order: all of them where the rate is at most 0 or not a number, and none where
-- it is at least 1. The generator's state stays a number of 64 bits other than 0, and the rate is kept.
pub lossy_send-IsLossOf :
    (sendto : Datagram → Bool) (fd : ℕ) (loss : Double) (seed : ℕ) (ds : List Datagram)
    → seed < 2 ^ 64
    → IsLossOf loss ds
        (link_run sendto ds (lossy_init fd loss seed)).0
        (link_run sendto ds (lossy_init fd loss seed)).1
unfolding lossy_init
lossy_send-IsLossOf sendto fd loss seed ds small =
    let l = lossy_init fd loss seed in
    let run = link_run-Loses sendto ds l (seed-IsState fd loss seed small) in
    record {
      part =
          subst (λ p. IsPartOf p ds) (sym run.passed)
            (left_by-IsPartOf l.loss (draws (length ds) l.rng) ds);
      all = λ never. run.passed ∙ all_left loss l.rng ds never;
      nothing = λ always. run.passed ∙ none_left loss l.rng ds always;
      state = run.state;
      same = run.same;
    }
