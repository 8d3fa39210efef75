-- ===== src/Lossy/Generator.antt =====
-- The generator of skeleton/lossy_udp.c.
use Prim.Native.Nat.{bit_xor}
use cpe_464_program.Base.{ℕ, zero, suc, ◌*◌, ◌/◌, ◌%◌, ◌^◌, ◌<◌, ◌≡◌, refl, arith}
use cpe_464_program.Lossy.{shift_first, shift_second, xs64}
use cpe_464_program.Lossy.Bits.{bit_xor_same, bit_xor-small}

-- A state of the generator: 64 bits, and not 0, which it would keep for ever.
pub record IsState (x : ℕ) : Type 0 where
  pub positive : 0 < x
  pub small : x < 2 ^ 64

positive_of : (x : ℕ) → (x ≡ 0 → ⊥) → 0 < x
positive_of zero nonzero = absurd (nonzero refl)
positive_of (suc x) nonzero = omega arith

-- A number with itself cancels only where it is its own shift.
mixed-IsState : (x y : ℕ) → IsState x → y < 2 ^ 64 → (x ≡ y → x ≡ 0) → IsState (bit_xor x y)
mixed-IsState x y v small moves = record {
  positive = positive_of (bit_xor x y) (λ e. omega (arith, moves (bit_xor_same x y e), v.positive));
  small = bit_xor-small 64 x y v.small small;
}

-- 2 ^ 25 - 1 is odd.
odd_factor : (x : ℕ) → x < 2 ^ 64 → x ≡ x * 2 ^ 25 % 2 ^ 64 → x ≡ 0
odd_factor x small e = omega arith

pub xs64-IsState : (s : ℕ) → IsState s → IsState (xs64 s).1
unfolding xs64
xs64-IsState s v =
    let first = mixed-IsState s (s / 2 ^ 12) v (omega (arith, v.small)) (λ e. omega arith) in
    let x = shift_first s in
    let second =
      mixed-IsState x (x * 2 ^ 25 % 2 ^ 64) first (omega arith) (odd_factor x first.small) in
    let y = shift_second x in
    mixed-IsState y (y / 2 ^ 27) second (omega (arith, second.small)) (λ e. omega arith)
