-- ===== src/Lossy/Bits.antt =====
-- Facts about the exclusive or of numbers, which the link of skeleton/lossy_udp.c is built from.
use Prim.Native.Nat.{bit_xor, digits, differ, bit_xor-bitwise}
use cpe_464_program.Base.{ℕ, zero, suc, ◌+◌, ◌*◌, ◌/◌, ◌%◌, ◌^◌, ◌≤◌, ◌<◌, ◌≡◌, refl, arith, ◌⊎◌}

abbrev xor_digits : ℕ → ℕ → ℕ → ℕ
xor_digits n a b = digits (λ b. b) differ n a b

xor_digits_fuel : (n m a b : ℕ) → a ≤ n → a ≤ m → xor_digits n a b ≡ xor_digits m a b
xor_digits_fuel zero zero a b p q = refl
xor_digits_fuel zero (suc m) zero b p q = refl
xor_digits_fuel zero (suc m) (suc a) b p q = absurd (omega arith)
xor_digits_fuel (suc n) zero zero b p q = refl
xor_digits_fuel (suc n) zero (suc a) b p q = absurd (omega arith)
xor_digits_fuel (suc n) (suc m) zero b p q = refl
xor_digits_fuel (suc n) (suc m) (suc a) b p q =
    omega (arith, xor_digits_fuel n m (suc a / 2) (b / 2) (omega arith) (omega arith))

zero-bit_xor : (b : ℕ) → bit_xor 0 b ≡ b
zero-bit_xor b = bit_xor-bitwise 0 b

differ-zero : (b : ℕ) → differ 0 b ≡ b
differ-zero b = refl

-- The law for the lowest digit.
bit_xor_step : (a b : ℕ) → bit_xor a b ≡ bit_xor (a / 2) (b / 2) * 2 + differ (a % 2) (b % 2)
bit_xor_step zero b = omega (arith, zero-bit_xor b, zero-bit_xor (b / 2), differ-zero (b % 2))
bit_xor_step (suc a) b = omega (
  arith,
  bit_xor-bitwise (suc a) b,
  bit_xor-bitwise (suc a / 2) (b / 2),
  xor_digits_fuel a (suc a / 2) (suc a / 2) (b / 2) (omega arith) (omega arith),
)

-- Two digits.
digit_cases : (a : ℕ) → (a % 2 ≡ 0) ⊎ (a % 2 ≡ 1)
digit_cases a = ground arith

digit-differ : (a b : ℕ) → a < 2 → b < 2 → differ a b < 2
digit-differ zero b p q = q
digit-differ (suc zero) zero p q = p
digit-differ (suc zero) (suc b) p q = omega arith
digit-differ (suc (suc a)) b p q = absurd (omega arith)

differ_same : (a b : ℕ) → a < 2 → b < 2 → differ a b ≡ 0 → a ≡ b
differ_same zero b p q e = omega (arith, e)
differ_same (suc zero) zero p q e = absurd (omega (arith, e))
differ_same (suc zero) (suc zero) p q e = refl
differ_same (suc zero) (suc (suc b)) p q e = absurd (omega arith)
differ_same (suc (suc a)) b p q e = absurd (omega arith)

same_fuel : (n a b : ℕ) → a ≤ n → b ≤ n → bit_xor a b ≡ 0 → a ≡ b
same_fuel zero a b p q e = omega arith
same_fuel (suc n) a b p q e =
    let half =
      same_fuel n (a / 2) (b / 2) (omega arith) (omega arith) (omega (arith, bit_xor_step a b)) in
    let low =
      differ_same (a % 2) (b % 2) (omega arith) (omega arith) (omega (arith, bit_xor_step a b)) in
    omega (arith, half, low)

-- Only equal numbers cancel.
pub bit_xor_same : (a b : ℕ) → bit_xor a b ≡ 0 → a ≡ b
bit_xor_same a b e = same_fuel (a + b) a b (omega arith) (omega arith) e

-- No more digits than the two have.
pub bit_xor-small : (w a b : ℕ) → a < 2 ^ w → b < 2 ^ w → bit_xor a b < 2 ^ w
bit_xor-small zero zero b p q = omega (arith, zero-bit_xor b)
bit_xor-small zero (suc a) b p q = absurd (omega arith)
bit_xor-small (suc w) a b p q =
    let half = bit_xor-small w (a / 2) (b / 2) (omega arith) (omega arith) in
    let low = digit-differ (a % 2) (b % 2) (omega arith) (omega arith) in
    omega (arith, bit_xor_step a b, half, low)
