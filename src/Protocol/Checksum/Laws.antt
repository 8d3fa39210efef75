-- ===== src/Protocol/Checksum/Laws.antt =====
-- The checksum against its arithmetic meaning: the end of its loop, one's complement addition, and
-- what it detects.
use cpe_464_program.Base.{
  ℕ, zero, suc, ◌+◌, ◌-◌, ◌*◌, ◌/◌, ◌%◌, ◌^◌, ◌≤◌, ◌<◌, ◌≡◌, refl, ◌∙◌, List, [], ◌∷◌, ◌≢◌, arith,
  length, length-set, set, get_or, u32,
}
use mathlib.Core.List.{Perm, Permᴰ}
use mathlib.Core.Logic.{∥∥₁_elim}
use native.Mathlib.Nat.{ℕ_set}
use cpe_464_program.Protocol.Checksum.{sum_bytes, fold_carries, calculate_checksum}

-- The bytes' sum with no bound on its size.
abbrev pub total : List ℕ → ℕ
total [] = 0
total (b ∷ bytes) = b + total bytes

-- Every item is the value of a `uint8_t`.
abbrev pub IsBytes : List ℕ → Type 0
IsBytes [] = Unit
IsBytes (b ∷ bytes) = (b < 256) × IsBytes bytes

-- The sum of two's complement bytes folded to 16 bits: the remainder by 65535, but 65535 for 0.
abbrev pub folded : ℕ → ℕ
folded zero = 0
folded (suc n) = n % 65535 + 1

pub total-le : (xs : List ℕ) → IsBytes xs → total xs ≤ 255 * length xs
total-le [] h = omega arith
total-le (x ∷ xs) h = omega (arith, total-le xs h.1)

-- The loop ends by its test within three rounds, below 2 ^ 16 and at the folded value.
pub fold_carries_lem :
    (s : ℕ) → s < 2 ^ 32 → (fold_carries 3 s / 2 ^ 16 ≡ 0) × (fold_carries 3 s ≡ folded s)
unfolding fold_carries
fold_carries_lem zero h = ground arith
fold_carries_lem (suc n) h = ground arith

pub sum_bytes_lem : (s : ℕ) (xs : List ℕ) → s + total xs < 2 ^ 32 → sum_bytes s xs ≡ s + total xs
unfolding sum_bytes
sum_bytes_lem s [] h = omega arith
sum_bytes_lem s (x ∷ xs) h = omega (arith, sum_bytes_lem (u32 (s + x)) xs (omega arith))

folded-le : (n : ℕ) → folded n ≤ 65535
folded-le zero = omega arith
folded-le (suc n) = omega arith

-- For less than 16 MiB of bytes the checksum is the complement of their folded sum, and the carry
-- loop has ended by its own test.
pub calculate_checksum-folded :
    (xs : List ℕ)
    → IsBytes xs
    → length xs < 2 ^ 24
    → (calculate_checksum xs ≡ 65535 - folded (total xs))
      × (fold_carries 3 (sum_bytes 0 xs) / 2 ^ 16 ≡ 0)
unfolding calculate_checksum
calculate_checksum-folded xs b h =
    ground
      (arith, total-le xs b, sum_bytes_lem 0 xs, fold_carries_lem (total xs), folded-le (total xs))

total-set :
    (xs : List ℕ) (i v : ℕ) → i < length xs → total (set xs i v) + get_or xs i 0 ≡ total xs + v
total-set [] i v h = absurd (omega arith)
total-set (x ∷ xs) zero v h = omega arith
total-set (x ∷ xs) (suc i) v h = omega (arith, total-set xs i v (omega arith))

pub set-IsBytes : (xs : List ℕ) (i v : ℕ) → IsBytes xs → v < 256 → IsBytes (set xs i v)
set-IsBytes [] i v h hv = tt
set-IsBytes (x ∷ xs) zero v h hv = (hv, h.1)
set-IsBytes (x ∷ xs) (suc i) v h hv = (h.0, set-IsBytes xs i v h.1 hv)

get_or-lt : (xs : List ℕ) (i : ℕ) → IsBytes xs → get_or xs i 0 < 256
get_or-lt [] i h = omega arith
get_or-lt (x ∷ xs) zero h = h.0
get_or-lt (x ∷ xs) (suc i) h = get_or-lt xs i h.1

folded_close : (a b x y : ℕ) → folded a ≡ folded b → a + x ≡ b + y → x < 256 → y < 256 → x ≡ y
folded_close zero zero x y e h hx hy = omega arith
folded_close zero (suc b) x y e h hx hy = omega arith
folded_close (suc a) zero x y e h hx hy = omega arith
folded_close (suc a) (suc b) x y e h hx hy = omega arith

-- In less than 16 MiB of bytes, replacing one byte by another changes the checksum.
pub calculate_checksum-set_ne :
    (xs : List ℕ) (i v : ℕ)
    → IsBytes xs
    → length xs < 2 ^ 24
    → i < length xs
    → v < 256
    → v ≢ get_or xs i 0
    → calculate_checksum (set xs i v) ≢ calculate_checksum xs
calculate_checksum-set_ne xs i v b small hi hv ne same = ne (
    folded_close (total xs) (total (set xs i v)) v (get_or xs i 0) equal
      (omega (arith, total-set xs i v hi)) hv (get_or-lt xs i b))
  where
    equal : folded (total xs) ≡ folded (total (set xs i v))
    equal = omega (
      arith,
      same,
      (calculate_checksum-folded xs b small).0,
      (calculate_checksum-folded (set xs i v) (set-IsBytes xs i v b hv) (rw length-set small)).0,
      folded-le (total xs),
      folded-le (total (set xs i v)),
    )

total-perm : {xs ys : List ℕ} → Permᴰ xs ys → total xs ≡ total ys
total-perm Permᴰ.nil = refl
total-perm (Permᴰ.cons e p) = omega (arith, total-perm p)
total-perm (Permᴰ.swap e d) = omega arith
total-perm (Permᴰ.trans p q) = total-perm p ∙ total-perm q

-- The order of the bytes does not matter: in less than 16 MiB of bytes, the checksum cannot see
-- that they changed places.
pub calculate_checksum-perm :
    (xs ys : List ℕ)
    → IsBytes xs
    → length xs < 2 ^ 24
    → Perm xs ys
    → calculate_checksum xs ≡ calculate_checksum ys
unfolding calculate_checksum
calculate_checksum-perm xs ys b small p =
    rw (sum_bytes_lem 0 xs fits, sum_bytes_lem 0 ys (rw (← same) fits), same)
  where
    fits : 0 + total xs < 2 ^ 32
    fits = omega (arith, total-le xs b)

    same : total xs ≡ total ys
    same = ∥∥₁_elim p (ℕ_set _ _) total-perm
