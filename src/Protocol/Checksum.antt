-- ===== src/Protocol/Checksum.antt =====
-- `calculate_checksum` and `verify_checksum` of skeleton/protocol.h. A byte is a number, and the
-- length argument is the length of the list.
pub mod Laws
use cpe_464_program.Base.{
  ℕ, zero, suc, ◌+◌, ◌-◌, ◌/◌, ◌%◌, ◌^◌, Bool, true, false, List, [], ◌∷◌, u16, u32, ltb, ◌==◌,
}

-- `for (i = 0; i < len; i++) sum += bytes[i]` on a `uint32_t`.
unfoldable pub sum_bytes : ℕ → List ℕ → ℕ
sum_bytes sum [] = sum
sum_bytes sum (b ∷ bytes) = sum_bytes (u32 (sum + b)) bytes

-- `while (sum >> 16) sum = (sum & 0xFFFF) + (sum >> 16)`, with fuel.
unfoldable pub fold_carries : ℕ → ℕ → ℕ
fold_carries zero sum = sum
fold_carries (suc fuel) sum = elim (ltb 0 (sum / 2 ^ 16)) [
  | true ↦ fold_carries fuel (u32 (sum % 2 ^ 16 + sum / 2 ^ 16))
  | false ↦ sum
]

-- `~sum` on `uint32_t` is `2 ^ 32 - 1 - sum`.
unfoldable pub calculate_checksum : List ℕ → ℕ
calculate_checksum bytes = u16 (2 ^ 32 - 1 - fold_carries 3 (sum_bytes 0 bytes))

unfoldable pub verify_checksum : List ℕ → ℕ → Bool
verify_checksum bytes expected = calculate_checksum bytes == expected
