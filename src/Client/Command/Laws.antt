-- ===== src/Client/Command/Laws.antt =====
-- `handle_command` of skeleton/client.c: what its lines are read as.
use cpe_464_program.Base.{
  ℕ, zero, suc, ◌+◌, ◌-◌, ◌*◌, ◌/◌, ◌%◌, ◌^◌, ◌≤◌, ◌<◌, ◌≡◌, refl, ◌∙◌, ap, true, false, ◌||◌, some,
  List, [], ◌∷◌, ◌++◌, arith, ltb, leb, ◌==◌, u32, length, take-all, if◌then◌else◌, Bool-cases, inl,
  inr, All, length-append,
}
use cpe_464_program.Client.Command.{
  is_space, is_digit, is_empty, until_newline, skip_space, scan_digits, value_of, to_ulong, strtoul,
  share_file, get_file, word_share, word_get, choose, parse_command,
}

-- The decimal digits of a number, as `%u` prints them; more fuel than digits changes nothing.
abbrev pub decimal : ℕ → ℕ → List ℕ
decimal zero n = []
decimal (suc fuel) n =
    let front = decimal fuel (n / 10) in
    if ltb n 10 then (48 + n) ∷ [] else front ++ ((48 + n % 10) ∷ [])

-- Bytes of which a line can hold: neither NUL nor a newline.
abbrev pub IsText : ℕ → Type 0
IsText c = (c == 10 || c == 0) ≡ false

until_newline-append : (s rest : List ℕ) → All IsText s → until_newline (s ++ 10 ∷ rest) ≡ s
until_newline-append [] rest text = refl
until_newline-append (c ∷ s) rest text =
    rw (text.0) (ap (λ t. c ∷ t) (until_newline-append s rest text.1))

value_of-append :
    (v : ℕ) (s : List ℕ) (c : ℕ) → value_of v (s ++ (c ∷ [])) ≡ value_of v s * 10 + (c - 48)
value_of-append v [] c = refl
value_of-append v (d ∷ s) c = value_of-append (v * 10 + (d - 48)) s c

abbrev IsDigit : ℕ → Type 0
IsDigit c = is_digit c ≡ true

scan_digits-All : (s : List ℕ) → All IsDigit s → scan_digits s ≡ (s, [])
scan_digits-All [] digits = refl
scan_digits-All (c ∷ s) digits =
    rw (digits.0) (ap (λ p. (c ∷ p.0, p.1)) (scan_digits-All s digits.1))

All-snoc : (P : ℕ → Type 0) (s : List ℕ) (c : ℕ) → All P s → P c → All P (s ++ (c ∷ []))
All-snoc P [] c all one = (one, tt)
All-snoc P (d ∷ s) c all one = (all.0, All-snoc P s c all.1 one)

All-decimal :
    (P : ℕ → Type 0) → ((d : ℕ) → d < 10 → P (48 + d)) → (fuel n : ℕ) → All P (decimal fuel n)
All-decimal P digit zero n = tt
All-decimal P digit (suc fuel) n = elim (Bool-cases (ltb n 10)) [
  | inl small ↦ rw small (digit n (ground arith), tt)
  | inr large ↦ rw large (
      All-snoc P (decimal fuel (n / 10)) (48 + n % 10) (All-decimal P digit fuel (n / 10))
        (digit (n % 10) (omega arith)))
]

value_of-decimal : (fuel n : ℕ) → n < 10 ^ fuel → value_of 0 (decimal fuel n) ≡ n
value_of-decimal zero n small = omega arith
value_of-decimal (suc fuel) n small = elim (Bool-cases (ltb n 10)) [
  | inl less ↦ rw less (omega arith)
  | inr more ↦ rw more (
      value_of-append 0 (decimal fuel (n / 10)) (48 + n % 10)
      ∙ ap (λ v. v * 10 + (48 + n % 10 - 48)) (value_of-decimal fuel (n / 10) (omega arith))
      ∙ omega arith)
]

is_empty-append : (s : List ℕ) (c : ℕ) → is_empty (s ++ (c ∷ [])) ≡ false
is_empty-append [] c = refl
is_empty-append (d ∷ s) c = refl

length-decimal : (fuel n : ℕ) → length (decimal fuel n) ≤ fuel
length-decimal zero n = omega arith
length-decimal (suc fuel) n = elim (Bool-cases (ltb n 10)) [
  | inl small ↦ rw small (omega arith)
  | inr large ↦ rw large (
      omega (
        arith,
        length-append (decimal fuel (n / 10)) ((48 + n % 10) ∷ []),
        length-decimal fuel (n / 10),
      ))
]

is_empty-decimal : (fuel n : ℕ) → is_empty (decimal (suc fuel) n) ≡ false
is_empty-decimal fuel n = elim (Bool-cases (ltb n 10)) [
  | inl small ↦ rw small refl
  | inr large ↦ rw large (is_empty-append (decimal fuel (n / 10)) (48 + n % 10))
]

-- A number is read to its end.
strtoul-digits :
    (s : List ℕ)
    → All IsDigit s
    → is_empty s ≡ false
    → strtoul s ≡ some (to_ulong false (value_of 0 s), [])
unfolding strtoul
strtoul-digits [] digits some_digit = cc
strtoul-digits (c ∷ s) digits some_digit =
    let no_space : is_space c ≡ false = ground (arith, digits.0) in
    let no_minus : (c == 45) ≡ false = ground (arith, digits.0) in
    let no_plus : (c == 43) ≡ false = ground (arith, digits.0) in
    let all = scan_digits-All (c ∷ s) digits in rw (no_space, strtoul, no_minus, no_plus, all) refl

skip_space-word : (s : List ℕ) → All IsDigit s → skip_space s ≡ s
skip_space-word [] digits = refl
skip_space-word (c ∷ s) digits =
    let no_space : is_space c ≡ false = ground (arith, digits.0) in rw no_space refl

u32_small : (n : ℕ) → n < 2 ^ 32 → u32 (to_ulong false n) ≡ n
u32_small n small = let below : leb (2 ^ 64) n ≡ false = ground arith in rw below (omega arith)

parse_get_digits :
    (s : List ℕ)
    → All IsDigit s
    → All IsText s
    → is_empty s ≡ false
    → length s ≤ 511
    → parse_command (word_get ++ (32 ∷ (s ++ (10 ∷ []))))
      ≡ get_file (u32 (to_ulong false (value_of 0 s)))
unfolding parse_command
parse_get_digits s digits text some_digit short =
    let line = until_newline-append s [] text in
    let front = skip_space-word s digits in
    let whole = take-all 511 s short in
    let number = strtoul-digits s digits some_digit in
    rw (line, parse_command, front, whole, some_digit, number) refl

-- `get` and a number of 32 bits in decimal, which is how `list` prints an id, as a line: it is read as
-- `get` of this number.
pub parse_get :
    (n : ℕ)
    → n < 2 ^ 32
    → parse_command (word_get ++ (32 ∷ (decimal 10 n ++ (10 ∷ [])))) ≡ get_file n
parse_get n small =
    parse_get_digits (decimal 10 n) (All-decimal IsDigit (λ d less. ground arith) 10 n)
      (All-decimal IsText (λ d less. ground arith) 10 n) (is_empty-decimal 9 n)
      (omega (arith, length-decimal 10 n))
    ∙ ap (λ v. get_file (u32 (to_ulong false v))) (value_of-decimal 10 n (omega arith))
    ∙ ap (λ v. get_file v) (u32_small n small)

-- `share`, a space and a name of at most 511 bytes without NUL and newline that does not begin with white
-- space, as a line: it is read as `share` of exactly this name, spaces inside it included.
pub parse_share :
    (c : ℕ) (name : List ℕ)
    → is_space c ≡ false
    → All IsText (c ∷ name)
    → length (c ∷ name) ≤ 511
    → parse_command (word_share ++ (32 ∷ ((c ∷ name) ++ (10 ∷ [])))) ≡ share_file (c ∷ name)
unfolding parse_command
parse_share c name start text short =
    let line = until_newline-append (c ∷ name) [] text in
    let whole = take-all 511 (c ∷ name) short in
    let chosen : choose word_share (c ∷ name) ≡ share_file (c ∷ name) = rw start refl in
    rw (line, parse_command, start) (ap (choose word_share) whole ∙ chosen)
