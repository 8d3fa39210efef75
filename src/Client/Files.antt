-- ===== src/Client/Files.antt =====
-- skeleton/common.c: reading and writing a whole file, and a digest as text.
use cpe_464_program.Base.{
  ℕ, ◌+◌, ◌-◌, ◌*◌, ◌/◌, ◌%◌, ◌<◌, ◌≡◌, refl, sym, ◌∙◌, ap, Bool, true, false, not, Option, none,
  some, List, [], ◌∷◌, arith, ltb, ◌==◌, ==_iff, if◌then◌else◌, length, take, take-all, All,
}
use mathlib.Core.Path.{ap₂}
use mathlib.Core.Bool.{false≢true}
use cpe_464_program.Client.Get.{same_bytes}
use cpe_464_program.Client.Get.Opening.{same_bytes_refl}
use native.Mathlib.Nat.{le_refl}

-- An opened file: what `ftell` gives at its end, `none` below zero, and what `fread` reads.
record FileOnDisk : Type 0 where
  told : Option ℕ
  contents : List ℕ

-- What `fopen` opens, and whether `malloc` has so many bytes.
module _ (fopen : List ℕ → Option FileOnDisk) (malloc : ℕ → Bool) where
  unfoldable read_file_to_buffer : List ℕ → Option (List ℕ)
  read_file_to_buffer filepath = elim (fopen filepath) [
    | none ↦ none
    | some file ↦ elim file.told [
      | none ↦ none
      | some fsize ↦
          if not (malloc fsize)
          then none
          else if not (length (take fsize file.contents) == fsize)
          then none
          else some (take fsize file.contents)
    ]
  ]

  -- A file whose size is told truly, with memory of this size, is read whole.
  read_file_to_buffer_whole :
      (filepath : List ℕ) (file : FileOnDisk)
      → fopen filepath ≡ some file
      → file.told ≡ some (length file.contents)
      → malloc (length file.contents) ≡ true
      → read_file_to_buffer filepath ≡ some file.contents
  unfolding read_file_to_buffer
  read_file_to_buffer_whole filepath file opened told memory =
      let whole : take (length file.contents) file.contents ≡ file.contents =
        take-all (length file.contents) file.contents (le_refl _) in
      let counted : (length (take (length file.contents) file.contents) == length file.contents)
          ≡ true =
        (==_iff _ _).1 (ap (λ b. length b) whole) in
      rw (opened, read_file_to_buffer, told, memory, counted) (ap some whole)

-- A file with these contents, as it is opened for reading.
abbrev opened : Option (List ℕ) → Option FileOnDisk
opened none = none
opened (some contents) = some (record { told = some (length contents); contents = contents })

-- What `fopen` may write, and how many bytes `fwrite` writes. `disk` has the contents of the files.
module _ (writable : List ℕ → Bool) (fwrite : ℕ → ℕ) where
  -- Opening for writing empties the file.
  unfoldable write_buffer_to_file :
      List ℕ → List ℕ → (List ℕ → Option (List ℕ)) → Bool × (List ℕ → Option (List ℕ))
  write_buffer_to_file filepath buffer disk =
      if not (writable filepath)
      then (false, disk)
      else let written = fwrite (length buffer) in
        (
          written == length buffer,
          λ name. if same_bytes name filepath then some (take written buffer) else disk name,
        )

  written_there :
      (filepath buffer : List ℕ) (disk : List ℕ → Option (List ℕ))
      → (write_buffer_to_file filepath buffer disk).0 ≡ true
      → (write_buffer_to_file filepath buffer disk).1 filepath ≡ some buffer
  unfolding write_buffer_to_file
  written_there filepath buffer disk done = by_cases (writable filepath) refl done
    where
      by_cases :
          (can_write : Bool)
          → writable filepath ≡ can_write
          → (write_buffer_to_file filepath buffer disk).0 ≡ true
          → (write_buffer_to_file filepath buffer disk).1 filepath ≡ some buffer
      by_cases false shut done =
          absurd (false≢true (sym (rw (shut, write_buffer_to_file) refl) ∙ done))
      by_cases true can_write done =
          let all : fwrite (length buffer) ≡ length buffer =
            (==_iff _ _).0 (sym (rw (can_write, write_buffer_to_file) refl) ∙ done) in
          rw (can_write, write_buffer_to_file, same_bytes_refl filepath, all)
            (ap some (take-all (length buffer) buffer (le_refl _)))

  -- Where the result is 0 and there is memory, the file is read back whole.
  read_file_to_buffer-write_buffer_to_file :
      (malloc : ℕ → Bool) (filepath buffer : List ℕ) (disk : List ℕ → Option (List ℕ))
      → (write_buffer_to_file filepath buffer disk).0 ≡ true
      → malloc (length buffer) ≡ true
      → read_file_to_buffer
          (λ name. opened ((write_buffer_to_file filepath buffer disk).1 name))
          malloc
          filepath
        ≡ some buffer
  read_file_to_buffer-write_buffer_to_file malloc filepath buffer disk done memory =
      read_file_to_buffer_whole
        (λ name. opened ((write_buffer_to_file filepath buffer disk).1 name)) malloc filepath
        (record { told = some (length buffer); contents = buffer })
        (ap opened (written_there filepath buffer disk done)) refl memory

-- A digit of `%02x`.
abbrev hex_digit : ℕ → ℕ
hex_digit n = if ltb n 10 then 48 + n else 87 + n

unfoldable hash_to_string : List ℕ → List ℕ
hash_to_string [] = []
hash_to_string (b ∷ hash) = hex_digit (b / 16) ∷ hex_digit (b % 16) ∷ hash_to_string hash

abbrev digit_value : ℕ → ℕ
digit_value c = if ltb c 58 then c - 48 else c - 87

abbrev read_hash : List ℕ → List ℕ
read_hash [] = []
read_hash (c ∷ []) = []
read_hash (c ∷ c' ∷ text) = (digit_value c * 16 + digit_value c') ∷ read_hash text

digit_value-hex_digit : (n : ℕ) → n < 16 → digit_value (hex_digit n) ≡ n
digit_value-hex_digit n small = ground arith

-- The text of a digest tells its bytes.
read_hash-hash_to_string :
    (hash : List ℕ) → All (λ b. b < 256) hash → read_hash (hash_to_string hash) ≡ hash
unfolding hash_to_string
read_hash-hash_to_string [] bytes = refl
read_hash-hash_to_string (b ∷ hash) bytes =
    ap₂ (λ x xs. x ∷ xs)
      (ap₂ (λ h l. h * 16 + l) (digit_value-hex_digit (b / 16) (omega (arith, bytes.0)))
          (digit_value-hex_digit (b % 16) (omega arith))
        ∙ omega arith)
      (read_hash-hash_to_string hash bytes.1)
