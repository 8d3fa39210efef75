-- ===== src/Transfer/Window.antt =====
-- A window of `window_size` slots that sequence numbers share by their remainder, and the chunks of a
-- file that travel through it. Both ends of a transfer keep such a window.
use cpe_464_program.Base.{
  ℕ, zero, suc, ◌+◌, ◌-◌, ◌*◌, ◌/◌, ◌%◌, ◌^◌, ◌≤◌, ◌<◌, ◌≡◌, ◌≢◌, refl, ◌∙◌, ap, Bool, true, false,
  List, ◌++◌, arith, if◌then◌else◌, length, take, drop, get_or, set, get_or-set_self, get_or-set_ne,
  length-drop, length-take, take-length-take, take-add,
}
use Prim.Native.Nat.{min}
use native.Mathlib.Decide.{ℕ_discrete}
use cpe_464_program.Protocol.Udp.{chunk_size, window_size}

module _ {ℓ} {A : Type ℓ} (w : List A) (full : length w ≡ window_size) (v d : A) where
  pub slot-set_self : (a : ℕ) → get_or (set w (a % window_size) v) (a % window_size) d ≡ v
  slot-set_self a = get_or-set_self w (a % window_size) v d (omega arith)

  -- Two numbers of one window have slots of their own.
  pub slot-set_ne :
      (base a b : ℕ)
      → base ≤ a
      → a < base + window_size
      → base ≤ b
      → b < base + window_size
      → a ≢ b
      → get_or (set w (a % window_size) v) (b % window_size) d ≡ get_or w (b % window_size) d
  slot-set_ne base a b la ha lb hb ne =
      get_or-set_ne w (a % window_size) (b % window_size) v d (omega arith)

-- How many of the `n` numbers from `lo` on pass a test.
unfoldable pub count_from : (ℕ → Bool) → ℕ → ℕ → ℕ
count_from p lo zero = 0
count_from p lo (suc n) = (if p lo then 1 else 0) + count_from p (lo + 1) n

pub count_from-le : (p : ℕ → Bool) (lo n : ℕ) → count_from p lo n ≤ n
unfolding count_from
count_from-le p lo zero = omega arith
count_from-le p lo (suc n) = ground (arith, count_from-le p (lo + 1) n)

pub count_from-lt : (p : ℕ → Bool) (lo n : ℕ) → 0 < n → p lo ≡ false → count_from p lo n < n
unfolding count_from
count_from-lt p lo zero h off = absurd (omega arith)
count_from-lt p lo (suc n) h off = ground (arith, count_from-le p (lo + 1) n)

pub count_from_ext :
    (p q : ℕ → Bool) (lo n : ℕ)
    → ((k : ℕ) → lo ≤ k → k < lo + n → p k ≡ q k)
    → count_from p lo n ≡ count_from q lo n
unfolding count_from
count_from_ext p q lo zero h = refl
count_from_ext p q lo (suc n) h =
    ground (arith, h lo, count_from_ext p q (lo + 1) n (λ k l u. h k (omega arith) (omega arith)))

-- Turning on one number of the range that did not pass adds one.
pub count_from_update :
    (p q : ℕ → Bool) (lo n a : ℕ)
    → lo ≤ a
    → a < lo + n
    → p a ≡ false
    → q a ≡ true
    → ((k : ℕ) → lo ≤ k → k < lo + n → k ≢ a → p k ≡ q k)
    → count_from q lo n ≡ count_from p lo n + 1
unfolding count_from
count_from_update p q lo zero a l u off on h = absurd (omega arith)
count_from_update p q lo (suc n) a l u off on h = elim (ℕ_discrete lo a) [
  | yes e ↦
      let here : p lo ≡ false = rw e off in
      let there : q lo ≡ true = rw e on in
      ground (
        arith,
        count_from_ext p q (lo + 1) n (λ k l' u'. h k (omega arith) (omega arith) (omega arith)),
      )
  | no ne ↦ ground (
    arith,
    h lo,
    count_from_update p q (lo + 1) n a (omega arith) (omega arith) off on
        (λ k l' u' ne'. h k (omega arith) (omega arith) ne'),
  )
]

pub count_from-suc :
    (p : ℕ → Bool) (lo n : ℕ)
    → count_from p lo (suc n) ≡ count_from p lo n + (if p (lo + n) then 1 else 0)
unfolding count_from
count_from-suc p lo zero = ground (arith, ap p {x = lo + 0} {y = lo} (omega arith))
count_from-suc p lo (suc n) =
    ground
      (arith, count_from-suc p (lo + 1) n, ap p {x = lo + 1 + n} {y = lo + suc n} (omega arith))

-- A range that moves by one, from a number that passed to one that does not, counts one less.
pub count_from_slide :
    (p q : ℕ → Bool) (lo n : ℕ)
    → 0 < n
    → p lo ≡ true
    → q (lo + n) ≡ false
    → ((k : ℕ) → lo < k → k < lo + n → p k ≡ q k)
    → count_from p lo n ≡ count_from q (lo + 1) n + 1
unfolding count_from
count_from_slide p q lo zero h on off same = absurd (omega arith)
count_from_slide p q lo (suc n) h on off same = ground (
  arith,
  on,
  off,
  ap q {x = lo + suc n} {y = lo + 1 + n} (omega arith),
  count_from-suc q (lo + 1) n,
  count_from_ext p q (lo + 1) n (λ k l u. same k (omega arith) (omega arith)),
)

-- Chunk `seq` of a file.
abbrev pub chunk : List ℕ → ℕ → List ℕ
chunk file seq = take chunk_size (drop (seq * chunk_size) file)

-- A file whose size and number of chunks the 32-bit arithmetic of the transfer represents.
abbrev pub max_file_size : ℕ
max_file_size = 2 ^ 32 - chunk_size

-- The number of chunks of a file of that size.
abbrev pub chunks_of : ℕ → ℕ
chunks_of size = (size + chunk_size - 1) / chunk_size

pub length-chunk :
    (file : List ℕ) (seq : ℕ)
    → length (chunk file seq) ≡ min chunk_size (length file - seq * chunk_size)
length-chunk file seq = omega (
  arith,
  length-take chunk_size (drop (seq * chunk_size) file),
  length-drop (seq * chunk_size) file,
)

-- The size of a chunk of the file: every chunk but the last is full, the last ends with the file.
pub record ChunkSize (size seq len : ℕ) : Type 0 where
  pub at_most : len ≤ chunk_size
  pub positive : 0 < len
  pub inside : seq * chunk_size + len ≤ size
  pub full : seq + 1 < chunks_of size → len ≡ chunk_size
  pub ends : seq + 1 ≡ chunks_of size → seq * chunk_size + len ≡ size

pub chunk-ChunkSize :
    (file : List ℕ) (seq : ℕ)
    → seq < chunks_of (length file)
    → ChunkSize (length file) seq (length (chunk file seq))
chunk-ChunkSize file seq h = record {
  at_most = omega (arith, length-chunk file seq);
  positive = omega (arith, length-chunk file seq);
  inside = omega (arith, length-chunk file seq);
  full = λ more. omega (arith, length-chunk file seq);
  ends = λ last. omega (arith, length-chunk file seq);
}

-- The first chunks of a file are those before the last of them, and that one.
pub take-suc-chunk :
    (file : List ℕ) (seq : ℕ)
    → take (seq * chunk_size + length (chunk file seq)) file
      ≡ take (seq * chunk_size) file ++ chunk file seq
take-suc-chunk file seq =
    take-add (seq * chunk_size) (length (chunk file seq)) file
    ∙ ap (λ r. take (seq * chunk_size) file ++ r)
        (take-length-take chunk_size (drop (seq * chunk_size) file))
