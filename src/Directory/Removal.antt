-- ===== src/Directory/Removal.antt =====
-- What `remove_client` of skeleton/server.c does to the table of files.
use cpe_464_program.Base.{
  ℕ, zero, suc, ◌+◌, ◌-◌, ◌≤◌, ◌≡◌, refl, ◌∙◌, ap, List, [], ◌∷◌, arith, ◌==◌, if◌then◌else◌,
  length, length-set, get_or, set, take, Bool-cases, inl, inr,
}
use cpe_464_program.Directory.{
  SharedFile, Directory, blank_file, client_at, listed, shift_down, remove_files, remove_client,
}

-- The files of the other owners, in their order.
abbrev pub kept : ℕ → List SharedFile → List SharedFile
kept owner [] = []
kept owner (f ∷ files) = if f.owner_id == owner then kept owner files else f ∷ kept owner files

length-shift_down :
    (count : ℕ) (files : List SharedFile) (j : ℕ) → length (shift_down count files j) ≡ length files
unfolding shift_down
length-shift_down zero files j = refl
length-shift_down (suc count) files j =
    length-shift_down count (set files j (get_or files (j + 1) blank_file)) (j + 1)
    ∙ length-set files j (get_or files (j + 1) blank_file)

-- The places before the first one that moves stay.
shift_down-cons :
    (count : ℕ) (f : SharedFile) (files : List SharedFile) (j : ℕ)
    → shift_down count (f ∷ files) (suc j) ≡ f ∷ shift_down count files j
unfolding shift_down
shift_down-cons zero f files j = refl
shift_down-cons (suc count) f files j =
    ap (λ k. shift_down count (set (f ∷ files) (suc j) (get_or (f ∷ files) k blank_file)) k)
      {x = suc j + 1} {y = suc (j + 1)} (omega arith)
    ∙ shift_down-cons count f (set files j (get_or files (j + 1) blank_file)) (j + 1)

-- Moving the files down drops the first of them.
take-shift_down :
    (count : ℕ) (f : SharedFile) (files : List SharedFile)
    → count ≤ length files
    → take count (shift_down count (f ∷ files) 0) ≡ take count files
unfolding shift_down
take-shift_down zero f files h = refl
take-shift_down (suc count) f [] h = absurd (omega arith)
take-shift_down (suc count) f (g ∷ files) h =
    ap (λ r. take (suc count) r) (shift_down-cons count g (g ∷ files) 0)
    ∙ ap (λ r. g ∷ r) (take-shift_down count g files (omega arith))

-- The loop does not look at the files before the place it has reached.
remove_files-cons :
    (owner fuel : ℕ) (f : SharedFile) (files : List SharedFile) (num i : ℕ)
    → fuel + i ≡ num
    → remove_files owner fuel (f ∷ files) (suc num) (suc i)
      ≡ (f ∷ (remove_files owner fuel files num i).0, suc (remove_files owner fuel files num i).1)
unfolding remove_files
remove_files-cons owner zero f files num i h = refl
remove_files-cons owner (suc fuel) f files num i h =
    elim (Bool-cases ((get_or files i blank_file).owner_id == owner)) [
      | inl theirs ↦
          rw (theirs, remove_files)
            (ap
                (λ k.
                  remove_files owner fuel (shift_down k (f ∷ files) (suc i)) (suc num - 1) (suc i))
                {x = suc num - 1 - suc i} {y = num - 1 - i} (omega arith)
              ∙ ap
                  (λ k.
                    remove_files owner fuel (shift_down (num - 1 - i) (f ∷ files) (suc i)) k
                      (suc i))
                  {x = suc num - 1} {y = suc (num - 1)} (omega arith)
              ∙ ap (λ r. remove_files owner fuel r (suc (num - 1)) (suc i))
                  (shift_down-cons (num - 1 - i) f files i)
              ∙ remove_files-cons owner fuel f (shift_down (num - 1 - i) files i) (num - 1) i
                  (omega arith))
      | inr others ↦
          rw (others, remove_files)
            (ap (λ k. remove_files owner fuel (f ∷ files) (suc num) k) {x = suc i + 1}
                {y = suc (i + 1)} (omega arith)
              ∙ remove_files-cons owner fuel f files num (i + 1) (omega arith))
    ]

-- The files and their number after the loop.
pub record Removes (owner num : ℕ) (files : List SharedFile) (out : List SharedFile × ℕ)
    : Type 0 where
  pub rest : take out.1 out.0 ≡ kept owner (take num files)
  pub size : length out.0 ≡ length files
  pub fewer : out.1 ≤ num

pub remove_files-Removes :
    (owner num : ℕ) (files : List SharedFile)
    → num ≤ length files
    → Removes owner num files (remove_files owner num files num 0)
unfolding remove_files
remove_files-Removes owner zero files h = record { rest = refl; size = refl; fewer = omega arith }
remove_files-Removes owner (suc n) [] h = absurd (omega arith)
remove_files-Removes owner (suc n) (f ∷ files) h = elim (Bool-cases (f.owner_id == owner)) [
  | inl theirs ↦
      let shifted = shift_down n (f ∷ files) 0 in
      let same : remove_files owner n (shift_down (suc n - 1 - 0) (f ∷ files) 0) (suc n - 1) 0
          ≡ remove_files owner n shifted n 0 =
        ap (λ k. remove_files owner n (shift_down k (f ∷ files) 0) (suc n - 1) 0)
          {x = suc n - 1 - 0} {y = n} (omega arith)
        ∙ ap (λ k. remove_files owner n shifted k 0) {x = suc n - 1} {y = n} (omega arith) in
      let fits = length-shift_down n (f ∷ files) 0 in
      let after = remove_files-Removes owner n shifted (omega (arith, fits)) in
      rw (theirs, remove_files, same)
        (record {
          rest =
              after.rest
              ∙ ap (kept owner) (take-shift_down n f files (omega arith))
              ∙ rw theirs refl;
          size = after.size ∙ fits;
          fewer = omega (arith, after.fewer);
        })
  | inr others ↦
      let after = remove_files-Removes owner n files (omega arith) in
      let same : remove_files owner n (f ∷ files) (suc n) (0 + 1) ≡ _ =
        remove_files-cons owner n f files n 0 (omega arith) in
      rw (others, remove_files, same)
        (record {
          rest = ap (λ r. f ∷ r) after.rest ∙ rw others refl;
          size = ap suc after.size;
          fewer = omega (arith, after.fewer);
        })
]

pub remove_client-size :
    (d : Directory) (i : ℕ)
    → d.num_files ≤ length d.files
    → (length (remove_client d i).files ≡ length d.files)
      × ((remove_client d i).num_files ≤ d.num_files)
unfolding remove_client
remove_client-size d i h =
    let r = remove_files-Removes (client_at d i).client_id d.num_files d.files h in
    elim (Bool-cases (client_at d i).active) [
      | inl active ↦ rw (active, remove_client) (r.size, r.fewer)
      | inr idle ↦ rw (idle, remove_client) (refl, omega arith)
    ]

-- Where the table holds `num_files` files, removing client `i` leaves the files of the other owners, all of them
-- and in their order, if the client is active, and all files if it is not.
pub listed-remove_client :
    (d : Directory) (i : ℕ)
    → d.num_files ≤ length d.files
    → listed (remove_client d i)
      ≡ (if (client_at d i).active then kept (client_at d i).client_id (listed d) else listed d)
unfolding remove_client
listed-remove_client d i h = elim (Bool-cases (client_at d i).active) [
  | inl active ↦
      rw (active, remove_client)
        (remove_files-Removes (client_at d i).client_id d.num_files d.files h).rest
  | inr idle ↦ rw (idle, remove_client) refl
]
