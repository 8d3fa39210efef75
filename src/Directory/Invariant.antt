-- ===== src/Directory/Invariant.antt =====
-- The invariant of the file table of skeleton/server.c, for its start and for `remove_client`.
use cpe_464_program.Base.{
  ℕ, zero, suc, ◌+◌, ◌≤◌, ◌<◌, ◌≡◌, refl, ◌∙◌, ap, List, [], ◌∷◌, ◌++◌, arith, ◌==◌, if◌then◌else◌,
  length, length-set, set, take, Bool-cases, inl, inr,
}
use cpe_464_program.Directory.{
  SharedFile, Directory, max_clients, max_files, initial, client_at, listed, remove_client,
}
use cpe_464_program.Directory.Removal.{kept, remove_client-size, listed-remove_client}

-- The ids of the files ascend, from `lo` on and below `hi`.
abbrev pub Ascending : ℕ → ℕ → List SharedFile → Type 0
Ascending lo hi [] = lo ≤ hi
Ascending lo hi (f ∷ files) = (lo ≤ f.file_id) × Ascending (f.file_id + 1) hi files

pub Ascending-weaken :
    (lo lo' hi : ℕ) (files : List SharedFile)
    → lo ≤ lo'
    → Ascending lo' hi files
    → Ascending lo hi files
Ascending-weaken lo lo' hi [] h a = omega arith
Ascending-weaken lo lo' hi (f ∷ files) h a = (omega (arith, a.0), a.1)

pub kept-Ascending :
    (owner lo hi : ℕ) (files : List SharedFile)
    → Ascending lo hi files
    → Ascending lo hi (kept owner files)
kept-Ascending owner lo hi [] a = a
kept-Ascending owner lo hi (f ∷ files) a = elim (Bool-cases (f.owner_id == owner)) [
  | inl theirs ↦ rw theirs (
      Ascending-weaken lo (f.file_id + 1) hi (kept owner files) (omega (arith, a.0))
        (kept-Ascending owner (f.file_id + 1) hi files a.1))
  | inr others ↦ rw others (a.0, kept-Ascending owner (f.file_id + 1) hi files a.1)
]

-- A file with the next id comes last.
pub Ascending-append :
    (lo hi : ℕ) (files : List SharedFile) (f : SharedFile)
    → f.file_id ≡ hi
    → Ascending lo hi files
    → Ascending lo (hi + 1) (files ++ (f ∷ []))
Ascending-append lo hi [] f e a = (omega arith, omega arith)
Ascending-append lo hi (g ∷ files) f e a = (a.0, Ascending-append (g.file_id + 1) hi files f e a.1)

pub take-set {ℓ} :
    {A : Type ℓ} (files : List A) (n : ℕ) (f : A)
    → n < length files
    → take (n + 1) (set files n f) ≡ take n files ++ (f ∷ [])
take-set [] n f h = absurd (omega arith)
take-set (g ∷ files) zero f h = refl
take-set (g ∷ files) (suc n) f h =
    ap (λ k. take k (g ∷ set files n f)) {x = suc n + 1} {y = suc (n + 1)} (omega arith)
    ∙ ap (λ r. g ∷ r) (take-set files n f (omega arith))

-- The tables have their sizes, and the files have ids of their own, all of them given out.
pub record IsDirectory (d : Directory) : Type 0 where
  pub slots : length d.clients ≡ max_clients
  pub entries : length d.files ≡ max_files
  pub within : d.num_files ≤ max_files
  pub ascending : Ascending 1 d.next_file_id (listed d)

pub initial-IsDirectory : IsDirectory initial
initial-IsDirectory = record {
  slots = refl;
  entries = refl;
  within = omega arith;
  ascending = omega arith;
}

remove_client-clients :
    (d : Directory) (i : ℕ) → length (remove_client d i).clients ≡ length d.clients
unfolding remove_client
remove_client-clients d i = elim (Bool-cases (client_at d i).active) [
  | inl active ↦ rw (active, remove_client) (length-set d.clients i _)
  | inr idle ↦ rw (idle, remove_client) refl
]

pub remove_client-next : (d : Directory) (i : ℕ) → (remove_client d i).next_file_id ≡ d.next_file_id
unfolding remove_client
remove_client-next d i = elim (Bool-cases (client_at d i).active) [
  | inl active ↦ rw (active, remove_client) refl
  | inr idle ↦ rw (idle, remove_client) refl
]

pub remove_client-IsDirectory :
    (d : Directory) (i : ℕ) → IsDirectory d → IsDirectory (remove_client d i)
remove_client-IsDirectory d i v =
    let (size, fewer) = remove_client-size d i (omega (arith, v.within, v.entries)) in
    record {
      slots = remove_client-clients d i ∙ v.slots;
      entries = size ∙ v.entries;
      within = omega (arith, fewer, v.within);
      ascending =
          rw (remove_client-next d i, listed-remove_client d i (omega (arith, v.within, v.entries)))
            ascending;
    }
  where
    ascending :
        Ascending 1 d.next_file_id
          (if (client_at d i).active then kept (client_at d i).client_id (listed d) else listed d)
    ascending = elim (Bool-cases (client_at d i).active) [
      | inl active ↦
          rw active
            (kept-Ascending (client_at d i).client_id 1 d.next_file_id (listed d) v.ascending)
      | inr idle ↦ rw idle (v.ascending)
    ]
