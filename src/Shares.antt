-- ===== src/Shares.antt =====
-- skeleton/share_file_logic.c: the table of the files that a client offers to its peers.
mod Tests
use cpe_464_program.Base.{
  ℕ, zero, suc, ◌+◌, ◌≤◌, ◌<◌, ◌≡◌, ◌≢◌, refl, sym, ◌∙◌, ap, Bool, true, false, Option, none, some,
  List, [], ◌∷◌, ◌++◌, arith, leb, ◌==◌, ==_iff, if◌then◌else◌, length, length-take, get_or,
  get_or-set_self, set, take, replicate, Bool-cases, Option-cases, inl, inr,
}
use cpe_464_program.Protocol.Tcp.{filename_of}
use cpe_464_program.Directory.{find_index}
use cpe_464_program.Directory.Invariant.{take-set}

abbrev pub max_shared_files : ℕ
max_shared_files = 1024

-- The `shared_file_t` of skeleton/share_file_logic.h.
pub record OfferedFile : Type 0 where
  pub file_id : ℕ
  pub file_size : ℕ
  pub hash : List ℕ
  pub file_name : List ℕ

-- The static variables `table` and `num_files`.
pub record Shares : Type 0 where
  pub table : List OfferedFile
  pub num_files : ℕ

unfoldable pub blank_offer : OfferedFile
blank_offer = record {
  file_id = 0;
  file_size = 0;
  hash = replicate 32 0;
  file_name = replicate 256 0;
}

abbrev pub no_shares : Shares
no_shares = record { table = replicate max_shared_files blank_offer; num_files = 0 }

abbrev pub offered : ℕ → ℕ → List ℕ → List ℕ → OfferedFile
offered file_id size hash filename = record {
  file_id = file_id;
  file_size = size;
  hash = take 32 hash;
  file_name = filename_of filename;
}

unfoldable pub add_shared_file : Shares → ℕ → ℕ → List ℕ → List ℕ → Shares
add_shared_file t file_id size hash filename =
    if leb max_shared_files t.num_files then t else record {
      table = set t.table t.num_files (offered file_id size hash filename);
      num_files = t.num_files + 1;
    }

-- The pointer that the search returns, as an index.
unfoldable pub find_shared_file_by_id : Shares → ℕ → Option ℕ
find_shared_file_by_id t file_id = find_index (λ f. f.file_id == file_id) (take t.num_files t.table)

find_index-append :
    (id : ℕ) (files : List OfferedFile) (f : OfferedFile)
    → f.file_id ≡ id
    → find_index (λ g. g.file_id == id) (files ++ (f ∷ []))
      ≡ (elim (find_index (λ g. g.file_id == id) files) [
        | none ↦ some (length files)
        | some k ↦ some k
      ])
find_index-append id [] f e = rw ((==_iff f.file_id id).1 e) refl
find_index-append id (g ∷ files) f e = elim (Bool-cases (g.file_id == id)) [
  | inl here ↦ rw here refl
  | inr there ↦ elim (Option-cases (find_index (λ g. g.file_id == id) files)) [
    | inl missing ↦ rw (there, find_index-append id files f e, missing) refl
    | inr (k, found) ↦ rw (there, find_index-append id files f e, found) refl
  ]
]

-- A table with room for a file finds it by its id once it is added, in the place after the others,
-- unless the id was there already; then it finds the file that was there first.
pub find_shared_file_by_id-add_shared_file :
    (t : Shares) (file_id size : ℕ) (hash filename : List ℕ)
    → length t.table ≡ max_shared_files
    → t.num_files < max_shared_files
    → find_shared_file_by_id (add_shared_file t file_id size hash filename) file_id
      ≡ (elim (find_shared_file_by_id t file_id) [ none ↦ some t.num_files | some k ↦ some k ])
unfolding add_shared_file find_shared_file_by_id
find_shared_file_by_id-add_shared_file t file_id size hash filename full room =
    let space : leb max_shared_files t.num_files ≡ false = ground arith in
    let entry = offered file_id size hash filename in
    let places : length (take t.num_files t.table) ≡ t.num_files =
      omega (arith, length-take t.num_files t.table, full) in
    rw (space, take-set t.table t.num_files entry (omega (arith, full)))
      (find_index-append file_id (take t.num_files t.table) entry refl
        ∙ ap
            (λ n.
              elim (find_index (λ g. g.file_id == file_id) (take t.num_files t.table))
                as (λ _. Option ℕ) [ none ↦ some n | some k ↦ some k ])
            places)

-- The place after the others has the file that was added.
pub offer_at-add_shared_file :
    (t : Shares) (file_id size : ℕ) (hash filename : List ℕ)
    → length t.table ≡ max_shared_files
    → t.num_files < max_shared_files
    → get_or (add_shared_file t file_id size hash filename).table t.num_files blank_offer
      ≡ offered file_id size hash filename
unfolding add_shared_file
offer_at-add_shared_file t file_id size hash filename full room =
    let space : leb max_shared_files t.num_files ≡ false = ground arith in
    rw (space, add_shared_file)
      (get_or-set_self t.table t.num_files (offered file_id size hash filename) blank_offer
        (omega (arith, full)))
