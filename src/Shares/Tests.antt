-- ===== src/Shares/Tests.antt =====
-- A table with one file.
use cpe_464_program.Base.{◌≡◌, refl, none, some, [], ◌∷◌, arith, replicate}
use cpe_464_program.Shares.{
  no_shares, add_shared_file, find_shared_file_by_id, find_shared_file_by_id-add_shared_file,
}

find_shared_file_by_id-add_shared_file_example :
    find_shared_file_by_id (add_shared_file no_shares 12 3 (replicate 32 1) (97 ∷ [])) 12
    ≡ (elim (find_shared_file_by_id no_shares 12) [ none ↦ some 0 | some k ↦ some k ])
find_shared_file_by_id-add_shared_file_example =
    find_shared_file_by_id-add_shared_file no_shares 12 3 (replicate 32 1) (97 ∷ []) refl
      (omega arith)
