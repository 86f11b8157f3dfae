-- ===== src/Genmark/Tests.antt =====
-- Files that are written, and instances of the theorems.
use locorum.Common.{ℕ, ◌≡◌, refl, true, none, some, List, ◌++◌, arith}
use locorum.Common.Text.{codes}
use locorum.Genmark.{header, Files, with_file, Faults, rename_failed, write_if_managed}
use locorum.Genmark.Write.{IsAtomic, write_if_managed-IsAtomic}
use locorum.Genmark.Marked.{no_faults, write_if_managed_again}

abbrev empty : Files
empty path = none

abbrev own : List ℕ
own = codes "mine"

abbrev owned : Files
owned = with_file empty "f" (some own)

abbrev no_rename : Faults
no_rename = record no_faults { renames = true; removes = true }

not_renamed :
    ((write_if_managed no_rename ".f.tmp" "f" (codes "x") empty).0 ≡ some rename_failed)
    × ((write_if_managed no_rename ".f.tmp" "f" (codes "x") empty).1.0 "f" ≡ none)
    × ((write_if_managed no_rename ".f.tmp" "f" (codes "x") empty).1.0 ".f.tmp" ≡ some (codes "x"))
unfolding write_if_managed
not_renamed = (refl, refl, refl)

write_if_managed-IsAtomic_example :
    IsAtomic empty "f" ".f.tmp"
      (codes "x")
      (write_if_managed no_rename ".f.tmp" "f" (codes "x") empty)
write_if_managed-IsAtomic_example =
    write_if_managed-IsAtomic empty "f" ".f.tmp" (codes "x") refl no_rename

write_if_managed_again_example :
    let after =
      (write_if_managed no_faults ".f.tmp" "f" (header (codes "//") ++ codes "x") empty).1.0 in
    let second = write_if_managed no_faults ".f.tmp" "f" own after in
    (second.0 ≡ none) × (second.1.0 "f" ≡ some own)
write_if_managed_again_example =
    write_if_managed_again no_faults ".f.tmp" ".f.tmp" "f" (codes "//") (codes "x") own empty refl
      refl (omega arith) (unfold write_if_managed in refl)
