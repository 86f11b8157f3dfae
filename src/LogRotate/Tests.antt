-- ===== src/LogRotate/Tests.antt =====
-- Rotations of a log with two backups.
use locorum.Common.{◌-◌, String, ◌≡◌, refl, none, some, leb, ◌==◌, if◌then◌else◌}
use locorum.LogRotate.{Directory, Disk, bad_max_bytes, rename_failed, rotate, rotate_if_large}
use locorum.LogRotate.Laws.{rotate_lem}

abbrev works : Disk
works = record { stat_fault = none; remove_fault = λ i. none; rename_fault = λ i j. none }

-- The log itself cannot be renamed.
abbrev locked : Disk
locked = record works { rename_fault = λ i j. if i == 0 then some "locked" else none }

abbrev three_files : Directory String
three_files i =
    if i == 0
    then some "log"
    else if i == 1
    then some "first"
    else if i == 2
    then some "second"
    else none

rotated :
    let r = rotate_if_large works (λ c. 10) 10 2 three_files in
    (r.0 ≡ none) × (r.1 0 ≡ none) × (r.1 1 ≡ some "log") × (r.1 2 ≡ some "first") × (r.1 3 ≡ none)
unfolding rotate_if_large rotate
rotated = (refl, refl, refl, refl, refl)

too_small : (rotate_if_large works (λ c. 9) 10 2 three_files).1 1 ≡ some "first"
unfolding rotate_if_large
too_small = refl

no_limit : (rotate_if_large works (λ c. 9) 0 2 three_files).0 ≡ some bad_max_bytes
unfolding rotate_if_large
no_limit = refl

log_locked :
    let r = rotate_if_large locked (λ c. 10) 10 2 three_files in
    (r.0 ≡ some (rename_failed 0 1 "locked")) × (r.1 0 ≡ some "log") × (r.1 2 ≡ some "first")
unfolding rotate_if_large rotate
log_locked = (refl, refl, refl)

rotate_lem_example :
    (rotate works 1 three_files).1 2
    ≡ (if ◌==◌ 2 0 then none else if leb 2 2 then three_files (2 - 1) else three_files 2)
rotate_lem_example = rotate_lem works 1 three_files (unfold rotate in refl) 2
