-- ===== src/LogRotate/Laws.antt =====
-- internal/utils/logrotate.go: a rotation moves every backup up by one, and loses only the oldest.
use locorum.Common.{
  ℕ, zero, suc, ◌-◌, ◌≡◌, ◌≢◌, refl, sym, ◌∙◌, Option, none, some, inl, inr, leb, ◌==◌,
  Option-cases, if◌then◌else◌, arith,
}
use locorum.LogRotate.{
  Directory, Disk, RotateError, update, rename, shift, rename_log, then_log, rotate,
}

some_not_none : {A : Type 0} {a : A} → some a ≡ none → ⊥
some_not_none e = cc

-- What `shift i` leaves in a slot if no call fails.
abbrev shifted : {C : Type 0} → ℕ → Directory C → Directory C
shifted i dir j =
    if j == 0 then dir 0 else if j == 1 then none else if leb j (suc i) then dir (j - 1) else dir j

module _ {C : Type 0} (disk : Disk) where
  rename_empties : (i : ℕ) (dir : Directory C) → rename disk i (suc i) dir i ≡ none
  unfolding rename
  rename_empties i dir = ground arith

  rename-shifted :
      (i : ℕ) (dir : Directory C) (j : ℕ)
      → dir (suc (suc i)) ≡ none
      → shifted i (rename disk (suc i) (suc (suc i)) dir) j ≡ shifted (suc i) dir j
  unfolding rename
  rename-shifted i dir j h = ground arith

  shift-shifted :
      (i : ℕ) (dir : Directory C)
      → dir (suc i) ≡ none
      → (shift disk i dir).0 ≡ none
      → (j : ℕ) → (shift disk i dir).1 j ≡ shifted i dir j
  unfolding shift
  shift-shifted zero dir h e j = ground arith
  shift-shifted (suc i) dir h e j = elim (Option-cases (disk.rename_fault (suc i) (suc (suc i)))) [
    | inl works ↦
        rw (works, shift)
          (shift-shifted i (rename disk (suc i) (suc (suc i)) dir) (rename_empties (suc i) dir)
              (rw (works, shift) at e) j
            ∙ rename-shifted i dir j h)
    | inr (err, fails) ↦ absurd (some_not_none (rw (fails, shift) at e))
  ]

  -- A file that is not in the way of a renaming is still there after it.
  rename_keeps :
      (i j : ℕ) (dir : Directory C) (c : C)
      → dir (suc i) ≡ none
      → dir j ≡ some c
      → (k : ℕ) × (rename disk i (suc i) dir k ≡ some c)
  unfolding rename
  rename_keeps i j dir c h e = (if j == i then suc i else j, ground arith)

  shift_keeps :
      (i j : ℕ) (dir : Directory C) (c : C)
      → dir (suc i) ≡ none
      → dir j ≡ some c
      → (k : ℕ) × ((shift disk i dir).1 k ≡ some c)
  unfolding shift
  shift_keeps zero j dir c h e = (j, e)
  shift_keeps (suc i) j dir c h e = elim (Option-cases (disk.rename_fault (suc i) (suc (suc i)))) [
    | inl works ↦
        let (k, there) = rename_keeps (suc i) j dir c h e in
        rw (works, shift)
          (shift_keeps i k (rename disk (suc i) (suc (suc i)) dir) c (rename_empties (suc i) dir)
            there)
    | inr (err, fails) ↦ rw (fails, shift) (j, e)
  ]

  -- The slot under the ones that were shifted is free.
  shift_frees :
      (i : ℕ) (dir : Directory C)
      → dir (suc i) ≡ none
      → (shift disk i dir).0 ≡ none
      → (shift disk i dir).1 1 ≡ none
  shift_frees i dir h e = rw (shift-shifted i dir h e 1)

  rename_log_keeps :
      (j : ℕ) (dir : Directory C) (c : C)
      → dir 1 ≡ none
      → dir j ≡ some c
      → (k : ℕ) × ((rename_log disk dir).1 k ≡ some c)
  unfolding rename_log
  rename_log_keeps j dir c h e = elim (Option-cases (disk.rename_fault 0 1)) [
    | inl works ↦ elim (Option-cases (dir 0)) [
      | inl absent ↦ rw (works, absent, rename_log) (j, e)
      | inr (l, present) ↦ rw (works, present, rename_log) (rename_keeps 0 j dir c h e)
    ]
    | inr (err, fails) ↦ rw (fails, rename_log) (j, e)
  ]

  then_log_stops :
      (p : Option RotateError × Directory C) {err : RotateError}
      → p.0 ≡ some err
      → then_log disk p ≡ p
  then_log_stops (some err, dir) e = refl
  then_log_stops (none, dir) e = cc

  then_log_goes_on :
      (p : Option RotateError × Directory C) → p.0 ≡ none → then_log disk p ≡ rename_log disk p.1
  then_log_goes_on (some err, dir) e = cc
  then_log_goes_on (none, dir) e = refl

  then_log_keeps :
      (keep j : ℕ) (dir : Directory C) (c : C)
      → dir (suc keep) ≡ none
      → (shift disk keep dir).1 j ≡ some c
      → (k : ℕ) × ((then_log disk (shift disk keep dir)).1 k ≡ some c)
  then_log_keeps keep j dir c free e = elim (Option-cases (shift disk keep dir).0) [
    | inl done ↦
        rw (then_log_goes_on (shift disk keep dir) done)
          (rename_log_keeps j (shift disk keep dir).1 c (shift_frees keep dir free done) e)
    | inr (err, failed) ↦ rw (then_log_stops (shift disk keep dir) failed) (j, e)
  ]

  rename_log_moved :
      (dir : Directory C)
      → (rename_log disk dir).0 ≡ none
      → (j : ℕ)
      → (rename_log disk dir).1 j ≡ (if j == 0 then none else if j == 1 then dir 0 else dir j)
  unfolding rename_log rename
  rename_log_moved dir e j = ground arith

  then_log-moved :
      (keep : ℕ) (dir : Directory C)
      → let cleared = update (suc keep) none dir in
        (then_log disk (shift disk keep cleared)).0 ≡ none
        → (j : ℕ)
        → (then_log disk (shift disk keep cleared)).1 j
          ≡ (if j == 0 then none else if leb j (suc keep) then dir (j - 1) else dir j)
  then_log-moved keep dir e j =
      let cleared = update (suc keep) none dir in
      let free : cleared (suc keep) ≡ none = ground arith in
      elim (Option-cases (shift disk keep cleared).0) [
        | inr (err, failed) ↦ absurd (
            some_not_none
              (sym failed ∙ (rw (then_log_stops (shift disk keep cleared) failed) at e)))
        | inl done ↦ rw (then_log_goes_on (shift disk keep cleared) done) (
            rename_log_moved (shift disk keep cleared).1
              (rw (then_log_goes_on (shift disk keep cleared) done) at e) j
            ∙ rw (shift-shifted keep cleared free done 0, shift-shifted keep cleared free done j)
                (ground arith))
      ]

  -- Whatever calls of the file system fail, a rotation loses no file but the oldest backup: what any
  -- other slot held is still in some slot.
  rotate_keeps :
      (keep j : ℕ) (dir : Directory C) (c : C)
      → j ≢ suc keep
      → dir j ≡ some c
      → (k : ℕ) × ((rotate disk keep dir).1 k ≡ some c)
  unfolding rotate
  rotate_keeps keep j dir c h e = elim (Option-cases (disk.remove_fault (suc keep))) [
    | inr (err, fails) ↦ rw (fails, rotate) (j, e)
    | inl works ↦
        let cleared = update (suc keep) none dir in
        let free : cleared (suc keep) ≡ none = ground arith in
        let (k, there) = shift_keeps keep j cleared c free (ground arith) in
        rw (works, rotate) (then_log_keeps keep k cleared c free there)
  ]

  -- After a rotation without an error the log's slot is free, the log is the first backup, each
  -- backup that is kept has moved up by one, and what lies beyond them is as before.
  pub rotate_lem :
      (keep : ℕ) (dir : Directory C)
      → (rotate disk keep dir).0 ≡ none
      → (j : ℕ)
      → (rotate disk keep dir).1 j
        ≡ (if j == 0 then none else if leb j (suc keep) then dir (j - 1) else dir j)
  unfolding rotate
  rotate_lem keep dir e j = elim (Option-cases (disk.remove_fault (suc keep))) [
    | inr (err, fails) ↦ absurd (some_not_none (rw (fails, rotate) at e))
    | inl works ↦ rw (works, rotate) (then_log-moved keep dir (rw (works, rotate) at e) j)
  ]
