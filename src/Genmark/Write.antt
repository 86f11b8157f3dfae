-- ===== src/Genmark/Write.antt =====
-- internal/genmark/genmark.go: a file is replaced as a whole or not at all.
use locorum.Common.{
  ℕ, String, ◌≡◌, refl, ap, ◌∙◌, Bool, true, false, Option, none, some, List, [], Bool-cases,
  Option-cases, inl, inr, All, str_eq, eq_iff, if◌then◌else◌, take,
}
use locorum.Common.Text.{equals, equals-≡}
use locorum.Genmark.{
  Files, with_file, Faults, MarkError, user_owned, unreadable, no_parent, no_temp, write_failed,
  sync_failed, close_failed, chmod_failed, rename_failed, History, now, clean_up, rename_over,
  commit, write_temp, write_atomic_no_check, write_atomic, write_if_managed, has_marker,
}

-- Every file but the one to write and the temporary one is as it was.
abbrev pub OthersKept : Files → String → String → Files → Type 0
OthersKept files path tmp s =
    (other : String) → str_eq other path ≡ false → str_eq other tmp ≡ false → s other ≡ files other

abbrev pub IsOld : Files → String → String → Files → Type 0
IsOld files path tmp s = (s path ≡ files path) × OthersKept files path tmp s

abbrev pub IsNew : Files → String → String → List ℕ → Files → Type 0
IsNew files path tmp body s = (s path ≡ some body) × OthersKept files path tmp s

abbrev pub Ends : Files → String → String → List ℕ → Option MarkError → Files → Type 0
Ends files path tmp body none s = IsNew files path tmp body s
Ends files path tmp body (some err) s = IsOld files path tmp s

-- Every state before the last one has the old content; the last one has the new content if there is no
-- error, and the old one if there is.
abbrev pub IsAtomic : Files → String → String → List ℕ → Option MarkError × History → Type 0
IsAtomic files path tmp body (err, (last, past)) =
    All (IsOld files path tmp) past × Ends files path tmp body err last

str_eq_refl : (k : String) → str_eq k k ≡ true
str_eq_refl k = (eq_iff k k).1 refl

module _ (files : Files) (path tmp : String) (body : List ℕ) (apart : str_eq path tmp ≡ false) where
  -- The temporary file does not count.
  temp-IsOld :
      (s : Files) (content : Option (List ℕ))
      → IsOld files path tmp s
      → IsOld files path tmp (with_file s tmp content)
  temp-IsOld s content h = (rw (apart) h.0, λ other p t. rw (t) (h.1 other p t))

  renamed-IsNew :
      (s : Files) → IsOld files path tmp s → IsNew files path tmp body (rename_over tmp path body s)
  renamed-IsNew s h = (rw (apart, str_eq_refl path) refl, λ other p t. rw (t, p) (h.1 other p t))

  start-IsOld : IsOld files path tmp files
  start-IsOld = (refl, λ other p t. refl)

  abbrev AllOld : History → Type 0
  AllOld h = IsOld files path tmp h.0 × All (IsOld files path tmp) h.1

  now-AllOld :
      (h : History) (content : Option (List ℕ))
      → AllOld h
      → AllOld (now (with_file h.0 tmp content) h)
  now-AllOld h content old = (temp-IsOld h.0 content old.0, (old.0, old.1))

  clean_up-IsAtomic :
      (faults : Faults) (err : MarkError) (h : History)
      → AllOld h
      → IsAtomic files path tmp body (clean_up faults tmp err h)
  clean_up-IsAtomic faults err h old = elim (Bool-cases faults.removes) [
    | inl e ↦ rw (e, clean_up) (old.1, old.0)
    | inr e ↦ rw (e, clean_up) ((old.0, old.1), temp-IsOld h.0 none old.0)
  ]

  if-IsAtomic :
      (b : Bool) (x y : Option MarkError × History)
      → IsAtomic files path tmp body x
      → IsAtomic files path tmp body y
      → IsAtomic files path tmp body (if b then x else y)
  if-IsAtomic true x y hx hy = hx
  if-IsAtomic false x y hx hy = hy

  commit-IsAtomic :
      (faults : Faults) (h : History)
      → AllOld h
      → IsAtomic files path tmp body (commit faults tmp path body h)
  commit-IsAtomic faults h old =
      if-IsAtomic faults.syncs (clean_up faults tmp sync_failed h) _
        (clean_up-IsAtomic faults sync_failed h old)
        (if-IsAtomic faults.closes (clean_up faults tmp close_failed h) _
          (clean_up-IsAtomic faults close_failed h old)
          (if-IsAtomic faults.changes_mode (clean_up faults tmp chmod_failed h) _
            (clean_up-IsAtomic faults chmod_failed h old)
            (if-IsAtomic faults.renames (clean_up faults tmp rename_failed h)
              (none, now (rename_over tmp path body h.0) h)
              (clean_up-IsAtomic faults rename_failed h old)
              ((old.0, old.1), renamed-IsNew h.0 old.0))))

  write_temp-IsAtomic :
      (faults : Faults) (o : Option ℕ) (h : History)
      → AllOld h
      → IsAtomic files path tmp body (write_temp faults tmp o path body h)
  write_temp-IsAtomic faults (some n) h old =
      clean_up-IsAtomic faults write_failed (now (with_file h.0 tmp (some (take n body))) h)
        (now-AllOld h (some (take n body)) old)
  write_temp-IsAtomic faults none h old =
      commit-IsAtomic faults (now (with_file h.0 tmp (some body)) h) (now-AllOld h (some body) old)

  write_atomic_no_check-IsAtomic :
      (faults : Faults)
      → IsAtomic files path tmp body (write_atomic_no_check faults tmp path body files)
  unfolding write_atomic_no_check
  write_atomic_no_check-IsAtomic faults =
      let start : AllOld (files, []) = (start-IsOld, tt) in
      let created = now-AllOld (files, []) (some []) start in
      if-IsAtomic faults.makes_dir (some no_parent, (files, [])) _ (tt, start-IsOld)
        (if-IsAtomic faults.creates (some no_temp, (files, [])) _ (tt, start-IsOld)
          (write_temp-IsAtomic faults faults.writes
            (now (with_file files tmp (some [])) (files, [])) created))

  unwritten-IsAtomic : files path ≡ some body → IsAtomic files path tmp body (none, (files, []))
  unwritten-IsAtomic e = (tt, (e, λ other p t. refl))

  refused-IsAtomic : (err : MarkError) → IsAtomic files path tmp body (some err, (files, []))
  refused-IsAtomic err = (tt, start-IsOld)

  same_content :
      (existing : List ℕ)
      → files path ≡ some existing
      → equals existing body ≡ true
      → files path ≡ some body
  same_content existing e same = e ∙ ap some (equals-≡ existing body same)

  pub write_atomic-IsAtomic :
      (faults : Faults) → IsAtomic files path tmp body (write_atomic faults tmp path body files)
  unfolding write_atomic
  write_atomic-IsAtomic faults = elim (Option-cases (files path)) [
    | inl e ↦ rw (e, write_atomic) (write_atomic_no_check-IsAtomic faults)
    | inr (existing, e) ↦ elim (Bool-cases (equals existing body)) [
      | inl same ↦
          rw (e, same, write_atomic)
            (if-IsAtomic faults.reads (write_atomic_no_check faults tmp path body files)
              (none, (files, [])) (write_atomic_no_check-IsAtomic faults)
              (unwritten-IsAtomic (same_content existing e same)))
      | inr other ↦
          rw (e, other, write_atomic)
            (if-IsAtomic faults.reads (write_atomic_no_check faults tmp path body files)
              (write_atomic_no_check faults tmp path body files)
              (write_atomic_no_check-IsAtomic faults) (write_atomic_no_check-IsAtomic faults))
    ]
  ]

  -- `WriteIfManaged` with a temporary name that is not the path: whichever calls fail and wherever a crash
  -- stops it, the path has its old content or the new one as a whole, the new one only at the end, and every
  -- file but the path and the temporary one is as it was. At the end the path has the new content if there
  -- is no error, and the old one if there is.
  pub write_if_managed-IsAtomic :
      (faults : Faults) → IsAtomic files path tmp body (write_if_managed faults tmp path body files)
  unfolding write_if_managed
  write_if_managed-IsAtomic faults = elim (Option-cases (files path)) [
    | inl e ↦ rw (e, write_if_managed) (write_atomic-IsAtomic faults)
    | inr (existing, e) ↦ elim (Bool-cases (equals existing body)) [
      | inl same ↦
          rw (e, same, write_if_managed)
            (if-IsAtomic faults.reads (some unreadable, (files, [])) (none, (files, []))
              (refused-IsAtomic unreadable) (unwritten-IsAtomic (same_content existing e same)))
      | inr other ↦
          rw (e, other, write_if_managed)
            (if-IsAtomic faults.reads (some unreadable, (files, [])) _ (refused-IsAtomic unreadable)
              (if-IsAtomic (has_marker existing) (write_atomic_no_check faults tmp path body files)
                (some user_owned, (files, [])) (write_atomic_no_check-IsAtomic faults)
                (refused-IsAtomic user_owned)))
    ]
  ]
