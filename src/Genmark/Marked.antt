-- ===== src/Genmark/Marked.antt =====
-- internal/genmark/genmark.go: which files are managed.
use locorum.Common.{
  ℕ, ◌<◌, String, ◌≡◌, refl, ap, ◌∙◌, true, false, Option, none, some, List, [], ◌++◌, Bool-cases,
  inl, inr, str_eq, length,
}
use locorum.Common.Text.{equals, equals-≡}
use locorum.Genmark.{
  has_marker_file, header, has_marker, Files, Faults, MarkError, user_owned, unreadable, History,
  write_atomic_no_check, write_if_managed,
}
use locorum.Genmark.Write.{IsAtomic, write_if_managed-IsAtomic}
use locorum.Genmark.Marker.{header-has_marker, has_marker-take}

-- A file that can be read counts as marked exactly if its content does.
pub has_marker_file-has_marker :
    (faults : Faults) (path : String) (files : Files) (existing : List ℕ)
    → files path ≡ some existing
    → faults.reads ≡ false
    → has_marker_file faults path files ≡ (none, has_marker existing)
unfolding has_marker_file
has_marker_file-has_marker faults path files existing e read =
    rw (e, read, has_marker_file) (ap (λ b. (none, b)) (has_marker-take existing))

some_not_none : {A : Type 0} {a : A} {o : Option A} → o ≡ some a → o ≡ none → ⊥
some_not_none e h = cc

abbrev pub no_faults : Faults
no_faults = record {
  reads = false;
  makes_dir = false;
  creates = false;
  writes = none;
  syncs = false;
  closes = false;
  changes_mode = false;
  renames = false;
  removes = false;
}

module _ (faults : Faults) (tmp path : String) (body : List ℕ) (files : Files)
    (existing : List ℕ) where
  refused_unread :
      files path ≡ some existing
      → faults.reads ≡ true
      → write_if_managed faults tmp path body files ≡ (some unreadable, (files, []))
  unfolding write_if_managed
  refused_unread e unread = rw (e, unread, write_if_managed) refl

  same_kept :
      files path ≡ some existing
      → faults.reads ≡ false
      → equals existing body ≡ true
      → write_if_managed faults tmp path body files ≡ (none, (files, []))
  unfolding write_if_managed
  same_kept e read same = rw (e, read, same, write_if_managed) refl

  refused_unmarked :
      files path ≡ some existing
      → faults.reads ≡ false
      → equals existing body ≡ false
      → has_marker existing ≡ false
      → write_if_managed faults tmp path body files ≡ (some user_owned, (files, []))
  unfolding write_if_managed
  refused_unmarked e read other unmarked = rw (e, read, other, unmarked, write_if_managed) refl

  written_marked :
      files path ≡ some existing
      → faults.reads ≡ false
      → equals existing body ≡ false
      → has_marker existing ≡ true
      → write_if_managed faults tmp path body files
        ≡ write_atomic_no_check faults tmp path body files
  unfolding write_if_managed
  written_marked e read other marked = rw (e, read, other, marked, write_if_managed) refl

-- A file without the marker stays as it is, and so does every other file, at every moment of `WriteIfManaged`;
-- an error is returned unless the file had the content to write.
write_if_managed_unmarked :
    (faults : Faults) (tmp path : String) (body : List ℕ) (files : Files) (existing : List ℕ)
    → files path ≡ some existing
    → has_marker existing ≡ false
    → ((write_if_managed faults tmp path body files).1 ≡ (files, []))
      × ((write_if_managed faults tmp path body files).0 ≡ none → existing ≡ body)
write_if_managed_unmarked faults tmp path body files existing e unmarked =
    elim (Bool-cases faults.reads) [
      | inl unread ↦
          let r = refused_unread faults tmp path body files existing e unread in
          (ap (λ x. x.1) r, λ h. absurd (some_not_none (ap (λ x. x.0) r) h))
      | inr read ↦ elim (Bool-cases (equals existing body)) [
        | inl same ↦ (
          ap (λ x. x.1) (same_kept faults tmp path body files existing e read same),
          λ h. equals-≡ existing body same,
        )
        | inr other ↦
            let r = refused_unmarked faults tmp path body files existing e read other unmarked in
            (ap (λ x. x.1) r, λ h. absurd (some_not_none (ap (λ x. x.0) r) h))
      ]
    ]

write_atomic_no_check-none :
    (tmp path : String) (body : List ℕ) (files : Files)
    → (write_atomic_no_check no_faults tmp path body files).0 ≡ none
unfolding write_atomic_no_check
write_atomic_no_check-none tmp path body files = refl

-- A marked file is written if no call fails.
marked_written :
    (tmp path : String) (body : List ℕ) (files : Files) (existing : List ℕ)
    → files path ≡ some existing
    → has_marker existing ≡ true
    → (write_if_managed no_faults tmp path body files).0 ≡ none
marked_written tmp path body files existing e marked = elim (Bool-cases (equals existing body)) [
  | inl same ↦ ap (λ x. x.0) (same_kept no_faults tmp path body files existing e refl same)
  | inr other ↦
      ap (λ x. x.0) (written_marked no_faults tmp path body files existing e refl other marked)
      ∙ write_atomic_no_check-none tmp path body files
]

-- At an end without an error, the path has the new content.
IsAtomic-written :
    (files : Files) (path tmp : String) (body : List ℕ) (r : Option MarkError × History)
    → IsAtomic files path tmp body r
    → r.0 ≡ none
    → r.1.0 path ≡ some body
IsAtomic-written files path tmp body (none, h) atomic e = atomic.1.0
IsAtomic-written files path tmp body (some err, h) atomic e = cc

-- After a text with a header was written without an error, under a comment sign shorter than 4000 bytes, the
-- file counts as managed: a second write of any text, of whose calls none fails, succeeds and leaves that
-- text at the path. Neither temporary name is the path.
pub write_if_managed_again :
    (faults : Faults) (tmp tmp' path : String) (style body body' : List ℕ) (files : Files)
    → str_eq path tmp ≡ false
    → str_eq path tmp' ≡ false
    → length style < 4000
    → (write_if_managed faults tmp path (header style ++ body) files).0 ≡ none
    → let after = (write_if_managed faults tmp path (header style ++ body) files).1.0 in
      let second = write_if_managed no_faults tmp' path body' after in
      (second.0 ≡ none) × (second.1.0 path ≡ some body')
write_if_managed_again faults tmp tmp' path style body body' files apart apart' short done =
    let first = write_if_managed faults tmp path (header style ++ body) files in
    let found : first.1.0 path ≡ some (header style ++ body) =
      IsAtomic-written files path tmp (header style ++ body) first
        (write_if_managed-IsAtomic files path tmp (header style ++ body) apart faults) done in
    let ok =
      marked_written tmp' path body' first.1.0 (header style ++ body) found
        (header-has_marker style body short) in
    (
      ok,
      IsAtomic-written first.1.0 path tmp' body'
          (write_if_managed no_faults tmp' path body' first.1.0)
          (write_if_managed-IsAtomic first.1.0 path tmp' body' apart' no_faults) ok,
    )
