-- ===== src/Genmark.antt =====
-- internal/genmark/genmark.go: files that carry a marker, and their atomic replacement. Texts are lists of
-- bytes. The file system is a function from paths to contents; which calls fail is a record. An operation
-- returns its error and every state of the file system on the way, the last one first, since a crash
-- may stop it at any of them.
pub mod Write
pub mod Marker
pub mod Marked
mod Tests
use locorum.Common.{
  ℕ, String, Bool, true, false, ◌||◌, Option, none, some, List, [], ◌∷◌, ◌++◌, ltb, if◌then◌else◌,
  length, take, str_eq,
}
use locorum.Common.Text.{codes, equals, contains}

abbrev pub marker : List ℕ
marker = codes "locorum-generated"

abbrev pub peek_bytes : ℕ
peek_bytes = 4096

abbrev pub style_hash : List ℕ
style_hash = codes "#"

-- The dash is the three bytes of U+2014.
abbrev pub header_first : List ℕ
header_first = marker ++ codes " " ++ (0xe2 ∷ 0x80 ∷ 0x94 ∷ []) ++ codes " DO NOT EDIT.\n"

abbrev pub header_second : List ℕ
header_second =
    codes " Remove this line to take ownership; Locorum will then leave this file alone.\n\n"

abbrev pub styled : List ℕ → List ℕ
styled style = style ++ (codes " " ++ (header_first ++ (style ++ header_second)))

unfoldable pub header : List ℕ → List ℕ
header [] = styled style_hash
header (c ∷ style) = styled (c ∷ style)

unfoldable pub has_marker : List ℕ → Bool
unfolding contains
has_marker [] = false
has_marker (c ∷ body) =
    contains (if ltb peek_bytes (length (c ∷ body)) then take peek_bytes (c ∷ body) else c ∷ body)
      marker

abbrev pub Files : Type 0
Files = String → Option (List ℕ)

abbrev pub with_file : Files → String → Option (List ℕ) → Files
with_file files path content path' = if str_eq path' path then content else files path'

-- The calls that fail; a write may have written some bytes before.
pub record Faults : Type 0 where
  pub reads : Bool
  pub makes_dir : Bool
  pub creates : Bool
  pub writes : Option ℕ
  pub syncs : Bool
  pub closes : Bool
  pub changes_mode : Bool
  pub renames : Bool
  pub removes : Bool

pub data MarkError : Type 0 where
  user_owned unreadable no_parent no_temp write_failed sync_failed close_failed chmod_failed
        rename_failed :
      MarkError

-- The states so far, the last one first.
abbrev pub History : Type 0
History = Files × List Files

abbrev pub now : Files → History → History
now files (last, past) = (files, last ∷ past)

-- os.Rename of the temporary file, whose content is `body`.
abbrev pub rename_over : String → String → List ℕ → Files → Files
rename_over tmp path body files = with_file (with_file files path (some body)) tmp none

module _ (faults : Faults) (tmp : String) where
  -- A failure after the temporary file is there removes it.
  abbrev pub clean_up : MarkError → History → Option MarkError × History
  clean_up err (files, past) = (
    some err,
    (if faults.removes then (files, past) else now (with_file files tmp none) (files, past)),
  )

  -- `writeAtomicNoCheck` after the write of the temporary file.
  abbrev pub commit : String → List ℕ → History → Option MarkError × History
  commit path body h =
      if faults.syncs
      then clean_up sync_failed h
      else if faults.closes
      then clean_up close_failed h
      else if faults.changes_mode
      then clean_up chmod_failed h
      else if faults.renames
      then clean_up rename_failed h
      else (none, now (rename_over tmp path body h.0) h)

  -- The write of the temporary file, of which some bytes may be written before it fails.
  abbrev pub write_temp : Option ℕ → String → List ℕ → History → Option MarkError × History
  write_temp (some n) path body h =
      clean_up write_failed (now (with_file h.0 tmp (some (take n body))) h)
  write_temp none path body h = commit path body (now (with_file h.0 tmp (some body)) h)

  -- `tmp` is the name that os.CreateTemp finds.
  unfoldable pub write_atomic_no_check : String → List ℕ → Files → Option MarkError × History
  write_atomic_no_check path body files =
      let start : History = (files, []) in
      let created = now (with_file files tmp (some [])) start in
      if faults.makes_dir
      then (some no_parent, start)
      else if faults.creates
      then (some no_temp, start)
      else write_temp faults.writes path body created

  unfoldable pub write_atomic : String → List ℕ → Files → Option MarkError × History
  unfolding write_atomic_no_check equals
  write_atomic path body files = elim (files path) [
    | none ↦ write_atomic_no_check path body files
    | some existing ↦
        if faults.reads
        then write_atomic_no_check path body files
        else if equals existing body
        then (none, (files, []))
        else write_atomic_no_check path body files
  ]

  unfoldable pub write_if_managed : String → List ℕ → Files → Option MarkError × History
  unfolding write_atomic equals has_marker
  write_if_managed path body files = elim (files path) [
    | none ↦ write_atomic path body files
    | some existing ↦
        if faults.reads
        then (some unreadable, (files, []))
        else if equals existing body
        then (none, (files, []))
        else if has_marker existing
        then write_atomic_no_check path body files
        else (some user_owned, (files, []))
  ]

-- `HasMarkerFile` reads the first bytes of the file.
unfoldable pub has_marker_file : Faults → String → Files → Option MarkError × Bool
unfolding has_marker
has_marker_file faults path files = elim (files path) [
  | none ↦ (none, false)
  | some existing ↦
      if faults.reads
      then (some unreadable, false)
      else (none, has_marker (take peek_bytes existing))
]
