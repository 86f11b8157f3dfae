-- ===== src/Snapshots.antt =====
-- internal/sites/snapshot.go: the names of snapshot files, which say what a snapshot is of. A text is the
-- list of its bytes. The time library is an argument: how it writes a time, and how it reads one.
pub mod Parts
pub mod Names
pub mod Sweep
pub mod Deletions
pub mod Survivors
pub mod Retention
pub mod Store
pub mod Take
pub mod Restore
pub mod Untouched
pub mod Guard
pub mod Checksum
mod Tests
use locorum.Common.{
  ℕ, ◌+◌, ◌&&◌, ◌||◌, not, Bool, true, false, Option, none, some, List, [], ◌∷◌, ◌++◌, ◌==◌, leb,
  if◌then◌else◌, ◌>>=◌,
}
use locorum.Common.Text.{codes, equals, to_lower, is_lower, is_upper, is_digit}

abbrev pub snapshot_sep : List ℕ
snapshot_sep = codes "--"

abbrev pub ext_zstd : List ℕ
ext_zstd = codes ".sql.zst"

abbrev pub ext_gzip : List ℕ
ext_gzip = codes ".sql.gz"

-- The two codecs, and any other text.
pub data Codec : Type 0 where
  gzip zstd unknown : Codec

-- What a name tells of a snapshot.
pub record SnapshotInfo : Type 0 where
  pub filename : List ℕ
  pub slug : List ℕ
  pub label : List ℕ
  pub engine : List ℕ
  pub version : List ℕ
  pub created_at : ℕ
  pub compression : Codec

-- ReplaceAllString of a run of other characters by nothing.
unfoldable pub retain : (ℕ → Bool) → List ℕ → List ℕ
retain keep [] = []
retain keep (c ∷ s) = let rest = retain keep s in if keep c then c ∷ rest else rest

abbrev pub engine_char : ℕ → Bool
engine_char c = is_lower c || is_digit c

abbrev pub version_char : ℕ → Bool
version_char c = is_upper c || is_lower c || is_digit c || c == b'.' || c == b'_' || c == b'-'

abbrev pub or_default : List ℕ → List ℕ → List ℕ
or_default d [] = d
or_default d (c ∷ s) = c ∷ s

-- The engine of a name.
unfoldable pub clean_engine : List ℕ → List ℕ
unfolding retain
clean_engine engine = or_default (codes "mysql") (to_lower (retain engine_char (to_lower engine)))

-- The version of a name.
unfoldable pub clean_version : List ℕ → List ℕ
unfolding retain
clean_version version = or_default (codes "unknown") (retain version_char version)

abbrev pub extension : Codec → List ℕ
extension zstd = ext_zstd
extension gzip = ext_gzip
extension unknown = ext_zstd

-- buildSnapshotName, with the time already written.
unfoldable pub build_snapshot_name : List ℕ → List ℕ → List ℕ → List ℕ → List ℕ → Codec → List ℕ
build_snapshot_name slug label engine version ts codec =
    (slug
      ++ (snapshot_sep
          ++ (label
              ++ (snapshot_sep
                  ++ (ts
                      ++ (snapshot_sep
                          ++ (clean_engine engine ++ b'-' ∷ clean_version version)))))))
    ++ extension codec

abbrev pub onto : ℕ → Option (List ℕ) → Option (List ℕ)
onto c none = none
onto c (some s) = some (c ∷ s)

-- The text before a suffix: HasSuffix and TrimSuffix.
unfoldable pub strip_suffix : List ℕ → List ℕ → Option (List ℕ)
strip_suffix ext [] = if equals [] ext then some [] else none
strip_suffix ext (c ∷ s) =
    let later = strip_suffix ext s in if equals (c ∷ s) ext then some [] else onto c later

abbrev pub head_onto : ℕ → List (List ℕ) → List (List ℕ)
head_onto c [] = (c ∷ []) ∷ []
head_onto c (s ∷ parts) = (c ∷ s) ∷ parts

-- strings.Split at "--", from the left.
unfoldable pub split_sep : List ℕ → List (List ℕ)
split_sep [] = [] ∷ []
split_sep (c ∷ []) = (c ∷ []) ∷ []
split_sep (c ∷ d ∷ s) =
    let after = split_sep s in
    let next = split_sep (d ∷ s) in if c == b'-' && d == b'-' then [] ∷ after else head_onto c next

unfoldable pub is_all_lower_alpha : List ℕ → Bool
is_all_lower_alpha [] = false
is_all_lower_alpha (c ∷ []) = is_lower c
is_all_lower_alpha (c ∷ d ∷ s) = is_lower c && is_all_lower_alpha (d ∷ s)

-- The text before the first dash, and the text after it if there is one.
unfoldable pub cut_dash : List ℕ → List ℕ × Option (List ℕ)
cut_dash [] = ([], none)
cut_dash (c ∷ s) =
    let (before, after) = cut_dash s in if c == b'-' then ([], some s) else (c ∷ before, after)

abbrev pub engine_of : List ℕ × Option (List ℕ) → Option (List ℕ × List ℕ)
engine_of (engine, none) = if is_all_lower_alpha engine then some (engine, []) else none
engine_of (engine, some version) =
    if is_all_lower_alpha engine then some (engine, version) else none

-- splitEngineVersion; none for an empty engine.
unfoldable pub split_engine_version : List ℕ → Option (List ℕ × List ℕ)
split_engine_version s = engine_of (cut_dash s)

abbrev pub is_nonempty : List ℕ → Bool
is_nonempty [] = false
is_nonempty (c ∷ s) = true

abbrev pub told :
    List ℕ → Codec → List ℕ → List ℕ → Option ℕ → Option (List ℕ × List ℕ) → Option SnapshotInfo
told name codec slug label none ev = none
told name codec slug label (some created) none = none
told name codec slug label (some created) (some (engine, version)) = some (record {
  filename = name;
  slug = slug;
  label = label;
  engine = engine;
  version = version;
  created_at = created;
  compression = codec;
})

abbrev pub info_of : List ℕ → Codec → (List ℕ → Option ℕ) → List (List ℕ) → Option SnapshotInfo
info_of name codec read (slug ∷ label ∷ ts ∷ ev ∷ []) =
    if is_nonempty slug && is_nonempty label
    then told name codec slug label (read ts) (split_engine_version ev)
    else none
info_of name codec read parts = none

abbrev pub parse_stem :
    List ℕ → (List ℕ → Option ℕ) → Option (List ℕ) → Option (List ℕ) → Option SnapshotInfo
parse_stem name read (some stem) gz = info_of name zstd read (split_sep stem)
parse_stem name read none (some stem) = info_of name gzip read (split_sep stem)
parse_stem name read none none = none

-- parseSnapshotName
unfoldable pub parse_snapshot_name : (List ℕ → Option ℕ) → List ℕ → Option SnapshotInfo
unfolding split_engine_version
parse_snapshot_name read name =
    parse_stem name read (strip_suffix ext_zstd name) (strip_suffix ext_gzip name)
