-- ===== src/Snapshots/Take.antt =====
-- internal/sites/snapshot.go: how a snapshot is taken. The database engine, the hooks, the codecs and
-- SHA-256 are arguments. A file that is written through a temporary one appears whole or not at all.
use locorum.Common.{
  ℕ, ◌&&◌, ◌||◌, Bool, true, false, Option, none, some, List, [], ◌∷◌, ◌++◌, ◌==◌, length, leb,
  if◌then◌else◌,
}
use locorum.Common.Text.{codes, equals, is_lower, is_digit}
use locorum.Snapshots.{Codec, zstd, build_snapshot_name}
use locorum.Snapshots.Store.{Files, put, sidecar, checksum_line}

pub record Site : Type 0 where
  pub slug : List ℕ
  pub db_engine : List ℕ
  pub db_version : List ℕ
  pub started : Bool

pub record World (Rest : Type 0) : Type 0 where
  pub db : List ℕ
  pub files : Files
  pub rest : Rest

-- The kind of the engine that `dbengine.Resolve` returns: the default where a site's is not known.
unfoldable pub engine_kind : Site → List ℕ
engine_kind site =
    if equals site.db_engine (codes "mysql") || equals site.db_engine (codes "mariadb")
    then site.db_engine
    else codes "mysql"

-- What the code calls: the hooks and the engine, with what they change and whether they succeed, the
-- codecs, the hash, the clock, and the directory, if it can be made.
pub record Env (Rest Stream : Type 0) : Type 0 where
  pub site : World Rest → Option (Option Site)
  pub pre_snapshot : World Rest → World Rest × Bool
  pub post_snapshot : World Rest → World Rest × Bool
  pub snapshots_dir : World Rest → Option (List ℕ)
  pub timestamp : World Rest → List ℕ
  pub read_time : List ℕ → Option ℕ
  pub dump : World Rest → Option (List ℕ)
  pub compress : Codec → List ℕ → List ℕ
  pub open_reader : Codec → List ℕ → Option Stream
  pub hash : List ℕ → List ℕ
  pub is_written : World Rest → List ℕ → Bool
  pub restore : World Rest → Stream → World Rest × Bool
  pub auto_snapshot : Bool

abbrev pub label_char : ℕ → Bool
label_char c = is_lower c || is_digit c || c == b'_'

abbrev pub all_label : List ℕ → Bool
all_label [] = true
all_label (c ∷ s) = label_char c && all_label s

-- A match of `snapshotLabelPat`.
unfoldable pub valid_label : List ℕ → Bool
valid_label [] = false
valid_label (c ∷ s) = (is_lower c || is_digit c) && (all_label s && leb (length s) 31)

module _ {Rest Stream : Type 0} (env : Env Rest Stream) where
  -- A file through a temporary one; false where a step of that fails.
  abbrev pub save : List ℕ → List ℕ → World Rest → World Rest × Bool
  save path content w =
      if env.is_written w path
      then (record w { files = put path content w.files }, true)
      else (w, false)

  -- After the snapshot is in place: the sidecar, whose failure is only logged, and the hooks' too.
  abbrev pub finish : List ℕ → List ℕ → List ℕ → World Rest → World Rest
  finish path name content w =
      let (w', done) = save (sidecar path) (checksum_line (env.hash content) name) w in
      (env.post_snapshot w').0

  abbrev pub written : List ℕ → List ℕ → List ℕ → World Rest × Bool → World Rest × Option (List ℕ)
  written path name content (w, true) = (finish path name content w, some path)
  written path name content (w, false) = (w, none)

  -- The digest is of the dump, and the file holds the compressed dump.
  abbrev pub dumped : List ℕ → List ℕ → World Rest → Option (List ℕ) → World Rest × Option (List ℕ)
  dumped path name w none = (w, none)
  dumped path name w (some content) =
      written path name content (save path (env.compress zstd content) w)

  abbrev pub name_of : Site → List ℕ → World Rest → List ℕ
  name_of site label w =
      build_snapshot_name site.slug label (engine_kind site) site.db_version (env.timestamp w) zstd

  abbrev pub in_dir : Site → List ℕ → World Rest → Option (List ℕ) → World Rest × Option (List ℕ)
  in_dir site label w none = (w, none)
  in_dir site label w (some dir) =
      dumped (dir ++ (codes "/" ++ name_of site label w)) (name_of site label w) w (env.dump w)

  abbrev pub hooked : Site → List ℕ → World Rest × Bool → World Rest × Option (List ℕ)
  hooked site label (w, true) = in_dir site label w (env.snapshots_dir w)
  hooked site label (w, false) = (w, none)

  -- snapshotLocked: the path, if there is no error.
  unfoldable pub snapshot_locked : Site → List ℕ → World Rest → World Rest × Option (List ℕ)
  snapshot_locked site label w = hooked site label (env.pre_snapshot w)

  abbrev snapshot_of : List ℕ → World Rest → Option (Option Site) → World Rest × Option (List ℕ)
  snapshot_of label w none = (w, none)
  snapshot_of label w (some none) = (w, none)
  snapshot_of label w (some (some site)) =
      if site.started && valid_label label then snapshot_locked site label w else (w, none)

  -- Snapshot
  unfoldable pub snapshot : List ℕ → World Rest → World Rest × Option (List ℕ)
  snapshot label w = snapshot_of label w (env.site w)
