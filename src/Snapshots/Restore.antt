-- ===== src/Snapshots/Restore.antt =====
-- internal/sites/snapshot.go: how a snapshot is restored.
use locorum.Common.{
  ℕ, ◌&&◌, not, Bool, true, false, Option, none, some, List, [], ◌∷◌, ◌++◌, ◌==◌, if◌then◌else◌,
}
use locorum.Common.Text.{codes, equals, to_lower}
use locorum.Snapshots.{
  ext_zstd, ext_gzip, Codec, gzip, zstd, SnapshotInfo, strip_suffix, is_nonempty,
  parse_snapshot_name,
}
use locorum.Snapshots.Store.{
  Stored, absent, unreadable, holds, ChecksumError, no_sidecar, verify_checksum,
}
use locorum.Snapshots.Take.{Site, World, Env, snapshot_locked}

pub data RestoreError : Type 0 where
  fetch_failed site_not_found not_running engine_mismatch version_mismatch : RestoreError
  checksum_failed : ChecksumError → RestoreError
  open_failed decompress_failed restore_failed : RestoreError

pub record RestoreOptions : Type 0 where
  pub allow_engine_mismatch : Bool
  pub skip_checksum : Bool
  pub skip_auto_snapshot : Bool

abbrev differs : List ℕ → List ℕ → Bool
differs s t = not (equals s t)

-- The checks of a name against a site.
abbrev pub compatible : Site → Option SnapshotInfo → Option RestoreError
compatible site none = none
compatible site (some info) =
    if is_nonempty info.engine && differs info.engine site.db_engine
    then some engine_mismatch
    else if is_nonempty info.version
        && (is_nonempty site.db_version && differs info.version site.db_version)
    then some version_mismatch
    else none

-- The text after the last slash.
unfoldable pub base_name : List ℕ → List ℕ → List ℕ
base_name here [] = here
base_name here (c ∷ s) = base_name (if c == b'/' then [] else here ++ c ∷ []) s

abbrev codec_of : Option (List ℕ) → Option (List ℕ) → Option Codec
codec_of (some stem) gz = some zstd
codec_of none (some stem) = some gzip
codec_of none none = none

-- The codec that `newDecompressReader` takes from an extension.
unfoldable pub reader_codec : List ℕ → Option Codec
reader_codec path =
    codec_of (strip_suffix ext_zstd (to_lower path)) (strip_suffix ext_gzip (to_lower path))

abbrev pub soften : Option ChecksumError → Option ChecksumError
soften none = none
soften (some no_sidecar) = none
soften (some e) = some e

module _ {Rest Stream : Type 0} (env : Env Rest Stream) where
  abbrev pub opened_with : Option Codec → List ℕ → Option Stream
  opened_with none content = none
  opened_with (some codec) content = env.open_reader codec content

  abbrev pub restored : World Rest × Bool → World Rest × Option RestoreError
  restored (w, true) = (w, none)
  restored (w, false) = (w, some restore_failed)

  abbrev pub streamed : World Rest → Option Stream → World Rest × Option RestoreError
  streamed w none = (w, some decompress_failed)
  streamed w (some stream) = restored (env.restore w stream)

  abbrev pub opened : List ℕ → World Rest → Stored → World Rest × Option RestoreError
  opened path w (holds content) = streamed w (opened_with (reader_codec path) content)
  opened path w absent = (w, some open_failed)
  opened path w unreadable = (w, some open_failed)

  abbrev pub verified :
      List ℕ → World Rest → Option ChecksumError → World Rest × Option RestoreError
  verified path w (some e) = (w, some (checksum_failed e))
  verified path w none = opened path w (w.files path)

  -- What the check of the checksum stops the restore with.
  abbrev pub checksum_gate : List ℕ → RestoreOptions → World Rest → Option ChecksumError
  checksum_gate path opts w =
      if opts.skip_checksum then none else soften (verify_checksum env.hash w.files path)

  -- The world after the safety snapshot, whose failure is only logged.
  abbrev pub secured : Site → RestoreOptions → World Rest → World Rest
  secured site opts w =
      if not opts.skip_auto_snapshot && env.auto_snapshot
      then (snapshot_locked env site (codes "pre_restore") w).0
      else w

  abbrev pub compatible_gate : Site → List ℕ → RestoreOptions → Option RestoreError
  compatible_gate site path opts =
      if opts.allow_engine_mismatch
      then none
      else compatible site (parse_snapshot_name env.read_time (base_name [] path))

  abbrev pub proceed :
      Site
      → List ℕ
      → RestoreOptions
      → World Rest
      → Option RestoreError
      → World Rest × Option RestoreError
  proceed site path opts w (some e) = (w, some e)
  proceed site path opts w none =
      let w' = secured site opts w in verified path w' (checksum_gate path opts w')

  abbrev pub restore_of :
      List ℕ → RestoreOptions → World Rest → Option (Option Site) → World Rest × Option RestoreError
  restore_of path opts w none = (w, some fetch_failed)
  restore_of path opts w (some none) = (w, some site_not_found)
  restore_of path opts w (some (some site)) =
      if site.started
      then proceed site path opts w (compatible_gate site path opts)
      else (w, some not_running)

  -- RestoreSnapshot
  unfoldable pub restore_snapshot :
      List ℕ → RestoreOptions → World Rest → World Rest × Option RestoreError
  unfolding snapshot_locked verify_checksum parse_snapshot_name base_name reader_codec
  restore_snapshot path opts w = restore_of path opts w (env.site w)
