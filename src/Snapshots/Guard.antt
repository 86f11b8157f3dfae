-- ===== src/Snapshots/Guard.antt =====
-- internal/sites/snapshot.go: what has to hold before a restore touches the database.
use locorum.Common.{ℕ, ◌≡◌, ◌≢◌, ◌⊎◌, true, Option, none, some, List}
use locorum.Common.Text.{trim_space}
use locorum.Snapshots.Store.{absent, holds, sidecar, before_space}
use locorum.Snapshots.Take.{Site, World, Env}
use locorum.Snapshots.Restore.{
  RestoreError, RestoreOptions, reader_codec, opened_with, secured, compatible_gate,
}

module _ {Rest Stream : Type 0} (env : Env Rest Stream) where
  -- The checksum is not asked for, has no sidecar, or is that of the content.
  abbrev pub IsTrusted : List ℕ → RestoreOptions → World Rest → List ℕ → Type 0
  IsTrusted path opts w content =
      (opts.skip_checksum ≡ true)
      ⊎ (w.files (sidecar path) ≡ absent)
      ⊎ ((line : List ℕ) × (w.files (sidecar path) ≡ holds line)
          × (env.hash content ≡ trim_space (before_space line)))

  -- The engine's restore was reached, from a world in which nothing speaks against the snapshot.
  abbrev pub WasReached : List ℕ → RestoreOptions → World Rest → World Rest → Type 0
  WasReached path opts w w' =
      (site : Site) × (content : List ℕ) × (stream : Stream) × (env.site w ≡ some (some site))
      × (site.started ≡ true)
      × (compatible_gate env site path opts ≡ none)
      × ((secured env site opts w).files path ≡ holds content)
      × IsTrusted path opts (secured env site opts w) content
      × (opened_with env (reader_codec path) content ≡ some stream)
      × (w' ≡ (env.restore (secured env site opts w) stream).0)

  abbrev pub IsGuarded :
      List ℕ → RestoreOptions → World Rest → World Rest × Option RestoreError → Type 0
  IsGuarded path opts w (w', r) = ((w'.db ≡ w.db) × (r ≢ none)) ⊎ WasReached path opts w w'
