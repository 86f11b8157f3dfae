-- ===== src/Snapshots/Untouched.antt =====
-- internal/sites/snapshot.go: a snapshot leaves the database alone.
use locorum.Common.{
  ℕ, ◌≡◌, refl, ◌∙◌, ◌&&◌, not, Bool, true, false, Option, none, some, List, ◌++◌, inl, inr,
  Bool-cases,
}
use locorum.Common.Text.{codes}
use locorum.Snapshots.{zstd}
use locorum.Snapshots.Store.{sidecar}
use locorum.Snapshots.Take.{
  Site, World, Env, save, written, dumped, name_of, in_dir, hooked, snapshot_locked,
}
use locorum.Snapshots.Restore.{RestoreOptions, secured}

module _ {Rest Stream : Type 0} (env : Env Rest Stream) where
  -- The hooks leave the database alone.
  pub record HooksKeep : Type 0 where
    pub before : (w : World Rest) → (env.pre_snapshot w).0.db ≡ w.db
    pub after : (w : World Rest) → (env.post_snapshot w).0.db ≡ w.db

  save_db : (path content : List ℕ) (w : World Rest) → (save env path content w).0.db ≡ w.db
  save_db path content w = elim (Bool-cases (env.is_written w path)) [
    | inl e ↦ rw e refl
    | inr e ↦ rw e refl
  ]

  written_db :
      HooksKeep
      → (path name content : List ℕ) (r : World Rest × Bool)
      → (written env path name content r).0.db ≡ r.0.db
  written_db keep path name content (w, true) = keep.after _ ∙ save_db (sidecar path) _ w
  written_db keep path name content (w, false) = refl

  dumped_db :
      HooksKeep
      → (path name : List ℕ) (w : World Rest) (content : Option (List ℕ))
      → (dumped env path name w content).0.db ≡ w.db
  dumped_db keep path name w none = refl
  dumped_db keep path name w (some content) =
      written_db keep path name content (save env path (env.compress zstd content) w)
      ∙ save_db path (env.compress zstd content) w

  in_dir_db :
      HooksKeep
      → (site : Site) (label : List ℕ) (w : World Rest) (dir : Option (List ℕ))
      → (in_dir env site label w dir).0.db ≡ w.db
  in_dir_db keep site label w none = refl
  in_dir_db keep site label w (some dir) =
      dumped_db keep (dir ++ (codes "/" ++ name_of env site label w)) (name_of env site label w) w
        (env.dump w)

  hooked_db :
      HooksKeep
      → (site : Site) (label : List ℕ) (r : World Rest × Bool)
      → (hooked env site label r).0.db ≡ r.0.db
  hooked_db keep site label (w, true) = in_dir_db keep site label w (env.snapshots_dir w)
  hooked_db keep site label (w, false) = refl

  pub secured_db :
      HooksKeep
      → (site : Site) (opts : RestoreOptions) (w : World Rest) → (secured env site opts w).db ≡ w.db
  unfolding snapshot_locked
  secured_db keep site opts w =
      elim (Bool-cases (not opts.skip_auto_snapshot && env.auto_snapshot)) [
        | inl e ↦
            rw e (hooked_db keep site (codes "pre_restore") (env.pre_snapshot w) ∙ keep.before w)
        | inr e ↦ rw e refl
      ]
