-- ===== src/Snapshots/Retention.antt =====
-- internal/sites/snapshot.go: what the retention sweep leaves of a site's snapshots.
use locorum.Common.{ℕ, ◌≡◌, Bool, true, Option, some, List, All}
use locorum.Snapshots.{SnapshotInfo, parse_snapshot_name}
use locorum.Snapshots.Sweep.{SnapshotRetentionPolicy, Swept, sweep_group}
use locorum.Snapshots.Deletions.{of_site}

-- What `ListSnapshots` returns: each snapshot is what its name reads as.
abbrev pub IsListing : (List ℕ → Option ℕ) → List SnapshotInfo → Type 0
IsListing read l = All (λ s. parse_snapshot_name read s.filename ≡ some s) l

module _ (read : List ℕ → Option ℕ) (removable : List ℕ → Bool) (p : SnapshotRetentionPolicy)
    (now : ℕ) (disk : List SnapshotInfo) (slug : List ℕ) (all : (n : List ℕ) → removable n ≡ true)
    (listed : IsListing read disk) where
  abbrev groups : List ℕ → List SnapshotInfo
  groups k = of_site k disk

  after_group : List ℕ → Swept → Swept
  after_group k st = sweep_group removable p now 0 (groups k) st
