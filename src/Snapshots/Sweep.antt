-- ===== src/Snapshots/Sweep.antt =====
-- internal/sites/snapshot.go: the retention sweep. The snapshots on disk are a list, newest first, as
-- `ListSnapshots` returns them; a snapshot is deleted by its name in the directory.
use locorum.Common.{
  ℕ, suc, ◌+◌, ◌&&◌, not, Bool, true, Option, none, some, List, [], ◌∷◌, ◌++◌, ◌*◌, ◌==◌, ltb, leb,
  if◌then◌else◌,
}
use locorum.Common.Int.{ℤ, pos, negsuc}
use locorum.Common.Text.{equals}
use locorum.Snapshots.{SnapshotInfo}

-- Times are in nanoseconds.
pub record SnapshotRetentionPolicy : Type 0 where
  pub max_per_site : ℕ
  pub max_age : ℕ

abbrev pub default_retention_policy : SnapshotRetentionPolicy
default_retention_policy = record { max_per_site = 20; max_age = 365 * 24 * 3600 * 1000000000 }

-- LoadRetentionPolicy, from the numbers of the policy's file, if that can be read.
unfoldable pub load_retention_policy : Option (ℤ × ℤ) → SnapshotRetentionPolicy
load_retention_policy none = default_retention_policy
load_retention_policy (some (negsuc n, age)) = default_retention_policy
load_retention_policy (some (pos n, negsuc age)) = default_retention_policy
load_retention_policy (some (pos n, pos age)) = record { max_per_site = n; max_age = age }

unfoldable pub select : (SnapshotInfo → Bool) → List SnapshotInfo → List SnapshotInfo
select p [] = []
select p (s ∷ rest) = let later = select p rest in if p s then s ∷ later else later

abbrev pub append_to : (List ℕ → List SnapshotInfo) → SnapshotInfo → List ℕ → List SnapshotInfo
append_to groups s slug = if equals slug s.slug then groups slug ++ s ∷ [] else groups slug

-- The map of the snapshots by their slugs.
unfoldable pub by_site :
    (List ℕ → List SnapshotInfo) → List SnapshotInfo → List ℕ → List SnapshotInfo
by_site groups [] = groups
by_site groups (s ∷ rest) = by_site (append_to groups s) rest

-- Is the snapshot at this index of its site's to go?
abbrev pub is_dropped : SnapshotRetentionPolicy → ℕ → ℕ → SnapshotInfo → Bool
is_dropped p now i s =
    if ltb 0 p.max_per_site && leb p.max_per_site i
    then true
    else ltb 0 p.max_age && ltb (s.created_at + p.max_age) now

pub record Swept : Type 0 where
  pub disk : List SnapshotInfo
  pub removed : ℕ

abbrev pub without : List ℕ → List SnapshotInfo → List SnapshotInfo
without name disk = select (λ s. not (equals name s.filename)) disk

-- DeleteSnapshot, for a name in the directory, and the count of removals; it fails where the file
-- cannot be removed.
abbrev pub delete_snapshot : (List ℕ → Bool) → List ℕ → Swept → Swept
delete_snapshot removable name st =
    if removable name then record { disk = without name st.disk; removed = st.removed + 1 } else st

abbrev pub visited :
    (List ℕ → Bool) → SnapshotRetentionPolicy → ℕ → ℕ → SnapshotInfo → Swept → Swept
visited removable p now i s st =
    if is_dropped p now i s then delete_snapshot removable s.filename st else st

unfoldable pub sweep_group :
    (List ℕ → Bool) → SnapshotRetentionPolicy → ℕ → ℕ → List SnapshotInfo → Swept → Swept
sweep_group removable p now i [] st = st
sweep_group removable p now i (s ∷ rest) st =
    sweep_group removable p now (suc i) rest (visited removable p now i s st)

-- The groups, in the order in which the map is ranged over.
unfoldable pub sweep_groups :
    (List ℕ → Bool)
    → SnapshotRetentionPolicy
    → ℕ
    → (List ℕ → List SnapshotInfo)
    → List (List ℕ)
    → Swept
    → Swept
unfolding sweep_group
sweep_groups removable p now groups [] st = st
sweep_groups removable p now groups (slug ∷ order) st =
    sweep_groups removable p now groups order (sweep_group removable p now 0 (groups slug) st)

-- SweepSnapshots
unfoldable pub sweep_snapshots :
    (List ℕ → Bool) → SnapshotRetentionPolicy → ℕ → List (List ℕ) → List SnapshotInfo → Swept
unfolding sweep_groups by_site
sweep_snapshots removable p now order disk =
    let untouched : Swept = record { disk = disk; removed = 0 } in
    if p.max_per_site == 0 && p.max_age == 0
    then untouched
    else sweep_groups removable p now (by_site (λ slug. []) disk) order untouched
