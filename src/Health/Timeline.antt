-- ===== src/Health/Timeline.antt =====
-- internal/health/runner.go: the snapshot after any number of publications.
use locorum.Common.{ℕ, Bool, false, ◌||◌, Option, none, some, List, [], ◌∷◌, if◌then◌else◌}
use locorum.Common.Text.{equals}
use locorum.Health.{Finding, Snapshot, RunnerState, finding_key, publish}

-- The findings collected and the time of each publication, the latest first.
abbrev pub Publications : Type 0 → Type 0
Publications A = List (ℕ × List (Finding A))

abbrev pub publish_all :
    {A : Type 0} → Publications A → RunnerState × Snapshot A → RunnerState × Snapshot A
publish_all [] s = s
publish_all ((now, collected) ∷ earlier) s = publish now collected (publish_all earlier s)

abbrev is_reported : {A : Type 0} → List ℕ → List (Finding A) → Bool
is_reported key [] = false
is_reported key (f ∷ fs) = equals key (finding_key f) || is_reported key fs

abbrev first_time : ℕ → Option ℕ → ℕ
first_time now none = now
first_time now (some t) = t

-- Since when a key has been reported by every publication up to the latest.
abbrev pub reported_since : {A : Type 0} → List ℕ → Publications A → Option ℕ
reported_since key [] = none
reported_since key ((now, collected) ∷ earlier) =
    if is_reported key collected then some (first_time now (reported_since key earlier)) else none

-- A finding with the time since when its key has been reported, which is now for a new one.
abbrev pub seen_since : {A : Type 0} → ℕ → Publications A → Finding A → Finding A
seen_since now earlier f = record f {
  detected = first_time now (reported_since (finding_key f) earlier);
}
