-- ===== src/Health/Tests.antt =====
-- Batches that are recorded and published, and instances of the theorems.
use locorum.Common.{ℕ, ◌≡◌, refl, Bool, true, false, none, some, List, [], ◌∷◌, map, ltb, String}
use locorum.Common.Text.{codes, equals}
use locorum.Health.{
  Finding, Snapshot, RunnerState, is_suspended, publish, record_budget, collate, CheckResult, less,
  finding_key,
}
use locorum.Health.Budget.{Recorded, after, resumes, with_batch, is_suspended-collate}
use locorum.Health.Timeline.{Publications, publish_all}

abbrev run_of : String → Bool → ℕ → Recorded
run_of id over time = record { id = codes id; over = over; time = time }

-- The third run of `disk` in a row over its budget ends at 30.
abbrev slow_disk : List Recorded
slow_disk =
    run_of "port" false 31
    ∷ run_of "disk" true 30
    ∷ run_of "port" true 21
    ∷ run_of "disk" true 20
    ∷ run_of "disk" true 10
    ∷ run_of "disk" false 5
    ∷ []

suspended_until_35 :
    (is_suspended (codes "disk") 34 (after 5 slow_disk) ≡ true)
    × (is_suspended (codes "disk") 35 (after 5 slow_disk) ≡ false)
unfolding is_suspended after record_budget equals
suspended_until_35 = (refl, refl)

abbrev finding_of : String → ℕ → Finding Unit
finding_of id severity = record {
  id = codes id;
  severity = severity;
  dedup_key = [];
  title = [];
  detail = [];
  remediation = [];
  help_url = [];
  action = none;
  detected = 0;
  stale = false;
}

abbrev collected : List (Finding Unit)
collected = finding_of "wsl" 1 ∷ finding_of "disk" 3 ∷ finding_of "arch" 1 ∷ []

abbrev fresh : RunnerState × Snapshot Unit
fresh = (after 5 [], record { findings = []; last_run = 0; running = false; generation = 7 })

published :
    map (λ f. f.id) (publish 40 collected fresh).1.findings
    ≡ codes "disk" ∷ codes "arch" ∷ codes "wsl" ∷ []
unfolding publish less
published = refl

abbrev late : CheckResult Unit
late = record {
  check_id = codes "disk";
  out = [];
  err = some (codes "timeout");
  over = true;
  at_ = 30;
}

-- `disk` was over its budget twice before.
is_suspended-collate_example :
    is_suspended
      (codes "disk")
      33
      (collate
        (λ id. id)
        5
        (late ∷ [])
        (after 5 (run_of "disk" true 20 ∷ run_of "disk" true 10 ∷ []))).1
    ≡ ltb 33 (
        resumes 5
          (codes "disk")
          (with_batch (late ∷ []) (run_of "disk" true 20 ∷ run_of "disk" true 10 ∷ [])))
is_suspended-collate_example =
    is_suspended-collate (λ id. id) 5 (late ∷ [])
      (run_of "disk" true 20 ∷ run_of "disk" true 10 ∷ []) (codes "disk") 33

-- `disk` has been reported since 20; `arch` was gone in between.
abbrev history : Publications Unit
history =
    (30, finding_of "disk" 3 ∷ [])
    ∷ (20, finding_of "arch" 1 ∷ finding_of "disk" 3 ∷ [])
    ∷ (10, finding_of "wsl" 1 ∷ [])
    ∷ []

dated_since :
    map (λ f. f.detected) (publish_all ((40, collected) ∷ history) fresh).1.findings
    ≡ 20 ∷ 40 ∷ 40 ∷ []
unfolding publish less finding_key
dated_since = refl
