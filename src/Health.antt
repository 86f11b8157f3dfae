-- ===== src/Health.antt =====
-- internal/health/runner.go and internal/health/check.go: what a batch of health checks leaves in the
-- runner's state. Identifiers are lists of bytes, times are natural numbers with 0 for the zero time,
-- and the mutex makes each operation atomic. The scheduling of the checks and the subscribers are left
-- out.
pub mod Budget
pub mod Publish
pub mod Order
pub mod Timeline
mod Tests
use locorum.Common.{
  ℕ, ◌+◌, String, Bool, true, false, ◌&&◌, ◌||◌, not, Option, none, some, List, [], ◌∷◌, ◌++◌, map,
  ltb, leb, ◌==◌, if◌then◌else◌,
}
use locorum.Common.Text.{codes, equals}

abbrev pub severity_info : ℕ
severity_info = 1

abbrev pub severity_warn : ℕ
severity_warn = 2

abbrev pub severity_blocker : ℕ
severity_blocker = 3

-- Severity.String
unfoldable pub severity_string : ℕ → List ℕ
severity_string s =
    if s == severity_info
    then codes "info"
    else if s == severity_warn
    then codes "warn"
    else if s == severity_blocker
    then codes "blocker"
    else codes "unknown"

-- `A` is the type of one-click fixes.
pub record Finding (A : Type 0) : Type 0 where
  pub id : List ℕ
  pub severity : ℕ
  pub dedup_key : List ℕ
  pub title : List ℕ
  pub detail : List ℕ
  pub remediation : List ℕ
  pub help_url : List ℕ
  pub action : Option A
  pub detected : ℕ
  pub stale : Bool

pub record Snapshot (A : Type 0) : Type 0 where
  pub findings : List (Finding A)
  pub last_run : ℕ
  pub running : Bool
  pub generation : ℕ

-- The maps of the state. A key that is missing in one of the last two reads as 0.
pub record RunnerState : Type 0 where
  pub first_seen : List ℕ → Option ℕ
  pub budget_trips : List ℕ → ℕ
  pub next_run_at : List ℕ → ℕ

abbrev pub put : {B : Type 0} → (List ℕ → B) → List ℕ → B → List ℕ → B
put m key v key' = if equals key' key then v else m key'

abbrev pub suspend_budget_trips : ℕ
suspend_budget_trips = 3

-- `recordBudget` at the time `now`.
unfoldable pub record_budget : ℕ → List ℕ → Bool → ℕ → RunnerState → RunnerState
record_budget min_cadence id over_budget now s =
    let trips = s.budget_trips id + 1 in
    if not over_budget
    then record s { budget_trips = put s.budget_trips id 0 }
    else if leb suspend_budget_trips trips
    then record s {
      budget_trips = put s.budget_trips id 0;
      next_run_at = put s.next_run_at id (now + min_cadence);
    }
    else record s { budget_trips = put s.budget_trips id trips }

-- Whether a batch that starts at `now` leaves the check out.
unfoldable pub is_suspended : List ℕ → ℕ → RunnerState → Bool
is_suspended id now s = ltb now (s.next_run_at id)

unfoldable pub finding_key : {A : Type 0} → Finding A → List ℕ
unfolding severity_string
finding_key f = f.id ++ codes "|" ++ severity_string f.severity ++ codes "|" ++ f.dedup_key

-- The order of Go on strings.
unfoldable pub less_text : List ℕ → List ℕ → Bool
less_text s [] = false
less_text [] (d ∷ t) = true
less_text (c ∷ s) (d ∷ t) = let rest = less_text s t in ltb c d || (c == d) && rest

-- The comparison that `publish` sorts by.
unfoldable pub less : {A : Type 0} → Finding A → Finding A → Bool
unfolding less_text equals
less a b =
    if not (a.severity == b.severity)
    then ltb b.severity a.severity
    else if not (equals a.id b.id)
    then less_text a.id b.id
    else less_text a.dedup_key b.dedup_key

-- sort.SliceStable: an element goes behind those that it is not less than.
unfoldable pub insert : {A : Type 0} → Finding A → List (Finding A) → List (Finding A)
insert f [] = f ∷ []
insert f (g ∷ gs) = let rest = insert f gs in if less f g then f ∷ g ∷ gs else g ∷ rest

unfoldable pub sort_onto : {A : Type 0} → List (Finding A) → List (Finding A) → List (Finding A)
unfolding insert
sort_onto sorted [] = sorted
sort_onto sorted (f ∷ fs) = sort_onto (insert f sorted) fs

-- `if first, ok := firstSeen[key]; ok`
abbrev pub or_now : ℕ → Option ℕ → ℕ
or_now now none = now
or_now now (some first) = first

-- The loop of `publish` that dates the findings.
unfoldable pub date_findings :
    {A : Type 0}
    → ℕ
    → List (Finding A)
    → (List ℕ → Option ℕ)
    → List (Finding A) × (List ℕ → Option ℕ)
unfolding finding_key
date_findings now [] m = ([], m)
date_findings now (f ∷ fs) m =
    let first = or_now now (m (finding_key f)) in
    let (rest, m') = date_findings now fs (put m (finding_key f) (some first)) in
    (record f { detected = first } ∷ rest, m')

abbrev pub has_key : {A : Type 0} → List ℕ → List (Finding A) → Bool
has_key key [] = false
has_key key (f ∷ fs) = equals key (finding_key f) || has_key key fs

-- Keys of findings that are gone are dropped.
abbrev pub still_present : {A : Type 0} → List (Finding A) → (List ℕ → Option ℕ) → List ℕ → Option ℕ
still_present fs m key = if has_key key fs then m key else none

unfoldable pub publish :
    {A : Type 0} → ℕ → List (Finding A) → RunnerState × Snapshot A → RunnerState × Snapshot A
unfolding date_findings sort_onto
publish now collected (s, prev) =
    let (dated, seen) = date_findings now collected s.first_seen in
    (
      record s { first_seen = still_present collected seen },
      record {
        findings = sort_onto [] dated;
        last_run = now;
        running = false;
        generation = prev.generation + 1;
      },
    )

-- What a check has returned, and whether it was over its budget; `at` is when that is recorded.
pub record CheckResult (A : Type 0) : Type 0 where
  pub check_id : List ℕ
  pub out : List (Finding A)
  pub err : Option (List ℕ)
  pub over : Bool
  pub at_ : ℕ

abbrev mark_stale : {A : Type 0} → Bool → Finding A → Finding A
mark_stale over f = if over then record f { stale = true } else f

-- The texts of the finding for a failed check; `quoted` is the check's name as `%q` prints it.
unfoldable pub check_failed : {A : Type 0} → (List ℕ → List ℕ) → List ℕ → List ℕ → Finding A
check_failed quoted check_id err = record {
  id = codes "check-failed";
  severity = severity_warn;
  dedup_key = check_id;
  title = codes "Health check " ++ quoted check_id ++ codes " failed";
  detail = err;
  remediation = codes "Check the application logs and re-run.";
  help_url = [];
  action = none;
  detected = 0;
  stale = false;
}

-- The loop of `runBatch` over the results.
unfoldable pub collate :
    {A : Type 0}
    → (List ℕ → List ℕ)
    → ℕ
    → List (CheckResult A)
    → RunnerState
    → List (Finding A) × RunnerState
unfolding record_budget check_failed
collate quoted min_cadence [] s = ([], s)
collate quoted min_cadence (r ∷ rs) s =
    let (rest, s') =
      collate quoted min_cadence rs (record_budget min_cadence r.check_id r.over r.at_ s) in
    elim r.err [
      | some err ↦ (check_failed quoted r.check_id err ∷ rest, s')
      | none ↦ (map (mark_stale r.over) r.out ++ rest, s')
    ]
