-- ===== src/DiskCheck.antt =====
-- internal/health/checks_disk.go: the check of free disk space, with the breaker around Docker's answer. The
-- host, the engine and the clock are operations on a type `S`; the text of a size is an argument, since
-- it is printed from a floating-point number.
pub mod Gate
mod Tests
use locorum.Common.{
  ℕ, ◌*◌, ◌/◌, Bool, true, false, ◌&&◌, Option, none, some, List, [], ◌∷◌, ◌++◌, ltb, leb,
  if◌then◌else◌,
}
use locorum.Common.Text.{codes}
use locorum.Common.Int.{ℤ, pos, negsuc}
use locorum.Breaker.{Breaker, hour, allow, on_success, on_failure}
use locorum.Health.{Finding, severity_info, severity_warn, severity_blocker}

abbrev pub default_disk_warn_bytes : ℕ
default_disk_warn_bytes = 5 * 1024 * 1024 * 1024

abbrev pub default_disk_blocker_bytes : ℕ
default_disk_blocker_bytes = 1 * 1024 * 1024 * 1024

pub record DiskLowConfig : Type 0 where
  pub warn_bytes : ℤ
  pub blocker_bytes : ℤ
  pub path : List ℕ

-- `R` is the type of Docker's reports, `E` that of errors.
pub record DiskLowCheck (R E : Type 0) : Type 0 where
  pub warn : ℕ
  pub blocker : ℕ
  pub path : List ℕ
  pub breaker : Breaker
  pub last_report : Option R
  pub last_free : ℤ
  pub last_read_err : Option E

abbrev pub positive_or : ℕ → ℤ → ℕ
positive_or default (negsuc n) = default
positive_or default (pos n) = if ltb 0 n then n else default

-- A blocker threshold that is not below the warn threshold is corrected.
abbrev pub corrected : ℕ → ℕ → ℕ
corrected warn blocker = if leb warn blocker then warn / 5 else blocker

unfoldable pub new_disk_low_check : {R E : Type 0} → DiskLowConfig → DiskLowCheck R E
new_disk_low_check cfg =
    let warn = positive_or default_disk_warn_bytes cfg.warn_bytes in
    record {
      warn = warn;
      blocker = corrected warn (positive_or default_disk_blocker_bytes cfg.blocker_bytes);
      path = cfg.path;
      breaker = record { max_failures = 3; cooldown = hour; failures = 0; opened_at = 0 };
      last_report = none;
      last_free = pos 0;
      last_read_err = none;
    }

-- What the engine answers.
pub data Usage (R E : Type 0) : Type 0 where
  reported : R → Usage R E
  unavailable : E → Usage R E

pub data DockerRead (E : Type 0) : Type 0 where
  read_ok circuit_open : DockerRead E
  engine_failed : E → DockerRead E

pub data RunResult (A E : Type 0) : Type 0 where
  found : List (Finding A) → RunResult A E
  both_failed : E → E → RunResult A E

pub record Outside (S R E : Type 0) : Type 0 where
  pub host_free_bytes : List ℕ → S → (ℤ × Option E) × S
  pub disk_usage : S → Usage R E × S
  pub clock : S → ℕ

-- `free > 0 && free < limit`
abbrev pub is_low : ℤ → ℕ → Bool
is_low (negsuc n) limit = false
is_low (pos n) limit = ltb 0 n && ltb n limit

abbrev pub finding : {A : Type 0} → List ℕ → ℕ → List ℕ → List ℕ → List ℕ → Finding A
finding id severity title detail remediation = record {
  id = id;
  severity = severity;
  dedup_key = [];
  title = title;
  detail = detail;
  remediation = remediation;
  help_url = [];
  action = none;
  detected = 0;
  stale = false;
}

-- What the engine's answer leaves, at the time `now`.
unfoldable pub answered :
    {R E : Type 0} → Usage R E → ℕ → DiskLowCheck R E → DockerRead E × DiskLowCheck R E
unfolding on_success on_failure
answered (unavailable e) now c = (engine_failed e, record c { breaker = on_failure c.breaker now })
answered (reported r) now c =
    (read_ok, record c { breaker = on_success c.breaker; last_report = some r })

module _ {S R E : Type 0} (o : Outside S R E) where
  unfoldable pub read_host_free : DiskLowCheck R E → S → (ℤ × Option E) × DiskLowCheck R E × S
  read_host_free c w = elim c.path [
    | [] ↦ ((pos 0, none), c, w)
    | (b ∷ path) ↦
        let ((free, err), w') = o.host_free_bytes (b ∷ path) w in
        ((free, err), record c { last_free = free; last_read_err = err }, w')
  ]

  unfoldable pub read_docker : DiskLowCheck R E → S → DockerRead E × DiskLowCheck R E × S
  unfolding allow answered
  read_docker c w =
      let (usage, w') = o.disk_usage w in
      let (read, c') = answered usage (o.clock w') c in
      if allow c.breaker (o.clock w) then (read, c', w') else (circuit_open, c, w)

module _ {A : Type 0} (human : ℤ → List ℕ) where
  abbrev pub warn_finding : ℤ → List ℕ → Finding A
  warn_finding free path =
      finding (codes "disk-low") severity_warn (codes "Low disk space")
        (codes "Only " ++ human free ++ codes " free at " ++ path ++ codes ".")
        (codes "Free disk space; consider `docker system prune` to reclaim image cache.")

  abbrev pub blocker_finding : ℤ → List ℕ → Finding A
  blocker_finding free path =
      finding (codes "disk-low") severity_blocker (codes "Critically low disk space")
        (codes "Only "
          ++ human free
          ++ codes " free at "
          ++ path
          ++ codes "; site operations will fail.")
        (codes
          "Free disk space immediately. Run `docker system prune --all` to reclaim Docker's footprint.")

  abbrev pub skipped_finding : Finding A
  skipped_finding =
      finding (codes "disk-check-skipped") severity_info (codes "Skipped Docker disk-usage probe")
        (codes "Repeated timeouts on `docker system df`; will retry next cycle.")
        (codes "Restart Docker if this persists.")

  abbrev pub no_finding : {E : Type 0} → Option E → DockerRead E → RunResult A E
  no_finding free_err circuit_open = found (skipped_finding ∷ [])
  no_finding (some e) (engine_failed e') = both_failed e e'
  no_finding none (engine_failed e') = found []
  no_finding free_err read_ok = found []

  abbrev pub judge : {R E : Type 0} → DiskLowCheck R E → ℤ → Option E → DockerRead E → RunResult A E
  judge c free free_err read =
      if is_low free c.blocker
      then found (blocker_finding free c.path ∷ [])
      else if is_low free c.warn
      then found (warn_finding free c.path ∷ [])
      else no_finding free_err read

module _ {S R E A : Type 0} (o : Outside S R E) (human : ℤ → List ℕ) where
  unfoldable pub run : DiskLowCheck R E → S → RunResult A E × DiskLowCheck R E × S
  unfolding read_host_free read_docker
  run c w =
      let ((free, free_err), c1, w1) = read_host_free o c w in
      let (read, c2, w2) = read_docker o c1 w1 in (judge human c2 free free_err read, c2, w2)
