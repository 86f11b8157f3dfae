-- ===== src/DiskCheck/Tests.antt =====
-- Runs of the disk check, and an instance of the theorem.
use locorum.Common.{ℕ, suc, ◌+◌, ◌≡◌, refl, none, List, []}
use locorum.Common.Text.{codes}
use locorum.Common.Int.{ℤ, pos, negsuc}
use locorum.Breaker.{hour, state, on_failure}
use locorum.Breaker.History.{expected}
use locorum.DiskCheck.{DiskLowConfig, new_disk_low_check, unavailable, Outside, run}
use locorum.DiskCheck.Gate.{runs, measured, asked, run-expected}

-- A time and the number of questions; every question takes a minute and fails.
abbrev Host : Type 0
Host = ℕ × ℕ

abbrev failing : Outside Host ℕ ℕ
failing = record {
  host_free_bytes = λ path w. ((pos 9000000000, none), w);
  disk_usage = λ w. (unavailable 1, (w.0 + 60000000000, suc w.1));
  clock = λ w. w.0;
}

abbrev config : DiskLowConfig
config = record { warn_bytes = pos 0; blocker_bytes = negsuc 4; path = codes "/" }

abbrev human : ℤ → List ℕ
human n = codes "some"

abbrev start : Host
start = (1, 0)

-- Five runs ask three times, and the last one reports that it did not ask.
three_questions : (runs ℕ failing human 5 (new_disk_low_check config) start []).2.1 ≡ 3
unfolding runs new_disk_low_check state on_failure
three_questions = refl

-- A threshold that is not positive is replaced.
thresholds :
    ((new_disk_low_check {R = ℕ} {E = ℕ} config).warn ≡ 5368709120)
    × ((new_disk_low_check {R = ℕ} {E = ℕ} config).blocker ≡ 1073741824)
unfolding new_disk_low_check
thresholds = (refl, refl)

run-expected_example :
    let (history, c, w') = runs ℕ failing human 4 (new_disk_low_check config) start [] in
    let w1 = measured failing c w' in
    (run {A = ℕ} failing human c w').2
    ≡ asked failing (expected 3 hour history (failing.clock w1)) w1
run-expected_example = run-expected ℕ failing human 4 config start
