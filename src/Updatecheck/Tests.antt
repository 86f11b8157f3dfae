-- ===== src/Updatecheck/Tests.antt =====
-- Versions, releases and checks, and instances of the theorems.
use locorum.Common.{
  ℕ, suc, ◌/◌, ◌==◌, ◌≡◌, refl, ◌⊎◌, Bool, true, false, Option, none, some, List, [], ◌∷◌, arith,
}
use locorum.Common.Text.{codes}
use locorum.Common.Int.{pos}
use locorum.Common.Decimal.{atoi}
use locorum.Updatecheck.{parse_semver, is_strictly_newer}
use locorum.Updatecheck.Check.{
  Release, no_result, result_of, Options, Outside, answered, ended, failed, throttled, check,
  with_defaults,
}
use locorum.Updatecheck.Check.Upgrade.{IsUpgrade, IsUpToDate}
use locorum.Updatecheck.Check.Newer.{check-IsUpgrade}
use locorum.Updatecheck.Check.Throttle.{IsWritable, check_again-throttled}

prerelease_tag :
    parse_semver (codes "v1.20.3-beta.1+abc")
    ≡ some (record { major = pos 1; minor = pos 20; patch = pos 3; pre = codes "beta.1+abc" })
unfolding parse_semver atoi
prerelease_tag = refl

two_numbers : is_strictly_newer (codes "1.3") (codes "1.3.0-rc") ≡ true
unfolding is_strictly_newer atoi
two_numbers = refl

-- The numbers of a prerelease tag are compared as texts.
tenth_beta : is_strictly_newer (codes "1.3.0-beta.10") (codes "1.3.0-beta.2") ≡ false
unfolding is_strictly_newer atoi
tenth_beta = refl

development : is_strictly_newer (codes "1.3.0") (codes "dev") ≡ false
unfolding is_strictly_newer atoi
development = refl

abbrev release : List ℕ → Bool → Bool → Release
release tag prerelease draft = record {
  tag_name = tag;
  html_url = codes "u";
  name = [];
  body = codes "notes";
  prerelease = prerelease;
  draft = draft;
}

abbrev newest : Release
newest = release (codes "v1.4.0") false false

abbrev releases : List Release
releases =
    release (codes "nightly") false false
    ∷ release (codes "v1.3.9") false false
    ∷ newest
    ∷ release (codes "v1.5.0-beta.1") true false
    ∷ release (codes "v2.0.0") false true
    ∷ []

-- The time of the file, if there is one, and the number of requests.
abbrev Host : Type 0
Host = Option ℕ × ℕ

abbrev host : Outside Host ℕ
host = record {
  fetch = λ owner repo w. (answered 200 (some releases), (w.0, suc w.1));
  stat = λ path w. w.0;
  make_parent = λ path w. (true, w);
  create = λ path w. (true, w);
  set_time = λ path now w. (true, (some now, w.1));
}

abbrev options : Options
options = record { repo_owner = []; repo_name = []; channel = []; state_path = codes "f" }

abbrev current : List ℕ
current = codes "1.3.2"

abbrev start : Host
start = (none, 0)

upgraded : (check host current options 5 6 start).0 ≡ ended (result_of newest)
unfolding check with_defaults atoi
upgraded = refl

check-IsUpgrade_example :
    (status : ℕ) × (releases : List Release) × ((host.fetch
        (with_defaults options).repo_owner
        (with_defaults options).repo_name
        start).0
      ≡ answered status (some releases))
    × (status / 100 == 2 ≡ true)
    × (((result_of newest ≡ no_result)
          × IsUpToDate (with_defaults options).channel releases current)
        ⊎ IsUpgrade (with_defaults options).channel releases current (result_of newest))
check-IsUpgrade_example = check-IsUpgrade host current options 5 6 start (result_of newest) upgraded

host-IsWritable : IsWritable host options.state_path
host-IsWritable = record { makes = λ w. refl; creates = λ w. refl; sets = λ now w. refl }

check_again-throttled_example :
    let after = (check host current options 5 6 start).1 in
    check host current options 7 8 after ≡ (failed throttled, after)
check_again-throttled_example =
    check_again-throttled host options b'f' [] current current 5 6 7 8 start (result_of newest) refl
      host-IsWritable upgraded (omega arith)

-- The dash of the build metadata is taken for the start of a prerelease tag.
build_metadata :
    parse_semver (codes "1.2.3+linux-2")
    ≡ some (record { major = pos 1; minor = pos 2; patch = pos 3; pre = codes "2" })
unfolding parse_semver atoi
build_metadata = refl
