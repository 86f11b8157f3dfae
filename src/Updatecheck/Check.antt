-- ===== src/Updatecheck/Check.antt =====
-- internal/updatecheck/updatecheck.go: Check, with the host, the network and the file of the throttle as
-- operations on a type `S`. A response is what the HTTP client and the JSON decoder make of it.
pub mod Pick
pub mod Trimmed
pub mod Upgrade
pub mod Newer
pub mod Throttle
use locorum.Common.{
  ℕ, ◌+◌, ◌*◌, ◌/◌, Bool, true, false, ◌&&◌, not, Option, none, some, List, [], ◌∷◌, leb, ◌==◌,
  if◌then◌else◌,
}
use locorum.Common.Text.{codes, equals}
use locorum.Updatecheck.{Semver, is_above, trim_v, parse_semver, compare_semver, is_strictly_newer}

pub record Release : Type 0 where
  pub tag_name : List ℕ
  pub html_url : List ℕ
  pub name : List ℕ
  pub body : List ℕ
  pub prerelease : Bool
  pub draft : Bool

pub record Result : Type 0 where
  pub latest : List ℕ
  pub url : List ℕ
  pub notes : List ℕ

abbrev pub no_result : Result
no_result = record { latest = []; url = []; notes = [] }

pub record Options : Type 0 where
  pub repo_owner : List ℕ
  pub repo_name : List ℕ
  pub channel : List ℕ
  pub state_path : List ℕ

abbrev pub channel_stable : List ℕ
channel_stable = codes "stable"

-- Four hours.
abbrev pub throttle : ℕ
throttle = 4 * 3600 * 1000000000

abbrev or_text : List ℕ → List ℕ → List ℕ
or_text default [] = default
or_text default (c ∷ s) = c ∷ s

unfoldable pub with_defaults : Options → Options
with_defaults opts = record opts {
  repo_owner = or_text (codes "PeterBooker") opts.repo_owner;
  repo_name = or_text (codes "locorum") opts.repo_name;
  channel = or_text channel_stable opts.channel;
}

-- The best release so far, and its version.
unfoldable pub better : Option (Release × Semver) → Release → Semver → Option (Release × Semver)
unfolding compare_semver
better none r s = some (r, s)
better (some (best, best_sem)) r s =
    if is_above (compare_semver s best_sem) then some (r, s) else some (best, best_sem)

abbrev pub is_skipped : List ℕ → Release → Bool
is_skipped channel r = if r.draft then true else equals channel channel_stable && r.prerelease

unfoldable pub consider : List ℕ → Option (Release × Semver) → Release → Option (Release × Semver)
unfolding equals parse_semver better
consider channel best r =
    if is_skipped channel r
    then best
    else elim (parse_semver r.tag_name) [ none ↦ best | some s ↦ better best r s ]

unfoldable pub pick_from :
    List ℕ → List Release → Option (Release × Semver) → Option (Release × Semver)
unfolding consider
pick_from channel [] best = best
pick_from channel (r ∷ rs) best = pick_from channel rs (consider channel best r)

unfoldable pub pick_release : List Release → List ℕ → Option Release
unfolding pick_from
pick_release rs channel = elim (pick_from channel rs none) [ none ↦ none | some (r, s) ↦ some r ]

abbrev pub result_of : Release → Result
result_of r = record { latest = trim_v r.tag_name; url = r.html_url; notes = r.body }

-- The end of `Check`, once the releases are known.
unfoldable pub report : List ℕ → List Release → List ℕ → Result
unfolding pick_release is_strictly_newer
report channel releases current = elim (pick_release releases channel) [
  | none ↦ no_result
  | some r ↦ if is_strictly_newer (trim_v r.tag_name) current then result_of r else no_result
]

-- What a request ends with: an error, or a status and a body that may be decoded.
pub data Response (E : Type 0) : Type 0 where
  unanswered : E → Response E
  answered : ℕ → Option (List Release) → Response E

pub data CheckError (E : Type 0) : Type 0 where
  throttled : CheckError E
  fetch_failed : E → CheckError E
  http_status : ℕ → CheckError E
  decode_failed : CheckError E

pub data Outcome (E : Type 0) : Type 0 where
  ended : Result → Outcome E
  failed : CheckError E → Outcome E

pub record Outside (S E : Type 0) : Type 0 where
  pub fetch : List ℕ → List ℕ → S → Response E × S
  pub stat : List ℕ → S → Option ℕ
  pub make_parent : List ℕ → S → Bool × S
  pub create : List ℕ → S → Bool × S
  pub set_time : List ℕ → ℕ → S → Bool × S

module _ {S E : Type 0} (o : Outside S E) where
  unfoldable pub should_run : List ℕ → ℕ → S → Bool
  should_run path now w = elim (o.stat path w) [
    | none ↦ true
    | some modified ↦ leb (modified + throttle) now
  ]

  unfoldable pub touch : List ℕ → ℕ → S → Bool × S
  touch path now w =
      let (made, w1) = o.make_parent path w in
      if not made
      then (false, w1)
      else let (opened, w2) = o.create path w1 in
        if not opened then (false, w2) else o.set_time path now w2

  -- The throttle file is not touched without a path.
  unfoldable pub touch_if : List ℕ → ℕ → S → S
  unfolding touch
  touch_if [] now w = w
  touch_if (c ∷ path) now w = (touch (c ∷ path) now w).1

  unfoldable pub after_fetch : Options → List ℕ → ℕ → Response E → S → Outcome E × S
  unfolding touch_if report
  after_fetch opts current now (unanswered e) w = (failed (fetch_failed e), w)
  after_fetch opts current now (answered status decoded) w =
      if not (status / 100 == 2) then (failed (http_status status), w) else elim decoded [
        | none ↦ (failed decode_failed, w)
        | some releases ↦
            (ended (report opts.channel releases current), touch_if opts.state_path now w)
      ]

  unfoldable pub is_throttled : List ℕ → ℕ → S → Bool
  unfolding should_run
  is_throttled [] now w = false
  is_throttled (c ∷ path) now w = not (should_run (c ∷ path) now w)

  -- `Check`, with the times at which it reads the clock.
  unfoldable pub check : List ℕ → Options → ℕ → ℕ → S → Outcome E × S
  unfolding with_defaults is_throttled after_fetch
  check current given now later w =
      let opts = with_defaults given in
      if is_throttled opts.state_path now w
      then (failed throttled, w)
      else let (response, w') = o.fetch opts.repo_owner opts.repo_name w in
        after_fetch opts current later response w'
