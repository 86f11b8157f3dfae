-- ===== src/Snapshots/Names.antt =====
-- internal/sites/snapshot.go: a name that was built is read back.
use locorum.Common.{
  ℕ, ◌≡◌, ◌≢◌, refl, ap, ◌∙◌, true, false, Option, some, List, [], ◌∷◌, ◌++◌, ◌==◌, arith,
}
use locorum.Common.Text.{is_lower}
use locorum.Snapshots.Take.{all_label, valid_label}
use locorum.Snapshots.Parts.{
  is_part, is_last_part, split_sep-append, split_sep_last, strip_suffix-append, strip_suffix-gzip,
}
use locorum.Snapshots.{
  snapshot_sep, ext_zstd, ext_gzip, Codec, gzip, zstd, unknown, clean_engine, clean_version,
  extension, build_snapshot_name, split_sep, is_all_lower_alpha, cut_dash, engine_of,
  split_engine_version, is_nonempty, info_of, parse_snapshot_name,
}

cut_dash_on :
    (c : ℕ) (s : List ℕ)
    → is_lower c ≡ true
    → cut_dash (c ∷ s) ≡ (c ∷ (cut_dash s).0, (cut_dash s).1)
unfolding cut_dash
cut_dash_on c s h = let other : (c == b'-') ≡ false = ground arith in rw other refl

cut_dash-append :
    (engine version : List ℕ)
    → is_all_lower_alpha engine ≡ true
    → cut_dash (engine ++ b'-' ∷ version) ≡ (engine, some version)
unfolding is_all_lower_alpha
cut_dash-append [] version h = cc
cut_dash-append (c ∷ []) version h = cut_dash_on c (b'-' ∷ version) h ∙ (unfold cut_dash in refl)
cut_dash-append (c ∷ d ∷ s) version h =
    let first : is_lower c ≡ true = ground arith in
    let rest : is_all_lower_alpha (d ∷ s) ≡ true = ground arith in
    cut_dash_on c (d ∷ (s ++ b'-' ∷ version)) first
    ∙ ap (λ r. (c ∷ r.0, r.1)) (cut_dash-append (d ∷ s) version rest)

split_engine_version-append :
    (engine version : List ℕ)
    → is_all_lower_alpha engine ≡ true
    → split_engine_version (engine ++ b'-' ∷ version) ≡ some (engine, version)
unfolding split_engine_version
split_engine_version-append engine version h =
    ap engine_of (cut_dash-append engine version h) ∙ (rw h refl)

-- Lowercase letters, a dash, and a text that is a last part and does not begin with a dash.
is_last_part-engine :
    (engine version : List ℕ)
    → is_all_lower_alpha engine ≡ true
    → is_last_part (b'-' ∷ version) ≡ true
    → is_last_part (engine ++ b'-' ∷ version) ≡ true
unfolding is_all_lower_alpha
is_last_part-engine [] version h k = k
is_last_part-engine (c ∷ []) version h k = ground arith
is_last_part-engine (c ∷ d ∷ s) version h k =
    let rest : is_all_lower_alpha (d ∷ s) ≡ true = ground arith in
    let ih = is_last_part-engine (d ∷ s) version rest k in ground arith

parse_snapshot_name-append :
    (stem : List ℕ) (codec : Codec) (read : List ℕ → Option ℕ)
    → codec ≢ unknown
    → parse_snapshot_name read (stem ++ extension codec)
      ≡ info_of (stem ++ extension codec) codec read (split_sep stem)
unfolding parse_snapshot_name
parse_snapshot_name-append stem gzip read h =
    rw (strip_suffix-gzip stem, strip_suffix-append stem ext_gzip) refl
parse_snapshot_name-append stem zstd read h = rw (strip_suffix-append stem ext_zstd) refl
parse_snapshot_name-append stem unknown read h = absurd (h refl)

all_label-is_part : (s : List ℕ) → all_label s ≡ true → is_part s ≡ true
all_label-is_part [] h = refl
all_label-is_part (c ∷ []) h = ground arith
all_label-is_part (c ∷ d ∷ s) h =
    let rest : all_label (d ∷ s) ≡ true = ground arith in
    let ih = all_label-is_part (d ∷ s) rest in ground arith

valid_label-is_part :
    (label : List ℕ)
    → valid_label label ≡ true
    → (is_nonempty label ≡ true) × (is_part label ≡ true)
unfolding valid_label
valid_label-is_part [] h = cc
valid_label-is_part (c ∷ s) h =
    let whole : all_label (c ∷ s) ≡ true = ground arith in (refl, all_label-is_part (c ∷ s) whole)

-- A name that is built with a codec that the code has is read back: with a valid label, which has 1 to
-- 32 lowercase letters, digits and underscores and does not start with an underscore, a slug that is
-- not empty, has no two dashes in a row and does not end with one, a written time that has no two
-- dashes in a row, does not end with one and is read as the time, an engine that is left with
-- lowercase letters, and a version that is left with no two dashes in a row and none at its start. The
-- engine and the version are the cleaned ones.
pub parse_snapshot_name-build_snapshot_name :
    (slug label engine version ts : List ℕ) (codec : Codec) (read : List ℕ → Option ℕ) (t : ℕ)
    → codec ≢ unknown
    → is_nonempty slug ≡ true
    → is_part slug ≡ true
    → valid_label label ≡ true
    → is_part ts ≡ true
    → read ts ≡ some t
    → is_all_lower_alpha (clean_engine engine) ≡ true
    → is_last_part (b'-' ∷ clean_version version) ≡ true
    → parse_snapshot_name read (build_snapshot_name slug label engine version ts codec)
      ≡ some (record {
        filename = build_snapshot_name slug label engine version ts codec;
        slug = slug;
        label = label;
        engine = clean_engine engine;
        version = clean_version version;
        created_at = t;
        compression = codec;
      })
unfolding build_snapshot_name
parse_snapshot_name-build_snapshot_name slug label engine version ts codec read t known slug_set
      slug_part label_valid ts_part reads engine_lower version_part =
    let (label_set, label_part) = valid_label-is_part label label_valid in
    let ev = clean_engine engine ++ b'-' ∷ clean_version version in
    let stem =
      slug ++ (snapshot_sep ++ (label ++ (snapshot_sep ++ (ts ++ (snapshot_sep ++ ev))))) in
    let parts : split_sep stem ≡ slug ∷ label ∷ ts ∷ ev ∷ [] =
      split_sep-append slug (label ++ (snapshot_sep ++ (ts ++ (snapshot_sep ++ ev)))) slug_part
      ∙ ap (λ r. slug ∷ r) (split_sep-append label (ts ++ (snapshot_sep ++ ev)) label_part)
      ∙ ap (λ r. slug ∷ label ∷ r) (split_sep-append ts ev ts_part)
      ∙ ap (λ r. slug ∷ label ∷ ts ∷ r)
          (split_sep_last ev (
            is_last_part-engine (clean_engine engine) (clean_version version) engine_lower
              version_part)) in
    parse_snapshot_name-append stem codec read known
    ∙ ap (info_of (stem ++ extension codec) codec read) parts
    ∙ (rw
        (
          slug_set,
          label_set,
          reads,
          split_engine_version-append (clean_engine engine) (clean_version version) engine_lower,
        )
        refl)
