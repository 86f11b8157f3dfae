-- ===== src/Username/Again.antt =====
-- internal/platform/user.go: a sanitised name is left as it is.
use locorum.Common.{
  ℕ, ◌<◌, ◌≤◌, ◌≡◌, refl, ap, Bool, true, false, ◌&&◌, not, List, [], ◌∷◌, length, map, ltb, arith,
}
use locorum.Common.Text.{is_lower, trim_left}
use locorum.Username.{
  Unicode, is_dash, is_cut, keep, is_allowed, replace_separator, lower_rune, strip_combining,
  truncate, with_prefix, clean, shorten, sanitise_username,
}
use locorum.Username.Name.{
  has_runs, is_trimmed, starts, is_username, all_allowed, collapse_dashes-collapse_from,
  collapse_from-id, trim_right-id,
}
use locorum.Username.Shape.{or_locorum-id, sanitise_username-is_username}

abbrev pub is_ascii : List ℕ → Bool
is_ascii [] = true
is_ascii (c ∷ s) = ltb c 128 && is_ascii s

-- What the program relies on of Unicode: texts in ASCII are in every normal form, and no character of
-- ASCII is a combining mark.
pub record IsUnicode (u : Unicode) : Type 0 where
  pub nfkc_ascii : (s : List ℕ) → is_ascii s ≡ true → u.nfkc s ≡ s
  pub nfd_ascii : (s : List ℕ) → is_ascii s ≡ true → u.nfd s ≡ s
  pub mn_ascii : (c : ℕ) → c < 128 → u.is_mn c ≡ false

allowed-is_ascii : (s : List ℕ) → all_allowed s ≡ true → is_ascii s ≡ true
allowed-is_ascii [] h = refl
allowed-is_ascii (c ∷ s) h = ground (arith, allowed-is_ascii s)

trimmed-all_allowed :
    (prev ended : Bool) (s : List ℕ) → is_trimmed prev ended s ≡ true → all_allowed s ≡ true
trimmed-all_allowed prev ended [] h = refl
trimmed-all_allowed prev ended (c ∷ s) h =
    ground (arith, trimmed-all_allowed (is_dash c) (not (is_cut c)) s)

trimmed-has_runs :
    (prev ended : Bool) (s : List ℕ) → is_trimmed prev ended s ≡ true → has_runs prev s ≡ true
trimmed-has_runs prev ended [] h = refl
trimmed-has_runs prev ended (c ∷ s) h =
    ground (arith, trimmed-has_runs (is_dash c) (not (is_cut c)) s)

keep-no_mark :
    (u : Unicode) (s : List ℕ)
    → ((c : ℕ) → c < 128 → u.is_mn c ≡ false)
    → is_ascii s ≡ true
    → keep (λ c. not (u.is_mn c)) s ≡ s
unfolding keep
keep-no_mark u [] mn h = refl
keep-no_mark u (c ∷ s) mn h =
    let e : u.is_mn c ≡ false = mn c (ground arith) in
    rw (e) (ap (λ t. c ∷ t) (keep-no_mark u s mn (ground arith)))

keep-id : (s : List ℕ) → all_allowed s ≡ true → keep is_allowed s ≡ s
unfolding keep
keep-id [] h = refl
keep-id (c ∷ s) h = ground (arith, keep-id s)

replace-id : (c : ℕ) → is_allowed c ≡ true → replace_separator c ≡ c
replace-id c h = ground arith

lower-id : (c : ℕ) → is_allowed c ≡ true → lower_rune c ≡ c
lower-id c h = ground arith

map-id :
    (f : ℕ → ℕ) (s : List ℕ)
    → ((c : ℕ) → is_allowed c ≡ true → f c ≡ c)
    → all_allowed s ≡ true
    → map f s ≡ s
map-id f [] e h = refl
map-id f (c ∷ s) e h =
    let here : f c ≡ c = e c (ground arith) in
    let rest : map f s ≡ s = map-id f s e (ground arith) in cc

clean-id : (s : List ℕ) → all_allowed s ≡ true → clean s ≡ s
unfolding clean
clean-id s h =
    rw (map-id replace_separator s replace-id h, map-id lower_rune s lower-id h) (keep-id s h)

trim_left-id : (s : List ℕ) → starts s ≡ true → trim_left is_cut s ≡ s
unfolding trim_left
trim_left-id [] h = refl
trim_left-id (c ∷ s) h = ground arith

truncate-id : (s : List ℕ) → length s ≤ 32 → truncate s ≡ s
unfolding truncate
truncate-id s h = let e : ltb 32 (length s) ≡ false = ground arith in rw (e) refl

with_prefix-id : (s : List ℕ) → is_username s ≡ true → with_prefix s ≡ s
unfolding with_prefix
with_prefix-id [] h = cc
with_prefix-id (c ∷ s) h = let e : is_lower c ≡ true = ground arith in rw (e) refl

username-starts : (s : List ℕ) → is_username s ≡ true → starts s ≡ true
username-starts [] h = refl
username-starts (c ∷ s) h = ground arith

username-is_trimmed : (s : List ℕ) → is_username s ≡ true → is_trimmed false true s ≡ true
username-is_trimmed [] h = refl
username-is_trimmed (c ∷ s) h = ground arith

shorten-id : (s : List ℕ) → is_username s ≡ true → length s ≤ 32 → shorten s ≡ s
unfolding shorten
shorten-id s h n =
    let t = username-is_trimmed s h in
    rw
      (
        collapse_dashes-collapse_from s (trimmed-all_allowed false true s t),
        collapse_from-id false s (trimmed-has_runs false true s t),
        trim_left-id s (username-starts s h),
        trim_right-id false true s t,
        truncate-id s n,
        with_prefix-id s h,
      )
      (or_locorum-id s h)

sanitise_username-id :
    (u : Unicode) (s : List ℕ)
    → IsUnicode u
    → is_username s ≡ true
    → length s ≤ 32
    → sanitise_username u s ≡ s
unfolding sanitise_username strip_combining
sanitise_username-id u s unicode h n =
    let a = trimmed-all_allowed false true s (username-is_trimmed s h) in
    let ascii = allowed-is_ascii s a in
    rw
      (
        unicode.nfkc_ascii s ascii,
        unicode.nfd_ascii s ascii,
        keep-no_mark u s unicode.mn_ascii ascii,
        clean-id s a,
      )
      (shorten-id s h n)

-- Where the normal forms and the combining marks are Unicode's on ASCII, sanitising a name once more
-- changes nothing.
sanitise_username_idem :
    (u : Unicode) (s : List ℕ)
    → IsUnicode u
    → sanitise_username u (sanitise_username u s) ≡ sanitise_username u s
sanitise_username_idem u s unicode =
    let (name, short) = sanitise_username-is_username u s in
    sanitise_username-id u (sanitise_username u s) unicode name short
