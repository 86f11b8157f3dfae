-- ===== src/Config/Coherence.antt =====
-- internal/config/config.go: the cache says what the store holds.
use locorum.Common.{
  ℕ, String, ◌≡◌, refl, sym, ap, ◌∙◌, Bool, true, false, Option, none, some, List, [], ◌∷◌, str_eq,
  eq_iff, if◌then◌else◌, Bool-cases, Option-cases, inl, inr, All,
}
use mathlib.Core.Path.{subst}
use locorum.Config.{
  Store, Cache, with_value, ConfigError, all_keys, reload_keys, reload, set, reload_failed,
}

-- What the settings rely on of the store: a value that was written is read back, another key keeps its
-- value, and a write that fails changes nothing.
pub record IsLawful {S : Type 0} (st : Store S) : Type 0 where
  pub written :
      (key : String) (value : List ℕ) (w : S) (k : String)
      → (st.set_setting key value w).0 ≡ true
      → st.get_setting k (st.set_setting key value w).1
        ≡ (if str_eq k key then some value else st.get_setting k w)
  pub not_written :
      (key : String) (value : List ℕ) (w : S) (k : String)
      → (st.set_setting key value w).0 ≡ false
      → st.get_setting k (st.set_setting key value w).1 ≡ st.get_setting k w

-- The cache and the store agree on a key.
abbrev pub Agrees : {S : Type 0} → Store S → String → Cache × S → Type 0
Agrees st k (cache, w) = st.get_setting k w ≡ some (cache k)

abbrev pub Coherent : {S : Type 0} → Store S → Cache × S → Type 0
Coherent st s = All (λ k. Agrees st k s) all_keys

-- The state that an operation leaves.
abbrev pub state_of : {S : Type 0} → Option ConfigError × Cache × S → Cache × S
state_of (err, cache, w) = (cache, w)

-- An operation keeps what the cache and the store agree on.
abbrev pub Keeps : {S : Type 0} → Store S → (Cache × S → Option ConfigError × Cache × S) → Type 0
Keeps {S} st op = (k : String) (s : Cache × S) → Agrees st k s → Agrees st k (state_of (op s))

All-map :
    {A : Type 0} {P Q : A → Type 0} (xs : List A) → ((x : A) → P x → Q x) → All P xs → All Q xs
All-map [] f h = tt
All-map (x ∷ xs) f h = (f x h.0, All-map xs f h.1)

pub Keeps-Coherent :
    {S : Type 0} (st : Store S) (op : Cache × S → Option ConfigError × Cache × S) (s : Cache × S)
    → Keeps st op
    → Coherent st s
    → Coherent st (state_of (op s))
Keeps-Coherent st op s keeps h = All-map all_keys (λ k. keeps k s) h

module _ {S : Type 0} (st : Store S) where
  pub set-Keeps : (key : String) (value : List ℕ) → IsLawful st → Keeps st (set st key value)
  unfolding set
  set-Keeps key value law k (cache, w) h = elim (Bool-cases (st.set_setting key value w).0) [
    | inl ok ↦ rw (ok, set) (law.written key value w k ok ∙ choose (str_eq k key))
    | inr failed ↦ rw (failed, set) (law.not_written key value w k failed ∙ h)
  ]
    where
      choose :
          (b : Bool)
          → (if b then some value else st.get_setting k w) ≡ some (if b then value else cache k)
      choose true = refl
      choose false = h

  reload_keys_found :
      (k : String) (keys : List String) (fresh : Cache) (w : S) (v : List ℕ)
      → st.get_setting k w ≡ some v
      → reload_keys st (k ∷ keys) fresh w ≡ reload_keys st keys (with_value fresh k v) w
  unfolding reload_keys
  reload_keys_found k keys fresh w v e = rw (e, reload_keys)

  reload_keys_failed :
      (k : String) (keys : List String) (fresh : Cache) (w : S)
      → st.get_setting k w ≡ none
      → (reload_keys st (k ∷ keys) fresh w).0 ≡ some (reload_failed k)
  unfolding reload_keys
  reload_keys_failed k keys fresh w e = rw (e, reload_keys) refl

  with_value-Agrees :
      (k key : String) (v : List ℕ) (fresh : Cache) (w : S)
      → st.get_setting key w ≡ some v
      → Agrees st k (fresh, w)
      → Agrees st k (with_value fresh key v, w)
  with_value-Agrees k key v fresh w e h = elim (Bool-cases (str_eq k key)) [
    | inl same ↦ rw (same) (ap (λ n. st.get_setting n w) ((eq_iff k key).0 same) ∙ e)
    | inr other ↦ rw (other) h
  ]

  not_some : {A : Type 0} {a : A} {o : Option A} → o ≡ some a → o ≡ none → ⊥
  not_some e h = cc

  reload_keys_stays :
      (keys : List String) (fresh : Cache) (w : S) (k : String)
      → (reload_keys st keys fresh w).0 ≡ none
      → Agrees st k (fresh, w)
      → Agrees st k ((reload_keys st keys fresh w).1, w)
  reload_keys_stays [] fresh w k h a = unfold reload_keys in a
  reload_keys_stays (key ∷ keys) fresh w k h a = elim (Option-cases (st.get_setting key w)) [
    | inl e ↦ absurd (not_some (reload_keys_failed key keys fresh w e) h)
    | inr (v, e) ↦
        let step = reload_keys_found key keys fresh w v e in
        reload_keys_stays keys (with_value fresh key v) w k (sym (ap (λ r. r.0) step) ∙ h)
          (with_value-Agrees k key v fresh w e a)
        ∙ ap (λ r. some (r.1 k)) (sym step)
  ]

  str_eq_refl : (k : String) → str_eq k k ≡ true
  str_eq_refl k = (eq_iff k k).1 refl

  reload_keys-Agrees :
      (keys : List String) (fresh : Cache) (w : S)
      → (reload_keys st keys fresh w).0 ≡ none
      → All (λ k. Agrees st k ((reload_keys st keys fresh w).1, w)) keys
  reload_keys-Agrees [] fresh w h = tt
  reload_keys-Agrees (key ∷ keys) fresh w h = elim (Option-cases (st.get_setting key w)) [
    | inl e ↦ absurd (not_some (reload_keys_failed key keys fresh w e) h)
    | inr (v, e) ↦
        let step = reload_keys_found key keys fresh w v e in
        let rest : (reload_keys st keys (with_value fresh key v) w).0 ≡ none =
          sym (ap (λ r. r.0) step) ∙ h in
        subst (λ r. All (λ k. Agrees st k (r.1, w)) (key ∷ keys)) (sym step)
          (
            reload_keys_stays keys (with_value fresh key v) w key rest (rw (str_eq_refl key) e),
            reload_keys-Agrees keys (with_value fresh key v) w rest,
          )
  ]

  reload_refused :
      (cache : Cache) (w : S) (err : ConfigError)
      → (reload_keys st all_keys (λ key. []) w).0 ≡ some err
      → (reload st cache w).0 ≡ some err
  unfolding reload
  reload_refused cache w err e = rw (e, reload) refl

  reload_accepted :
      (cache : Cache) (w : S)
      → (reload_keys st all_keys (λ key. []) w).0 ≡ none
      → (reload st cache w).1 ≡ (reload_keys st all_keys (λ key. []) w).1
  unfolding reload
  reload_accepted cache w e = rw (e, reload) refl

  reload_done :
      (cache : Cache) (w : S)
      → (reload st cache w).0 ≡ none
      → ((reload_keys st all_keys (λ key. []) w).0 ≡ none)
        × ((reload st cache w).1 ≡ (reload_keys st all_keys (λ key. []) w).1)
  reload_done cache w h = elim (Option-cases (reload_keys st all_keys (λ key. []) w).0) [
    | inl e ↦ (e, reload_accepted cache w e)
    | inr (err, e) ↦ absurd (not_some (reload_refused cache w err e) h)
  ]

  pub reload-Coherent :
      (cache : Cache) (w : S)
      → (reload st cache w).0 ≡ none
      → Coherent st ((reload st cache w).1, w)
  reload-Coherent cache w h =
      let (done, e) = reload_done cache w h in
      rw (e) (reload_keys-Agrees all_keys (λ key. []) w done)
