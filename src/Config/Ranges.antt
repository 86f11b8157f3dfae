-- ===== src/Config/Ranges.antt =====
-- internal/config/config.go: numbers that are set are read back, and the thresholds of the disk check.
use locorum.Common.{
  ℕ, String, ◌≡◌, refl, sym, ap, ◌∙◌, ◌≤◌, ◌<◌, Bool, true, false, Option, none, some, List, [],
  ◌∷◌, Bool-cases, inl, inr, arith,
}
use Prim.Native.Nat.{◌^◌}
use mathlib.Core.Path.{subst}
use locorum.Common.Int.{ℤ, pos, negsuc}
use locorum.Common.Decimal.{itoa, atoi, atoi-itoa}
use locorum.Config.{
  Store, Cache, with_value, set, key_router_http_port, key_health_disk_warn_gb,
  key_health_disk_blocker_gb, persist_failed, blocker_not_positive, blocker_not_below_warn,
  port_out_of_range,
}
use locorum.Config.Typed.{
  parse_int, natural_or, router_http_port, health_disk_warn_gb, health_disk_blocker_gb,
}
use locorum.Config.Setters.{
  set_port, set_positive, valid_port, is_positive, reaches, itoa_int, set_router_http_port,
  set_health_disk_warn_gb, set_health_disk_blocker_gb,
}

some_not_none : {A : Type 0} {a : A} {o : Option A} → o ≡ some a → o ≡ none → ⊥
some_not_none e h = cc

false_not_true : {b : Bool} → b ≡ false → b ≡ true → ⊥
false_not_true e h = cc

parse_int-atoi : (s : List ℕ) (n def : ℕ) → atoi s ≡ some (pos n) → parse_int s def ≡ n
unfolding parse_int
parse_int-atoi [] n def h = absurd (some_not_none h (unfold atoi in refl))
parse_int-atoi (c ∷ s) n def h = ap (natural_or def) h

pub parse_int-itoa : (n def : ℕ) → n < 2 ^ 63 → parse_int (itoa n) def ≡ n
parse_int-itoa n def h = parse_int-atoi (itoa n) n def (atoi-itoa n h)

module _ {S : Type 0} (st : Store S) (cache : Cache) (w : S) where
  set_failed :
      (key : String) (value : List ℕ)
      → (st.set_setting key value w).0 ≡ false
      → (set st key value (cache, w)).0 ≡ some (persist_failed key)
  unfolding set
  set_failed key value failed = rw (failed, set) refl

  -- A value that was set without an error is in the cache, and no other value has changed.
  set_done :
      (key : String) (value : List ℕ)
      → (set st key value (cache, w)).0 ≡ none
      → (set st key value (cache, w)).1 ≡ with_value cache key value
  unfolding set
  set_done key value h = elim (Bool-cases (st.set_setting key value w).0) [
    | inl ok ↦ rw (ok, set) refl
    | inr failed ↦ absurd (some_not_none (set_failed key value failed) h)
  ]

  set_ok :
      (key : String) (value : List ℕ)
      → (st.set_setting key value w).0 ≡ true
      → (set st key value (cache, w)).0 ≡ none
  unfolding set
  set_ok key value ok = rw (ok, set) refl

  set_port_valid :
      (key : String) (port : ℤ)
      → valid_port port ≡ true
      → set_port st key port (cache, w) ≡ set st key (itoa_int port) (cache, w)
  unfolding set_port
  set_port_valid key port ok = rw (ok, set_port) refl

  set_port_refused :
      (key : String) (port : ℤ)
      → valid_port port ≡ false
      → (set_port st key port (cache, w)).0 ≡ some (port_out_of_range port)
  unfolding set_port
  set_port_refused key port bad = rw (bad, set_port) refl

  set_port_done :
      (key : String) (port : ℤ)
      → (set_port st key port (cache, w)).0 ≡ none
      → (valid_port port ≡ true)
        × ((set_port st key port (cache, w)).1 ≡ with_value cache key (itoa_int port))
  set_port_done key port h = elim (Bool-cases (valid_port port)) [
    | inl ok ↦
        let e = set_port_valid key port ok in
        (ok, ap (λ r. r.1) e ∙ set_done key (itoa_int port) (sym (ap (λ r. r.0) e) ∙ h))
    | inr bad ↦ absurd (some_not_none (set_port_refused key port bad) h)
  ]

-- If the HTTP port of the router is set without an error, it was between 1 and 65535, and the accessor
-- returns it.
set_router_http_port-router_http_port :
    {S : Type 0} (st : Store S) (cache : Cache) (w : S) (port : ℤ)
    → (set_router_http_port st port (cache, w)).0 ≡ none
    → (n : ℕ) × (port ≡ pos n)
      × (0 < n)
      × (n ≤ 65535)
      × (router_http_port (set_router_http_port st port (cache, w)).1 ≡ n)
unfolding set_router_http_port router_http_port
set_router_http_port-router_http_port st cache w (negsuc n) h =
    absurd (false_not_true refl (set_port_done st cache w key_router_http_port (negsuc n) h).0)
set_router_http_port-router_http_port st cache w (pos n) h =
    let (ok, e) = set_port_done st cache w key_router_http_port (pos n) h in
    let high : n ≤ 65535 = ground arith in
    (
      n,
      refl,
      ground arith,
      high,
      ap (λ (c : Cache). parse_int (c key_router_http_port) 80) e
          ∙ parse_int-itoa n 80 (omega (arith, high)),
    )

module _ {S : Type 0} (st : Store S) (cache : Cache) (w : S) (v : ℤ) where
  blocker_set :
      is_positive v ≡ true
      → reaches v (health_disk_warn_gb cache) ≡ false
      → set_health_disk_blocker_gb st v (cache, w)
        ≡ set st key_health_disk_blocker_gb (itoa_int v) (cache, w)
  unfolding set_health_disk_blocker_gb
  blocker_set ok below = rw (ok, below, set_health_disk_blocker_gb) refl

  blocker_not_positive_refused :
      is_positive v ≡ false
      → (set_health_disk_blocker_gb st v (cache, w)).0 ≡ some (blocker_not_positive v)
  unfolding set_health_disk_blocker_gb
  blocker_not_positive_refused bad = rw (bad, set_health_disk_blocker_gb) refl

  blocker_too_high_refused :
      is_positive v ≡ true
      → reaches v (health_disk_warn_gb cache) ≡ true
      → (set_health_disk_blocker_gb st v (cache, w)).0
        ≡ some (blocker_not_below_warn v (pos (health_disk_warn_gb cache)))
  unfolding set_health_disk_blocker_gb
  blocker_too_high_refused ok above = rw (ok, above, set_health_disk_blocker_gb) refl

  blocker_accepted :
      (set_health_disk_blocker_gb st v (cache, w)).0 ≡ none
      → (is_positive v ≡ true) × (reaches v (health_disk_warn_gb cache) ≡ false)
  blocker_accepted h = elim (Bool-cases (is_positive v)) [
    | inr bad ↦ absurd (some_not_none (blocker_not_positive_refused bad) h)
    | inl ok ↦ elim (Bool-cases (reaches v (health_disk_warn_gb cache))) [
      | inl above ↦ absurd (some_not_none (blocker_too_high_refused ok above) h)
      | inr below ↦ (ok, below)
    ]
  ]

  blocker_done :
      (set_health_disk_blocker_gb st v (cache, w)).0 ≡ none
      → (set_health_disk_blocker_gb st v (cache, w)).1
        ≡ with_value cache key_health_disk_blocker_gb (itoa_int v)
  blocker_done h =
      let (ok, below) = blocker_accepted h in
      let e = blocker_set ok below in
      ap (λ r. r.1) e
      ∙ set_done st cache w key_health_disk_blocker_gb (itoa_int v) (sym (ap (λ r. r.0) e) ∙ h)

  warn_set :
      is_positive v ≡ true
      → (st.set_setting key_health_disk_warn_gb (itoa_int v) w).0 ≡ true
      → ((set_health_disk_warn_gb st v (cache, w)).0 ≡ none)
        × ((set_health_disk_warn_gb st v (cache, w)).1
            ≡ with_value cache key_health_disk_warn_gb (itoa_int v))
  unfolding set_health_disk_warn_gb set_positive
  warn_set ok written =
      let done = set_ok st cache w key_health_disk_warn_gb (itoa_int v) written in
      (rw (ok) done, rw (ok) (set_done st cache w key_health_disk_warn_gb (itoa_int v) done))

-- If the blocker threshold of the disk check is set to an int without an error, the accessors afterwards
-- return the number that was set, which is positive, for the blocker threshold, and for the warn threshold
-- what they did before, which is greater.
set_health_disk_blocker_gb-health_disk_warn_gb :
    {S : Type 0} (st : Store S) (cache : Cache) (w : S) (n : ℕ)
    → n < 2 ^ 63
    → (set_health_disk_blocker_gb st (pos n) (cache, w)).0 ≡ none
    → let after = (set_health_disk_blocker_gb st (pos n) (cache, w)).1 in
      (0 < n)
      × (health_disk_blocker_gb after ≡ n)
      × (health_disk_warn_gb after ≡ health_disk_warn_gb cache)
      × (n < health_disk_warn_gb cache)
set_health_disk_blocker_gb-health_disk_warn_gb st cache w n small h =
    let (ok, below) = blocker_accepted st cache w (pos n) h in
    let e = blocker_done st cache w (pos n) h in
    (
      ground arith,
      rw (e) (unfold health_disk_blocker_gb in parse_int-itoa n 1 small),
      rw (e) (unfold health_disk_warn_gb in refl),
      ground arith,
    )

-- A warn threshold that is positive and not above the blocker threshold is accepted, if the store writes
-- it; the accessors then return a blocker threshold that is not below the warn threshold.
set_health_disk_warn_gb-health_disk_blocker_gb :
    {S : Type 0} (st : Store S) (cache : Cache) (w : S) (n : ℕ)
    → n < 2 ^ 63
    → 0 < n
    → n ≤ health_disk_blocker_gb cache
    → (st.set_setting key_health_disk_warn_gb (itoa n) w).0 ≡ true
    → ((set_health_disk_warn_gb st (pos n) (cache, w)).0 ≡ none)
      × (let after = (set_health_disk_warn_gb st (pos n) (cache, w)).1 in
          health_disk_warn_gb after ≤ health_disk_blocker_gb after)
set_health_disk_warn_gb-health_disk_blocker_gb st cache w n small positive low written =
    let (done, e) = warn_set st cache w (pos n) (ground arith) written in
    (
      done,
      rw (e) (
          unfold health_disk_warn_gb health_disk_blocker_gb in
          subst (λ m. m ≤ parse_int (cache key_health_disk_blocker_gb) 1)
            (sym (parse_int-itoa n 5 small)) low),
    )
