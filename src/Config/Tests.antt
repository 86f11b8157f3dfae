-- ===== src/Config/Tests.antt =====
-- Settings in memory, and instances of the theorems.
use locorum.Common.{
  ℕ, String, ◌≡◌, refl, Bool, true, false, Option, none, some, List, [], ◌∷◌, str_eq, if◌then◌else◌,
}
use locorum.Common.Text.{codes, equals, to_lower, trim_space}
use locorum.Common.Int.{pos}
use locorum.Config.{
  Store, Cache, with_value, reload, set, invalid_lan_domain, persist_failed, key_mkcert_path,
}
use locorum.Config.Typed.{parse_bool}
use locorum.Config.Setters.{set_lan_domain, set_mkcert_path}
use locorum.Config.Coherence.{IsLawful, Coherent}
use locorum.Config.Session.{
  Command, session, to_theme_mode, to_router_http_port, to_health_disk_blocker_gb, to_debug_logging,
  to_lan_ip_override, reload-session-Coherent,
}

-- A table of settings, which may be read only.
abbrev Table : Type 0
Table = Bool × Cache

abbrev write : String → List ℕ → Table → Bool × Table
write key value (true, t) = (true, (true, with_value t key value))
write key value (false, t) = (false, (false, t))

abbrev memory : Store Table
memory = record { get_setting = λ key w. some (w.1 key); set_setting = write }

memory-IsLawful : IsLawful memory
memory-IsLawful = record { written = written; not_written = not_written }
  where
    choose : (b : Bool) (x y : List ℕ) → some (if b then x else y) ≡ (if b then some x else some y)
    choose true x y = refl
    choose false x y = refl

    written :
        (key : String) (value : List ℕ) (w : Table) (k : String)
        → (write key value w).0 ≡ true
        → some ((write key value w).1.1 k) ≡ (if str_eq k key then some value else some (w.1 k))
    written key value (true, t) k h = choose (str_eq k key) value (t k)
    written key value (false, t) k h = absurd (differ h)
      where
        differ : false ≡ true → ⊥
        differ e = cc

    not_written :
        (key : String) (value : List ℕ) (w : Table) (k : String)
        → (write key value w).0 ≡ false
        → some ((write key value w).1.1 k) ≡ some (w.1 k)
    not_written key value (true, t) k h = absurd (differ h)
      where
        differ : true ≡ false → ⊥
        differ e = cc
    not_written key value (false, t) k h = refl

abbrev blank : Cache
blank key = []

abbrev start : Table
start = (true, blank)

yes_is_true : parse_bool (codes " YES ") false ≡ true
unfolding parse_bool equals to_lower trim_space
yes_is_true = refl

no_host :
    (set_lan_domain memory (codes "http://x") (blank, start)).0
    ≡ some (invalid_lan_domain (codes "http://x"))
unfolding set_lan_domain trim_space
no_host = refl

not_persisted :
    (set_mkcert_path memory (codes "/m") (blank, (false, blank))).0
    ≡ some (persist_failed key_mkcert_path)
unfolding set_mkcert_path set
not_persisted = refl

-- Only the loopback address is one.
abbrev as_written : List ℕ → Option (List ℕ)
as_written v = if equals v (codes "127.0.0.1") then some v else none

abbrev commands : List Command
commands =
    to_router_http_port (pos 8080)
    ∷ to_theme_mode (codes "pink")
    ∷ to_health_disk_blocker_gb (pos 3)
    ∷ to_debug_logging true
    ∷ to_lan_ip_override (codes "127.0.0.1")
    ∷ to_lan_ip_override (codes "localhost")
    ∷ []

reload-session-Coherent_example :
    Coherent memory (session memory as_written commands ((reload memory blank start).1, start))
reload-session-Coherent_example =
    reload-session-Coherent memory as_written blank start commands memory-IsLawful
      (unfold reload in refl)
