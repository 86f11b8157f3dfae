-- ===== src/Config/Session.antt =====
-- internal/config/config.go: a session of the settings: a reload, then setters in any order.
use locorum.Common.{
  ℕ, String, ◌≡◌, Bool, Option, none, List, [], ◌∷◌, Bool-cases, Option-cases, inl, inr,
}
use locorum.Common.Text.{trim_space}
use locorum.Common.Int.{ℤ}
use locorum.Config.{
  Store, Cache, ConfigError, reload, cadence_not_positive, db_version_empty,
  disk_cadence_not_positive, invalid_db_engine, invalid_performance_mode, invalid_theme_mode,
  invalid_update_channel, invalid_web_server, key_default_db_engine, key_default_db_version,
  key_default_php_version, key_default_redis_version, key_default_web_server,
  key_health_cadence_minutes, key_health_disk_cadence_minutes, key_health_disk_warn_gb,
  key_performance_mode, key_router_http_port, key_router_https_port, key_theme_mode,
  key_update_check_channel, php_version_empty, redis_version_empty, warn_not_positive,
}
use locorum.Config.Typed.{
  allowed_db_engines, allowed_performance, allowed_theme_modes, allowed_update_channels,
  allowed_web_servers, valid_enum, health_disk_warn_gb,
}
use locorum.Config.Setters.{
  valid_port, is_positive, itoa_int, reaches, is_domain, set_enum, set_nonempty, set_port,
  set_positive, set_theme_mode, set_php_version_default, set_db_engine_default,
  set_db_version_default, set_redis_version_default, set_web_server_default,
  set_update_check_channel, set_performance_mode, set_auto_snapshot_before_destructive,
  set_publish_db_port_default, set_update_check_enabled, set_health_enabled, set_debug_logging,
  set_lan_default, set_mkcert_path, set_update_dismissed_version, set_update_last_available,
  set_health_last_seen, set_router_http_port, set_router_https_port, set_health_cadence_minutes,
  set_health_disk_cadence_minutes, set_health_disk_warn_gb, set_health_disk_blocker_gb,
  set_lan_domain, set_lan_ip_override, trimmed_or_ipv4,
}
use locorum.Config.Coherence.{
  IsLawful, Coherent, state_of, Keeps, Keeps-Coherent, set-Keeps, reload-Coherent,
}

-- A call of a setter.
pub data Command : Type 0 where
  to_theme_mode to_php_version_default to_db_engine_default to_db_version_default
        to_redis_version_default to_web_server_default to_update_check_channel to_performance_mode
        to_mkcert_path to_update_dismissed_version to_update_last_available to_health_last_seen
        to_lan_domain to_lan_ip_override :
      List ℕ → Command
  to_auto_snapshot_before_destructive to_publish_db_port_default to_update_check_enabled
        to_health_enabled to_debug_logging to_lan_default :
      Bool → Command
  to_router_http_port to_router_https_port to_health_cadence_minutes to_health_disk_cadence_minutes
        to_health_disk_warn_gb to_health_disk_blocker_gb :
      ℤ → Command

module _ {S : Type 0} (st : Store S) (parse_ipv4 : List ℕ → Option (List ℕ)) where
  abbrev pub execute : Command → Cache × S → Option ConfigError × Cache × S
  execute (to_theme_mode v) s = set_theme_mode st v s
  execute (to_php_version_default v) s = set_php_version_default st v s
  execute (to_db_engine_default v) s = set_db_engine_default st v s
  execute (to_db_version_default v) s = set_db_version_default st v s
  execute (to_redis_version_default v) s = set_redis_version_default st v s
  execute (to_web_server_default v) s = set_web_server_default st v s
  execute (to_update_check_channel v) s = set_update_check_channel st v s
  execute (to_performance_mode v) s = set_performance_mode st v s
  execute (to_auto_snapshot_before_destructive v) s = set_auto_snapshot_before_destructive st v s
  execute (to_publish_db_port_default v) s = set_publish_db_port_default st v s
  execute (to_update_check_enabled v) s = set_update_check_enabled st v s
  execute (to_health_enabled v) s = set_health_enabled st v s
  execute (to_debug_logging v) s = set_debug_logging st v s
  execute (to_lan_default v) s = set_lan_default st v s
  execute (to_mkcert_path v) s = set_mkcert_path st v s
  execute (to_update_dismissed_version v) s = set_update_dismissed_version st v s
  execute (to_update_last_available v) s = set_update_last_available st v s
  execute (to_health_last_seen v) s = set_health_last_seen st v s
  execute (to_router_http_port v) s = set_router_http_port st v s
  execute (to_router_https_port v) s = set_router_https_port st v s
  execute (to_health_cadence_minutes v) s = set_health_cadence_minutes st v s
  execute (to_health_disk_cadence_minutes v) s = set_health_disk_cadence_minutes st v s
  execute (to_health_disk_warn_gb v) s = set_health_disk_warn_gb st v s
  execute (to_health_disk_blocker_gb v) s = set_health_disk_blocker_gb st v s
  execute (to_lan_domain v) s = set_lan_domain st v s
  execute (to_lan_ip_override v) s = set_lan_ip_override st parse_ipv4 v s

  abbrev pub session : List Command → Cache × S → Cache × S
  session [] s = s
  session (c ∷ commands) s = session commands (state_of (execute c s))

module _ {S : Type 0} (st : Store S) (law : IsLawful st) where
  set_enum-Keeps :
      (invalid : List ℕ → ConfigError) (allowed : List (List ℕ)) (key : String) (v : List ℕ)
      → Keeps st (set_enum st invalid allowed key v)
  unfolding set_enum
  set_enum-Keeps invalid allowed key v k s h = elim (Bool-cases (valid_enum v allowed)) [
    | inl ok ↦ rw (ok, set_enum) (set-Keeps st key v law k s h)
    | inr bad ↦ rw (bad, set_enum) h
  ]

  set_nonempty-Keeps :
      (err : ConfigError) (key : String) (v : List ℕ) → Keeps st (set_nonempty st err key v)
  unfolding set_nonempty
  set_nonempty-Keeps err key [] k s h = h
  set_nonempty-Keeps err key (c ∷ v) k s h = set-Keeps st key (c ∷ v) law k s h

  set_port-Keeps : (key : String) (port : ℤ) → Keeps st (set_port st key port)
  unfolding set_port
  set_port-Keeps key port k s h = elim (Bool-cases (valid_port port)) [
    | inl ok ↦ rw (ok, set_port) (set-Keeps st key (itoa_int port) law k s h)
    | inr bad ↦ rw (bad, set_port) h
  ]

  set_positive-Keeps :
      (err : ℤ → ConfigError) (key : String) (v : ℤ) → Keeps st (set_positive st err key v)
  unfolding set_positive
  set_positive-Keeps err key v k s h = elim (Bool-cases (is_positive v)) [
    | inl ok ↦ rw (ok, set_positive) (set-Keeps st key (itoa_int v) law k s h)
    | inr bad ↦ rw (bad, set_positive) h
  ]

  set_lan_domain-Keeps : (v : List ℕ) → Keeps st (set_lan_domain st v)
  unfolding set_lan_domain
  set_lan_domain-Keeps v k s h = elim (Bool-cases (is_domain (trim_space v))) [
    | inl ok ↦ rw (ok, set_lan_domain) (set-Keeps st _ (trim_space v) law k s h)
    | inr bad ↦ rw (bad, set_lan_domain) h
  ]

  set_blocker-Keeps : (v : ℤ) → Keeps st (set_health_disk_blocker_gb st v)
  unfolding set_health_disk_blocker_gb
  set_blocker-Keeps v k (cache, w) h = elim (Bool-cases (is_positive v)) [
    | inr bad ↦ rw (bad, set_health_disk_blocker_gb) h
    | inl ok ↦ elim (Bool-cases (reaches v (health_disk_warn_gb cache))) [
      | inl above ↦ rw (ok, above, set_health_disk_blocker_gb) h
      | inr below ↦
          rw (ok, below, set_health_disk_blocker_gb)
            (set-Keeps st _ (itoa_int v) law k (cache, w) h)
    ]
  ]

  set_lan_ip_override-Keeps :
      (parse_ipv4 : List ℕ → Option (List ℕ)) (v : List ℕ)
      → Keeps st (set_lan_ip_override st parse_ipv4 v)
  unfolding set_lan_ip_override
  set_lan_ip_override-Keeps parse_ipv4 v k s h =
      elim (Option-cases (trimmed_or_ipv4 st parse_ipv4 (trim_space v))) [
        | inl bad ↦ rw (bad, set_lan_ip_override) h
        | inr (written, ok) ↦ rw (ok, set_lan_ip_override) (set-Keeps st _ written law k s h)
      ]

  execute-Keeps :
      (parse_ipv4 : List ℕ → Option (List ℕ)) (c : Command) → Keeps st (execute st parse_ipv4 c)
  unfolding set_theme_mode set_php_version_default set_db_engine_default set_db_version_default
      set_redis_version_default set_web_server_default set_update_check_channel set_performance_mode
      set_auto_snapshot_before_destructive set_publish_db_port_default set_update_check_enabled
      set_health_enabled set_debug_logging set_lan_default set_mkcert_path
      set_update_dismissed_version set_update_last_available set_health_last_seen
      set_router_http_port set_router_https_port set_health_cadence_minutes
      set_health_disk_cadence_minutes set_health_disk_warn_gb
  execute-Keeps parse_ipv4 (to_theme_mode v) k s h =
      set_enum-Keeps invalid_theme_mode allowed_theme_modes key_theme_mode v k s h
  execute-Keeps parse_ipv4 (to_php_version_default v) k s h =
      set_nonempty-Keeps php_version_empty key_default_php_version v k s h
  execute-Keeps parse_ipv4 (to_db_engine_default v) k s h =
      set_enum-Keeps invalid_db_engine allowed_db_engines key_default_db_engine v k s h
  execute-Keeps parse_ipv4 (to_db_version_default v) k s h =
      set_nonempty-Keeps db_version_empty key_default_db_version v k s h
  execute-Keeps parse_ipv4 (to_redis_version_default v) k s h =
      set_nonempty-Keeps redis_version_empty key_default_redis_version v k s h
  execute-Keeps parse_ipv4 (to_web_server_default v) k s h =
      set_enum-Keeps invalid_web_server allowed_web_servers key_default_web_server v k s h
  execute-Keeps parse_ipv4 (to_update_check_channel v) k s h =
      set_enum-Keeps invalid_update_channel allowed_update_channels key_update_check_channel v k s h
  execute-Keeps parse_ipv4 (to_performance_mode v) k s h =
      set_enum-Keeps invalid_performance_mode allowed_performance key_performance_mode v k s h
  execute-Keeps parse_ipv4 (to_auto_snapshot_before_destructive v) k s h =
      set-Keeps st _ _ law k s h
  execute-Keeps parse_ipv4 (to_publish_db_port_default v) k s h = set-Keeps st _ _ law k s h
  execute-Keeps parse_ipv4 (to_update_check_enabled v) k s h = set-Keeps st _ _ law k s h
  execute-Keeps parse_ipv4 (to_health_enabled v) k s h = set-Keeps st _ _ law k s h
  execute-Keeps parse_ipv4 (to_debug_logging v) k s h = set-Keeps st _ _ law k s h
  execute-Keeps parse_ipv4 (to_lan_default v) k s h = set-Keeps st _ _ law k s h
  execute-Keeps parse_ipv4 (to_mkcert_path v) k s h = set-Keeps st _ _ law k s h
  execute-Keeps parse_ipv4 (to_update_dismissed_version v) k s h = set-Keeps st _ _ law k s h
  execute-Keeps parse_ipv4 (to_update_last_available v) k s h = set-Keeps st _ _ law k s h
  execute-Keeps parse_ipv4 (to_health_last_seen v) k s h = set-Keeps st _ _ law k s h
  execute-Keeps parse_ipv4 (to_router_http_port v) k s h =
      set_port-Keeps key_router_http_port v k s h
  execute-Keeps parse_ipv4 (to_router_https_port v) k s h =
      set_port-Keeps key_router_https_port v k s h
  execute-Keeps parse_ipv4 (to_health_cadence_minutes v) k s h =
      set_positive-Keeps cadence_not_positive key_health_cadence_minutes v k s h
  execute-Keeps parse_ipv4 (to_health_disk_cadence_minutes v) k s h =
      set_positive-Keeps disk_cadence_not_positive key_health_disk_cadence_minutes v k s h
  execute-Keeps parse_ipv4 (to_health_disk_warn_gb v) k s h =
      set_positive-Keeps warn_not_positive key_health_disk_warn_gb v k s h
  execute-Keeps parse_ipv4 (to_health_disk_blocker_gb v) k s h = set_blocker-Keeps v k s h
  execute-Keeps parse_ipv4 (to_lan_domain v) k s h = set_lan_domain-Keeps v k s h
  execute-Keeps parse_ipv4 (to_lan_ip_override v) k s h =
      set_lan_ip_override-Keeps parse_ipv4 v k s h

  session-Coherent :
      (parse_ipv4 : List ℕ → Option (List ℕ)) (commands : List Command) (s : Cache × S)
      → Coherent st s
      → Coherent st (session st parse_ipv4 commands s)
  session-Coherent parse_ipv4 [] s h = h
  session-Coherent parse_ipv4 (c ∷ commands) s h =
      session-Coherent parse_ipv4 commands (state_of (execute st parse_ipv4 c s))
        (Keeps-Coherent st (execute st parse_ipv4 c) s (execute-Keeps parse_ipv4 c) h)

-- After a reload without an error and any calls of the setters, each of which ends before the next one begins,
-- whether they are refused, fail in the store or succeed, the cache has for every well-known key the value
-- that the store has. Setters that run at the same time are not covered.
pub reload-session-Coherent :
    {S : Type 0} (st : Store S) (parse_ipv4 : List ℕ → Option (List ℕ)) (cache : Cache) (w : S)
    (commands : List Command)
    → IsLawful st
    → (reload st cache w).0 ≡ none
    → Coherent st (session st parse_ipv4 commands ((reload st cache w).1, w))
reload-session-Coherent st parse_ipv4 cache w commands law done =
    session-Coherent st law parse_ipv4 commands ((reload st cache w).1, w)
      (reload-Coherent st cache w done)
