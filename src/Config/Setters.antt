-- ===== src/Config/Setters.antt =====
-- internal/config/config.go: the typed setters. The state is the cache and the store's.
use locorum.Common.{
  ℕ, suc, String, Bool, true, false, ◌&&◌, ◌||◌, not, Option, none, some, List, [], ◌∷◌, ltb, leb,
  ◌==◌, if◌then◌else◌,
}
use locorum.Common.Text.{is_lower, is_upper, is_digit, trim_space}
use locorum.Common.Int.{ℤ, pos, negsuc}
use locorum.Common.Decimal.{itoa}
use locorum.Config.{
  key_theme_mode, key_default_php_version, key_default_db_engine, key_default_db_version,
  key_default_redis_version, key_default_web_server, key_default_publish_db_port,
  key_router_http_port, key_router_https_port, key_mkcert_path, key_performance_mode,
  key_update_check_enabled, key_update_check_channel, key_health_enabled,
  key_health_cadence_minutes, key_health_disk_cadence_minutes, key_health_disk_warn_gb,
  key_health_disk_blocker_gb, key_health_last_seen, key_auto_snapshot, key_debug_logging,
  key_update_dismissed_version, key_update_last_available, key_lan_default, key_lan_domain,
  key_lan_ip_override, Store, Cache, ConfigError, set, invalid_theme_mode, invalid_db_engine,
  invalid_web_server, invalid_update_channel, invalid_performance_mode, invalid_lan_domain,
  invalid_ipv4, php_version_empty, db_version_empty, redis_version_empty, port_out_of_range,
  cadence_not_positive, disk_cadence_not_positive, warn_not_positive, blocker_not_positive,
  blocker_not_below_warn,
}
use locorum.Config.Typed.{
  allowed_db_engines, allowed_web_servers, allowed_theme_modes, allowed_performance,
  allowed_update_channels, valid_enum, format_bool, health_disk_warn_gb,
}

-- validatePort
abbrev pub valid_port : ℤ → Bool
valid_port (negsuc n) = false
valid_port (pos n) = ltb 0 n && leb n 65535

abbrev pub is_positive : ℤ → Bool
is_positive (negsuc n) = false
is_positive (pos n) = ltb 0 n

-- strconv.Itoa
abbrev pub itoa_int : ℤ → List ℕ
itoa_int (pos n) = itoa n
itoa_int (negsuc n) = b'-' ∷ itoa (suc n)

-- A comparison with a number that is not negative.
abbrev pub reaches : ℤ → ℕ → Bool
reaches (negsuc n) limit = false
reaches (pos n) limit = leb limit n

-- The letters, digits, dots and dashes of a domain.
abbrev pub is_domain : List ℕ → Bool
is_domain [] = true
is_domain (r ∷ v) =
    (is_lower r || is_upper r || is_digit r || r == b'.' || r == b'-') && is_domain v

module _ {S : Type 0} (st : Store S) where
  -- An operation on the cache and the store.
  abbrev pub Operation : Type 0
  Operation = Cache × S → Option ConfigError × Cache × S

  abbrev refuse : ConfigError → Operation
  refuse err (cache, w) = (some err, cache, w)

  unfoldable pub set_enum : (List ℕ → ConfigError) → List (List ℕ) → String → List ℕ → Operation
  unfolding valid_enum set
  set_enum invalid allowed key v s =
      if valid_enum v allowed then set st key v s else refuse (invalid v) s

  unfoldable pub set_nonempty : ConfigError → String → List ℕ → Operation
  unfolding set
  set_nonempty err key [] s = refuse err s
  set_nonempty err key (c ∷ v) s = set st key (c ∷ v) s

  unfoldable pub set_port : String → ℤ → Operation
  unfolding set
  set_port key port s =
      if valid_port port then set st key (itoa_int port) s else refuse (port_out_of_range port) s

  unfoldable pub set_positive : (ℤ → ConfigError) → String → ℤ → Operation
  unfolding set
  set_positive err key v s = if is_positive v then set st key (itoa_int v) s else refuse (err v) s

  unfoldable pub set_theme_mode : List ℕ → Operation
  unfolding set_enum
  set_theme_mode v = set_enum invalid_theme_mode allowed_theme_modes key_theme_mode v

  unfoldable pub set_php_version_default : List ℕ → Operation
  unfolding set_nonempty
  set_php_version_default v = set_nonempty php_version_empty key_default_php_version v

  unfoldable pub set_db_engine_default : List ℕ → Operation
  unfolding set_enum
  set_db_engine_default v = set_enum invalid_db_engine allowed_db_engines key_default_db_engine v

  unfoldable pub set_db_version_default : List ℕ → Operation
  unfolding set_nonempty
  set_db_version_default v = set_nonempty db_version_empty key_default_db_version v

  unfoldable pub set_redis_version_default : List ℕ → Operation
  unfolding set_nonempty
  set_redis_version_default v = set_nonempty redis_version_empty key_default_redis_version v

  unfoldable pub set_web_server_default : List ℕ → Operation
  unfolding set_enum
  set_web_server_default v =
      set_enum invalid_web_server allowed_web_servers key_default_web_server v

  unfoldable pub set_update_check_channel : List ℕ → Operation
  unfolding set_enum
  set_update_check_channel v =
      set_enum invalid_update_channel allowed_update_channels key_update_check_channel v

  unfoldable pub set_performance_mode : List ℕ → Operation
  unfolding set_enum
  set_performance_mode v =
      set_enum invalid_performance_mode allowed_performance key_performance_mode v

  unfoldable pub set_auto_snapshot_before_destructive : Bool → Operation
  unfolding set
  set_auto_snapshot_before_destructive on = set st key_auto_snapshot (format_bool on)

  unfoldable pub set_publish_db_port_default : Bool → Operation
  unfolding set
  set_publish_db_port_default v = set st key_default_publish_db_port (format_bool v)

  unfoldable pub set_update_check_enabled : Bool → Operation
  unfolding set
  set_update_check_enabled v = set st key_update_check_enabled (format_bool v)

  unfoldable pub set_health_enabled : Bool → Operation
  unfolding set
  set_health_enabled v = set st key_health_enabled (format_bool v)

  unfoldable pub set_debug_logging : Bool → Operation
  unfolding set
  set_debug_logging v = set st key_debug_logging (format_bool v)

  unfoldable pub set_lan_default : Bool → Operation
  unfolding set
  set_lan_default v = set st key_lan_default (format_bool v)

  unfoldable pub set_mkcert_path : List ℕ → Operation
  unfolding set
  set_mkcert_path v = set st key_mkcert_path v

  unfoldable pub set_update_dismissed_version : List ℕ → Operation
  unfolding set
  set_update_dismissed_version v = set st key_update_dismissed_version v

  unfoldable pub set_update_last_available : List ℕ → Operation
  unfolding set
  set_update_last_available v = set st key_update_last_available v

  unfoldable pub set_health_last_seen : List ℕ → Operation
  unfolding set
  set_health_last_seen v = set st key_health_last_seen v

  unfoldable pub set_router_http_port : ℤ → Operation
  unfolding set_port
  set_router_http_port port = set_port key_router_http_port port

  unfoldable pub set_router_https_port : ℤ → Operation
  unfolding set_port
  set_router_https_port port = set_port key_router_https_port port

  unfoldable pub set_health_cadence_minutes : ℤ → Operation
  unfolding set_positive
  set_health_cadence_minutes v = set_positive cadence_not_positive key_health_cadence_minutes v

  unfoldable pub set_health_disk_cadence_minutes : ℤ → Operation
  unfolding set_positive
  set_health_disk_cadence_minutes v =
      set_positive disk_cadence_not_positive key_health_disk_cadence_minutes v

  unfoldable pub set_health_disk_warn_gb : ℤ → Operation
  unfolding set_positive
  set_health_disk_warn_gb v = set_positive warn_not_positive key_health_disk_warn_gb v

  unfoldable pub set_health_disk_blocker_gb : ℤ → Operation
  unfolding set health_disk_warn_gb
  set_health_disk_blocker_gb v (cache, w) =
      let warn = health_disk_warn_gb cache in
      if not (is_positive v)
      then refuse (blocker_not_positive v) (cache, w)
      else if reaches v warn
      then refuse (blocker_not_below_warn v (pos warn)) (cache, w)
      else set st key_health_disk_blocker_gb (itoa_int v) (cache, w)

  unfoldable pub set_lan_domain : List ℕ → Operation
  unfolding set
  set_lan_domain v s =
      let trimmed = trim_space v in
      if is_domain trimmed
      then set st key_lan_domain trimmed s
      else refuse (invalid_lan_domain trimmed) s

  abbrev pub trimmed_or_ipv4 : (List ℕ → Option (List ℕ)) → List ℕ → Option (List ℕ)
  trimmed_or_ipv4 parse_ipv4 [] = some []
  trimmed_or_ipv4 parse_ipv4 (c ∷ v) = parse_ipv4 (c ∷ v)

  -- `parse_ipv4` is net.ParseIP, To4 and String: an IPv4 address as it is written.
  unfoldable pub set_lan_ip_override : (List ℕ → Option (List ℕ)) → List ℕ → Operation
  unfolding set
  set_lan_ip_override parse_ipv4 v s =
      let trimmed = trim_space v in
      elim (trimmed_or_ipv4 parse_ipv4 trimmed) [
        | none ↦ refuse (invalid_ipv4 trimmed) s
        | some written ↦ set st key_lan_ip_override written s
      ]
