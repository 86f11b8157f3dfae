-- ===== src/Config/Typed.antt =====
-- internal/config/config.go: the typed accessors and setters.
use locorum.Common.{ℕ, Bool, true, false, ◌||◌, Option, none, some, List, [], ◌∷◌, if◌then◌else◌}
use locorum.Common.Text.{codes, equals, to_lower, trim_space}
use locorum.Common.Int.{ℤ, pos, negsuc}
use locorum.Common.Decimal.{atoi}
use locorum.Config.{
  key_theme_mode, key_default_php_version, key_default_db_engine, key_default_db_version,
  key_default_redis_version, key_default_web_server, key_default_publish_db_port,
  key_router_http_port, key_router_https_port, key_mkcert_path, key_performance_mode,
  key_update_check_enabled, key_update_check_channel, key_health_enabled,
  key_health_cadence_minutes, key_health_disk_cadence_minutes, key_health_disk_warn_gb,
  key_health_disk_blocker_gb, key_health_last_seen, key_auto_snapshot, key_debug_logging,
  key_update_dismissed_version, key_update_last_available, key_lan_default, key_lan_domain, Cache,
}

abbrev pub allowed_db_engines : List (List ℕ)
allowed_db_engines = codes "mysql" ∷ codes "mariadb" ∷ []

abbrev pub allowed_web_servers : List (List ℕ)
allowed_web_servers = codes "nginx" ∷ codes "apache" ∷ []

abbrev pub allowed_theme_modes : List (List ℕ)
allowed_theme_modes = codes "system" ∷ codes "dark" ∷ codes "light" ∷ []

abbrev pub allowed_performance : List (List ℕ)
allowed_performance = codes "auto" ∷ codes "bind" ∷ codes "mutagen" ∷ []

abbrev pub allowed_update_channels : List (List ℕ)
allowed_update_channels = codes "stable" ∷ codes "beta" ∷ []

unfoldable pub valid_enum : List ℕ → List (List ℕ) → Bool
unfolding equals
valid_enum v [] = false
valid_enum v (a ∷ allowed) = equals v a || valid_enum v allowed

unfoldable pub parse_bool : List ℕ → Bool → Bool
unfolding valid_enum
parse_bool v def =
    let s = to_lower (trim_space v) in
    if valid_enum s (codes "1" ∷ codes "true" ∷ codes "yes" ∷ codes "on" ∷ [])
    then true
    else if valid_enum s (codes "0" ∷ codes "false" ∷ codes "no" ∷ codes "off" ∷ [])
    then false
    else def

abbrev pub format_bool : Bool → List ℕ
format_bool true = codes "true"
format_bool false = codes "false"

-- A number that is not negative, or the default.
abbrev pub natural_or : ℕ → Option ℤ → ℕ
natural_or def none = def
natural_or def (some (negsuc n)) = def
natural_or def (some (pos n)) = n

unfoldable pub parse_int : List ℕ → ℕ → ℕ
parse_int [] def = def
parse_int (c ∷ v) def = natural_or def (atoi (c ∷ v))

-- `if v != "" { return v }`
abbrev pub or_default : List ℕ → List ℕ → List ℕ
or_default def [] = def
or_default def (c ∷ v) = c ∷ v

abbrev enum_or : List (List ℕ) → List ℕ → List ℕ → List ℕ
enum_or allowed def v = if valid_enum v allowed then v else def

module _ (cache : Cache) where
  unfoldable pub theme_mode : List ℕ
  theme_mode = or_default (codes "system") (cache key_theme_mode)

  unfoldable pub php_version_default : List ℕ
  php_version_default = or_default (codes "8.3") (cache key_default_php_version)

  unfoldable pub db_engine_default : List ℕ
  unfolding valid_enum
  db_engine_default = enum_or allowed_db_engines (codes "mysql") (cache key_default_db_engine)

  unfoldable pub db_version_default : List ℕ
  db_version_default = cache key_default_db_version

  unfoldable pub redis_version_default : List ℕ
  redis_version_default = or_default (codes "7") (cache key_default_redis_version)

  unfoldable pub web_server_default : List ℕ
  unfolding valid_enum
  web_server_default = enum_or allowed_web_servers (codes "nginx") (cache key_default_web_server)

  unfoldable pub mkcert_path : List ℕ
  mkcert_path = cache key_mkcert_path

  unfoldable pub performance_mode : List ℕ
  unfolding valid_enum
  performance_mode = enum_or allowed_performance (codes "auto") (cache key_performance_mode)

  unfoldable pub update_check_channel : List ℕ
  unfolding valid_enum
  update_check_channel =
      enum_or allowed_update_channels (codes "stable") (cache key_update_check_channel)

  unfoldable pub publish_db_port_default : Bool
  publish_db_port_default = parse_bool (cache key_default_publish_db_port) false

  unfoldable pub update_check_enabled : Bool
  update_check_enabled = parse_bool (cache key_update_check_enabled) true

  unfoldable pub auto_snapshot_before_destructive : Bool
  auto_snapshot_before_destructive = parse_bool (cache key_auto_snapshot) true

  unfoldable pub health_enabled : Bool
  health_enabled = parse_bool (cache key_health_enabled) true

  unfoldable pub debug_logging : Bool
  debug_logging = parse_bool (cache key_debug_logging) false

  unfoldable pub lan_default : Bool
  lan_default = parse_bool (cache key_lan_default) false

  unfoldable pub router_http_port : ℕ
  router_http_port = parse_int (cache key_router_http_port) 80

  unfoldable pub router_https_port : ℕ
  router_https_port = parse_int (cache key_router_https_port) 443

  unfoldable pub health_cadence_minutes : ℕ
  health_cadence_minutes = parse_int (cache key_health_cadence_minutes) 5

  unfoldable pub health_disk_cadence_minutes : ℕ
  health_disk_cadence_minutes = parse_int (cache key_health_disk_cadence_minutes) 15

  unfoldable pub health_disk_warn_gb : ℕ
  health_disk_warn_gb = parse_int (cache key_health_disk_warn_gb) 5

  unfoldable pub health_disk_blocker_gb : ℕ
  health_disk_blocker_gb = parse_int (cache key_health_disk_blocker_gb) 1

  unfoldable pub health_last_seen : List ℕ
  health_last_seen = cache key_health_last_seen

  unfoldable pub update_dismissed_version : List ℕ
  update_dismissed_version = cache key_update_dismissed_version

  unfoldable pub update_last_available : List ℕ
  update_last_available = cache key_update_last_available

  unfoldable pub lan_domain : List ℕ
  lan_domain = or_default (codes "sslip.io") (trim_space (cache key_lan_domain))
