-- ===== src/Config.antt =====
-- internal/config/config.go and internal/config/keys.go: typed settings over a table of keys. A value is
-- the list of its bytes, and the empty one stands for a key that is not set. The store is a record of
-- operations on a type `S`; the cache is a function from keys to values.
pub mod Coherence
pub mod Typed
pub mod Setters
pub mod Session
pub mod Ranges
mod Tests
use locorum.Common.{
  ℕ, zero, suc, String, Bool, true, false, ◌&&◌, ◌||◌, not, Option, none, some, List, [], ◌∷◌, ltb,
  leb, ◌==◌, str_eq, if◌then◌else◌,
}
use locorum.Common.Text.{codes, equals, is_lower, is_upper, is_digit, to_lower, trim_space}
use locorum.Common.Int.{ℤ, pos, negsuc}
use locorum.Common.Decimal.{itoa, atoi}

-- The keys of keys.go.
abbrev pub key_theme_mode : String
key_theme_mode = "theme_mode"

abbrev pub key_default_php_version : String
key_default_php_version = "defaults.php_version"

abbrev pub key_default_db_engine : String
key_default_db_engine = "defaults.db_engine"

abbrev pub key_default_db_version : String
key_default_db_version = "defaults.db_version"

abbrev pub key_default_redis_version : String
key_default_redis_version = "defaults.redis_version"

abbrev pub key_default_web_server : String
key_default_web_server = "defaults.web_server"

abbrev pub key_default_publish_db_port : String
key_default_publish_db_port = "defaults.publish_db_port"

abbrev pub key_router_http_port : String
key_router_http_port = "router.http_port"

abbrev pub key_router_https_port : String
key_router_https_port = "router.https_port"

abbrev pub key_mkcert_path : String
key_mkcert_path = "mkcert.path"

abbrev pub key_performance_mode : String
key_performance_mode = "performance.mode"

abbrev pub key_update_check_enabled : String
key_update_check_enabled = "update_check.enabled"

abbrev pub key_update_check_channel : String
key_update_check_channel = "update_check.channel"

abbrev pub key_health_enabled : String
key_health_enabled = "health.enabled"

abbrev pub key_health_cadence_minutes : String
key_health_cadence_minutes = "health.cadence_minutes"

abbrev pub key_health_disk_cadence_minutes : String
key_health_disk_cadence_minutes = "health.disk_check_cadence_minutes"

abbrev pub key_health_disk_warn_gb : String
key_health_disk_warn_gb = "health.disk_warn_gb"

abbrev pub key_health_disk_blocker_gb : String
key_health_disk_blocker_gb = "health.disk_blocker_gb"

abbrev pub key_health_last_seen : String
key_health_last_seen = "health.last_seen"

abbrev pub key_auto_snapshot : String
key_auto_snapshot = "snapshots.auto_before_destructive"

abbrev pub key_debug_logging : String
key_debug_logging = "diagnostics.debug_logging"

abbrev pub key_update_dismissed_version : String
key_update_dismissed_version = "update_check.dismissed_version"

abbrev pub key_update_last_available : String
key_update_last_available = "update_check.last_available"

abbrev pub key_lan_default : String
key_lan_default = "lan.default_enabled"

abbrev pub key_lan_domain : String
key_lan_domain = "lan.domain"

abbrev pub key_lan_ip_override : String
key_lan_ip_override = "lan.ip_override"

-- allKeys
abbrev pub all_keys : List String
all_keys =
    key_theme_mode ∷ key_default_php_version ∷ key_default_db_engine ∷ key_default_db_version
    ∷ key_default_redis_version ∷ key_default_web_server ∷ key_default_publish_db_port
    ∷ key_router_http_port ∷ key_router_https_port ∷ key_mkcert_path ∷ key_performance_mode
    ∷ key_update_check_enabled ∷ key_update_check_channel ∷ key_health_enabled
    ∷ key_health_cadence_minutes ∷ key_health_disk_cadence_minutes ∷ key_health_disk_warn_gb
    ∷ key_health_disk_blocker_gb ∷ key_health_last_seen ∷ key_auto_snapshot ∷ key_debug_logging
    ∷ key_update_dismissed_version ∷ key_update_last_available ∷ key_lan_default ∷ key_lan_domain
    ∷ key_lan_ip_override ∷ []

-- The store: a read or a write may fail.
pub record Store (S : Type 0) : Type 0 where
  pub get_setting : String → S → Option (List ℕ)
  pub set_setting : String → List ℕ → S → Bool × S

abbrev pub Cache : Type 0
Cache = String → List ℕ

abbrev pub with_value : Cache → String → List ℕ → Cache
with_value cache key value key' = if str_eq key' key then value else cache key'

pub data ConfigError : Type 0 where
  reload_failed persist_failed : String → ConfigError
  invalid_theme_mode invalid_db_engine invalid_web_server invalid_update_channel
        invalid_performance_mode invalid_lan_domain invalid_ipv4 :
      List ℕ → ConfigError
  php_version_empty db_version_empty redis_version_empty : ConfigError
  port_out_of_range cadence_not_positive disk_cadence_not_positive warn_not_positive
        blocker_not_positive :
      ℤ → ConfigError
  blocker_not_below_warn : ℤ → ℤ → ConfigError

module _ {S : Type 0} (st : Store S) where
  -- The loop of `Reload`.
  unfoldable pub reload_keys : List String → Cache → S → Option ConfigError × Cache
  reload_keys [] fresh w = (none, fresh)
  reload_keys (k ∷ keys) fresh w = elim (st.get_setting k w) [
    | none ↦ (some (reload_failed k), fresh)
    | some v ↦ reload_keys keys (with_value fresh k v) w
  ]

  -- `Reload`; a failed one leaves the cache as it was.
  unfoldable pub reload : Cache → S → Option ConfigError × Cache
  unfolding reload_keys
  reload cache w =
      let (err, fresh) = reload_keys all_keys (λ key. []) w in
      elim err [ some e ↦ (some e, cache) | none ↦ (none, fresh) ]

  -- `Set`, which every setter ends with.
  unfoldable pub set : String → List ℕ → Cache × S → Option ConfigError × Cache × S
  set key value (cache, w) =
      let (ok, w') = st.set_setting key value w in
      elim ok [
        | true ↦ (none, with_value cache key value, w')
        | false ↦ (some (persist_failed key), cache, w')
      ]
