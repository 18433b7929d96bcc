-- ===== src/Standalone/Tests.antt =====
-- Tests of the configuration of the standalone server, and its theorem at a concrete environment.
use inmem_cache.Base.{◌*◌, ◌^◌, ◌≡◌, refl, if◌then◌else◌, none}
use inmem_cache.Base.Bytes.{Bytes, bytes, bytes_beq}
use inmem_cache.Decimal.{parse_int, parse_magnitude, parse_digits}
use inmem_cache.Types.{EventsMode, parse_events_mode}
use inmem_cache.Standalone.{
  max_store_bytes_from_env, init_timeout_from_env, events_mode_from_env, config_from_env,
}
use inmem_cache.Standalone.Laws.{IsReadFrom, config_from_env_exact}

-- A store of 64 MiB, a cap on items that overflows, and events with their payloads.
abbrev configured : Bytes → Bytes
configured name =
    if bytes_beq name (bytes "SCOPECACHE_MAX_STORE_MB")
    then bytes "64"
    else if bytes_beq name (bytes "SCOPECACHE_MAX_ITEM_MB")
    then bytes "8796093022208"
    else if bytes_beq name (bytes "SCOPECACHE_EVENTS_MODE")
    then bytes "full"
    else bytes ""

configured_store : max_store_bytes_from_env configured ≡ 64 * 2 ^ 20
unfolding max_store_bytes_from_env parse_int parse_magnitude parse_digits bytes_beq
configured_store = refl

configured_timeout : init_timeout_from_env configured ≡ 0
unfolding init_timeout_from_env bytes_beq
configured_timeout = refl

configured_events : events_mode_from_env configured ≡ EventsMode.full
unfolding events_mode_from_env parse_events_mode bytes_beq
configured_events = refl

unknown_mode : parse_events_mode (bytes "FULL") ≡ none
unfolding parse_events_mode bytes_beq
unknown_mode = refl

config_from_env_exact_example : IsReadFrom configured (config_from_env configured)
config_from_env_exact_example = config_from_env_exact configured
