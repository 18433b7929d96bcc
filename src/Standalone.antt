-- ===== src/Standalone.antt =====
-- cmd/scopecache/main.go: the configuration that the standalone server reads from its environment.
-- `getenv` is os.Getenv, which is empty for a variable that is not set.
pub mod Laws
mod Units
mod Tests
use inmem_cache.Base.{ℕ, ◌*◌, ◌/◌, ◌-◌, ◌^◌, Option, none, some, if◌then◌else◌}
use inmem_cache.Base.Word.{word, slt}
use inmem_cache.Base.Bytes.{Bytes, bytes, is_empty}
use inmem_cache.Decimal.{parse_int}
use inmem_cache.Types.{
  Config, InboxConfig, EventsMode, parse_events_mode, default_scope_max_items, max_store_mib,
  default_max_item_bytes, with_defaults,
}

abbrev pub max_env_config_mb : ℕ
max_env_config_mb = (2 ^ 63 - 1) / 2 ^ 20

abbrev pub max_env_config_kb : ℕ
max_env_config_kb = (2 ^ 63 - 1) / 2 ^ 10

-- `time.Second`
abbrev pub second : ℕ
second = 1000000000

abbrev pub max_env_config_sec : ℕ
max_env_config_sec = (2 ^ 63 - 1) / second

-- strconv.Atoi is ParseInt of 64 bits here; a number that is not positive is as one that does not
-- parse.
abbrev pub positive : Option ℕ → Option ℕ
positive none = none
positive (some n) = if slt 0 n then some n else none

abbrev pub or_else : ℕ → Option ℕ → ℕ
or_else fallback none = fallback
or_else fallback (some n) = n

-- The units in bytes, where the number of them is not over `limit`.
abbrev pub in_bytes : (unit limit fallback : ℕ) → Option ℕ → ℕ
in_bytes unit limit fallback none = fallback
in_bytes unit limit fallback (some n) = if slt limit n then fallback else word (n * unit)

unfoldable pub scope_max_items_from_env : (Bytes → Bytes) → ℕ
scope_max_items_from_env getenv =
    let raw = getenv (bytes "SCOPECACHE_SCOPE_MAX_ITEMS") in
    if is_empty raw
    then default_scope_max_items
    else or_else default_scope_max_items (positive (parse_int raw))

unfoldable pub max_store_bytes_from_env : (Bytes → Bytes) → ℕ
max_store_bytes_from_env getenv =
    let raw = getenv (bytes "SCOPECACHE_MAX_STORE_MB") in
    if is_empty raw
    then max_store_mib * 2 ^ 20
    else in_bytes (2 ^ 20) max_env_config_mb (max_store_mib * 2 ^ 20) (positive (parse_int raw))

unfoldable pub max_item_bytes_from_env : (Bytes → Bytes) → ℕ
max_item_bytes_from_env getenv =
    let raw = getenv (bytes "SCOPECACHE_MAX_ITEM_MB") in
    if is_empty raw
    then default_max_item_bytes
    else in_bytes (2 ^ 20) max_env_config_mb default_max_item_bytes (positive (parse_int raw))

unfoldable pub inbox_max_items_from_env : (Bytes → Bytes) → ℕ
inbox_max_items_from_env getenv =
    let raw = getenv (bytes "SCOPECACHE_INBOX_MAX_ITEMS") in
    if is_empty raw then 0 else or_else 0 (positive (parse_int raw))

unfoldable pub inbox_max_item_bytes_from_env : (Bytes → Bytes) → ℕ
inbox_max_item_bytes_from_env getenv =
    let raw = getenv (bytes "SCOPECACHE_INBOX_MAX_ITEM_KB") in
    if is_empty raw then 0 else in_bytes (2 ^ 10) max_env_config_kb 0 (positive (parse_int raw))

-- A time.Duration is an int64 of nanoseconds.
abbrev pub in_seconds : Option ℕ → ℕ
in_seconds none = 0
in_seconds (some n) =
    if slt n 0 then 0 else if slt max_env_config_sec n then 0 else word (n * second)

unfoldable pub init_timeout_from_env : (Bytes → Bytes) → ℕ
init_timeout_from_env getenv =
    let raw = getenv (bytes "SCOPECACHE_INIT_TIMEOUT_SEC") in
    if is_empty raw then 0 else in_seconds (parse_int raw)

unfoldable pub events_mode_from_env : (Bytes → Bytes) → EventsMode
events_mode_from_env getenv = elim (parse_events_mode (getenv (bytes "SCOPECACHE_EVENTS_MODE"))) [
  | none ↦ EventsMode.off
  | some mode ↦ mode
]

-- The `cfg` of `main`.
unfoldable pub config_from_env : (Bytes → Bytes) → Config
config_from_env getenv = with_defaults (record {
  scope_max_items = scope_max_items_from_env getenv;
  max_store_bytes = max_store_bytes_from_env getenv;
  max_item_bytes = max_item_bytes_from_env getenv;
  events_mode = events_mode_from_env getenv;
  inbox = record {
    max_items = inbox_max_items_from_env getenv;
    max_item_bytes = inbox_max_item_bytes_from_env getenv;
  };
})
