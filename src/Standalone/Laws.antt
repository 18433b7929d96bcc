-- ===== src/Standalone/Laws.antt =====
-- What the standalone server makes of its environment, by numbers that do not wrap.
use inmem_cache.Base.{ℕ, ◌*◌, ◌^◌, ◌≤◌, ◌<◌, ◌≡◌, refl, ◌∙◌, ap, some, if◌then◌else◌, arith}
use inmem_cache.Base.Word.{slt}
use inmem_cache.Base.Bytes.{Bytes, bytes, bytes_beq}
use inmem_cache.Decimal.{parse_int}
use inmem_cache.Types.{
  Config, EventsMode, with_defaults, default_scope_max_items, max_store_mib, default_max_item_bytes,
  reserved_scopes_overhead, default_inbox_max_item_bytes, events_mode_string, parse_events_mode,
}
use inmem_cache.Store.{Clock, new_store}
use inmem_cache.Store.Sharding.{Hash}
use inmem_cache.Store.Valid.{IsStored}
use inmem_cache.Store.Valid.Reset.{new_store-IsStored}
use inmem_cache.Standalone.{
  second, scope_max_items_from_env, max_store_bytes_from_env, max_item_bytes_from_env,
  inbox_max_items_from_env, inbox_max_item_bytes_from_env, init_timeout_from_env, config_from_env,
}
use inmem_cache.Standalone.Units.{
  sized, sized-lt, or_default-count, mebibytes-ge, inbox_count, inbox_kibibytes,
  mebibytes_or_default, seconds,
}

-- The configuration as its variables say it, in numbers that do not wrap.
pub record IsReadFrom (getenv : Bytes → Bytes) (c : Config) : Type 0 where
  pub scope_items :
      c.scope_max_items
      ≡ sized 1 default_scope_max_items (parse_int (getenv (bytes "SCOPECACHE_SCOPE_MAX_ITEMS")))
  pub store_bytes :
      c.max_store_bytes
      ≡ sized
          (2 ^ 20)
          (max_store_mib * 2 ^ 20)
          (parse_int (getenv (bytes "SCOPECACHE_MAX_STORE_MB")))
  pub item_bytes :
      c.max_item_bytes
      ≡ sized (2 ^ 20) default_max_item_bytes (parse_int (getenv (bytes "SCOPECACHE_MAX_ITEM_MB")))
  pub inbox_items :
      c.inbox.max_items
      ≡ sized 1 c.scope_max_items (parse_int (getenv (bytes "SCOPECACHE_INBOX_MAX_ITEMS")))
  pub inbox_item_bytes :
      c.inbox.max_item_bytes
      ≡ sized
          (2 ^ 10)
          default_inbox_max_item_bytes
          (parse_int (getenv (bytes "SCOPECACHE_INBOX_MAX_ITEM_KB")))

abbrev at_least_reserved : ℕ → ℕ
at_least_reserved v = if slt v reserved_scopes_overhead then reserved_scopes_overhead else v

-- A store cap of at least a mebibyte is over the cost of the reserved scopes.
unclamped : (v : ℕ) → 2 ^ 20 ≤ v → v < 2 ^ 63 → at_least_reserved v ≡ v
unclamped v ge fits = ground arith

-- For any environment, the configuration that the standalone server starts with has exactly
-- what the variables say: a variable with a positive decimal number whose size, in items, MiB
-- or KiB, fits an int64 sets that size, without wrapping, and any other gives the default,
-- which for the number of items of the inbox is the cap on items of a scope.
pub config_from_env_exact : (getenv : Bytes → Bytes) → IsReadFrom getenv (config_from_env getenv)
unfolding config_from_env with_defaults scope_max_items_from_env max_store_bytes_from_env
    max_item_bytes_from_env inbox_max_items_from_env inbox_max_item_bytes_from_env
config_from_env_exact getenv =
    let store = getenv (bytes "SCOPECACHE_MAX_STORE_MB") in
    record {
      scope_items = or_default-count default_scope_max_items _ (omega arith) (omega arith);
      store_bytes =
          ap at_least_reserved
            (mebibytes_or_default (max_store_mib * 2 ^ 20) store (omega arith) (omega arith))
          ∙ unclamped _ (mebibytes-ge _ (parse_int store) (omega arith))
              (sized-lt _ _ (parse_int store) (omega arith));
      item_bytes =
          mebibytes_or_default default_max_item_bytes (getenv (bytes "SCOPECACHE_MAX_ITEM_MB"))
            (omega arith) (omega arith);
      inbox_items = inbox_count _ (getenv (bytes "SCOPECACHE_INBOX_MAX_ITEMS"));
      inbox_item_bytes = inbox_kibibytes _ (getenv (bytes "SCOPECACHE_INBOX_MAX_ITEM_KB"));
    }

-- Zero seconds are no timeout, and so are more than a duration can hold.
pub init_timeout_from_env_exact :
    (getenv : Bytes → Bytes)
    → init_timeout_from_env getenv
      ≡ sized second 0 (parse_int (getenv (bytes "SCOPECACHE_INIT_TIMEOUT_SEC")))
unfolding init_timeout_from_env
init_timeout_from_env_exact getenv = seconds (getenv (bytes "SCOPECACHE_INIT_TIMEOUT_SEC"))

pub parse_events_mode-events_mode_string :
    (m : EventsMode) → parse_events_mode (events_mode_string m) ≡ some m
unfolding parse_events_mode events_mode_string bytes_beq
parse_events_mode-events_mode_string EventsMode.off = refl
parse_events_mode-events_mode_string EventsMode.notify = refl
parse_events_mode-events_mode_string EventsMode.full = refl

-- The store that the standalone server starts with is sound, whatever its environment says.
pub started-IsStored :
    ⦃hash : Hash⦄ (getenv : Bytes → Bytes) (clock : Clock)
    → IsStored (new_store (config_from_env getenv) clock)
started-IsStored getenv clock =
    let c = config_from_env_exact getenv in
    let fits =
      sized-lt (2 ^ 20) (max_store_mib * 2 ^ 20)
        (parse_int (getenv (bytes "SCOPECACHE_MAX_STORE_MB"))) (omega arith) in
    new_store-IsStored (config_from_env getenv) clock (omega (arith, c.store_bytes, fits))
