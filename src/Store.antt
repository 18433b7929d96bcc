-- ===== src/Store.antt =====
-- store.go: the store. The scopes stand in 32 shards by a hash of their names; `Hash` is Go's
-- maphash. The locks are not modelled: an operation runs alone, so the second look under the write
-- lock finds what the first one found. A call reads the clock several times: `clock k` is its reading
-- number `k`. A buffer that a caller still holds after its scope is gone is Buffer's `detached`.
pub mod Sharding
pub mod Scopes
pub mod Subscribe
pub mod Events
pub mod Write
pub mod Read
pub mod Bulk
pub mod Valid
pub mod Fixture
mod Tests
use inmem_cache.Base.{
  ℕ, ◌+◌, ◌-◌, ◌^◌, Bool, true, false, Option, none, some, List, [], ◌∷◌, length, if◌then◌else◌,
}
use inmem_cache.Base.Word.{word, add64, sub64, slt}
use inmem_cache.Base.Bytes.{Bytes, bytes_eq, is_empty}
use inmem_cache.Base.Map.{Map}
use inmem_cache.Types.{
  Config, InboxConfig, with_defaults, events_item_envelope_overhead, scope_buffer_overhead,
  events_scope_name, inbox_scope_name,
}
use inmem_cache.Errors.{Result}
use inmem_cache.Ledger.{Ledger, add_clamped_int64, max_items_for}
use inmem_cache.Buffer.{ScopeBuffer, new_scope_buffer}
use inmem_cache.Store.Sharding.{Hash, Shards, empty_shards, find_scope, put_scope}

-- The reading number `k` of the clock in a call.
abbrev pub Clock : Type 0
Clock = ℕ → ℕ

-- The readings after the first `k`.
abbrev pub after : ℕ → Clock → Clock
after k clock = λ n. clock (k + n)

-- A buffered `chan struct{}`: how many values it has room for, and how many wait in it.
pub record Channel : Type 0 where
  pub capacity : ℕ
  pub waiting : ℕ

-- `subscribers` has the channel of every scope that is subscribed to.
pub record Store : Type 0 where
  pub shards : Shards
  pub ledger : Ledger
  pub subscribers : Map Bytes Channel

-- The result of an operation, and the store after it.
abbrev pub StoreOutcome : Type 0 → Type 0
StoreOutcome A = Result A × Store

-- reservedScopeNames
abbrev pub reserved_scope_names : List Bytes
reserved_scope_names = events_scope_name ∷ inbox_scope_name ∷ []

-- `(s *store) newscopeBuffer`
unfoldable pub new_store_buffer : Ledger → ℕ → ScopeBuffer
unfolding new_scope_buffer
new_store_buffer l now_us = record (new_scope_buffer l.default_max_items now_us) { attached = true }

-- `s.totalBytes.Add(scopeBufferOverhead); s.scopeCount.Add(1)`
abbrev pub count_scope : Ledger → Ledger
count_scope l = record l {
  total_bytes = add64 l.total_bytes scope_buffer_overhead;
  scope_count = add64 l.scope_count 1;
}

-- The body of the loops of initReservedScopes and initReservedScopesLocked; `stamp` is what the
-- buffer's lastWriteTS is set to.
unfoldable pub init_reserved_scope : ⦃hash : Hash⦄ → Store → Bytes → ℕ → ℕ → Store
unfolding max_items_for new_store_buffer find_scope put_scope
init_reserved_scope s name stamp now_us = elim (find_scope s.shards name) [
  | some _ ↦ s
  | none ↦ record s {
    shards = put_scope s.shards name (record (new_store_buffer s.ledger now_us) {
      max_items = max_items_for s.ledger name;
      last_write_ts = stamp;
    });
    ledger = count_scope s.ledger;
  }
]

unfoldable pub init_reserved_scopes : ⦃hash : Hash⦄ → Store → Clock → Store
unfolding init_reserved_scope
init_reserved_scopes s clock =
    init_reserved_scope (init_reserved_scope s events_scope_name 0 (clock 0)) inbox_scope_name 0
      (clock 1)

unfoldable pub init_reserved_scopes_locked : ⦃hash : Hash⦄ → Store → Clock → Store
unfolding init_reserved_scope
init_reserved_scopes_locked s clock =
    let first = init_reserved_scope s events_scope_name s.ledger.last_write_ts (clock 0) in
    init_reserved_scope first inbox_scope_name first.ledger.last_write_ts (clock 1)

-- The counters and caps of newStore, from a configuration with its defaults.
unfoldable pub new_ledger : Config → Ledger
unfolding add_clamped_int64
new_ledger c =
    let biggest_user_cap =
      if slt c.max_item_bytes c.inbox.max_item_bytes
      then c.inbox.max_item_bytes
      else c.max_item_bytes in
    record {
      default_max_items = c.scope_max_items;
      max_store_bytes = c.max_store_bytes;
      max_item_bytes = c.max_item_bytes;
      events_max_item_bytes = add_clamped_int64 biggest_user_cap events_item_envelope_overhead;
      inbox_max_items = c.inbox.max_items;
      inbox_max_item_bytes = c.inbox.max_item_bytes;
      events_mode = c.events_mode;
      events_drops_total = 0;
      total_bytes = 0;
      total_items = 0;
      scope_count = 0;
      last_write_ts = 0;
    }

unfoldable pub new_store : ⦃hash : Hash⦄ → Config → Clock → Store
unfolding with_defaults new_ledger init_reserved_scopes empty_shards
new_store c clock =
    init_reserved_scopes
      (record { shards = empty_shards; ledger = new_ledger (with_defaults c); subscribers = [] })
      clock
