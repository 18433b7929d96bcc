-- ===== src/Store/Scopes.antt =====
-- store.go: the life of a scope: getScope, getOrCreateScopeTrackingCreated, ensureScope,
-- cleanupIfEmptyAndUnused, and the locked part of deleteScope.
use inmem_cache.Base.{ℕ, Bool, true, false, Option, none, some, length, ◌==◌, if◌then◌else◌}
use inmem_cache.Base.Word.{add64, sub64}
use inmem_cache.Base.Bytes.{Bytes, is_empty}
use inmem_cache.Types.{scope_buffer_overhead}
use inmem_cache.Errors.{ok, err, store_full, scope_required}
use inmem_cache.Ledger.{Ledger, reserve_bytes, bump_last_write_ts}
use inmem_cache.Buffer.{ScopeBuffer}
use inmem_cache.Store.{Store, StoreOutcome, new_store_buffer}
use inmem_cache.Store.Sharding.{Hash, find_scope, put_scope, remove_scope}

-- The store after a method of the buffer of `name`.
unfoldable pub stored_back : ⦃hash : Hash⦄ → Store → Bytes → ScopeBuffer → Ledger → Store
unfolding put_scope
stored_back s name b l = record s { shards = put_scope s.shards name b; ledger = l }

unfoldable pub get_scope : ⦃hash : Hash⦄ → Store → Bytes → Option ScopeBuffer
unfolding find_scope
get_scope s name = find_scope s.shards name

-- The store with a fresh scope, once its overhead is reserved.
unfoldable pub scope_added : ⦃hash : Hash⦄ → Store → Ledger → Bytes → ScopeBuffer → Store
unfolding stored_back
scope_added s l name buf = stored_back s name buf (record l { scope_count = add64 l.scope_count 1 })

-- getOrCreateScopeTrackingCreated: the buffer, and whether this call created it.
unfoldable pub get_or_create_scope_tracking_created :
    ⦃hash : Hash⦄ → Store → Bytes → ℕ → StoreOutcome (ScopeBuffer × Bool)
unfolding scope_added find_scope reserve_bytes new_store_buffer
get_or_create_scope_tracking_created s name now_us =
    if is_empty name then (err scope_required, s) else elim (find_scope s.shards name) [
      | some buf ↦ (ok (buf, false), s)
      | none ↦
          let r = reserve_bytes s.ledger scope_buffer_overhead in
          let buf = new_store_buffer s.ledger now_us in
          if r.granted
          then (ok (buf, true), scope_added s r.after name buf)
          else (err (store_full r.total scope_buffer_overhead r.cap), s)
    ]

-- `Add(-(bytes + scopeBufferOverhead))`, `Add(-items)` and `Add(-1)`
abbrev pub scope_released : Ledger → ℕ → ℕ → Ledger
scope_released l bytes items = record l {
  total_bytes = sub64 l.total_bytes (add64 bytes scope_buffer_overhead);
  total_items = sub64 l.total_items items;
  scope_count = sub64 l.scope_count 1;
}

-- cleanupIfEmptyAndUnused. The buffer that the caller holds is the one that is mapped.
unfoldable pub cleanup_if_empty_and_unused : ⦃hash : Hash⦄ → Store → Bytes → Store
unfolding find_scope remove_scope
cleanup_if_empty_and_unused s name = elim (find_scope s.shards name) [
  | none ↦ s
  | some buf ↦
      if length buf.items == 0
      then record s {
        shards = remove_scope s.shards name;
        ledger = record s.ledger {
          total_bytes = sub64 s.ledger.total_bytes scope_buffer_overhead;
          scope_count = sub64 s.ledger.scope_count 1;
        };
      }
      else s
]

-- ensureScope
unfoldable pub ensure_scope : ⦃hash : Hash⦄ → Store → Bytes → ℕ → Option ScopeBuffer × Store
unfolding scope_added find_scope reserve_bytes new_store_buffer bump_last_write_ts
ensure_scope s name now_us = elim (find_scope s.shards name) [
  | some buf ↦ (some buf, s)
  | none ↦
      let r = reserve_bytes s.ledger scope_buffer_overhead in
      let buf = new_store_buffer s.ledger now_us in
      let added = scope_added s r.after name buf in
      if r.granted
      then (some buf, record added { ledger = bump_last_write_ts added.ledger buf.last_write_ts })
      else (none, s)
]

-- The function literal of deleteScope: the number of items, where the scope is there.
unfoldable pub drop_scope : ⦃hash : Hash⦄ → Store → Bytes → ℕ → Option ℕ × Store
unfolding find_scope remove_scope bump_last_write_ts
drop_scope s name now_us = elim (find_scope s.shards name) [
  | none ↦ (none, s)
  | some buf ↦ (
    some (length buf.items),
    record s {
      shards = remove_scope s.shards name;
      ledger = bump_last_write_ts (scope_released s.ledger buf.bytes (length buf.items)) now_us;
    },
  )
]
