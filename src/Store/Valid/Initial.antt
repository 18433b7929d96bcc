-- ===== src/Store/Valid/Initial.antt =====
-- newStore: what a new store holds.
use inmem_cache.Base.{
  ℕ, ◌*◌, ◌≡◌, ◌≤◌, refl, ◌∙◌, true, false, none, some, [], arith, if◌then◌else◌,
}
use inmem_cache.Base.Bytes.{Bytes, bytes_beq}
use inmem_cache.Types.{
  Config, with_defaults, scope_buffer_overhead, events_scope_name, inbox_scope_name,
}
use inmem_cache.Ledger.{max_items_for, unbounded_scope_max_items}
use inmem_cache.Buffer.{ScopeBuffer, new_scope_buffer}
use inmem_cache.Store.{
  Store, Clock, new_store_buffer, count_scope, init_reserved_scope, init_reserved_scopes,
  new_ledger, new_store,
}
use inmem_cache.Store.Sharding.{Hash, find_scope, put_scope, empty_shards}
use inmem_cache.Store.Sharding.Laws.{
  find_scope-put_scope, put_scope-IsSharded, empty_shards-IsSharded,
}
use inmem_cache.Store.Valid.Reset.{nowhere}

-- A scope of the store that nothing has been written to.
abbrev pub untouched : ℕ → ℕ → ScopeBuffer
untouched max_items now_us = record {
  attached = true;
  detached = false;
  items = [];
  by_id = [];
  by_seq = [];
  cells = [];
  last_seq = 0;
  max_items = max_items;
  bytes = 0;
  id_key_bytes = 0;
  created_ts = now_us;
  last_write_ts = 0;
  last_access_ts = 0;
  read_count_total = 0;
}

module _ ⦃hash : Hash⦄ where
  pub record IsInitial (c : Config) (clock : Clock) (s : Store) : Type 0 where
    pub scopes :
        (name : Bytes)
        → find_scope s.shards name ≡ (
            if bytes_beq inbox_scope_name name
            then some (untouched (with_defaults c).inbox.max_items (clock 1))
            else if bytes_beq events_scope_name name
            then some (untouched unbounded_scope_max_items (clock 0))
            else none)
    pub bytes : s.ledger.total_bytes ≡ 2 * scope_buffer_overhead
    pub within : s.ledger.total_bytes ≤ s.ledger.max_store_bytes
    pub scope_count : s.ledger.scope_count ≡ 2
    pub items : s.ledger.total_items ≡ 0
    pub nobody : s.subscribers ≡ []

  init_reserved_scope-absent :
      (s : Store) (name : Bytes) (stamp now_us : ℕ)
      → find_scope s.shards name ≡ none
      → init_reserved_scope s name stamp now_us ≡ record s {
        shards = put_scope s.shards name (record (new_store_buffer s.ledger now_us) {
          max_items = max_items_for s.ledger name;
          last_write_ts = stamp;
        });
        ledger = count_scope s.ledger;
      }
  unfolding init_reserved_scope
  init_reserved_scope-absent s name stamp now_us absent = rw (absent, init_reserved_scope) refl

  -- Whatever the configuration, a new store finds exactly the two reserved scopes under their
  -- names and nothing under any other: each is empty, with its own cap on items and its own
  -- reading of the clock. Its counters are those of two scopes without items, within the cap on
  -- bytes, and no scope has a subscriber.
  pub new_store_exact : (c : Config) (clock : Clock) → IsInitial c clock (new_store c clock)
  unfolding new_store init_reserved_scopes new_store_buffer new_scope_buffer max_items_for
      new_ledger bytes_beq
  new_store_exact c clock =
      let d = with_defaults c in
      let bare : Store = record {
        shards = empty_shards;
        ledger = new_ledger d;
        subscribers = [];
      } in
      let events : ScopeBuffer = record (new_store_buffer bare.ledger (clock 0)) {
        max_items = max_items_for bare.ledger events_scope_name;
        last_write_ts = 0;
      } in
      let shards = put_scope empty_shards events_scope_name events in
      let apart : find_scope shards inbox_scope_name ≡ none =
        find_scope-put_scope empty_shards events_scope_name empty_shards-IsSharded events
          inbox_scope_name
        ∙ nowhere inbox_scope_name in
      rw
        (
          init_reserved_scope-absent bare events_scope_name 0 (clock 0) (nowhere events_scope_name),
          init_reserved_scope-absent
              (record { shards = shards; ledger = count_scope (new_ledger d); subscribers = [] })
              inbox_scope_name 0 (clock 1) apart,
        )
        (record {
          scopes = λ name.
              (find_scope-put_scope shards inbox_scope_name
                  (put_scope-IsSharded empty_shards events_scope_name empty_shards-IsSharded events)
                  _ name
                ∙ rw
                    (
                      find_scope-put_scope empty_shards events_scope_name empty_shards-IsSharded
                          events name,
                      nowhere name,
                    )
                    refl);
          bytes = refl;
          within = unfold with_defaults in ground arith;
          scope_count = refl;
          items = refl;
          nobody = refl;
        })
