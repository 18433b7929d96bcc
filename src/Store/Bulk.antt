-- ===== src/Store/Bulk.antt =====
-- bulk.go: /wipe, /warm (replaceScopes) and /rebuild (rebuildAll). The groups come in the order in
-- which Go ranges over the map. An error that is wrapped with a scope and an index keeps its cause.
pub mod Prepare
pub mod Counted
pub mod Contents
pub mod Rebuilt
use inmem_cache.Base.{
  ℕ, ◌+◌, Bool, true, false, Option, none, some, List, [], ◌∷◌, length, ltb, if◌then◌else◌, ◌==◌,
}
use inmem_cache.Base.Word.{word, add64, sub64, slt}
use inmem_cache.Base.Bytes.{Bytes}
use inmem_cache.Json.{Json}
use inmem_cache.Types.{Item, scope_buffer_overhead, reserved_scopes_overhead}
use inmem_cache.Errors.{Result, ok, err, store_full, scope_capacity}
use inmem_cache.Ledger.{Ledger, reserve_bytes, bump_last_write_ts}
use inmem_cache.Buffer.{ScopeBuffer}
use inmem_cache.Buffer.Replace.{ScopeReplacement, commit_replacement_pre_reserved}
use inmem_cache.Store.{
  Store, StoreOutcome, Clock, after, new_store_buffer, init_reserved_scopes_locked,
}
use inmem_cache.Store.Sharding.{
  Hash, Shards, Shard, empty_shards, find_scope, put_scope, list_scopes,
}
use inmem_cache.Store.Scopes.{stored_back}
use inmem_cache.Store.Events.{emit_warm_event}
use inmem_cache.Store.Bulk.Prepare.{Plan, Prepared, Group, prepare_groups}

-- The sum of `len(buf.items)` over the scopes.
unfoldable pub count_items : Shard → ℕ
count_items [] = 0
count_items ((name, buf) ∷ m) = length buf.items + count_items m

-- `totalBytes.Swap(0)`, `totalItems.Store(0)`, `scopeCount.Store(0)`
abbrev pub zeroed : Ledger → Ledger
zeroed l = record l { total_bytes = 0; total_items = 0; scope_count = 0 }

-- wipe: the scopes, the items and the bytes that went.
unfoldable pub wipe : ⦃hash : Hash⦄ → Store → Clock → (ℕ × ℕ × ℕ) × Store
unfolding list_scopes count_items bump_last_write_ts init_reserved_scopes_locked empty_shards
wipe s clock = (
  (length (list_scopes s.shards), count_items (list_scopes s.shards), s.ledger.total_bytes),
  init_reserved_scopes_locked
      (record s { shards = empty_shards; ledger = bump_last_write_ts (zeroed s.ledger) (clock 0) })
      (after 1 clock),
)

-- The buffer that rebuildAll makes of a replacement. It does not set `idKeyBytes`.
unfoldable pub rebuilt_buffer : Ledger → Plan → ℕ → ScopeBuffer
unfolding new_store_buffer
rebuilt_buffer l p now_us = record (new_store_buffer l now_us) {
  items = p.replacement.items;
  by_id = p.replacement.by_id;
  by_seq = p.replacement.by_seq;
  last_seq = p.replacement.last_seq;
  bytes = p.new_bytes;
}

-- totalNewBytes and totalItems.
unfoldable pub rebuilt_bytes : List Plan → ℕ
rebuilt_bytes [] = 0
rebuilt_bytes (p ∷ ps) = add64 (add64 p.new_bytes scope_buffer_overhead) (rebuilt_bytes ps)

unfoldable pub rebuilt_items : List Plan → ℕ
rebuilt_items [] = 0
rebuilt_items (p ∷ ps) = length p.replacement.items + rebuilt_items ps

module _ ⦃hash : Hash⦄ where
  -- `buf.bytes` of Phase 1.5, or 0 for a scope that is not there.
  abbrev pub old_bytes : Shards → Bytes → ℕ
  old_bytes shards scope = elim (find_scope shards scope) [ none ↦ 0 | some buf ↦ buf.bytes ]

  abbrev pub new_overhead : Shards → Bytes → ℕ
  new_overhead shards scope = elim (find_scope shards scope) [
    | none ↦ scope_buffer_overhead
    | some _ ↦ 0
  ]

  -- The loop of Phase 1.5.
  unfoldable pub total_delta : Shards → List Plan → ℕ
  total_delta shards [] = 0
  total_delta shards (p ∷ ps) =
      add64 (add64 (new_overhead shards p.scope) (sub64 p.new_bytes (old_bytes shards p.scope)))
        (total_delta shards ps)

  -- The commit of one plan: the store, and whether the scope is new.
  unfoldable pub commit_plan : Store → Plan → ℕ → Clock → Store × Bool
  unfolding find_scope new_store_buffer commit_replacement_pre_reserved stored_back
  commit_plan s p old clock = elim (find_scope s.shards p.scope) [
    | some buf ↦
        let out =
          commit_replacement_pre_reserved buf s.ledger p.replacement p.new_bytes old (clock 1) in
        (stored_back s p.scope out.0 out.1, false)
    | none ↦
        let buf = new_store_buffer s.ledger (clock 0) in
        let out =
          commit_replacement_pre_reserved buf s.ledger p.replacement p.new_bytes old (clock 1) in
        (stored_back s p.scope out.0 out.1, true)
  ]

  -- The loop of Phase 2; `shards` is the map of Phase 1.5, which has the old bytes.
  unfoldable pub commit_plans : Shards → Store → List Plan → Clock → Store × ℕ
  unfolding commit_plan
  commit_plans shards s [] clock = (s, 0)
  commit_plans shards s (p ∷ ps) clock =
      let done = commit_plan s p (old_bytes shards p.scope) clock in
      let rest = commit_plans shards done.0 ps (after 2 clock) in
      (rest.0, if done.1 then 1 + rest.1 else rest.1)

  -- `if newScopes > 0 { s.scopeCount.Add(newScopes) }`
  abbrev pub count_new : Store × ℕ → Store
  count_new (s, n) =
      if n == 0
      then s
      else record s { ledger = record s.ledger { scope_count = add64 s.ledger.scope_count n } }

  -- The function literal of replaceScopes.
  unfoldable pub warm_plans : Store → List Plan → Clock → StoreOutcome ℕ
  unfolding total_delta commit_plans reserve_bytes
  warm_plans s plans clock =
      let delta = total_delta s.shards plans in
      let r = reserve_bytes s.ledger delta in
      if r.granted
      then (
        ok (length plans),
        count_new (commit_plans s.shards (record s { ledger = r.after }) plans clock),
      )
      else (err (store_full r.total delta r.cap), s)

  -- `newShardMaps` after the loop.
  unfoldable pub rebuilt_shards : Ledger → Shards → List Plan → Clock → Shards
  unfolding rebuilt_buffer put_scope
  rebuilt_shards l shards [] clock = shards
  rebuilt_shards l shards (p ∷ ps) clock =
      rebuilt_shards l (put_scope shards p.scope (rebuilt_buffer l p (clock 0))) ps (after 1 clock)

  -- The cap test and the swap of rebuildAll.
  unfoldable pub rebuild_plans : Store → List Plan → Clock → Clock → StoreOutcome (ℕ × ℕ)
  unfolding rebuilt_shards rebuilt_bytes rebuilt_items bump_last_write_ts
      init_reserved_scopes_locked empty_shards
  rebuild_plans s plans make commit =
      let needed = add64 (rebuilt_bytes plans) reserved_scopes_overhead in
      if slt s.ledger.max_store_bytes needed
      then (err (store_full 0 needed s.ledger.max_store_bytes), s)
      else (
        ok (length plans, rebuilt_items plans),
        init_reserved_scopes_locked
            (record s {
              shards = rebuilt_shards s.ledger empty_shards plans make;
              ledger =
                  bump_last_write_ts
                    (record s.ledger {
                      total_bytes = rebuilt_bytes plans;
                      total_items = word (rebuilt_items plans);
                      scope_count = word (length plans);
                    })
                    (commit 0);
            })
            (after 1 commit),
      )

module _ ⦃hash : Hash⦄ ⦃json : Json⦄ where
  abbrev pub warm_then : (Store → Store) → StoreOutcome ℕ → StoreOutcome ℕ
  warm_then emit (err e, s) = (err e, s)
  warm_then emit (ok n, s) = (ok n, if n == 0 then s else emit s)

  -- replaceScopes. `build` and `commit` number the readings of Phase 1 and of the rest.
  unfoldable pub replace_scopes : Store → List Group → Clock → Clock → Clock → StoreOutcome ℕ
  unfolding prepare_groups warm_plans emit_warm_event
  replace_scopes s grouped build commit emit = elim (prepare_groups s.ledger grouped build) [
    | err e ↦ (err e, s)
    | ok prepared ↦ elim prepared.offenders [
      | o ∷ os ↦ (err (scope_capacity (o ∷ os)), s)
      | [] ↦ warm_then (λ t. emit_warm_event t emit) (warm_plans s prepared.plans commit)
    ]
  ]

  -- rebuildAll: the scopes and the items of the new state.
  unfoldable pub rebuild_all : Store → List Group → Clock → Clock → Clock → StoreOutcome (ℕ × ℕ)
  unfolding prepare_groups rebuild_plans
  rebuild_all s grouped build make commit = elim (prepare_groups s.ledger grouped build) [
    | err e ↦ (err e, s)
    | ok prepared ↦ elim prepared.offenders [
      | o ∷ os ↦ (err (scope_capacity (o ∷ os)), s)
      | [] ↦ rebuild_plans s prepared.plans make commit
    ]
  ]
