-- ===== src/Store/Tests.antt =====
-- The theorems about the store, on a new store and on one with an item.
use mathlib.Core.Path.{subst}
use inmem_cache.Base.{ℕ, List, ap, ◌^◌, ◌<◌, ◌+◌, ◌≡◌, refl, false, [], ◌∷◌, arith}
use inmem_cache.Base.Bytes.{bytes, bytes_beq, bytes_eq}
use inmem_cache.Base.Map
use inmem_cache.Base.Map.{DistinctKeys}
use inmem_cache.Types.{events_scope_name}
use inmem_cache.Buffer.{render_or_compute, precompute_render_bytes, trim_left}
use inmem_cache.Buffer.Write.{fresh_item}
use inmem_cache.Buffer.Fixture.{plain_json, first, one}
use inmem_cache.Store.{Store, new_store}
use inmem_cache.Store.Events.{append_one}
use inmem_cache.Store.Write.{delete_one, delete_scope}
use inmem_cache.Base.{◌↔◌}
use inmem_cache.Base.Word.{word}
use inmem_cache.Errors.{Result, ok, err}
use inmem_cache.Buffer.Fixture.{ledger}
use inmem_cache.Buffer.Items.Defs.{sum_ids}
use inmem_cache.Buffer.Valid.{IsIdCounted}
use inmem_cache.Buffer.Replace.{ScopeReplacement, build_replacement_state, adopt}
use inmem_cache.Store.Bulk.{rebuilt_buffer, replace_scopes, rebuild_all}
use inmem_cache.Store.Bulk.Contents.{IsReplaced, replace_scopes_exact}
use inmem_cache.Store.Bulk.Rebuilt.{IsRebuilt, rebuild_all_exact}
use inmem_cache.Store.Bulk.Counted.{rebuilt_buffer-IsIdCounted}
use inmem_cache.Store.Subscribe.{subscribe, notify_subscriber, receive}
use inmem_cache.Store.Subscribe.Registry.{
  OnlyReserved, SameData, subscribes, notifies, receives, idle, new_store-OnlyReserved,
  Calls-OnlyReserved,
}
use inmem_cache.Store.Subscribe.Coalesce.{wakes, looks, run, woken, receive-run}
use inmem_cache.Store.Valid.Refused.{Atomic, append_one-Atomic}
use inmem_cache.Store.Valid.{IsStored}
use inmem_cache.Store.Valid.Events.{IsSound, append_one-IsSound}
use inmem_cache.Store.Fixture.{by_length, config, ticks, fresh, fits, quiet, seeded, seeded-IsSound}
use inmem_cache.Store.Valid.Run.{start, and_then, append, delete, drop, warm, Fits, Run-IsStored}
use inmem_cache.Store.Bulk.Prepare.{
  Group, Prepared, prepare_groups, prepare_group, check_items, plan_group,
}
use inmem_cache.Store.Valid.Commit.{charges, raw_total}
use inmem_cache.Validate.{validate_write_item, validate_scope, is_reserved_scope}
use inmem_cache.Buffer.Replace.{build_items}
use inmem_cache.Store.Valid.Reset.{new_store-IsStored}
use inmem_cache.Store.Valid.Initial.{IsInitial, new_store_exact}

new_store_exact_example : IsInitial config ticks (new_store config ticks)
new_store_exact_example = new_store_exact config ticks

abbrev batch : List Group
batch = (bytes "s", record first { id = bytes "b" } ∷ []) ∷ []

abbrev size_of : Result Prepared → ℕ
unfolding charges raw_total
size_of (err e) = 0
size_of (ok p) = charges p.plans

batch_distinct : DistinctKeys batch
unfolding DistinctKeys Map.lookup
batch_distinct = (refl, tt)

batch-Fits : Fits (new_store config ticks) batch ticks
unfolding charges raw_total prepare_groups prepare_group check_items plan_group validate_write_item
    validate_scope is_reserved_scope build_replacement_state build_items fresh_item new_store
    render_or_compute precompute_render_bytes trim_left bytes_beq size_of Map.lookup
    inmem_cache.Types.approx_item_size
batch-Fits p made = subst (λ n. n < 2 ^ 62) (ap size_of made) (omega arith)

-- A warm of a scope, an append to it, a delete and the removal of the scope.
Run-IsStored_example :
    IsStored
      (delete_scope
        (delete_one
          (append_one
            (replace_scopes (new_store config ticks) batch ticks ticks ticks).1
            first
            ticks).1
          (bytes "s")
          (bytes "a")
          0
          ticks).1
        (bytes "s")
        ticks).1
unfolding fresh_item render_or_compute precompute_render_bytes trim_left
Run-IsStored_example = Run-IsStored config ticks 4 _ (omega arith) (omega arith) fits (
    and_then
      (and_then
        (and_then (and_then start (warm batch ticks ticks ticks batch_distinct batch-Fits))
          (append first ticks (omega arith)))
        (delete (bytes "s") (bytes "a") 0 ticks))
      (drop (bytes "s") ticks))

append_one-IsSound_example : IsSound 0 (append_one (new_store config ticks) first ticks).1
unfolding fresh_item render_or_compute precompute_render_bytes trim_left
append_one-IsSound_example =
    append_one-IsSound 0 (new_store config ticks) first ticks (omega arith) fits (omega arith)
      (fresh (0 + 1 + 1) (omega arith))

replace_scopes_exact_example :
    IsReplaced
      (new_store config ticks)
      batch
      ticks
      (replace_scopes (new_store config ticks) batch ticks ticks ticks)
replace_scopes_exact_example =
    replace_scopes_exact (new_store config ticks) batch ticks ticks ticks
      (new_store-IsStored config ticks (omega arith)).sharded batch_distinct (omega arith, tt)

rebuild_all_exact_example : IsRebuilt seeded batch (rebuild_all seeded batch ticks ticks ticks)
rebuild_all_exact_example =
    rebuild_all_exact seeded batch ticks ticks ticks batch_distinct (omega arith, tt)

-- The id `a` stands in the scope.
append_one-Atomic_example : Atomic seeded (append_one seeded first ticks)
append_one-Atomic_example = append_one-Atomic seeded first ticks seeded-IsSound.stored

abbrev listening : Store
listening = (subscribe (new_store quiet ticks) events_scope_name).1

receive-run_example :
    (receive
      (run (wakes ∷ wakes ∷ looks ∷ wakes ∷ wakes ∷ []) listening events_scope_name)
      events_scope_name).0
    ≡ woken false (wakes ∷ wakes ∷ looks ∷ wakes ∷ wakes ∷ [])
unfolding bytes_beq
receive-run_example =
    receive-run (wakes ∷ wakes ∷ looks ∷ wakes ∷ wakes ∷ []) (new_store quiet ticks)
      events_scope_name (unfold subscribe new_store in refl)

-- A subscription, a wake-up and a receive, on a store that has no subscriber yet.
Calls-OnlyReserved_example :
    OnlyReserved (receive (notify_subscriber listening events_scope_name) events_scope_name).1
    × SameData
        (new_store quiet ticks)
        (receive (notify_subscriber listening events_scope_name) events_scope_name).1
Calls-OnlyReserved_example =
    Calls-OnlyReserved
      (receives events_scope_name (notifies events_scope_name (subscribes events_scope_name idle)))
      (new_store-OnlyReserved quiet ticks)

made : ScopeReplacement
made = record {
  items = record first { seq = 1; ts = 8 } ∷ [];
  by_id = (bytes "a", record first { seq = 1; ts = 8 }) ∷ [];
  by_seq = (1, record first { seq = 1; ts = 8 }) ∷ [];
  last_seq = 1;
  id_key_bytes = 1;
}

made-built : build_replacement_state (first ∷ []) 8 ≡ ok made
unfolding made build_replacement_state render_or_compute precompute_render_bytes trim_left
made-built = refl

rebuilt_buffer-IsIdCounted_example :
    IsIdCounted (adopt one made 51 9)
    × (IsIdCounted (
          rebuilt_buffer ledger
            (record { scope = bytes "s"; replacement = made; new_bytes = 51 })
            9)
        ↔ (word (sum_ids made.items) ≡ 0))
rebuilt_buffer-IsIdCounted_example =
    rebuilt_buffer-IsIdCounted (first ∷ []) 8 made one ledger (bytes "s") 51 9 made-built
