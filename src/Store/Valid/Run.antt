-- ===== src/Store/Valid/Run.antt =====
-- Any sequence of operations of the store, from a new one on.
use mathlib.Core.Path.{subst}
use inmem_cache.Base.{ℕ, zero, suc, ◌+◌, ◌*◌, ◌^◌, ◌≤◌, ◌<◌, ◌≡◌, ◌⊎◌, some, List, arith}
use inmem_cache.Base.Bytes.{Bytes, bytes_eq}
use inmem_cache.Json.{Json}
use inmem_cache.Types.{Config, Item, scope_buffer_overhead}
use inmem_cache.Buffer.{ScopeBuffer}
use inmem_cache.Buffer.Write.{fresh_item}
use inmem_cache.Buffer.Counter.{counter_item, promoted_item}
use inmem_cache.Buffer.Items.Defs.{find_id, find_seq, IsSized}
use inmem_cache.Validate.{with_render}
use inmem_cache.Store.{Store, Clock, new_store}
use inmem_cache.Store.Sharding.{Hash, find_scope}
use inmem_cache.Store.Events.{append_one}
use inmem_cache.Store.Write.{
  upsert_one, counter_add_one, update_one, delete_one, delete_up_to, delete_scope,
}
use inmem_cache.Store.Bulk.{wipe, replace_scopes, rebuild_all}
use inmem_cache.Store.Bulk.Prepare.{Group, Prepared, prepare_groups}
use inmem_cache.Store.Valid.Commit.{charges}
use inmem_cache.Store.Valid.Warm.{replace_scopes-IsSound}
use inmem_cache.Store.Valid.Rebuild.{rebuild_all-IsSound}
use inmem_cache.Base.Map.{DistinctKeys}
use inmem_cache.Errors.{ok}
use inmem_cache.Store.Valid.{IsStored}
use inmem_cache.Store.Valid.Events.{IsSound, IsSound-weaken, EventsFit, append_one-IsSound}
use inmem_cache.Store.Valid.Write.{
  rewritten, delete_one-IsSound, delete_up_to-IsSound, delete_scope-IsSound, update_one-IsSound,
  upsert_one-IsSound,
}
use inmem_cache.Store.Valid.Count.{counter_add_one-IsSound}
use inmem_cache.Store.Valid.Reset.{
  new_store-IsStored, new_store-HasRoom, wipe-IsStored, wipe-HasRoom,
}

module _ ⦃hash : Hash⦄ ⦃json : Json⦄ where
  -- What the scopes of a batch will be charged fits an int64.
  abbrev pub Fits : Store → List Group → Clock → Type 0
  Fits s grouped build =
      (p : Prepared) → prepare_groups s.ledger grouped build ≡ ok p → charges p.plans < 2 ^ 62

  -- One operation, at any input whose items fit an int64. A wipe also needs a cap that has room for
  -- the reserved scopes, and the names of a batch, which are the keys of a map, are different.
  pub data Op (s : Store) : Store → Type 0 where
    append :
        (item : Item) (clock : Clock)
        → IsSized (fresh_item (with_render item) (clock 1))
        → Op s ((append_one s item clock).1)
    upsert :
        (item : Item) (clock : Clock)
        → IsSized (fresh_item (with_render item) (clock 1))
        → ((b : ScopeBuffer) (x : Item)
            → find_scope s.shards item.scope ≡ some b
            → find_id b.items item.id ≡ some x
            → IsSized (rewritten item x (clock 1)))
        → Op s ((upsert_one s item clock).1)
    update :
        (item : Item) (clock : Clock)
        → ((b : ScopeBuffer) (x : Item)
            → find_scope s.shards item.scope ≡ some b
            → (find_id b.items item.id ≡ some x) ⊎ (find_seq b.items item.seq ≡ some x)
            → IsSized (rewritten item x (clock 0)))
        → Op s ((update_one s item clock).1)
    counter_add :
        (scope id : Bytes) (by : ℕ) (clock : Clock)
        → IsSized (counter_item scope id 0 0)
        → ((b : ScopeBuffer) (x : Item)
            → find_scope s.shards scope ≡ some b
            → find_id b.items id ≡ some x
            → IsSized (promoted_item x 0))
        → Op s ((counter_add_one s scope id by clock).1)
    delete :
        (scope id : Bytes) (seq : ℕ) (clock : Clock) → Op s ((delete_one s scope id seq clock).1)
    drain :
        (scope : Bytes) (max_seq : ℕ) (clock : Clock)
        → Op s ((delete_up_to s scope max_seq clock).1)
    drop : (scope : Bytes) (clock : Clock) → Op s ((delete_scope s scope clock).1)
    reset :
        (clock : Clock)
        → 2 * scope_buffer_overhead ≤ s.ledger.max_store_bytes
        → Op s ((wipe s clock).1)
    warm :
        (grouped : List Group) (build commit emit : Clock)
        → DistinctKeys grouped
        → Fits s grouped build
        → Op s ((replace_scopes s grouped build commit emit).1)
    rebuild :
        (grouped : List Group) (build make commit : Clock)
        → DistinctKeys grouped
        → Fits s grouped build
        → Op s ((rebuild_all s grouped build make commit).1)

  -- `k` operations on end.
  pub data Run (s : Store) : ℕ → Store → Type 0 where
    start : Run s zero s
    and_then : {k : ℕ} {t u : Store} → Run s k t → Op t u → Run s (suc k) u

  module _ (fit : EventsFit json) where
    Op-IsSound : {s u : Store} (n : ℕ) → n < 2 ^ 61 → Op s u → IsSound (n + 1 + 1) s → IsSound n u
    Op-IsSound {s} n small (append item clock sized) h =
        append_one-IsSound n s item clock small fit sized h
    Op-IsSound {s} n small (upsert item clock sized old) h =
        upsert_one-IsSound n s clock small fit h item sized old
    Op-IsSound {s} n small (update item clock old) h =
        update_one-IsSound n s clock small fit h item old
    Op-IsSound {s} n small (counter_add scope id by clock sized old) h =
        counter_add_one-IsSound n s clock small fit h scope id by sized old
    Op-IsSound {s} n small (delete scope id seq clock) h =
        delete_one-IsSound n s clock small fit h scope id seq
    Op-IsSound {s} n small (drain scope max_seq clock) h =
        delete_up_to-IsSound n s clock small fit h scope max_seq
    Op-IsSound {s} n small (drop scope clock) h = delete_scope-IsSound n s clock small fit h scope
    Op-IsSound {s} n small (reset clock fits) h = record {
      stored = wipe-IsStored s clock h.stored fits;
      room = wipe-HasRoom s clock n h.stored fits (omega arith);
    }
    Op-IsSound {s} n small (warm grouped build commit emit distinct fits) h =
        replace_scopes-IsSound n s small fit (IsSound-weaken (n + 1) 1 s h) grouped build commit
          emit distinct (λ p good. omega (arith, fits p good))
    Op-IsSound {s} n small (rebuild grouped build make commit distinct fits) h =
        rebuild_all-IsSound n s grouped build make commit
          (IsSound-weaken n 1 s (IsSound-weaken (n + 1) 1 s h)) distinct
          (λ p good. omega (arith, fits p good))

    Run-IsSound :
        {s t : Store} {k : ℕ} (n : ℕ)
        → n + 2 * k < 2 ^ 61
        → Run s k t
        → IsSound (n + 2 * k) s
        → IsSound n t
    Run-IsSound {s} n small start h = subst (λ m. IsSound m s) (omega arith) h
    Run-IsSound {s} n small (and_then {k} run op) h =
        Op-IsSound n (omega arith) op
          (Run-IsSound (n + 1 + 1) (omega arith) run (subst (λ m. IsSound m s) (omega arith) h))

  -- From a new store of any configuration, after any sequence of at most 2 ^ 60 - 1 appends,
  -- upserts, updates, counter adds, deletes, drains, deletes of a scope, wipes, warms and
  -- rebuilds, each with its event, the accounting of the store is right, whatever each of them
  -- returns: the byte counter is what the scopes are charged and within the cap, the counters
  -- of items and scopes agree with the scopes modulo 2 ^ 64, every scope is well-formed, and a
  -- scope that is not reserved has the configured cap on items. The items have to fit an int64,
  -- the batch of a warm or a rebuild 2 ^ 62 bytes, and the texts of the events an int64; the
  -- names of a batch are different, and a wipe needs a cap that has room for the reserved
  -- scopes.
  pub Run-IsStored :
      (c : Config) (clock : Clock) (k : ℕ) (t : Store)
      → c.max_store_bytes < 2 ^ 64
      → k < 2 ^ 60
      → EventsFit json
      → Run (new_store c clock) k t
      → IsStored t
  Run-IsStored c clock k t range small fit run =
      (Run-IsSound fit 0 (omega arith) run (record {
        stored = new_store-IsStored c clock range;
        room = new_store-HasRoom c clock (0 + 2 * k) range (omega arith);
      })).stored
