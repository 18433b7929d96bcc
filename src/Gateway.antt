-- ===== src/Gateway.antt =====
-- gateway.go and gateway_clone.go: the Go API. A copy of a payload has the same bytes, so of
-- cloneItemPayload the clearing of the two fields that only the cache sets is left. A method is given
-- the store behind the gateway, and returns it.
pub mod Clean
mod Tests
use inmem_cache.Base.{ℕ, Bool, Option, none, some, List, map}
use inmem_cache.Base.Bytes.{Bytes, bytes}
use inmem_cache.Json.{Json}
use inmem_cache.Types.{Config, Item}
use inmem_cache.Errors.{ok, err}
use inmem_cache.Store.{Store, StoreOutcome, Clock, new_store}
use inmem_cache.Store.Sharding.{Hash}
use inmem_cache.Store.Events.{append_one}
use inmem_cache.Store.Write
use inmem_cache.Store.Read
use inmem_cache.Store.Read.{StoreStats, ScopeListEntry}
use inmem_cache.Store.Bulk
use inmem_cache.Store.Bulk.Prepare.{Group}
use inmem_cache.Store.Subscribe
use inmem_cache.Store.Subscribe.{SubscribeError}

unfoldable pub clone_item_payload : Item → Item
clone_item_payload item = record item { render_bytes = none; counter = none }

unfoldable pub clone_items_payloads : List Item → List Item
unfolding clone_item_payload
clone_items_payloads items = map clone_item_payload items

unfoldable pub clone_grouped_item_payloads : List Group → List Group
unfolding clone_items_payloads
clone_grouped_item_payloads grouped = map (λ (g : Group). (g.0, clone_items_payloads g.1)) grouped

-- `return cloneItemPayload(result), err`
unfoldable pub cloned_result : StoreOutcome Item → StoreOutcome Item
unfolding clone_item_payload
cloned_result (err e, s) = (err e, s)
cloned_result (ok x, s) = (ok (clone_item_payload x), s)

unfoldable pub cloned_upsert : StoreOutcome (Item × Bool) → StoreOutcome (Item × Bool)
unfolding clone_item_payload
cloned_upsert (err e, s) = (err e, s)
cloned_upsert (ok (x, created), s) = (ok (clone_item_payload x, created), s)

unfoldable pub cloned_hit : Option Item × Store → Option Item × Store
unfolding clone_item_payload
cloned_hit (none, s) = (none, s)
cloned_hit (some x, s) = (some (clone_item_payload x), s)

unfoldable pub cloned_page : (List Item × Bool × Bool) × Store → (List Item × Bool × Bool) × Store
unfolding clone_items_payloads
cloned_page ((items, more, found), s) = ((clone_items_payloads items, more, found), s)

module _ ⦃hash : Hash⦄ where
  -- NewGateway
  unfoldable pub new_gateway : Config → Clock → Store
  unfolding new_store
  new_gateway c clock = new_store c clock

  unfoldable pub wipe : Store → Clock → (ℕ × ℕ × ℕ) × Store
  unfolding Bulk.wipe
  wipe s clock = Bulk.wipe s clock

  unfoldable pub head : Store → Bytes → ℕ → ℕ → ℕ → (List Item × Bool × Bool) × Store
  unfolding cloned_page Read.head
  head s scope after_seq limit now_us = cloned_page (Read.head s scope after_seq limit now_us)

  unfoldable pub tail : Store → Bytes → ℕ → ℕ → ℕ → (List Item × Bool × Bool) × Store
  unfolding cloned_page Read.tail
  tail s scope limit offset now_us = cloned_page (Read.tail s scope limit offset now_us)

  unfoldable pub get_by_id : Store → Bytes → Bytes → ℕ → Option Item × Store
  unfolding cloned_hit Read.get
  get_by_id s scope id now_us = cloned_hit (Read.get s scope id 0 now_us)

  unfoldable pub get_by_seq : Store → Bytes → ℕ → ℕ → Option Item × Store
  unfolding cloned_hit Read.get
  get_by_seq s scope seq now_us = cloned_hit (Read.get s scope (bytes "") seq now_us)

  unfoldable pub render_by_id : Store → Bytes → Bytes → ℕ → Option Bytes × Store
  unfolding Read.render
  render_by_id s scope id now_us = Read.render s scope id 0 now_us

  unfoldable pub render_by_seq : Store → Bytes → ℕ → ℕ → Option Bytes × Store
  unfolding Read.render
  render_by_seq s scope seq now_us = Read.render s scope (bytes "") seq now_us

  unfoldable pub stats : Store → StoreStats
  unfolding Read.store_stats
  stats s = Read.store_stats s

  unfoldable pub scope_list : Store → Bytes → Bytes → ℕ → List ScopeListEntry × Bool
  unfolding Read.scope_list
  scope_list s prefix cursor limit = Read.scope_list s prefix cursor limit

unfoldable pub subscribe : Store → Bytes → Option SubscribeError × Store
unfolding Subscribe.subscribe
subscribe s scope = Subscribe.subscribe s scope

module _ ⦃hash : Hash⦄ ⦃json : Json⦄ where
  unfoldable pub append : Store → Item → Clock → StoreOutcome Item
  unfolding clone_item_payload cloned_result append_one
  append s item clock = cloned_result (append_one s (clone_item_payload item) clock)

  unfoldable pub upsert : Store → Item → Clock → StoreOutcome (Item × Bool)
  unfolding clone_item_payload cloned_upsert Write.upsert_one
  upsert s item clock = cloned_upsert (Write.upsert_one s (clone_item_payload item) clock)

  unfoldable pub update : Store → Item → Clock → StoreOutcome ℕ
  unfolding clone_item_payload Write.update_one
  update s item clock = Write.update_one s (clone_item_payload item) clock

  unfoldable pub counter_add : Store → Bytes → Bytes → ℕ → Clock → StoreOutcome (ℕ × Bool)
  unfolding Write.counter_add_one
  counter_add s scope id by clock = Write.counter_add_one s scope id by clock

  unfoldable pub delete : Store → Bytes → Bytes → ℕ → Clock → StoreOutcome ℕ
  unfolding Write.delete_one
  delete s scope id seq clock = Write.delete_one s scope id seq clock

  unfoldable pub delete_up_to : Store → Bytes → ℕ → Clock → StoreOutcome ℕ
  unfolding Write.delete_up_to
  delete_up_to s scope max_seq clock = Write.delete_up_to s scope max_seq clock

  unfoldable pub delete_scope : Store → Bytes → Clock → StoreOutcome (ℕ × Bool)
  unfolding Write.delete_scope
  delete_scope s scope clock = Write.delete_scope s scope clock

  unfoldable pub warm : Store → List Group → Clock → Clock → Clock → StoreOutcome ℕ
  unfolding clone_grouped_item_payloads Bulk.replace_scopes
  warm s grouped build commit emit =
      Bulk.replace_scopes s (clone_grouped_item_payloads grouped) build commit emit

  unfoldable pub rebuild : Store → List Group → Clock → Clock → Clock → StoreOutcome (ℕ × ℕ)
  unfolding clone_grouped_item_payloads Bulk.rebuild_all
  rebuild s grouped build make commit =
      Bulk.rebuild_all s (clone_grouped_item_payloads grouped) build make commit
