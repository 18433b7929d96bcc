-- ===== src/Store/Fixture.antt =====
-- A new store, and one with an item, for the tests.
use mathlib.Core.Path.{subst}
use inmem_cache.Buffer.Items.Defs.{IsSized, find_id, find_seq}
use inmem_cache.Base.{
  ℕ, ◌+◌, ◌^◌, ◌<◌, ◌≡◌, refl, Option, none, some, [], ◌∷◌, arith, ap, length, List, sym, ◌∙◌, ◌⊎◌,
  inl, inr,
}
use inmem_cache.Base.Bytes.{Bytes, bytes, bytes_beq}
use inmem_cache.Types.{Config, EventsMode, Item, events_scope_name}
use inmem_cache.Buffer.{ScopeBuffer, render_or_compute, precompute_render_bytes, trim_left}
use inmem_cache.Buffer.Write.{zero_item, fresh_item}
use inmem_cache.Buffer.Fixture.{plain_json, first, one}
use inmem_cache.Validate.{with_render}
use inmem_cache.Store.{Store, Clock, new_store}
use inmem_cache.Store.Sharding.{Hash, find_scope}
use inmem_cache.Store.Events.{append_one}
use inmem_cache.Store.Valid.Events.{IsSound, EventsFit, append_one-IsSound}
use inmem_cache.Store.Valid.Reset.{new_store-IsStored, new_store-HasRoom}

-- Two shards are used.
instance abbrev pub by_length : Hash
by_length = record { hash_string = λ s. length s }

abbrev pub config : Config
config = record {
  scope_max_items = 3;
  max_store_bytes = 100000;
  max_item_bytes = 1000;
  events_mode = EventsMode.full;
  inbox = record { max_items = 2; max_item_bytes = 500 };
}

abbrev pub ticks : Clock
ticks = λ k. 10 + k

pub fresh : (n : ℕ) → n < 2 ^ 63 → IsSound n (new_store config ticks)
fresh n small = record {
  stored = new_store-IsStored config ticks (omega arith);
  room = new_store-HasRoom config ticks n (omega arith) small;
}

abbrev text : Option Bytes → Bytes
text none = []
text (some b) = b

pub fits : EventsFit plain_json
unfolding fresh_item render_or_compute precompute_render_bytes trim_left
fits evt body now_us e =
    subst
      (λ o. IsSized (
        fresh_item (with_render (record zero_item { scope = events_scope_name; payload = text o }))
          now_us))
      e (omega arith)

-- A store with the scope `s` and one item in it.
abbrev pub quiet : Config
quiet = record config { events_mode = EventsMode.off }

unfoldable pub seeded : Store
seeded = (append_one (new_store quiet ticks) first ticks).1

pub seeded-IsSound : IsSound (0 + 1 + 1) seeded
unfolding seeded
seeded-IsSound =
    append_one-IsSound (0 + 1 + 1) (new_store quiet ticks) first ticks (omega arith) fits
      (unfold fresh_item render_or_compute precompute_render_bytes trim_left in omega arith)
      (record {
        stored = new_store-IsStored quiet ticks (omega arith);
        room = new_store-HasRoom quiet ticks _ (omega arith) (omega arith);
      })

abbrev pub seeded_item : Item
seeded_item = record first { seq = 1; ts = 11 }

abbrev pub seeded_buffer : ScopeBuffer
seeded_buffer = record one {
  items = seeded_item ∷ [];
  by_id = (bytes "a", seeded_item) ∷ [];
  by_seq = (1, seeded_item) ∷ [];
  created_ts = 10;
  last_write_ts = 11;
}

pub seeded_found : find_scope seeded.shards (bytes "s") ≡ some seeded_buffer
unfolding seeded append_one new_store find_scope bytes_beq inmem_cache.Types.approx_item_size
    render_or_compute precompute_render_bytes trim_left inmem_cache.Buffer.item_cap_exceeded
    inmem_cache.Buffer.Write.insert_new_item inmem_cache.Buffer.charge
    inmem_cache.Buffer.bump_if_attached inmem_cache.Ledger.bump_last_write_ts
seeded_found = refl

abbrev held : Option ScopeBuffer → List Item
held none = []
held (some b) = b.items

abbrev or_first : Option Item → Item
or_first none = first
or_first (some x) = x

-- The items of the scope have a name and an id of one byte.
pub short :
    (b : ScopeBuffer) (x : Item)
    → find_scope seeded.shards (bytes "s") ≡ some b
    → (find_id b.items (bytes "a") ≡ some x) ⊎ (find_seq b.items 0 ≡ some x)
    → (length x.scope ≡ 1) × (length x.id ≡ 1)
unfolding find_id find_seq bytes_beq
short b x found (inl at) =
    let e = ap (λ o. find_id (held o) (bytes "a")) (sym seeded_found ∙ found) ∙ at in
    (ap (λ o. length (or_first o).scope) (sym e), ap (λ o. length (or_first o).id) (sym e))
short b x found (inr at) =
    let e = ap (λ o. find_seq (held o) 0) (sym seeded_found ∙ found) ∙ at in
    (ap (λ o. length (or_first o).scope) (sym e), ap (λ o. length (or_first o).id) (sym e))
