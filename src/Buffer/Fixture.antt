-- ===== src/Buffer/Fixture.antt =====
-- A scope with two items and a counter, for the tests.
use inmem_cache.Base.{
  nat_eq, ap, length, Option, ℕ, ◌≡◌, refl, true, false, none, some, [], ◌∷◌, arith,
}
use inmem_cache.Base.Bytes.{Bytes, bytes, bytes_beq, bytes_eq}
use inmem_cache.Base.Map
use inmem_cache.Json.{Json}
use inmem_cache.Types.{Item, EventsMode, approx_item_size}
use inmem_cache.Ledger.{Ledger, reserve_bytes, bump_last_write_ts}
use inmem_cache.Buffer.{
  ScopeBuffer, new_scope_buffer, charge, item_cap_exceeded, bump_if_attached, put_by_id,
  render_or_compute, precompute_render_bytes, trim_left,
}
use inmem_cache.Buffer.Write.{
  append_item, insert_new_item, push_item, count_item, fresh_item, zero_item,
}
use inmem_cache.Buffer.Items.Defs.{find_id, find_seq}
use inmem_cache.Buffer.Valid.{IsValid}
use inmem_cache.Buffer.Step.Insert.{append_item-Keeps}

-- Accepts every text, and reads a string as itself, and writes every event alike.
instance abbrev pub plain_json : Json
plain_json = record {
  valid = λ _. true;
  unmarshal_string = λ s. some s;
  unmarshal_number = λ s. some s;
  marshal_event = λ e. some (bytes "{}");
}

abbrev pub ledger : Ledger
ledger = record {
  default_max_items = 3;
  max_store_bytes = 5000;
  max_item_bytes = 1000;
  events_max_item_bytes = 2024;
  inbox_max_items = 10;
  inbox_max_item_bytes = 500;
  events_mode = EventsMode.off;
  events_drops_total = 0;
  total_bytes = 3072;
  total_items = 0;
  scope_count = 3;
  last_write_ts = 0;
}

abbrev pub empty : ScopeBuffer
unfolding new_scope_buffer
empty = record (new_scope_buffer 3 7) { attached = true }

abbrev pub first : Item
first = record zero_item { scope = bytes "s"; id = bytes "a"; payload = bytes "5" }

abbrev pub second : Item
second = record zero_item { scope = bytes "s"; id = bytes "b"; payload = bytes "true" }

pub empty-IsValid : IsValid empty
unfolding empty inmem_cache.Buffer.Items.Defs.find_id Map.lookup
    inmem_cache.Buffer.Items.Defs.find_seq inmem_cache.Buffer.Items.Defs.sum_sizes
empty-IsValid = record {
  ascends = tt;
  at_most = tt;
  distinct = tt;
  ids_agree = λ k. refl;
  seqs_agree = λ s. refl;
  sized = tt;
  bytes_sum = refl;
  within_cap = λ _. omega arith;
}

-- After an append of `first`.
abbrev pub one : ScopeBuffer
one = record {
  attached = true;
  detached = false;
  items = record first { seq = 1; ts = 8 } ∷ [];
  by_id = (bytes "a", record first { seq = 1; ts = 8 }) ∷ [];
  by_seq = (1, record first { seq = 1; ts = 8 }) ∷ [];
  cells = [];
  last_seq = 1;
  max_items = 3;
  bytes = 51;
  id_key_bytes = 1;
  created_ts = 7;
  last_write_ts = 8;
  last_access_ts = 0;
  read_count_total = 0;
}

abbrev pub ledger_one : Ledger
ledger_one = record ledger { total_bytes = 3123; total_items = 1; last_write_ts = 8 }

pub one-IsValid : IsValid one
unfolding append_item insert_new_item push_item count_item fresh_item charge item_cap_exceeded
    bump_if_attached put_by_id render_or_compute precompute_render_bytes trim_left approx_item_size
    reserve_bytes bump_last_write_ts Map.put Map.lookup bytes_beq empty
one-IsValid =
    (append_item-Keeps empty ledger first 8 empty-IsValid (omega arith) (omega arith)).valid

abbrev or_first : Option Item → Item
or_first none = first
or_first (some x) = x

pub short_by_id :
    (id : Bytes) (x : Item)
    → find_id one.items id ≡ some x
    → (length x.scope ≡ 1) × (length x.id ≡ 1)
unfolding find_id
short_by_id id x e =
    ground (arith, ap (λ y. length (or_first y).scope) e, ap (λ y. length (or_first y).id) e)

pub short_by_seq :
    (s : ℕ) (x : Item) → find_seq one.items s ≡ some x → (length x.scope ≡ 1) × (length x.id ≡ 1)
unfolding find_seq
short_by_seq s x e =
    ground (arith, ap (λ y. length (or_first y).scope) e, ap (λ y. length (or_first y).id) e)
