-- ===== src/Buffer.antt =====
-- buffer.go and buffer_locked.go: the state of one scope and the helpers of its write paths. A
-- method returns its result with the scope and the ledger after it. The mutex is not modelled: a
-- method that holds it runs alone. `time.Now()` is the argument `now_us`.
pub mod Write
pub mod Delete
pub mod Read
pub mod Stats
pub mod Replace
pub mod Valid
pub mod Step
pub mod Spec
pub mod Counter
pub mod Items
pub mod Fixture
mod Tests
use inmem_cache.Base.{
  ℕ, ◌+◌, ◌*◌, Bool, true, false, ◌&&◌, not, Option, none, some, List, [], ◌∷◌, length, get_elem?,
  set, ◌==◌, ltb, leb, if◌then◌else◌, nat_eq,
}
use inmem_cache.Base.Word.{word, add64, sub64, slt}
use inmem_cache.Base.Bytes.{Bytes, is_empty, bytes_eq}
use inmem_cache.Base.Map
use inmem_cache.Base.Map.{Map}
use inmem_cache.Search.{sort_search}
use inmem_cache.Json.{Json}
use inmem_cache.Types.{Item, CounterCell, counter_cell_overhead, payload_cost, length_opt}
use inmem_cache.Errors.{Error, store_full, Result, ok, err}
use inmem_cache.Ledger.{Ledger, Reservation, reserve_bytes, bump_last_write_ts}

-- `attached` is `store != nil`. A cell is never freed: `cells` only grows.
pub record ScopeBuffer : Type 0 where
  pub attached : Bool
  pub detached : Bool
  pub items : List Item
  pub by_id : Map Bytes Item
  pub by_seq : Map ℕ Item
  pub cells : List CounterCell
  pub last_seq : ℕ
  pub max_items : ℕ
  pub bytes : ℕ
  pub id_key_bytes : ℕ
  pub created_ts : ℕ
  pub last_write_ts : ℕ
  pub last_access_ts : ℕ
  pub read_count_total : ℕ

unfoldable pub new_scope_buffer : ℕ → ℕ → ScopeBuffer
new_scope_buffer max_items now_us = record {
  attached = false;
  detached = false;
  items = [];
  by_id = [];
  by_seq = [];
  cells = [];
  last_seq = 0;
  max_items = max_items;
  bytes = 0;
  id_key_bytes = 0;
  created_ts = now_us;
  last_write_ts = now_us;
  last_access_ts = 0;
  read_count_total = 0;
}

-- The result of a method, the scope and the ledger after it.
abbrev pub Outcome : Type 0 → Type 0
Outcome A = Result A × ScopeBuffer × Ledger

-- `bytes.TrimLeft(payload, " \t\r\n")`
unfoldable pub trim_left : Bytes → Bytes
trim_left [] = []
trim_left (c ∷ s) =
    let rest = trim_left s in
    if c == 32
    then rest
    else if c == 9
    then rest
    else if c == 13
    then rest
    else if c == 10
    then rest
    else c ∷ s

-- `len(trimmed) == 0 || trimmed[0] != '"'`, negated
abbrev starts_with_quote : Bytes → Bool
starts_with_quote [] = false
starts_with_quote (c ∷ s) = c == b'"'

module _ ⦃json : Json⦄ where
  unfoldable pub precompute_render_bytes : Bytes → Option Bytes
  precompute_render_bytes payload =
      if starts_with_quote (trim_left payload) then json.unmarshal_string payload else none

  -- `if r == nil { r = precomputeRenderBytes(payload) }`
  unfoldable pub render_or_compute : Option Bytes → Bytes → Option Bytes
  render_or_compute none payload = precompute_render_bytes payload
  render_or_compute (some r) payload = some r

unfoldable pub item_cap_exceeded : ScopeBuffer → ℕ → Bool
item_cap_exceeded b proposed = slt 0 b.max_items && slt b.max_items proposed

-- The reservation `if b.store != nil { ok, current, max := b.store.reserveBytes(size); if !ok … }`
-- of the write paths: the ledger after it, or the error.
unfoldable pub charge : ScopeBuffer → Ledger → ℕ → Result Ledger
charge b l size =
    if b.attached
    then (let r = reserve_bytes l size in
        if r.granted then ok r.after else err (store_full r.total size r.cap))
    else ok l

-- reservePayloadDeltaLocked, and the same steps in upsertByID: the delta with the ledger after.
unfoldable pub reserve_payload_delta : ScopeBuffer → Ledger → ℕ → ℕ → Result (ℕ × Ledger)
unfolding charge
reserve_payload_delta b l old_size new_size =
    let delta = sub64 new_size old_size in
    if delta == 0
    then ok (0, l)
    else elim (charge b l delta) [ err e ↦ err e | ok l' ↦ ok (delta, l') ]

-- payloadAndRenderBytes
unfoldable pub payload_and_render_bytes : Item → ℕ
payload_and_render_bytes item = word (payload_cost item)

-- `if b.store != nil { b.store.bumpLastWriteTS(ts) }`
unfoldable pub bump_if_attached : ScopeBuffer → Ledger → ℕ → Ledger
bump_if_attached b l now_us = if b.attached then bump_last_write_ts l now_us else l

-- The item at an index; out of bounds, where Go panics, never read by the callers.
unfoldable pub seq_at : List Item → ℕ → ℕ
seq_at items i = elim (get_elem? items i) [ none ↦ 0 | some x ↦ x.seq ]

-- indexBySeqLocked
unfoldable pub index_by_seq : List Item → ℕ → Option ℕ
unfolding sort_search seq_at
index_by_seq items seq =
    let i = sort_search (length items) (λ k. leb seq (seq_at items k)) in
    if i == length items then none else if seq_at items i == seq then some i else none

-- `b.byID[item.ID] = item`, where the id is not empty
unfoldable pub put_by_id : Map Bytes Item → Item → Map Bytes Item
unfolding Map.put
put_by_id m item = if is_empty item.id then m else Map.put m item.id item

-- The item at items[i] with its payload, ts and renderBytes replaced and its cell cleared.
abbrev pub replaced : Item → Bytes → ℕ → Option Bytes → Item
replaced x payload ts render_bytes = record x {
  payload = payload;
  ts = ts;
  render_bytes = render_bytes;
  counter = none;
}

-- replaceItemAtIndexLocked, where `x` is the item at `i`.
unfoldable pub replace_item_at_index :
    ScopeBuffer → Ledger → ℕ → Item → Bytes → ℕ → Option Bytes → ℕ → ScopeBuffer × Ledger
unfolding put_by_id bump_if_attached
replace_item_at_index b l i x payload ts render_bytes delta =
    let updated = replaced x payload ts render_bytes in
    (
      record b {
        items = set b.items i updated;
        by_seq = Map.put b.by_seq updated.seq updated;
        by_id = put_by_id b.by_id updated;
        bytes = add64 b.bytes delta;
        last_write_ts = ts;
      },
      bump_if_attached b l ts,
    )
