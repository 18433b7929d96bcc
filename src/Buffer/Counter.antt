-- ===== src/Buffer/Counter.antt =====
-- buffer_counter.go: counterAdd with its fast and its slow path. A call runs alone here, so the
-- compare-and-swap loops succeed at once.
pub mod Race
use inmem_cache.Base.{
  ℕ, ◌+◌, ◌-◌, ◌^◌, Bool, true, false, ◌||◌, Option, none, some, List, [], ◌∷◌, ◌++◌, length,
  get_elem?, set, if◌then◌else◌, nat_eq,
}
use inmem_cache.Base.Word.{add64, slt}
use inmem_cache.Base.Bytes.{Bytes, bytes_eq}
use inmem_cache.Base.Map
use inmem_cache.Decimal.{parse_int}
use inmem_cache.Json.{Json}
use inmem_cache.Types.{Item, CounterCell, max_counter_value, approx_item_size}
use inmem_cache.Errors.{
  scope_detached, scope_full, counter_payload, counter_overflow, not_number, not_integer,
  out_of_range, Result, ok, err,
}
use inmem_cache.Ledger.{Ledger}
use inmem_cache.Buffer.{
  ScopeBuffer, Outcome, item_cap_exceeded, charge, index_by_seq, reserve_payload_delta,
}
use inmem_cache.Buffer.Write.{push_item, count_item}

-- `v > MaxCounterValue || v < -MaxCounterValue`
abbrev pub out_of_counter_range : ℕ → Bool
out_of_counter_range v = slt max_counter_value v || slt v (2 ^ 64 - max_counter_value)

-- The cell behind a pointer. Every pointer of an item is one that `counterAddSlow` made.
abbrev pub cell_at : List CounterCell → ℕ → CounterCell
cell_at cells c = elim (get_elem? cells c) [ none ↦ record { value = 0; ts = 0 } | some x ↦ x ]

-- atomicCounterAdd
unfoldable pub atomic_counter_add : List CounterCell → ℕ → ℕ → ℕ → Result ℕ × List CounterCell
atomic_counter_add cells c by now_us =
    let cell = cell_at cells c in
    let next = add64 cell.value by in
    if out_of_counter_range next then (err (counter_overflow cell.value by), cells) else (
      ok next,
      set cells c (record { value = next; ts = if slt cell.ts now_us then now_us else cell.ts }),
    )

-- The two returns after atomicCounterAdd: nothing was created.
unfoldable pub incremented : ScopeBuffer → Ledger → Result ℕ × List CounterCell → Outcome (ℕ × Bool)
incremented b l (err e, cells) = (err e, b, l)
incremented b l (ok value, cells) = (ok (value, false), record b { cells = cells }, l)

unfoldable pub increment : ScopeBuffer → Ledger → ℕ → ℕ → ℕ → Outcome (ℕ × Bool)
unfolding atomic_counter_add incremented
increment b l c by now_us = incremented b l (atomic_counter_add b.cells c by now_us)

unfoldable pub parse_counter_value : ⦃json : Json⦄ → Bytes → Result ℕ
parse_counter_value ⦃json⦄ payload = elim (json.unmarshal_number payload) [
  | none ↦ err (counter_payload not_number)
  | some num ↦ elim (parse_int num) [
    | none ↦ err (counter_payload not_integer)
    | some v ↦ if out_of_counter_range v then err (counter_payload out_of_range) else ok v
  ]
]

-- The promotion's new item: a pointer to a fresh cell, the payload and renderBytes cleared.
abbrev pub promoted_item : Item → ℕ → Item
promoted_item existing c = record existing { counter = some c; payload = []; render_bytes = none }

-- The commit of a promotion at `i`.
unfoldable pub promote_at : ScopeBuffer → ℕ → Item → Bytes → ℕ → ℕ → ℕ → ScopeBuffer
promote_at b i promoted id delta value now_us = record b {
  items = set b.items i promoted;
  by_seq = Map.put b.by_seq promoted.seq promoted;
  by_id = Map.put b.by_id id promoted;
  cells = b.cells ++ record { value = value; ts = now_us } ∷ [];
  bytes = add64 b.bytes delta;
}

-- A promotion of an item whose payload reads as `current`, once the range is checked.
unfoldable pub promote_found : ScopeBuffer → Ledger → Item → Bytes → ℕ → ℕ → ℕ → Outcome (ℕ × Bool)
unfolding promote_at
promote_found b l existing id current by now_us =
    let promoted = promoted_item existing (length b.cells) in
    elim (index_by_seq b.items existing.seq) [
      | none ↦ (ok (0, false), b, l)
      | some i ↦
          elim (reserve_payload_delta b l (approx_item_size existing) (approx_item_size promoted)) [
            | err e ↦ (err e, b, l)
            | ok (delta, l') ↦ (
              ok (add64 current by, false),
              promote_at b i promoted id delta (add64 current by) now_us,
              l',
            )
          ]
    ]

-- The promote branch of counterAddSlow, for an existing item without a cell.
unfoldable pub promote :
    ⦃json : Json⦄ → ScopeBuffer → Ledger → Item → Bytes → ℕ → ℕ → Outcome (ℕ × Bool)
unfolding promote_found
promote b l existing id by now_us = elim (parse_counter_value existing.payload) [
  | err e ↦ (err e, b, l)
  | ok current ↦
      if out_of_counter_range (add64 current by)
      then (err (counter_overflow current by), b, l)
      else promote_found b l existing id current by now_us
]

-- The item of a new counter, before its seq.
abbrev pub counter_item : Bytes → Bytes → ℕ → ℕ → Item
counter_item scope id c now_us = record {
  scope = scope;
  id = id;
  seq = 0;
  ts = now_us;
  payload = [];
  render_bytes = none;
  counter = some c;
}

-- The create branch of counterAddSlow.
unfoldable pub create_counter : ScopeBuffer → Ledger → Bytes → Bytes → ℕ → ℕ → Outcome (ℕ × Bool)
unfolding push_item count_item
create_counter b l scope id by now_us =
    let item = counter_item scope id (length b.cells) now_us in
    let size = approx_item_size item in
    if item_cap_exceeded b (length b.items + 1)
    then (err (scope_full (length b.items) b.max_items), b, l)
    else elim (charge b l size) [
      | err e ↦ (err e, b, l)
      | ok l' ↦ (
        ok (by, true),
        record (push_item b (record item { seq = add64 b.last_seq 1 }) size) {
          by_id = Map.put b.by_id id (record item { seq = add64 b.last_seq 1 });
          cells = b.cells ++ record { value = by; ts = now_us } ∷ [];
        },
        count_item b l',
      )
    ]

unfoldable pub counter_add_slow :
    ⦃json : Json⦄ → ScopeBuffer → Ledger → Bytes → Bytes → ℕ → ℕ → Outcome (ℕ × Bool)
counter_add_slow b l scope id by now_us =
    if b.detached then (err scope_detached, b, l) else elim (Map.lookup b.by_id id) [
      | none ↦ create_counter b l scope id by now_us
      | some existing ↦ elim existing.counter [
        | some c ↦ increment b l c by now_us
        | none ↦ promote b l existing id by now_us
      ]
    ]

-- The fast path's test: attached, the id known, and its item a counter.
unfoldable pub fast_cell : ScopeBuffer → Bytes → Option ℕ
fast_cell b id =
    if b.detached
    then none
    else elim (Map.lookup b.by_id id) [ none ↦ none | some existing ↦ existing.counter ]

unfoldable pub counter_add :
    ⦃json : Json⦄ → ScopeBuffer → Ledger → Bytes → Bytes → ℕ → ℕ → Outcome (ℕ × Bool)
counter_add b l scope id by now_us = elim (fast_cell b id) [
  | some c ↦ increment b l c by now_us
  | none ↦ counter_add_slow b l scope id by now_us
]
