-- ===== src/Buffer/Write.antt =====
-- buffer_write.go: appendItem, upsertByID, updateByID, updateBySeq.
use inmem_cache.Base.{
  ℕ, ◌+◌, Bool, true, false, ◌&&◌, Option, none, some, [], ◌∷◌, ◌++◌, length, get_elem?,
  if◌then◌else◌, nat_eq,
}
use inmem_cache.Base.Word.{word, add64, slt}
use inmem_cache.Base.Bytes.{Bytes, is_empty, bytes_eq}
use inmem_cache.Base.Map
use inmem_cache.Json.{Json}
use inmem_cache.Types.{Item, approx_item_size, length_opt}
use inmem_cache.Errors.{
  scope_detached, scope_full, duplicate_id, invalid_input, item_too_large, Result, ok, err,
}
use inmem_cache.Ledger.{Ledger, max_item_bytes_for}
use inmem_cache.Buffer.{
  ScopeBuffer, Outcome, render_or_compute, item_cap_exceeded, charge, reserve_payload_delta,
  payload_and_render_bytes, bump_if_attached, index_by_seq, put_by_id, replaced,
  replace_item_at_index,
}

-- The item that a fresh insert stores, before its seq: the cell cleared, ts stamped, renderBytes
-- filled in.
unfoldable pub fresh_item : ⦃json : Json⦄ → Item → ℕ → Item
fresh_item item now_us = record item {
  counter = none;
  ts = now_us;
  render_bytes = render_or_compute item.render_bytes item.payload;
}

-- The commit of insertNewItemLocked once the bytes are reserved.
unfoldable pub push_item : ScopeBuffer → Item → ℕ → ScopeBuffer
unfolding put_by_id
push_item b item size = record b {
  last_seq = item.seq;
  items = b.items ++ item ∷ [];
  by_seq = Map.put b.by_seq item.seq item;
  by_id = put_by_id b.by_id item;
  id_key_bytes = add64 b.id_key_bytes (length item.id);
  bytes = add64 b.bytes size;
}

-- `b.store.totalItems.Add(1)` under the nil check
unfoldable pub count_item : ScopeBuffer → Ledger → Ledger
count_item b l = if b.attached then record l { total_items = add64 l.total_items 1 } else l

-- insertNewItemLocked
unfoldable pub insert_new_item : ⦃json : Json⦄ → ScopeBuffer → Ledger → Item → ℕ → Outcome Item
unfolding fresh_item push_item count_item
insert_new_item b l item now_us =
    let stored = record (fresh_item item now_us) { seq = add64 b.last_seq 1 } in
    let size = approx_item_size (fresh_item item now_us) in
    elim (charge b l size) [
      | err e ↦ (err e, b, l)
      | ok l' ↦ (
        ok stored,
        record (push_item b stored size) { last_write_ts = now_us },
        bump_if_attached b (count_item b l') now_us,
      )
    ]

-- `item.ID != ""` and the id is in byID
abbrev pub id_taken : ScopeBuffer → Bytes → Bool
id_taken b id =
    if is_empty id then false else elim (Map.lookup b.by_id id) [ none ↦ false | some _ ↦ true ]

unfoldable pub append_item : ⦃json : Json⦄ → ScopeBuffer → Ledger → Item → ℕ → Outcome Item
append_item b l item now_us =
    if b.detached
    then (err scope_detached, b, l)
    else if item_cap_exceeded b (length b.items + 1)
    then (err (scope_full (length b.items) b.max_items), b, l)
    else if id_taken b item.id
    then (err duplicate_id, b, l)
    else insert_new_item b l item now_us

-- The replace branch of the three paths, once the new renderBytes is known. `none` is the miss of
-- the binary search that the source calls unreachable.
unfoldable pub replace_existing :
    ScopeBuffer
    → Ledger
    → Item
    → Bytes
    → Option Bytes
    → ℕ
    → Result (Option Item) × ScopeBuffer × Ledger
unfolding replace_item_at_index
replace_existing b l existing payload new_render now_us =
    elim (reserve_payload_delta b l (payload_and_render_bytes existing)
      (word (length payload + length_opt new_render))) [
        | err e ↦ (err e, b, l)
        | ok (delta, l') ↦ elim (index_by_seq b.items existing.seq) [
          | none ↦ (ok none, b, l')
          | some i ↦ elim (get_elem? b.items i) [
            | none ↦ (ok none, b, l')
            | some x ↦
                let out = replace_item_at_index b l' i x payload now_us new_render delta in
                (ok (some (replaced x payload now_us new_render)), out.0, out.1)
          ]
        ]
      ]

-- upsertByID: the item, and whether it was created. The item of the unreachable miss is the zero
-- item.
abbrev pub zero_item : Item
zero_item = record {
  scope = [];
  id = [];
  seq = 0;
  ts = 0;
  payload = [];
  render_bytes = none;
  counter = none;
}

unfoldable pub upsert_result : Result (Option Item) × ScopeBuffer × Ledger → Outcome (Item × Bool)
upsert_result (err e, b, l) = (err e, b, l)
upsert_result (ok none, b, l) = (ok (zero_item, false), b, l)
upsert_result (ok (some x), b, l) = (ok (x, false), b, l)

unfoldable pub created_result : Outcome Item → Outcome (Item × Bool)
created_result (err e, b, l) = (err e, b, l)
created_result (ok x, b, l) = (ok (x, true), b, l)

unfoldable pub upsert_by_id :
    ⦃json : Json⦄ → ScopeBuffer → Ledger → Item → ℕ → Outcome (Item × Bool)
unfolding upsert_result created_result
upsert_by_id b l item now_us =
    if b.detached then (err scope_detached, b, l) else elim (Map.lookup b.by_id item.id) [
      | some existing ↦ upsert_result (
          replace_existing b l existing item.payload
            (render_or_compute item.render_bytes item.payload) now_us)
      | none ↦
          if item_cap_exceeded b (length b.items + 1)
          then (err (scope_full (length b.items) b.max_items), b, l)
          else created_result (insert_new_item b l item now_us)
    ]

-- The count that an update returns.
unfoldable pub updated_count : Result (Option Item) × ScopeBuffer × Ledger → Outcome ℕ
updated_count (err e, b, l) = (err e, b, l)
updated_count (ok none, b, l) = (ok 0, b, l)
updated_count (ok (some _), b, l) = (ok 1, b, l)

unfoldable pub update_by_id :
    ⦃json : Json⦄ → ScopeBuffer → Ledger → Bytes → Bytes → Option Bytes → ℕ → Outcome ℕ
unfolding updated_count
update_by_id b l id payload pre_render now_us =
    if b.detached then (err scope_detached, b, l) else elim (Map.lookup b.by_id id) [
      | none ↦ (ok 0, b, l)
      | some existing ↦
          updated_count
            (replace_existing b l existing payload (render_or_compute pre_render payload) now_us)
    ]

-- The item that updateBySeq measures against the per-item cap.
abbrev pub update_candidate : Item → Bytes → Option Bytes → Item
update_candidate existing payload new_render = record zero_item {
  scope = existing.scope;
  id = existing.id;
  payload = payload;
  render_bytes = new_render;
}

-- updateBySeq once the item is found: the per-item cap again, on the stored scope and id.
unfoldable pub update_found : ScopeBuffer → Ledger → Item → Bytes → Option Bytes → ℕ → Outcome ℕ
unfolding updated_count
update_found b l existing payload new_render now_us =
    let size = approx_item_size (update_candidate existing payload new_render) in
    let cap = max_item_bytes_for l existing.scope in
    if b.attached && slt cap size
    then (err (invalid_input (item_too_large size cap)), b, l)
    else updated_count (replace_existing b l existing payload new_render now_us)

unfoldable pub update_by_seq :
    ⦃json : Json⦄ → ScopeBuffer → Ledger → ℕ → Bytes → Option Bytes → ℕ → Outcome ℕ
unfolding update_found
update_by_seq b l seq payload pre_render now_us =
    if b.detached then (err scope_detached, b, l) else elim (Map.lookup b.by_seq seq) [
      | none ↦ (ok 0, b, l)
      | some existing ↦
          update_found b l existing payload (render_or_compute pre_render payload) now_us
    ]
