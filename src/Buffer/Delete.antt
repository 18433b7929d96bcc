-- ===== src/Buffer/Delete.antt =====
-- buffer_delete.go: deleteByID, deleteBySeq, deleteUpToSeq.
use inmem_cache.Base.{
  ℕ, none, some, List, [], ◌∷◌, length, get_elem?, erase_idx, take, drop, ◌==◌, ltb, if◌then◌else◌,
  nat_eq,
}
use inmem_cache.Base.Word.{add64, sub64}
use inmem_cache.Base.Bytes.{Bytes, is_empty, bytes_eq}
use inmem_cache.Base.Map
use inmem_cache.Base.Map.{Map}
use inmem_cache.Search.{sort_search}
use inmem_cache.Types.{Item, approx_item_size}
use inmem_cache.Errors.{scope_detached, ok, err}
use inmem_cache.Ledger.{Ledger}
use inmem_cache.Buffer.{ScopeBuffer, Outcome, bump_if_attached, index_by_seq, seq_at}

-- `if item.ID != "" { delete(b.byID, item.ID) }`
unfoldable pub delete_by_id_key : Map Bytes Item → Bytes → Map Bytes Item
delete_by_id_key m id = if is_empty id then m else Map.delete m id

-- resetIfEmptyLocked, by the items of the scope.
unfoldable pub reset_by_items : List Item → ScopeBuffer → ScopeBuffer
reset_by_items [] b = record b { items = []; by_seq = []; by_id = []; id_key_bytes = 0 }
reset_by_items (x ∷ xs) b = b

unfoldable pub reset_if_empty : ScopeBuffer → ScopeBuffer
unfolding reset_by_items
reset_if_empty b = reset_by_items b.items b

-- `if b.store != nil { totalBytes.Add(-freed); totalItems.Add(-n); bumpLastWriteTS(now) }`
unfoldable pub release : ScopeBuffer → Ledger → ℕ → ℕ → ℕ → Ledger
unfolding bump_if_attached
release b l freed n now_us =
    bump_if_attached b
      (if b.attached
        then record l {
          total_bytes = sub64 l.total_bytes freed;
          total_items = sub64 l.total_items n;
        }
        else l)
      now_us

-- deleteIndexLocked up to the reset, where `removed` is the item at `i`.
abbrev pub erased : ScopeBuffer → ℕ → Item → ℕ → ScopeBuffer
erased b i removed now_us = record b {
  items = erase_idx b.items i;
  by_seq = Map.delete b.by_seq removed.seq;
  by_id = delete_by_id_key b.by_id removed.id;
  id_key_bytes = sub64 b.id_key_bytes (length removed.id);
  bytes = sub64 b.bytes (approx_item_size removed);
  last_write_ts = now_us;
}

-- deleteIndexLocked
unfoldable pub delete_index : ScopeBuffer → Ledger → ℕ → Item → ℕ → ScopeBuffer × Ledger
unfolding delete_by_id_key reset_if_empty release
delete_index b l i removed now_us =
    (reset_if_empty (erased b i removed now_us), release b l (approx_item_size removed) 1 now_us)

-- The search for the item and its removal, shared by the two single deletes. `ok 0` is the miss
-- that the source calls unreachable.
unfoldable pub delete_at_seq : ScopeBuffer → Ledger → ℕ → ℕ → Outcome ℕ
unfolding delete_index
delete_at_seq b l seq now_us = elim (index_by_seq b.items seq) [
  | none ↦ (ok 0, b, l)
  | some i ↦ elim (get_elem? b.items i) [
    | none ↦ (ok 0, b, l)
    | some removed ↦ let out = delete_index b l i removed now_us in (ok 1, out.0, out.1)
  ]
]

unfoldable pub delete_by_id : ScopeBuffer → Ledger → Bytes → ℕ → Outcome ℕ
delete_by_id b l id now_us =
    if b.detached then (err scope_detached, b, l) else elim (Map.lookup b.by_id id) [
      | none ↦ (ok 0, b, l)
      | some existing ↦ delete_at_seq b l existing.seq now_us
    ]

unfoldable pub delete_by_seq : ScopeBuffer → Ledger → ℕ → ℕ → Outcome ℕ
delete_by_seq b l seq now_us =
    if b.detached then (err scope_detached, b, l) else elim (Map.lookup b.by_seq seq) [
      | none ↦ (ok 0, b, l)
      | some _ ↦ delete_at_seq b l seq now_us
    ]

-- The loop of deleteUpToSeq over the removed prefix: freedBytes, freedIDKeyBytes and the two maps.
unfoldable pub freed_bytes : List Item → ℕ → ℕ
freed_bytes [] acc = acc
freed_bytes (x ∷ xs) acc = freed_bytes xs (add64 acc (approx_item_size x))

unfoldable pub freed_id_key_bytes : List Item → ℕ → ℕ
freed_id_key_bytes [] acc = acc
freed_id_key_bytes (x ∷ xs) acc = freed_id_key_bytes xs (add64 acc (length x.id))

unfoldable pub delete_seqs : List Item → Map ℕ Item → Map ℕ Item
delete_seqs [] m = m
delete_seqs (x ∷ xs) m = delete_seqs xs (Map.delete m x.seq)

unfoldable pub delete_ids : List Item → Map Bytes Item → Map Bytes Item
unfolding delete_by_id_key
delete_ids [] m = m
delete_ids (x ∷ xs) m = delete_ids xs (delete_by_id_key m x.id)

-- The removal of the first `idx` items, up to the reset.
abbrev pub dropped : ScopeBuffer → ℕ → ℕ → ScopeBuffer
dropped b idx now_us = record b {
  items = drop idx b.items;
  by_seq = delete_seqs (take idx b.items) b.by_seq;
  by_id = delete_ids (take idx b.items) b.by_id;
  bytes = sub64 b.bytes (freed_bytes (take idx b.items) 0);
  id_key_bytes = sub64 b.id_key_bytes (freed_id_key_bytes (take idx b.items) 0);
  last_write_ts = now_us;
}

unfoldable pub delete_prefix : ScopeBuffer → ℕ → ℕ → ScopeBuffer
unfolding freed_bytes freed_id_key_bytes delete_seqs delete_ids reset_if_empty
delete_prefix b idx now_us = reset_if_empty (dropped b idx now_us)

-- `sort.Search(len(b.items), func(i int) bool { return b.items[i].Seq > maxSeq })`
unfoldable pub cut_after : List Item → ℕ → ℕ
unfolding sort_search seq_at
cut_after items max_seq = sort_search (length items) (λ k. ltb max_seq (seq_at items k))

unfoldable pub delete_up_to_seq : ScopeBuffer → Ledger → ℕ → ℕ → Outcome ℕ
unfolding delete_prefix cut_after release
delete_up_to_seq b l max_seq now_us =
    let idx = cut_after b.items max_seq in
    if b.detached then (err scope_detached, b, l) else if idx == 0 then (ok 0, b, l) else (
      ok idx,
      delete_prefix b idx now_us,
      release b l (freed_bytes (take idx b.items) 0) idx now_us,
    )
