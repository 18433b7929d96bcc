-- ===== src/Buffer/Replace.antt =====
-- buffer_replace.go: the prepare-then-commit pipeline of /warm and /rebuild.
use inmem_cache.Base.{ℕ, Bool, true, false, List, [], ◌∷◌, length, ◌==◌, if◌then◌else◌, nat_eq}
use inmem_cache.Base.Word.{word, add64, sub64}
use inmem_cache.Base.Bytes.{Bytes, is_empty, bytes_eq, bytes_beq}
use inmem_cache.Base.Map
use inmem_cache.Base.Map.{Map}
use inmem_cache.Json.{Json}
use inmem_cache.Types.{Item, approx_item_size}
use inmem_cache.Errors.{scope_full, invalid_input, duplicate_in_batch, Result, ok, err}
use inmem_cache.Ledger.{Ledger}
use inmem_cache.Buffer.{ScopeBuffer, Outcome, item_cap_exceeded, bump_if_attached, put_by_id}
use inmem_cache.Buffer.Write.{fresh_item}

pub record ScopeReplacement : Type 0 where
  pub items : List Item
  pub by_id : Map Bytes Item
  pub by_seq : Map ℕ Item
  pub last_seq : ℕ
  pub id_key_bytes : ℕ

-- The `seen` set.
unfoldable pub contains : List Bytes → Bytes → Bool
contains [] id = false
contains (x ∷ xs) id = if bytes_beq x id then true else contains xs id

-- The first loop of buildReplacementState: `seen` and `lastSeq` go in, the built items come out. Its
-- error is plain in the source, and each caller wraps it in ErrInvalidInput; here it is that at once.
unfoldable pub build_items : ⦃json : Json⦄ → List Bytes → ℕ → ℕ → List Item → Result (List Item)
unfolding contains fresh_item
build_items seen last_seq now_us [] = ok []
build_items seen last_seq now_us (src ∷ rest) =
    let next = add64 last_seq 1 in
    let item = record (fresh_item src now_us) { seq = next } in
    let built_rest =
      build_items (if is_empty src.id then seen else src.id ∷ seen) next now_us rest in
    if (if is_empty src.id then false else contains seen src.id)
    then err (invalid_input (duplicate_in_batch src.id))
    else elim built_rest [ err e ↦ err e | ok built ↦ ok (item ∷ built) ]

-- `bySeq[item.Seq] = item` over the built items.
unfoldable pub index_seqs : Map ℕ Item → List Item → Map ℕ Item
index_seqs m [] = m
index_seqs m (x ∷ xs) = index_seqs (Map.put m x.seq x) xs

-- The second loop: `byID[item.ID] = item` and idKeyBytes.
unfoldable pub index_ids : Map Bytes Item → List Item → Map Bytes Item
unfolding put_by_id
index_ids m [] = m
index_ids m (x ∷ xs) = index_ids (put_by_id m x) xs

unfoldable pub id_key_bytes_of : ℕ → List Item → ℕ
id_key_bytes_of acc [] = acc
id_key_bytes_of acc (x ∷ xs) = id_key_bytes_of (add64 acc (length x.id)) xs

unfoldable pub build_replacement_state : ⦃json : Json⦄ → List Item → ℕ → Result ScopeReplacement
unfolding build_items index_seqs index_ids id_key_bytes_of
build_replacement_state items now_us = elim (build_items [] 0 now_us items) [
  | err e ↦ err e
  | ok built ↦ ok (record {
    items = built;
    by_id = index_ids [] built;
    by_seq = index_seqs [] built;
    last_seq = word (length built);
    id_key_bytes = id_key_bytes_of 0 built;
  })
]

-- sumItemBytes
unfoldable pub sum_item_bytes : ℕ → List Item → ℕ
sum_item_bytes acc [] = acc
sum_item_bytes acc (x ∷ xs) = sum_item_bytes (add64 acc (approx_item_size x)) xs

-- The swap of the two commits.
unfoldable pub adopt : ScopeBuffer → ScopeReplacement → ℕ → ℕ → ScopeBuffer
adopt b r new_bytes now_us = record b {
  bytes = new_bytes;
  id_key_bytes = r.id_key_bytes;
  items = r.items;
  by_id = r.by_id;
  by_seq = r.by_seq;
  last_seq = r.last_seq;
  last_write_ts = now_us;
}

-- `totalItems.Add(int64(len(r.items)) - int64(len(b.items)))`
abbrev recount : ScopeBuffer → ScopeReplacement → Ledger → Ledger
recount b r l = record l {
  total_items = add64 l.total_items (sub64 (length r.items) (length b.items));
}

unfoldable pub commit_replacement :
    ScopeBuffer → Ledger → ScopeReplacement → ℕ → ℕ → ScopeBuffer × Ledger
unfolding adopt bump_if_attached
commit_replacement b l r new_bytes now_us = (
  adopt b r new_bytes now_us,
  bump_if_attached b
      (if b.attached
        then recount b r (record l { total_bytes = add64 l.total_bytes (sub64 new_bytes b.bytes) })
        else l)
      now_us,
)

unfoldable pub commit_replacement_pre_reserved :
    ScopeBuffer → Ledger → ScopeReplacement → ℕ → ℕ → ℕ → ScopeBuffer × Ledger
unfolding adopt bump_if_attached
commit_replacement_pre_reserved b l r new_bytes old_snapshot now_us =
    let drift = sub64 b.bytes old_snapshot in
    (
      adopt b r new_bytes now_us,
      bump_if_attached b
          (if b.attached
            then recount b r
                (if drift == 0 then l else record l { total_bytes = sub64 l.total_bytes drift })
            else l)
          now_us,
    )

-- replaceAll; `built_us` and `now_us` are its two readings of the clock.
unfoldable pub replace_all :
    ⦃json : Json⦄ → ScopeBuffer → Ledger → List Item → ℕ → ℕ → Outcome (List Item)
unfolding commit_replacement build_replacement_state sum_item_bytes
replace_all b l items built_us now_us =
    if item_cap_exceeded b (length items)
    then (err (scope_full (length items) b.max_items), b, l)
    else elim (build_replacement_state items built_us) [
      | err e ↦ (err e, b, l)
      | ok r ↦
          let out = commit_replacement b l r (sum_item_bytes 0 r.items) now_us in
          (ok r.items, out.0, out.1)
    ]
