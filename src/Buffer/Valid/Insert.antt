-- ===== src/Buffer/Valid/Insert.antt =====
-- A fresh insert keeps the scope well-formed.
use inmem_cache.Base.{
  ◌+◌, ◌^◌, ◌≤◌, ◌<◌, ◌≡◌, ◌⊎◌, true, false, none, [], ◌∷◌, ◌++◌, length, length-append, arith,
  nat_eq,
}
use inmem_cache.Base.Word.{slt}
use inmem_cache.Base.Bytes.{is_empty, bytes_eq}
use inmem_cache.Base.Map.{lookup-put}
use inmem_cache.Types.{Item, approx_item_size}
use inmem_cache.Buffer.{ScopeBuffer, item_cap_exceeded}
use inmem_cache.Buffer.Write.{push_item}
use inmem_cache.Buffer.Items.Defs.{find_id, IsSized}
use inmem_cache.Buffer.Items.{
  Ascends-insert, AllSized-insert, AtMost-insert, DistinctIds-insert, find_seq-insert,
  find_id-insert, sum_sizes-insert, sum_ids-insert,
}
use inmem_cache.Buffer.Valid.{IsValid, IsIdCounted, length-le-last}

module _ (b : ScopeBuffer) (y : Item) (v : IsValid b) (next : y.seq ≡ b.last_seq + 1)
    (new : (is_empty y.id ≡ true) ⊎ (find_id b.items y.id ≡ none)) (room : b.last_seq + 1 < 2 ^ 63)
    (sized : IsSized y) (allowed : item_cap_exceeded b (length b.items + 1) ≡ false) where
  within_cap-push : slt 0 b.max_items ≡ true → length (b.items ++ y ∷ []) ≤ b.max_items
  unfolding item_cap_exceeded
  within_cap-push bounded =
      let few : length b.items + 0 ≤ b.last_seq =
        length-le-last 0 b.last_seq b.items (omega arith) v.ascends v.at_most in
      ground (arith, length-append b.items (y ∷ []), v.within_cap bounded)

  pub push_item-IsValid : IsValid (push_item b y (approx_item_size y))
  unfolding push_item
  push_item-IsValid = record {
    ascends = Ascends-insert y 0 b.last_seq b.items v.ascends v.at_most (omega arith) (omega arith);
    at_most = AtMost-insert y b.last_seq y.seq b.items v.at_most (omega arith) (omega arith);
    distinct = DistinctIds-insert y b.items v.distinct new;
    ids_agree = λ k.
        ground (arith, find_id-insert y b.items k new, lookup-put b.by_id y.id y k, v.ids_agree k);
    seqs_agree = λ s. ground (
      arith,
      find_seq-insert y b.last_seq b.items s v.at_most,
      lookup-put b.by_seq y.seq y s,
      v.seqs_agree s,
    );
    sized = AllSized-insert b.items y sized v.sized;
    bytes_sum = omega (arith, sum_sizes-insert y b.items, v.bytes_sum);
    within_cap = within_cap-push;
  }

  pub push_item-IsIdCounted : IsIdCounted b → IsIdCounted (push_item b y (approx_item_size y))
  unfolding push_item
  push_item-IsIdCounted c = omega (arith, sum_ids-insert y b.items)
