-- ===== src/Buffer/Valid/Replace.antt =====
-- Replacing an item in place, by one with its seq and id, keeps the scope well-formed.
use inmem_cache.Base.{ℕ, ◌≡◌, some, set, get_elem?, length-set, arith, nat_eq}
use inmem_cache.Base.Word.{add64, sub64}
use inmem_cache.Base.Bytes.{bytes_eq}
use inmem_cache.Base.Map
use inmem_cache.Base.Map.{lookup-put}
use inmem_cache.Types.{Item, approx_item_size}
use inmem_cache.Buffer.{ScopeBuffer, put_by_id}
use inmem_cache.Buffer.Items.{
  Ascends-set, AllSized-set, AtMost-set, DistinctIds-set, find_seq-set, find_id-set, sum_sizes-set,
  sum_ids-set,
}
use inmem_cache.Buffer.Items.Defs.{IsSized}
use inmem_cache.Buffer.Valid.{IsValid, IsIdCounted}

-- The state after `items[i]` became `y` and the maps followed.
abbrev pub with_item : ScopeBuffer → ℕ → Item → ℕ → ScopeBuffer
with_item b i y delta = record b {
  items = set b.items i y;
  by_seq = Map.put b.by_seq y.seq y;
  by_id = put_by_id b.by_id y;
  bytes = add64 b.bytes delta;
}

module _ (b : ScopeBuffer) (i : ℕ) (x y : Item) (delta : ℕ) (v : IsValid b)
    (at : get_elem? b.items i ≡ some x) (same_seq : y.seq ≡ x.seq) (same_id : y.id ≡ x.id)
    (sized : IsSized y) (cost : delta ≡ sub64 (approx_item_size y) (approx_item_size x)) where
  pub with_item-IsValid : IsValid (with_item b i y delta)
  unfolding put_by_id
  with_item-IsValid = record {
    ascends = Ascends-set x y same_seq same_id 0 b.items i at v.ascends;
    at_most = AtMost-set x y same_seq same_id b.last_seq b.items i at v.at_most;
    distinct = DistinctIds-set x y same_seq same_id b.items i at v.distinct;
    ids_agree = λ k. ground (
      arith,
      find_id-set x y same_seq same_id b.items i k v.distinct at,
      lookup-put b.by_id y.id y k,
      v.ids_agree k,
    );
    seqs_agree = λ s. ground (
      arith,
      find_seq-set x y same_seq same_id 0 b.items i s v.ascends at,
      lookup-put b.by_seq y.seq y s,
      v.seqs_agree s,
    );
    sized = AllSized-set b.items i y sized v.sized;
    bytes_sum = omega (arith, sum_sizes-set x y same_seq same_id b.items i at, v.bytes_sum);
    within_cap = λ bounded. rw (length-set b.items i y) (v.within_cap bounded);
  }

  pub with_item-IsIdCounted : IsIdCounted b → IsIdCounted (with_item b i y delta)
  with_item-IsIdCounted c = omega (arith, sum_ids-set x y same_seq same_id b.items i at)
