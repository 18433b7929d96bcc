-- ===== src/Buffer/Valid/Erase.antt =====
-- Removing an item keeps the scope well-formed.
use inmem_cache.Base.{
  ℕ, ◌≡◌, refl, some, List, [], ◌∷◌, get_elem?, get_elem?-length, length-erase_idx, arith, nat_eq,
}
use inmem_cache.Base.Bytes.{bytes_eq}
use inmem_cache.Base.Map
use inmem_cache.Base.Map.{lookup-delete}
use inmem_cache.Types.{Item}
use inmem_cache.Ledger.{Ledger}
use inmem_cache.Buffer.{ScopeBuffer}
use inmem_cache.Buffer.Delete.{erased, reset_by_items, reset_if_empty, delete_index}
use inmem_cache.Buffer.Items.Defs.{find_id, find_seq, sum_sizes, sum_ids}
use inmem_cache.Buffer.Items.{
  Ascends-erase, AllSized-erase, AtMost-erase, DistinctIds-erase, find_seq-erase, find_id-erase,
  sum_sizes-erase, sum_ids-erase,
}
use inmem_cache.Buffer.Valid.{IsValid, IsIdCounted}

reset_by_items-IsValid :
    (items : List Item) (b : ScopeBuffer)
    → b.items ≡ items
    → IsValid b
    → IsValid (reset_by_items items b)
unfolding reset_by_items Map.lookup find_id find_seq sum_sizes
reset_by_items-IsValid [] b e v = record {
  ascends = tt;
  at_most = tt;
  distinct = tt;
  ids_agree = λ k. refl;
  seqs_agree = λ s. refl;
  sized = tt;
  bytes_sum = ground (arith, v.bytes_sum);
  within_cap = λ bounded. omega arith;
}
reset_by_items-IsValid (x ∷ xs) b e v = v

pub reset_if_empty-IsValid : (b : ScopeBuffer) → IsValid b → IsValid (reset_if_empty b)
unfolding reset_if_empty
reset_if_empty-IsValid b v = reset_by_items-IsValid b.items b refl v

reset_by_items-IsIdCounted :
    (items : List Item) (b : ScopeBuffer)
    → b.items ≡ items
    → IsIdCounted b
    → IsIdCounted (reset_by_items items b)
unfolding reset_by_items sum_ids
reset_by_items-IsIdCounted [] b e c = refl
reset_by_items-IsIdCounted (x ∷ xs) b e c = c

pub reset_if_empty-IsIdCounted : (b : ScopeBuffer) → IsIdCounted b → IsIdCounted (reset_if_empty b)
unfolding reset_if_empty
reset_if_empty-IsIdCounted b c = reset_by_items-IsIdCounted b.items b refl c

module _ (b : ScopeBuffer) (l : Ledger) (i : ℕ) (x : Item) (now_us : ℕ) (v : IsValid b)
    (at : get_elem? b.items i ≡ some x) where
  pub delete_index-IsValid : IsValid (delete_index b l i x now_us).0
  unfolding delete_index
  delete_index-IsValid = reset_if_empty-IsValid (erased b i x now_us) (record {
    ascends = Ascends-erase 0 b.items i v.ascends;
    at_most = AtMost-erase b.last_seq b.items i v.at_most;
    distinct = DistinctIds-erase b.items i v.distinct;
    ids_agree = λ k. ground (
      arith,
      find_id-erase b.items i x k v.distinct at,
      lookup-delete b.by_id x.id k,
      v.ids_agree k,
    );
    seqs_agree = λ s. ground (
      arith,
      find_seq-erase 0 b.items i x s v.ascends at,
      lookup-delete b.by_seq x.seq s,
      v.seqs_agree s,
    );
    sized = AllSized-erase b.items i v.sized;
    bytes_sum = omega (arith, sum_sizes-erase x b.items i at, v.bytes_sum);
    within_cap = λ bounded.
        omega (
          arith,
          length-erase_idx b.items i (get_elem?-length b.items i x at),
          v.within_cap bounded,
        );
  })

  pub delete_index-IsIdCounted : IsIdCounted b → IsIdCounted (delete_index b l i x now_us).0
  unfolding delete_index
  delete_index-IsIdCounted c =
      reset_if_empty-IsIdCounted (erased b i x now_us) (omega (arith, sum_ids-erase x b.items i at))
