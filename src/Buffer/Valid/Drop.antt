-- ===== src/Buffer/Valid/Drop.antt =====
-- Removing a prefix keeps the scope well-formed.
use inmem_cache.Base.{ℕ, ◌+◌, ◌≡◌, refl, List, [], ◌∷◌, take, length, length-drop, arith, nat_eq}
use inmem_cache.Base.Word.{word, add64}
use inmem_cache.Base.Bytes.{bytes_eq, Bytes}
use inmem_cache.Base.Map
use inmem_cache.Base.Map.{Map, lookup-delete}
use inmem_cache.Types.{Item, approx_item_size}
use inmem_cache.Buffer.{ScopeBuffer}
use inmem_cache.Buffer.Delete.{
  dropped, delete_by_id_key, delete_prefix, freed_bytes, freed_id_key_bytes, delete_seqs,
  delete_ids,
}
use inmem_cache.Buffer.Items.Defs.{find_id, find_seq, sum_sizes, sum_ids}
use inmem_cache.Buffer.Items.{
  unless, Ascends-drop, AllSized-drop, AtMost-drop, DistinctIds-drop, find_seq-drop, find_id-drop,
  sum_sizes-drop, sum_ids-drop,
}
use inmem_cache.Buffer.Valid.{IsValid, IsIdCounted}
use inmem_cache.Buffer.Valid.Erase.{reset_if_empty-IsValid, reset_if_empty-IsIdCounted}

pub freed_bytes-sum :
    (items : List Item) (acc : ℕ) → word (freed_bytes items acc) ≡ word (acc + sum_sizes items)
unfolding freed_bytes sum_sizes
freed_bytes-sum [] acc = omega arith
freed_bytes-sum (x ∷ xs) acc = omega (arith, freed_bytes-sum xs (add64 acc (approx_item_size x)))

freed_id_key_bytes-sum :
    (items : List Item) (acc : ℕ) → word (freed_id_key_bytes items acc) ≡ word (acc + sum_ids items)
unfolding freed_id_key_bytes sum_ids
freed_id_key_bytes-sum [] acc = omega arith
freed_id_key_bytes-sum (x ∷ xs) acc =
    omega (arith, freed_id_key_bytes-sum xs (add64 acc (length x.id)))

lookup-delete_seqs :
    (items : List Item) (m : Map ℕ Item) (s : ℕ)
    → Map.lookup (delete_seqs items m) s ≡ unless (find_seq items s) (Map.lookup m s)
unfolding delete_seqs find_seq
lookup-delete_seqs [] m s = refl
lookup-delete_seqs (x ∷ xs) m s =
    ground (arith, lookup-delete_seqs xs (Map.delete m x.seq) s, lookup-delete m x.seq s)

lookup-delete_ids :
    (items : List Item) (m : Map Bytes Item) (k : Bytes)
    → Map.lookup (delete_ids items m) k ≡ unless (find_id items k) (Map.lookup m k)
unfolding delete_ids find_id
lookup-delete_ids [] m k = refl
lookup-delete_ids (x ∷ xs) m k =
    ground (arith, lookup-delete_ids xs (delete_by_id_key m x.id) k, lookup-delete m x.id k)

module _ (b : ScopeBuffer) (idx now_us : ℕ) (v : IsValid b) where
  pub delete_prefix-IsValid : IsValid (delete_prefix b idx now_us)
  unfolding delete_prefix
  delete_prefix-IsValid = reset_if_empty-IsValid (dropped b idx now_us) (record {
    ascends = Ascends-drop 0 idx b.items v.ascends;
    at_most = AtMost-drop b.last_seq idx b.items v.at_most;
    distinct = DistinctIds-drop idx b.items v.distinct;
    ids_agree = λ k. ground (
      arith,
      find_id-drop idx b.items k v.distinct,
      lookup-delete_ids (take idx b.items) b.by_id k,
      v.ids_agree k,
    );
    seqs_agree = λ s. ground (
      arith,
      find_seq-drop 0 idx b.items s v.ascends,
      lookup-delete_seqs (take idx b.items) b.by_seq s,
      v.seqs_agree s,
    );
    sized = AllSized-drop idx b.items v.sized;
    bytes_sum =
        omega
          (arith, sum_sizes-drop idx b.items, freed_bytes-sum (take idx b.items) 0, v.bytes_sum);
    within_cap = λ bounded. omega (arith, length-drop idx b.items, v.within_cap bounded);
  })

  pub delete_prefix-IsIdCounted : IsIdCounted b → IsIdCounted (delete_prefix b idx now_us)
  unfolding delete_prefix
  delete_prefix-IsIdCounted c =
      reset_if_empty-IsIdCounted (dropped b idx now_us)
        (omega (arith, sum_ids-drop idx b.items, freed_id_key_bytes-sum (take idx b.items) 0))
