-- ===== src/Buffer/Valid.antt =====
-- The well-formedness of a scope: the two maps are exactly the lookups in the slice, the seqs
-- ascend, no id stands twice, `bytes` is the sum of the items' costs, and the item cap holds.
pub mod Insert
pub mod Replace
pub mod Erase
pub mod Drop
pub mod Built
use inmem_cache.Base.{ℕ, ◌+◌, ◌≤◌, ◌≡◌, true, List, [], ◌∷◌, length, arith}
use inmem_cache.Base.Word.{word, slt}
use inmem_cache.Base.Bytes.{Bytes, bytes_eq}
use inmem_cache.Base.{nat_eq}
use inmem_cache.Base.Map
use inmem_cache.Types.{Item}
use inmem_cache.Buffer.{ScopeBuffer}
use inmem_cache.Buffer.Items.Defs.{
  find_seq, find_id, Ascends, AtMost, DistinctIds, AllSized, sum_sizes, sum_ids,
}

pub record IsValid (b : ScopeBuffer) : Type 0 where
  pub ascends : Ascends 0 b.items
  pub at_most : AtMost b.last_seq b.items
  pub distinct : DistinctIds b.items
  pub ids_agree : (k : Bytes) → Map.lookup b.by_id k ≡ find_id b.items k
  pub seqs_agree : (s : ℕ) → Map.lookup b.by_seq s ≡ find_seq b.items s
  pub sized : AllSized b.items
  pub bytes_sum : b.bytes ≡ word (sum_sizes b.items)
  pub within_cap : slt 0 b.max_items ≡ true → length b.items ≤ b.max_items

-- `idKeyBytes` is the sum of the lengths of the ids: what `approxSizeBytesLocked` relies on.
abbrev pub IsIdCounted : ScopeBuffer → Type 0
IsIdCounted b = b.id_key_bytes ≡ word (sum_ids b.items)

-- Distinct positive seqs up to `hi` are at most `hi` many.
pub length-le-last :
    (lo hi : ℕ) (items : List Item)
    → lo ≤ hi
    → Ascends lo items
    → AtMost hi items
    → length items + lo ≤ hi
length-le-last lo hi [] le h m = omega arith
length-le-last lo hi (x ∷ xs) le h m = omega (arith, length-le-last x.seq hi xs m.0 h.1 m.1, h.0)
