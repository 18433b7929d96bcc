-- ===== src/Buffer/Items/Insert.antt =====
-- Adding one item at the end, with a seq above all others.
use inmem_cache.Base.{
  ℕ, ◌+◌, ◌≤◌, ◌<◌, ◌≡◌, refl, ◌⊎◌, true, none, some, List, [], ◌∷◌, ◌++◌, length, ◌==◌, arith,
  if◌then◌else◌, inl, inr,
}
use inmem_cache.Base.Bytes.{Bytes, bytes_beq_iff, is_empty}
use inmem_cache.Types.{Item, approx_item_size}
use inmem_cache.Buffer.Items.Defs.{
  find_seq, find_id, has_id, Ascends, AtMost, DistinctIds, sum_sizes, sum_ids,
}

module _ (y : Item) where
  pub sum_sizes-insert :
      (items : List Item) → sum_sizes (items ++ y ∷ []) ≡ sum_sizes items + approx_item_size y
  unfolding sum_sizes
  sum_sizes-insert [] = omega arith
  sum_sizes-insert (z ∷ zs) = omega (arith, sum_sizes-insert zs)

  pub sum_ids-insert : (items : List Item) → sum_ids (items ++ y ∷ []) ≡ sum_ids items + length y.id
  unfolding sum_ids
  sum_ids-insert [] = omega arith
  sum_ids-insert (z ∷ zs) = omega (arith, sum_ids-insert zs)

  pub Ascends-insert :
      (lo hi : ℕ) (items : List Item)
      → Ascends lo items
      → AtMost hi items
      → lo < y.seq
      → hi < y.seq
      → Ascends lo (items ++ y ∷ [])
  Ascends-insert lo hi [] h m l g = omega arith
  Ascends-insert lo hi (z ∷ zs) h m l g =
      (h.0, Ascends-insert z.seq hi zs h.1 m.1 (omega (arith, m.0)) g)

  pub AtMost-insert :
      (hi top : ℕ) (items : List Item)
      → AtMost hi items
      → hi ≤ top
      → y.seq ≤ top
      → AtMost top (items ++ y ∷ [])
  AtMost-insert hi top [] m l g = omega arith
  AtMost-insert hi top (z ∷ zs) m l g = (omega (arith, m.0), AtMost-insert hi top zs m.1 l g)

  pub find_seq-insert :
      (hi : ℕ) (items : List Item) (t : ℕ)
      → AtMost hi items
      → hi < y.seq
      → find_seq (items ++ y ∷ []) t ≡ (if y.seq == t then some y else find_seq items t)
  unfolding find_seq
  find_seq-insert hi [] t m g = refl
  find_seq-insert hi (z ∷ zs) t m g = ground (arith, find_seq-insert hi zs t m.1 g, m.0)

  pub find_id-insert :
      (items : List Item) (k : Bytes)
      → (is_empty y.id ≡ true) ⊎ (find_id items y.id ≡ none)
      → find_id (items ++ y ∷ []) k ≡ (if has_id y k then some y else find_id items k)
  unfolding find_id
  find_id-insert [] k n = refl
  find_id-insert (z ∷ zs) k (inl n) = ground (arith, find_id-insert zs k (inl n))
  find_id-insert (z ∷ zs) k (inr n) = ground (
    arith,
    λ (p : find_id zs y.id ≡ none). find_id-insert zs k (inr p),
    bytes_beq_iff z.id k,
    bytes_beq_iff y.id k,
    bytes_beq_iff z.id y.id,
  )

  pub DistinctIds-insert :
      (items : List Item)
      → DistinctIds items
      → (is_empty y.id ≡ true) ⊎ (find_id items y.id ≡ none)
      → DistinctIds (items ++ y ∷ [])
  unfolding find_id
  DistinctIds-insert [] h n = (inr refl, tt)
  DistinctIds-insert (z ∷ zs) h (inl n) =
      (ground (arith, find_id-insert zs z.id (inl n)), DistinctIds-insert zs h.1 (inl n))
  DistinctIds-insert (z ∷ zs) h (inr n) =
      let rest : find_id zs y.id ≡ none = ground arith in
      (
        ground (
          arith,
          find_id-insert zs z.id (inr rest),
          bytes_beq_iff y.id z.id,
          bytes_beq_iff z.id y.id,
        ),
        DistinctIds-insert zs h.1 (inr rest),
      )
