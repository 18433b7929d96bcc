-- ===== src/Buffer/Items/Replace.antt =====
-- Replacing one item by another with its seq and id.
use inmem_cache.Base.{
  ℕ, zero, suc, ◌+◌, ◌≡◌, refl, none, some, List, [], ◌∷◌, get_elem?, set, ◌==◌, arith,
  if◌then◌else◌, inl, inr,
}
use inmem_cache.Base.Bytes.{Bytes, bytes_beq_iff}
use inmem_cache.Types.{Item, approx_item_size}
use inmem_cache.Buffer.Items.Defs.{
  find_seq, find_id, has_id, Ascends, AtMost, DistinctIds, sum_sizes, sum_ids,
}
use inmem_cache.Buffer.Items.Order.{find_seq-seq, find_seq-get_elem?}
use inmem_cache.Buffer.Items.Erase.{find_id-get_elem?}

module _ (x y : Item) (same_seq : y.seq ≡ x.seq) (same_id : y.id ≡ x.id) where
  pub sum_sizes-set :
      (items : List Item) (i : ℕ)
      → get_elem? items i ≡ some x
      → sum_sizes (set items i y) + approx_item_size x ≡ sum_sizes items + approx_item_size y
  unfolding sum_sizes
  sum_sizes-set [] i h = ground arith
  sum_sizes-set (z ∷ zs) zero h = ground arith
  sum_sizes-set (z ∷ zs) (suc i) h = omega (arith, sum_sizes-set zs i h)

  pub sum_ids-set :
      (items : List Item) (i : ℕ)
      → get_elem? items i ≡ some x
      → sum_ids (set items i y) ≡ sum_ids items
  unfolding sum_ids
  sum_ids-set [] i h = refl
  sum_ids-set (z ∷ zs) zero h = ground arith
  sum_ids-set (z ∷ zs) (suc i) h = ground (arith, sum_ids-set zs i h)

  pub Ascends-set :
      (lo : ℕ) (items : List Item) (i : ℕ)
      → get_elem? items i ≡ some x
      → Ascends lo items
      → Ascends lo (set items i y)
  Ascends-set lo [] i e h = h
  Ascends-set lo (z ∷ zs) zero e h = ground arith
  Ascends-set lo (z ∷ zs) (suc i) e h = (h.0, Ascends-set z.seq zs i e h.1)

  pub AtMost-set :
      (hi : ℕ) (items : List Item) (i : ℕ)
      → get_elem? items i ≡ some x
      → AtMost hi items
      → AtMost hi (set items i y)
  AtMost-set hi [] i e h = h
  AtMost-set hi (z ∷ zs) zero e h = ground arith
  AtMost-set hi (z ∷ zs) (suc i) e h = (h.0, AtMost-set hi zs i e h.1)

  pub find_seq-set :
      (lo : ℕ) (items : List Item) (i t : ℕ)
      → Ascends lo items
      → get_elem? items i ≡ some x
      → find_seq (set items i y) t ≡ (if x.seq == t then some y else find_seq items t)
  unfolding find_seq
  find_seq-set lo [] i t h e = ground arith
  find_seq-set lo (z ∷ zs) zero t h e = ground arith
  find_seq-set lo (z ∷ zs) (suc i) t h e = ground (
    arith,
    find_seq-set z.seq zs i t h.1 e,
    find_seq-get_elem? z.seq zs i x h.1 e,
    find_seq-seq z.seq x.seq zs x h.1,
  )

  pub find_id-set :
      (items : List Item) (i : ℕ) (k : Bytes)
      → DistinctIds items
      → get_elem? items i ≡ some x
      → find_id (set items i y) k ≡ (if has_id x k then some y else find_id items k)
  unfolding find_id
  find_id-set [] i k h e = ground arith
  find_id-set (z ∷ zs) zero k h e = ground arith
  find_id-set (z ∷ zs) (suc i) k h e = ground (
    arith,
    find_id-set zs i k h.1 e,
    find_id-get_elem? zs i x h.1 e,
    bytes_beq_iff z.id k,
    bytes_beq_iff x.id k,
  )

  find_id-set-none :
      (items : List Item) (i : ℕ) (k : Bytes)
      → get_elem? items i ≡ some x
      → find_id items k ≡ none
      → find_id (set items i y) k ≡ none
  unfolding find_id
  find_id-set-none [] i k e h = refl
  find_id-set-none (z ∷ zs) zero k e h = ground arith
  find_id-set-none (z ∷ zs) (suc i) k e h = ground (arith, find_id-set-none zs i k e)

  pub DistinctIds-set :
      (items : List Item) (i : ℕ)
      → get_elem? items i ≡ some x
      → DistinctIds items
      → DistinctIds (set items i y)
  DistinctIds-set [] i e h = h
  DistinctIds-set (z ∷ zs) zero e h = ground arith
  DistinctIds-set (z ∷ zs) (suc i) e (inl empty, h) = (inl empty, DistinctIds-set zs i e h)
  DistinctIds-set (z ∷ zs) (suc i) e (inr new, h) =
      (inr (find_id-set-none zs i z.id e new), DistinctIds-set zs i e h)
