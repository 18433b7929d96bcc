-- ===== src/Buffer/Items/Erase.antt =====
-- Removing one item, found by its place.
use inmem_cache.Base.{
  ℕ, zero, suc, ◌+◌, ◌≤◌, ◌≡◌, refl, false, none, some, List, [], ◌∷◌, length, get_elem?, erase_idx,
  ◌==◌, arith, if◌then◌else◌, inl, inr,
}
use inmem_cache.Base.Bytes.{Bytes, bytes_beq_iff, is_empty}
use inmem_cache.Types.{Item, approx_item_size}
use inmem_cache.Buffer.Items.Defs.{
  find_seq, find_id, has_id, Ascends, AtMost, DistinctIds, sum_sizes, sum_ids,
}
use inmem_cache.Buffer.Items.Order.{find_seq-seq, find_seq-get_elem?}

module _ (x : Item) where
  pub sum_sizes-erase :
      (items : List Item) (i : ℕ)
      → get_elem? items i ≡ some x
      → sum_sizes (erase_idx items i) + approx_item_size x ≡ sum_sizes items
  unfolding sum_sizes
  sum_sizes-erase [] i h = ground arith
  sum_sizes-erase (y ∷ ys) zero h = ground arith
  sum_sizes-erase (y ∷ ys) (suc i) h = omega (arith, sum_sizes-erase ys i h)

  pub sum_ids-erase :
      (items : List Item) (i : ℕ)
      → get_elem? items i ≡ some x
      → sum_ids (erase_idx items i) + length x.id ≡ sum_ids items
  unfolding sum_ids
  sum_ids-erase [] i h = ground arith
  sum_ids-erase (y ∷ ys) zero h = ground arith
  sum_ids-erase (y ∷ ys) (suc i) h = omega (arith, sum_ids-erase ys i h)

pub Ascends-weaken : (lo hi : ℕ) (items : List Item) → lo ≤ hi → Ascends hi items → Ascends lo items
Ascends-weaken lo hi [] le h = h
Ascends-weaken lo hi (x ∷ xs) le h = (omega arith, h.1)

pub Ascends-erase :
    (lo : ℕ) (items : List Item) (i : ℕ) → Ascends lo items → Ascends lo (erase_idx items i)
Ascends-erase lo [] i h = h
Ascends-erase lo (y ∷ ys) zero h = Ascends-weaken lo y.seq ys (omega arith) h.1
Ascends-erase lo (y ∷ ys) (suc i) h = (h.0, Ascends-erase y.seq ys i h.1)

pub AtMost-erase :
    (hi : ℕ) (items : List Item) (i : ℕ) → AtMost hi items → AtMost hi (erase_idx items i)
AtMost-erase hi [] i h = h
AtMost-erase hi (y ∷ ys) zero h = h.1
AtMost-erase hi (y ∷ ys) (suc i) h = (h.0, AtMost-erase hi ys i h.1)

pub find_seq-below :
    (lo : ℕ) (s : ℕ) (items : List Item) → Ascends lo items → s ≤ lo → find_seq items s ≡ none
unfolding find_seq
find_seq-below lo s [] h le = refl
find_seq-below lo s (y ∷ ys) h le = ground (arith, find_seq-below y.seq s ys h.1)

pub find_seq-erase :
    (lo : ℕ) (items : List Item) (i : ℕ) (x : Item) (t : ℕ)
    → Ascends lo items
    → get_elem? items i ≡ some x
    → find_seq (erase_idx items i) t ≡ (if x.seq == t then none else find_seq items t)
unfolding find_seq
find_seq-erase lo [] i x t h e = ground arith
find_seq-erase lo (y ∷ ys) zero x t h e = ground (arith, find_seq-below y.seq t ys h.1)
find_seq-erase lo (y ∷ ys) (suc i) x t h e = ground (
  arith,
  find_seq-erase y.seq ys i x t h.1 e,
  find_seq-get_elem? y.seq ys i x h.1 e,
  find_seq-seq y.seq x.seq ys x h.1,
)

-- A removal finds no id that was not there.
find_id-erase-none :
    (items : List Item) (i : ℕ) (k : Bytes)
    → find_id items k ≡ none
    → find_id (erase_idx items i) k ≡ none
unfolding find_id
find_id-erase-none [] i k h = refl
find_id-erase-none (y ∷ ys) zero k h = ground arith
find_id-erase-none (y ∷ ys) (suc i) k h = ground (arith, find_id-erase-none ys i k)

pub DistinctIds-erase :
    (items : List Item) (i : ℕ) → DistinctIds items → DistinctIds (erase_idx items i)
DistinctIds-erase [] i h = h
DistinctIds-erase (y ∷ ys) zero h = h.1
DistinctIds-erase (y ∷ ys) (suc i) (inl e, h) = (inl e, DistinctIds-erase ys i h)
DistinctIds-erase (y ∷ ys) (suc i) (inr e, h) =
    (inr (find_id-erase-none ys i y.id e), DistinctIds-erase ys i h)

-- An item with an id is found under it.
pub find_id-get_elem? :
    (items : List Item) (i : ℕ) (x : Item)
    → DistinctIds items
    → get_elem? items i ≡ some x
    → is_empty x.id ≡ false
    → find_id items x.id ≡ some x
unfolding find_id
find_id-get_elem? [] i x h e n = ground arith
find_id-get_elem? (y ∷ ys) zero x h e n = ground (arith, bytes_beq_iff x.id x.id)
find_id-get_elem? (y ∷ ys) (suc i) x h e n =
    ground (arith, find_id-get_elem? ys i x h.1 e n, bytes_beq_iff y.id x.id)

pub find_id-erase :
    (items : List Item) (i : ℕ) (x : Item) (k : Bytes)
    → DistinctIds items
    → get_elem? items i ≡ some x
    → find_id (erase_idx items i) k ≡ (if has_id x k then none else find_id items k)
unfolding find_id
find_id-erase [] i x k h e = ground arith
find_id-erase (y ∷ ys) zero x k h e = ground (arith, bytes_beq_iff y.id k)
find_id-erase (y ∷ ys) (suc i) x k h e = ground (
  arith,
  find_id-erase ys i x k h.1 e,
  find_id-get_elem? ys i x h.1 e,
  bytes_beq_iff y.id k,
  bytes_beq_iff x.id k,
)
