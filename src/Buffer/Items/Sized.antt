-- ===== src/Buffer/Items/Sized.antt =====
-- The changes of the list keep the sizes in range.
use inmem_cache.Base.{
  ℕ, zero, suc, ◌≤◌, ◌≡◌, some, List, [], ◌∷◌, ◌++◌, get_elem?, set, erase_idx, drop, arith,
}
use inmem_cache.Types.{Item, approx_item_size}
use inmem_cache.Buffer.Items.Defs.{AllSized, IsSized, sum_sizes}

pub AllSized-erase : (items : List Item) (i : ℕ) → AllSized items → AllSized (erase_idx items i)
AllSized-erase [] i h = h
AllSized-erase (x ∷ xs) zero h = h.1
AllSized-erase (x ∷ xs) (suc i) h = (h.0, AllSized-erase xs i h.1)

pub AllSized-set :
    (items : List Item) (i : ℕ) (y : Item) → IsSized y → AllSized items → AllSized (set items i y)
AllSized-set [] i y s h = h
AllSized-set (x ∷ xs) zero y s h = (s, h.1)
AllSized-set (x ∷ xs) (suc i) y s h = (h.0, AllSized-set xs i y s h.1)

pub AllSized-insert :
    (items : List Item) (y : Item) → IsSized y → AllSized items → AllSized (items ++ y ∷ [])
AllSized-insert [] y s h = (s, tt)
AllSized-insert (x ∷ xs) y s h = (h.0, AllSized-insert xs y s h.1)

pub AllSized-drop : (n : ℕ) (items : List Item) → AllSized items → AllSized (drop n items)
AllSized-drop zero items h = h
AllSized-drop (suc n) [] h = h
AllSized-drop (suc n) (x ∷ xs) h = AllSized-drop n xs h.1

-- An item of the list is sized, and costs at most what all cost.
pub AllSized-get_elem? :
    (items : List Item) (i : ℕ) (x : Item) → get_elem? items i ≡ some x → AllSized items → IsSized x
AllSized-get_elem? [] i x e h = ground arith
AllSized-get_elem? (y ∷ ys) zero x e h = ground arith
AllSized-get_elem? (y ∷ ys) (suc i) x e h = AllSized-get_elem? ys i x e h.1

pub size-le-sum :
    (items : List Item) (i : ℕ) (x : Item)
    → get_elem? items i ≡ some x
    → approx_item_size x ≤ sum_sizes items
unfolding sum_sizes
size-le-sum [] i x e = ground arith
size-le-sum (y ∷ ys) zero x e = ground arith
size-le-sum (y ∷ ys) (suc i) x e = omega (arith, size-le-sum ys i x e)
