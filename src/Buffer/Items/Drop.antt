-- ===== src/Buffer/Items/Drop.antt =====
-- Removing a prefix.
use inmem_cache.Base.{
  ℕ, zero, suc, ◌+◌, ◌≡◌, refl, Option, none, some, List, [], ◌∷◌, take, drop, ltb, arith,
  if◌then◌else◌,
}
use inmem_cache.Base.Bytes.{Bytes, bytes_beq_iff}
use inmem_cache.Types.{Item}
use inmem_cache.Buffer.Items.Defs.{
  find_seq, find_id, Ascends, AtMost, DistinctIds, sum_sizes, sum_ids, count_below,
}
use inmem_cache.Buffer.Items.Erase.{Ascends-weaken, find_seq-below}

-- What is left of a map entry when some keys are deleted.
abbrev pub unless {ℓ} : {A : Type ℓ} → Option A → Option A → Option A
unless (some _) o = none
unless none o = o

pub sum_sizes-drop :
    (n : ℕ) (items : List Item)
    → sum_sizes (take n items) + sum_sizes (drop n items) ≡ sum_sizes items
unfolding sum_sizes
sum_sizes-drop zero items = omega arith
sum_sizes-drop (suc n) [] = omega arith
sum_sizes-drop (suc n) (x ∷ xs) = omega (arith, sum_sizes-drop n xs)

pub sum_ids-drop :
    (n : ℕ) (items : List Item) → sum_ids (take n items) + sum_ids (drop n items) ≡ sum_ids items
unfolding sum_ids
sum_ids-drop zero items = omega arith
sum_ids-drop (suc n) [] = omega arith
sum_ids-drop (suc n) (x ∷ xs) = omega (arith, sum_ids-drop n xs)

pub Ascends-drop : (lo n : ℕ) (items : List Item) → Ascends lo items → Ascends lo (drop n items)
Ascends-drop lo zero items h = h
Ascends-drop lo (suc n) [] h = h
Ascends-drop lo (suc n) (x ∷ xs) h =
    Ascends-weaken lo x.seq (drop n xs) (omega (arith, h.0)) (Ascends-drop x.seq n xs h.1)

pub AtMost-drop : (hi n : ℕ) (items : List Item) → AtMost hi items → AtMost hi (drop n items)
AtMost-drop hi zero items h = h
AtMost-drop hi (suc n) [] h = h
AtMost-drop hi (suc n) (x ∷ xs) h = AtMost-drop hi n xs h.1

pub DistinctIds-drop : (n : ℕ) (items : List Item) → DistinctIds items → DistinctIds (drop n items)
DistinctIds-drop zero items h = h
DistinctIds-drop (suc n) [] h = h
DistinctIds-drop (suc n) (x ∷ xs) h = DistinctIds-drop n xs h.1

find_seq-drop-none :
    (n : ℕ) (items : List Item) (t : ℕ) → find_seq items t ≡ none → find_seq (drop n items) t ≡ none
unfolding find_seq
find_seq-drop-none zero items t h = h
find_seq-drop-none (suc n) [] t h = h
find_seq-drop-none (suc n) (x ∷ xs) t h = find_seq-drop-none n xs t (ground arith)

find_id-drop-none :
    (n : ℕ) (items : List Item) (k : Bytes)
    → find_id items k ≡ none
    → find_id (drop n items) k ≡ none
unfolding find_id
find_id-drop-none zero items k h = h
find_id-drop-none (suc n) [] k h = h
find_id-drop-none (suc n) (x ∷ xs) k h = find_id-drop-none n xs k (ground arith)

pub find_seq-drop :
    (lo n : ℕ) (items : List Item) (t : ℕ)
    → Ascends lo items
    → find_seq (drop n items) t ≡ unless (find_seq (take n items) t) (find_seq items t)
unfolding find_seq
find_seq-drop lo zero items t h = refl
find_seq-drop lo (suc n) [] t h = refl
find_seq-drop lo (suc n) (x ∷ xs) t h = ground (
  arith,
  find_seq-drop x.seq n xs t h.1,
  find_seq-drop-none n xs t,
  find_seq-below x.seq t xs h.1,
)

pub find_id-drop :
    (n : ℕ) (items : List Item) (k : Bytes)
    → DistinctIds items
    → find_id (drop n items) k ≡ unless (find_id (take n items) k) (find_id items k)
unfolding find_id
find_id-drop zero items k h = refl
find_id-drop (suc n) [] k h = refl
find_id-drop (suc n) (x ∷ xs) k h =
    ground (arith, find_id-drop n xs k h.1, find_id-drop-none n xs k, bytes_beq_iff x.id k)

-- On ascending seqs, the items from the first seq that is not below `s`.
pub find_seq-drop-count_below :
    (lo s : ℕ) (items : List Item) (t : ℕ)
    → Ascends lo items
    → find_seq (drop (count_below s items) items) t ≡ (if ltb t s then none else find_seq items t)
unfolding find_seq count_below
find_seq-drop-count_below lo s [] t h = ground arith
find_seq-drop-count_below lo s (x ∷ xs) t h =
    ground (arith, find_seq-drop-count_below x.seq s xs t h.1, find_seq-below x.seq t xs h.1)
