-- ===== src/Buffer/Items/Defs.antt =====
-- The specification of an item list.
use inmem_cache.Base.{
  ℕ, suc, ◌+◌, ◌^◌, ◌≤◌, ◌<◌, ◌≡◌, ◌⊎◌, Bool, true, false, Option, none, some, List, [], ◌∷◌,
  length, ◌==◌, ltb, if◌then◌else◌,
}
use inmem_cache.Base.Bytes.{Bytes, bytes_beq, is_empty}
use inmem_cache.Types.{Item, raw_size, approx_item_size}

-- The first item with the seq.
unfoldable pub find_seq : List Item → ℕ → Option Item
find_seq [] s = none
find_seq (x ∷ xs) s = if x.seq == s then some x else find_seq xs s

-- `item.ID != "" && item.ID == id`
abbrev pub has_id : Item → Bytes → Bool
has_id x k = if is_empty x.id then false else bytes_beq x.id k

-- The first item with the id; the empty id names none.
unfoldable pub find_id : List Item → Bytes → Option Item
find_id [] k = none
find_id (x ∷ xs) k = if has_id x k then some x else find_id xs k

-- The seqs ascend strictly, from above `lo`.
abbrev pub Ascends : ℕ → List Item → Type 0
Ascends lo [] = Unit
Ascends lo (x ∷ xs) = (lo < x.seq) × Ascends x.seq xs

abbrev pub AtMost : ℕ → List Item → Type 0
AtMost hi [] = Unit
AtMost hi (x ∷ xs) = (x.seq ≤ hi) × AtMost hi xs

-- No id stands twice; any number of items may have none.
abbrev pub DistinctIds : List Item → Type 0
DistinctIds [] = Unit
DistinctIds (x ∷ xs) = ((is_empty x.id ≡ true) ⊎ (find_id xs x.id ≡ none)) × DistinctIds xs

-- The cost of each item, which is memory that it takes, is a non-negative int64.
abbrev pub IsSized : Item → Type 0
IsSized x = raw_size x < 2 ^ 63

abbrev pub AllSized : List Item → Type 0
AllSized [] = Unit
AllSized (x ∷ xs) = IsSized x × AllSized xs

unfoldable pub sum_sizes : List Item → ℕ
sum_sizes [] = 0
sum_sizes (x ∷ xs) = approx_item_size x + sum_sizes xs

unfoldable pub sum_ids : List Item → ℕ
sum_ids [] = 0
sum_ids (x ∷ xs) = length x.id + sum_ids xs

-- How many items have a seq below `s`: on ascending seqs, the place of the first one that does not.
unfoldable pub count_below : ℕ → List Item → ℕ
count_below s [] = 0
count_below s (x ∷ xs) = if ltb x.seq s then suc (count_below s xs) else 0
