-- ===== src/Buffer/Items/Order.antt =====
-- The binary search by seq finds exactly what a scan finds.
use inmem_cache.Base.{
  ℕ, zero, suc, ◌≤◌, ◌<◌, ◌≡◌, false, none, some, List, [], ◌∷◌, length, get_elem?, leb, arith,
  Option-cases, inl, inr, get_elem?-length,
}
use inmem_cache.Search.{sort_search, sort_search-eq}
use inmem_cache.Base.Bytes.{Bytes, bytes_beq_iff, is_empty}
use inmem_cache.Types.{Item}
use inmem_cache.Buffer.{seq_at, index_by_seq}
use inmem_cache.Buffer.Delete.{cut_after}
use inmem_cache.Buffer.Items.Defs.{find_id, find_seq, Ascends, count_below}

pub count_below-le : (s : ℕ) (items : List Item) → count_below s items ≤ length items
unfolding count_below
count_below-le s [] = omega arith
count_below-le s (x ∷ xs) = ground (arith, count_below-le s xs)

Ascends-seq_at :
    (lo : ℕ) (items : List Item) (k : ℕ) → Ascends lo items → k < length items → lo < seq_at items k
unfolding seq_at
Ascends-seq_at lo [] k h lt = elim lt [ ]
Ascends-seq_at lo (x ∷ xs) zero h lt = h.0
Ascends-seq_at lo (x ∷ xs) (suc k) h lt =
    omega (arith, h.0, Ascends-seq_at x.seq xs k h.1 (omega arith))

pub seq_at-count_below :
    (lo : ℕ) (s : ℕ) (items : List Item) (k : ℕ)
    → Ascends lo items
    → k < length items
    → leb s (seq_at items k) ≡ leb (count_below s items) k
unfolding count_below seq_at
seq_at-count_below lo s [] k h lt = elim lt [ ]
seq_at-count_below lo s (x ∷ xs) zero h lt = ground arith
seq_at-count_below lo s (x ∷ xs) (suc k) h lt =
    let next : k < length xs = omega arith in
    let above : x.seq < seq_at xs k = Ascends-seq_at x.seq xs k h.1 next in
    ground (arith, seq_at-count_below x.seq s xs k h.1 next)

pub search-count_below :
    (lo : ℕ) (s : ℕ) (items : List Item)
    → Ascends lo items
    → sort_search (length items) (λ k. leb s (seq_at items k)) ≡ count_below s items
search-count_below lo s items h =
    sort_search-eq (length items) _ (count_below s items)
      (λ k lt. seq_at-count_below lo s items k h lt) (count_below-le s items)

past_end : (items : List Item) (k : ℕ) → get_elem? items k ≡ none → length items ≤ k
past_end [] k h = omega arith
past_end (x ∷ xs) zero h = ground arith
past_end (x ∷ xs) (suc k) h = omega (arith, past_end xs k h)

-- A found item has the seq, which lies above the bound of the list.
pub find_seq-seq :
    (lo : ℕ) (s : ℕ) (items : List Item) (x : Item)
    → Ascends lo items
    → find_seq items s ≡ some x
    → (x.seq ≡ s) × (lo < s)
unfolding find_seq
find_seq-seq lo s [] x h f = ground arith
find_seq-seq lo s (y ∷ ys) x h f = ground (arith, find_seq-seq y.seq s ys x h.1)

-- What is found stands at the place that the search returns.
pub get_elem?-count_below :
    (lo : ℕ) (s : ℕ) (items : List Item) (x : Item)
    → Ascends lo items
    → find_seq items s ≡ some x
    → (get_elem? items (count_below s items) ≡ some x) × (x.seq ≡ s)
unfolding find_seq count_below
get_elem?-count_below lo s [] x h f = ground arith
get_elem?-count_below lo s (y ∷ ys) x h f =
    ground (arith, get_elem?-count_below y.seq s ys x h.1, find_seq-seq y.seq s ys x h.1)

-- The binary search on ascending seqs, on a hit: the place of the item that a scan finds.
pub index_by_seq-hit :
    (lo : ℕ) (s : ℕ) (items : List Item) (x : Item)
    → Ascends lo items
    → find_seq items s ≡ some x
    → index_by_seq items s ≡ some (count_below s items)
unfolding index_by_seq
index_by_seq-hit lo s items x h f = rw (search-count_below lo s items h) (
    ground (
      arith,
      get_elem?-count_below lo s items x h f,
      get_elem?-length items (count_below s items) x,
    ))

pub find_seq-get_elem? :
    (lo : ℕ) (items : List Item) (k : ℕ) (x : Item)
    → Ascends lo items
    → get_elem? items k ≡ some x
    → find_seq items x.seq ≡ some x
unfolding find_seq
find_seq-get_elem? lo [] k x h f = ground arith
find_seq-get_elem? lo (y ∷ ys) zero x h f = ground arith
find_seq-get_elem? lo (y ∷ ys) (suc k) x h f =
    ground (arith, find_seq-get_elem? y.seq ys k x h.1, find_seq-seq y.seq x.seq ys x h.1)

-- On a miss it reports a miss.
pub index_by_seq-miss :
    (lo : ℕ) (s : ℕ) (items : List Item)
    → Ascends lo items
    → find_seq items s ≡ none
    → index_by_seq items s ≡ none
unfolding index_by_seq
index_by_seq-miss lo s items h f =
    rw (search-count_below lo s items h) (elim (Option-cases (get_elem? items c)) [
      | inl out ↦ ground (arith, past_end items c, count_below-le s items)
      | inr (x, at) ↦ ground (arith, find_seq-get_elem? lo items c x h at)
    ])
  where
    c : ℕ
    c = count_below s items

-- An item found by its id is the item with its seq.
pub find_id-find_seq :
    (lo : ℕ) (items : List Item) (k : Bytes) (x : Item)
    → Ascends lo items
    → find_id items k ≡ some x
    → find_seq items x.seq ≡ some x
unfolding find_seq find_id
find_id-find_seq lo [] k x h f = ground arith
find_id-find_seq lo (y ∷ ys) k x h f =
    ground (arith, find_id-find_seq y.seq ys k x h.1, find_seq-seq y.seq x.seq ys x h.1)

-- The cut of deleteUpToSeq and sinceSeq: the items whose seq is at most `m` stand before it.
pub cut_after-count_below :
    (items : List Item) (m : ℕ) → Ascends 0 items → cut_after items m ≡ count_below (suc m) items
unfolding cut_after
cut_after-count_below items m h =
    sort_search-eq (length items) _ (count_below (suc m) items)
      (λ k lt. ground (arith, seq_at-count_below 0 (suc m) items k h lt))
      (count_below-le (suc m) items)

pub cut_after-le : (items : List Item) (m : ℕ) → Ascends 0 items → cut_after items m ≤ length items
cut_after-le items m h = rw (cut_after-count_below items m h) (count_below-le (suc m) items)

-- What is found under an id has it.
pub find_id-has_id :
    (items : List Item) (k : Bytes) (x : Item)
    → find_id items k ≡ some x
    → (x.id ≡ k) × (is_empty x.id ≡ false)
unfolding find_id
find_id-has_id [] k x f = ground arith
find_id-has_id (y ∷ ys) k x f = ground (arith, find_id-has_id ys k x, bytes_beq_iff y.id k)
