-- ===== src/Buffer/Valid/Built.antt =====
-- What buildReplacementState of buffer_replace.go builds is well-formed.
use mathlib.Core.Path.{subst}
use inmem_cache.Base.{
  ℕ, ◌+◌, ◌^◌, ◌≤◌, ◌<◌, ◌≡◌, refl, sym, ◌∙◌, ap, true, false, Option, none, some, List, [], ◌∷◌,
  length, arith, inl, inr, Bool-cases, nat_eq, if◌then◌else◌,
}
use inmem_cache.Base.Word.{word, add64, slt}
use inmem_cache.Base.Bytes.{Bytes, bytes_beq, bytes_beq_iff, bytes_eq, is_empty}
use inmem_cache.Base.Map
use inmem_cache.Base.Map.{Map}
use inmem_cache.Json.{Json}
use inmem_cache.Types.{Item, approx_item_size}
use inmem_cache.Errors.{Result, ok, err, Result-cases}
use inmem_cache.Buffer.{ScopeBuffer, put_by_id}
use inmem_cache.Buffer.Valid.{IsValid}
use inmem_cache.Buffer.Write.{fresh_item}
use inmem_cache.Buffer.Replace.{
  ScopeReplacement, contains, build_items, index_ids, index_seqs, build_replacement_state,
  id_key_bytes_of, sum_item_bytes, adopt,
}
use inmem_cache.Buffer.Items.Defs.{
  find_seq, find_id, Ascends, AtMost, DistinctIds, AllSized, sum_sizes,
}

abbrev or_else : Option Item → Option Item → Option Item
or_else none o = o
or_else (some x) o = some x

find_seq-below :
    (lo : ℕ) (items : List Item) (s : ℕ) → Ascends lo items → s ≤ lo → find_seq items s ≡ none
unfolding find_seq
find_seq-below lo [] s h le = refl
find_seq-below lo (x ∷ xs) s h le =
    ground (arith, find_seq-below x.seq xs s h.1 (omega (arith, h.0)), h.0)

-- The map of the seqs is the scan of the items, then what was in the map.
lookup-index_seqs :
    (lo : ℕ) (m : Map ℕ Item) (items : List Item) (s : ℕ)
    → Ascends lo items
    → Map.lookup (index_seqs m items) s ≡ or_else (find_seq items s) (Map.lookup m s)
unfolding index_seqs find_seq
lookup-index_seqs lo m [] s h = refl
lookup-index_seqs lo m (x ∷ xs) s h = ground (
  arith,
  lookup-index_seqs x.seq (Map.put m x.seq x) xs s h.1,
  Map.lookup-put m x.seq x s,
  find_seq-below x.seq xs s h.1,
)

lookup-put_by_id :
    (m : Map Bytes Item) (x : Item) (k : Bytes)
    → Map.lookup (put_by_id m x) k
      ≡ (if (if is_empty x.id then false else bytes_beq x.id k) then some x else Map.lookup m k)
unfolding put_by_id
lookup-put_by_id m x k = ground (arith, Map.lookup-put m x.id x k)

lookup-index_ids :
    (m : Map Bytes Item) (items : List Item) (k : Bytes)
    → DistinctIds items
    → Map.lookup (index_ids m items) k ≡ or_else (find_id items k) (Map.lookup m k)
unfolding index_ids find_id
lookup-index_ids m [] k d = refl
lookup-index_ids m (x ∷ xs) k d = ground (
  arith,
  lookup-index_ids (put_by_id m x) xs k d.1,
  lookup-put_by_id m x k,
  bytes_beq_iff x.id k,
  d.0,
)

seen_after-own :
    (seen : List Bytes) (id : Bytes)
    → is_empty id ≡ false
    → contains (if is_empty id then seen else id ∷ seen) id ≡ true
unfolding contains
seen_after-own seen id named = ground (arith, named, bytes_beq_iff id id)

seen_after-keeps :
    (seen : List Bytes) (id k : Bytes)
    → contains seen k ≡ true
    → contains (if is_empty id then seen else id ∷ seen) k ≡ true
unfolding contains
seen_after-keeps seen id k there = ground (arith, there)

module _ ⦃json : Json⦄ where
  -- What the first loop builds: seqs that ascend from its start, no id twice, and none that was seen.
  record Builds (seen : List Bytes) (n : ℕ) (items made : List Item) : Type 0 where
    pub length_kept : length made ≡ length items
    pub ascends : Ascends n made
    pub at_most : AtMost (n + length made) made
    pub distinct : DistinctIds made
    pub unseen : (k : Bytes) → contains seen k ≡ true → find_id made k ≡ none

  AtMost-le : (m n : ℕ) (items : List Item) → m ≤ n → AtMost m items → AtMost n items
  AtMost-le m n [] le h = tt
  AtMost-le m n (x ∷ xs) le h = (omega (arith, h.0), AtMost-le m n xs le h.1)

  build_items-Builds :
      (seen : List Bytes) (n now_us : ℕ) (items made : List Item)
      → n + length items < 2 ^ 64
      → build_items seen n now_us items ≡ ok made
      → Builds seen n items made
  unfolding build_items find_id fresh_item
  build_items-Builds seen n now_us [] [] small built = record {
    length_kept = refl;
    ascends = tt;
    at_most = tt;
    distinct = tt;
    unseen = λ k _. refl;
  }
  build_items-Builds seen n now_us [] (y ∷ ys) small built = absurd (ground (arith, built))
  build_items-Builds seen n now_us (x ∷ xs) [] small built = absurd (ground (arith, built))
  build_items-Builds seen n now_us (x ∷ xs) (y ∷ ys) small built =
      let seen' = if is_empty x.id then seen else x.id ∷ seen in
      let rest_built : build_items seen' (n + 1) now_us xs ≡ ok ys = ground (arith, built) in
      let rest = build_items-Builds seen' (n + 1) now_us xs ys (omega arith) rest_built in
      let numbered : y.seq ≡ n + 1 = ground (arith, built) in
      let named : y.id ≡ x.id = ground (arith, built) in
      let fresh : (if is_empty x.id then false else contains seen x.id) ≡ false =
        ground (arith, built) in
      record {
        length_kept = omega (arith, rest.length_kept);
        ascends = (omega (arith, numbered), ground (arith, numbered, rest.ascends));
        at_most = (omega (arith, numbered), AtMost-le _ _ ys (omega arith) rest.at_most);
        distinct = (
          elim (Bool-cases (is_empty x.id)) [
            | inl nameless ↦ inl (ground (arith, named, nameless))
            | inr called ↦
                inr (ap (find_id ys) named ∙ rest.unseen x.id (seen_after-own seen x.id called))
          ],
          rest.distinct,
        );
        unseen = λ k there.
            let later = rest.unseen k (seen_after-keeps seen x.id k there) in
            ground (arith, named, fresh, there, later, bytes_beq_iff y.id k);
      }

-- What is built of the items that the first loop made.
abbrev pub of_items : List Item → ScopeReplacement
of_items made = record {
  items = made;
  by_id = index_ids [] made;
  by_seq = index_seqs [] made;
  last_seq = word (length made);
  id_key_bytes = id_key_bytes_of 0 made;
}

abbrev pub or_made : List Item → Result ScopeReplacement → ScopeReplacement
or_made made (err e) = of_items made
or_made made (ok r) = r

-- A replacement of a batch: its maps are the lookups in its items, whose seqs run up to their number.
pub record IsBuilt (items : List Item) (r : ScopeReplacement) : Type 0 where
  pub length_kept : length r.items ≡ length items
  pub ascends : Ascends 0 r.items
  pub at_most : AtMost r.last_seq r.items
  pub last : r.last_seq ≡ length r.items
  pub distinct : DistinctIds r.items
  pub ids_agree : (k : Bytes) → Map.lookup r.by_id k ≡ find_id r.items k
  pub seqs_agree : (s : ℕ) → Map.lookup r.by_seq s ≡ find_seq r.items s

or_else-none : (o : Option Item) → or_else o none ≡ o
or_else-none none = refl
or_else-none (some x) = refl

module _ ⦃json : Json⦄ where
  of_items-IsBuilt :
      (items made : List Item)
      → length items < 2 ^ 64
      → Builds [] 0 items made
      → IsBuilt items (of_items made)
  unfolding Map.lookup
  of_items-IsBuilt items made small b =
      let last : word (length made) ≡ length made = omega (arith, b.length_kept) in
      record {
        length_kept = b.length_kept;
        ascends = b.ascends;
        at_most = AtMost-le _ _ made (omega (arith, last)) b.at_most;
        last = last;
        distinct = b.distinct;
        ids_agree = λ k. lookup-index_ids [] made k b.distinct ∙ or_else-none (find_id made k);
        seqs_agree = λ s. lookup-index_seqs 0 [] made s b.ascends ∙ or_else-none (find_seq made s);
      }

  pub build_replacement_state-IsBuilt :
      (items : List Item) (now_us : ℕ) (r : ScopeReplacement)
      → length items < 2 ^ 64
      → build_replacement_state items now_us ≡ ok r
      → IsBuilt items r
  unfolding build_replacement_state
  build_replacement_state-IsBuilt items now_us r small built =
      elim (Result-cases (build_items [] 0 now_us items)) [
        | inl (e, bad) ↦
            let failed : err e ≡ ok r = sym (rw (bad, build_replacement_state) refl) ∙ built in
            absurd (ground (arith, failed))
        | inr (made, good) ↦
            let eq : ok (of_items made) ≡ ok r =
              sym (rw (good, build_replacement_state) refl) ∙ built in
            subst (IsBuilt items) (ap (or_made made) eq) (
              of_items-IsBuilt items made small
                (build_items-Builds [] 0 now_us items made (omega arith) good))
      ]

-- The first loop keeps the number of the items.
build_items-length :
    ⦃json : Json⦄
    → (seen : List Bytes) (n now_us : ℕ) (items made : List Item)
    → build_items seen n now_us items ≡ ok made
    → length made ≡ length items
unfolding build_items
build_items-length seen n now_us [] [] built = refl
build_items-length seen n now_us [] (y ∷ ys) built = absurd (ground (arith, built))
build_items-length seen n now_us (x ∷ xs) [] built = absurd (ground (arith, built))
build_items-length seen n now_us (x ∷ xs) (y ∷ ys) built =
    let seen' = if is_empty x.id then seen else x.id ∷ seen in
    let rest_built : build_items seen' (add64 n 1) now_us xs ≡ ok ys = ground (arith, built) in
    omega (arith, build_items-length seen' (add64 n 1) now_us xs ys rest_built)

pub build_replacement_state-length :
    ⦃json : Json⦄
    → (items : List Item) (now_us : ℕ) (r : ScopeReplacement)
    → build_replacement_state items now_us ≡ ok r
    → length r.items ≡ length items
unfolding build_replacement_state
build_replacement_state-length items now_us r built =
    elim (Result-cases (build_items [] 0 now_us items)) [
      | inl (e, bad) ↦
          let failed : err e ≡ ok r = sym (rw (bad, build_replacement_state) refl) ∙ built in
          absurd (ground (arith, failed))
      | inr (made, good) ↦
          let eq : ok (of_items made) ≡ ok r =
            sym (rw (good, build_replacement_state) refl) ∙ built in
          ap (λ o. length (or_made made o).items) (sym eq)
          ∙ build_items-length [] 0 now_us items made good
    ]

sum_item_bytes-sum :
    (acc : ℕ) (items : List Item)
    → acc < 2 ^ 64
    → sum_item_bytes acc items ≡ word (acc + sum_sizes items)
unfolding sum_item_bytes sum_sizes
sum_item_bytes-sum acc [] h = omega arith
sum_item_bytes-sum acc (x ∷ xs) h =
    omega (arith, sum_item_bytes-sum (add64 acc (approx_item_size x)) xs (omega arith))

pub sum_item_bytes_exact : (items : List Item) → sum_item_bytes 0 items ≡ word (sum_sizes items)
sum_item_bytes_exact items = omega (arith, sum_item_bytes-sum 0 items (omega arith))

-- The scope that a replacement is swapped into.
pub adopt-IsValid :
    (b : ScopeBuffer) (items : List Item) (r : ScopeReplacement) (new_bytes now_us : ℕ)
    → IsBuilt items r
    → AllSized r.items
    → new_bytes ≡ word (sum_sizes r.items)
    → (slt 0 b.max_items ≡ true → length r.items ≤ b.max_items)
    → IsValid (adopt b r new_bytes now_us)
unfolding adopt
adopt-IsValid b items r new_bytes now_us h sized sum cap = record {
  ascends = h.ascends;
  at_most = h.at_most;
  distinct = h.distinct;
  ids_agree = h.ids_agree;
  seqs_agree = h.seqs_agree;
  sized = sized;
  bytes_sum = sum;
  within_cap = cap;
}
