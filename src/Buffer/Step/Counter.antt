-- ===== src/Buffer/Step/Counter.antt =====
-- counterAdd: every branch keeps the scope.
use inmem_cache.Base.{
  ℕ, ◌+◌, ◌^◌, ◌<◌, ◌≡◌, ◌⊎◌, refl, false, none, some, List, length, arith, inl, inr, Option-cases,
  nat_eq, ◌∙◌, sym,
}
use mathlib.Core.Path.{subst}
use inmem_cache.Base.Bytes.{Bytes, bytes_eq, is_empty}
use inmem_cache.Base.Word.{add64}
use inmem_cache.Base.Map
use inmem_cache.Json.{Json}
use inmem_cache.Types.{Item, CounterCell, approx_item_size}
use inmem_cache.Ledger.{Ledger}
use inmem_cache.Errors.{Error, Result, ok, err}
use inmem_cache.Buffer.{ScopeBuffer, item_cap_exceeded, put_by_id}
use inmem_cache.Buffer.Write.{push_item, count_item}
use inmem_cache.Buffer.Counter.{
  out_of_counter_range, atomic_counter_add, increment, incremented, parse_counter_value,
  promoted_item, promote_at, promote_found, promote, counter_item, create_counter, counter_add_slow,
  fast_cell, counter_add,
}
use inmem_cache.Buffer.Items.Defs.{find_id, IsSized, count_below}
use inmem_cache.Buffer.Items.{
  find_id-find_seq, find_id-has_id, index_by_seq-hit, get_elem?-count_below,
}
use inmem_cache.Buffer.Valid.{IsValid}
use inmem_cache.Buffer.Step.{Keeps, Keeps-same, Keeps-restamped, Kept, Kept-if}
use inmem_cache.Buffer.Step.Charge.{charge-cases}
use inmem_cache.Buffer.Step.Insert.{push-Keeps}
use inmem_cache.Buffer.Step.Replace.{delta-cases, with_item-Keeps}

-- The index by id may be written another way.
Keeps-indexed :
    (b b' : ScopeBuffer) (l l' : Ledger) (m : Map.Map Bytes Item)
    → b'.by_id ≡ m
    → Keeps b l b' l'
    → Keeps b l (record b' { by_id = m }) l'
Keeps-indexed b b' l l' m e k = subst (λ n. Keeps b l (record b' { by_id = n }) l') e k

Result-cases : {A : Type 0} (r : Result A) → ((e : Error) × (r ≡ err e)) ⊎ ((a : A) × (r ≡ ok a))
Result-cases (err e) = inl (e, refl)
Result-cases (ok a) = inr (a, refl)

put_by_id-eq :
    (m : Map.Map Bytes Item) (y : Item) (id : Bytes)
    → y.id ≡ id
    → is_empty y.id ≡ false
    → put_by_id m y ≡ Map.put m id y
unfolding put_by_id
put_by_id-eq m y id e n = rw (n, e) refl

module _ (b : ScopeBuffer) (l : Ledger) (v : IsValid b) where
  incremented-Keeps : (out : Result ℕ × List CounterCell) → Kept b l (incremented b l out)
  unfolding incremented
  incremented-Keeps (err e, cells) = Keeps-same b l v
  incremented-Keeps (ok value, cells) =
      Keeps-restamped b b l l b.last_write_ts cells (Keeps-same b l v)

  create_counter-Keeps :
      (scope id : Bytes) (by now_us : ℕ)
      → is_empty id ≡ false
      → find_id b.items id ≡ none
      → b.last_seq + 1 < 2 ^ 63
      → IsSized (counter_item scope id 0 0)
      → Kept b l (create_counter b l scope id by now_us)
  unfolding create_counter approx_item_size
  create_counter-Keeps scope id by now_us named absent room sized =
      let item = counter_item scope id (length b.cells) now_us in
      let stored = record item { seq = add64 b.last_seq 1 } in
      Kept-if b l (item_cap_exceeded b (length b.items + 1)) _ _ (λ _. Keeps-same b l v)
        (λ allowed. elim (charge-cases b l (approx_item_size item) (omega arith)) [
          | inl (e, refused) ↦ rw refused (Keeps-same b l v)
          | inr (l', granted, c) ↦
              let kept : Keeps b l (push_item b stored (approx_item_size stored))
                  (count_item b l') =
                push-Keeps b l l' stored v (omega arith) (inr absent) room allowed sized c in
              rw granted (
                Keeps-restamped b _ l (count_item b l') b.last_write_ts _
                  (Keeps-indexed b _ l (count_item b l') _ (unfold push_item in ground arith) kept))
        ])

  promote_found-Keeps :
      (x : Item) (id : Bytes) (current by now_us : ℕ)
      → find_id b.items id ≡ some x
      → IsSized (promoted_item x 0)
      → Kept b l (promote_found b l x id current by now_us)
  unfolding promote_found promote_at
  promote_found-Keeps x id current by now_us found sized =
      let y = promoted_item x (length b.cells) in
      let present = find_id-find_seq 0 b.items id x v.ascends found in
      let place = get_elem?-count_below 0 x.seq b.items x v.ascends present in
      let named = find_id-has_id b.items id x found in
      rw (index_by_seq-hit 0 x.seq b.items x v.ascends present, promote_found)
        (elim (delta-cases b l (approx_item_size x) (approx_item_size y)) [
          | inl (e, refused) ↦ rw refused (Keeps-same b l v)
          | inr (l', granted, c) ↦ rw granted (
              Keeps-restamped b _ l l' b.last_write_ts _ (
                Keeps-indexed b _ l l' _ (put_by_id-eq b.by_id y id named.0 named.1) (
                  with_item-Keeps b l l' (count_below x.seq b.items) x y _ v place.0 refl refl refl
                    sized c)))
        ])

  -- The bytes of a promotion: a counter's fixed cost in place of the payload's.
  promote-Keeps :
      ⦃json : Json⦄ (x : Item) (id : Bytes) (by now_us : ℕ)
      → find_id b.items id ≡ some x
      → IsSized (promoted_item x 0)
      → Kept b l (promote b l x id by now_us)
  unfolding promote
  promote-Keeps x id by now_us found sized = elim (Result-cases (parse_counter_value x.payload)) [
    | inl (e, bad) ↦ rw (bad, promote) (Keeps-same b l v)
    | inr (current, good) ↦
        rw (good, promote)
          (Kept-if b l (out_of_counter_range (add64 current by)) _ _ (λ _. Keeps-same b l v)
            (λ _. promote_found-Keeps x id current by now_us found sized))
  ]

  counter_add_slow-Keeps :
      ⦃json : Json⦄ (scope id : Bytes) (by now_us : ℕ)
      → is_empty id ≡ false
      → b.last_seq + 1 < 2 ^ 63
      → IsSized (counter_item scope id 0 0)
      → ((x : Item) → find_id b.items id ≡ some x → IsSized (promoted_item x 0))
      → Kept b l (counter_add_slow b l scope id by now_us)
  unfolding counter_add_slow increment
  counter_add_slow-Keeps scope id by now_us named room new_sized old_sized =
      Kept-if b l b.detached _ _ (λ _. Keeps-same b l v)
        (λ _. elim (Option-cases (Map.lookup b.by_id id)) [
          | inl absent ↦ rw absent (
              create_counter-Keeps scope id by now_us named (sym (v.ids_agree id) ∙ absent) room
                new_sized)
          | inr (x, hit) ↦
              let found : find_id b.items id ≡ some x = sym (v.ids_agree id) ∙ hit in
              rw hit (elim (Option-cases x.counter) [
                | inl plain ↦ rw plain (promote-Keeps x id by now_us found (old_sized x found))
                | inr (c, cell) ↦
                    rw cell (incremented-Keeps (atomic_counter_add b.cells c by now_us))
              ])
        ])

  -- An increment, a promotion or a creation of a counter with an id that is not empty, on a
  -- well-formed scope, keeps the scope well-formed and the counters of the store in lockstep
  -- with it, on every branch, where the counter's item fits an int64 and the seqs have room.
  pub counter_add-Keeps :
      ⦃json : Json⦄ (scope id : Bytes) (by now_us : ℕ)
      → is_empty id ≡ false
      → b.last_seq + 1 < 2 ^ 63
      → IsSized (counter_item scope id 0 0)
      → ((x : Item) → find_id b.items id ≡ some x → IsSized (promoted_item x 0))
      → Kept b l (counter_add b l scope id by now_us)
  unfolding counter_add increment
  counter_add-Keeps scope id by now_us named room new_sized old_sized =
      elim (Option-cases (fast_cell b id)) [
        | inl slow ↦
            rw (slow, counter_add)
              (counter_add_slow-Keeps scope id by now_us named room new_sized old_sized)
        | inr (c, fast) ↦
            rw (fast, counter_add) (incremented-Keeps (atomic_counter_add b.cells c by now_us))
      ]
