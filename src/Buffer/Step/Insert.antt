-- ===== src/Buffer/Step/Insert.antt =====
-- insertNewItemLocked and appendItem: every branch keeps the scope.
use inmem_cache.Base.{
  ℕ, ◌+◌, ◌^◌, ◌<◌, ◌≡◌, ◌⊎◌, refl, true, false, none, [], ◌∷◌, length, arith, inl, inr, Bool-cases,
  length-append,
}
use inmem_cache.Base.Word.{add64}
use inmem_cache.Base.Bytes.{Bytes, bytes_eq, is_empty}
use inmem_cache.Json.{Json}
use inmem_cache.Types.{Item, approx_item_size}
use inmem_cache.Ledger.{Ledger}
use inmem_cache.Buffer.{ScopeBuffer, bump_if_attached, item_cap_exceeded}
use inmem_cache.Buffer.Write.{
  fresh_item, push_item, count_item, insert_new_item, id_taken, append_item,
}
use inmem_cache.Buffer.Items.Defs.{find_id, IsSized}
use inmem_cache.Buffer.Items.{sum_sizes-insert}
use inmem_cache.Buffer.Valid.{IsValid}
use inmem_cache.Buffer.Valid.Insert.{push_item-IsValid, push_item-IsIdCounted}
use inmem_cache.Buffer.Step.{Keeps, Kept, Kept-if, Keeps-same, Keeps-restamped, Keeps-bumped}
use inmem_cache.Buffer.Step.Charge.{Charged, charge-cases}

-- An id that the test of appendItem lets pass is no item's.
not_taken :
    (b : ScopeBuffer) (id : Bytes)
    → IsValid b
    → id_taken b id ≡ false
    → (is_empty id ≡ true) ⊎ (find_id b.items id ≡ none)
not_taken b id v free = elim (Bool-cases (is_empty id)) [
  | inl empty ↦ inl empty
  | inr present ↦ inr (ground (arith, v.ids_agree id))
]

-- The commit of a fresh item, once its cost is charged.
pub push-Keeps :
    (b : ScopeBuffer) (l l' : Ledger) (y : Item)
    → IsValid b
    → y.seq ≡ b.last_seq + 1
    → (is_empty y.id ≡ true) ⊎ (find_id b.items y.id ≡ none)
    → b.last_seq + 1 < 2 ^ 63
    → item_cap_exceeded b (length b.items + 1) ≡ false
    → IsSized y
    → Charged b l (approx_item_size y) l'
    → Keeps b l (push_item b y (approx_item_size y)) (count_item b l')
unfolding count_item approx_item_size
push-Keeps b l l' y v next new room allowed small c = record {
  valid = push_item-IsValid b y v next new room small allowed;
  counted = push_item-IsIdCounted b y v next new room small allowed;
  attached = unfold push_item in refl;
  detached = unfold push_item in refl;
  max_items = unfold push_item in refl;
  last_seq = unfold push_item in omega arith;
  steps = unfold push_item in omega arith;
  caps = ground arith;
  bytes = λ a. unfold push_item in ground arith;
  items = λ a. unfold push_item in ground (arith, length-append b.items (y ∷ []));
  within = λ a w s. ground arith;
  grows = unfold push_item in omega (arith, sum_sizes-insert y b.items);
  orphan = λ a. ground arith;
}

module _ ⦃json : Json⦄ (b : ScopeBuffer) (l : Ledger) (item : Item) (now_us : ℕ) (v : IsValid b)
    (room : b.last_seq + 1 < 2 ^ 63) (small : IsSized (fresh_item item now_us)) where
  pub insert_new_item-Keeps :
      (is_empty item.id ≡ true) ⊎ (find_id b.items item.id ≡ none)
      → item_cap_exceeded b (length b.items + 1) ≡ false
      → Keeps b l (insert_new_item b l item now_us).1 (insert_new_item b l item now_us).2
  unfolding insert_new_item bump_if_attached approx_item_size
  insert_new_item-Keeps new allowed =
      let stored = record (fresh_item item now_us) { seq = add64 b.last_seq 1 } in
      elim (charge-cases b l (approx_item_size (fresh_item item now_us)) (omega arith)) [
        | inl (e, refused) ↦ rw (refused, insert_new_item) (Keeps-same b l v)
        | inr (l', granted, c) ↦
            rw (granted, insert_new_item)
              (Keeps-restamped b (push_item b stored (approx_item_size stored)) l
                (bump_if_attached b (count_item b l') now_us) now_us b.cells
                (Keeps-bumped b _ l (count_item b l') now_us
                  (push-Keeps b l l' stored v (omega arith) new room allowed small c)))
      ]

  -- An append to a well-formed scope keeps the scope well-formed and the counters of the store
  -- in lockstep with it, on every branch, where the item fits an int64 and the seqs have room.
  pub append_item-Keeps : Kept b l (append_item b l item now_us)
  unfolding append_item
  append_item-Keeps =
      Kept-if b l b.detached _ _ (λ _. Keeps-same b l v)
        (λ _.
          Kept-if b l (item_cap_exceeded b (length b.items + 1)) _ _ (λ _. Keeps-same b l v)
            (λ allowed.
              Kept-if b l (id_taken b item.id) _ _ (λ _. Keeps-same b l v)
                (λ free. insert_new_item-Keeps (not_taken b item.id v free) allowed)))
