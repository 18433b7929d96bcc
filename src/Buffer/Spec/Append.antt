-- ===== src/Buffer/Spec/Append.antt =====
-- appendItem, on the contents: a refusal changes nothing, and a success adds exactly one item.
use inmem_cache.Base.{
  ℕ, ◌+◌, ◌≡◌, ◌⊎◌, refl, [], ◌∷◌, ◌++◌, length, arith, inl, inr, Bool-cases, nat_eq, if_true,
  if_false,
}
use inmem_cache.Base.Bytes.{bytes_eq}
use inmem_cache.Base.Word.{add64}
use inmem_cache.Json.{Json}
use inmem_cache.Types.{Item, approx_item_size}
use inmem_cache.Ledger.{Ledger}
use inmem_cache.Errors.{Error, ok, err, scope_detached, scope_full, duplicate_id}
use inmem_cache.Buffer.{ScopeBuffer, Outcome, item_cap_exceeded}
use inmem_cache.Buffer.Write.{fresh_item, push_item, insert_new_item, id_taken, append_item}
use inmem_cache.Buffer.Step.Charge.{charge-cases}

-- A refusal that changes nothing, or `x` at the end of the items.
abbrev pub StoresOrRefuses : ScopeBuffer → Ledger → Item → Outcome Item → Type 0
StoresOrRefuses b l x out =
    ((e : Error) × (out ≡ (err e, b, l))) ⊎ ((out.0 ≡ ok x) × (out.1.items ≡ b.items ++ x ∷ []))

module _ ⦃json : Json⦄ (b : ScopeBuffer) (l : Ledger) (item : Item) (now_us : ℕ) where
  -- The item that a success stores and returns.
  abbrev pub stored : Item
  stored = record (fresh_item item now_us) { seq = add64 b.last_seq 1 }

  pub insert_new_item_outcome : StoresOrRefuses b l stored (insert_new_item b l item now_us)
  unfolding insert_new_item push_item
  insert_new_item_outcome =
      elim (charge-cases b l (approx_item_size (fresh_item item now_us))
        (unfold approx_item_size in omega arith)) [
          | inl (e, refused) ↦ inl (e, rw (refused, insert_new_item))
          | inr (l', granted, c) ↦
              inr (rw (granted, insert_new_item) refl, rw (granted, insert_new_item) refl)
        ]

  -- An append to a scope fails with the scope and the counters as they were, or it returns the
  -- item that it put at the end of the scope.
  pub append_item_outcome : StoresOrRefuses b l stored (append_item b l item now_us)
  unfolding append_item
  append_item_outcome = elim (Bool-cases b.detached) [
    | inl gone ↦ inl (scope_detached, if_true b.detached _ _ gone)
    | inr live ↦ elim (Bool-cases (item_cap_exceeded b (length b.items + 1))) [
      | inl full ↦ inl (
        scope_full (length b.items) b.max_items,
        rw (if_false b.detached _ _ live, if_true _ _ _ full),
      )
      | inr room ↦ elim (Bool-cases (id_taken b item.id)) [
        | inl taken ↦ inl (
          duplicate_id,
          rw (if_false b.detached _ _ live, if_false _ _ _ room, if_true _ _ _ taken),
        )
        | inr free ↦
            rw (if_false b.detached _ _ live, if_false _ _ _ room, if_false _ _ _ free)
              insert_new_item_outcome
      ]
    ]
  ]
