-- ===== src/Validate/Laws.antt =====
-- What the validators accept.
use inmem_cache.Base.{
  ℕ, ◌≡◌, ◌⊎◌, refl, true, Option, none, some, inl, inr, Option-cases, Bool-cases,
}
use inmem_cache.Json.{Json}
use inmem_cache.Types.{Item}
use inmem_cache.Errors.{Error, Reason, Field, Result, ok, err, invalid_input}
use inmem_cache.Base.Bytes.{is_empty}
use inmem_cache.Validate.{
  CounterAddRequest, validate_counter_add_request, validate_scope, is_reserved_scope, require_id,
  with_render, validate_write_item, validate_upsert_item, validate_update_item, checked,
}

module _ ⦃json : Json⦄ (item : Item) where
  -- A validator of an item fails, or hands the item on with its renderBytes filled in.
  abbrev pub Hands : Result Item → Type 0
  Hands out = ((e : Error) × (out ≡ err e)) ⊎ (out ≡ ok (with_render item))

  checked-Hands : (o : Option Reason) → Hands (checked item o)
  checked-Hands none = inr refl
  checked-Hands (some r) = inl (invalid_input r, refl)

  pub validate_write_item-Hands : (cap : ℕ) → Hands (validate_write_item item cap)
  unfolding validate_write_item
  validate_write_item-Hands cap = checked-Hands _

  pub validate_upsert_item-Hands : (cap : ℕ) → Hands (validate_upsert_item item cap)
  unfolding validate_upsert_item
  validate_upsert_item-Hands cap = checked-Hands _

  pub validate_update_item-Hands : (cap : ℕ) → Hands (validate_update_item item cap)
  unfolding validate_update_item
  validate_update_item-Hands cap = checked-Hands _

-- An empty id is refused before anything else of the request is looked at, but the scope.
pub validate_counter_add_request-nameless :
    (req : CounterAddRequest) (cap : ℕ)
    → is_empty req.id ≡ true
    → (e : Error) × (validate_counter_add_request req cap ≡ err e)
unfolding validate_counter_add_request require_id
validate_counter_add_request-nameless req cap nameless =
    elim (Option-cases (validate_scope req.scope)) [
      | inr (r, bad) ↦ (invalid_input r, rw (bad, validate_counter_add_request) refl)
      | inl good ↦ elim (Bool-cases (is_reserved_scope req.scope)) [
        | inl reserved ↦ (
          invalid_input (Reason.reserved req.scope),
          rw (good, reserved, validate_counter_add_request) refl,
        )
        | inr plain ↦ (
          invalid_input (Reason.required Field.id),
          rw (good, plain, nameless, validate_counter_add_request) refl,
        )
      ]
    ]
