-- ===== src/Http/Reports.antt =====
-- What the status of a response tells of the operation behind it.
use mathlib.Core.Path.{subst}
use inmem_cache.Base.{
  ℕ, ◌≡◌, ◌≢◌, ◌⊎◌, refl, sym, Bool-cases, inl, inr, true, false, some, List, ◌∷◌, arith,
}
use inmem_cache.Base.Bytes.{Bytes}
use inmem_cache.Json.{Json}
use inmem_cache.Types.{Item}
use inmem_cache.Errors.{
  Error, ok, err, scope_detached, scope_full, scope_capacity, store_full, counter_payload,
  counter_overflow, duplicate_id, scope_required, invalid_input,
}
use inmem_cache.Validate.{CounterAddRequest, group_items_by_scope}
use inmem_cache.Store.{Store, StoreOutcome}
use inmem_cache.Store.Sharding.{Hash}
use inmem_cache.Store.Events.{append_one}
use inmem_cache.Store.Valid.{IsStored}
use inmem_cache.Store.Valid.Refused.{Untouched, Atomic, append_one-Atomic}
use inmem_cache.Http.Routes.{Endpoint, serve}
use inmem_cache.Store.Write.{upsert_one, counter_add_one, update_one}
use inmem_cache.Store.Bulk.{rebuild_all}
use inmem_cache.Http.{
  Api, Decoded, over_limit, malformed, method_beq, decoded, Decoder, Encoder, Fields, Message,
  Method, Request, Response, Served, Times, parsed,
}
use inmem_cache.Http.Respond.{
  answer, write_mutation_error, write_counter_error, write_store_capacity_error,
  scope_full_response, store_full_response, on_method, on_parsed, decode_body,
}
use inmem_cache.Http.Write.{
  handle_append, handle_upsert, handle_counter_add, handle_update, with_by,
}
use inmem_cache.Http.Bulk.{handle_rebuild, not_empty}
use inmem_cache.Http.Guards.{
  HasStatus, is_whole, serve-body, serve-method, refuse-status, write_json_with_duration-status,
}

-- The status that an error of a write is answered with: the client's fault, no room, or a conflict
-- with what is stored.
abbrev pub status_of : Error → ℕ
status_of (invalid_input r) = 400
status_of (scope_full count cap) = 507
status_of (scope_capacity offenders) = 507
status_of (store_full total added cap) = 507
status_of (counter_payload why) = 409
status_of (counter_overflow current by) = 409
status_of scope_detached = 409
status_of duplicate_id = 409
status_of scope_required = 409

-- /counter_add takes an overflow for the client's fault.
abbrev pub counter_status_of : Error → ℕ
counter_status_of (counter_overflow current by) = 400
counter_status_of e = status_of e

-- The store of the operation is kept, and the status tells its result or its error.
abbrev pub Reports : {A : Type 0} → (Error → ℕ) → StoreOutcome A → Served → Type 0
Reports table (ok a, s) served = HasStatus 200 served.0 × (served.1 ≡ s)
Reports table (err e, s) served = HasStatus (table e) served.0 × (served.1 ≡ s)

module _ ⦃enc : Encoder⦄ where
  write_mutation_error-status :
      (e : Error) (scope : Bytes) (us : ℕ)
      → HasStatus (status_of e) (write_mutation_error e scope us)
  unfolding write_mutation_error write_store_capacity_error scope_full_response store_full_response
  write_mutation_error-status (scope_full count cap) scope us =
      write_json_with_duration-status 507 _ us
  write_mutation_error-status (scope_capacity offenders) scope us =
      write_json_with_duration-status 507 _ us
  write_mutation_error-status (store_full total added cap) scope us =
      write_json_with_duration-status 507 _ us
  write_mutation_error-status (invalid_input r) scope us = refuse-status 400 _ us
  write_mutation_error-status e scope us = refuse-status 409 (Message.of_error e) us

  write_counter_error-status :
      (e : Error) (scope : Bytes) (us : ℕ)
      → HasStatus (counter_status_of e) (write_counter_error e scope us)
  unfolding write_counter_error write_store_capacity_error scope_full_response store_full_response
  write_counter_error-status (scope_full count cap) scope us =
      write_json_with_duration-status 507 _ us
  write_counter_error-status (scope_capacity offenders) scope us =
      write_json_with_duration-status 507 _ us
  write_counter_error-status (store_full total added cap) scope us =
      write_json_with_duration-status 507 _ us
  write_counter_error-status (invalid_input r) scope us = refuse-status 400 _ us
  write_counter_error-status (counter_overflow current by) scope us = refuse-status 400 _ us
  write_counter_error-status e scope us = refuse-status 409 (Message.of_error e) us

  answer-Reports :
      {A : Type 0} (table : Error → ℕ) (failed : Error → Response) (fields : A → Fields) (us : ℕ)
      → ((e : Error) → HasStatus (table e) (failed e))
      → (out : StoreOutcome A) → Reports table out (answer failed fields us out)
  unfolding answer
  answer-Reports table failed fields us told (ok a, s) =
      (write_json_with_duration-status 200 (fields a) us, refl)
  answer-Reports table failed fields us told (err e, s) = (told e, refl)

not_empty-cons : (x : Item) (xs : List Item) → not_empty (x ∷ xs) ≡ parsed (x ∷ xs)
unfolding not_empty
not_empty-cons x xs = ground arith

module _ ⦃hash : Hash⦄ ⦃json : Json⦄ ⦃enc : Encoder⦄ ⦃dec : Decoder⦄ (api : Api) (s : Store)
    (r : Request) (t : Times) (is_post : r.method ≡ Method.post) where
  -- A POST to /append, /upsert or /update whose body is one item leaves the store that the
  -- operation on the item leaves, and its status tells the result: a 200 where the operation
  -- succeeds, and else a 400 for an invalid input, a 507 where a scope or the store is full,
  -- and a 409 for the other errors; or the 500 of a response that does not marshal.
  pub item_handlers-Report :
      (item : Item)
      → dec.item api.max_single_bytes r.body ≡ decoded item true
      → Reports status_of (append_one s item t.clock) (handle_append api s r t)
        × Reports status_of (upsert_one s item t.clock) (handle_upsert api s r t)
        × Reports status_of (update_one s item t.clock) (handle_update api s r t)
  unfolding handle_append handle_upsert handle_update on_method on_parsed decode_body
  item_handlers-Report item sent =
      rw (is_post, sent)
        (
          answer-Reports status_of _ _ _ (λ e. write_mutation_error-status e _ _) _,
          answer-Reports status_of _ _ _ (λ e. write_mutation_error-status e _ _) _,
          answer-Reports status_of _ _ _ (λ e. write_mutation_error-status e _ _) _,
        )

  -- A POST to /counter_add whose body is one request with a `by` leaves the store that the
  -- operation leaves, and its status tells the result: a 200, and else a 400 for an invalid
  -- input or an overflow, a 507 where a scope or the store is full, and a 409 for the other
  -- errors; or the 500 of a response that does not marshal.
  pub handle_counter_add-Reports :
      (req : CounterAddRequest) (by : ℕ)
      → dec.counter_add api.max_single_bytes r.body ≡ decoded req true
      → req.by ≡ some by
      → Reports counter_status_of
          (counter_add_one s req.scope req.id by t.clock)
          (handle_counter_add api s r t)
  unfolding handle_counter_add on_method on_parsed decode_body with_by
  handle_counter_add-Reports req by sent given =
      rw (is_post, sent, given)
        (answer-Reports counter_status_of _ _ _ (λ e. write_counter_error-status e _ _) _)

  -- A POST to /rebuild with at least one item leaves the store that the operation leaves, and its
  -- status tells the result, by the table of the writes.
  pub handle_rebuild-Reports :
      (x : Item) (xs : List Item)
      → dec.items api.max_bulk_bytes r.body ≡ decoded (x ∷ xs) true
      → Reports status_of
          (rebuild_all s (group_items_by_scope (x ∷ xs)) t.build t.make t.commit)
          (handle_rebuild api s r t)
  unfolding handle_rebuild on_method on_parsed decode_body
  handle_rebuild-Reports x xs sent =
      rw (is_post, sent, not_empty-cons x xs)
        (answer-Reports status_of _ _ _ (λ e. write_mutation_error-status e _ _) _)

Decoded-cases :
    {A : Type 0} (d : Decoded A) → (is_whole d ≡ false) ⊎ ((a : A) × (d ≡ decoded a true))
Decoded-cases over_limit = inl refl
Decoded-cases malformed = inl refl
Decoded-cases (decoded a true) = inr (a, refl)
Decoded-cases (decoded a false) = inl refl

is_method : (m : Method) → method_beq m Method.post ≡ true → m ≡ Method.post
is_method m h = ground (arith, h)

same : ⦃hash : Hash⦄ → (s : Store) → Untouched s s
same s = record { scopes = λ _. refl; bytes = refl; items = refl; count = refl; stamp = refl }

-- What a report of an append leaves: a 200 or a 500, or the store as it was.
reported :
    ⦃hash : Hash⦄
    → (s : Store) (out : StoreOutcome Item) (served : Served) → Atomic s out
    → Reports status_of out served
    → served.0.status ≢ 200
    → served.0.status ≢ 500
    → Untouched s served.1
reported s (ok x, t) served atomic (inl e, kept) no_200 no_500 = absurd (no_200 e)
reported s (ok x, t) served atomic (inr e, kept) no_200 no_500 = absurd (no_500 e)
reported s (err e, t) served (inl (x, good)) (told, kept) no_200 no_500 =
    absurd (ground (arith, good))
reported s (err e, t) served (inr (_, _, untouched)) (told, kept) no_200 no_500 =
    subst (Untouched s) (sym kept) untouched

module _ ⦃hash : Hash⦄ ⦃json : Json⦄ ⦃enc : Encoder⦄ ⦃dec : Decoder⦄ (api : Api) (s : Store)
    (r : Request) (t : Times) where
  -- A request to /append, to a store whose accounting is right, that is answered with neither a
  -- 200 nor a 500 leaves the store as it was: every name finds what it found, and the counters
  -- are what they were, that of scopes modulo 2 ^ 64.
  pub handle_append-Atomic :
      IsStored s
      → (handle_append api s r t).0.status ≢ 200
      → (handle_append api s r t).0.status ≢ 500
      → Untouched s (handle_append api s r t).1
  unfolding handle_append serve
  handle_append-Atomic stored no_200 no_500 = elim (Bool-cases (method_beq r.method Method.post)) [
    | inl right ↦ elim (Decoded-cases (dec.item api.max_single_bytes r.body)) [
      | inl part ↦
          subst (Untouched s) (sym (serve-body api s r t Endpoint.append right part).1) (same s)
      | inr (item, sent) ↦
          reported s (append_one s item t.clock) (handle_append api s r t)
            (append_one-Atomic s item t.clock stored)
            (item_handlers-Report api s r t (is_method r.method right) item sent).0 no_200 no_500
    ]
    | inr wrong ↦
        subst (Untouched s) (sym (serve-method api s r t Endpoint.append wrong).1) (same s)
  ]
