-- ===== src/Store/Write.antt =====
-- store.go: upsertOne, counterAddOne, updateOne, deleteOne, deleteUpTo, deleteScope. appendOne is in
-- Store/Events.
use inmem_cache.Base.{ℕ, Bool, true, false, Option, none, some, ◌==◌, if◌then◌else◌}
use inmem_cache.Base.Bytes.{Bytes, is_empty}
use inmem_cache.Json.{Json}
use inmem_cache.Types.{Item}
use inmem_cache.Errors.{ok, err}
use inmem_cache.Ledger.{bump_last_write_ts, max_item_bytes_for}
use inmem_cache.Buffer.{ScopeBuffer, Outcome}
use inmem_cache.Buffer.Write.{upsert_by_id, update_by_id, update_by_seq}
use inmem_cache.Buffer.Delete.{delete_by_id, delete_by_seq, delete_up_to_seq}
use inmem_cache.Buffer.Counter.{counter_add}
use inmem_cache.Validate.{
  validate_upsert_item, validate_update_item, validate_counter_add_request, validate_delete_request,
  validate_delete_scope_request, validate_delete_up_to_request,
}
use inmem_cache.Store.{Store, StoreOutcome, Clock, after}
use inmem_cache.Store.Sharding.{Hash}
use inmem_cache.Store.Scopes.{
  get_scope, get_or_create_scope_tracking_created, drop_scope, stored_back,
}
use inmem_cache.Store.Events.{
  settle, on_got, emit_upsert_event, emit_update_event, emit_counter_add_event, emit_delete_event,
  emit_delete_up_to_event, emit_delete_scope_event,
}

-- `if deleted > 0 { emit }`, after a method that counts.
unfoldable pub emit_on_hit : (Store → Store) → StoreOutcome ℕ → StoreOutcome ℕ
emit_on_hit emit (err e, s) = (err e, s)
emit_on_hit emit (ok n, s) = (ok n, if n == 0 then s else emit s)

-- A method of an existing scope; a missing one counts nothing.
unfoldable pub on_scope : ⦃hash : Hash⦄ → Store → Bytes → (ScopeBuffer → Outcome ℕ) → StoreOutcome ℕ
unfolding get_scope stored_back
on_scope s scope method = elim (get_scope s scope) [
  | none ↦ (ok 0, s)
  | some buf ↦ let out = method buf in (out.0, stored_back s scope out.1 out.2)
]

module _ ⦃hash : Hash⦄ ⦃json : Json⦄ where
  unfoldable pub upsert_then :
      (Store → Item → Store) → StoreOutcome (Item × Bool) → StoreOutcome (Item × Bool)
  upsert_then emit (err e, s) = (err e, s)
  upsert_then emit (ok (x, created), s) = (ok (x, created), emit s x)

  -- The part of upsertOne before the event.
  unfoldable pub upsert_committed : Store → Item → Clock → StoreOutcome (Item × Bool)
  unfolding validate_upsert_item get_or_create_scope_tracking_created on_got upsert_by_id
  upsert_committed s item clock = elim (validate_upsert_item item s.ledger.max_item_bytes) [
    | err e ↦ (err e, s)
    | ok item' ↦
        on_got item'.scope (λ buf l. upsert_by_id buf l item' (clock 1))
          (get_or_create_scope_tracking_created s item'.scope (clock 0))
  ]

  unfoldable pub upsert_one : Store → Item → Clock → StoreOutcome (Item × Bool)
  unfolding upsert_committed emit_upsert_event upsert_then
  upsert_one s item clock =
      upsert_then (λ t x. emit_upsert_event t x.scope x.id x.seq x.ts x.payload (after 2 clock))
        (upsert_committed s item clock)

  -- `if scopeCreated { s.bumpLastWriteTS(…) }` and the event.
  unfoldable pub counter_then :
      (Store → Store) → Bool → ℕ → StoreOutcome (ℕ × Bool) → StoreOutcome (ℕ × Bool)
  unfolding bump_last_write_ts
  counter_then emit scope_created now_us (err e, s) = (err e, s)
  counter_then emit scope_created now_us (ok r, s) = (
    ok r,
    emit (if scope_created then record s { ledger = bump_last_write_ts s.ledger now_us } else s),
  )

  unfoldable pub counter_got :
      Bytes → Bytes → ℕ → Clock → StoreOutcome (ScopeBuffer × Bool) → StoreOutcome (ℕ × Bool)
  unfolding settle counter_add emit_counter_add_event counter_then
  counter_got scope id by clock (err e, t) = (err e, t)
  counter_got scope id by clock (ok (buf, created), t) =
      counter_then (λ u. emit_counter_add_event u scope id by (after 3 clock)) created (clock 2)
        (settle t scope created (counter_add buf t.ledger scope id by (clock 1)))

  unfoldable pub counter_add_one : Store → Bytes → Bytes → ℕ → Clock → StoreOutcome (ℕ × Bool)
  unfolding validate_counter_add_request get_or_create_scope_tracking_created settle counter_add
      emit_counter_add_event counter_then max_item_bytes_for
  counter_add_one s scope id by clock =
      elim (validate_counter_add_request (record { scope = scope; id = id; by = some by })
        (max_item_bytes_for s.ledger scope)) [
          | err e ↦ (err e, s)
          | ok _ ↦
              counter_got scope id by clock (get_or_create_scope_tracking_created s scope (clock 0))
        ]

  unfoldable pub update_one : Store → Item → Clock → StoreOutcome ℕ
  unfolding validate_update_item update_by_id update_by_seq emit_update_event on_scope emit_on_hit
  update_one s item clock = elim (validate_update_item item s.ledger.max_item_bytes) [
    | err e ↦ (err e, s)
    | ok item' ↦
        emit_on_hit
          (λ t. emit_update_event t item'.scope item'.id item'.seq item'.payload (after 1 clock))
          (on_scope s item'.scope (λ buf.
            if is_empty item'.id
            then update_by_seq buf s.ledger item'.seq item'.payload item'.render_bytes (clock 0)
            else update_by_id buf s.ledger item'.id item'.payload item'.render_bytes (clock 0)))
  ]

  unfoldable pub delete_one : Store → Bytes → Bytes → ℕ → Clock → StoreOutcome ℕ
  unfolding validate_delete_request delete_by_id delete_by_seq emit_delete_event on_scope
      emit_on_hit
  delete_one s scope id seq clock =
      elim (validate_delete_request (record { scope = scope; id = id; seq = seq })) [
        | some e ↦ (err e, s)
        | none ↦
            emit_on_hit (λ t. emit_delete_event t scope id seq (after 1 clock))
              (on_scope s scope (λ buf.
                if is_empty id
                then delete_by_seq buf s.ledger seq (clock 0)
                else delete_by_id buf s.ledger id (clock 0)))
      ]

  unfoldable pub delete_up_to : Store → Bytes → ℕ → Clock → StoreOutcome ℕ
  unfolding validate_delete_up_to_request delete_up_to_seq emit_delete_up_to_event on_scope
      emit_on_hit
  delete_up_to s scope max_seq clock =
      elim (validate_delete_up_to_request (record { scope = scope; max_seq = max_seq })) [
        | some e ↦ (err e, s)
        | none ↦
            emit_on_hit (λ t. emit_delete_up_to_event t scope max_seq (after 1 clock))
              (on_scope s scope (λ buf. delete_up_to_seq buf s.ledger max_seq (clock 0)))
      ]

  unfoldable pub deleted_then : (Store → Store) → Option ℕ × Store → StoreOutcome (ℕ × Bool)
  deleted_then emit (none, s) = (ok (0, false), s)
  deleted_then emit (some n, s) = (ok (n, true), emit s)

  -- deleteScope: the number of items, and whether the scope was there.
  unfoldable pub delete_scope : Store → Bytes → Clock → StoreOutcome (ℕ × Bool)
  unfolding validate_delete_scope_request drop_scope emit_delete_scope_event deleted_then
  delete_scope s scope clock = elim (validate_delete_scope_request scope) [
    | some e ↦ (err e, s)
    | none ↦
        deleted_then (λ t. emit_delete_scope_event t scope (after 1 clock))
          (drop_scope s scope (clock 0))
  ]
