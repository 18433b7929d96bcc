-- ===== src/Store/Events.antt =====
-- events.go: the events that writes put into `_events`, and appendOne of store.go, which they call.
-- The inner appendOne of an event stops at eventsEnabled, since its scope is `_events`: it is
-- `append_then` with an `emit` that returns its store.
use inmem_cache.Base.{ℕ, Bool, true, false, ◌&&◌, not, none, some, [], if◌then◌else◌}
use inmem_cache.Base.Word.{add64}
use inmem_cache.Base.Bytes.{Bytes, bytes, bytes_beq}
use inmem_cache.Json.{Json, WriteEvent}
use inmem_cache.Types.{Item, EventsMode, events_scope_name}
use inmem_cache.Errors.{ok, err}
use inmem_cache.Ledger.{Ledger, max_item_bytes_for}
use inmem_cache.Buffer.{ScopeBuffer, Outcome}
use inmem_cache.Buffer.Write.{append_item, zero_item}
use inmem_cache.Validate.{validate_write_item, is_reserved_scope}
use inmem_cache.Store.{Store, StoreOutcome, Clock, after}
use inmem_cache.Store.Sharding.{Hash}
use inmem_cache.Store.Scopes.{
  stored_back, get_or_create_scope_tracking_created, cleanup_if_empty_and_unused,
}
use inmem_cache.Store.Subscribe.{notify_subscriber}

-- `s.eventsMode != EventsModeOff`
abbrev pub mode_on : EventsMode → Bool
mode_on EventsMode.off = false
mode_on _ = true

unfoldable pub events_enabled : Store → Bytes → Bool
events_enabled s scope = mode_on s.ledger.events_mode && not (bytes_beq scope events_scope_name)

-- An event with no field but `op` and `scope`.
abbrev event : Bytes → Bytes → WriteEvent
event op scope = record {
  op = op;
  scope = scope;
  id = [];
  seq = 0;
  ts = 0;
  payload = [];
  by = none;
  max_seq = 0;
}

-- `if evt.Payload is to be dropped`: Notify mode.
abbrev pub stripped : EventsMode → WriteEvent → WriteEvent
stripped EventsMode.notify evt = record evt { payload = [] }
stripped _ evt = evt

-- What is done once a buffer's method returned: the cleanup of a failed call's own scope.
unfoldable pub settle :
    {A : Type 0} ⦃hash : Hash⦄ → Store → Bytes → Bool → Outcome A → StoreOutcome A
unfolding stored_back cleanup_if_empty_and_unused
settle s name created (ok a, b, l) = (ok a, stored_back s name b l)
settle s name created (err e, b, l) =
    let back = stored_back s name b l in
    (err e, if created then cleanup_if_empty_and_unused back name else back)

-- A method on the buffer that getOrCreateScopeTrackingCreated gives, and what is done after it.
unfoldable pub on_got :
    {A : Type 0} ⦃hash : Hash⦄
    → Bytes
    → (ScopeBuffer → Ledger → Outcome A)
    → StoreOutcome (ScopeBuffer × Bool)
    → StoreOutcome A
unfolding settle
on_got name method (err e, s) = (err e, s)
on_got name method (ok (buf, created), s) = settle s name created (method buf s.ledger)

module _ ⦃hash : Hash⦄ ⦃json : Json⦄ where
  -- The part of appendOne before the event: the item and the store.
  unfoldable pub append_committed : Store → Item → Clock → StoreOutcome Item
  unfolding validate_write_item get_or_create_scope_tracking_created on_got append_item
      max_item_bytes_for
  append_committed s item clock =
      elim (validate_write_item item (max_item_bytes_for s.ledger item.scope)) [
        | err e ↦ (err e, s)
        | ok item' ↦
            on_got item'.scope (λ buf l. append_item buf l item' (clock 1))
              (get_or_create_scope_tracking_created s item'.scope (clock 0))
      ]

  -- The rest of appendOne, over emitAppendEvent: `emit` is given the store and the stored item.
  unfoldable pub append_then : (Store → Item → Store) → StoreOutcome Item → StoreOutcome Item
  unfolding is_reserved_scope notify_subscriber
  append_then emit (err e, s) = (err e, s)
  append_then emit (ok item, s) =
      let emitted = emit s item in
      (
        ok item,
        if is_reserved_scope item.scope then notify_subscriber emitted item.scope else emitted,
      )

  abbrev pub dropped : Store → Store
  dropped s = record s {
    ledger = record s.ledger { events_drops_total = add64 s.ledger.events_drops_total 1 };
  }

  abbrev pub delivered : StoreOutcome Item → Store
  delivered (ok _, s) = s
  delivered (err _, s) = dropped s

  -- emitEvent
  unfoldable pub emit_event : Store → WriteEvent → Clock → Store
  unfolding append_committed append_then
  emit_event s evt clock = elim (json.marshal_event (stripped s.ledger.events_mode evt)) [
    | none ↦ dropped s
    | some body ↦ delivered (
        append_then (λ t _. t)
          (append_committed s (record zero_item { scope = events_scope_name; payload = body })
            clock))
  ]

  unfoldable pub emit_if : Bool → Store → WriteEvent → Clock → Store
  unfolding emit_event
  emit_if c s evt clock = if c then emit_event s evt clock else s

  unfoldable pub emit_append_event : Store → Bytes → Bytes → ℕ → ℕ → Bytes → Clock → Store
  unfolding emit_if events_enabled
  emit_append_event s scope id seq ts payload clock =
      emit_if (events_enabled s scope) s
        (record (event (bytes "append") scope) { id = id; seq = seq; ts = ts; payload = payload })
        clock

  unfoldable pub emit_upsert_event : Store → Bytes → Bytes → ℕ → ℕ → Bytes → Clock → Store
  unfolding emit_if events_enabled
  emit_upsert_event s scope id seq ts payload clock =
      emit_if (events_enabled s scope) s
        (record (event (bytes "upsert") scope) { id = id; seq = seq; ts = ts; payload = payload })
        clock

  unfoldable pub emit_update_event : Store → Bytes → Bytes → ℕ → Bytes → Clock → Store
  unfolding emit_if events_enabled
  emit_update_event s scope id seq payload clock =
      emit_if (events_enabled s scope) s
        (record (event (bytes "update") scope) { id = id; seq = seq; payload = payload }) clock

  unfoldable pub emit_counter_add_event : Store → Bytes → Bytes → ℕ → Clock → Store
  unfolding emit_if events_enabled
  emit_counter_add_event s scope id by clock =
      emit_if (events_enabled s scope) s
        (record (event (bytes "counter_add") scope) { id = id; by = some by }) clock

  unfoldable pub emit_delete_event : Store → Bytes → Bytes → ℕ → Clock → Store
  unfolding emit_if events_enabled
  emit_delete_event s scope id seq clock =
      emit_if (events_enabled s scope) s
        (record (event (bytes "delete") scope) { id = id; seq = seq }) clock

  unfoldable pub emit_delete_up_to_event : Store → Bytes → ℕ → Clock → Store
  unfolding emit_if events_enabled
  emit_delete_up_to_event s scope max_seq clock =
      emit_if (events_enabled s scope) s
        (record (event (bytes "delete_up_to") scope) { max_seq = max_seq }) clock

  unfoldable pub emit_warm_event : Store → Clock → Store
  unfolding emit_if
  emit_warm_event s clock =
      emit_if (mode_on s.ledger.events_mode) s (record (event (bytes "warm") []) { ts = clock 0 })
        (after 1 clock)

  unfoldable pub emit_delete_scope_event : Store → Bytes → Clock → Store
  unfolding emit_if events_enabled
  emit_delete_scope_event s scope clock =
      emit_if (events_enabled s scope) s
        (record (event (bytes "delete_scope") scope) { ts = clock 0 }) (after 1 clock)

  -- appendOne
  unfoldable pub append_one : Store → Item → Clock → StoreOutcome Item
  unfolding append_committed append_then emit_append_event
  append_one s item clock =
      append_then (λ t x. emit_append_event t x.scope x.id x.seq x.ts x.payload (after 2 clock))
        (append_committed s item clock)
