-- ===== src/Store/Valid/Events.antt =====
-- appendOne and the events that every write emits keep the accounting of the store.
use inmem_cache.Base.{
  ℕ, ◌+◌, ◌^◌, ◌<◌, ◌≡◌, refl, Bool, true, false, some, arith, inl, inr, Bool-cases, Option-cases,
}
use inmem_cache.Base.Bytes.{Bytes, bytes_eq}
use inmem_cache.Base.Map
use inmem_cache.Json.{Json, WriteEvent}
use inmem_cache.Types.{Item, events_scope_name}
use inmem_cache.Errors.{ok, err}
use inmem_cache.Ledger.{Ledger, max_item_bytes_for}
use inmem_cache.Buffer.{ScopeBuffer, Outcome}
use inmem_cache.Buffer.Write.{fresh_item, zero_item}
use inmem_cache.Buffer.Items.Defs.{IsSized}
use inmem_cache.Buffer.Step.{Kept}
use inmem_cache.Buffer.Step.Insert.{append_item-Keeps}
use inmem_cache.Validate.{with_render, is_reserved_scope}
use inmem_cache.Validate.Laws.{validate_write_item-Hands}
use inmem_cache.Store.{Store, StoreOutcome, Clock, after}
use inmem_cache.Store.Sharding.{Hash}
use inmem_cache.Store.Scopes.{get_or_create_scope_tracking_created}
use inmem_cache.Store.Subscribe.{notify_subscriber, send}
use inmem_cache.Store.Events.{
  on_got, append_committed, append_then, dropped, delivered, stripped, emit_event, emit_if,
  emit_append_event, emit_upsert_event, emit_update_event, emit_counter_add_event,
  emit_delete_event, emit_delete_up_to_event, emit_delete_scope_event, append_one,
}
use inmem_cache.Store.Valid.{IsStored, HasRoom}
use inmem_cache.Store.Valid.Scopes.{Got, get_or_create-cases, settle-IsStored, settle-HasRoom}

-- The accounting holds, with room for `n` more writes in each scope.
pub record IsSound ⦃hash : Hash⦄ (n : ℕ) (s : Store) : Type 0 where
  pub stored : IsStored s
  pub room : HasRoom n s

pub IsSound-weaken : ⦃hash : Hash⦄ (n j : ℕ) (s : Store) → IsSound (n + j) s → IsSound n s
IsSound-weaken n j s h = record {
  stored = h.stored;
  room = λ name b found. omega (arith, h.room name b found);
}

IsSound-zero : ⦃hash : Hash⦄ (n : ℕ) (s : Store) → IsSound (n + 1) s → IsSound (n + 0 + 1) s
IsSound-zero n s h = record {
  stored = h.stored;
  room = λ name b found. omega (arith, h.room name b found);
}

-- The accounting is about the shards and the counters of bytes, items and scopes.
pub IsSound-frame :
    ⦃hash : Hash⦄ (n : ℕ) (s s' : Store)
    → s'.shards ≡ s.shards
    → s'.ledger.total_bytes ≡ s.ledger.total_bytes
    → s'.ledger.max_store_bytes ≡ s.ledger.max_store_bytes
    → s'.ledger.total_items ≡ s.ledger.total_items
    → s'.ledger.scope_count ≡ s.ledger.scope_count
    → s'.ledger.default_max_items ≡ s.ledger.default_max_items
    → IsSound n s
    → IsSound n s'
IsSound-frame n s s' shards bytes cap items scopes default h = record {
  stored = record {
    sharded = rw shards h.stored.sharded;
    live = rw shards h.stored.live;
    cap_range = rw cap h.stored.cap_range;
    bytes = rw (bytes, shards) h.stored.bytes;
    within = rw (bytes, cap) h.stored.within;
    capped = rw (default, shards) h.stored.capped;
    items = rw (items, shards) h.stored.items;
    scopes = rw (scopes, shards) h.stored.scopes;
  };
  room = rw shards h.room;
}

-- Every event's text, stored as an item, has a size that an int64 holds.
abbrev pub EventsFit : Json → Type 0
EventsFit json =
    (evt : WriteEvent) (body : Bytes) (now_us : ℕ)
    → json.marshal_event evt ≡ some body
    → IsSized (
        fresh_item ⦃json = json⦄
          (with_render ⦃json = json⦄
            (record zero_item { scope = events_scope_name; payload = body }))
          now_us)

module _ ⦃hash : Hash⦄ ⦃json : Json⦄ where
  notify-IsSound :
      (n : ℕ) (s : Store) (scope : Bytes) → IsSound n s → IsSound n (notify_subscriber s scope)
  unfolding notify_subscriber
  notify-IsSound n s scope h = elim (Option-cases (Map.lookup s.subscribers scope)) [
    | inl nobody ↦ rw (nobody, notify_subscriber) h
    | inr (ch, there) ↦ elim (Option-cases (send ch)) [
      | inl full ↦ rw (there, full, notify_subscriber) h
      | inr (sent, done) ↦
          rw (there, done, notify_subscriber) (IsSound-frame n s _ refl refl refl refl refl refl h)
    ]
  ]

  pub on_got-IsSound :
      {A : Type 0} (n : ℕ) (s : Store) (name : Bytes) (now_us : ℕ)
      (method : ScopeBuffer → Ledger → Outcome A)
      → n < 2 ^ 62
      → ((s' : Store) (b : ScopeBuffer)
          → IsSound (n + 1) s'
          → Got s s' name b
          → Kept b s'.ledger (method b s'.ledger))
      → IsSound (n + 1) s
      → IsSound n (on_got name method (get_or_create_scope_tracking_created s name now_us)).1
  unfolding on_got
  on_got-IsSound n s name now_us method small keeps h =
      elim (get_or_create-cases s name now_us h.stored) [
        | inl (e, refused) ↦ rw refused (IsSound-weaken n 1 s h)
        | inr (b, created, s', got, g) ↦
            let room = g.room (n + 1) (omega arith) h.room in
            let kept = keeps s' b (record { stored = g.stored; room = room }) g in
            rw got (record {
              stored = settle-IsStored s' name g.stored b created _ g.found kept;
              room = settle-HasRoom s' name n g.stored b created _ g.found kept room;
            })
      ]

  pub append_committed-IsSound :
      (n : ℕ) (s : Store) (item : Item) (clock : Clock)
      → n < 2 ^ 62
      → IsSized (fresh_item (with_render item) (clock 1))
      → IsSound (n + 1) s
      → IsSound n (append_committed s item clock).1
  unfolding append_committed
  append_committed-IsSound n s item clock small sized h =
      elim (validate_write_item-Hands item (max_item_bytes_for s.ledger item.scope)) [
        | inl (e, bad) ↦ rw (bad, append_committed) (IsSound-weaken n 1 s h)
        | inr good ↦
            rw (good, append_committed)
              (on_got-IsSound n s item.scope (clock 0) _ small
                (λ s' b sound g.
                  append_item-Keeps b s'.ledger (with_render item) (clock 1)
                    (sound.stored.live item.scope b g.found).valid
                    (omega (arith, sound.room item.scope b g.found)) sized)
                h)
      ]

  append_then-IsSound :
      (n j : ℕ) (emit : Store → Item → Store) (out : StoreOutcome Item)
      → ((s : Store) (x : Item) → IsSound (n + j) s → IsSound n (emit s x))
      → IsSound (n + j) out.1
      → IsSound n (append_then emit out).1
  unfolding append_then
  append_then-IsSound n j emit (err e, s) keeps h = IsSound-weaken n j s h
  append_then-IsSound n j emit (ok x, s) keeps h = elim (Bool-cases (is_reserved_scope x.scope)) [
    | inl reserved ↦ rw reserved (notify-IsSound n (emit s x) x.scope (keeps s x h))
    | inr plain ↦ rw plain (keeps s x h)
  ]

  dropped-IsSound : (n : ℕ) (s : Store) → IsSound n s → IsSound n (dropped s)
  dropped-IsSound n s h = IsSound-frame n s (dropped s) refl refl refl refl refl refl h

  delivered-IsSound :
      (n : ℕ) (out : StoreOutcome Item) → IsSound n out.1 → IsSound n (delivered out)
  delivered-IsSound n (ok x, s) h = h
  delivered-IsSound n (err e, s) h = dropped-IsSound n s h

  -- An event, stored or dropped, keeps the accounting.
  pub emit_event-IsSound :
      (n : ℕ) (s : Store) (evt : WriteEvent) (clock : Clock)
      → n < 2 ^ 61
      → EventsFit json
      → IsSound (n + 1) s
      → IsSound n (emit_event s evt clock)
  unfolding emit_event
  emit_event-IsSound n s evt clock small fit h =
      elim (Option-cases (json.marshal_event (stripped s.ledger.events_mode evt))) [
        | inl failed ↦ rw (failed, emit_event) (dropped-IsSound n s (IsSound-weaken n 1 s h))
        | inr (body, text) ↦
            rw (text, emit_event)
              (delivered-IsSound n _ (
                append_then-IsSound n 0 (λ t _. t) _ (λ t x k. IsSound-weaken n 0 t k)
                  (append_committed-IsSound (n + 0) s
                    (record zero_item { scope = events_scope_name; payload = body }) clock
                    (omega arith) (fit _ body (clock 1) text) (IsSound-zero n s h))))
      ]

  pub emit_if-IsSound :
      (n : ℕ) (c : Bool) (s : Store) (evt : WriteEvent) (clock : Clock)
      → n < 2 ^ 61
      → EventsFit json
      → IsSound (n + 1) s
      → IsSound n (emit_if c s evt clock)
  unfolding emit_if
  emit_if-IsSound n true s evt clock small fit h = emit_event-IsSound n s evt clock small fit h
  emit_if-IsSound n false s evt clock small fit h = IsSound-weaken n 1 s h

  module _ (n : ℕ) (s : Store) (clock : Clock) (small : n < 2 ^ 61) (fit : EventsFit json)
      (h : IsSound (n + 1) s) where
    pub emit_append_event-IsSound :
        (scope id : Bytes) (seq ts : ℕ) (payload : Bytes)
        → IsSound n (emit_append_event s scope id seq ts payload clock)
    unfolding emit_append_event
    emit_append_event-IsSound scope id seq ts payload = emit_if-IsSound n _ s _ clock small fit h

    pub emit_upsert_event-IsSound :
        (scope id : Bytes) (seq ts : ℕ) (payload : Bytes)
        → IsSound n (emit_upsert_event s scope id seq ts payload clock)
    unfolding emit_upsert_event
    emit_upsert_event-IsSound scope id seq ts payload = emit_if-IsSound n _ s _ clock small fit h

    pub emit_update_event-IsSound :
        (scope id : Bytes) (seq : ℕ) (payload : Bytes)
        → IsSound n (emit_update_event s scope id seq payload clock)
    unfolding emit_update_event
    emit_update_event-IsSound scope id seq payload = emit_if-IsSound n _ s _ clock small fit h

    pub emit_counter_add_event-IsSound :
        (scope id : Bytes) (by : ℕ) → IsSound n (emit_counter_add_event s scope id by clock)
    unfolding emit_counter_add_event
    emit_counter_add_event-IsSound scope id by = emit_if-IsSound n _ s _ clock small fit h

    pub emit_delete_event-IsSound :
        (scope id : Bytes) (seq : ℕ) → IsSound n (emit_delete_event s scope id seq clock)
    unfolding emit_delete_event
    emit_delete_event-IsSound scope id seq = emit_if-IsSound n _ s _ clock small fit h

    pub emit_delete_up_to_event-IsSound :
        (scope : Bytes) (max_seq : ℕ) → IsSound n (emit_delete_up_to_event s scope max_seq clock)
    unfolding emit_delete_up_to_event
    emit_delete_up_to_event-IsSound scope max_seq = emit_if-IsSound n _ s _ clock small fit h

    pub emit_delete_scope_event-IsSound :
        (scope : Bytes) → IsSound n (emit_delete_scope_event s scope clock)
    unfolding emit_delete_scope_event
    emit_delete_scope_event-IsSound scope = emit_if-IsSound n _ s _ (after 1 clock) small fit h

  -- From a store whose accounting is right, with room for two more seqs than are asked for
  -- after it, an append of an item whose size fits an int64, with the event that it emits, ends
  -- in a store whose accounting is right, on every branch: the byte counter is what the scopes
  -- are charged and within the cap, the counters of items and scopes agree with the scopes
  -- modulo 2 ^ 64, and every scope is well-formed. The text of every event has to fit an int64
  -- too.
  pub append_one-IsSound :
      (n : ℕ) (s : Store) (item : Item) (clock : Clock)
      → n < 2 ^ 61
      → EventsFit json
      → IsSized (fresh_item (with_render item) (clock 1))
      → IsSound (n + 1 + 1) s
      → IsSound n (append_one s item clock).1
  unfolding append_one
  append_one-IsSound n s item clock small fit sized h =
      append_then-IsSound n 1
        (λ t x. emit_append_event t x.scope x.id x.seq x.ts x.payload (after 2 clock))
        (append_committed s item clock)
        (λ t x k.
          emit_append_event-IsSound n t (after 2 clock) small fit k x.scope x.id x.seq x.ts
            x.payload)
        (append_committed-IsSound (n + 1) s item clock (omega arith) sized h)
