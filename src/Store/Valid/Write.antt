-- ===== src/Store/Valid/Write.antt =====
-- The other writes of the store, with the events that they emit, keep its accounting.
use inmem_cache.Base.{
  ℕ, ◌+◌, ◌^◌, ◌<◌, ◌≡◌, ◌⊎◌, Bool, Option, none, some, length-zero, arith, ap, inl, inr,
  Bool-cases, Option-cases, if◌then◌else◌, ◌==◌,
}
use inmem_cache.Base.Bytes.{Bytes, is_empty}
use inmem_cache.Json.{Json}
use inmem_cache.Types.{Item}
use inmem_cache.Errors.{ok, err}
use inmem_cache.Buffer.{ScopeBuffer, Outcome, render_or_compute, replaced}
use inmem_cache.Buffer.Write.{fresh_item, upsert_by_id, update_by_id, update_by_seq}
use inmem_cache.Buffer.Delete.{delete_by_id, delete_by_seq, delete_up_to_seq}
use inmem_cache.Buffer.Items.Defs.{find_id, find_seq, IsSized}
use inmem_cache.Buffer.Step.{Kept}
use inmem_cache.Buffer.Step.Update.{upsert_by_id-Keeps, update_by_id-Keeps, update_by_seq-Keeps}
use inmem_cache.Buffer.Step.Delete.{delete_by_id-Keeps, delete_by_seq-Keeps, delete_up_to_seq-Keeps}
use inmem_cache.Validate.{
  with_render, validate_delete_request, validate_delete_up_to_request,
  validate_delete_scope_request,
}
use inmem_cache.Validate.Laws.{validate_upsert_item-Hands, validate_update_item-Hands}
use inmem_cache.Store.{Store, StoreOutcome, Clock, after}
use inmem_cache.Store.Sharding.{Hash, find_scope}
use inmem_cache.Store.Scopes.{get_scope, drop_scope}
use inmem_cache.Store.Events.{
  emit_upsert_event, emit_update_event, emit_delete_event, emit_delete_up_to_event,
  emit_delete_scope_event,
}
use inmem_cache.Store.Write.{
  emit_on_hit, on_scope, upsert_then, upsert_committed, upsert_one, update_one, delete_one,
  delete_up_to, delete_scope, deleted_then,
}
use inmem_cache.Store.Valid.{stored_back-IsStored}
use inmem_cache.Store.Valid.Scopes.{stored_back-HasRoom, drop_scope-IsStored, drop-HasRoom}
use inmem_cache.Store.Valid.Events.{
  IsSound, IsSound-weaken, EventsFit, on_got-IsSound, emit_upsert_event-IsSound,
  emit_update_event-IsSound, emit_delete_event-IsSound, emit_delete_up_to_event-IsSound,
  emit_delete_scope_event-IsSound,
}

module _ ⦃hash : Hash⦄ where
  on_scope-IsSound :
      (n : ℕ) (s : Store) (name : Bytes) (method : ScopeBuffer → Outcome ℕ)
      → ((b : ScopeBuffer) → find_scope s.shards name ≡ some b → Kept b s.ledger (method b))
      → IsSound (n + 1) s
      → IsSound n (on_scope s name method).1
  unfolding on_scope get_scope
  on_scope-IsSound n s name method keeps h = elim (Option-cases (find_scope s.shards name)) [
    | inl absent ↦ rw (absent, on_scope) (IsSound-weaken n 1 s h)
    | inr (b, found) ↦
        rw (found, on_scope)
          (record {
            stored =
                stored_back-IsStored s name b (method b).1 (method b).2 h.stored found
                  (keeps b found);
            room =
                stored_back-HasRoom s name b (method b).1 (method b).2 n h.stored found
                  (keeps b found).steps h.room;
          })
  ]

  emit_on_hit-IsSound :
      (n : ℕ) (emit : Store → Store) (out : StoreOutcome ℕ)
      → ((s : Store) → IsSound (n + 1) s → IsSound n (emit s))
      → IsSound (n + 1) out.1
      → IsSound n (emit_on_hit emit out).1
  unfolding emit_on_hit
  emit_on_hit-IsSound n emit (err e, s) keeps h = IsSound-weaken n 1 s h
  emit_on_hit-IsSound n emit (ok k, s) keeps h = elim (Bool-cases (k == 0)) [
    | inl miss ↦ rw miss (IsSound-weaken n 1 s h)
    | inr hit ↦ rw hit (keeps s h)
  ]

-- What a replacement by `item` makes of `x`.
abbrev pub rewritten : ⦃json : Json⦄ → Item → Item → ℕ → Item
rewritten item x now_us =
    replaced x item.payload now_us (render_or_compute (with_render item).render_bytes item.payload)

module _ ⦃hash : Hash⦄ ⦃json : Json⦄ (n : ℕ) (s : Store) (clock : Clock) (small : n < 2 ^ 61)
    (fit : EventsFit json) (h : IsSound (n + 1 + 1) s) where
  -- A delete by id or by seq, with its event, keeps the accounting of the store on every
  -- branch, where the seqs and the events have room.
  pub delete_one-IsSound :
      (scope id : Bytes) (seq : ℕ) → IsSound n (delete_one s scope id seq clock).1
  unfolding delete_one
  delete_one-IsSound scope id seq =
      elim (Option-cases (validate_delete_request (record { scope = scope; id = id; seq = seq }))) [
        | inr (e, bad) ↦ rw (bad, delete_one) (IsSound-weaken n 1 s (IsSound-weaken (n + 1) 1 s h))
        | inl good ↦
            rw (good, delete_one)
              (emit_on_hit-IsSound n (λ t. emit_delete_event t scope id seq (after 1 clock))
                (on_scope s scope (λ buf.
                  if is_empty id
                  then delete_by_seq buf s.ledger seq (clock 0)
                  else delete_by_id buf s.ledger id (clock 0)))
                (λ t k. emit_delete_event-IsSound n t (after 1 clock) small fit k scope id seq)
                (on_scope-IsSound (n + 1) s scope
                  (λ buf.
                    if is_empty id
                    then delete_by_seq buf s.ledger seq (clock 0)
                    else delete_by_id buf s.ledger id (clock 0))
                  (λ b found.
                    let v = (h.stored.live scope b found).valid in
                    elim (Bool-cases (is_empty id)) [
                      | inl by_seq ↦ rw by_seq (delete_by_seq-Keeps b s.ledger (clock 0) v seq)
                      | inr by_id ↦ rw by_id (delete_by_id-Keeps b s.ledger (clock 0) v id)
                    ])
                  h))
      ]

  -- A drain up to a seq, with its event, keeps the accounting of the store on every branch,
  -- where the seqs and the events have room.
  pub delete_up_to-IsSound :
      (scope : Bytes) (max_seq : ℕ) → IsSound n (delete_up_to s scope max_seq clock).1
  unfolding delete_up_to
  delete_up_to-IsSound scope max_seq =
      elim (Option-cases
        (validate_delete_up_to_request (record { scope = scope; max_seq = max_seq }))) [
          | inr (e, bad) ↦
              rw (bad, delete_up_to) (IsSound-weaken n 1 s (IsSound-weaken (n + 1) 1 s h))
          | inl good ↦
              rw (good, delete_up_to)
                (emit_on_hit-IsSound n
                  (λ t. emit_delete_up_to_event t scope max_seq (after 1 clock))
                  (on_scope s scope (λ buf. delete_up_to_seq buf s.ledger max_seq (clock 0)))
                  (λ t k.
                    emit_delete_up_to_event-IsSound n t (after 1 clock) small fit k scope max_seq)
                  (on_scope-IsSound (n + 1) s scope
                    (λ buf. delete_up_to_seq buf s.ledger max_seq (clock 0))
                    (λ b found.
                      delete_up_to_seq-Keeps b s.ledger (clock 0)
                        (h.stored.live scope b found).valid max_seq)
                    h))
        ]

  deleted_then-IsSound :
      (emit : Store → Store) (out : Option ℕ × Store)
      → ((t : Store) → IsSound (n + 1) t → IsSound n (emit t))
      → IsSound (n + 1) out.1
      → IsSound n (deleted_then emit out).1
  unfolding deleted_then
  deleted_then-IsSound emit (none, t) keeps k = IsSound-weaken n 1 t k
  deleted_then-IsSound emit (some i, t) keeps k = keeps t k

  -- A delete of a whole scope, with its event, keeps the accounting of the store on every
  -- branch, where the seqs and the events have room.
  pub delete_scope-IsSound : (scope : Bytes) → IsSound n (delete_scope s scope clock).1
  unfolding delete_scope
  delete_scope-IsSound scope = elim (Option-cases (validate_delete_scope_request scope)) [
    | inr (e, bad) ↦ rw (bad, delete_scope) (IsSound-weaken n 1 s (IsSound-weaken (n + 1) 1 s h))
    | inl good ↦
        rw (good, delete_scope)
          (deleted_then-IsSound (λ t. emit_delete_scope_event t scope (after 1 clock))
            (drop_scope s scope (clock 0))
            (λ t k. emit_delete_scope_event-IsSound n t (after 1 clock) small fit k scope)
            (IsSound-weaken (n + 1) 1 (drop_scope s scope (clock 0)).1 (record {
              stored = drop_scope-IsStored s scope h.stored (clock 0);
              room = drop-HasRoom s scope (clock 0) (n + 1 + 1) h.stored h.room;
            })))
  ]

  -- An update by id or by seq, with its event, keeps the accounting of the store on every
  -- branch, where the rewritten item fits an int64 and the seqs and the events have room.
  pub update_one-IsSound :
      (item : Item)
      → ((b : ScopeBuffer) (x : Item)
          → find_scope s.shards item.scope ≡ some b
          → (find_id b.items item.id ≡ some x) ⊎ (find_seq b.items item.seq ≡ some x)
          → IsSized (rewritten item x (clock 0)))
      → IsSound n (update_one s item clock).1
  unfolding update_one
  update_one-IsSound item sized =
      let y = with_render item in
      elim (validate_update_item-Hands item s.ledger.max_item_bytes) [
        | inl (e, bad) ↦ rw (bad, update_one) (IsSound-weaken n 1 s (IsSound-weaken (n + 1) 1 s h))
        | inr good ↦
            rw (good, update_one)
              (emit_on_hit-IsSound n
                (λ t. emit_update_event t item.scope item.id item.seq item.payload (after 1 clock))
                (on_scope s item.scope (λ buf.
                  if is_empty item.id
                  then update_by_seq buf s.ledger item.seq item.payload y.render_bytes (clock 0)
                  else update_by_id buf s.ledger item.id item.payload y.render_bytes (clock 0)))
                (λ t k.
                  emit_update_event-IsSound n t (after 1 clock) small fit k item.scope item.id
                    item.seq item.payload)
                (on_scope-IsSound (n + 1) s item.scope
                  (λ buf.
                    if is_empty item.id
                    then update_by_seq buf s.ledger item.seq item.payload y.render_bytes (clock 0)
                    else update_by_id buf s.ledger item.id item.payload y.render_bytes (clock 0))
                  (λ b found.
                    let v = (h.stored.live item.scope b found).valid in
                    elim (Bool-cases (is_empty item.id)) [
                      | inl by_seq ↦ rw by_seq (
                          update_by_seq-Keeps b s.ledger (clock 0) v item.seq item.payload
                            y.render_bytes (λ x at. sized b x found (inr at)))
                      | inr by_id ↦ rw by_id (
                          update_by_id-Keeps b s.ledger (clock 0) v item.id item.payload
                            y.render_bytes (λ x at. sized b x found (inl at)))
                    ])
                  h))
      ]

  upsert_then-IsSound :
      (emit : Store → Item → Store) (out : StoreOutcome (Item × Bool))
      → ((t : Store) (x : Item) → IsSound (n + 1) t → IsSound n (emit t x))
      → IsSound (n + 1) out.1
      → IsSound n (upsert_then emit out).1
  unfolding upsert_then
  upsert_then-IsSound emit (err e, t) keeps k = IsSound-weaken n 1 t k
  upsert_then-IsSound emit (ok (x, created), t) keeps k = keeps t x k

  -- An upsert, with its event, keeps the accounting of the store on every branch, where the new
  -- item and the one that it may replace fit an int64 and the seqs and the events have room.
  pub upsert_one-IsSound :
      (item : Item)
      → IsSized (fresh_item (with_render item) (clock 1))
      → ((b : ScopeBuffer) (x : Item)
          → find_scope s.shards item.scope ≡ some b
          → find_id b.items item.id ≡ some x
          → IsSized (rewritten item x (clock 1)))
      → IsSound n (upsert_one s item clock).1
  unfolding upsert_one upsert_committed find_id
  upsert_one-IsSound item new_sized old_sized =
      upsert_then-IsSound
        (λ t x. emit_upsert_event t x.scope x.id x.seq x.ts x.payload (after 2 clock))
        (upsert_committed s item clock)
        (λ t x k.
          emit_upsert_event-IsSound n t (after 2 clock) small fit k x.scope x.id x.seq x.ts
            x.payload)
        (elim (validate_upsert_item-Hands item s.ledger.max_item_bytes) [
          | inl (e, bad) ↦ rw (bad, upsert_committed) (IsSound-weaken (n + 1) 1 s h)
          | inr good ↦
              rw (good, upsert_committed)
                (on_got-IsSound (n + 1) s item.scope (clock 0)
                  (λ b l. upsert_by_id b l (with_render item) (clock 1)) (omega arith)
                  (λ t b sound g.
                    upsert_by_id-Keeps b t.ledger (clock 1)
                      (sound.stored.live item.scope b g.found).valid (with_render item)
                      (omega (arith, sound.room item.scope b g.found)) new_sized
                      (λ x at. elim g.old_or_new [
                        | inl old ↦ old_sized b x old at
                        | inr (_, none_left) ↦ absurd (
                            ground (
                              arith,
                              at,
                              ap (λ items. find_id items item.id) (length-zero b.items none_left),
                            ))
                      ]))
                  h)
        ])
