-- ===== src/Store/Valid/Count.antt =====
-- counterAddOne, with its event, keeps the accounting of the store.
use inmem_cache.Base.{
  ℕ, ◌+◌, ◌^◌, ◌<◌, ◌≡◌, refl, Bool, true, false, some, arith, ap, inl, inr, Bool-cases,
  length-zero,
}
use inmem_cache.Base.Bytes.{Bytes, is_empty}
use inmem_cache.Json.{Json}
use inmem_cache.Types.{Item}
use inmem_cache.Errors.{ok, err, Result-cases}
use inmem_cache.Ledger.{max_item_bytes_for, bump_last_write_ts}
use inmem_cache.Buffer.{ScopeBuffer}
use inmem_cache.Buffer.Counter.{counter_add, counter_item, promoted_item}
use inmem_cache.Buffer.Items.Defs.{find_id, IsSized}
use inmem_cache.Buffer.Step.Counter.{counter_add-Keeps}
use inmem_cache.Validate.{CounterAddRequest, validate_counter_add_request}
use inmem_cache.Validate.Laws.{validate_counter_add_request-nameless}
use inmem_cache.Store.{Store, StoreOutcome, Clock, after}
use inmem_cache.Store.Sharding.{Hash, find_scope}
use inmem_cache.Store.Events.{settle, emit_counter_add_event}
use inmem_cache.Store.Write.{counter_then, counter_got, counter_add_one}
use inmem_cache.Store.Valid.Scopes.{get_or_create-cases, settle-IsStored, settle-HasRoom}
use inmem_cache.Store.Valid.Events.{
  IsSound, IsSound-weaken, IsSound-frame, EventsFit, emit_counter_add_event-IsSound,
}

module _ ⦃hash : Hash⦄ ⦃json : Json⦄ (n : ℕ) (s : Store) (clock : Clock) (small : n < 2 ^ 61)
    (fit : EventsFit json) (h : IsSound (n + 1 + 1) s) where
  counter_then-IsSound :
      (emit : Store → Store) (created : Bool) (now_us : ℕ) (out : StoreOutcome (ℕ × Bool))
      → ((t : Store) → IsSound (n + 1) t → IsSound n (emit t))
      → IsSound (n + 1) out.1
      → IsSound n (counter_then emit created now_us out).1
  unfolding counter_then bump_last_write_ts
  counter_then-IsSound emit created now_us (err e, t) keeps k = IsSound-weaken n 1 t k
  counter_then-IsSound emit true now_us (ok r, t) keeps k = keeps _ (
      IsSound-frame (n + 1) t _ refl (ground arith) (ground arith) (ground arith) (ground arith)
        (ground arith) k)
  counter_then-IsSound emit false now_us (ok r, t) keeps k = keeps t k

  -- A counter add, whether it increments, promotes or creates, keeps the accounting of the
  -- store on every branch, with its event, where the counter's item fits an int64 and the seqs
  -- and the events have room.
  pub counter_add_one-IsSound :
      (scope id : Bytes) (by : ℕ)
      → IsSized (counter_item scope id 0 0)
      → ((b : ScopeBuffer) (x : Item)
          → find_scope s.shards scope ≡ some b
          → find_id b.items id ≡ some x
          → IsSized (promoted_item x 0))
      → IsSound n (counter_add_one s scope id by clock).1
  unfolding counter_add_one counter_got find_id
  counter_add_one-IsSound scope id by new_sized old_sized =
      let req : CounterAddRequest = record { scope = scope; id = id; by = some by } in
      let cap = max_item_bytes_for s.ledger scope in
      let still = IsSound-weaken n 1 s (IsSound-weaken (n + 1) 1 s h) in
      elim (Bool-cases (is_empty id)) [
        | inl nameless ↦
            let refused = validate_counter_add_request-nameless req cap nameless in
            rw (refused.1, counter_add_one) still
        | inr named ↦ elim (Result-cases (validate_counter_add_request req cap)) [
          | inl (e, bad) ↦ rw (bad, counter_add_one) still
          | inr (v, good) ↦ elim (get_or_create-cases s scope (clock 0) h.stored) [
            | inl (e, refused) ↦ rw (good, refused, counter_add_one) still
            | inr (b, created, t, got, g) ↦
                let room = g.room (n + 1 + 1) (omega arith) h.room in
                let kept =
                  counter_add-Keeps b t.ledger (g.stored.live scope b g.found).valid scope id by
                    (clock 1) named (omega (arith, room scope b g.found)) new_sized
                    (λ x at. elim g.old_or_new [
                      | inl old ↦ old_sized b x old at
                      | inr (_, none_left) ↦ absurd (
                          ground (
                            arith,
                            at,
                            ap (λ items. find_id items id) (length-zero b.items none_left),
                          ))
                    ]) in
                rw (good, got, counter_add_one)
                  (counter_then-IsSound (λ u. emit_counter_add_event u scope id by (after 3 clock))
                    created (clock 2)
                    (settle t scope created (counter_add b t.ledger scope id by (clock 1)))
                    (λ u k.
                      emit_counter_add_event-IsSound n u (after 3 clock) small fit k scope id by)
                    (record {
                      stored = settle-IsStored t scope g.stored b created _ g.found kept;
                      room = settle-HasRoom t scope (n + 1) g.stored b created _ g.found kept room;
                    }))
          ]
        ]
      ]
