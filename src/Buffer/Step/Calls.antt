-- ===== src/Buffer/Step/Calls.antt =====
-- The writing methods of a scope as one relation, and any sequence of them.
use inmem_cache.Base.{
  ℕ, ◌+◌, ◌^◌, ◌<◌, ◌≡◌, refl, true, false, Option, some, length, arith, ap, ◌∙◌, ◌≤◌,
}
use inmem_cache.Base.Word.{word}
use inmem_cache.Base.Bytes.{Bytes, is_empty}
use inmem_cache.Json.{Json}
use inmem_cache.Types.{Item}
use inmem_cache.Ledger.{Ledger}
use inmem_cache.Buffer.{ScopeBuffer, render_or_compute, replaced}
use inmem_cache.Buffer.Write.{append_item, upsert_by_id, update_by_id, update_by_seq, fresh_item}
use inmem_cache.Buffer.Delete.{delete_by_id, delete_by_seq, delete_up_to_seq}
use inmem_cache.Buffer.Counter.{counter_add, counter_item, promoted_item}
use inmem_cache.Buffer.Items.Defs.{find_id, find_seq, IsSized}
use inmem_cache.Buffer.Valid.{IsValid}
use inmem_cache.Buffer.Step.{Keeps}
use inmem_cache.Buffer.Step.Insert.{append_item-Keeps}
use inmem_cache.Buffer.Step.Update.{upsert_by_id-Keeps, update_by_id-Keeps, update_by_seq-Keeps}
use inmem_cache.Buffer.Step.Delete.{delete_by_id-Keeps, delete_by_seq-Keeps, delete_up_to_seq-Keeps}
use inmem_cache.Buffer.Step.Counter.{counter_add-Keeps}

module _ ⦃json : Json⦄ where
  -- One call, at any input whose items fit an int64; a method that may add an item needs a seq that
  -- is left. The last indices are the scope and the ledger after the call.
  pub data Call (b : ScopeBuffer) (l : Ledger) : ScopeBuffer → Ledger → Type 0 where
    append :
        (item : Item) (now_us : ℕ)
        → b.last_seq + 1 < 2 ^ 63
        → IsSized (fresh_item item now_us)
        → Call b l ((append_item b l item now_us).1) ((append_item b l item now_us).2)
    upsert :
        (item : Item) (now_us : ℕ)
        → b.last_seq + 1 < 2 ^ 63
        → IsSized (fresh_item item now_us)
        → ((x : Item)
            → find_id b.items item.id ≡ some x
            → IsSized
                (replaced x item.payload now_us (render_or_compute item.render_bytes item.payload)))
        → Call b l ((upsert_by_id b l item now_us).1) ((upsert_by_id b l item now_us).2)
    update_id :
        (id payload : Bytes) (pre_render : Option Bytes) (now_us : ℕ)
        → ((x : Item)
            → find_id b.items id ≡ some x
            → IsSized (replaced x payload now_us (render_or_compute pre_render payload)))
        → Call b l
            ((update_by_id b l id payload pre_render now_us).1)
            ((update_by_id b l id payload pre_render now_us).2)
    update_seq :
        (seq : ℕ) (payload : Bytes) (pre_render : Option Bytes) (now_us : ℕ)
        → ((x : Item)
            → find_seq b.items seq ≡ some x
            → IsSized (replaced x payload now_us (render_or_compute pre_render payload)))
        → Call b l
            ((update_by_seq b l seq payload pre_render now_us).1)
            ((update_by_seq b l seq payload pre_render now_us).2)
    delete_id :
        (id : Bytes) (now_us : ℕ)
        → Call b l ((delete_by_id b l id now_us).1) ((delete_by_id b l id now_us).2)
    delete_seq :
        (seq now_us : ℕ)
        → Call b l ((delete_by_seq b l seq now_us).1) ((delete_by_seq b l seq now_us).2)
    drain :
        (max_seq now_us : ℕ)
        → Call b l
            ((delete_up_to_seq b l max_seq now_us).1)
            ((delete_up_to_seq b l max_seq now_us).2)
    count :
        (scope id : Bytes) (by now_us : ℕ)
        → is_empty id ≡ false
        → b.last_seq + 1 < 2 ^ 63
        → IsSized (counter_item scope id 0 0)
        → ((x : Item) → find_id b.items id ≡ some x → IsSized (promoted_item x 0))
        → Call b l ((counter_add b l scope id by now_us).1) ((counter_add b l scope id by now_us).2)

  Call-Keeps :
      {b : ScopeBuffer} {l : Ledger} {b' : ScopeBuffer} {l' : Ledger}
      → Call b l b' l'
      → IsValid b
      → Keeps b l b' l'
  Call-Keeps {b} {l} (append item now_us room sized) v =
      append_item-Keeps b l item now_us v room sized
  Call-Keeps {b} {l} (upsert item now_us room sized old) v =
      upsert_by_id-Keeps b l now_us v item room sized old
  Call-Keeps {b} {l} (update_id id payload pre_render now_us old) v =
      update_by_id-Keeps b l now_us v id payload pre_render old
  Call-Keeps {b} {l} (update_seq seq payload pre_render now_us old) v =
      update_by_seq-Keeps b l now_us v seq payload pre_render old
  Call-Keeps {b} {l} (delete_id id now_us) v = delete_by_id-Keeps b l now_us v id
  Call-Keeps {b} {l} (delete_seq seq now_us) v = delete_by_seq-Keeps b l now_us v seq
  Call-Keeps {b} {l} (drain max_seq now_us) v = delete_up_to_seq-Keeps b l now_us v max_seq
  Call-Keeps {b} {l} (count scope id by now_us named room sized old) v =
      counter_add-Keeps b l v scope id by now_us named room sized old

  pub data Calls (b : ScopeBuffer) (l : Ledger) : ScopeBuffer → Ledger → Type 0 where
    idle : Calls b l b l
    and_then : {c d : ScopeBuffer} {m n : Ledger} → Calls b l c m → Call c m d n → Calls b l d n

  -- Well-formed still, and the counters of the store moved as the scope's bytes and items did; the
  -- counters of a scope that is not attached did not move.
  pub record InLockstep (b : ScopeBuffer) (l : Ledger) (b' : ScopeBuffer) (l' : Ledger)
      : Type 0 where
    pub valid : IsValid b'
    pub attached : b'.attached ≡ b.attached
    pub last_seq : b.last_seq ≤ b'.last_seq
    pub cap : l'.max_store_bytes ≡ l.max_store_bytes
    pub bytes :
        b.attached ≡ true → word (l'.total_bytes + b.bytes) ≡ word (l.total_bytes + b'.bytes)
    pub items :
        b.attached ≡ true
        → word (l'.total_items + length b.items) ≡ word (l.total_items + length b'.items)
    pub orphan : b.attached ≡ false → l' ≡ l

  -- After any sequence of writing calls on a well-formed scope, whatever each of them returns,
  -- the scope is well-formed, its last seq has not gone back, and the counters of bytes and
  -- items of the store have moved exactly as the bytes and the items of the scope did, modulo 2
  -- ^ 64; the counters of a scope that belongs to no store have not moved. The items have to
  -- fit an int64, and a call that may add one needs a seq below 2 ^ 63.
  pub Calls-InLockstep :
      {b : ScopeBuffer} {l : Ledger} {b' : ScopeBuffer} {l' : Ledger}
      → IsValid b
      → Calls b l b' l'
      → InLockstep b l b' l'
  Calls-InLockstep v idle = record {
    valid = v;
    attached = refl;
    last_seq = omega arith;
    cap = refl;
    bytes = λ _. refl;
    items = λ _. refl;
    orphan = λ _. refl;
  }
  Calls-InLockstep {b} {l} v (and_then {c} {m} calls call) =
      let before = Calls-InLockstep v calls in
      let k = Call-Keeps call before.valid in
      record {
        valid = k.valid;
        attached = k.attached ∙ before.attached;
        last_seq = omega (arith, before.last_seq, k.last_seq);
        cap = ap (λ (x : Ledger). x.max_store_bytes) k.caps ∙ before.cap;
        bytes = λ a. omega (arith, before.bytes a, k.bytes (before.attached ∙ a));
        items = λ a. omega (arith, before.items a, k.items (before.attached ∙ a));
        orphan = λ a. k.orphan (before.attached ∙ a) ∙ before.orphan a;
      }
