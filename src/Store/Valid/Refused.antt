-- ===== src/Store/Valid/Refused.antt =====
-- A refused append leaves the store as it was, the scope that it had created included.
use mathlib.Core.Path.{subst}
use inmem_cache.Base.{
  [], ◌^◌, ◌<◌, ◌≡◌, ◌⊎◌, refl, Bool, true, false, some, none, arith, ap, sym, ◌∙◌, inl, inr,
  Bool-cases, Option-cases, length, if◌then◌else◌, if_true, if_false, ◌==◌,
}
use inmem_cache.Base.Word.{word}
use inmem_cache.Base.Bytes.{Bytes, is_empty, bytes_beq, bytes_beq_iff}
use inmem_cache.Json.{Json}
use inmem_cache.Types.{Item, scope_buffer_overhead}
use inmem_cache.Errors.{Error, ok, err, scope_required, store_full}
use inmem_cache.Ledger.{reserve_bytes, max_item_bytes_for}
use inmem_cache.Ledger.Laws.{reserve_bytes_granted}
use inmem_cache.Buffer.{ScopeBuffer, Outcome, new_scope_buffer}
use inmem_cache.Buffer.Spec.Append.{StoresOrRefuses, stored, append_item_outcome}
use inmem_cache.Validate.{with_render}
use inmem_cache.Validate.Laws.{validate_write_item-Hands}
use inmem_cache.Store.{Store, StoreOutcome, Clock, after, new_store_buffer}
use inmem_cache.Store.Sharding.{Hash, find_scope, put_scope}
use inmem_cache.Store.Sharding.Laws.{
  find_scope-put_scope, find_scope-remove_scope, put_scope-IsSharded,
}
use inmem_cache.Store.Scopes.{
  stored_back, scope_added, get_or_create_scope_tracking_created, cleanup_if_empty_and_unused,
}
use inmem_cache.Store.Events.{
  settle, on_got, append_committed, append_then, append_one, emit_append_event,
}
use inmem_cache.Store.Valid.{IsStored}

-- What the scopes hold and what the counters say is as it was.
pub record Untouched ⦃hash : Hash⦄ (s s' : Store) : Type 0 where
  pub scopes : (name : Bytes) → find_scope s'.shards name ≡ find_scope s.shards name
  pub bytes : s'.ledger.total_bytes ≡ s.ledger.total_bytes
  pub items : s'.ledger.total_items ≡ s.ledger.total_items
  pub count : word s'.ledger.scope_count ≡ word s.ledger.scope_count
  pub stamp : s'.ledger.last_write_ts ≡ s.ledger.last_write_ts

-- A result, or an error with the store untouched.
abbrev pub Atomic : {A : Type 0} ⦃hash : Hash⦄ → Store → StoreOutcome A → Type 0
Atomic {A} s out = ((a : A) × (out.0 ≡ ok a)) ⊎ ((e : Error) × (out.0 ≡ err e) × Untouched s out.1)

module _ ⦃hash : Hash⦄ (s : Store) (name : Bytes) (b : ScopeBuffer) (h : IsStored s) where
  unchanged : Untouched s s
  unchanged = record { scopes = λ _. refl; bytes = refl; items = refl; count = refl; stamp = refl }

  put_back : find_scope s.shards name ≡ some b → Untouched s (stored_back s name b s.ledger)
  unfolding stored_back
  put_back found = record {
    scopes = λ other. elim (Bool-cases (bytes_beq name other)) [
      | inl same ↦
          let one_name : name ≡ other = (bytes_beq_iff name other).0 same in
          find_scope-put_scope s.shards name h.sharded b other
          ∙ if_true _ _ _ same
          ∙ sym found
          ∙ ap (find_scope s.shards) one_name
      | inr differ ↦ find_scope-put_scope s.shards name h.sharded b other ∙ if_false _ _ _ differ
    ];
    bytes = refl;
    items = refl;
    count = refl;
    stamp = refl;
  }

  cleaned :
      find_scope s.shards name ≡ none
      → length b.items ≡ 0
      → (reserve_bytes s.ledger scope_buffer_overhead).granted ≡ true
      → Untouched s (
          cleanup_if_empty_and_unused
            (stored_back
              (scope_added s (reserve_bytes s.ledger scope_buffer_overhead).after name b)
              name
              b
              (scope_added s (reserve_bytes s.ledger scope_buffer_overhead).after name b).ledger)
            name)
  unfolding cleanup_if_empty_and_unused stored_back scope_added
  cleaned absent empty granted =
      let after = reserve_bytes_granted s.ledger scope_buffer_overhead granted in
      let sh₁ = put_scope-IsSharded s.shards name h.sharded b in
      let sh₂ = put_scope-IsSharded (put_scope s.shards name b) name sh₁ b in
      let itself : bytes_beq name name ≡ true = (bytes_beq_iff name name).1 refl in
      let there =
        find_scope-put_scope (put_scope s.shards name b) name sh₁ b name ∙ if_true _ _ _ itself in
      let bare : (length b.items == 0) ≡ true = ground arith in
      let small : s.ledger.total_bytes < 2 ^ 63 = omega (arith, h.within, h.cap_range) in
      rw (there, bare, cleanup_if_empty_and_unused)
        (record {
          scopes = λ other. ground (
            arith,
            find_scope-remove_scope (put_scope (put_scope s.shards name b) name b) name sh₂ other,
            find_scope-put_scope (put_scope s.shards name b) name sh₁ b other,
            find_scope-put_scope s.shards name h.sharded b other,
            absent,
            (bytes_beq_iff name other).0,
          );
          bytes = ground (arith, after, small);
          items = ground (arith, after);
          count = ground (arith, after);
          stamp = ground (arith, after);
        })

module _ ⦃hash : Hash⦄ ⦃json : Json⦄ (s : Store) (item : Item) (clock : Clock)
    (h : IsStored s) where
  settled :
      (b : ScopeBuffer) (t : Store) (created : Bool) (out : Outcome Item)
      → StoresOrRefuses b t.ledger (stored b t.ledger (with_render item) (clock 1)) out
      → Untouched s (
          if created
          then cleanup_if_empty_and_unused (stored_back t item.scope b t.ledger) item.scope
          else stored_back t item.scope b t.ledger)
      → Atomic s (settle t item.scope created out)
  unfolding settle
  settled b t created out (inl (e, same)) back =
      let eq = ap (settle t item.scope created) same in
      inr (e, ap (λ o. o.0) eq, subst (Untouched s) (sym (ap (λ o. o.1) eq)) back)
  settled b t created (r, b', l') (inr (done, at_end)) back = inl (
    stored b t.ledger (with_render item) (clock 1),
    ap (λ q. (settle t item.scope created (q, b', l')).0) done,
  )

  passed :
      (out : StoreOutcome Item)
      → Atomic s out
      → Atomic s (
          append_then
            (λ t x. emit_append_event t x.scope x.id x.seq x.ts x.payload (after 2 clock))
            out)
  unfolding append_then
  passed (ok x, t) o = inl (x, refl)
  passed (err e, t) (inl (x, absurd_ok)) = absurd (ground (arith, absurd_ok))
  passed (err e, t) (inr (f, same, kept)) = inr (e, refl, kept)

  append_committed-Atomic : Atomic s (append_committed s item clock)
  unfolding append_committed on_got get_or_create_scope_tracking_created
  append_committed-Atomic =
      let same = unchanged s [] (new_store_buffer s.ledger 0) h in
      elim (validate_write_item-Hands item (max_item_bytes_for s.ledger item.scope)) [
        | inl (e, bad) ↦ inr (e, rw (bad, append_committed) refl, rw (bad, append_committed) same)
        | inr good ↦ elim (Bool-cases (is_empty item.scope)) [
          | inl nameless ↦ inr (
            scope_required,
            rw (good, nameless, append_committed) refl,
            rw (good, nameless, append_committed) same,
          )
          | inr named ↦ elim (Option-cases (find_scope s.shards item.scope)) [
            | inr (b, found) ↦
                rw (good, named, found, append_committed)
                  (settled b s false _ (append_item_outcome b s.ledger (with_render item) (clock 1))
                    (put_back s item.scope b h found))
            | inl absent ↦
                elim (Bool-cases (reserve_bytes s.ledger scope_buffer_overhead).granted) [
                  | inl granted ↦
                      let b = new_store_buffer s.ledger (clock 0) in
                      let t =
                        scope_added s (reserve_bytes s.ledger scope_buffer_overhead).after
                          item.scope b in
                      rw (good, named, absent, granted, append_committed)
                        (settled b t true _
                          (append_item_outcome b t.ledger (with_render item) (clock 1))
                          (cleaned s item.scope b h absent
                            (unfold new_store_buffer new_scope_buffer in refl) granted))
                  | inr full ↦
                      let r = reserve_bytes s.ledger scope_buffer_overhead in
                      inr (
                        store_full r.total scope_buffer_overhead r.cap,
                        rw (good, named, absent, full, append_committed) refl,
                        rw (good, named, absent, full, append_committed) same,
                      )
                ]
          ]
        ]
      ]

  -- From a store whose accounting is right, an append returns an item, or it fails and every
  -- name finds what it found, a scope that the call created being gone again, with the counters
  -- of bytes and items and the freshness signal as they were, and the counter of scopes too,
  -- modulo 2 ^ 64.
  pub append_one-Atomic : Atomic s (append_one s item clock)
  unfolding append_one append_then
  append_one-Atomic = passed (append_committed s item clock) append_committed-Atomic
