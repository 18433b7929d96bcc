-- ===== src/Store/Valid/Scopes.antt =====
-- The life of a scope keeps the accounting of the store.
use mathlib.Core.Path.{subst}
use inmem_cache.Base.{
  ℕ, ◌+◌, ◌^◌, ◌≤◌, ◌<◌, ◌≡◌, ◌⊎◌, refl, sym, Bool, true, false, none, some, length, length-zero,
  arith, ap, ◌∙◌, inl, inr, Bool-cases, Option-cases, ◌==◌, if_true, if_false,
}
use inmem_cache.Base.Word.{word, add64, sub64}
use inmem_cache.Base.Bytes.{Bytes, bytes_beq, bytes_beq_iff, is_empty}
use inmem_cache.Base.Map
use inmem_cache.Base.Map.{weigh_opt}
use inmem_cache.Types.{scope_buffer_overhead}
use inmem_cache.Errors.{Error, ok, err, scope_required, store_full}
use inmem_cache.Ledger.{Ledger, reserve_bytes, bump_last_write_ts}
use inmem_cache.Ledger.Laws.{IsWithinCap, reserve_bytes_exact, reserve_bytes_granted}
use inmem_cache.Buffer.{ScopeBuffer, Outcome, new_scope_buffer}
use inmem_cache.Buffer.Items.Defs.{sum_sizes, find_id, find_seq}
use inmem_cache.Buffer.Step.{Kept}
use inmem_cache.Store.{Store, new_store_buffer}
use inmem_cache.Store.Sharding.{Hash, find_scope, put_scope, remove_scope}
use inmem_cache.Store.Sharding.Laws.{
  IsSharded, find_scope-put_scope, find_scope-remove_scope, total-put_scope, total-remove_scope,
  put_scope-IsSharded, remove_scope-IsSharded,
}
use inmem_cache.Store.Scopes.{
  stored_back, scope_added, get_or_create_scope_tracking_created, cleanup_if_empty_and_unused,
  drop_scope,
}
use inmem_cache.Store.Events.{settle}
use inmem_cache.Store.Valid.{
  footprint, item_count, one, IsLive, IsStored, HasRoom, or_buffer, put-IsLive, put-capped,
  stored_back-IsStored,
}

pub new_store_buffer-IsLive : (l : Ledger) (now_us : ℕ) → IsLive (new_store_buffer l now_us)
unfolding new_store_buffer new_scope_buffer find_id find_seq sum_sizes Map.lookup
new_store_buffer-IsLive l now_us = record {
  valid = record {
    ascends = tt;
    at_most = tt;
    distinct = tt;
    ids_agree = λ k. refl;
    seqs_agree = λ s. refl;
    sized = tt;
    bytes_sum = refl;
    within_cap = λ _. omega arith;
  };
  attached = refl;
  undetached = refl;
}

module _ ⦃hash : Hash⦄ (s : Store) (name : Bytes) (h : IsStored s) where
  -- A scope is added that was not there, once its overhead is reserved.
  pub scope_added-IsStored :
      (b : ScopeBuffer)
      → find_scope s.shards name ≡ none
      → IsLive b
      → sum_sizes b.items ≡ 0
      → length b.items ≡ 0
      → b.max_items ≡ s.ledger.default_max_items
      → (reserve_bytes s.ledger scope_buffer_overhead).granted ≡ true
      → IsStored (scope_added s (reserve_bytes s.ledger scope_buffer_overhead).after name b)
  unfolding scope_added stored_back
  scope_added-IsStored b absent live no_bytes no_items default granted =
      let cap : IsWithinCap s.ledger = record { cap_range = h.cap_range; within = h.within } in
      let exact =
        reserve_bytes_exact s.ledger scope_buffer_overhead cap (omega arith) (omega arith) in
      let after = reserve_bytes_granted s.ledger scope_buffer_overhead granted in
      let charged = total-put_scope s.shards name h.sharded footprint b in
      let counted = total-put_scope s.shards name h.sharded item_count b in
      let ones = total-put_scope s.shards name h.sharded one b in
      let none_old : (w : ScopeBuffer → ℕ) → weigh_opt w (find_scope s.shards name) ≡ 0 =
        λ w. ap (weigh_opt w) absent in
      record {
        sharded = put_scope-IsSharded s.shards name h.sharded b;
        live = put-IsLive s.shards name b h.sharded h.live live;
        cap_range = ground (arith, after, h.cap_range);
        bytes = ground (arith, exact, granted, charged, none_old footprint, h.bytes);
        within = ground (arith, exact, granted, after, h.within);
        capped = λ other c there plain.
            put-capped s.shards name b _ h.sharded h.capped (λ _. default) other c there plain
            ∙ ap (λ (l : Ledger). l.default_max_items) (sym after);
        items = ground (arith, after, counted, none_old item_count, h.items);
        scopes = ground (arith, after, ones, none_old one, h.scopes);
      }

  remove-live :
      (other : Bytes) (c : ScopeBuffer)
      → find_scope (remove_scope s.shards name) other ≡ some c
      → find_scope s.shards other ≡ some c
  remove-live other c found = ground (arith, find_scope-remove_scope s.shards name h.sharded other)

  -- A scope is dropped with what it was charged.
  dropped-IsStored :
      (b : ScopeBuffer) (l : Ledger)
      → find_scope s.shards name ≡ some b
      → l.max_store_bytes ≡ s.ledger.max_store_bytes
      → l.default_max_items ≡ s.ledger.default_max_items
      → l.total_bytes ≡ sub64 s.ledger.total_bytes (add64 b.bytes scope_buffer_overhead)
      → word l.total_items ≡ word (sub64 s.ledger.total_items (length b.items))
      → l.scope_count ≡ sub64 s.ledger.scope_count 1
      → IsStored (record s { shards = remove_scope s.shards name; ledger = l })
  dropped-IsStored b l found same default bytes items scopes =
      let live = h.live name b found in
      let charged = total-remove_scope s.shards name h.sharded footprint in
      let counted = total-remove_scope s.shards name h.sharded item_count in
      let ones = total-remove_scope s.shards name h.sharded one in
      let old : (w : ScopeBuffer → ℕ) → weigh_opt w (find_scope s.shards name) ≡ w b =
        λ w. ap (weigh_opt w) found in
      record {
        sharded = remove_scope-IsSharded s.shards name h.sharded;
        live = λ other c there. h.live other c (remove-live other c there);
        cap_range = ground (arith, h.cap_range);
        bytes = ground (
          arith,
          charged,
          old footprint,
          h.bytes,
          live.valid.bytes_sum,
          h.within,
          h.cap_range,
          bytes,
        );
        within = ground (
          arith,
          charged,
          old footprint,
          h.bytes,
          live.valid.bytes_sum,
          h.within,
          h.cap_range,
          bytes,
        );
        capped =
            λ other c there plain. h.capped other c (remove-live other c there) plain ∙ sym default;
        items = ground (arith, counted, old item_count, h.items, items);
        scopes = ground (arith, ones, old one, h.scopes, scopes);
      }

  pub cleanup_if_empty_and_unused-IsStored : IsStored (cleanup_if_empty_and_unused s name)
  unfolding cleanup_if_empty_and_unused sum_sizes
  cleanup_if_empty_and_unused-IsStored = elim (Option-cases (find_scope s.shards name)) [
    | inl absent ↦ rw (absent, cleanup_if_empty_and_unused) h
    | inr (b, found) ↦ elim (Bool-cases (length b.items == 0)) [
      | inl empty ↦
          let nil = length-zero b.items (ground arith) in
          let no_bytes : b.bytes ≡ 0 =
            (h.live name b found).valid.bytes_sum ∙ ap (λ items. word (sum_sizes items)) nil in
          rw (found, empty, cleanup_if_empty_and_unused)
            (dropped-IsStored b _ found refl refl (ground arith) (ground arith) refl)
      | inr full ↦ rw (found, full, cleanup_if_empty_and_unused) h
    ]
  ]

  pub drop_scope-IsStored : (now_us : ℕ) → IsStored (drop_scope s name now_us).1
  unfolding bump_last_write_ts drop_scope
  drop_scope-IsStored now_us = elim (Option-cases (find_scope s.shards name)) [
    | inl absent ↦ rw (absent, drop_scope) h
    | inr (b, found) ↦
        rw (found, drop_scope)
          (dropped-IsStored b _ found (ground arith) (ground arith) (ground arith) (ground arith)
            (ground arith))
  ]

-- A method's outcome, put back and cleaned up.
pub settle-IsStored :
    ⦃hash : Hash⦄ (s : Store) (name : Bytes)
    → IsStored s
    → {A : Type 0} (b : ScopeBuffer) (created : Bool) (out : Outcome A)
    → find_scope s.shards name ≡ some b
    → Kept b s.ledger out
    → IsStored (settle s name created out).1
unfolding settle
settle-IsStored s name h b created (ok a, b', l') found k =
    stored_back-IsStored s name b b' l' h found k
settle-IsStored s name h b true (err e, b', l') found k =
    cleanup_if_empty_and_unused-IsStored (stored_back s name b' l') name
      (stored_back-IsStored s name b b' l' h found k)
settle-IsStored s name h b false (err e, b', l') found k =
    stored_back-IsStored s name b b' l' h found k

pub put-HasRoom :
    ⦃hash : Hash⦄ (s : Store) (name : Bytes) (b : ScopeBuffer) (n : ℕ)
    → IsSharded s.shards
    → b.last_seq + n < 2 ^ 63
    → HasRoom n s
    → (other : Bytes) (c : ScopeBuffer) → find_scope (put_scope s.shards name b) other ≡ some c
    → c.last_seq + n < 2 ^ 63
put-HasRoom s name b n h small r other c found = elim (Bool-cases (bytes_beq name other)) [
  | inl same ↦
      let now : some b ≡ some c = ground (arith, find_scope-put_scope s.shards name h b other) in
      subst (λ d. d.last_seq + n < 2 ^ 63) (ap (or_buffer b) now) small
  | inr differ ↦ r other c (ground (arith, find_scope-put_scope s.shards name h b other))
]

-- A method gives one more seq at most.
pub stored_back-HasRoom :
    ⦃hash : Hash⦄ (s : Store) (name : Bytes) (b b' : ScopeBuffer) (l' : Ledger) (n : ℕ)
    → IsStored s
    → find_scope s.shards name ≡ some b
    → b'.last_seq ≤ b.last_seq + 1
    → HasRoom (n + 1) s
    → HasRoom n (stored_back s name b' l')
unfolding stored_back
stored_back-HasRoom s name b b' l' n h found step r =
    put-HasRoom s name b' n h.sharded (omega (arith, r name b found))
      (λ other c there. omega (arith, r other c there))

pub remove-HasRoom :
    ⦃hash : Hash⦄ (s : Store) (name : Bytes) (l : Ledger) (n : ℕ)
    → IsStored s
    → HasRoom n s
    → HasRoom n (record s { shards = remove_scope s.shards name; ledger = l })
remove-HasRoom s name l n h r other c there = r other c (remove-live s name h other c there)

pub cleanup-HasRoom :
    ⦃hash : Hash⦄ (s : Store) (name : Bytes) (n : ℕ)
    → IsStored s
    → HasRoom n s
    → HasRoom n (cleanup_if_empty_and_unused s name)
unfolding cleanup_if_empty_and_unused
cleanup-HasRoom s name n h r = elim (Option-cases (find_scope s.shards name)) [
  | inl absent ↦ rw (absent, cleanup_if_empty_and_unused) r
  | inr (b, found) ↦ elim (Bool-cases (length b.items == 0)) [
    | inl empty ↦
        rw (found, empty, cleanup_if_empty_and_unused) (remove-HasRoom s name s.ledger n h r)
    | inr full ↦ rw (found, full, cleanup_if_empty_and_unused) r
  ]
]

pub drop-HasRoom :
    ⦃hash : Hash⦄ (s : Store) (name : Bytes) (now_us n : ℕ)
    → IsStored s
    → HasRoom n s
    → HasRoom n (drop_scope s name now_us).1
unfolding drop_scope
drop-HasRoom s name now_us n h r = elim (Option-cases (find_scope s.shards name)) [
  | inl absent ↦ rw (absent, drop_scope) r
  | inr (b, found) ↦ rw (found, drop_scope) (remove-HasRoom s name s.ledger n h r)
]

pub settle-HasRoom :
    ⦃hash : Hash⦄ (s : Store) (name : Bytes) (n : ℕ)
    → IsStored s
    → {A : Type 0} (b : ScopeBuffer) (created : Bool) (out : Outcome A)
    → find_scope s.shards name ≡ some b
    → Kept b s.ledger out
    → HasRoom (n + 1) s
    → HasRoom n (settle s name created out).1
unfolding settle
settle-HasRoom s name n h b created (ok a, b', l') found k r =
    stored_back-HasRoom s name b b' l' n h found k.steps r
settle-HasRoom s name n h b true (err e, b', l') found k r =
    cleanup-HasRoom (stored_back s name b' l') name n
      (stored_back-IsStored s name b b' l' h found k)
      (stored_back-HasRoom s name b b' l' n h found k.steps r)
settle-HasRoom s name n h b false (err e, b', l') found k r =
    stored_back-HasRoom s name b b' l' n h found k.steps r

-- What getOrCreateScopeTrackingCreated gives: an error with nothing changed, or the buffer that the
-- store then has under the name; a new one is empty.
pub record Got ⦃hash : Hash⦄ (s s' : Store) (name : Bytes) (b : ScopeBuffer) : Type 0 where
  pub stored : IsStored s'
  pub found : find_scope s'.shards name ≡ some b
  pub caps : s'.ledger.max_item_bytes ≡ s.ledger.max_item_bytes
  pub room : (n : ℕ) → n < 2 ^ 63 → HasRoom n s → HasRoom n s'
  pub old_or_new : (find_scope s.shards name ≡ some b) ⊎ (b.last_seq ≡ 0) × (length b.items ≡ 0)

pub get_or_create-cases :
    ⦃hash : Hash⦄ (s : Store) (name : Bytes) (now_us : ℕ)
    → IsStored s
    → ((e : Error) × (get_or_create_scope_tracking_created s name now_us ≡ (err e, s)))
      ⊎ ((b : ScopeBuffer) × (created : Bool) × (s' : Store) × (get_or_create_scope_tracking_created
              s name now_us
            ≡ (ok (b, created), s'))
          × Got s s' name b)
unfolding get_or_create_scope_tracking_created
get_or_create-cases s name now_us h = elim (Bool-cases (is_empty name)) [
  | inl nameless ↦ inl (scope_required, if_true _ _ _ nameless)
  | inr named ↦ elim (Option-cases (find_scope s.shards name)) [
    | inr (b, found) ↦ inr (
      b,
      false,
      s,
      rw (if_false _ _ _ named, found) refl,
      record { stored = h; found = found; caps = refl; room = λ n _ r. r; old_or_new = inl found },
    )
    | inl absent ↦
        let r = reserve_bytes s.ledger scope_buffer_overhead in
        let b = new_store_buffer s.ledger now_us in
        elim (Bool-cases r.granted) [
          | inl granted ↦ inr (
            b,
            true,
            scope_added s r.after name b,
            rw (if_false _ _ _ named, absent, granted) refl,
            record {
              stored =
                  scope_added-IsStored s name h b absent (new_store_buffer-IsLive s.ledger now_us)
                    (unfold new_store_buffer new_scope_buffer sum_sizes in refl)
                    (unfold new_store_buffer new_scope_buffer in refl)
                    (unfold new_store_buffer new_scope_buffer in refl) granted;
              found =
                  unfold scope_added stored_back in
                  ground (
                    arith,
                    find_scope-put_scope s.shards name h.sharded b name,
                    bytes_beq_iff name name,
                  );
              caps = ground (arith, reserve_bytes_granted s.ledger scope_buffer_overhead granted);
              room = λ n small r.
                  put-HasRoom s name b n h.sharded
                    (unfold new_store_buffer new_scope_buffer in omega arith) r;
              old_or_new = inr (
                unfold new_store_buffer new_scope_buffer in refl,
                (unfold new_store_buffer new_scope_buffer in refl),
              );
            },
          )
          | inr refused ↦ inl (
            store_full r.total scope_buffer_overhead r.cap,
            rw (if_false _ _ _ named, absent, refused) refl,
          )
        ]
  ]
]
