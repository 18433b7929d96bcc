-- ===== src/Store/Valid/Reset.antt =====
-- newStore and wipe: the reserved scopes fit, and the accounting starts out right.
use inmem_cache.Base.{
  ℕ, ◌+◌, ◌*◌, ◌^◌, ◌≤◌, ◌<◌, ◌≡◌, refl, none, some, [], length, arith, ap, inl, inr, Option-cases,
}
use inmem_cache.Base.Bytes.{Bytes, bytes_eq}
use inmem_cache.Base.Map
use inmem_cache.Base.Map.{weigh_opt, weigh, DistinctKeys}
use inmem_cache.Types.{
  Config, with_defaults, scope_buffer_overhead, events_scope_name, inbox_scope_name,
}
use inmem_cache.Ledger.{Ledger, bump_last_write_ts, max_items_for}
use inmem_cache.Buffer.{ScopeBuffer, new_scope_buffer}
use inmem_cache.Buffer.Items.Defs.{sum_sizes, find_id, find_seq}
use inmem_cache.Store.{
  Store, Clock, new_store_buffer, init_reserved_scope, init_reserved_scopes,
  init_reserved_scopes_locked, new_ledger, new_store,
}
use inmem_cache.Store.Sharding.{Hash, Shards, find_scope, empty_shards}
use inmem_cache.Store.Sharding.Laws.{
  IsSharded, empty_shards-IsSharded, total-find_scope, total, total-put_scope, put_scope-IsSharded,
}
use inmem_cache.Store.Bulk.{wipe, zeroed}
use inmem_cache.Store.Valid.{
  footprint, item_count, one, IsLive, IsStored, HasRoom, put-IsLive, put-capped,
}
use inmem_cache.Validate.{is_reserved_scope}
use inmem_cache.Store.Valid.Scopes.{put-HasRoom}

reserved-IsLive :
    (l : Ledger) (name : Bytes) (stamp now_us : ℕ)
    → IsLive (record (new_store_buffer l now_us) {
      max_items = max_items_for l name;
      last_write_ts = stamp;
    })
unfolding new_store_buffer new_scope_buffer find_id find_seq sum_sizes Map.lookup
reserved-IsLive l name stamp now_us = record {
  valid = record {
    ascends = tt;
    at_most = tt;
    distinct = tt;
    ids_agree = λ k. refl;
    seqs_agree = λ s. refl;
    sized = tt;
    bytes_sum = refl;
    within_cap = λ _. omega arith;
  };
  attached = refl;
  undetached = refl;
}

abbrev bare_store : Ledger → Store
bare_store l = record { shards = empty_shards; ledger = l; subscribers = [] }

module _ ⦃hash : Hash⦄ where
  -- A reserved scope that fits is put in, unless it is there.
  init_reserved_scope-IsStored :
      (s : Store) (name : Bytes) (stamp now_us : ℕ)
      → IsStored s
      → s.ledger.total_bytes + scope_buffer_overhead ≤ s.ledger.max_store_bytes
      → IsStored (init_reserved_scope s name stamp now_us)
  unfolding init_reserved_scope
  init_reserved_scope-IsStored s name stamp now_us h fits =
      elim (Option-cases (find_scope s.shards name)) [
        | inr (b, found) ↦ rw (found, init_reserved_scope) h
        | inl absent ↦
            let b = record (new_store_buffer s.ledger now_us) {
              max_items = max_items_for s.ledger name;
              last_write_ts = stamp;
            } in
            let none_old : (w : ScopeBuffer → ℕ) → weigh_opt w (find_scope s.shards name) ≡ 0 =
              λ w. ap (weigh_opt w) absent in
            let charged = total-put_scope s.shards name h.sharded footprint b in
            let counted = total-put_scope s.shards name h.sharded item_count b in
            let ones = total-put_scope s.shards name h.sharded one b in
            let no_bytes : sum_sizes b.items ≡ 0 =
              unfold new_store_buffer new_scope_buffer sum_sizes in refl in
            let no_items : length b.items ≡ 0 = unfold new_store_buffer new_scope_buffer in refl in
            rw (absent, init_reserved_scope)
              (record {
                sharded = put_scope-IsSharded s.shards name h.sharded b;
                live =
                    put-IsLive s.shards name b h.sharded h.live
                      (reserved-IsLive s.ledger name stamp now_us);
                cap_range = h.cap_range;
                bytes = omega (arith, h.bytes, h.cap_range, charged, none_old footprint, no_bytes);
                within = omega (arith, h.cap_range, fits);
                capped =
                    put-capped s.shards name b _ h.sharded h.capped
                      (λ plain. unfold max_items_for is_reserved_scope in ground (arith, plain));
                items = ground (arith, counted, none_old item_count, no_items, h.items);
                scopes = ground (arith, ones, none_old one, h.scopes);
              })
      ]

  init_reserved_scope-grows :
      (s : Store) (name : Bytes) (stamp now_us : ℕ)
      → s.ledger.total_bytes + scope_buffer_overhead < 2 ^ 64
      → ((init_reserved_scope s name stamp now_us).ledger.total_bytes
          ≤ s.ledger.total_bytes + scope_buffer_overhead)
        × ((init_reserved_scope s name stamp now_us).ledger.max_store_bytes
            ≡ s.ledger.max_store_bytes)
  unfolding init_reserved_scope
  init_reserved_scope-grows s name stamp now_us small =
      elim (Option-cases (find_scope s.shards name)) [
        | inr (b, found) ↦ rw (found, init_reserved_scope) (omega arith, refl)
        | inl absent ↦ rw (absent, init_reserved_scope) (omega arith, refl)
      ]

  -- Both reserved scopes, where there is room for them.
  pub both-IsStored :
      (s : Store) (stamp₀ stamp₁ now₀ now₁ : ℕ)
      → IsStored s
      → s.ledger.total_bytes + 2 * scope_buffer_overhead ≤ s.ledger.max_store_bytes
      → IsStored (
          init_reserved_scope
            (init_reserved_scope s events_scope_name stamp₀ now₀)
            inbox_scope_name
            stamp₁
            now₁)
  both-IsStored s stamp₀ stamp₁ now₀ now₁ h fits =
      init_reserved_scope-IsStored _ inbox_scope_name stamp₁ now₁
        (init_reserved_scope-IsStored s events_scope_name stamp₀ now₀ h (omega arith))
        (omega (
          arith,
          init_reserved_scope-grows s events_scope_name stamp₀ now₀ (omega (arith, h.cap_range)),
        ))

  pub no_scope :
      {shards : Shards}
      → IsSharded shards
      → total one shards ≡ 0
      → (name : Bytes) (b : ScopeBuffer) → find_scope shards name ≡ some b
      → 1 ≤ 0
  no_scope {shards} h none_left name b found =
      omega (arith, total-find_scope shards name h one, ap (weigh_opt one) found)

  pub nowhere : (name : Bytes) → find_scope empty_shards name ≡ none
  nowhere name = elim (Option-cases (find_scope empty_shards name)) [
    | inl absent ↦ absent
    | inr (b, found) ↦
        let nothing : total one empty_shards ≡ 0 = unfold empty_shards total weigh in refl in
        absurd (omega (arith, no_scope empty_shards-IsSharded nothing name b found))
  ]

  -- No scope, and counters at zero.
  bare-IsStored :
      (s : Store)
      → s.shards ≡ empty_shards
      → s.ledger.total_bytes ≡ 0
      → s.ledger.total_items ≡ 0
      → s.ledger.scope_count ≡ 0
      → s.ledger.max_store_bytes < 2 ^ 63
      → IsStored s
  bare-IsStored s none_yet bytes items scopes cap =
      let nothing : (w : ScopeBuffer → ℕ) → total w s.shards ≡ 0 =
        λ w. rw none_yet (unfold empty_shards total weigh in refl) in
      record {
        sharded = rw none_yet empty_shards-IsSharded;
        live = λ name b found. absurd (
            omega
              (arith, no_scope (rw none_yet empty_shards-IsSharded) (nothing one) name b found));
        cap_range = cap;
        bytes = omega (arith, nothing footprint);
        within = omega arith;
        capped = λ name b found _. absurd (
            omega
              (arith, no_scope (rw none_yet empty_shards-IsSharded) (nothing one) name b found));
        items = ground (arith, nothing item_count);
        scopes = ground (arith, nothing one);
      }

  -- Whatever the configuration, a new store has room for its reserved scopes, and its
  -- accounting is right.
  pub new_store-IsStored :
      (c : Config) (clock : Clock) → c.max_store_bytes < 2 ^ 64 → IsStored (new_store c clock)
  unfolding new_store init_reserved_scopes new_ledger with_defaults
  new_store-IsStored c clock range =
      both-IsStored _ 0 0 (clock 0) (clock 1) (bare-IsStored _ refl refl refl refl (ground arith))
        (ground arith)

  -- A wipe leaves a store whose accounting is right, where the cap has room for the two
  -- reserved scopes.
  pub wipe-IsStored :
      (s : Store) (clock : Clock)
      → IsStored s
      → 2 * scope_buffer_overhead ≤ s.ledger.max_store_bytes
      → IsStored (wipe s clock).1
  unfolding wipe init_reserved_scopes_locked bump_last_write_ts
  wipe-IsStored s clock h fits =
      both-IsStored _ _ _ (clock 1) (clock 2)
        (bare-IsStored _ refl (ground arith) (ground arith) (ground arith)
          (ground (arith, h.cap_range)))
        (ground arith)

  init_reserved_scope-HasRoom :
      (s : Store) (name : Bytes) (stamp now_us n : ℕ)
      → IsStored s
      → n < 2 ^ 63
      → HasRoom n s
      → HasRoom n (init_reserved_scope s name stamp now_us)
  unfolding init_reserved_scope
  init_reserved_scope-HasRoom s name stamp now_us n h small r =
      elim (Option-cases (find_scope s.shards name)) [
        | inr (b, found) ↦ rw (found, init_reserved_scope) r
        | inl absent ↦
            rw (absent, init_reserved_scope)
              (put-HasRoom s name _ n h.sharded
                (unfold new_store_buffer new_scope_buffer in omega arith) r)
      ]

  pub both-HasRoom :
      (s : Store) (stamp₀ stamp₁ now₀ now₁ n : ℕ)
      → IsStored s
      → s.ledger.total_bytes + 2 * scope_buffer_overhead ≤ s.ledger.max_store_bytes
      → n < 2 ^ 63
      → HasRoom n s
      → HasRoom n (
          init_reserved_scope
            (init_reserved_scope s events_scope_name stamp₀ now₀)
            inbox_scope_name
            stamp₁
            now₁)
  both-HasRoom s stamp₀ stamp₁ now₀ now₁ n h fits small r =
      init_reserved_scope-HasRoom _ inbox_scope_name stamp₁ now₁ n
        (init_reserved_scope-IsStored s events_scope_name stamp₀ now₀ h (omega arith)) small
        (init_reserved_scope-HasRoom s events_scope_name stamp₀ now₀ n h small r)

  -- A new store has room for any number of writes below 2 ^ 63.
  pub new_store-HasRoom :
      (c : Config) (clock : Clock) (n : ℕ)
      → c.max_store_bytes < 2 ^ 64
      → n < 2 ^ 63
      → HasRoom n (new_store c clock)
  unfolding new_store init_reserved_scopes new_ledger with_defaults
  new_store-HasRoom c clock n range small =
      let bare =
        bare-IsStored (bare_store (new_ledger (with_defaults c))) refl refl refl refl
          (ground arith) in
      init_reserved_scope-HasRoom _ inbox_scope_name 0 (clock 1) n
        (init_reserved_scope-IsStored _ events_scope_name 0 (clock 0) bare (ground arith)) small
        (init_reserved_scope-HasRoom _ events_scope_name 0 (clock 0) n bare small (λ name b found.
          absurd (
            omega (
              arith,
              no_scope bare.sharded (unfold empty_shards total weigh in refl) name b found,
            ))))

  -- The store of a wipe before its reserved scopes are back.
  abbrev wiped : Store → Clock → Store
  unfolding bump_last_write_ts
  wiped s clock = record s {
    shards = empty_shards;
    ledger = bump_last_write_ts (zeroed s.ledger) (clock 0);
  }

  -- So has a store after a wipe.
  pub wipe-HasRoom :
      (s : Store) (clock : Clock) (n : ℕ)
      → IsStored s
      → 2 * scope_buffer_overhead ≤ s.ledger.max_store_bytes
      → n < 2 ^ 63
      → HasRoom n (wipe s clock).1
  unfolding wipe init_reserved_scopes_locked bump_last_write_ts
  wipe-HasRoom s clock n h fits small =
      let bare =
        bare-IsStored (wiped s clock) refl (ground arith) (ground arith) (ground arith)
          (ground (arith, h.cap_range)) in
      both-HasRoom (wiped s clock) _ _ (clock 1) (clock 2) n bare (ground arith) small
        (λ name b found. absurd (
          omega
            (arith, no_scope bare.sharded (unfold empty_shards total weigh in refl) name b found)))
