-- ===== src/Store/Valid/Warm.antt =====
-- replaceScopes keeps the accounting of the store.
use inmem_cache.Base.{
  ℕ, ◌+◌, ◌^◌, ◌≤◌, ◌<◌, ◌≡◌, refl, ◌∙◌, ap, true, List, [], ◌∷◌, arith, inl, inr, Bool-cases,
  Option-cases, ◌==◌,
}
use inmem_cache.Base.Word.{word}
use inmem_cache.Base.Map.{DistinctKeys}
use inmem_cache.Json.{Json}
use inmem_cache.Errors.{ok, err, scope_capacity, Result-cases}
use inmem_cache.Ledger.{Ledger, reserve_bytes}
use inmem_cache.Ledger.Laws.{reserve_bytes_granted}
use inmem_cache.Base.Bytes.{bytes_eq}
use inmem_cache.Store.{Store, StoreOutcome, Clock, after}
use inmem_cache.Store.Sharding.{Hash, Shards, find_scope}
use inmem_cache.Store.Sharding.Laws.{total}
use inmem_cache.Store.Bulk.{
  total_delta, commit_plans, count_new, warm_plans, warm_then, replace_scopes,
}
use inmem_cache.Store.Bulk.Prepare.{Group, Plan, Prepared, prepare_groups}
use inmem_cache.Store.Bulk.Prepare.Planned.{AllPlanned, AllApart, prepare_groups-Planned}
use inmem_cache.Store.Events.{emit_warm_event}
use inmem_cache.Store.Valid.{footprint, item_count, one, AllLive}
use inmem_cache.Store.Valid.Events.{IsSound, IsSound-weaken, EventsFit, emit_if-IsSound}
use inmem_cache.Store.Valid.Commit.{
  charges, raw_total-fits, losses, gains, Moved, AllPlanned-same, Agrees-same, commit_plans-Moved,
}

-- The sums of Phase 1.5: what the batch adds, modulo 2 ^ 64.
total_delta-gains :
    ⦃hash : Hash⦄ (shards : Shards) (l : Ledger) (ps : List Plan)
    → AllLive shards
    → AllPlanned l ps
    → (word (total_delta shards ps + losses shards ps) ≡ word (gains ps))
      × (total_delta shards ps < 2 ^ 64)
unfolding total_delta losses gains
total_delta-gains shards l [] live planned = (refl, omega arith)
total_delta-gains shards l (p ∷ ps) live planned =
    let (rest, small) = total_delta-gains shards l ps live planned.1 in
    let sum = planned.0.bytes in
    elim (Option-cases (find_scope shards p.scope)) [
      | inl absent ↦ ground (arith, absent, rest, small, sum)
      | inr (b, found) ↦
          ground (arith, found, rest, small, sum, (live p.scope b found).valid.bytes_sum)
    ]

pub gains-charges : (ps : List Plan) → charges ps < 2 ^ 63 → gains ps ≡ charges ps
unfolding gains charges
gains-charges [] small = refl
gains-charges (p ∷ ps) small =
    omega (arith, (raw_total-fits p.replacement.items (omega arith)).1, gains-charges ps)

-- A granted reservation of what the batch adds leaves the counter at what the scopes will be charged.
reserved-exact :
    (l : Ledger) (delta loss gain after : ℕ)
    → l.max_store_bytes < 2 ^ 63
    → l.total_bytes ≤ l.max_store_bytes
    → gain < 2 ^ 63
    → delta < 2 ^ 64
    → word (delta + loss) ≡ word gain
    → after + loss ≡ l.total_bytes + gain
    → (reserve_bytes l delta).granted ≡ true
    → ((reserve_bytes l delta).after.total_bytes ≡ after) × (after ≤ l.max_store_bytes)
unfolding reserve_bytes
reserved-exact l delta loss gain after cap within gain_fits delta_fits moved balance granted =
    ground arith

module _ ⦃hash : Hash⦄ (spare : ℕ) where
  counted-IsSound :
      (s : Store) (out : Store × ℕ) (loss gain : ℕ)
      → Moved spare s out.0 loss gain out.1
      → word s.ledger.total_items ≡ word (total item_count s.shards)
      → word s.ledger.scope_count ≡ word (total one s.shards)
      → s.ledger.max_store_bytes < 2 ^ 63
      → s.ledger.total_bytes ≡ total footprint out.0.shards
      → s.ledger.total_bytes ≤ s.ledger.max_store_bytes
      → IsSound spare (count_new out)
  counted-IsSound s (t, n) loss gain m items scopes cap bytes within = elim (Bool-cases (n == 0)) [
    | inl none_new ↦ rw none_new (record {
      stored = record {
        sharded = m.shelved.sharded;
        live = m.shelved.live;
        cap_range = rw m.cap cap;
        bytes = m.bytes ∙ bytes;
        within = omega (arith, m.bytes, m.cap, within);
        capped = m.shelved.capped;
        items = omega (arith, m.items, items);
        scopes = ground (arith, m.ones, m.count, scopes, none_new);
      };
      room = m.shelved.room;
    })
    | inr some_new ↦ rw some_new (record {
      stored = record {
        sharded = m.shelved.sharded;
        live = m.shelved.live;
        cap_range = rw m.cap cap;
        bytes = m.bytes ∙ bytes;
        within = omega (arith, m.bytes, m.cap, within);
        capped = m.shelved.capped;
        items = omega (arith, m.items, items);
        scopes = omega (arith, m.ones, m.count, scopes);
      };
      room = m.shelved.room;
    })
  ]

  warm_plans-IsSound :
      (s : Store) (ps : List Plan) (clock : Clock)
      → IsSound spare s
      → AllPlanned s.ledger ps
      → AllApart ps
      → charges ps + spare < 2 ^ 63
      → IsSound spare (warm_plans s ps clock).1
  unfolding warm_plans
  warm_plans-IsSound s ps clock h planned apart small =
      let delta = total_delta s.shards ps in
      elim (Bool-cases (reserve_bytes s.ledger delta).granted) [
        | inr refused ↦ rw (refused, warm_plans) h
        | inl granted ↦
            let l' = (reserve_bytes s.ledger delta).after in
            let after = reserve_bytes_granted s.ledger delta granted in
            let same : l'.default_max_items ≡ s.ledger.default_max_items = ground (arith, after) in
            let cap : l'.max_store_bytes ≡ s.ledger.max_store_bytes = ground (arith, after) in
            let items : l'.total_items ≡ s.ledger.total_items = ground (arith, after) in
            let count : l'.scope_count ≡ s.ledger.scope_count = ground (arith, after) in
            let t = record s { ledger = l' } in
            let out = commit_plans s.shards t ps clock in
            let m =
              commit_plans-Moved spare s.shards t ps clock
                (record {
                  sharded = h.stored.sharded;
                  live = h.stored.live;
                  capped = rw same h.stored.capped;
                  room = h.room;
                })
                (AllPlanned-same s.ledger l' ps same planned) apart (Agrees-same s.shards ps)
                small in
            let (moved, fits) = total_delta-gains s.shards s.ledger ps h.stored.live planned in
            let gained = gains-charges ps (omega arith) in
            let (exact, within) =
              reserved-exact s.ledger delta (losses s.shards ps) (gains ps)
                (total footprint out.0.shards) h.stored.cap_range h.stored.within
                (omega (arith, gained)) fits moved (omega (arith, m.footprints, h.stored.bytes))
                granted in
            rw (granted, warm_plans)
              (counted-IsSound t out (losses s.shards ps) (gains ps) m
                (ap word items ∙ h.stored.items) (ap word count ∙ h.stored.scopes)
                (rw cap h.stored.cap_range) exact (omega (arith, exact, within, cap)))
      ]

module _ ⦃hash : Hash⦄ ⦃json : Json⦄ (n : ℕ) (s : Store) (small : n < 2 ^ 61) (fit : EventsFit json)
    (h : IsSound (n + 1) s) where
  warm_then-IsSound :
      (emit : Clock) (out : StoreOutcome ℕ)
      → IsSound (n + 1) out.1
      → IsSound n (warm_then (λ t. emit_warm_event t emit) out).1
  unfolding emit_warm_event
  warm_then-IsSound emit (err e, t) k = IsSound-weaken n 1 t k
  warm_then-IsSound emit (ok m, t) k = elim (Bool-cases (m == 0)) [
    | inl none_done ↦ rw none_done (IsSound-weaken n 1 t k)
    | inr some_done ↦ rw some_done (emit_if-IsSound n _ t _ (after 1 emit) small fit k)
  ]

  -- A warm of different scopes, with its event, keeps the accounting, on every branch.
  pub replace_scopes-IsSound :
      (grouped : List Group) (build commit emit : Clock)
      → DistinctKeys grouped
      → ((p : Prepared)
          → prepare_groups s.ledger grouped build ≡ ok p
          → charges p.plans + n + 1 < 2 ^ 63)
      → IsSound n (replace_scopes s grouped build commit emit).1
  unfolding replace_scopes
  replace_scopes-IsSound grouped build commit emit distinct fits =
      elim (Result-cases (prepare_groups s.ledger grouped build)) [
        | inl (e, bad) ↦ rw (bad, replace_scopes) (IsSound-weaken n 1 s h)
        | inr (p, good) ↦
            let planned = prepare_groups-Planned s.ledger grouped build p distinct good in
            let warmed =
              warm_plans-IsSound (n + 1) s p.plans commit h planned.all planned.apart
                (omega (arith, fits p good)) in
            rw (good, replace_scopes)
              (elim p.offenders
                as (λ os.
                  IsSound n
                    (elim os as (λ _. StoreOutcome ℕ) [
                      | o ∷ os ↦ (err (scope_capacity (o ∷ os)), s)
                      | [] ↦ warm_then (λ t. emit_warm_event t emit) (warm_plans s p.plans commit)
                    ]).1) [
                      | [] ↦ warm_then-IsSound emit (warm_plans s p.plans commit) warmed
                      | o ∷ os ↦ IsSound-weaken n 1 s h
                    ])
      ]
