-- ===== src/Store/Valid/Rebuild.antt =====
-- rebuildAll leaves a store whose accounting is right.
use inmem_cache.Base.{
  ℕ, ◌+◌, ◌*◌, ◌^◌, ◌≤◌, ◌<◌, ◌≡◌, refl, ◌∙◌, ap, false, none, List, [], ◌∷◌, length, arith, inl,
  inr, Bool-cases, Option-cases, if_false,
}
use inmem_cache.Base.Word.{word, add64, slt}
use inmem_cache.Base.Bytes.{Bytes, bytes_eq}
use inmem_cache.Base.Map.{DistinctKeys, weigh, weigh_opt}
use inmem_cache.Json.{Json}
use inmem_cache.Types.{scope_buffer_overhead, reserved_scopes_overhead}
use inmem_cache.Errors.{ok, err, scope_capacity, Result-cases}
use inmem_cache.Ledger.{Ledger, bump_last_write_ts}
use inmem_cache.Buffer.{ScopeBuffer, new_scope_buffer}
use inmem_cache.Buffer.Items.Defs.{sum_sizes}
use inmem_cache.Store.{
  Store, StoreOutcome, Clock, after, new_store_buffer, init_reserved_scopes_locked,
}
use inmem_cache.Store.Sharding.{Hash, Shards, find_scope, put_scope, empty_shards}
use inmem_cache.Store.Sharding.Laws.{
  IsSharded, total, empty_shards-IsSharded, find_scope-put_scope, total-put_scope,
  put_scope-IsSharded,
}
use inmem_cache.Store.Bulk.{
  rebuilt_buffer, rebuilt_bytes, rebuilt_items, rebuilt_shards, rebuild_plans, rebuild_all,
}
use inmem_cache.Store.Bulk.Prepare.{Group, Plan, Prepared, prepare_groups}
use inmem_cache.Store.Bulk.Prepare.Planned.{
  IsPlanned, AllPlanned, Apart, AllApart, prepare_groups-Planned,
}
use inmem_cache.Store.Valid.{footprint, item_count, one, IsLive, IsStored, put-IsLive, put-capped}
use inmem_cache.Store.Valid.Scopes.{put-HasRoom}
use inmem_cache.Store.Valid.Reset.{both-IsStored, both-HasRoom, no_scope}
use inmem_cache.Store.Valid.Events.{IsSound}
use inmem_cache.Store.Valid.Warm.{gains-charges}
use inmem_cache.Store.Valid.Commit.{charges, raw_total, raw_total-fits, gains, gain_of, IsShelved}

rebuilt_buffer-IsLive :
    (l : Ledger) (p : Plan) (now_us : ℕ)
    → IsPlanned l p
    → raw_total p.replacement.items < 2 ^ 63
    → IsLive (rebuilt_buffer l p now_us)
unfolding rebuilt_buffer new_store_buffer new_scope_buffer
rebuilt_buffer-IsLive l p now_us plan small =
    let (sized, sum, many) = raw_total-fits p.replacement.items small in
    let (items, built) = plan.built (omega (arith, many)) in
    record {
      valid = record {
        ascends = built.ascends;
        at_most = built.at_most;
        distinct = built.distinct;
        ids_agree = built.ids_agree;
        seqs_agree = built.seqs_agree;
        sized = sized;
        bytes_sum = plan.bytes;
        within_cap = λ pos. ground (arith, pos, plan.within, many);
      };
      attached = refl;
      undetached = refl;
    }

rebuilt_bytes-gains :
    (ps : List Plan) (l : Ledger)
    → AllPlanned l ps
    → charges ps < 2 ^ 63
    → rebuilt_bytes ps ≡ gains ps
unfolding rebuilt_bytes gains charges
rebuilt_bytes-gains [] l planned small = refl
rebuilt_bytes-gains (p ∷ ps) l planned small =
    let rest = rebuilt_bytes-gains ps l planned.1 (omega arith) in
    let sum = (raw_total-fits p.replacement.items (omega arith)).1 in
    let more = gains-charges ps (omega arith) in omega (arith, rest, sum, planned.0.bytes, more)

abbrev shelf : Ledger → Shards → Store
shelf l shards = record { shards = shards; ledger = l; subscribers = [] }

module _ ⦃hash : Hash⦄ (spare : ℕ) where
  abbrev Absent : Shards → List Plan → Type 0
  Absent shards [] = Unit
  Absent shards (p ∷ ps) = (find_scope shards p.scope ≡ none) × Absent shards ps

  Absent-put :
      (shards : Shards) (name : Bytes) (b : ScopeBuffer) (ps : List Plan)
      → IsSharded shards
      → Apart name ps
      → Absent shards ps
      → Absent (put_scope shards name b) ps
  Absent-put shards name b [] h apart absent = tt
  Absent-put shards name b (p ∷ ps) h apart absent = (
    find_scope-put_scope shards name h b p.scope ∙ if_false _ _ _ apart.0 ∙ absent.0,
    Absent-put shards name b ps h apart.1 absent.1,
  )

  -- The shelf after the loop: the scopes of the plans on top.
  record Racked (l : Ledger) (was now : Shards) (ps : List Plan) : Type 0 where
    pub shelved : IsShelved spare (shelf l now)
    pub footprints : total footprint now ≡ total footprint was + gains ps
    pub items : total item_count now ≡ total item_count was + rebuilt_items ps
    pub ones : total one now ≡ total one was + length ps

  rebuilt_shards-Racked :
      (l : Ledger) (shards : Shards) (ps : List Plan) (clock : Clock)
      → IsShelved spare (shelf l shards)
      → AllPlanned l ps
      → AllApart ps
      → Absent shards ps
      → charges ps + spare < 2 ^ 63
      → Racked l shards (rebuilt_shards l shards ps clock) ps
  unfolding rebuilt_shards gains charges rebuilt_items
  rebuilt_shards-Racked l shards [] clock h planned apart absent small = record {
    shelved = h;
    footprints = omega arith;
    items = omega arith;
    ones = omega arith;
  }
  rebuilt_shards-Racked l shards (p ∷ ps) clock h planned apart absent small =
      let b = rebuilt_buffer l p (clock 0) in
      let (sized, sum, many) = raw_total-fits p.replacement.items (omega arith) in
      let (items, built) = planned.0.built (omega (arith, many)) in
      let there = h.sharded in
      let live = rebuilt_buffer-IsLive l p (clock 0) planned.0 (omega arith) in
      let default : b.max_items ≡ l.default_max_items =
        unfold rebuilt_buffer new_store_buffer new_scope_buffer in refl in
      let last : b.last_seq ≡ length p.replacement.items =
        unfold rebuilt_buffer new_store_buffer new_scope_buffer in built.last in
      let room =
        put-HasRoom (shelf l shards) p.scope b spare there (omega (arith, last, many)) h.room in
      let next =
        rebuilt_shards-Racked l (put_scope shards p.scope b) ps (after 1 clock)
          (record {
            sharded = put_scope-IsSharded shards p.scope there b;
            live = put-IsLive shards p.scope b there h.live live;
            capped = put-capped shards p.scope b _ there h.capped (λ _. default);
            room = room;
          })
          planned.1 apart.1 (Absent-put shards p.scope b ps there apart.0 absent.1) (omega arith) in
      let none_old : (w : ScopeBuffer → ℕ) → weigh_opt w (find_scope shards p.scope) ≡ 0 =
        λ w. ap (weigh_opt w) absent.0 in
      let kept : b.items ≡ p.replacement.items =
        unfold rebuilt_buffer new_store_buffer new_scope_buffer in refl in
      let charge : footprint b ≡ gain_of p =
        ap (λ items. sum_sizes items + scope_buffer_overhead) kept in
      record {
        shelved = next.shelved;
        footprints = omega (
          arith,
          next.footprints,
          total-put_scope shards p.scope there footprint b,
          none_old footprint,
          charge,
        );
        items = omega (
          arith,
          next.items,
          total-put_scope shards p.scope there item_count b,
          none_old item_count,
          ap length kept,
        );
        ones = omega (arith, next.ones, total-put_scope shards p.scope there one b, none_old one);
      }

  -- No scope at all.
  bare-IsShelved : (l : Ledger) → IsShelved spare (shelf l empty_shards)
  bare-IsShelved l =
      let nothing : total one empty_shards ≡ 0 = unfold empty_shards total weigh in refl in
      record {
        sharded = empty_shards-IsSharded;
        live = λ name b found.
            absurd (omega (arith, no_scope empty_shards-IsSharded nothing name b found));
        capped = λ name b found _.
            absurd (omega (arith, no_scope empty_shards-IsSharded nothing name b found));
        room = λ name b found.
            absurd (omega (arith, no_scope empty_shards-IsSharded nothing name b found));
      }

  empty_shards-Absent : (ps : List Plan) → Absent empty_shards ps
  empty_shards-Absent [] = tt
  empty_shards-Absent (p ∷ ps) = (nowhere p.scope, empty_shards-Absent ps)
    where
      nowhere : (name : Bytes) → find_scope empty_shards name ≡ none
      nowhere name = elim (Option-cases (find_scope empty_shards name)) [
        | inl absent ↦ absent
        | inr (b, found) ↦
            let nothing : total one empty_shards ≡ 0 = unfold empty_shards total weigh in refl in
            absurd (omega (arith, no_scope empty_shards-IsSharded nothing name b found))
      ]

  -- The new store, before its reserved scopes are in.
  abbrev rebuilt_ledger : Store → List Plan → ℕ → Ledger
  unfolding rebuilt_bytes rebuilt_items bump_last_write_ts
  rebuilt_ledger s plans now_us =
      bump_last_write_ts
        (record s.ledger {
          total_bytes = rebuilt_bytes plans;
          total_items = word (rebuilt_items plans);
          scope_count = word (length plans);
        })
        now_us

  rebuilt-IsStored :
      (s : Store) (ps : List Plan) (make : Clock) (now_us : ℕ)
      → IsStored s
      → AllPlanned s.ledger ps
      → charges ps + 2 * scope_buffer_overhead + spare < 2 ^ 63
      → slt s.ledger.max_store_bytes (add64 (rebuilt_bytes ps) reserved_scopes_overhead) ≡ false
      → Racked s.ledger empty_shards (rebuilt_shards s.ledger empty_shards ps make) ps
      → let t = record s {
        shards = rebuilt_shards s.ledger empty_shards ps make;
        ledger = rebuilt_ledger s ps now_us;
      } in
        IsStored t × (t.ledger.total_bytes + 2 * scope_buffer_overhead ≤ t.ledger.max_store_bytes)
  unfolding rebuilt_ledger bump_last_write_ts
  rebuilt-IsStored s ps make now_us h planned small fits r =
      let nothing : (w : ScopeBuffer → ℕ) → total w empty_shards ≡ 0 =
        λ w. unfold empty_shards total weigh in refl in
      let bytes = rebuilt_bytes-gains ps s.ledger planned (omega arith) in
      let gained = gains-charges ps (omega arith) in
      let same : s.ledger.default_max_items ≡ (rebuilt_ledger s ps now_us).default_max_items =
        ground arith in
      let below : rebuilt_bytes ps + 2 * scope_buffer_overhead ≤ s.ledger.max_store_bytes =
        ground (arith, fits, bytes, gained, h.cap_range) in
      (
        record {
          sharded = r.shelved.sharded;
          live = r.shelved.live;
          cap_range = ground (arith, h.cap_range);
          bytes = ground (arith, r.footprints, nothing footprint, bytes);
          within = ground (arith, below);
          capped = λ name b found plain. r.shelved.capped name b found plain ∙ same;
          items = ground (arith, r.items, nothing item_count);
          scopes = ground (arith, r.ones, nothing one);
        },
        ground (arith, below),
      )

  rebuild_plans-IsSound :
      (s : Store) (ps : List Plan) (make commit : Clock)
      → IsSound spare s
      → AllPlanned s.ledger ps
      → AllApart ps
      → charges ps + 2 * scope_buffer_overhead + spare < 2 ^ 63
      → IsSound spare (rebuild_plans s ps make commit).1
  unfolding rebuild_plans init_reserved_scopes_locked
  rebuild_plans-IsSound s ps make commit h planned apart small =
      elim (Bool-cases
        (slt s.ledger.max_store_bytes (add64 (rebuilt_bytes ps) reserved_scopes_overhead))) [
          | inl over ↦ rw (over, rebuild_plans) h
          | inr fits ↦
              let r =
                rebuilt_shards-Racked s.ledger empty_shards ps make (bare-IsShelved s.ledger)
                  planned apart (empty_shards-Absent ps) (omega arith) in
              let (stored, room) =
                rebuilt-IsStored s ps make (commit 0) h.stored planned small fits r in
              rw (fits, rebuild_plans)
                (record {
                  stored = both-IsStored _ _ _ _ _ stored room;
                  room = both-HasRoom _ _ _ _ _ spare stored room (omega arith) r.shelved.room;
                })
        ]

-- A rebuild from different scopes keeps the accounting, on every branch.
pub rebuild_all-IsSound :
    ⦃hash : Hash⦄ ⦃json : Json⦄
    → (n : ℕ) (s : Store) (grouped : List Group) (build make commit : Clock) → IsSound n s
    → DistinctKeys grouped
    → ((p : Prepared)
        → prepare_groups s.ledger grouped build ≡ ok p
        → charges p.plans + 2 * scope_buffer_overhead + n < 2 ^ 63)
    → IsSound n (rebuild_all s grouped build make commit).1
unfolding rebuild_all
rebuild_all-IsSound n s grouped build make commit h distinct fits =
    elim (Result-cases (prepare_groups s.ledger grouped build)) [
      | inl (e, bad) ↦ rw (bad, rebuild_all) h
      | inr (p, good) ↦
          let planned = prepare_groups-Planned s.ledger grouped build p distinct good in
          let rebuilt =
            rebuild_plans-IsSound n s p.plans make commit h planned.all planned.apart
              (fits p good) in
          rw (good, rebuild_all)
            (elim p.offenders
              as (λ os.
                IsSound n
                  (elim os as (λ _. StoreOutcome (ℕ × ℕ)) [
                    | o ∷ os ↦ (err (scope_capacity (o ∷ os)), s)
                    | [] ↦ rebuild_plans s p.plans make commit
                  ]).1) [ [] ↦ rebuilt | o ∷ os ↦ h ])
    ]
