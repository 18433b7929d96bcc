-- ===== src/Store/Bulk/Rebuilt.antt =====
-- What rebuildAll leaves in the scopes: the batch, and nothing else but the reserved scopes.
use inmem_cache.Base.{
  ℕ, ◌≡◌, refl, sym, ◌∙◌, ap, false, none, List, [], ◌∷◌, length, arith, inl, inr, Bool-cases,
  Option-cases, if_false,
}
use inmem_cache.Base.Word.{add64, slt}
use inmem_cache.Base.Bytes.{Bytes, bytes_beq, bytes_beq_iff, bytes_eq}
use inmem_cache.Base.Map
use inmem_cache.Base.Map.{DistinctKeys, weigh}
use inmem_cache.Json.{Json}
use inmem_cache.Types.{reserved_scopes_overhead, events_scope_name, inbox_scope_name}
use inmem_cache.Errors.{ok, err, Result-cases}
use inmem_cache.Ledger.{Ledger}
use inmem_cache.Buffer.{new_scope_buffer}
use inmem_cache.Validate.{is_reserved_scope}
use inmem_cache.Store.{
  Store, StoreOutcome, Clock, after, new_store_buffer, init_reserved_scope,
  init_reserved_scopes_locked,
}
use inmem_cache.Store.Sharding.{Hash, Shards, find_scope, put_scope, empty_shards}
use inmem_cache.Store.Sharding.Laws.{
  IsSharded, empty_shards-IsSharded, find_scope-put_scope, put_scope-IsSharded,
}
use inmem_cache.Store.Bulk.{
  rebuilt_buffer, rebuilt_bytes, rebuilt_shards, rebuild_plans, rebuild_all,
}
use inmem_cache.Store.Bulk.Prepare.{Group, Plan, prepare_groups}
use inmem_cache.Store.Bulk.Prepare.Planned.{Apart, AllApart, AllPlanned, prepare_groups-Planned}
use inmem_cache.Store.Bulk.Prepare.Batch.{AllShort, PlansOf, prepare_groups-PlansOf}
use inmem_cache.Store.Bulk.Contents.{
  AllHold, AllLoaded, List-cases, put-found, loaded, length-PlansOf,
}
use inmem_cache.Store.Valid.Reset.{nowhere}

module _ ⦃hash : Hash⦄ where
  record Stocked (was now : Shards) (ps : List Plan) : Type 0 where
    pub sharded : IsSharded now
    pub hold : AllHold now ps
    pub others : (name : Bytes) → Apart name ps → find_scope now name ≡ find_scope was name

  rebuilt_shards-Stocked :
      (l : Ledger) (shards : Shards) (ps : List Plan) (clock : Clock)
      → IsSharded shards
      → AllApart ps
      → Stocked shards (rebuilt_shards l shards ps clock) ps
  unfolding rebuilt_shards
  rebuilt_shards-Stocked l shards [] clock h apart = record {
    sharded = h;
    hold = tt;
    others = λ name _. refl;
  }
  rebuilt_shards-Stocked l shards (p ∷ ps) clock h apart =
      let b = rebuilt_buffer l p (clock 0) in
      let put = put_scope-IsSharded shards p.scope h b in
      let rest =
        rebuilt_shards-Stocked l (put_scope shards p.scope b) ps (after 1 clock) put apart.1 in
      record {
        sharded = rest.sharded;
        hold = (
          (
            b,
            rest.others p.scope apart.0 ∙ put-found shards p.scope b h,
            (unfold rebuilt_buffer new_store_buffer new_scope_buffer in refl),
            (unfold rebuilt_buffer new_store_buffer new_scope_buffer in refl),
          ),
          rest.hold,
        );
        others = λ name elsewhere.
            let differs : bytes_beq p.scope name ≡ false =
              ground (arith, elsewhere.0, bytes_beq_iff name p.scope, bytes_beq_iff p.scope name) in
            rest.others name elsewhere.1
            ∙ find_scope-put_scope shards p.scope h b name
            ∙ if_false _ _ _ differs;
      }

  init_reserved_scope-elsewhere :
      (s : Store) (name : Bytes) (stamp now_us : ℕ)
      → IsSharded s.shards
      → (other : Bytes) → bytes_beq name other ≡ false
      → find_scope (init_reserved_scope s name stamp now_us).shards other
        ≡ find_scope s.shards other
  unfolding init_reserved_scope
  init_reserved_scope-elsewhere s name stamp now_us h other differs =
      elim (Option-cases (find_scope s.shards name)) [
        | inr (b, found) ↦ rw (found, init_reserved_scope) refl
        | inl absent ↦
            rw (absent, init_reserved_scope)
              (find_scope-put_scope s.shards name h _ other ∙ if_false _ _ _ differs)
      ]

  init_reserved_scope-IsSharded :
      (s : Store) (name : Bytes) (stamp now_us : ℕ)
      → IsSharded s.shards
      → IsSharded (init_reserved_scope s name stamp now_us).shards
  unfolding init_reserved_scope
  init_reserved_scope-IsSharded s name stamp now_us h =
      elim (Option-cases (find_scope s.shards name)) [
        | inr (b, found) ↦ rw (found, init_reserved_scope) h
        | inl absent ↦ rw (absent, init_reserved_scope) (put_scope-IsSharded s.shards name h _)
      ]

  -- Only the two reserved names are put in.
  init_reserved_scopes_locked-elsewhere :
      (s : Store) (clock : Clock)
      → IsSharded s.shards
      → (other : Bytes) → is_reserved_scope other ≡ false
      → find_scope (init_reserved_scopes_locked s clock).shards other ≡ find_scope s.shards other
  unfolding init_reserved_scopes_locked is_reserved_scope
  init_reserved_scopes_locked-elsewhere s clock h other plain =
      let first = init_reserved_scope s events_scope_name s.ledger.last_write_ts (clock 0) in
      init_reserved_scope-elsewhere first inbox_scope_name _ _
        (init_reserved_scope-IsSharded s events_scope_name _ _ h) other
        (ground (
          arith,
          plain,
          bytes_beq_iff other inbox_scope_name,
          bytes_beq_iff inbox_scope_name other,
        ))
      ∙ init_reserved_scope-elsewhere s events_scope_name _ _ h other (
          ground (
            arith,
            plain,
            bytes_beq_iff other events_scope_name,
            bytes_beq_iff events_scope_name other,
          ))

  -- The scopes of plain groups stand where only other names were put in.
  loaded-elsewhere :
      (l : Ledger) (was now : Shards) (grouped : List Group) (ps : List Plan)
      → PlansOf grouped ps
      → AllPlanned l ps
      → ((other : Bytes)
          → is_reserved_scope other ≡ false
          → find_scope now other ≡ find_scope was other)
      → AllLoaded was grouped
      → AllLoaded now grouped
  loaded-elsewhere l was now [] ps plans planned same all = tt
  loaded-elsewhere l was now (g ∷ gs) [] plans planned same all = absurd plans
  loaded-elsewhere l was now (g ∷ gs) (p ∷ ps) (own, built, more) planned same
        ((b, found, made, last), all) =
      (
        (b, same g.0 (ap is_reserved_scope (sym own) ∙ planned.0.plain) ∙ found, made, last),
        loaded-elsewhere l was now gs ps more planned.1 same all,
      )

  -- A rebuild that fails changes nothing. One that succeeds has loaded every group, and no other name
  -- finds a scope, but the reserved ones.
  abbrev pub IsRebuilt : Store → List Group → StoreOutcome (ℕ × ℕ) → Type 0
  IsRebuilt s grouped (err e, t) = t ≡ s
  IsRebuilt s grouped (ok (n, m), t) =
      (n ≡ length grouped)
      × AllLoaded t.shards grouped
      × ((name : Bytes)
          → is_reserved_scope name ≡ false
          → Map.lookup grouped name ≡ none
          → find_scope t.shards name ≡ none)

  rebuild_plans-IsRebuilt :
      (s : Store) (grouped : List Group) (ps : List Plan) (make commit : Clock)
      → PlansOf grouped ps
      → AllPlanned s.ledger ps
      → AllApart ps
      → ((name : Bytes) → Map.lookup grouped name ≡ none → Apart name ps)
      → IsRebuilt s grouped (rebuild_plans s ps make commit)
  unfolding rebuild_plans
  rebuild_plans-IsRebuilt s grouped ps make commit plans planned apart elsewhere =
      let needed = add64 (rebuilt_bytes ps) reserved_scopes_overhead in
      elim (Bool-cases (slt s.ledger.max_store_bytes needed)) [
        | inl over ↦ rw (over, rebuild_plans) refl
        | inr fits ↦
            let r =
              rebuilt_shards-Stocked s.ledger empty_shards ps make empty_shards-IsSharded apart in
            let same = init_reserved_scopes_locked-elsewhere _ (after 1 commit) r.sharded in
            rw (fits, rebuild_plans)
              (
                length-PlansOf grouped ps plans,
                loaded-elsewhere s.ledger _ _ grouped ps plans planned same
                    (loaded _ grouped ps plans r.hold),
                λ name plain absent.
                    same name plain ∙ r.others name (elsewhere name absent) ∙ nowhere name,
              )
      ]

-- For a batch of groups with different names, each of fewer than 2 ^ 63 items: a rebuild that
-- fails leaves the store as it was. One that succeeds reports the number of the groups, each
-- name of the batch finds a scope with exactly the items of its group, in order, with their ids
-- and payloads, the seqs from 1 on and their number as its last seq, and no other name finds a
-- scope, but for the two reserved ones.
pub rebuild_all_exact :
    ⦃hash : Hash⦄ ⦃json : Json⦄
    → (s : Store) (grouped : List Group) (build make commit : Clock) → DistinctKeys grouped
    → AllShort grouped
    → IsRebuilt s grouped (rebuild_all s grouped build make commit)
unfolding rebuild_all
rebuild_all_exact s grouped build make commit distinct short =
    elim (Result-cases (prepare_groups s.ledger grouped build)) [
      | inl (e, bad) ↦ rw (bad, rebuild_all) refl
      | inr (p, good) ↦ elim (List-cases p.offenders) [
        | inr (o, os, some_left) ↦ rw (good, some_left, rebuild_all) refl
        | inl none_left ↦
            let planned = prepare_groups-Planned s.ledger grouped build p distinct good in
            let plans = prepare_groups-PlansOf s.ledger grouped build p short good none_left in
            rw (good, none_left, rebuild_all)
              (rebuild_plans-IsRebuilt s grouped p.plans make commit plans planned.all planned.apart
                planned.named)
      ]
    ]
