-- ===== src/Store/Bulk/Contents.antt =====
-- What replaceScopes leaves in the scopes: the batch in the scopes that it names, and all else as it
-- was.
use mathlib.Core.Path.{subst}
use inmem_cache.Base.{
  ℕ, ◌≡◌, ◌⊎◌, refl, sym, ◌∙◌, ap, true, none, some, List, [], ◌∷◌, length, arith, inl, inr,
  Bool-cases, Option-cases, if_true, if◌then◌else◌, ◌==◌,
}
use inmem_cache.Base.Bytes.{Bytes, bytes_beq, bytes_beq_iff, bytes_eq}
use inmem_cache.Base.Map
use inmem_cache.Base.Map.{DistinctKeys}
use inmem_cache.Json.{Json}
use inmem_cache.Errors.{ok, err, Result-cases}
use inmem_cache.Ledger.{reserve_bytes}
use inmem_cache.Buffer.{ScopeBuffer}
use inmem_cache.Buffer.Replace.{commit_replacement_pre_reserved, adopt}
use inmem_cache.Buffer.Spec.Replace.{Renumbered}
use inmem_cache.Store.{Store, StoreOutcome, Clock, after}
use inmem_cache.Store.Sharding.{Hash, Shards, find_scope, put_scope}
use inmem_cache.Store.Sharding.Laws.{IsSharded, find_scope-put_scope, put_scope-IsSharded}
use inmem_cache.Store.Scopes.{stored_back}
use inmem_cache.Store.Bulk.{
  old_bytes, total_delta, commit_plan, commit_plans, count_new, warm_plans, warm_then,
  replace_scopes,
}
use inmem_cache.Store.Bulk.Prepare.{Group, Plan, prepare_groups}
use inmem_cache.Store.Bulk.Prepare.Planned.{Apart, AllApart, prepare_groups-Planned}
use inmem_cache.Store.Bulk.Prepare.Batch.{AllShort, PlansOf, prepare_groups-PlansOf}
use inmem_cache.Store.Events.{emit_warm_event}
use inmem_cache.Store.Valid.Commit.{commit_plan-elsewhere}

pub List-cases :
    {A : Type 0} (xs : List A) → (xs ≡ []) ⊎ ((x : A) × (rest : List A) × (xs ≡ x ∷ rest))
List-cases [] = inl refl
List-cases (x ∷ xs) = inr (x, xs, refl)

module _ ⦃hash : Hash⦄ where
  -- The scope of a plan has the items and the last seq of its replacement.
  abbrev pub Holds : Shards → Plan → Type 0
  Holds shards p =
      (b : ScopeBuffer) × (find_scope shards p.scope ≡ some b)
      × (b.items ≡ p.replacement.items)
      × (b.last_seq ≡ p.replacement.last_seq)

  abbrev pub AllHold : Shards → List Plan → Type 0
  AllHold shards [] = Unit
  AllHold shards (p ∷ ps) = Holds shards p × AllHold shards ps

  -- The scopes of the groups have their batches, with the seqs from 1 on.
  abbrev pub AllLoaded : Shards → List Group → Type 0
  AllLoaded shards [] = Unit
  AllLoaded shards (g ∷ gs) =
      ((b : ScopeBuffer) × (find_scope shards g.0 ≡ some b)
        × Renumbered 0 g.1 b.items
        × (b.last_seq ≡ length g.1))
      × AllLoaded shards gs

  pub put-found :
      (shards : Shards) (name : Bytes) (b : ScopeBuffer)
      → IsSharded shards
      → find_scope (put_scope shards name b) name ≡ some b
  put-found shards name b h =
      let same : bytes_beq name name ≡ true = ground (arith, bytes_beq_iff name name) in
      find_scope-put_scope shards name h b name ∙ if_true _ _ _ same

  commit_plan-Holds :
      (s : Store) (p : Plan) (old : ℕ) (clock : Clock)
      → IsSharded s.shards
      → Holds (commit_plan s p old clock).0.shards p
        × IsSharded (commit_plan s p old clock).0.shards
  unfolding commit_plan stored_back commit_replacement_pre_reserved adopt
  commit_plan-Holds s p old clock h = elim (Option-cases (find_scope s.shards p.scope)) [
    | inr (b, found) ↦
        rw (found, commit_plan)
          (
            (_, put-found s.shards p.scope _ h, refl, refl),
            put_scope-IsSharded s.shards p.scope h _,
          )
    | inl absent ↦
        rw (absent, commit_plan)
          (
            (_, put-found s.shards p.scope _ h, refl, refl),
            put_scope-IsSharded s.shards p.scope h _,
          )
  ]

  record Committed (s t : Store) (ps : List Plan) : Type 0 where
    pub hold : AllHold t.shards ps
    pub others :
        (name : Bytes) → Apart name ps → find_scope t.shards name ≡ find_scope s.shards name

  commit_plans-Committed :
      (was : Shards) (s : Store) (ps : List Plan) (clock : Clock)
      → IsSharded s.shards
      → AllApart ps
      → Committed s (commit_plans was s ps clock).0 ps
  unfolding commit_plans
  commit_plans-Committed was s [] clock h apart = record { hold = tt; others = λ name _. refl }
  commit_plans-Committed was s (p ∷ ps) clock h apart =
      let old = old_bytes was p.scope in
      let done = (commit_plan s p old clock).0 in
      let ((b, found, items, last), sharded) = commit_plan-Holds s p old clock h in
      let rest = commit_plans-Committed was done ps (after 2 clock) sharded apart.1 in
      record {
        hold = ((b, rest.others p.scope apart.0 ∙ found, items, last), rest.hold);
        others = λ name elsewhere.
            rest.others name elsewhere.1
            ∙ commit_plan-elsewhere 0 s p old clock h name (
                ground
                  (arith, elsewhere.0, bytes_beq_iff name p.scope, bytes_beq_iff p.scope name));
      }

  pub loaded :
      (shards : Shards) (grouped : List Group) (ps : List Plan)
      → PlansOf grouped ps
      → AllHold shards ps
      → AllLoaded shards grouped
  loaded shards [] ps plans hold = tt
  loaded shards (g ∷ gs) [] plans hold = absurd plans
  loaded shards (g ∷ gs) (p ∷ ps) (own, (made, many), more) ((b, found, items, last), hold) = (
    (
      b,
      ap (find_scope shards) (sym own) ∙ found,
      subst (Renumbered 0 g.1) (sym items) made,
      last ∙ many,
    ),
    loaded shards gs ps more hold,
  )

  count_new-shards : (out : Store × ℕ) → (count_new out).shards ≡ out.0.shards
  count_new-shards (s, n) = elim (Bool-cases (n == 0)) [
    | inl none_new ↦ rw none_new refl
    | inr some_new ↦ rw some_new refl
  ]

  -- The store before the event of a warm: the batches in their scopes, and all else as it was.
  abbrev pub IsWarmed : Store → List Group → Store → Type 0
  IsWarmed s grouped t =
      AllLoaded t.shards grouped
      × ((name : Bytes)
          → Map.lookup grouped name ≡ none
          → find_scope t.shards name ≡ find_scope s.shards name)

  -- An outcome of warm_plans: nothing changed, or all groups are loaded.
  abbrev Warms : Store → List Group → StoreOutcome ℕ → Type 0
  Warms s grouped (err e, t) = t ≡ s
  Warms s grouped (ok n, t) = (n ≡ length grouped) × IsWarmed s grouped t

  pub length-PlansOf :
      (grouped : List Group) (ps : List Plan) → PlansOf grouped ps → length ps ≡ length grouped
  length-PlansOf [] [] plans = refl
  length-PlansOf [] (p ∷ ps) plans = absurd plans
  length-PlansOf (g ∷ gs) [] plans = absurd plans
  length-PlansOf (g ∷ gs) (p ∷ ps) plans = omega (arith, length-PlansOf gs ps plans.2)

  warm_plans-Warms :
      (s : Store) (grouped : List Group) (ps : List Plan) (clock : Clock)
      → IsSharded s.shards
      → PlansOf grouped ps
      → AllApart ps
      → ((name : Bytes) → Map.lookup grouped name ≡ none → Apart name ps)
      → Warms s grouped (warm_plans s ps clock)
  unfolding warm_plans
  warm_plans-Warms s grouped ps clock h plans apart elsewhere =
      elim (Bool-cases (reserve_bytes s.ledger (total_delta s.shards ps)).granted) [
        | inr refused ↦ rw (refused, warm_plans) refl
        | inl granted ↦
            let t = record s {
              ledger = (reserve_bytes s.ledger (total_delta s.shards ps)).after;
            } in
            let out = commit_plans s.shards t ps clock in
            let done = commit_plans-Committed s.shards t ps clock h apart in
            let same = count_new-shards out in
            rw (granted, warm_plans)
              (
                length-PlansOf grouped ps plans,
                (
                  subst (λ shards. AllLoaded shards grouped) (sym same)
                      (loaded out.0.shards grouped ps plans done.hold),
                  λ name absent.
                      ap (λ shards. find_scope shards name) same
                      ∙ done.others name (elsewhere name absent),
                ),
              )
      ]

module _ ⦃hash : Hash⦄ ⦃json : Json⦄ where
  -- A warm that fails changes nothing; one that succeeds has loaded every group and left every other
  -- name as it was, before it emits its event.
  abbrev pub IsReplaced : Store → List Group → Clock → StoreOutcome ℕ → Type 0
  IsReplaced s grouped emit (err e, t) = t ≡ s
  IsReplaced s grouped emit (ok n, t) =
      (n ≡ length grouped)
      × ((u : Store) × (t ≡ (if n == 0 then u else emit_warm_event u emit)) × IsWarmed s grouped u)

  warm_then-IsReplaced :
      (s : Store) (grouped : List Group) (emit : Clock) (out : StoreOutcome ℕ)
      → Warms s grouped out
      → IsReplaced s grouped emit (warm_then (λ t. emit_warm_event t emit) out)
  warm_then-IsReplaced s grouped emit (err e, t) w = w
  warm_then-IsReplaced s grouped emit (ok n, t) w = (w.0, (t, refl, w.1))

  -- For a batch of groups with different names, each of fewer than 2 ^ 63 items: a warm that
  -- fails leaves the store as it was. One that succeeds reports the number of the groups, and
  -- in the store before its event each name of the batch finds a scope with exactly the items
  -- of its group, in order, with their ids and payloads, the seqs from 1 on and their number as
  -- its last seq, whatever that was before, and every other name finds what it found.
  pub replace_scopes_exact :
      (s : Store) (grouped : List Group) (build commit emit : Clock)
      → IsSharded s.shards
      → DistinctKeys grouped
      → AllShort grouped
      → IsReplaced s grouped emit (replace_scopes s grouped build commit emit)
  unfolding replace_scopes
  replace_scopes_exact s grouped build commit emit h distinct short =
      elim (Result-cases (prepare_groups s.ledger grouped build)) [
        | inl (e, bad) ↦ rw (bad, replace_scopes) refl
        | inr (p, good) ↦ elim (List-cases p.offenders) [
          | inr (o, os, some_left) ↦ rw (good, some_left, replace_scopes) refl
          | inl none_left ↦
              let planned = prepare_groups-Planned s.ledger grouped build p distinct good in
              let plans = prepare_groups-PlansOf s.ledger grouped build p short good none_left in
              rw (good, none_left, replace_scopes)
                (warm_then-IsReplaced s grouped emit (warm_plans s p.plans commit)
                  (warm_plans-Warms s grouped p.plans commit h plans planned.apart planned.named))
        ]
      ]
