-- ===== src/Store/Bulk/Prepare/Planned.antt =====
-- What Phase 1 of replaceScopes leaves: plans for different scopes, none of them reserved, each with
-- a replacement that was built within the cap on items.
use mathlib.Core.Path.{subst}
use inmem_cache.Base.{
  ℕ, ◌^◌, ◌<◌, ◌≡◌, ◌⊎◌, refl, sym, ◌∙◌, ap, false, none, List, [], ◌∷◌, ◌++◌, length, arith, inl,
  inr, Bool-cases, Option-cases,
}
use inmem_cache.Base.Word.{word, slt}
use inmem_cache.Base.Bytes.{Bytes, bytes_beq, bytes_beq_iff, bytes_eq}
use inmem_cache.Base.Map
use inmem_cache.Base.Map.{DistinctKeys}
use inmem_cache.Json.{Json}
use inmem_cache.Types.{Item}
use inmem_cache.Errors.{Result, ok, err, Result-cases}
use inmem_cache.Ledger.{Ledger}
use inmem_cache.Buffer.Items.Defs.{sum_sizes}
use inmem_cache.Buffer.Replace.{ScopeReplacement, build_replacement_state, sum_item_bytes}
use inmem_cache.Buffer.Valid.Built.{
  IsBuilt, build_replacement_state-IsBuilt, build_replacement_state-length, sum_item_bytes_exact,
}
use inmem_cache.Validate.{validate_scope, is_reserved_scope}
use inmem_cache.Store.{Clock, after}
use inmem_cache.Store.Bulk.Prepare.{
  Group, Plan, Prepared, check_items, plan_group, prepare_group, prepare_groups, prepared_after,
}

pub record IsPlanned (l : Ledger) (p : Plan) : Type 0 where
  pub plain : is_reserved_scope p.scope ≡ false
  pub built :
      length p.replacement.items < 2 ^ 64 → (items : List Item) × IsBuilt items p.replacement
  pub within : slt l.default_max_items (length p.replacement.items) ≡ false
  pub bytes : p.new_bytes ≡ word (sum_sizes p.replacement.items)

abbrev pub AllPlanned : Ledger → List Plan → Type 0
AllPlanned l [] = Unit
AllPlanned l (p ∷ ps) = IsPlanned l p × AllPlanned l ps

-- No plan is for the scope.
abbrev pub Apart : Bytes → List Plan → Type 0
Apart name [] = Unit
Apart name (p ∷ ps) = (bytes_beq name p.scope ≡ false) × Apart name ps

abbrev pub AllApart : List Plan → Type 0
AllApart [] = Unit
AllApart (p ∷ ps) = Apart p.scope ps × AllApart ps

abbrev plan_of : Bytes → ScopeReplacement → Plan
unfolding sum_item_bytes
plan_of scope r = record { scope = scope; replacement = r; new_bytes = sum_item_bytes 0 r.items }

abbrev planned : Bytes → ScopeReplacement → Prepared
unfolding plan_of
planned scope r = record { plans = plan_of scope r ∷ []; offenders = [] }

abbrev offending : Ledger → Bytes → List Item → Prepared
offending l scope items = record {
  plans = [];
  offenders = record { scope = scope; count = length items; cap = l.default_max_items } ∷ [];
}

module _ ⦃json : Json⦄ where
  plan_of-IsPlanned :
      (l : Ledger) (scope : Bytes) (items : List Item) (now_us : ℕ) (r : ScopeReplacement)
      → is_reserved_scope scope ≡ false
      → slt l.default_max_items (length items) ≡ false
      → build_replacement_state items now_us ≡ ok r
      → IsPlanned l (plan_of scope r)
  unfolding plan_of
  plan_of-IsPlanned l scope items now_us r plain within built =
      let kept = build_replacement_state-length items now_us r built in
      record {
        plain = plain;
        built = λ small.
            (items, build_replacement_state-IsBuilt items now_us r (omega (arith, kept)) built);
        within = ap (λ n. slt l.default_max_items n) kept ∙ within;
        bytes = sum_item_bytes_exact r.items;
      }

  -- A group is an offender, or it has one plan.
  abbrev OnePlan : Ledger → Bytes → Prepared → Type 0
  OnePlan l scope p =
      (p.plans ≡ []) ⊎ ((q : Plan) × (p.plans ≡ q ∷ []) × (q.scope ≡ scope) × IsPlanned l q)

  abbrev or_plans : Prepared → Result Prepared → Prepared
  or_plans p (err e) = p
  or_plans p (ok q) = q

  plan_group-OnePlan :
      (l : Ledger) (scope : Bytes) (items : List Item) (now_us : ℕ) (p : Prepared)
      → is_reserved_scope scope ≡ false
      → plan_group l scope items now_us ≡ ok p
      → OnePlan l scope p
  unfolding plan_group
  plan_group-OnePlan l scope items now_us p plain made =
      elim (Bool-cases (slt l.default_max_items (length items))) [
        | inl over ↦
            let e : ok (offending l scope items) ≡ ok p = sym (rw (over, plan_group) refl) ∙ made in
            inl (ap (λ o. (or_plans p o).plans) (sym e))
        | inr within ↦ elim (Result-cases (build_replacement_state items now_us)) [
          | inl (e, bad) ↦
              let failed : err e ≡ ok p = sym (rw (within, bad, plan_group) refl) ∙ made in
              absurd (ground (arith, failed))
          | inr (r, good) ↦
              let e : ok (planned scope r) ≡ ok p =
                sym (rw (within, good, plan_group) refl) ∙ made in
              inr (
                plan_of scope r,
                ap (λ o. (or_plans p o).plans) (sym e),
                refl,
                plan_of-IsPlanned l scope items now_us r plain within good,
              )
        ]
      ]

  prepare_group-OnePlan :
      (l : Ledger) (scope : Bytes) (items : List Item) (now_us : ℕ) (p : Prepared)
      → prepare_group l (scope, items) now_us ≡ ok p
      → OnePlan l scope p
  unfolding prepare_group
  prepare_group-OnePlan l scope items now_us p made = elim (Option-cases (validate_scope scope)) [
    | inr (r, bad) ↦ absurd (ground (arith, made, bad))
    | inl good ↦ elim (Bool-cases (is_reserved_scope scope)) [
      | inl reserved ↦ absurd (ground (arith, made, good, reserved))
      | inr plain ↦ elim (Result-cases (check_items scope l.max_item_bytes items)) [
        | inl (e, bad) ↦ absurd (ground (arith, made, good, plain, bad))
        | inr (checked, fine) ↦
            plan_group-OnePlan l scope checked now_us p plain
              (sym (rw (good, plain, fine, prepare_group) refl) ∙ made)
      ]
    ]
  ]

AllPlanned-append :
    (l : Ledger) (ps qs : List Plan) → AllPlanned l ps → AllPlanned l qs → AllPlanned l (ps ++ qs)
AllPlanned-append l [] qs hp hq = hq
AllPlanned-append l (p ∷ ps) qs hp hq = (hp.0, AllPlanned-append l ps qs hp.1 hq)

-- The plans of the loop.
pub record Planned (l : Ledger) (grouped : List Group) (plans : List Plan) : Type 0 where
  pub all : AllPlanned l plans
  pub apart : AllApart plans
  pub named : (k : Bytes) → Map.lookup grouped k ≡ none → Apart k plans

module _ ⦃json : Json⦄ where
  group-Planned :
      (l : Ledger) (scope : Bytes) (items : List Item) (grouped : List Group) (p q : Prepared)
      → Map.lookup grouped scope ≡ none
      → OnePlan l scope p
      → Planned l grouped q.plans
      → Planned l ((scope, items) ∷ grouped) (p.plans ++ q.plans)
  unfolding Map.lookup
  group-Planned l scope items grouped p q new (inl nothing) h = rw nothing (record {
    all = h.all;
    apart = h.apart;
    named = λ k absent. h.named k (ground (arith, absent));
  })
  group-Planned l scope items grouped p q new (inr (o, one, own, fine)) h = rw one (record {
    all = (fine, h.all);
    apart = (h.named o.scope (ap (Map.lookup grouped) own ∙ new), h.apart);
    named = λ k absent. (
      ground (arith, absent, own, bytes_beq_iff scope k, bytes_beq_iff k o.scope),
      h.named k (ground (arith, absent)),
    );
  })

  pub prepare_groups-Planned :
      (l : Ledger) (grouped : List Group) (clock : Clock) (p : Prepared)
      → DistinctKeys grouped
      → prepare_groups l grouped clock ≡ ok p
      → Planned l grouped p.plans
  unfolding prepare_groups DistinctKeys
  prepare_groups-Planned l [] clock p distinct made =
      let e = ap (λ o. (or_plans p o).plans) made in
      subst (Planned l []) e (record { all = tt; apart = tt; named = λ k _. tt })
  prepare_groups-Planned l ((scope, items) ∷ grouped) clock p distinct made =
      elim (Result-cases (prepare_group l (scope, items) (clock 0))) [
        | inl (e, bad) ↦ absurd (ground (arith, made, bad))
        | inr (first, good) ↦ elim (Result-cases (prepare_groups l grouped (after 1 clock))) [
          | inl (e, bad) ↦ absurd (ground (arith, made, good, bad))
          | inr (rest, fine) ↦
              let both : prepared_after first (ok rest) ≡ ok p =
                sym (rw (good, fine, prepare_groups) refl) ∙ made in
              subst (Planned l ((scope, items) ∷ grouped)) (ap (λ o. (or_plans p o).plans) both) (
                group-Planned l scope items grouped first rest distinct.0
                  (prepare_group-OnePlan l scope items (clock 0) first good)
                  (prepare_groups-Planned l grouped (after 1 clock) rest distinct.1 fine))
        ]
      ]
