-- ===== src/Store/Bulk/Prepare/Batch.antt =====
-- Phase 1 of replaceScopes, where no group is an offender: one plan for each group, whose replacement
-- is the batch of the group.
use mathlib.Core.Path.{subst}
use inmem_cache.Base.{
  ℕ, ◌+◌, ◌^◌, ◌<◌, ◌≡◌, ◌≢◌, ◌⊎◌, refl, sym, ◌∙◌, ap, List, [], ◌∷◌, ◌++◌, length, arith, inl, inr,
  Bool-cases, Option-cases,
}
use inmem_cache.Base.Word.{slt}
use inmem_cache.Base.Bytes.{Bytes, bytes_beq, bytes_eq}
use inmem_cache.Json.{Json}
use inmem_cache.Types.{Item}
use inmem_cache.Errors.{Result, ok, err, Result-cases}
use inmem_cache.Ledger.{Ledger}
use inmem_cache.Buffer.Replace.{
  ScopeReplacement, build_items, build_replacement_state, sum_item_bytes,
}
use inmem_cache.Buffer.Spec.Replace.{Renumbered, Renumbered-length, build_items-Renumbered}
use inmem_cache.Buffer.Valid.Built.{of_items, or_made}
use inmem_cache.Validate.{with_render, validate_scope, is_reserved_scope}
use inmem_cache.Validate.Laws.{validate_write_item-Hands}
use inmem_cache.Store.{Clock, after}
use inmem_cache.Store.Bulk.Prepare.{
  Group, Plan, Prepared, check_items, plan_group, prepare_group, prepare_groups, prepared_after,
}

-- The batch of a group, and the replacement that was built of it.
abbrev pub IsBuiltOf : List Item → ScopeReplacement → Type 0
IsBuiltOf items r = Renumbered 0 items r.items × (r.last_seq ≡ length items)

-- The plans are those of the groups, one by one.
abbrev pub PlansOf : List Group → List Plan → Type 0
PlansOf [] [] = Unit
PlansOf (g ∷ gs) (p ∷ ps) = (p.scope ≡ g.0) × IsBuiltOf g.1 p.replacement × PlansOf gs ps
PlansOf _ _ = ⊥

abbrev or_items : Result (List Item) → List Item
or_items (err e) = []
or_items (ok xs) = xs

-- The same ids and payloads.
abbrev SameBatch : List Item → List Item → Type 0
SameBatch [] [] = Unit
SameBatch (x ∷ xs) (y ∷ ys) = (y.id ≡ x.id) × (y.payload ≡ x.payload) × SameBatch xs ys
SameBatch _ _ = ⊥

-- A check fills in the renderBytes at most.
check_items-SameBatch :
    ⦃json : Json⦄
    → (scope : Bytes) (limit : ℕ) (items checked : List Item)
    → check_items scope limit items ≡ ok checked
    → SameBatch items checked
unfolding check_items
check_items-SameBatch scope limit [] [] e = tt
check_items-SameBatch scope limit [] (y ∷ ys) e = absurd (ground (arith, e))
check_items-SameBatch scope limit (x ∷ xs) checked e = elim (validate_write_item-Hands x limit) [
  | inl (bad, failed) ↦ absurd (ground (arith, e, failed))
  | inr fine ↦ elim (Bool-cases (bytes_beq x.scope scope)) [
    | inr other ↦ absurd (ground (arith, e, fine, other))
    | inl own ↦ elim (Result-cases (check_items scope limit xs)) [
      | inl (bad, failed) ↦ absurd (ground (arith, e, fine, own, failed))
      | inr (rest, good) ↦
          let all : ok (with_render x ∷ rest) ≡ ok checked =
            sym (rw (fine, own, good, check_items) refl) ∙ e in
          subst (SameBatch (x ∷ xs)) (ap or_items all)
            (refl, refl, check_items-SameBatch scope limit xs rest good)
    ]
  ]
]

Renumbered-SameBatch :
    (n : ℕ) (items checked made : List Item)
    → SameBatch items checked
    → Renumbered n checked made
    → Renumbered n items made
unfolding Renumbered
Renumbered-SameBatch n [] [] made same r = r
Renumbered-SameBatch n [] (y ∷ ys) made same r = absurd same
Renumbered-SameBatch n (x ∷ xs) [] made same r = absurd same
Renumbered-SameBatch n (x ∷ xs) (y ∷ ys) [] same r = r
Renumbered-SameBatch n (x ∷ xs) (y ∷ ys) (z ∷ zs) same r =
    (r.0, r.1 ∙ same.0, r.2 ∙ same.1, Renumbered-SameBatch (n + 1) xs ys zs same.2 r.3)

length-SameBatch :
    (items checked : List Item) → SameBatch items checked → length checked ≡ length items
length-SameBatch [] [] same = refl
length-SameBatch [] (y ∷ ys) same = absurd same
length-SameBatch (x ∷ xs) [] same = absurd same
length-SameBatch (x ∷ xs) (y ∷ ys) same = omega (arith, length-SameBatch xs ys same.2)

no_left : {A : Type 0} → (xs ys : List A) → xs ++ ys ≡ [] → xs ≡ []
no_left [] ys e = refl
no_left (x ∷ xs) ys e = absurd (ground (arith, e))

no_right : {A : Type 0} → (xs ys : List A) → xs ++ ys ≡ [] → ys ≡ []
no_right [] ys e = e
no_right (x ∷ xs) ys e = absurd (ground (arith, e))

module _ ⦃json : Json⦄ where
  build_replacement_state-IsBuiltOf :
      (items checked : List Item) (now_us : ℕ) (r : ScopeReplacement)
      → length items < 2 ^ 64
      → SameBatch items checked
      → build_replacement_state checked now_us ≡ ok r
      → IsBuiltOf items r
  unfolding build_replacement_state
  build_replacement_state-IsBuiltOf items checked now_us r small same built =
      elim (Result-cases (build_items [] 0 now_us checked)) [
        | inl (e, bad) ↦
            let failed : err e ≡ ok r = sym (rw (bad, build_replacement_state) refl) ∙ built in
            absurd (ground (arith, failed))
        | inr (made, good) ↦
            let eq : ok (of_items made) ≡ ok r =
              sym (rw (good, build_replacement_state) refl) ∙ built in
            let many = length-SameBatch items checked same in
            let renumbered =
              build_items-Renumbered [] 0 now_us checked made (omega (arith, many)) good in
            subst (IsBuiltOf items) (ap (or_made made) eq) (
              Renumbered-SameBatch 0 items checked made same renumbered,
              omega (arith, many, Renumbered-length 0 checked made renumbered),
            )
      ]

  -- A group that is no offender has one plan, of its batch.
  abbrev OwnPlan : Group → Prepared → Type 0
  OwnPlan g p =
      (p.offenders ≢ [])
      ⊎ ((q : Plan) × (p.plans ≡ q ∷ []) × (q.scope ≡ g.0) × IsBuiltOf g.1 q.replacement)

  abbrev or_prepared : Prepared → Result Prepared → Prepared
  or_prepared p (err e) = p
  or_prepared p (ok q) = q

  plan_group-OwnPlan :
      (l : Ledger) (scope : Bytes) (items checked : List Item) (now_us : ℕ) (p : Prepared)
      → length items < 2 ^ 64
      → SameBatch items checked
      → plan_group l scope checked now_us ≡ ok p
      → OwnPlan (scope, items) p
  unfolding plan_group
  plan_group-OwnPlan l scope items checked now_us p small same made =
      elim (Bool-cases (slt l.default_max_items (length checked))) [
        | inl over ↦ inl (λ none_left. ground (arith, made, over, none_left))
        | inr within ↦ elim (Result-cases (build_replacement_state checked now_us)) [
          | inl (e, bad) ↦ absurd (ground (arith, made, within, bad))
          | inr (r, good) ↦
              let q : Plan = record {
                scope = scope;
                replacement = r;
                new_bytes = sum_item_bytes 0 r.items;
              } in
              let e : ok (record { plans = q ∷ []; offenders = [] }) ≡ ok p =
                sym (rw (within, good, plan_group) refl) ∙ made in
              inr (
                q,
                ap (λ o. (or_prepared p o).plans) (sym e),
                refl,
                build_replacement_state-IsBuiltOf items checked now_us r small same good,
              )
        ]
      ]

  prepare_group-OwnPlan :
      (l : Ledger) (scope : Bytes) (items : List Item) (now_us : ℕ) (p : Prepared)
      → length items < 2 ^ 64
      → prepare_group l (scope, items) now_us ≡ ok p
      → OwnPlan (scope, items) p
  unfolding prepare_group
  prepare_group-OwnPlan l scope items now_us p small made =
      elim (Option-cases (validate_scope scope)) [
        | inr (r, bad) ↦ absurd (ground (arith, made, bad))
        | inl good ↦ elim (Bool-cases (is_reserved_scope scope)) [
          | inl reserved ↦ absurd (ground (arith, made, good, reserved))
          | inr plain ↦ elim (Result-cases (check_items scope l.max_item_bytes items)) [
            | inl (e, bad) ↦ absurd (ground (arith, made, good, plain, bad))
            | inr (checked, fine) ↦
                plan_group-OwnPlan l scope items checked now_us p small
                  (check_items-SameBatch scope l.max_item_bytes items checked fine)
                  (sym (rw (good, plain, fine, prepare_group) refl) ∙ made)
          ]
        ]
      ]

  -- The sizes of a batch are ints.
  abbrev pub AllShort : List Group → Type 0
  AllShort [] = Unit
  AllShort (g ∷ gs) = (length g.1 < 2 ^ 63) × AllShort gs

  pub prepare_groups-PlansOf :
      (l : Ledger) (grouped : List Group) (clock : Clock) (p : Prepared)
      → AllShort grouped
      → prepare_groups l grouped clock ≡ ok p
      → p.offenders ≡ []
      → PlansOf grouped p.plans
  unfolding prepare_groups
  prepare_groups-PlansOf l [] clock p short made none_left =
      subst (PlansOf []) (ap (λ o. (or_prepared p o).plans) made) tt
  prepare_groups-PlansOf l ((scope, items) ∷ grouped) clock p short made none_left =
      elim (Result-cases (prepare_group l (scope, items) (clock 0))) [
        | inl (e, bad) ↦ absurd (ground (arith, made, bad))
        | inr (first, good) ↦ elim (Result-cases (prepare_groups l grouped (after 1 clock))) [
          | inl (e, bad) ↦ absurd (ground (arith, made, good, bad))
          | inr (rest, fine) ↦
              let both : prepared_after first (ok rest) ≡ ok p =
                sym (rw (good, fine, prepare_groups) refl) ∙ made in
              let offenders : first.offenders ++ rest.offenders ≡ [] =
                ap (λ o. (or_prepared p o).offenders) both ∙ none_left in
              let later =
                prepare_groups-PlansOf l grouped (after 1 clock) rest short.1 fine
                  (no_right first.offenders rest.offenders offenders) in
              elim (prepare_group-OwnPlan l scope items (clock 0) first (omega (arith, short.0))
                good) [
                  | inl some_left ↦
                      absurd (some_left (no_left first.offenders rest.offenders offenders))
                  | inr (q, one, own, built) ↦
                      subst (PlansOf ((scope, items) ∷ grouped))
                        (ap (λ ps. ps ++ rest.plans) (sym one)
                          ∙ ap (λ o. (or_prepared p o).plans) both)
                        (own, built, later)
                ]
        ]
      ]
