-- ===== src/Store/Bulk/Prepare.antt =====
-- bulk.go: Phase 1 of replaceScopes, which rebuildAll repeats: every group is checked and its
-- replacement built before any lock is taken.
pub mod Planned
pub mod Batch
use inmem_cache.Base.{ℕ, none, some, List, [], ◌∷◌, ◌++◌, length, if◌then◌else◌}
use inmem_cache.Base.Bytes.{Bytes, bytes_beq}
use inmem_cache.Base.Word.{slt}
use inmem_cache.Json.{Json}
use inmem_cache.Types.{Item, ScopeCapacityOffender}
use inmem_cache.Errors.{Reason, Result, ok, err, invalid_input}
use inmem_cache.Ledger.{Ledger}
use inmem_cache.Buffer.Replace.{ScopeReplacement, build_replacement_state, sum_item_bytes}
use inmem_cache.Validate.{validate_scope, is_reserved_scope, validate_write_item}
use inmem_cache.Store.{Clock, after}

-- An entry of `grouped`.
abbrev pub Group : Type 0
Group = Bytes × List Item

-- `plan`, without the snapshot that Phase 1.5 adds.
pub record Plan : Type 0 where
  pub scope : Bytes
  pub replacement : ScopeReplacement
  pub new_bytes : ℕ

-- What Phase 1 leaves: the plans and the offenders.
pub record Prepared : Type 0 where
  pub plans : List Plan
  pub offenders : List ScopeCapacityOffender

module _ ⦃json : Json⦄ where
  abbrev pub after_item : Item → Result (List Item) → Result (List Item)
  after_item x (err e) = err e
  after_item x (ok xs) = ok (x ∷ xs)

  -- The loop over the items of a group.
  unfoldable pub check_items : Bytes → ℕ → List Item → Result (List Item)
  unfolding validate_write_item
  check_items scope max_item_bytes [] = ok []
  check_items scope max_item_bytes (x ∷ xs) =
      let rest = check_items scope max_item_bytes xs in
      elim (validate_write_item x max_item_bytes) [
        | err e ↦ err e
        | ok y ↦
            if bytes_beq x.scope scope
            then after_item y rest
            else err (invalid_input (Reason.scope_mismatch x.scope))
      ]

  abbrev pub prepared_after : Prepared → Result Prepared → Result Prepared
  prepared_after p (err e) = err e
  prepared_after p (ok q) =
      ok (record { plans = p.plans ++ q.plans; offenders = p.offenders ++ q.offenders })

  -- The body of the loop once the items are checked.
  unfoldable pub plan_group : Ledger → Bytes → List Item → ℕ → Result Prepared
  unfolding build_replacement_state sum_item_bytes
  plan_group l scope items now_us =
      if slt l.default_max_items (length items)
      then ok (record {
        plans = [];
        offenders = record { scope = scope; count = length items; cap = l.default_max_items } ∷ [];
      })
      else elim (build_replacement_state items now_us) [
        | err e ↦ err e
        | ok r ↦ ok (record {
          plans =
              record { scope = scope; replacement = r; new_bytes = sum_item_bytes 0 r.items } ∷ [];
          offenders = [];
        })
      ]

  unfoldable pub prepare_group : Ledger → Group → ℕ → Result Prepared
  unfolding validate_scope is_reserved_scope check_items plan_group
  prepare_group l (scope, items) now_us = elim (validate_scope scope) [
    | some r ↦ err (invalid_input r)
    | none ↦
        if is_reserved_scope scope
        then err (invalid_input (Reason.reserved scope))
        else elim (check_items scope l.max_item_bytes items) [
          | err e ↦ err e
          | ok checked ↦ plan_group l scope checked now_us
        ]
  ]

  -- The loop; the first error in the order of the groups is returned.
  unfoldable pub prepare_groups : Ledger → List Group → Clock → Result Prepared
  unfolding prepare_group
  prepare_groups l [] clock = ok (record { plans = []; offenders = [] })
  prepare_groups l (g ∷ gs) clock =
      let rest = prepare_groups l gs (after 1 clock) in
      elim (prepare_group l g (clock 0)) [ err e ↦ err e | ok p ↦ prepared_after p rest ]
