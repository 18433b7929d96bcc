-- ===== src/Http/Params/Laws.antt =====
-- What a parsed query promises the handler.
use inmem_cache.Base.{
  ℕ, ◌≡◌, ◌⊎◌, ◌<◌, ◌≤◌, refl, inl, inr, true, false, none, some, [], ◌∷◌, arith, Option-cases,
}
use inmem_cache.Base.Bytes.{Bytes, bytes, is_empty}
use inmem_cache.Decimal.{parse_int, parse_uint}
use inmem_cache.Decimal.Range.{parse_int-lt}
use inmem_cache.Types.{max_limit}
use inmem_cache.Validate.{validate_scope, validate_id}
use inmem_cache.Validate.Params.{normalize_limit}
use inmem_cache.Http.{Request, query_get, parsed}
use inmem_cache.Http.Params.{
  LookupTarget, ScopeLimit, unless, if_number, parse_lookup_target, parse_scope_limit,
}

normalize_limit-bounds :
    (raw : Bytes) (n : ℕ) → normalize_limit raw ≡ some n → (0 < n) × (n ≤ max_limit)
unfolding normalize_limit
normalize_limit-bounds raw n h = elim (Option-cases (parse_int raw)) [
  | inl bad ↦ ground (arith, h, bad)
  | inr (m, good) ↦ ground (arith, h, good, parse_int-lt raw m good)
]

-- A query that is taken as a scope and a limit has a valid scope and a limit from 1 to the
-- largest one.
pub parse_scope_limit-bounds :
    (r : Request) (q : ScopeLimit)
    → parse_scope_limit r ≡ parsed q
    → (validate_scope q.scope ≡ none) × (0 < q.limit) × (q.limit ≤ max_limit)
unfolding parse_scope_limit unless if_number
parse_scope_limit-bounds r q h =
    elim (Option-cases (normalize_limit (query_get r (bytes "limit")))) [
      | inl bad ↦ ground (arith, h, bad)
      | inr (n, good) ↦
          let b = normalize_limit-bounds (query_get r (bytes "limit")) n good in
          ground (arith, h, good, b)
    ]

-- The one of id and seq that is given.
abbrev pub Addresses : Request → LookupTarget → Type 0
Addresses r q =
    ((q.by_id ≡ true)
      × (q.id ≡ query_get r (bytes "id"))
      × (is_empty q.id ≡ false)
      × (validate_id q.id ≡ none)
      × (query_get r (bytes "seq") ≡ []))
    ⊎ ((q.by_id ≡ false)
        × (q.id ≡ [])
        × (query_get r (bytes "id") ≡ [])
        × (parse_uint (query_get r (bytes "seq")) ≡ some q.seq))

empty : (s : Bytes) → is_empty s ≡ true → s ≡ []
empty [] h = refl
empty (c ∷ s) h = cc

-- A query that is taken as a lookup target has a valid scope, which is that of the target, and
-- gives exactly one of id and seq: the target has that id, which is valid, or the number that
-- the seq parses to.
pub parse_lookup_target-Addresses :
    (r : Request) (q : LookupTarget)
    → parse_lookup_target r ≡ parsed q
    → (q.scope ≡ query_get r (bytes "scope")) × (validate_scope q.scope ≡ none) × Addresses r q
unfolding parse_lookup_target unless if_number
parse_lookup_target-Addresses r q h =
    ground (arith, h, empty (query_get r (bytes "id")), empty (query_get r (bytes "seq")))
