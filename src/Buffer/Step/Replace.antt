-- ===== src/Buffer/Step/Replace.antt =====
-- The replace branch of /upsert and /update, and the three methods: every branch keeps the scope.
use inmem_cache.Base.{
  ℕ, ◌+◌, ◌^◌, ◌≤◌, ◌<◌, ◌≡◌, ◌⊎◌, refl, Option, some, length, arith, inl, inr, Bool-cases,
  get_elem?, length-set, nat_eq, ◌==◌, leb,
}
use inmem_cache.Base.Word.{word, sub64}
use inmem_cache.Base.Bytes.{Bytes, bytes_eq}
use inmem_cache.Types.{Item, approx_item_size, length_opt}
use inmem_cache.Ledger.{Ledger}
use inmem_cache.Errors.{Error, ok, err}
use inmem_cache.Buffer.{
  ScopeBuffer, bump_if_attached, reserve_payload_delta, payload_and_render_bytes, replaced,
}
use inmem_cache.Buffer.Write.{replace_existing}
use inmem_cache.Buffer.Items.Defs.{find_seq, IsSized, sum_sizes, count_below}
use inmem_cache.Buffer.Items.{index_by_seq-hit, get_elem?-count_below, size-le-sum, sum_sizes-set}
use inmem_cache.Buffer.Valid.{IsValid}
use inmem_cache.Buffer.Valid.Replace.{with_item, with_item-IsValid, with_item-IsIdCounted}
use inmem_cache.Buffer.Step.{Keeps, restamped, Keeps-same, Keeps-restamped, Keeps-bumped, Kept}
use inmem_cache.Buffer.Step.Charge.{Charged, charge-cases}

delta-Charged : (b : ScopeBuffer) (l : Ledger) → Charged b l 0 l
delta-Charged b l = record {
  caps = refl;
  bytes = λ a. omega arith;
  orphan = λ a. refl;
  within = λ a w d. w.within;
}

-- The delta of a replacement is refused with the store's error, or charged.
pub delta-cases :
    (b : ScopeBuffer) (l : Ledger) (old new : ℕ)
    → ((e : Error) × (reserve_payload_delta b l old new ≡ err e))
      ⊎ ((l' : Ledger) × (reserve_payload_delta b l old new ≡ ok (sub64 new old, l'))
          × Charged b l (sub64 new old) l')
delta-cases b l old new = elim (Bool-cases (sub64 new old == 0)) [
  | inl same ↦
      let zero_delta : sub64 new old ≡ 0 = ground arith in
      inr (l, unfold reserve_payload_delta in ground arith, rw zero_delta (delta-Charged b l))
  | inr differs ↦ elim (charge-cases b l (sub64 new old) (omega arith)) [
    | inl (e, refused) ↦ inl (e, unfold reserve_payload_delta in ground arith)
    | inr (l', granted, c) ↦ inr (l', unfold reserve_payload_delta in ground arith, c)
  ]
]

-- The difference of two costs is a growth, or a release of at most what is charged.
delta_direction :
    (old new total : ℕ)
    → new < 2 ^ 63
    → old ≤ total
    → total < 2 ^ 63
    → (sub64 new old < 2 ^ 63) ⊎ (2 ^ 64 ≤ sub64 new old + total)
delta_direction old new total small covered range = elim (Bool-cases (leb old new)) [
  | inl grows ↦ let le : old ≤ new = ground arith in inl (omega arith)
  | inr shrinks ↦ let lt : new < old = ground arith in inr (omega arith)
]

-- The commit of an item `y` over `x` at `i`, once the difference of their costs is charged.
pub with_item-Keeps :
    (b : ScopeBuffer) (l l' : Ledger) (i : ℕ) (x y : Item) (delta : ℕ)
    → IsValid b
    → get_elem? b.items i ≡ some x
    → y.seq ≡ x.seq
    → y.id ≡ x.id
    → delta ≡ sub64 (approx_item_size y) (approx_item_size x)
    → IsSized y
    → Charged b l delta l'
    → Keeps b l (with_item b i y delta) l'
with_item-Keeps b l l' i x y delta v at same_seq same_id cost sized c = record {
  valid = with_item-IsValid b i x y delta v at same_seq same_id sized cost;
  counted = with_item-IsIdCounted b i x y delta v at same_seq same_id sized cost;
  attached = refl;
  detached = refl;
  max_items = refl;
  last_seq = omega arith;
  steps = omega arith;
  caps = ground arith;
  bytes = λ a. ground arith;
  items = λ a. ground (arith, length-set b.items i y);
  within = λ a w s.
      let size : approx_item_size x ≤ sum_sizes b.items = size-le-sum b.items i x at in
      let small : approx_item_size y < 2 ^ 63 = unfold approx_item_size in omega arith in
      let direction : delta < 2 ^ 63 ⊎ 2 ^ 64 ≤ delta + l.total_bytes = rw cost (
        delta_direction (approx_item_size x) (approx_item_size y) l.total_bytes small (omega arith)
          (omega (arith, w.within, w.cap_range))) in
      ground (arith, c.within a w direction);
  grows = unfold approx_item_size in omega (arith, sum_sizes-set x y same_seq same_id b.items i at);
  orphan = λ a. ground arith;
}

module _ (b : ScopeBuffer) (l : Ledger) (existing : Item) (payload : Bytes) (render : Option Bytes)
    (now_us : ℕ) (v : IsValid b) (present : find_seq b.items existing.seq ≡ some existing)
    (sized : IsSized (replaced existing payload now_us render)) where
  abbrev replacement : Item
  replacement = replaced existing payload now_us render

  -- What `replace_existing` gives: the store's error with nothing changed, or the replacement.
  pub replace_existing-cases :
      ((e : Error) × (replace_existing b l existing payload render now_us ≡ (err e, b, l)))
      ⊎ ((l' : Ledger) × (replace_existing b l existing payload render now_us ≡ (
        ok (some replacement),
        restamped
            (with_item b
              (count_below existing.seq b.items)
              replacement
              (sub64 (approx_item_size replacement) (approx_item_size existing)))
            now_us
            b.cells,
        bump_if_attached b l' now_us,
      ))
          × Charged b l (sub64 (approx_item_size replacement) (approx_item_size existing)) l')
  unfolding replace_existing
  replace_existing-cases =
      let place = get_elem?-count_below 0 existing.seq b.items existing v.ascends present in
      let found = index_by_seq-hit 0 existing.seq b.items existing v.ascends present in
      let costs : sub64 (word (length payload + length_opt render))
            (payload_and_render_bytes existing)
          ≡ sub64 (approx_item_size replacement) (approx_item_size existing) =
        unfold approx_item_size payload_and_render_bytes in omega arith in
      elim (delta-cases b l (payload_and_render_bytes existing)
        (word (length payload + length_opt render))) [
          | inl (e, refused) ↦ inl (e, rw (refused, replace_existing))
          | inr (l', granted, c) ↦
              inr (l', rw (granted, found, place.0, costs, replace_existing) refl, rw (← costs) c)
        ]

  pub replace_existing-Keeps : Kept b l (replace_existing b l existing payload render now_us)
  replace_existing-Keeps = elim replace_existing-cases [
    | inl (e, same) ↦ rw same (Keeps-same b l v)
    | inr (l', done, c) ↦ rw done (
        Keeps-restamped b _ l (bump_if_attached b l' now_us) now_us b.cells (
          Keeps-bumped b _ l l' now_us (
            with_item-Keeps b l l' (count_below existing.seq b.items) existing replacement _ v
              (get_elem?-count_below 0 existing.seq b.items existing v.ascends present).0 refl refl
              refl sized c)))
  ]
