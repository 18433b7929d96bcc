-- ===== src/Buffer/Spec/Replace.antt =====
-- What replaceAll of buffer_replace.go leaves in the scope.
use inmem_cache.Base.{
  ℕ, ◌+◌, ◌^◌, ◌<◌, ◌≡◌, refl, List, [], ◌∷◌, length, arith, if◌then◌else◌, inl, inr, Bool-cases,
}
use inmem_cache.Base.Bytes.{Bytes, is_empty}
use inmem_cache.Json.{Json}
use inmem_cache.Types.{Item}
use inmem_cache.Errors.{ok, err, Result-cases}
use inmem_cache.Buffer.Replace.{
  build_items, replace_all, build_replacement_state, commit_replacement, adopt,
}
use inmem_cache.Buffer.{ScopeBuffer, Outcome, item_cap_exceeded}
use inmem_cache.Ledger.{Ledger}

-- The batch again, item by item, with its ids and payloads and the seqs after `n`.
unfoldable pub Renumbered : ℕ → List Item → List Item → Type 0
Renumbered n [] [] = Unit
Renumbered n (x ∷ xs) (y ∷ ys) =
    (y.seq ≡ n + 1) × (y.id ≡ x.id) × (y.payload ≡ x.payload) × Renumbered (n + 1) xs ys
Renumbered n [] (y ∷ ys) = ⊥
Renumbered n (x ∷ xs) [] = ⊥

pub Renumbered-length :
    (n : ℕ) (items made : List Item) → Renumbered n items made → length made ≡ length items
unfolding Renumbered
Renumbered-length n [] [] r = refl
Renumbered-length n (x ∷ xs) (y ∷ ys) r = omega (arith, Renumbered-length (n + 1) xs ys r.3)
Renumbered-length n [] (y ∷ ys) r = absurd r
Renumbered-length n (x ∷ xs) [] r = absurd r

-- A refused batch changes nothing; one that is taken is all that the scope has.
unfoldable pub IsReplaced : ScopeBuffer → Ledger → List Item → Outcome (List Item) → Type 0
unfolding Renumbered
IsReplaced b l items (err e, b', l') = (b' ≡ b) × (l' ≡ l)
IsReplaced b l items (ok made, b', l') =
    Renumbered 0 items made × (b'.items ≡ made) × (b'.last_seq ≡ length items)

module _ ⦃json : Json⦄ where
  pub build_items-Renumbered :
      (seen : List Bytes) (n now_us : ℕ) (items made : List Item)
      → n + length items < 2 ^ 64
      → build_items seen n now_us items ≡ ok made
      → Renumbered n items made
  unfolding build_items Renumbered
  build_items-Renumbered seen n now_us [] [] h built = ground arith
  build_items-Renumbered seen n now_us [] (y ∷ ys) h built = ground arith
  build_items-Renumbered seen n now_us (x ∷ xs) [] h built = ground arith
  build_items-Renumbered seen n now_us (x ∷ xs) (y ∷ ys) h built =
      let kept =
        build_items-Renumbered (if is_empty x.id then seen else x.id ∷ seen) (n + 1) now_us xs ys
          (omega arith) in
      ground (arith, kept)

  -- For a batch of fewer than 2 ^ 64 items: a replacement that is refused leaves the scope and
  -- the store's counters as they were; one that is taken leaves exactly the items of the batch,
  -- in order, with their ids and payloads and the seqs from 1 on, and the last seq of the scope
  -- is their number, whatever it was before.
  pub replace_all_exact :
      (b : ScopeBuffer) (l : Ledger) (items : List Item) (built_us now_us : ℕ)
      → length items < 2 ^ 64
      → IsReplaced b l items (replace_all b l items built_us now_us)
  unfolding replace_all build_replacement_state commit_replacement adopt IsReplaced
  replace_all_exact b l items built_us now_us h =
      elim (Bool-cases (item_cap_exceeded b (length items))) [
        | inl full ↦ rw (full) (refl, refl)
        | inr full ↦ elim (Result-cases (build_items [] 0 built_us items)) [
          | inl (e, bad) ↦ rw (full, bad) (refl, refl)
          | inr (made, good) ↦
              let renumbered = build_items-Renumbered [] 0 built_us items made (omega arith) good in
              rw (full, good)
                (renumbered, refl, omega (arith, Renumbered-length 0 items made renumbered))
        ]
      ]
