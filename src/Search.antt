-- ===== src/Search.antt =====
-- `sort.Search` of Go's library: the loop `for i < j { h := (i+j)/2; if !f(h) { i = h+1 } else
-- { j = h } }`. The gap j - i shrinks in each round, so n rounds are enough.
use inmem_cache.Base.{
  ℕ, zero, suc, ◌+◌, ◌-◌, ◌/◌, ◌≤◌, ◌<◌, ◌≡◌, Bool, true, false, ltb, leb, arith,
}

unfoldable pub search_loop : ℕ → (ℕ → Bool) → ℕ → ℕ → ℕ
search_loop zero f i j = i
search_loop (suc rounds) f i j = elim (ltb i j) [
  | false ↦ i
  | true ↦ elim (f ((i + j) / 2)) [
    | false ↦ search_loop rounds f ((i + j) / 2 + 1) j
    | true ↦ search_loop rounds f i ((i + j) / 2)
  ]
]

unfoldable pub sort_search : ℕ → (ℕ → Bool) → ℕ
unfolding search_loop
sort_search n f = search_loop n f 0 n

search_loop-eq :
    (rounds : ℕ) (f : ℕ → Bool) (c i j : ℕ)
    → ((k : ℕ) → k < j → f k ≡ leb c k)
    → i ≤ c
    → c ≤ j
    → j - i ≤ rounds
    → search_loop rounds f i j ≡ c
unfolding search_loop
search_loop-eq zero f c i j h lo hi r = omega arith
search_loop-eq (suc rounds) f c i j h lo hi r = ground (
  arith,
  h ((i + j) / 2),
  search_loop-eq rounds f c ((i + j) / 2 + 1) j h,
  search_loop-eq rounds f c i ((i + j) / 2) (λ k lt. h k (omega arith)),
)

-- On a test that fails below `c` and holds from `c` on, the search finds `c`.
pub sort_search-eq :
    (n : ℕ) (f : ℕ → Bool) (c : ℕ) → ((k : ℕ) → k < n → f k ≡ leb c k) → c ≤ n → sort_search n f ≡ c
unfolding sort_search
sort_search-eq n f c h hi = search_loop-eq n f c 0 n h (omega arith) hi (omega arith)
