-- ===== src/Decimal/Range.antt =====
-- What ParseInt returns is an int64.
use inmem_cache.Base.{ℕ, ◌^◌, ◌-◌, ◌≤◌, ◌<◌, ◌≡◌, some, [], ◌∷◌, arith}
use inmem_cache.Base.Bytes.{Bytes}
use inmem_cache.Decimal.{parse_int, parse_magnitude}

parse_magnitude-le : (limit : ℕ) (s : Bytes) (n : ℕ) → parse_magnitude limit s ≡ some n → n ≤ limit
unfolding parse_magnitude
parse_magnitude-le limit [] n h = ground (arith, h)
parse_magnitude-le limit (c ∷ s) n h = ground (arith, h)

pub parse_int-lt : (s : Bytes) (n : ℕ) → parse_int s ≡ some n → n < 2 ^ 64
unfolding parse_int
parse_int-lt [] n h = ground (arith, h)
parse_int-lt (c ∷ s) n h = ground (
  arith,
  h,
  parse_magnitude-le (2 ^ 63) s n,
  parse_magnitude-le (2 ^ 63 - 1) s n,
  parse_magnitude-le (2 ^ 63 - 1) (c ∷ s) n,
)
