-- ===== src/Base/Word.antt =====
-- Go's int64 and uint64: bit patterns below 2 ^ 64, with wrap-around addition. A signed comparison
-- shifts both sides by 2 ^ 63.
use Prim.Native.Nat.{ℕ, ◌+◌, ◌-◌, ◌%◌, ◌^◌, ◌<◌}
use mathlib.Core.Path.{◌≡◌}
use mathlib.Core.Bool.{Bool}
use native.Mathlib.Omega.{arith}
use inmem_cache.Base.Tests.{ltb}

abbrev pub word : ℕ → ℕ
word a = a % 2 ^ 64

abbrev pub add64 : ℕ → ℕ → ℕ
add64 a b = (a + b) % 2 ^ 64

abbrev pub sub64 : ℕ → ℕ → ℕ
sub64 a b = (a + (2 ^ 64 - b % 2 ^ 64)) % 2 ^ 64

-- `a < b` on int64.
abbrev pub slt : ℕ → ℕ → Bool
slt a b = ltb ((a + 2 ^ 63) % 2 ^ 64) ((b + 2 ^ 63) % 2 ^ 64)

pub add64-lt : (a b : ℕ) → add64 a b < 2 ^ 64
add64-lt a b = omega arith

pub sub64-add64 : (a b : ℕ) → a < 2 ^ 64 → sub64 (add64 a b) b ≡ a
sub64-add64 a b h = omega arith

pub slt-nonneg : (a b : ℕ) → a < 2 ^ 63 → b < 2 ^ 63 → slt a b ≡ ltb a b
slt-nonneg a b ha hb = ground arith
