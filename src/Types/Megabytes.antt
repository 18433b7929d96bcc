-- ===== src/Types/Megabytes.antt =====
-- types.go: MB.MarshalJSON, on the sizes that a float64 holds exactly (below 2 ^ 53 bytes). The
-- quotient by 2 ^ 20 is then exact too, and `%.4f` rounds it to the nearest ten thousandth, and to
-- the even one of two that are as near.
use inmem_cache.Base.{
  ℕ, zero, suc, ◌+◌, ◌*◌, ◌/◌, ◌%◌, ◌^◌, ◌≤◌, ◌<◌, ◌≡◌, ◌==◌, ◌&&◌, ◌||◌, [], ◌∷◌, ◌++◌, length,
  length-append, if◌then◌else◌, ltb, arith, nat_eq,
}
use inmem_cache.Base.Bytes.{Bytes}
use inmem_cache.Decimal.{append_digits}

-- The nearest number of ten thousandths of a MiB.
unfoldable pub ten_thousandths : ℕ → ℕ
ten_thousandths bytes =
    let down = bytes * 10000 / 2 ^ 20 in
    let rest = bytes * 10000 % 2 ^ 20 in
    if ltb (2 ^ 19) rest || ((rest == 2 ^ 19) && (down % 2 == 1)) then down + 1 else down

-- `fmt.Sprintf("%.4f", …)`
unfoldable pub mb_text : ℕ → Bytes
unfolding ten_thousandths append_digits
mb_text bytes =
    let t = ten_thousandths bytes in
    append_digits 20 (t / 10000) []
    ++ b'.' ∷ (48 + t / 1000 % 10) ∷ (48 + t / 100 % 10) ∷ (48 + t / 10 % 10) ∷ (48 + t % 10) ∷ []

-- The number of digits that so many rounds write.
unfoldable digits : ℕ → ℕ → ℕ
digits zero n = 0
digits (suc rounds) n = let rest = digits rounds (n / 10) in if ltb n 10 then 1 else suc rest

length-append_digits :
    (rounds n : ℕ) (acc : Bytes)
    → length (append_digits rounds n acc) ≡ digits rounds n + length acc
unfolding append_digits digits
length-append_digits zero n acc = omega arith
length-append_digits (suc rounds) n acc =
    ground (arith, length-append_digits rounds (n / 10) ((48 + n % 10) ∷ acc))

digits-le : (rounds n : ℕ) → digits rounds n ≤ rounds
unfolding digits
digits-le zero n = omega arith
digits-le (suc rounds) n = ground (arith, digits-le rounds (n / 10))

digits_mono : (rounds m n : ℕ) → m ≤ n → digits rounds m ≤ digits rounds n
unfolding digits
digits_mono zero m n le = omega arith
digits_mono (suc rounds) m n le = ground (arith, digits_mono rounds (m / 10) (n / 10) (omega arith))

digits-small : (rounds n : ℕ) → n < 10 → digits rounds n ≤ 1
unfolding digits
digits-small zero n small = omega arith
digits-small (suc rounds) n small = ground (arith, small)

digits-suc : (rounds n : ℕ) → digits rounds (n + 1) ≤ digits rounds n + 1
unfolding digits
digits-suc zero n = omega arith
digits-suc (suc rounds) n = ground (
  arith,
  digits_mono rounds ((n + 1) / 10) (n / 10 + 1) (omega arith),
  digits-suc rounds (n / 10),
  digits-small rounds ((n + 1) / 10),
)

ten_thousandths_mono : (m n : ℕ) → m ≤ n → ten_thousandths m ≤ ten_thousandths n
unfolding ten_thousandths
ten_thousandths_mono m n le = ground arith

ten_thousandths_slow : (m n : ℕ) → n ≤ m + 32 → ten_thousandths n ≤ ten_thousandths m + 1
unfolding ten_thousandths
ten_thousandths_slow m n le = ground arith

whole_mono : (m n : ℕ) → m ≤ n → ten_thousandths m / 10000 ≤ ten_thousandths n / 10000
whole_mono m n le = omega (arith, ten_thousandths_mono m n le)

whole_slow : (m n : ℕ) → n ≤ m + 32 → ten_thousandths n / 10000 ≤ ten_thousandths m / 10000 + 1
whole_slow m n le = omega (arith, ten_thousandths_slow m n le)

length-mb_text : (n : ℕ) → length (mb_text n) ≡ digits 20 (ten_thousandths n / 10000) + 5
unfolding mb_text
length-mb_text n =
    let t = ten_thousandths n in
    omega (
      arith,
      length-append (append_digits 20 (t / 10000) []) (
          b'.'
          ∷ (48 + t / 1000 % 10)
          ∷ (48 + t / 100 % 10)
          ∷ (48 + t / 10 % 10)
          ∷ (48 + t % 10)
          ∷ []),
      length-append_digits 20 (t / 10000) [],
    )

pub mb_text-le : (n : ℕ) → length (mb_text n) ≤ 25
mb_text-le n = omega (arith, length-mb_text n, digits-le 20 (ten_thousandths n / 10000))

-- A larger number has no shorter text.
pub mb_text_mono : (m n : ℕ) → m ≤ n → length (mb_text m) ≤ length (mb_text n)
mb_text_mono m n le = omega (
  arith,
  length-mb_text m,
  length-mb_text n,
  digits_mono 20 (ten_thousandths m / 10000) (ten_thousandths n / 10000) (whole_mono m n le),
)

-- The text of a number that is a few bytes larger is longer by one character at most.
pub mb_text_slow : (m n : ℕ) → n ≤ m + 32 → length (mb_text n) ≤ length (mb_text m) + 1
mb_text_slow m n le = omega (
  arith,
  length-mb_text m,
  length-mb_text n,
  digits_mono 20 (ten_thousandths n / 10000) (ten_thousandths m / 10000 + 1) (whole_slow m n le),
  digits-suc 20 (ten_thousandths m / 10000),
)
