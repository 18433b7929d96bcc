-- ===== src/Decimal/RoundTrip.antt =====
-- Parsing what was printed gives the number back.
use inmem_cache.Base.{
  ℕ, zero, suc, ◌+◌, ◌-◌, ◌/◌, ◌%◌, ◌^◌, ◌≤◌, ◌<◌, ◌≡◌, refl, some, [], ◌∷◌, ltb, arith, Bool-cases,
  inl, inr, ◌∙◌, ap,
}
use native.Mathlib.Nat.{pow-suc}
use inmem_cache.Base.Word.{slt, sub64}
use inmem_cache.Base.Bytes.{Bytes}
use inmem_cache.Decimal.{append_digits, append_int, parse_digits, parse_magnitude, parse_int}

-- Reading the printed digits of `n`, then the rest, is reading the rest after `n`.
parse_digits-append_digits :
    (rounds n : ℕ) (acc : Bytes)
    → n < 10 ^ rounds
    → parse_digits 0 (append_digits rounds n acc) ≡ parse_digits n acc
unfolding append_digits
parse_digits-append_digits zero n acc h = let none_left : n ≡ 0 = omega arith in rw none_left refl
parse_digits-append_digits (suc rounds) n acc h = elim (Bool-cases (ltb n 10)) [
  | inl small ↦ rw small (unfold parse_digits in ground arith)
  | inr large ↦ rw large (
      parse_digits-append_digits rounds (n / 10) ((48 + n % 10) ∷ acc)
        (omega (arith, pow-suc 10 rounds))
      ∙ unfold parse_digits in ground arith)
]

append_digits-cons :
    (rounds n : ℕ) (acc : Bytes)
    → 0 < rounds
    → (c : ℕ) × (s : Bytes) × (append_digits rounds n acc ≡ c ∷ s) × (48 ≤ c) × (c ≤ 57)
unfolding append_digits
append_digits-cons zero n acc h = absurd (omega arith)
append_digits-cons (suc zero) n acc h = elim (Bool-cases (ltb n 10)) [
  | inl small ↦ (48 + n, acc, rw small refl, omega arith, ground arith)
  | inr large ↦ (48 + n % 10, acc, rw large refl, omega arith, omega arith)
]
append_digits-cons (suc (suc rounds)) n acc h = elim (Bool-cases (ltb n 10)) [
  | inl small ↦ (48 + n, acc, rw small refl, omega arith, ground arith)
  | inr large ↦
      rw large (append_digits-cons (suc rounds) (n / 10) ((48 + n % 10) ∷ acc) (omega arith))
]

parse_magnitude-eq :
    (limit n c : ℕ) (s t : Bytes)
    → s ≡ c ∷ t
    → parse_digits 0 s ≡ some n
    → n ≤ limit
    → parse_magnitude limit s ≡ some n
unfolding parse_magnitude
parse_magnitude-eq limit n c [] t shape read le = cc
parse_magnitude-eq limit n c (d ∷ s) t shape read le = rw (read, parse_magnitude) (ground arith)

-- A magnitude within the limit is read back from its digits.
parse_magnitude-append_digits :
    (limit n : ℕ) → n < 10 ^ 20 → n ≤ limit → parse_magnitude limit (append_digits 20 n []) ≡ some n
parse_magnitude-append_digits limit n h le =
    let (c, s, shape, _, _) = append_digits-cons 20 n [] (omega arith) in
    parse_magnitude-eq limit n c (append_digits 20 n []) s shape
      (parse_digits-append_digits 20 n [] h ∙ unfold parse_digits in refl) le

-- Text that begins with a digit has no sign.
parse_int_unsigned :
    (c : ℕ) (s t : Bytes) → s ≡ c ∷ t → 48 ≤ c → parse_int s ≡ parse_magnitude (2 ^ 63 - 1) s
unfolding parse_int
parse_int_unsigned c [] t shape digit = cc
parse_int_unsigned c (d ∷ s) t shape digit = let same : d ≡ c = cc in ground arith

parse_int_negative :
    (n : ℕ) → 0 < n → n ≤ 2 ^ 63 → parse_int (b'-' ∷ append_digits 20 n []) ≡ some (2 ^ 64 - n)
unfolding parse_int
parse_int_negative n pos le =
    rw (parse_magnitude-append_digits (2 ^ 63) n (omega arith) le) (ground arith)

-- Every int64 that is printed in decimal parses back to itself.
pub parse_int-append_int : (v : ℕ) → v < 2 ^ 64 → parse_int (append_int v) ≡ some v
unfolding append_int
parse_int-append_int v h = elim (Bool-cases (slt v 0)) [
  | inl negative ↦
      let large : 2 ^ 63 ≤ v = ground arith in
      let back : 2 ^ 64 - sub64 0 v ≡ v = omega arith in
      rw negative (parse_int_negative (sub64 0 v) (omega arith) (omega arith) ∙ ap some back)
  | inr positive ↦
      let small : v < 2 ^ 63 = ground arith in
      let (c, s, shape, digit, _) = append_digits-cons 20 v [] (omega arith) in
      rw positive (
        parse_int_unsigned c (append_digits 20 v []) s shape digit
        ∙ parse_magnitude-append_digits (2 ^ 63 - 1) v (omega arith) (omega arith))
]
