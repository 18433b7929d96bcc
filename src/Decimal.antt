-- ===== src/Decimal.antt =====
-- strconv: AppendInt(nil, v, 10) and ParseInt(s, 10, 64), on the bit patterns of int64.
pub mod Range
pub mod RoundTrip
use inmem_cache.Base.{
  ℕ, zero, suc, ◌+◌, ◌-◌, ◌*◌, ◌/◌, ◌%◌, ◌^◌, Bool, true, false, ◌&&◌, Option, none, some, List, [],
  ◌∷◌, ◌==◌, ltb, leb, if◌then◌else◌,
}
use inmem_cache.Base.Word.{slt, sub64}
use inmem_cache.Base.Bytes.{Bytes}

-- The digits of `n` in front of `acc`; 20 rounds are enough below 10 ^ 20.
unfoldable pub append_digits : ℕ → ℕ → Bytes → Bytes
append_digits zero n acc = acc
append_digits (suc rounds) n acc =
    let rest = append_digits rounds (n / 10) ((48 + n % 10) ∷ acc) in
    if ltb n 10 then (48 + n) ∷ acc else rest

unfoldable pub append_int : ℕ → Bytes
unfolding append_digits
append_int v = if slt v 0 then b'-' ∷ append_digits 20 (sub64 0 v) [] else append_digits 20 v []

-- The value of a run of digits after `acc`; `none` at the first byte that is no digit.
unfoldable pub parse_digits : ℕ → Bytes → Option ℕ
parse_digits acc [] = some acc
parse_digits acc (c ∷ s) =
    let rest = parse_digits (acc * 10 + (c - 48)) s in if leb 48 c && leb c 57 then rest else none

-- ParseUint and the range test of ParseInt, after the sign: `limit` is the largest magnitude.
unfoldable pub parse_magnitude : ℕ → Bytes → Option ℕ
unfolding parse_digits
parse_magnitude limit [] = none
parse_magnitude limit (c ∷ s) = elim (parse_digits 0 (c ∷ s)) [
  | none ↦ none
  | some n ↦ if leb n limit then some n else none
]

abbrev negated : Option ℕ → Option ℕ
negated none = none
negated (some n) = some (sub64 0 n)

unfoldable pub parse_int : Bytes → Option ℕ
unfolding parse_magnitude
parse_int [] = none
parse_int (c ∷ s) =
    if c == b'-'
    then negated (parse_magnitude (2 ^ 63) s)
    else if c == b'+'
    then parse_magnitude (2 ^ 63 - 1) s
    else parse_magnitude (2 ^ 63 - 1) (c ∷ s)

-- strconv.ParseUint(s, 10, 64)
unfoldable pub parse_uint : Bytes → Option ℕ
unfolding parse_magnitude
parse_uint s = parse_magnitude (2 ^ 64 - 1) s
