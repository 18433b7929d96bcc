-- ===== src/Validate/Space.antt =====
-- Go's strings.TrimSpace and bytes.TrimSpace on UTF-8: the white space of Unicode.
use inmem_cache.Base.{
  ℕ, suc, zero, Bool, ◌||◌, ◌&&◌, [], ◌∷◌, length, drop, ◌==◌, leb, if◌then◌else◌,
}
use inmem_cache.Base.Bytes.{Bytes}
use mathlib.Core.List.{reverse}

-- tab, newline, vertical tab, form feed, return, space
abbrev ascii_space : ℕ → Bool
ascii_space c = c == 32 || leb 9 c && leb c 13

-- U+0085 and U+00A0
abbrev two_byte_space : ℕ → ℕ → Bool
two_byte_space a b = a == 194 && (b == 133 || b == 160)

-- U+1680, U+2000 to U+200A, U+2028, U+2029, U+202F, U+205F, U+3000
abbrev three_byte_space : ℕ → ℕ → ℕ → Bool
three_byte_space a b c =
    (a == 225 && b == 154 && c == 128)
    || (a == 226 && b == 128 && (leb 128 c && leb c 138 || c == 168 || c == 169 || c == 175))
    || (a == 226 && b == 129 && c == 159)
    || (a == 227 && b == 128 && c == 128)

-- The bytes of the white-space rune that a text starts with, or 0.
unfoldable pub leading_space : Bytes → ℕ
leading_space [] = 0
leading_space (a ∷ []) = if ascii_space a then 1 else 0
leading_space (a ∷ b ∷ []) = if ascii_space a then 1 else if two_byte_space a b then 2 else 0
leading_space (a ∷ b ∷ c ∷ s) =
    if ascii_space a
    then 1
    else if two_byte_space a b
    then 2
    else if three_byte_space a b c
    then 3
    else 0

-- The same for the end of a text, given backwards.
unfoldable pub trailing_space : Bytes → ℕ
trailing_space [] = 0
trailing_space (a ∷ []) = if ascii_space a then 1 else 0
trailing_space (a ∷ b ∷ []) = if ascii_space a then 1 else if two_byte_space b a then 2 else 0
trailing_space (a ∷ b ∷ c ∷ s) =
    if ascii_space a
    then 1
    else if two_byte_space b a
    then 2
    else if three_byte_space c b a
    then 3
    else 0

-- Drops such runes; each has a byte, so the length of the text is fuel enough.
unfoldable pub trim_while : (Bytes → ℕ) → ℕ → Bytes → Bytes
trim_while space zero s = s
trim_while space (suc fuel) s =
    let rest = trim_while space fuel (drop (space s) s) in if space s == 0 then s else rest

unfoldable pub trim_space : Bytes → Bytes
unfolding trim_while leading_space trailing_space
trim_space s =
    let t = trim_while leading_space (length s) s in
    reverse (trim_while trailing_space (length t) (reverse t))
