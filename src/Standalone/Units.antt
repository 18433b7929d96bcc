-- ===== src/Standalone/Units.antt =====
-- cmd/scopecache/main.go: the size that a variable of the environment sets, by numbers that do not
-- wrap.
use inmem_cache.Base.{
  ℕ, ◌*◌, ◌^◌, ◌≤◌, ◌<◌, ◌≡◌, refl, ◌∙◌, ap, ◌&&◌, Option, none, some, [], ◌∷◌, ltb, leb,
  if◌then◌else◌, arith,
}
use inmem_cache.Base.Bytes.{Bytes, is_empty}
use inmem_cache.Decimal.{parse_int}
use inmem_cache.Decimal.Range.{parse_int-lt}
use inmem_cache.Types.{or_default}
use inmem_cache.Standalone.{
  positive, or_else, in_bytes, in_seconds, max_env_config_mb, max_env_config_kb, second,
}

-- A variable that counts units: a positive decimal number whose size in units fits an int64, and a
-- default for everything else.
abbrev pub sized : (unit fallback : ℕ) → Option ℕ → ℕ
sized unit fallback none = fallback
sized unit fallback (some n) = if ltb 0 n && ltb (n * unit) (2 ^ 63) then n * unit else fallback

module _ (unit limit fallback : ℕ) where
  positive-in_bytes :
      ((n : ℕ) → 0 < n → n < 2 ^ 63 → leb n limit ≡ ltb (n * unit) (2 ^ 63))
      → limit < 2 ^ 63
      → ((n : ℕ) → n ≤ n * unit)
      → (r : Option ℕ) → ((n : ℕ) → r ≡ some n → n < 2 ^ 64)
      → in_bytes unit limit fallback (positive r) ≡ sized unit fallback r
  positive-in_bytes fits limit_fits grows none small = refl
  positive-in_bytes fits limit_fits grows (some n) small =
      let bound = small n refl in let f = fits n in let g = grows n in ground (arith, bound, f, g)

  sized-exact :
      ((n : ℕ) → 0 < n → n < 2 ^ 63 → leb n limit ≡ ltb (n * unit) (2 ^ 63))
      → limit < 2 ^ 63
      → ((n : ℕ) → n ≤ n * unit)
      → (raw : Bytes)
      → (if is_empty raw then fallback else in_bytes unit limit fallback (positive (parse_int raw)))
        ≡ sized unit fallback (parse_int raw)
  unfolding parse_int
  sized-exact fits limit_fits grows [] = refl
  sized-exact fits limit_fits grows (c ∷ s) =
      positive-in_bytes fits limit_fits grows (parse_int (c ∷ s)) (parse_int-lt (c ∷ s))

positive-or_else :
    (fallback : ℕ) (r : Option ℕ)
    → ((n : ℕ) → r ≡ some n → n < 2 ^ 64)
    → or_else fallback (positive r) ≡ sized 1 fallback r
positive-or_else fallback none small = refl
positive-or_else fallback (some n) small = let bound = small n refl in ground (arith, bound)

count-exact :
    (fallback : ℕ) (raw : Bytes)
    → (if is_empty raw then fallback else or_else fallback (positive (parse_int raw)))
      ≡ sized 1 fallback (parse_int raw)
unfolding parse_int
count-exact fallback [] = refl
count-exact fallback (c ∷ s) = positive-or_else fallback (parse_int (c ∷ s)) (parse_int-lt (c ∷ s))

in_seconds-exact :
    (r : Option ℕ) → ((n : ℕ) → r ≡ some n → n < 2 ^ 64) → in_seconds r ≡ sized second 0 r
in_seconds-exact none small = refl
in_seconds-exact (some n) small = let bound = small n refl in ground (arith, bound)

pub seconds :
    (raw : Bytes)
    → (if is_empty raw then 0 else in_seconds (parse_int raw)) ≡ sized second 0 (parse_int raw)
unfolding parse_int
seconds [] = refl
seconds (c ∷ s) = in_seconds-exact (parse_int (c ∷ s)) (parse_int-lt (c ∷ s))

pub sized-lt :
    (unit fallback : ℕ) (r : Option ℕ) → fallback < 2 ^ 63 → sized unit fallback r < 2 ^ 63
sized-lt unit fallback none h = h
sized-lt unit fallback (some n) h = ground (arith, h)

or_default-sized :
    (unit d : ℕ)
    → ((n : ℕ) → n ≤ n * unit)
    → (r : Option ℕ) → or_default (sized unit 0 r) d ≡ sized unit d r
or_default-sized unit d grows none = ground arith
or_default-sized unit d grows (some n) = let g = grows n in ground (arith, g)

or_default-pos : (v d : ℕ) → 0 < v → v < 2 ^ 63 → or_default v d ≡ v
or_default-pos v d pos fits = ground arith

sized-ge :
    (unit fallback : ℕ)
    → ((n : ℕ) → 0 < n → unit ≤ n * unit)
    → unit ≤ fallback
    → (r : Option ℕ) → unit ≤ sized unit fallback r
sized-ge unit fallback grows le none = le
sized-ge unit fallback grows le (some n) = let g = grows n in ground (arith, g, le)

pub or_default-count :
    (d : ℕ) (raw : Bytes)
    → 0 < d
    → d < 2 ^ 63
    → or_default (if is_empty raw then d else or_else d (positive (parse_int raw))) d
      ≡ sized 1 d (parse_int raw)
or_default-count d raw pos fits =
    ap (λ v. or_default v d) (count-exact d raw)
    ∙ or_default-pos _ d (sized-ge 1 d (λ n h. omega arith) pos (parse_int raw))
        (sized-lt 1 d (parse_int raw) fits)

mebibytes :
    (d : ℕ) (raw : Bytes)
    → (if is_empty raw then d else in_bytes (2 ^ 20) max_env_config_mb d (positive (parse_int raw)))
      ≡ sized (2 ^ 20) d (parse_int raw)
mebibytes d =
    sized-exact (2 ^ 20) max_env_config_mb d (λ n h k. ground arith) (omega arith)
      (λ n. omega arith)

pub mebibytes-ge : (d : ℕ) (r : Option ℕ) → 2 ^ 20 ≤ d → 2 ^ 20 ≤ sized (2 ^ 20) d r
mebibytes-ge d r le = sized-ge (2 ^ 20) d (λ n h. omega arith) le r

-- A variable of the inbox: 0 stands for the default.
pub inbox_count :
    (d : ℕ) (raw : Bytes)
    → or_default (if is_empty raw then 0 else or_else 0 (positive (parse_int raw))) d
      ≡ sized 1 d (parse_int raw)
inbox_count d raw =
    ap (λ v. or_default v d) (count-exact 0 raw)
    ∙ or_default-sized 1 d (λ n. omega arith) (parse_int raw)

pub inbox_kibibytes :
    (d : ℕ) (raw : Bytes)
    → or_default
        (if is_empty raw
          then 0
          else in_bytes (2 ^ 10) max_env_config_kb 0 (positive (parse_int raw)))
        d
      ≡ sized (2 ^ 10) d (parse_int raw)
inbox_kibibytes d raw =
    ap (λ v. or_default v d)
      (sized-exact (2 ^ 10) max_env_config_kb 0 (λ n h k. ground arith) (omega arith)
        (λ n. omega arith) raw)
    ∙ or_default-sized (2 ^ 10) d (λ n. omega arith) (parse_int raw)

pub mebibytes_or_default :
    (d : ℕ) (raw : Bytes)
    → 2 ^ 20 ≤ d
    → d < 2 ^ 63
    → or_default
        (if is_empty raw
          then d
          else in_bytes (2 ^ 20) max_env_config_mb d (positive (parse_int raw)))
        d
      ≡ sized (2 ^ 20) d (parse_int raw)
mebibytes_or_default d raw ge fits =
    let least = mebibytes-ge d (parse_int raw) ge in
    ap (λ v. or_default v d) (mebibytes d raw)
    ∙ or_default-pos _ d (omega (arith, least)) (sized-lt (2 ^ 20) d (parse_int raw) fits)
