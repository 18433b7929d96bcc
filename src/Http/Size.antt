-- ===== src/Http/Size.antt =====
-- marshalWithApproxSize: the size that a body tells of itself.
use inmem_cache.Base.{
  ℕ, suc, ◌+◌, ◌-◌, ◌^◌, ◌<◌, ◌≡◌, ◌∙◌, true, false, some, [], ◌∷◌, ◌++◌, length, length-append,
  length-take, take, arith, ap, Bool-cases, inl, inr, ◌==◌, nat_eq,
}
use inmem_cache.Base.Bytes.{Bytes, bytes}
use inmem_cache.Types.Megabytes.{mb_text, mb_text-le, mb_text_mono, mb_text_slow}
use inmem_cache.Http.{Encoder, Fields, Value}
use inmem_cache.Http.Respond.{approx_key, approx_value, duration, marshal, marshal_with_approx_size}

-- The length of a response of which the body is `size` long and the number that of `n`.
abbrev told : ℕ → ℕ → ℕ
told size n = size - 1 + length approx_key + length (mb_text n) + 1

-- Where the first guess is not it and neither is the second, the third one is.
third_round :
    (size : ℕ)
    → (told size (size + length approx_key + 8) == size + length approx_key + 8) ≡ false
    → (told size (told size (size + length approx_key + 8))
        == told size (size + length approx_key + 8))
      ≡ false
    → told size (told size (told size (size + length approx_key + 8)))
      ≡ told size (told size (size + length approx_key + 8))
third_round size e d =
    let n = size + length approx_key + 8 in
    let m = told size n in
    let k = told size m in
    ground (
      arith,
      e,
      d,
      mb_text-le n,
      mb_text-le m,
      mb_text-le k,
      mb_text_mono n m,
      mb_text_mono m n,
      mb_text_mono m k,
      mb_text_mono k m,
      mb_text_mono n k,
      mb_text_mono k n,
      mb_text_slow n k,
      mb_text_slow k n,
    )

module _ ⦃enc : Encoder⦄
    (written : (n : ℕ) → n < 2 ^ 53 → enc.value (Value.mb n) ≡ some (mb_text n)) where
  approx_value-settled :
      (rounds size n : ℕ) (value : Bytes)
      → n < 2 ^ 53
      → (told size n == n) ≡ true
      → approx_value (suc rounds) size n value ≡ mb_text n
  unfolding approx_value
  approx_value-settled rounds size n value small same = ground (arith, written n small, same)

  approx_value-again :
      (rounds size n : ℕ) (value : Bytes)
      → n < 2 ^ 53
      → (told size n == n) ≡ false
      → approx_value (suc rounds) size n value ≡ approx_value rounds size (told size n) (mb_text n)
  unfolding approx_value
  approx_value-again rounds size n value small other = ground (arith, written n small, other)

  approx_value_exact :
      (size : ℕ)
      → size < 2 ^ 52
      → (n : ℕ) × (approx_value 3 size (size + length approx_key + 8) [] ≡ mb_text n)
        × (told size n ≡ n)
  approx_value_exact size small =
      let n = size + length approx_key + 8 in
      let m = told size n in
      let k = told size m in
      let n_fits : n < 2 ^ 53 = omega (arith, small) in
      let m_fits : m < 2 ^ 53 = omega (arith, small, mb_text-le n) in
      let k_fits : k < 2 ^ 53 = omega (arith, small, mb_text-le m) in
      elim (Bool-cases (told size n == n)) [
        | inl same ↦ (n, approx_value-settled 2 size n [] n_fits same, ground (arith, same))
        | inr other ↦ elim (Bool-cases (told size m == m)) [
          | inl same ↦ (
            m,
            approx_value-again 2 size n [] n_fits other
                ∙ approx_value-settled 1 size m (mb_text n) m_fits same,
            ground (arith, same),
          )
          | inr again ↦
              let settled = third_round size other again in
              (
                k,
                approx_value-again 2 size n [] n_fits other
                    ∙ approx_value-again 1 size m (mb_text n) m_fits again
                    ∙ approx_value-settled 0 size k (mb_text m) k_fits (ground (arith, settled)),
                settled,
              )
        ]
      ]

  abbrev spliced : Bytes → ℕ → Bytes
  spliced body n = take (length body - 1) body ++ approx_key ++ mb_text n ++ bytes "}\n"

  length-spliced :
      (body : Bytes) (n : ℕ)
      → length (take (length body - 1) body ++ approx_key ++ mb_text n ++ bytes "}\n")
        ≡ told (length body) n + 1
  length-spliced body n =
      let kept = take (length body - 1) body in
      omega (
        arith,
        length-append (kept ++ approx_key ++ mb_text n) (bytes "}\n"),
        length-append (kept ++ approx_key) (mb_text n),
        length-append kept approx_key,
        length-take (length body - 1) body,
      )

  -- Where the encoder writes a number of megabytes as MB.MarshalJSON does, and the body is
  -- shorter than 2 ^ 52, the three rounds are enough: the size that the response tells of
  -- itself is its own length, without the newline at its end, and what comes before is the
  -- marshalled body without its closing brace.
  pub marshal_with_approx_size_exact :
      (payload : Fields) (us : ℕ) (body : Bytes)
      → marshal (payload ++ duration us ∷ []) ≡ some body
      → length body < 2 ^ 52
      → (out : Bytes) × (marshal_with_approx_size payload us ≡ some out)
        × (out
            ≡ take (length body - 1) body ++ approx_key ++ mb_text (length out - 1) ++ bytes "}\n")
  unfolding marshal_with_approx_size
  marshal_with_approx_size_exact payload us body made small =
      let (n, text, settled) = approx_value_exact (length body) small in
      (
        spliced body n,
        rw made
            (ap (λ v. some (take (length body - 1) body ++ approx_key ++ v ++ bytes "}\n")) text),
        ap (spliced body) (omega (arith, length-spliced body n, settled)),
      )
