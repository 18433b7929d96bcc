-- ===== src/Buffer/Step/Charge.antt =====
-- The reservation of the write paths, by its two outcomes.
use inmem_cache.Base.{ℕ, ◌+◌, ◌^◌, ◌≤◌, ◌<◌, ◌≡◌, ◌⊎◌, refl, true, false, arith, inl, inr}
use inmem_cache.Base.Word.{word}
use inmem_cache.Ledger.{Ledger, reserve_bytes}
use inmem_cache.Ledger.Laws.{IsWithinCap}
use inmem_cache.Errors.{Error, Result, ok, err}
use inmem_cache.Buffer.{ScopeBuffer, charge}

-- What a granted charge did.
pub record Charged (b : ScopeBuffer) (l : Ledger) (delta : ℕ) (l' : Ledger) : Type 0 where
  pub caps : l' ≡ record l { total_bytes = l'.total_bytes }
  pub bytes : b.attached ≡ true → word l'.total_bytes ≡ word (l.total_bytes + delta)
  pub orphan : b.attached ≡ false → l' ≡ l
  pub within :
      b.attached ≡ true
      → IsWithinCap l
      → delta < 2 ^ 63 ⊎ 2 ^ 64 ≤ delta + l.total_bytes
      → l'.total_bytes ≤ l.max_store_bytes

pub charge-Charged :
    (b : ScopeBuffer) (l l' : Ledger) (delta : ℕ)
    → delta < 2 ^ 64
    → charge b l delta ≡ ok l'
    → Charged b l delta l'
unfolding charge reserve_bytes
charge-Charged b l l' delta small h = record {
  caps = ground arith;
  bytes = λ a. ground arith;
  orphan = λ a. ground arith;
  within = λ a w d. ground arith;
}

-- A charge is refused with the store's error, or granted.
pub charge-cases :
    (b : ScopeBuffer) (l : Ledger) (delta : ℕ)
    → delta < 2 ^ 64
    → ((e : Error) × (charge b l delta ≡ err e))
      ⊎ ((l' : Ledger) × (charge b l delta ≡ ok l') × Charged b l delta l')
charge-cases b l delta small = go (charge b l delta) refl
  where
    go :
        (r : Result Ledger)
        → charge b l delta ≡ r
        → ((e : Error) × (charge b l delta ≡ err e))
          ⊎ ((l' : Ledger) × (charge b l delta ≡ ok l') × Charged b l delta l')
    go (err e) h = inl (e, h)
    go (ok l') h = inr (l', h, charge-Charged b l l' delta small h)
