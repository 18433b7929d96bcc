-- ===== src/Ledger/Race.antt =====
-- store.go: reserveBytes under concurrency. Callers take their turns in any order; a turn is one
-- access to the shared counter: the load, the compare-and-swap with the test before it, or the
-- subtraction of a release. A caller that was granted bytes may give them back, once.
pub mod Invariant
pub mod Solo
use inmem_cache.Base.{ℕ, ◌≡◌, ◌≢◌, Bool, true, false}
use inmem_cache.Base.Word.{add64, sub64, slt}

-- Where a caller of reserveBytes stands; `delta` is what it asks for.
pub data Caller : Type 0 where
  asking : (delta : ℕ) → Caller
  loaded : (delta current : ℕ) → Caller
  granted : (delta : ℕ) → Caller
  refused : (delta current : ℕ) → Caller
  released : (delta : ℕ) → Caller

-- `delta > s.maxStoreBytes-current`
unfoldable pub is_over : ℕ → ℕ → ℕ → Bool
is_over cap delta current = slt (sub64 cap current) delta

-- One turn: the counter and the caller, before and after it.
pub data Move (cap total : ℕ) : Caller → ℕ → Caller → Type 0 where
  load : {delta : ℕ} → Move cap total (asking delta) total (loaded delta total)
  reject :
      {delta current : ℕ}
      → is_over cap delta current ≡ true
      → Move cap total (loaded delta current) total (refused delta current)
  swap :
      {delta current : ℕ}
      → is_over cap delta current ≡ false
      → total ≡ current
      → Move cap total (loaded delta current) (add64 current delta) (granted delta)
  retry :
      {delta current : ℕ}
      → is_over cap delta current ≡ false
      → total ≢ current
      → Move cap total (loaded delta current) total (asking delta)
  give_back : {delta : ℕ} → Move cap total (granted delta) (sub64 total delta) (released delta)

-- The bytes that a caller holds.
abbrev pub hold : Caller → ℕ
hold (granted delta) = delta
hold _ = 0
