-- ===== src/Ledger/Laws.antt =====
-- What admission control promises: `reserveBytes` and `addClampedInt64` of store.go.
use inmem_cache.Base.{
  ℕ, ◌+◌, ◌-◌, ◌%◌, ◌^◌, ◌≤◌, ◌<◌, ◌≡◌, ◌⊎◌, true, false, arith, if◌then◌else◌, leb,
}
use inmem_cache.Base.Word.{add64}
use inmem_cache.Ledger.{Ledger, reserve_bytes, bump_last_write_ts, add_clamped_int64}

-- The cap is a non-negative int64 and the counter lies within it.
pub record IsWithinCap (l : Ledger) : Type 0 where
  pub cap_range : l.max_store_bytes < 2 ^ 63
  pub within : l.total_bytes ≤ l.max_store_bytes

-- Where the byte counter is within a cap that an int64 holds, a positive reservation is granted
-- exactly when the exact sum stays within the cap; it then adds the delta exactly and changes
-- nothing else, and a refusal changes nothing.
pub reserve_bytes_exact :
    (l : Ledger) (delta : ℕ)
    → IsWithinCap l
    → 0 < delta
    → delta < 2 ^ 63
    → ((reserve_bytes l delta).granted ≡ leb (l.total_bytes + delta) l.max_store_bytes)
      × ((reserve_bytes l delta).after ≡ (
          if leb (l.total_bytes + delta) l.max_store_bytes
          then record l { total_bytes = l.total_bytes + delta }
          else l))
unfolding reserve_bytes
reserve_bytes_exact l delta h pos fits = ground arith

pub reserve_bytes-IsWithinCap :
    (l : Ledger) (delta : ℕ)
    → IsWithinCap l
    → 0 < delta
    → delta < 2 ^ 63
    → IsWithinCap (reserve_bytes l delta).after
unfolding reserve_bytes
reserve_bytes-IsWithinCap l delta h pos fits = ground arith

-- A granted reservation moves the counter by the delta, modulo 2 ^ 64.
pub reserve_bytes_granted :
    (l : Ledger) (delta : ℕ)
    → (reserve_bytes l delta).granted ≡ true
    → (reserve_bytes l delta).after ≡ record l { total_bytes = add64 l.total_bytes delta }
unfolding reserve_bytes
reserve_bytes_granted l delta h = ground arith

pub reserve_bytes_refused :
    (l : Ledger) (delta : ℕ)
    → (reserve_bytes l delta).granted ≡ false
    → (reserve_bytes l delta).after ≡ l
unfolding reserve_bytes
reserve_bytes_refused l delta h = ground arith

-- A release of at most what is charged, where that is below 2 ^ 63, is always granted and
-- subtracts exactly.
pub reserve_bytes_release :
    (l : Ledger) (freed : ℕ)
    → l.total_bytes < 2 ^ 63
    → freed ≤ l.total_bytes
    → ((reserve_bytes l ((2 ^ 64 - freed) % 2 ^ 64)).granted ≡ true)
      × ((reserve_bytes l ((2 ^ 64 - freed) % 2 ^ 64)).after.total_bytes ≡ l.total_bytes - freed)
unfolding reserve_bytes
reserve_bytes_release l freed h le = ground arith

-- For stamps below 2 ^ 63 the freshness signal never goes back, and ends at the later of the
-- two stamps.
pub bump_last_write_ts_max :
    (l : Ledger) (now_us : ℕ)
    → l.last_write_ts < 2 ^ 63
    → now_us < 2 ^ 63
    → (l.last_write_ts ≤ (bump_last_write_ts l now_us).last_write_ts)
      × (now_us ≤ (bump_last_write_ts l now_us).last_write_ts)
      × (((bump_last_write_ts l now_us).last_write_ts ≡ now_us)
          ⊎ ((bump_last_write_ts l now_us).last_write_ts ≡ l.last_write_ts))
unfolding bump_last_write_ts
bump_last_write_ts_max l now_us h k = ground arith

-- For non-negative int64s `addClampedInt64` is the sum, saturated at the largest int64.
pub add_clamped_int64_nonneg :
    (a b : ℕ)
    → a < 2 ^ 63
    → b < 2 ^ 63
    → add_clamped_int64 a b ≡ (if leb (2 ^ 63) (a + b) then 2 ^ 63 - 1 else a + b)
unfolding add_clamped_int64
add_clamped_int64_nonneg a b ha hb = ground arith
