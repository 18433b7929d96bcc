-- ===== src/Buffer/Counter/Race.antt =====
-- buffer_counter.go: atomicCounterAdd under concurrency. Callers of the fast path share a cell and take
-- their turns in any order; a turn is one access to the cell: a load, or a compare-and-swap with the
-- test before it.
pub mod Invariant
use inmem_cache.Base.{ℕ, ◌≡◌, ◌≢◌, Bool, true, false}
use inmem_cache.Base.Word.{add64, slt}
use inmem_cache.Types.{CounterCell}
use inmem_cache.Buffer.Counter.{out_of_counter_range}

-- Where a caller of atomicCounterAdd stands: `sum` is what it has swapped in, and `now_us` its reading
-- of the clock.
pub data Adder : Type 0 where
  calling : (by : ℕ) → Adder
  loaded : (by current : ℕ) → Adder
  overflowed : (by current : ℕ) → Adder
  stamping : (by sum now_us : ℕ) → Adder
  comparing : (by sum now_us current_ts : ℕ) → Adder
  added : (by sum now_us : ℕ) → Adder

-- One turn: the cell and the caller, before and after it.
pub data Move (cell : CounterCell) : Adder → CounterCell → Adder → Type 0 where
  load : {by : ℕ} → Move cell (calling by) cell (loaded by cell.value)
  overflow :
      {by current : ℕ}
      → out_of_counter_range (add64 current by) ≡ true
      → Move cell (loaded by current) cell (overflowed by current)
  swap :
      {by current : ℕ} (now_us : ℕ)
      → out_of_counter_range (add64 current by) ≡ false
      → cell.value ≡ current
      → Move cell
          (loaded by current)
          (record cell { value = add64 current by })
          (stamping by (add64 current by) now_us)
  retry :
      {by current : ℕ}
      → out_of_counter_range (add64 current by) ≡ false
      → cell.value ≢ current
      → Move cell (loaded by current) cell (calling by)
  load_ts :
      {by sum now_us : ℕ}
      → Move cell (stamping by sum now_us) cell (comparing by sum now_us cell.ts)
  is_later :
      {by sum now_us current_ts : ℕ}
      → slt current_ts now_us ≡ false
      → Move cell (comparing by sum now_us current_ts) cell (added by sum now_us)
  swap_ts :
      {by sum now_us current_ts : ℕ}
      → slt current_ts now_us ≡ true
      → cell.ts ≡ current_ts
      → Move cell
          (comparing by sum now_us current_ts)
          (record cell { ts = now_us })
          (added by sum now_us)
  retry_ts :
      {by sum now_us current_ts : ℕ}
      → slt current_ts now_us ≡ true
      → cell.ts ≢ current_ts
      → Move cell (comparing by sum now_us current_ts) cell (stamping by sum now_us)

-- What a caller has added to the cell.
abbrev pub share : Adder → ℕ
share (stamping by sum now_us) = by
share (comparing by sum now_us current_ts) = by
share (added by sum now_us) = by
share _ = 0
