-- ===== src/Buffer/Counter/Race/Invariant.antt =====
-- Whatever the order of the turns, no increment is lost, and the value stays in range.
use inmem_cache.Base.{ℕ, ◌+◌, ◌^◌, ◌<◌, ◌≡◌, refl, true, false, arith}
use inmem_cache.Base.Word.{word, add64, slt}
use inmem_cache.Base.Interleave.{
  Race, Step, turn, Reach, here, next, sum_by, AllOf, sum_by-set, AllOf-set, AllOf-get_elem?,
  AllOf-map,
}
use inmem_cache.Types.{CounterCell}
use inmem_cache.Buffer.Counter.{out_of_counter_range}
use inmem_cache.Buffer.Counter.Race.{
  Adder, calling, loaded, overflowed, stamping, comparing, added, Move, load, overflow, swap, retry,
  load_ts, is_later, swap_ts, retry_ts, share,
}

-- What a caller knows of a cell whose stamp is `ts`: what it has swapped in was in range, what it has
-- loaded of the stamp has only grown, and once it is done the stamp is not before its own.
abbrev pub Knows : ℕ → Adder → Type 0
Knows ts (calling by) = Unit
Knows ts (loaded by current) = Unit
Knows ts (overflowed by current) = out_of_counter_range (add64 current by) ≡ true
Knows ts (stamping by sum now_us) = out_of_counter_range sum ≡ false
Knows ts (comparing by sum now_us current_ts) =
    (out_of_counter_range sum ≡ false) × (slt ts current_ts ≡ false)
Knows ts (added by sum now_us) = (out_of_counter_range sum ≡ false) × (slt ts now_us ≡ false)

-- The value is in range, and what it was and what the callers have added, modulo 2 ^ 64.
pub record IsCounted (base : ℕ) (r : Race CounterCell Adder) : Type 0 where
  pub in_range : out_of_counter_range r.shared.value ≡ false
  pub is_word : r.shared.value < 2 ^ 64
  pub summed : r.shared.value ≡ word (base + sum_by share r.callers)
  pub knowing : AllOf (Knows r.shared.ts) r.callers

Move-value :
    {cell t : CounterCell} {p q : Adder}
    → Move cell p t q
    → cell.value < 2 ^ 64
    → out_of_counter_range cell.value ≡ false
    → (word (t.value + share p) ≡ word (cell.value + share q))
      × (t.value < 2 ^ 64)
      × (out_of_counter_range t.value ≡ false)
Move-value load word_fits range = (refl, word_fits, range)
Move-value (overflow over) word_fits range = (refl, word_fits, range)
Move-value (swap now_us fine same) word_fits range = (omega arith, omega arith, fine)
Move-value (retry fine differs) word_fits range = (refl, word_fits, range)
Move-value load_ts word_fits range = (refl, word_fits, range)
Move-value (is_later later) word_fits range = (refl, word_fits, range)
Move-value (swap_ts before same) word_fits range = (refl, word_fits, range)
Move-value (retry_ts before differs) word_fits range = (refl, word_fits, range)

-- A stamp never goes back.
Move-ts : {cell t : CounterCell} {p q : Adder} → Move cell p t q → slt t.ts cell.ts ≡ false
Move-ts load = ground arith
Move-ts (overflow over) = ground arith
Move-ts (swap now_us fine same) = ground arith
Move-ts (retry fine differs) = ground arith
Move-ts load_ts = ground arith
Move-ts (is_later later) = ground arith
Move-ts (swap_ts before same) = ground arith
Move-ts (retry_ts before differs) = ground arith

slt_trans : (a b c : ℕ) → slt b a ≡ false → slt c b ≡ false → slt c a ≡ false
slt_trans a b c h k = ground arith

Knows-later : (ts later : ℕ) → slt later ts ≡ false → (c : Adder) → Knows ts c → Knows later c
Knows-later ts later h (calling by) k = tt
Knows-later ts later h (loaded by current) k = tt
Knows-later ts later h (overflowed by current) k = k
Knows-later ts later h (stamping by sum now_us) k = k
Knows-later ts later h (comparing by sum now_us current_ts) k =
    (k.0, slt_trans current_ts ts later k.1 h)
Knows-later ts later h (added by sum now_us) k = (k.0, slt_trans now_us ts later k.1 h)

Move-Knows : {cell t : CounterCell} {p q : Adder} → Move cell p t q → Knows cell.ts p → Knows t.ts q
Move-Knows load k = tt
Move-Knows (overflow over) k = over
Move-Knows (swap now_us fine same) k = fine
Move-Knows (retry fine differs) k = tt
Move-Knows load_ts k = (k, ground arith)
Move-Knows (is_later later) k = (k.0, ground (arith, later, k.1))
Move-Knows (swap_ts before same) k = (k.0, ground arith)
Move-Knows (retry_ts before differs) k = k.0

Step-IsCounted :
    {base : ℕ} {r u : Race CounterCell Adder} → Step Move r u → IsCounted base r → IsCounted base u
Step-IsCounted {base} {r} (turn i {p} {q} {t} at move) k =
    let (moved, fits, range) = Move-value move k.is_word k.in_range in
    let held = sum_by-set share r.callers i p q at in
    record {
      in_range = range;
      is_word = fits;
      summed = omega (arith, moved, held, k.summed, fits);
      knowing =
          AllOf-set (Knows t.ts) r.callers i q
            (AllOf-map (Knows r.shared.ts) (Knows-later r.shared.ts t.ts (Move-ts move)) r.callers
              k.knowing)
            (Move-Knows move (AllOf-get_elem? (Knows r.shared.ts) r.callers i p k.knowing at));
    }

-- In any interleaving of the loads and swaps of any number of callers of atomicCounterAdd on
-- one cell, where the value of the cell is a word in range, is what it had been and what the
-- callers have added, modulo 2 ^ 64, and what the callers know holds of it, all of this still
-- does: no increment is lost. A caller that is done has added a sum that was in range, and the
-- stamp is not before its own; one that overflowed had loaded a value that its step takes out
-- of range.
pub Reach-IsCounted :
    {base : ℕ} {r u : Race CounterCell Adder} → Reach Move r u → IsCounted base r → IsCounted base u
Reach-IsCounted here k = k
Reach-IsCounted (next r step) k = Step-IsCounted step (Reach-IsCounted r k)
