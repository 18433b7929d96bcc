-- ===== src/Ledger/Tests.antt =====
-- Tests of the counters, and the theorems at concrete inputs.
use inmem_cache.Ledger.Laws.{IsWithinCap, reserve_bytes_exact}
use inmem_cache.Base.{ℕ, ◌+◌, leb, if◌then◌else◌, arith, ◌≡◌, refl, some, [], ◌∷◌, false, ◌-◌, ◌^◌}
use inmem_cache.Types.{EventsMode}
use inmem_cache.Ledger.{Ledger, reserve_bytes, add_clamped_int64}
use inmem_cache.Base.Interleave.{Race, still, moves, Reach, turn, here, next, sum_by, AllOf}
use inmem_cache.Ledger.Race.{
  Caller, Move, asking, granted, refused, is_over, load, reject, swap, retry,
}
use inmem_cache.Ledger.Race.Invariant.{IsKept, Reach-IsKept}
use inmem_cache.Ledger.Race.Solo.{outcome, swap-reserve_bytes, solo-reserve_bytes}

abbrev small : Ledger
small = record {
  default_max_items = 10;
  max_store_bytes = 5000;
  max_item_bytes = 1000;
  events_max_item_bytes = 2024;
  inbox_max_items = 10;
  inbox_max_item_bytes = 500;
  events_mode = EventsMode.off;
  events_drops_total = 0;
  total_bytes = 2048;
  total_items = 0;
  scope_count = 2;
  last_write_ts = 0;
}

refuses : (reserve_bytes small 2953).granted ≡ false
unfolding reserve_bytes
refuses = refl

clamps_low : add_clamped_int64 (2 ^ 63) (2 ^ 64 - 5) ≡ 2 ^ 63
unfolding add_clamped_int64
clamps_low = refl

small-IsWithinCap : IsWithinCap small
small-IsWithinCap = record { cap_range = omega arith; within = omega arith }

reserve_bytes_exact_example :
    ((reserve_bytes small 1000).granted ≡ leb (2048 + 1000) 5000)
    × ((reserve_bytes small 1000).after
        ≡ (if leb (2048 + 1000) 5000 then record small { total_bytes = 2048 + 1000 } else small))
reserve_bytes_exact_example =
    reserve_bytes_exact small 1000 small-IsWithinCap (omega arith) (omega arith)

-- Two callers that together ask for more than there is room for: both load, the second one swaps,
-- and the first one finds another total, and then no room.
abbrev contended : Race ℕ Caller
contended = record { shared = 2048; callers = asking 2000 ∷ asking 2500 ∷ [] }

abbrev settled : Race ℕ Caller
settled = record { shared = 4548; callers = refused 2000 4548 ∷ granted 2500 ∷ [] }

contended-settled : Reach (Move 5000) contended settled
unfolding is_over
contended-settled =
    let one = next here (turn 0 refl load) in
    let two = next one (turn 1 refl load) in
    let three = next two (turn 1 refl (swap refl refl)) in
    let four = next three (turn 0 refl (retry refl (ground arith))) in
    let five = next four (turn 0 refl load) in next five (turn 0 refl (reject refl))

Reach-IsKept_example : IsKept 5000 2048 settled
unfolding AllOf sum_by
Reach-IsKept_example =
    Reach-IsKept 5000 (omega arith) contended-settled
      (record { kept = refl; within = omega arith; fits = ground arith })

swap-reserve_bytes_example :
    (3048 ≡ (reserve_bytes small 1000).after.total_bytes)
    × (granted 1000 ≡ outcome 1000 (reserve_bytes small 1000))
unfolding is_over
swap-reserve_bytes_example =
    swap-reserve_bytes small 1000 (omega arith) (omega arith) (swap refl refl)

-- The second caller alone: a load, and a swap.
abbrev served : Race ℕ Caller
served = record { shared = 4548; callers = asking 2000 ∷ granted 2500 ∷ [] }

solo-reserve_bytes_example :
    (4548 ≡ (reserve_bytes small 2500).after.total_bytes)
    × (some (granted 2500) ≡ some (outcome 2500 (reserve_bytes small 2500)))
unfolding is_over
solo-reserve_bytes_example =
    solo-reserve_bytes small 2500 (omega arith) (omega arith) (asking 2000 ∷ asking 2500 ∷ []) 1
      refl {n = 2} {u = served} (moves (moves still refl load) refl (swap refl refl))
