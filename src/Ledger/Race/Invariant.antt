-- ===== src/Ledger/Race/Invariant.antt =====
-- Whatever the order of the turns, the callers together never hold more than the cap allows.
use inmem_cache.Base.{ℕ, ◌+◌, ◌^◌, ◌≤◌, ◌<◌, ◌≡◌, arith}
use inmem_cache.Base.Interleave.{
  Race, Step, turn, Reach, here, next, sum_by, AllOf, sum_by-set, weight-le-sum_by, AllOf-set,
  AllOf-get_elem?,
}
use inmem_cache.Ledger.Race.{
  Caller, asking, loaded, granted, refused, released, is_over, Move, load, reject, swap, retry,
  give_back, hold,
}

-- What a caller asks for is a positive int64, what it has loaded lies within the cap, and a refusal
-- was right about what it had loaded.
abbrev pub Fits : ℕ → Caller → Type 0
Fits cap (asking delta) = (0 < delta) × (delta < 2 ^ 63)
Fits cap (loaded delta current) = (0 < delta) × (delta < 2 ^ 63) × (current ≤ cap)
Fits cap (granted delta) = (0 < delta) × (delta < 2 ^ 63)
Fits cap (refused delta current) = (current ≤ cap) × (cap < current + delta)
Fits cap (released delta) = Unit

-- The counter is what was charged before, and what the callers hold, and within the cap.
pub record IsKept (cap base : ℕ) (s : Race ℕ Caller) : Type 0 where
  pub kept : s.shared ≡ base + sum_by hold s.callers
  pub within : s.shared ≤ cap
  pub fits : AllOf (Fits cap) s.callers

module _ (cap : ℕ) (small : cap < 2 ^ 63) where
  -- A turn moves the counter by what the caller gains or gives back, within the cap.
  Move-exact :
      {total t : ℕ} {p q : Caller}
      → Move cap total p t q
      → total ≤ cap
      → hold p ≤ total
      → Fits cap p
      → (t + hold p ≡ total + hold q) × (t ≤ cap) × Fits cap q
  unfolding is_over
  Move-exact load within room fit = ground arith
  Move-exact (reject over) within room fit = ground arith
  Move-exact (swap fine same) within room fit = ground arith
  Move-exact (retry fine differs) within room fit = ground arith
  Move-exact give_back within room fit = ground arith

  Step-IsKept :
      {base : ℕ} {s u : Race ℕ Caller} → Step (Move cap) s u → IsKept cap base s → IsKept cap base u
  Step-IsKept {base} {s} (turn i {p} {q} {t} at move) k =
      let moved = sum_by-set hold s.callers i p q at in
      let (exact, within, fit) =
        Move-exact move k.within (omega (arith, weight-le-sum_by hold s.callers i p at, k.kept))
          (AllOf-get_elem? (Fits cap) s.callers i p k.fits at) in
      record {
        kept = omega (arith, exact, moved, k.kept);
        within = within;
        fits = AllOf-set (Fits cap) s.callers i q k.fits fit;
      }

  -- In any interleaving of the loads, swaps and releases of any number of callers of
  -- reserveBytes, where the byte counter was what had been charged before and what the callers
  -- hold, and within a cap below 2 ^ 63, it still is: no bytes are lost, and no interleaving
  -- takes the counter over the cap. A caller that was refused had loaded a counter that its
  -- delta would have taken over the cap.
  pub Reach-IsKept :
      {base : ℕ} {s u : Race ℕ Caller}
      → Reach (Move cap) s u
      → IsKept cap base s
      → IsKept cap base u
  Reach-IsKept here k = k
  Reach-IsKept (next r step) k = Step-IsKept step (Reach-IsKept r k)
