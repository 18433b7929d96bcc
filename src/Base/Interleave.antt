-- ===== src/Base/Interleave.antt =====
-- Callers that take turns at a shared state, in any order.
use Prim.Native.Nat.{ℕ, zero, suc, ◌+◌, ◌≤◌}
use mathlib.Core.Path.{◌≡◌, subst}
use mathlib.Core.List.{List, [], ◌∷◌}
use mathlib.Core.Option.{some}
use native.Mathlib.Omega.{arith}
use inmem_cache.Base.Lists.{get_elem?, set}

pub record Race {ℓ} (S C : Type ℓ) : Type ℓ where
  pub shared : S
  pub callers : List C

-- A turn of the caller `i`: a move from the shared state and the caller to those after it.
pub data Step {ℓ} {S C : Type ℓ} (Move : S → C → S → C → Type ℓ) (r : Race S C)
    : Race S C → Type ℓ where
  turn :
      (i : ℕ) {p q : C} {t : S}
      → get_elem? r.callers i ≡ some p
      → Move r.shared p t q
      → Step Move r (record { shared = t; callers = set r.callers i q })

pub data Reach {ℓ} {S C : Type ℓ} (Move : S → C → S → C → Type ℓ) (r : Race S C)
    : Race S C → Type ℓ where
  here : Reach Move r r
  next : {t u : Race S C} → Reach Move r t → Step Move t u → Reach Move r u

-- A number of turns, all of them of the caller `i`.
pub data Alone {ℓ} {S C : Type ℓ} (Move : S → C → S → C → Type ℓ) (i : ℕ) (r : Race S C)
    : ℕ → Race S C → Type ℓ where
  still : Alone Move i r 0 r
  moves :
      {n : ℕ} {t : Race S C} {p q : C} {s : S}
      → Alone Move i r n t
      → get_elem? t.callers i ≡ some p
      → Move t.shared p s q
      → Alone Move i r (suc n) (record { shared = s; callers = set t.callers i q })

-- A measure over the callers.
unfoldable pub sum_by {ℓ} : {C : Type ℓ} → (C → ℕ) → List C → ℕ
sum_by w [] = 0
sum_by w (c ∷ cs) = w c + sum_by w cs

unfoldable pub AllOf {ℓ} : {C : Type ℓ} → (C → Type 0) → List C → Type 0
AllOf P [] = Unit
AllOf P (c ∷ cs) = P c × AllOf P cs

module _ {ℓ} {C : Type ℓ} (w : C → ℕ) where
  pub sum_by-set :
      (cs : List C) (i : ℕ) (p q : C)
      → get_elem? cs i ≡ some p
      → sum_by w (set cs i q) + w p ≡ sum_by w cs + w q
  unfolding sum_by
  sum_by-set [] i p q at = absurd (ground (arith, at))
  sum_by-set (c ∷ cs) zero p q at = let same : c ≡ p = ground (arith, at) in rw same (omega arith)
  sum_by-set (c ∷ cs) (suc i) p q at = omega (arith, sum_by-set cs i p q at)

  pub weight-le-sum_by : (cs : List C) (i : ℕ) (p : C) → get_elem? cs i ≡ some p → w p ≤ sum_by w cs
  unfolding sum_by
  weight-le-sum_by [] i p at = absurd (ground (arith, at))
  weight-le-sum_by (c ∷ cs) zero p at =
      let same : c ≡ p = ground (arith, at) in rw same (omega arith)
  weight-le-sum_by (c ∷ cs) (suc i) p at = omega (arith, weight-le-sum_by cs i p at)

module _ {ℓ} {C : Type ℓ} (P : C → Type 0) where
  pub AllOf-set : (cs : List C) (i : ℕ) (q : C) → AllOf P cs → P q → AllOf P (set cs i q)
  unfolding AllOf
  AllOf-set [] i q all fit = tt
  AllOf-set (c ∷ cs) zero q all fit = (fit, all.1)
  AllOf-set (c ∷ cs) (suc i) q all fit = (all.0, AllOf-set cs i q all.1 fit)

  pub AllOf-get_elem? : (cs : List C) (i : ℕ) (p : C) → AllOf P cs → get_elem? cs i ≡ some p → P p
  unfolding AllOf
  AllOf-get_elem? [] i p all at = absurd (ground (arith, at))
  AllOf-get_elem? (c ∷ cs) zero p all at = subst P (ground (arith, at)) all.0
  AllOf-get_elem? (c ∷ cs) (suc i) p all at = AllOf-get_elem? cs i p all.1 at

  -- What holds of every caller still does, where it holds of the one that moved, and the turn of that
  -- one does not break it for the others.
  pub AllOf-map : {Q : C → Type 0} → ((c : C) → P c → Q c) → (cs : List C) → AllOf P cs → AllOf Q cs
  unfolding AllOf
  AllOf-map f [] all = tt
  AllOf-map f (c ∷ cs) all = (f c all.0, AllOf-map f cs all.1)
