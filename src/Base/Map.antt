-- ===== src/Base/Map.antt =====
-- Go's `map[K]V` as an association list. A nil map and an empty one read alike. The source ranges
-- over maps in an order that Go leaves open; the order of the list stands for any such order.
use Prim.Native.Nat.{ℕ, ◌+◌, ◌≤◌}
use mathlib.Core.Path.{◌≡◌, refl}
use mathlib.Core.List.{List, [], ◌∷◌}
use mathlib.Core.Option.{Option, none, some}
use native.Mathlib.Omega.{arith}
use inmem_cache.Base.Tests.{if◌then◌else◌, Eq}

abbrev pub Map {ℓ} : Type ℓ → Type ℓ → Type ℓ
Map K V = List (K × V)

abbrev pub weigh_opt {ℓ} : {V : Type ℓ} → (V → ℕ) → Option V → ℕ
weigh_opt w none = 0
weigh_opt w (some v) = w v

module _ {ℓ} {K V : Type ℓ} ⦃e : Eq K⦄ where
  -- `v, ok := m[k]`
  unfoldable pub lookup : Map K V → K → Option V
  lookup [] k = none
  lookup ((j, v) ∷ m) k = if e.beq j k then some v else lookup m k

  -- `m[k] = v`
  unfoldable pub put : Map K V → K → V → Map K V
  put [] k v = (k, v) ∷ []
  put ((j, w) ∷ m) k v = if e.beq j k then (k, v) ∷ m else (j, w) ∷ put m k v

  -- `delete(m, k)`
  unfoldable pub delete : Map K V → K → Map K V
  delete [] k = []
  delete ((j, v) ∷ m) k = let rest = delete m k in if e.beq j k then rest else (j, v) ∷ rest

  pub lookup-put :
      (m : Map K V) (k : K) (v : V) (j : K)
      → lookup (put m k v) j ≡ (if e.beq k j then some v else lookup m j)
  unfolding lookup put
  lookup-put [] k v j = refl
  lookup-put ((i, w) ∷ m) k v j =
      ground (arith, e.beq_iff k j, e.beq_iff i k, e.beq_iff i j, lookup-put m k v j)

  pub lookup-delete :
      (m : Map K V) (k j : K) → lookup (delete m k) j ≡ (if e.beq k j then none else lookup m j)
  unfolding lookup delete
  lookup-delete [] k j = ground arith
  lookup-delete ((i, w) ∷ m) k j =
      ground (arith, e.beq_iff k j, e.beq_iff i k, e.beq_iff i j, lookup-delete m k j)

  -- No key has two entries.
  unfoldable pub DistinctKeys : Map K V → Type ℓ
  unfolding lookup
  DistinctKeys [] = Unit
  DistinctKeys ((k, v) ∷ m) = (lookup m k ≡ none) × DistinctKeys m

  -- The sum of a measure over the entries.
  unfoldable pub weigh : (V → ℕ) → Map K V → ℕ
  weigh w [] = 0
  weigh w ((k, v) ∷ m) = w v + weigh w m

  pub weigh-put :
      (w : V → ℕ) (m : Map K V) (k : K) (v : V)
      → weigh w (put m k v) + weigh_opt w (lookup m k) ≡ weigh w m + w v
  unfolding weigh put lookup
  weigh-put w [] k v = omega arith
  weigh-put w ((j, u) ∷ m) k v = ground (arith, weigh-put w m k v)

  pub weigh-delete :
      (w : V → ℕ) (m : Map K V) (k : K)
      → DistinctKeys m
      → weigh w (delete m k) + weigh_opt w (lookup m k) ≡ weigh w m
  unfolding weigh delete lookup DistinctKeys
  weigh-delete w [] k d = omega arith
  weigh-delete w ((j, u) ∷ m) k d = ground (arith, e.beq_iff j k, weigh-delete w m k d.1, d.0)

  pub weigh-lookup : (w : V → ℕ) (m : Map K V) (k : K) → weigh_opt w (lookup m k) ≤ weigh w m
  unfolding weigh lookup
  weigh-lookup w [] k = omega arith
  weigh-lookup w ((j, u) ∷ m) k = ground (arith, weigh-lookup w m k)

  pub DistinctKeys-put : (m : Map K V) (k : K) (v : V) → DistinctKeys m → DistinctKeys (put m k v)
  unfolding put lookup DistinctKeys
  DistinctKeys-put [] k v d = (refl, tt)
  DistinctKeys-put ((j, u) ∷ m) k v d = ground (
    arith,
    e.beq_iff j k,
    e.beq_iff k j,
    lookup-put m k v j,
    DistinctKeys-put m k v d.1,
    d.0,
    d.1,
  )

  pub DistinctKeys-delete : (m : Map K V) (k : K) → DistinctKeys m → DistinctKeys (delete m k)
  unfolding delete lookup DistinctKeys
  DistinctKeys-delete [] k d = tt
  DistinctKeys-delete ((j, u) ∷ m) k d = ground (
    arith,
    e.beq_iff j k,
    e.beq_iff k j,
    lookup-delete m k j,
    DistinctKeys-delete m k d.1,
    d.0,
    d.1,
  )
