-- ===== src/Store/Sharding/Laws.antt =====
-- The shards behave as one map from names to scopes, and sums over them move with one entry.
use inmem_cache.Base.{
  ℕ, zero, suc, ◌+◌, ◌≤◌, ◌<◌, ◌≡◌, refl, Option, none, some, [], ◌∷◌, length, set, length-set,
  ◌==◌, if◌then◌else◌, arith, inl, inr, Bool-cases, ap, ◌∙◌,
}
use inmem_cache.Base.Bytes.{Bytes, bytes_eq, bytes_beq, bytes_beq_iff}
use inmem_cache.Base.Map
use inmem_cache.Base.Map.{
  Map, lookup-put, lookup-delete, weigh, weigh_opt, weigh-put, weigh-delete, weigh-lookup,
  DistinctKeys, DistinctKeys-put, DistinctKeys-delete,
}
use inmem_cache.Buffer.{ScopeBuffer}
use inmem_cache.Store.Sharding.{
  Hash, Shard, Shards, num_shards, shard_idx_for, shard_at, find_scope, put_scope, remove_scope,
  replicate, empty_shards,
}

-- 32 shards, and in each no name stands twice.
abbrev pub AllDistinct : Shards → Type 0
AllDistinct [] = Unit
AllDistinct (sh ∷ shards) = DistinctKeys sh × AllDistinct shards

pub record IsSharded (shards : Shards) : Type 0 where
  pub count : length shards ≡ num_shards
  pub distinct : AllDistinct shards

-- The sum of a measure over every scope of every shard.
unfoldable pub total : (ScopeBuffer → ℕ) → Shards → ℕ
total w [] = 0
total w (sh ∷ shards) = weigh w sh + total w shards

shard_at-set :
    (shards : Shards) (i j : ℕ) (m : Shard)
    → i < length shards
    → shard_at (set shards i m) j ≡ (if i == j then m else shard_at shards j)
shard_at-set [] i j m h = ground arith
shard_at-set (sh ∷ shards) zero zero m h = refl
shard_at-set (sh ∷ shards) zero (suc j) m h = ground arith
shard_at-set (sh ∷ shards) (suc i) zero m h = ground arith
shard_at-set (sh ∷ shards) (suc i) (suc j) m h =
    ground (arith, shard_at-set shards i j m (omega arith))

total-set :
    (w : ScopeBuffer → ℕ) (shards : Shards) (i : ℕ) (m : Shard)
    → i < length shards
    → total w (set shards i m) + weigh w (shard_at shards i) ≡ total w shards + weigh w m
unfolding total
total-set w [] i m h = ground arith
total-set w (sh ∷ shards) zero m h = omega arith
total-set w (sh ∷ shards) (suc i) m h = omega (arith, total-set w shards i m (omega arith))

AllDistinct-set :
    (shards : Shards) (i : ℕ) (m : Shard)
    → DistinctKeys m
    → AllDistinct shards
    → AllDistinct (set shards i m)
AllDistinct-set [] i m d h = h
AllDistinct-set (sh ∷ shards) zero m d h = (d, h.1)
AllDistinct-set (sh ∷ shards) (suc i) m d h = (h.0, AllDistinct-set shards i m d h.1)

DistinctKeys-shard_at :
    (shards : Shards) (i : ℕ) → AllDistinct shards → DistinctKeys (shard_at shards i)
DistinctKeys-shard_at [] i h = unfold DistinctKeys in tt
DistinctKeys-shard_at (sh ∷ shards) zero h = h.0
DistinctKeys-shard_at (sh ∷ shards) (suc i) h = DistinctKeys-shard_at shards i h.1

weigh-total :
    (w : ScopeBuffer → ℕ) (shards : Shards) (i : ℕ) → weigh w (shard_at shards i) ≤ total w shards
unfolding total weigh
weigh-total w [] i = omega arith
weigh-total w (sh ∷ shards) zero = omega arith
weigh-total w (sh ∷ shards) (suc i) = omega (arith, weigh-total w shards i)

replicate-AllDistinct : (n : ℕ) → AllDistinct (replicate n)
unfolding DistinctKeys
replicate-AllDistinct zero = tt
replicate-AllDistinct (suc n) = (tt, replicate-AllDistinct n)

pub empty_shards-IsSharded : IsSharded empty_shards
unfolding empty_shards
empty_shards-IsSharded = record { count = refl; distinct = replicate-AllDistinct num_shards }

module _ ⦃hash : Hash⦄ (shards : Shards) (name : Bytes) (h : IsSharded shards) where
  in_range : shard_idx_for name < length shards
  unfolding shard_idx_for
  in_range = omega (arith, h.count)

  -- A change of the map of one shard at one name is that change of the whole.
  by_shard :
      (other : Bytes) (m : Shard) (now : Option ScopeBuffer)
      → Map.lookup m other ≡ (
          if bytes_beq name other
          then now
          else Map.lookup (shard_at shards (shard_idx_for name)) other)
      → Map.lookup (shard_at (set shards (shard_idx_for name) m) (shard_idx_for other)) other ≡ (
          if bytes_beq name other
          then now
          else Map.lookup (shard_at shards (shard_idx_for other)) other)
  by_shard other m now there =
      let hit = shard_at-set shards (shard_idx_for name) (shard_idx_for other) m in_range in
      elim (Bool-cases (bytes_beq name other)) [
        | inl equal ↦
            let one_name : name ≡ other = (bytes_beq_iff name other).0 equal in
            ground (arith, hit, there, ap shard_idx_for one_name)
        | inr differ ↦ ground (arith, hit, there)
      ]

  -- In 32 shards, a scope that is put under a name is found under that name, whatever the names
  -- hash to, and every other name finds what it found.
  pub find_scope-put_scope :
      (buf : ScopeBuffer) (other : Bytes)
      → find_scope (put_scope shards name buf) other
        ≡ (if bytes_beq name other then some buf else find_scope shards other)
  unfolding find_scope put_scope
  find_scope-put_scope buf other =
      let m = Map.put (shard_at shards (shard_idx_for name)) name buf in
      let there = lookup-put (shard_at shards (shard_idx_for name)) name buf other in
      by_shard other m (some buf) there

  -- In 32 shards, a name that is removed finds nothing, whatever the names hash to, and every
  -- other name finds what it found.
  pub find_scope-remove_scope :
      (other : Bytes)
      → find_scope (remove_scope shards name) other
        ≡ (if bytes_beq name other then none else find_scope shards other)
  unfolding find_scope remove_scope
  find_scope-remove_scope other =
      by_shard other (Map.delete (shard_at shards (shard_idx_for name)) name) none
        (lookup-delete (shard_at shards (shard_idx_for name)) name other)

  pub total-put_scope :
      (w : ScopeBuffer → ℕ) (buf : ScopeBuffer)
      → total w (put_scope shards name buf) + weigh_opt w (find_scope shards name)
        ≡ total w shards + w buf
  unfolding find_scope put_scope
  total-put_scope w buf = omega (
    arith,
    total-set w shards (shard_idx_for name)
        (Map.put (shard_at shards (shard_idx_for name)) name buf) in_range,
    weigh-put w (shard_at shards (shard_idx_for name)) name buf,
  )

  pub total-remove_scope :
      (w : ScopeBuffer → ℕ)
      → total w (remove_scope shards name) + weigh_opt w (find_scope shards name) ≡ total w shards
  unfolding find_scope remove_scope
  total-remove_scope w =
      let at = shard_at shards (shard_idx_for name) in
      omega (
        arith,
        total-set w shards (shard_idx_for name) (Map.delete at name) in_range,
        weigh-delete w at name (DistinctKeys-shard_at shards (shard_idx_for name) h.distinct),
      )

  pub total-find_scope :
      (w : ScopeBuffer → ℕ) → weigh_opt w (find_scope shards name) ≤ total w shards
  unfolding find_scope
  total-find_scope w =
      let at = shard_at shards (shard_idx_for name) in
      omega (arith, weigh-lookup w at name, weigh-total w shards (shard_idx_for name))

  pub put_scope-IsSharded : (buf : ScopeBuffer) → IsSharded (put_scope shards name buf)
  unfolding put_scope
  put_scope-IsSharded buf = record {
    count = length-set shards _ _ ∙ h.count;
    distinct =
        AllDistinct-set shards _ _
          (DistinctKeys-put _ name buf (DistinctKeys-shard_at shards _ h.distinct)) h.distinct;
  }

  pub remove_scope-IsSharded : IsSharded (remove_scope shards name)
  unfolding remove_scope
  remove_scope-IsSharded = record {
    count = length-set shards _ _ ∙ h.count;
    distinct =
        AllDistinct-set shards _ _
          (DistinctKeys-delete _ name (DistinctKeys-shard_at shards _ h.distinct)) h.distinct;
  }
