-- ===== src/Store/Sharding.antt =====
-- store.go: the 32 shards, `shardIdxFor`, `shardFor` and `shardsForScopes`, and the map that they
-- are together.
pub mod Laws
use inmem_cache.Base.{
  ℕ, zero, suc, ◌+◌, ◌%◌, Bool, true, false, Option, none, some, List, [], ◌∷◌, ◌++◌, length,
  get_elem?, set, ◌==◌, if◌then◌else◌, ◌||◌,
}
use inmem_cache.Base.Bytes.{Bytes, bytes_eq}
use inmem_cache.Base.Map
use inmem_cache.Base.Map.{Map}
use inmem_cache.Buffer.{ScopeBuffer}

abbrev pub num_shards : ℕ
num_shards = 32

-- `maphash.String` with the seed of the store. Nothing is assumed of it.
pub record Hash : Type 0 where
  pub hash_string : Bytes → ℕ

abbrev pub Shard : Type 0
Shard = Map Bytes ScopeBuffer

abbrev pub Shards : Type 0
Shards = List Shard

-- shardIdxFor. `& shardMask` is the remainder by 32.
unfoldable pub shard_idx_for : ⦃hash : Hash⦄ → Bytes → ℕ
shard_idx_for ⦃hash⦄ scope = hash.hash_string scope % num_shards

abbrev replicate : ℕ → Shards
replicate zero = []
replicate (suc n) = [] ∷ replicate n

-- The shards of newStore, each an empty map.
unfoldable pub empty_shards : Shards
empty_shards = replicate num_shards

-- shardFor. There are always 32 shards, so no index is out of bounds.
abbrev pub shard_at : Shards → ℕ → Shard
shard_at shards i = elim (get_elem? shards i) [ none ↦ [] | some sh ↦ sh ]

module _ ⦃hash : Hash⦄ where
  -- `s.shardFor(name).scopes[name]`
  unfoldable pub find_scope : Shards → Bytes → Option ScopeBuffer
  unfolding shard_idx_for
  find_scope shards name = Map.lookup (shard_at shards (shard_idx_for name)) name

  -- `sh.scopes[name] = buf`
  unfoldable pub put_scope : Shards → Bytes → ScopeBuffer → Shards
  unfolding shard_idx_for
  put_scope shards name buf =
      set shards (shard_idx_for name) (Map.put (shard_at shards (shard_idx_for name)) name buf)

  -- `delete(sh.scopes, name)`
  unfoldable pub remove_scope : Shards → Bytes → Shards
  unfolding shard_idx_for
  remove_scope shards name =
      set shards (shard_idx_for name) (Map.delete (shard_at shards (shard_idx_for name)) name)

  -- shardsForScopes: the indices below `n` that some scope of the list hashes to, ascending.
  abbrev hashes_to : List Bytes → ℕ → Bool
  hashes_to [] i = false
  hashes_to (name ∷ names) i = (shard_idx_for name == i) || hashes_to names i

  unfoldable pub shards_for_scopes : List Bytes → ℕ → List ℕ
  unfolding shard_idx_for
  shards_for_scopes names zero = []
  shards_for_scopes names (suc n) =
      let below = shards_for_scopes names n in if hashes_to names n then below ++ n ∷ [] else below

-- listScopes, and the loops over every shard: the entries, shard by shard. No name is in two.
unfoldable pub list_scopes : Shards → Shard
list_scopes [] = []
list_scopes (sh ∷ shards) = sh ++ list_scopes shards
