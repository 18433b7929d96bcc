-- ===== src/Buffer/Stats.antt =====
-- buffer_stats.go.
use inmem_cache.Base.{ℕ, ◌+◌, ◌*◌, length}
use inmem_cache.Base.Word.{word}
use inmem_cache.Buffer.{ScopeBuffer}

-- approxSizeBytesLocked
unfoldable pub approx_size_bytes : ScopeBuffer → ℕ
approx_size_bytes b = word (
    64
    + length b.items * 32
    + b.bytes
    + length b.by_id * 32
    + b.id_key_bytes
    + length b.by_seq * 16)

pub record ScopeStats : Type 0 where
  pub item_count : ℕ
  pub last_seq : ℕ
  pub approx_scope_mb : ℕ
  pub created_ts : ℕ
  pub last_write_ts : ℕ
  pub last_access_ts : ℕ
  pub read_count_total : ℕ

unfoldable pub stats : ScopeBuffer → ScopeStats
unfolding approx_size_bytes
stats b = record {
  item_count = length b.items;
  last_seq = b.last_seq;
  approx_scope_mb = approx_size_bytes b;
  created_ts = b.created_ts;
  last_write_ts = b.last_write_ts;
  last_access_ts = b.last_access_ts;
  read_count_total = b.read_count_total;
}
