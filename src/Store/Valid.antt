-- ===== src/Store/Valid.antt =====
-- The accounting of the store: what admission control charges is what the scopes hold, and it is
-- never over the cap. Every scope is well-formed, attached and not detached.
pub mod Scopes
pub mod Events
pub mod Write
pub mod Initial
pub mod Reset
pub mod Count
pub mod Refused
pub mod Commit
pub mod Warm
pub mod Rebuild
pub mod Run
use mathlib.Core.Path.{subst}
use inmem_cache.Base.{
  ℕ, ◌+◌, ◌^◌, ◌≤◌, ◌<◌, ◌≡◌, refl, Bool, true, false, Option, none, some, length, arith, ap, sym,
  ◌∙◌, inl, inr, Bool-cases, if◌then◌else◌,
}
use inmem_cache.Base.Word.{word}
use inmem_cache.Base.Bytes.{Bytes, bytes_beq, bytes_beq_iff}
use inmem_cache.Base.Map.{weigh_opt}
use inmem_cache.Types.{scope_buffer_overhead}
use inmem_cache.Ledger.{Ledger}
use inmem_cache.Ledger.Laws.{IsWithinCap}
use inmem_cache.Buffer.{ScopeBuffer}
use inmem_cache.Buffer.Items.Defs.{sum_sizes}
use inmem_cache.Buffer.Valid.{IsValid}
use inmem_cache.Buffer.Step.{Keeps}
use inmem_cache.Store.{Store}
use inmem_cache.Validate.{is_reserved_scope}
use inmem_cache.Store.Sharding.{Hash, Shards, find_scope, put_scope}
use inmem_cache.Store.Sharding.Laws.{
  IsSharded, total, find_scope-put_scope, total-put_scope, total-find_scope, put_scope-IsSharded,
}
use inmem_cache.Store.Scopes.{stored_back}

-- What a scope is charged.
abbrev pub footprint : ScopeBuffer → ℕ
footprint b = sum_sizes b.items + scope_buffer_overhead

abbrev pub item_count : ScopeBuffer → ℕ
item_count b = length b.items

abbrev pub one : ScopeBuffer → ℕ
one b = 1

pub record IsLive (b : ScopeBuffer) : Type 0 where
  pub valid : IsValid b
  pub attached : b.attached ≡ true
  pub undetached : b.detached ≡ false

abbrev pub AllLive : ⦃hash : Hash⦄ → Shards → Type 0
AllLive shards = (name : Bytes) (b : ScopeBuffer) → find_scope shards name ≡ some b → IsLive b

abbrev pub HasDefaultCap : ⦃hash : Hash⦄ → Shards → ℕ → Type 0
HasDefaultCap shards cap =
    (name : Bytes) (b : ScopeBuffer)
    → find_scope shards name ≡ some b
    → is_reserved_scope name ≡ false
    → b.max_items ≡ cap

pub record IsStored ⦃hash : Hash⦄ (s : Store) : Type 0 where
  pub sharded : IsSharded s.shards
  pub live : AllLive s.shards
  pub cap_range : s.ledger.max_store_bytes < 2 ^ 63
  -- admission control: the counter is what the scopes are charged, and within the cap
  pub bytes : s.ledger.total_bytes ≡ total footprint s.shards
  pub within : s.ledger.total_bytes ≤ s.ledger.max_store_bytes
  -- a scope that is not reserved has the cap on items of the configuration
  pub capped : HasDefaultCap s.shards s.ledger.default_max_items
  -- the counters of /stats
  pub items : word s.ledger.total_items ≡ word (total item_count s.shards)
  pub scopes : word s.ledger.scope_count ≡ word (total one s.shards)

-- No scope is within `n` writes of the last seq that an int64 holds.
abbrev pub HasRoom : ⦃hash : Hash⦄ → ℕ → Store → Type 0
HasRoom n s =
    (name : Bytes) (b : ScopeBuffer) → find_scope s.shards name ≡ some b → b.last_seq + n < 2 ^ 63

abbrev pub or_buffer : ScopeBuffer → Option ScopeBuffer → ScopeBuffer
or_buffer b none = b
or_buffer b (some c) = c

-- A buffer is put where the store has, or had, another.
pub put-IsLive :
    ⦃hash : Hash⦄ (shards : Shards) (name : Bytes) (b : ScopeBuffer)
    → IsSharded shards
    → AllLive shards
    → IsLive b
    → AllLive (put_scope shards name b)
put-IsLive shards name b h live l other c found = elim (Bool-cases (bytes_beq name other)) [
  | inl same ↦
      let now : some b ≡ some c = ground (arith, find_scope-put_scope shards name h b other) in
      subst IsLive (ap (or_buffer b) now) l
  | inr differ ↦ live other c (ground (arith, find_scope-put_scope shards name h b other))
]

pub put-capped :
    ⦃hash : Hash⦄ (shards : Shards) (name : Bytes) (b : ScopeBuffer) (cap : ℕ)
    → IsSharded shards
    → HasDefaultCap shards cap
    → (is_reserved_scope name ≡ false → b.max_items ≡ cap)
    → HasDefaultCap (put_scope shards name b) cap
put-capped shards name b cap h capped own other c found plain =
    elim (Bool-cases (bytes_beq name other)) [
      | inl same ↦
          let now : some b ≡ some c = ground (arith, find_scope-put_scope shards name h b other) in
          let e : name ≡ other = ground (arith, bytes_beq_iff name other) in
          sym (ap (λ o. (or_buffer b o).max_items) now) ∙ own (ap is_reserved_scope e ∙ plain)
      | inr differ ↦
          capped other c (ground (arith, find_scope-put_scope shards name h b other)) plain
    ]

-- A method of a scope, put back, keeps the accounting of the store.
pub stored_back-IsStored :
    ⦃hash : Hash⦄ (s : Store) (name : Bytes) (b b' : ScopeBuffer) (l' : Ledger)
    → IsStored s
    → find_scope s.shards name ≡ some b
    → Keeps b s.ledger b' l'
    → IsStored (stored_back s name b' l')
unfolding stored_back
stored_back-IsStored s name b b' l' h found k =
    let live = h.live name b found in
    let put = put_scope-IsSharded s.shards name h.sharded b' in
    let charged = total-put_scope s.shards name h.sharded footprint b' in
    let counted = total-put_scope s.shards name h.sharded item_count b' in
    let ones = total-put_scope s.shards name h.sharded one b' in
    let cover = total-find_scope s.shards name h.sharded footprint in
    let old : weigh_opt footprint (find_scope s.shards name) ≡ footprint b =
      ap (weigh_opt footprint) found in
    let old_items : weigh_opt item_count (find_scope s.shards name) ≡ item_count b =
      ap (weigh_opt item_count) found in
    let old_one : weigh_opt one (find_scope s.shards name) ≡ 1 = ap (weigh_opt one) found in
    let cap : IsWithinCap s.ledger = record { cap_range = h.cap_range; within = h.within } in
    let covered : sum_sizes b.items ≤ s.ledger.total_bytes = omega (arith, h.bytes) in
    let within = k.within live.attached cap covered in
    let caps = k.caps in
    record {
      sharded = put;
      live = put-IsLive s.shards name b' h.sharded h.live (record {
        valid = k.valid;
        attached = k.attached ∙ live.attached;
        undetached = k.detached ∙ live.undetached;
      });
      cap_range = ground (arith, h.cap_range);
      bytes = ground (
        arith,
        h.bytes,
        h.cap_range,
        h.within,
        k.bytes live.attached,
        k.grows,
        live.valid.bytes_sum,
        k.valid.bytes_sum,
      );
      within = ground arith;
      capped = λ other c there plain.
          put-capped s.shards name b' _ h.sharded h.capped
            (λ own. k.max_items ∙ h.capped name b found own) other c there plain
          ∙ ap (λ (l : Ledger). l.default_max_items) (sym k.caps);
      items = ground (arith, h.items, k.items live.attached);
      scopes = ground (arith, h.scopes);
    }
