-- ===== src/Store/Read.antt =====
-- store.go: head, tail, get, render, stats and scopeList. A read that hits counts in the scope.
use inmem_cache.Base.{
  ℕ, Bool, true, false, ◌&&◌, ◌||◌, not, Option, none, some, List, [], ◌∷◌, length, map, take, ◌==◌,
  ltb, if◌then◌else◌,
}
use inmem_cache.Base.Word.{slt}
use inmem_cache.Base.Bytes.{Bytes, is_empty}
use inmem_cache.Types.{Item}
use inmem_cache.Buffer.{ScopeBuffer}
use inmem_cache.Buffer.Read.{get_by_id, get_by_seq, tail_offset, since_seq, record_read}
use inmem_cache.Buffer.Stats
use inmem_cache.Buffer.Stats.{ScopeStats}
use inmem_cache.Store.{Store, reserved_scope_names}
use inmem_cache.Store.Sharding.{Hash, list_scopes}
use inmem_cache.Store.Scopes.{get_scope, stored_back}

-- `if len(items) > 0 { buf.recordRead(…) }`, and the `found` of the result.
abbrev pub paged :
    ⦃hash : Hash⦄
    → Store
    → Bytes
    → ScopeBuffer
    → ℕ
    → List Item × Bool
    → (List Item × Bool × Bool) × Store
unfolding stored_back record_read
paged s scope buf now_us ([], truncated) = (([], truncated, true), s)
paged s scope buf now_us (x ∷ xs, truncated) =
    ((x ∷ xs, truncated, true), stored_back s scope (record_read buf now_us) s.ledger)

-- `return item, true` after recordRead, or the miss.
abbrev pub hit : ⦃hash : Hash⦄ → Store → Bytes → ScopeBuffer → ℕ → Option Item → Option Item × Store
unfolding stored_back record_read
hit s scope buf now_us none = (none, s)
hit s scope buf now_us (some x) = (some x, stored_back s scope (record_read buf now_us) s.ledger)

abbrev rendered : Option Item → Option Bytes
rendered none = none
rendered (some x) = elim x.render_bytes [ none ↦ some x.payload | some r ↦ some r ]

pub record ReservedScopeEntry : Type 0 where
  pub scope : Bytes
  pub item_count : ℕ
  pub last_seq : ℕ
  pub approx_scope_mb : ℕ
  pub created_ts : ℕ
  pub last_write_ts : ℕ

pub record StoreStats : Type 0 where
  pub scope_count : ℕ
  pub total_items : ℕ
  pub approx_store_mb : ℕ
  pub last_write_ts : ℕ
  pub events_drops_total : ℕ
  pub reserved_scopes : List ReservedScopeEntry

module _ ⦃hash : Hash⦄ where
  unfoldable pub head : Store → Bytes → ℕ → ℕ → ℕ → (List Item × Bool × Bool) × Store
  unfolding get_scope since_seq paged
  head s scope after_seq limit now_us = elim (get_scope s scope) [
    | none ↦ (([], false, false), s)
    | some buf ↦ paged s scope buf now_us (since_seq buf after_seq limit)
  ]

  unfoldable pub tail : Store → Bytes → ℕ → ℕ → ℕ → (List Item × Bool × Bool) × Store
  unfolding get_scope tail_offset paged
  tail s scope limit offset now_us = elim (get_scope s scope) [
    | none ↦ (([], false, false), s)
    | some buf ↦ paged s scope buf now_us (tail_offset buf limit offset)
  ]

  unfoldable pub get : Store → Bytes → Bytes → ℕ → ℕ → Option Item × Store
  unfolding get_scope get_by_id get_by_seq hit
  get s scope id seq now_us = elim (get_scope s scope) [
    | none ↦ (none, s)
    | some buf ↦
        hit s scope buf now_us (if is_empty id then get_by_seq buf seq else get_by_id buf id)
  ]

  -- The lookup and the read count of render are those of get.
  unfoldable pub render : Store → Bytes → Bytes → ℕ → ℕ → Option Bytes × Store
  unfolding get
  render s scope id seq now_us = let out = get s scope id seq now_us in (rendered out.0, out.1)

  -- The loop of reservedScopeStats.
  unfoldable pub reserved_scope_stats : Store → List Bytes → List ReservedScopeEntry
  unfolding get_scope Stats.stats
  reserved_scope_stats s [] = []
  reserved_scope_stats s (name ∷ names) =
      let rest = reserved_scope_stats s names in
      elim (get_scope s name) [
        | none ↦ rest
        | some buf ↦
            let st = Stats.stats buf in
            record {
              scope = name;
              item_count = st.item_count;
              last_seq = st.last_seq;
              approx_scope_mb = st.approx_scope_mb;
              created_ts = st.created_ts;
              last_write_ts = st.last_write_ts;
            }
            ∷ rest
      ]

  unfoldable pub store_stats : Store → StoreStats
  unfolding reserved_scope_stats
  store_stats s = record {
    scope_count = s.ledger.scope_count;
    total_items = s.ledger.total_items;
    approx_store_mb = s.ledger.total_bytes;
    last_write_ts = s.ledger.last_write_ts;
    events_drops_total = s.ledger.events_drops_total;
    reserved_scopes = reserved_scope_stats s reserved_scope_names;
  }

-- `a < b` on Go strings.
unfoldable pub bytes_ltb : Bytes → Bytes → Bool
bytes_ltb [] [] = false
bytes_ltb [] (b ∷ ys) = true
bytes_ltb (a ∷ xs) [] = false
bytes_ltb (a ∷ xs) (b ∷ ys) =
    let rest = bytes_ltb xs ys in if ltb a b then true else if a == b then rest else false

-- strings.HasPrefix
unfoldable pub has_prefix : Bytes → Bytes → Bool
has_prefix name [] = true
has_prefix [] (p ∷ ps) = false
has_prefix (c ∷ name) (p ∷ ps) = (c == p) && has_prefix name ps

-- The two `continue` of the loop.
abbrev pub listed : Bytes → Bytes → Bytes → Bool
unfolding bytes_ltb has_prefix
listed prefix cursor name = has_prefix name prefix && (is_empty cursor || bytes_ltb cursor name)

abbrev pub Ref : Type 0
Ref = Bytes × ScopeBuffer

unfoldable pub collect_refs : Bytes → Bytes → List Ref → List Ref
unfolding listed
collect_refs prefix cursor [] = []
collect_refs prefix cursor ((name, buf) ∷ m) =
    let rest = collect_refs prefix cursor m in
    if listed prefix cursor name then (name, buf) ∷ rest else rest

-- sort.Slice by name. The names differ, so there is one order that it can give.
unfoldable pub insert_ref : Ref → List Ref → List Ref
unfolding bytes_ltb
insert_ref r [] = r ∷ []
insert_ref r (q ∷ qs) =
    let rest = insert_ref r qs in if bytes_ltb r.0 q.0 then r ∷ q ∷ qs else q ∷ rest

unfoldable pub sort_refs : List Ref → List Ref
unfolding insert_ref
sort_refs [] = []
sort_refs (r ∷ rs) = insert_ref r (sort_refs rs)

pub record ScopeListEntry : Type 0 where
  pub scope : Bytes
  pub item_count : ℕ
  pub last_seq : ℕ
  pub approx_scope_mb : ℕ
  pub created_ts : ℕ
  pub last_write_ts : ℕ
  pub last_access_ts : ℕ
  pub read_count_total : ℕ

unfoldable pub scope_list_entry : Ref → ScopeListEntry
unfolding Stats.stats
scope_list_entry (name, buf) =
    let st = Stats.stats buf in
    record {
      scope = name;
      item_count = st.item_count;
      last_seq = st.last_seq;
      approx_scope_mb = st.approx_scope_mb;
      created_ts = st.created_ts;
      last_write_ts = st.last_write_ts;
      last_access_ts = st.last_access_ts;
      read_count_total = st.read_count_total;
    }

unfoldable pub scope_list : Store → Bytes → Bytes → ℕ → List ScopeListEntry × Bool
unfolding collect_refs sort_refs scope_list_entry list_scopes
scope_list s prefix cursor limit =
    let refs = sort_refs (collect_refs prefix cursor (list_scopes s.shards)) in
    let truncated = slt limit (length refs) in
    if not (slt 0 limit)
    then ([], false)
    else (map scope_list_entry (if truncated then take limit refs else refs), truncated)
