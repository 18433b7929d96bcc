-- ===== src/Ledger.antt =====
-- store.go, the fields of `store` that the methods of a scope reach through `b.store`: the caps and
-- the atomic counters. A method runs alone here, so each compare-and-swap loop succeeds in its
-- first round.
pub mod Laws
pub mod Race
mod Tests
use inmem_cache.Base.{ℕ, ◌-◌, ◌^◌, Bool, true, false, not, if◌then◌else◌}
use inmem_cache.Base.Word.{add64, sub64, slt}
use inmem_cache.Base.Bytes.{Bytes, bytes_beq}
use inmem_cache.Types.{EventsMode, events_scope_name, inbox_scope_name}

pub record Ledger : Type 0 where
  pub default_max_items : ℕ
  pub max_store_bytes : ℕ
  pub max_item_bytes : ℕ
  pub events_max_item_bytes : ℕ
  pub inbox_max_items : ℕ
  pub inbox_max_item_bytes : ℕ
  pub events_mode : EventsMode
  pub events_drops_total : ℕ
  pub total_bytes : ℕ
  pub total_items : ℕ
  pub scope_count : ℕ
  pub last_write_ts : ℕ

-- What `reserveBytes` returns, with the ledger after the call.
pub record Reservation : Type 0 where
  pub granted : Bool
  pub total : ℕ
  pub cap : ℕ
  pub after : Ledger

unfoldable pub bump_last_write_ts : Ledger → ℕ → Ledger
bump_last_write_ts l now_us =
    if slt l.last_write_ts now_us then record l { last_write_ts = now_us } else l

abbrev reserve_at : Ledger → ℕ → Reservation
reserve_at l next = record {
  granted = true;
  total = next;
  cap = l.max_store_bytes;
  after = record l { total_bytes = next };
}

unfoldable pub reserve_bytes : Ledger → ℕ → Reservation
reserve_bytes l delta =
    if not (slt 0 delta)
    then reserve_at l (add64 l.total_bytes delta)
    else if slt (sub64 l.max_store_bytes l.total_bytes) delta
    then record { granted = false; total = l.total_bytes; cap = l.max_store_bytes; after = l }
    else reserve_at l (add64 l.total_bytes delta)

unfoldable pub add_clamped_int64 : ℕ → ℕ → ℕ
add_clamped_int64 a b =
    if slt 0 b
    then (if slt (sub64 (2 ^ 63 - 1) b) a then 2 ^ 63 - 1 else add64 a b)
    else if slt b 0
    then (if slt a (sub64 (2 ^ 63) b) then 2 ^ 63 else add64 a b)
    else add64 a b

unfoldable pub max_item_bytes_for : Ledger → Bytes → ℕ
max_item_bytes_for l scope =
    if bytes_beq scope events_scope_name
    then l.events_max_item_bytes
    else if bytes_beq scope inbox_scope_name
    then l.inbox_max_item_bytes
    else l.max_item_bytes

unfoldable pub max_item_bytes_any_scope : Ledger → ℕ
max_item_bytes_any_scope l =
    let biggest = l.max_item_bytes in
    let with_events =
      if slt biggest l.events_max_item_bytes then l.events_max_item_bytes else biggest in
    if slt with_events l.inbox_max_item_bytes then l.inbox_max_item_bytes else with_events

-- The sentinel for "no item-count cap".
abbrev pub unbounded_scope_max_items : ℕ
unbounded_scope_max_items = 0

unfoldable pub max_items_for : Ledger → Bytes → ℕ
max_items_for l scope =
    if bytes_beq scope events_scope_name
    then unbounded_scope_max_items
    else if bytes_beq scope inbox_scope_name
    then l.inbox_max_items
    else l.default_max_items
