-- ===== src/Types.antt =====
-- types.go: the operator's configuration, the item, the counter cell, the errors that handlers turn
-- into responses, and the byte costs that admission control charges. Integers of the source are
-- 64-bit words (Base/Word); an `error` is a constructor of `Error`, its text left out.
pub mod Megabytes
mod Tests
use inmem_cache.Base.{
  ℕ, ◌+◌, ◌*◌, ◌/◌, ◌^◌, Bool, true, false, not, ◌||◌, Option, none, some, List, [], ◌∷◌, length,
  ◌==◌, if◌then◌else◌,
}
use inmem_cache.Base.Word.{word, add64, slt}
use inmem_cache.Base.Bytes.{Bytes, bytes, bytes_beq, is_empty}

abbrev pub default_limit : ℕ
default_limit = 1000

abbrev pub max_limit : ℕ
max_limit = 10000

abbrev pub default_scope_max_items : ℕ
default_scope_max_items = 100000

abbrev pub max_store_mib : ℕ
max_store_mib = 100

abbrev pub default_max_item_bytes : ℕ
default_max_item_bytes = 2 ^ 20

abbrev pub max_scope_bytes : ℕ
max_scope_bytes = 256

abbrev pub max_id_bytes : ℕ
max_id_bytes = 256

abbrev pub default_inbox_max_item_bytes : ℕ
default_inbox_max_item_bytes = 64 * 2 ^ 10

abbrev pub events_item_envelope_overhead : ℕ
events_item_envelope_overhead = 1024

abbrev pub events_scope_name : Bytes
events_scope_name = bytes "_events"

abbrev pub inbox_scope_name : Bytes
inbox_scope_name = bytes "_inbox"

abbrev pub single_request_bytes_overhead : ℕ
single_request_bytes_overhead = 4096

abbrev pub bulk_request_bytes_overhead : ℕ
bulk_request_bytes_overhead = 16 * 2 ^ 20

abbrev pub max_counter_value : ℕ
max_counter_value = 9007199254740991

-- scopeBufferOverhead and reservedScopesOverhead of store.go.
abbrev pub scope_buffer_overhead : ℕ
scope_buffer_overhead = 1024

abbrev pub reserved_scopes_overhead : ℕ
reserved_scopes_overhead = 2 * scope_buffer_overhead

-- The named values of EventsMode. Other ints, which ParseEventsMode never gives, are left out.
pub data EventsMode : Type 0 where
  off notify full : EventsMode

-- `EventsMode.String`, on the named values.
unfoldable pub events_mode_string : EventsMode → Bytes
events_mode_string off = bytes "off"
events_mode_string notify = bytes "notify"
events_mode_string full = bytes "full"

-- `ParseEventsMode`; `none` is its error, with which it returns `off`.
unfoldable pub parse_events_mode : Bytes → Option EventsMode
parse_events_mode s =
    if is_empty s || bytes_beq s (bytes "off")
    then some off
    else if bytes_beq s (bytes "notify")
    then some notify
    else if bytes_beq s (bytes "full")
    then some full
    else none

pub record InboxConfig : Type 0 where
  pub max_items : ℕ
  pub max_item_bytes : ℕ

pub record Config : Type 0 where
  pub scope_max_items : ℕ
  pub max_store_bytes : ℕ
  pub max_item_bytes : ℕ
  pub events_mode : EventsMode
  pub inbox : InboxConfig

-- `if v <= 0 { v = d }`, on int64.
abbrev pub or_default : ℕ → ℕ → ℕ
or_default v d = if slt 0 v then v else d

unfoldable pub with_defaults : Config → Config
with_defaults c =
    let scope_items = or_default c.scope_max_items default_scope_max_items in
    let store_bytes = or_default c.max_store_bytes (max_store_mib * 2 ^ 20) in
    record {
      scope_max_items = scope_items;
      max_store_bytes =
          if slt store_bytes reserved_scopes_overhead
          then reserved_scopes_overhead
          else store_bytes;
      max_item_bytes = or_default c.max_item_bytes default_max_item_bytes;
      events_mode = c.events_mode;
      inbox = record {
        max_items = or_default c.inbox.max_items scope_items;
        max_item_bytes = or_default c.inbox.max_item_bytes default_inbox_max_item_bytes;
      };
    }

-- `*counterCell` is an index into the cells of the scope (ScopeBuffer.cells): the copies of an item
-- in the slice and in the two maps share the cell.
pub record Item : Type 0 where
  pub scope : Bytes
  pub id : Bytes
  pub seq : ℕ
  pub ts : ℕ
  pub payload : Bytes
  pub render_bytes : Option Bytes
  pub counter : Option ℕ

pub record CounterCell : Type 0 where
  pub value : ℕ
  pub ts : ℕ

abbrev pub counter_cell_overhead : ℕ
counter_cell_overhead = 24 + 32

pub record ScopeCapacityOffender : Type 0 where
  pub scope : Bytes
  pub count : ℕ
  pub cap : ℕ

-- `len` of a `[]byte` that may be nil.
abbrev pub length_opt : Option Bytes → ℕ
length_opt none = 0
length_opt (some b) = length b

-- The part of the cost that the payload decides.
abbrev pub payload_cost : Item → ℕ
payload_cost item = elim item.counter [
  | some _ ↦ counter_cell_overhead
  | none ↦ length item.payload + length_opt item.render_bytes
]

-- The cost before it wraps; 48 is 32 for the struct, 8 for seq and 8 for ts.
abbrev pub raw_size : Item → ℕ
raw_size item = 48 + length item.scope + length item.id + payload_cost item

unfoldable pub approx_item_size : Item → ℕ
approx_item_size item = word (raw_size item)

unfoldable pub sum_lengths : List Item → ℕ
sum_lengths [] = 0
sum_lengths (x ∷ xs) = length x.scope + length x.id + length x.payload + sum_lengths xs

unfoldable pub estimate_multi_item_response_bytes : List Item → ℕ
unfolding sum_lengths
estimate_multi_item_response_bytes items = word (80 + length items * 25 + sum_lengths items)

unfoldable pub bulk_request_bytes_for : ℕ → ℕ
bulk_request_bytes_for max_store_bytes =
    word (max_store_bytes + max_store_bytes / 10 + bulk_request_bytes_overhead)

unfoldable pub single_request_bytes_for : ℕ → ℕ
single_request_bytes_for max_item_bytes = add64 max_item_bytes single_request_bytes_overhead
