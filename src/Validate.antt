-- ===== src/Validate.antt =====
-- validation.go: the shape rules of the write and delete paths. An `error` that is nil is `none`;
-- the name of the endpoint, which only the text of an error has, is left out.
pub mod Space
pub mod Params
pub mod Laws
mod Tests
use inmem_cache.Base.{
  ℕ, Bool, true, false, ◌&&◌, ◌||◌, not, Option, none, some, List, [], ◌∷◌, ◌++◌, length, ◌==◌, ltb,
  leb, if◌then◌else◌, nat_eq, ◌^◌, ◌-◌,
}
use inmem_cache.Base.Word.{slt}
use inmem_cache.Base.Bytes.{Bytes, bytes, is_empty, bytes_beq, bytes_eq}
use inmem_cache.Base.Map
use inmem_cache.Base.Map.{Map}
use inmem_cache.Json.{Json}
use inmem_cache.Types.{
  Item, max_scope_bytes, max_id_bytes, max_counter_value, approx_item_size, events_scope_name,
  inbox_scope_name,
}
use inmem_cache.Errors.{Field, Reason, Error, Result, ok, err, invalid_input}
use inmem_cache.Buffer.{render_or_compute}
use inmem_cache.Buffer.Counter.{counter_item, out_of_counter_range}
use inmem_cache.Validate.Space.{trim_space}

-- isReservedScope
unfoldable pub is_reserved_scope : Bytes → Bool
is_reserved_scope scope = bytes_beq scope events_scope_name || bytes_beq scope inbox_scope_name

-- wrapValidation, as the error of a handler that returns nothing else.
abbrev pub wrap_validation : Option Reason → Option Error
wrap_validation none = none
wrap_validation (some r) = some (invalid_input r)

-- `if err := c; err != nil { return err }; rest`
infixr 20 ◌orelse◌
abbrev pub ◌orelse◌ : Option Reason → Option Reason → Option Reason
none orelse rest = rest
(some r) orelse rest = some r

-- The error `r` where the test holds.
abbrev pub reject_if : Bool → Reason → Option Reason
reject_if c r = if c then some r else none

-- The loop over the bytes of a key: a byte below 0x20, or 0x7f.
unfoldable pub has_control_byte : Bytes → Bool
has_control_byte [] = false
has_control_byte (c ∷ s) = (ltb c 32 || c == 127) || has_control_byte s

unfoldable pub check_key_field : Field → Bytes → ℕ → Option Reason
unfolding trim_space has_control_byte
check_key_field field value max_len =
    reject_if (ltb max_len (length value)) (Reason.too_long field)
    orelse reject_if (not (bytes_beq value (trim_space value))) (Reason.has_whitespace field)
    orelse reject_if (has_control_byte value) (Reason.has_control field)

unfoldable pub validate_scope : Bytes → Option Reason
unfolding check_key_field
validate_scope scope =
    if is_empty scope
    then some (Reason.required Field.scope)
    else check_key_field Field.scope scope max_scope_bytes

unfoldable pub validate_id : Bytes → Option Reason
unfolding check_key_field
validate_id id = if is_empty id then none else check_key_field Field.id id max_id_bytes

unfoldable pub require_id : Bytes → Option Reason
unfolding check_key_field
require_id id =
    if is_empty id
    then some (Reason.required Field.id)
    else check_key_field Field.id id max_id_bytes

-- `hasID == hasSeq`, each given by its absence.
abbrev pub same : Bool → Bool → Bool
same true c = c
same false c = not c

unfoldable pub validate_id_or_seq : Bytes → ℕ → Option Reason
unfolding check_key_field
validate_id_or_seq id seq =
    if same (is_empty id) (seq == 0)
    then some Reason.id_xor_seq
    else if is_empty id
    then none
    else check_key_field Field.id id max_id_bytes

unfoldable pub reject_client_ts : Item → Option Reason
reject_client_ts item = reject_if (not (item.ts == 0)) Reason.ts_managed

abbrev reject_seq : Item → Option Reason
reject_seq item = reject_if (not (item.seq == 0)) Reason.seq_managed

abbrev reject_reserved : Bytes → Option Reason
reject_reserved scope = reject_if (is_reserved_scope scope) (Reason.reserved scope)

-- The requests of handlers.go that validators take; `by` is a pointer there.
pub record CounterAddRequest : Type 0 where
  pub scope : Bytes
  pub id : Bytes
  pub by : Option ℕ

pub record DeleteRequest : Type 0 where
  pub scope : Bytes
  pub id : Bytes
  pub seq : ℕ

pub record DeleteUpToRequest : Type 0 where
  pub scope : Bytes
  pub max_seq : ℕ

module _ ⦃json : Json⦄ where
  unfoldable pub validate_payload : Bytes → Option Reason
  unfolding trim_space
  validate_payload p =
      reject_if (is_empty p || bytes_beq (trim_space p) (bytes "null")) Reason.payload_required
      orelse reject_if (not (json.valid p)) Reason.payload_invalid

  -- The item that checkItemSize leaves behind its pointer.
  abbrev pub with_render : Item → Item
  with_render item = record item { render_bytes = render_or_compute item.render_bytes item.payload }

  unfoldable pub check_item_size : Item → ℕ → Option Reason
  check_item_size item max_item_bytes =
      let size = approx_item_size (with_render item) in
      reject_if (slt max_item_bytes size) (Reason.item_too_large size max_item_bytes)

  -- A validator that is given an item by its pointer: the item with its renderBytes, or the error.
  abbrev checked : Item → Option Reason → Result Item
  checked item none = ok (with_render item)
  checked item (some r) = err (invalid_input r)

  unfoldable pub validate_write_item : Item → ℕ → Result Item
  unfolding validate_scope validate_id validate_payload reject_client_ts check_item_size
  validate_write_item item max_item_bytes = checked item (
      validate_scope item.scope
      orelse validate_id item.id
      orelse validate_payload item.payload
      orelse reject_seq item
      orelse reject_client_ts item
      orelse check_item_size item max_item_bytes)

  unfoldable pub validate_upsert_item : Item → ℕ → Result Item
  unfolding validate_scope require_id validate_payload reject_client_ts check_item_size
      is_reserved_scope
  validate_upsert_item item max_item_bytes = checked item (
      validate_scope item.scope
      orelse reject_reserved item.scope
      orelse require_id item.id
      orelse validate_payload item.payload
      orelse reject_seq item
      orelse reject_client_ts item
      orelse check_item_size item max_item_bytes)

  unfoldable pub validate_update_item : Item → ℕ → Result Item
  unfolding validate_scope validate_id_or_seq validate_payload reject_client_ts check_item_size
      is_reserved_scope
  validate_update_item item max_item_bytes = checked item (
      validate_scope item.scope
      orelse reject_reserved item.scope
      orelse validate_id_or_seq item.id item.seq
      orelse validate_payload item.payload
      orelse reject_client_ts item
      orelse check_item_size item max_item_bytes)

-- The tests of validateCounterAddRequest on a `by` that is there.
unfoldable pub check_by : CounterAddRequest → ℕ → ℕ → Result ℕ
check_by req by max_item_bytes =
    let size = approx_item_size (counter_item req.scope req.id 0 0) in
    if by == 0
    then err (invalid_input Reason.by_zero)
    else if out_of_counter_range by
    then err (invalid_input Reason.by_range)
    else if slt 0 max_item_bytes && slt max_item_bytes size
    then err (invalid_input (Reason.item_too_large size max_item_bytes))
    else ok by

unfoldable pub validate_counter_add_request : CounterAddRequest → ℕ → Result ℕ
unfolding validate_scope require_id check_by is_reserved_scope
validate_counter_add_request req max_item_bytes =
    elim (validate_scope req.scope orelse reject_reserved req.scope orelse require_id req.id) [
      | some r ↦ err (invalid_input r)
      | none ↦ elim req.by [
        | none ↦ err (invalid_input Reason.by_required)
        | some by ↦ check_by req by max_item_bytes
      ]
    ]

unfoldable pub validate_delete_request : DeleteRequest → Option Error
unfolding validate_scope validate_id_or_seq
validate_delete_request req =
    wrap_validation (validate_scope req.scope orelse validate_id_or_seq req.id req.seq)

unfoldable pub validate_delete_scope_request : Bytes → Option Error
unfolding validate_scope is_reserved_scope
validate_delete_scope_request scope =
    wrap_validation (validate_scope scope orelse reject_reserved scope)

unfoldable pub validate_delete_up_to_request : DeleteUpToRequest → Option Error
unfolding validate_scope
validate_delete_up_to_request req =
    wrap_validation
      (validate_scope req.scope orelse reject_if (req.max_seq == 0) Reason.max_seq_required)

-- groupItemsByScope. `grouped[item.Scope] = append(grouped[item.Scope], item)`
abbrev items_of : Option (List Item) → List Item
items_of none = []
items_of (some items) = items

unfoldable pub group_into : Map Bytes (List Item) → List Item → Map Bytes (List Item)
unfolding Map.put
group_into grouped [] = grouped
group_into grouped (x ∷ xs) =
    group_into (Map.put grouped x.scope (items_of (Map.lookup grouped x.scope) ++ x ∷ [])) xs

unfoldable pub group_items_by_scope : List Item → Map Bytes (List Item)
unfolding group_into
group_items_by_scope items = group_into [] items
