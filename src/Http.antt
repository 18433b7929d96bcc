-- ===== src/Http.antt =====
-- api.go and handlers.go: the HTTP layer in front of the store. A handler is given the request and
-- the store, and returns what it writes and the store after it. Of net/http it is taken that a
-- request has a method, a body and a query whose keys have a first value; `elapsed` are the readings
-- of `time.Since(started)`.
pub mod Respond
pub mod Params
pub mod Write
pub mod Delete
pub mod Bulk
pub mod Observe
pub mod Read
pub mod Routes
pub mod Guards
pub mod Reports
pub mod ReadOnly
pub mod Cap
pub mod Size
mod Tests
use inmem_cache.Base.{ℕ, Bool, true, false, Option, none, some, List, if◌then◌else◌}
use inmem_cache.Base.Bytes.{Bytes, bytes, bytes_eq}
use inmem_cache.Base.Map
use inmem_cache.Base.Map.{Map}
use inmem_cache.Types.{
  Item, ScopeCapacityOffender, bulk_request_bytes_for, single_request_bytes_for,
}
use inmem_cache.Errors.{Error, Reason}
use inmem_cache.Ledger.{max_item_bytes_any_scope}
use inmem_cache.Validate.{CounterAddRequest, DeleteRequest, DeleteUpToRequest}
use inmem_cache.Store.{Store, Clock}
use inmem_cache.Store.Read.{ReservedScopeEntry, ScopeListEntry}

pub data Method : Type 0 where
  get post other : Method

abbrev pub method_beq : Method → Method → Bool
method_beq get get = true
method_beq post post = true
method_beq other other = true
method_beq _ _ = false

pub record Request : Type 0 where
  pub method : Method
  pub body : Bytes
  pub query : Map Bytes Bytes

-- `query.Get`: the empty string where the key is missing.
abbrev pub value_or_empty : Option Bytes → Bytes
value_or_empty none = bytes ""
value_or_empty (some v) = v

unfoldable pub query_get : Request → Bytes → Bytes
unfolding Map.lookup
query_get r name = value_or_empty (Map.lookup r.query name)

abbrev pub is_some : Option Bytes → Bool
is_some none = false
is_some (some v) = true

unfoldable pub query_has : Request → Bytes → Bool
unfolding Map.lookup
query_has r name = is_some (Map.lookup r.query name)

-- The texts of errors, by what they tell apart: an error of the store, a reason of a validator, and
-- the literals of the handlers.
pub data Message : Type 0 where
  of_error : Error → Message
  of_reason : Reason → Message
  body_too_large : ℕ → Message
  body_malformed body_trailing : Message
  by_missing items_empty : Message
  id_or_seq bad_seq bad_limit bad_offset bad_after_seq offset_unsupported : Message
  scope_at_capacity scopes_at_capacity store_at_capacity : Message
  response_over_cap method_refused : Message

-- writeAck
pub record WriteAck : Type 0 where
  pub scope : Bytes
  pub id : Bytes
  pub seq : ℕ
  pub ts : ℕ

-- The values of `kv`; `mb` is an MB, and `no_item` is nil.
pub data Value : Type 0 where
  flag : Bool → Value
  number : ℕ → Value
  mb : ℕ → Value
  message : Message → Value
  ack : WriteAck → Value
  one_item : Item → Value
  no_item : Value
  many_items : List Item → Value
  offenders : List ScopeCapacityOffender → Value
  listed_scopes : List ScopeListEntry → Value
  reserved_entries : List ReservedScopeEntry → Value

-- orderedFields
abbrev pub Fields : Type 0
Fields = List (Bytes × Value)

-- json.Marshal on a key and on a value, and what it does to the text of a Marshaler: it checks and
-- compacts it.
pub record Encoder : Type 0 where
  pub key : Bytes → Option Bytes
  pub value : Value → Option Bytes
  pub compact : Bytes → Option Bytes

-- What json.Decoder makes of a body behind a MaxBytesReader: the reader's error, another error, or a
-- value, and then whether the second Decode returns io.EOF.
pub data Decoded (A : Type 0) : Type 0 where
  over_limit malformed : Decoded A
  decoded : A → Bool → Decoded A

-- The decoder at the types that handlers decode; the first argument is the limit of the reader.
pub record Decoder : Type 0 where
  pub item : ℕ → Bytes → Decoded Item
  pub counter_add : ℕ → Bytes → Decoded CounterAddRequest
  pub delete : ℕ → Bytes → Decoded DeleteRequest
  pub delete_up_to : ℕ → Bytes → Decoded DeleteUpToRequest
  pub delete_scope : ℕ → Bytes → Decoded Bytes
  pub items : ℕ → Bytes → Decoded (List Item)

pub data ContentType : Type 0 where
  json text octets : ContentType

pub record Response : Type 0 where
  pub status : ℕ
  pub content_type : ContentType
  pub body : Bytes

-- API, without its store.
pub record Api : Type 0 where
  pub max_bulk_bytes : ℕ
  pub max_single_bytes : ℕ
  pub max_response_bytes : ℕ

-- NewAPI
unfoldable pub new_api : Store → Api
unfolding bulk_request_bytes_for single_request_bytes_for max_item_bytes_any_scope
new_api s = record {
  max_bulk_bytes = bulk_request_bytes_for s.ledger.max_store_bytes;
  max_single_bytes = single_request_bytes_for (max_item_bytes_any_scope s.ledger);
  max_response_bytes = s.ledger.max_store_bytes;
}

-- The result of a parser of the request: an `error` is its text.
pub data Parsed {ℓ} (A : Type ℓ) : Type ℓ where
  parsed : A → Parsed A
  rejected : Message → Parsed A

-- What a handler writes, and the store after it.
abbrev pub Served : Type 0
Served = Response × Store

-- The readings of the clock in a request: of an operation of the store, of the phases of a bulk one,
-- and of the time that went by.
pub record Times : Type 0 where
  pub clock : Clock
  pub build : Clock
  pub make : Clock
  pub commit : Clock
  pub emit : Clock
  pub elapsed : Clock
