-- ===== src/Json.antt =====
-- What the cache takes from Go's encoding/json: the interface that the components are built over.
-- Nothing is assumed of the four functions.
use inmem_cache.Base.{ℕ, Bool, Option}
use inmem_cache.Base.Bytes.{Bytes}

-- events.go, `writeEvent`. A field with `omitempty` is left out of the text where it is empty.
pub record WriteEvent : Type 0 where
  pub op : Bytes
  pub scope : Bytes
  pub id : Bytes
  pub seq : ℕ
  pub ts : ℕ
  pub payload : Bytes
  pub by : Option ℕ
  pub max_seq : ℕ

pub record Json : Type 0 where
  -- json.Valid
  pub valid : Bytes → Bool
  -- json.Unmarshal into a string; `none` is an error
  pub unmarshal_string : Bytes → Option Bytes
  -- json.Unmarshal into a json.Number: the literal
  pub unmarshal_number : Bytes → Option Bytes
  -- json.Marshal of an event
  pub marshal_event : WriteEvent → Option Bytes
