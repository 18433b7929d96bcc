-- ===== src/Http/Respond.antt =====
-- handlers.go: decodeBody, the marshalling of a response, and the responders.
use inmem_cache.Base.{
  ℕ, zero, suc, ◌+◌, ◌-◌, false, Option, none, some, List, [], ◌∷◌, ◌++◌, length, take, ltb, ◌==◌,
  if◌then◌else◌,
}
use inmem_cache.Base.Word.{slt}
use inmem_cache.Base.Bytes.{Bytes, bytes}
use inmem_cache.Types.{ScopeCapacityOffender}
use inmem_cache.Errors.{
  Error, ok, err, invalid_input, scope_full, scope_capacity, store_full, counter_overflow,
}
use inmem_cache.Store.{Store, StoreOutcome, Clock}
use inmem_cache.Http.{
  Method, method_beq, Request, Message, Value, Fields, Encoder, Decoded, over_limit, malformed,
  decoded, ContentType, Response, Parsed, parsed, rejected, Served,
}

-- decodeBody
unfoldable pub decode_body : {A : Type 0} → ℕ → Decoded A → Parsed A
decode_body max over_limit = rejected (Message.body_too_large max)
decode_body max malformed = rejected Message.body_malformed
decode_body max (decoded a at_end) = if at_end then parsed a else rejected Message.body_trailing

infixl 5 ◌>>=◌
abbrev pub ◌>>=◌ {ℓ κ} : {A : Type ℓ} {B : Type κ} → Option A → (A → Option B) → Option B
none >>= f = none
some a >>= f = f a

abbrev pub json_response : ℕ → Bytes → Response
json_response status body = record { status = status; content_type = ContentType.json; body = body }

-- marshalFailureBody
abbrev pub marshal_failure_body : Bytes
marshal_failure_body = bytes "{\"ok\":false,\"error\":\"the response failed to marshal\"}\n"

abbrev pub duration : ℕ → Bytes × Value
duration us = (bytes "duration_us", Value.number us)

abbrev pub refusal : Message → Fields
refusal message = (bytes "ok", Value.flag false) ∷ (bytes "error", Value.message message) ∷ []

abbrev pub approx_key : Bytes
approx_key = bytes ",\"approx_response_mb\":"

module _ ⦃enc : Encoder⦄ where
  -- The loop of MarshalJSON from its round `i` on, and the closing brace.
  unfoldable pub write_fields : ℕ → Fields → Option Bytes
  write_fields i [] = some (b'}' ∷ [])
  write_fields i ((k, v) ∷ fields) =
      let rest = write_fields (i + 1) fields in
      do
        key ← enc.key k
        val ← enc.value v
        more ← rest
        some ((if ltb 0 i then b',' ∷ [] else []) ++ key ++ b':' ∷ val ++ more)

  unfoldable pub marshal_json : Fields → Option Bytes
  unfolding write_fields
  marshal_json fields = do body ← write_fields 0 fields; some (b'{' ∷ body)

  -- `json.Marshal(payload)`
  unfoldable pub marshal : Fields → Option Bytes
  unfolding marshal_json
  marshal fields = do text ← marshal_json fields; enc.compact text

  unfoldable pub write_json_with_duration : ℕ → Fields → ℕ → Response
  unfolding marshal
  write_json_with_duration code payload us = elim (marshal (payload ++ duration us ∷ [])) [
    | none ↦ json_response 500 marshal_failure_body
    | some body ↦ json_response code (body ++ b'\n' ∷ [])
  ]

  -- The loop of marshalWithApproxSize: what it leaves in valueBytes. `size` is len(bodyBytes).
  unfoldable pub approx_value : ℕ → ℕ → ℕ → Bytes → Bytes
  approx_value zero size final_size value = value
  approx_value (suc rounds) size final_size value = elim (enc.value (Value.mb final_size)) [
    | none ↦ value
    | some v ↦
        let candidate = size - 1 + length approx_key + length v + 1 in
        let again = approx_value rounds size candidate v in
        if candidate == final_size then v else again
  ]

  -- marshalWithApproxSize: the text, which keeps all of the body but its closing brace.
  unfoldable pub marshal_with_approx_size : Fields → ℕ → Option Bytes
  unfolding marshal approx_value
  marshal_with_approx_size payload us = do
    body ← marshal (payload ++ duration us ∷ [])
    some (
        take (length body - 1) body
        ++ approx_key
        ++ approx_value 3 (length body) (length body + length approx_key + 8) []
        ++ bytes "}\n")

  -- `elapsed 1` is read only where the marshalling failed.
  unfoldable pub write_json_with_meta : ℕ → Fields → Clock → Response
  unfolding marshal_with_approx_size
  write_json_with_meta code payload elapsed = elim (marshal_with_approx_size payload (elapsed 0)) [
    | none ↦ write_json_with_duration code payload (elapsed 1)
    | some out ↦ json_response code out
  ]

  unfoldable pub refuse : ℕ → Message → ℕ → Response
  refuse status message us = write_json_with_duration status (refusal message) us

  abbrev pub bad_request : Message → ℕ → Response
  unfolding refuse
  bad_request message us = refuse 400 message us

  abbrev pub conflict : Message → ℕ → Response
  unfolding refuse
  conflict message us = refuse 409 message us

  abbrev pub method_not_allowed : ℕ → Response
  unfolding refuse
  method_not_allowed us = refuse 405 Message.method_refused us

  unfoldable pub scope_full_response : List ScopeCapacityOffender → ℕ → Response
  scope_full_response offenders us =
      let message =
        if ltb 1 (length offenders)
        then Message.scopes_at_capacity
        else Message.scope_at_capacity in
      write_json_with_duration 507
        ((bytes "ok", Value.flag false)
          ∷ (bytes "error", Value.message message)
          ∷ (bytes "scopes", Value.offenders offenders)
          ∷ [])
        us

  -- storeFull, on the three fields of StoreFullError.
  unfoldable pub store_full_response : ℕ → ℕ → ℕ → ℕ → Response
  store_full_response store_bytes added_bytes cap us =
      write_json_with_duration 507
        ((bytes "ok", Value.flag false)
          ∷ (bytes "error", Value.message Message.store_at_capacity)
          ∷ (bytes "approx_store_mb", Value.mb store_bytes)
          ∷ (bytes "added_mb", Value.mb added_bytes)
          ∷ (bytes "max_store_mb", Value.mb cap)
          ∷ [])
        us

  unfoldable pub response_too_large : ℕ → ℕ → ℕ → Response
  response_too_large written cap us =
      write_json_with_duration 507
        ((bytes "ok", Value.flag false)
          ∷ (bytes "error", Value.message Message.response_over_cap)
          ∷ (bytes "approx_response_mb", Value.mb written)
          ∷ (bytes "max_response_mb", Value.mb cap)
          ∷ [])
        us

  unfoldable pub write_json_with_meta_cap : ℕ → Fields → Clock → ℕ → Response
  unfolding marshal_with_approx_size response_too_large
  write_json_with_meta_cap code payload elapsed max_bytes =
      elim (marshal_with_approx_size payload (elapsed 0)) [
        | none ↦ write_json_with_duration code payload (elapsed 1)
        | some out ↦
            if slt max_bytes (length out)
            then response_too_large (length out) max_bytes (elapsed 1)
            else json_response code out
      ]

  -- writeStoreCapacityError: the response, where the error is one of the three.
  unfoldable pub write_store_capacity_error : Error → Bytes → ℕ → Option Response
  unfolding scope_full_response store_full_response
  write_store_capacity_error (scope_full count cap) scope us =
      some (scope_full_response (record { scope = scope; count = count; cap = cap } ∷ []) us)
  write_store_capacity_error (scope_capacity offenders) scope us =
      some (scope_full_response offenders us)
  write_store_capacity_error (store_full store_bytes added_bytes cap) scope us =
      some (store_full_response store_bytes added_bytes cap us)
  write_store_capacity_error _ scope us = none

  abbrev pub or_conflict : Option Response → Error → ℕ → Response
  unfolding refuse
  or_conflict none e us = conflict (Message.of_error e) us
  or_conflict (some response) e us = response

  unfoldable pub write_mutation_error : Error → Bytes → ℕ → Response
  unfolding refuse write_store_capacity_error
  write_mutation_error (invalid_input r) scope us =
      bad_request (Message.of_error (invalid_input r)) us
  write_mutation_error e scope us = or_conflict (write_store_capacity_error e scope us) e us

  -- The errors of a delete: an invalid input is a 400, and all else a 409.
  unfoldable pub write_delete_error : Error → ℕ → Response
  unfolding refuse
  write_delete_error (invalid_input r) us = bad_request (Message.of_error (invalid_input r)) us
  write_delete_error e us = conflict (Message.of_error e) us

  -- The errors of handleCounterAdd.
  unfoldable pub write_counter_error : Error → Bytes → ℕ → Response
  unfolding refuse write_store_capacity_error
  write_counter_error (invalid_input r) scope us =
      bad_request (Message.of_error (invalid_input r)) us
  write_counter_error (counter_overflow current by) scope us =
      bad_request (Message.of_error (counter_overflow current by)) us
  write_counter_error e scope us = or_conflict (write_store_capacity_error e scope us) e us

  -- `if r.Method != method { methodNotAllowed; return }`
  unfoldable pub on_method : Method → Request → Store → ℕ → Served → Served
  unfolding refuse
  on_method method r s us served =
      if method_beq r.method method then served else (method_not_allowed us, s)

  -- `if err != nil { badRequest; return }` after a parser.
  unfoldable pub on_parsed : {A : Type 0} → Parsed A → Store → ℕ → (A → Served) → Served
  unfolding refuse
  on_parsed (rejected message) s us served = (bad_request message us, s)
  on_parsed (parsed a) s us served = served a

  -- The response to an operation of the store, from its error or from its result.
  unfoldable pub answer :
      {A : Type 0} → (Error → Response) → (A → Fields) → ℕ → StoreOutcome A → Served
  answer failed fields us (err e, s) = (failed e, s)
  answer failed fields us (ok a, s) = (write_json_with_duration 200 (fields a) us, s)
