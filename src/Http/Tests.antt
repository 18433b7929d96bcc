-- ===== src/Http/Tests.antt =====
-- Requests to a store with one item, and the theorems at them.
use inmem_cache.Base.{
  ℕ, ◌+◌, ◌-◌, ◌≡◌, ◌≢◌, refl, sym, ◌∙◌, if◌then◌else◌, Bool, true, false, none, some, [], ◌∷◌,
  ◌++◌, length, take, arith,
}
use inmem_cache.Base.Bytes.{Bytes, bytes, bytes_beq}
use inmem_cache.Types.{Item}
use inmem_cache.Buffer.Fixture.{plain_json, first}
use inmem_cache.Validate.{CounterAddRequest, validate_scope}
use inmem_cache.Store.Events.{append_one}
use inmem_cache.Store.Write.{upsert_one, update_one, counter_add_one}
use inmem_cache.Store.Valid.Refused.{Untouched}
use inmem_cache.Store.Fixture.{by_length, ticks, seeded, seeded-IsSound}
use inmem_cache.Types.Megabytes.{mb_text}
use inmem_cache.Http.{
  Api, Decoded, Decoder, Encoder, Fields, Method, Request, Times, Value, decoded, malformed,
  new_api, parsed, query_get,
}
use inmem_cache.Http.Respond.{
  approx_key, duration, marshal, marshal_json, marshal_with_approx_size, write_fields, ◌>>=◌,
}
use inmem_cache.Http.Params.{LookupTarget, ScopeLimit}
use inmem_cache.Http.Params.Laws.{Addresses, parse_lookup_target-Addresses}
use inmem_cache.Http.Write.{handle_append, handle_upsert, handle_update, handle_counter_add}
use inmem_cache.Http.Read.{handle_head, handle_tail}
use inmem_cache.Http.Observe.{handle_scope_list}
use inmem_cache.Http.Routes.{Endpoint, serve}
use inmem_cache.Http.Guards.{Refuses, serve-method, serve-body}
use inmem_cache.Http.Reports.{
  Reports, status_of, counter_status_of, item_handlers-Report, handle_counter_add-Reports,
  handle_append-Atomic,
}
use inmem_cache.Http.ReadOnly.{SameData, serve-SameData}
use inmem_cache.Http.Cap.{IsSteady, IsCapped, list_handlers-IsCapped}
use inmem_cache.Http.Size.{marshal_with_approx_size_exact}

abbrev value_text : Value → Bytes
value_text (Value.mb n) = mb_text n
value_text _ = bytes "1"

instance abbrev plain_encoder : Encoder
plain_encoder = record {
  key = λ name. some name;
  value = λ v. some (value_text v);
  compact = λ text. some text;
}

abbrev given : {A : Type 0} → A → Bytes → Decoded A
given a [] = malformed
given a (c ∷ body) = decoded a true

abbrev is_byte : Bytes → Bool
is_byte (c ∷ []) = true
is_byte _ = false

abbrev nameless : Item
nameless = record first { scope = [] }

abbrev add_seven : CounterAddRequest
add_seven = record { scope = bytes "s"; id = bytes "a"; by = some 7 }

-- An empty body is malformed, an item of one byte has no scope, and any other is one fixed value.
instance abbrev plain_decoder : Decoder
plain_decoder = record {
  item = λ max body. given (if is_byte body then nameless else first) body;
  counter_add = λ max body. given add_seven body;
  delete = λ max body. given (record { scope = bytes "s"; id = bytes "a"; seq = 0 }) body;
  delete_up_to = λ max body. given (record { scope = bytes "s"; max_seq = 9 }) body;
  delete_scope = λ max body. given (bytes "s") body;
  items = λ max body. given (first ∷ []) body;
}

abbrev api : Api
api = record { max_bulk_bytes = 100000; max_single_bytes = 5000; max_response_bytes = 300 }

abbrev times : Times
times = record {
  clock = ticks;
  build = ticks;
  make = ticks;
  commit = ticks;
  emit = ticks;
  elapsed = ticks;
}

abbrev posted : Bytes → Request
posted body = record { method = Method.post; body = body; query = [] }

abbrev asked : Request
asked = record {
  method = Method.get;
  body = [];
  query =
      (bytes "scope", bytes "s") ∷ (bytes "limit", bytes "20000") ∷ (bytes "id", bytes "a") ∷ [];
}

serve-method_example : Refuses 405 seeded (serve Endpoint.wipe api seeded asked times)
serve-method_example = serve-method api seeded asked times Endpoint.wipe refl

serve-body_example : Refuses 400 seeded (serve Endpoint.rebuild api seeded (posted []) times)
serve-body_example = serve-body api seeded (posted []) times Endpoint.rebuild refl refl

item_handlers-Report_example :
    Reports status_of
      (append_one seeded first ticks)
      (handle_append api seeded (posted (bytes "{}")) times)
    × Reports status_of
        (upsert_one seeded first ticks)
        (handle_upsert api seeded (posted (bytes "{}")) times)
    × Reports status_of
        (update_one seeded first ticks)
        (handle_update api seeded (posted (bytes "{}")) times)
item_handlers-Report_example =
    item_handlers-Report api seeded (posted (bytes "{}")) times refl first refl

handle_counter_add-Reports_example :
    Reports counter_status_of
      (counter_add_one seeded (bytes "s") (bytes "a") 7 ticks)
      (handle_counter_add api seeded (posted (bytes "{}")) times)
handle_counter_add-Reports_example =
    handle_counter_add-Reports api seeded (posted (bytes "{}")) times refl add_seven 7 refl refl

serve-SameData_example : SameData seeded (serve Endpoint.tail api seeded asked times).1
serve-SameData_example =
    serve-SameData api seeded asked times seeded-IsSound.stored.sharded Endpoint.tail refl

-- Every response marshals.
write_fields-ne-none : (i : ℕ) (fields : Fields) → write_fields i fields ≢ none
unfolding write_fields
write_fields-ne-none i [] = ground arith
write_fields-ne-none i (f ∷ fields) = ground (arith, write_fields-ne-none (i + 1) fields)

steady : IsSteady
unfolding marshal marshal_json
steady payload us vs h =
    absurd (ground (arith, h, write_fields-ne-none 0 (payload ++ duration us ∷ [])))

list_handlers-IsCapped_example :
    IsCapped 300 (handle_head api seeded asked times).0
    × IsCapped 300 (handle_tail api seeded asked times).0
    × IsCapped 300 (handle_scope_list api seeded asked times).0
list_handlers-IsCapped_example = list_handlers-IsCapped api seeded asked times steady

marshal_with_approx_size_exact_example :
    (out : Bytes) × (marshal_with_approx_size ((bytes "ok", Value.flag true) ∷ []) 7 ≡ some out)
    × (out
        ≡ take (length (bytes "{ok:1,duration_us:1}") - 1) (bytes "{ok:1,duration_us:1}")
          ++ approx_key
          ++ mb_text (length out - 1)
          ++ bytes "}\n")
unfolding marshal marshal_json write_fields
marshal_with_approx_size_exact_example =
    marshal_with_approx_size_exact (λ n small. refl) ((bytes "ok", Value.flag true) ∷ []) 7
      (bytes "{ok:1,duration_us:1}") refl (omega arith)

parse_lookup_target-Addresses_example :
    (bytes "s" ≡ query_get asked (bytes "scope"))
    × (validate_scope (bytes "s") ≡ none)
    × Addresses asked (record { scope = bytes "s"; by_id = true; id = bytes "a"; seq = 0 })
unfolding inmem_cache.Http.Params.parse_lookup_target bytes_beq
parse_lookup_target-Addresses_example =
    parse_lookup_target-Addresses asked
      (record { scope = bytes "s"; by_id = true; id = bytes "a"; seq = 0 }) refl

-- An append of an item without a scope is answered with a 400.
nameless_status : (handle_append api seeded (posted (bytes "x")) times).0.status ≡ 400
unfolding handle_append append_one inmem_cache.Http.Respond.on_method
    inmem_cache.Http.Respond.on_parsed inmem_cache.Http.Respond.decode_body
    inmem_cache.Http.Respond.answer inmem_cache.Http.Respond.write_mutation_error
    inmem_cache.Http.Respond.refuse inmem_cache.Http.Respond.write_json_with_duration marshal
    marshal_json write_fields inmem_cache.Validate.validate_write_item bytes_beq
nameless_status = refl

handle_append-Atomic_example :
    Untouched seeded (handle_append api seeded (posted (bytes "x")) times).1
handle_append-Atomic_example =
    handle_append-Atomic api seeded (posted (bytes "x")) times seeded-IsSound.stored
      (λ e. absurd (ground (arith, sym nameless_status ∙ e)))
      (λ e. absurd (ground (arith, sym nameless_status ∙ e)))
