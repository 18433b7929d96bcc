-- ===== src/Http/Write.antt =====
-- handlers_write.go: handleAppend, handleUpsert, handleCounterAdd, handleUpdate.
use inmem_cache.Base.{ℕ, Bool, true, none, some, [], ◌∷◌}
use inmem_cache.Base.Word.{slt}
use inmem_cache.Base.Bytes.{Bytes, bytes}
use inmem_cache.Json.{Json}
use inmem_cache.Types.{Item}
use inmem_cache.Validate.{CounterAddRequest}
use inmem_cache.Store.{Store}
use inmem_cache.Store.Sharding.{Hash}
use inmem_cache.Store.Events.{append_one}
use inmem_cache.Store.Write.{upsert_one, counter_add_one, update_one}
use inmem_cache.Http.{
  Api, Decoder, Encoder, Fields, Message, Method, Parsed, parsed, rejected, Request, Served, Times,
  Value,
}
use inmem_cache.Http.Respond.{
  answer, decode_body, on_method, on_parsed, write_counter_error, write_mutation_error,
}

-- writeAck{…}
abbrev pub ack_of : Item → Value
ack_of x = Value.ack (record { scope = x.scope; id = x.id; seq = x.seq; ts = x.ts })

abbrev pub append_fields : Item → Fields
append_fields x = (bytes "ok", Value.flag true) ∷ (bytes "item", ack_of x) ∷ []

abbrev pub upsert_fields : Item × Bool → Fields
upsert_fields (x, created) =
    (bytes "ok", Value.flag true)
    ∷ (bytes "created", Value.flag created)
    ∷ (bytes "item", ack_of x)
    ∷ []

abbrev pub counter_fields : ℕ × Bool → Fields
counter_fields (value, created) =
    (bytes "ok", Value.flag true)
    ∷ (bytes "created", Value.flag created)
    ∷ (bytes "value", Value.number value)
    ∷ []

-- The response to a count: `field` is updated_count or deleted_count.
abbrev pub count_fields : Bytes → ℕ → Fields
count_fields field n =
    (bytes "ok", Value.flag true)
    ∷ (bytes "hit", Value.flag (slt 0 n))
    ∷ (field, Value.number n)
    ∷ []

-- `if req.By == nil`
unfoldable pub with_by : CounterAddRequest → Parsed (CounterAddRequest × ℕ)
with_by req = elim req.by [ none ↦ rejected Message.by_missing | some by ↦ parsed (req, by) ]

module _ ⦃hash : Hash⦄ ⦃json : Json⦄ ⦃enc : Encoder⦄ ⦃dec : Decoder⦄ where
  unfoldable pub handle_append : Api → Store → Request → Times → Served
  unfolding answer append_one write_mutation_error
  handle_append api s r t = on_method Method.post r s (t.elapsed 0) (
      on_parsed (decode_body api.max_single_bytes (dec.item api.max_single_bytes r.body)) s
        (t.elapsed 0)
        (λ item.
          answer (λ e. write_mutation_error e item.scope (t.elapsed 0)) append_fields (t.elapsed 0)
            (append_one s item t.clock)))

  unfoldable pub handle_upsert : Api → Store → Request → Times → Served
  unfolding answer upsert_one write_mutation_error
  handle_upsert api s r t = on_method Method.post r s (t.elapsed 0) (
      on_parsed (decode_body api.max_single_bytes (dec.item api.max_single_bytes r.body)) s
        (t.elapsed 0)
        (λ item.
          answer (λ e. write_mutation_error e item.scope (t.elapsed 0)) upsert_fields (t.elapsed 0)
            (upsert_one s item t.clock)))

  unfoldable pub handle_counter_add : Api → Store → Request → Times → Served
  unfolding answer with_by counter_add_one write_counter_error
  handle_counter_add api s r t = on_method Method.post r s (t.elapsed 0) (
      on_parsed (decode_body api.max_single_bytes (dec.counter_add api.max_single_bytes r.body)) s
        (t.elapsed 0)
        (λ req. on_parsed (with_by req) s (t.elapsed 0) (λ given.
          answer (λ e. write_counter_error e req.scope (t.elapsed 0)) counter_fields (t.elapsed 0)
            (counter_add_one s req.scope req.id given.1 t.clock))))

  unfoldable pub handle_update : Api → Store → Request → Times → Served
  unfolding answer update_one write_mutation_error
  handle_update api s r t = on_method Method.post r s (t.elapsed 0) (
      on_parsed (decode_body api.max_single_bytes (dec.item api.max_single_bytes r.body)) s
        (t.elapsed 0)
        (λ item.
          answer (λ e. write_mutation_error e (bytes "") (t.elapsed 0))
            (count_fields (bytes "updated_count")) (t.elapsed 0) (update_one s item t.clock)))
