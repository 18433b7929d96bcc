-- ===== src/Http/Bulk.antt =====
-- handlers_bulk.go: handleWarm and handleRebuild.
use inmem_cache.Base.{ℕ, true, List, [], ◌∷◌, length, ◌==◌, if◌then◌else◌}
use inmem_cache.Base.Bytes.{bytes}
use inmem_cache.Json.{Json}
use inmem_cache.Types.{Item}
use inmem_cache.Validate.{group_items_by_scope}
use inmem_cache.Store.{Store}
use inmem_cache.Store.Sharding.{Hash}
use inmem_cache.Store.Bulk.{replace_scopes, rebuild_all}
use inmem_cache.Http.{
  Api, Decoder, Encoder, Fields, Message, Method, Parsed, parsed, rejected, Request, Served, Times,
  Value,
}
use inmem_cache.Http.Respond.{answer, decode_body, on_method, on_parsed, write_mutation_error}

abbrev pub warm_fields : List Item → ℕ → Fields
warm_fields items replaced_scopes =
    (bytes "ok", Value.flag true)
    ∷ (bytes "count", Value.number (length items))
    ∷ (bytes "replaced_scopes", Value.number replaced_scopes)
    ∷ []

abbrev pub rebuild_fields : List Item → ℕ × ℕ → Fields
rebuild_fields items (rebuilt_scopes, rebuilt_items) =
    (bytes "ok", Value.flag true)
    ∷ (bytes "count", Value.number (length items))
    ∷ (bytes "rebuilt_scopes", Value.number rebuilt_scopes)
    ∷ (bytes "rebuilt_items", Value.number rebuilt_items)
    ∷ []

-- `if len(req.Items) == 0`
unfoldable pub not_empty : List Item → Parsed (List Item)
not_empty items = if length items == 0 then rejected Message.items_empty else parsed items

module _ ⦃hash : Hash⦄ ⦃json : Json⦄ ⦃enc : Encoder⦄ ⦃dec : Decoder⦄ where
  unfoldable pub handle_warm : Api → Store → Request → Times → Served
  unfolding answer replace_scopes group_items_by_scope write_mutation_error
  handle_warm api s r t = on_method Method.post r s (t.elapsed 0) (
      on_parsed (decode_body api.max_bulk_bytes (dec.items api.max_bulk_bytes r.body)) s
        (t.elapsed 0)
        (λ items.
          answer (λ e. write_mutation_error e (bytes "") (t.elapsed 0)) (warm_fields items)
            (t.elapsed 0) (replace_scopes s (group_items_by_scope items) t.build t.commit t.emit)))

  unfoldable pub handle_rebuild : Api → Store → Request → Times → Served
  unfolding answer not_empty rebuild_all group_items_by_scope write_mutation_error
  handle_rebuild api s r t = on_method Method.post r s (t.elapsed 0) (
      on_parsed (decode_body api.max_bulk_bytes (dec.items api.max_bulk_bytes r.body)) s
        (t.elapsed 0)
        (λ sent. on_parsed (not_empty sent) s (t.elapsed 0) (λ items.
          answer (λ e. write_mutation_error e (bytes "") (t.elapsed 0)) (rebuild_fields items)
            (t.elapsed 0) (rebuild_all s (group_items_by_scope items) t.build t.make t.commit))))
