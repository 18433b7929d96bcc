-- ===== src/Http/Delete.antt =====
-- handlers_delete.go: handleDelete, handleDeleteUpTo, handleDeleteScope, handleWipe.
use inmem_cache.Base.{ℕ, Bool, true, [], ◌∷◌}
use inmem_cache.Base.Bytes.{bytes}
use inmem_cache.Json.{Json}
use inmem_cache.Store.{Store}
use inmem_cache.Store.Sharding.{Hash}
use inmem_cache.Store.Write.{delete_one, delete_up_to, delete_scope}
use inmem_cache.Store.Bulk.{wipe}
use inmem_cache.Http.{Api, Decoder, Encoder, Fields, Method, Request, Served, Times, Value}
use inmem_cache.Http.Respond.{
  answer, decode_body, on_method, on_parsed, write_delete_error, write_json_with_duration,
}
use inmem_cache.Http.Write.{count_fields}

abbrev pub deleted_scope_fields : ℕ × Bool → Fields
deleted_scope_fields (deleted_items, deleted) =
    (bytes "ok", Value.flag true)
    ∷ (bytes "hit", Value.flag deleted)
    ∷ (bytes "deleted_scope", Value.flag deleted)
    ∷ (bytes "deleted_items", Value.number deleted_items)
    ∷ []

abbrev pub wipe_fields : ℕ × ℕ × ℕ → Fields
wipe_fields (deleted_scopes, deleted_items, freed_bytes) =
    (bytes "ok", Value.flag true)
    ∷ (bytes "deleted_scopes", Value.number deleted_scopes)
    ∷ (bytes "deleted_items", Value.number deleted_items)
    ∷ (bytes "freed_mb", Value.mb freed_bytes)
    ∷ []

module _ ⦃hash : Hash⦄ ⦃json : Json⦄ ⦃enc : Encoder⦄ ⦃dec : Decoder⦄ where
  unfoldable pub handle_delete : Api → Store → Request → Times → Served
  unfolding answer delete_one write_delete_error
  handle_delete api s r t = on_method Method.post r s (t.elapsed 0) (
      on_parsed (decode_body api.max_single_bytes (dec.delete api.max_single_bytes r.body)) s
        (t.elapsed 0)
        (λ req.
          answer (λ e. write_delete_error e (t.elapsed 0)) (count_fields (bytes "deleted_count"))
            (t.elapsed 0) (delete_one s req.scope req.id req.seq t.clock)))

  unfoldable pub handle_delete_up_to : Api → Store → Request → Times → Served
  unfolding answer delete_up_to write_delete_error
  handle_delete_up_to api s r t = on_method Method.post r s (t.elapsed 0) (
      on_parsed (decode_body api.max_single_bytes (dec.delete_up_to api.max_single_bytes r.body)) s
        (t.elapsed 0)
        (λ req.
          answer (λ e. write_delete_error e (t.elapsed 0)) (count_fields (bytes "deleted_count"))
            (t.elapsed 0) (delete_up_to s req.scope req.max_seq t.clock)))

  unfoldable pub handle_delete_scope : Api → Store → Request → Times → Served
  unfolding answer delete_scope write_delete_error
  handle_delete_scope api s r t = on_method Method.post r s (t.elapsed 0) (
      on_parsed (decode_body api.max_single_bytes (dec.delete_scope api.max_single_bytes r.body)) s
        (t.elapsed 0)
        (λ scope.
          answer (λ e. write_delete_error e (t.elapsed 0)) deleted_scope_fields (t.elapsed 0)
            (delete_scope s scope t.clock)))

  unfoldable pub handle_wipe : Api → Store → Request → Times → Served
  unfolding wipe
  handle_wipe api s r t =
      let out = wipe s t.clock in
      on_method Method.post r s (t.elapsed 0)
        (write_json_with_duration 200 (wipe_fields out.0) (t.elapsed 0), out.1)
