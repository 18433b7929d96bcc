-- ===== src/Http/Observe.antt =====
-- handlers_observe.go: handleStats, handleScopeList, handleHelp.
use inmem_cache.Base.{ℕ, Bool, true, List, [], ◌∷◌, ◌++◌, length, ltb, if◌then◌else◌}
use inmem_cache.Base.Bytes.{Bytes, bytes}
use inmem_cache.Store.{Store}
use inmem_cache.Store.Sharding.{Hash}
use inmem_cache.Store.Read.{StoreStats, ScopeListEntry, store_stats, scope_list}
use inmem_cache.Http.{
  Api, ContentType, Encoder, Fields, Method, method_beq, Request, Response, Served, Times, Value,
}
use inmem_cache.Http.Params.{parse_scope_list}
use inmem_cache.Http.Respond.{
  on_method, on_parsed, write_json_with_duration, write_json_with_meta_cap,
}

abbrev pub stats_fields : StoreStats → Fields
stats_fields st =
    (bytes "ok", Value.flag true)
    ∷ (bytes "scope_count", Value.number st.scope_count)
    ∷ (bytes "total_items", Value.number st.total_items)
    ∷ (bytes "approx_store_mb", Value.mb st.approx_store_mb)
    ∷ (bytes "last_write_ts", Value.number st.last_write_ts)
    ∷ (bytes "events_drops_total", Value.number st.events_drops_total)
    ∷ (bytes "reserved_scopes", Value.reserved_entries st.reserved_scopes)
    ∷ []

abbrev pub scope_list_fields : List ScopeListEntry × Bool → Fields
scope_list_fields (entries, truncated) =
    (bytes "ok", Value.flag true)
    ∷ (bytes "hit", Value.flag (ltb 0 (length entries)))
    ∷ (bytes "count", Value.number (length entries))
    ∷ (bytes "truncated", Value.flag truncated)
    ∷ (bytes "scopes", Value.listed_scopes entries)
    ∷ []

module _ ⦃hash : Hash⦄ ⦃enc : Encoder⦄ where
  unfoldable pub handle_stats : Api → Store → Request → Times → Served
  unfolding store_stats
  handle_stats api s r t =
      on_method Method.get r s (t.elapsed 0)
        (write_json_with_duration 200 (stats_fields (store_stats s)) (t.elapsed 0), s)

  unfoldable pub handle_scope_list : Api → Store → Request → Times → Served
  unfolding parse_scope_list scope_list write_json_with_meta_cap
  handle_scope_list api s r t = on_method Method.get r s (t.elapsed 0) (
      on_parsed (parse_scope_list r) s (t.elapsed 0) (λ q. (
        write_json_with_meta_cap 200 (scope_list_fields (scope_list s q.prefix q.cursor q.limit))
            t.elapsed api.max_response_bytes,
        s,
      )))

abbrev pub text_response : ℕ → Bytes → Response
text_response status body = record { status = status; content_type = ContentType.text; body = body }

-- The dash is three bytes of UTF-8.
abbrev pub help_text : Bytes
help_text =
    bytes "scopecache "
    ++ 0xe2
      ∷ 0x80
      ∷ 0x94
      ∷ bytes " see instructions at https://github.com/VeloxCoding/scopecache/blob/main/docs/"
    ++ bytes "scopecache-core-rfc.md\n"

unfoldable pub handle_help : Store → Request → Served
handle_help s r = (
  if method_beq r.method Method.get
      then text_response 200 help_text
      else text_response 405 (bytes "method not allowed\n"),
  s,
)
