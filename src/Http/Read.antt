-- ===== src/Http/Read.antt =====
-- handlers_read.go: handleHead, handleTail, handleGet, handleRender.
use inmem_cache.Base.{
  ℕ, Bool, true, false, ◌&&◌, Option, none, some, List, [], ◌∷◌, ◌++◌, length, ltb, if◌then◌else◌,
}
use inmem_cache.Base.Word.{slt}
use inmem_cache.Base.Bytes.{Bytes, bytes}
use inmem_cache.Types.{Item, estimate_multi_item_response_bytes}
use inmem_cache.Store.{Store}
use inmem_cache.Store.Sharding.{Hash}
use inmem_cache.Store.Read.{head, tail, get, render}
use inmem_cache.Http.{
  Api, ContentType, Encoder, Fields, Method, Request, Response, Served, Times, Value,
}
use inmem_cache.Http.Params.{parse_head, parse_tail, parse_lookup_target}
use inmem_cache.Http.Respond.{
  on_method, on_parsed, response_too_large, write_json_with_meta, write_json_with_meta_cap,
}

abbrev pub items_fields : Bool → List Item → Bool → Fields → Fields
items_fields hit items truncated extra =
    ((bytes "ok", Value.flag true)
      ∷ (bytes "hit", Value.flag hit)
      ∷ (bytes "count", Value.number (length items))
      ∷ [])
    ++ (extra
        ++ (bytes "truncated", Value.flag truncated) ∷ (bytes "items", Value.many_items items) ∷ [])

abbrev pub miss_fields : Fields
miss_fields =
    (bytes "ok", Value.flag true)
    ∷ (bytes "hit", Value.flag false)
    ∷ (bytes "count", Value.number 0)
    ∷ (bytes "item", Value.no_item)
    ∷ []

abbrev pub hit_fields : Item → Fields
hit_fields x =
    (bytes "ok", Value.flag true)
    ∷ (bytes "hit", Value.flag true)
    ∷ (bytes "count", Value.number 1)
    ∷ (bytes "item", Value.one_item x)
    ∷ []

abbrev pub octets : ℕ → Bytes → Response
octets status body = record { status = status; content_type = ContentType.octets; body = body }

module _ ⦃enc : Encoder⦄ where
  unfoldable pub write_items_hit : Api → Times → List Item → Bool → Fields → Response
  unfolding estimate_multi_item_response_bytes response_too_large write_json_with_meta_cap
  write_items_hit api t items truncated extra =
      let estimated = estimate_multi_item_response_bytes items in
      if ltb 0 (length items) && slt api.max_response_bytes estimated
      then response_too_large estimated api.max_response_bytes (t.elapsed 0)
      else write_json_with_meta_cap 200 (items_fields (ltb 0 (length items)) items truncated extra)
          t.elapsed api.max_response_bytes

  unfoldable pub write_items_miss : Api → Times → Fields → Response
  unfolding write_json_with_meta_cap
  write_items_miss api t extra =
      write_json_with_meta_cap 200 (items_fields false [] false extra) t.elapsed
        api.max_response_bytes

  -- `if !found { writeItemsMiss; return }; writeItemsHit`
  abbrev pub write_items : Api → Times → List Item × Bool × Bool → Fields → Response
  unfolding write_items_hit write_items_miss
  write_items api t (items, truncated, found) extra =
      if found then write_items_hit api t items truncated extra else write_items_miss api t extra

  abbrev pub write_item : Times → Option Item → Response
  unfolding write_json_with_meta
  write_item t none = write_json_with_meta 200 miss_fields t.elapsed
  write_item t (some x) = write_json_with_meta 200 (hit_fields x) t.elapsed

abbrev pub write_rendered : Option Bytes → Response
write_rendered none = octets 404 []
write_rendered (some body) = octets 200 body

module _ ⦃hash : Hash⦄ ⦃enc : Encoder⦄ where
  unfoldable pub handle_head : Api → Store → Request → Times → Served
  unfolding parse_head head write_items
  handle_head api s r t = on_method Method.get r s (t.elapsed 0) (
      on_parsed (parse_head r) s (t.elapsed 0) (λ q.
        let out = head s q.scope q.after_seq q.limit (t.clock 0) in
        (write_items api t out.0 [], out.1)))

  unfoldable pub handle_tail : Api → Store → Request → Times → Served
  unfolding parse_tail tail write_items
  handle_tail api s r t = on_method Method.get r s (t.elapsed 0) (
      on_parsed (parse_tail r) s (t.elapsed 0) (λ q.
        let out = tail s q.scope q.limit q.offset (t.clock 0) in
        (write_items api t out.0 ((bytes "offset", Value.number q.offset) ∷ []), out.1)))

  -- The target of a lookup by seq has an empty id, and that of one by id the seq 0.
  unfoldable pub handle_get : Api → Store → Request → Times → Served
  unfolding parse_lookup_target get write_item
  handle_get api s r t = on_method Method.get r s (t.elapsed 0) (
      on_parsed (parse_lookup_target r) s (t.elapsed 0) (λ q.
        let out =
          if q.by_id
          then get s q.scope q.id 0 (t.clock 0)
          else get s q.scope (bytes "") q.seq (t.clock 0) in
        (write_item t out.0, out.1)))

  unfoldable pub handle_render : Api → Store → Request → Times → Served
  unfolding parse_lookup_target render
  handle_render api s r t = on_method Method.get r s (t.elapsed 0) (
      on_parsed (parse_lookup_target r) s (t.elapsed 0) (λ q.
        let out =
          if q.by_id
          then render s q.scope q.id 0 (t.clock 0)
          else render s q.scope (bytes "") q.seq (t.clock 0) in
        (write_rendered out.0, out.1)))
