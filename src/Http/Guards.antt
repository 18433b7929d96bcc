-- ===== src/Http/Guards.antt =====
-- What a handler refuses before it looks at the store: the wrong method, and a body that is not
-- exactly one value within the limit.
use inmem_cache.Base.{ℕ, ◌≡◌, ◌⊎◌, refl, inl, Bool, true, false, arith}
use inmem_cache.Json.{Json}
use inmem_cache.Store.{Store}
use inmem_cache.Store.Sharding.{Hash}
use inmem_cache.Http.{
  Api, Decoded, over_limit, malformed, decoded, Decoder, Encoder, Fields, Message, Method,
  method_beq, Request, Response, Served, Times,
}
use inmem_cache.Http.Respond.{
  refusal, write_json_with_duration, refuse, on_method, on_parsed, decode_body,
}
use inmem_cache.Http.Write.{handle_append, handle_upsert, handle_counter_add, handle_update}
use inmem_cache.Http.Delete.{handle_delete, handle_delete_up_to, handle_delete_scope, handle_wipe}
use inmem_cache.Http.Bulk.{handle_warm, handle_rebuild}
use inmem_cache.Http.Observe.{handle_stats, handle_scope_list, handle_help}
use inmem_cache.Http.Read.{handle_head, handle_tail, handle_get, handle_render}
use inmem_cache.Http.Routes.{
  Endpoint, append, update, upsert, counter_add, delete, delete_up_to, head, tail, get, render,
  wipe, warm, rebuild, delete_scope, stats, scope_list, help, serve,
}

-- The method that an endpoint is for.
abbrev pub method_of : Endpoint → Method
method_of head = Method.get
method_of tail = Method.get
method_of get = Method.get
method_of render = Method.get
method_of stats = Method.get
method_of scope_list = Method.get
method_of help = Method.get
method_of _ = Method.post

abbrev pub is_whole : {A : Type 0} → Decoded A → Bool
is_whole over_limit = false
is_whole malformed = false
is_whole (decoded a at_end) = at_end

-- The status, or the 500 of a response that does not marshal.
abbrev pub HasStatus : ℕ → Response → Type 0
HasStatus n response = (response.status ≡ n) ⊎ (response.status ≡ 500)

-- A refusal with a status: the store is as it was.
abbrev pub Refuses : ℕ → Store → Served → Type 0
Refuses n s served = HasStatus n (served.0) × (served.1 ≡ s)

module _ ⦃dec : Decoder⦄ where
  -- Whether the body is one value of the endpoint's type, where the endpoint takes a body.
  abbrev pub has_whole_body : Endpoint → Api → Request → Bool
  has_whole_body append api r = is_whole (dec.item api.max_single_bytes r.body)
  has_whole_body update api r = is_whole (dec.item api.max_single_bytes r.body)
  has_whole_body upsert api r = is_whole (dec.item api.max_single_bytes r.body)
  has_whole_body counter_add api r = is_whole (dec.counter_add api.max_single_bytes r.body)
  has_whole_body delete api r = is_whole (dec.delete api.max_single_bytes r.body)
  has_whole_body delete_up_to api r = is_whole (dec.delete_up_to api.max_single_bytes r.body)
  has_whole_body delete_scope api r = is_whole (dec.delete_scope api.max_single_bytes r.body)
  has_whole_body warm api r = is_whole (dec.items api.max_bulk_bytes r.body)
  has_whole_body rebuild api r = is_whole (dec.items api.max_bulk_bytes r.body)
  has_whole_body _ api r = true

module _ ⦃enc : Encoder⦄ where
  pub write_json_with_duration-status :
      (code : ℕ) (payload : Fields) (us : ℕ)
      → HasStatus code (write_json_with_duration code payload us)
  unfolding write_json_with_duration
  write_json_with_duration-status code payload us = ground arith

  pub refuse-status : (n : ℕ) (message : Message) (us : ℕ) → HasStatus n (refuse n message us)
  unfolding refuse
  refuse-status n message us = write_json_with_duration-status n (refusal message) us

  on_method-Refuses :
      (method : Method) (r : Request) (s : Store) (us : ℕ) (served : Served)
      → method_beq r.method method ≡ false
      → Refuses 405 s (on_method method r s us served)
  unfolding on_method
  on_method-Refuses method r s us served wrong =
      rw wrong (refuse-status 405 Message.method_refused us, refl)

  on_body-Refuses :
      {A : Type 0} (method : Method) (r : Request) (s : Store) (us max : ℕ) (d : Decoded A)
      (served : A → Served)
      → method_beq r.method method ≡ true
      → is_whole d ≡ false
      → Refuses 400 s (on_method method r s us (on_parsed (decode_body max d) s us served))
  unfolding on_method on_parsed decode_body
  on_body-Refuses method r s us max over_limit served right part =
      rw right (refuse-status 400 (Message.body_too_large max) us, refl)
  on_body-Refuses method r s us max malformed served right part =
      rw right (refuse-status 400 Message.body_malformed us, refl)
  on_body-Refuses method r s us max (decoded a at_end) served right part =
      rw (right, part) (refuse-status 400 Message.body_trailing us, refl)

module _ ⦃hash : Hash⦄ ⦃json : Json⦄ ⦃enc : Encoder⦄ ⦃dec : Decoder⦄ (api : Api) (s : Store)
    (r : Request) (t : Times) where
  -- On every endpoint a request with a method that the endpoint is not for leaves the store as
  -- it was and is answered with a 405, or with the 500 of a response that does not marshal.
  pub serve-method :
      (e : Endpoint) → method_beq r.method (method_of e) ≡ false → Refuses 405 s (serve e api s r t)
  unfolding serve handle_append handle_update handle_upsert handle_counter_add handle_delete
      handle_delete_up_to handle_head handle_tail handle_get handle_render handle_wipe handle_warm
      handle_rebuild handle_delete_scope handle_stats handle_scope_list handle_help
  serve-method help wrong = rw wrong (inl refl, refl)
  serve-method e wrong = on_method-Refuses (method_of e) r s (t.elapsed 0) _ wrong

  -- On every endpoint that takes a body, a POST whose body is over the limit, is malformed, or
  -- has more after its value leaves the store as it was and is answered with a 400, or with the
  -- 500 of a response that does not marshal.
  pub serve-body :
      (e : Endpoint)
      → method_beq r.method (method_of e) ≡ true
      → has_whole_body e api r ≡ false
      → Refuses 400 s (serve e api s r t)
  unfolding serve handle_append handle_update handle_upsert handle_counter_add handle_delete
      handle_delete_up_to handle_warm handle_rebuild handle_delete_scope
  serve-body head right part = cc
  serve-body tail right part = cc
  serve-body get right part = cc
  serve-body render right part = cc
  serve-body wipe right part = cc
  serve-body stats right part = cc
  serve-body scope_list right part = cc
  serve-body help right part = cc
  serve-body e right part = on_body-Refuses (method_of e) r s (t.elapsed 0) _ _ _ right part
