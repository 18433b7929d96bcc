-- ===== src/Http/Cap.antt =====
-- The cap on the bodies of /head, /tail and /scopelist, and the size that a body tells of itself.
use inmem_cache.Base.{
  ℕ, ltb, ◌&&◌, ◌≡◌, ◌≢◌, ◌⊎◌, refl, inl, inr, Bool, true, false, none, List, [], ◌∷◌, ◌++◌, length,
  arith, Bool-cases, Option-cases, if◌then◌else◌,
}
use inmem_cache.Base.Word.{slt}
use inmem_cache.Base.Bytes.{bytes}
use inmem_cache.Types.{Item, estimate_multi_item_response_bytes}
use inmem_cache.Store.Sharding.{Hash}
use inmem_cache.Http.Read.{
  handle_head, handle_tail, items_fields, write_items, write_items_hit, write_items_miss,
}
use inmem_cache.Http.Observe.{handle_scope_list, scope_list_fields}
use inmem_cache.Store.Read.{head, tail, scope_list}
use inmem_cache.Http.Guards.{refuse-status}
use inmem_cache.Store.{Store, Clock}
use inmem_cache.Http.{
  Api, Encoder, Fields, Message, Method, method_beq, Parsed, parsed, rejected, Request, Response,
  Served, Times, Value,
}
use inmem_cache.Http.Respond.{
  duration, marshal, marshal_with_approx_size, on_method, on_parsed, refuse, response_too_large,
  write_json_with_duration, write_json_with_meta_cap,
}

module _ ⦃enc : Encoder⦄ where
  -- Whether a response marshals does not depend on the number of its duration.
  abbrev pub IsSteady : Type 0
  IsSteady =
      (payload : Fields) (us vs : ℕ)
      → marshal (payload ++ duration us ∷ []) ≡ none
      → marshal (payload ++ duration vs ∷ []) ≡ none

  -- A response of status 200 is within the limit.
  abbrev pub IsCapped : ℕ → Response → Type 0
  IsCapped max_bytes response =
      (response.status ≢ 200) ⊎ (slt max_bytes (length response.body) ≡ false)

  unmarshalled :
      (payload : Fields) (us : ℕ)
      → marshal_with_approx_size payload us ≡ none
      → marshal (payload ++ duration us ∷ []) ≡ none
  unfolding marshal_with_approx_size
  unmarshalled payload us h = ground arith

  failed-status :
      (code : ℕ) (payload : Fields) (us : ℕ)
      → marshal (payload ++ duration us ∷ []) ≡ none
      → (write_json_with_duration code payload us).status ≡ 500
  unfolding write_json_with_duration
  failed-status code payload us h = rw (h, write_json_with_duration) refl

  too_large-status : (written cap us : ℕ) → (response_too_large written cap us).status ≢ 200
  unfolding response_too_large write_json_with_duration
  too_large-status written cap us = ground arith

  write_json_with_meta_cap-IsCapped :
      (code : ℕ) (payload : Fields) (elapsed : Clock) (max_bytes : ℕ)
      → IsSteady
      → IsCapped max_bytes (write_json_with_meta_cap code payload elapsed max_bytes)
  unfolding write_json_with_meta_cap
  write_json_with_meta_cap-IsCapped code payload elapsed max_bytes steady =
      elim (Option-cases (marshal_with_approx_size payload (elapsed 0))) [
        | inl none_out ↦
            let gone = steady payload (elapsed 0) (elapsed 1) (unmarshalled payload _ none_out) in
            let five = failed-status code payload (elapsed 1) gone in
            rw (none_out, write_json_with_meta_cap) (inl (ground (arith, five)))
        | inr (out, some_out) ↦ elim (Bool-cases (slt max_bytes (length out))) [
          | inl over ↦
              rw (some_out, over, write_json_with_meta_cap)
                (inl (too_large-status (length out) max_bytes (elapsed 1)))
          | inr fits ↦ rw (some_out, fits, write_json_with_meta_cap) (inr fits)
        ]
      ]

  write_items-IsCapped :
      (api : Api) (t : Times) (found : List Item × Bool × Bool) (extra : Fields)
      → IsSteady
      → IsCapped api.max_response_bytes (write_items api t found extra)
  unfolding write_items_hit write_items_miss
  write_items-IsCapped api t (items, truncated, false) extra steady =
      write_json_with_meta_cap-IsCapped 200 (items_fields false [] false extra) t.elapsed
        api.max_response_bytes steady
  write_items-IsCapped api t (items, truncated, true) extra steady =
      let estimated = estimate_multi_item_response_bytes items in
      let cap = api.max_response_bytes in
      let test = ltb 0 (length items) && slt cap estimated in
      let sent =
        write_json_with_meta_cap-IsCapped 200
          (items_fields (ltb 0 (length items)) items truncated extra) t.elapsed cap steady in
      elim test
        as (λ b. IsCapped cap (
          if b
          then response_too_large estimated cap (t.elapsed 0)
          else write_json_with_meta_cap 200
              (items_fields (ltb 0 (length items)) items truncated extra) t.elapsed cap)) [
                | true ↦ inl (too_large-status estimated cap (t.elapsed 0))
                | false ↦ sent
              ]

  -- A refusal is not a 200.
  refuse-IsCapped :
      (max_bytes status : ℕ) (message : Message) (us : ℕ)
      → status ≢ 200
      → IsCapped max_bytes (refuse status message us)
  refuse-IsCapped max_bytes status message us differs = elim (refuse-status status message us) [
    | inl e ↦ inl (ground (arith, e, differs))
    | inr e ↦ inl (ground (arith, e))
  ]

  on_method-IsCapped :
      (max_bytes : ℕ) (method : Method) (r : Request) (s : Store) (us : ℕ) (served : Served)
      → IsCapped max_bytes served.0
      → IsCapped max_bytes (on_method method r s us served).0
  unfolding on_method
  on_method-IsCapped max_bytes method r s us served capped =
      elim (method_beq r.method method)
        as (λ b.
          IsCapped max_bytes (if b then served else (refuse 405 Message.method_refused us, s)).0) [
            | true ↦ capped
            | false ↦ refuse-IsCapped max_bytes 405 Message.method_refused us (omega arith)
          ]

  on_parsed-IsCapped :
      {A : Type 0} (max_bytes : ℕ) (p : Parsed A) (s : Store) (us : ℕ) (served : A → Served)
      → ((a : A) → IsCapped max_bytes (served a).0)
      → IsCapped max_bytes (on_parsed p s us served).0
  unfolding on_parsed
  on_parsed-IsCapped max_bytes (parsed a) s us served capped = capped a
  on_parsed-IsCapped max_bytes (rejected message) s us served capped =
      refuse-IsCapped max_bytes 400 message us (omega arith)

module _ ⦃hash : Hash⦄ ⦃enc : Encoder⦄ (api : Api) (s : Store) (r : Request) (t : Times) where
  -- A 200 of /head, /tail or /scopelist has a body within the cap on responses, where whether a
  -- response marshals does not depend on the number of its duration.
  pub list_handlers-IsCapped :
      IsSteady
      → IsCapped api.max_response_bytes (handle_head api s r t).0
        × IsCapped api.max_response_bytes (handle_tail api s r t).0
        × IsCapped api.max_response_bytes (handle_scope_list api s r t).0
  unfolding handle_head handle_tail handle_scope_list
  list_handlers-IsCapped steady =
      let cap = api.max_response_bytes in
      (
        on_method-IsCapped cap Method.get r s (t.elapsed 0) _ (
            on_parsed-IsCapped cap _ s (t.elapsed 0) _ (λ q.
              write_items-IsCapped api t (head s q.scope q.after_seq q.limit (t.clock 0)).0 []
                steady)),
        on_method-IsCapped cap Method.get r s (t.elapsed 0) _ (
            on_parsed-IsCapped cap _ s (t.elapsed 0) _ (λ q.
              write_items-IsCapped api t (tail s q.scope q.limit q.offset (t.clock 0)).0
                ((bytes "offset", Value.number q.offset) ∷ []) steady)),
        on_method-IsCapped cap Method.get r s (t.elapsed 0) _ (
            on_parsed-IsCapped cap _ s (t.elapsed 0) _ (λ q.
              write_json_with_meta_cap-IsCapped 200
                (scope_list_fields (scope_list s q.prefix q.cursor q.limit)) t.elapsed cap steady)),
      )
