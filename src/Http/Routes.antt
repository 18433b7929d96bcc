-- ===== src/Http/Routes.antt =====
-- handlers.go: RegisterRoutes.
use inmem_cache.Base.{Option, [], ◌∷◌}
use inmem_cache.Base.Bytes.{Bytes, bytes, bytes_eq}
use inmem_cache.Base.Map
use inmem_cache.Base.Map.{Map}
use inmem_cache.Json.{Json}
use inmem_cache.Store.{Store}
use inmem_cache.Store.Sharding.{Hash}
use inmem_cache.Http.{Api, Decoder, Encoder, Request, Served, Times}
use inmem_cache.Http.Write.{handle_append, handle_upsert, handle_counter_add, handle_update}
use inmem_cache.Http.Delete.{handle_delete, handle_delete_up_to, handle_delete_scope, handle_wipe}
use inmem_cache.Http.Bulk.{handle_warm, handle_rebuild}
use inmem_cache.Http.Observe.{handle_stats, handle_scope_list, handle_help}
use inmem_cache.Http.Read.{handle_head, handle_tail, handle_get, handle_render}

pub data Endpoint : Type 0 where
  append update upsert counter_add delete delete_up_to : Endpoint
  head tail get render : Endpoint
  wipe warm rebuild delete_scope : Endpoint
  stats scope_list help : Endpoint

-- The patterns, which match a path that equals them.
abbrev pub routes : Map Bytes Endpoint
routes =
    (bytes "/append", append)
    ∷ (bytes "/update", update)
    ∷ (bytes "/upsert", upsert)
    ∷ (bytes "/counter_add", counter_add)
    ∷ (bytes "/delete", delete)
    ∷ (bytes "/delete_up_to", delete_up_to)
    ∷ (bytes "/head", head)
    ∷ (bytes "/tail", tail)
    ∷ (bytes "/get", get)
    ∷ (bytes "/render", render)
    ∷ (bytes "/wipe", wipe)
    ∷ (bytes "/warm", warm)
    ∷ (bytes "/rebuild", rebuild)
    ∷ (bytes "/delete_scope", delete_scope)
    ∷ (bytes "/stats", stats)
    ∷ (bytes "/scopelist", scope_list)
    ∷ (bytes "/help", help)
    ∷ []

unfoldable pub route : Bytes → Option Endpoint
unfolding Map.lookup
route path = Map.lookup routes path

module _ ⦃hash : Hash⦄ ⦃json : Json⦄ ⦃enc : Encoder⦄ ⦃dec : Decoder⦄ where
  -- The handler that is registered for an endpoint.
  unfoldable pub serve : Endpoint → Api → Store → Request → Times → Served
  unfolding handle_append handle_update handle_upsert handle_counter_add handle_delete
      handle_delete_up_to handle_head handle_tail handle_get handle_render handle_wipe handle_warm
      handle_rebuild handle_delete_scope handle_stats handle_scope_list handle_help
  serve append api s r t = handle_append api s r t
  serve update api s r t = handle_update api s r t
  serve upsert api s r t = handle_upsert api s r t
  serve counter_add api s r t = handle_counter_add api s r t
  serve delete api s r t = handle_delete api s r t
  serve delete_up_to api s r t = handle_delete_up_to api s r t
  serve head api s r t = handle_head api s r t
  serve tail api s r t = handle_tail api s r t
  serve get api s r t = handle_get api s r t
  serve render api s r t = handle_render api s r t
  serve wipe api s r t = handle_wipe api s r t
  serve warm api s r t = handle_warm api s r t
  serve rebuild api s r t = handle_rebuild api s r t
  serve delete_scope api s r t = handle_delete_scope api s r t
  serve stats api s r t = handle_stats api s r t
  serve scope_list api s r t = handle_scope_list api s r t
  serve help api s r t = handle_help s r
