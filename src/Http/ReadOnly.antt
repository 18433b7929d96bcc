-- ===== src/Http/ReadOnly.antt =====
-- The endpoints of GET leave the data of the store alone; a read that hits counts in its scope.
use inmem_cache.Base.{
  ℕ, ◌≡◌, refl, ap, sym, ◌∙◌, inl, inr, Bool, true, false, Option, none, some, List, [], ◌∷◌, arith,
  Bool-cases, Option-cases, if_true, if_false, if◌then◌else◌,
}
use inmem_cache.Base.Bytes.{Bytes, bytes, bytes_beq, bytes_beq_iff}
use inmem_cache.Json.{Json}
use inmem_cache.Types.{Item}
use inmem_cache.Buffer.{ScopeBuffer}
use inmem_cache.Buffer.Read.{record_read}
use inmem_cache.Store.{Store}
use inmem_cache.Store.Sharding.{Hash, find_scope}
use inmem_cache.Store.Sharding.Laws.{IsSharded, find_scope-put_scope}
use inmem_cache.Store.Scopes.{get_scope, stored_back}
use inmem_cache.Store.Read.{head, tail, get, render, paged, hit}
use inmem_cache.Http.{
  Api, Decoder, Encoder, Method, method_beq, Request, Served, Times, Parsed, parsed, rejected,
}
use inmem_cache.Http.Respond.{on_method, on_parsed}
use inmem_cache.Http.Observe.{handle_stats, handle_scope_list, handle_help}
use inmem_cache.Http.Read.{handle_head, handle_tail, handle_get, handle_render}
use inmem_cache.Http.Routes.{Endpoint, stats, scope_list, help, serve}
use inmem_cache.Http.Guards.{method_of}

-- A scope without its read counters.
abbrev pub unread : Option ScopeBuffer → Option ScopeBuffer
unread none = none
unread (some b) = some (record b { last_access_ts = 0; read_count_total = 0 })

-- The same data: every name finds the same scope, but for its read counters.
pub record SameData ⦃hash : Hash⦄ (s s' : Store) : Type 0 where
  pub scopes :
      (name : Bytes) → unread (find_scope s'.shards name) ≡ unread (find_scope s.shards name)
  pub ledger : s'.ledger ≡ s.ledger
  pub subscribers : s'.subscribers ≡ s.subscribers

module _ ⦃hash : Hash⦄ (s : Store) where
  same : SameData s s
  same = record { scopes = λ _. refl; ledger = refl; subscribers = refl }

  module _ (h : IsSharded s.shards) (scope : Bytes) (buf : ScopeBuffer) (now_us : ℕ) where
    read-SameData :
        find_scope s.shards scope ≡ some buf
        → SameData s (stored_back s scope (record_read buf now_us) s.ledger)
    unfolding stored_back record_read
    read-SameData found = record {
      scopes = λ name. elim (Bool-cases (bytes_beq scope name)) [
        | inl one ↦
            ap unread (find_scope-put_scope s.shards scope h (record_read buf now_us) name)
            ∙ ap unread (if_true _ _ _ one)
            ∙ sym (ap unread found)
            ∙ ap (λ n. unread (find_scope s.shards n)) ((bytes_beq_iff scope name).0 one)
        | inr differ ↦
            ap unread (find_scope-put_scope s.shards scope h (record_read buf now_us) name)
            ∙ ap unread (if_false _ _ _ differ)
      ];
      ledger = refl;
      subscribers = refl;
    }

    paged-SameData :
        find_scope s.shards scope ≡ some buf
        → (page : List Item × Bool) → SameData s (paged s scope buf now_us page).1
    unfolding stored_back record_read
    paged-SameData found ([], truncated) = same
    paged-SameData found (x ∷ xs, truncated) = read-SameData found

    hit-SameData :
        find_scope s.shards scope ≡ some buf
        → (x : Option Item) → SameData s (hit s scope buf now_us x).1
    unfolding stored_back record_read
    hit-SameData found none = same
    hit-SameData found (some x) = read-SameData found

module _ ⦃hash : Hash⦄ (s : Store) (h : IsSharded s.shards) (scope : Bytes) where
  head-SameData : (after_seq limit now_us : ℕ) → SameData s (head s scope after_seq limit now_us).1
  unfolding head get_scope
  head-SameData after_seq limit now_us = elim (Option-cases (find_scope s.shards scope)) [
    | inl missing ↦ rw (missing, head) (same s)
    | inr (buf, found) ↦ rw (found, head) (paged-SameData s h scope buf now_us found _)
  ]

  tail-SameData : (limit offset now_us : ℕ) → SameData s (tail s scope limit offset now_us).1
  unfolding tail get_scope
  tail-SameData limit offset now_us = elim (Option-cases (find_scope s.shards scope)) [
    | inl missing ↦ rw (missing, tail) (same s)
    | inr (buf, found) ↦ rw (found, tail) (paged-SameData s h scope buf now_us found _)
  ]

  get-SameData : (id : Bytes) (seq now_us : ℕ) → SameData s (get s scope id seq now_us).1
  unfolding get get_scope
  get-SameData id seq now_us = elim (Option-cases (find_scope s.shards scope)) [
    | inl missing ↦ rw (missing, get) (same s)
    | inr (buf, found) ↦ rw (found, get) (hit-SameData s h scope buf now_us found _)
  ]

module _ ⦃hash : Hash⦄ ⦃enc : Encoder⦄ (s : Store) where
  on_method-SameData :
      (method : Method) (r : Request) (us : ℕ) (served : Served)
      → SameData s served.1
      → SameData s (on_method method r s us served).1
  unfolding on_method
  on_method-SameData method r us served kept = elim (Bool-cases (method_beq r.method method)) [
    | inl right ↦ rw right kept
    | inr wrong ↦ rw wrong (same s)
  ]

  on_parsed-SameData :
      {A : Type 0} (p : Parsed A) (us : ℕ) (served : A → Served)
      → ((a : A) → SameData s (served a).1)
      → SameData s (on_parsed p s us served).1
  unfolding on_parsed
  on_parsed-SameData (parsed a) us served kept = kept a
  on_parsed-SameData (rejected message) us served kept = same s

module _ ⦃hash : Hash⦄ ⦃json : Json⦄ ⦃enc : Encoder⦄ ⦃dec : Decoder⦄ (api : Api) (s : Store)
    (r : Request) (t : Times) (h : IsSharded s.shards) where
  -- A request to an endpoint that is for GET changes no data, whatever its parameters and its
  -- method: every name finds a scope as before, but for the two fields that count reads, and
  -- the counters are what they were.
  pub serve-SameData : (e : Endpoint) → method_of e ≡ Method.get → SameData s (serve e api s r t).1
  unfolding serve handle_head handle_tail handle_get handle_render handle_stats handle_scope_list
      handle_help render
  serve-SameData Endpoint.head is_get = on_method-SameData s Method.get r (t.elapsed 0) _ (
      on_parsed-SameData s _ (t.elapsed 0) _
        (λ q. head-SameData s h q.scope q.after_seq q.limit (t.clock 0)))
  serve-SameData Endpoint.tail is_get = on_method-SameData s Method.get r (t.elapsed 0) _ (
      on_parsed-SameData s _ (t.elapsed 0) _
        (λ q. tail-SameData s h q.scope q.limit q.offset (t.clock 0)))
  serve-SameData Endpoint.get is_get = on_method-SameData s Method.get r (t.elapsed 0) _ (
      on_parsed-SameData s _ (t.elapsed 0) _ (λ q.
        elim q.by_id
          as (λ b.
            SameData s
              (if b
                then get s q.scope q.id 0 (t.clock 0)
                else get s q.scope (bytes "") q.seq (t.clock 0)).1) [
                  | true ↦ get-SameData s h q.scope q.id 0 (t.clock 0)
                  | false ↦ get-SameData s h q.scope (bytes "") q.seq (t.clock 0)
                ]))
  serve-SameData Endpoint.render is_get = on_method-SameData s Method.get r (t.elapsed 0) _ (
      on_parsed-SameData s _ (t.elapsed 0) _ (λ q.
        elim q.by_id
          as (λ b.
            SameData s
              (if b
                then render s q.scope q.id 0 (t.clock 0)
                else render s q.scope (bytes "") q.seq (t.clock 0)).1) [
                  | true ↦ get-SameData s h q.scope q.id 0 (t.clock 0)
                  | false ↦ get-SameData s h q.scope (bytes "") q.seq (t.clock 0)
                ]))
  serve-SameData stats is_get = on_method-SameData s Method.get r (t.elapsed 0) _ (same s)
  serve-SameData scope_list is_get =
      on_method-SameData s Method.get r (t.elapsed 0) _
        (on_parsed-SameData s _ (t.elapsed 0) _ (λ q. same s))
  serve-SameData help is_get = same s
  serve-SameData e is_get = absurd (ground (arith, is_get))
