-- ===== src/Http/Params.antt =====
-- handlers.go: parseLookupTarget and parseScopeLimit, and the parameters that handlers_read.go and
-- handlers_observe.go parse themselves. The name of the endpoint is left out.
pub mod Laws
use inmem_cache.Base.{ℕ, Bool, true, false, not, Option, none, some, if◌then◌else◌}
use inmem_cache.Base.Bytes.{Bytes, bytes, is_empty}
use inmem_cache.Decimal.{parse_uint}
use inmem_cache.Types.{max_scope_bytes}
use inmem_cache.Errors.{Field, Reason}
use inmem_cache.Validate.{validate_scope, validate_id, check_key_field, same}
use inmem_cache.Validate.Params.{normalize_limit, normalize_offset}
use inmem_cache.Http.{Request, query_get, query_has, Message, Parsed, parsed, rejected}

pub record LookupTarget : Type 0 where
  pub scope : Bytes
  pub by_id : Bool
  pub id : Bytes
  pub seq : ℕ

pub record ScopeLimit : Type 0 where
  pub scope : Bytes
  pub limit : ℕ

-- `if err := …; err != nil { return … }`, on an error that a validator or a parser gives.
unfoldable pub unless : {A : Type 0} → Option Reason → Parsed A → Parsed A
unless none rest = rest
unless (some r) rest = rejected (Message.of_reason r)

unfoldable pub if_number : {A : Type 0} → Message → Option ℕ → (ℕ → Parsed A) → Parsed A
if_number message none rest = rejected message
if_number message (some n) rest = rest n

unfoldable pub parse_lookup_target : Request → Parsed LookupTarget
unfolding unless if_number validate_scope validate_id query_get
parse_lookup_target r =
    let scope = query_get r (bytes "scope") in
    let id = query_get r (bytes "id") in
    let seq_str = query_get r (bytes "seq") in
    let by_id : LookupTarget = record { scope = scope; by_id = true; id = id; seq = 0 } in
    unless (validate_scope scope) (
      if same (is_empty id) (is_empty seq_str)
      then rejected Message.id_or_seq
      else if not (is_empty id)
      then unless (validate_id id) (parsed by_id)
      else if_number Message.bad_seq (parse_uint seq_str)
          (λ seq. parsed (record { scope = scope; by_id = false; id = bytes ""; seq = seq })))

unfoldable pub parse_scope_limit : Request → Parsed ScopeLimit
unfolding unless if_number validate_scope query_get normalize_limit
parse_scope_limit r =
    let scope = query_get r (bytes "scope") in
    unless (validate_scope scope) (
      if_number Message.bad_limit (normalize_limit (query_get r (bytes "limit")))
        (λ limit. parsed (record { scope = scope; limit = limit })))

-- handleHead: scope and limit, then no `offset`, then `after_seq`.
pub record HeadQuery : Type 0 where
  pub scope : Bytes
  pub limit : ℕ
  pub after_seq : ℕ

abbrev head_after : Request → Parsed ScopeLimit → Parsed HeadQuery
unfolding if_number query_get query_has
head_after r (rejected message) = rejected message
head_after r (parsed q) =
    let raw = query_get r (bytes "after_seq") in
    if query_has r (bytes "offset")
    then rejected Message.offset_unsupported
    else if is_empty raw
    then parsed (record { scope = q.scope; limit = q.limit; after_seq = 0 })
    else if_number Message.bad_after_seq (parse_uint raw)
        (λ seq. parsed (record { scope = q.scope; limit = q.limit; after_seq = seq }))

unfoldable pub parse_head : Request → Parsed HeadQuery
unfolding parse_scope_limit head_after
parse_head r = head_after r (parse_scope_limit r)

pub record TailQuery : Type 0 where
  pub scope : Bytes
  pub limit : ℕ
  pub offset : ℕ

abbrev tail_offset : Request → Parsed ScopeLimit → Parsed TailQuery
unfolding if_number query_get normalize_offset
tail_offset r (rejected message) = rejected message
tail_offset r (parsed q) =
    if_number Message.bad_offset (normalize_offset (query_get r (bytes "offset")))
      (λ offset. parsed (record { scope = q.scope; limit = q.limit; offset = offset }))

unfoldable pub parse_tail : Request → Parsed TailQuery
unfolding parse_scope_limit tail_offset
parse_tail r = tail_offset r (parse_scope_limit r)

-- handleScopeList: `prefix` and `after`, where they are given, are keys; then the limit.
pub record ScopeListQuery : Type 0 where
  pub prefix : Bytes
  pub cursor : Bytes
  pub limit : ℕ

unfoldable pub parse_scope_list : Request → Parsed ScopeListQuery
unfolding unless if_number check_key_field query_get normalize_limit
parse_scope_list r =
    let prefix = query_get r (bytes "prefix") in
    let cursor = query_get r (bytes "after") in
    unless (if is_empty prefix then none else check_key_field Field.prefix prefix max_scope_bytes) (
      unless (if is_empty cursor then none else check_key_field Field.after cursor max_scope_bytes)
        (if_number Message.bad_limit (normalize_limit (query_get r (bytes "limit")))
          (λ limit. parsed (record { prefix = prefix; cursor = cursor; limit = limit }))))
