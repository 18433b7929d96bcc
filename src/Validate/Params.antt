-- ===== src/Validate/Params.antt =====
-- validation.go: the query parameters. strconv.Atoi and ParseInt read an optional sign and decimal
-- digits into an int64 (Decimal); `none` is the 400 of the handler.
use inmem_cache.Base.{ℕ, ◌-◌, ◌/◌, ◌^◌, not, Option, none, some, if◌then◌else◌}
use inmem_cache.Base.Word.{slt}
use inmem_cache.Base.Bytes.{Bytes, is_empty}
use inmem_cache.Decimal.{parse_int}
use inmem_cache.Types.{default_limit, max_limit}

unfoldable pub normalize_limit : Bytes → Option ℕ
normalize_limit raw = if is_empty raw then some default_limit else elim (parse_int raw) [
  | none ↦ none
  | some n ↦ if not (slt 0 n) then none else if slt max_limit n then some max_limit else some n
]

unfoldable pub normalize_offset : Bytes → Option ℕ
normalize_offset raw =
    if is_empty raw
    then some 0
    else elim (parse_int raw) [ none ↦ none | some n ↦ if slt n 0 then none else some n ]

-- `time.Hour / time.Microsecond`
abbrev pub us_per_hour : ℕ
us_per_hour = 3600000000

unfoldable pub normalize_hours : Bytes → Option ℕ
normalize_hours raw = if is_empty raw then some 0 else elim (parse_int raw) [
  | none ↦ none
  | some n ↦ if slt n 0 then none else if slt ((2 ^ 63 - 1) / us_per_hour) n then none else some n
]
