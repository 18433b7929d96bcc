-- ===== src/Buffer/Read.antt =====
-- buffer_read.go and buffer_heat.go: tailOffset, sinceSeq, getByID, getBySeq, recordRead. `limit`
-- and `offset` are ints of the source; their order is the signed one.
use inmem_cache.Base.{
  ℕ, ◌-◌, Bool, false, ◌||◌, not, Option, none, some, List, [], length, map, take, drop, ◌==◌, leb,
  if◌then◌else◌, nat_eq,
}
use inmem_cache.Base.Word.{add64, sub64, slt}
use inmem_cache.Base.Bytes.{Bytes, bytes_eq}
use inmem_cache.Base.Map
use inmem_cache.Decimal.{append_int}
use inmem_cache.Types.{Item, CounterCell}
use inmem_cache.Buffer.{ScopeBuffer}
use inmem_cache.Buffer.Counter.{cell_at}
use inmem_cache.Buffer.Delete.{cut_after}

-- renderCounterPayload
unfoldable pub render_counter_payload : CounterCell → Bytes
render_counter_payload cell = append_int cell.value

unfoldable pub materialise_counter : List CounterCell → Item → Item
unfolding render_counter_payload
materialise_counter cells item = elim item.counter [
  | none ↦ item
  | some c ↦ record item {
    payload = render_counter_payload (cell_at cells c);
    ts = (cell_at cells c).ts;
  }
]

-- materialiseCountersInPlace, on the fresh slice that it is given.
unfoldable pub materialise_counters : List CounterCell → List Item → List Item
unfolding materialise_counter
materialise_counters cells items = map (materialise_counter cells) items

unfoldable pub tail_offset : ScopeBuffer → ℕ → ℕ → List Item × Bool
unfolding materialise_counters
tail_offset b limit offset =
    let n = length b.items in
    let end = sub64 n offset in
    let start = sub64 end limit in
    let first = if slt start 0 then 0 else start in
    if not (slt 0 limit) || slt offset 0
    then ([], false)
    else if leb n offset
    then ([], false)
    else if leb end first
    then ([], false)
    else (materialise_counters b.cells (drop first (take end b.items)), slt 0 start)

unfoldable pub since_seq : ScopeBuffer → ℕ → ℕ → List Item × Bool
unfolding materialise_counters cut_after
since_seq b after_seq limit =
    let n = length b.items in
    let idx = cut_after b.items after_seq in
    let available = n - idx in
    let more = slt limit available in
    let count = if more then limit else available in
    if not (slt 0 limit)
    then ([], false)
    else if n == 0
    then ([], false)
    else if leb n idx
    then ([], false)
    else (materialise_counters b.cells (take count (drop idx b.items)), more)

unfoldable pub get_by_id : ScopeBuffer → Bytes → Option Item
unfolding materialise_counter
get_by_id b id = elim (Map.lookup b.by_id id) [
  | none ↦ none
  | some item ↦ some (materialise_counter b.cells item)
]

unfoldable pub get_by_seq : ScopeBuffer → ℕ → Option Item
unfolding materialise_counter
get_by_seq b seq = elim (Map.lookup b.by_seq seq) [
  | none ↦ none
  | some item ↦ some (materialise_counter b.cells item)
]

unfoldable pub record_read : ScopeBuffer → ℕ → ScopeBuffer
record_read b now = record b { read_count_total = add64 b.read_count_total 1; last_access_ts = now }
