-- ===== src/Lib.antt =====
-- scopecache: an in-memory cache of items in named scopes, with a store-wide byte budget.
--
-- The program. A store (store.go) maps names to scopes and owns the counters that admission control
-- and /stats read. A scope (buffer*.go) holds items in the order of their seqs, with two maps into
-- them, by id and by seq, and counters behind shared cells. Validators (validation.go) check the
-- shape of every write. A write charges the store through `reserveBytes`, commits in the scope, and
-- emits an event (events.go), which is an append to the reserved scope `_events`; an append to a
-- reserved scope wakes its subscriber (subscribe.go). /wipe, /warm and /rebuild (bulk.go) replace
-- many scopes at once.
--
-- Which file models what.
--   Base, Base/*       lists by native numbers, 64-bit words, byte strings, Go maps
--   Types, Errors      types.go: constants, Config, Item, the byte costs; the errors
--   Types/Megabytes    types.go: MB.MarshalJSON
--   Ledger             store.go: the caps and the atomic counters that a scope reaches
--   Search             sort.Search, Decimal: strconv.AppendInt and ParseInt
--   Json               what is taken of encoding/json, an interface that nothing is assumed of
--   Buffer             buffer.go and buffer_locked.go; Buffer/Write, Delete, Counter, Read, Stats,
--                      Replace are buffer_write.go, buffer_delete.go, buffer_counter.go,
--                      buffer_read.go with buffer_heat.go, buffer_stats.go, buffer_replace.go
--   Buffer/Items       the plain list of items that the scope's maps and sums must agree with
--   Buffer/Valid       the well-formedness of a scope; Buffer/Step: every method keeps it,
--                      and Buffer/Step/Calls any sequence of calls
--   Buffer/Spec        what the methods do to the contents
--   Validate           validation.go; Validate/Space is strings.TrimSpace, Validate/Params the query
--   Store              store.go: the record, newStore and the reserved scopes; Store/Sharding the 32
--                      shards; Store/Scopes the life of a scope; Store/Events events.go and
--                      appendOne; Store/Write and Store/Read the other operations; Store/Subscribe
--                      subscribe.go; Store/Bulk bulk.go
--   Store/Valid        the accounting of the store, and that the operations keep it; Store/Valid/Run
--                      is any sequence of them from a new store on
--   Base/Interleave    callers that take turns at a shared state, in any order
--   Ledger/Race        reserveBytes under any interleaving of its callers
--   Buffer/Counter/Race  atomicCounterAdd under any interleaving of its callers
--   Gateway            gateway.go and gateway_clone.go: the Go API
--   Http               api.go and the data of the HTTP layer; Http/Respond and Http/Params are
--                      handlers.go; Http/Write, Delete, Bulk, Observe, Read are handlers_write.go and
--                      so on; Http/Routes is RegisterRoutes; the other modules prove
--   Standalone         cmd/scopecache/main.go: the configuration of the standalone server
--
-- How the state corresponds. An int64 is a word below 2 ^ 64 with the sums wrapped; `slt` is the
-- signed order. A `*scopeBuffer` is the record ScopeBuffer: `attached` is `store != nil`, and
-- `detached` is the flag of the source. A `*counterCell` is an index into the cells of the scope, so
-- that the copies of an item in the slice and in the maps share it. The fields of `store` that a
-- scope reaches are the record Ledger, which its methods are given and return. `time.Now()` is an
-- argument: a call of the store is given a clock, whose reading number `k` is the k-th of the call.
-- Go's maphash is the interface Hash, encoding/json the interface Json; no law is assumed of either,
-- but where events are emitted, that their texts have a size that an int64 holds. Go's order of a
-- range over a map is the order of an association list, and so any order.
--
-- A wake-up channel is its capacity and how many values wait in it; a send or a receive that would
-- wait is none, and a select with a default then takes that.
--
-- Bounds. Seqs stay below 2 ^ 63, and the theorems say how many writes have to fit below it; the
-- cost of one item, which is memory that it takes, is below 2 ^ 63. The only fuel is the length of a
-- text in trim_while, the number of items in search_loop and 20 digits in append_int; each is enough.
--
-- The HTTP layer is given a request, a record with a method, a body and a query. encoding/json is
-- here two interfaces: an Encoder that gives the text of a key and of a value, and a Decoder that
-- says what a body decodes to. Of the Encoder the theorem on the cap of responses assumes that the
-- number of a duration does not decide whether a response marshals, and the theorem on the told size
-- that a number of megabytes is written as MB.MarshalJSON writes it. The texts of errors are the data
-- type Message. A handler that is refused by its guards returns the store that it was given.
--
-- What is not modelled. Locks and interleavings, but for those of reserveBytes and of
-- atomicCounterAdd, each on its own: a method and an operation run alone, so a compare-and-swap succeeds at once and a second look under a lock finds
-- what the first one found. The aliasing of payloads with Go callers. The commands that are run for
-- subscribers and at the start (subscriber_command*.go, init_command.go), which run processes of the
-- operating system, the Caddy module (caddymodule), and of the standalone server (cmd) all but its
-- configuration. The name of an endpoint, which only the texts of errors have.
pub mod Base
pub mod Types
pub mod Errors
pub mod Ledger
pub mod Search
pub mod Json
pub mod Buffer
pub mod Decimal
pub mod Validate
pub mod Store
pub mod Http
pub mod Gateway
pub mod Standalone
