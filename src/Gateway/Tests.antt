-- ===== src/Gateway/Tests.antt =====
-- Calls of the Go API on a store with one item, and the theorems at them.
use inmem_cache.Base.{◌≡◌, some, none}
use inmem_cache.Base.Bytes.{bytes}
use inmem_cache.Buffer.Fixture.{plain_json, first}
use inmem_cache.Store.Fixture.{by_length, ticks, seeded}
use inmem_cache.Gateway
use inmem_cache.Gateway.Clean.{
  AllClean, HitIsClean, ResultIsClean, UpsertIsClean, results-Clean, writes_ignore_hidden,
}

results-Clean_example :
    ResultIsClean (Gateway.append seeded first ticks).0
    × UpsertIsClean (Gateway.upsert seeded first ticks).0
    × AllClean (Gateway.head seeded (bytes "s") 0 5 7).0.0
    × AllClean (Gateway.tail seeded (bytes "s") 5 0 7).0.0
    × HitIsClean (Gateway.get_by_id seeded (bytes "s") (bytes "a") 7).0
    × HitIsClean (Gateway.get_by_seq seeded (bytes "s") 0 7).0
results-Clean_example = results-Clean seeded ticks first (bytes "s") (bytes "a") 0 5 0 7

writes_ignore_hidden_example :
    let forged = record first { render_bytes = some (bytes "x"); counter = none } in
    (Gateway.append seeded forged ticks ≡ Gateway.append seeded first ticks)
    × (Gateway.upsert seeded forged ticks ≡ Gateway.upsert seeded first ticks)
    × (Gateway.update seeded forged ticks ≡ Gateway.update seeded first ticks)
writes_ignore_hidden_example = writes_ignore_hidden seeded ticks first (some (bytes "x")) none
