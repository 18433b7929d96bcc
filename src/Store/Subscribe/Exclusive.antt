-- ===== src/Store/Subscribe/Exclusive.antt =====
-- One subscriber a scope: Subscribe, unsubscribe and Subscribe again of subscribe.go.
use inmem_cache.Base.Bytes.{Bytes, bytes_eq}
use inmem_cache.Base.Map
use inmem_cache.Store.{Store}
