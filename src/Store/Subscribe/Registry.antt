-- ===== src/Store/Subscribe/Registry.antt =====
-- The subscription calls of subscribe.go in any order, as a step relation on the store.
use inmem_cache.Base.{true, some, ◌≡◌, refl, arith, ℕ, Option-cases, inl, inr}
use inmem_cache.Base.Bytes.{Bytes, bytes_eq, bytes_beq_iff}
use inmem_cache.Base.Map
use inmem_cache.Base.Map.{lookup-put, lookup-delete}
use inmem_cache.Store.{Store, Channel, Clock, init_reserved_scope, init_reserved_scopes, new_store}
use inmem_cache.Store.Sharding.{Hash}
use inmem_cache.Types.{Config, events_scope_name, inbox_scope_name}
use inmem_cache.Store.Subscribe.{
  make_chan, send, take_one, subscribe, unsubscribe, notify_subscriber, receive,
}
use inmem_cache.Validate.{is_reserved_scope}

-- Any number of subscription calls, in any order, that take one store to the other.
pub data Calls (s : Store) : Store → Type 0 where
  idle : Calls s s
  subscribes : {t : Store} (scope : Bytes) → Calls s t → Calls s ((subscribe t scope).1)
  unsubscribes : {t : Store} (scope : Bytes) → Calls s t → Calls s ((unsubscribe t scope).1)
  notifies : {t : Store} (scope : Bytes) → Calls s t → Calls s (notify_subscriber t scope)
  receives : {t : Store} (scope : Bytes) → Calls s t → Calls s ((receive t scope).1)

-- Only reserved scopes have a subscriber.
unfoldable pub OnlyReserved : Store → Type 0
unfolding Map.lookup
OnlyReserved s =
    (scope : Bytes) (w : Channel)
    → Map.lookup s.subscribers scope ≡ some w
    → is_reserved_scope scope ≡ true

-- The scopes and the counters are the same.
unfoldable pub SameData : Store → Store → Type 0
SameData s t = (t.shards ≡ s.shards) × (t.ledger ≡ s.ledger)

put-OnlyReserved :
    (s : Store) (scope : Bytes) (v : Channel)
    → is_reserved_scope scope ≡ true
    → OnlyReserved s
    → OnlyReserved (record s { subscribers = Map.put s.subscribers scope v })
unfolding OnlyReserved
put-OnlyReserved s scope v reserved only j w there =
    ground (arith, lookup-put s.subscribers scope v j, there, only j w, bytes_beq_iff scope j)

delete-OnlyReserved :
    (s : Store) (scope : Bytes)
    → OnlyReserved s
    → OnlyReserved (record s { subscribers = Map.delete s.subscribers scope })
unfolding OnlyReserved
delete-OnlyReserved s scope only j w there =
    ground (arith, lookup-delete s.subscribers scope j, there, only j w)

subscribe-OnlyReserved :
    (s : Store) (scope : Bytes) → OnlyReserved s → OnlyReserved ((subscribe s scope).1)
unfolding subscribe
subscribe-OnlyReserved s scope only = ground (arith, put-OnlyReserved s scope (make_chan 1), only)

unsubscribe-OnlyReserved :
    (s : Store) (scope : Bytes) → OnlyReserved s → OnlyReserved ((unsubscribe s scope).1)
unfolding unsubscribe
unsubscribe-OnlyReserved s scope only = ground (arith, delete-OnlyReserved s scope only, only)

-- A write to an entry that is there.
rewrite-OnlyReserved :
    (s : Store) (scope : Bytes) (v : Channel)
    → OnlyReserved s
    → (w : Channel) → Map.lookup s.subscribers scope ≡ some w
    → OnlyReserved (record s { subscribers = Map.put s.subscribers scope v })
unfolding OnlyReserved
rewrite-OnlyReserved s scope v only w there = put-OnlyReserved s scope v (only scope w there) only

notify_subscriber-OnlyReserved :
    (s : Store) (scope : Bytes) → OnlyReserved s → OnlyReserved (notify_subscriber s scope)
unfolding notify_subscriber
notify_subscriber-OnlyReserved s scope only = elim (Option-cases (Map.lookup s.subscribers scope)) [
  | inl nobody ↦ rw (nobody, notify_subscriber) only
  | inr (ch, there) ↦ elim (Option-cases (send ch)) [
    | inl full ↦ rw (there, full, notify_subscriber) only
    | inr (sent, done) ↦
        rw (there, done, notify_subscriber) (rewrite-OnlyReserved s scope sent only ch there)
  ]
]

receive-OnlyReserved :
    (s : Store) (scope : Bytes) → OnlyReserved s → OnlyReserved ((receive s scope).1)
unfolding receive
receive-OnlyReserved s scope only = elim (Option-cases (Map.lookup s.subscribers scope)) [
  | inl nobody ↦ rw (nobody, receive) only
  | inr (ch, there) ↦ elim (Option-cases (take_one ch)) [
    | inl empty ↦ rw (there, empty, receive) only
    | inr (left, done) ↦ rw (there, done, receive) (rewrite-OnlyReserved s scope left only ch there)
  ]
]

init_reserved_scope-subscribers :
    ⦃hash : Hash⦄
    → (s : Store) (name : Bytes) (stamp now_us : ℕ)
    → (init_reserved_scope s name stamp now_us).subscribers ≡ s.subscribers
unfolding init_reserved_scope
init_reserved_scope-subscribers s name stamp now_us = ground arith

pub new_store-OnlyReserved :
    ⦃hash : Hash⦄ → (c : Config) (clock : Clock) → OnlyReserved (new_store c clock)
unfolding OnlyReserved new_store init_reserved_scopes Map.lookup
new_store-OnlyReserved c clock scope w =
    rw
      (
        init_reserved_scope-subscribers _ inbox_scope_name 0 (clock 1),
        init_reserved_scope-subscribers _ events_scope_name 0 (clock 0),
      )
      (λ there. ground (arith, there))

module _ (s : Store) where
  subscribe-SameData :
      (t : Store) (scope : Bytes) → SameData s t → SameData s ((subscribe t scope).1)
  unfolding subscribe SameData
  subscribe-SameData t scope same = ground (arith, same)

  unsubscribe-SameData :
      (t : Store) (scope : Bytes) → SameData s t → SameData s ((unsubscribe t scope).1)
  unfolding unsubscribe SameData
  unsubscribe-SameData t scope same = ground (arith, same)

  notify_subscriber-SameData :
      (t : Store) (scope : Bytes) → SameData s t → SameData s (notify_subscriber t scope)
  unfolding notify_subscriber SameData
  notify_subscriber-SameData t scope same = ground (arith, same)

  receive-SameData : (t : Store) (scope : Bytes) → SameData s t → SameData s ((receive t scope).1)
  unfolding receive SameData
  receive-SameData t scope same = ground (arith, same)

-- If only reserved scopes have a subscriber, that holds after any number of subscription calls
-- in any order (subscribe, unsubscribe, wake-up, receive), and the shards and the counters are
-- what they were.
pub Calls-OnlyReserved : {s t : Store} → Calls s t → OnlyReserved s → OnlyReserved t × SameData s t
unfolding SameData
Calls-OnlyReserved idle only = (only, (refl, refl))
Calls-OnlyReserved {s} (subscribes {t} scope calls) only =
    let (o, d) = Calls-OnlyReserved calls only in
    (subscribe-OnlyReserved t scope o, subscribe-SameData s t scope d)
Calls-OnlyReserved {s} (unsubscribes {t} scope calls) only =
    let (o, d) = Calls-OnlyReserved calls only in
    (unsubscribe-OnlyReserved t scope o, unsubscribe-SameData s t scope d)
Calls-OnlyReserved {s} (notifies {t} scope calls) only =
    let (o, d) = Calls-OnlyReserved calls only in
    (notify_subscriber-OnlyReserved t scope o, notify_subscriber-SameData s t scope d)
Calls-OnlyReserved {s} (receives {t} scope calls) only =
    let (o, d) = Calls-OnlyReserved calls only in
    (receive-OnlyReserved t scope o, receive-SameData s t scope d)
