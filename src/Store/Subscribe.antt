-- ===== src/Store/Subscribe.antt =====
-- subscribe.go: the registry of wake-up channels. A send and a receive are those of a buffered
-- channel of Go: one that cannot go on would wait, which is `none` here.
pub mod Coalesce
pub mod Exclusive
pub mod Registry
use inmem_cache.Base.{ℕ, zero, suc, ◌+◌, ltb, Bool, true, false, Option, none, some, if◌then◌else◌}
use inmem_cache.Base.Bytes.{Bytes, bytes_eq}
use inmem_cache.Base.Map
use inmem_cache.Store.{Store, Channel}
use inmem_cache.Validate.{is_reserved_scope}

pub data SubscribeError : Type 0 where
  invalid_subscribe_scope already_subscribed : SubscribeError

-- `make(chan struct{}, capacity)`
abbrev pub make_chan : ℕ → Channel
make_chan capacity = record { capacity = capacity; waiting = 0 }

-- `ch <- struct{}{}`; `none` where it would wait for room.
unfoldable pub send : Channel → Option Channel
send ch = if ltb ch.waiting ch.capacity then some (record ch { waiting = ch.waiting + 1 }) else none

abbrev left_after : ℕ → Option ℕ
left_after zero = none
left_after (suc n) = some n

-- `<-ch`; `none` where it would wait for a value.
unfoldable pub take_one : Channel → Option Channel
take_one ch = elim (left_after ch.waiting) [
  | none ↦ none
  | some left ↦ some (record ch { waiting = left })
]

-- `Subscribe`: the error, or none with the new channel in the registry.
unfoldable pub subscribe : Store → Bytes → Option SubscribeError × Store
unfolding Map.lookup Map.put is_reserved_scope
subscribe s scope =
    if is_reserved_scope scope
    then elim (Map.lookup s.subscribers scope) [
      | some _ ↦ (some SubscribeError.already_subscribed, s)
      | none ↦ (none, record s { subscribers = Map.put s.subscribers scope (make_chan 1) })
    ]
    else (some SubscribeError.invalid_subscribe_scope, s)

-- `unsubscribe`: whether a channel was closed.
unfoldable pub unsubscribe : Store → Bytes → Bool × Store
unfolding Map.lookup Map.delete
unsubscribe s scope = elim (Map.lookup s.subscribers scope) [
  | none ↦ (false, s)
  | some _ ↦ (true, record s { subscribers = Map.delete s.subscribers scope })
]

-- `notifySubscriber`: the send, or the `default` branch where it would wait.
unfoldable pub notify_subscriber : Store → Bytes → Store
unfolding Map.lookup Map.put send
notify_subscriber s scope = elim (Map.lookup s.subscribers scope) [
  | none ↦ s
  | some ch ↦ elim (send ch) [
    | none ↦ s
    | some sent ↦ record s { subscribers = Map.put s.subscribers scope sent }
  ]
]

-- The subscriber looks for a wake-up: whether it got one without waiting.
unfoldable pub receive : Store → Bytes → Bool × Store
unfolding Map.lookup Map.put take_one
receive s scope = elim (Map.lookup s.subscribers scope) [
  | none ↦ (false, s)
  | some ch ↦ elim (take_one ch) [
    | none ↦ (false, s)
    | some left ↦ (true, record s { subscribers = Map.put s.subscribers scope left })
  ]
]
