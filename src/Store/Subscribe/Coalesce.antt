-- ===== src/Store/Subscribe/Coalesce.antt =====
-- The one slot of a wake-up channel: wake-ups coalesce, and none is lost.
use inmem_cache.Base.{
  ◌≡◌, refl, Bool, true, false, none, some, ◌∙◌, if_true, List, [], ◌∷◌, arith, if◌then◌else◌,
}
use inmem_cache.Base.Bytes.{Bytes, bytes_eq, bytes_beq_iff}
use inmem_cache.Base.Map
use inmem_cache.Base.Map.{lookup-put}
use inmem_cache.Store.{Store, Channel}
use inmem_cache.Store.Subscribe.{make_chan, send, take_one, subscribe, notify_subscriber, receive}

-- What happens on a scope that is subscribed to: a wake-up, or a look of the subscriber for one.
pub data Event : Type 0 where
  wakes looks : Event

unfoldable pub run : List Event → Store → Bytes → Store
unfolding notify_subscriber receive
run [] s scope = s
run (wakes ∷ es) s scope = run es (notify_subscriber s scope) scope
run (looks ∷ es) s scope = run es (receive s scope).1 scope

-- Whether there was a wake-up since the last look.
unfoldable pub woken : Bool → List Event → Bool
woken w [] = w
woken w (wakes ∷ es) = woken true es
woken w (looks ∷ es) = woken false es

-- The channel that `Subscribe` makes, with a wake-up in it or without.
abbrev slot : Bool → Channel
slot w = record (make_chan 1) { waiting = if w then 1 else 0 }

lookup-put_same :
    (m : Map.Map Bytes Channel) (scope : Bytes) (ch : Channel)
    → Map.lookup (Map.put m scope ch) scope ≡ some ch
lookup-put_same m scope ch =
    lookup-put m scope ch scope ∙ if_true _ _ _ ((bytes_beq_iff scope scope).1 refl)

module _ (s : Store) (scope : Bytes) where
  notify_subscriber-slot :
      (w : Bool)
      → Map.lookup s.subscribers scope ≡ some (slot w)
      → Map.lookup (notify_subscriber s scope).subscribers scope ≡ some (slot true)
  unfolding notify_subscriber send
  notify_subscriber-slot false there =
      rw (there, notify_subscriber) (lookup-put_same s.subscribers scope (slot true))
  notify_subscriber-slot true there = rw (there, notify_subscriber) there

  receive-slot :
      (w : Bool)
      → Map.lookup s.subscribers scope ≡ some (slot w)
      → Map.lookup (receive s scope).1.subscribers scope ≡ some (slot false)
  unfolding receive take_one
  receive-slot true there = rw (there, receive) (lookup-put_same s.subscribers scope (slot false))
  receive-slot false there = rw (there, receive) there

  receive-answer :
      (w : Bool) → Map.lookup s.subscribers scope ≡ some (slot w) → (receive s scope).0 ≡ w
  unfolding receive take_one
  receive-answer true there = rw (there, receive) refl
  receive-answer false there = rw (there, receive) refl

  subscribe-slot :
      (subscribe s scope).0 ≡ none
      → Map.lookup (subscribe s scope).1.subscribers scope ≡ some (slot false)
  unfolding subscribe
  subscribe-slot accepted =
      ground (arith, accepted, lookup-put_same s.subscribers scope (make_chan 1))

run-slot :
    (es : List Event) (s : Store) (scope : Bytes) (w : Bool)
    → Map.lookup s.subscribers scope ≡ some (slot w)
    → Map.lookup (run es s scope).subscribers scope ≡ some (slot (woken w es))
unfolding run woken
run-slot [] s scope w there = there
run-slot (wakes ∷ es) s scope w there =
    run-slot es (notify_subscriber s scope) scope true (notify_subscriber-slot s scope w there)
run-slot (looks ∷ es) s scope w there =
    run-slot es (receive s scope).1 scope false (receive-slot s scope w there)

-- After a subscription that is accepted and any sequence of wake-ups and looks on the scope,
-- the subscriber finds a wake-up exactly where there was one since its last look: however many
-- there were they are one, and none is lost.
pub receive-run :
    (es : List Event) (s : Store) (scope : Bytes)
    → (subscribe s scope).0 ≡ none
    → (receive (run es (subscribe s scope).1 scope) scope).0 ≡ woken false es
receive-run es s scope accepted =
    receive-answer (run es (subscribe s scope).1 scope) scope (woken false es)
      (run-slot es (subscribe s scope).1 scope false (subscribe-slot s scope accepted))
