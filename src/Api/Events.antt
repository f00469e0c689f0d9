-- ===== src/Api/Events.antt =====
-- The event socket of internal/api/events.go and `broadcast` of server.go. Subscribing and
-- unsubscribing hold subsMu and are one step each. A broadcast holds it for reading only, so that
-- other broadcasts and the sockets run between its sends: each send to one channel is a step, and so
-- is each receive.
pub mod Order
use companion_mission_planne.Base.{
  ℕ, suc, ◌+◌, Bool, true, false, Option, none, some, List, [], ◌∷◌, ◌++◌, Text, nat_Eq, length,
  ltb, map, if◌then◌else◌,
}
use companion_mission_planne.Base.Table
use companion_mission_planne.Base.Table.{Table}

-- Event of server.go
pub record Event : Type 0 where
  pub kind : Text
  pub device : Text
  pub slot : Text
  pub at : ℕ

-- subscriber: what its channel holds; and, for the proofs, what was written to its socket and the
-- events that a broadcast has offered to its channel, in the order of these sends.
pub record Subscriber : Type 0 where
  pub send : List Event
  pub written : List Event
  pub offered : List Event

-- The subscribers by socket.
pub record Hub : Type 0 where
  pub subs : Table ℕ Subscriber

-- The capacity of a subscriber's channel.
abbrev pub channel_capacity : ℕ
channel_capacity = 16

unfoldable pub new_hub : Hub
new_hub = record { subs = [] }

-- One subscriber's part of broadcast: a full channel drops the event.
unfoldable pub offer : Event → Subscriber → Subscriber
offer ev sub =
    if ltb (length sub.send) channel_capacity
    then record sub { send = sub.send ++ ev ∷ []; offered = sub.offered ++ ev ∷ [] }
    else record sub { offered = sub.offered ++ ev ∷ [] }

-- A turn of the loop of some broadcast, for one of the subscribers.
unfoldable pub offer_to : ℕ → Event → Hub → Hub
unfolding offer
offer_to id ev h = elim (Table.get id h.subs) [
  | none ↦ h
  | some sub ↦ record h { subs = Table.put id (offer ev sub) h.subs }
]

-- The loop of broadcast over the subscribers.
unfoldable pub offer_each : List ℕ → Event → Hub → Hub
unfolding offer_to
offer_each [] ev h = h
offer_each (id ∷ ids) ev h = offer_each ids ev (offer_to id ev h)

-- broadcast, in a run in which nothing comes between its sends.
unfoldable pub broadcast : Event → Hub → Hub
unfolding offer_each
broadcast ev h = offer_each (map (λ (p : ℕ × Subscriber). p.0) h.subs) ev h

-- The start of handleEvents, for a socket without a subscriber.
unfoldable pub subscribe : ℕ → Hub → Option Hub
subscribe id h = elim (Table.get id h.subs) [
  | some sub ↦ none
  | none ↦
      some
        (record h { subs = Table.put id (record { send = []; written = []; offered = [] }) h.subs })
]

unfoldable pub received : ℕ → Subscriber → Hub → Option Hub
received id sub h = elim sub.send [
  | [] ↦ none
  | (ev ∷ rest) ↦ some (record h {
    subs = Table.put id (record sub { send = rest; written = sub.written ++ ev ∷ [] }) h.subs;
  })
]

-- One turn of the loop of handleEvents: the next event is written; `none` while the channel is empty.
unfoldable pub receive : ℕ → Hub → Option Hub
unfolding received
receive id h = elim (Table.get id h.subs) [ none ↦ none | some sub ↦ received id sub h ]

-- The deferred call at the end of handleEvents.
unfoldable pub unsubscribe : ℕ → Hub → Option Hub
unsubscribe id h = elim (Table.get id h.subs) [
  | none ↦ none
  | some sub ↦ some (record h { subs = Table.remove id h.subs })
]
