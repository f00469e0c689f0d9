-- ===== src/Api/Events/Order.antt =====
-- What a subscriber of the event socket gets, in any interleaving.
use mathlib.Core.Path.{subst}
use companion_mission_planne.Base.{
  map, ℕ, ◌≤◌, ◌≡◌, refl, inl, inr, arith, some, List, [], ◌∷◌, ◌++◌, nat_Eq, length, length-append,
  append_assoc, ltb, Bool-cases, Option-cases,
}
use companion_mission_planne.Base.Table
use companion_mission_planne.Base.Table.{Table, Each, put-Each, remove-Each, get-Each}
use companion_mission_planne.Api.Events.{
  Event, Subscriber, Hub, channel_capacity, new_hub, offer, offer_each, offer_to, broadcast,
  subscribe, received, receive, unsubscribe,
}

-- The first list is what is left of the second when some elements are left out.
pub data IsSublist {A : Type 0} : List A → List A → Type 0 where
  done : IsSublist [] []
  take_one : {xs ys : List A} (a : A) → IsSublist xs ys → IsSublist (a ∷ xs) (a ∷ ys)
  leave_one : {xs ys : List A} (a : A) → IsSublist xs ys → IsSublist xs (a ∷ ys)

module _ {A : Type 0} where
  nil-IsSublist : (ys : List A) → IsSublist [] ys
  nil-IsSublist [] = done
  nil-IsSublist (a ∷ ys) = leave_one a (nil-IsSublist ys)

  IsSublist-keep :
      {xs ys : List A} (a : A) → IsSublist xs ys → IsSublist (xs ++ a ∷ []) (ys ++ a ∷ [])
  IsSublist-keep a done = take_one a done
  IsSublist-keep a (take_one b s) = take_one b (IsSublist-keep a s)
  IsSublist-keep a (leave_one b s) = leave_one b (IsSublist-keep a s)

  IsSublist-skip : {xs ys : List A} (a : A) → IsSublist xs ys → IsSublist xs (ys ++ a ∷ [])
  IsSublist-skip a done = leave_one a done
  IsSublist-skip a (take_one b s) = take_one b (IsSublist-skip a s)
  IsSublist-skip a (leave_one b s) = leave_one b (IsSublist-skip a s)

-- A subscriber gets events that were offered to it, in the order of the offers, each at most once; at
-- most `channel_capacity` of them wait.
abbrev pub IsServed : Subscriber → Type 0
IsServed sub =
    IsSublist (sub.written ++ sub.send) sub.offered × (length sub.send ≤ channel_capacity)

abbrev pub IsFair : Hub → Type 0
IsFair h = Each (λ id sub. IsServed sub) h.subs

-- One step of the server or of a socket's goroutine.
pub data Step (h : Hub) : Hub → Type 0 where
  offers : (id : ℕ) (ev : Event) → Step h (offer_to id ev h)
  subscribes : (id : ℕ) {h' : Hub} → subscribe id h ≡ some h' → Step h h'
  receives : (id : ℕ) {h' : Hub} → receive id h ≡ some h' → Step h h'
  unsubscribes : (id : ℕ) {h' : Hub} → unsubscribe id h ≡ some h' → Step h h'

pub data Reachable : Hub → Type 0 where
  first : Reachable new_hub
  next : {h h' : Hub} → Reachable h → Step h h' → Reachable h'

offer-IsServed : (ev : Event) (sub : Subscriber) → IsServed sub → IsServed (offer ev sub)
unfolding offer
offer-IsServed ev sub (s, b) = elim (Bool-cases (ltb (length sub.send) channel_capacity)) [
  | inl e ↦ rw e (
    subst (λ l. IsSublist l (sub.offered ++ ev ∷ [])) (append_assoc sub.written sub.send (ev ∷ []))
        (IsSublist-keep ev s),
    ground (arith, e, length-append sub.send (ev ∷ [])),
  )
  | inr e ↦ rw e (IsSublist-skip ev s, b)
]

received-IsFair :
    (id : ℕ) (sub : Subscriber) (waiting : List Event) (h h' : Hub)
    → sub.send ≡ waiting
    → IsServed sub
    → IsFair h
    → received id sub h ≡ some h'
    → IsFair h'
unfolding received
received-IsFair id sub [] h h' q s f e = absurd (ground (arith, q, e))
received-IsFair id sub (ev ∷ rest) h h' q (s, b) f e =
    let moved : Subscriber = record sub { send = rest; written = sub.written ++ ev ∷ [] } in
    let served : IsServed moved = (
      rw (append_assoc sub.written (ev ∷ []) rest)
          (subst (λ l. IsSublist (sub.written ++ l) sub.offered) q s),
      ground (arith, q, b),
    ) in
    subst IsFair (ground (arith, q, e)) (put-Each _ id moved h.subs served f)

-- Every step keeps it.
Step-IsFair : {h h' : Hub} → Step h h' → IsFair h → IsFair h'
unfolding offer_to subscribe receive unsubscribe
Step-IsFair {h} (offers id ev) f = elim (Option-cases (Table.get id h.subs)) [
  | inl q ↦ let same : h ≡ offer_to id ev h = ground (arith, q) in subst IsFair same f
  | inr (sub, q) ↦
      let served = offer-IsServed ev sub (get-Each IsServed id sub h.subs f q) in
      let moved : Hub = record h { subs = Table.put id (offer ev sub) h.subs } in
      let same : moved ≡ offer_to id ev h = ground (arith, q) in
      subst IsFair same (put-Each _ id (offer ev sub) h.subs served f)
]
Step-IsFair {h} (subscribes id e) f = elim (Option-cases (Table.get id h.subs)) [
  | inl q ↦
      let fresh : Subscriber = record { send = []; written = []; offered = [] } in
      subst IsFair (ground (arith, q, e)) (put-Each _ id fresh h.subs (done, omega arith) f)
  | inr (sub, q) ↦ absurd (ground (arith, q, e))
]
Step-IsFair {h} {h'} (receives id e) f = elim (Option-cases (Table.get id h.subs)) [
  | inl q ↦ absurd (ground (arith, q, e))
  | inr (sub, q) ↦
      received-IsFair id sub sub.send h h' refl (get-Each IsServed id sub h.subs f q) f
        (ground (arith, q, e))
]
Step-IsFair {h} (unsubscribes id e) f = elim (Option-cases (Table.get id h.subs)) [
  | inl q ↦ absurd (ground (arith, q, e))
  | inr (sub, q) ↦ subst IsFair (ground (arith, q, e)) (remove-Each _ id h.subs f)
]

-- In every interleaving of the sends of broadcasts, new and closed sockets and writes, what has been
-- written to a socket and what waits for it are events that broadcasts have offered to it, in the
-- order of these offers, each at most once, and no more than `channel_capacity` of them wait.
pub Reachable-IsFair : {h : Hub} → Reachable h → IsFair h
unfolding new_hub
Reachable-IsFair first = tt
Reachable-IsFair (next r st) = Step-IsFair st (Reachable-IsFair r)

-- A call of broadcast is such a run, so it leads from reachable states to reachable ones.
offer_each-Reachable :
    (ids : List ℕ) (ev : Event) {h : Hub} → Reachable h → Reachable (offer_each ids ev h)
unfolding offer_each
offer_each-Reachable [] ev r = r
offer_each-Reachable (id ∷ ids) ev r = offer_each-Reachable ids ev (next r (offers id ev))

pub broadcast-Reachable : (ev : Event) {h : Hub} → Reachable h → Reachable (broadcast ev h)
unfolding broadcast
broadcast-Reachable ev {h} r = offer_each-Reachable (map (λ (p : ℕ × Subscriber). p.0) h.subs) ev r
