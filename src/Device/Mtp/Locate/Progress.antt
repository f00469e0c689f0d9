-- ===== src/Device/Mtp/Locate/Progress.antt =====
-- How the background walk can end.
use companion_mission_planne.Base.{
  ℕ, suc, ◌+◌, ◌≡◌, refl, ◌⊎◌, inl, inr, arith, true, Option, none, some, List, [], ◌∷◌, Result,
  err,
}
use companion_mission_planne.Device.Mtp.{MtpError, io, Located}
use companion_mission_planne.Device.Mtp.Locate.{
  Channel, nil_channel, open_channel, closed_channel, Walk, Event, launch, store, close_done,
  launch_walk, store_result, close_channel, close_walk, step, awaited, Reachable, Phase,
}
use companion_mission_planne.Device.Mtp.Locate.Once.{stored, Reachable-IsOnce}

-- The events of a run, in turn.
abbrev pub run : List Event → Walk → Option Walk
run [] w = some w
run (e ∷ events) w = elim (step e w) [ none ↦ none | some w' ↦ run events w' ]

-- A walk that has some outcome to give to the callers that wait for it.
abbrev pub CanEnd : Walk → Type 0
CanEnd w =
    (events : List Event) × (w' : Walk) × (run events w ≡ some w')
    × ((r : Result MtpError Located) × (awaited w' ≡ some r))

CanEnd-step : (e : Event) (w w' : Walk) → step e w ≡ some w' → CanEnd w' → CanEnd w
CanEnd-step e w w' s (events, end, a, b) = (e ∷ events, end, ground (arith, s, a), b)

CanEnd-closing :
    (w : Walk) (r : Result MtpError Located)
    → w.closing ≡ 1
    → w.done ≡ open_channel
    → w.result ≡ some r
    → CanEnd w
unfolding step close_walk close_channel awaited
CanEnd-closing w r e q h =
    let closed = record w { closing = 0; done = closed_channel; notifying = suc w.notifying } in
    (close_done ∷ [], closed, ground (arith, e, q), (r, h))

CanEnd-walking : (w : Walk) → w.walking ≡ 1 → w.closing ≡ 0 → w.done ≡ open_channel → CanEnd w
unfolding step store_result
CanEnd-walking w e z q =
    let r : Result MtpError Located = err io in
    let stored = record w { walking = 0; closing = suc w.closing; result = some r } in
    CanEnd-step (store r) w stored (ground (arith, e))
      (CanEnd-closing stored r (omega (arith, z)) q refl)

CanEnd-leaving :
    (w : Walk) → w.leaving ≡ 1 → w.walking ≡ 0 → w.closing ≡ 0 → w.done ≡ open_channel → CanEnd w
unfolding step launch_walk
CanEnd-leaving w e y z q =
    let launched = record w { leaving = 0; walking = suc w.walking } in
    CanEnd-step launch w launched (ground (arith, e))
      (CanEnd-walking launched (omega (arith, y)) z q)

one-of : (a b c : ℕ) → a + b + c ≡ 1 → ((a ≡ 1) × (b ≡ 0) × (c ≡ 0)) ⊎ ((b ≡ 1) × (c ≡ 0)) ⊎ (c ≡ 1)
one-of a b c h = ground (arith, h)

CanEnd-Phase : (c : Channel) (w : Walk) → w.done ≡ c → w.started ≡ true → Phase c w → CanEnd w
unfolding awaited
CanEnd-Phase nil_channel w q s (a, b, c) = absurd (ground (arith, s, a))
CanEnd-Phase closed_channel w q s (a, b, c, (r, d)) = ([], w, refl, (r, ground (arith, q, d)))
CanEnd-Phase open_channel w q s (a, b, c, d) = elim (one-of w.leaving w.walking w.closing b) [
  | inl (x, y, z) ↦ CanEnd-leaving w x y z q
  | inr (inl (y, z)) ↦ CanEnd-walking w y z q
  | inr (inr z) ↦ let (r, h) = stored w 0 z d in CanEnd-closing w r z q h
]

-- A caller that waits in `awaitLocate` is never stuck: from every state that has been started some
-- events of the walk lead to one in which the outcome is there.
pub Reachable-CanEnd : (w : Walk) → Reachable w → w.started ≡ true → CanEnd w
Reachable-CanEnd w r s = CanEnd-Phase w.done w refl s (Reachable-IsOnce w r).1
