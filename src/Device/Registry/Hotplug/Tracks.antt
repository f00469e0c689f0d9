-- ===== src/Device/Registry/Hotplug/Tracks.antt =====
-- What a listener knows that applies the events of a poller, and the case of translateStateChange
-- that no change reaches.
use companion_mission_planne.Base.{
  ℕ, ◌≡◌, refl, sym, ◌∙◌, ap, ◌≢◌, inl, inr, arith, Bool, true, false, ◌&&◌, not, Option, none,
  some, List, [], ◌∷◌, ◌++◌, Text, text_Eq, elem, ◌==◌, ==→eq, if◌then◌else◌, Bool-cases,
}
use companion_mission_planne.Device.Registry.Hotplug.{
  EventType, connected, disconnected, authorized, refused, state_change, refreshed, Event, id_set,
  differing, poll_tick, poll_loop, StateChange, event_type,
}

-- What one event says of the presence of a device.
abbrev heard : EventType → Bool → Bool
heard connected b = true
heard disconnected b = false
heard authorized b = b
heard refused b = b
heard state_change b = b
heard refreshed b = b

-- Whether a listener takes a device for present that held it for `b` before these events.
abbrev pub present_after : Text → List Event → Bool → Bool
present_after id [] b = b
present_after id (ev ∷ events) b =
    present_after id events (if ev.device_id == id then heard ev.kind b else b)

present-append :
    (id : Text) (xs ys : List Event) (b : Bool)
    → present_after id (xs ++ ys) b ≡ present_after id ys (present_after id xs b)
present-append id [] ys b = refl
present-append id (ev ∷ xs) ys b = present-append id xs ys _

-- Hearing the same twice is hearing it once.
heard_twice : (kind : EventType) (b : Bool) → heard kind (heard kind b) ≡ heard kind b
heard_twice kind b = ground arith

present-differing :
    (id : Text) (kind : EventType) (now : ℕ) (ids other : List Text) (b : Bool)
    → present_after id (differing kind now ids other) b
      ≡ (if elem id ids && not (elem id other) then heard kind b else b)
unfolding differing
present-differing id kind now [] other b = refl
present-differing id kind now (j ∷ ids) other b =
    let same : (j == id) ≡ true → elem j other ≡ elem id other =
      λ q. ap (λ k. elem k other) (==→eq j id q) in
    elim (Bool-cases (elem j other)) [
      | inl e ↦ rw e (present-differing id kind now ids other b ∙ ground (arith, e, same))
      | inr e ↦ elim (Bool-cases (j == id)) [
        | inl q ↦
            let rest = present-differing id kind now ids other (heard kind b) in
            let other_not : elem id other ≡ false = sym (same q) ∙ e in
            ground (arith, e, q, other_not, rest, heard_twice kind b)
        | inr q ↦ ground (arith, e, q, present-differing id kind now ids other b)
      ]
    ]

elem-id_set : (id : Text) (ids : List Text) → elem id (id_set ids) ≡ elem id ids
unfolding id_set
elem-id_set id [] = refl
elem-id_set id (j ∷ ids) =
    let same : (j == id) ≡ true → elem j (id_set ids) ≡ elem id (id_set ids) =
      λ q. ap (λ k. elem k (id_set ids)) (==→eq j id q) in
    ground (arith, elem-id_set id ids, same)

-- A listener that was right about a device before a tick is right about it after the tick.
tick-tracks :
    (id : Text) (now : ℕ) (scanned : Option (List Text)) (prev : List Text)
    → present_after id (poll_tick now scanned prev).1 (elem id prev)
      ≡ elem id (poll_tick now scanned prev).0
unfolding poll_tick
tick-tracks id now none prev = refl
tick-tracks id now (some ids) prev =
    let curr = id_set ids in
    let gone = present-differing id disconnected now prev curr (elem id prev) in
    let came = λ (b : Bool). present-differing id connected now curr prev b in
    present-append id (differing disconnected now prev curr) _ _ ∙ came _ ∙ ground (arith, gone)

-- The ids of the last scan that did not fail, or those held before if every scan failed.
abbrev pub last_listed : List (ℕ × Option (List Text)) → List Text → List Text
last_listed [] prev = prev
last_listed ((now, none) ∷ ticks) prev = last_listed ticks prev
last_listed ((now, some ids) ∷ ticks) prev = last_listed ticks ids

loop-tracks :
    (id : Text) (ticks : List (ℕ × Option (List Text))) (prev held : List Text)
    → elem id prev ≡ elem id held
    → present_after id (poll_loop ticks prev).1 (elem id held) ≡ elem id (last_listed ticks held)
unfolding poll_loop
loop-tracks id [] prev held e = refl
loop-tracks id ((now, none) ∷ ticks) prev held e =
    unfold poll_tick in loop-tracks id ticks prev held e
loop-tracks id ((now, some ids) ∷ ticks) prev held e =
    let (curr, sent) = poll_tick now (some ids) prev in
    present-append id sent (poll_loop ticks curr).1 (elem id held)
    ∙ ap (present_after id (poll_loop ticks curr).1) (
        ap (present_after id sent) (sym e)
        ∙ tick-tracks id now (some ids) prev
        ∙ (unfold poll_tick in elem-id_set id ids))
    ∙ loop-tracks id ticks curr ids (unfold poll_tick in elem-id_set id ids)

-- A poller starts with no device. Whatever its scans give, and however many of them fail, the events
-- it has sent tell a listener that applies them which devices the last successful scan listed.
pub poll_loop-tracks :
    (id : Text) (ticks : List (ℕ × Option (List Text)))
    → present_after id (poll_loop ticks []).1 false ≡ elem id (last_listed ticks [])
poll_loop-tracks id ticks = loop-tracks id ticks [] [] refl

-- No change of state is reported as an authorization: a device that becomes ready is reported as
-- connected, whatever it was before.
pub event_type-ne_authorized : (ev : StateChange) → event_type ev ≢ authorized
unfolding event_type
event_type-ne_authorized ev = ground arith
