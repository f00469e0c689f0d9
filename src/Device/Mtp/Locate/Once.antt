-- ===== src/Device/Mtp/Locate/Once.antt =====
-- The background walk over the interleavings of its callers.
use mathlib.Core.Path.{subst}
use companion_mission_planne.Base.{
  ℕ, zero, suc, ◌≡◌, refl, sym, ◌⊎◌, inl, inr, arith, Bool, true, false, some, some-injective,
  Result, if◌then◌else◌, Bool-cases,
}
use companion_mission_planne.Device.Mtp.{MtpError, Located}
use companion_mission_planne.Device.Mtp.Locate.{
  Channel, nil_channel, open_channel, closed_channel, Walk, new_walk, Event, kickoff, launch, store,
  close_done, notify, notify_walk, IsQuiet, kickoff_locate, launch_walk, store_result,
  close_channel, close_walk, step, Reachable, first, next, on_way, Phase, IsOnce,
}

fresh : (c : Channel) (w : Walk) → Phase c w → w.started ≡ false → (on_way w ≡ 0) × IsQuiet w
fresh nil_channel w (a, b, c) e = (b, c)
fresh open_channel w p e = absurd (ground (arith, p.0, e))
fresh closed_channel w p e = absurd (ground (arith, p.0, e))

-- What the first kickoff makes of the fields.
abbrev begun : Walk → Walk
begun w = record w { started = true; done = open_channel; leaving = suc w.leaving }

kickoff-IsOnce : (w : Walk) → IsOnce w → IsOnce (kickoff_locate w)
unfolding kickoff_locate
kickoff-IsOnce w h = elim (Bool-cases w.started) [
  | inl e ↦ subst (λ (b : Bool). IsOnce (if b then w else begun w)) (sym e) h
  | inr e ↦
      let (a, b) = fresh w.done w h.1 e in
      subst (λ (b : Bool). IsOnce (if b then w else begun w)) (sym e)
        (h.0, (refl, omega (arith, a), b, inl (omega (arith, a))))
]

launch-Phase :
    (c : Channel) (w : Walk) (n : ℕ)
    → w.leaving ≡ suc n
    → Phase c w
    → Phase c (record w { leaving = n; walking = suc w.walking })
launch-Phase nil_channel w n e (a, b, c) = absurd (omega (arith, e, b))
launch-Phase open_channel w n e (a, b, c, d) = (a, omega (arith, e, b), c, d)
launch-Phase closed_channel w n e (a, b, c, d) = absurd (omega (arith, e, b))

launch-IsOnce :
    (n : ℕ) (w w' : Walk) → w.leaving ≡ n → IsOnce w → launch_walk n w ≡ some w' → IsOnce w'
unfolding launch_walk
launch-IsOnce zero w w' e h s = absurd (cc)
launch-IsOnce (suc n) w w' e h s =
    subst IsOnce (some-injective _ _ s) (h.0, launch-Phase w.done w n e h.1)

store-Phase :
    (c : Channel) (w : Walk) (n : ℕ) (r : Result MtpError Located)
    → w.walking ≡ suc n
    → Phase c w
    → Phase c (record w { walking = n; closing = suc w.closing; result = some r })
store-Phase nil_channel w n r e (a, b, c) = absurd (omega (arith, e, b))
store-Phase open_channel w n r e (a, b, c, d) = (a, omega (arith, e, b), c, inr (r, refl))
store-Phase closed_channel w n r e (a, b, c, d) = absurd (omega (arith, e, b))

store-IsOnce :
    (n : ℕ) (r : Result MtpError Located) (w w' : Walk)
    → w.walking ≡ n
    → IsOnce w
    → store_result n r w ≡ some w'
    → IsOnce w'
unfolding store_result
store-IsOnce zero r w w' e h s = absurd (cc)
store-IsOnce (suc n) r w w' e h s =
    subst IsOnce (some-injective _ _ s) (h.0, store-Phase w.done w n r e h.1)

pub stored :
    (w : Walk) (n : ℕ)
    → w.closing ≡ suc n
    → (w.closing ≡ 0) ⊎ ((r : Result MtpError Located) × (w.result ≡ some r))
    → (r : Result MtpError Located) × (w.result ≡ some r)
stored w n e (inl z) = absurd (omega (arith, e, z))
stored w n e (inr r) = r

close-Phase :
    (c : Channel) (w : Walk) (n : ℕ)
    → w.closing ≡ suc n
    → w.panicked ≡ false
    → Phase c w
    → IsOnce (close_channel c (record w { closing = n }))
unfolding close_channel
close-Phase nil_channel w n e q (a, b, c) = absurd (omega (arith, e, b))
close-Phase open_channel w n e q (a, b, c, d) =
    (q, (a, omega (arith, e, b), inl (omega (arith, c.0), c.1), stored w n e d))
close-Phase closed_channel w n e q (a, b, c, d) = absurd (omega (arith, e, b))

close-IsOnce :
    (n : ℕ) (w w' : Walk) → w.closing ≡ n → IsOnce w → close_walk n w ≡ some w' → IsOnce w'
unfolding close_walk
close-IsOnce zero w w' e h s = absurd (cc)
close-IsOnce (suc n) w w' e h s =
    subst IsOnce (some-injective _ _ s) (close-Phase w.done w n e h.0 h.1)

notify-Phase :
    (c : Channel) (w : Walk) (n : ℕ)
    → w.notifying ≡ suc n
    → Phase c w
    → Phase c (record w { notifying = n; calls = if w.has_callback then suc w.calls else w.calls })
notify-Phase nil_channel w n e (a, b, c) = absurd (omega (arith, e, c.0))
notify-Phase open_channel w n e (a, b, c, d) = absurd (omega (arith, e, c.0))
notify-Phase closed_channel w n e (a, b, inl (c, z), d) =
    (a, b, inr (omega (arith, e, c), rw z refl), d)
notify-Phase closed_channel w n e (a, b, inr (c, z), d) = absurd (omega (arith, e, c))

notify-IsOnce :
    (n : ℕ) (w w' : Walk) → w.notifying ≡ n → IsOnce w → notify_walk n w ≡ some w' → IsOnce w'
unfolding notify_walk
notify-IsOnce zero w w' e h s = absurd (cc)
notify-IsOnce (suc n) w w' e h s =
    subst IsOnce (some-injective _ _ s) (h.0, notify-Phase w.done w n e h.1)

step-IsOnce : (e : Event) (w w' : Walk) → IsOnce w → step e w ≡ some w' → IsOnce w'
unfolding step
step-IsOnce kickoff w w' h s = subst IsOnce (some-injective _ _ s) (kickoff-IsOnce w h)
step-IsOnce launch w w' h s = launch-IsOnce w.leaving w w' refl h s
step-IsOnce (store r) w w' h s = store-IsOnce w.walking r w w' refl h s
step-IsOnce close_done w w' h s = close-IsOnce w.closing w w' refl h s
step-IsOnce notify w w' h s = notify-IsOnce w.notifying w w' refl h s

-- However callers interleave, no channel is closed twice or before it is made, and at most one
-- goroutine is ever on its way through the walk; when the channel is closed its outcome is stored, and
-- the callback is run at most once, and exactly once, where there is one, when the goroutine is past
-- it.
pub Reachable-IsOnce : (w : Walk) → Reachable w → IsOnce w
unfolding new_walk
Reachable-IsOnce w (first has_callback) = (refl, (refl, refl, (refl, refl)))
Reachable-IsOnce w (next {w = v} e r s) = step-IsOnce e v w (Reachable-IsOnce v r) s
