-- ===== src/Device/Mtp/Locate.antt =====
-- The background walk of internal/device/mtp_controller.go: `kickoffLocate`, `awaitLocate`,
-- `runLocate` and `isLocating`, as the events of goroutines that interleave. What the code does under
-- one hold of locateMu is one event, and so is the close of the channel, and then the callback.
pub mod Once
pub mod Progress
use companion_mission_planne.Base.{
  ℕ, zero, suc, ◌+◌, ◌≤◌, ◌≡◌, refl, sym, ◌∙◌, ap, ◌⊎◌, inl, inr, arith, Bool, true, false, not,
  Option, none, some, List, [], ◌∷◌, Result, ok, err, if◌then◌else◌, Bool-cases, Option-cases,
}
use companion_mission_planne.Device.Mtp.{MtpError, Located}

-- locateDone: nil, open, or closed.
pub data Channel : Type 0 where
  nil_channel open_channel closed_channel : Channel

-- The fields of the controller, and the goroutines on their way: `leaving` callers have set
-- locateStarted and not yet run `go`, `walking` ones are in classify, `closing` ones have stored the
-- outcome, and `notifying` ones have closed the channel and come to the callback, `onLocated`, which
-- may be nil. `panicked` is the close of a channel that is nil or closed.
pub record Walk : Type 0 where
  pub started : Bool
  pub done : Channel
  pub result : Option (Result MtpError Located)
  pub leaving : ℕ
  pub walking : ℕ
  pub closing : ℕ
  pub notifying : ℕ
  pub has_callback : Bool
  pub calls : ℕ
  pub panicked : Bool

unfoldable pub new_walk : Bool → Walk
new_walk has_callback = record {
  started = false;
  done = nil_channel;
  result = none;
  leaving = 0;
  walking = 0;
  closing = 0;
  notifying = 0;
  has_callback = has_callback;
  calls = 0;
  panicked = false;
}

pub data Event : Type 0 where
  kickoff : Event
  launch : Event
  store : Result MtpError Located → Event
  close_done : Event
  notify : Event

-- kickoffLocate up to the release of the lock.
unfoldable pub kickoff_locate : Walk → Walk
kickoff_locate w =
    if w.started
    then w
    else record w { started = true; done = open_channel; leaving = suc w.leaving }

launch_walk : ℕ → Walk → Option Walk
launch_walk zero w = none
launch_walk (suc n) w = some (record w { leaving = n; walking = suc w.walking })

-- The outcome of classify is stored under the lock.
store_result : ℕ → Result MtpError Located → Walk → Option Walk
store_result zero r w = none
store_result (suc n) r w = some (record w { walking = n; closing = suc w.closing; result = some r })

close_channel : Channel → Walk → Walk
close_channel open_channel w = record w { done = closed_channel; notifying = suc w.notifying }
close_channel nil_channel w = record w { panicked = true }
close_channel closed_channel w = record w { panicked = true }

-- close(done), outside the lock.
close_walk : ℕ → Walk → Option Walk
unfolding close_channel
close_walk zero w = none
close_walk (suc n) w = some (close_channel w.done (record w { closing = n }))

-- The callback, if there is one.
notify_walk : ℕ → Walk → Option Walk
notify_walk zero w = none
notify_walk (suc n) w =
    some (record w { notifying = n; calls = if w.has_callback then suc w.calls else w.calls })

-- What an event does; `none` where it cannot happen.
unfoldable pub step : Event → Walk → Option Walk
unfolding kickoff_locate launch_walk store_result close_walk notify_walk
step kickoff w = some (kickoff_locate w)
step launch w = launch_walk w.leaving w
step (store r) w = store_result w.walking r w
step close_done w = close_walk w.closing w
step notify w = notify_walk w.notifying w

-- awaitLocate past its own kickoff: `none` while it blocks.
unfoldable pub awaited : Walk → Option (Result MtpError Located)
awaited w = elim w.done [ closed_channel ↦ w.result | open_channel ↦ none | nil_channel ↦ none ]

-- isLocating
unfoldable pub is_locating : Walk → Bool
is_locating w = elim w.done [
  | open_channel ↦ w.started
  | closed_channel ↦ false
  | nil_channel ↦ false
]

-- The states that some interleaving leads to.
pub data Reachable : Walk → Type 0 where
  first : (has_callback : Bool) → Reachable (new_walk has_callback)
  next : {w w' : Walk} (e : Event) → Reachable w → step e w ≡ some w' → Reachable w'

-- The goroutines on their way to the close of the channel.
abbrev pub on_way : Walk → ℕ
on_way w = w.leaving + w.walking + w.closing

abbrev pub IsQuiet : Walk → Type 0
IsQuiet w = (w.notifying ≡ 0) × (w.calls ≡ 0)

-- The goroutine has come to the callback, or it is past it.
abbrev pub IsNotified : Walk → Type 0
IsNotified w =
    ((w.notifying ≡ 1) × (w.calls ≡ 0))
    ⊎ ((w.notifying ≡ 0) × (w.calls ≡ (if w.has_callback then 1 else 0)))

-- Before the first kickoff nothing runs; while the channel is open exactly one goroutine is on its
-- way; once it is closed a result is stored, and that goroutine has only the callback left to run, or
-- nothing, when the callback has run once if there is one.
abbrev pub Phase : Channel → Walk → Type 0
Phase nil_channel w = (w.started ≡ false) × (on_way w ≡ 0) × IsQuiet w
Phase open_channel w =
    (w.started ≡ true)
    × (on_way w ≡ 1)
    × IsQuiet w
    × ((w.closing ≡ 0) ⊎ ((r : Result MtpError Located) × (w.result ≡ some r)))
Phase closed_channel w =
    (w.started ≡ true)
    × (on_way w ≡ 0)
    × IsNotified w
    × ((r : Result MtpError Located) × (w.result ≡ some r))

abbrev pub IsOnce : Walk → Type 0
IsOnce w = (w.panicked ≡ false) × Phase w.done w
