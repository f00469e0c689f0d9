-- ===== src/Device/Service/Settings.antt =====
-- `SetSlotName`, `SetSlotManaged` and `SetSlotOrder` of internal/device/detector.go: the calls on the
-- three side stores. `none` is a panic.
use companion_mission_planne.Base.{
  Bool, true, false, Option, none, some, List, Text, text_Eq, Result, ok, err,
}
use companion_mission_planne.Stores.Persist.{Codec, Faults}
use companion_mission_planne.Stores.Nested.{Nested}
use companion_mission_planne.Stores.Names
use companion_mission_planne.Stores.Managed
use companion_mission_planne.Stores.SlotOrder
use companion_mission_planne.Stores.SlotOrder.{Orders}
use companion_mission_planne.Device.Service.{DeviceError, other, Service}

-- The reply of a call on a side store: its error, if it returned one.
abbrev reply : Bool → Result DeviceError (Unit {0})
reply true = err other
reply false = ok tt

module _ {W : Type 0} (f : Faults) where
  -- The names after Set, and its reply.
  unfoldable pub save_name :
      Codec (Nested Text)
      → Text
      → Text
      → Text
      → Names.Store
      → Service W
      → Option (Service W × Result DeviceError (Unit {0}))
  save_name c device guid name store s = elim (Names.set c f store s.disk device guid name) [
    | none ↦ none
    | some (store', disk, fails) ↦ some (record s { names = some store'; disk = disk }, reply fails)
  ]

  -- SetSlotName
  unfoldable pub set_slot_name :
      Codec (Nested Text)
      → Text
      → Text
      → Text
      → Service W
      → Option (Service W × Result DeviceError (Unit {0}))
  unfolding save_name
  set_slot_name c device guid name s = elim s.names [
    | none ↦ some (s, err other)
    | some store ↦ save_name c device guid name store s
  ]

  save_managed :
      Codec (Nested Bool)
      → Text
      → Text
      → Bool
      → Managed.Store
      → Service W
      → Option (Service W × Result DeviceError (Unit {0}))
  save_managed c device guid val store s = elim (Managed.set c f store s.disk device guid val) [
    | none ↦ none
    | some (store', disk, fails) ↦
        some (record s { managed = some store'; disk = disk }, reply fails)
  ]

  -- SetSlotManaged
  unfoldable pub set_slot_managed :
      Codec (Nested Bool)
      → Text
      → Text
      → Bool
      → Service W
      → Option (Service W × Result DeviceError (Unit {0}))
  unfolding save_managed
  set_slot_managed c device guid val s = elim s.managed [
    | none ↦ some (s, err other)
    | some store ↦ save_managed c device guid val store s
  ]

  save_order :
      Codec Orders
      → Text
      → List Text
      → SlotOrder.Store
      → Service W
      → Option (Service W × Result DeviceError (Unit {0}))
  save_order c device order store s = elim (SlotOrder.set c f store s.disk device order) [
    | none ↦ none
    | some (store', disk, fails) ↦ some (record s { order = some store'; disk = disk }, reply fails)
  ]

  -- SetSlotOrder
  unfoldable pub set_slot_order :
      Codec Orders
      → Text
      → List Text
      → Service W
      → Option (Service W × Result DeviceError (Unit {0}))
  unfolding save_order
  set_slot_order c device order s = elim s.order [
    | none ↦ some (s, err other)
    | some store ↦ save_order c device order store s
  ]
