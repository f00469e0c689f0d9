-- ===== src/Device/Service/Slots.antt =====
-- What `ListSlots` of the registry returns, beside what the controller listed.
use mathlib.Core.List.{Perm}
use mathlib.Core.List.Perm
use mathlib.Core.Path.{ap₂}
use companion_mission_planne.Base.{
  ◌≡◌, refl, ◌∙◌, ap, Bool, true, Option, none, some, List, [], ◌∷◌, Text, text_Eq, map, IsDistinct,
  ok,
}
use companion_mission_planne.Stores.Names
use companion_mission_planne.Stores.Managed
use companion_mission_planne.Stores.SlotOrder
use companion_mission_planne.Stores.Reorder.Permutes.{reorder-perm}
use companion_mission_planne.Device.Mtp.Listing.{Slot}
use companion_mission_planne.Device.Registry.{Controller, Host, lookup}
use companion_mission_planne.Device.Service.{
  Methods, Service, named, apply_saved_names, is_managed, apply_managed, apply_order, listed,
  overlay, refreshed, list_slots,
}

-- The name that a slot is shown under: the saved one, where there is one.
abbrev shown_name : Option Names.Store → Text → Slot → Text
shown_name none device s = s.name
shown_name (some store) device s = elim (Names.get store device s.guid) [
  | [] ↦ s.name
  | (c ∷ name) ↦ c ∷ name
]

-- The user's flag for a slot: managed where nothing is saved.
abbrev shown_flag : Option Managed.Store → Text → Text → Bool
shown_flag none device guid = true
shown_flag (some store) device guid = Managed.get store device guid

-- A slot as the user sees it.
abbrev pub decorated : {W : Type 0} → Service W → Text → Slot → Slot
decorated s device slot = record slot {
  name = shown_name s.names device slot;
  managed = shown_flag s.managed device slot.guid;
}

-- The saved order of a device names no GUID twice.
abbrev pub IsOrderDistinct : {W : Type 0} → Service W → Text → Type 0
IsOrderDistinct s device =
    (store : SlotOrder.Store) → s.order ≡ some store → IsDistinct (SlotOrder.get store device)

named-shown :
    (name : Text) (s : Slot)
    → named name s ≡ record s { name = elim name [ [] ↦ s.name | (c ∷ rest) ↦ c ∷ rest ] }
unfolding named
named-shown [] s = refl
named-shown (c ∷ name) s = refl

flag-shown :
    (store : Option Managed.Store) (device guid : Text)
    → is_managed store device guid ≡ shown_flag store device guid
unfolding is_managed
flag-shown none device guid = refl
flag-shown (some store) device guid = refl

decorated-guids :
    {W : Type 0} (s : Service W) (device : Text) (slots : List Slot)
    → map (λ (x : Slot). x.guid) (map (decorated s device) slots) ≡ map (λ (x : Slot). x.guid) slots
decorated-guids s device [] = refl
decorated-guids s device (x ∷ slots) = ap (λ l. x.guid ∷ l) (decorated-guids s device slots)

decorate_stores :
    (names : Option Names.Store) (flags : Option Managed.Store) (device : Text) (slots : List Slot)
    → apply_managed flags device (apply_saved_names names device slots)
      ≡ map
          (λ (x : Slot). record x {
            name = shown_name names device x;
            managed = shown_flag flags device x.guid;
          })
          slots
unfolding apply_managed apply_saved_names
decorate_stores none flags device [] = refl
decorate_stores (some store) flags device [] = refl
decorate_stores none flags device (x ∷ slots) =
    ap₂ (λ y l. y ∷ l) (ap (λ b. record x { managed = b }) (flag-shown flags device x.guid))
      (decorate_stores none flags device slots)
decorate_stores (some store) flags device (x ∷ slots) =
    ap₂ (λ y l. y ∷ l)
      (ap (λ (y : Slot). record y { managed = is_managed flags device y.guid })
          (named-shown (Names.get store device x.guid) x)
        ∙ ap (λ b. record x { name = shown_name (some store) device x; managed = b })
            (flag-shown flags device x.guid))
      (decorate_stores (some store) flags device slots)

apply-decorated :
    {W : Type 0} (s : Service W) (device : Text) (slots : List Slot)
    → apply_managed s.managed device (apply_saved_names s.names device slots)
      ≡ map (decorated s device) slots
unfolding apply_managed apply_saved_names
apply-decorated s device slots = decorate_stores s.names s.managed device slots

order-perm :
    (order : Option SlotOrder.Store) (device : Text) (slots : List Slot)
    → ((store : SlotOrder.Store) → order ≡ some store → IsDistinct (SlotOrder.get store device))
    → IsDistinct (map (λ (x : Slot). x.guid) slots)
    → Perm (apply_order order device slots) slots
unfolding apply_order
order-perm none device slots o d = Perm.refl slots
order-perm (some store) device slots o d =
    reorder-perm (λ (x : Slot). x.guid) (SlotOrder.get store device) slots (o store refl) d

-- When the device is known after the refresh and its controller lists slots of distinct GUIDs, and the
-- saved order names no GUID twice, `ListSlots` returns these slots in some order, none lost and none
-- twice, each with the saved name where there is one and with the user's flag.
pub list_slots-decorated :
    {W : Type 0} (h : Host W) (m : Methods W) (device : Text) (s : Service W) (c : Controller)
    (slots : List Slot)
    → lookup device (refreshed h m s).registry ≡ some c
    → (m.list_slots c (refreshed h m s).world).1 ≡ ok slots
    → IsDistinct (map (λ (x : Slot). x.guid) slots)
    → IsOrderDistinct s device
    → (out : List Slot) × ((list_slots h m device s).1 ≡ ok out)
      × Perm out (map (decorated s device) slots)
unfolding list_slots listed overlay refreshed
list_slots-decorated h m device s c slots known lists d o = (
  overlay s device slots,
  rw (known, lists, list_slots) refl,
  rw (apply-decorated s device slots) (
      order-perm s.order device (map (decorated s device) slots) o
        (rw (decorated-guids s device slots) d)),
)
