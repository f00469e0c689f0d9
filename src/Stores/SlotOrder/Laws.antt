-- ===== src/Stores/SlotOrder/Laws.antt =====
-- What `Set` and `Get` on the slot orders give.
use companion_mission_planne.Base.{
  ◌≡◌, arith, Bool, some, List, [], ◌∷◌, Text, text_Eq, ◌==◌, if◌then◌else◌,
}
use companion_mission_planne.Base.Table
use companion_mission_planne.Base.Table.{get-put, get-remove}
use companion_mission_planne.Stores.Persist.{Disk, Codec, Faults}
use companion_mission_planne.Stores.SlotOrder.{Store, Orders, get, set, flush_locked}

-- A `Set` on a store whose map is not nil returns, whatever the disk does, and afterwards `Get`
-- gives the new order for that device and the old order for any other.
order_get-set :
    (c : Codec Orders) (f : Faults) (s : Store) (d : Disk) (m : Orders) (device : Text)
    (order : List Text) (other : Text)
    → s.orders ≡ some m
    → (r : Store × Disk × Bool) × (set c f s d device order ≡ some r)
      × (get r.0 other ≡ (if device == other then order else get s other))
unfolding set get
order_get-set c f s d m device [] other h =
    let s' = record s { orders = some (Table.remove device m) } in
    (flush_locked c f s' d, ground arith, ground (arith, get-remove device other m))
order_get-set c f s d m device (g ∷ order) other h =
    let s' = record s { orders = some (Table.put device (g ∷ order) m) } in
    (flush_locked c f s' d, ground arith, ground (arith, get-put device other (g ∷ order) m))
