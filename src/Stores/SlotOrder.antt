-- ===== src/Stores/SlotOrder.antt =====
-- The store of internal/slotorder/store.go: a preferred slot order for each device.
pub mod Laws
use companion_mission_planne.Base.{
  Bool, true, false, Option, none, some, List, [], ◌∷◌, Text, text_Eq,
}
use companion_mission_planne.Base.Table
use companion_mission_planne.Base.Table.{Table}
use companion_mission_planne.Stores.Persist.{
  Disk, Codec, Faults, Loaded, ready, failed, flush, load,
}

abbrev pub Orders : Type 0
Orders = Table Text (List Text)

-- `orders` is Go's field `m`, `none` its nil map.
pub record Store : Type 0 where
  pub path : Text
  pub orders : Option Orders

opened : Text → Loaded Orders → Option Store
opened path (ready m) = some (record { path = path; orders = m })
opened path failed = none

-- New; `none` is the error.
unfoldable pub new : Codec Orders → Bool → Text → Disk → Option Store
unfolding opened load
new c read_fails path d = opened path (load c read_fails path d)

or_nil : Option (List Text) → List Text
or_nil none = []
or_nil (some order) = order

get_in : Option Orders → Text → List Text
unfolding or_nil
get_in none device = []
get_in (some m) device = or_nil (Table.get device m)

-- Get: the saved order, or nil.
unfoldable pub get : Store → Text → List Text
unfolding get_in
get s device = get_in s.orders device

-- The update of the map: `none` is the panic of a write to a nil map.
assign : Option Orders → Text → List Text → Option (Option Orders)
assign none device [] = some none
assign none device (g ∷ order) = none
assign (some m) device [] = some (some (Table.remove device m))
assign (some m) device (g ∷ order) = some (some (Table.put device (g ∷ order) m))

flush_locked : Codec Orders → Faults → Store → Disk → Store × Disk × Bool
flush_locked c f s d = let (d', fails) = flush c f s.path s.orders d in (s, d', fails)

-- Set: the new store and disk, and whether an error is returned; `none` is a panic.
unfoldable pub set :
    Codec Orders → Faults → Store → Disk → Text → List Text → Option (Store × Disk × Bool)
unfolding assign flush_locked
set c f s d device order = elim (assign s.orders device order) [
  | none ↦ none
  | some m ↦ some (flush_locked c f (record s { orders = m }) d)
]
