-- ===== src/Stores/Managed.antt =====
-- internal/managed/store.go: the slots that the user opted out of management.
pub mod Laws
use companion_mission_planne.Base.{Bool, true, false, Option, none, some, Text, text_Eq}
use companion_mission_planne.Stores.Persist.{
  Disk, Codec, Faults, Loaded, ready, failed, flush, load,
}
use companion_mission_planne.Stores.Nested.{Nested, get2, put2, remove2}

-- `flags` is Go's field `m`, `none` its nil map.
pub record Store : Type 0 where
  pub path : Text
  pub flags : Option (Nested Bool)

opened : Text → Loaded (Nested Bool) → Option Store
opened path (ready m) = some (record { path = path; flags = m })
opened path failed = none

-- New; `none` is the error.
unfoldable pub new : Codec (Nested Bool) → Bool → Text → Disk → Option Store
unfolding opened load
new c read_fails path d = opened path (load c read_fails path d)

or_default : Option Bool → Bool
or_default none = true
or_default (some v) = v

get_in : Option (Nested Bool) → Text → Text → Bool
unfolding or_default get2
get_in none device guid = true
get_in (some m) device guid = or_default (get2 device guid m)

-- Get: a slot without a record is managed.
unfoldable pub get : Store → Text → Text → Bool
unfolding get_in
get s device guid = get_in s.flags device guid

-- The update of the map: `none` is the panic of a write to a nil map.
assign : Option (Nested Bool) → Text → Text → Bool → Option (Option (Nested Bool))
unfolding put2 remove2
assign none device guid true = some none
assign none device guid false = none
assign (some m) device guid true = some (some (remove2 device guid m))
assign (some m) device guid false = some (some (put2 device guid false m))

flush_locked : Codec (Nested Bool) → Faults → Store → Disk → Store × Disk × Bool
flush_locked c f s d = let (d', fails) = flush c f s.path s.flags d in (s, d', fails)

-- Set: the new store and disk, and whether an error is returned; `none` is a panic.
unfoldable pub set :
    Codec (Nested Bool) → Faults → Store → Disk → Text → Text → Bool → Option (Store × Disk × Bool)
unfolding assign flush_locked
set c f s d device guid managed = elim (assign s.flags device guid managed) [
  | none ↦ none
  | some m ↦ some (flush_locked c f (record s { flags = m }) d)
]
