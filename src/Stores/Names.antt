-- ===== src/Stores/Names.antt =====
-- internal/names/store.go: user-set slot names, keyed by device and slot.
pub mod Laws
use companion_mission_planne.Base.{
  ◌≡◌, Bool, true, false, Option, none, some, List, [], ◌∷◌, Text, text_Eq, text_eq, is_empty, ◌==◌,
  if◌then◌else◌,
}
use companion_mission_planne.Base.Table
use companion_mission_planne.Base.Table.{Table}
use companion_mission_planne.Stores.Persist.{
  Disk, Codec, Faults, Loaded, ready, failed, flush, load,
}
use companion_mission_planne.Stores.Nested.{Nested, inner, get2, put2, remove2}

-- `map` is Go's field `m`; `none` is the nil map, which a sidecar that holds `null` gives.
pub record Store : Type 0 where
  pub path : Text
  pub names : Option (Nested Text)

opened : Text → Loaded (Nested Text) → Option Store
opened path (ready m) = some (record { path = path; names = m })
opened path failed = none

-- New; `none` is the error.
unfoldable pub new : Codec (Nested Text) → Bool → Text → Disk → Option Store
unfolding opened load
new c read_fails path d = opened path (load c read_fails path d)

or_empty : Option Text → Text
or_empty none = []
or_empty (some name) = name

get_in : Option (Nested Text) → Text → Text → Text
unfolding or_empty get2
get_in none device guid = []
get_in (some m) device guid = or_empty (get2 device guid m)

-- Get: the saved name, or "".
unfoldable pub get : Store → Text → Text → Text
unfolding get_in
get s device guid = get_in s.names device guid

all_in : Option (Nested Text) → Text → Table Text Text
all_in none device = []
all_in (some m) device = inner device m

-- All: a copy of a device's names.
unfoldable pub all : Store → Text → Table Text Text
unfolding all_in inner
all s device = all_in s.names device

-- The update of the map: `none` is the panic of a write to a nil map.
assign : Option (Nested Text) → Text → Text → Text → Option (Option (Nested Text))
unfolding put2 remove2
assign none device guid [] = some none
assign none device guid (c ∷ name) = none
assign (some m) device guid [] = some (some (remove2 device guid m))
assign (some m) device guid (c ∷ name) = some (some (put2 device guid (c ∷ name) m))

flush_locked : Codec (Nested Text) → Faults → Store → Disk → Store × Disk × Bool
flush_locked c f s d = let (d', fails) = flush c f s.path s.names d in (s, d', fails)

-- Set: the new store and disk, and whether an error is returned; `none` is a panic.
unfoldable pub set :
    Codec (Nested Text) → Faults → Store → Disk → Text → Text → Text → Option (Store × Disk × Bool)
unfolding assign flush_locked
set c f s d device guid name = elim (assign s.names device guid name) [
  | none ↦ none
  | some m ↦ some (flush_locked c f (record s { names = m }) d)
]

-- Remove
unfoldable pub remove :
    Codec (Nested Text) → Faults → Store → Disk → Text → Text → Option (Store × Disk × Bool)
unfolding set
remove c f s d device guid = set c f s d device guid []
