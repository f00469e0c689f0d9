-- ===== src/Tests/Stores.antt =====
-- Concrete stores, disks and slot lists.
use mathlib.Core.List.{Perm}
use companion_mission_planne.Base.{
  ◌≡◌, refl, ◌⊎◌, Bool, false, not, some, List, [], ◌∷◌, ◌++◌, Text, text_Eq, text_eq, codes, map,
  elem, keep_if,
}
use companion_mission_planne.Base.Table
use companion_mission_planne.Base.Table.{Table}
use companion_mission_planne.Stores.Persist.{Disk, Codec, Faults, cut, written, flush}
use companion_mission_planne.Stores.Persist.Atomic.{flush_atomic}
use companion_mission_planne.Stores.Nested.{Nested}
use companion_mission_planne.Stores.Names
use companion_mission_planne.Stores.Names.Laws.{set-new}
use companion_mission_planne.Stores.Managed
use companion_mission_planne.Stores.SlotOrder
use companion_mission_planne.Stores.Reorder.{reorder}
use companion_mission_planne.Stores.Reorder.Guids.{reorder-guids}
use companion_mission_planne.Stores.Reorder.Permutes.{reorder-perm}

abbrev sidecar : Text
sidecar = codes "names.json"

abbrev dji : Text
dji = codes "dji"

abbrev two_names : Nested Text
two_names = (dji, (codes "A", codes "North") ∷ (codes "B", codes "South") ∷ []) ∷ []

-- An encoding of one map, which its decoder reads back.
abbrev codec : {M : Type 0} → M → Codec M
codec m = record { encode = λ x. some (codes "{}"); decode = λ t. some (some m) }

abbrev cut_short : Faults
cut_short = record { mkdir_fails = false; write = cut 1; rename_fails = false }

abbrev no_faults : Faults
no_faults = record { mkdir_fails = false; write = written; rename_fails = false }

abbrev old_disk : Disk
old_disk = (sidecar, codes "old") ∷ []

abbrev name_store : Names.Store
name_store = record { path = sidecar; names = some two_names }

abbrev opt_outs : Nested Bool
opt_outs = (dji, (codes "A", false) ∷ []) ∷ []

abbrev flag_store : Managed.Store
flag_store = record { path = sidecar; flags = some opt_outs }

abbrev orders : SlotOrder.Orders
orders = (dji, codes "A" ∷ []) ∷ []

abbrev order_store : SlotOrder.Store
order_store = record { path = sidecar; orders = some orders }

flush_atomic_example :
    (Table.get sidecar (flush (codec two_names) cut_short sidecar (some two_names) old_disk).0
      ≡ Table.get sidecar old_disk)
    ⊎ ((content : Text) × (some (codes "{}") ≡ some content)
        × (Table.get sidecar (flush (codec two_names) cut_short sidecar (some two_names) old_disk).0
            ≡ some content))
flush_atomic_example = flush_atomic (codec two_names) cut_short sidecar (some two_names) old_disk

abbrev saved_order : List Text
saved_order = codes "B" ∷ codes "Z" ∷ []

abbrev listed : List Text
listed = codes "A" ∷ codes "B" ∷ []

reorder-guids_example :
    map (λ (t : Text). t) (reorder (λ (t : Text). t) saved_order listed)
    ≡ keep_if (λ g. elem g (map (λ (t : Text). t) listed)) saved_order
      ++ keep_if (λ g. not (elem g saved_order)) (map (λ (t : Text). t) listed)
reorder-guids_example = reorder-guids (λ (t : Text). t) saved_order listed

reorder-perm_example : Perm (reorder (λ (t : Text). t) saved_order listed) listed
unfolding text_eq
reorder-perm_example =
    reorder-perm (λ (t : Text). t) saved_order listed (refl, (refl, tt)) (refl, (refl, tt))

abbrev renamed : Nested Text
renamed = (dji, (codes "A", codes "East") ∷ (codes "B", codes "South") ∷ []) ∷ []

set-new_example :
    Names.new (codec renamed) false sidecar ((sidecar, codes "{}") ∷ [])
    ≡ some (record { path = sidecar; names = some renamed })
unfolding Names.set flush text_eq Table.get Table.put Table.remove
set-new_example =
    set-new (codec renamed) no_faults name_store old_disk ((sidecar, codes "{}") ∷ []) dji
      (codes "A") (codes "East") renamed refl (codes "{}", refl, refl, refl) refl
