-- ===== src/Stores/Reorder.antt =====
-- `Reorder` of internal/slotorder/store.go: a saved order applied to what the device lists.
pub mod Guids
pub mod Permutes
use companion_mission_planne.Base.{
  Bool, true, false, ◌||◌, Option, none, some, List, [], ◌∷◌, ◌++◌, Text, text_Eq, is_empty,
  if◌then◌else◌,
}
use companion_mission_planne.Base.Table
use companion_mission_planne.Base.Table.{Table}

-- used[g], where a missing entry reads false
unfoldable pub is_used : Text → Table Text Bool → Bool
is_used g used = elim (Table.get g used) [ none ↦ false | some b ↦ b ]

module _ {ℓ} {T : Type ℓ} (guid_of : T → Text) where
  -- The loop that fills byGUID: a later item replaces an earlier one of the same GUID.
  unfoldable pub index_items : Table Text T → List T → Table Text T
  index_items by_guid [] = by_guid
  index_items by_guid (it ∷ items) = index_items (Table.put (guid_of it) it by_guid) items

  -- The loop over the saved order: appends each GUID that is on the device, and marks it used.
  unfoldable pub take_ordered :
      Table Text T → List Text → List T → Table Text Bool → List T × Table Text Bool
  take_ordered by_guid [] out used = (out, used)
  take_ordered by_guid (g ∷ order) out used = elim (Table.get g by_guid) [
    | some v ↦ take_ordered by_guid order (out ++ v ∷ []) (Table.put g true used)
    | none ↦ take_ordered by_guid order out used
  ]

  -- The loop over the items: appends those whose GUID was not used.
  unfoldable pub append_rest : Table Text Bool → List T → List T → List T
  append_rest used out [] = out
  append_rest used out (it ∷ items) =
      append_rest used (if is_used (guid_of it) used then out else out ++ it ∷ []) items

  -- The three loops, past the early return.
  unfoldable pub merge : List Text → List T → List T
  merge order items =
      let (out, used) = take_ordered (index_items [] items) order [] [] in
      append_rest used out items

  unfoldable pub reorder : List Text → List T → List T
  unfolding index_items take_ordered append_rest is_used merge
  reorder order items = if is_empty order || is_empty items then items else merge order items
