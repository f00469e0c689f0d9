-- ===== src/Stores/Reorder/Permutes.antt =====
-- The items that `Reorder` returns, beside those that it is given.
use mathlib.Core.List.{Perm, perm_middle}
use mathlib.Core.List.Perm
use companion_mission_planne.Base.{
  ◌≡◌, refl, ap, sym, ◌∙◌, true, false, not, Option, none, some, List, [], ◌∷◌, ◌++◌, map, arith,
  Text, text_Eq, text_eq_iff, elem, find, keep_if, IsDistinct, ◌==◌, ==_refl, Bool-cases,
  Option-cases, inl, inr,
}
use companion_mission_planne.Base.Table
use companion_mission_planne.Base.Table.{Table, get-put}
use companion_mission_planne.Stores.Reorder.{is_used, index_items, take_ordered, merge, reorder}
use companion_mission_planne.Stores.Reorder.Guids.{picks, merge-split, used-listed}

module _ {ℓ} {T : Type ℓ} (guid_of : T → Text) where
  abbrev find_guid : Text → List T → Option T
  find_guid g = find (λ it. guid_of it == g)

  abbrev or_else : Option T → Option T → Option T
  or_else (some v) o = some v
  or_else none o = o

  find-absent :
      (g : Text) (items : List T) → elem g (map guid_of items) ≡ false → find_guid g items ≡ none
  find-absent g [] h = refl
  find-absent g (it ∷ items) h = ground (arith, find-absent g items)

  index-find :
      (m : Table Text T) (items : List T) (g : Text)
      → IsDistinct (map guid_of items)
      → Table.get g (index_items guid_of m items) ≡ or_else (find_guid g items) (Table.get g m)
  unfolding index_items
  index-find m [] g d = refl
  index-find m (it ∷ items) g d =
      index-find (Table.put (guid_of it) it m) items g d.1
      ∙ ground
          (arith, get-put (guid_of it) g it m, find-absent g items, text_eq_iff (guid_of it) g, d.0)

  or_else-get_nil :
      (g : Text) (items : List T) → or_else (find_guid g items) (Table.get g []) ≡ find_guid g items
  unfolding Table.get
  or_else-get_nil g items = ground arith

  -- The items whose GUID the order does not name.
  abbrev leftover : List Text → List T → List T
  leftover order items = keep_if (λ it. not (elem (guid_of it) order)) items

  leftover-none :
      (g : Text) (order : List Text) (items : List T)
      → elem g (map guid_of items) ≡ false
      → leftover (g ∷ order) items ≡ leftover order items
  leftover-none g order [] h = refl
  leftover-none g order (it ∷ items) h =
      ground
        (arith, leftover-none g order items, text_eq_iff g (guid_of it), text_eq_iff (guid_of it) g)

  leftover-all : (items : List T) → leftover [] items ≡ items
  leftover-all [] = refl
  leftover-all (it ∷ items) = ap (λ l. it ∷ l) (leftover-all items)

  leftover-missing :
      (g : Text) (order : List Text) (items : List T)
      → find_guid g items ≡ none
      → leftover (g ∷ order) items ≡ leftover order items
  leftover-missing g order [] h = refl
  leftover-missing g order (it ∷ items) h = ground (
    arith,
    leftover-missing g order items,
    text_eq_iff g (guid_of it),
    text_eq_iff (guid_of it) g,
  )

  perm_of_eq : {xs ys : List T} → xs ≡ ys → Perm xs ys
  perm_of_eq {xs} e = rw (← e) (Perm.refl xs)

  -- Naming one more GUID moves its item out of the leftovers.
  leftover-perm :
      (g : Text) (order : List Text) (items : List T) (v : T)
      → elem g order ≡ false
      → IsDistinct (map guid_of items)
      → find_guid g items ≡ some v
      → Perm (v ∷ leftover (g ∷ order) items) (leftover order items)
  leftover-perm g order [] v n d f = absurd (cc)
  leftover-perm g order (it ∷ items) v n d f = elim (Bool-cases (guid_of it == g)) [
    | inl same ↦
        let first : v ∷ leftover (g ∷ order) (it ∷ items) ≡ leftover order (it ∷ items) = ground (
          arith,
          text_eq_iff (guid_of it) g,
          text_eq_iff g (guid_of it),
          leftover-none g order items,
          d.0,
        ) in
        perm_of_eq first
    | inr other ↦
        let here : (g == guid_of it) ≡ false =
          ground (arith, text_eq_iff (guid_of it) g, text_eq_iff g (guid_of it)) in
        let ih : Perm (v ∷ leftover (g ∷ order) items) (leftover order items) =
          leftover-perm g order items v n d.1 (ground arith) in
        rw here (elim (Bool-cases (elem (guid_of it) order)) [
          | inl named ↦ rw named ih
          | inr free ↦ rw free (Perm.trans (Perm.swap it v _) (Perm.cons it ih))
        ])
  ]

  picks-perm :
      (m : Table Text T) (order : List Text) (items : List T)
      → IsDistinct order
      → IsDistinct (map guid_of items)
      → ((g : Text) → Table.get g m ≡ find_guid g items)
      → Perm (picks guid_of m order ++ leftover order items) items
  unfolding picks
  picks-perm m [] items o d h = perm_of_eq (leftover-all items)
  picks-perm m (g ∷ order) items o d h = elim (Option-cases (Table.get g m)) [
    | inl e ↦
        rw (e, picks)
          (rw (leftover-missing g order items (sym (h g) ∙ e)) (picks-perm m order items o.1 d h))
    | inr (v, e) ↦
        rw (e, picks)
          (Perm.trans (Perm.symm (perm_middle (picks guid_of m order) (leftover (g ∷ order) items)))
            (Perm.trans
              (Perm.append_left (picks guid_of m order)
                (leftover-perm g order items v o.0 d (sym (h g) ∙ e)))
              (picks-perm m order items o.1 d h)))
  ]

  unused-listed :
      (order : List Text) (items sub : List T)
      → ((it : T)
          → elem (guid_of it) (map guid_of sub) ≡ true
          → elem (guid_of it) (map guid_of items) ≡ true)
      → keep_if
          (λ it. not (
            is_used
              (guid_of it)
              (take_ordered guid_of (index_items guid_of [] items) order [] []).1))
          sub
        ≡ leftover order sub
  unused-listed order items [] h = refl
  unused-listed order items (it ∷ sub) h =
      let listed : elem (guid_of it) (map guid_of items) ≡ true =
        h it (ground (arith, ==_refl (guid_of it))) in
      rw (used-listed guid_of order items (guid_of it) listed)
        (rw (unused-listed order items sub (λ x m. h x (ground arith))) refl)

  merge-perm :
      (order : List Text) (items : List T)
      → IsDistinct order
      → IsDistinct (map guid_of items)
      → Perm (merge guid_of order items) items
  merge-perm order items o d = rw (merge-split guid_of order items) (
      rw (unused-listed order items items (λ it m. m)) (
        picks-perm (index_items guid_of [] items) order items o d
          (λ g. index-find [] items g d ∙ or_else-get_nil g items)))

-- With a saved order that names no GUID twice and items of distinct GUIDs, `Reorder` returns the
-- same items: none is lost and none is repeated.
pub reorder-perm {ℓ} :
    {T : Type ℓ} (guid_of : T → Text) (order : List Text) (items : List T)
    → IsDistinct order
    → IsDistinct (map guid_of items)
    → Perm (reorder guid_of order items) items
unfolding reorder
reorder-perm guid_of [] items o d = Perm.refl items
reorder-perm guid_of (g ∷ order) [] o d = Perm.refl []
reorder-perm guid_of (g ∷ order) (it ∷ items) o d = merge-perm guid_of (g ∷ order) (it ∷ items) o d
