-- ===== src/Stores/Nested.antt =====
-- Go's `map[string]map[string]V`, with the three accesses that internal/names/store.go and
-- internal/managed/store.go make. A device that is absent reads as an empty inner map.
pub mod Minimal
use companion_mission_planne.Base.{
  ◌≡◌, refl, Option-cases, inl, inr, ◌&&◌, Bool, true, false, Option, none, some, List, [], ◌∷◌,
  arith, Text, text_Eq, text_eq_iff, text_eq, is_empty, ◌==◌, ==_refl, if◌then◌else◌,
}
use companion_mission_planne.Base.Table
use companion_mission_planne.Base.Table.{Table, get-put, get-remove}

abbrev pub Nested : Type 0 → Type 0
Nested V = Table Text (Table Text V)

module _ {V : Type 0} where
  -- m[deviceID], where a missing device gives the nil map
  unfoldable pub inner : Text → Nested V → Table Text V
  inner device m = elim (Table.get device m) [ none ↦ [] | some t ↦ t ]

  -- m[deviceID][guid]
  unfoldable pub get2 : Text → Text → Nested V → Option V
  unfolding inner
  get2 device guid m = Table.get guid (inner device m)

  -- the branch that stores a value
  unfoldable pub put2 : Text → Text → V → Nested V → Nested V
  unfolding inner
  put2 device guid v m = Table.put device (Table.put guid v (inner device m)) m

  -- what is left of a device's inner map after a deletion, or nothing
  shrink : Text → Table Text V → Nested V → Nested V
  shrink device t m = if is_empty t then Table.remove device m else Table.put device t m

  -- the branch that deletes a value
  unfoldable pub remove2 : Text → Text → Nested V → Nested V
  unfolding shrink
  remove2 device guid m = elim (Table.get device m) [
    | none ↦ m
    | some t ↦ shrink device (Table.remove guid t) m
  ]

  pub get2-put2 :
      (d g e h : Text) (v : V) (m : Nested V)
      → get2 e h (put2 d g v m) ≡ (if (d == e) && (g == h) then some v else get2 e h m)
  unfolding get2 put2
  get2-put2 d g e h v m =
      ground (
        arith,
        get-put d e (Table.put g v (inner d m)) m,
        get-put g h v (inner d m),
        text_eq_iff d e,
      )

  get-empty : (t : Table Text V) (g : Text) → is_empty t ≡ true → Table.get g t ≡ none
  unfolding Table.get
  get-empty [] g h = refl
  get-empty (x ∷ t) g h = cc

  get2-shrink :
      (d e h : Text) (t : Table Text V) (m : Nested V)
      → get2 e h (shrink d t m) ≡ (if d == e then Table.get h t else get2 e h m)
  unfolding get2 inner shrink
  get2-shrink d e h t m = ground (arith, get-put d e t m, get-remove d e m, get-empty t h)

  get2-absent : (d h : Text) (m : Nested V) → Table.get d m ≡ none → get2 d h m ≡ none
  unfolding get2 inner Table.get
  get2-absent d h m p = ground arith

  get2-present :
      (d h : Text) (t : Table Text V) (m : Nested V)
      → Table.get d m ≡ some t
      → get2 d h m ≡ Table.get h t
  unfolding get2 inner
  get2-present d h t m p = ground arith

  pub get2-remove2 :
      (d g e h : Text) (m : Nested V)
      → get2 e h (remove2 d g m) ≡ (if (d == e) && (g == h) then none else get2 e h m)
  unfolding remove2
  get2-remove2 d g e h m = elim (Option-cases (Table.get d m)) [
    | inl p ↦ ground (arith, p, get2-absent d h m p, text_eq_iff d e)
    | inr (t, p) ↦ ground (
      arith,
      p,
      get2-shrink d e h (Table.remove g t) m,
      get-remove g h t,
      get2-present d h t m p,
      text_eq_iff d e,
    )
  ]
