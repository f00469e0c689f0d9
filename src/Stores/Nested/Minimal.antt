-- ===== src/Stores/Nested/Minimal.antt =====
-- A nested map is minimal when no device keeps an empty inner map and every value is worth storing.
use mathlib.Core.Path.{subst}
use companion_mission_planne.Base.{
  ◌≡◌, refl, false, some, [], ◌∷◌, arith, Text, text_Eq, All, is_empty, ◌==◌, Bool-cases,
  Option-cases, inl, inr,
}
use companion_mission_planne.Base.Table
use companion_mission_planne.Base.Table.{Table}
use companion_mission_planne.Stores.Nested.{Nested, inner, put2, remove2, shrink}

module _ {V : Type 0} (P : V → Type 0) where
  -- Every value of a table satisfies `P`.
  abbrev pub AllValues : Table Text V → Type 0
  AllValues t = All (λ (e : Text × V). P e.1) t

  AllValues-put :
      (k : Text) (v : V) (t : Table Text V) → P v → AllValues t → AllValues (Table.put k v t)
  unfolding Table.put
  AllValues-put k v [] p h = (p, tt)
  AllValues-put k v ((j, w) ∷ t) p h = elim (Bool-cases (j == k)) [
    | inl e ↦ rw e (p, h.1)
    | inr e ↦ rw e (h.0, AllValues-put k v t p h.1)
  ]

  AllValues-remove : (k : Text) (t : Table Text V) → AllValues t → AllValues (Table.remove k t)
  unfolding Table.remove
  AllValues-remove k [] h = tt
  AllValues-remove k ((j, w) ∷ t) h = elim (Bool-cases (j == k)) [
    | inl e ↦ rw e (AllValues-remove k t h.1)
    | inr e ↦ rw e (h.0, AllValues-remove k t h.1)
  ]

  AllValues-get : (k : Text) (v : V) (t : Table Text V) → AllValues t → Table.get k t ≡ some v → P v
  unfolding Table.get
  AllValues-get k v [] h e = cc
  AllValues-get k v ((j, w) ∷ t) h e = elim (Bool-cases (j == k)) [
    | inl q ↦ subst P (ground arith) h.0
    | inr q ↦ AllValues-get k v t h.1 (ground arith)
  ]

put-not_empty {κ} :
    {V : Type κ} (k : Text) (v : V) (t : Table Text V) → is_empty (Table.put k v t) ≡ false
unfolding Table.put
put-not_empty k v [] = refl
put-not_empty k v ((j, w) ∷ t) = ground arith

module _ {V : Type 0} (P : V → Type 0) where
  abbrev pub IsMinimalInner : Table Text V → Type 0
  IsMinimalInner t = (is_empty t ≡ false) × AllValues P t

  abbrev pub IsMinimal : Nested V → Type 0
  IsMinimal m = AllValues IsMinimalInner m

  inner-AllValues : (device : Text) (m : Nested V) → IsMinimal m → AllValues P (inner device m)
  unfolding inner
  inner-AllValues device m h = elim (Option-cases (Table.get device m)) [
    | inl e ↦ rw (e, inner) tt
    | inr (t, e) ↦ rw (e, inner) (AllValues-get IsMinimalInner device t m h e).1
  ]

  pub put2-IsMinimal :
      (device guid : Text) (v : V) (m : Nested V)
      → P v
      → IsMinimal m
      → IsMinimal (put2 device guid v m)
  unfolding put2
  put2-IsMinimal device guid v m p h =
      AllValues-put IsMinimalInner device (Table.put guid v (inner device m)) m
        (
          put-not_empty guid v (inner device m),
          AllValues-put P guid v (inner device m) p (inner-AllValues device m h),
        )
        h

  shrink-IsMinimal :
      (device : Text) (t : Table Text V) (m : Nested V)
      → AllValues P t
      → IsMinimal m
      → IsMinimal (shrink device t m)
  unfolding shrink
  shrink-IsMinimal device t m p h = elim (Bool-cases (is_empty t)) [
    | inl e ↦ rw e (AllValues-remove IsMinimalInner device m h)
    | inr e ↦ rw e (AllValues-put IsMinimalInner device t m (e, p) h)
  ]

  pub remove2-IsMinimal :
      (device guid : Text) (m : Nested V) → IsMinimal m → IsMinimal (remove2 device guid m)
  unfolding remove2
  remove2-IsMinimal device guid m h = elim (Option-cases (Table.get device m)) [
    | inl e ↦ rw (e, remove2) h
    | inr (t, e) ↦
        rw (e, remove2)
          (shrink-IsMinimal device (Table.remove guid t) m
            (AllValues-remove P guid t (AllValues-get IsMinimalInner device t m h e).1) h)
  ]
