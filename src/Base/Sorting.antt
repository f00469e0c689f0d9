-- ===== src/Base/Sorting.antt =====
-- sort.SliceStable with "newest first": a stable sort by a falling number.
use mathlib.Core.Bool.{Bool}
use mathlib.Core.Path.{subst}
use Prim.Native.Nat.{ℕ, ◌≤◌}
use mathlib.Core.Logic.{inl, inr}
use mathlib.Core.List.{List, [], ◌∷◌, Perm}
use mathlib.Core.List.Perm
use native.Mathlib.Omega.{arith}
use companion_mission_planne.Base.Tests.{leb, if◌then◌else◌, Bool-cases}
use companion_mission_planne.Base.Lists.{All}

module _ {ℓ} {A : Type ℓ} (rank : A → ℕ) where
  -- In front of the elements of smaller or equal rank, so that equal ranks keep their order.
  unfoldable pub insert_ranked : A → List A → List A
  insert_ranked x [] = x ∷ []
  insert_ranked x (y ∷ l) =
      let rest = insert_ranked x l in if leb (rank y) (rank x) then x ∷ y ∷ l else y ∷ rest

  unfoldable pub sort_ranked : List A → List A
  unfolding insert_ranked
  sort_ranked [] = []
  sort_ranked (x ∷ l) = insert_ranked x (sort_ranked l)

  -- Each element has at least the rank of all that follow it.
  abbrev pub IsFalling : List A → Type 0
  IsFalling [] = Unit
  IsFalling (x ∷ l) = All (λ y. rank y ≤ rank x) l × IsFalling l

  insert-All :
      (n : ℕ) (x : A) (l : List A)
      → rank x ≤ n
      → All (λ y. rank y ≤ n) l
      → All (λ y. rank y ≤ n) (insert_ranked x l)
  unfolding insert_ranked
  insert-All n x [] h a = (h, tt)
  insert-All n x (y ∷ l) h a = elim (Bool-cases (leb (rank y) (rank x))) [
    | inl e ↦ rw e (h, a)
    | inr e ↦ rw e (a.0, insert-All n x l h a.1)
  ]

  All-le : (m n : ℕ) (l : List A) → m ≤ n → All (λ y. rank y ≤ m) l → All (λ y. rank y ≤ n) l
  All-le m n [] h a = tt
  All-le m n (y ∷ l) h a = (omega (arith, a.0), All-le m n l h a.1)

  insert-IsFalling : (x : A) (l : List A) → IsFalling l → IsFalling (insert_ranked x l)
  unfolding insert_ranked
  insert-IsFalling x [] f = (tt, tt)
  insert-IsFalling x (y ∷ l) f = elim (Bool-cases (leb (rank y) (rank x))) [
    | inl e ↦
        let fits : rank y ≤ rank x = ground (arith, e) in
        rw e ((fits, All-le (rank y) (rank x) l fits f.0), f)
    | inr e ↦ rw e (insert-All (rank y) x l (ground (arith, e)) f.0, insert-IsFalling x l f.1)
  ]

  pub sort-IsFalling : (l : List A) → IsFalling (sort_ranked l)
  unfolding sort_ranked
  sort-IsFalling [] = tt
  sort-IsFalling (x ∷ l) = insert-IsFalling x (sort_ranked l) (sort-IsFalling l)

  insert-perm : (x : A) (l : List A) → Perm (insert_ranked x l) (x ∷ l)
  unfolding insert_ranked
  insert-perm x [] = Perm.refl (x ∷ [])
  insert-perm x (y ∷ l) = elim (Bool-cases (leb (rank y) (rank x))) [
    | inl e ↦ rw e (Perm.refl (x ∷ y ∷ l))
    | inr e ↦ rw e (Perm.trans (Perm.cons y (insert-perm x l)) (Perm.swap x y l))
  ]

  pub sort-perm : (l : List A) → Perm (sort_ranked l) l
  unfolding sort_ranked
  sort-perm [] = Perm.refl []
  sort-perm (x ∷ l) = Perm.trans (insert-perm x (sort_ranked l)) (Perm.cons x (sort-perm l))

  insert-All-back {κ} :
      (P : A → Type κ) (x : A) (l : List A) → All P (insert_ranked x l) → P x × All P l
  unfolding insert_ranked
  insert-All-back P x [] h = h
  insert-All-back P x (y ∷ l) h = elim (Bool-cases (leb (rank y) (rank x))) [
    | inl e ↦ subst (λ (b : Bool). All P (if b then x ∷ y ∷ l else y ∷ insert_ranked x l)) e h
    | inr e ↦
        let moved =
          subst (λ (b : Bool). All P (if b then x ∷ y ∷ l else y ∷ insert_ranked x l)) e h in
        let rest = insert-All-back P x l moved.1 in (rest.0, (moved.0, rest.1))
  ]

  -- Sorting loses no element: what holds of all that are sorted holds of all that were given.
  pub sort-All-back {κ} : (P : A → Type κ) (l : List A) → All P (sort_ranked l) → All P l
  unfolding sort_ranked
  sort-All-back P [] h = tt
  sort-All-back P (x ∷ l) h =
      let here = insert-All-back P x (sort_ranked l) h in (here.0, sort-All-back P l here.1)

  insert-All-forth {κ} :
      (P : A → Type κ) (x : A) (l : List A) → P x → All P l → All P (insert_ranked x l)
  unfolding insert_ranked
  insert-All-forth P x [] p h = (p, tt)
  insert-All-forth P x (y ∷ l) p h = elim (Bool-cases (leb (rank y) (rank x))) [
    | inl e ↦ rw e (p, h)
    | inr e ↦ rw e (h.0, insert-All-forth P x l p h.1)
  ]

  -- Sorting adds no element.
  pub sort-All {κ} : (P : A → Type κ) (l : List A) → All P l → All P (sort_ranked l)
  unfolding sort_ranked
  sort-All P [] h = tt
  sort-All P (x ∷ l) h = insert-All-forth P x (sort_ranked l) h.0 (sort-All P l h.1)
