-- ===== src/Base/Table.antt =====
-- Go maps as association lists: `get` is `m[k]` with its presence, `put` is `m[k] = v`, `remove`
-- is `delete(m, k)`. The order of the entries stands for one order in which `range` may visit them.
use mathlib.Core.Path.{◌≡◌, refl, subst}
use mathlib.Core.Logic.{inl, inr}
use mathlib.Core.Bool.{Bool, true, false}
use mathlib.Core.Option.{Option, none, some}
use mathlib.Core.List.{List, [], ◌∷◌}
use native.Mathlib.Omega.{arith}
use companion_mission_planne.Base.Tests.{if◌then◌else◌, Eq, ◌==◌, Bool-cases}

abbrev pub Table {ℓ κ} : Type ℓ → Type κ → Type (ℓ ⊔ κ)
Table K V = List (K × V)

module _ {ℓ κ} {K : Type ℓ} {V : Type κ} ⦃e : Eq K⦄ where
  unfoldable pub get : K → Table K V → Option V
  get k [] = none
  get k ((j, v) ∷ m) = if j == k then some v else get k m

  unfoldable pub put : K → V → Table K V → Table K V
  put k v [] = (k, v) ∷ []
  put k v ((j, w) ∷ m) = if j == k then (k, v) ∷ m else (j, w) ∷ put k v m

  unfoldable pub remove : K → Table K V → Table K V
  remove k [] = []
  remove k ((j, w) ∷ m) = let rest = remove k m in if j == k then rest else (j, w) ∷ rest

  unfoldable pub keys : Table K V → List K
  keys [] = []
  keys ((j, w) ∷ m) = j ∷ keys m

  unfoldable pub has : K → Table K V → Bool
  has k [] = false
  has k ((j, w) ∷ m) = if j == k then true else has k m

  pub get-put :
      (k j : K) (v : V) (m : Table K V) → get j (put k v m) ≡ (if k == j then some v else get j m)
  unfolding get put
  get-put k j v [] = refl
  get-put k j v ((i, w) ∷ m) =
      ground (arith, e.same_iff k j, e.same_iff i k, e.same_iff i j, get-put k j v m)

  pub get-remove :
      (k j : K) (m : Table K V) → get j (remove k m) ≡ (if k == j then none else get j m)
  unfolding get remove
  get-remove k j [] = ground arith
  get-remove k j ((i, w) ∷ m) =
      ground (arith, e.same_iff k j, e.same_iff i k, e.same_iff i j, get-remove k j m)

  pub has-put :
      (k j : K) (v : V) (m : Table K V) → has j (put k v m) ≡ (if k == j then true else has j m)
  unfolding has put
  has-put k j v [] = refl
  has-put k j v ((i, w) ∷ m) =
      ground (arith, e.same_iff k j, e.same_iff i k, e.same_iff i j, has-put k j v m)

  -- A key without a value is absent, and the other way round.
  pub has-get : (k : K) (m : Table K V) → has k m ≡ elim (get k m) [ none ↦ false | some v ↦ true ]
  unfolding has get
  has-get k [] = refl
  has-get k ((j, w) ∷ m) = ground (arith, has-get k m)

  pub has-remove :
      (k j : K) (m : Table K V) → has j (remove k m) ≡ (if k == j then false else has j m)
  unfolding has remove
  has-remove k j [] = ground arith
  has-remove k j ((i, w) ∷ m) =
      ground (arith, e.same_iff k j, e.same_iff i k, e.same_iff i j, has-remove k j m)

  -- Every entry of the table satisfies `P`.
  abbrev pub Each {μ} : (K → V → Type μ) → Table K V → Type μ
  Each P [] = Unit
  Each P ((k, v) ∷ m) = P k v × Each P m

  pub put-Each {μ} :
      (P : K → V → Type μ) (k : K) (v : V) (m : Table K V) → P k v → Each P m → Each P (put k v m)
  unfolding put
  put-Each P k v [] p h = (p, tt)
  put-Each P k v ((j, w) ∷ m) p (q, h) = elim (Bool-cases (j == k)) [
    | inl s ↦ rw s (p, h)
    | inr s ↦ rw s (q, put-Each P k v m p h)
  ]

  pub remove-Each {μ} :
      (P : K → V → Type μ) (k : K) (m : Table K V) → Each P m → Each P (remove k m)
  unfolding remove
  remove-Each P k [] h = tt
  remove-Each P k ((j, w) ∷ m) (q, h) = elim (Bool-cases (j == k)) [
    | inl s ↦ rw s (remove-Each P k m h)
    | inr s ↦ rw s (q, remove-Each P k m h)
  ]

  pub get-Each {μ} :
      (P : V → Type μ) (k : K) (v : V) (m : Table K V)
      → Each (λ j w. P w) m
      → get k m ≡ some v
      → P v
  unfolding get
  get-Each P k v [] h q = absurd (cc)
  get-Each P k v ((j, w) ∷ m) (p, h) q = elim (Bool-cases (j == k)) [
    | inl s ↦ subst P (ground (arith, s, q)) p
    | inr s ↦ get-Each P k v m h (ground (arith, s, q))
  ]

pub ruleset table_laws = (get-put, get-remove)
