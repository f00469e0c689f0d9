-- ===== src/Display/Rgb565/Frame.antt =====
-- Where the bytes of each pixel stand in a frame.
use companion_mission_planne.Base.{
  ℕ, zero, suc, ◌+◌, ◌*◌, ◌/◌, ◌%◌, ◌<◌, ◌≤◌, ◌≡◌, refl, sym, ◌∙◌, ap, inl, inr, arith, Bool, All,
  if◌then◌else◌, ◌-◌, some, some-injective, List, [], ◌∷◌, ◌++◌, get_elem?, length, length-append,
  Option-cases,
}
use mathlib.Core.Path.{subst}
use companion_mission_planne.Display.Rgb565.Packing.{IsAt, IsPacked, IsAt-IsPacked}
use companion_mission_planne.Display.Rgb565.{
  Rgba, pack, pix_offset, pixel, place, row, rows, wire_bytes,
}

get-append-left : (xs ys : List ℕ) (i : ℕ) → i < length xs → get_elem? (xs ++ ys) i ≡ get_elem? xs i
get-append-left [] ys i l = absurd (omega arith)
get-append-left (x ∷ xs) ys zero l = refl
get-append-left (x ∷ xs) ys (suc i) l = get-append-left xs ys i (omega arith)

get-append-right : (xs ys : List ℕ) (i : ℕ) → get_elem? (xs ++ ys) (length xs + i) ≡ get_elem? ys i
get-append-right [] ys i = let same : 0 + i ≡ i = omega arith in ap (get_elem? ys) same
get-append-right (x ∷ xs) ys i =
    let next : suc (length xs) + i ≡ suc (length xs + i) = omega arith in
    ap (get_elem? ((x ∷ xs) ++ ys)) next ∙ get-append-right xs ys i

get-some : (xs : List ℕ) (i : ℕ) → i < length xs → (v : ℕ) × (get_elem? xs i ≡ some v)
get-some [] i l = absurd (omega arith)
get-some (x ∷ xs) zero l = (x, refl)
get-some (x ∷ xs) (suc i) l = get-some xs i (omega arith)

rows-le : (y h n : ℕ) → y < h → y * n + n ≤ h * n
rows-le y h n l = grind arith

-- An image of `w` by `h`, as image.NewRGBA makes it.
abbrev pub IsCanvas : Rgba → ℕ → ℕ → Type 0
IsCanvas img w h = (img.stride ≡ w * 4) × (length img.pix ≡ h * (w * 4))

module _ (img : Rgba) (rotate180 : Bool) (w h : ℕ) where
  IsAt-move :
      (x x' y y' : ℕ) (out out' : List ℕ) (i i' : ℕ)
      → x ≡ x'
      → y ≡ y'
      → out ≡ out'
      → i ≡ i'
      → IsAt img (place rotate180 w h x y) out i
      → IsAt img (place rotate180 w h x' y') out' i'
  IsAt-move x x' y y' out out' i i' p q r s t = rw (← p, ← q, ← r, ← s) t

  -- A row that was packed: its first pixel, and the others.
  row-suc :
      (y left x : ℕ) (out : List ℕ)
      → row img rotate180 w h y (suc left) x ≡ some out
      → (v : ℕ) × (rest : List ℕ) × (pixel img
            (place rotate180 w h x y).0
            (place rotate180 w h x y).1
          ≡ some v)
        × (row img rotate180 w h y left (x + 1) ≡ some rest)
        × (out ≡ v / 256 ∷ v % 256 ∷ rest)
  unfolding row
  row-suc y left x out e =
      elim (Option-cases (pixel img (place rotate180 w h x y).0 (place rotate180 w h x y).1)) [
        | inl q ↦ absurd (ground (arith, q, e))
        | inr (v, q) ↦ elim (Option-cases (row img rotate180 w h y left (x + 1))) [
          | inl r ↦ absurd (ground (arith, q, r, e))
          | inr (rest, r) ↦ (v, rest, q, r, ground (arith, q, r, e))
        ]
      ]

  row-length :
      (y left x : ℕ) (out : List ℕ)
      → row img rotate180 w h y left x ≡ some out
      → length out ≡ left * 2
  unfolding row
  row-length y zero x out e = ap length (sym (some-injective _ _ e))
  row-length y (suc left) x out e =
      let (v, rest, q, r, same) = row-suc y left x out e in
      ap length same ∙ omega (arith, row-length y left (x + 1) rest r)

  row-IsAt :
      (y left x : ℕ) (out : List ℕ) (k : ℕ)
      → row img rotate180 w h y left x ≡ some out
      → k < left
      → IsAt img (place rotate180 w h (x + k) y) out (k * 2)
  row-IsAt y zero x out k e l = absurd (omega arith)
  row-IsAt y (suc left) x out zero e l =
      let (v, rest, q, r, same) = row-suc y left x out e in
      let here : IsAt img (place rotate180 w h x y) out 0 = rw same (v, q, refl, refl) in
      subst (λ (n : ℕ). IsAt img (place rotate180 w h n y) out 0) (omega arith) here
  row-IsAt y (suc left) x out (suc k) e l =
      let (v, rest, q, r, same) = row-suc y left x out e in
      let after = row-IsAt y left (x + 1) rest k r (omega arith) in
      let there : IsAt img (place rotate180 w h (x + 1 + k) y) out (suc (suc (k * 2))) =
        rw same after in
      let at_place : x + 1 + k ≡ x + suc k = omega arith in
      let at_byte : suc (suc (k * 2)) ≡ suc k * 2 = omega arith in rw (← at_place, ← at_byte) there

  -- The first of the rows to go, and the others.
  rows-suc :
      (y left : ℕ) (out : List ℕ)
      → rows img rotate180 w h (suc left) y ≡ some out
      → (line : List ℕ) × (rest : List ℕ) × (row img rotate180 w h y w 0 ≡ some line)
        × (rows img rotate180 w h left (y + 1) ≡ some rest)
        × (out ≡ line ++ rest)
  unfolding rows
  rows-suc y left out e = elim (Option-cases (row img rotate180 w h y w 0)) [
    | inl q ↦ absurd (ground (arith, q, e))
    | inr (line, q) ↦ elim (Option-cases (rows img rotate180 w h left (y + 1))) [
      | inl r ↦ absurd (ground (arith, q, r, e))
      | inr (rest, r) ↦ (line, rest, q, r, ground (arith, q, r, e))
    ]
  ]

  rows-length :
      (y left : ℕ) (out : List ℕ)
      → rows img rotate180 w h left y ≡ some out
      → length out ≡ left * (w * 2)
  unfolding rows
  rows-length y zero out e = ap length (sym (some-injective _ _ e)) ∙ omega arith
  rows-length y (suc left) out e =
      let (line, rest, q, r, same) = rows-suc y left out e in
      ap length same
      ∙ length-append line rest
      ∙ omega (arith, row-length y w 0 line q, rows-length (y + 1) left rest r)

  rows-IsAt :
      (y left : ℕ) (out : List ℕ) (x j : ℕ)
      → rows img rotate180 w h left y ≡ some out
      → j < left
      → x < w
      → IsAt img (place rotate180 w h x (y + j)) out (j * (w * 2) + x * 2)
  rows-IsAt y zero out x j e l m = absurd (omega arith)
  rows-IsAt y (suc left) out x zero e l m =
      let (line, rest, q, r, same) = rows-suc y left out e in
      let (v, p, hi, lo) = row-IsAt y w 0 line x q m in
      let size = row-length y w 0 line q in
      IsAt-move (0 + x) x y (y + 0) (line ++ rest) out (x * 2) (0 * (w * 2) + x * 2) (omega arith)
        (omega arith) (sym same) (omega arith)
        (
          v,
          p,
          get-append-left line rest (x * 2) (omega (arith, size)) ∙ hi,
          get-append-left line rest (suc (x * 2)) (omega (arith, size)) ∙ lo,
        )
  rows-IsAt y (suc left) out x (suc j) e l m =
      let (line, rest, q, r, same) = rows-suc y left out e in
      let (v, p, hi, lo) = rows-IsAt (y + 1) left rest x j r (omega arith) m in
      let i = j * (w * 2) + x * 2 in
      let size = row-length y w 0 line q in
      let next : suc (length line + i) ≡ length line + suc i = omega arith in
      IsAt-move x x (y + 1 + j) (y + suc j) (line ++ rest) out (length line + i)
        (suc j * (w * 2) + x * 2) refl (omega arith) (sym same) (omega (arith, size))
        (
          v,
          p,
          get-append-right line rest i ∙ hi,
          ap (get_elem? (line ++ rest)) next ∙ get-append-right line rest (suc i) ∙ lo,
        )

  place-Inside :
      (x y : ℕ)
      → x < w
      → y < h
      → ((place rotate180 w h x y).0 < w) × ((place rotate180 w h x y).1 < h)
  unfolding place
  place-Inside x y m l = ground arith

  module _ (canvas : IsCanvas img w h) where
    pixel-some : (x y : ℕ) → x < w → y < h → (v : ℕ) × (pixel img x y ≡ some v)
    unfolding pixel pix_offset
    pixel-some x y m l =
        let before : y * (w * 4) + w * 4 ≤ h * (w * 4) = rows-le y h (w * 4) l in
        let at = y * img.stride + x * 4 in
        let (stride, size) = canvas in
        let end : at + 3 ≤ length img.pix = rw stride (omega (arith, before, size, m)) in
        let (r, p) = get-some img.pix at (omega arith) in
        let (g, q) = get-some img.pix (at + 1) (omega arith) in
        let (b, s) = get-some img.pix (at + 2) (omega arith) in
        (pack r g b, rw (p, q, s, pixel, pix_offset) refl)

    row-some :
        (y left x : ℕ)
        → x + left ≤ w
        → y < h
        → (out : List ℕ) × (row img rotate180 w h y left x ≡ some out)
    unfolding row
    row-some y zero x m l = ([], refl)
    row-some y (suc left) x m l =
        let (inside, below) = place-Inside x y (omega arith) l in
        let (v, p) = pixel-some _ _ inside below in
        let (rest, q) = row-some y left (x + 1) (omega arith) l in
        (v / 256 ∷ v % 256 ∷ rest, rw (p, q, row) refl)

    rows-some :
        (y left : ℕ) → y + left ≤ h → (out : List ℕ) × (rows img rotate180 w h left y ≡ some out)
    unfolding rows
    rows-some y zero l = ([], refl)
    rows-some y (suc left) l =
        let (line, p) = row-some y w 0 (omega arith) (omega arith) in
        let (rest, q) = rows-some (y + 1) left (omega arith) in (line ++ rest, rw (p, q, rows) refl)

-- An image of the size of the panel gives a frame with two bytes for each pixel. Those of column `x`
-- in row `y` stand at twice `y * w + x`: in 16 bits the pixel of the image at this place, or, on a
-- panel that is mounted upside down, at `w - 1 - x` and `h - 1 - y`.
pub wire_bytes-IsPacked :
    (img : Rgba) (rotate180 : Bool) (w h x y : ℕ)
    → IsCanvas img w h
    → All (λ (b : ℕ). b < 256) img.pix
    → x < w
    → y < h
    → (out : List ℕ) × (wire_bytes w h img rotate180 ≡ some out)
      × (length out ≡ h * (w * 2))
      × IsPacked img
          (if rotate180 then (w - 1 - x, h - 1 - y) else (x, y))
          out
          (y * (w * 2) + x * 2)
unfolding wire_bytes place
wire_bytes-IsPacked img rotate180 w h x y canvas bytes m l =
    let (out, e) = rows-some img rotate180 w h canvas 0 h (omega arith) in
    let at = y * (w * 2) + x * 2 in
    let here =
      IsAt-move img rotate180 w h x x (0 + y) y out out at at refl (omega arith) refl refl
        (rows-IsAt img rotate180 w h 0 h out x y e l m) in
    (
      out,
      e,
      rows-length img rotate180 w h 0 h out e,
      IsAt-IsPacked img (place rotate180 w h x y) out at bytes here,
    )
