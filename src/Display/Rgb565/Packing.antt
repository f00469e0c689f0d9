-- ===== src/Display/Rgb565/Packing.antt =====
-- The bytes of a pixel: what `pack` makes of its colours, and a frame that holds them.
use Prim.Native.Nat.{bit_and, bit_or}
use companion_mission_planne.Base.{
  inl, inr, All, some, some-injective, List, [], ◌∷◌, get_elem?, Option-cases, ℕ, zero, suc, ◌+◌,
  ◌*◌, ◌/◌, ◌%◌, ◌<◌, ◌≡◌, refl, sym, ◌∙◌, ap, Bool, true, ◌&&◌, nat_eq, nat_eq_iff, arith,
}
use companion_mission_planne.Display.Rgb565.{Rgba, pack, pix_offset, pixel}

-- A test of every number below a bound.
holds_below : ℕ → (ℕ → Bool) → Bool
holds_below zero p = true
holds_below (suc n) p = p n && holds_below n p

at-below : (n : ℕ) (p : ℕ → Bool) → holds_below n p ≡ true → (x : ℕ) → x < n → p x ≡ true
unfolding holds_below
at-below zero p h x l = absurd (omega arith)
at-below (suc n) p h x l = ground (arith, at-below n p (ground arith) x)

red_table : holds_below 256 (λ r. nat_eq (bit_and r 0xF8) (r / 8 * 8)) ≡ true
unfolding holds_below
red_table = refl

green_table : holds_below 256 (λ g. nat_eq (bit_and g 0xFC) (g / 4 * 4)) ≡ true
unfolding holds_below
green_table = refl

-- Red and green, together as a number of 11 bits.
high_table : holds_below 2048 (λ x. nat_eq (bit_or (x / 64 * 2048) (x % 64 * 32)) (x * 32)) ≡ true
unfolding holds_below
high_table = refl

low_table : holds_below 65536 (λ x. nat_eq (bit_or (x / 32 * 32) (x % 32)) x) ≡ true
unfolding holds_below
low_table = refl

from_table :
    (n : ℕ) (f g : ℕ → ℕ)
    → holds_below n (λ x. nat_eq (f x) (g x)) ≡ true
    → (x : ℕ) → x < n
    → f x ≡ g x
from_table n f g h x l = (nat_eq_iff (f x) (g x)).0 (at-below n (λ y. nat_eq (f y) (g y)) h x l)

bit_or-high : (r g : ℕ) → r < 32 → g < 64 → bit_or (r * 2048) (g * 32) ≡ (r * 64 + g) * 32
bit_or-high r g hr hg =
    let x = r * 64 + g in
    let over : x / 64 ≡ r = omega arith in
    let under : x % 64 ≡ g = omega arith in
    ap (λ (a : ℕ). bit_or (a * 2048) (g * 32)) (sym over)
    ∙ ap (λ (b : ℕ). bit_or (x / 64 * 2048) (b * 32)) (sym under)
    ∙ from_table 2048 (λ x. bit_or (x / 64 * 2048) (x % 64 * 32)) (λ x. x * 32) high_table x
        (omega arith)

bit_or-low : (a b : ℕ) → a < 2048 → b < 32 → bit_or (a * 32) b ≡ a * 32 + b
bit_or-low a b ha hb =
    let x = a * 32 + b in
    let over : x / 32 ≡ a = omega arith in
    let under : x % 32 ≡ b = omega arith in
    ap (λ (c : ℕ). bit_or (c * 32) b) (sym over)
    ∙ ap (λ (c : ℕ). bit_or (x / 32 * 32) c) (sym under)
    ∙ from_table 65536 (λ x. bit_or (x / 32 * 32) (x % 32)) (λ x. x) low_table x (omega arith)

-- Red has the five high bits, green the six in the middle and blue the five low ones.
pack_lem :
    (r g b : ℕ) → r < 256 → g < 256 → b < 256 → pack r g b ≡ r / 8 * 2048 + g / 4 * 32 + b / 8
unfolding pack
pack_lem r g b hr hg hb =
    let red : bit_and r 0xF8 * 256 % 65536 ≡ r / 8 * 2048 =
      omega (arith, from_table 256 (λ r. bit_and r 0xF8) (λ r. r / 8 * 8) red_table r hr) in
    let green : bit_and g 0xFC * 8 % 65536 ≡ g / 4 * 32 =
      omega (arith, from_table 256 (λ g. bit_and g 0xFC) (λ g. g / 4 * 4) green_table g hg) in
    ap (λ (a : ℕ). bit_or (bit_or a (bit_and g 0xFC * 8 % 65536)) (b / 8)) red
    ∙ ap (λ (a : ℕ). bit_or (bit_or (r / 8 * 2048) a) (b / 8)) green
    ∙ ap (λ (a : ℕ). bit_or a (b / 8)) (bit_or-high (r / 8) (g / 4) (omega arith) (omega arith))
    ∙ bit_or-low (r / 8 * 64 + g / 4) (b / 8) (omega arith) (omega arith)
    ∙ omega arith

-- The two bytes from position `i` on are those of the pixel at a place of the image.
abbrev pub IsAt : Rgba → ℕ × ℕ → List ℕ → ℕ → Type 0
IsAt img q out i =
    (v : ℕ) × (pixel img q.0 q.1 ≡ some v)
    × (get_elem? out i ≡ some (v / 256))
    × (get_elem? out (suc i) ≡ some (v % 256))

byte-at : (xs : List ℕ) (i b : ℕ) → All (λ (x : ℕ). x < 256) xs → get_elem? xs i ≡ some b → b < 256
byte-at [] i b h e = absurd (cc)
byte-at (x ∷ xs) zero b (hx, h) e = rw (← some-injective _ _ e) hx
byte-at (x ∷ xs) (suc i) b (hx, h) e = byte-at xs i b h e

-- The bytes from position `i` on hold the pixel at a place of the image in 16 bits: five of red, six of
-- green and five of blue.
abbrev pub IsPacked : Rgba → ℕ × ℕ → List ℕ → ℕ → Type 0
IsPacked img (x, y) out i =
    (r : ℕ) × (g : ℕ) × (b : ℕ) × (get_elem? img.pix (y * img.stride + x * 4) ≡ some r)
    × (get_elem? img.pix (y * img.stride + x * 4 + 1) ≡ some g)
    × (get_elem? img.pix (y * img.stride + x * 4 + 2) ≡ some b)
    × (get_elem? out i ≡ some ((r / 8 * 2048 + g / 4 * 32 + b / 8) / 256))
    × (get_elem? out (suc i) ≡ some ((r / 8 * 2048 + g / 4 * 32 + b / 8) % 256))

pub IsAt-IsPacked :
    (img : Rgba) (q : ℕ × ℕ) (out : List ℕ) (i : ℕ)
    → All (λ (b : ℕ). b < 256) img.pix
    → IsAt img q out i
    → IsPacked img q out i
unfolding pixel pix_offset
IsAt-IsPacked img (x, y) out i bytes (v, p, hi, lo) =
    let o = y * img.stride + x * 4 in
    elim (Option-cases (get_elem? img.pix o)) [
      | inl e ↦ absurd (ground (arith, e, p))
      | inr (r, er) ↦ elim (Option-cases (get_elem? img.pix (o + 1))) [
        | inl e ↦ absurd (ground (arith, er, e, p))
        | inr (g, eg) ↦ elim (Option-cases (get_elem? img.pix (o + 2))) [
          | inl e ↦ absurd (ground (arith, er, eg, e, p))
          | inr (b, eb) ↦
              let packed : pack r g b ≡ v = ground (arith, er, eg, eb, p) in
              let value =
                sym packed
                ∙ pack_lem r g b (byte-at img.pix o r bytes er) (byte-at img.pix (o + 1) g bytes eg)
                    (byte-at img.pix (o + 2) b bytes eb) in
              (
                r,
                g,
                b,
                er,
                eg,
                eb,
                hi ∙ ap (λ (u : ℕ). some (u / 256)) value,
                lo ∙ ap (λ (u : ℕ). some (u % 256)) value,
              )
        ]
      ]
    ]
