-- ===== src/Display/Rgb565.antt =====
-- `toRGB565` and the chunks of `blit` of internal/display/st7789_linux.go. The size of the panel is a
-- parameter of the loops; `none` is a panic on an image that is too small.
pub mod Packing
pub mod Frame
use Prim.Native.Nat.{bit_and, bit_or}
use companion_mission_planne.Base.{
  ℕ, zero, suc, ◌+◌, ◌-◌, ◌*◌, ◌/◌, ◌%◌, Bool, true, false, Option, none, some, List, [], ◌∷◌, ◌++◌,
  get_elem?, is_empty, take, drop, if◌then◌else◌,
}

abbrev pub screen_w : ℕ
screen_w = 320

abbrev pub screen_h : ℕ
screen_h = 240

-- image.RGBA with its corner at the origin.
pub record Rgba : Type 0 where
  pub pix : List ℕ
  pub stride : ℕ

-- img.PixOffset
unfoldable pub pix_offset : Rgba → ℕ → ℕ → ℕ
pix_offset img x y = y * img.stride + x * 4

-- `uint16(r&0xF8)<<8 | uint16(g&0xFC)<<3 | uint16(b)>>3`
unfoldable pub pack : ℕ → ℕ → ℕ → ℕ
pack r g b = bit_or (bit_or (bit_and r 0xF8 * 256 % 65536) (bit_and g 0xFC * 8 % 65536)) (b / 8)

-- The pixel at a place of the image.
unfoldable pub pixel : Rgba → ℕ → ℕ → Option ℕ
unfolding pack pix_offset
pixel img x y =
    let o = pix_offset img x y in
    elim (get_elem? img.pix o) [
      | none ↦ none
      | some r ↦ elim (get_elem? img.pix (o + 1)) [
        | none ↦ none
        | some g ↦ elim (get_elem? img.pix (o + 2)) [ none ↦ none | some b ↦ some (pack r g b) ]
      ]
    ]

-- The place in the image of a place on the panel of `w` by `h`.
unfoldable pub place : Bool → ℕ → ℕ → ℕ → ℕ → ℕ × ℕ
place rotate180 w h x y = if rotate180 then (w - 1 - x, h - 1 - y) else (x, y)

-- The inner loop, with `left` pixels of the row to go.
unfoldable pub row : Rgba → Bool → ℕ → ℕ → ℕ → ℕ → ℕ → Option (List ℕ)
unfolding pixel place
row img rotate180 w h y zero x = some []
row img rotate180 w h y (suc left) x =
    let (sx, sy) = place rotate180 w h x y in
    let rest = row img rotate180 w h y left (x + 1) in
    elim (pixel img sx sy) [
      | none ↦ none
      | some v ↦ elim rest [ none ↦ none | some out ↦ some (v / 256 ∷ v % 256 ∷ out) ]
    ]

-- The outer loop, with `left` rows to go.
unfoldable pub rows : Rgba → Bool → ℕ → ℕ → ℕ → ℕ → Option (List ℕ)
unfolding row
rows img rotate180 w h zero y = some []
rows img rotate180 w h (suc left) y =
    let rest = rows img rotate180 w h left (y + 1) in
    elim (row img rotate180 w h y w 0) [
      | none ↦ none
      | some out ↦ elim rest [ none ↦ none | some more ↦ some (out ++ more) ]
    ]

-- toRGB565 for a panel of `w` by `h`
unfoldable pub wire_bytes : ℕ → ℕ → Rgba → Bool → Option (List ℕ)
unfolding rows
wire_bytes w h img rotate180 = rows img rotate180 w h h 0

-- toRGB565
unfoldable pub to_rgb565 : Rgba → Bool → Option (List ℕ)
unfolding wire_bytes
to_rgb565 = wire_bytes screen_w screen_h

-- The loop of blit over the chunks; `rounds` is more than it takes.
unfoldable pub chunks : ℕ → ℕ → List ℕ → List (List ℕ)
chunks zero chunk pix = []
chunks (suc rounds) chunk pix =
    let rest = chunks rounds chunk (drop chunk pix) in
    if is_empty pix then [] else take chunk pix ∷ rest
