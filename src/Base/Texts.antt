-- ===== src/Base/Texts.antt =====
-- Go strings as lists of bytes, with the parts of `strings` and `path` that the program uses.
-- Case mapping is that of the ASCII letters; any other byte stands for itself.
use Prim.Native.Nat.{ℕ, ◌+◌, ◌-◌}
use Prim.Native.Char.{code}
use Prim.Native.String.{String}
use mathlib.Core.Path.{◌≡◌, refl}
use mathlib.Core.Logic.{◌↔◌}
use mathlib.Core.Bool.{Bool, true, false, ◌&&◌, ◌||◌}
use mathlib.Core.List.{List, [], ◌∷◌, map, reverse}
use native.Mathlib.Omega.{arith}
use companion_mission_planne.Base.Tests.{leb, nat_eq, if◌then◌else◌, Eq}

abbrev pub Text : Type 0
Text = List ℕ

-- The bytes of an ASCII literal.
abbrev pub codes : String → Text
codes String.[] = []
codes (String.◌∷◌ c s) = code c ∷ codes s

unfoldable pub text_eq : Text → Text → Bool
text_eq [] [] = true
text_eq [] (c ∷ t) = false
text_eq (b ∷ s) [] = false
text_eq (b ∷ s) (c ∷ t) = nat_eq b c && text_eq s t

text_eq_refl : (s : Text) → text_eq s s ≡ true
unfolding text_eq
text_eq_refl [] = refl
text_eq_refl (b ∷ s) = ground (arith, text_eq_refl s)

text_eq→eq : (s t : Text) → text_eq s t ≡ true → s ≡ t
unfolding text_eq
text_eq→eq [] [] h = refl
text_eq→eq [] (c ∷ t) h = cc
text_eq→eq (b ∷ s) [] h = cc
text_eq→eq (b ∷ s) (c ∷ t) h = ground (arith, text_eq→eq s t)

pub text_eq_iff : (s t : Text) → (text_eq s t ≡ true) ↔ (s ≡ t)
text_eq_iff s t = (text_eq→eq s t, λ p. rw p (text_eq_refl t))

instance abbrev pub text_Eq : Eq Text
text_Eq = record { same = text_eq; same_iff = text_eq_iff }

abbrev pub is_upper : ℕ → Bool
is_upper c = leb b'A' c && leb c b'Z'

abbrev pub is_lower : ℕ → Bool
is_lower c = leb b'a' c && leb c b'z'

abbrev pub is_digit : ℕ → Bool
is_digit c = leb b'0' c && leb c b'9'

unfoldable pub lower_byte : ℕ → ℕ
lower_byte c = if is_upper c then c + 32 else c

unfoldable pub upper_byte : ℕ → ℕ
upper_byte c = if is_lower c then c - 32 else c

-- strings.ToLower, strings.ToUpper, strings.EqualFold
unfoldable pub to_lower : Text → Text
unfolding lower_byte
to_lower = map lower_byte

unfoldable pub to_upper : Text → Text
unfolding upper_byte
to_upper = map upper_byte

unfoldable pub equal_fold : Text → Text → Bool
unfolding to_lower text_eq
equal_fold s t = text_eq (to_lower s) (to_lower t)

-- strings.HasPrefix, strings.HasSuffix, strings.Contains
unfoldable pub has_prefix : Text → Text → Bool
has_prefix s [] = true
has_prefix [] (c ∷ p) = false
has_prefix (b ∷ s) (c ∷ p) = nat_eq b c && has_prefix s p

unfoldable pub has_suffix : Text → Text → Bool
unfolding has_prefix
has_suffix s p = has_prefix (reverse s) (reverse p)

unfoldable pub contains : Text → Text → Bool
unfolding has_prefix
contains [] p = has_prefix [] p
contains (b ∷ s) p = has_prefix (b ∷ s) p || contains s p

-- The ASCII part of unicode.IsSpace.
abbrev pub is_space : ℕ → Bool
is_space c = nat_eq c 32 || leb 9 c && leb c 13

unfoldable pub trim_left : Text → Text
trim_left [] = []
trim_left (c ∷ s) = let rest = trim_left s in if is_space c then rest else c ∷ s

-- strings.TrimSpace
unfoldable pub trim_space : Text → Text
unfolding trim_left
trim_space s = reverse (trim_left (reverse (trim_left s)))

-- path.Ext: what stands from the last dot of the last path element on.
unfoldable pub ext_from : Text → Text → Text
ext_from found [] = found
ext_from found (c ∷ s) =
    ext_from (if nat_eq c b'/' then [] else if nat_eq c b'.' then c ∷ s else found) s

unfoldable pub ext : Text → Text
unfolding ext_from
ext s = ext_from [] s

-- strings.TrimSuffix(s, suffix)
unfoldable pub trim_suffix : Text → Text → Text
unfolding has_suffix
trim_suffix s p = if has_suffix s p then reverse (drop_len p (reverse s)) else s
  where
    drop_len : Text → Text → Text
    drop_len [] t = t
    drop_len (c ∷ q) [] = []
    drop_len (c ∷ q) (b ∷ t) = drop_len q t

unfoldable pub extend : ℕ → List Text → List Text
extend c [] = (c ∷ []) ∷ []
extend c (s ∷ rest) = (c ∷ s) ∷ rest

-- strings.Split(s, "/")
unfoldable pub segments : Text → List Text
unfolding extend
segments [] = [] ∷ []
segments (c ∷ s) = let rest = segments s in if nat_eq c b'/' then [] ∷ rest else extend c rest
