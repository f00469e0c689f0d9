-- ===== src/Base/Numbers.antt =====
-- strconv: decimal numbers of a bounded width, and signed integers.
use Prim.Native.Nat.{ℕ, zero, suc, ◌+◌, ◌-◌, ◌*◌, ◌^◌, ◌/◌, ◌%◌, ◌<◌}
use mathlib.Core.Path.{◌≡◌, refl, ◌∙◌}
use mathlib.Core.Logic.{inl, inr}
use mathlib.Core.Bool.{false, ◌&&◌}
use mathlib.Core.Option.{Option, none, some}
use mathlib.Core.List.{[], ◌∷◌, reverse, reverse_aux, reverse-reverse}
use native.Mathlib.Omega.{arith}
use companion_mission_planne.Base.Tests.{Bool-cases, ltb, nat_eq, if◌then◌else◌}
use companion_mission_planne.Base.Lists.{All}
use companion_mission_planne.Base.Texts.{Text, is_digit, is_space, trim_left, trim_space}

-- `negsuc n` is -(n + 1).
pub data ℤ : Type 0 where
  pos : ℕ → ℤ
  negsuc : ℕ → ℤ

-- The digits of a text after the value `n`, as long as it stays below `limit`.
scan_digits : ℕ → ℕ → Text → Option ℕ
scan_digits limit n [] = some n
scan_digits limit n (c ∷ s) =
    let next = n * 10 + (c - b'0') in
    let rest = scan_digits limit next s in if is_digit c && ltb next limit then rest else none

-- strconv.ParseUint(s, 10, bits), for 2 ^ bits = limit
unfoldable pub parse_uint : ℕ → Text → Option ℕ
unfolding scan_digits
parse_uint limit [] = none
parse_uint limit (c ∷ s) = scan_digits limit 0 (c ∷ s)

negative : Option ℕ → Option ℤ
negative none = none
negative (some zero) = some (pos 0)
negative (some (suc n)) = some (negsuc n)

positive : Option ℕ → Option ℤ
positive none = none
positive (some n) = some (pos n)

-- strconv.ParseInt(s, 10, 64)
unfoldable pub parse_int64 : Text → Option ℤ
unfolding parse_uint positive negative
parse_int64 [] = none
parse_int64 (c ∷ s) =
    if nat_eq c b'-'
    then negative (parse_uint (2 ^ 63 + 1) s)
    else if nat_eq c b'+'
    then positive (parse_uint (2 ^ 63) s)
    else positive (parse_uint (2 ^ 63) (c ∷ s))

scan_digits-lt :
    (limit n : ℕ) (s : Text) (r : ℕ) → n < limit → scan_digits limit n s ≡ some r → r < limit
unfolding scan_digits
scan_digits-lt limit n [] r h e = ground arith
scan_digits-lt limit n (c ∷ s) r h e =
    ground (arith, scan_digits-lt limit (n * 10 + (c - b'0')) s r)

pub parse_uint-lt :
    (limit : ℕ) (s : Text) (r : ℕ) → 0 < limit → parse_uint limit s ≡ some r → r < limit
unfolding parse_uint
parse_uint-lt limit [] r h e = cc
parse_uint-lt limit (c ∷ s) r h e = scan_digits-lt limit 0 (c ∷ s) r h e

-- strconv.FormatUint(n, 10), on fuel: each round divides by ten.
digits : ℕ → ℕ → Text → Text
digits zero n out = out
digits (suc fuel) n out =
    let more = digits fuel (n / 10) ((b'0' + n % 10) ∷ out) in
    if ltb n 10 then (b'0' + n % 10) ∷ out else more

unfoldable pub format_uint : ℕ → Text
unfolding digits
format_uint n = digits (suc n) n []

scan-digits :
    (limit fuel n : ℕ) (out : Text)
    → n < limit
    → n < fuel
    → scan_digits limit 0 (digits fuel n out) ≡ scan_digits limit n out
unfolding digits
scan-digits limit zero n out h k = absurd (omega arith)
scan-digits limit (suc fuel) n out h k = elim (Bool-cases (ltb n 10)) [
  | inl e ↦ rw e (unfold scan_digits in ground (arith, e))
  | inr e ↦ rw e (
      scan-digits limit fuel (n / 10) ((b'0' + n % 10) ∷ out) (omega arith) (ground (arith, e))
      ∙ (unfold scan_digits in ground (arith, e)))
]

digits-head :
    (fuel n : ℕ) (out : Text) → (c : ℕ) × (rest : Text) × (digits (suc fuel) n out ≡ c ∷ rest)
unfolding digits
digits-head zero n out = (b'0' + n % 10, out, ground arith)
digits-head (suc fuel) n out = elim (Bool-cases (ltb n 10)) [
  | inl e ↦ (b'0' + n % 10, out, ground (arith, e))
  | inr e ↦
      let (c, rest, p) = digits-head fuel (n / 10) ((b'0' + n % 10) ∷ out) in (c, rest, rw e p)
]

parse_uint-scan :
    (limit : ℕ) (s : Text)
    → (c : ℕ) × (rest : Text) × (s ≡ c ∷ rest)
    → parse_uint limit s ≡ scan_digits limit 0 s
unfolding parse_uint
parse_uint-scan limit s (c, rest, e) = rw e refl

-- A number below the limit is read back from its decimal digits.
pub parse-format : (limit n : ℕ) → n < limit → parse_uint limit (format_uint n) ≡ some n
unfolding format_uint
parse-format limit n h =
    parse_uint-scan limit (digits (suc n) n []) (digits-head n n [])
    ∙ scan-digits limit (suc n) n [] h (omega arith)
    ∙ (unfold scan_digits in refl)

digits-All :
    (fuel n : ℕ) (out : Text)
    → All (λ c. is_space c ≡ false) out
    → All (λ c. is_space c ≡ false) (digits fuel n out)
unfolding digits
digits-All zero n out h = h
digits-All (suc fuel) n out h =
    let step : is_space (b'0' + n % 10) ≡ false = ground arith in
    elim (Bool-cases (ltb n 10)) [
      | inl e ↦ rw e (step, h)
      | inr e ↦ rw e (digits-All fuel (n / 10) ((b'0' + n % 10) ∷ out) (step, h))
    ]

trim_left-id : (s : Text) → All (λ c. is_space c ≡ false) s → trim_left s ≡ s
unfolding trim_left
trim_left-id [] h = refl
trim_left-id (c ∷ s) h = rw (h.0) refl

All-reverse_aux {κ} : (P : ℕ → Type κ) (s t : Text) → All P s → All P t → All P (reverse_aux s t)
All-reverse_aux P [] t hs ht = ht
All-reverse_aux P (c ∷ s) t hs ht = All-reverse_aux P s (c ∷ t) hs.1 (hs.0, ht)

trim_space-id : (s : Text) → All (λ c. is_space c ≡ false) s → trim_space s ≡ s
unfolding trim_space
trim_space-id s h =
    rw (trim_left-id s h, trim_left-id (reverse s) (All-reverse_aux _ s [] h tt))
      (reverse-reverse s)

-- The digits of a number have no space around them.
pub trim_space-format : (n : ℕ) → trim_space (format_uint n) ≡ format_uint n
unfolding format_uint
trim_space-format n = trim_space-id (digits (suc n) n []) (digits-All (suc n) n [] tt)
