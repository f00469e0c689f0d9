-- ===== src/Device/Exif.antt =====
-- `extractEXIFThumbnail` of internal/device/exif.go. The JPEG decoder's verdict is a parameter.
use companion_mission_planne.Base.{
  ◌≤◌, ◌≡◌, refl, ◌∙◌, sym, ap, arith, Bool, true, false, ◌&&◌, Option, none, some, [], ◌∷◌, ◌++◌,
  append_assoc, Text, length, nat_eq, Option-cases, Bool-cases, inl, inr, if◌then◌else◌,
}

abbrev soi_mark : Text
soi_mark = 0xFF ∷ 0xD8 ∷ 0xFF ∷ []

abbrev eoi_mark : Text
eoi_mark = 0xFF ∷ 0xD9 ∷ []

-- The inner loop: what stands up to the first FF D9 and with it. `taken` is what was passed.
first_eoi : Text → Text → Option Text
first_eoi taken [] = none
first_eoi taken (a ∷ []) = none
first_eoi taken (a ∷ b ∷ rest) =
    let further = first_eoi (taken ++ a ∷ []) (b ∷ rest) in
    if nat_eq a 0xFF && nat_eq b 0xD9 then some (taken ++ eoi_mark) else further

module _ (decodes : Text → Bool) where
  -- An inner start at the head of the text, its first end, and the decoder's confirmation.
  pub try_at : Text → Option Text
  unfolding first_eoi
  try_at (a ∷ b ∷ c ∷ d ∷ rest) =
      if nat_eq a 0xFF && nat_eq b 0xD8 && nat_eq c 0xFF
      then elim (first_eoi soi_mark (d ∷ rest)) [
        | none ↦ none
        | some candidate ↦ if decodes candidate then some candidate else none
      ]
      else none
  try_at short = none

  -- The outer loop, over the suffixes of the head.
  scan_from : Text → Option Text
  unfolding try_at
  scan_from [] = none
  scan_from (a ∷ rest) =
      let later = scan_from rest in elim (try_at (a ∷ rest)) [ some t ↦ some t | none ↦ later ]

  opens_jpeg : Text → Bool
  opens_jpeg (a ∷ b ∷ c ∷ d ∷ rest) = nat_eq a 0xFF && nat_eq b 0xD8
  opens_jpeg short = false

  skip_two : Text → Text
  skip_two (a ∷ b ∷ rest) = rest
  skip_two short = []

  unfoldable pub extract_exif_thumbnail : Text → Option Text
  unfolding scan_from opens_jpeg skip_two
  extract_exif_thumbnail head = if opens_jpeg head then scan_from (skip_two head) else none

  first_eoi-slice :
      (taken s t : Text)
      → first_eoi taken s ≡ some t
      → (body : Text) × (after : Text) × (t ≡ taken ++ (body ++ eoi_mark))
        × (taken ++ s ≡ t ++ after)
  unfolding first_eoi
  first_eoi-slice taken [] t h = absurd (cc)
  first_eoi-slice taken (a ∷ []) t h = absurd (cc)
  first_eoi-slice taken (a ∷ b ∷ rest) t h = elim (Bool-cases (nat_eq a 0xFF && nat_eq b 0xD9)) [
    | inl e ↦
        let found : taken ++ eoi_mark ≡ t = ground (arith, e, h) in
        let same : a ∷ b ∷ rest ≡ eoi_mark ++ rest = ground (arith, e) in
        (
          [],
          rest,
          sym found,
          rw same (sym (append_assoc taken eoi_mark rest) ∙ ap (λ l. l ++ rest) found),
        )
    | inr e ↦
        let (body, after, shape, split) =
          first_eoi-slice (taken ++ a ∷ []) (b ∷ rest) t (ground (arith, e, h)) in
        (
          a ∷ body,
          after,
          shape ∙ append_assoc taken (a ∷ []) (body ++ eoi_mark),
          sym (append_assoc taken (a ∷ []) (b ∷ rest)) ∙ split,
        )
  ]

  -- A thumbnail inside a head: it starts FF D8 FF, ends FF D9, and the decoder accepts it.
  abbrev pub IsThumbnail : Text → Type 0
  IsThumbnail t = ((body : Text) × (t ≡ soi_mark ++ (body ++ eoi_mark))) × (decodes t ≡ true)

  try_at-slice :
      (s t : Text) → try_at s ≡ some t → IsThumbnail t × ((after : Text) × (s ≡ t ++ after))
  unfolding try_at
  try_at-slice [] t h = absurd (cc)
  try_at-slice (a ∷ []) t h = absurd (cc)
  try_at-slice (a ∷ b ∷ []) t h = absurd (cc)
  try_at-slice (a ∷ b ∷ c ∷ []) t h = absurd (cc)
  try_at-slice (a ∷ b ∷ c ∷ d ∷ rest) t h =
      elim (Bool-cases (nat_eq a 0xFF && nat_eq b 0xD8 && nat_eq c 0xFF)) [
        | inr e ↦ absurd (ground (arith, e, h))
        | inl e ↦ elim (Option-cases (first_eoi soi_mark (d ∷ rest))) [
          | inl q ↦ absurd (ground (arith, e, q, h))
          | inr (x, q) ↦
              let accepted : decodes x ≡ true = ground (arith, e, q, h) in
              let same : x ≡ t = ground (arith, e, q, h) in
              let (body, after, shape, split) = first_eoi-slice soi_mark (d ∷ rest) x q in
              let opening : a ∷ b ∷ c ∷ d ∷ rest ≡ soi_mark ++ d ∷ rest = ground (arith, e) in
              (
                ((body, sym same ∙ shape), rw (← same) accepted),
                (after, opening ∙ split ∙ ap (λ l. l ++ after) same),
              )
        ]
      ]

  scan_from-slice :
      (s t : Text)
      → scan_from s ≡ some t
      → IsThumbnail t × ((before : Text) × (after : Text) × (s ≡ before ++ (t ++ after)))
  unfolding scan_from
  scan_from-slice [] t h = absurd (cc)
  scan_from-slice (a ∷ rest) t h = elim (Option-cases (try_at (a ∷ rest))) [
    | inr (x, e) ↦
        let (thumb, (after, split)) = try_at-slice (a ∷ rest) t (ground (arith, e, h)) in
        (thumb, ([], after, split))
    | inl e ↦
        let (thumb, (before, after, split)) = scan_from-slice rest t (ground (arith, e, h)) in
        (thumb, (a ∷ before, after, ap (λ l. a ∷ l) split))
  ]

  -- A thumbnail that is found is a contiguous slice of the head behind the outer image's opening
  -- bytes; it is a whole JPEG, FF D8 FF to FF D9, and the decoder accepts it.
  extract_exif_thumbnail-slice :
      (head t : Text)
      → extract_exif_thumbnail head ≡ some t
      → IsThumbnail t
        × ((before : Text) × (after : Text) × (head ≡ 0xFF ∷ 0xD8 ∷ (before ++ (t ++ after))))
  unfolding extract_exif_thumbnail opens_jpeg skip_two
  extract_exif_thumbnail-slice [] t h = absurd (cc)
  extract_exif_thumbnail-slice (a ∷ []) t h = absurd (cc)
  extract_exif_thumbnail-slice (a ∷ b ∷ []) t h = absurd (cc)
  extract_exif_thumbnail-slice (a ∷ b ∷ c ∷ []) t h = absurd (cc)
  extract_exif_thumbnail-slice (a ∷ b ∷ c ∷ d ∷ rest) t h =
      elim (Bool-cases (nat_eq a 0xFF && nat_eq b 0xD8)) [
        | inr e ↦ absurd (ground (arith, e, h))
        | inl e ↦
            let (thumb, (before, after, split)) =
              scan_from-slice (c ∷ d ∷ rest) t (ground (arith, e, h)) in
            let opening : a ∷ b ∷ c ∷ d ∷ rest ≡ 0xFF ∷ 0xD8 ∷ c ∷ d ∷ rest = ground (arith, e) in
            (thumb, (before, after, opening ∙ ap (λ l. 0xFF ∷ 0xD8 ∷ l) split))
      ]

  scan_from-none : (before s : Text) → scan_from (before ++ s) ≡ none → try_at s ≡ none
  unfolding scan_from try_at
  scan_from-none [] [] h = refl
  scan_from-none [] (a ∷ s) h = elim (Option-cases (try_at (a ∷ s))) [
    | inl e ↦ e
    | inr (x, e) ↦ absurd (ground (arith, e, h))
  ]
  scan_from-none (b ∷ before) s h = scan_from-none before s (ground (arith, h))

  scanned :
      (s : Text)
      → extract_exif_thumbnail (0xFF ∷ 0xD8 ∷ s) ≡ none
      → 2 ≤ length s
      → scan_from s ≡ none
  unfolding extract_exif_thumbnail opens_jpeg skip_two
  scanned [] h l = absurd (omega arith)
  scanned (a ∷ []) h l = absurd (omega arith)
  scanned (a ∷ b ∷ s) h l = h

  -- Every start behind the opening bytes is tried: no thumbnail is found only if none of them has
  -- a first end whose slice the decoder accepts.
  extract_exif_thumbnail_complete :
      (before s : Text)
      → extract_exif_thumbnail (0xFF ∷ 0xD8 ∷ (before ++ s)) ≡ none
      → 2 ≤ length (before ++ s)
      → try_at s ≡ none
  unfolding extract_exif_thumbnail opens_jpeg skip_two
  extract_exif_thumbnail_complete before s h l = scan_from-none before s (scanned (before ++ s) h l)
