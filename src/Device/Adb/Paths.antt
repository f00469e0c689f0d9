-- ===== src/Device/Adb/Paths.antt =====
-- `PathsFor` of internal/device/slots.go, with `path.Join` of a rooted path.
use companion_mission_planne.Base.{
  ℕ, ◌≤◌, ◌≡◌, refl, sym, ap, append_assoc, ◌∙◌, false, ◌||◌, List, [], ◌∷◌, ◌++◌, arith, Text,
  text_eq, codes, nat_eq, length, length-append, take, drop, any, is_empty, segments, extend,
  if◌then◌else◌,
}

abbrev pub waypoint_dir : Text
waypoint_dir = codes "/sdcard/Android/data/dji.go.v5/files/waypoint"

-- The segments of a rooted path, the last one first, after one more segment.
clean_step : List Text → Text → List Text
unfolding text_eq
clean_step stack seg =
    if is_empty seg || text_eq seg (codes ".")
    then stack
    else if text_eq seg (codes "..")
    then drop 1 stack
    else seg ∷ stack

clean_segments : List Text → List Text → List Text
unfolding clean_step
clean_segments stack [] = stack
clean_segments stack (seg ∷ segs) = clean_segments (clean_step stack seg) segs

clean_elements : List Text → List Text → List Text
unfolding clean_segments segments
clean_elements stack [] = stack
clean_elements stack (e ∷ elems) = clean_elements (clean_segments stack (segments e)) elems

rooted : List Text → Text
rooted [] = []
rooted (seg ∷ stack) = rooted stack ++ codes "/" ++ seg

-- path.Join where the first element is rooted.
unfoldable pub join : List Text → Text
unfolding clean_elements rooted
join elems =
    let stack = clean_elements [] elems in if is_empty stack then codes "/" else rooted stack

-- PreviewDir
abbrev pub preview_dir : Text
preview_dir = waypoint_dir ++ codes "/map_preview"

pub record SlotPaths : Type 0 where
  pub dir : Text
  pub kmz : Text
  pub preview_dir : Text
  pub preview : Text

-- PathsFor
unfoldable pub paths_for : Text → SlotPaths
unfolding join
paths_for guid = record {
  dir = join (waypoint_dir ∷ guid ∷ []);
  kmz = join (waypoint_dir ∷ guid ∷ (guid ++ codes ".kmz") ∷ []);
  preview_dir = join (preview_dir ∷ guid ∷ []);
  preview = join (preview_dir ∷ guid ∷ (guid ++ codes ".jpg") ∷ []);
}

-- A name of one path segment.
abbrev pub IsSegment : Text → Type 0
IsSegment s = any (λ (c : ℕ). nat_eq c b'/') s ≡ false

segments-plain : (s : Text) → IsSegment s → segments s ≡ s ∷ []
unfolding segments extend
segments-plain [] h = refl
segments-plain (c ∷ s) h = rw (segments-plain s (ground arith)) (ground arith)

IsSegment-append : (s t : Text) → IsSegment s → IsSegment t → IsSegment (s ++ t)
IsSegment-append [] t h k = k
IsSegment-append (c ∷ s) t h k = ground (arith, IsSegment-append s t)

clean_step-plain : (stack : List Text) (s : Text) → 3 ≤ length s → clean_step stack s ≡ s ∷ stack
unfolding clean_step text_eq
clean_step-plain stack [] h = absurd (omega arith)
clean_step-plain stack (a ∷ []) h = absurd (omega arith)
clean_step-plain stack (a ∷ b ∷ []) h = absurd (omega arith)
clean_step-plain stack (a ∷ b ∷ c ∷ s) h = ground arith

clean-plain :
    (stack : List Text) (s : Text)
    → IsSegment s
    → 3 ≤ length s
    → clean_segments stack (segments s) ≡ s ∷ stack
unfolding clean_segments
clean-plain stack s h l = rw (segments-plain s h) (clean_step-plain stack s l)

length-kmz : (guid : Text) → length guid ≡ 36 → 3 ≤ length (guid ++ codes ".kmz")
length-kmz guid l = omega (arith, length-append guid (codes ".kmz"), l)

abbrev waypoint_stack : List Text
waypoint_stack =
    codes "waypoint"
    ∷ codes "files"
    ∷ codes "dji.go.v5"
    ∷ codes "data"
    ∷ codes "Android"
    ∷ codes "sdcard"
    ∷ []

kmz-stack :
    (guid : Text)
    → IsSegment guid
    → length guid ≡ 36
    → clean_elements [] (waypoint_dir ∷ guid ∷ (guid ++ codes ".kmz") ∷ [])
      ≡ (guid ++ codes ".kmz") ∷ guid ∷ waypoint_stack
unfolding clean_elements clean_segments clean_step segments extend text_eq
kmz-stack guid h l =
    ap (λ (st : List Text). clean_segments st (segments (guid ++ codes ".kmz")))
      (clean-plain waypoint_stack guid h (omega (arith, l)))
    ∙ clean-plain (guid ∷ waypoint_stack) (guid ++ codes ".kmz")
        (IsSegment-append guid (codes ".kmz") h refl) (length-kmz guid l)

-- The KMZ of a slot stands in the slot's own folder.
pub kmz-plain :
    (guid : Text)
    → IsSegment guid
    → length guid ≡ 36
    → (paths_for guid).kmz
      ≡ (waypoint_dir ++ codes "/" ++ guid) ++ codes "/" ++ (guid ++ codes ".kmz")
unfolding paths_for join rooted
kmz-plain guid h l =
    ap (λ (st : List Text). if is_empty st then codes "/" else rooted st) (kmz-stack guid h l)

take-append : (s t : Text) → take (length s) (s ++ t) ≡ s
take-append [] t = refl
take-append (c ∷ s) t = ap (λ (x : Text). c ∷ x) (take-append s t)

guid-of :
    (guid : Text)
    → IsSegment guid
    → length guid ≡ 36
    → take 36 (drop 46 (paths_for guid).kmz) ≡ guid
guid-of guid h l =
    ap (λ (x : Text). take 36 (drop 46 x)) (kmz-plain guid h l)
    ∙ ap (take 36) (append_assoc guid (codes "/") (guid ++ codes ".kmz"))
    ∙ ap (λ (n : ℕ). take n (guid ++ (codes "/" ++ (guid ++ codes ".kmz")))) (sym l)
    ∙ take-append guid (codes "/" ++ (guid ++ codes ".kmz"))

-- Slots have KMZ files of their own.
pub kmz-injective :
    (g h : Text)
    → IsSegment g
    → IsSegment h
    → length g ≡ 36
    → length h ≡ 36
    → (paths_for g).kmz ≡ (paths_for h).kmz
    → g ≡ h
kmz-injective g h sg sh lg lh e =
    sym (guid-of g sg lg) ∙ ap (λ (x : Text). take 36 (drop 46 x)) e ∙ guid-of h sh lh

pub length-kmz_path :
    (guid : Text) → IsSegment guid → length guid ≡ 36 → length (paths_for guid).kmz ≡ 123
length-kmz_path guid h l =
    let name = guid ++ codes ".kmz" in
    let below = codes "/" ++ name in
    ap length (kmz-plain guid h l)
    ∙ omega (
      arith,
      length-append (waypoint_dir ++ codes "/" ++ guid ++ codes "/") name,
      length-append (waypoint_dir ++ codes "/" ++ guid) (codes "/"),
      length-append (waypoint_dir ++ codes "/") guid,
      length-append guid (codes ".kmz"),
      l,
    )
