-- ===== src/Kmz/Extract/Priority.antt =====
-- The order in which `ExtractMission` tries the entries, and where its result comes from.
use mathlib.Core.List.{Memᴰ}
use mathlib.Core.Path.{subst}
use companion_mission_planne.Base.{
  Bool, ap, keep_if, not, ◌&&◌, ◌||◌, has_suffix, to_lower, ==→eq, ℕ, ◌≡◌, refl, sym, ◌∙◌, ◌≤◌, ◌⊎◌,
  inl, inr, arith, false, Option, none, some, List, [], ◌∷◌, Text, text_Eq, codes, ltb, is_empty,
  Result, ok, err, Bool-cases, Option-cases, ◌==◌, if◌then◌else◌,
}
use companion_mission_planne.Base.Table
use companion_mission_planne.Base.Table.{Table, get-put}
use companion_mission_planne.Kmz.Archive.{max_size}
use companion_mission_planne.Kmz.Mission.{
  Token, Mission, ParseError, syntax, no_waypoints, parse_kml,
}
use companion_mission_planne.Kmz.Mission.Totality.{parse_kml-returns}
use companion_mission_planne.Kmz.Extract.{
  KmlEntry, is_kml_name, nothing_found, ExtractError, parse_failed, Tried-cases, found, failed,
  no_mission, index_entries, classify_parse, try_entry, try_others, extract_mission,
}

-- An entry of that name, the last if there are several, as zip archives may hold.
unfoldable pub last_named : Text → List KmlEntry → Option KmlEntry
last_named name [] = none
last_named name (f ∷ files) = elim (last_named name files) [
  | some g ↦ some g
  | none ↦ if f.name == name then some f else none
]

index-last :
    (name : Text) (m : Table Text KmlEntry) (files : List KmlEntry)
    → Table.get name (index_entries m files)
      ≡ (elim (last_named name files) [ some g ↦ some g | none ↦ Table.get name m ])
unfolding index_entries last_named
index-last name m [] = refl
index-last name m (f ∷ files) =
    ground (arith, index-last name (Table.put f.name f m) files, get-put f.name name f m)

module _ {F : Type 0} (zero_float : F) (parse_float : Text → Option F) where
  -- What a preferred name contributes before the rest of the search.
  abbrev preferred :
      List KmlEntry → Text → Result ExtractError (Mission F) → Result ExtractError (Mission F)
  preferred files name rest = elim (last_named name files) [
    | none ↦ rest
    | some f ↦ elim (try_entry zero_float parse_float f) [
      | found m ↦ ok m
      | failed ↦ err (parse_failed name)
      | no_mission ↦ rest
    ]
  ]

  -- How a search through entries ends: with the first mission, named after its entry, or with the first
  -- error other than that of an entry without waypoints, which passes the search on; and with nothing
  -- found where no entry is left.
  pub data Searches : List KmlEntry → Result ExtractError (Mission F) → Type 0 where
    stops :
        (f : KmlEntry) (files : List KmlEntry) (tokens : List Token) (m : Mission F)
        → f.tokens ≡ some tokens
        → parse_kml zero_float parse_float tokens ≡ some (ok m)
        → Searches (f ∷ files) (ok (record m { source = f.name }))
    closed :
        (f : KmlEntry) (files : List KmlEntry)
        → f.tokens ≡ none
        → Searches (f ∷ files) (err (parse_failed f.name))
    malformed :
        (f : KmlEntry) (files : List KmlEntry) (tokens : List Token)
        → f.tokens ≡ some tokens
        → parse_kml zero_float parse_float tokens ≡ some (err syntax)
        → Searches (f ∷ files) (err (parse_failed f.name))
    passes :
        (f : KmlEntry) (files : List KmlEntry) (tokens : List Token)
        {r : Result ExtractError (Mission F)}
        → f.tokens ≡ some tokens
        → parse_kml zero_float parse_float tokens ≡ some (err no_waypoints)
        → Searches files r
        → Searches (f ∷ files) r
    ends : Searches [] (err nothing_found)

  -- What the search makes of an entry and of the result of the others.
  abbrev tried : KmlEntry → Result ExtractError (Mission F) → Result ExtractError (Mission F)
  tried f rest = elim (try_entry zero_float parse_float f) [
    | found m ↦ ok m
    | failed ↦ err (parse_failed f.name)
    | no_mission ↦ rest
  ]

  parsed-Searches :
      (f : KmlEntry) (files : List KmlEntry) (tokens : List Token)
      (rest : Result ExtractError (Mission F)) (r : Result ParseError (Mission F))
      → f.tokens ≡ some tokens
      → parse_kml zero_float parse_float tokens ≡ some r
      → Searches files rest
      → Searches (f ∷ files) (tried f rest)
  unfolding try_entry classify_parse
  parsed-Searches f files tokens rest (ok m) e p s =
      subst (Searches (f ∷ files)) (ground (arith, e, p)) (stops f files tokens m e p)
  parsed-Searches f files tokens rest (err syntax) e p s =
      subst (Searches (f ∷ files)) (ground (arith, e, p)) (malformed f files tokens e p)
  parsed-Searches f files tokens rest (err no_waypoints) e p s =
      subst (Searches (f ∷ files)) (ground (arith, e, p)) (passes f files tokens e p s)

  tried-Searches :
      (f : KmlEntry) (files : List KmlEntry) (rest : Result ExtractError (Mission F))
      → Searches files rest
      → Searches (f ∷ files) (tried f rest)
  unfolding try_entry
  tried-Searches f files rest s = elim (Option-cases f.tokens) [
    | inl e ↦ subst (Searches (f ∷ files)) (ground (arith, e)) (closed f files e)
    | inr (tokens, e) ↦
        let (r, ran, nonempty) = parse_kml-returns zero_float parse_float tokens in
        parsed-Searches f files tokens rest r e ran s
  ]

  -- The entry of a name, if there is one, before other entries.
  abbrev pub named : Text → List KmlEntry → List KmlEntry → List KmlEntry
  named name files tail = elim (last_named name files) [ none ↦ tail | some f ↦ f ∷ tail ]

  -- An entry other than the two preferred ones whose name ends as that of a KML file does.
  abbrev pub is_other : KmlEntry → Bool
  is_other f =
      (has_suffix (to_lower f.name) (codes ".kml") || has_suffix (to_lower f.name) (codes ".wpml"))
      && not (codes "wpmz/template.kml" == f.name || codes "wpmz/waylines.wpml" == f.name)

  -- The entries that the search takes, in its order.
  abbrev pub search_list : List KmlEntry → List KmlEntry
  search_list files =
      named (codes "wpmz/template.kml") files
        (named (codes "wpmz/waylines.wpml") files (keep_if is_other files))

  others-Searches :
      (files : List KmlEntry)
      → Searches (keep_if is_other files) (try_others zero_float parse_float files)
  unfolding try_others is_kml_name
  others-Searches [] = ends
  others-Searches (f ∷ files) =
      let rest = try_others zero_float parse_float files in
      elim (Bool-cases (is_other f)) [
        | inl e ↦
            let step : try_others zero_float parse_float (f ∷ files) ≡ tried f rest =
              ground (arith, e) in
            rw e (
              subst (Searches (f ∷ keep_if is_other files)) (sym step)
                (tried-Searches f (keep_if is_other files) rest (others-Searches files)))
        | inr e ↦
            let step : try_others zero_float parse_float (f ∷ files) ≡ rest = ground (arith, e) in
            rw e (subst (Searches (keep_if is_other files)) (sym step) (others-Searches files))
      ]

  last_named-name :
      (name : Text) (files : List KmlEntry) (f : KmlEntry)
      → last_named name files ≡ some f
      → f.name ≡ name
  unfolding last_named
  last_named-name name [] f h = absurd (cc)
  last_named-name name (g ∷ files) f h = elim (Option-cases (last_named name files)) [
    | inr (x, e) ↦ last_named-name name files f (ground (arith, e))
    | inl e ↦ elim (Bool-cases (g.name == name)) [
      | inl q ↦
          let same : g ≡ f = ground (arith, e, q, h) in
          ap (λ (x : KmlEntry). x.name) (sym same) ∙ ==→eq g.name name q
      | inr q ↦ absurd (ground (arith, e, q, h))
    ]
  ]

  preferred-Searches :
      (files : List KmlEntry) (name : Text) (tail : List KmlEntry)
      (rest : Result ExtractError (Mission F))
      → Searches tail rest
      → Searches (named name files tail) (preferred files name rest)
  preferred-Searches files name tail rest s = elim (Option-cases (last_named name files)) [
    | inl e ↦ rw (e, preferred, named) s
    | inr (f, e) ↦
        let label = last_named-name name files f e in
        let step : preferred files name rest ≡ tried f rest = ground (arith, e, label) in
        subst (Searches (named name files tail)) (sym step)
          (rw (e, named) (tried-Searches f tail rest s))
  ]

  extract-preferred :
      (size : ℕ) (files : List KmlEntry)
      → size ≤ max_size
      → extract_mission zero_float parse_float size (some files)
        ≡ preferred files
            (codes "wpmz/template.kml")
            (preferred files (codes "wpmz/waylines.wpml") (try_others zero_float parse_float files))
  unfolding extract_mission Table.get
  extract-preferred size files h = ground (
    arith,
    index-last (codes "wpmz/template.kml") [] files,
    index-last (codes "wpmz/waylines.wpml") [] files,
  )

  -- Within the size limit the search takes wpmz/template.kml first (the last entry of the name), then
  -- wpmz/waylines.wpml, then, in archive order, the other entries whose names end in .kml or .wpml, in
  -- whatever case; an entry without waypoints passes the search on, any other error ends it.
  pub extract_order :
      (size : ℕ) (files : List KmlEntry)
      → size ≤ max_size
      → Searches (search_list files) (extract_mission zero_float parse_float size (some files))
  extract_order size files h =
      subst (Searches (search_list files)) (sym (extract-preferred size files h)) (
        preferred-Searches files (codes "wpmz/template.kml") _ _
          (preferred-Searches files (codes "wpmz/waylines.wpml") _ _ (others-Searches files)))

  -- A mission that stands in an entry of the archive: the entry parses to it, with a waypoint, and
  -- the mission is labelled with the entry's name.
  abbrev pub ComesFrom : Mission F → KmlEntry → Type 0
  ComesFrom m f =
      (try_entry zero_float parse_float f ≡ found m)
      × (m.source ≡ f.name)
      × (is_empty m.waypoints ≡ false)

  classify-found :
      (name : Text) (o : Option (Result ParseError (Mission F))) (m : Mission F)
      → classify_parse zero_float parse_float name o ≡ found m
      → (m' : Mission F) × (o ≡ some (ok m')) × (m ≡ record m' { source = name })
  unfolding classify_parse
  classify-found name none m h = absurd (cc)
  classify-found name (some (ok m')) m h = (m', refl, ground arith)
  classify-found name (some (err syntax)) m h = absurd (cc)
  classify-found name (some (err no_waypoints)) m h = absurd (cc)

  found-ComesFrom :
      (m : Mission F) (f : KmlEntry) → try_entry zero_float parse_float f ≡ found m → ComesFrom m f
  unfolding try_entry
  found-ComesFrom m f h = elim (Option-cases f.tokens) [
    | inl e ↦ absurd (ground (arith, e, h))
    | inr (tokens, e) ↦
        let (r, ran, nonempty) = parse_kml-returns zero_float parse_float tokens in
        let (m', parsed, labelled) =
          classify-found f.name (parse_kml zero_float parse_float tokens) m (ground (arith, e)) in
        (
          h,
          ground (arith, labelled),
          ground (arith, labelled, nonempty m' (ground (arith, ran, parsed))),
        )
  ]

  others-first :
      (m : Mission F) (f : KmlEntry) (files : List KmlEntry) (x : Mission F)
      → try_entry zero_float parse_float f ≡ found x
      → try_others zero_float parse_float (f ∷ files) ≡ ok m
      → (x ≡ m) ⊎ (try_others zero_float parse_float files ≡ ok m)
  unfolding try_others
  others-first m f files x e h = ground (arith, e)

  others-next :
      (m : Mission F) (f : KmlEntry) (files : List KmlEntry)
      → (try_entry zero_float parse_float f ≡ failed)
        ⊎ (try_entry zero_float parse_float f ≡ no_mission)
      → try_others zero_float parse_float (f ∷ files) ≡ ok m
      → try_others zero_float parse_float files ≡ ok m
  unfolding try_others
  others-next m f files e h = ground (arith, e)

  others-ComesFrom :
      (m : Mission F) (files : List KmlEntry)
      → try_others zero_float parse_float files ≡ ok m
      → (f : KmlEntry) × Memᴰ f files × ComesFrom m f
  unfolding try_others
  others-ComesFrom m [] h = absurd (cc)
  others-ComesFrom m (f ∷ files) h = elim (Tried-cases (try_entry zero_float parse_float f)) [
    | inl (x, e) ↦ elim (others-first m f files x e h) [
      | inl q ↦ (f, Memᴰ.head refl, found-ComesFrom m f (ground (arith, e, q)))
      | inr q ↦ let (g, mem, c) = others-ComesFrom m files q in (g, Memᴰ.tail mem, c)
    ]
    | inr e ↦
        let (g, mem, c) = others-ComesFrom m files (others-next m f files e h) in
        (g, Memᴰ.tail mem, c)
  ]

  last_named-mem :
      (name : Text) (files : List KmlEntry) (f : KmlEntry)
      → last_named name files ≡ some f
      → Memᴰ f files
  unfolding last_named
  last_named-mem name [] f h = absurd (cc)
  last_named-mem name (g ∷ files) f h = elim (Option-cases (last_named name files)) [
    | inr (x, e) ↦ Memᴰ.tail (last_named-mem name files f (ground (arith, e)))
    | inl e ↦ Memᴰ.head (ground (arith, e))
  ]

  preferred-ComesFrom :
      (m : Mission F) (files : List KmlEntry) (name : Text) (rest : Result ExtractError (Mission F))
      → preferred files name rest ≡ ok m
      → ((f : KmlEntry) × Memᴰ f files × ComesFrom m f) ⊎ (rest ≡ ok m)
  preferred-ComesFrom m files name rest h = elim (Option-cases (last_named name files)) [
    | inl e ↦ inr (ground (arith, e))
    | inr (f, e) ↦ elim (Tried-cases (try_entry zero_float parse_float f)) [
      | inl (x, t) ↦
          inl (f, last_named-mem name files f e, found-ComesFrom m f (ground (arith, e, t)))
      | inr (inl t) ↦ absurd (ground (arith, e, t, h))
      | inr (inr t) ↦ inr (ground (arith, e, t))
    ]
  ]

  within :
      (size : ℕ) (files : List KmlEntry) (m : Mission F)
      → extract_mission zero_float parse_float size (some files) ≡ ok m
      → size ≤ max_size
  unfolding extract_mission
  within size files m h = elim (Bool-cases (ltb max_size size)) [
    | inl e ↦ absurd (ground (arith, e, h))
    | inr e ↦ ground (arith, e)
  ]

  -- A mission that `ExtractMission` returns comes from an entry of an archive of at most 10 MB.
  pub extract_sound :
      (size : ℕ) (files : List KmlEntry) (m : Mission F)
      → extract_mission zero_float parse_float size (some files) ≡ ok m
      → (size ≤ max_size) × ((f : KmlEntry) × Memᴰ f files × ComesFrom m f)
  extract_sound size files m h =
      let fits : size ≤ max_size = within size files m h in
      let searched = sym (extract-preferred size files fits) ∙ h in
      (
        fits,
        elim (preferred-ComesFrom m files _ _ searched) [
          | inl c ↦ c
          | inr next ↦ elim (preferred-ComesFrom m files _ _ next) [
            | inl c ↦ c
            | inr others ↦ others-ComesFrom m files others
          ]
        ],
      )
