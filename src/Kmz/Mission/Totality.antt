-- ===== src/Kmz/Mission/Totality.antt =====
-- The token loop of `parseKML` of internal/kmz/extract.go and its fuel.
use companion_mission_planne.Base.{
  ℕ, zero, suc, ◌<◌, ◌≡◌, ◌≢◌, arith, Option, none, some, List, [], ◌∷◌, ◌++◌, Text, length,
  is_empty, false, Result, ok, err, Option-cases, inl, inr,
}
use companion_mission_planne.Kmz.Mission.{
  Token, start, end, chars, bad, Mission, ParseError, decode_from, decode_element, action_of,
  record_text, parse_loop, parse_kml, finish, require_waypoints, empty_mission, pop,
}

decode_from-shorter :
    (depth : ℕ) (raw : Text) (tokens : List Token) (r : Text) (rest : List Token)
    → decode_from depth raw tokens ≡ some (r, rest)
    → length rest < length tokens
unfolding decode_from
decode_from-shorter depth raw [] r rest h = absurd (cc)
decode_from-shorter zero raw (end t ∷ tokens) r rest h = ground arith
decode_from-shorter (suc depth) raw (end t ∷ tokens) r rest h =
    omega (arith, decode_from-shorter depth raw tokens r rest h)
decode_from-shorter zero raw (start t ∷ tokens) r rest h =
    omega (arith, decode_from-shorter 1 raw tokens r rest h)
decode_from-shorter (suc depth) raw (start t ∷ tokens) r rest h =
    omega (arith, decode_from-shorter (suc (suc depth)) raw tokens r rest h)
decode_from-shorter zero raw (chars s ∷ tokens) r rest h =
    omega (arith, decode_from-shorter zero (raw ++ s) tokens r rest h)
decode_from-shorter (suc depth) raw (chars s ∷ tokens) r rest h =
    omega (arith, decode_from-shorter (suc depth) raw tokens r rest h)
decode_from-shorter zero raw (bad ∷ tokens) r rest h = absurd (cc)
decode_from-shorter (suc depth) raw (bad ∷ tokens) r rest h = absurd (cc)

module _ {F : Type 0} (zero_float : F) (parse_float : Text → Option F) where
  parse_loop-total :
      (fuel : ℕ) (stack : List Text) (m : Mission F) (tokens : List Token)
      → length tokens < fuel
      → parse_loop zero_float parse_float fuel stack m tokens ≢ none
  unfolding parse_loop
  parse_loop-total zero stack m tokens h = absurd (omega arith)
  parse_loop-total (suc fuel) stack m [] h = λ e. cc
  parse_loop-total (suc fuel) stack m (bad ∷ tokens) h = λ e. cc
  parse_loop-total (suc fuel) stack m (chars s ∷ tokens) h =
      parse_loop-total fuel stack m tokens (omega arith)
  parse_loop-total (suc fuel) stack m (end tag ∷ tokens) h =
      parse_loop-total fuel (pop tag stack) m tokens (omega arith)
  parse_loop-total (suc fuel) stack m (start tag ∷ tokens) h =
      elim (Option-cases (decode_element tokens)) [
        | inl e ↦ ground (arith, e, parse_loop-total fuel (tag ∷ stack) m tokens)
        | inr ((raw, rest), e) ↦
            let shorter =
              decode_from-shorter zero [] tokens raw rest (unfold decode_element in e) in
            let a = action_of (tag ∷ stack) m tag in
            ground (
              arith,
              e,
              parse_loop-total fuel (tag ∷ stack) m tokens,
              parse_loop-total fuel stack (record_text zero_float parse_float a raw m) rest,
            )
      ]

  -- `parseKML` returns on every token stream, and a mission that it accepts has a waypoint.
  pub parse_kml-returns :
      (tokens : List Token)
      → (r : Result ParseError (Mission F)) × (parse_kml zero_float parse_float tokens ≡ some r)
        × ((m : Mission F) → r ≡ ok m → is_empty m.waypoints ≡ false)
  unfolding parse_kml finish require_waypoints
  parse_kml-returns tokens =
      elim (Option-cases (
        parse_loop zero_float parse_float (suc (length tokens)) []
          (empty_mission zero_float parse_float) tokens)) [
            | inl e ↦ absurd (
                parse_loop-total (suc (length tokens)) [] (empty_mission zero_float parse_float)
                  tokens (omega arith) e)
            | inr (err x, e) ↦ (err x, ground (arith, e), λ m h. absurd (cc))
            | inr (ok m, e) ↦ (
              require_waypoints zero_float parse_float m,
              ground (arith, e),
              λ m' h. ground arith,
            )
          ]
