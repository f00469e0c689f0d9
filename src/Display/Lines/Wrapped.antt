-- ===== src/Display/Lines/Wrapped.antt =====
-- What wrapping keeps of a text, and how wide its rows are.
use companion_mission_planne.Base.{
  ℕ, ◌≤◌, ◌≡◌, refl, sym, ◌∙◌, ap, ◌⊎◌, inl, inr, arith, Bool, true, not, ◌||◌, List, [], ◌∷◌, ◌++◌,
  append_assoc, append-nil, Text, All, All-append, keep_if, is_empty, length, nat_eq, Bool-cases,
}
use companion_mission_planne.Display.Lines.{
  extend_word, split_words, joined, break_word, commit, wrap_words, wrap_to_width,
}

-- A text without its spaces.
abbrev pub letters : Text → Text
letters = keep_if (λ c. not (nat_eq c b' '))

abbrev pub concat : List Text → Text
concat [] = []
concat (t ∷ ts) = t ++ concat ts

letters-append : (s t : Text) → letters (s ++ t) ≡ letters s ++ letters t
letters-append [] t = refl
letters-append (c ∷ s) t = ground (arith, letters-append s t)

concat-append : (ts us : List Text) → concat (ts ++ us) ≡ concat ts ++ concat us
concat-append [] us = refl
concat-append (t ∷ ts) us =
    ap (λ (r : Text). t ++ r) (concat-append ts us) ∙ sym (append_assoc t (concat ts) (concat us))

concat-extend : (c : ℕ) (words : List Text) → concat (extend_word c words) ≡ c ∷ concat words
unfolding extend_word
concat-extend c [] = refl
concat-extend c (w ∷ words) = refl

split-letters : (s : Text) → letters (concat (split_words s)) ≡ letters s
unfolding split_words
split-letters [] = refl
split-letters (c ∷ s) = elim (Bool-cases (nat_eq c b' ')) [
  | inl e ↦ rw (e, split_words) (split-letters s)
  | inr e ↦
      rw (e, split_words, concat-extend c (split_words s))
        (rw e (ap (λ (r : Text). c ∷ r) (split-letters s)))
]

joined-letters : (cur word : Text) → letters (joined cur word) ≡ letters cur ++ letters word
unfolding joined
joined-letters [] word = refl
joined-letters (c ∷ cur) word = letters-append (c ∷ cur) (b' ' ∷ word)

commit-concat : (cur : Text) → concat (commit cur) ≡ cur
unfolding commit
commit-concat [] = refl
commit-concat (c ∷ cur) = append-nil (c ∷ cur)

rows-letters :
    (ts us : List Text) → letters (concat (ts ++ us)) ≡ letters (concat ts) ++ letters (concat us)
rows-letters ts us = ap letters (concat-append ts us) ∙ letters-append (concat ts) (concat us)

module _ (fits : Text → Bool) where
  -- A row that fits, or one rune, which is drawn even if it does not.
  abbrev pub IsRow : Text → Type 0
  IsRow row = (fits row ≡ true) ⊎ (length row ≤ 1)

  longer-IsRow :
      (chunk : Text) (r : ℕ)
      → (fits (chunk ++ r ∷ []) || is_empty chunk) ≡ true
      → IsRow (chunk ++ r ∷ [])
  longer-IsRow [] r h = inr (omega arith)
  longer-IsRow (c ∷ chunk) r h = inl (ground arith)

  break-concat :
      (chunk word : Text)
      → concat (break_word fits chunk word).0 ++ (break_word fits chunk word).1 ≡ chunk ++ word
  unfolding break_word
  break-concat chunk [] = sym (append-nil chunk)
  break-concat chunk (r ∷ word) = elim (Bool-cases (fits (chunk ++ r ∷ []) || is_empty chunk)) [
    | inl e ↦
        rw (e, break_word) (break-concat (chunk ++ r ∷ []) word ∙ append_assoc chunk (r ∷ []) word)
    | inr e ↦
        rw (e, break_word)
          (append_assoc chunk (concat (break_word fits (r ∷ []) word).0)
              (break_word fits (r ∷ []) word).1
            ∙ ap (λ (t : Text). chunk ++ t) (break-concat (r ∷ []) word))
  ]

  wrap-letters :
      (cur : Text) (words : List Text)
      → letters (concat (wrap_words fits cur words)) ≡ letters cur ++ letters (concat words)
  unfolding wrap_words
  wrap-letters cur [] = letters-append cur []
  wrap-letters cur (word ∷ words) =
      let after = letters (concat words) in
      let (rows, last) = break_word fits [] word in
      let word_after : letters word ++ after ≡ letters (word ++ concat words) =
        sym (letters-append word (concat words)) in
      elim (Bool-cases (fits (joined cur word))) [
        | inl e ↦
            rw (e, wrap_words)
              (wrap-letters (joined cur word) words
                ∙ ap (λ (t : Text). t ++ after) (joined-letters cur word)
                ∙ append_assoc (letters cur) (letters word) after
                ∙ ap (λ (t : Text). letters cur ++ t) word_after)
        | inr e ↦ elim (Bool-cases (fits word)) [
          | inl q ↦
              rw (e, q, wrap_words)
                (rows-letters (commit cur) (wrap_words fits word words)
                  ∙ ap (λ (t : Text). letters t ++ letters (concat (wrap_words fits word words)))
                      (commit-concat cur)
                  ∙ ap (λ (t : Text). letters cur ++ t) (wrap-letters word words ∙ word_after))
          | inr q ↦
              rw (e, q, wrap_words)
                (rows-letters (commit cur) (rows ++ wrap_words fits last words)
                  ∙ ap
                      (λ (t : Text).
                        letters t ++ letters (concat (rows ++ wrap_words fits last words)))
                      (commit-concat cur)
                  ∙ ap (λ (t : Text). letters cur ++ t)
                      (rows-letters rows (wrap_words fits last words)
                        ∙ ap (λ (t : Text). letters (concat rows) ++ t) (wrap-letters last words)
                        ∙ sym (append_assoc (letters (concat rows)) (letters last) after)
                        ∙ ap (λ (t : Text). t ++ after)
                            (sym (letters-append (concat rows) last)
                              ∙ ap letters (break-concat [] word))
                        ∙ word_after))
        ]
      ]

  break-IsRow :
      (chunk word : Text)
      → IsRow chunk
      → All IsRow (break_word fits chunk word).0 × IsRow (break_word fits chunk word).1
  unfolding break_word
  break-IsRow chunk [] h = (tt, h)
  break-IsRow chunk (r ∷ word) h = elim (Bool-cases (fits (chunk ++ r ∷ []) || is_empty chunk)) [
    | inl e ↦ rw (e, break_word) (break-IsRow (chunk ++ r ∷ []) word (longer-IsRow chunk r e))
    | inr e ↦
        let (rows, last) = break-IsRow (r ∷ []) word (inr (omega arith)) in
        rw (e, break_word) ((h, rows), last)
  ]

  commit-IsRow : (cur : Text) → IsRow cur → All IsRow (commit cur)
  unfolding commit
  commit-IsRow [] h = tt
  commit-IsRow (c ∷ cur) h = (h, tt)

  wrap-IsRow : (cur : Text) (words : List Text) → IsRow cur → All IsRow (wrap_words fits cur words)
  unfolding wrap_words
  wrap-IsRow cur [] h = (h, tt)
  wrap-IsRow cur (word ∷ words) h = elim (Bool-cases (fits (joined cur word))) [
    | inl e ↦ rw (e, wrap_words) (wrap-IsRow (joined cur word) words (inl e))
    | inr e ↦ elim (Bool-cases (fits word)) [
      | inl q ↦
          rw (e, q, wrap_words)
            (All-append IsRow (commit cur) _ (commit-IsRow cur h) (wrap-IsRow word words (inl q)))
      | inr q ↦
          let (rows, last) = break-IsRow [] word (inr (omega arith)) in
          rw (e, q, wrap_words)
            (All-append IsRow (commit cur) _ (commit-IsRow cur h) (
              All-append IsRow (break_word fits [] word).0 _ rows
                (wrap-IsRow (break_word fits [] word).1 words last)))
    ]
  ]

  -- Wrapping loses and changes nothing but spaces, and every row fits the width or is one rune, given
  -- any font.
  pub wrap_to_width-IsWrapped :
      (s : Text)
      → (letters (concat (wrap_to_width fits s)) ≡ letters s) × All IsRow (wrap_to_width fits s)
  unfolding wrap_to_width
  wrap_to_width-IsWrapped s = (
    wrap-letters [] (split_words s) ∙ split-letters s,
    wrap-IsRow [] (split_words s) (inr (omega arith)),
  )
