-- ===== src/Display/ServiceLog/Tail.antt =====
-- The log buffer beside the journal that it was fed.
use companion_mission_planne.Base.{
  ℕ, zero, suc, ◌+◌, ◌-◌, ◌≤◌, ◌≡◌, refl, sym, ◌∙◌, ap, inl, inr, arith, true, List, [], ◌∷◌, ◌++◌,
  Text, text_Eq, text_eq_iff, length, take, drop, ltb, length-drop, append_assoc, append-nil,
  Bool-cases,
}
use companion_mission_planne.Display.ServiceLog.{
  LogEntry, LogBuffer, new_log_buffer, ends_with, count_last, trim_front, push, push_all,
}

-- A line as often as it came.
abbrev times : ℕ → Text → List Text
times zero s = []
times (suc n) s = s ∷ times n s

-- The lines that a buffer stands for.
abbrev pub lines_of : List LogEntry → List Text
lines_of [] = []
lines_of (e ∷ buf) = times e.count e.text ++ lines_of buf

lines-append : (a b : List LogEntry) → lines_of (a ++ b) ≡ lines_of a ++ lines_of b
lines-append [] b = refl
lines-append (e ∷ a) b =
    ap (λ l. times e.count e.text ++ l) (lines-append a b)
    ∙ sym (append_assoc (times e.count e.text) (lines_of a) (lines_of b))

take-drop : (n : ℕ) (buf : List LogEntry) → take n buf ++ drop n buf ≡ buf
take-drop zero buf = refl
take-drop (suc n) [] = refl
take-drop (suc n) (e ∷ buf) = ap (λ l. e ∷ l) (take-drop n buf)

times-snoc : (n : ℕ) (s : Text) → times (n + 1) s ≡ times n s ++ s ∷ []
times-snoc zero s = refl
times-snoc (suc n) s =
    let shift : suc n + 1 ≡ suc (n + 1) = omega arith in rw shift (ap (λ l. s ∷ l) (times-snoc n s))

count-lines :
    (s : Text) (buf : List LogEntry)
    → ends_with s buf ≡ true
    → lines_of (count_last buf) ≡ lines_of buf ++ s ∷ []
unfolding ends_with count_last
count-lines s [] h = absurd (cc)
count-lines s (e ∷ []) h =
    let same : e.text ≡ s = (text_eq_iff e.text s).0 h in
    append-nil (times (e.count + 1) e.text)
    ∙ times-snoc e.count e.text
    ∙ ap (λ x. times e.count e.text ++ x ∷ []) same
    ∙ ap (λ l. l ++ s ∷ []) (sym (append-nil (times e.count e.text)))
count-lines s (e ∷ f ∷ buf) h =
    ap (λ l. times e.count e.text ++ l) (count-lines s (f ∷ buf) h)
    ∙ sym (append_assoc (times e.count e.text) (lines_of (f ∷ buf)) (s ∷ []))

count-length : (buf : List LogEntry) → length (count_last buf) ≡ length buf
unfolding count_last
count-length [] = refl
count-length (e ∷ []) = refl
count-length (e ∷ f ∷ buf) = ap suc (count-length (f ∷ buf))

-- A buffer within its bound that stands for the end of a journal.
abbrev pub IsTail : List Text → LogBuffer → Type 0
IsTail journal b =
    (length b.buf ≤ b.max) × ((lost : List Text) × (journal ≡ lost ++ lines_of b.buf))

trim-lines :
    (max : ℕ) (buf : List LogEntry)
    → (length (trim_front max buf) ≤ max)
      × ((lost : List Text) × (lines_of buf ≡ lost ++ lines_of (trim_front max buf)))
unfolding trim_front
trim-lines max buf = elim (Bool-cases (ltb max (length buf))) [
  | inl e ↦
      let n = length buf - max in
      rw e (
        omega (arith, length-drop n buf),
        (
          lines_of (take n buf),
          ap lines_of (sym (take-drop n buf)) ∙ lines-append (take n buf) (drop n buf),
        ),
      )
  | inr e ↦ rw e (ground (arith, e), ([], refl))
]

push-IsTail :
    (journal : List Text) (s : Text) (b : LogBuffer)
    → IsTail journal b
    → IsTail (journal ++ s ∷ []) (push s b)
unfolding push
push-IsTail journal s b (fits, (lost, q)) = elim (Bool-cases (ends_with s b.buf)) [
  | inl e ↦ rw e (
    omega (arith, fits, count-length b.buf),
    (
      lost,
      ap (λ l. l ++ s ∷ []) q
          ∙ append_assoc lost (lines_of b.buf) (s ∷ [])
          ∙ ap (λ l. lost ++ l) (sym (count-lines s b.buf e)),
    ),
  )
  | inr e ↦
      let added = b.buf ++ record { text = s; count = 1 } ∷ [] in
      let (bound, (more, p)) = trim-lines b.max added in
      rw e (
        bound,
        (
          lost ++ more,
          ap (λ l. l ++ s ∷ []) q
              ∙ append_assoc lost (lines_of b.buf) (s ∷ [])
              ∙ ap (λ l. lost ++ l)
                  (sym (lines-append b.buf (record { text = s; count = 1 } ∷ [])) ∙ p)
              ∙ sym (append_assoc lost more (lines_of (trim_front b.max added))),
        ),
      )
]

push_all_further :
    (journal lines : List Text) (b : LogBuffer)
    → IsTail journal b
    → IsTail (journal ++ lines) (push_all lines b)
unfolding push_all
push_all_further journal [] b h = rw (append-nil journal) h
push_all_further journal (s ∷ lines) b h =
    rw (← append_assoc journal (s ∷ []) lines)
      (push_all_further (journal ++ s ∷ []) lines (push s b) (push-IsTail journal s b h))

-- A buffer that has been fed a journal has at most its bound of entries, and with each line taken as
-- often as its count says they are the end of the journal: nothing is reordered or changed, and
-- lines are lost from the front only.
pub push_all-IsTail :
    (max : ℕ) (journal : List Text) → IsTail journal (push_all journal (new_log_buffer max))
unfolding new_log_buffer
push_all-IsTail max journal =
    push_all_further [] journal (new_log_buffer max) (omega arith, ([], refl))
