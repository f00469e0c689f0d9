-- ===== src/Tests/Memory.antt =====
-- A device kept in memory that keeps the promises of MTP: each object with its folder's number.
use companion_mission_planne.Base.{
  ℕ, ◌+◌, ◌≡◌, refl, sym, ◌∙◌, ap, inl, inr, arith, Bool, false, not, Option, none, some,
  some-injective, List, [], ◌∷◌, ◌++◌, Text, text_Eq, length, map, keep_if, append-nil, nat_Eq,
  ◌==◌, ==_refl, if◌then◌else◌, Bool-cases,
}
use companion_mission_planne.Device.Mtp.{FileEntry, Transport}
use companion_mission_planne.Device.Mtp.Missions.RoundTrip.{IsMtp, without}

pub record Stored : Type 0 where
  pub parent : ℕ
  pub entry : FileEntry
  pub content : Text

abbrev pub Memory : Type 0
Memory = List Stored

-- What stands in a folder; the storages stand in folder 0.
abbrev pub listed : ℕ → Memory → List FileEntry
listed n m = map (λ (s : Stored). s.entry) (keep_if (λ (s : Stored). s.parent == n) m)

-- The newest object of a number.
abbrev pub content_of : ℕ → Memory → Option Text
content_of n [] = none
content_of n (s ∷ m) = elim (content_of n m) [
  | some c ↦ some c
  | none ↦ if s.entry.object_id == n then some s.content else none
]

abbrev pub sent_entry : Memory → FileEntry → Text → Text → Stored
sent_entry m dir name content = record {
  parent = dir.object_id;
  entry = record {
    object_id = 1000 + length m;
    storage_id = dir.storage_id;
    parent_id = dir.object_id;
    name = name;
    size = length content;
    modified_at = 0;
    is_folder = false;
  };
  content = content;
}

abbrev pub memory : Transport Memory
memory = record {
  storages = λ m. some (listed 0 m);
  children = λ m dir. some (listed dir.object_id m);
  fetch = λ m n. content_of n m;
  thumbnail = λ m n. none;
  partial = λ m n k. none;
  send = λ m dir name content. (m ++ sent_entry m dir name content ∷ [], false);
  erase = λ m e. (keep_if (λ (s : Stored). not (s.entry.object_id == e.object_id)) m, false);
}

listed-append :
    (n : ℕ) (m : Memory) (s : Stored)
    → listed n (m ++ s ∷ []) ≡ listed n m ++ (if s.parent == n then s.entry ∷ [] else [])
listed-append n [] s = elim (Bool-cases (s.parent == n)) [ inl e ↦ rw e refl | inr e ↦ rw e refl ]
listed-append n (x ∷ m) s = elim (Bool-cases (x.parent == n)) [
  | inl e ↦ rw e (ap (λ l. x.entry ∷ l) (listed-append n m s))
  | inr e ↦ rw e (listed-append n m s)
]

content-append :
    (m : Memory) (s : Stored) → content_of s.entry.object_id (m ++ s ∷ []) ≡ some s.content
content-append [] s = rw (==_refl s.entry.object_id) refl
content-append (x ∷ m) s = rw (content-append m s) refl

listed-erase :
    (n : ℕ) (e : FileEntry) (m : Memory)
    → listed n (keep_if (λ (s : Stored). not (s.entry.object_id == e.object_id)) m)
      ≡ without e (listed n m)
listed-erase n e [] = refl
listed-erase n e (s ∷ m) = ground (arith, listed-erase n e m)

pub memory-IsMtp : IsMtp memory
memory-IsMtp = record {
  send_lists = λ d d' dir name content entries h q.
      let s = sent_entry d dir name content in
      let after : d ++ s ∷ [] ≡ d' = ap (λ p. p.0) h in
      (
        s.entry,
        refl,
        ap (λ (m : Memory). some (listed dir.object_id m)) (sym after)
            ∙ ap some (
                listed-append dir.object_id d s
                ∙ rw (==_refl dir.object_id) (ap (λ l. l ++ s.entry ∷ []) (some-injective _ _ q))),
        ap (content_of s.entry.object_id) (sym after) ∙ content-append d s,
      );
  send_frame = λ d d' dir other name content h apart.
      let s = sent_entry d dir name content in
      let elsewhere : (dir.object_id == other.object_id) ≡ false = ground (arith, apart) in
      ap (λ (p : Memory × Bool). some (listed other.object_id p.0)) (sym h)
      ∙ ap some (
          listed-append other.object_id d s ∙ rw elsewhere (append-nil (listed other.object_id d)));
  erase_lists = λ d d' e dir entries h q.
      ap (λ (p : Memory × Bool). some (listed dir.object_id p.0)) (sym h)
      ∙ ap some (listed-erase dir.object_id e d ∙ ap (without e) (some-injective _ _ q));
}
