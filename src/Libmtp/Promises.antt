-- ===== src/Libmtp/Promises.antt =====
-- The handle keeps the promises of MTP that internal/device relies on, where libmtp keeps them.
use mathlib.Core.Path.{subst}
use companion_mission_planne.Base.{
  ℕ, Bool, true, false, not, some, some-injective, List, [], ◌∷◌, ◌++◌, Text, text_Eq, nat_Eq,
  nat_eq, ok, ◌≡◌, refl, sym, ◌∙◌, ap, inl, inr, arith, Bool-cases, ◌==◌, length, keep_if,
}
use companion_mission_planne.Device.Mtp.{FileEntry}
use companion_mission_planne.Device.Mtp.Missions.RoundTrip.{IsMtp, without}
use companion_mission_planne.Libmtp.{
  Libmtp, RawFile, Temp, Device, meta_of, entry_of, walk_file_list, list_dir, delete_object,
}
use companion_mission_planne.Libmtp.Spool.{get_object_to, transport, or_nothing, failed}
use companion_mission_planne.Libmtp.Spool.Sent.{
  IsReliable, IsSent, put_file-IsSent, get_object_to-reads,
}

-- A file that libmtp has sent stands at the end of its folder's list, with its number, name and
-- content, and in no other folder; an object that it has deleted is in no list.
pub record IsLibmtp {D : Type 0} (lib : Libmtp D) : Type 0 where
  pub send_lists :
      (d d' : D) (meta : RawFile) (content : Text) (id : ℕ)
      → lib.send_file d meta content ≡ (d', ok id)
      → (f : RawFile) × (f.item_id ≡ id)
        × (f.filename ≡ meta.filename)
        × (lib.files_and_folders d' meta.storage_id meta.parent_id
            ≡ lib.files_and_folders d meta.storage_id meta.parent_id ++ f ∷ [])
        × (lib.get_file d' id ≡ ok content)
  pub send_frame :
      (d d' : D) (meta : RawFile) (content : Text) (id storage parent : ℕ)
      → lib.send_file d meta content ≡ (d', ok id)
      → (parent == meta.parent_id) ≡ false
      → lib.files_and_folders d' storage parent ≡ lib.files_and_folders d storage parent
  pub delete_lists :
      (d d' : D) (object storage parent : ℕ)
      → lib.delete_object d object ≡ (d', 0)
      → lib.files_and_folders d' storage parent
        ≡ keep_if
            (λ (f : RawFile). not (f.item_id == object))
            (lib.files_and_folders d storage parent)

walk-append :
    (storage : ℕ) (files : List RawFile) (f : RawFile)
    → walk_file_list storage (files ++ f ∷ [])
      ≡ walk_file_list storage files ++ entry_of storage f ∷ []
unfolding walk_file_list
walk-append storage [] f = refl
walk-append storage (g ∷ files) f =
    ap (λ (l : List FileEntry). entry_of storage g ∷ l) (walk-append storage files f)

walk-without :
    (storage : ℕ) (e : FileEntry) (files : List RawFile)
    → walk_file_list storage (keep_if (λ (f : RawFile). not (f.item_id == e.object_id)) files)
      ≡ without e (walk_file_list storage files)
unfolding walk_file_list entry_of
walk-without storage e [] = refl
walk-without storage e (f ∷ files) = elim (Bool-cases (f.item_id == e.object_id)) [
  | inl q ↦ rw q (walk-without storage e files)
  | inr q ↦
      rw q (ap (λ (l : List FileEntry). entry_of storage f ∷ l) (walk-without storage e files))
]

module _ {D : Type 0} (lib : Libmtp D) (temp : Device D → Temp) where
  -- What a folder of an open device lists.
  abbrev listed : Device D → FileEntry → List FileEntry
  listed x dir =
      walk_file_list dir.storage_id (lib.files_and_folders x.phone dir.storage_id dir.object_id)

  children-open :
      (x : Device D) (dir : FileEntry)
      → x.is_open ≡ true
      → (transport lib temp).children x dir ≡ some (listed x dir)
  unfolding transport list_dir or_nothing
  children-open x dir e = ground (arith, e)

  send-IsSent :
      (x x' : Device D) (dir : FileEntry) (name content : Text)
      → (transport lib temp).send x dir name content ≡ (x', false)
      → (x.is_open ≡ true) × IsSent lib x (meta_of dir name (length content)) content x'
  unfolding transport
  send-IsSent x x' dir name content h =
      let (e, sent) =
        put_file-IsSent lib (temp x) dir name (length content) content x
          (ap (λ (p : Device D × Bool). p.1) h) in
      (
        e,
        subst (IsSent lib x (meta_of dir name (length content)) content)
            (ap (λ (p : Device D × Bool). p.0) h) sent,
      )

  erase-deleted :
      (x x' : Device D) (e : FileEntry)
      → (transport lib temp).erase x e ≡ (x', false)
      → (x.is_open ≡ true)
        × (x'.is_open ≡ true)
        × (lib.delete_object x.phone e.object_id ≡ (x'.phone, 0))
  unfolding transport delete_object failed
  erase-deleted x x' e h =
      let p = lib.delete_object x.phone e.object_id in
      elim (Bool-cases x.is_open) [
        | inr o ↦ absurd (ground (arith, o, h))
        | inl o ↦ elim (Bool-cases (nat_eq p.1 0)) [
          | inr q ↦ absurd (ground (arith, o, q, h))
          | inl q ↦
              let left : record x { phone = p.0 } ≡ x' = ground (arith, o, h) in
              let none_refused : p.1 ≡ 0 = ground (arith, q) in
              (
                o,
                sym (ap (λ (y : Device D). y.is_open) left) ∙ o,
                ap (λ (n : ℕ). (p.0, n)) none_refused ∙ ap (λ (y : Device D). (y.phone, 0)) left,
              )
        ]
      ]

module _ {D : Type 0} (lib : Libmtp D) (laws : IsLibmtp lib) (temp : Device D → Temp) where
  -- The handle keeps the promises of MTP on which the calls of the registry rely, where libmtp keeps
  -- its own and temporary files can be made, written and read.
  pub transport-IsMtp : ((x : Device D) → IsReliable (temp x)) → IsMtp (transport lib temp)
  unfolding transport or_nothing meta_of entry_of
  transport-IsMtp reliable = record {
    send_lists = λ x x' dir name content entries h before.
        let (e, (id, sent, kept)) = send-IsSent lib temp x x' dir name content h in
        let (f, numbered, named, after, back) =
          laws.send_lists x.phone x'.phone (meta_of dir name (length content)) content id sent in
        let there : listed lib temp x dir ≡ entries =
          some-injective _ _ (sym (children-open lib temp x dir e) ∙ before) in
        let read : (get_object_to lib (temp x') x' f.item_id).1 ≡ ok content =
          get_object_to-reads lib (temp x') x' f.item_id content (reliable x') (kept ∙ e)
            (ap (lib.get_file x'.phone) numbered ∙ back) in
        (
          entry_of dir.storage_id f,
          named,
          children-open lib temp x' dir (kept ∙ e)
              ∙ ap (λ (l : List RawFile). some (walk_file_list dir.storage_id l)) after
              ∙ ap some (walk-append dir.storage_id _ f)
              ∙ ap (λ (l : List FileEntry). some (l ++ entry_of dir.storage_id f ∷ [])) there,
          ap or_nothing read,
        );
    send_frame = λ x x' dir other name content h apart.
        let (e, (id, sent, kept)) = send-IsSent lib temp x x' dir name content h in
        children-open lib temp x' other (kept ∙ e)
        ∙ ap (λ (l : List RawFile). some (walk_file_list other.storage_id l))
            (laws.send_frame x.phone x'.phone (meta_of dir name (length content)) content id
              other.storage_id other.object_id sent apart)
        ∙ sym (children-open lib temp x other e);
    erase_lists = λ x x' e dir entries h before.
        let (was_open, is_open, gone) = erase-deleted lib temp x x' e h in
        let there : listed lib temp x dir ≡ entries =
          some-injective _ _ (sym (children-open lib temp x dir was_open) ∙ before) in
        children-open lib temp x' dir is_open
        ∙ ap (λ (l : List RawFile). some (walk_file_list dir.storage_id l))
            (laws.delete_lists x.phone x'.phone e.object_id dir.storage_id dir.object_id gone)
        ∙ ap some (walk-without dir.storage_id e _)
        ∙ ap (λ (l : List FileEntry). some (without e l)) there;
  }
