-- ===== src/Tests/Usb.antt =====
-- A libmtp that keeps its objects in memory and keeps its promises, and the handle over it.
use mathlib.Core.Path.{subst}
use companion_mission_planne.Base.{
  ℕ, ◌+◌, ◌≡◌, refl, sym, ◌∙◌, ap, inl, inr, arith, Bool, true, false, not, ◌&&◌, Option, none,
  some, some-injective, List, [], ◌∷◌, ◌++◌, Text, text_Eq, text_eq, codes, length, map, keep_if,
  nat_Eq, ◌==◌, ==_refl, Result, ok, err, ok-injective, append-nil, Bool-cases, if◌then◌else◌,
}
use companion_mission_planne.Base.Table
use companion_mission_planne.Device.Mtp.{FileEntry}
use companion_mission_planne.Device.Mtp.Missions.RoundTrip.{IsMtp}
use companion_mission_planne.Libmtp.{Libmtp, RawFile, Temp, Device}
use companion_mission_planne.Libmtp.Spool.{transport, get_object_to, put_file}
use companion_mission_planne.Libmtp.Spool.Clean.{spool-IsClean, IsClean, AreClean}
use companion_mission_planne.Libmtp.Opening.{bus_dev_string}
use companion_mission_planne.Libmtp.Promises.{IsLibmtp, transport-IsMtp}

pub record Object : Type 0 where
  pub file : RawFile
  pub content : Text

abbrev Phone : Type 0
Phone = List Object

abbrev is_in : ℕ → ℕ → RawFile → Bool
is_in storage parent f = (f.storage_id == storage) && (f.parent_id == parent)

abbrev files_in : ℕ → ℕ → Phone → List RawFile
files_in storage parent m = keep_if (is_in storage parent) (map (λ (o : Object). o.file) m)

-- The newest object of a number.
abbrev content_of : ℕ → Phone → Result ℕ Text
content_of n [] = err 1
content_of n (o ∷ m) = elim (content_of n m) [
  | ok c ↦ ok c
  | err rc ↦ if o.file.item_id == n then ok o.content else err rc
]

abbrev stored : Phone → RawFile → Text → Object
stored m meta content = record {
  file = record meta { item_id = 100 + length m };
  content = content;
}

abbrev lib : Libmtp Phone
lib = record {
  storage_list = λ m. record { id = 1; description = none } ∷ [];
  files_and_folders = λ m storage parent. files_in storage parent m;
  get_file = λ m n. content_of n m;
  get_thumbnail = λ m n. record { rc = 1; buffer = none };
  get_partial_object = λ m n offset k. record { rc = 1; buffer = none };
  new_file = λ m. true;
  send_file = λ m meta content. (m ++ stored m meta content ∷ [], ok (100 + length m));
  delete_object = λ m n. (keep_if (λ (o : Object). not (o.file.item_id == n)) m, 0);
  probe = λ m. true;
}

files-append :
    (storage parent : ℕ) (m : Phone) (o : Object)
    → files_in storage parent (m ++ o ∷ [])
      ≡ files_in storage parent m ++ (if is_in storage parent o.file then o.file ∷ [] else [])
files-append storage parent [] o = refl
files-append storage parent (p ∷ m) o = elim (Bool-cases (is_in storage parent p.file)) [
  | inl e ↦ rw e (ap (λ (l : List RawFile). p.file ∷ l) (files-append storage parent m o))
  | inr e ↦ rw e (files-append storage parent m o)
]

content-append : (m : Phone) (o : Object) → content_of o.file.item_id (m ++ o ∷ []) ≡ ok o.content
content-append [] o = rw (==_refl o.file.item_id) refl
content-append (p ∷ m) o = rw (content-append m o) refl

files-delete :
    (storage parent n : ℕ) (m : Phone)
    → files_in storage parent (keep_if (λ (o : Object). not (o.file.item_id == n)) m)
      ≡ keep_if (λ (f : RawFile). not (f.item_id == n)) (files_in storage parent m)
files-delete storage parent n [] = refl
files-delete storage parent n (o ∷ m) =
    let rest = files-delete storage parent n m in
    elim (Bool-cases (is_in storage parent o.file)) [
      | inl e ↦ elim (Bool-cases (o.file.item_id == n)) [
        | inl q ↦ ground (arith, e, q, rest)
        | inr q ↦ ground (arith, e, q, rest)
      ]
      | inr e ↦ ground (arith, e, rest)
    ]

lib-IsLibmtp : IsLibmtp lib
lib-IsLibmtp = record {
  send_lists = λ d d' meta content id h.
      let o = stored d meta content in
      let after : d ++ o ∷ [] ≡ d' = ap (λ p. p.0) h in
      let numbered : 100 + length d ≡ id = ok-injective (ap (λ (p : Phone × Result ℕ ℕ). p.1) h) in
      let here : is_in meta.storage_id meta.parent_id o.file ≡ true = ground arith in
      (
        o.file,
        numbered,
        refl,
        ap (files_in meta.storage_id meta.parent_id) (sym after)
            ∙ files-append meta.storage_id meta.parent_id d o
            ∙ rw here refl,
        ap (λ (n : ℕ). content_of n d') (sym numbered)
            ∙ ap (content_of (100 + length d)) (sym after)
            ∙ content-append d o,
      );
  send_frame = λ d d' meta content id storage parent h apart.
      let o = stored d meta content in
      let elsewhere : is_in storage parent o.file ≡ false = ground (arith, apart) in
      ap (λ (p : Phone × Result ℕ ℕ). files_in storage parent p.0) (sym h)
      ∙ files-append storage parent d o
      ∙ rw elsewhere (append-nil (files_in storage parent d));
  delete_lists = λ d d' object storage parent h.
      ap (λ (p : Phone × ℕ). files_in storage parent p.0) (sym h)
      ∙ files-delete storage parent object d;
}

-- Temporary files that can be made, written and read.
abbrev temp : Temp
temp = record {
  name = some (codes "/tmp/kam-mtp-put-1");
  copy_fails = false;
  sync_fails = false;
  open_fails = false;
  remove_fails = false;
}

transport-IsMtp_example : IsMtp (transport lib (λ x. temp))
transport-IsMtp_example =
    transport-IsMtp lib lib-IsLibmtp (λ x. temp)
      (λ x. ((codes "/tmp/kam-mtp-put-1", refl), refl, refl))

abbrev handle : Device Phone
handle = record { is_open = true; phone = []; files = (codes "/tmp/other", []) ∷ [] }

fresh : (tmp : Text) → temp.name ≡ some tmp → Table.has tmp handle.files ≡ false
unfolding Table.has text_eq
fresh tmp e = subst (λ (s : Text). Table.has s handle.files ≡ false) (some-injective _ _ e) refl

spool-IsClean_example :
    ((object : ℕ) → IsClean lib temp handle (get_object_to lib temp handle object).0)
    × ((parent : Option FileEntry) (name : Text) (size : ℕ) (content : Text)
        → AreClean lib temp handle.files
            (put_file lib temp handle parent name size content).0.files)
spool-IsClean_example = spool-IsClean lib temp handle fresh

-- The bus and the number of a device as GVFS writes them.
padded : bus_dev_string 1 29 ≡ codes "001,029"
unfolding bus_dev_string
padded = refl
