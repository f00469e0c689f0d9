-- ===== src/Blockdev/Usb.antt =====
-- Which of the listed block devices are taken as USB volumes.
use mathlib.Core.Path.{subst}
use companion_mission_planne.Base.{
  ◌≡◌, refl, ◌∙◌, ap, inl, inr, arith, Bool, false, not, ◌&&◌, ◌||◌, some, List, [], ◌∷◌, Text,
  text_Eq, text_eq, text_eq_iff, codes, map, elem, any, keep_if, is_empty, IsDistinct, ◌==◌,
  if◌then◌else◌, Bool-cases,
}
use companion_mission_planne.Base.Table
use companion_mission_planne.Base.Table.{Table, get-put}
use companion_mission_planne.Blockdev.{
  LsblkNode, trans_by_name, tran_is_usb, is_usb, mountable, volume_of, collect_volumes, parse_lsblk,
}

-- The node of that kernel name is on the USB bus.
abbrev pub is_usb_node : Text → LsblkNode → Bool
is_usb_node name n = (n.name == name) && text_eq n.tran (codes "usb")

abbrev pub names_of : List LsblkNode → List Text
names_of = map (λ (n : LsblkNode). n.name)

any-absent :
    (name : Text) (nodes : List LsblkNode)
    → elem name (names_of nodes) ≡ false
    → any (is_usb_node name) nodes ≡ false
any-absent name [] h = refl
any-absent name (n ∷ nodes) h = ground (arith, h, any-absent name nodes)

tran-any :
    (name : Text) (m : Table Text Text) (nodes : List LsblkNode)
    → IsDistinct (names_of nodes)
    → tran_is_usb (trans_by_name m nodes) name
      ≡ (if elem name (names_of nodes) then any (is_usb_node name) nodes else tran_is_usb m name)
unfolding trans_by_name tran_is_usb
tran-any name m [] u = refl
tran-any name m (n ∷ nodes) (fresh, u) = elim (Bool-cases (text_eq n.name name)) [
  | inl e ↦
      let absent : elem name (names_of nodes) ≡ false =
        subst (λ x. elem x (names_of nodes) ≡ false) ((text_eq_iff n.name name).0 e) fresh in
      tran-any name (Table.put n.name n.tran m) nodes u
      ∙ ground (arith, e, absent, any-absent name nodes absent, get-put n.name name n.tran m)
  | inr e ↦
      tran-any name (Table.put n.name n.tran m) nodes u
      ∙ ground (arith, e, get-put n.name name n.tran m)
]

-- What makes a node a volume: a file system that cameras use, on the USB bus by itself or by the
-- disk that it is a partition of.
abbrev pub is_usb_volume : List LsblkNode → LsblkNode → Bool
is_usb_volume nodes n =
    mountable n.fs_type
    && (text_eq n.tran (codes "usb")
        || not (is_empty n.pk_name) && any (is_usb_node n.pk_name) nodes)

is_usb-any :
    (nodes : List LsblkNode) (n : LsblkNode)
    → IsDistinct (names_of nodes)
    → is_usb n (trans_by_name [] nodes) ≡ (
        text_eq n.tran (codes "usb")
        || not (is_empty n.pk_name) && any (is_usb_node n.pk_name) nodes)
unfolding is_usb tran_is_usb Table.get
is_usb-any nodes n u = ground (arith, tran-any n.pk_name [] nodes u, any-absent n.pk_name nodes)

collect-kept :
    (all nodes : List LsblkNode)
    → IsDistinct (names_of all)
    → collect_volumes (trans_by_name [] all) nodes
      ≡ map volume_of (keep_if (is_usb_volume all) nodes)
unfolding collect_volumes
collect-kept all [] u = refl
collect-kept all (n ∷ nodes) u = ground (arith, is_usb-any all n u, collect-kept all nodes u)

-- Where the listed devices have distinct kernel names, `parseLsblk` returns one volume for each
-- node that has a file system of a camera and is on the USB bus, by its own transport or by that
-- of the disk that it is a partition of, in the order of the list.
pub parse_lsblk-usb :
    (nodes : List LsblkNode)
    → IsDistinct (names_of nodes)
    → parse_lsblk (some nodes) ≡ some (map volume_of (keep_if (is_usb_volume nodes) nodes))
unfolding parse_lsblk
parse_lsblk-usb nodes u = ap some (collect-kept nodes nodes u)
