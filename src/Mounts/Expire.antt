-- ===== src/Mounts/Expire.antt =====
-- lib/mounts.c: the list of mounts to expire.
pub mod Order
pub mod Users
use autofs.Prelude.{
  ℕ, Bool, true, false, List, [], ◌∷◌, Option, none, some, if◌then◌else◌, ltb, length,
}
use autofs.Text.{Bytes, equal}
use autofs.ParseSubs.{ends_slash}
use autofs.Mounts.{MntList, Mounts, mnts_mounted, has_flag, mnts_lookup, get_mount, put_mount}
use autofs.Mounts.Tree.{Cmp, less, same, more, Tree, leaf, tree_add_node, tree_traverse_inorder}

unfoldable pub tree_mnt_cmp : (n mnt : Bytes) → Cmp
tree_mnt_cmp n mnt =
    if equal mnt n then same else if ltb (length mnt) (length n) then less else more

-- `list_add` puts the mount in front.
abbrev pub push_expire : Bytes → List Bytes → List Bytes
push_expire mp mnts = if ends_slash mp then mnts else mp ∷ mnts

abbrev pub tree_mnt_expire_list_work : Bytes → List Bytes → Bool × List Bytes
tree_mnt_expire_list_work mp mnts = (true, push_expire mp mnts)

-- `mnt->flags & MNTS_MOUNTED`
unfoldable pub is_mounted_mount : Option MntList → Bool
unfolding has_flag
is_mounted_mount none = false
is_mounted_mount (some this) = has_flag this.flags mnts_mounted

-- The loop over the mounts of a point.
unfoldable pub expire_loop : List Bytes → Mounts → Tree Bytes → Tree Bytes × Mounts
unfolding tree_add_node tree_mnt_cmp
expire_loop [] m tree = (tree, m)
expire_loop (mp ∷ next) m tree = elim (is_mounted_mount (mnts_lookup m mp)) [
  | false ↦ expire_loop next m tree
  | true ↦ expire_loop next (get_mount mp m) (tree_add_node tree_mnt_cmp mp tree)
]

unfoldable pub mnts_get_expire_list : (mnts : List Bytes) → (ap : ℕ) → Mounts → List Bytes × Mounts
unfolding tree_traverse_inorder expire_loop
mnts_get_expire_list mnts ap m =
    let r = expire_loop (m.mounts ap) m leaf in
    ((tree_traverse_inorder tree_mnt_expire_list_work r.0 mnts).1, r.1)

unfoldable pub mnts_put_expire_list : (mnts : List Bytes) → Mounts → Mounts
unfolding put_mount
mnts_put_expire_list [] m = m
mnts_put_expire_list (mnt ∷ mnts) m = mnts_put_expire_list mnts (put_mount mnt m)
