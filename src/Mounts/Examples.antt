-- ===== src/Mounts/Examples.antt =====
-- lib/mounts.c: the theorems at a point with three mounts.
use autofs.Prelude.{Bool, List, true, false, [], ◌∷◌, some, ◌≡◌, ◌↔◌, refl, In}
use autofs.Text.{Bytes, codes, equal, hash}
use autofs.ParseSubs.{ends_slash}
use autofs.Mounts.Tree.{Tree, leaf, node}
use autofs.Mounts.Offsets.{Offset, strcmp, tree_mapent_cmp, tree_mapent_traverse_subtree}
use autofs.Mounts.Offsets.Order.{tree_mapent_cmp-strcmp}
use autofs.Mounts.Offsets.Visits.{members, stopped, work_on, tree_mapent_traverse_subtree-members}
use autofs.Mounts.{MntList, Mounts, get_mount, mnts_lookup}
use autofs.Mounts.Expire.{is_mounted_mount, mnts_get_expire_list, mnts_put_expire_list}
use autofs.Mounts.Expire.Order.{IsDeepFirst, mnts_get_expire_list-IsDeepFirst}
use autofs.Mounts.Expire.Users.{users, mnts_put_expire_list-users}

abbrev mounted : Bytes → MntList
mounted mp = record { mp = mp; flags = 0x0080; ref = 1; mount = some 0 }

abbrev three : Mounts
three = record {
  mnts_hash =
      λ i. mounted (codes "/net/a/") ∷ mounted (codes "/net/a/b") ∷ mounted (codes "/net/a") ∷ [];
  mounts = λ i. codes "/net/a" ∷ codes "/net/a/" ∷ codes "/net/a/b" ∷ [];
}

expire_three : (mnts_get_expire_list [] 0 three).0 ≡ codes "/net/a/b" ∷ codes "/net/a" ∷ []
unfolding mnts_get_expire_list is_mounted_mount mnts_lookup equal get_mount hash ends_slash
expire_three = refl

mnts_get_expire_list-IsDeepFirst_example :
    let mnts = (mnts_get_expire_list [] 0 three).0 in
    IsDeepFirst mnts
    × ((mp : Bytes)
        → In mp mnts ↔ (
            In mp (three.mounts 0)
            × (is_mounted_mount (mnts_lookup three mp) ≡ true)
            × (ends_slash mp ≡ false)))
mnts_get_expire_list-IsDeepFirst_example = mnts_get_expire_list-IsDeepFirst 0 three

mnts_put_expire_list-users_example :
    let r = mnts_get_expire_list [] 0 three in
    users (mnts_lookup (mnts_put_expire_list r.0 r.1) (codes "/net/a/")) ≡ 2
unfolding mnts_lookup is_mounted_mount ends_slash equal
mnts_put_expire_list-users_example = mnts_put_expire_list-users 0 three (codes "/net/a/") refl refl

tree_mapent_cmp-strcmp_example :
    tree_mapent_cmp (codes "/a") (codes "/a/b") ≡ strcmp (codes "/a/b") (codes "/a")
tree_mapent_cmp-strcmp_example = tree_mapent_cmp-strcmp (codes "/a") (codes "/a/b")

-- Two offsets of the root /n.
abbrev offset_at : Bytes → Offset
offset_at key = record { key = key; mm_root = codes "/n"; mm_parent = codes "/n" }

abbrev two_offsets : Tree Offset
two_offsets = node (node leaf (offset_at (codes "/n/a")) leaf) (offset_at (codes "/n/b")) leaf

abbrev collect : Offset → List Bytes → Bool × List Bytes
collect oe keys = (false, oe.key ∷ keys)

tree_mapent_traverse_subtree-members_example :
    stopped true collect (tree_mapent_traverse_subtree true (codes "/n") collect two_offsets [])
    ≡ work_on true collect (members (codes "/n") two_offsets) []
tree_mapent_traverse_subtree-members_example =
    tree_mapent_traverse_subtree-members true collect (codes "/n") two_offsets []
