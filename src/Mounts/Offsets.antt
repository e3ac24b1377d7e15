-- ===== src/Mounts/Offsets.antt =====
-- lib/mounts.c: the trees of the offsets of multi mounts, by the keys of their entries.
pub mod Order
pub mod Visits
use autofs.Prelude.{
  ℕ, Bool, true, false, not, ◌&&◌, ◌||◌, [], ◌∷◌, Option, none, some, if◌then◌else◌, ltb, length,
  take,
}
use autofs.Text.{Bytes, equal}
use autofs.ParseSubs.{ends_slash}
use autofs.Mounts.Tree.{Cmp, less, same, more, Tree, leaf, node}

-- What `strcmp` answers: less than 0, 0, more.
unfoldable pub strcmp : (s t : Bytes) → Cmp
strcmp [] [] = same
strcmp [] (d ∷ t) = less
strcmp (c ∷ s) [] = more
strcmp (c ∷ s) (d ∷ t) =
    let rest = strcmp s t in if ltb c d then less else if ltb d c then more else rest

-- `strncmp(s, t, n) == 0`
unfoldable pub equal_first : ℕ → (s t : Bytes) → Bool
equal_first n s t = equal (take n s) (take n t)

unfoldable pub tree_mapent_cmp : (n me : Bytes) → Cmp
tree_mapent_cmp n me =
    if equal_first (length n) me n
    then if ltb (length me) (length n)
      then less
      else if ltb (length n) (length me)
      then more
      else strcmp me n
    else strcmp me n

unfoldable pub tree_host_cmp : (n dir : Bytes) → Cmp
tree_host_cmp n dir = elim (strcmp dir n) [
  | same ↦ same
  | _ ↦ if ltb (length dir) (length n) then less else more
]

-- An entry in a tree of offsets, by its key and the keys of the root of its tree and of its parent.
pub record Offset : Type 0 where
  pub key : Bytes
  pub mm_root : Bytes
  pub mm_parent : Bytes

abbrev pub cmp_offset : Offset → Offset → Cmp
cmp_offset n oe = tree_mapent_cmp n.key oe.key

unfoldable pub tree_mapent_is_root : Offset → Bool
tree_mapent_is_root oe = ends_slash oe.key || equal oe.mm_root oe.key

-- The entry is not the root, and part of the subtree of `base`.
abbrev pub in_subtree : (base : Bytes) → Offset → Bool
in_subtree base oe = not (tree_mapent_is_root oe) && equal oe.mm_parent base

-- `!ret && ctxt->strict`, where `none` is the -1 that `ret` starts with.
abbrev pub stops : (strict : Bool) → Option Bool → Bool
stops strict none = false
stops strict (some ret) = strict && not ret

-- `tree_mapent_traverse_subtree` at an entry, after the subtree on its left.
unfoldable pub visit {κ} :
    {S : Type κ}
    → (strict : Bool) → (base : Bytes) → (work : Offset → S → Bool × S) → Offset
    → Option Bool × S
    → Option Bool × S
visit strict base work oe (ret, s) =
    if stops strict ret
    then (ret, s)
    else if in_subtree base oe
    then (some (work oe s).0, (work oe s).1)
    else (ret, s)

-- The same at the subtree on its right; NULL leaves `ret` as it is.
abbrev pub then_right {κ} :
    {S : Type κ}
    → (strict : Bool) → (is_leaf : Bool) → (S → Option Bool × S)
    → Option Bool × S
    → Option Bool × S
then_right strict is_leaf next (ret, s) = if stops strict ret || is_leaf then (ret, s) else next s

abbrev pub is_leaf : Tree Offset → Bool
is_leaf leaf = true
is_leaf (node left oe right) = false

unfoldable pub tree_mapent_traverse_subtree {κ} :
    {S : Type κ}
    → (strict : Bool) → (base : Bytes) → (work : Offset → S → Bool × S) → Tree Offset
    → S
    → Option Bool × S
tree_mapent_traverse_subtree strict base work leaf s = (none, s)
tree_mapent_traverse_subtree strict base work (node left oe right) s =
    then_right strict (is_leaf right) (tree_mapent_traverse_subtree strict base work right)
      (visit strict base work oe (tree_mapent_traverse_subtree strict base work left s))
