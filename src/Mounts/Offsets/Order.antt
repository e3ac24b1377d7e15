-- ===== src/Mounts/Offsets/Order.antt =====
-- lib/mounts.c: the comparison of offsets.
use autofs.Prelude.{true, false, [], ◌∷◌, ◌≡◌, refl, arith, ltb, length}
use autofs.Text.{Bytes, equal}
use autofs.Mounts.Tree.{more}
use autofs.Mounts.Offsets.{strcmp, equal_first, tree_mapent_cmp}

equal_first-shorter :
    (n me : Bytes) → equal_first (length n) me n ≡ true → ltb (length me) (length n) ≡ false
unfolding equal_first equal
equal_first-shorter [] me h = ground arith
equal_first-shorter (c ∷ n) [] h = absurd (ground arith)
equal_first-shorter (c ∷ n) (d ∷ me) h = ground (arith, equal_first-shorter n me)

equal_first-longer :
    (n me : Bytes)
    → equal_first (length n) me n ≡ true
    → ltb (length n) (length me) ≡ true
    → strcmp me n ≡ more
unfolding equal_first equal strcmp
equal_first-longer [] [] h k = absurd (ground arith)
equal_first-longer [] (d ∷ me) h k = refl
equal_first-longer (c ∷ n) [] h k = absurd (ground arith)
equal_first-longer (c ∷ n) (d ∷ me) h k = ground (arith, equal_first-longer n me)

-- The comparison of offsets, which looks for common beginnings of keys first, is that of `strcmp`.
pub tree_mapent_cmp-strcmp : (n me : Bytes) → tree_mapent_cmp n me ≡ strcmp me n
unfolding tree_mapent_cmp
tree_mapent_cmp-strcmp n me = ground (arith, equal_first-shorter n me, equal_first-longer n me)
