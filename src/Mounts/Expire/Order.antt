-- ===== src/Mounts/Expire/Order.antt =====
-- lib/mounts.c: the order and the members of the list of mounts to expire.
use autofs.Prelude.{
  ℕ, ◌+◌, ◌<◌, ◌≤◌, Bool, true, false, List, [], ◌∷◌, ◌≡◌, ◌↔◌, ◌⊎◌, inl, inr, refl, sym, ap, ◌∙◌,
  arith, if◌then◌else◌, length, All, In, Bool-cases, ==_iff, ◌==◌,
}
use autofs.Text.{Bytes, equal_iff}
use autofs.ParseSubs.{ends_slash}
use autofs.Mounts.{MntList, Mounts, bucket_of, find_mount, change_mount, mnts_lookup, get_mount}
use autofs.Mounts.Tree.{
  less, same, more, Tree, leaf, node, TreeAll, TreeIn, IsTree, Compares, tree_add_node,
  unless_stopped, tree_traverse_inorder, tree_add_node-IsTree, tree_add_node-In,
}
use autofs.Mounts.Expire.{
  tree_mnt_cmp, push_expire, tree_mnt_expire_list_work, is_mounted_mount, expire_loop,
  mnts_get_expire_list,
}

tree_mnt_cmp-cases :
    (n mnt : Bytes)
    → ((tree_mnt_cmp n mnt ≡ same) × (n ≡ mnt))
      ⊎ (((tree_mnt_cmp n mnt ≡ less) × (length mnt < length n))
          ⊎ ((tree_mnt_cmp n mnt ≡ more) × (length n ≤ length mnt)))
unfolding tree_mnt_cmp
tree_mnt_cmp-cases n mnt = ground (arith, equal_iff mnt n)

tree_mnt_cmp-Compares : Compares length tree_mnt_cmp
tree_mnt_cmp-Compares = record {
  less_of = λ n a e. ground (arith, tree_mnt_cmp-cases n a);
  same_of = λ n a e. ground (arith, tree_mnt_cmp-cases n a);
  more_of = λ n a e. ground (arith, tree_mnt_cmp-cases n a);
}

-- The list that a traversal leaves.
unfoldable push_all : Tree Bytes → List Bytes → List Bytes
push_all leaf mnts = mnts
push_all (node left mp right) mnts = push_all right (push_expire mp (push_all left mnts))

traverse-push_all :
    (t : Tree Bytes) (mnts : List Bytes)
    → tree_traverse_inorder tree_mnt_expire_list_work t mnts ≡ (true, push_all t mnts)
unfolding tree_traverse_inorder push_all unless_stopped
traverse-push_all leaf mnts = refl
traverse-push_all (node left mp right) mnts =
    rw (traverse-push_all left mnts) (traverse-push_all right (push_expire mp (push_all left mnts)))

-- Longer paths stand in front.
abbrev pub IsDeepFirst : List Bytes → Type 0
IsDeepFirst [] = Unit
IsDeepFirst (mp ∷ mnts) = All (λ q. length q ≤ length mp) mnts × IsDeepFirst mnts

push_all-All :
    (P : Bytes → Type 0) (t : Tree Bytes) (mnts : List Bytes)
    → TreeAll P t
    → All P mnts
    → All P (push_all t mnts)
unfolding push_all
push_all-All P leaf mnts h k = k
push_all-All P (node left mp right) mnts (l, a, r) k =
    push_all-All P right _ r (pushed (ends_slash mp) _ (push_all-All P left mnts l k))
  where
    pushed : (b : Bool) (mnts' : List Bytes) → All P mnts' → All P (if b then mnts' else mp ∷ mnts')
    pushed true mnts' k = k
    pushed false mnts' k = (a, k)

push_expire-IsDeepFirst :
    (mp : Bytes) (mnts : List Bytes)
    → All (λ q. length q ≤ length mp) mnts
    → IsDeepFirst mnts
    → IsDeepFirst (push_expire mp mnts)
push_expire-IsDeepFirst mp mnts h k = pushed (ends_slash mp)
  where
    pushed : (b : Bool) → IsDeepFirst (if b then mnts else mp ∷ mnts)
    pushed true = k
    pushed false = (h, k)

push_expire-All :
    (P : Bytes → Type 0) (mp : Bytes) (mnts : List Bytes)
    → P mp
    → All P mnts
    → All P (push_expire mp mnts)
push_expire-All P mp mnts h k = pushed (ends_slash mp)
  where
    pushed : (b : Bool) → All P (if b then mnts else mp ∷ mnts)
    pushed true = k
    pushed false = (h, k)

-- No path that is longer than `a` stands in the list.
abbrev AtMost : List Bytes → Bytes → Type 0
AtMost mnts a = All (λ q. length q ≤ length a) mnts

All-weaken :
    (mnts : List Bytes) (m n : ℕ)
    → m ≤ n
    → All (λ q. length q ≤ m) mnts
    → All (λ q. length q ≤ n) mnts
All-weaken [] m n h k = tt
All-weaken (q ∷ mnts) m n h k = (omega arith, All-weaken mnts m n h k.1)

TreeAll-map :
    {P Q : Bytes → Type 0} (t : Tree Bytes) → ((a : Bytes) → P a → Q a) → TreeAll P t → TreeAll Q t
TreeAll-map leaf f h = tt
TreeAll-map (node l a r) f (hl, h, hr) = (TreeAll-map l f hl, f a h, TreeAll-map r f hr)

push_all-IsDeepFirst :
    (t : Tree Bytes) (mnts : List Bytes)
    → IsTree length t
    → IsDeepFirst mnts
    → TreeAll (AtMost mnts) t
    → IsDeepFirst (push_all t mnts)
unfolding push_all
push_all-IsDeepFirst leaf mnts h k b = k
push_all-IsDeepFirst (node l a r) mnts (tl, below, above, tr) k (bl, b, br) =
    let mnts₁ = push_all l mnts in
    let b₁ : AtMost mnts₁ a =
      push_all-All (λ q. length q ≤ length a) l mnts (TreeAll-map l (λ q i. omega arith) below) b in
    let b₂ : AtMost (push_expire a mnts₁) a = push_expire-All _ a mnts₁ (omega arith) b₁ in
    push_all-IsDeepFirst r (push_expire a mnts₁) tr
      (push_expire-IsDeepFirst a mnts₁ b₁ (push_all-IsDeepFirst l mnts tl k bl))
      (TreeAll-map r (λ q i. All-weaken _ (length a) (length q) i b₂) above)

push_all-In :
    (q : Bytes) (t : Tree Bytes) (mnts : List Bytes)
    → In q (push_all t mnts) ↔ (In q mnts ⊎ (TreeIn q t × (ends_slash q ≡ false)))
unfolding push_all
push_all-In q leaf mnts = ground arith
push_all-In q (node l a r) mnts =
    ground (arith, push_all-In q r (push_expire a (push_all l mnts)), push_all-In q l mnts)

-- A use of a mount changes for no path whether it is mounted.
find_mount-used :
    (p q : Bytes) (l : List MntList)
    → is_mounted_mount
        (find_mount q (change_mount (λ this. record this { ref = this.ref + 1 }) p l))
      ≡ is_mounted_mount (find_mount q l)
unfolding find_mount change_mount is_mounted_mount
find_mount-used p q [] = refl
find_mount-used p q (this ∷ l) =
    ground (arith, find_mount-used p q l, equal_iff p this.mp, equal_iff q this.mp)

pub is_mounted_mount-get_mount :
    (p q : Bytes) (m : Mounts)
    → is_mounted_mount (mnts_lookup (get_mount p m) q) ≡ is_mounted_mount (mnts_lookup m q)
unfolding get_mount mnts_lookup
is_mounted_mount-get_mount p q m = elim (Bool-cases (bucket_of q == bucket_of p)) [
  | inl e ↦ rw e (
      find_mount-used p q (m.mnts_hash (bucket_of p))
      ∙ ap (λ i. is_mounted_mount (find_mount q (m.mnts_hash i)))
          (sym ((==_iff (bucket_of q) (bucket_of p)).0 e)))
  | inr e ↦ rw e refl
]

expire_loop-IsTree :
    (ps : List Bytes) (m : Mounts) (t : Tree Bytes)
    → IsTree length t
    → IsTree length (expire_loop ps m t).0
unfolding expire_loop
expire_loop-IsTree [] m t h = h
expire_loop-IsTree (mp ∷ ps) m t h = elim (Bool-cases (is_mounted_mount (mnts_lookup m mp))) [
  | inl e ↦
      rw (e, expire_loop)
        (expire_loop-IsTree ps (get_mount mp m) _
          (tree_add_node-IsTree length tree_mnt_cmp tree_mnt_cmp-Compares mp t h))
  | inr e ↦ rw (e, expire_loop) (expire_loop-IsTree ps m t h)
]

expire_loop-In :
    (q : Bytes) (ps : List Bytes) (m : Mounts) (t : Tree Bytes)
    → TreeIn q (expire_loop ps m t).0
      ↔ (TreeIn q t ⊎ (In q ps × (is_mounted_mount (mnts_lookup m q) ≡ true)))
unfolding expire_loop
expire_loop-In q [] m t = ground arith
expire_loop-In q (mp ∷ ps) m t =
    let moved = λ (i : mp ≡ q). ap (λ p. is_mounted_mount (mnts_lookup m p)) i in
    elim (Bool-cases (is_mounted_mount (mnts_lookup m mp))) [
      | inl e ↦
          rw (e, expire_loop)
            (ground (
              arith,
              moved,
              e,
              expire_loop-In q ps (get_mount mp m) (tree_add_node tree_mnt_cmp mp t),
              is_mounted_mount-get_mount mp q m,
              tree_add_node-In length tree_mnt_cmp tree_mnt_cmp-Compares q mp t,
            ))
      | inr e ↦ rw (e, expire_loop) (ground (arith, moved, e, expire_loop-In q ps m t))
    ]

-- The list of mounts to expire of a point holds its mounts that are mounted and whose path does not end
-- in a slash, and no other; a longer path stands in front of a shorter one, so a mount in front of
-- those that it lies below.
pub mnts_get_expire_list-IsDeepFirst :
    (point : ℕ) (m : Mounts)
    → let mnts = (mnts_get_expire_list [] point m).0 in
      IsDeepFirst mnts
      × ((mp : Bytes)
          → In mp mnts ↔ (
              In mp (m.mounts point)
              × (is_mounted_mount (mnts_lookup m mp) ≡ true)
              × (ends_slash mp ≡ false)))
unfolding mnts_get_expire_list
mnts_get_expire_list-IsDeepFirst point m =
    let t = (expire_loop (m.mounts point) m leaf).0 in
    rw (traverse-push_all t []) (
      push_all-IsDeepFirst t [] (expire_loop-IsTree (m.mounts point) m leaf tt) tt (every t),
      λ mp. ground (arith, push_all-In mp t [], expire_loop-In mp (m.mounts point) m leaf),
    )
  where
    every : (t : Tree Bytes) → TreeAll (AtMost []) t
    every leaf = tt
    every (node l a r) = (every l, tt, every r)
