-- ===== src/Mounts/Expire/Users.antt =====
-- lib/mounts.c: the users of mounts while a list of mounts to expire is made and given back.
use autofs.Prelude.{
  ℕ, ◌+◌, true, false, ◌&&◌, List, [], ◌∷◌, Option, none, some, ◌≡◌, inl, inr, refl, ap, ◌∙◌, arith,
  if◌then◌else◌, All, In, Bool-cases, ==_iff, ◌==◌, is_some, if_both,
}
use autofs.Text.{Bytes, equal, equal_iff}
use autofs.ParseSubs.{ends_slash}
use autofs.Mounts.{
  MntList, Mounts, bucket_of, is_mount, find_mount, change_mount, remove_mount, mnts_lookup,
  update_mount, get_mount, put_found, put_mount, set_bucket,
}
use autofs.Mounts.Tree.{Tree, leaf, tree_add_node}
use autofs.Mounts.Expire.{
  tree_mnt_cmp, is_mounted_mount, expire_loop, mnts_get_expire_list, mnts_put_expire_list,
}
use autofs.Mounts.Expire.Order.{is_mounted_mount-get_mount, mnts_get_expire_list-IsDeepFirst}

-- The count of users of a mount, 0 if there is none.
abbrev pub users : Option MntList → ℕ
users none = 0
users (some this) = this.ref

-- How often a path stands on a list.
abbrev pub count : Bytes → List Bytes → ℕ
count q [] = 0
count q (p ∷ ps) = (if equal q p then 1 else 0) + count q ps

lookup-set_bucket :
    (p q : Bytes) (l : List MntList) (m : Mounts)
    → mnts_lookup (set_bucket p l m) q
      ≡ (if bucket_of q == bucket_of p then find_mount q l else mnts_lookup m q)
unfolding mnts_lookup
lookup-set_bucket p q l m = elim (Bool-cases (bucket_of q == bucket_of p)) [
  | inl e ↦ rw e refl
  | inr e ↦ rw e refl
]

lookup-bucket :
    (p q : Bytes) (m : Mounts)
    → (bucket_of q == bucket_of p) ≡ true
    → mnts_lookup m q ≡ find_mount q (m.mnts_hash (bucket_of p))
unfolding mnts_lookup
lookup-bucket p q m e =
    ap (λ i. find_mount q (m.mnts_hash i)) ((==_iff (bucket_of q) (bucket_of p)).0 e)

find-used :
    (p q : Bytes) (l : List MntList)
    → users (find_mount q (change_mount (λ this. record this { ref = this.ref + 1 }) p l))
      ≡ (if equal q p && is_some (find_mount q l) then 1 else 0) + users (find_mount q l)
unfolding find_mount change_mount
find-used p q [] = ground arith
find-used p q (this ∷ l) =
    ground (arith, find-used p q l, equal_iff q p, equal_iff p this.mp, equal_iff q this.mp)

-- What another path finds is as it was, however a mount is changed that keeps its path and has users.
find-change_other :
    (f : MntList → MntList) (p q : Bytes) (l : List MntList)
    → ((this : MntList) → is_mount p this ≡ true → (f this).mp ≡ this.mp)
    → equal q p ≡ false
    → find_mount q (change_mount f p l) ≡ find_mount q l
unfolding find_mount change_mount
find-change_other f p q [] h d = refl
find-change_other f p q (this ∷ l) h d = ground (
  arith,
  find-change_other f p q l h d,
  h this,
  equal_iff q p,
  equal_iff p this.mp,
  equal_iff q this.mp,
  equal_iff q (f this).mp,
)

find-remove_other :
    (p q : Bytes) (l : List MntList)
    → equal q p ≡ false
    → find_mount q (remove_mount p l) ≡ find_mount q l
unfolding find_mount remove_mount
find-remove_other p q [] d = refl
find-remove_other p q (this ∷ l) d =
    ground
      (arith, find-remove_other p q l d, equal_iff q p, equal_iff p this.mp, equal_iff q this.mp)

same_bucket : (p q : Bytes) → equal q p ≡ true → (bucket_of q == bucket_of p) ≡ true
same_bucket p q e = (==_iff (bucket_of q) (bucket_of p)).1 (ap bucket_of ((equal_iff q p).0 e))

mounted_is_some : (o : Option MntList) → is_mounted_mount o ≡ true → is_some o ≡ true
unfolding is_mounted_mount
mounted_is_some none h = h
mounted_is_some (some _) h = refl

users-get_mount :
    (p q : Bytes) (m : Mounts)
    → is_mounted_mount (mnts_lookup m p) ≡ true
    → users (mnts_lookup (get_mount p m) q) ≡ (if equal q p then 1 else 0) + users (mnts_lookup m q)
unfolding get_mount update_mount
users-get_mount p q m h =
    let moved = λ (i : q ≡ p). ap (mnts_lookup m) i in
    let l = m.mnts_hash (bucket_of p) in
    ap users (lookup-set_bucket p q _ m)
    ∙ ground (
      arith,
      same_bucket p q,
      lookup-bucket p q m,
      find-used p q l,
      moved,
      equal_iff q p,
      mounted_is_some (mnts_lookup m p) h,
    )

-- A new list for a path's place in the table that holds for another path what the old one held.
set_other :
    (p q : Bytes) (l : List MntList) (m : Mounts)
    → find_mount q l ≡ find_mount q (m.mnts_hash (bucket_of p))
    → mnts_lookup (set_bucket p l m) q ≡ mnts_lookup m q
set_other p q l m e = lookup-set_bucket p q l m ∙ ground (arith, e, lookup-bucket p q m)

put_found_other :
    (p q : Bytes) (m : Mounts) (o : Option MntList)
    → equal q p ≡ false
    → mnts_lookup (put_found p m o) q ≡ mnts_lookup m q
unfolding put_found update_mount
put_found_other p q m none d = refl
put_found_other p q m (some this) d =
    let l = m.mnts_hash (bucket_of p) in
    if_both (λ m'. mnts_lookup m' q ≡ mnts_lookup m q) (this.ref == 1)
      (λ _. set_other p q (remove_mount p l) m (find-remove_other p q l d))
      (λ _. set_other p q _ m (find-change_other _ p q l (λ t h. refl) d))

pub put_mount_other :
    (p q : Bytes) (m : Mounts) → equal q p ≡ false → mnts_lookup (put_mount p m) q ≡ mnts_lookup m q
unfolding put_mount
put_mount_other p q m d = put_found_other p q m (mnts_lookup m p) d

put_expire_other :
    (q : Bytes) (l : List Bytes) (m : Mounts)
    → All (λ p. equal q p ≡ false) l
    → mnts_lookup (mnts_put_expire_list l m) q ≡ mnts_lookup m q
unfolding mnts_put_expire_list
put_expire_other q [] m h = refl
put_expire_other q (p ∷ l) m h =
    put_expire_other q l (put_mount p m) h.1 ∙ put_mount_other p q m h.0

users-expire_loop :
    (q : Bytes) (ps : List Bytes) (m : Mounts) (t : Tree Bytes)
    → users (mnts_lookup (expire_loop ps m t).1 q)
      ≡ (if is_mounted_mount (mnts_lookup m q) then count q ps else 0) + users (mnts_lookup m q)
unfolding expire_loop
users-expire_loop q [] m t = ground arith
users-expire_loop q (mp ∷ ps) m t =
    let moved = λ (i : q ≡ mp). ap (λ p. is_mounted_mount (mnts_lookup m p)) i in
    elim (Bool-cases (is_mounted_mount (mnts_lookup m mp))) [
      | inl e ↦
          rw (e, expire_loop)
            (ground (
              arith,
              moved,
              e,
              equal_iff q mp,
              users-expire_loop q ps (get_mount mp m) (tree_add_node tree_mnt_cmp mp t),
              is_mounted_mount-get_mount mp q m,
              users-get_mount mp q m e,
            ))
      | inr e ↦
          rw (e, expire_loop) (ground (arith, moved, e, equal_iff q mp, users-expire_loop q ps m t))
    ]

All-absent : (q : Bytes) (l : List Bytes) → (In q l → ⊥) → All (λ p. equal q p ≡ false) l
All-absent q [] h = tt
All-absent q (p ∷ l) h =
    (ground (arith, equal_iff q p, (λ (i : p ≡ q). h (inl i))), All-absent q l (λ i. h (inr i)))

-- A mounted mount whose path ends in a slash is used once more for each time it stands on the list of a
-- point, and is not given back: after the list to expire of the point was made and put, its users are
-- more by that number.
pub mnts_put_expire_list-users :
    (point : ℕ) (m : Mounts) (mp : Bytes)
    → is_mounted_mount (mnts_lookup m mp) ≡ true
    → ends_slash mp ≡ true
    → let r = mnts_get_expire_list [] point m in
      users (mnts_lookup (mnts_put_expire_list r.0 r.1) mp)
      ≡ count mp (m.mounts point) + users (mnts_lookup m mp)
mnts_put_expire_list-users point m mp h slash =
    let r = mnts_get_expire_list [] point m in
    let (_, members) = mnts_get_expire_list-IsDeepFirst point m in
    let absent : In mp r.0 → ⊥ = λ i. ground (arith, members mp, i, slash) in
    ap users (put_expire_other mp r.0 r.1 (All-absent mp r.0 absent))
    ∙ unfold mnts_get_expire_list in users-expire_loop mp (m.mounts point) m leaf ∙ rw h refl
