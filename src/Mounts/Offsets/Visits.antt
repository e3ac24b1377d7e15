-- ===== src/Mounts/Offsets/Visits.antt =====
-- lib/mounts.c: what a traversal of a tree of offsets does.
use autofs.Prelude.{
  Bool, true, false, not, ◌&&◌, List, [], ◌∷◌, ◌++◌, Option, ◌≡◌, refl, ap, ◌∙◌, sym, if◌then◌else◌,
  Bool-cases, inl, inr,
}
use autofs.Text.{Bytes}
use autofs.Mounts.Tree.{Tree, leaf, node}
use autofs.Mounts.Offsets.{
  Offset, in_subtree, stops, visit, then_right, is_leaf, tree_mapent_traverse_subtree,
}

-- The entries of a subtree in the order of the tree.
abbrev pub members : (base : Bytes) → Tree Offset → List Offset
members base leaf = []
members base (node left oe right) =
    members base left ++ ((if in_subtree base oe then oe ∷ [] else []) ++ members base right)

module _ {S : Type 0} (strict : Bool) (work : Offset → S → Bool × S) where
  -- The work on entries one after the other; where `strict` holds it stops at the first that answers 0.
  abbrev pub work_on : List Offset → S → Bool × S
  work_on [] s = (false, s)
  work_on (oe ∷ l) s =
      if strict && not (work oe s).0 then (true, (work oe s).1) else work_on l (work oe s).1

  -- The work on more entries, unless it stopped.
  abbrev go_on : List Offset → Bool × S → Bool × S
  go_on l (true, s) = (true, s)
  go_on l (false, s) = work_on l s

  work_on-append : (l r : List Offset) (s : S) → work_on (l ++ r) s ≡ go_on r (work_on l s)
  work_on-append [] r s = refl
  work_on-append (oe ∷ l) r s = elim (Bool-cases (strict && not (work oe s).0)) [
    | inl e ↦ rw e refl
    | inr e ↦ rw e (work_on-append l r (work oe s).1)
  ]

  go_on-append : (l r : List Offset) (b : Bool × S) → go_on (l ++ r) b ≡ go_on r (go_on l b)
  go_on-append l r (true, s) = refl
  go_on-append l r (false, s) = work_on-append l r s

  abbrev pub stopped : Option Bool × S → Bool × S
  stopped r = (stops strict r.0, r.1)

  module _ (base : Bytes) where
    visit-stopped :
        (oe : Offset) (r : Option Bool × S)
        → stopped (visit strict base work oe r)
          ≡ go_on (if in_subtree base oe then oe ∷ [] else []) (stopped r)
    unfolding visit
    visit-stopped oe (ret, s) = elim (Bool-cases (stops strict ret)) [
      | inl e ↦ rw e (ap (λ b. (b, s)) e)
      | inr e ↦ elim (Bool-cases (in_subtree base oe)) [
        | inl f ↦ elim (Bool-cases (strict && not (work oe s).0)) [
          | inl g ↦ rw (e, f, g) refl
          | inr g ↦ rw (e, f, g) refl
        ]
        | inr f ↦ rw (e, f) (ap (λ b. (b, s)) e)
      ]
    ]

    then_right-stopped :
        (right : Tree Offset) (r : Option Bool × S)
        → ((s : S)
            → stopped (tree_mapent_traverse_subtree strict base work right s)
              ≡ work_on (members base right) s)
        → stopped (
            then_right strict
              (is_leaf right)
              (tree_mapent_traverse_subtree strict base work right)
              r)
          ≡ go_on (members base right) (stopped r)
    then_right-stopped leaf (ret, s) h = elim (Bool-cases (stops strict ret)) [
      | inl e ↦ rw e (ap (λ b. (b, s)) e)
      | inr e ↦ rw e (ap (λ b. (b, s)) e)
    ]
    then_right-stopped (node l a r) (ret, s) h = elim (Bool-cases (stops strict ret)) [
      | inl e ↦ rw e (ap (λ b. (b, s)) e)
      | inr e ↦ rw e (h s)
    ]

    -- A traversal works on the entries of the subtree of `base` that are not the root, each once, from
    -- left to right in the tree, and on no others; where it is strict it stops at the first that answers 0, and
    -- says so.
    pub tree_mapent_traverse_subtree-members :
        (t : Tree Offset) (s : S)
        → stopped (tree_mapent_traverse_subtree strict base work t s) ≡ work_on (members base t) s
    unfolding tree_mapent_traverse_subtree
    tree_mapent_traverse_subtree-members leaf s = refl
    tree_mapent_traverse_subtree-members (node left oe right) s =
        let r = tree_mapent_traverse_subtree strict base work left s in
        let here = if in_subtree base oe then oe ∷ [] else [] in
        then_right-stopped right (visit strict base work oe r)
          (λ s'. tree_mapent_traverse_subtree-members right s')
        ∙ ap (go_on (members base right))
            (visit-stopped oe r ∙ ap (go_on here) (tree_mapent_traverse_subtree-members left s))
        ∙ sym (go_on-append here (members base right) (work_on (members base left) s))
        ∙ sym (work_on-append (members base left) (here ++ members base right) s)
