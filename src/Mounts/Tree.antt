-- ===== src/Mounts/Tree.antt =====
-- lib/mounts.c: the search trees, by the comparison that `tree_ops` holds.
use autofs.Prelude.{ℕ, ◌<◌, ◌≤◌, Bool, true, false, ◌≡◌, ◌↔◌, ◌⊎◌, inl, inr, refl, arith}

-- What `cmp` answers: less than 0, 0, more.
pub data Cmp : Type 0 where
  less : Cmp
  same : Cmp
  more : Cmp

-- `struct tree_node`; a leaf is the pointer NULL.
pub data Tree {ℓ} (A : Type ℓ) : Type ℓ where
  leaf : Tree A
  node : (left : Tree A) → A → (right : Tree A) → Tree A

-- `if (!ret) goto done;`
unfoldable pub unless_stopped {κ} : {S : Type κ} → (S → Bool × S) → Bool × S → Bool × S
unless_stopped next (true, s) = next s
unless_stopped next (false, s) = (false, s)

-- `tree_add_node`; it gives a node, so it never answers NULL. `cmp` has the node first.
unfoldable pub tree_add_node {ℓ} : {A : Type ℓ} → (cmp : A → A → Cmp) → A → Tree A → Tree A
tree_add_node cmp ptr leaf = node leaf ptr leaf
tree_add_node cmp ptr (node left p right) = elim (cmp p ptr) [
  | same ↦ node left p right
  | less ↦ node (tree_add_node cmp ptr left) p right
  | more ↦ node left p (tree_add_node cmp ptr right)
]

-- `tree_traverse_inorder`, where `work` changes the state `S`.
unfoldable pub tree_traverse_inorder {ℓ κ} :
    {A : Type ℓ} → {S : Type κ} → (work : A → S → Bool × S) → Tree A → S → Bool × S
unfolding unless_stopped
tree_traverse_inorder work leaf s = (true, s)
tree_traverse_inorder work (node left n right) s =
    unless_stopped (tree_traverse_inorder work right)
      (unless_stopped (work n) (tree_traverse_inorder work left s))

-- Every element of a tree satisfies `P`; an element stands in a tree.
abbrev pub TreeAll {ℓ κ} : {A : Type ℓ} → (A → Type κ) → Tree A → Type κ
TreeAll P leaf = Unit
TreeAll P (node left a right) = TreeAll P left × P a × TreeAll P right

abbrev pub TreeIn : {A : Type 0} → A → Tree A → Type 0
TreeIn a leaf = ⊥
TreeIn a (node left b right) = TreeIn a left ⊎ ((b ≡ a) ⊎ TreeIn a right)

Cmp-cases : (c : Cmp) → (c ≡ less) ⊎ ((c ≡ same) ⊎ (c ≡ more))
Cmp-cases less = inl refl
Cmp-cases same = inr (inl refl)
Cmp-cases more = inr (inr refl)

pub tree_add_node-All :
    {A : Type 0} (cmp : A → A → Cmp) (P : A → Type 0) (a : A) (t : Tree A)
    → P a
    → TreeAll P t
    → TreeAll P (tree_add_node cmp a t)
unfolding tree_add_node
tree_add_node-All cmp P a leaf h k = (tt, h, tt)
tree_add_node-All cmp P a (node left b right) h (l, x, r) = elim (Cmp-cases (cmp b a)) [
  | inl e ↦ rw (e, tree_add_node) (tree_add_node-All cmp P a left h l, x, r)
  | inr (inl e) ↦ rw (e, tree_add_node) (l, x, r)
  | inr (inr e) ↦ rw (e, tree_add_node) (l, x, tree_add_node-All cmp P a right h r)
]

-- The trees that a comparison by size makes: what is smaller than an element stands left of it.
module _ {A : Type 0} (size : A → ℕ) where
  abbrev pub IsTree : Tree A → Type 0
  IsTree leaf = Unit
  IsTree (node left a right) =
      IsTree left
      × TreeAll (λ b. size b < size a) left
      × TreeAll (λ b. size a ≤ size b) right
      × IsTree right

  -- A comparison that answers by size, and that elements are the same.
  pub record Compares (cmp : A → A → Cmp) : Type 0 where
    pub less_of : (n a : A) → cmp n a ≡ less → size a < size n
    pub same_of : (n a : A) → cmp n a ≡ same → n ≡ a
    pub more_of : (n a : A) → cmp n a ≡ more → size n ≤ size a

  module _ (cmp : A → A → Cmp) (compares : Compares cmp) where
    pub tree_add_node-IsTree : (a : A) (t : Tree A) → IsTree t → IsTree (tree_add_node cmp a t)
    unfolding tree_add_node
    tree_add_node-IsTree a leaf h = (tt, tt, tt, tt)
    tree_add_node-IsTree a (node left b right) (l, below, above, r) = elim (Cmp-cases (cmp b a)) [
      | inl e ↦
          rw (e, tree_add_node)
            (
              tree_add_node-IsTree a left l,
              tree_add_node-All cmp (λ c. size c < size b) a left (compares.less_of b a e) below,
              above,
              r,
            )
      | inr (inl e) ↦ rw (e, tree_add_node) (l, below, above, r)
      | inr (inr e) ↦
          rw (e, tree_add_node)
            (
              l,
              below,
              tree_add_node-All cmp (λ c. size b ≤ size c) a right (compares.more_of b a e) above,
              tree_add_node-IsTree a right r,
            )
    ]

    -- What was in a tree still is, and what is added.
    pub tree_add_node-In :
        (q a : A) (t : Tree A) → TreeIn q (tree_add_node cmp a t) ↔ ((a ≡ q) ⊎ TreeIn q t)
    unfolding tree_add_node
    tree_add_node-In q a leaf = ground arith
    tree_add_node-In q a (node left b right) = elim (Cmp-cases (cmp b a)) [
      | inl e ↦ rw (e, tree_add_node) (ground (arith, tree_add_node-In q a left))
      | inr (inl e) ↦ rw (e, tree_add_node) (ground (arith, compares.same_of b a e))
      | inr (inr e) ↦ rw (e, tree_add_node) (ground (arith, tree_add_node-In q a right))
    ]
