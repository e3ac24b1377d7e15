-- ===== src/Cache/Keeps.antt =====
-- lib/cache.c: changes of chains and entries, and the chain of each key.
use autofs.Prelude.{
  ℕ, zero, suc, ◌+◌, List, [], ◌∷◌, Option, none, some, ◌≡◌, refl, ap, ◌∙◌, arith, ◌==◌, if_both,
  All, length, get_or, modify, length-modify,
}
use autofs.Text.{Bytes, hash}
use autofs.Cache.{Mapent, Cache, chain_of}
use autofs.Cache.Write.{last_loop, set_next, link, set_chain, change, change_chains, change_entry}
use autofs.Cache.Delete.{delete_loop, delete_chain}
use autofs.Cache.Walk.{ArePlaced, IsCache}

abbrev pub AllOf : {A : Type 0} → (A → Type 0) → Option A → Type 0
AllOf P none = Unit
AllOf P (some x) = P x

-- The functions that answer with a chain keep what holds of each of its entries.
module _ (P : Mapent → Type 0) where
  set_next-All : (a : ℕ) (me : Mapent) (l : List Mapent) → P me → All P l → All P (set_next a me l)
  unfolding set_next
  set_next-All a me [] p h = tt
  set_next-All a me (this ∷ next) p h =
      if_both (All P) (this.addr == a) (λ _. (h.0, (p, tt)))
        (λ _. (h.0, set_next-All a me next p h.1))

  pub link-All :
      (found : List Mapent) (me : Mapent) (c : List Mapent)
      → P me
      → All P c
      → AllOf (All P) (link found me c)
  unfolding link
  link-All [] me c p h = (p, h)
  link-All (first ∷ next) me c p h = linked (last_loop (length (first ∷ next)) (first ∷ next))
    where
      linked :
          (o : Option (List Mapent))
          → AllOf (All P) (elim o [
            | none ↦ none
            | some [] ↦ none
            | some (existing ∷ _) ↦ some (set_next existing.addr me c)
          ])
      linked none = tt
      linked (some []) = tt
      linked (some (existing ∷ _)) = set_next-All existing.addr me c p h

  pub change-All :
      (a : ℕ) (f : Mapent → Mapent) (l : List Mapent)
      → ((m : Mapent) → P m → P (f m))
      → All P l
      → All P (change a f l)
  unfolding change
  change-All a f [] k h = tt
  change-All a f (me ∷ next) k h =
      if_both (All P) (me.addr == a) (λ _. (k me h.0, h.1)) (λ _. (h.0, change-All a f next k h.1))

  delete_loop-All : (key : Bytes) (l : List Mapent) → All P l → All P (delete_loop key l).1
  unfolding delete_loop
  delete_loop-All key [] h = tt
  delete_loop-All key (me ∷ next) h = ground (arith, delete_loop-All key next)

  pub delete_chain-All : (key : Bytes) (l : List Mapent) → All P l → All P (delete_chain key l).1
  unfolding delete_chain
  delete_chain-All key [] h = tt
  delete_chain-All key (me ∷ next) h = ground (arith, delete_loop-All key next)

-- The entries that belong on a chain.
abbrev pub On : ℕ → ℕ → Mapent → Type 0
On size i me = hash me.key size ≡ i

get_or-On :
    (size i j : ℕ) (l : List (List Mapent))
    → ArePlaced size j l
    → All (On size (j + i)) (get_or l i [])
get_or-On size i j [] h = tt
get_or-On size zero j (c ∷ l) h = let same : j + 0 ≡ j = omega arith in rw same h.0
get_or-On size (suc i) j (c ∷ l) h =
    let next : j + suc i ≡ suc j + i = omega arith in rw next (get_or-On size i (suc j) l h.1)

modify-ArePlaced :
    (size i j : ℕ) (c : List Mapent) (l : List (List Mapent))
    → ArePlaced size j l
    → All (On size (j + i)) c
    → ArePlaced size j (modify (λ _. c) i l)
modify-ArePlaced size i j c [] h k = tt
modify-ArePlaced size zero j c (d ∷ l) h k =
    let same : j + 0 ≡ j = omega arith in (rw same at k, h.1)
modify-ArePlaced size (suc i) j c (d ∷ l) h k =
    let next : j + suc i ≡ suc j + i = omega arith in
    (h.0, modify-ArePlaced size i (suc j) c l h.1 (rw next at k))

from_zero : (n : ℕ) → 0 + n ≡ n
from_zero n = omega arith

pub chain-On :
    (key : Bytes) (mc : Cache) → IsCache mc → All (On mc.size (hash key mc.size)) (chain_of key mc)
chain-On key mc inv =
    rw (from_zero (hash key mc.size)) at (get_or-On mc.size (hash key mc.size) 0 mc.hash inv.placed)

pub set_chain-IsCache :
    (i : ℕ) (c : List Mapent) (mc : Cache)
    → IsCache mc
    → All (On mc.size i) c
    → IsCache (set_chain i c mc)
set_chain-IsCache i c mc inv h = record {
  size_pos = inv.size_pos;
  length_hash = length-modify (λ _. c) i mc.hash ∙ inv.length_hash;
  placed = modify-ArePlaced mc.size i 0 c mc.hash inv.placed (rw (from_zero i) h);
}

change_chains-ArePlaced :
    (size j a : ℕ) (f : Mapent → Mapent) (l : List (List Mapent))
    → ((m : Mapent) → (f m).key ≡ m.key)
    → ArePlaced size j l
    → ArePlaced size j (change_chains a f l)
unfolding change_chains
change_chains-ArePlaced size j a f [] k h = tt
change_chains-ArePlaced size j a f (c ∷ l) k h = (
  change-All (On size j) a f c (λ m e. rw (k m) e) h.0,
  change_chains-ArePlaced size (suc j) a f l k h.1,
)

length-change_chains :
    (a : ℕ) (f : Mapent → Mapent) (l : List (List Mapent)) → length (change_chains a f l) ≡ length l
unfolding change_chains
length-change_chains a f [] = refl
length-change_chains a f (c ∷ l) = ap suc (length-change_chains a f l)

-- A change of an entry that keeps its key.
pub change_entry-IsCache :
    (a : ℕ) (f : Mapent → Mapent) (mc : Cache)
    → ((m : Mapent) → (f m).key ≡ m.key)
    → IsCache mc
    → IsCache (change_entry a f mc)
unfolding change_entry
change_entry-IsCache a f mc k inv = record {
  size_pos = inv.size_pos;
  length_hash = length-change_chains a f mc.hash ∙ inv.length_hash;
  placed = change_chains-ArePlaced mc.size 0 a f mc.hash k inv.placed;
}
