-- ===== src/Cache/Order.antt =====
-- lib/cache.c: where `cache_add` puts an entry, and what that does to the chain.
use autofs.Prelude.{
  ℕ, ◌≤◌, ◌<◌, Bool, true, false, List, [], ◌∷◌, ◌++◌, some, ◌≡◌, ◌≢◌, refl, sym, ap, ◌∙◌, arith,
  ◌==◌, if◌then◌else◌, inl, inr, Bool-cases, ==_iff, All, length, get_or, modify,
  get_or-modify_self, get_or-modify_ne,
}
use autofs.Text.{Bytes, equal, equal_iff, equal_refl, hash, hash-lt}
use autofs.Cache.{
  Mapent, Cache, is_primary, chain_of, find_key, cache_lookup_key_next, cache_lookup_distinct,
}
use autofs.Cache.Write.{last_loop, set_next, link, set_chain, insert}
use autofs.Cache.Last.{PrimaryOf, find_key-split, find_key_cons, last_loop-split}
use autofs.Cache.Walk.{IsCache}

set_next-split :
    (pre : List Mapent) (x me : Mapent) (post : List Mapent)
    → All (λ p. p.addr ≢ x.addr) pre
    → set_next x.addr me (pre ++ x ∷ post) ≡ pre ++ x ∷ me ∷ []
unfolding set_next
set_next-split [] x me post a = rw (eq_self x.addr) refl
  where
    eq_self : (n : ℕ) → (n == n) ≡ true
    eq_self n = ground arith
set_next-split (p ∷ pre) x me post a =
    rw (ne_false p.addr x.addr a.0) (ap (◌∷◌ p) (set_next-split pre x me post a.1))
  where
    ne_false : (m n : ℕ) → m ≢ n → (m == n) ≡ false
    ne_false m n d = ground arith

-- A chain that holds the key, split at its last entry of the key.
pub record SplitAt (key : Bytes) (pre : List Mapent) (x : Mapent) (post : List Mapent)
    : Type 0 where
  pub last_key : x.key ≡ key
  pub last_primary : is_primary x ≡ true
  pub none_after : find_key key post ≡ []
  pub others_primary : PrimaryOf key pre
  pub addresses : All (λ p. p.addr ≢ x.addr) pre

link_lem :
    (first existing me : Mapent) (next rest c : List Mapent)
    → last_loop (length (first ∷ next)) (first ∷ next) ≡ some (existing ∷ rest)
    → link (first ∷ next) me c ≡ some (set_next existing.addr me c)
unfolding link cache_lookup_key_next
link_lem first existing me next rest c e = rw e refl

link-split :
    (key : Bytes) (pre : List Mapent) (x : Mapent) (post : List Mapent) (me : Mapent)
    → SplitAt key pre x post
    → link (find_key key (pre ++ x ∷ post)) me (pre ++ x ∷ post) ≡ some (pre ++ x ∷ me ∷ [])
link-split key pre x post me h =
    linked (find_key-split key pre x post h.last_key) (λ g.
      last_loop-split pre g key x post h.last_key h.last_primary h.none_after h.others_primary)
  where
    linked :
        ((m : Mapent) × (n : List Mapent) × (find_key key (pre ++ x ∷ post) ≡ m ∷ n))
        → ((g : ℕ)
            → length (find_key key (pre ++ x ∷ post)) ≤ g
            → last_loop g (find_key key (pre ++ x ∷ post)) ≡ some (x ∷ post))
        → link (find_key key (pre ++ x ∷ post)) me (pre ++ x ∷ post) ≡ some (pre ++ x ∷ me ∷ [])
    linked (m, n, found) last = rw found (
        link_lem m x me n post (pre ++ x ∷ post)
          (rw found at (last (length (m ∷ n)) (omega (arith, ap length found))))
        ∙ ap some (set_next-split pre x me post h.addresses))

find_key-append :
    (key : Bytes) (a b : List Mapent) → find_key key a ≡ [] → find_key key (a ++ b) ≡ find_key key b
unfolding find_key
find_key-append key [] b e = refl
find_key-append key (p ∷ a) b e = ground (arith, find_key-append key a b)

find_key_skip :
    (key : Bytes) (me : Mapent) (next : List Mapent)
    → key ≢ me.key
    → find_key key (me ∷ next) ≡ find_key key next
unfolding find_key
find_key_skip key me next n = ground (arith, equal_iff key me.key)

insert_lem :
    (me : Mapent) (mc : Cache) (c : List Mapent)
    → link (cache_lookup_distinct mc (some me.key)) me (chain_of me.key mc) ≡ some c
    → insert me mc ≡ some (set_chain (hash me.key mc.size) c mc)
unfolding insert
insert_lem me mc c e = rw (e, insert) refl

differ : (b : Bool) → b ≡ false → b ≡ true → ⊥
differ b f t = cc

link_first : (me : Mapent) (c : List Mapent) → link [] me c ≡ some (me ∷ c)
unfolding link
link_first me c = refl

-- In a cache whose entries stand on the chains of their keys, adding an entry for a key that its
-- chain holds, in primary entries of which the last has an address of its own, puts the entry
-- behind that last one and drops whatever stood there: another key of the chain that is found only
-- there is not found any more.
pub insert_drops :
    (me x : Mapent) (pre post : List Mapent) (mc : Cache) (k : Bytes)
    → IsCache mc
    → chain_of me.key mc ≡ pre ++ x ∷ post
    → SplitAt me.key pre x post
    → hash k mc.size ≡ hash me.key mc.size
    → k ≢ me.key
    → find_key k pre ≡ []
    → (mc' : Cache) × (insert me mc ≡ some mc')
      × (chain_of me.key mc' ≡ pre ++ x ∷ me ∷ [])
      × (cache_lookup_distinct mc (some k) ≡ find_key k post)
      × (cache_lookup_distinct mc' (some k) ≡ [])
unfolding cache_lookup_distinct
insert_drops me x pre post mc k inv c s h n f =
    let i = hash me.key mc.size in
    let c' = pre ++ x ∷ me ∷ [] in
    let here : i < length mc.hash = rw inv.length_hash (hash-lt me.key mc.size inv.size_pos) in
    let written : get_or (modify (λ _. c') i mc.hash) i [] ≡ c' =
      get_or-modify_self (λ _. c') i mc.hash [] here in
    (
      set_chain i c' mc,
      insert_lem me mc c'
          (unfold cache_lookup_distinct in rw c (link-split me.key pre x post me s)),
      written,
      rw (h, c)
          (find_key-append k pre (x ∷ post) f ∙ find_key_skip k x post (λ e. n (e ∙ s.last_key))),
      rw (h, written)
          (find_key-append k pre (x ∷ me ∷ []) f
            ∙ find_key_skip k x (me ∷ []) (λ e. n (e ∙ s.last_key))
            ∙ find_key_skip k me [] n),
    )

-- In a cache whose entries stand on the chains of their keys, adding an entry for a key that is not
-- found keeps every other lookup as it was, and a lookup of the key finds the new entry, in front
-- of its chain.
pub insert_new :
    (me : Mapent) (mc : Cache)
    → IsCache mc
    → cache_lookup_distinct mc (some me.key) ≡ []
    → (mc' : Cache) × (insert me mc ≡ some mc')
      × ((k : Bytes)
          → cache_lookup_distinct mc' (some k) ≡ (
              if equal k me.key
              then me ∷ chain_of me.key mc
              else cache_lookup_distinct mc (some k)))
unfolding cache_lookup_distinct
insert_new me mc inv absent =
    (set_chain i c' mc, insert_lem me mc c' (rw absent (link_first me (chain_of me.key mc))), found)
  where
    i : ℕ
    i = hash me.key mc.size

    c' : List Mapent
    c' = me ∷ chain_of me.key mc

    here : i < length mc.hash
    here = rw inv.length_hash (hash-lt me.key mc.size inv.size_pos)

    other :
        (k : Bytes)
        → equal k me.key ≡ false
        → find_key k (get_or (modify (λ _. c') i mc.hash) (hash k mc.size) [])
          ≡ find_key k (chain_of k mc)
    other k e = elim (Bool-cases (hash k mc.size == i)) [
      | inl s ↦
          let same : hash k mc.size ≡ i = (==_iff (hash k mc.size) i).0 s in
          rw (same, get_or-modify_self (λ _. c') i mc.hash [] here)
            (find_key_skip k me (chain_of me.key mc)
              (λ q. differ (equal k me.key) e ((equal_iff k me.key).1 q)))
      | inr s ↦ ap (find_key k) (
          get_or-modify_ne (λ _. c') i (hash k mc.size) mc.hash []
            (λ q. differ (hash k mc.size == i) s ((==_iff (hash k mc.size) i).1 (sym q))))
    ]

    found :
        (k : Bytes)
        → find_key k (get_or (modify (λ _. c') i mc.hash) (hash k mc.size) [])
          ≡ (if equal k me.key then c' else find_key k (chain_of k mc))
    found k = elim (Bool-cases (equal k me.key)) [
      | inl e ↦
          rw
            (
              (equal_iff k me.key).0 e,
              get_or-modify_self (λ _. c') i mc.hash [] here,
              find_key_cons me.key me (chain_of me.key mc),
              equal_refl me.key,
            )
            refl
      | inr e ↦ rw e (other k e)
    ]
