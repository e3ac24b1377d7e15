-- ===== src/Cache/Deleted.antt =====
-- lib/cache.c: what `cache_delete` does to the lookups.
use autofs.Prelude.{
  ℕ, ◌<◌, Bool, true, false, not, ◌&&◌, ◌||◌, List, [], ◌∷◌, Option, none, some, ◌≡◌, ◌≢◌, refl,
  ◌⊎◌, arith, ◌==◌, ==_iff, if◌then◌else◌, inl, inr, Bool-cases, length, get_or, modify,
  get_or-modify_self, get_or-modify_ne,
}
use autofs.Text.{Bytes, equal, equal_iff, hash, hash-lt}
use autofs.Cache.{Mapent, Cache, is_mm, chain_of, find_key, cache_lookup_distinct}
use autofs.Cache.Write.{che_ok, che_fail}
use autofs.Cache.Delete.{delete_loop, delete_chain, cache_delete}
use autofs.Cache.Walk.{IsCache}

-- Is there an entry of a multi mount with the key?
abbrev pub has_mm : Bytes → List Mapent → Bool
has_mm key [] = false
has_mm key (me ∷ next) = (equal key me.key && is_mm me) || has_mm key next

-- The entry that a lookup points to.
abbrev pub pointee : List Mapent → Option Mapent
pointee [] = none
pointee (me ∷ _) = some me

abbrev pub is_found : List Mapent → Bool
is_found [] = false
is_found (_ ∷ _) = true

delete_loop-has_mm : (key : Bytes) (l : List Mapent) → (delete_loop key l).0 ≡ not (has_mm key l)
unfolding delete_loop
delete_loop-has_mm key [] = refl
delete_loop-has_mm key (me ∷ next) = ground (arith, delete_loop-has_mm key next)

delete_loop-is_found :
    (key : Bytes) (l : List Mapent) → is_found (find_key key (delete_loop key l).1) ≡ has_mm key l
unfolding delete_loop find_key
delete_loop-is_found key [] = refl
delete_loop-is_found key (me ∷ next) = ground (arith, delete_loop-is_found key next)

delete_loop-pointee :
    (key k : Bytes) (l : List Mapent)
    → k ≢ key
    → pointee (find_key k (delete_loop key l).1) ≡ pointee (find_key k l)
unfolding delete_loop find_key
delete_loop-pointee key k [] n = refl
delete_loop-pointee key k (me ∷ next) n =
    ground (arith, delete_loop-pointee key k next n, equal_iff key me.key, equal_iff k me.key)

delete_chain-Che :
    (key : Bytes) (l : List Mapent)
    → (delete_chain key l).0 ≡ (if has_mm key l then che_fail else che_ok)
unfolding delete_chain
delete_chain-Che key [] = refl
delete_chain-Che key (me ∷ next) = ground (arith, delete_loop-has_mm key next)

delete_chain-is_found :
    (key : Bytes) (l : List Mapent) → is_found (find_key key (delete_chain key l).1) ≡ has_mm key l
unfolding delete_chain find_key
delete_chain-is_found key [] = refl
delete_chain-is_found key (me ∷ next) =
    ground (arith, delete_loop-has_mm key next, delete_loop-is_found key next)

delete_chain-pointee :
    (key k : Bytes) (l : List Mapent)
    → k ≢ key
    → pointee (find_key k (delete_chain key l).1) ≡ pointee (find_key k l)
unfolding delete_chain find_key
delete_chain-pointee key k [] n = refl
delete_chain-pointee key k (me ∷ next) n =
    ground (arith, delete_loop-pointee key k next n, equal_iff key me.key, equal_iff k me.key)

-- In a cache whose entries stand on the chains of their keys, a deletion fails exactly if the chain
-- has an entry of a multi mount with the key, and exactly then the key is still found; a lookup of
-- any other key finds the entry that it found before.
pub cache_delete_outcome :
    (mc : Cache) (key k : Bytes)
    → IsCache mc
    → k ≢ key
    → let r = cache_delete mc key in
      (r.0 ≡ (if has_mm key (chain_of key mc) then che_fail else che_ok))
      × (is_found (cache_lookup_distinct r.1 (some key)) ≡ has_mm key (chain_of key mc))
      × (pointee (cache_lookup_distinct r.1 (some k)) ≡ pointee (cache_lookup_distinct mc (some k)))
unfolding cache_delete cache_lookup_distinct
cache_delete_outcome mc key k inv n = (
  delete_chain-Che key (chain_of key mc),
  rw (get_or-modify_self (λ _. c) i mc.hash [] here) (delete_chain-is_found key (chain_of key mc)),
  others (Bool-cases (i == hash k mc.size)),
)
  where
    i : ℕ
    i = hash key mc.size

    c : List Mapent
    c = (delete_chain key (chain_of key mc)).1

    here : i < length mc.hash
    here = rw inv.length_hash (hash-lt key mc.size inv.size_pos)

    others :
        ((i == hash k mc.size) ≡ true) ⊎ ((i == hash k mc.size) ≡ false)
        → pointee (find_key k (get_or (modify (λ _. c) i mc.hash) (hash k mc.size) []))
          ≡ pointee (find_key k (chain_of k mc))
    others (inl e) =
        rw (← ((==_iff i (hash k mc.size)).0 e), get_or-modify_self (λ _. c) i mc.hash [] here)
          (delete_chain-pointee key k (chain_of key mc) n)
    others (inr e) =
        rw
          (get_or-modify_ne (λ _. c) i (hash k mc.size) mc.hash []
            (λ q. cc (e, (==_iff i (hash k mc.size)).1 q)))
          refl
