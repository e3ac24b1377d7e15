-- ===== src/Cache/NextKey.antt =====
-- lib/cache.c: the search of `cache_lookup_key_next`.
use autofs.Prelude.{
  ℕ, zero, suc, ◌<◌, true, false, List, [], ◌∷◌, none, some, ◌≡◌, refl, arith, if◌then◌else◌,
  length,
}
use autofs.Cache.{Mapent, is_primary, find_key, key_next_loop, cache_lookup_key_next}

-- From a primary entry `cache_lookup_key_next` finds the next entry of its key.
pub key_next_loop-find_key :
    (fuel : ℕ) (me : Mapent) (next : List Mapent)
    → is_primary me ≡ true
    → length next < fuel
    → key_next_loop fuel me next ≡ some (find_key me.key next)
unfolding key_next_loop find_key
key_next_loop-find_key zero me next p f = absurd (omega arith)
key_next_loop-find_key (suc fuel) me [] p f = refl
key_next_loop-find_key (suc fuel) me (this ∷ next) p f =
    ground (arith, key_next_loop-find_key fuel me next)

key_next_loop_stuck :
    (fuel : ℕ) (me this : Mapent) (next : List Mapent)
    → is_primary me ≡ false
    → key_next_loop fuel me (this ∷ next) ≡ none
unfolding key_next_loop
key_next_loop_stuck zero me this next p = refl
key_next_loop_stuck (suc fuel) me this next p =
    ground (arith, key_next_loop_stuck fuel me this next)

-- Given more rounds than entries follow, `cache_lookup_key_next` from a primary entry ends with the
-- next entry of the same key. From an offset entry of a multi mount no number of rounds is enough,
-- unless the entry is the last of its chain.
pub cache_lookup_key_next_ends :
    (fuel : ℕ) (me : Mapent) (next : List Mapent)
    → length next < fuel
    → cache_lookup_key_next fuel (me ∷ next) ≡ (
        if is_primary me
        then some (find_key me.key next)
        else elim next [ [] ↦ some [] | _ ∷ _ ↦ none ])
unfolding cache_lookup_key_next
cache_lookup_key_next_ends zero me next f = absurd (omega arith)
cache_lookup_key_next_ends (suc fuel) me [] f = unfold key_next_loop find_key in ground arith
cache_lookup_key_next_ends (suc fuel) me (this ∷ next) f = ground (
  arith,
  key_next_loop-find_key (suc fuel) me (this ∷ next),
  key_next_loop_stuck (suc fuel) me this next,
)
