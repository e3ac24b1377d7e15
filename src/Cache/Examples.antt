-- ===== src/Cache/Examples.antt =====
-- lib/cache.c: the theorems at a cache of two chains, with the keys a and e on the one and b on the
-- other.
use autofs.Prelude.{ℕ, true, [], ◌∷◌, none, some, ◌≡◌, ◌≢◌, refl, ap, arith}
use autofs.Text.{Bytes, equal, hash}
use autofs.Cache.{
  Mapent, Cache, chain_of, cache_enumerate, cache_lookup_key_next, cache_lookup_distinct,
  is_primary, find_key,
}
use autofs.Cache.Write.{che_ok, cache_push_mapent, cache_pop_mapent, insert}
use autofs.Cache.Walk.{IsCache, walk, walk-primaries}
use autofs.Cache.PushPop.{pop-push}
use autofs.Cache.Source.{Updated, cache_update_offset-Updated}
use autofs.Cache.Update.{cache_update_offset}
use autofs.Cache.NextKey.{cache_lookup_key_next_ends}
use autofs.Cache.Order.{SplitAt, insert_drops}
use autofs.Cache.{is_mm}
use autofs.Prelude.{false}
use autofs.Cache.Write.{new_mapent, cache_add, cache_init}
use autofs.Cache.Delete.{cache_delete}
use autofs.Cache.Deleted.{pointee, is_found, cache_delete_outcome}
use autofs.Cache.System.{add, delete, start, next, Reach-IsCache}

abbrev mapent_at : ℕ → Bytes → Mapent
mapent_at addr key = record {
  addr = addr;
  source = 1;
  mm_root = none;
  key = key;
  mapent = some (b'm' ∷ []);
  stack = [];
  age = 50;
  status = 0;
  ioctlfd = none;
  dev = 0;
  ino = 0;
}

abbrev entry_a : Mapent
entry_a = mapent_at 10 (b'a' ∷ [])

abbrev entry_e : Mapent
entry_e = mapent_at 11 (b'e' ∷ [])

abbrev entry_b : Mapent
entry_b = mapent_at 12 (b'b' ∷ [])

-- An offset of a multi mount whose root is the entry at 10.
abbrev offset : Mapent
offset = record (mapent_at 13 (b'o' ∷ [])) { mm_root = some 10 }

abbrev cache : Cache
cache = record {
  size = 2;
  hash = (entry_a ∷ entry_e ∷ []) ∷ (entry_b ∷ []) ∷ [];
  ino_index = [] ∷ [] ∷ [];
}

cache-IsCache : IsCache cache
unfolding hash
cache-IsCache = record {
  size_pos = omega arith;
  length_hash = refl;
  placed = ((refl, (refl, tt)), ((refl, tt), tt));
}

walk-primaries_example : walk 3 cache (cache_enumerate cache []) ≡ entry_a ∷ entry_e ∷ entry_b ∷ []
unfolding is_primary
walk-primaries_example = walk-primaries 3 cache cache-IsCache (omega arith)

pop-push_example : cache_pop_mapent (cache_push_mapent true none entry_a).1 ≡ (che_ok, entry_a)
unfolding cache_push_mapent
pop-push_example = pop-push true none entry_a refl

cache_lookup_key_next_ends_example : cache_lookup_key_next 5 (offset ∷ entry_b ∷ []) ≡ none
unfolding is_primary
cache_lookup_key_next_ends_example =
    cache_lookup_key_next_ends 5 offset (entry_b ∷ []) (omega arith)

-- An offset of `a` that is new.
cache_update_offset-Updated_example :
    Updated 1 (cache_update_offset true 20 cache (b'a' ∷ []) (b'o' ∷ []) (b'm' ∷ []) 51)
cache_update_offset-Updated_example =
    cache_update_offset-Updated true 20 cache 1 (b'a' ∷ []) (b'o' ∷ []) (b'm' ∷ []) 51
      ((refl, (refl, tt)), ((refl, tt), tt))

a-SplitAt : SplitAt (b'a' ∷ []) [] entry_a (entry_e ∷ [])
unfolding is_primary find_key equal
a-SplitAt = record {
  last_key = refl;
  last_primary = refl;
  none_after = refl;
  others_primary = tt;
  addresses = tt;
}

-- A second entry for the key a.
abbrev second_a : Mapent
second_a = mapent_at 14 (b'a' ∷ [])

head : Bytes → ℕ
head [] = 0
head (c ∷ _) = c

other_codes : (n : ℕ) → n ≡ b'e' → n ≢ b'a'
other_codes n h e = absurd (omega arith)

insert_drops_example :
    (mc' : Cache) × (insert second_a cache ≡ some mc')
    × (chain_of (b'a' ∷ []) mc' ≡ entry_a ∷ second_a ∷ [])
    × (cache_lookup_distinct cache (some (b'e' ∷ [])) ≡ entry_e ∷ [])
    × (cache_lookup_distinct mc' (some (b'e' ∷ [])) ≡ [])
unfolding hash find_key equal head
insert_drops_example =
    insert_drops second_a entry_a [] (entry_e ∷ []) cache (b'e' ∷ []) cache-IsCache refl a-SplitAt
      refl (λ e. other_codes b'e' refl (ap head e)) refl

-- The key f belongs on the chain of a and e.
abbrev entry_f : Mapent
entry_f = mapent_at 15 (b'f' ∷ [])

cache_delete_outcome_example :
    let r = cache_delete cache (b'a' ∷ []) in
    (r.0 ≡ che_ok)
    × (is_found (cache_lookup_distinct r.1 (some (b'a' ∷ []))) ≡ false)
    × (pointee (cache_lookup_distinct r.1 (some (b'e' ∷ []))) ≡ some entry_e)
unfolding hash find_key equal is_mm head cache_lookup_distinct
cache_delete_outcome_example =
    cache_delete_outcome cache (b'a' ∷ []) (b'e' ∷ []) cache-IsCache
      (λ e. other_codes b'e' refl (ap head e))

-- The cache of two chains after one addition.
abbrev one : Cache
one = record {
  size = 2;
  hash = (new_mapent 10 1 (b'a' ∷ []) none 50 ∷ []) ∷ [] ∷ [];
  ino_index = [] ∷ [] ∷ [];
}

one_added : cache_add true 10 (cache_init 2) 1 (b'a' ∷ []) none 50 ≡ some (che_ok, one)
unfolding cache_add cache_init hash cache_lookup_distinct
one_added = refl

Reach-IsCache_example : IsCache (cache_delete one (b'a' ∷ [])).1
Reach-IsCache_example = Reach-IsCache (
    next
      (next (start 2 (omega arith))
        (add true 10 (cache_init 2) 1 (b'a' ∷ []) none 50 (che_ok, one) one_added))
      (delete one (b'a' ∷ [])))
