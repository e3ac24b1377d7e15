-- ===== src/Cache/Steps.antt =====
-- lib/cache.c: additions and deletions, and the chain of each key.
use autofs.Prelude.{
  ℕ, zero, suc, ◌<◌, Bool, not, List, [], Option, none, some, ◌≡◌, refl, ap, if_both, All, length,
  replicate,
}
use autofs.Text.{Bytes, hash}
use autofs.Cache.{Mapent, Cache, chain_of, cache_lookup_distinct}
use autofs.Cache.Write.{
  Che, che_ok, link, set_chain, insert, new_mapent, cache_add, cache_init, cache_clean_null_cache,
}
use autofs.Cache.Delete.{cache_delete, cache_set_ino_index}
use autofs.Cache.Keeps.{AllOf, On, link-All, delete_chain-All, chain-On, set_chain-IsCache}
use autofs.Cache.Walk.{ArePlaced, IsCache}

insert-IsCache : (me : Mapent) (mc : Cache) → IsCache mc → AllOf IsCache (insert me mc)
unfolding insert
insert-IsCache me mc inv =
    inserted (link (cache_lookup_distinct mc (some me.key)) me (chain_of me.key mc))
      (link-All (On mc.size (hash me.key mc.size)) _ me _ refl (chain-On me.key mc inv))
  where
    i : ℕ
    i = hash me.key mc.size

    inserted :
        (o : Option (List Mapent))
        → AllOf (All (On mc.size i)) o
        → AllOf IsCache (elim o [ none ↦ none | some c ↦ some (set_chain i c mc) ])
    inserted none h = tt
    inserted (some c) h = set_chain-IsCache i c mc inv h

-- The cache that an operation leaves, where it ends.
abbrev pub Kept : Option (Che × Cache) → Type 0
Kept = AllOf (λ r. IsCache r.1)

pub cache_add-Kept :
    (alloc : Bool) (addr : ℕ) (mc : Cache) (ms : ℕ) (key : Bytes) (mapent : Option Bytes) (age : ℕ)
    → IsCache mc
    → Kept (cache_add alloc addr mc ms key mapent age)
unfolding cache_add
cache_add-Kept alloc addr mc ms key mapent age inv =
    if_both Kept (not alloc) (λ _. inv)
      (λ _. added_to (insert (new_mapent addr ms key mapent age) mc) (insert-IsCache _ mc inv))
  where
    added_to :
        (o : Option Cache)
        → AllOf IsCache o
        → Kept (elim o [ none ↦ none | some mc' ↦ some (che_ok, mc') ])
    added_to none h = tt
    added_to (some mc') h = h

pub cache_delete-IsCache : (mc : Cache) (key : Bytes) → IsCache mc → IsCache (cache_delete mc key).1
unfolding cache_delete
cache_delete-IsCache mc key inv =
    let kept = set_chain-IsCache (hash key mc.size) _ mc inv (
      delete_chain-All (On mc.size (hash key mc.size)) key (chain_of key mc)
        (chain-On key mc inv)) in
    record { size_pos = kept.size_pos; length_hash = kept.length_hash; placed = kept.placed }

pub cache_set_ino_index-IsCache :
    (mc : Cache) (me : Mapent) → IsCache mc → IsCache (cache_set_ino_index mc me)
unfolding cache_set_ino_index
cache_set_ino_index-IsCache mc me inv = record {
  size_pos = inv.size_pos;
  length_hash = inv.length_hash;
  placed = inv.placed;
}

replicate-ArePlaced : (size j n : ℕ) → ArePlaced size j (replicate n [])
replicate-ArePlaced size j zero = tt
replicate-ArePlaced size j (suc n) = (tt, replicate-ArePlaced size (suc j) n)

length-replicate : (n : ℕ) (c : List Mapent) → length (replicate n c) ≡ n
length-replicate zero c = refl
length-replicate (suc n) c = ap suc (length-replicate n c)

pub cache_init-IsCache : (size : ℕ) → 0 < size → IsCache (cache_init size)
unfolding cache_init
cache_init-IsCache size h = record {
  size_pos = h;
  length_hash = length-replicate size [];
  placed = replicate-ArePlaced size 0 size;
}

pub cache_clean_null_cache-IsCache : (mc : Cache) → IsCache mc → IsCache (cache_clean_null_cache mc)
unfolding cache_clean_null_cache
cache_clean_null_cache-IsCache mc inv = record {
  size_pos = inv.size_pos;
  length_hash = length-replicate mc.size [];
  placed = replicate-ArePlaced mc.size 0 mc.size;
}
