-- ===== src/Cache/Updates.antt =====
-- lib/cache.c: updates, negative entries, and the chain of each key.
use autofs.Prelude.{
  ℕ, suc, ◌+◌, Bool, true, not, ◌&&◌, List, [], ◌∷◌, Option, none, some, ◌≡◌, refl, arith, ◌==◌,
  if◌then◌else◌, if_both, length,
}
use autofs.Text.{Bytes, equal}
use autofs.Cache.{Mapent, Cache, cache_lookup_distinct, cache_lookup, wildcard}
use autofs.Cache.Write.{Che, che_fail, cache_push_mapent, cache_pop_mapent}
use autofs.Cache.Update.{
  source_loop, refresh, added, update_found, cache_update, update_duplicate, cache_update_offset,
  expire_negative, cache_lookup_negative, push_or_add, set_status, cache_update_negative,
}
use autofs.Cache.Keeps.{AllOf, change_entry-IsCache}
use autofs.Cache.Walk.{IsCache}
use autofs.Cache.Steps.{Kept, cache_add-Kept, cache_delete-IsCache}

-- A change of an entry does not touch its key.
refresh-key :
    (alloc : Bool) (mapent : Option Bytes) (age : ℕ) (m : Mapent)
    → (refresh alloc m mapent age).1.key ≡ m.key
unfolding refresh
refresh-key alloc none age m = ground arith
refresh-key alloc (some mapent) age m = ground arith

cache_pop_mapent-key : (m : Mapent) → (cache_pop_mapent m).1.key ≡ m.key
unfolding cache_pop_mapent
cache_pop_mapent-key m = ground arith

cache_push_mapent-key :
    (alloc : Bool) (mapent : Option Bytes) (m : Mapent)
    → (cache_push_mapent alloc mapent m).1.key ≡ m.key
unfolding cache_push_mapent
cache_push_mapent-key alloc mapent m = ground arith

added-Kept : (o : Option (Che × Cache)) → Kept o → Kept (added o)
unfolding added
added-Kept none h = tt
added-Kept (some (che_fail, mc)) h = h
added-Kept (some (_, mc)) h = h

update_found-Kept :
    (alloc : Bool) (addr : ℕ) (mc : Cache) (ms : ℕ) (key : Bytes) (mapent : Option Bytes) (age : ℕ)
    (me : List Mapent)
    → IsCache mc
    → Kept (update_found alloc addr mc ms key mapent age me)
unfolding update_found
update_found-Kept alloc addr mc ms key mapent age [] inv =
    added-Kept _ (cache_add-Kept alloc addr mc ms key mapent age inv)
update_found-Kept alloc addr mc ms key mapent age (me ∷ _) inv =
    if_both Kept (equal me.key wildcard && not (equal key wildcard))
      (λ _. added-Kept _ (cache_add-Kept alloc addr mc ms key mapent age inv))
      (λ _. change_entry-IsCache me.addr _ mc (refresh-key alloc mapent age) inv)

pub cache_update-Kept :
    (alloc : Bool) (addr : ℕ) (mc : Cache) (ms : ℕ) (key : Bytes) (mapent : Option Bytes) (age : ℕ)
    → IsCache mc
    → Kept (cache_update alloc addr mc ms key mapent age)
unfolding cache_update
cache_update-Kept alloc addr mc ms key mapent age inv =
    found (source_loop (suc (length (cache_lookup mc (some key)))) ms (cache_lookup mc (some key)))
  where
    found :
        (o : Option (List Mapent))
        → Kept (elim o [ none ↦ none | some me ↦ update_found alloc addr mc ms key mapent age me ])
    found none = tt
    found (some me) = update_found-Kept alloc addr mc ms key mapent age me inv

update_duplicate-Kept :
    (alloc : Bool) (mc : Cache) (owner : Mapent) (key mapent : Bytes) (age : ℕ) (me : List Mapent)
    → IsCache mc
    → Kept (update_duplicate alloc mc owner key mapent age me)
unfolding update_duplicate
update_duplicate-Kept alloc mc owner key mapent age [] inv = tt
update_duplicate-Kept alloc mc owner key mapent age (me ∷ _) inv =
    if_both Kept (me.age == age && (if me.addr == owner.addr then true else equal me.key key))
      (λ _.
        if_both IsCache alloc (λ _. change_entry-IsCache me.addr _ mc (λ m. refl) inv) (λ _. inv))
      (λ _. tt)

pub cache_update_offset-Kept :
    (alloc : Bool) (addr : ℕ) (mc : Cache) (mkey key mapent : Bytes) (age : ℕ)
    → IsCache mc
    → Kept (cache_update_offset alloc addr mc mkey key mapent age)
unfolding cache_update_offset
cache_update_offset-Kept alloc addr mc mkey key mapent age inv =
    owned (cache_lookup_distinct mc (some mkey))
  where
    unless :
        (ms : ℕ) (o : Option (Che × Cache))
        → Kept o
        → Kept (elim o [
          | some r ↦ some r
          | none ↦ cache_update alloc addr mc ms key (some mapent) age
        ])
    unless ms (some r) h = h
    unless ms none h = cache_update-Kept alloc addr mc ms key (some mapent) age inv

    owned :
        (l : List Mapent)
        → Kept (elim l [
          | [] ↦ some (che_fail, mc)
          | owner ∷ _ ↦
              elim (update_duplicate alloc mc owner key mapent age
                (cache_lookup_distinct mc (some key))) [
                  | some r ↦ some r
                  | none ↦ cache_update alloc addr mc owner.source key (some mapent) age
                ]
        ])
    owned [] = inv
    owned (owner ∷ _) = unless owner.source _ (
        update_duplicate-Kept alloc mc owner key mapent age (cache_lookup_distinct mc (some key))
          inv)

expire_negative-IsCache :
    (mc : Cache) (key : Bytes) (l : List Mapent) → IsCache mc → IsCache (expire_negative mc key l)
unfolding expire_negative
expire_negative-IsCache mc key [] inv = inv
expire_negative-IsCache mc key (sme ∷ _) inv = ground (
  arith,
  inv,
  cache_delete-IsCache mc key inv,
  change_entry-IsCache sme.addr (λ m. (cache_pop_mapent m).1) mc cache_pop_mapent-key inv,
)

pub cache_lookup_negative-IsCache :
    (now : ℕ) (mc : Cache) (me : Mapent) (key : Bytes)
    → IsCache mc
    → IsCache (cache_lookup_negative now mc me key).1
unfolding cache_lookup_negative
cache_lookup_negative-IsCache now mc me key inv =
    ground (arith, inv, expire_negative-IsCache mc key (cache_lookup_distinct mc (some key)) inv)

push_or_add-Kept :
    (alloc : Bool) (addr now : ℕ) (mc : Cache) (ms : ℕ) (key : Bytes) (l : List Mapent)
    → IsCache mc
    → Kept (push_or_add alloc addr now mc ms key l)
unfolding push_or_add
push_or_add-Kept alloc addr now mc ms key [] inv =
    cache_update-Kept alloc addr mc ms key none now inv
push_or_add-Kept alloc addr now mc ms key (me ∷ _) inv =
    change_entry-IsCache me.addr _ mc (cache_push_mapent-key alloc none) inv

set_status-IsCache :
    (until : ℕ) (mc : Cache) (l : List Mapent) → IsCache mc → IsCache (set_status until mc l)
unfolding set_status
set_status-IsCache until mc [] inv = inv
set_status-IsCache until mc (me ∷ _) inv = change_entry-IsCache me.addr _ mc (λ m. refl) inv

pub cache_update_negative-AllOf :
    (alloc : Bool) (addr now : ℕ) (mc : Cache) (ms : ℕ) (key : Bytes) (timeout : ℕ)
    → IsCache mc
    → AllOf IsCache (cache_update_negative alloc addr now mc ms key timeout)
unfolding cache_update_negative
cache_update_negative-AllOf alloc addr now mc ms key timeout inv =
    if_both (AllOf IsCache) (equal key wildcard) (λ _. inv)
      (λ _.
        after (push_or_add alloc addr now mc ms key (cache_lookup_distinct mc (some key)))
          (push_or_add-Kept alloc addr now mc ms key (cache_lookup_distinct mc (some key)) inv))
  where
    after :
        (o : Option (Che × Cache))
        → Kept o
        → AllOf IsCache (elim o [
          | none ↦ none
          | some (che_fail, mc') ↦ some mc'
          | some (_, mc') ↦
              some (set_status (now + timeout) mc' (cache_lookup_distinct mc' (some key)))
        ])
    after none h = tt
    after (some (che_fail, mc')) h = h
    after (some (_, mc')) h = set_status-IsCache _ mc' _ h
