-- ===== src/Cache/Source.antt =====
-- lib/cache.c: caches whose entries come from one map source. The searches of an update meet no entry
-- of another source there, so they end.
use autofs.Prelude.{
  ℕ, zero, suc, Bool, true, not, ◌&&◌, List, [], ◌∷◌, Option, none, some, ◌≡◌, refl, arith, ◌==◌,
  if◌then◌else◌, if_both, length, All, get_or, modify,
}
use autofs.Text.{Bytes, equal, equal_iff, hash}
use autofs.Cache.{
  if_null, Mapent, Cache, find_key, chain_of, cache_lookup_distinct, cache_lookup,
  cache_lookup_first, lookup_wildcard, wildcard, is_absolute,
}
use autofs.Cache.Write.{
  Che, che_fail, cache_add, insert, link, new_mapent, change_chains, change_entry,
}
use autofs.Cache.Update.{
  source_loop, refresh, added, update_found, cache_update, update_duplicate, cache_update_offset,
}
use autofs.Cache.Keeps.{change-All}

abbrev AllChains : (Mapent → Type 0) → List (List Mapent) → Type 0
AllChains P [] = Unit
AllChains P (c ∷ rest) = All P c × AllChains P rest

module _ (P : Mapent → Type 0) where
  find_key-All : (key : Bytes) (l : List Mapent) → All P l → All P (find_key key l)
  unfolding find_key
  find_key-All key [] h = tt
  find_key-All key (me ∷ next) h =
      if_both (All P) (equal key me.key) (λ _. h) (λ _. find_key-All key next h.1)

  get_or-All : (i : ℕ) (l : List (List Mapent)) → AllChains P l → All P (get_or l i [])
  get_or-All i [] h = tt
  get_or-All zero (c ∷ l) h = h.0
  get_or-All (suc i) (c ∷ l) h = get_or-All i l h.1

  modify-AllChains :
      (c : List Mapent) (i : ℕ) (l : List (List Mapent))
      → All P c
      → AllChains P l
      → AllChains P (modify (λ _. c) i l)
  modify-AllChains c i [] h k = tt
  modify-AllChains c zero (d ∷ l) h k = (h, k.1)
  modify-AllChains c (suc i) (d ∷ l) h k = (k.0, modify-AllChains c i l h k.1)

  change_chains-AllChains :
      (a : ℕ) (f : Mapent → Mapent) (l : List (List Mapent))
      → ((m : Mapent) → P m → P (f m))
      → AllChains P l
      → AllChains P (change_chains a f l)
  unfolding change_chains
  change_chains-AllChains a f [] k h = tt
  change_chains-AllChains a f (c ∷ l) k h =
      (change-All P a f c k h.0, change_chains-AllChains a f l k h.1)

  if_null-All : (l m : List Mapent) → All P l → All P m → All P (if_null l m)
  if_null-All [] m h k = k
  if_null-All (_ ∷ _) m h k = h

-- All entries of the cache come from the source.
abbrev IsOf : ℕ → Mapent → Type 0
IsOf ms me = me.source ≡ ms

abbrev pub HasSource : ℕ → Cache → Type 0
HasSource ms mc = AllChains (IsOf ms) mc.hash

-- An operation ends, and leaves such a cache.
abbrev pub Updated : ℕ → Option (Che × Cache) → Type 0
Updated ms none = ⊥
Updated ms (some r) = HasSource ms r.1

chain-IsOf : (ms : ℕ) (key : Bytes) (mc : Cache) → HasSource ms mc → All (IsOf ms) (chain_of key mc)
chain-IsOf ms key mc h = get_or-All (IsOf ms) (hash key mc.size) mc.hash h

cache_lookup_distinct-IsOf :
    (ms : ℕ) (key : Bytes) (mc : Cache)
    → HasSource ms mc
    → All (IsOf ms) (cache_lookup_distinct mc (some key))
unfolding cache_lookup_distinct
cache_lookup_distinct-IsOf ms key mc h =
    find_key-All (IsOf ms) key (chain_of key mc) (chain-IsOf ms key mc h)

lookup_wildcard-IsOf :
    (ms : ℕ) (mc : Cache) (l : List Mapent) → HasSource ms mc → All (IsOf ms) (lookup_wildcard mc l)
unfolding lookup_wildcard
lookup_wildcard-IsOf ms mc [] h = tt
lookup_wildcard-IsOf ms mc (first ∷ _) h =
    if_both (All (IsOf ms)) (is_absolute first.key) (λ _. tt)
      (λ _. find_key-All (IsOf ms) wildcard (chain_of wildcard mc) (chain-IsOf ms wildcard mc h))

cache_lookup-IsOf :
    (ms : ℕ) (key : Bytes) (mc : Cache)
    → HasSource ms mc
    → All (IsOf ms) (cache_lookup mc (some key))
unfolding cache_lookup
cache_lookup-IsOf ms key mc h =
    if_null-All (IsOf ms) (find_key key (chain_of key mc))
      (lookup_wildcard mc (cache_lookup_first mc))
      (find_key-All (IsOf ms) key (chain_of key mc) (chain-IsOf ms key mc h))
      (lookup_wildcard-IsOf ms mc (cache_lookup_first mc) h)

pub change_entry-HasSource :
    (ms a : ℕ) (f : Mapent → Mapent) (mc : Cache)
    → ((m : Mapent) → (f m).source ≡ m.source)
    → HasSource ms mc
    → HasSource ms (change_entry a f mc)
unfolding change_entry
change_entry-HasSource ms a f mc k h =
    change_chains-AllChains (IsOf ms) a f mc.hash (λ m e. rw (k m) e) h

cache_add-Updated :
    (alloc : Bool) (addr : ℕ) (mc : Cache) (ms : ℕ) (key : Bytes) (mapent : Option Bytes) (age : ℕ)
    → HasSource ms mc
    → cache_lookup_distinct mc (some key) ≡ []
    → Updated ms (cache_add alloc addr mc ms key mapent age)
unfolding cache_add insert link new_mapent
cache_add-Updated alloc addr mc ms key mapent age h e =
    if_both (Updated ms) (not alloc) (λ _. h)
      (λ _.
        rw (e, link)
          (modify-AllChains (IsOf ms) _ (hash key mc.size) mc.hash (refl, chain-IsOf ms key mc h)
            h))

added-Updated : (ms : ℕ) (o : Option (Che × Cache)) → Updated ms o → Updated ms (added o)
unfolding added
added-Updated ms none h = h
added-Updated ms (some (che_fail, mc)) h = h
added-Updated ms (some (_, mc)) h = h

refresh-source :
    (alloc : Bool) (mapent : Option Bytes) (age : ℕ) (m : Mapent)
    → (refresh alloc m mapent age).1.source ≡ m.source
unfolding refresh
refresh-source alloc none age m = ground arith
refresh-source alloc (some mapent) age m = ground arith

source_loop_first :
    (n ms : ℕ) (l : List Mapent) → All (IsOf ms) l → source_loop (suc n) ms l ≡ some l
unfolding source_loop
source_loop_first n ms [] h = refl
source_loop_first n ms (me ∷ next) (e, _) = ground arith

update_found-Updated :
    (alloc : Bool) (addr : ℕ) (mc : Cache) (ms : ℕ) (key : Bytes) (mapent : Option Bytes) (age : ℕ)
    (l : List Mapent)
    → HasSource ms mc
    → cache_lookup_distinct mc (some key) ≡ []
    → Updated ms (update_found alloc addr mc ms key mapent age l)
unfolding update_found
update_found-Updated alloc addr mc ms key mapent age [] h e =
    added-Updated ms _ (cache_add-Updated alloc addr mc ms key mapent age h e)
update_found-Updated alloc addr mc ms key mapent age (me ∷ _) h e =
    if_both (Updated ms) (equal me.key wildcard && not (equal key wildcard))
      (λ _. added-Updated ms _ (cache_add-Updated alloc addr mc ms key mapent age h e))
      (λ _. change_entry-HasSource ms me.addr _ mc (refresh-source alloc mapent age) h)

find_key_head :
    (key : Bytes) (l : List Mapent) (me : Mapent) (next : List Mapent)
    → find_key key l ≡ me ∷ next
    → equal key me.key ≡ true
unfolding find_key
find_key_head key [] me next e = ground arith
find_key_head key (m ∷ l) me next e = ground (arith, find_key_head key l me next)

-- An entry of the key is refreshed, whether its key is the wildcard or not.
update_same-Updated :
    (alloc : Bool) (addr : ℕ) (mc : Cache) (ms : ℕ) (key : Bytes) (mapent : Option Bytes) (age : ℕ)
    (me : Mapent) (next : List Mapent)
    → HasSource ms mc
    → equal key me.key ≡ true
    → Updated ms (update_found alloc addr mc ms key mapent age (me ∷ next))
unfolding update_found
update_same-Updated alloc addr mc ms key mapent age me next h e =
    let same = (equal_iff key me.key).0 e in
    if_both (Updated ms) (equal me.key wildcard && not (equal key wildcard))
      (λ f. absurd (ground arith))
      (λ _. change_entry-HasSource ms me.addr _ mc (refresh-source alloc mapent age) h)

cache_update-Updated :
    (alloc : Bool) (addr : ℕ) (mc : Cache) (ms : ℕ) (key : Bytes) (mapent : Option Bytes) (age : ℕ)
    → HasSource ms mc
    → Updated ms (cache_update alloc addr mc ms key mapent age)
unfolding cache_update
cache_update-Updated alloc addr mc ms key mapent age h =
    searched
      (source_loop (suc (length (cache_lookup mc (some key)))) ms (cache_lookup mc (some key)))
      (source_loop_first (length (cache_lookup mc (some key))) ms (cache_lookup mc (some key))
        (cache_lookup-IsOf ms key mc h))
  where
    split :
        (d : List Mapent)
        → cache_lookup_distinct mc (some key) ≡ d
        → Updated ms (update_found alloc addr mc ms key mapent age (cache_lookup mc (some key)))
    split [] e = update_found-Updated alloc addr mc ms key mapent age _ h e
    split (me ∷ next) e =
        let f : find_key key (chain_of key mc) ≡ me ∷ next = unfold cache_lookup_distinct in e in
        let g : cache_lookup mc (some key) ≡ me ∷ next =
          unfold cache_lookup in rw (f, if_null) refl in
        rw g (
          update_same-Updated alloc addr mc ms key mapent age me next h
            (find_key_head key (chain_of key mc) me next f))

    searched :
        (o : Option (List Mapent))
        → o ≡ some (cache_lookup mc (some key))
        → Updated ms
            (elim o [ none ↦ none | some me ↦ update_found alloc addr mc ms key mapent age me ])
    searched o e = rw e (split (cache_lookup_distinct mc (some key)) refl)

-- In a cache all of whose entries come from one map source an update of an offset ends, whether there
-- is memory for it or not, and leaves a cache of that source.
pub cache_update_offset-Updated :
    (alloc : Bool) (addr : ℕ) (mc : Cache) (ms : ℕ) (mkey key mapent : Bytes) (age : ℕ)
    → HasSource ms mc
    → Updated ms (cache_update_offset alloc addr mc mkey key mapent age)
unfolding cache_update_offset
cache_update_offset-Updated alloc addr mc ms mkey key mapent age h =
    owned (cache_lookup_distinct mc (some mkey)) (cache_lookup_distinct-IsOf ms mkey mc h)
  where
    duplicate : (owner : Mapent) → List Mapent → Option (Che × Cache)
    duplicate owner l = update_duplicate alloc mc owner key mapent age l

    updated :
        (owner : Mapent) (l : List Mapent)
        → owner.source ≡ ms
        → Updated ms (elim (duplicate owner l) [
          | some r ↦ some r
          | none ↦ cache_update alloc addr mc owner.source key (some mapent) age
        ])
    updated owner [] e =
        unfold update_duplicate in
        rw e (cache_update-Updated alloc addr mc ms key (some mapent) age h)
    updated owner (me ∷ _) e =
        unfold update_duplicate in
        if_both
          (λ (o : Option (Che × Cache)). Updated ms (elim o [
            | some r ↦ some r
            | none ↦ cache_update alloc addr mc owner.source key (some mapent) age
          ]))
          (me.age == age && (if me.addr == owner.addr then true else equal me.key key))
          (λ _.
            if_both (HasSource ms) alloc (λ _. change_entry-HasSource ms me.addr _ mc (λ m. refl) h)
              (λ _. h))
          (λ _. rw e (cache_update-Updated alloc addr mc ms key (some mapent) age h))

    owned :
        (l : List Mapent)
        → All (IsOf ms) l
        → Updated ms (elim l [
          | [] ↦ some (che_fail, mc)
          | owner ∷ _ ↦ elim (duplicate owner (cache_lookup_distinct mc (some key))) [
            | some r ↦ some r
            | none ↦ cache_update alloc addr mc owner.source key (some mapent) age
          ]
        ])
    owned [] _ = h
    owned (owner ∷ _) k = updated owner (cache_lookup_distinct mc (some key)) k.0
