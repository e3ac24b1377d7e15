-- ===== src/Cache/Write.antt =====
-- lib/cache.c: the functions that change the cache. `alloc` says whether the memory that a call asks
-- for is there, and `addr` is the address of a new entry. Where a search can fail to end the result
-- is `none`.
use autofs.Prelude.{
  ℕ, zero, suc, ◌^◌, ◌-◌, Bool, not, List, [], ◌∷◌, Option, none, some, ◌==◌, if◌then◌else◌, ltb,
  length, modify, replicate,
}
use autofs.Text.{Bytes, hash}
use autofs.Cache.{Saved, Mapent, Cache, chain_of, cache_lookup_key_next, cache_lookup_distinct}

-- `CHE_FAIL` and so on.
pub data Che : Type 0 where
  che_fail che_ok che_updated che_duplicate che_unavail : Che

-- `cache_push_mapent`
unfoldable pub cache_push_mapent : (alloc : Bool) → Option Bytes → Mapent → Che × Mapent
cache_push_mapent alloc mapent me = elim me.mapent [
  | none ↦ (che_fail, me)
  | some old ↦ if not alloc then (che_fail, me) else (
    che_ok,
    record me { mapent = mapent; stack = record { mapent = some old; age = me.age } ∷ me.stack },
  )
]

pop_saved : List Saved → Mapent → Che × Mapent
pop_saved [] me = (che_fail, me)
pop_saved (s ∷ next) me = elim s.mapent [
  | none ↦ (che_fail, me)
  | some mapent ↦
      if ltb s.age me.age
      then (che_ok, record me { stack = next })
      else (che_ok, record me { stack = next; mapent = some mapent })
]

-- `cache_pop_mapent`
unfoldable pub cache_pop_mapent : Mapent → Che × Mapent
unfolding pop_saved
cache_pop_mapent me = pop_saved me.stack me

-- `cache_init` and `cache_init_null_cache`, where memory is there: `size` is the configured size, or
-- `NULL_MAP_HASHSIZE`.
unfoldable pub cache_init : ℕ → Cache
cache_init size = record { size = size; hash = replicate size []; ino_index = replicate size [] }

-- `cache_clean_null_cache`
unfoldable pub cache_clean_null_cache : Cache → Cache
cache_clean_null_cache mc = record mc { hash = replicate mc.size [] }

-- The entry that `cache_add` makes; -1 as a device or inode number is the largest.
unfoldable pub new_mapent : (addr ms : ℕ) → Bytes → Option Bytes → ℕ → Mapent
new_mapent a ms name ent t = record {
  addr = a;
  source = ms;
  mm_root = none;
  key = name;
  mapent = ent;
  stack = [];
  age = t;
  status = 0;
  ioctlfd = none;
  dev = 2 ^ 64 - 1;
  ino = 2 ^ 64 - 1;
}

-- The loop of `cache_add` to the last entry of the key.
unfoldable pub last_loop : ℕ → List Mapent → Option (List Mapent)
last_loop zero existing = none
last_loop (suc fuel) existing = elim (cache_lookup_key_next (length existing) existing) [
  | none ↦ none
  | some [] ↦ some existing
  | some (me ∷ next) ↦ last_loop fuel (me ∷ next)
]

-- `existing->next = me`, where `me->next` is NULL: what followed is no longer linked.
unfoldable pub set_next : ℕ → Mapent → List Mapent → List Mapent
set_next a me [] = []
set_next a me (this ∷ next) = if this.addr == a then this ∷ me ∷ [] else this ∷ set_next a me next

-- The end of `cache_add`, for the entries that `cache_lookup_distinct` finds.
unfoldable pub link : List Mapent → Mapent → List Mapent → Option (List Mapent)
unfolding last_loop set_next
link [] me c = some (me ∷ c)
link (first ∷ next) me c = elim (last_loop (length (first ∷ next)) (first ∷ next)) [
  | none ↦ none
  | some [] ↦ none
  | some (existing ∷ _) ↦ some (set_next existing.addr me c)
]

abbrev pub set_chain : ℕ → List Mapent → Cache → Cache
set_chain i c mc = record mc { hash = modify (λ _. c) i mc.hash }

-- The steps of `cache_add` once the entry is made.
unfoldable pub insert : Mapent → Cache → Option Cache
unfolding link
insert me mc = elim (link (cache_lookup_distinct mc (some me.key)) me (chain_of me.key mc)) [
  | none ↦ none
  | some c ↦ some (set_chain (hash me.key mc.size) c mc)
]

unfoldable pub cache_add :
    (alloc : Bool) (addr : ℕ) → Cache → (ms : ℕ) → Bytes → Option Bytes → ℕ → Option (Che × Cache)
unfolding insert new_mapent
cache_add alloc addr mc ms key mapent age =
    if not alloc
    then some (che_fail, mc)
    else elim (insert (new_mapent addr ms key mapent age) mc) [
      | none ↦ none
      | some mc' ↦ some (che_ok, mc')
    ]

-- A write through a pointer to the entry at an address.
unfoldable pub change : ℕ → (Mapent → Mapent) → List Mapent → List Mapent
change a f [] = []
change a f (me ∷ next) = if me.addr == a then f me ∷ next else me ∷ change a f next

unfoldable pub change_chains : ℕ → (Mapent → Mapent) → List (List Mapent) → List (List Mapent)
unfolding change
change_chains a f [] = []
change_chains a f (c ∷ rest) = change a f c ∷ change_chains a f rest

unfoldable pub change_entry : ℕ → (Mapent → Mapent) → Cache → Cache
unfolding change_chains
change_entry a f mc = record mc { hash = change_chains a f mc.hash }
