-- ===== src/Cache/Update.antt =====
-- lib/cache.c: updates of entries, and entries for keys that are known not to exist.
use autofs.Prelude.{
  ℕ, zero, suc, ◌+◌, Bool, true, false, not, ◌&&◌, List, [], ◌∷◌, Option, none, some, ◌==◌,
  if◌then◌else◌, leb, length,
}
use autofs.Text.{Bytes, equal}
use autofs.Cache.{
  Mapent, Cache, cache_lookup_key_next, cache_lookup_distinct, cache_lookup, wildcard,
}
use autofs.Cache.Write.{
  Che, che_fail, che_ok, che_updated, che_duplicate, che_unavail, cache_add, change_entry,
  cache_push_mapent, cache_pop_mapent,
}
use autofs.Cache.Delete.{cache_delete}

-- `while (me && me->source != ms)` of `cache_update`.
unfoldable pub source_loop : ℕ → ℕ → List Mapent → Option (List Mapent)
source_loop zero ms me = none
source_loop (suc fuel) ms [] = some []
source_loop (suc fuel) ms (me ∷ next) = elim (me.source == ms) [
  | true ↦ some (me ∷ next)
  | false ↦ elim (cache_lookup_key_next (length (me ∷ next)) (me ∷ next)) [
    | none ↦ none
    | some rest ↦ source_loop fuel ms rest
  ]
]

-- `!me->mapent || strcmp(me->mapent, mapent) != 0`
unfoldable pub differs : Option Bytes → Bytes → Bool
differs none mapent = true
differs (some old) mapent = not (equal old mapent)

-- `cache_update` for an entry that was found.
unfoldable pub refresh : (alloc : Bool) → Mapent → Option Bytes → ℕ → Che × Mapent
unfolding differs
refresh alloc me none age =
    if me.age == age then (che_ok, me) else (che_ok, record me { mapent = none; age = age })
refresh alloc me (some mapent) age =
    if me.age == age
    then (che_ok, me)
    else if not (differs me.mapent mapent)
    then (che_ok, record me { age = age })
    else if not alloc
    then (che_fail, me)
    else (che_updated, record me { mapent = some mapent; age = age })

-- The result of `cache_update` where it adds an entry.
unfoldable pub added : Option (Che × Cache) → Option (Che × Cache)
added none = none
added (some (che_fail, mc)) = some (che_fail, mc)
added (some (_, mc)) = some (che_updated, mc)

-- `cache_update` after its search.
unfoldable pub update_found :
    (alloc : Bool) (addr : ℕ)
    → Cache
    → (ms : ℕ) → Bytes
    → Option Bytes
    → ℕ
    → List Mapent
    → Option (Che × Cache)
unfolding refresh added
update_found alloc addr mc ms key mapent age [] = added (cache_add alloc addr mc ms key mapent age)
update_found alloc addr mc ms key mapent age (me ∷ _) =
    if equal me.key wildcard && not (equal key wildcard)
    then added (cache_add alloc addr mc ms key mapent age)
    else some (
      (refresh alloc me mapent age).0,
      change_entry me.addr (λ m. (refresh alloc m mapent age).1) mc,
    )

unfoldable pub cache_update :
    (alloc : Bool) (addr : ℕ) → Cache → (ms : ℕ) → Bytes → Option Bytes → ℕ → Option (Che × Cache)
unfolding update_found source_loop
cache_update alloc addr mc ms key mapent age =
    let found = cache_lookup mc (some key) in
    elim (source_loop (suc (length found)) ms found) [
      | none ↦ none
      | some me ↦ update_found alloc addr mc ms key mapent age me
    ]

-- `cache_update_offset`, for an entry that `cache_lookup_distinct` finds. The `strcmp` of its inner
-- test is true of whatever that finds, so the test is left as the code has it.
unfoldable pub update_duplicate :
    (alloc : Bool)
    → Cache
    → (owner : Mapent) → Bytes
    → Bytes
    → ℕ
    → List Mapent
    → Option (Che × Cache)
update_duplicate alloc mc owner key mapent age [] = none
update_duplicate alloc mc owner key mapent age (me ∷ _) =
    if me.age == age && (if me.addr == owner.addr then true else equal me.key key)
    then some (
      che_duplicate,
      if alloc then change_entry me.addr (λ m. record m { mapent = some mapent }) mc else mc,
    )
    else none

unfoldable pub cache_update_offset :
    (alloc : Bool) (addr : ℕ) → Cache → (mkey key mapent : Bytes) → ℕ → Option (Che × Cache)
unfolding update_duplicate
cache_update_offset alloc addr mc mkey key mapent age =
    elim (cache_lookup_distinct mc (some mkey)) [
      | [] ↦ some (che_fail, mc)
      | owner ∷ _ ↦
          elim (update_duplicate alloc mc owner key mapent age
            (cache_lookup_distinct mc (some key))) [
              | some r ↦ some r
              | none ↦ cache_update alloc addr mc owner.source key (some mapent) age
            ]
    ]

-- `cache_lookup_negative`, on the cache of the entry. `now` is the clock.
unfoldable pub expire_negative : Cache → Bytes → List Mapent → Cache
expire_negative mc key [] = mc
expire_negative mc key (sme ∷ _) = elim sme.mapent [
  | some _ ↦ mc
  | none ↦ elim (cache_pop_mapent sme).0 [
    | che_fail ↦ (cache_delete mc key).1
    | _ ↦ change_entry sme.addr (λ m. (cache_pop_mapent m).1) mc
  ]
]

unfoldable pub cache_lookup_negative : (now : ℕ) → Cache → Mapent → Bytes → Che × Cache
unfolding expire_negative
cache_lookup_negative now mc me key = if leb now me.status then (che_unavail, mc) else (
  che_ok,
  elim me.mapent [
    | some _ ↦ mc
    | none ↦ expire_negative mc key (cache_lookup_distinct mc (some key))
  ],
)

-- The first part of `cache_update_negative`: push an empty entry on what is there, or add one.
unfoldable pub push_or_add :
    (alloc : Bool) (addr now : ℕ) → Cache → (ms : ℕ) → Bytes → List Mapent → Option (Che × Cache)
push_or_add alloc addr now mc ms key [] = cache_update alloc addr mc ms key none now
push_or_add alloc addr now mc ms key (me ∷ _) = some (
  (cache_push_mapent alloc none me).0,
  change_entry me.addr (λ m. (cache_push_mapent alloc none m).1) mc,
)

-- The second part: set the time until which lookups fail.
unfoldable pub set_status : (until : ℕ) → Cache → List Mapent → Cache
set_status until mc [] = mc
set_status until mc (me ∷ _) = change_entry me.addr (λ m. record m { status = until }) mc

unfoldable pub cache_update_negative :
    (alloc : Bool) (addr now : ℕ) → Cache → (ms : ℕ) → Bytes → (timeout : ℕ) → Option Cache
unfolding push_or_add set_status
cache_update_negative alloc addr now mc ms key timeout =
    if equal key wildcard
    then some mc
    else elim (push_or_add alloc addr now mc ms key (cache_lookup_distinct mc (some key))) [
      | none ↦ none
      | some (che_fail, mc') ↦ some mc'
      | some (_, mc') ↦ some (set_status (now + timeout) mc' (cache_lookup_distinct mc' (some key)))
    ]
