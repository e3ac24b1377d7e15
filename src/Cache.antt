-- ===== src/Cache.antt =====
-- lib/cache.c: the cache of map entries, and the functions that read it. A pointer to an entry is
-- read as the rest of its chain from that entry on, with [] for NULL; `addr` is its address, by which
-- the functions of Cache.Write, Update and Delete change it.
pub mod Write
pub mod Delete
pub mod Update
pub mod Walk
pub mod NextKey
pub mod Deleted
pub mod Keeps
pub mod Steps
pub mod Updates
pub mod Last
pub mod System
pub mod Order
pub mod PushPop
pub mod Source
mod Examples
use autofs.Prelude.{
  ℕ, zero, suc, ◌+◌, ◌%◌, ◌^◌, Bool, true, false, not, ◌&&◌, List, [], ◌∷◌, Option, none, some,
  ◌==◌, if◌then◌else◌, ltb, length, get_or, drop,
}
use autofs.Text.{Bytes, equal, is_prefix, hash}

-- `struct stack`
pub record Saved : Type 0 where
  pub mapent : Option Bytes
  pub age : ℕ

-- `struct mapent`. `mm_root` is the address of the entry whose tree node is the root, if any; a file
-- descriptor of -1 is `none`; `source` is the address of the map source.
pub record Mapent : Type 0 where
  pub addr : ℕ
  pub source : ℕ
  pub mm_root : Option ℕ
  pub key : Bytes
  pub mapent : Option Bytes
  pub stack : List Saved
  pub age : ℕ
  pub status : ℕ
  pub ioctlfd : Option ℕ
  pub dev : ℕ
  pub ino : ℕ

-- `struct mapent_cache`: the chains of `hash`, and the addresses on the lists of `ino_index`.
pub record Cache : Type 0 where
  pub size : ℕ
  pub hash : List (List Mapent)
  pub ino_index : List (List ℕ)

-- `IS_MM`
unfoldable pub is_mm : Mapent → Bool
is_mm me = elim me.mm_root [ none ↦ false | some _ ↦ true ]

-- `IS_MM_ROOT`
unfoldable pub is_mm_root : Mapent → Bool
is_mm_root me = elim me.mm_root [ none ↦ false | some root ↦ root == me.addr ]

-- Multi mount entries are not primary, unless they are the root.
unfoldable pub is_primary : Mapent → Bool
unfolding is_mm is_mm_root
is_primary me = not (is_mm me && not (is_mm_root me))

abbrev pub chain : ℕ → Cache → List Mapent
chain i mc = get_or mc.hash i []

-- The chain of a key.
abbrev pub chain_of : Bytes → Cache → List Mapent
chain_of key mc = chain (hash key mc.size) mc

-- The first pointer, or the second if the first is NULL.
abbrev pub if_null : List Mapent → List Mapent → List Mapent
if_null [] other = other
if_null (me ∷ next) other = me ∷ next

-- The loops over a chain that compare keys.
unfoldable pub find_key : Bytes → List Mapent → List Mapent
find_key key [] = []
find_key key (me ∷ next) = if equal key me.key then me ∷ next else find_key key next

-- The loops over a chain that skip what is not primary.
unfoldable pub next_primary : List Mapent → List Mapent
unfolding is_primary
next_primary [] = []
next_primary (me ∷ next) = if is_primary me then me ∷ next else next_primary next

-- The loops over the chains of `cache_lookup_first` and `cache_lookup_next`.
unfoldable pub first_of_chains : List (List Mapent) → List Mapent
unfolding next_primary
first_of_chains [] = []
first_of_chains (c ∷ rest) = if_null (next_primary c) (first_of_chains rest)

unfoldable pub cache_lookup_first : Cache → List Mapent
unfolding first_of_chains
cache_lookup_first mc = first_of_chains mc.hash

-- `hashval` cannot wrap: it is at most `mc->size`, an unsigned int.
unfoldable pub cache_lookup_next : Cache → List Mapent → List Mapent
unfolding first_of_chains
cache_lookup_next mc [] = []
cache_lookup_next mc (me ∷ next) =
    let hashval = hash me.key mc.size + 1 in
    if_null (next_primary next)
      (if ltb hashval mc.size then first_of_chains (drop hashval mc.hash) else [])

unfoldable pub cache_enumerate : Cache → List Mapent → List Mapent
unfolding cache_lookup_first cache_lookup_next
cache_enumerate mc [] = cache_lookup_first mc
cache_enumerate mc (me ∷ next) = cache_lookup_next mc (me ∷ next)

-- The loop of `cache_lookup_key_next`, `none` if it does not end: where the entry `me` is not primary
-- the loop goes round without moving on.
unfoldable pub key_next_loop : ℕ → Mapent → List Mapent → Option (List Mapent)
unfolding is_primary
key_next_loop zero me next = none
key_next_loop (suc fuel) me [] = some []
key_next_loop (suc fuel) me (this ∷ next) = elim (not (is_primary me)) [
  | true ↦ key_next_loop fuel me (this ∷ next)
  | false ↦ elim (equal me.key this.key) [
    | true ↦ some (this ∷ next)
    | false ↦ key_next_loop fuel me next
  ]
]

unfoldable pub cache_lookup_key_next : ℕ → List Mapent → Option (List Mapent)
unfolding key_next_loop
cache_lookup_key_next fuel [] = some []
cache_lookup_key_next fuel (me ∷ next) = key_next_loop fuel me next

unfoldable pub cache_lookup_distinct : Cache → Option Bytes → List Mapent
unfolding find_key
cache_lookup_distinct mc none = []
cache_lookup_distinct mc (some key) = find_key key (chain_of key mc)

-- `*me->key == '/'`
unfoldable pub is_absolute : Bytes → Bool
is_absolute [] = false
is_absolute (c ∷ _) = c == b'/'

abbrev pub wildcard : Bytes
wildcard = b'*' ∷ []

-- `cache_lookup` from `cache_lookup_first` on.
unfoldable pub lookup_wildcard : Cache → List Mapent → List Mapent
unfolding is_absolute find_key
lookup_wildcard mc [] = []
lookup_wildcard mc (first ∷ _) =
    if is_absolute first.key then [] else find_key wildcard (chain_of wildcard mc)

unfoldable pub cache_lookup : Cache → Option Bytes → List Mapent
unfolding lookup_wildcard cache_lookup_first find_key
cache_lookup mc none = []
cache_lookup mc (some key) =
    if_null (find_key key (chain_of key mc)) (lookup_wildcard mc (cache_lookup_first mc))

-- `LKP_NORMAL` and `LKP_WILD`
pub data MatchType : Type 0 where
  lkp_normal lkp_wild : MatchType

-- What follows the prefix in a key must begin with a slash, and with a slash and a star for `LKP_WILD`.
unfoldable pub rest_matches : MatchType → Bytes → Bool
rest_matches lkp_normal (c ∷ _) = c == b'/'
rest_matches lkp_wild (c ∷ d ∷ _) = c == b'/' && d == b'*'
rest_matches _ _ = false

unfoldable pub matches : MatchType → Bytes → Mapent → Bool
unfolding is_prefix rest_matches
matches type prefix me = is_prefix prefix me.key && rest_matches type (drop (length prefix) me.key)

find_match : MatchType → Bytes → List Mapent → List Mapent
unfolding matches
find_match type prefix [] = []
find_match type prefix (me ∷ next) =
    if matches type prefix me then me ∷ next else find_match type prefix next

match_chains : MatchType → Bytes → List (List Mapent) → List Mapent
unfolding find_match
match_chains type prefix [] = []
match_chains type prefix (c ∷ rest) =
    if_null (find_match type prefix c) (match_chains type prefix rest)

-- `__cache_partial_match`, and with it `cache_partial_match` and `cache_partial_match_wild`.
unfoldable pub cache_partial_match : Cache → MatchType → Bytes → List Mapent
unfolding match_chains
cache_partial_match mc type prefix = match_chains type prefix mc.hash

-- `ino_hash`: the sum of two 64-bit numbers is cut to 32 bits.
unfoldable pub ino_hash : (dev ino size : ℕ) → ℕ
ino_hash dev ino size = (dev + ino) % 2 ^ 32 % size

-- The entry at an address; `none` where no chain has one.
unfoldable pub find_addr : ℕ → List Mapent → Option Mapent
find_addr a [] = none
find_addr a (me ∷ next) = if me.addr == a then some me else find_addr a next

unfoldable pub entry_at : ℕ → List (List Mapent) → Option Mapent
unfolding find_addr
entry_at a [] = none
entry_at a (c ∷ rest) = elim (find_addr a c) [ none ↦ entry_at a rest | some me ↦ some me ]

-- The loop of `cache_lookup_ino`; an address that is no entry's is passed over.
unfoldable pub find_ino : Cache → (dev ino : ℕ) → List ℕ → Option Mapent
unfolding entry_at
find_ino mc dev ino [] = none
find_ino mc dev ino (a ∷ rest) = elim (entry_at a mc.hash) [
  | none ↦ find_ino mc dev ino rest
  | some me ↦ if me.dev == dev && me.ino == ino then some me else find_ino mc dev ino rest
]

unfoldable pub cache_lookup_ino : Cache → (dev ino : ℕ) → Option Mapent
unfolding find_ino ino_hash
cache_lookup_ino mc dev ino =
    find_ino mc dev ino (get_or mc.ino_index (ino_hash dev ino mc.size) [])
