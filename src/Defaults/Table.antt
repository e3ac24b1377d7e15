-- ===== src/Defaults/Table.antt =====
-- lib/defaults.c: what a search of the table finds after an addition or an update.
use autofs.Prelude.{
  ℕ, ◌+◌, ◌≤◌, true, false, ◌&&◌, List, [], ◌∷◌, ◌++◌, Option, none, some, ◌≡◌, refl, ap, ◌∙◌,
  arith, ◌==◌, if◌then◌else◌, length, or_else,
}
use autofs.Text.{Bytes, lower, equal_nocase, equal_nocase_iff, equal_nocase_refl, hash}
use autofs.Defaults.{
  ConfOption, Config, cfg_table_size, path_max, get_hash, set_chain, wanted_value, set_user_env,
  conf_add, is_option, find_option, conf_lookup_key, old_key, conf_lookup, set_option,
  update_option, conf_update,
}

-- Keys that differ in case only stand on the same chain.
pub get_hash-lower : (a b : Bytes) → lower a ≡ lower b → get_hash a ≡ get_hash b
unfolding get_hash
get_hash-lower a b e = ap (λ s. hash s cfg_table_size) e

pub find_option-append :
    (s k : Bytes) (l l' : List ConfOption)
    → find_option s k (l ++ l') ≡ or_else (find_option s k l) (find_option s k l')
unfolding find_option
find_option-append s k [] l' = refl
find_option-append s k (co ∷ l) l' = ground (arith, find_option-append s k l l')

-- What is found has the section and the key.
pub find_option-is_option :
    (s k : Bytes) (l : List ConfOption) (co : ConfOption)
    → find_option s k l ≡ some co
    → is_option s k co ≡ true
unfolding find_option
find_option-is_option s k [] co e = ground arith
find_option-is_option s k (c ∷ l) co e = ground (arith, find_option-is_option s k l co)

abbrev pub with_value : Option Bytes → ℕ → Option ConfOption → Option ConfOption
with_value val flags none = none
with_value val flags (some co) =
    some (record co { value = val; flags = if flags == 0 then co.flags else flags })

pub find_option-set_option :
    (s k s' k' : Bytes) (val : Option Bytes) (flags : ℕ) (l : List ConfOption)
    → find_option s' k' (set_option s k val flags l) ≡ (
        if equal_nocase s' s && equal_nocase k' k
        then with_value val flags (find_option s' k' l)
        else find_option s' k' l)
unfolding find_option set_option
find_option-set_option s k s' k' val flags [] = ground arith
find_option-set_option s k s' k' val flags (co ∷ l) = ground (
  arith,
  find_option-set_option s k s' k' val flags l,
  equal_nocase_iff s' s,
  equal_nocase_iff k' k,
  equal_nocase_iff s co.section,
  equal_nocase_iff k co.name,
  equal_nocase_iff s' co.section,
  equal_nocase_iff k' co.name,
)

-- A chain that is replaced: what other keys find is as before.
pub conf_lookup_key-set_chain :
    (key : Bytes) (c : List ConfOption) (config : Config) (s k : Bytes)
    → conf_lookup_key (set_chain (get_hash key) c config) s k
      ≡ (if get_hash k == get_hash key then find_option s k c else conf_lookup_key config s k)
unfolding conf_lookup_key
conf_lookup_key-set_chain key c config s k = ground arith

-- The environment has no part in a search.
lookup-environ :
    (key : Bytes) (c : List ConfOption) (config : Config) (environ : Bytes → Option Bytes)
    (s k : Bytes)
    → conf_lookup_key (set_chain (get_hash key) c (record config { environ = environ })) s k
      ≡ conf_lookup_key (set_chain (get_hash key) c config) s k
unfolding conf_lookup_key
lookup-environ key c config environ s k = refl

lookup-chain :
    (config : Config) (s k : Bytes) (h : ℕ)
    → get_hash k ≡ h
    → conf_lookup_key config s k ≡ find_option s k (config.hash h)
unfolding conf_lookup_key
lookup-chain config s k h e = ap (λ i. find_option s k (config.hash i)) e

find_option-last :
    (s k : Bytes) (co : ConfOption)
    → find_option s k (co ∷ []) ≡ (if is_option s k co then some co else none)
unfolding find_option
find_option-last s k co = refl

-- What a search finds after the entry `co` was added at the end of its chain.
lookup-added :
    (config : Config) (co : ConfOption) (s k : Bytes)
    → conf_lookup_key
        (set_chain (get_hash co.name) (config.hash (get_hash co.name) ++ co ∷ []) config)
        s
        k
      ≡ or_else (conf_lookup_key config s k) (if is_option s k co then some co else none)
lookup-added config co s k =
    conf_lookup_key-set_chain co.name _ config s k
    ∙ ground (
      arith,
      find_option-append s k (config.hash (get_hash co.name)) (co ∷ []),
      find_option-last s k co,
      lookup-chain config s k (get_hash co.name),
      equal_nocase_iff k co.name,
      get_hash-lower k co.name,
    )

-- What a search finds after the entry `co`, which the table finds, was changed.
lookup-changed :
    (config : Config) (co : ConfOption) (val : Option Bytes) (flags : ℕ) (s k : Bytes)
    → conf_lookup_key
        (set_chain
          (get_hash co.name)
          (set_option co.section co.name val flags (config.hash (get_hash co.name)))
          config)
        s
        k
      ≡ (if is_option s k co
          then with_value val flags (conf_lookup_key config s k)
          else conf_lookup_key config s k)
lookup-changed config co val flags s k =
    conf_lookup_key-set_chain co.name _ config s k
    ∙ ground (
      arith,
      find_option-set_option co.section co.name s k val flags (config.hash (get_hash co.name)),
      lookup-chain config s k (get_hash co.name),
      equal_nocase_iff k co.name,
      get_hash-lower k co.name,
    )

conf_lookup-short :
    (config : Config) (s k : Bytes)
    → length k ≤ path_max
    → conf_lookup config s k
      ≡ or_else (conf_lookup_key config s k) (conf_lookup_key config s (old_key k))
unfolding conf_lookup
conf_lookup-short config s k h = ground arith

lookup-is_option :
    (config : Config) (s k : Bytes) (co : ConfOption)
    → conf_lookup_key config s k ≡ some co
    → is_option s k co ≡ true
unfolding conf_lookup_key
lookup-is_option config s k co e = find_option-is_option s k _ co e

-- The table `config'` has an entry with the value for the key, and is else as `config`.
abbrev pub IsUpdated : (config config' : Config) (section key : Bytes) → Option Bytes → Type 0
IsUpdated config config' section key wanted =
    (co : ConfOption) × (conf_lookup config' section key ≡ some co)
    × (co.value ≡ wanted)
    × ((s k : Bytes)
        → is_option s k co ≡ false
        → conf_lookup_key config' s k ≡ conf_lookup_key config s k)

changed-IsUpdated :
    (config config' : Config) (section key : Bytes) (val : Option Bytes) (flags : ℕ)
    (co : ConfOption)
    → length key ≤ path_max
    → conf_lookup config section key ≡ some co
    → ((s k : Bytes)
        → conf_lookup_key config' s k ≡ (
            if is_option s k co
            then with_value val flags (conf_lookup_key config s k)
            else conf_lookup_key config s k))
    → IsUpdated config config' section key val
changed-IsUpdated config config' section key val flags co h e step = (
  record co { value = val; flags = if flags == 0 then co.flags else flags },
  ground (
    arith,
    conf_lookup-short config section key,
    conf_lookup-short config' section key,
    step section key,
    step section (old_key key),
    lookup-is_option config section key co,
    lookup-is_option config section (old_key key) co,
  ),
  refl,
  λ s k d. ground (arith, step s k),
)

added-IsUpdated :
    (config config' : Config) (co : ConfOption)
    → length co.name ≤ path_max
    → conf_lookup config co.section co.name ≡ none
    → ((s k : Bytes)
        → conf_lookup_key config' s k
          ≡ or_else (conf_lookup_key config s k) (if is_option s k co then some co else none))
    → IsUpdated config config' co.section co.name co.value
added-IsUpdated config config' co h e step = (
  co,
  ground (
    arith,
    conf_lookup-short config co.section co.name,
    conf_lookup-short config' co.section co.name,
    step co.section co.name,
    equal_nocase_refl co.section,
    equal_nocase_refl co.name,
  ),
  refl,
  λ s k d. ground (arith, step s k),
)

update_option-IsUpdated :
    (config : Config) (section key : Bytes) (value : Option Bytes) (flags : ℕ)
    (o : Option ConfOption)
    → length key ≤ path_max
    → conf_lookup config section key ≡ o
    → let r = update_option true config section key value flags o in
      (r.0 ≡ true) × IsUpdated config r.1 section key (wanted_value config key value flags)
unfolding update_option conf_add
update_option-IsUpdated config section key value flags none h e =
    let co : ConfOption = record {
      section = section;
      name = key;
      value = wanted_value config key value flags;
      flags = flags;
    } in
    (
      refl,
      added-IsUpdated config _ co h e (λ s k.
          lookup-environ key _ config (set_user_env key value flags config.environ) s k
          ∙ lookup-added config co s k),
    )
update_option-IsUpdated config section key value flags (some co) h e = (
  refl,
  changed-IsUpdated config _ section key (wanted_value config key value flags) flags co h e (λ s k.
      lookup-environ co.name _ config (set_user_env key value flags config.environ) s k
      ∙ lookup-changed config co (wanted_value config key value flags) flags s k),
)

-- With the bound of the code, which is too wide where `DEFAULT_` is put in front of the key.
pub conf_update-IsUpdated :
    (config : Config) (section key : Bytes) (value : Option Bytes) (flags : ℕ)
    → length key ≤ path_max
    → let r = conf_update true config section key value flags in
      (r.0 ≡ true) × IsUpdated config r.1 section key (wanted_value config key value flags)
unfolding conf_update
conf_update-IsUpdated config section key value flags h =
    update_option-IsUpdated config section key value flags (conf_lookup config section key) h refl

-- An update of a key of at most `PATH_MAX` - 8 bytes, which has room for `DEFAULT_` in front of it in
-- the buffer of `conf_lookup`, succeeds where there is memory: a search then finds an entry with the
-- value, which is the environment's where that has one and may override it, and every search that
-- this entry does not answer finds what it found before.
pub conf_update-conf_lookup :
    (config : Config) (section key : Bytes) (value : Option Bytes) (flags : ℕ)
    → length key + 8 ≤ path_max
    → let r = conf_update true config section key value flags in
      (r.0 ≡ true) × IsUpdated config r.1 section key (wanted_value config key value flags)
conf_update-conf_lookup config section key value flags h =
    conf_update-IsUpdated config section key value flags (omega (arith, h))
