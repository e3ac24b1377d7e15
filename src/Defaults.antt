-- ===== src/Defaults.antt =====
-- lib/defaults.c: the table of the configuration, its changes and its searches.
pub mod Table
pub mod Deleted
pub mod Read
mod Examples
use autofs.Prelude.{
  ℕ, ◌%◌, or_else, is_some, Bool, true, false, not, ◌&&◌, List, [], ◌∷◌, ◌++◌, Option, none, some,
  ◌==◌, if◌then◌else◌, ltb, length, drop, take,
}
use autofs.Text.{Bytes, codes, lower, equal_nocase, hash}
use autofs.Macros.{setenv}

-- `struct conf_option`; the bit CONF_ENV of `flags` is 1.
pub record ConfOption : Type 0 where
  pub section : Bytes
  pub name : Bytes
  pub value : Option Bytes
  pub flags : ℕ

-- `config->hash`, and the environment of the daemon.
pub record Config : Type 0 where
  pub hash : ℕ → List ConfOption
  pub environ : Bytes → Option Bytes

abbrev pub cfg_table_size : ℕ
cfg_table_size = 128

abbrev pub path_max : ℕ
path_max = 4096

unfoldable pub get_hash : Bytes → ℕ
get_hash key = hash (lower key) cfg_table_size

abbrev pub set_chain : ℕ → List ConfOption → Config → Config
set_chain key_hash c config = record config {
  hash = λ i. if i == key_hash then c else config.hash i;
}

-- `flags & CONF_ENV`
abbrev pub is_env : ℕ → Bool
is_env flags = flags % 2 == 1

-- The value that is stored: the environment overrides the given one.
unfoldable pub wanted_value : Config → Bytes → Option Bytes → (flags : ℕ) → Option Bytes
wanted_value config key value flags =
    if is_env flags then or_else (config.environ key) value else value

-- `setenv(name, value, 0)` where `flags & CONF_ENV && value`
unfoldable pub set_user_env :
    Bytes → Option Bytes → (flags : ℕ) → (Bytes → Option Bytes) → Bytes → Option Bytes
set_user_env key none flags environ = environ
set_user_env key (some value) flags environ = elim (environ key) [
  | some _ ↦ environ
  | none ↦ if is_env flags then setenv key value environ else environ
]

-- `alloc` stands for all the memory that the function asks for together. That the code tests `key`
-- where it means `name`, and so goes on if only the copy of the key fails, is left out.
unfoldable pub conf_add :
    (alloc : Bool) → Config → (section key : Bytes) → Option Bytes → (flags : ℕ) → Bool × Config
unfolding wanted_value set_user_env
conf_add alloc config section key value flags =
    if not alloc
    then (false, config)
    else let co : ConfOption = record {
      section = section;
      name = key;
      value = wanted_value config key value flags;
      flags = flags;
    } in
      let config' = record config { environ = set_user_env key value flags config.environ } in
      (true, set_chain (get_hash key) (config.hash (get_hash key) ++ co ∷ []) config')

-- Does an entry have the section and the key?
abbrev pub is_option : (section key : Bytes) → ConfOption → Bool
is_option section key co = equal_nocase section co.section && equal_nocase key co.name

-- The loops over a chain.
unfoldable pub find_option : (section key : Bytes) → List ConfOption → Option ConfOption
find_option section key [] = none
find_option section key (co ∷ next) =
    if is_option section key co then some co else find_option section key next

unfoldable pub conf_lookup_key : Config → (section key : Bytes) → Option ConfOption
unfolding find_option get_hash
conf_lookup_key config section key = find_option section key (config.hash (get_hash key))

-- `DEFAULT_`
abbrev default_prefix : Bytes
default_prefix = codes "DEFAULT_"

-- The name that a key had before, or has now.
unfoldable pub old_key : Bytes → Bytes
old_key key =
    if ltb 8 (length key) && equal_nocase default_prefix (take 8 key)
    then drop 8 key
    else default_prefix ++ key

-- The buffer for the old name has `PATH_MAX` + 1 bytes; for a key of more than `PATH_MAX` - 8 bytes that
-- is put behind `DEFAULT_` the code writes past it, which is left out.
unfoldable pub conf_lookup : Config → (section key : Bytes) → Option ConfOption
unfolding conf_lookup_key old_key
conf_lookup config section key =
    if ltb path_max (length key)
    then none
    else or_else (conf_lookup_key config section key) (conf_lookup_key config section (old_key key))

-- `co->value = val` and `co->flags = flags` for the first entry of a section and key.
unfoldable pub set_option :
    (section key : Bytes) → Option Bytes → (flags : ℕ) → List ConfOption → List ConfOption
set_option section key val flags [] = []
set_option section key val flags (co ∷ next) =
    if is_option section key co
    then record co { value = val; flags = if flags == 0 then co.flags else flags } ∷ next
    else co ∷ set_option section key val flags next

-- `conf_update` for what the search finds.
unfoldable pub update_option :
    (alloc : Bool)
    → Config
    → (section key : Bytes) → Option Bytes
    → (flags : ℕ) → Option ConfOption
    → Bool × Config
unfolding conf_add set_option
update_option alloc config section key value flags none =
    conf_add alloc config section key value flags
update_option alloc config section key value flags (some co) =
    let val = wanted_value config key value flags in
    let config' = record config { environ = set_user_env key value flags config.environ } in
    let h = get_hash co.name in
    if not alloc && is_some val
    then (false, config)
    else (true, set_chain h (set_option co.section co.name val flags (config.hash h)) config')

unfoldable pub conf_update :
    (alloc : Bool) → Config → (section key : Bytes) → Option Bytes → (flags : ℕ) → Bool × Config
unfolding conf_lookup update_option
conf_update alloc config section key value flags =
    update_option alloc config section key value flags (conf_lookup config section key)

-- The loop of `conf_delete`: `kept` is the chain up to `last`, `skipped` what stands behind it.
unfoldable pub unlink_option :
    (section key : Bytes) → (kept skipped : List ConfOption) → List ConfOption → List ConfOption
unlink_option section key kept skipped [] = kept ++ skipped
unlink_option section key kept skipped (co ∷ next) = elim (equal_nocase section co.section) [
  | false ↦ unlink_option section key kept (skipped ++ co ∷ []) next
  | true ↦ elim (equal_nocase key co.name) [
    | true ↦ kept ++ next
    | false ↦ unlink_option section key (kept ++ (skipped ++ co ∷ [])) [] next
  ]
]

unfoldable pub conf_delete : Config → (section key : Bytes) → Config
unfolding unlink_option
conf_delete config section key =
    let h = get_hash key in set_chain h (unlink_option section key [] [] (config.hash h)) config

unfoldable pub conf_section_exists : Config → (section : Option Bytes) → Bool
conf_section_exists config none = false
conf_section_exists config (some section) = is_some (conf_lookup config section section)

-- What `co && co->value` gives.
abbrev pub option_value : Option ConfOption → Option Bytes
option_value none = none
option_value (some co) = co.value

unfoldable pub conf_get_string : Config → (section name : Bytes) → Option Bytes
conf_get_string config section name = option_value (conf_lookup config section name)

-- `yes` and `no`, or the number where the first byte is a digit; `none` is -1. `atoi` is the
-- library's.
unfoldable pub conf_get_yesno : (atoi : Bytes → ℕ) → Config → (section name : Bytes) → Option ℕ
unfolding conf_get_string
conf_get_yesno atoi config section name = elim (conf_get_string config section name) [
  | none ↦ none
  | some value ↦ yesno value
]
  where
    is_number : Bytes → Bool
    is_number [] = false
    is_number (c ∷ _) = not (ltb c b'0') && not (ltb b'9' c)

    yesno : Bytes → Option ℕ
    yesno value =
        if is_number value
        then some (atoi value)
        else if equal_nocase value (codes "yes")
        then some 1
        else if equal_nocase value (codes "no")
        then some 0
        else none

-- AUTOFS_GLOBAL_SECTION
abbrev pub autofs_gbl_sec : Bytes
autofs_gbl_sec = codes "autofs"

abbrev pub or_global : Option Bytes → Bytes
or_global none = autofs_gbl_sec
or_global (some section) = section

unfoldable pub check_set_config_value :
    (alloc : Bool)
    → Config
    → (section : Option Bytes) → (res : Bytes) → (value : Option Bytes) → Bool × Config
unfolding conf_update
check_set_config_value alloc config section res value =
    if equal_nocase res (codes "ldap_uri")
    then conf_add alloc config (or_global section) res value 0
    else if equal_nocase res (codes "search_base")
    then conf_add alloc config (or_global section) res value 0
    else conf_update alloc config (or_global section) res value 0
