-- ===== src/Macros.antt =====
-- lib/macros.c: the tables of substitution variables. A table is the list from its first `struct
-- substvar` on. The callers give a `len` that is at most the length of `str`, so the comparisons are
-- with its first `len` bytes. `alloc` says whether the memory that a call asks for is there.
pub mod Lookup
pub mod Local
pub mod Environment
pub mod Standard
mod Examples
use autofs.Prelude.{
  ℕ, Bool, true, false, not, List, [], ◌∷◌, Option, none, some, ◌==◌, if◌then◌else◌, leb, length,
  take,
}
use autofs.Text.{Bytes, codes, equal}

-- `struct substvar`
pub record Substvar : Type 0 where
  pub def : Bytes
  pub val : Bytes
  pub readonly : Bool

-- The loops over a table that compare names.
unfoldable pub find : Bytes → List Substvar → Option Substvar
find key [] = none
find key (sv ∷ next) = if equal key sv.def then some sv else find key next

abbrev pub is_found : Option Substvar → Bool
is_found none = false
is_found (some _) = true

unfoldable pub macro_is_systemvar : List Substvar → Bytes → ℕ → Bool
unfolding find
macro_is_systemvar system_table str len = is_found (find (take len str) system_table)

-- `sv->val = this` for the variable that the loop found.
unfoldable pub set_val : Bytes → Bytes → List Substvar → List Substvar
set_val key value [] = []
set_val key value (sv ∷ next) =
    if equal key sv.def then record sv { val = value } ∷ next else sv ∷ set_val key value next

abbrev pub new_var : Bytes → Bytes → Substvar
new_var key value = record { def = key; val = value; readonly = false }

-- `sv && !sv->readonly`
abbrev pub is_writable : Option Substvar → Bool
is_writable none = false
is_writable (some sv) = not sv.readonly

unfoldable pub macro_global_addvar :
    (alloc : Bool) → List Substvar → Bytes → ℕ → Bytes → Bool × List Substvar
unfolding find set_val
macro_global_addvar alloc system_table str len value =
    if not alloc
    then (false, system_table)
    else if is_writable (find (take len str) system_table)
    then (true, set_val (take len str) value system_table)
    else (true, new_var (take len str) value ∷ system_table)

-- The loop of `macro_parse_globalvar`: the text before the first `=` and behind it. Without one the
-- loop runs past the end of the string, for `pbuf` never becomes NULL: `none`.
unfoldable pub split_define : Bytes → Option (Bytes × Bytes)
split_define [] = none
split_define (c ∷ s) =
    let rest = split_define s in
    if c == b'='
    then some ([], s)
    else elim rest [ none ↦ none | some (name, value) ↦ some (c ∷ name, value) ]

abbrev pub max_macro_string : ℕ
max_macro_string = 128

unfoldable pub macro_parse_globalvar :
    (alloc : Bool) → List Substvar → Bytes → Option (Bool × List Substvar)
unfolding split_define macro_global_addvar
macro_parse_globalvar alloc system_table define =
    if leb max_macro_string (length define)
    then some (false, system_table)
    else elim (split_define define) [
      | none ↦ none
      | some (name, value) ↦ some (macro_global_addvar alloc system_table name (length name) value)
    ]

-- `value ? value : ""`
abbrev pub or_empty : Option Bytes → Bytes
or_empty none = []
or_empty (some value) = value

unfoldable pub macro_addvar :
    (alloc : Bool) → List Substvar → Bytes → ℕ → Option Bytes → List Substvar
unfolding find set_val
macro_addvar alloc table str len value =
    if not alloc
    then table
    else if is_found (find (take len str) table)
    then set_val (take len str) (or_empty value) table
    else new_var (take len str) (or_empty value) ∷ table

-- `last->next = sv->next` for the variable that the loop found.
unfoldable pub unlink : Bytes → List Substvar → List Substvar
unlink key [] = []
unlink key (sv ∷ next) = if equal key sv.def then next else sv ∷ unlink key next

unfoldable pub macro_global_removevar : List Substvar → Bytes → ℕ → List Substvar
unfolding find unlink
macro_global_removevar system_table str len =
    if is_writable (find (take len str) system_table)
    then unlink (take len str) system_table
    else system_table

unfoldable pub macro_removevar : List Substvar → Bytes → ℕ → List Substvar
unfolding unlink
macro_removevar table str len = unlink (take len str) table

-- What `macro_init` fills in.
pub record Names : Type 0 where
  pub machine : Bytes
  pub processor : Bytes
  pub nodename : Bytes
  pub sysname : Bytes
  pub release : Bytes
  pub version : Bytes
  pub endian : Bytes
  pub host : Bytes
  pub domain : Bytes
  pub hostd : Bytes

abbrev predefined : Bytes → Bytes → Substvar
predefined name value = record { def = name; val = value; readonly = true }

-- The chain from `sv_osvers` on.
unfoldable pub sv_osvers : Names → List Substvar
sv_osvers n =
    predefined (codes "OSVERS") n.version
    ∷ predefined (codes "OSREL") n.release
    ∷ predefined (codes "OSNAME") n.sysname
    ∷ predefined (codes "HOST") n.nodename
    ∷ predefined (codes "CPU") n.processor
    ∷ predefined (codes "ARCH") n.machine
    ∷ []

-- `system_table` as it starts: the chain from `sv_hostd` on.
unfoldable pub sv_hostd : Names → List Substvar
unfolding sv_osvers
sv_hostd n =
    predefined (codes "hostd") n.hostd
    ∷ predefined (codes "domain") n.domain
    ∷ predefined (codes "xhost") n.host
    ∷ predefined (codes "host") n.host
    ∷ predefined (codes "byte") n.endian
    ∷ predefined (codes "false") (codes "0")
    ∷ predefined (codes "true") (codes "1")
    ∷ predefined (codes "dollar") (codes "$")
    ∷ sv_osvers n

-- The table that `macro_free_global_table` leaves.
unfoldable pub macro_free_global_table : Names → List Substvar → List Substvar
unfolding sv_osvers
macro_free_global_table n system_table = sv_osvers n

-- What `macro_findvar` answers, where `environ` is `getenv` if the build option ENABLE_EXT_ENV is set:
-- the variable that is then made is put on a copy of the table that the caller does not see.
abbrev pub first_var : List Substvar → Option Substvar
first_var [] = none
first_var (sv ∷ _) = some sv

unfoldable pub find_env :
    (alloc : Bool)
    → (environ : Option (Bytes → Option Bytes)) → List Substvar
    → Bytes
    → ℕ
    → Option Substvar
unfolding macro_addvar
find_env alloc none table str len = none
find_env alloc (some getenv) table str len = elim (getenv (take len str)) [
  | none ↦ none
  | some value ↦ first_var (macro_addvar alloc table str len (some value))
]

unfoldable pub macro_findvar :
    (alloc : Bool)
    → (environ : Option (Bytes → Option Bytes)) → (system_table table : List Substvar) → Bytes
    → ℕ
    → Option Substvar
unfolding find find_env
macro_findvar alloc environ system_table table str len = elim (find (take len str) table) [
  | some lv ↦ some lv
  | none ↦ elim (find (take len str) system_table) [
    | some sv ↦ some sv
    | none ↦ find_env alloc environ table str len
  ]
]

-- `setenv` with `overwrite`, on the environment as a function.
abbrev pub setenv : Bytes → Bytes → (Bytes → Option Bytes) → Bytes → Option Bytes
setenv name value environ key = if equal key name then some value else environ key

-- A loop of `macro_setenv`.
unfoldable pub set_all : List Substvar → (Bytes → Option Bytes) → Bytes → Option Bytes
set_all [] environ = environ
set_all (sv ∷ next) environ = set_all next (setenv sv.def sv.val environ)

unfoldable pub macro_setenv :
    (system_table table : List Substvar) → (Bytes → Option Bytes) → Bytes → Option Bytes
unfolding set_all
macro_setenv system_table table environ = set_all table (set_all system_table environ)
