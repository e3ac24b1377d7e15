-- ===== src/Macros/Standard.antt =====
-- lib/mounts.c: the variables that describe the user of a mount, and those of amd. `tsv` is what
-- `pthread_getspecific` answers; numbers come as the text that `sprintf` makes of them.
use autofs.Prelude.{
  ℕ, ◌+◌, Bool, true, false, not, ◌||◌, List, [], ◌∷◌, ◌++◌, Option, none, some, ◌≡◌, refl, ◌∙◌,
  arith, ◌==◌, if◌then◌else◌, ltb, length, take, take-length, Bool-cases, inl, inr, sym,
}
use autofs.Text.{Bytes, codes, equal}
use autofs.Macros.{
  Substvar, find, macro_addvar, macro_removevar, macro_findvar, macro_global_addvar,
  macro_global_removevar,
}
use autofs.Macros.Lookup.{value_of, AreDistinct, unlink-AreDistinct}
use autofs.Macros.Local.{macro_addvar-AreDistinct, value_of-macro_addvar, value_of-macro_removevar}

abbrev max_env_name : ℕ
max_env_name = 15

abbrev or_nothing : Option Bytes → Bytes
or_nothing none = []
or_nothing (some prefix) = prefix

unfoldable pub set_env_name : Option Bytes → Bytes → Option Bytes
set_env_name prefix name =
    if ltb max_env_name (length (or_nothing prefix) + length name + 1)
    then none
    else some (or_nothing prefix ++ name)

unfoldable pub do_macro_addvar :
    (alloc : Bool) → List Substvar → Option Bytes → (name val : Bytes) → List Substvar
unfolding set_env_name
do_macro_addvar alloc list prefix name val = elim (set_env_name prefix name) [
  | none ↦ list
  | some new ↦ macro_addvar alloc list new (length new) (some val)
]

unfoldable pub do_macro_removevar : List Substvar → Option Bytes → Bytes → List Substvar
unfolding set_env_name
do_macro_removevar list prefix name = elim (set_env_name prefix name) [
  | none ↦ list
  | some new ↦ macro_removevar list new (length new)
]

pub record StdenvVars : Type 0 where
  pub uid : Bytes
  pub gid : Bytes
  pub user : Bytes
  pub group : Bytes
  pub home : Bytes

-- The text before the first dot.
unfoldable pub before_dot : Bytes → Bytes
before_dot [] = []
before_dot (c ∷ s) = if c == b'.' then [] else c ∷ before_dot s

-- `addstdenv` up to `HOME`.
unfoldable pub add_user : (alloc : Bool) → List Substvar → Option Bytes → StdenvVars → List Substvar
unfolding do_macro_addvar
add_user alloc list prefix tsv =
    let l₁ = do_macro_addvar alloc list prefix (codes "UID") tsv.uid in
    let l₂ = do_macro_addvar alloc l₁ prefix (codes "GID") tsv.gid in
    let l₃ = do_macro_addvar alloc l₂ prefix (codes "USER") tsv.user in
    let l₄ = do_macro_addvar alloc l₃ prefix (codes "GROUP") tsv.group in
    do_macro_addvar alloc l₄ prefix (codes "HOME") tsv.home

-- `addstdenv` from the search for `HOST` on, for what it finds.
unfoldable pub add_host_name :
    (alloc : Bool) → List Substvar → Option Bytes → Option Substvar → List Substvar
unfolding do_macro_addvar before_dot
add_host_name alloc list prefix none = list
add_host_name alloc list prefix (some mv) =
    if not alloc
    then list
    else do_macro_addvar alloc list prefix (codes "SHOST") (before_dot mv.val)

unfoldable pub addstdenv :
    (alloc : Bool)
    → (environ : Option (Bytes → Option Bytes)) → (system_table : List Substvar) → Option StdenvVars
    → List Substvar
    → Option Bytes
    → List Substvar
unfolding add_user add_host_name
addstdenv alloc environ system_table none sv prefix = sv
addstdenv alloc environ system_table (some tsv) sv prefix =
    let list = add_user alloc sv prefix tsv in
    add_host_name alloc list prefix (macro_findvar alloc environ system_table list (codes "HOST") 4)

unfoldable pub removestdenv : List Substvar → Option Bytes → List Substvar
unfolding do_macro_removevar
removestdenv sv prefix =
    let l₁ = do_macro_removevar sv prefix (codes "UID") in
    let l₂ = do_macro_removevar l₁ prefix (codes "USER") in
    let l₃ = do_macro_removevar l₂ prefix (codes "HOME") in
    let l₄ = do_macro_removevar l₃ prefix (codes "GID") in
    let l₅ = do_macro_removevar l₄ prefix (codes "GROUP") in
    do_macro_removevar l₅ prefix (codes "SHOST")

-- What the configuration says for the variables of amd.
pub record AmdNames : Type 0 where
  pub arch : Option Bytes
  pub karch : Option Bytes
  pub os : Option Bytes
  pub full_os : Option Bytes
  pub os_ver : Option Bytes
  pub vendor : Option Bytes
  pub cluster : Option Bytes
  pub auto_dir : Option Bytes

unfoldable pub add_global : (alloc : Bool) → Bytes → Option Bytes → List Substvar → List Substvar
add_global alloc name none system_table = system_table
add_global alloc name (some tmp) system_table =
    (macro_global_addvar alloc system_table name (length name) tmp).1

-- `v && *v->val`
abbrev value_if_any : Option Substvar → Option Bytes
value_if_any none = none
value_if_any (some v) = elim v.val [ [] ↦ none | c ∷ s ↦ some (c ∷ s) ]

-- The search for the domain compares the first 4 bytes of its name.
unfoldable pub add_std_amd_vars :
    (alloc : Bool)
    → (environ : Option (Bytes → Option Bytes)) → AmdNames
    → (sv system_table : List Substvar) → List Substvar
unfolding add_global
add_std_amd_vars alloc environ n sv system_table =
    let t₁ = add_global alloc (codes "arch") n.arch system_table in
    let t₂ = add_global alloc (codes "karch") n.karch t₁ in
    let t₃ = add_global alloc (codes "os") n.os t₂ in
    let t₄ = add_global alloc (codes "full_os") n.full_os t₃ in
    let t₅ = add_global alloc (codes "osver") n.os_ver t₄ in
    let t₆ = add_global alloc (codes "vendor") n.vendor t₅ in
    let domain : Option Bytes =
      value_if_any (macro_findvar alloc environ t₆ sv (codes "domain") 4) in
    let cluster : Option Bytes = elim n.cluster [ some tmp ↦ some tmp | none ↦ domain ] in
    let t₇ = add_global alloc (codes "cluster") cluster t₆ in
    add_global alloc (codes "autodir") n.auto_dir t₇

unfoldable pub remove_std_amd_vars : List Substvar → List Substvar
remove_std_amd_vars system_table =
    let t₁ = macro_global_removevar system_table (codes "autodir") 7 in
    let t₂ = macro_global_removevar t₁ (codes "cluster") 7 in
    let t₃ = macro_global_removevar t₂ (codes "vendor") 6 in
    let t₄ = macro_global_removevar t₃ (codes "osver") 5 in
    let t₅ = macro_global_removevar t₄ (codes "full_os") 7 in
    let t₆ = macro_global_removevar t₅ (codes "os") 2 in
    let t₇ = macro_global_removevar t₆ (codes "karch") 5 in
    macro_global_removevar t₇ (codes "arch") 4

-- Is a name the one that is made of the prefix?
abbrev pub is_named : Bytes → Option Bytes → Bool
is_named j none = false
is_named j (some new) = equal j new

value_of-do_macro_addvar :
    (t : List Substvar) (prefix : Option Bytes) (name val j : Bytes)
    → is_named j (set_env_name prefix name) ≡ false
    → value_of (find j (do_macro_addvar true t prefix name val)) ≡ value_of (find j t)
unfolding do_macro_addvar
value_of-do_macro_addvar t prefix name val j = added (set_env_name prefix name)
  where
    added :
        (o : Option Bytes)
        → is_named j o ≡ false
        → value_of (
            find j
              (elim o [ none ↦ t | some new ↦ macro_addvar true t new (length new) (some val) ]))
          ≡ value_of (find j t)
    added none h = refl
    added (some new) h =
        value_of-macro_addvar t new (length new) (some val) j ∙ rw (take-length new, h) refl

do_macro_addvar-AreDistinct :
    (alloc : Bool) (t : List Substvar) (prefix : Option Bytes) (name val : Bytes)
    → AreDistinct t
    → AreDistinct (do_macro_addvar alloc t prefix name val)
unfolding do_macro_addvar
do_macro_addvar-AreDistinct alloc t prefix name val h = added (set_env_name prefix name)
  where
    added :
        (o : Option Bytes)
        → AreDistinct
            (elim o [ none ↦ t | some new ↦ macro_addvar alloc t new (length new) (some val) ])
    added none = h
    added (some new) = macro_addvar-AreDistinct alloc t new (length new) (some val) h

value_of-do_macro_removevar :
    (t : List Substvar) (prefix : Option Bytes) (name j : Bytes)
    → AreDistinct t
    → (value_of (find j (do_macro_removevar t prefix name))
        ≡ (if is_named j (set_env_name prefix name) then none else value_of (find j t)))
      × AreDistinct (do_macro_removevar t prefix name)
unfolding do_macro_removevar
value_of-do_macro_removevar t prefix name j h = removed (set_env_name prefix name)
  where
    removed :
        (o : Option Bytes)
        → (value_of (find j (elim o [ none ↦ t | some new ↦ macro_removevar t new (length new) ]))
            ≡ (if is_named j o then none else value_of (find j t)))
          × AreDistinct (elim o [ none ↦ t | some new ↦ macro_removevar t new (length new) ])
    removed none = (refl, h)
    removed (some new) = (
      value_of-macro_removevar t new (length new) j h ∙ rw (take-length new) refl,
      unfold macro_removevar in unlink-AreDistinct (take (length new) new) t h,
    )

-- Is a name one of those that `addstdenv` makes of the prefix?
abbrev pub is_standard : Bytes → Option Bytes → Bool
is_standard j prefix =
    is_named j (set_env_name prefix (codes "UID"))
    || is_named j (set_env_name prefix (codes "USER"))
    || is_named j (set_env_name prefix (codes "HOME"))
    || is_named j (set_env_name prefix (codes "GID"))
    || is_named j (set_env_name prefix (codes "GROUP"))
    || is_named j (set_env_name prefix (codes "SHOST"))

value_of-removestdenv :
    (t : List Substvar) (prefix : Option Bytes) (j : Bytes)
    → AreDistinct t
    → value_of (find j (removestdenv t prefix))
      ≡ (if is_standard j prefix then none else value_of (find j t))
unfolding removestdenv
value_of-removestdenv t prefix j h =
    let r₁ = value_of-do_macro_removevar t prefix (codes "UID") j h in
    let r₂ = value_of-do_macro_removevar _ prefix (codes "USER") j r₁.1 in
    let r₃ = value_of-do_macro_removevar _ prefix (codes "HOME") j r₂.1 in
    let r₄ = value_of-do_macro_removevar _ prefix (codes "GID") j r₃.1 in
    let r₅ = value_of-do_macro_removevar _ prefix (codes "GROUP") j r₄.1 in
    let r₆ = value_of-do_macro_removevar _ prefix (codes "SHOST") j r₅.1 in
    r₆.0 ∙ rw (r₅.0, r₄.0, r₃.0, r₂.0, r₁.0) (ground arith)

add_user-AreDistinct :
    (alloc : Bool) (t : List Substvar) (prefix : Option Bytes) (tsv : StdenvVars)
    → AreDistinct t
    → AreDistinct (add_user alloc t prefix tsv)
unfolding add_user
add_user-AreDistinct alloc t prefix tsv h =
    let kept = do_macro_addvar-AreDistinct alloc in
    kept _ prefix (codes "HOME") _ (
      kept _ prefix (codes "GROUP") _ (
        kept _ prefix (codes "USER") _
          (kept _ prefix (codes "GID") _ (kept t prefix (codes "UID") _ h))))

add_host_name-AreDistinct :
    (alloc : Bool) (t : List Substvar) (prefix : Option Bytes) (mv : Option Substvar)
    → AreDistinct t
    → AreDistinct (add_host_name alloc t prefix mv)
unfolding add_host_name
add_host_name-AreDistinct alloc t prefix none h = h
add_host_name-AreDistinct true t prefix (some mv) h =
    do_macro_addvar-AreDistinct true t prefix (codes "SHOST") (before_dot mv.val) h
add_host_name-AreDistinct false t prefix (some mv) h = h

value_of-add_user :
    (t : List Substvar) (prefix : Option Bytes) (tsv : StdenvVars) (j : Bytes)
    → is_standard j prefix ≡ false
    → value_of (find j (add_user true t prefix tsv)) ≡ value_of (find j t)
unfolding add_user
value_of-add_user t prefix tsv j h =
    value_of-do_macro_addvar _ prefix (codes "HOME") _ j (ground arith)
    ∙ value_of-do_macro_addvar _ prefix (codes "GROUP") _ j (ground arith)
    ∙ value_of-do_macro_addvar _ prefix (codes "USER") _ j (ground arith)
    ∙ value_of-do_macro_addvar _ prefix (codes "GID") _ j (ground arith)
    ∙ value_of-do_macro_addvar t prefix (codes "UID") _ j (ground arith)

value_of-add_host_name :
    (t : List Substvar) (prefix : Option Bytes) (mv : Option Substvar) (j : Bytes)
    → is_standard j prefix ≡ false
    → value_of (find j (add_host_name true t prefix mv)) ≡ value_of (find j t)
unfolding add_host_name
value_of-add_host_name t prefix none j h = refl
value_of-add_host_name t prefix (some mv) j h =
    value_of-do_macro_addvar t prefix (codes "SHOST") _ j (ground arith)

-- Where there is memory and no name stands twice in the table, what `addstdenv` adds under a prefix
-- `removestdenv` takes out again: a search finds what it finds if nothing was added.
pub removestdenv-addstdenv :
    (environ : Option (Bytes → Option Bytes)) (system_table t : List Substvar)
    (tsv : Option StdenvVars) (prefix : Option Bytes) (j : Bytes)
    → AreDistinct t
    → value_of (find j (removestdenv (addstdenv true environ system_table tsv t prefix) prefix))
      ≡ value_of (find j (removestdenv t prefix))
unfolding addstdenv
removestdenv-addstdenv environ system_table t none prefix j h = refl
removestdenv-addstdenv environ system_table t (some tsv) prefix j h =
    let list = add_user true t prefix tsv in
    let mv = macro_findvar true environ system_table list (codes "HOST") 4 in
    let distinct =
      add_host_name-AreDistinct true list prefix mv (add_user-AreDistinct true t prefix tsv h) in
    value_of-removestdenv (add_host_name true list prefix mv) prefix j distinct
    ∙ elim (Bool-cases (is_standard j prefix)) [
      | inl e ↦ rw e refl
      | inr e ↦
          rw e (value_of-add_host_name list prefix mv j e ∙ value_of-add_user t prefix tsv j e)
    ]
    ∙ sym (value_of-removestdenv t prefix j h)
