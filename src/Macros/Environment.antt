-- ===== src/Macros/Environment.antt =====
-- lib/macros.c: definitions for all maps, and the environment that the tables are written to.
use autofs.Prelude.{
  or_else, ℕ, ◌+◌, ◌<◌, Bool, true, false, List, [], ◌∷◌, ◌++◌, Option, none, some, ◌≡◌, ◌≢◌, refl,
  arith, ==_iff, if◌then◌else◌, All, length, length-append, take, leb, ap, ◌∙◌, take-length,
}
use autofs.Text.{Bytes, equal, equal_iff, equal_refl}
use autofs.Macros.{
  Substvar, find, is_found, new_var, macro_global_addvar, split_define, max_macro_string,
  macro_parse_globalvar, macro_findvar, find_env, setenv, set_all, macro_setenv,
}
use autofs.Macros.Lookup.{value_of, AreDistinct, find-cons, find-set_val, find-Absent}

set_all-find :
    (t : List Substvar) (environ : Bytes → Option Bytes) (j : Bytes)
    → AreDistinct t
    → set_all t environ j ≡ or_else (value_of (find j t)) (environ j)
unfolding set_all
set_all-find [] environ j h = unfold find in refl
set_all-find (sv ∷ next) environ j h =
    set_all-find next (setenv sv.def sv.val environ) j h.1
    ∙ ground (arith, find-cons j sv next, find-Absent sv.def next h.0, equal_iff j sv.def)

value_of-macro_findvar :
    (system_table table : List Substvar) (str : Bytes) (len : ℕ)
    → value_of (macro_findvar true none system_table table str len)
      ≡ or_else (value_of (find (take len str) table)) (value_of (find (take len str) system_table))
unfolding macro_findvar find_env
value_of-macro_findvar system_table table str len =
    chosen (find (take len str) table) (find (take len str) system_table)
  where
    chosen :
        (l s : Option Substvar)
        → value_of
            (elim l [ some lv ↦ some lv | none ↦ elim s [ some sv ↦ some sv | none ↦ none ] ])
          ≡ or_else (value_of l) (value_of s)
    chosen none none = refl
    chosen none (some s) = refl
    chosen (some l) s = refl

or_else_assoc : (a b c : Option Bytes) → or_else a (or_else b c) ≡ or_else (or_else a b) c
or_else_assoc a b c = ground arith

-- Where no name stands twice in a table, the environment after `macro_setenv` has what
-- `macro_findvar` finds, and else what it had.
pub macro_setenv-macro_findvar :
    (system_table table : List Substvar) (environ : Bytes → Option Bytes) (j : Bytes)
    → AreDistinct system_table
    → AreDistinct table
    → macro_setenv system_table table environ j
      ≡ or_else (value_of (macro_findvar true none system_table table j (length j))) (environ j)
unfolding macro_setenv
macro_setenv-macro_findvar system_table table environ j h k =
    set_all-find table (set_all system_table environ) j k
    ∙ rw
        (
          value_of-macro_findvar system_table table j (length j),
          take-length j,
          set_all-find system_table environ j h,
        )
        (or_else_assoc (value_of (find j table)) (value_of (find j system_table)) (environ j))

set_all-absent :
    (t : List Substvar) (environ : Bytes → Option Bytes) (j : Bytes)
    → is_found (find j t) ≡ false
    → set_all t environ j ≡ environ j
unfolding set_all find
set_all-absent [] environ j h = refl
set_all-absent (sv ∷ next) environ j h =
    ground (arith, set_all-absent next (setenv sv.def sv.val environ) j)

-- A definition for the name of a read-only variable hides it from `macro_findvar`, but in the
-- environment the read-only variable still has the last word.
pub macro_setenv_readonly :
    (system_table table : List Substvar) (environ : Bytes → Option Bytes) (name value : Bytes)
    (sv : Substvar)
    → AreDistinct system_table
    → find name system_table ≡ some sv
    → sv.readonly ≡ true
    → find name table ≡ none
    → let system_table' = (macro_global_addvar true system_table name (length name) value).1 in
      (value_of (macro_findvar true none system_table' table name (length name)) ≡ some value)
      × (macro_setenv system_table' table environ name ≡ some sv.val)
unfolding macro_global_addvar macro_setenv
macro_setenv_readonly system_table table environ name value sv h found readonly absent =
    rw (take-length name, found, readonly)
      (
        value_of-macro_findvar (new_var name value ∷ system_table) table name (length name)
            ∙ rw (take-length name, absent, equal_refl name) refl,
        set_all-absent table (set_all (new_var name value ∷ system_table) environ) name
              (rw absent refl)
            ∙ unfold set_all in
              set_all-find system_table (setenv name value environ) name h ∙ rw found refl,
      )

split_define_lem :
    (name value : Bytes)
    → All (λ c. c ≢ b'=') name
    → split_define (name ++ b'=' ∷ value) ≡ some (name, value)
unfolding split_define
split_define_lem [] value h = refl
split_define_lem (c ∷ name) value h = ground (arith, split_define_lem name value h.1, ==_iff c b'=')

value_of-macro_global_addvar :
    (t : List Substvar) (name value j : Bytes)
    → let r = macro_global_addvar true t name (length name) value in
      (r.0 ≡ true)
      × (value_of (find j r.1) ≡ (if equal j name then some value else value_of (find j t)))
unfolding macro_global_addvar
value_of-macro_global_addvar t name value j = rw (take-length name) (
    ground
      (arith, find-set_val name value j t, find-cons j (new_var name value) t, equal_iff j name))

-- Where there is memory, a definition `name=value` that is short enough, and whose name holds no `=`,
-- is taken: the name is then found with that value, and every other name as before.
pub macro_parse_globalvar-find :
    (t : List Substvar) (name value j : Bytes)
    → All (λ c. c ≢ b'=') name
    → length name + length value + 1 < max_macro_string
    → (t' : List Substvar) × (macro_parse_globalvar true t (name ++ b'=' ∷ value) ≡ some (true, t'))
      × (value_of (find j t') ≡ (if equal j name then some value else value_of (find j t)))
unfolding macro_parse_globalvar
macro_parse_globalvar-find t name value j h short =
    let r = macro_global_addvar true t name (length name) value in
    let laws = value_of-macro_global_addvar t name value j in
    (r.1, rw (short_enough, split_define_lem name value h) (ap some (pair r laws.0)), laws.1)
  where
    short_enough : leb max_macro_string (length (name ++ b'=' ∷ value)) ≡ false
    short_enough = ground (arith, length-append name (b'=' ∷ value))

    pair : (x : Bool × List Substvar) → x.0 ≡ true → x ≡ (true, x.1)
    pair x e = cc
