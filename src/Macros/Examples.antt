-- ===== src/Macros/Examples.antt =====
-- lib/macros.c: the theorems at concrete tables.
use autofs.Prelude.{or_else, true, false, [], ◌∷◌, Option, none, some, ◌≡◌}
use autofs.Text.{Bytes, codes, equal}
use autofs.Macros.{Substvar, find, macro_findvar, macro_setenv}
use autofs.Macros.Lookup.{value_of}
use autofs.Macros.Local.{add, remove, table_after, table_after-refines}
use autofs.Macros.Environment.{macro_setenv-macro_findvar}
use autofs.Macros.Standard.{StdenvVars}

abbrev host : Substvar
host = record { def = codes "host"; val = codes "lion"; readonly = true }

abbrev key_var : Substvar
key_var = record { def = codes "key"; val = codes "home"; readonly = false }

abbrev nothing_set : Bytes → Option Bytes
nothing_set _ = none

table_after-refines_example :
    value_of (
      find (codes "a") (
        table_after
          (add (codes "a") (codes "1") ∷ add (codes "a") (codes "2") ∷ remove (codes "b") ∷ [])
          []))
    ≡ some (codes "2")
unfolding equal
table_after-refines_example =
    table_after-refines
      (add (codes "a") (codes "1") ∷ add (codes "a") (codes "2") ∷ remove (codes "b") ∷ [])
      (codes "a")

macro_setenv-macro_findvar_example :
    macro_setenv (host ∷ []) (key_var ∷ []) nothing_set (codes "key")
    ≡ or_else (value_of (macro_findvar true none (host ∷ []) (key_var ∷ []) (codes "key") 3)) none
macro_setenv-macro_findvar_example =
    macro_setenv-macro_findvar (host ∷ []) (key_var ∷ []) nothing_set (codes "key") (tt, tt)
      (tt, tt)

abbrev root : StdenvVars
root = record {
  uid = codes "0";
  gid = codes "0";
  user = codes "root";
  group = codes "root";
  home = codes "/root";
}
