-- ===== src/Macros/Lookup.antt =====
-- lib/macros.c: what a search of a table finds after a change of the table.
use autofs.Prelude.{
  false, List, [], ◌∷◌, Option, none, some, ◌≡◌, ◌≢◌, refl, arith, if◌then◌else◌, All,
}
use autofs.Text.{Bytes, equal, equal_iff}
use autofs.Macros.{Substvar, find, is_found, set_val, unlink}

-- The value that a search finds.
abbrev pub value_of : Option Substvar → Option Bytes
value_of none = none
value_of (some sv) = some sv.val

-- Every name stands once in the table.
abbrev pub AreDistinct : List Substvar → Type 0
AreDistinct [] = Unit
AreDistinct (sv ∷ next) = All (λ s. s.def ≢ sv.def) next × AreDistinct next

pub find-cons :
    (key : Bytes) (sv : Substvar) (next : List Substvar)
    → find key (sv ∷ next) ≡ (if equal key sv.def then some sv else find key next)
unfolding find
find-cons key sv next = refl

abbrev pub with_val : Bytes → Option Substvar → Option Substvar
with_val value none = none
with_val value (some sv) = some (record sv { val = value })

pub find-set_val :
    (key value j : Bytes) (t : List Substvar)
    → find j (set_val key value t) ≡ (if equal j key then with_val value (find j t) else find j t)
unfolding find set_val
find-set_val key value j [] = ground arith
find-set_val key value j (sv ∷ next) = ground (
  arith,
  find-set_val key value j next,
  equal_iff j key,
  equal_iff key sv.def,
  equal_iff j sv.def,
)

-- A name that stands nowhere in a table is not found.
pub find-Absent : (key : Bytes) (t : List Substvar) → All (λ s. s.def ≢ key) t → find key t ≡ none
unfolding find
find-Absent key [] h = refl
find-Absent key (sv ∷ next) h = ground (arith, find-Absent key next, equal_iff key sv.def)

pub find-unlink :
    (key j : Bytes) (t : List Substvar)
    → AreDistinct t
    → find j (unlink key t) ≡ (if equal j key then none else find j t)
unfolding find unlink
find-unlink key j [] h = ground arith
find-unlink key j (sv ∷ next) h = ground (
  arith,
  find-unlink key j next h.1,
  find-Absent key next,
  find-Absent sv.def next,
  equal_iff j key,
  equal_iff key sv.def,
  equal_iff j sv.def,
)

pub Absent-of_find :
    (key : Bytes) (t : List Substvar) → is_found (find key t) ≡ false → All (λ s. s.def ≢ key) t
unfolding find
Absent-of_find key [] h = tt
Absent-of_find key (sv ∷ next) h = ground (arith, Absent-of_find key next, equal_iff key sv.def)

set_val-Absent :
    (p key value : Bytes) (t : List Substvar)
    → All (λ s. s.def ≢ p) t
    → All (λ s. s.def ≢ p) (set_val key value t)
unfolding set_val
set_val-Absent p key value [] h = tt
set_val-Absent p key value (sv ∷ next) h = ground (arith, set_val-Absent p key value next)

pub set_val-AreDistinct :
    (key value : Bytes) (t : List Substvar) → AreDistinct t → AreDistinct (set_val key value t)
unfolding set_val
set_val-AreDistinct key value [] h = tt
set_val-AreDistinct key value (sv ∷ next) h =
    ground (arith, set_val-AreDistinct key value next, set_val-Absent sv.def key value next)

unlink-Absent :
    (p key : Bytes) (t : List Substvar)
    → All (λ s. s.def ≢ p) t
    → All (λ s. s.def ≢ p) (unlink key t)
unfolding unlink
unlink-Absent p key [] h = tt
unlink-Absent p key (sv ∷ next) h = ground (arith, unlink-Absent p key next)

pub unlink-AreDistinct :
    (key : Bytes) (t : List Substvar) → AreDistinct t → AreDistinct (unlink key t)
unfolding unlink
unlink-AreDistinct key [] h = tt
unlink-AreDistinct key (sv ∷ next) h =
    ground (arith, unlink-AreDistinct key next, unlink-Absent sv.def key next)
