-- ===== src/Macros/Local.antt =====
-- lib/macros.c: a local table as a map from names to values.
use autofs.Prelude.{
  ℕ, Bool, true, List, [], ◌∷◌, Option, none, some, ◌≡◌, refl, arith, if◌then◌else◌, length, take,
  ◌∙◌, take-length,
}
use autofs.Text.{Bytes, equal, equal_iff}
use autofs.Macros.{Substvar, find, new_var, or_empty, macro_addvar, macro_removevar}
use autofs.Macros.Lookup.{
  value_of, AreDistinct, find-cons, find-set_val, find-unlink, Absent-of_find, set_val-AreDistinct,
  unlink-AreDistinct,
}

pub macro_addvar-AreDistinct :
    (alloc : Bool) (t : List Substvar) (str : Bytes) (len : ℕ) (value : Option Bytes)
    → AreDistinct t
    → AreDistinct (macro_addvar alloc t str len value)
unfolding macro_addvar
macro_addvar-AreDistinct alloc t str len value h =
    ground (
      arith,
      set_val-AreDistinct (take len str) (or_empty value) t,
      Absent-of_find (take len str) t,
    )

pub value_of-macro_addvar :
    (t : List Substvar) (str : Bytes) (len : ℕ) (value : Option Bytes) (j : Bytes)
    → value_of (find j (macro_addvar true t str len value))
      ≡ (if equal j (take len str) then some (or_empty value) else value_of (find j t))
unfolding macro_addvar
value_of-macro_addvar t str len value j = ground (
  arith,
  find-set_val (take len str) (or_empty value) j t,
  find-cons j (new_var (take len str) (or_empty value)) t,
  equal_iff j (take len str),
)

pub value_of-macro_removevar :
    (t : List Substvar) (str : Bytes) (len : ℕ) (j : Bytes)
    → AreDistinct t
    → value_of (find j (macro_removevar t str len))
      ≡ (if equal j (take len str) then none else value_of (find j t))
unfolding macro_removevar
value_of-macro_removevar t str len j h = ground (arith, find-unlink (take len str) j t)

-- The calls that work on a local table, with whole names.
pub data Change : Type 0 where
  add : (name value : Bytes) → Change
  remove : (name : Bytes) → Change

unfoldable pub table_after : List Change → List Substvar → List Substvar
table_after [] t = t
table_after (add name value ∷ cs) t =
    table_after cs (macro_addvar true t name (length name) (some value))
table_after (remove name ∷ cs) t = table_after cs (macro_removevar t name (length name))

-- The same changes of a map.
abbrev pub map_after : List Change → (Bytes → Option Bytes) → Bytes → Option Bytes
map_after [] m = m
map_after (add name value ∷ cs) m = map_after cs (λ j. if equal j name then some value else m j)
map_after (remove name ∷ cs) m = map_after cs (λ j. if equal j name then none else m j)

-- A table that stands for a map.
pub record Represents (t : List Substvar) (m : Bytes → Option Bytes) : Type 0 where
  pub distinct : AreDistinct t
  pub values : (j : Bytes) → value_of (find j t) ≡ m j

table_after-Represents :
    (cs : List Change) (t : List Substvar) (m : Bytes → Option Bytes)
    → Represents t m
    → Represents (table_after cs t) (map_after cs m)
unfolding table_after
table_after-Represents [] t m r = r
table_after-Represents (add name value ∷ cs) t m r =
    table_after-Represents cs (macro_addvar true t name (length name) (some value)) _ (record {
      distinct = macro_addvar-AreDistinct true t name (length name) (some value) r.distinct;
      values = λ j.
          value_of-macro_addvar t name (length name) (some value) j
          ∙ rw (take-length name, r.values j) refl;
    })
table_after-Represents (remove name ∷ cs) t m r =
    table_after-Represents cs (macro_removevar t name (length name)) _ (record {
      distinct =
          unfold macro_removevar in unlink-AreDistinct (take (length name) name) t r.distinct;
      values = λ j.
          value_of-macro_removevar t name (length name) j r.distinct
          ∙ rw (take-length name, r.values j) refl;
    })

-- Where there is memory, a local table that starts empty is a map from names to values, whatever is
-- added to it and removed from it: a search finds what the same changes of a map leave.
pub table_after-refines :
    (cs : List Change) (j : Bytes)
    → value_of (find j (table_after cs [])) ≡ map_after cs (λ _. none) j
table_after-refines cs j =
    (table_after-Represents cs [] (λ _. none)
        (record { distinct = tt; values = λ j. unfold find in refl })).values
      j
