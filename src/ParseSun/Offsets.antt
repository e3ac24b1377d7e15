-- ===== src/ParseSun/Offsets.antt =====
-- modules/parse_sun.c: the offsets of a multi mount entry, and their entries of the cache. `no_fuel`
-- stands also for a loop of the cache that does not end.
pub mod Span
pub mod Keeps
pub mod Rounds
use mathlib.Core.List.{reverse}
use autofs.Prelude.{
  ℕ, zero, suc, ◌+◌, ◌-◌, Bool, true, false, not, ◌&&◌, ◌||◌, List, [], ◌∷◌, ◌++◌, Option, none,
  some, ◌==◌, if◌then◌else◌, leb, ltb, length, drop,
}
use autofs.Text.{Bytes, codes, equal}
use autofs.Defaults.{path_max}
use autofs.ParseSubs.{lkp_other, sanitize_path}
use autofs.ParseSubs.Quotes.{skipspace}
use autofs.ParseSun.Expand.{at_slash}
use autofs.Cache.{Mapent, Cache, cache_lookup_distinct}
use autofs.Cache.Write.{Che, che_fail}
use autofs.Cache.Delete.{cache_delete}
use autofs.Cache.Update.{cache_update_offset}
use autofs.ParseSun.Offsets.Span.{span_space}
use autofs.ParseSun.Entry.{Outcome, no_fuel, undefined, done, and_then, Entry, parse_mapent}

abbrev pub mapent_max_len : ℕ
mapent_max_len = 16384

-- Without the slashes at the end.
unfoldable pub trim_slashes : Bytes → Bytes
trim_slashes [] = []
trim_slashes (c ∷ s) = elim (trim_slashes s) [
  | [] ↦ if c == b'/' then [] else c ∷ []
  | d ∷ r ↦ c ∷ d ∷ r
]

-- The bytes of an offset that are put behind the root.
unfoldable pub offset_key : Bytes → Bytes
offset_key [] = []
offset_key (c ∷ s) = c ∷ trim_slashes s

-- An entry on the list `offsets`, by its address; its `work` is on this list alone.
pub record Work : Type 0 where
  pub addr : ℕ
  pub key : Bytes

abbrev pub is_listed : ℕ → List Work → Bool
is_listed a [] = false
is_listed a (w ∷ rest) = a == w.addr || is_listed a rest

-- The loop over the list from its end on, for the reverse of the list: an entry that is not longer
-- takes `me` behind it at the end of the list, and in front of it elsewhere.
unfoldable pub insert_prev : (at_end : Bool) → (me : Work) → List Work → Option (List Work)
insert_prev at_end me [] = none
insert_prev at_end me (this ∷ prev) =
    let rest = insert_prev false me prev in
    if leb (length this.key) (length me.key)
    then some (if at_end then me ∷ this ∷ prev else this ∷ me ∷ prev)
    else elim rest [ none ↦ none | some l ↦ some (this ∷ l) ]

unfoldable pub list_offset : (me : Work) → List Work → List Work
list_offset me offsets = elim (insert_prev true me (reverse offsets)) [
  | none ↦ me ∷ offsets
  | some l ↦ reverse l
]

-- The entry of the cache goes on the list, if it is there and not on it.
abbrev pub list_found : List Mapent → List Work → List Work
list_found [] offsets = offsets
list_found (me ∷ _) offsets =
    if is_listed me.addr offsets
    then offsets
    else list_offset (record { addr = me.addr; key = me.key }) offsets

-- `type && !strcmp(type, "hosts")`
abbrev pub is_hosts_map : Option Bytes → Bool
is_hosts_map none = false
is_hosts_map (some type) = equal type (codes "hosts")

-- `!loc || !*loc`
abbrev pub no_text : Option Bytes → Bool
no_text (some (_ ∷ _)) = false
no_text _ = true

abbrev pub text_of : Option Bytes → Bytes
text_of none = []
text_of (some t) = t

-- `m_mapent`
unfoldable pub offset_mapent : (myoptions : Bytes) → (loc : Option Bytes) → Bytes
offset_mapent [] loc = text_of loc
offset_mapent (c ∷ o) none = b'-' ∷ c ∷ o
offset_mapent (c ∷ o) (some loc) = (b'-' ∷ c ∷ o) ++ (b' ' ∷ loc)

-- `m_options_len`
abbrev pub options_len : Bytes → ℕ
options_len [] = 0
options_len (c ∷ o) = length (c ∷ o) + 2

-- What the functions on offsets change: the cache and the list.
pub record Store : Type 0 where
  pub mc : Cache
  pub offsets : List Work

-- `status == CHE_OK`, and the store.
abbrev pub listed : Bytes → List Work → Option (Che × Cache) → Outcome (Bool × Store)
listed m_key offsets none = no_fuel
listed m_key offsets (some (ret, mc)) = done (
  elim ret [ che_fail ↦ false | _ ↦ true ],
  record { mc = mc; offsets = list_found (cache_lookup_distinct mc (some m_key)) offsets },
)

-- The tests of `update_offset_entry` in front of the options.
abbrev pub is_refused_offset :
    (type : Option Bytes) → (m_root m_offset : Bytes) → (loc : Option Bytes) → Bool
is_refused_offset type m_root m_offset loc =
    no_text loc && not (is_hosts_map type)
    || no_text (some m_offset)
    || ltb path_max (length m_root + length (offset_key m_offset))

-- `addr` is the address that an entry would get.
unfoldable pub store_offset :
    (addr : ℕ)
    → Store
    → (name m_key : Bytes) → (myoptions loc : Option Bytes) → (age : ℕ) → Outcome (Bool × Store)
store_offset addr s name m_key none loc age = undefined
store_offset addr s name m_key (some myoptions) loc age =
    if ltb mapent_max_len (length (text_of loc) + options_len myoptions)
    then done (false, s)
    else listed m_key s.offsets
        (cache_update_offset true addr s.mc name m_key (offset_mapent myoptions loc) age)

-- `type` is `ap->entry->maps->type`.
unfoldable pub update_offset_entry :
    (type : Option Bytes)
    → (addr : ℕ) → Store
    → (name m_root m_offset : Bytes) → (myoptions loc : Option Bytes) → (age : ℕ)
    → Outcome (Bool × Store)
update_offset_entry type addr s name m_root m_offset myoptions loc age =
    if is_refused_offset type m_root m_offset loc
    then done (false, s)
    else store_offset addr s name (m_root ++ offset_key m_offset) myoptions loc age

-- `cleanup_offset_entries`; it leaves the list empty.
unfoldable pub cleanup_offset_entries : Cache → List Work → Cache
cleanup_offset_entries mc [] = mc
cleanup_offset_entries mc (me ∷ offsets) = cleanup_offset_entries (cache_delete mc me.key).1 offsets

-- `*p == '/' || (*p == '"' && *(p + 1) == '/')`
abbrev pub starts_offset : Bytes → Bool
starts_offset [] = false
starts_offset (c ∷ s) = c == b'/' || c == b'"' && at_slash s

-- The offset at a position, and the text behind it; without one it is that of the root. `signed` says
-- whether a char is signed.
unfoldable pub take_offset : (signed : Bool) → Bytes → Outcome (Option Bytes × Bytes)
take_offset signed p =
    if not (starts_offset p)
    then done (some (b'/' ∷ []), p)
    else and_then (span_space p (length p + 1))
        (λ l. done (sanitize_path true signed p l lkp_other, drop l p))

-- What the loop over the offsets of a multi mount needs of its surroundings. `addr` gives the
-- addresses of new entries, by the rounds that are left.
pub record Multi : Type 0 where
  pub signed : Bool
  pub type : Option Bytes
  pub addr : ℕ → ℕ
  pub name : Bytes
  pub m_root : Bytes
  pub age : ℕ
  pub options : Option Bytes

-- What has been added is taken out of the cache again.
abbrev pub give_up : Store → Outcome (Bool × Store)
give_up s = done (false, record { mc = cleanup_offset_entries s.mc s.offsets; offsets = [] })

-- The rest of a round, for the entry of an offset that was parsed.
unfoldable pub add_offset :
    Multi → (fuel : ℕ) → Store → (m_offset : Bytes) → Entry → Outcome (Bool × Store)
add_offset env fuel s m_offset e =
    update_offset_entry env.type (env.addr fuel) s env.name env.m_root m_offset e.options e.location
      env.age

-- `parse_mapent` answers 0, where it fails or takes nothing of the text.
abbrev pub unless_zero : Bytes → Option Entry → Option Entry
unless_zero p none = none
unless_zero p (some e) = if length e.src == length p then none else some e

abbrev pub or_give_up {ℓ} :
    {A : Type ℓ} → Store → Option A → (A → Outcome (Bool × Store)) → Outcome (Bool × Store)
or_give_up s none f = give_up s
or_give_up s (some a) f = f a

-- The loop over the offsets; `false` where it gives up.
unfoldable pub offsets_loop : Multi → ℕ → Bytes → Store → Outcome (Bool × Store)
offsets_loop env zero p s = no_fuel
offsets_loop env (suc fuel) p s = and_then (take_offset env.signed p) (λ o.
    or_give_up s o.0 (λ m_offset. and_then (parse_mapent (skipspace o.1) env.options) (λ parsed.
      or_give_up s (unless_zero (skipspace o.1) parsed) (λ e.
        and_then (add_offset env fuel s m_offset e) (λ u. elim u.0 [
          | false ↦ give_up u.1
          | true ↦ elim (starts_offset (skipspace e.src)) [
            | false ↦ done (true, u.1)
            | true ↦ offsets_loop env fuel (skipspace e.src) u.1
          ]
        ])))))
