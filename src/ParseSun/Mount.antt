-- ===== src/ParseSun/Mount.antt =====
-- modules/parse_sun.c: `parse_mount`, up to what it hands to the functions that mount.
pub mod Ends
pub mod Sound
use autofs.Prelude.{
  ℕ, zero, suc, ◌+◌, Bool, true, false, not, ◌&&◌, ◌||◌, List, [], ◌∷◌, ◌++◌, Option, none, some,
  ◌==◌, if◌then◌else◌, leb, length, drop,
}
use autofs.Text.{Bytes, codes, equal}
use autofs.Macros.{Substvar}
use autofs.ParseSubs.Quotes.{check_colon, dequote, skipspace}
use autofs.ParseSubs.Words.{chunklen}
use autofs.Cache.{Mapent, Cache, cache_lookup_distinct, is_mm, is_mm_root}
use autofs.Cache.Write.{change_entry}
use autofs.ParseSun.Expand.{Expansion, at_slash, do_expandsunent}
use autofs.ParseSun.Location.{validate_location}
use autofs.ParseSun.Entry.{
  Outcome, no_fuel, done, and_then, or_fail, measured, starts_with, contains, parse_options,
  concat_options, asks_hosts, check_is_multi,
}
use autofs.Defaults.{path_max}
use autofs.ParseSun.Offsets.{Multi, Store, Work, offsets_loop, cleanup_offset_entries}

-- The options of a round of the loop over `mnt_options`.
unfoldable pub add_mnt_options : (mnt_options noptions : Option Bytes) → Option Bytes
add_mnt_options mnt_options none = mnt_options
add_mnt_options none (some noptions) = concat_options none (some noptions)
add_mnt_options (some mnt_options) (some noptions) =
    if contains noptions mnt_options
    then some noptions
    else concat_options (some mnt_options) (some noptions)

-- The loop over the options, from a `-` on.
unfoldable pub mnt_options_loop :
    ℕ → Bytes → (mnt_options : Option Bytes) → Outcome (Bytes × Option Bytes)
mnt_options_loop zero p mnt_options = no_fuel
mnt_options_loop (suc fuel) p mnt_options = and_then (parse_options p none) (λ r.
    elim (starts_with b'-' (skipspace r.0)) [
      | true ↦ mnt_options_loop fuel (skipspace r.0) (add_mnt_options mnt_options r.1)
      | false ↦ done (skipspace r.0, add_mnt_options mnt_options r.1)
    ])

-- The options of the map and those of the entry; without options of the entry `options` may be NULL.
unfoldable pub join_mnt_options :
    (append_options : Bool) → (options : Bytes) → (mnt_options : Option Bytes) → Option Bytes
join_mnt_options false options mnt_options = mnt_options
join_mnt_options true options none = some options
join_mnt_options true options (some mnt_options) =
    if contains mnt_options options
    then some mnt_options
    else concat_options (some options) (some mnt_options)

-- From `skipspace` on up to the test for a multi mount.
unfoldable pub gather_options :
    (append_options : Bool) → (options : Bytes) → Bytes → Outcome (Bytes × Option Bytes)
gather_options append_options options p =
    if starts_with b'-' p
    then and_then (mnt_options_loop (suc (length p)) p none)
        (λ r. done (r.0, join_mnt_options append_options options r.1))
    else done (p, some options)

-- The loop over the locations behind the first one; `none` returns 1.
unfoldable pub entry_loop : ℕ → Bytes → (loc : Bytes) → Outcome (Option Bytes)
entry_loop fuel [] loc = done (some loc)
entry_loop zero (c ∷ s) loc = no_fuel
entry_loop (suc fuel) (c ∷ s) loc =
    and_then (measured (chunklen (c ∷ s) (check_colon (c ∷ s)))) (λ l.
      or_fail (dequote true (c ∷ s) l) (λ ent. elim (validate_location ent) [
        | false ↦ done none
        | true ↦ entry_loop fuel (skipspace (drop l (c ∷ s))) (loc ++ (b' ' ∷ ent))
      ]))

-- The locations of an entry that is no multi mount.
unfoldable pub entry_locations : Bytes → Outcome (Option Bytes)
entry_locations p = and_then (measured (chunklen p (check_colon p))) (λ l.
    or_fail (dequote true p l) (λ loc. elim (at_slash p || not (validate_location loc)) [
      | true ↦ done none
      | false ↦ entry_loop (length (skipspace (drop l p))) (skipspace (drop l p)) loc
    ]))

-- Without locations a hosts map is asked for.
unfoldable pub core_of_entry :
    (options : Option Bytes) → (loc : Bytes) → Outcome (Option (Option Bytes))
core_of_entry options [] =
    and_then (asks_hosts options) (λ hosts. done (if hosts then some none else none))
core_of_entry options (c ∷ loc) =
    and_then (asks_hosts options)
      (λ hosts. done (if hosts then some none else some (some (c ∷ loc))))

-- `mount_fullpath`; NULL stands for the answer 0. A `root_len` of 0 asks for the length.
abbrev pub ends_root : Bytes → Bool
ends_root [] = false
ends_root (c ∷ []) = c == b'/'
ends_root (_ ∷ c ∷ s) = ends_root (c ∷ s)

abbrev pub fits : (max_len : ℕ) → Bytes → Option Bytes
fits max_len [] = none
fits max_len (c ∷ s) = if leb max_len (length (c ∷ s)) then none else some (c ∷ s)

unfoldable pub mount_fullpath : (max_len : ℕ) → (root name : Bytes) → Option Bytes
mount_fullpath max_len root name =
    fits max_len
      (if ends_root root then root else if at_slash name then name else root ++ (b'/' ∷ name))

-- What `parse_mount` hands over: it returns a value at once, calls `mount_subtree` with a location
-- or NULL, or calls `sun_mount` with a root and a location or NULL.
pub data Handed : Type 0 where
  returned : (rv : ℕ) → Handed
  subtree : (loc options : Option Bytes) → Handed
  mounted : (root : Bytes) → (loc options : Option Bytes) → Handed

-- The surroundings: the options of the map, what is read of the point and of the settings, and the
-- parameters of the loop over offsets.
pub record Context : Type 0 where
  pub findvar : Bytes → Option Substvar
  pub optstr : Option Bytes
  pub slashify_colons : Bool
  pub append_options : Bool
  pub path : Bytes
  pub type : Option Bytes
  pub format_amd : Bool
  pub signed : Bool
  pub addr : ℕ → ℕ

abbrev pub text_or_empty : Option Bytes → Bytes
text_or_empty none = []
text_or_empty (some t) = t

-- `*name == '/'` and the entry of the name belongs to a multi mount; with `offset` it is not its root.
abbrev pub is_part : (offset : Bool) → List Mapent → Bool
is_part offset [] = false
is_part offset (me ∷ _) = is_mm me && not (offset && is_mm_root me)

abbrev pub names_part : (offset : Bool) → Cache → Bytes → Bool
names_part offset mc name = at_slash name && is_part offset (cache_lookup_distinct mc (some name))

abbrev pub expansion_of : Option (Option Expansion) → Outcome (Option Bytes)
expansion_of none = no_fuel
expansion_of (some none) = done none
expansion_of (some (some e)) = done (some e.dst)

-- `pmapent`: an offset is not expanded again; `none` fails.
unfoldable pub expanded : Context → Cache → (name mapent : Bytes) → Outcome (Option Bytes)
expanded ctxt mc name mapent =
    if names_part true mc name
    then done (some mapent)
    else expansion_of (do_expandsunent mapent name ctxt.findvar ctxt.slashify_colons)

-- `sun_mount` gets the name of a direct mount, or the path of the point.
abbrev pub hand_core : (root : Bytes) → (options : Option Bytes) → Option (Option Bytes) → Handed
hand_core root options none = returned 1
hand_core root options (some loc) = mounted root loc options

abbrev pub hand_found : (root : Bytes) → (options : Option Bytes) → Option Bytes → Outcome Handed
hand_found root options none = done (returned 1)
hand_found root options (some loc) =
    and_then (core_of_entry options loc) (λ core. done (hand_core root options core))

-- An entry that is no multi mount.
unfoldable pub mount_entry :
    Context → Cache → (name p : Bytes) → (options : Option Bytes) → Outcome Handed
mount_entry ctxt mc name p options =
    if names_part false mc name
    then done (subtree (some p) options)
    else and_then (entry_locations p) (λ found.
      hand_found (if equal ctxt.path (codes "/-") then name else ctxt.path) options found)

-- `MAPENT_SET_ROOT` of an entry that belongs to no multi mount: it is the root of a tree of its own.
unfoldable pub claim_root : Mapent → Cache → Cache
claim_root me mc =
    if is_mm me then mc else change_entry me.addr (λ m. record m { mm_root = some me.addr }) mc

-- The loop over `offsets` that puts them into the tree; an entry knows the root of its tree.
unfoldable pub add_to_tree : (root : Option ℕ) → List Work → Cache → Cache
add_to_tree root [] mc = mc
add_to_tree root (oe ∷ offsets) mc =
    add_to_tree root offsets (change_entry oe.addr (λ m. record m { mm_root = root }) mc)

-- Behind the loop over the offsets, where the entry of the name is looked up again.
abbrev pub with_root : (options : Option Bytes) → Store → List Mapent → Handed × Cache
with_root options s [] = (returned 1, cleanup_offset_entries s.mc s.offsets)
with_root options s (me ∷ _) = (subtree none options, add_to_tree me.mm_root s.offsets s.mc)

abbrev pub after_offsets : (name : Bytes) → (options : Option Bytes) → Bool × Store → Handed × Cache
after_offsets name options (false, s) = (returned 1, s.mc)
after_offsets name options (true, s) = with_root options s (cache_lookup_distinct s.mc (some name))

-- The surroundings of the loop.
abbrev pub multi_of : Context → (name m_root : Bytes) → (age : ℕ) → Option Bytes → Multi
multi_of ctxt name m_root age options = record {
  signed = ctxt.signed;
  type = ctxt.type;
  addr = ctxt.addr;
  name = name;
  m_root = m_root;
  age = age;
  options = options;
}

-- A multi mount whose root is `me`.
unfoldable pub mount_offsets :
    Context
    → Cache
    → (name m_root p : Bytes) → (options : Option Bytes) → List Mapent
    → Outcome (Handed × Cache)
mount_offsets ctxt mc name m_root p options [] = done (returned 1, mc)
mount_offsets ctxt mc name m_root p options (me ∷ _) =
    if is_mm me && ctxt.format_amd
    then done (returned 0, mc)
    else and_then
        (offsets_loop (multi_of ctxt name m_root me.age options) (suc (length p)) p
          (record { mc = claim_root me mc; offsets = [] }))
        (λ r. done (after_offsets name options r))

unfoldable pub mount_multi :
    Context → Cache → (name p : Bytes) → (options : Option Bytes) → Outcome (Handed × Cache)
mount_multi ctxt mc name p options = elim (mount_fullpath path_max ctxt.path name) [
  | none ↦ done (returned 1, mc)
  | some m_root ↦ mount_offsets ctxt mc name m_root p options (cache_lookup_distinct mc (some name))
]

-- From the test for a multi mount on.
unfoldable pub mount_parsed :
    Context → Cache → (name p : Bytes) → (options : Option Bytes) → Outcome (Handed × Cache)
mount_parsed ctxt mc name p options = and_then (check_is_multi p) (λ multi.
    if multi
    then mount_multi ctxt mc name p options
    else and_then (mount_entry ctxt mc name p options) (λ handed. done (handed, mc)))

-- An entry that could not be expanded is refused.
unfoldable pub mount_expanded :
    Context → Cache → (name : Bytes) → Option Bytes → Outcome (Handed × Cache)
mount_expanded ctxt mc name none = done (returned 1, mc)
mount_expanded ctxt mc name (some pmapent) =
    and_then (gather_options ctxt.append_options (text_or_empty ctxt.optstr) (skipspace pmapent))
      (λ r. mount_parsed ctxt mc name r.0 r.1)

unfoldable pub parse_mount :
    Context → Cache → (name : Bytes) → (mapent : Option Bytes) → Outcome (Handed × Cache)
parse_mount ctxt mc name none = done (returned 1, mc)
parse_mount ctxt mc name (some mapent) =
    and_then (expanded ctxt mc name mapent) (λ pmapent. mount_expanded ctxt mc name pmapent)
