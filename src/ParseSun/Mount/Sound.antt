-- ===== src/ParseSun/Mount/Sound.antt =====
-- modules/parse_sun.c: what parse_mount hands over, and the cache that it leaves.
use autofs.Prelude.{
  ℕ, zero, suc, Bool, true, false, not, ◌&&◌, ◌||◌, List, [], ◌∷◌, ◌++◌, Option, none, some,
  if◌then◌else◌, length, drop, if_both, Bool-cases, inl, inr, refl, arith, Option-cases,
}
use autofs.Text.{Bytes, codes, equal}
use autofs.Cache.{Mapent, Cache, cache_lookup_distinct, is_mm}
use autofs.Cache.Write.{change_entry}
use autofs.Cache.Walk.{IsCache}
use autofs.Cache.Keeps.{change_entry-IsCache}
use autofs.ParseSubs.Quotes.{check_colon, dequote, skipspace}
use autofs.ParseSubs.Words.{chunklen}
use autofs.ParseSun.Expand.{at_slash}
use autofs.ParseSun.Location.{validate_location}
use autofs.ParseSun.Entry.{measured, asks_hosts, check_is_multi}
use autofs.ParseSun.Entry.Locations.{
  Locations, one, more, Returns, and_then-Returns, or_fail-Returns, any_outcome,
}
use autofs.Defaults.{path_max}
use autofs.ParseSun.Offsets.{Store, Work}
use autofs.ParseSun.Offsets.Keeps.{
  KeepsCache, offsets_loop-KeepsCache, cleanup_offset_entries-IsCache,
}
use autofs.ParseSun.Mount.{
  entry_loop, entry_locations, core_of_entry, mount_fullpath, Handed, mounted, Context, claim_root,
  add_to_tree, with_root, after_offsets, multi_of, mount_offsets, mount_multi, mount_entry,
  names_part, hand_core, hand_found, mount_parsed, mount_expanded, parse_mount, expanded,
  gather_options, text_or_empty,
}

abbrev Accepted : Option Bytes → Type 0
Accepted none = Unit
Accepted (some loc) = Locations loc

entry_loop-Accepted :
    (fuel : ℕ) (p loc : Bytes) → Locations loc → Returns Accepted (entry_loop fuel p loc)
unfolding entry_loop
entry_loop-Accepted fuel [] loc h = h
entry_loop-Accepted zero (c ∷ s) loc h = tt
entry_loop-Accepted (suc fuel) (c ∷ s) loc h =
    and_then-Returns (λ n. Unit) Accepted (measured (chunklen (c ∷ s) (check_colon (c ∷ s)))) _
      (any_outcome (measured (chunklen (c ∷ s) (check_colon (c ∷ s)))))
      (λ n _.
        or_fail-Returns (λ o. Unit) Accepted (dequote true (c ∷ s) n) _ tt tt
          (λ ent _. elim (Bool-cases (validate_location ent)) [
            | inr f ↦ rw (f, Returns) tt
            | inl f ↦
                rw (f, Returns)
                  (entry_loop-Accepted fuel (skipspace (drop n (c ∷ s))) (loc ++ (b' ' ∷ ent))
                    (more loc ent h f))
          ]))

entry_locations-Accepted : (p : Bytes) → Returns Accepted (entry_locations p)
unfolding entry_locations
entry_locations-Accepted p =
    and_then-Returns (λ n. Unit) Accepted (measured (chunklen p (check_colon p))) _
      (any_outcome (measured (chunklen p (check_colon p))))
      (λ n _.
        or_fail-Returns (λ o. Unit) Accepted (dequote true p n) _ tt tt
          (λ loc _. elim (Bool-cases (at_slash p || not (validate_location loc))) [
            | inl f ↦ rw (f, Returns) tt
            | inr f ↦
                rw (f, Returns)
                  (entry_loop-Accepted (length (skipspace (drop n p))) (skipspace (drop n p)) loc
                    (one loc (ground arith)))
          ]))

-- A location for `sun_mount` is made of accepted locations.
abbrev pub IsHanded : Handed → Type 0
IsHanded (mounted root (some loc) options) = Locations loc
IsHanded _ = Unit

-- What is handed over, and the cache.
abbrev pub Sound : Handed × Cache → Type 0
Sound r = IsHanded r.0 × IsCache r.1

claim_root-IsCache : (me : Mapent) (mc : Cache) → IsCache mc → IsCache (claim_root me mc)
unfolding claim_root
claim_root-IsCache me mc h =
    if_both IsCache (is_mm me) (λ e. h)
      (λ e.
        change_entry-IsCache me.addr (λ m. record m { mm_root = some me.addr }) mc (λ m. refl) h)

add_to_tree-IsCache :
    (root : Option ℕ) (l : List Work) (mc : Cache) → IsCache mc → IsCache (add_to_tree root l mc)
unfolding add_to_tree
add_to_tree-IsCache root [] mc h = h
add_to_tree-IsCache root (w ∷ l) mc h =
    add_to_tree-IsCache root l (change_entry w.addr (λ m. record m { mm_root = root }) mc)
      (change_entry-IsCache w.addr (λ m. record m { mm_root = root }) mc (λ m. refl) h)

with_root-Sound :
    (options : Option Bytes) (s : Store) (found : List Mapent)
    → IsCache s.mc
    → Sound (with_root options s found)
with_root-Sound options s [] h = (tt, cleanup_offset_entries-IsCache s.offsets s.mc h)
with_root-Sound options s (me ∷ _) h = (tt, add_to_tree-IsCache me.mm_root s.offsets s.mc h)

after_offsets-Sound :
    (name : Bytes) (options : Option Bytes) (r : Bool × Store)
    → KeepsCache r
    → Sound (after_offsets name options r)
after_offsets-Sound name options (false, s) h = (tt, h)
after_offsets-Sound name options (true, s) h =
    with_root-Sound options s (cache_lookup_distinct s.mc (some name)) h

mount_offsets-Sound :
    (ctxt : Context) (mc : Cache) (name m_root p : Bytes) (options : Option Bytes)
    (found : List Mapent)
    → IsCache mc
    → Returns Sound (mount_offsets ctxt mc name m_root p options found)
unfolding mount_offsets
mount_offsets-Sound ctxt mc name m_root p options [] h = (tt, h)
mount_offsets-Sound ctxt mc name m_root p options (me ∷ _) h =
    if_both (Returns Sound) (is_mm me && ctxt.format_amd) (λ e. (tt, h))
      (λ e.
        and_then-Returns KeepsCache Sound _ _
          (offsets_loop-KeepsCache (multi_of ctxt name m_root me.age options) (suc (length p)) p
            (record { mc = claim_root me mc; offsets = [] }) (claim_root-IsCache me mc h))
          (λ r k. after_offsets-Sound name options r k))

mount_multi-Sound :
    (ctxt : Context) (mc : Cache) (name p : Bytes) (options : Option Bytes)
    → IsCache mc
    → Returns Sound (mount_multi ctxt mc name p options)
unfolding mount_multi
mount_multi-Sound ctxt mc name p options h =
    elim (Option-cases (mount_fullpath path_max ctxt.path name)) [
      | inl e ↦ rw (e, Returns) (tt, h)
      | inr (m_root, e) ↦
          rw (e, Returns)
            (mount_offsets-Sound ctxt mc name m_root p options
              (cache_lookup_distinct mc (some name)) h)
    ]

-- The location that is left, if one is.
abbrev CoreAccepted : Option (Option Bytes) → Type 0
CoreAccepted none = Unit
CoreAccepted (some loc) = Accepted loc

core_of_entry-Accepted :
    (options : Option Bytes) (loc : Bytes)
    → Locations loc
    → Returns CoreAccepted (core_of_entry options loc)
unfolding core_of_entry
core_of_entry-Accepted options [] h =
    and_then-Returns (λ b. Unit) CoreAccepted (asks_hosts options) _
      (any_outcome (asks_hosts options)) (λ b _. if_both CoreAccepted b (λ e. tt) (λ e. tt))
core_of_entry-Accepted options (c ∷ loc) h =
    and_then-Returns (λ b. Unit) CoreAccepted (asks_hosts options) _
      (any_outcome (asks_hosts options)) (λ b _. if_both CoreAccepted b (λ e. tt) (λ e. h))

hand_core-IsHanded :
    (root : Bytes) (options : Option Bytes) (core : Option (Option Bytes))
    → CoreAccepted core
    → IsHanded (hand_core root options core)
hand_core-IsHanded root options none h = tt
hand_core-IsHanded root options (some none) h = tt
hand_core-IsHanded root options (some (some loc)) h = h

hand_found-IsHanded :
    (root : Bytes) (options found : Option Bytes)
    → Accepted found
    → Returns IsHanded (hand_found root options found)
hand_found-IsHanded root options none h = tt
hand_found-IsHanded root options (some loc) h =
    and_then-Returns CoreAccepted IsHanded (core_of_entry options loc) _
      (core_of_entry-Accepted options loc h) (λ core k. hand_core-IsHanded root options core k)

mount_entry-IsHanded :
    (ctxt : Context) (mc : Cache) (name p : Bytes) (options : Option Bytes)
    → Returns IsHanded (mount_entry ctxt mc name p options)
unfolding mount_entry
mount_entry-IsHanded ctxt mc name p options =
    let root = if equal ctxt.path (codes "/-") then name else ctxt.path in
    if_both (Returns IsHanded) (names_part false mc name) (λ e. tt)
      (λ e.
        and_then-Returns Accepted IsHanded (entry_locations p) _ (entry_locations-Accepted p)
          (λ found k. hand_found-IsHanded root options found k))

mount_parsed-Sound :
    (ctxt : Context) (mc : Cache) (name p : Bytes) (options : Option Bytes)
    → IsCache mc
    → Returns Sound (mount_parsed ctxt mc name p options)
unfolding mount_parsed
mount_parsed-Sound ctxt mc name p options h =
    and_then-Returns (λ b. Unit) Sound (check_is_multi p) _ (any_outcome (check_is_multi p))
      (λ b _.
        if_both (Returns Sound) b (λ e. mount_multi-Sound ctxt mc name p options h)
          (λ e.
            and_then-Returns IsHanded Sound (mount_entry ctxt mc name p options) _
              (mount_entry-IsHanded ctxt mc name p options) (λ r k. (k, h))))

mount_expanded-Sound :
    (ctxt : Context) (mc : Cache) (name : Bytes) (pmapent : Option Bytes)
    → IsCache mc
    → Returns Sound (mount_expanded ctxt mc name pmapent)
unfolding mount_expanded
mount_expanded-Sound ctxt mc name none h = (tt, h)
mount_expanded-Sound ctxt mc name (some pmapent) h =
    let gathered =
      gather_options ctxt.append_options (text_or_empty ctxt.optstr) (skipspace pmapent) in
    and_then-Returns (λ r. Unit) Sound gathered _ (any_outcome gathered)
      (λ r _. mount_parsed-Sound ctxt mc name r.0 r.1 h)

-- Where `parse_mount` comes to hand an entry over or returns, the cache is one if it was before: it has as many
-- chains as its size says and every entry stands on the chain of its key. A location that it hands
-- to `sun_mount` itself is made of texts that `validate_location` accepts, with a blank between them.
pub parse_mount-Sound :
    (ctxt : Context) (mc : Cache) (name : Bytes) (mapent : Option Bytes)
    → IsCache mc
    → Returns Sound (parse_mount ctxt mc name mapent)
unfolding parse_mount
parse_mount-Sound ctxt mc name none h = (tt, h)
parse_mount-Sound ctxt mc name (some mapent) h =
    and_then-Returns (λ r. Unit) Sound (expanded ctxt mc name mapent) _
      (any_outcome (expanded ctxt mc name mapent))
      (λ pmapent _. mount_expanded-Sound ctxt mc name pmapent h)
