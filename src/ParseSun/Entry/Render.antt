-- ===== src/ParseSun/Entry/Render.antt =====
-- modules/parse_sun.c: entries that are written and read again.
pub mod Blank
use autofs.Prelude.{
  ℕ, suc, ◌+◌, Bool, true, false, List, [], ◌∷◌, ◌++◌, none, some, ◌≡◌, refl, ap, if◌then◌else◌,
  length, drop-append, All,
}
use autofs.Text.{Bytes, is_prefix}
use autofs.ParseSun.Expand.Words.{dequote-plain, chunklen-plain, IsOrdinary}
use autofs.ParseSun.Entry.{
  done, parse_options, options_loop, add_options, parse_mapent, entry, contains, concat_options,
}
use autofs.ParseSun.Entry.Render.Blank.{
  location_of, blank_locations, IsPlainLocation, StartsLocation, location-StartsLocation,
  parse_locations-plain,
}

if_some :
    {A : Type 0} (b : Bool) (x y : A) → (if b then some x else some y) ≡ some (if b then x else y)
if_some true x y = refl
if_some false x y = refl

abbrev pub join_global : (g_options options : Bytes) → Bytes
join_global g_options options =
    if contains options g_options then options else g_options ++ (b',' ∷ options)

add_options-join :
    (g : Bytes) (c : ℕ) (o : Bytes)
    → add_options (some g) (some (c ∷ o)) ≡ done (some (join_global g (c ∷ o)))
unfolding add_options concat_options contains is_prefix
add_options-join [] c o = refl
add_options-join (d ∷ g) c o =
    ap done (if_some (contains (c ∷ o) (d ∷ g)) (c ∷ o) (d ∷ g ++ (b',' ∷ c ∷ o)))

parse_options-plain :
    (c : ℕ) (o t : Bytes)
    → All IsOrdinary (c ∷ o)
    → parse_options (b'-' ∷ c ∷ o ++ (b' ' ∷ t)) none ≡ done (b' ' ∷ t, some (c ∷ o))
unfolding parse_options
parse_options-plain c o t h =
    rw (chunklen-plain (c ∷ o) t h, dequote-plain c o (b' ' ∷ t) h, drop-append (c ∷ o) (b' ' ∷ t))
      refl

options_loop-plain :
    (fuel : ℕ) (c : ℕ) (o t g : Bytes)
    → All IsOrdinary (c ∷ o)
    → StartsLocation t
    → options_loop (suc fuel) (b'-' ∷ c ∷ o ++ (b' ' ∷ t)) (some g)
      ≡ done (t, some (join_global g (c ∷ o)))
unfolding options_loop
options_loop-plain fuel c o t g h k =
    rw (parse_options-plain c o t h, add_options-join g c o, k.0, k.3)
      (ap (λ s. done (s, some (join_global g (c ∷ o)))) k.0)

-- An entry of options and locations of ordinary bytes, with single blanks between them, is read
-- as these options, behind the global ones or instead of those that they contain, and these
-- locations, to its end; the locations are accepted, and the first starts with no `-`, slash or `#`.
pub parse_mapent-plain :
    (c : ℕ) (options g_options : Bytes) (l : Bytes × Bytes) (ls : List (Bytes × Bytes))
    → All IsOrdinary (c ∷ options)
    → All IsPlainLocation (l ∷ ls)
    → parse_mapent
        (b'-' ∷ c ∷ options ++ (b' ' ∷ (location_of l ++ blank_locations ls)))
        (some g_options)
      ≡ done (
          some (
            entry
              (some (join_global g_options (c ∷ options)))
              (some (location_of l ++ blank_locations ls))
              []))
unfolding parse_mapent
parse_mapent-plain c options g l ls h (good, k) =
    let t = location_of l ++ blank_locations ls in
    let ent = b'-' ∷ c ∷ options ++ (b' ' ∷ t) in
    let starts = location-StartsLocation l.0 l.1 (blank_locations ls) good.0 good.2 in
    rw (options_loop-plain (length ent) c options t g h starts)
      (parse_locations-plain l ls good k (some (join_global g (c ∷ options))))
