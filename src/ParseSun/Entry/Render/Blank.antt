-- ===== src/ParseSun/Entry/Render/Blank.antt =====
-- modules/parse_sun.c: locations of ordinary bytes with a blank between them.
use mathlib.Core.List.{append-nil, append_assoc}
use autofs.Prelude.{
  ℕ, zero, suc, ◌≤◌, ◌<◌, Bool, true, false, not, ◌||◌, List, [], ◌∷◌, ◌++◌, Option, some, ◌≡◌,
  refl, ap, ◌∙◌, sym, arith, ◌==◌, length, length-append, drop, drop-append, All,
}
use autofs.Text.{Bytes}
use autofs.ParseSubs.Quotes.{check_colon, dequote, skipspace}
use autofs.ParseSubs.Words.{chunklen}
use autofs.ParseSubs.Words.Bounds.{Stops}
use autofs.ParseSun.Expand.{at_slash, key_text}
use autofs.ParseSun.Expand.Words.{IsOrdinary, location, chunklen-location, dequote-location}
use autofs.ParseSun.Location.{validate_location}
use autofs.ParseSun.Entry.{
  done, starts_with, is_location, add_location, locations_loop, more_locations, first_location,
  parse_locations, entry,
}

-- A host and a path, and the location that they are.
abbrev pub location_of : Bytes × Bytes → Bytes
location_of l = location l.0 l.1 []

-- Not with a slash, a `-` or the start of a comment.
abbrev starts_well : Bytes → Bool
starts_well [] = true
starts_well (c ∷ _) = not (c == b'/' || c == b'-' || c == b'#')

-- A host and a path of ordinary bytes that are accepted as a location.
abbrev pub IsPlainLocation : Bytes × Bytes → Type 0
IsPlainLocation l =
    All IsOrdinary l.0
    × All IsOrdinary l.1
    × (starts_well l.0 ≡ true)
    × (validate_location (location_of l) ≡ true)

-- Locations with a blank in front of each.
abbrev pub blank_locations : List (Bytes × Bytes) → Bytes
blank_locations [] = []
blank_locations (l ∷ ls) = b' ' ∷ (location_of l ++ blank_locations ls)

blank_locations-Stops : (ls : List (Bytes × Bytes)) → Stops (blank_locations ls)
blank_locations-Stops [] = tt
blank_locations-Stops (l ∷ ls) = refl

-- The text starts a location, and no white space, option or offset.
abbrev pub StartsLocation : Bytes → Type 0
StartsLocation t =
    (skipspace (b' ' ∷ t) ≡ t)
    × (is_location t ≡ true)
    × (at_slash t ≡ false)
    × (starts_with b'-' t ≡ false)

pub location-StartsLocation :
    (h p rest : Bytes)
    → All IsOrdinary h
    → starts_well h ≡ true
    → StartsLocation (location h p [] ++ rest)
unfolding skipspace
location-StartsLocation [] p rest i w = (refl, refl, refl, refl)
location-StartsLocation (c ∷ h) p rest (i, j) w =
    (ground arith, ground arith, ground arith, ground arith)

add_location_accepted :
    (p : Bytes) (o : Option Bytes) (loc w : Bytes)
    → at_slash p ≡ false
    → validate_location w ≡ true
    → add_location p o loc (some w) ≡ done (some (loc ++ (b' ' ∷ w)))
unfolding add_location
add_location_accepted p o loc w h k = rw (h, k) refl

module _ (l : Bytes × Bytes) (ls : List (Bytes × Bytes)) (good : IsPlainLocation l) where
  chunk_measured :
      (e : Bool) → chunklen (location_of l ++ blank_locations ls) e ≡ some (length (location_of l))
  unfolding key_text
  chunk_measured e =
      chunklen-location l.0 l.1 [] (blank_locations ls) e good.0 good.1 tt
        (blank_locations-Stops ls)

  chunk_dequoted :
      dequote true (location_of l ++ blank_locations ls) (length (location_of l))
      ≡ some (location_of l)
  unfolding key_text
  chunk_dequoted = dequote-location l.0 l.1 [] (blank_locations ls) good.0 good.1 tt

locations_loop-step :
    (fuel n : ℕ) (p : Bytes) (o : Option Bytes) (loc w loc' : Bytes)
    → is_location p ≡ true
    → chunklen p (check_colon p) ≡ some n
    → dequote true p n ≡ some w
    → add_location p o loc (some w) ≡ done (some loc')
    → locations_loop (suc fuel) p o loc ≡ locations_loop fuel (skipspace (drop n p)) o loc'
unfolding locations_loop
locations_loop-step fuel n p o loc w loc' h c d a = rw (h, c, d, a, locations_loop) refl

locations_loop-end :
    (fuel : ℕ) (o : Option Bytes) (loc : Bytes)
    → locations_loop (suc fuel) (skipspace []) o loc ≡ done (some (loc ++ [], []))
unfolding locations_loop skipspace
locations_loop-end fuel o loc = ap (λ t. done (some (t, []))) (sym (append-nil loc))

-- The loop over the locations that are left.
locations_loop-blank :
    (fuel : ℕ) (o : Option Bytes) (ls : List (Bytes × Bytes)) (loc : Bytes)
    → length ls < fuel
    → All IsPlainLocation ls
    → locations_loop fuel (skipspace (blank_locations ls)) o loc
      ≡ done (some (loc ++ blank_locations ls, []))
locations_loop-blank zero o ls loc h g = absurd (omega (arith, h))
locations_loop-blank (suc fuel) o [] loc h g = locations_loop-end fuel o loc
locations_loop-blank (suc fuel) o (l ∷ ls) loc h (good, g) =
    let t = location_of l ++ blank_locations ls in
    let n = length (location_of l) in
    let starts = location-StartsLocation l.0 l.1 (blank_locations ls) good.0 good.2 in
    let step =
      locations_loop-step fuel n t o loc (location_of l) (loc ++ (b' ' ∷ location_of l)) starts.1
        (chunk_measured l ls good (check_colon t)) (chunk_dequoted l ls good)
        (add_location_accepted t o loc (location_of l) starts.2 good.3) in
    let rest =
      locations_loop-blank fuel o ls (loc ++ (b' ' ∷ location_of l)) (omega (arith, h)) g in
    let text = append_assoc loc (b' ' ∷ location_of l) (blank_locations ls) in
    ap (λ p. locations_loop (suc fuel) p o loc) starts.0
    ∙ step
    ∙ ap (λ p. locations_loop fuel (skipspace p) o (loc ++ (b' ' ∷ location_of l)))
        (drop-append (location_of l) (blank_locations ls))
    ∙ rest
    ∙ ap (λ s. done (some (s, []))) text

length-blank_locations : (ls : List (Bytes × Bytes)) → length ls ≤ length (blank_locations ls)
length-blank_locations [] = omega arith
length-blank_locations (l ∷ ls) =
    let a = length-append (location_of l) (blank_locations ls) in
    let b = length-blank_locations ls in omega (arith, a, b)

skipspace-blank :
    (ls : List (Bytes × Bytes))
    → All IsPlainLocation ls
    → length ls ≤ length (skipspace (blank_locations ls))
unfolding skipspace
skipspace-blank [] h = omega arith
skipspace-blank (l ∷ ls) (good, h) =
    let starts = location-StartsLocation l.0 l.1 (blank_locations ls) good.0 good.2 in
    let a = length-append (location_of l) (blank_locations ls) in
    let b = length-blank_locations ls in
    let c = length-append l.0 (b':' ∷ b'/' ∷ (l.1 ++ [])) in
    let d = ap length starts.0 in omega (arith, a, b, c, d)

more_locations-blank :
    (o : Option Bytes) (ls : List (Bytes × Bytes)) (loc : Bytes)
    → All IsPlainLocation ls
    → more_locations (skipspace (blank_locations ls)) o loc
      ≡ done (some (entry o (some (loc ++ blank_locations ls)) []))
unfolding more_locations
more_locations-blank o ls loc g =
    let p = skipspace (blank_locations ls) in
    let l = skipspace-blank ls g in
    rw (locations_loop-blank (suc (length p)) o ls loc (omega (arith, l)) g) refl

module _ (l : Bytes × Bytes) (ls : List (Bytes × Bytes)) (good : IsPlainLocation l)
    (g : All IsPlainLocation ls) (o : Option Bytes) where
  first_location-plain :
      first_location
        (location_of l ++ blank_locations ls)
        (length (location_of l))
        o
        (some (location_of l))
      ≡ done (some (entry o (some (location_of l ++ blank_locations ls)) []))
  unfolding first_location
  first_location-plain =
      let starts = location-StartsLocation l.0 l.1 (blank_locations ls) good.0 good.2 in
      rw (starts.2, good.3, drop-append (location_of l) (blank_locations ls), first_location)
        (more_locations-blank o ls (location_of l) g)

  pub parse_locations-plain :
      parse_locations (location_of l ++ blank_locations ls) o
      ≡ done (some (entry o (some (location_of l ++ blank_locations ls)) []))
  unfolding parse_locations
  parse_locations-plain =
      rw
        (
          chunk_measured l ls good (check_colon (location_of l ++ blank_locations ls)),
          chunk_dequoted l ls good,
        )
        first_location-plain
