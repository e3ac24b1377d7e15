-- ===== src/ParseSun/Entry/Behind.antt =====
-- modules/parse_sun.c: the text behind what parse_mapent takes.
use autofs.Prelude.{
  ℕ, zero, suc, ◌≤◌, true, false, not, ◌||◌, [], ◌∷◌, Option, none, some, arith, ◌==◌, length, drop,
  length-drop, if_both, Bool-cases, inl, inr,
}
use autofs.Text.{Bytes}
use autofs.ParseSubs.Quotes.{check_colon, dequote, skipspace}
use autofs.ParseSubs.Words.{chunklen}
use autofs.ParseSun.Expand.{at_slash}
use autofs.ParseSun.Location.{validate_location}
use autofs.ParseSun.Entry.{
  Entry, measured, starts_with, is_location, parse_options, options_loop, add_options, asks_hosts,
  add_location, locations_loop, more_locations, first_location, parse_locations, parse_mapent,
}
use autofs.ParseSun.Entry.Ends.{skipspace-le}
use autofs.ParseSun.Entry.Locations.{Returns, and_then-Returns, or_fail-Returns, any_outcome}

-- No longer than a text.
abbrev pub LeavesAtMost {κ} : {A : Type κ} → ℕ → Bytes × A → Type 0
LeavesAtMost n r = length r.0 ≤ n

skipped_drop-le : (n : ℕ) (p : Bytes) → length (skipspace (drop n p)) ≤ length p
skipped_drop-le n p =
    let a = skipspace-le (drop n p) in let b = length-drop n p in omega (arith, a, b)

pub parse_options-le : (p : Bytes) → Returns (LeavesAtMost (length p)) (parse_options p none)
unfolding parse_options
parse_options-le [] = omega arith
parse_options-le (c ∷ s) =
    if_both (Returns (LeavesAtMost (length (c ∷ s)))) (not (c == b'-')) (λ e. omega arith)
      (λ e.
        and_then-Returns (λ n. Unit) (LeavesAtMost (length (c ∷ s))) (measured (chunklen s false)) _
          (any_outcome (measured (chunklen s false)))
          (λ n _. let d = length-drop n s in omega (arith, d)))

options_loop-le :
    (fuel bound : ℕ) (p : Bytes) (o : Option Bytes)
    → length p ≤ bound
    → Returns (LeavesAtMost bound) (options_loop fuel p o)
unfolding options_loop
options_loop-le zero bound p o h = tt
options_loop-le (suc fuel) bound p o h =
    and_then-Returns (LeavesAtMost (length p)) (LeavesAtMost bound) (parse_options p none) _
      (parse_options-le p)
      (λ r l.
        and_then-Returns (λ o'. Unit) (LeavesAtMost bound) (add_options o r.1) _
          (any_outcome (add_options o r.1))
          (λ o' _.
            let a = skipspace-le r.0 in
            elim (Bool-cases (starts_with b'-' (skipspace r.0))) [
              | inr f ↦ rw (f, Returns) (omega (arith, a, l, h))
              | inl f ↦
                  rw (f, Returns)
                    (options_loop-le fuel bound (skipspace r.0) o' (omega (arith, a, l, h)))
            ]))

abbrev RestAtMost : ℕ → Option (Bytes × Bytes) → Type 0
RestAtMost n none = Unit
RestAtMost n (some r) = length r.1 ≤ n

locations_loop-le :
    (fuel bound : ℕ) (p : Bytes) (o : Option Bytes) (loc : Bytes)
    → length p ≤ bound
    → Returns (RestAtMost bound) (locations_loop fuel p o loc)
unfolding locations_loop
locations_loop-le zero bound p o loc h = tt
locations_loop-le (suc fuel) bound p o loc h = elim (Bool-cases (is_location p)) [
  | inr f ↦ rw (f, Returns) h
  | inl f ↦
      rw (f, Returns)
        (and_then-Returns (λ n. Unit) (RestAtMost bound) (measured (chunklen p (check_colon p))) _
          (any_outcome (measured (chunklen p (check_colon p))))
          (λ n _.
            and_then-Returns (λ a. Unit) (RestAtMost bound)
              (add_location p o loc (dequote true p n)) _
              (any_outcome (add_location p o loc (dequote true p n)))
              (λ added _.
                or_fail-Returns (λ a. Unit) (RestAtMost bound) added _ tt tt
                  (λ loc' _.
                    let a = skipped_drop-le n p in
                    locations_loop-le fuel bound (skipspace (drop n p)) o loc'
                      (omega (arith, a, h))))))
]

-- The text behind an entry is not longer.
abbrev pub SrcAtMost : ℕ → Option Entry → Type 0
SrcAtMost n none = Unit
SrcAtMost n (some e) = length e.src ≤ n

more_locations-le :
    (bound : ℕ) (p : Bytes) (o : Option Bytes) (loc : Bytes)
    → length p ≤ bound
    → Returns (SrcAtMost bound) (more_locations p o loc)
unfolding more_locations
more_locations-le bound p o loc h =
    and_then-Returns (RestAtMost bound) (SrcAtMost bound) (locations_loop (suc (length p)) p o loc)
      _ (locations_loop-le (suc (length p)) bound p o loc h)
      (λ found l. or_fail-Returns (RestAtMost bound) (SrcAtMost bound) found _ l tt (λ r m. m))

first_location-le :
    (bound : ℕ) (p : Bytes) (l : ℕ) (o loc : Option Bytes)
    → length p ≤ bound
    → Returns (SrcAtMost bound) (first_location p l o loc)
unfolding first_location
first_location-le bound p l o none h =
    and_then-Returns (λ b. Unit) (SrcAtMost bound) (asks_hosts o) _ (any_outcome (asks_hosts o))
      (λ b _. if_both (SrcAtMost bound) b (λ e. tt) (λ e. h))
first_location-le bound p l o (some loc) h =
    elim (Bool-cases (at_slash p || not (validate_location loc))) [
      | inl f ↦ rw (f, Returns) tt
      | inr f ↦
          let a = skipped_drop-le l p in
          rw (f, Returns)
            (more_locations-le bound (skipspace (drop l p)) o loc (omega (arith, a, h)))
    ]

pub parse_mapent-le :
    (ent : Bytes) (g_options : Option Bytes)
    → Returns (SrcAtMost (length ent)) (parse_mapent ent g_options)
unfolding parse_mapent parse_locations
parse_mapent-le ent none = tt
parse_mapent-le ent (some g_options) =
    and_then-Returns (LeavesAtMost (length ent)) (SrcAtMost (length ent)) _ _
      (if_both (Returns (LeavesAtMost (length ent))) (starts_with b'-' ent)
        (λ e. options_loop-le (suc (length ent)) (length ent) ent (some g_options) (omega arith))
        (λ e. omega arith))
      (λ r l.
        and_then-Returns (λ n. Unit) (SrcAtMost (length ent))
          (measured (chunklen r.0 (check_colon r.0))) _
          (any_outcome (measured (chunklen r.0 (check_colon r.0))))
          (λ n _. first_location-le (length ent) r.0 n r.1 (dequote true r.0 n) l))
