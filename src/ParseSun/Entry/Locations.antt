-- ===== src/ParseSun/Entry/Locations.antt =====
-- modules/parse_sun.c: the locations that parse_mapent hands over.
use autofs.Prelude.{
  ℕ, zero, suc, true, false, not, ◌||◌, ◌∷◌, ◌++◌, Option, none, some, ◌≡◌, arith, if◌then◌else◌,
  length, drop, if_both, Bool-cases, inl, inr,
}
use autofs.Text.{Bytes}
use autofs.ParseSubs.Quotes.{check_colon, dequote, skipspace}
use autofs.ParseSubs.Words.{chunklen}
use autofs.ParseSun.Expand.{at_slash}
use autofs.ParseSun.Location.{validate_location}
use autofs.ParseSun.Entry.{
  Outcome, Entry, or_fail, no_fuel, undefined, done, and_then, measured, starts_with, is_location,
  options_loop, asks_hosts, add_location, locations_loop, more_locations, first_location,
  parse_locations, parse_mapent,
}

-- Texts that are accepted as locations, with a blank between them.
pub data Locations : Bytes → Type 0 where
  one : (loc : Bytes) → validate_location loc ≡ true → Locations loc
  more :
      (locs loc : Bytes)
      → Locations locs
      → validate_location loc ≡ true
      → Locations (locs ++ (b' ' ∷ loc))

-- What returns satisfies `P`.
abbrev pub Returns {ℓ} : {A : Type ℓ} → (A → Type 0) → Outcome A → Type 0
Returns P no_fuel = Unit
Returns P undefined = Unit
Returns P (done a) = P a

pub and_then-Returns :
    {A B : Type 0} (P : A → Type 0) (Q : B → Type 0) (o : Outcome A) (f : A → Outcome B)
    → Returns P o
    → ((a : A) → P a → Returns Q (f a))
    → Returns Q (and_then o f)
and_then-Returns P Q no_fuel f h k = tt
and_then-Returns P Q undefined f h k = tt
and_then-Returns P Q (done a) f h k = k a h

pub or_fail-Returns :
    {A B : Type 0} (P : Option A → Type 0) (Q : Option B → Type 0) (o : Option A)
    (f : A → Outcome (Option B))
    → P o
    → Q none
    → ((a : A) → P (some a) → Returns Q (f a))
    → Returns Q (or_fail o f)
or_fail-Returns P Q none f h k l = k
or_fail-Returns P Q (some a) f h k l = l a h

pub any_outcome : {A : Type 0} (o : Outcome A) → Returns (λ a. Unit) o
any_outcome no_fuel = tt
any_outcome undefined = tt
any_outcome (done a) = tt

-- The locations that there are, if there are any.
abbrev AreLocations : Option Bytes → Type 0
AreLocations none = Unit
AreLocations (some loc) = Locations loc

add_location-AreLocations :
    (p : Bytes) (o : Option Bytes) (loc : Bytes) (c : Option Bytes)
    → Locations loc
    → Returns AreLocations (add_location p o loc c)
unfolding add_location
add_location-AreLocations p o loc none h =
    and_then-Returns (λ b. Unit) AreLocations (asks_hosts o) _ (any_outcome (asks_hosts o))
      (λ b _. if_both AreLocations b (λ e. tt) (λ e. h))
add_location-AreLocations p o loc (some c) h =
    if_both AreLocations (at_slash p || not (validate_location c)) (λ e. tt)
      (λ e. more loc c h (ground arith))

-- At the end of the loop, and where the text behind starts no location.
abbrev Found : Option (Bytes × Bytes) → Type 0
Found none = Unit
Found (some r) = Locations r.0 × (is_location r.1 ≡ false)

locations_loop-Found :
    (fuel : ℕ) (p : Bytes) (o : Option Bytes) (loc : Bytes)
    → Locations loc
    → Returns Found (locations_loop fuel p o loc)
unfolding locations_loop
locations_loop-Found zero p o loc h = tt
locations_loop-Found (suc fuel) p o loc h = elim (Bool-cases (is_location p)) [
  | inr f ↦ rw (f, Returns) (h, f)
  | inl f ↦
      rw (f, Returns)
        (and_then-Returns (λ n. Unit) Found (measured (chunklen p (check_colon p))) _
          (any_outcome (measured (chunklen p (check_colon p))))
          (λ n _.
            and_then-Returns AreLocations Found (add_location p o loc (dequote true p n)) _
              (add_location-AreLocations p o loc (dequote true p n) h)
              (λ added l.
                or_fail-Returns AreLocations Found added _ l tt
                  (λ loc' m. locations_loop-Found fuel (skipspace (drop n p)) o loc' m))))
]

-- The entry has no location, or locations that are accepted, and the text behind it starts none.
abbrev pub IsAccepted : Option Entry → Type 0
IsAccepted none = Unit
IsAccepted (some e) = elim e.location [
  | none ↦ Unit
  | some loc ↦ Locations loc × (is_location e.src ≡ false)
]

more_locations-IsAccepted :
    (p : Bytes) (o : Option Bytes) (loc : Bytes)
    → Locations loc
    → Returns IsAccepted (more_locations p o loc)
unfolding more_locations
more_locations-IsAccepted p o loc h =
    and_then-Returns Found IsAccepted (locations_loop (suc (length p)) p o loc) _
      (locations_loop-Found (suc (length p)) p o loc h)
      (λ found l. or_fail-Returns Found IsAccepted found _ l tt (λ r m. m))

first_location-IsAccepted :
    (p : Bytes) (l : ℕ) (o loc : Option Bytes) → Returns IsAccepted (first_location p l o loc)
unfolding first_location
first_location-IsAccepted p l o none =
    and_then-Returns (λ b. Unit) IsAccepted (asks_hosts o) _ (any_outcome (asks_hosts o))
      (λ b _. if_both IsAccepted b (λ e. tt) (λ e. tt))
first_location-IsAccepted p l o (some loc) =
    elim (Bool-cases (at_slash p || not (validate_location loc))) [
      | inl f ↦ rw (f, Returns) tt
      | inr f ↦
          rw (f, Returns)
            (more_locations-IsAccepted (skipspace (drop l p)) o loc (one loc (ground arith)))
    ]

-- What `parse_mapent` hands over, for every text and options: no location, or locations each of
-- which `validate_location` accepts, with a blank between them, and then the text behind them starts no
-- location.
pub parse_mapent-IsAccepted :
    (ent : Bytes) (g_options : Option Bytes) → Returns IsAccepted (parse_mapent ent g_options)
unfolding parse_mapent parse_locations
parse_mapent-IsAccepted ent none = tt
parse_mapent-IsAccepted ent (some g_options) =
    and_then-Returns (λ r. Unit) IsAccepted _ _
      (any_outcome (
        if starts_with b'-' ent
        then options_loop (suc (length ent)) ent (some g_options)
        else done (ent, some g_options)))
      (λ r _.
        and_then-Returns (λ n. Unit) IsAccepted (measured (chunklen r.0 (check_colon r.0))) _
          (any_outcome (measured (chunklen r.0 (check_colon r.0))))
          (λ n _. first_location-IsAccepted r.0 n r.1 (dequote true r.0 n)))
