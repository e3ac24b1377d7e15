-- ===== src/ParseSun/Entry/Ends.antt =====
-- modules/parse_sun.c: the loops over an entry end.
use autofs.Prelude.{
  ℕ, zero, suc, ◌≤◌, ◌<◌, Bool, true, false, not, ◌||◌, [], ◌∷◌, Option, none, some, ◌≡◌, refl,
  arith, ◌==◌, length, drop, length-drop, if_both, Bool-cases, inl, inr,
}
use autofs.Text.{Bytes}
use autofs.ParseSubs.Quotes.{check_colon, dequote, skipspace, is_space}
use autofs.ParseSubs.Words.{chunklen}
use autofs.ParseSubs.Words.Bounds.{StartsWord, chunklen-positive}
use autofs.ParseSun.Expand.{at_slash}
use autofs.ParseSun.Location.{validate_location}
use autofs.ParseSun.Entry.{
  Outcome, or_fail, no_fuel, undefined, done, and_then, measured, starts_with, is_location,
  parse_options, options_loop, add_options, asks_hosts, add_location, locations_loop,
  more_locations, first_location, parse_locations, parse_mapent,
}

-- The fuel does not run out.
abbrev pub Ends {ℓ} : {A : Type ℓ} → Outcome A → Type 0
Ends no_fuel = ⊥
Ends _ = Unit

pub and_then-Ends :
    {A : Type 0} {B : Type 0} (o : Outcome A) (f : A → Outcome B)
    → Ends o
    → ((a : A) → o ≡ done a → Ends (f a))
    → Ends (and_then o f)
and_then-Ends no_fuel f h k = h
and_then-Ends undefined f h k = tt
and_then-Ends (done a) f h k = k a refl

pub or_fail-Ends :
    {A B : Type 0} (o : Option A) (f : A → Outcome (Option B))
    → ((a : A) → o ≡ some a → Ends (f a))
    → Ends (or_fail o f)
or_fail-Ends none f h = tt
or_fail-Ends (some a) f h = h a refl

pub measured-Ends : (o : Option ℕ) → Ends (measured o)
measured-Ends none = tt
measured-Ends (some n) = tt

pub measured_done : (o : Option ℕ) (n : ℕ) → measured o ≡ done n → o ≡ some n
measured_done none n e = ground arith
measured_done (some m) n e = ground arith

pub skipspace-le : (p : Bytes) → length (skipspace p) ≤ length p
unfolding skipspace
skipspace-le [] = omega arith
skipspace-le (c ∷ s) = ground (arith, skipspace-le s)

pub skipspace-StartsWord : (p : Bytes) → StartsWord (skipspace p)
unfolding skipspace
skipspace-StartsWord [] = tt
skipspace-StartsWord (c ∷ s) =
    if_both StartsWord (c == 8 || is_space c) (λ e. skipspace-StartsWord s)
      (λ e. if_both StartsWord (c == b'#') (λ e'. tt) (λ e'. ground arith))

abbrev pub Shorter {κ} : {A : Type κ} → Bytes → Outcome (Bytes × A) → Type 0
Shorter p no_fuel = ⊥
Shorter p undefined = Unit
Shorter p (done r) = length r.0 < length p

measured-Shorter :
    (c : ℕ) (s : Bytes) (o : Option ℕ)
    → Shorter (c ∷ s) (and_then (measured o) (λ len. done (drop len s, dequote true s len)))
measured-Shorter c s none = tt
measured-Shorter c s (some n) = omega (arith, length-drop n s)

pub parse_options-Shorter :
    (p : Bytes) → starts_with b'-' p ≡ true → Shorter p (parse_options p none)
unfolding parse_options
parse_options-Shorter [] h = absurd (ground arith)
parse_options-Shorter (c ∷ s) h =
    if_both (Shorter (c ∷ s)) (not (c == b'-')) (λ e. absurd (ground arith))
      (λ e. measured-Shorter c s (chunklen s false))

pub Shorter-Ends : {A : Type 0} (p : Bytes) (o : Outcome (Bytes × A)) → Shorter p o → Ends o
Shorter-Ends p no_fuel h = h
Shorter-Ends p undefined h = tt
Shorter-Ends p (done r) h = tt

pub text_decreases :
    {A : Type 0} (p : Bytes) (o : Outcome (Bytes × A)) (r : Bytes × A)
    → Shorter p o
    → o ≡ done r
    → length r.0 < length p
text_decreases p o r h e = rw e at h

add_options-Ends : (o n : Option Bytes) → Ends (add_options o n)
unfolding add_options
add_options-Ends o none = tt
add_options-Ends none (some n) = tt
add_options-Ends (some o) (some n) = tt

pub options_loop-Ends :
    (fuel : ℕ) (p : Bytes) (o : Option Bytes)
    → starts_with b'-' p ≡ true
    → length p ≤ fuel
    → Ends (options_loop fuel p o)
unfolding options_loop
options_loop-Ends zero [] o h k = absurd (ground arith)
options_loop-Ends zero (c ∷ s) o h k = absurd (ground arith)
options_loop-Ends (suc fuel) p o h k =
    let shorter = parse_options-Shorter p h in
    and_then-Ends (parse_options p none) _ (Shorter-Ends p (parse_options p none) shorter) (λ r e.
      and_then-Ends (add_options o r.1) _ (add_options-Ends o r.1) (λ o' _.
        elim (Bool-cases (starts_with b'-' (skipspace r.0))) [
          | inr f ↦ rw (f, Ends) tt
          | inl f ↦
              let l = text_decreases p (parse_options p none) r shorter e in
              let m = skipspace-le r.0 in
              rw (f, Ends) (options_loop-Ends fuel (skipspace r.0) o' f (omega (arith, l, m, k)))
        ]))

pub asks_hosts-Ends : (o : Option Bytes) → Ends (asks_hosts o)
unfolding asks_hosts
asks_hosts-Ends none = tt
asks_hosts-Ends (some o) = tt

add_location-Ends :
    (p : Bytes) (o : Option Bytes) (loc : Bytes) (c : Option Bytes) → Ends (add_location p o loc c)
unfolding add_location
add_location-Ends p o loc none = and_then-Ends (asks_hosts o) _ (asks_hosts-Ends o) (λ b e. tt)
add_location-Ends p o loc (some c) = tt

-- Behind a word and the white space there is less of the text.
pub word_shorter :
    (p : Bytes) (e : Bool) (n : ℕ)
    → StartsWord p
    → 0 < length p
    → chunklen p e ≡ some n
    → length (drop n p) < length p
word_shorter [] e n h l k = absurd (omega (arith, l))
word_shorter (c ∷ s) e n h l k =
    let m = chunklen-positive c s e n h k in let d = length-drop n (c ∷ s) in omega (arith, m, d)

is_location-nonempty : (p : Bytes) → is_location p ≡ true → 0 < length p
is_location-nonempty [] h = absurd (ground arith)
is_location-nonempty (c ∷ s) h = omega arith

locations_loop-Ends :
    (fuel : ℕ) (p : Bytes) (o : Option Bytes) (loc : Bytes)
    → StartsWord p
    → length p < fuel
    → Ends (locations_loop fuel p o loc)
unfolding locations_loop
locations_loop-Ends zero p o loc h k = absurd (omega (arith, k))
locations_loop-Ends (suc fuel) p o loc h k = elim (Bool-cases (is_location p)) [
  | inr f ↦ rw (f, Ends) tt
  | inl f ↦
      rw (f, Ends)
        (and_then-Ends (measured (chunklen p (check_colon p))) _
          (measured-Ends (chunklen p (check_colon p)))
          (λ n e.
            and_then-Ends (add_location p o loc (dequote true p n)) _
              (add_location-Ends p o loc (dequote true p n))
              (λ added _. or_fail-Ends added _ (λ loc' _.
                let known = measured_done (chunklen p (check_colon p)) n e in
                let l = word_shorter p (check_colon p) n h (is_location-nonempty p f) known in
                let m = skipspace-le (drop n p) in
                locations_loop-Ends fuel (skipspace (drop n p)) o loc'
                  (skipspace-StartsWord (drop n p)) (omega (arith, l, m, k))))))
]

more_locations-Ends :
    (p : Bytes) (o : Option Bytes) (loc : Bytes) → StartsWord p → Ends (more_locations p o loc)
unfolding more_locations
more_locations-Ends p o loc h =
    and_then-Ends (locations_loop (suc (length p)) p o loc) _
      (locations_loop-Ends (suc (length p)) p o loc h (omega arith))
      (λ found e. or_fail-Ends found _ (λ r f. tt))

first_location-Ends : (p : Bytes) (l : ℕ) (o loc : Option Bytes) → Ends (first_location p l o loc)
unfolding first_location
first_location-Ends p l o none = and_then-Ends (asks_hosts o) _ (asks_hosts-Ends o) (λ b e. tt)
first_location-Ends p l o (some loc) =
    elim (Bool-cases (at_slash p || not (validate_location loc))) [
      | inl e ↦ rw (e, Ends) tt
      | inr e ↦
          rw (e, Ends)
            (more_locations-Ends (skipspace (drop l p)) o loc (skipspace-StartsWord (drop l p)))
    ]

parse_locations-Ends : (p : Bytes) (o : Option Bytes) → Ends (parse_locations p o)
unfolding parse_locations
parse_locations-Ends p o =
    and_then-Ends (measured (chunklen p (check_colon p))) _
      (measured-Ends (chunklen p (check_colon p)))
      (λ l e. first_location-Ends p l o (dequote true p l))

-- The loops of `parse_mapent` end within their fuel, whatever text and options it is given.
pub parse_mapent-Ends : (ent : Bytes) (g_options : Option Bytes) → Ends (parse_mapent ent g_options)
unfolding parse_mapent
parse_mapent-Ends ent none = tt
parse_mapent-Ends ent (some g_options) =
    and_then-Ends _ _
      (if_both Ends (starts_with b'-' ent)
        (λ e. options_loop-Ends (suc (length ent)) ent (some g_options) e (omega arith)) (λ e. tt))
      (λ r e. parse_locations-Ends r.0 r.1)
