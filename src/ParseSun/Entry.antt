-- ===== src/ParseSun/Entry.antt =====
-- modules/parse_sun.c: the options and the locations of an entry. The loops run on fuel.
pub mod Ends
pub mod Multi
pub mod Locations
pub mod Render
pub mod Behind
use autofs.Prelude.{
  ℕ, zero, suc, ◌+◌, Bool, true, false, not, ◌&&◌, ◌||◌, [], ◌∷◌, ◌++◌, Option, none, some, ◌==◌,
  if◌then◌else◌, length, drop,
}
use autofs.Text.{Bytes, codes, is_prefix}
use autofs.ParseSubs.Quotes.{check_colon, dequote, skipspace}
use autofs.ParseSubs.Words.{chunklen}
use autofs.ParseSun.Expand.{at_slash}
use autofs.ParseSun.Location.{validate_location}

-- What a function leaves: it runs out of fuel, it reads past the end of a text or at NULL, or it returns.
pub data Outcome {ℓ} (A : Type ℓ) : Type ℓ where
  no_fuel : Outcome A
  undefined : Outcome A
  done : A → Outcome A

abbrev pub and_then {ℓ κ} : {A : Type ℓ} → {B : Type κ} → Outcome A → (A → Outcome B) → Outcome B
and_then no_fuel f = no_fuel
and_then undefined f = undefined
and_then (done a) f = f a

-- A result that is not there fails: the function returns 0.
abbrev pub or_fail {ℓ κ} :
    {A : Type ℓ} → {B : Type κ} → Option A → (A → Outcome (Option B)) → Outcome (Option B)
or_fail none f = done none
or_fail (some a) f = f a

-- The length of a chunk.
abbrev pub measured : Option ℕ → Outcome ℕ
measured none = undefined
measured (some len) = done len

abbrev pub starts_with : ℕ → Bytes → Bool
starts_with c [] = false
starts_with c (d ∷ _) = d == c

-- `strstr(s, t)`
unfoldable pub contains : Bytes → Bytes → Bool
contains [] t = is_prefix t []
contains (c ∷ s) t = is_prefix t (c ∷ s) || contains s t

-- The options are dequoted; without a `-` in front there are none, and `ret` stays as it was.
unfoldable pub parse_options : Bytes → (ret : Option Bytes) → Outcome (Bytes × Option Bytes)
parse_options [] ret = done ([], ret)
parse_options (c ∷ cp) ret =
    if not (c == b'-')
    then done (c ∷ cp, ret)
    else and_then (measured (chunklen cp false)) (λ len. done (drop len cp, dequote true cp len))

-- `str == NULL || *str == '\0'`
abbrev pub is_empty : Option Bytes → Bool
is_empty (some (_ ∷ _)) = false
is_empty _ = true

abbrev pub join_options : Option Bytes → Option Bytes → Option Bytes
join_options (some left) (some right) = some (left ++ (b',' ∷ right))
join_options _ _ = none

unfoldable pub concat_options : (left right : Option Bytes) → Option Bytes
concat_options left right =
    if is_empty left
    then if is_empty right then none else right
    else if is_empty right
    then left
    else join_options left right

-- The options of a round of the loop of `parse_mapent`; `strstr` reads `myoptions`.
unfoldable pub add_options : (myoptions newopt : Option Bytes) → Outcome (Option Bytes)
add_options myoptions none = done myoptions
add_options none (some newopt) = undefined
add_options (some myoptions) (some newopt) = done (
    if contains newopt myoptions
    then some newopt
    else concat_options (some myoptions) (some newopt))

-- The loop over the options, from a `-` on.
unfoldable pub options_loop :
    ℕ → Bytes → (myoptions : Option Bytes) → Outcome (Bytes × Option Bytes)
options_loop zero p myoptions = no_fuel
options_loop (suc fuel) p myoptions = and_then (parse_options p none) (λ r.
    and_then (add_options myoptions r.1) (λ o. elim (starts_with b'-' (skipspace r.0)) [
      | true ↦ options_loop fuel (skipspace r.0) o
      | false ↦ done (skipspace r.0, o)
    ]))

-- The options ask for a hosts map; `strstr` reads them.
unfoldable pub asks_hosts : Option Bytes → Outcome Bool
asks_hosts none = undefined
asks_hosts (some o) = done (contains o (codes "fstype=autofs") && contains o (codes "hosts"))

-- What a successful `parse_mapent` hands over: the options, the location and the text behind them.
pub record Entry : Type 0 where
  pub options : Option Bytes
  pub location : Option Bytes
  pub src : Bytes

abbrev pub entry : Option Bytes → Option Bytes → Bytes → Entry
entry o location src = record { options = o; location = location; src = src }

-- The condition of the loop over the locations.
abbrev pub is_location : Bytes → Bool
is_location [] = false
is_location (c ∷ s) = c == b'"' && not (at_slash s) || not (c == b'"') && not (c == b'/')

-- A round of the loop: the chunk is put behind the locations that there are, and left out where
-- `dequote` answers NULL; `none` returns 0.
unfoldable pub add_location :
    Bytes → (myoptions : Option Bytes) → (loc : Bytes) → Option Bytes → Outcome (Option Bytes)
add_location p myoptions loc none =
    and_then (asks_hosts myoptions) (λ b. done (if b then none else some loc))
add_location p myoptions loc (some ent_chunk) = done (
    if at_slash p || not (validate_location ent_chunk)
    then none
    else some (loc ++ (b' ' ∷ ent_chunk)))

-- The loop over the locations.
unfoldable pub locations_loop :
    ℕ → Bytes → (myoptions : Option Bytes) → (loc : Bytes) → Outcome (Option (Bytes × Bytes))
locations_loop zero p myoptions loc = no_fuel
locations_loop (suc fuel) p myoptions loc = elim (is_location p) [
  | false ↦ done (some (loc, p))
  | true ↦ and_then (measured (chunklen p (check_colon p))) (λ l.
      and_then (add_location p myoptions loc (dequote true p l)) (λ added.
        or_fail added (λ loc'. locations_loop fuel (skipspace (drop l p)) myoptions loc')))
]

-- The locations behind the first one.
unfoldable pub more_locations :
    Bytes → (myoptions : Option Bytes) → (loc : Bytes) → Outcome (Option Entry)
more_locations p myoptions loc =
    and_then (locations_loop (suc (length p)) p myoptions loc)
      (λ found. or_fail found (λ r. done (some (entry myoptions (some r.0) r.1))))

-- From the first location on, the text of which is `loc`.
unfoldable pub first_location :
    Bytes → ℕ → (myoptions : Option Bytes) → (loc : Option Bytes) → Outcome (Option Entry)
first_location p l myoptions none =
    and_then (asks_hosts myoptions) (λ b. done (if b then none else some (entry myoptions none p)))
first_location p l myoptions (some loc) = elim (at_slash p || not (validate_location loc)) [
  | true ↦ done none
  | false ↦ more_locations (skipspace (drop l p)) myoptions loc
]

unfoldable pub parse_locations : Bytes → (myoptions : Option Bytes) → Outcome (Option Entry)
parse_locations p myoptions =
    and_then (measured (chunklen p (check_colon p)))
      (λ l. first_location p l myoptions (dequote true p l))

-- `strdup` reads `g_options`. A round of a loop takes a byte at least. `none` returns 0.
unfoldable pub parse_mapent : Bytes → (g_options : Option Bytes) → Outcome (Option Entry)
parse_mapent ent none = undefined
parse_mapent ent (some g_options) =
    and_then
      (if starts_with b'-' ent
        then options_loop (suc (length ent)) ent (some g_options)
        else done (ent, some g_options))
      (λ r. parse_locations r.0 r.1)

-- The inner loop of `check_is_multi`, which skips options.
unfoldable pub skip_options : ℕ → Bytes → Outcome Bytes
skip_options zero p = no_fuel
skip_options (suc fuel) p = elim (starts_with b'-' p) [
  | false ↦ done p
  | true ↦
      and_then (measured (chunklen p false)) (λ len. skip_options fuel (skipspace (drop len p)))
]

abbrev pub skip_byte : ℕ → Bytes → Bytes
skip_byte c [] = []
skip_byte c (d ∷ s) = if d == c then s else d ∷ s

-- Behind the first chunk a quote and a `-` are skipped.
abbrev pub skip_quote : (not_first_chunk : Bool) → Bytes → Bytes
skip_quote false p = p
skip_quote true p = skip_byte b'-' (skip_byte b'"' p)

-- The loop of `check_is_multi`.
unfoldable pub multi_loop : ℕ → (not_first_chunk : Bool) → Bytes → Outcome Bool
multi_loop fuel not_first_chunk [] = done false
multi_loop zero not_first_chunk (c ∷ s) = no_fuel
multi_loop (suc fuel) not_first_chunk (c ∷ s) =
    let p = skip_quote not_first_chunk (skipspace (c ∷ s)) in
    elim (not_first_chunk && at_slash p) [
      | true ↦ done true
      | false ↦ and_then (skip_options (suc (length p)) p) (λ q.
          and_then (measured (chunklen q (check_colon q)))
            (λ len. multi_loop fuel true (drop len q)))
    ]

unfoldable pub check_is_multi : (mapent : Bytes) → Outcome Bool
check_is_multi mapent =
    let p = skip_byte b'"' mapent in if at_slash p then done true else multi_loop (length p) false p
