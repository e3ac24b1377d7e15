-- ===== src/ParseSun/Location/Hosts.antt =====
-- modules/parse_sun.c: the host names of a location.
use autofs.Prelude.{
  ℕ, Bool, true, false, not, ◌&&◌, ◌||◌, List, [], ◌∷◌, ◌++◌, none, some, ◌≡◌, ◌↔◌, refl, arith,
  ◌==◌, if◌then◌else◌, All, Bool-cases, inl, inr,
}
use autofs.Text.{Bytes, codes, is_prefix}
use autofs.ParseSubs.Quotes.{check_colon}
use autofs.ParseSun.Location.{is_host_char, no_host_name, host_part, validate_location}

-- The names between the commas.
abbrev add_to_first : ℕ → List Bytes → List Bytes
add_to_first c [] = (c ∷ []) ∷ []
add_to_first c (name ∷ names) = (c ∷ name) ∷ names

abbrev pub split_names : Bytes → List Bytes
split_names [] = [] ∷ []
split_names (c ∷ s) =
    let rest = split_names s in if c == b',' then [] ∷ rest else add_to_first c rest

abbrev pub HasHostChars : Bytes → Type 0
HasHostChars = All (λ c. is_host_char c ≡ true)

-- A name is not empty, starts with no colon and has only bytes that are allowed.
abbrev pub IsHostName : Bytes → Type 0
IsHostName [] = ⊥
IsHostName (c ∷ s) = ((c == b':') ≡ false) × HasHostChars (c ∷ s)

abbrev RestIsHostNames : List Bytes → Type 0
RestIsHostNames [] = Unit
RestIsHostNames (name ∷ names) = HasHostChars name × All IsHostName names

-- The same, byte for byte: behind a comma a name starts.
abbrev starts_name : Bytes → Bool
starts_name [] = false
starts_name (c ∷ _) = not (c == b',' || c == b':')

abbrev has_names : Bytes → Bool
has_names [] = true
has_names (c ∷ s) = is_host_char c && (not (c == b',') || starts_name s) && has_names s

-- No slash.
abbrev pub HasNoSlash : Bytes → Type 0
HasNoSlash = All (λ c. (c == b'/') ≡ false)

add_to_first-IsHostName :
    (c : ℕ) (names : List Bytes)
    → All IsHostName (add_to_first c names)
      ↔ (((c == b':') ≡ false) × RestIsHostNames (add_to_first c names))
add_to_first-IsHostName c [] = ((λ h. (h.0.0, (h.0.1, tt))), λ h. ((h.0, h.1.0), tt))
add_to_first-IsHostName c (name ∷ names) =
    ((λ h. (h.0.0, (h.0.1, h.1))), λ h. ((h.0, h.1.0), h.1.1))

add_to_first-RestIsHostNames :
    (c : ℕ) (names : List Bytes)
    → RestIsHostNames (add_to_first c names) ↔ ((is_host_char c ≡ true) × RestIsHostNames names)
add_to_first-RestIsHostNames c [] = ((λ h. (h.0.0, tt)), λ h. ((h.0, tt), tt))
add_to_first-RestIsHostNames c (name ∷ names) =
    ((λ h. (h.0.0, (h.0.1, h.1))), λ h. ((h.0, h.1.0), h.1.1))

split_names-starts :
    (s : Bytes)
    → All IsHostName (split_names s) ↔ ((starts_name s ≡ true) × RestIsHostNames (split_names s))
split_names-starts [] = ((λ h. absurd h.0), λ h. absurd (ground arith))
split_names-starts (c ∷ s) = elim (Bool-cases (c == b',')) [
  | inl e ↦ rw e ((λ h. absurd h.0), λ h. let g = h.0 in absurd (ground arith))
  | inr e ↦
      let first = add_to_first-IsHostName c (split_names s) in
      rw e (
        (λ h. (let g = (first.0 h).0 in ground arith, (first.0 h).1)),
        λ h. first.1 (let g = h.0 in ground arith, h.1),
      )
]

has_names_iff : (s : Bytes) → (has_names s ≡ true) ↔ RestIsHostNames (split_names s)
has_names_iff [] = ((λ e. (tt, tt)), λ e. refl)
has_names_iff (c ∷ s) =
    let rest = has_names_iff s in
    elim (Bool-cases (c == b',')) [
      | inl e ↦
          let starts = split_names-starts s in
          rw e (
            (λ h. (tt, starts.1 (ground arith, rest.0 (ground arith)))),
            λ h. let k = starts.0 h.1 in let l = k.0 in let m = rest.1 k.1 in ground arith,
          )
      | inr e ↦
          let first = add_to_first-RestIsHostNames c (split_names s) in
          rw e (
            (λ h. first.1 (ground arith, rest.0 (ground arith))),
            λ h. let k = first.0 h in let l = k.0 in let m = rest.1 k.1 in ground arith,
          )
    ]

no_slash-is_prefix :
    (c : ℕ) (s path : Bytes)
    → HasNoSlash s
    → is_prefix (codes ":/") (c ∷ s ++ (b':' ∷ b'/' ∷ path)) ≡ false
unfolding is_prefix
no_slash-is_prefix c [] path h = ground arith
no_slash-is_prefix c (d ∷ s) path (h, k) = ground arith

no_host_name-starts : (s path : Bytes) → no_host_name (s ++ (b':' ∷ path)) ≡ not (starts_name s)
no_host_name-starts [] path = refl
no_host_name-starts (c ∷ s) path = ground arith

host_part-names :
    (host path : Bytes)
    → HasNoSlash host
    → host_part (host ++ (b':' ∷ b'/' ∷ path))
      ≡ (if has_names host then some (b'/' ∷ path) else none)
unfolding host_part is_prefix
host_part-names [] path h = refl
host_part-names (c ∷ s) path (h, k) =
    rw
      (no_slash-is_prefix c s path k, no_host_name-starts s (b'/' ∷ path), host_part-names s path k)
      (ground arith)

check_colon-location : (host path : Bytes) → check_colon (host ++ (b':' ∷ b'/' ∷ path)) ≡ true
unfolding check_colon is_prefix
check_colon-location [] path = refl
check_colon-location (c ∷ s) path = ground (arith, check_colon-location s path)

-- A location with hosts in front of the first `:/`, which has no slash and no
-- colon at its start, is accepted exactly if its names are.
pub validate_location_iff :
    (c : ℕ) (host path : Bytes)
    → (c == b':') ≡ false
    → HasNoSlash (c ∷ host)
    → (validate_location (c ∷ host ++ (b':' ∷ b'/' ∷ path)) ≡ true)
      ↔ All IsHostName (split_names (c ∷ host))
unfolding validate_location
validate_location_iff c host path h k =
    let names = split_names-starts (c ∷ host) in
    let good = has_names_iff (c ∷ host) in
    rw (check_colon-location (c ∷ host) path, host_part-names (c ∷ host) path k)
      (
        (λ e. names.1 (ground arith, good.0 (ground arith))),
        λ l. let m = names.0 l in let n = m.0 in let o = good.1 m.1 in ground arith,
      )
