-- ===== src/ParseSun/Location.antt =====
-- modules/parse_sun.c: which locations are accepted.
pub mod Hosts
use autofs.Prelude.{
  ℕ, Bool, true, false, not, ◌&&◌, ◌||◌, [], ◌∷◌, Option, none, some, ◌==◌, if◌then◌else◌, is_some,
}
use autofs.Text.{Bytes, codes, is_prefix}
use autofs.ParseSubs.Quotes.{check_colon}
use autofs.ParseSun.Expand.{is_alnum}

-- `strchr(ptr, c)`: the text from the byte on.
unfoldable pub strchr : Bytes → ℕ → Option Bytes
strchr [] c = none
strchr (d ∷ s) c = if d == c then some (d ∷ s) else strchr s c

-- `(esc = strchr(ptr, '\\')) && *(esc + 1) == ':'`
abbrev pub escapes_colon : Option Bytes → Bool
escapes_colon (some (_ ∷ c ∷ _)) = c == b':'
escapes_colon _ = false

-- A location without `:/` that is accepted.
unfoldable pub is_other : Bytes → Bool
unfolding strchr
is_other ptr =
    not (is_some (strchr ptr b':'))
    || escapes_colon (strchr ptr b'\\')
    || is_prefix (codes "file:") ptr
    || is_prefix (codes "yp:") ptr
    || is_prefix (codes "nis:") ptr
    || is_prefix (codes "nisplus:") ptr
    || is_prefix (codes "ldap:") ptr
    || is_prefix (codes "ldaps:") ptr
    || is_prefix (codes "sss:") ptr
    || is_prefix (codes "dir:") ptr

abbrev pub is_host_char : ℕ → Bool
is_host_char c =
    is_alnum c
    || c == b'-'
    || c == b'.'
    || c == b'_'
    || c == b','
    || c == b'('
    || c == b')'
    || c == b'#'
    || c == b'@'
    || c == b':'
    || c == b'['
    || c == b']'
    || c == b'%'

-- `next == ',' || next == ':'`
abbrev pub no_host_name : Bytes → Bool
no_host_name [] = false
no_host_name (next ∷ _) = next == b',' || next == b':'

-- The loop up to `:/`, and the text behind its colon; `none` returns 0.
unfoldable pub host_part : Bytes → Option Bytes
host_part [] = some []
host_part (c ∷ s) =
    if is_prefix (codes ":/") (c ∷ s)
    then some s
    else if not (is_host_char c)
    then none
    else if c == b',' && no_host_name s
    then none
    else host_part s

-- Something follows.
abbrev pub is_followed : Option Bytes → Bool
is_followed (some (_ ∷ _)) = true
is_followed _ = false

unfoldable pub validate_location : Bytes → Bool
validate_location [] = is_other []
validate_location (c ∷ s) =
    if c == b':'
    then true
    else if c == b','
    then false
    else if not (check_colon (c ∷ s))
    then is_other (c ∷ s)
    else is_followed (host_part (c ∷ s))
