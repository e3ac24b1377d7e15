-- ===== src/ParseSubs/Quotes.antt =====
-- lib/parse_subs.c: the functions on quoted texts and on the words of map entries.
pub mod Escaped
use mathlib.Core.List.{reverse}
use autofs.Prelude.{
  ℕ, ◌+◌, Bool, true, false, not, ◌&&◌, ◌||◌, [], ◌∷◌, Option, none, some, ◌==◌, if◌then◌else◌, ltb,
  leb, take, drop,
}
use autofs.Text.{Bytes, codes, is_prefix}

-- `isspace`
abbrev pub is_space : ℕ → Bool
is_space c = c == b' ' || leb 9 c && leb c 13

-- `j > 0 && (str[j] == '\\' || str[j] == '"')`, for the bytes up to `str[j]`, the last one first.
abbrev pub keeps_space : Bytes → Bool
keeps_space [] = false
keeps_space (_ ∷ []) = false
keeps_space (d ∷ _ ∷ _) = d == b'\\' || d == b'"'

-- The loop that strips white space, on the bytes from the last one on. In front of the text it stops;
-- the code's loop has no lower bound and reads on there, which is left out.
unfoldable pub strip_space : Bytes → Bytes
strip_space [] = []
strip_space (c ∷ s) = if not (is_space c) || keeps_space s then c ∷ s else strip_space s

-- The loop over the text: what it copies, and `dquote` at the end.
unfoldable pub copy_unquoted : (quote dquote : Bool) → Bytes → Bytes × Bool
copy_unquoted quote dquote [] = ([], dquote)
copy_unquoted true dquote (c ∷ s) = let rest = copy_unquoted false dquote s in (c ∷ rest.0, rest.1)
copy_unquoted false dquote (c ∷ s) =
    let kept = copy_unquoted false dquote s in
    let turned = copy_unquoted false (not dquote) s in
    let quoted = copy_unquoted true dquote s in
    if c == b'"' then turned else if not dquote && c == b'\\' then quoted else (c ∷ kept.0, kept.1)

unfoldable pub dequote : (alloc : Bool) → Bytes → (origlen : ℕ) → Option Bytes
unfolding strip_space copy_unquoted
dequote alloc str origlen =
    let r = copy_unquoted false false (reverse (strip_space (reverse (take origlen str)))) in
    if not alloc || r.1 then none else some r.0

-- `skipspace`: the text from the first byte on that is no white space; a comment is skipped.
unfoldable pub skipspace : Bytes → Bytes
skipspace [] = []
skipspace (c ∷ s) = if c == 8 || is_space c then skipspace s else if c == b'#' then [] else c ∷ s

-- `check_colon`: does `:/` stand in the text?
unfoldable pub check_colon : Bytes → Bool
check_colon [] = false
check_colon (c ∷ s) = is_prefix (codes ":/") (c ∷ s) || check_colon s

-- `strmcmp` answers 0.
unfoldable pub is_abbreviation : (str pat : Bytes) → (mchr nchr : ℕ) → Bool
is_abbreviation [] [] mchr nchr = true
is_abbreviation [] (_ ∷ _) mchr nchr = ltb mchr nchr
is_abbreviation (_ ∷ _) [] mchr nchr = false
is_abbreviation (c ∷ str) (d ∷ pat) mchr nchr = c == d && is_abbreviation str pat mchr (nchr + 1)

unfoldable pub starts_with_null_opt : Bytes → Bool
starts_with_null_opt str = is_prefix (codes "-null") str && ends_option (drop 5 str)
  where
    ends_option : Bytes → Bool
    ends_option [] = true
    ends_option (sep ∷ _) = sep == b' ' || sep == b','
