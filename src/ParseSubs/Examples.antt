-- ===== src/ParseSubs/Examples.antt =====
-- lib/parse_subs.c: the theorems at a path that ends in a slash and at a quoted text.
use autofs.Prelude.{true, false, [], ◌∷◌, none, some, ◌≡◌, refl}
use autofs.Text.{Bytes, codes, is_prefix}
use autofs.ParseSubs.Quotes.{
  strip_space, copy_unquoted, dequote, skipspace, check_colon, is_abbreviation,
  starts_with_null_opt,
}
use autofs.ParseSubs.Words.{chunk_loop, chunklen}
use autofs.ParseSubs.Words.Bounds.{EndsIn, chunklen-EndsIn}

-- /a/
abbrev path : Bytes
path = b'/' ∷ b'a' ∷ b'/' ∷ []

-- An escaped blank alone is stripped, and one blank behind a closing quote is kept.
dequote_blank : dequote true (codes "\\ ") 2 ≡ some []
unfolding dequote strip_space copy_unquoted
dequote_blank = refl

dequote_quoted : dequote true (codes "\"a b\"  ") 7 ≡ some (codes "a b ")
unfolding dequote strip_space copy_unquoted
dequote_quoted = refl

skipspace_comment : skipspace (codes "  # all") ≡ []
unfolding skipspace
skipspace_comment = refl

check_colon_host : check_colon (codes "host:/a") ≡ true
unfolding check_colon is_prefix
check_colon_host = refl

is_abbreviation_browse : is_abbreviation (codes "brow") (codes "browse") 3 0 ≡ true
unfolding is_abbreviation
is_abbreviation_browse = refl

null_opt_other : starts_with_null_opt (codes "-nullx") ≡ false
unfolding starts_with_null_opt is_prefix
null_opt_other = refl

chunklen-EndsIn_example : EndsIn (codes "h:/a\\ b c") (chunklen (codes "h:/a\\ b c") true)
chunklen-EndsIn_example = chunklen-EndsIn (codes "h:/a\\ b c") true

-- A quote that is not closed is read past the end; an escaped colon leaves the blank behind it in
-- the chunk, which another escaped byte does not.
chunklen_open_quote : chunklen (codes "\"a b") false ≡ none
unfolding chunklen chunk_loop
chunklen_open_quote = refl

chunklen_escaped_colon : chunklen (codes "a\\: b") false ≡ some 5
unfolding chunklen chunk_loop
chunklen_escaped_colon = refl

chunklen_escaped_byte : chunklen (codes "a\\; b") false ≡ some 3
unfolding chunklen chunk_loop
chunklen_escaped_byte = refl
