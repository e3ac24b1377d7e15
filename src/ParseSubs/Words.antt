-- ===== src/ParseSubs/Words.antt =====
-- lib/parse_subs.c: the words of a map entry. A position in a text is the text from there on.
pub mod Bounds
pub mod Plain
use autofs.Prelude.{
  ℕ, ◌+◌, Bool, not, ◌&&◌, ◌||◌, [], ◌∷◌, Option, none, some, ◌==◌, if◌then◌else◌, leb,
}
use autofs.Text.{Bytes, codes, is_prefix}

-- Where the loop of `chunklen` is: outside of quotes with `quote` 0 or 1, or in the inner loop.
pub data Chunk : Type 0 where
  plain escaped within : Chunk

-- `expect_colon` behind a byte, for the text from that byte on.
unfoldable pub colon_expected : Bool → Bytes → Bool
colon_expected expect_colon str = expect_colon && not (is_prefix (codes ":/") str)

-- The white space that always ends a chunk.
abbrev pub ends_chunk : ℕ → Bool
ends_chunk c = c == 8 || leb 10 c && leb c 13

abbrev pub isblank : ℕ → Bool
isblank c = c == b' ' || c == 9

-- A round of the loop, by the byte and the text from it on; `none` returns. An escaped colon, and an
-- escaped blank where a colon is expected, leave `quote` at 1.
unfoldable pub chunk_step : Chunk → (expect_colon : Bool) → ℕ → Bytes → Option (Chunk × Bool)
unfolding colon_expected
chunk_step within expect_colon c str =
    if c == b'"' then some (plain, expect_colon) else some (within, colon_expected expect_colon str)
chunk_step escaped expect_colon c str =
    if c == b':'
    then some (escaped, colon_expected expect_colon str)
    else if isblank c && expect_colon
    then some (escaped, expect_colon)
    else some (plain, expect_colon)
chunk_step plain expect_colon c str =
    if c == b'\\'
    then some (escaped, expect_colon)
    else if c == b'"'
    then some (within, expect_colon)
    else if c == b':'
    then some (plain, colon_expected expect_colon str)
    else if isblank c
    then if expect_colon then some (plain, expect_colon) else none
    else if ends_chunk c
    then none
    else some (plain, expect_colon)

abbrev pub add_one : Option ℕ → Option ℕ
add_one none = none
add_one (some n) = some (n + 1)

-- At the end of the text. Behind a quote that is not closed the outer loop moves past the final 0.
abbrev pub at_end : Chunk → Option ℕ
at_end within = none
at_end _ = some 0

-- The loop, and where it returns; `none` where it reads past the end of the text.
unfoldable pub chunk_loop : Chunk → (expect_colon : Bool) → Bytes → Option ℕ
unfolding chunk_step
chunk_loop m expect_colon [] = at_end m
chunk_loop m expect_colon (c ∷ s) = elim (chunk_step m expect_colon c (c ∷ s)) [
  | none ↦ some 0
  | some (m', e) ↦ add_one (chunk_loop m' e s)
]

unfoldable pub chunklen : Bytes → (expect_colon : Bool) → Option ℕ
unfolding chunk_loop
chunklen whence expect_colon = chunk_loop plain expect_colon whence
