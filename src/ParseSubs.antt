-- ===== src/ParseSubs.antt =====
-- lib/parse_subs.c: `sanitize_path`. Strings are the bytes before the final 0.
pub mod Sanitize
pub mod Quotes
pub mod Words
mod Examples
use mathlib.Core.Option
use autofs.Prelude.{
  ℕ, zero, suc, Bool, true, false, not, ◌&&◌, ◌||◌, [], ◌∷◌, Option, none, some, ◌==◌,
  if◌then◌else◌, ltb, leb, length,
}
use autofs.Text.{Bytes}

-- `type`: the flag LKP_INDIRECT or LKP_DIRECT alone, one of them with others, or neither.
pub data LookupType : Type 0 where
  lkp_indirect lkp_direct lkp_mixed lkp_other : LookupType

-- `*scp < 32`, where a char may be signed.
unfoldable pub is_control : (signed : Bool) → ℕ → Bool
is_control signed c = ltb c 32 || (signed && leb 128 c)

-- What a round of the loop does with a byte: give up, pass over it, or copy it; then `seen_slash`,
-- `quote` and `dquote`.
pub data Scan : Type 0 where
  reject : Scan
  pass copy : (seen_slash quote dquote : Bool) → Scan

unfoldable pub scan : (signed : Bool) → ℕ → (seen_slash quote dquote : Bool) → Scan
unfolding is_control
scan signed c seen_slash quote dquote =
    if quote
    then copy seen_slash false dquote
    else if c == b'"'
    then pass seen_slash false (not dquote)
    else if not dquote && is_control signed c
    then reject
    else if not dquote && c == b'\\'
    then pass seen_slash true dquote
    else if c == b'/'
    then if seen_slash then pass true false dquote else copy true false dquote
    else copy false false dquote

-- The loop, and the test of `dquote` behind it. The code does not look for the end of the string: it
-- is called with a `len` that is at most the length, so the second clause is not reached.
unfoldable pub scan_path :
    (signed : Bool) (len : ℕ) → Bytes → (seen_slash quote dquote : Bool) → Option Bytes
unfolding scan
scan_path signed zero s seen_slash quote dquote = if dquote then none else some []
scan_path signed (suc len) [] seen_slash quote dquote = none
scan_path signed (suc len) (c ∷ s) seen_slash quote dquote =
    elim (scan signed c seen_slash quote dquote) [
      | reject ↦ none
      | pass seen q d ↦ scan_path signed len s seen q d
      | copy seen q d ↦ Option.map (◌∷◌ c) (scan_path signed len s seen q d)
    ]

-- `strchr(s, '/')`
unfoldable pub has_slash : Bytes → Bool
has_slash [] = false
has_slash (c ∷ s) = c == b'/' || has_slash s

unfoldable pub starts_slash : Bytes → Bool
starts_slash [] = false
starts_slash (c ∷ _) = c == b'/'

-- `tmp`: the path without a quote in front.
unfoldable pub unquoted : Bytes → Bytes
unquoted [] = []
unquoted (c ∷ s) = if c == b'"' then s else c ∷ s

-- The test of the slashes against the type: may the path not stand there?
unfoldable pub is_refused : LookupType → Bytes → Bool
unfolding has_slash starts_slash
is_refused lkp_indirect tmp = has_slash tmp
is_refused lkp_direct tmp = if has_slash tmp then not (starts_slash tmp) else true
is_refused lkp_mixed tmp = has_slash tmp && not (starts_slash tmp)
is_refused lkp_other tmp = false

-- `*(cp - 1) == '/'`
unfoldable pub ends_slash : Bytes → Bool
ends_slash [] = false
ends_slash (c ∷ []) = c == b'/'
ends_slash (_ ∷ c ∷ s) = ends_slash (c ∷ s)

-- `*(cp - 1) = '\0'`
unfoldable pub drop_last : Bytes → Bytes
drop_last [] = []
drop_last (_ ∷ []) = []
drop_last (b ∷ c ∷ s) = b ∷ drop_last (c ∷ s)

-- The last test; `cp` is the string at the end of the copy, where the final 0 was just written.
unfoldable pub strip_slash : (cp : Bytes) (origlen : ℕ) → Bytes → Bytes
unfolding ends_slash drop_last
strip_slash cp origlen s_path =
    if ltb 1 (length cp) && (ltb 1 origlen && ends_slash s_path) then drop_last s_path else s_path

unfoldable pub sanitize_path :
    (alloc signed : Bool) → Bytes → (origlen : ℕ) → LookupType → Option Bytes
unfolding is_refused unquoted scan_path strip_slash
sanitize_path alloc signed path origlen type =
    if is_refused type (unquoted path)
    then none
    else if not alloc
    then none
    else Option.map (strip_slash [] origlen) (scan_path signed origlen path false false false)
