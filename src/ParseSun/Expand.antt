-- ===== src/ParseSun/Expand.antt =====
-- modules/parse_sun.c: the expansion of `&` and of macros in a map entry.
pub mod Length
pub mod Words
pub mod Key
use autofs.Prelude.{
  ℕ, zero, suc, ◌+◌, Bool, true, false, not, ◌&&◌, ◌||◌, [], ◌∷◌, ◌++◌, Option, none, some, ◌==◌,
  if◌then◌else◌, leb, length,
}
use autofs.Text.{Bytes}
use autofs.Macros.{Substvar}
use autofs.ParseSubs.Quotes.{is_space}
use autofs.ParseSubs.Words.{isblank}

abbrev pub is_alnum : ℕ → Bool
is_alnum c = leb b'0' c && leb c b'9' || leb b'A' c && leb c b'Z' || leb b'a' c && leb c b'z'

-- What is written for the key, and what is counted for its white space.
unfoldable pub key_text : Bytes → Bytes
key_text [] = []
key_text (c ∷ s) = if is_space c then b'\\' ∷ c ∷ key_text s else c ∷ key_text s

unfoldable pub count_space : Bytes → ℕ
count_space [] = 0
count_space (c ∷ s) = if is_space c then count_space s + 1 else count_space s

abbrev pub cons_name : ℕ → Option (Bytes × Bytes) → Option (Bytes × Bytes)
cons_name c none = none
cons_name c (some (name, after)) = some (c ∷ name, after)

-- `strchr(src, '}')`: the text in front of it and behind it.
unfoldable pub split_brace : Bytes → Option (Bytes × Bytes)
split_brace [] = none
split_brace (c ∷ s) =
    let rest = split_brace s in if c == b'}' then some ([], s) else cons_name c rest

-- The name behind a `$`, and the text behind the name.
unfoldable pub span_name : Bytes → Bytes × Bytes
span_name [] = ([], [])
span_name (c ∷ s) =
    let rest = span_name s in if is_alnum c || c == b'_' then (c ∷ rest.0, rest.1) else ([], c ∷ s)

-- The bytes behind a double quote, with the next one, and the text behind them.
unfoldable pub span_quote : Bytes → Bytes × Bytes
span_quote [] = ([], [])
span_quote (c ∷ s) =
    let rest = span_quote s in if c == b'"' then (c ∷ [], s) else (c ∷ rest.0, rest.1)

-- What `len` is raised by behind a double quote, up to the next one and for it.
unfoldable pub count_quote : Bytes → ℕ
count_quote [] = 0
count_quote (c ∷ s) = let rest = count_quote s in if c == b'"' then 1 else rest + 1

-- What a round of the loop leaves: the bytes that it counts and those that it writes, the text that is
-- left and `seen_colons`.
pub record Round : Type 0 where
  pub len : ℕ
  pub dst : Bytes
  pub src : Bytes
  pub seen_colons : Bool

-- What a case adds to `len`, what it writes at `dst`, and where `src` and `seen_colons` stand then.
abbrev pub write : (len : ℕ) → (dst src : Bytes) → Bool → Round
write len dst src seen_colons = record {
  len = len;
  dst = dst;
  src = src;
  seen_colons = seen_colons;
}

-- `l = strlen(sv->val)`, or nothing.
abbrev pub len_of : Option Substvar → ℕ
len_of none = 0
len_of (some sv) = length sv.val

-- `sv->val`, or nothing.
abbrev pub val_of : Option Substvar → Bytes
val_of none = []
val_of (some sv) = sv.val

abbrev pub starts_brace : Bytes → Bool
starts_brace [] = false
starts_brace (c ∷ _) = c == b'{'

abbrev pub at_slash : Bytes → Bool
at_slash [] = false
at_slash (c ∷ _) = c == b'/'

-- `isblank(*src) || !*src`
abbrev pub no_name : Bytes → Bool
no_name [] = true
no_name (c ∷ _) = isblank c

abbrev pub tail : Bytes → Bytes
tail [] = []
tail (_ ∷ s) = s

-- The value of a name; `none` where no brace ends the name.
abbrev pub write_value :
    (findvar : Bytes → Option Substvar) → Option (Bytes × Bytes) → Bool → Option Round
write_value findvar none seen_colons = none
write_value findvar (some (name, after)) seen_colons =
    some (write (len_of (findvar name)) (val_of (findvar name)) after seen_colons)

-- `case '$'`; `none` returns.
unfoldable pub expand_macro : (findvar : Bytes → Option Substvar) → Bytes → Bool → Option Round
unfolding split_brace span_name
expand_macro findvar src seen_colons =
    if starts_brace src
    then write_value findvar (split_brace (tail src)) seen_colons
    else if no_name src
    then some (write 1 (b'$' ∷ []) src seen_colons)
    else write_value findvar (some (span_name src)) seen_colons

-- `case '\\'`
abbrev pub copy_escaped : Bytes → Bool → Round
copy_escaped [] seen_colons = write 1 (b'\\' ∷ []) [] seen_colons
copy_escaped (c ∷ s) seen_colons = write (1 + 1) (b'\\' ∷ c ∷ []) s seen_colons

-- `case '"'`
abbrev pub copy_quoted : (count : ℕ) → Bytes × Bytes → Bool → Option Round
copy_quoted count (quoted, after) seen_colons =
    some (write (1 + count) (b'"' ∷ quoted) after seen_colons)

-- A round of the loop, for the byte `ch` and the text behind it; `none` returns.
unfoldable pub expand_step :
    (findvar : Bytes → Option Substvar)
    → (key : Bytes) → (slashify_colons seen_colons : Bool) → ℕ
    → Bytes
    → Option Round
unfolding expand_macro span_quote count_quote key_text count_space
expand_step findvar key slashify_colons seen_colons ch src =
    if ch == b'&'
    then some record {
      len = length key + count_space key;
      dst = key_text key;
      src = src;
      seen_colons = seen_colons;
    }
    else if ch == b'$'
    then expand_macro findvar src seen_colons
    else if ch == b'\\'
    then some (copy_escaped src seen_colons)
    else if ch == b'"'
    then copy_quoted (count_quote src) (span_quote src) seen_colons
    else if ch == b':'
    then some (
        write 1 ((if seen_colons && slashify_colons then b'/' else b':') ∷ []) src
          (at_slash src || seen_colons))
    else some (write 1 (ch ∷ []) src (not (is_space ch) && seen_colons))

-- What the function returns, and what it writes.
pub record Expansion : Type 0 where
  pub len : ℕ
  pub dst : Bytes

abbrev pub after_round : Round → Option Expansion → Option Expansion
after_round r none = none
after_round r (some e) = some record { len = r.len + e.len; dst = r.dst ++ e.dst }

-- The loop, on fuel; `none` where the fuel runs out.
unfoldable pub expand_loop :
    ℕ
    → (findvar : Bytes → Option Substvar) → (key : Bytes) → (slashify_colons seen_colons : Bool)
    → Bytes
    → Option Expansion
unfolding expand_step
expand_loop fuel findvar key slashify_colons seen_colons [] = some record { len = 0; dst = [] }
expand_loop zero findvar key slashify_colons seen_colons (ch ∷ src) = none
expand_loop (suc fuel) findvar key slashify_colons seen_colons (ch ∷ src) =
    elim (expand_step findvar key slashify_colons seen_colons ch src) [
      | none ↦ some record { len = 0; dst = [] }
      | some r ↦ after_round r (expand_loop fuel findvar key slashify_colons r.seen_colons r.src)
    ]

-- Each round takes a byte at least.
unfoldable pub expandsunent :
    Bytes
    → (key : Bytes) → (findvar : Bytes → Option Substvar) → (slashify_colons : Bool)
    → Option Expansion
unfolding expand_loop
expandsunent src key findvar slashify_colons =
    expand_loop (length src) findvar key slashify_colons false src

-- The memory has room for one byte more than the first run counts; a text of no length is refused.
unfoldable pub do_expandsunent :
    Bytes
    → (key : Bytes) → (findvar : Bytes → Option Substvar) → (slashify_colons : Bool)
    → Option (Option Expansion)
unfolding expandsunent
do_expandsunent src key findvar slashify_colons =
    elim (expandsunent src key findvar slashify_colons) [
      | none ↦ none
      | some e ↦ some (if e.len == 0 then none else some e)
    ]
