-- ===== src/ParseSubs/Words/Plain.antt =====
-- lib/parse_subs.c: the length of a chunk of plain bytes.
use autofs.Prelude.{
  ℕ, suc, ◌+◌, Bool, true, false, ◌||◌, [], ◌∷◌, ◌++◌, Option, none, some, ◌≡◌, refl, ap, arith,
  ◌==◌, length, All,
}
use autofs.Text.{Bytes, is_prefix}
use autofs.ParseSubs.Words.{plain, ends_chunk, isblank, add_one, chunk_loop, colon_expected}
use autofs.ParseSubs.Words.Bounds.{Stops}

-- A byte that means nothing to `chunklen`.
abbrev pub IsWord : ℕ → Type 0
IsWord c = (c == b'\\' || c == b'"' || c == b':' || isblank c || ends_chunk c) ≡ false

abbrev pub add_len : ℕ → Option ℕ → Option ℕ
add_len n none = none
add_len n (some m) = some (n + m)

pub add_one-add_len : (n : ℕ) (o : Option ℕ) → add_one (add_len n o) ≡ add_len (suc n) o
add_one-add_len n none = refl
add_one-add_len n (some m) = ap some (omega arith)

add_len-zero : (o : Option ℕ) → o ≡ add_len 0 o
add_len-zero none = refl
add_len-zero (some m) = ap some (omega arith)

-- Plain bytes in front of a text.
pub chunk_loop-word :
    (w : Bytes) (e : Bool) (rest : Bytes)
    → All IsWord w
    → chunk_loop plain e (w ++ rest) ≡ add_len (length w) (chunk_loop plain e rest)
unfolding chunk_loop
chunk_loop-word [] e rest h = add_len-zero (chunk_loop plain e rest)
chunk_loop-word (c ∷ w) e rest (h, k) =
    ground (arith, chunk_loop-word w e rest k, add_one-add_len (length w) (chunk_loop plain e rest))

-- Where white space follows, or nothing, a chunk of plain bytes ends; a colon is not expected.
pub chunk_loop-Stops : (rest : Bytes) → Stops rest → chunk_loop plain false rest ≡ some 0
unfolding chunk_loop
chunk_loop-Stops [] h = refl
chunk_loop-Stops (c ∷ rest) h = ground arith

colon_expected-slash : (e : Bool) (rest : Bytes) → colon_expected e (b':' ∷ b'/' ∷ rest) ≡ false
unfolding colon_expected is_prefix
colon_expected-slash true rest = refl
colon_expected-slash false rest = refl

add_one-twice : (o : Option ℕ) → add_one (add_one o) ≡ add_len 2 o
add_one-twice none = refl
add_one-twice (some n) = ap some (omega arith)

-- Behind a colon in front of a slash no colon is expected.
pub chunk_loop-colon :
    (e : Bool) (rest : Bytes)
    → chunk_loop plain e (b':' ∷ b'/' ∷ rest) ≡ add_len 2 (chunk_loop plain false rest)
unfolding chunk_loop
chunk_loop-colon e rest =
    rw (colon_expected-slash e rest) (add_one-twice (chunk_loop plain false rest))
