-- ===== src/ParseSubs/Quotes/Escaped.antt =====
-- lib/parse_subs.c: texts with every byte escaped.
use mathlib.Core.List.{reverse, reverse_aux, reverse-reverse}
use autofs.Prelude.{
  ℕ, true, false, [], ◌∷◌, some, ◌≡◌, refl, sym, ap, ◌∙◌, arith, length, take, take-length,
}
use autofs.Text.{Bytes}
use autofs.ParseSubs.Quotes.{strip_space, copy_unquoted, dequote}

-- A backslash in front of every byte.
unfoldable pub escape : Bytes → Bytes
escape [] = []
escape (c ∷ s) = b'\\' ∷ c ∷ escape s

copy_unquoted-escape : (s : Bytes) → copy_unquoted false false (escape s) ≡ (s, false)
unfolding copy_unquoted escape
copy_unquoted-escape [] = refl
copy_unquoted-escape (c ∷ s) = ap (λ r. (c ∷ r.0, r.1)) (copy_unquoted-escape s)

-- Behind a backslash in the text nothing is stripped.
strip_space-escaped : (c d : ℕ) (s : Bytes) → strip_space (c ∷ b'\\' ∷ d ∷ s) ≡ c ∷ b'\\' ∷ d ∷ s
unfolding strip_space
strip_space-escaped c d s = ground arith

-- The end of an escaped text, from the last byte on, where a byte stands in front.
escape-end :
    (s : Bytes) (c d : ℕ) (r : Bytes)
    → (c' d' : ℕ) × (r' : Bytes) × (reverse_aux (escape s) (c ∷ b'\\' ∷ d ∷ r)
        ≡ c' ∷ b'\\' ∷ d' ∷ r')
unfolding escape
escape-end [] c d r = (c, d, r, refl)
escape-end (x ∷ s) c d r = escape-end s x c (b'\\' ∷ d ∷ r)

strip_space-escape :
    (a b : ℕ) (s : Bytes)
    → strip_space (reverse (escape (a ∷ b ∷ s))) ≡ reverse (escape (a ∷ b ∷ s))
unfolding escape
strip_space-escape a b s =
    let (c, d, r, e) = escape-end s b a (b'\\' ∷ []) in
    ap strip_space e ∙ strip_space-escaped c d r ∙ sym e

-- A text of two bytes or more comes back where a backslash is put in front of every byte, white space at
-- its end included, if there is memory.
pub dequote-escape :
    (a b : ℕ) (s : Bytes)
    → dequote true (escape (a ∷ b ∷ s)) (length (escape (a ∷ b ∷ s))) ≡ some (a ∷ b ∷ s)
unfolding dequote
dequote-escape a b s =
    let t = escape (a ∷ b ∷ s) in
    let copied : copy_unquoted false false (reverse (strip_space (reverse (take (length t) t))))
        ≡ (a ∷ b ∷ s, false) =
      rw (take-length t, strip_space-escape a b s, reverse-reverse t)
        (copy_unquoted-escape (a ∷ b ∷ s)) in
    rw copied refl
