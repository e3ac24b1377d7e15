-- ===== src/ParseSun/Expand/Words.antt =====
-- modules/parse_sun.c: texts of ordinary bytes, as `chunklen` and `dequote` read them.
use mathlib.Core.List.{reverse, reverse_aux, reverse-reverse, append_assoc}
use autofs.Prelude.{
  ℕ, Bool, true, false, ◌||◌, [], ◌∷◌, ◌++◌, some, ◌≡◌, refl, ap, ◌∙◌, sym, arith, ◌==◌, length,
  length-append, All, take, take-append, Bool-cases, inl, inr,
}
use autofs.Text.{Bytes}
use autofs.ParseSubs.Quotes.{is_space, strip_space, copy_unquoted, dequote}
use autofs.ParseSubs.Words.{plain, chunk_loop, chunklen}
use autofs.ParseSubs.Words.Bounds.{Stops}
use autofs.ParseSubs.Words.Plain.{
  IsWord, add_len, chunk_loop-word, chunk_loop-Stops, chunk_loop-colon,
}
use autofs.ParseSun.Expand.{key_text}

-- A byte that the functions on map entries copy as it is.
abbrev pub IsOrdinary : ℕ → Type 0
IsOrdinary c =
    (c == b'&' || c == b'$' || c == 8 || c == b'\\' || c == b'"' || c == b':' || is_space c) ≡ false

-- A byte of a key: white space too, but no backspace, backslash or double quote.
abbrev pub IsKeyByte : ℕ → Type 0
IsKeyByte c = (c == 8 || c == b'\\' || c == b'"') ≡ false

-- `host:/path` and what follows.
abbrev pub location : (host path rest : Bytes) → Bytes
location host path rest = host ++ (b':' ∷ b'/' ∷ (path ++ rest))

pub copy_unquoted-word :
    (w rest : Bytes)
    → All IsOrdinary w
    → copy_unquoted false false (w ++ rest)
      ≡ (w ++ (copy_unquoted false false rest).0, (copy_unquoted false false rest).1)
unfolding copy_unquoted
copy_unquoted-word [] rest h = refl
copy_unquoted-word (c ∷ w) rest (h, k) = ground (arith, copy_unquoted-word w rest k)

copy_unquoted-key_text :
    (key : Bytes) → All IsKeyByte key → copy_unquoted false false (key_text key) ≡ (key, false)
unfolding copy_unquoted key_text
copy_unquoted-key_text [] h = refl
copy_unquoted-key_text (c ∷ s) (h, k) = ground (arith, copy_unquoted-key_text s k)

chunk_loop-key_text :
    (key rest : Bytes)
    → All IsKeyByte key
    → Stops rest
    → chunk_loop plain false (key_text key ++ rest) ≡ some (length (key_text key))
unfolding chunk_loop key_text
chunk_loop-key_text [] rest h k = chunk_loop-Stops rest k
chunk_loop-key_text (c ∷ s) rest (h, k) l = ground (arith, chunk_loop-key_text s rest k l)

strip_space-escaped : (c d : ℕ) (s : Bytes) → strip_space (c ∷ b'\\' ∷ d ∷ s) ≡ c ∷ b'\\' ∷ d ∷ s
unfolding strip_space
strip_space-escaped c d s = ground arith

pub strip_space-byte : (c : ℕ) (s : Bytes) → is_space c ≡ false → strip_space (c ∷ s) ≡ c ∷ s
unfolding strip_space
strip_space-byte c s h = ground arith

-- Nothing is stripped from the end of a key behind a byte that is not stripped.
strip_space-key_text :
    (key : Bytes) (d : ℕ) (r : Bytes)
    → strip_space (d ∷ r) ≡ d ∷ r
    → strip_space (reverse_aux (key_text key) (d ∷ r)) ≡ reverse_aux (key_text key) (d ∷ r)
unfolding key_text
strip_space-key_text [] d r h = h
strip_space-key_text (c ∷ s) d r h = elim (Bool-cases (is_space c)) [
  | inl e ↦ rw e (strip_space-key_text s c (b'\\' ∷ d ∷ r) (strip_space-escaped c d r))
  | inr e ↦ rw e (strip_space-key_text s c (d ∷ r) (strip_space-byte c (d ∷ r) e))
]

reverse_aux-append : (w s r : Bytes) → reverse_aux (w ++ s) r ≡ reverse_aux s (reverse_aux w r)
reverse_aux-append [] s r = refl
reverse_aux-append (c ∷ w) s r = reverse_aux-append w s (c ∷ r)

-- The same behind ordinary bytes.
pub strip_space-word :
    (w key : Bytes) (d : ℕ) (r : Bytes)
    → All IsOrdinary w
    → is_space d ≡ false
    → strip_space (reverse_aux (w ++ key_text key) (d ∷ r))
      ≡ reverse_aux (w ++ key_text key) (d ∷ r)
strip_space-word [] key d r h k = strip_space-key_text key d r (strip_space-byte d r k)
strip_space-word (c ∷ w) key d r (h, l) k = strip_space-word w key c (d ∷ r) l (ground arith)

strip_space-location :
    (host path key : Bytes)
    → All IsOrdinary path
    → strip_space (reverse (location host path (key_text key)))
      ≡ reverse (location host path (key_text key))
strip_space-location host path key k =
    let at_host = reverse_aux-append host (b':' ∷ b'/' ∷ (path ++ key_text key)) [] in
    ap strip_space at_host
    ∙ strip_space-word path key b'/' (b':' ∷ reverse_aux host []) k refl
    ∙ sym at_host

copy_unquoted-location :
    (host path key : Bytes)
    → All IsOrdinary host
    → All IsOrdinary path
    → All IsKeyByte key
    → copy_unquoted false false (location host path (key_text key))
      ≡ (location host path key, false)
unfolding copy_unquoted
copy_unquoted-location host path key h k l =
    let rest = path ++ key_text key in
    let in_path : copy_unquoted false false rest ≡ (path ++ key, false) =
      copy_unquoted-word path (key_text key) k
      ∙ ap (λ r. (path ++ r.0, r.1)) (copy_unquoted-key_text key l) in
    copy_unquoted-word host (b':' ∷ b'/' ∷ rest) h
    ∙ ap (λ r. (host ++ (b':' ∷ b'/' ∷ r.0), r.1)) in_path

pub All-IsWord : (w : Bytes) → All IsOrdinary w → All IsWord w
All-IsWord [] h = tt
All-IsWord (c ∷ w) (h, k) = (ground arith, All-IsWord w k)

pub chunklen-location :
    (host path key rest : Bytes) (e : Bool)
    → All IsOrdinary host
    → All IsOrdinary path
    → All IsKeyByte key
    → Stops rest
    → chunklen (location host path (key_text key) ++ rest) e
      ≡ some (length (location host path (key_text key)))
unfolding chunklen
chunklen-location host path key rest e h k l m =
    let k_text = key_text key in
    let behind = path ++ (k_text ++ rest) in
    let text : location host path k_text ++ rest ≡ host ++ (b':' ∷ b'/' ∷ behind) =
      append_assoc host (b':' ∷ b'/' ∷ (path ++ k_text)) rest
      ∙ ap (λ s. host ++ (b':' ∷ b'/' ∷ s)) (append_assoc path k_text rest) in
    let in_path =
      chunk_loop-word path false (k_text ++ rest) (All-IsWord path k)
      ∙ ap (add_len (length path)) (chunk_loop-key_text key rest l m) in
    let in_host =
      chunk_loop-word host e (b':' ∷ b'/' ∷ behind) (All-IsWord host h)
      ∙ ap (add_len (length host)) (chunk_loop-colon e behind ∙ ap (add_len 2) in_path) in
    let a = length-append host (b':' ∷ b'/' ∷ (path ++ k_text)) in
    let b = length-append path k_text in
    ap (chunk_loop plain e) text ∙ in_host ∙ ap some (omega (arith, a, b))

pub dequote-location :
    (host path key rest : Bytes)
    → All IsOrdinary host
    → All IsOrdinary path
    → All IsKeyByte key
    → dequote true
        (location host path (key_text key) ++ rest)
        (length (location host path (key_text key)))
      ≡ some (location host path key)
unfolding dequote
dequote-location host path key rest h k l =
    let t = location host path (key_text key) in
    let stripped : strip_space (reverse t) ≡ reverse t = strip_space-location host path key k in
    let copied : copy_unquoted false false
          (reverse (strip_space (reverse (take (length t) (t ++ rest)))))
        ≡ (location host path key, false) =
      rw (take-append t rest, stripped, reverse-reverse t)
        (copy_unquoted-location host path key h k l) in
    rw copied refl

pub strip_space-plain :
    (w : Bytes) (d : ℕ) (r : Bytes)
    → All IsOrdinary w
    → is_space d ≡ false
    → strip_space (reverse_aux w (d ∷ r)) ≡ reverse_aux w (d ∷ r)
strip_space-plain [] d r h k = strip_space-byte d r k
strip_space-plain (c ∷ w) d r (h, l) k = strip_space-plain w c (d ∷ r) l (ground arith)

pub copy_unquoted-plain : (w : Bytes) → All IsOrdinary w → copy_unquoted false false w ≡ (w, false)
unfolding copy_unquoted
copy_unquoted-plain [] h = refl
copy_unquoted-plain (c ∷ w) (h, k) = ground (arith, copy_unquoted-plain w k)

dequote_copied :
    (t rest u : Bytes)
    → strip_space (reverse t) ≡ reverse t
    → copy_unquoted false false t ≡ (u, false)
    → dequote true (t ++ rest) (length t) ≡ some u
unfolding dequote
dequote_copied t rest u h k =
    let copied : copy_unquoted false false
          (reverse (strip_space (reverse (take (length t) (t ++ rest)))))
        ≡ (u, false) =
      rw (take-append t rest, h, reverse-reverse t) k in
    rw copied refl

-- Plain bytes come back from `dequote`.
pub dequote-plain :
    (c : ℕ) (w rest : Bytes)
    → All IsOrdinary (c ∷ w)
    → dequote true (c ∷ w ++ rest) (length (c ∷ w)) ≡ some (c ∷ w)
dequote-plain c w rest (h, k) =
    dequote_copied (c ∷ w) rest (c ∷ w) (strip_space-plain w c [] k (ground arith))
      (copy_unquoted-plain (c ∷ w) (h, k))

pub chunklen-plain :
    (w t : Bytes) → All IsOrdinary w → chunklen (w ++ (b' ' ∷ t)) false ≡ some (length w)
unfolding chunklen
chunklen-plain w t h =
    chunk_loop-word w false (b' ' ∷ t) (All-IsWord w h)
    ∙ ap (add_len (length w)) (chunk_loop-Stops (b' ' ∷ t) refl)
    ∙ ap some (omega arith)
