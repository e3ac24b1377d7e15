-- ===== src/ParseSun/Expand/Key.antt =====
-- modules/parse_sun.c: the key of an entry, where `&` stands for it.
use mathlib.Core.List.{append-nil}
use autofs.Prelude.{
  ℕ, suc, Bool, true, false, [], ◌∷◌, ◌++◌, Option, none, some, ◌≡◌, refl, ap, ◌∙◌, arith, length,
  All,
}
use autofs.Text.{Bytes}
use autofs.Macros.{Substvar}
use autofs.ParseSubs.Quotes.{dequote}
use autofs.ParseSubs.Words.{chunklen}
use autofs.ParseSubs.Words.Bounds.{Stops}
use autofs.ParseSun.Expand.{
  Round, Expansion, key_text, expand_loop, expandsunent, expand_step, after_round, write,
}
use autofs.ParseSun.Expand.Words.{
  IsOrdinary, IsKeyByte, location, chunklen-location, dequote-location,
}

abbrev pub dst_of : Option Expansion → Option Bytes
dst_of none = none
dst_of (some e) = some e.dst

abbrev in_front : Bytes → Option Bytes → Option Bytes
in_front w none = none
in_front w (some s) = some (w ++ s)

dst_of-after_round :
    (c : ℕ) (src : Bytes) (b : Bool) (e : Option Expansion)
    → dst_of (after_round (write 1 (c ∷ []) src b) e) ≡ in_front (c ∷ []) (dst_of e)
dst_of-after_round c src b none = refl
dst_of-after_round c src b (some e) = refl

in_front-twice :
    (c : ℕ) (w : Bytes) (o : Option Bytes) → in_front (c ∷ []) (in_front w o) ≡ in_front (c ∷ w) o
in_front-twice c w none = refl
in_front-twice c w (some s) = refl

in_front-nothing : (o : Option Bytes) → o ≡ in_front [] o
in_front-nothing none = refl
in_front-nothing (some s) = refl

module _ (f : Bytes → Option Substvar) (key : Bytes) (slashify : Bool) where
  expand_step-ordinary :
      (seen : Bool) (c : ℕ) (s : Bytes)
      → IsOrdinary c
      → expand_step f key slashify seen c s ≡ some (write 1 (c ∷ []) s seen)
  unfolding expand_step
  expand_step-ordinary seen c s h = ground arith

  expand_loop-step :
      (fuel : ℕ) (seen : Bool) (c : ℕ) (s : Bytes) (r : Round)
      → expand_step f key slashify seen c s ≡ some r
      → expand_loop (suc fuel) f key slashify seen (c ∷ s)
        ≡ after_round r (expand_loop fuel f key slashify r.seen_colons r.src)
  unfolding expand_loop
  expand_loop-step fuel seen c s r e = rw (e, expand_loop) refl

  expand_loop-ordinary :
      (w rest : Bytes) (seen : Bool)
      → All IsOrdinary w
      → dst_of (expand_loop (length (w ++ rest)) f key slashify seen (w ++ rest))
        ≡ in_front w (dst_of (expand_loop (length rest) f key slashify seen rest))
  unfolding expand_loop
  expand_loop-ordinary [] rest seen h =
      in_front-nothing (dst_of (expand_loop (length rest) f key slashify seen rest))
  expand_loop-ordinary (c ∷ w) rest seen (h, k) =
      let step =
        expand_loop-step (length (w ++ rest)) seen c (w ++ rest) (write 1 (c ∷ []) (w ++ rest) seen)
          (expand_step-ordinary seen c (w ++ rest) h) in
      ap dst_of step
      ∙ dst_of-after_round c (w ++ rest) seen
          (expand_loop (length (w ++ rest)) f key slashify seen (w ++ rest))
      ∙ ap (in_front (c ∷ [])) (expand_loop-ordinary w rest seen k)
      ∙ in_front-twice c w (dst_of (expand_loop (length rest) f key slashify seen rest))

  expand_step-colon :
      (s : Bytes)
      → expand_step f key slashify false b':' (b'/' ∷ s)
        ≡ some (write 1 (b':' ∷ []) (b'/' ∷ s) true)
  unfolding expand_step
  expand_step-colon s = refl

  expand_loop-key :
      (seen : Bool) → dst_of (expand_loop 1 f key slashify seen (b'&' ∷ [])) ≡ some (key_text key)
  unfolding expand_loop
  expand_loop-key seen = ap some (append-nil (key_text key))

  -- The expansion of a location that ends in `&`.
  expandsunent_key :
      (host path : Bytes)
      → All IsOrdinary host
      → All IsOrdinary path
      → dst_of (expandsunent (location host path (b'&' ∷ [])) key f slashify)
        ≡ some (location host path (key_text key))
  unfolding expandsunent
  expandsunent_key host path h k =
      let p = b'/' ∷ path in
      let s = p ++ (b'&' ∷ []) in
      let in_path = expand_loop-ordinary p (b'&' ∷ []) true (refl, k) in
      let colon = ap dst_of (
        expand_loop-step (length s) false b':' s (write 1 (b':' ∷ []) s true)
          (expand_step-colon (path ++ (b'&' ∷ [])))) in
      expand_loop-ordinary host (b':' ∷ s) false h
      ∙ ap (in_front host) (
          colon
          ∙ dst_of-after_round b':' s true (expand_loop (length s) f key slashify true s)
          ∙ ap (in_front (b':' ∷ [])) (in_path ∙ ap (in_front p) (expand_loop-key true)))

-- A location that ends in `&` is expanded to a text that `chunklen` takes for one word, whether a colon
-- is expected or not, and that `dequote` turns into the location with the key, where the host and the path are
-- ordinary bytes, no byte of the key is a backspace, a backslash or a double quote, and white
-- space or nothing follows.
pub expand_key-word :
    (host path key rest : Bytes) (findvar : Bytes → Option Substvar) (slashify expect_colon : Bool)
    → All IsOrdinary host
    → All IsOrdinary path
    → All IsKeyByte key
    → Stops rest
    → (dst_of (expandsunent (location host path (b'&' ∷ [])) key findvar slashify)
        ≡ some (location host path (key_text key)))
      × (chunklen (location host path (key_text key) ++ rest) expect_colon
          ≡ some (length (location host path (key_text key))))
      × (dequote true
            (location host path (key_text key) ++ rest)
            (length (location host path (key_text key)))
          ≡ some (location host path key))
expand_key-word host path key rest findvar slashify e h k l m = (
  expandsunent_key findvar key slashify host path h k,
  chunklen-location host path key rest e h k l m,
  dequote-location host path key rest h k l,
)
