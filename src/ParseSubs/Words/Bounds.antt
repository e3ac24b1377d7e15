-- ===== src/ParseSubs/Words/Bounds.antt =====
-- lib/parse_subs.c: where a chunk ends.
use autofs.Prelude.{
  ℕ, suc, ◌+◌, ◌≤◌, Bool, true, false, ◌||◌, [], ◌∷◌, Option, none, some, ◌≡◌, arith, length, drop,
  Option-cases, inl, inr,
}
use autofs.Text.{Bytes}
use autofs.ParseSubs.Words.{
  Chunk, plain, escaped, within, ends_chunk, isblank, chunk_step, add_one, at_end, chunk_loop,
  chunklen,
}

-- The text ends, or white space follows.
abbrev pub Stops : Bytes → Type 0
Stops [] = Unit
Stops (c ∷ _) = (isblank c || ends_chunk c) ≡ true

-- A chunk of a length ends in the text, at its end or in front of white space.
abbrev pub EndsIn : Bytes → Option ℕ → Type 0
EndsIn s none = Unit
EndsIn s (some n) = (n ≤ length s) × Stops (drop n s)

add_one-EndsIn : (c : ℕ) (s : Bytes) (o : Option ℕ) → EndsIn s o → EndsIn (c ∷ s) (add_one o)
add_one-EndsIn c s none h = tt
add_one-EndsIn c s (some n) (h, k) =
    let e : n + 1 ≡ suc n = omega arith in rw e (omega (arith, h), k)

chunk_step-stops :
    (m : Chunk) (e : Bool) (c : ℕ) (s : Bytes)
    → chunk_step m e c s ≡ none
    → (isblank c || ends_chunk c) ≡ true
unfolding chunk_step
chunk_step-stops plain e c s h = ground arith
chunk_step-stops escaped e c s h = ground arith
chunk_step-stops within e c s h = ground arith

at_end-EndsIn : (m : Chunk) → EndsIn [] (at_end m)
at_end-EndsIn plain = (omega arith, tt)
at_end-EndsIn escaped = (omega arith, tt)
at_end-EndsIn within = tt

chunk_loop-EndsIn : (m : Chunk) (e : Bool) (s : Bytes) → EndsIn s (chunk_loop m e s)
unfolding chunk_loop
chunk_loop-EndsIn m e [] = at_end-EndsIn m
chunk_loop-EndsIn m e (c ∷ s) = elim (Option-cases (chunk_step m e c (c ∷ s))) [
  | inl h ↦ rw (h, EndsIn) (omega arith, chunk_step-stops m e c (c ∷ s) h)
  | inr (r, h) ↦
      rw (h, EndsIn) (add_one-EndsIn c s (chunk_loop r.0 r.1 s) (chunk_loop-EndsIn r.0 r.1 s))
]

-- A chunk that has a length, with a colon expected or not, ends in the text: at its end, or in front
-- of one of the bytes that `chunklen` takes for white space.
pub chunklen-EndsIn :
    (whence : Bytes) (expect_colon : Bool) → EndsIn whence (chunklen whence expect_colon)
unfolding chunklen
chunklen-EndsIn whence expect_colon = chunk_loop-EndsIn plain expect_colon whence

-- White space is in front of nothing: the text ends, or a byte is there that ends no chunk.
abbrev pub StartsWord : Bytes → Type 0
StartsWord [] = Unit
StartsWord (c ∷ _) = (isblank c || ends_chunk c) ≡ false

add_one-positive : (o : Option ℕ) (n : ℕ) → add_one o ≡ some n → 1 ≤ n
add_one-positive none n e = ground arith
add_one-positive (some m) n e = ground arith

chunk_loop-positive :
    (m : Chunk) (c : ℕ) (s : Bytes) (e : Bool) (n : ℕ)
    → StartsWord (c ∷ s)
    → chunk_loop m e (c ∷ s) ≡ some n
    → 1 ≤ n
unfolding chunk_loop
chunk_loop-positive m c s e n h k = elim (Option-cases (chunk_step m e c (c ∷ s))) [
  | inl l ↦ let stops = chunk_step-stops m e c (c ∷ s) l in absurd (ground arith)
  | inr (r, l) ↦ add_one-positive (chunk_loop r.0 r.1 s) n (rw (l, chunk_loop) at k)
]

-- A chunk that starts with a word is not empty.
pub chunklen-positive :
    (c : ℕ) (s : Bytes) (e : Bool) (n : ℕ)
    → StartsWord (c ∷ s)
    → chunklen (c ∷ s) e ≡ some n
    → 1 ≤ n
unfolding chunklen
chunklen-positive = chunk_loop-positive plain
