-- ===== src/ParseSun/Entry/Multi.antt =====
-- modules/parse_sun.c: the loops of check_is_multi end.
use autofs.Prelude.{
  ℕ, zero, suc, ◌≤◌, ◌<◌, Bool, true, false, ◌&&◌, [], ◌∷◌, Option, none, some, ◌≡◌, refl, ap,
  subst, sym, ◌⊎◌, arith, ◌==◌, length, drop, length-drop, if_both, Bool-cases, inl, inr,
}
use autofs.Text.{Bytes}
use autofs.ParseSubs.Quotes.{check_colon, skipspace}
use autofs.ParseSubs.Words.{chunklen}
use autofs.ParseSubs.Words.Bounds.{StartsWord}
use autofs.ParseSun.Expand.{at_slash}
use autofs.ParseSun.Entry.{
  Outcome, no_fuel, undefined, done, and_then, measured, starts_with, skip_options, multi_loop,
  check_is_multi, skip_byte, skip_quote,
}
use autofs.ParseSun.Entry.Ends.{
  Ends, and_then-Ends, measured-Ends, measured_done, word_shorter, skipspace-le,
  skipspace-StartsWord,
}

starts_with-StartsWord : (p : Bytes) → starts_with b'-' p ≡ true → StartsWord p × (0 < length p)
starts_with-StartsWord [] h = absurd (ground arith)
starts_with-StartsWord (c ∷ s) h = (ground arith, omega arith)

skip_options-Ends : (fuel : ℕ) (p : Bytes) → length p < fuel → Ends (skip_options fuel p)
unfolding skip_options
skip_options-Ends zero p h = absurd (omega (arith, h))
skip_options-Ends (suc fuel) p h = elim (Bool-cases (starts_with b'-' p)) [
  | inr f ↦ rw (f, Ends) tt
  | inl f ↦
      rw (f, Ends)
        (and_then-Ends (measured (chunklen p false)) _ (measured-Ends (chunklen p false)) (λ n e.
          let known = measured_done (chunklen p false) n e in
          let word = starts_with-StartsWord p f in
          let l = word_shorter p false n word.0 word.1 known in
          let m = skipspace-le (drop n p) in
          skip_options-Ends fuel (skipspace (drop n p)) (omega (arith, l, m, h))))
]

-- What options leave of a text is not longer, and starts no white space where the text did not.
abbrev Skipped : Bytes → Outcome Bytes → Type 0
Skipped p (done q) = (length q ≤ length p) × (StartsWord p → StartsWord q)
Skipped p _ = Unit

-- The white space that options leave behind them is skipped.
skip_options-Skipped : (fuel : ℕ) (p : Bytes) → Skipped p (skip_options fuel p)
unfolding skip_options
skip_options-Skipped zero p = tt
skip_options-Skipped (suc fuel) p = elim (Bool-cases (starts_with b'-' p)) [
  | inr f ↦ rw (f, Skipped) (omega arith, λ h. h)
  | inl f ↦
      rw (f, Skipped)
        (behind (chunklen p false) (λ n. skip_options-Skipped fuel (skipspace (drop n p))))
]
  where
    weaken : (n : ℕ) (o : Outcome Bytes) → Skipped (skipspace (drop n p)) o → Skipped p o
    weaken n no_fuel h = tt
    weaken n undefined h = tt
    weaken n (done q) h =
        let l = skipspace-le (drop n p) in
        let m = length-drop n p in
        let k = h.0 in (omega (arith, l, m), λ _. h.1 (skipspace-StartsWord (drop n p)))

    behind :
        (o : Option ℕ)
        → ((n : ℕ) → Skipped (skipspace (drop n p)) (skip_options fuel (skipspace (drop n p))))
        → Skipped p (and_then (measured o) (λ n. skip_options fuel (skipspace (drop n p))))
    behind none h = tt
    behind (some n) h = weaken n (skip_options fuel (skipspace (drop n p))) (h n)

skip_byte-cases : (c : ℕ) (p : Bytes) → (skip_byte c p ≡ p) ⊎ (length (skip_byte c p) < length p)
skip_byte-cases c [] = inl refl
skip_byte-cases c (d ∷ s) = elim (Bool-cases (d == c)) [
  | inl e ↦ inr (rw e (omega arith))
  | inr e ↦ inl (rw e refl)
]

skip_quote-cases :
    (b : Bool) (p : Bytes) → (skip_quote b p ≡ p) ⊎ (length (skip_quote b p) < length p)
skip_quote-cases false p = inl refl
skip_quote-cases true p = elim (skip_byte-cases b'"' p) [
  | inl e ↦ rw e (skip_byte-cases b'-' p)
  | inr l ↦ elim (skip_byte-cases b'-' (skip_byte b'"' p)) [
    | inl e ↦ inr (rw e l)
    | inr m ↦ inr (omega (arith, l, m))
  ]
]

-- A word is taken off a text that starts with one, or the text is empty.
drop-word :
    (q : Bytes) (e : Bool) (n bound : ℕ)
    → StartsWord q
    → chunklen q e ≡ some n
    → length q ≤ bound
    → 0 < bound
    → length (drop n q) < bound
drop-word [] e n bound h k l m = let d = length-drop {A = ℕ} n [] in omega (arith, d, m)
drop-word (c ∷ s) e n bound h k l m =
    let w = word_shorter (c ∷ s) e n h (omega arith) k in omega (arith, w, l)

options_leave :
    (p : Bytes) (o : Outcome Bytes) (q : Bytes) → Skipped p o → o ≡ done q → Skipped p (done q)
options_leave p o q h e = rw e at h

-- Each round of `check_is_multi` takes a byte at least.
round_shorter :
    (b : Bool) (c : ℕ) (s q : Bytes) (n : ℕ)
    → Skipped (skip_quote b (skipspace (c ∷ s))) (done q)
    → chunklen q (check_colon q) ≡ some n
    → length (drop n q) < length (c ∷ s)
round_shorter b c s q n (h, k) l =
    let m = skipspace-le (c ∷ s) in
    let d = length-drop n q in
    elim (skip_quote-cases b (skipspace (c ∷ s))) [
      | inr i ↦ omega (arith, h, m, d, i)
      | inl e ↦
          let word : StartsWord q = k (subst StartsWord (sym e) (skipspace-StartsWord (c ∷ s))) in
          drop-word q (check_colon q) n (length (c ∷ s)) word l
            (let j = ap length e in omega (arith, h, m, j)) (omega arith)
    ]

multi_loop-Ends : (fuel : ℕ) (b : Bool) (p : Bytes) → length p ≤ fuel → Ends (multi_loop fuel b p)
unfolding multi_loop
multi_loop-Ends fuel b [] h = tt
multi_loop-Ends zero b (c ∷ s) h = absurd (omega (arith, h))
multi_loop-Ends (suc fuel) b (c ∷ s) h =
    let p = skip_quote b (skipspace (c ∷ s)) in
    elim (Bool-cases (b && at_slash p)) [
      | inl f ↦ rw (f, Ends) tt
      | inr f ↦
          rw (f, Ends)
            (and_then-Ends (skip_options (suc (length p)) p) _
              (skip_options-Ends (suc (length p)) p (omega arith))
              (λ q e.
                and_then-Ends (measured (chunklen q (check_colon q))) _
                  (measured-Ends (chunklen q (check_colon q)))
                  (λ n e'.
                    let known = measured_done (chunklen q (check_colon q)) n e' in
                    let skipped =
                      options_leave p (skip_options (suc (length p)) p) q
                        (skip_options-Skipped (suc (length p)) p) e in
                    let l = round_shorter b c s q n skipped known in
                    multi_loop-Ends fuel true (drop n q) (omega (arith, l, h)))))
    ]

-- The loops of `check_is_multi` end within their fuel, whatever text they are given.
pub check_is_multi-Ends : (mapent : Bytes) → Ends (check_is_multi mapent)
unfolding check_is_multi
check_is_multi-Ends mapent =
    if_both Ends (at_slash (skip_byte b'"' mapent)) (λ e. tt)
      (λ e.
        multi_loop-Ends (length (skip_byte b'"' mapent)) false (skip_byte b'"' mapent)
          (omega arith))
