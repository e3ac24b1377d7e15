-- ===== src/Defaults/Read/Layout.antt =====
-- lib/defaults.c: which settings the lines of a file make.
use autofs.Prelude.{
  ℕ, Bool, true, false, [], ◌∷◌, ◌++◌, none, some, ◌≡◌, ◌≢◌, refl, ap, ◌∙◌, arith, ◌==◌, All,
}
use autofs.Text.{Bytes}
use autofs.Defaults.Read.{
  is_blank, is_alpha, is_quote, drop_while, trim_end, split_at, cut_newline, setting, parse_value,
  setting_line, parse_line, cut_trailer,
}

drop_while-append :
    (p : ℕ → Bool) (q v : Bytes) → All (λ c. p c ≡ true) q → drop_while p (q ++ v) ≡ drop_while p v
unfolding drop_while
drop_while-append p [] v h = refl
drop_while-append p (c ∷ q) v h = ground (arith, drop_while-append p q v)

trim_end-All : (p : ℕ → Bool) (q : Bytes) → All (λ c. p c ≡ true) q → trim_end p q ≡ []
unfolding trim_end
trim_end-All p [] h = refl
trim_end-All p (c ∷ q) h = rw (trim_end-All p q h.1) (rw h.0 refl)

trim_end-append :
    (p : ℕ → Bool) (v q : Bytes) → All (λ c. p c ≡ true) q → trim_end p (v ++ q) ≡ trim_end p v
unfolding trim_end
trim_end-append p [] q h = trim_end-All p q h
trim_end-append p (c ∷ v) q h = rw (trim_end-append p v q h) refl

split_at-append : (b : ℕ) (s t : Bytes) → All (λ c. c ≢ b) s → split_at b (s ++ b ∷ t) ≡ some (s, t)
unfolding split_at
split_at-append b [] t h = ground arith
split_at-append b (c ∷ s) t h = rw (split_at-append b s t h.1) (ground arith)

split_at-none : (b : ℕ) (s : Bytes) → All (λ c. c ≢ b) s → split_at b s ≡ none
unfolding split_at
split_at-none b [] h = refl
split_at-none b (c ∷ s) h = rw (split_at-none b s h.1) (ground arith)

cut_newline-snoc : (s : Bytes) → cut_newline (s ++ 10 ∷ []) ≡ s
unfolding cut_newline
cut_newline-snoc [] = refl
cut_newline-snoc (c ∷ []) = refl
cut_newline-snoc (c ∷ d ∷ s) = ap (◌∷◌ c) (cut_newline-snoc (d ∷ s))

-- Bytes that satisfy `p` and none of which is `b`.
All-Apart :
    (p : ℕ → Bool) (b : ℕ) (q : Bytes) → p b ≡ false → All (λ c. p c ≡ true) q → All (λ c. c ≢ b) q
All-Apart p b [] e h = tt
All-Apart p b (c ∷ q) e h = ((λ i. ground (arith, ap p i, h.0)), All-Apart p b q e h.1)

All-append : (P : ℕ → Type 0) (s t : Bytes) → All P s → All P t → All P (s ++ t)
All-append P [] t h k = k
All-append P (c ∷ s) t h k = (h.0, All-append P s t h.1 k)

drop_while_stop : (p : ℕ → Bool) (d : ℕ) (s : Bytes) → p d ≡ false → drop_while p (d ∷ s) ≡ d ∷ s
unfolding drop_while
drop_while_stop p d s h = rw h refl

parse_value_layout :
    (q : Bytes) (d : ℕ) (v q' : Bytes)
    → All (λ c. is_quote c ≡ true) q
    → is_quote d ≡ false
    → All (λ c. c ≢ b'#') (d ∷ v)
    → trim_end is_quote (d ∷ v) ≡ d ∷ v
    → All (λ c. is_quote c ≡ true) q'
    → parse_value (q ++ (((d ∷ v) ++ q') ++ 10 ∷ [])) ≡ d ∷ v
unfolding parse_value
parse_value_layout q d v q' hq hd hv t hq' =
    rw
      (
        drop_while-append is_quote q (((d ∷ v) ++ q') ++ 10 ∷ []) hq,
        drop_while_stop is_quote d ((v ++ q') ++ 10 ∷ []) hd,
        cut_newline-snoc ((d ∷ v) ++ q'),
        split_at-none b'#' ((d ∷ v) ++ q')
            (All-append (λ c. c ≢ b'#') (d ∷ v) q' hv (All-Apart is_quote b'#' q' refl hq')),
      )
      (unfold cut_trailer in trim_end-append is_quote (d ∷ v) q' hq' ∙ t)

not_bracket : (c : ℕ) → is_alpha c ≡ true → (c == b'[') ≡ false
not_bracket c h = ground arith

-- A line with a name, `=`, a value and a newline makes that setting, whatever blanks stand in front of
-- the `=` and whatever quotes and blanks stand round the value. The name starts with a letter, has no `=`
-- and ends in no blank; the value is not empty, has no `#`, and no quote or blank at its ends.
pub parse_line_layout :
    (c : ℕ) (key blanks quotes : Bytes) (d : ℕ) (value quotes' : Bytes)
    → is_alpha c ≡ true
    → All (λ b. b ≢ b'=') (c ∷ key)
    → trim_end is_blank (c ∷ key) ≡ c ∷ key
    → All (λ b. is_blank b ≡ true) blanks
    → All (λ b. is_quote b ≡ true) quotes
    → is_quote d ≡ false
    → All (λ b. b ≢ b'#') (d ∷ value)
    → trim_end is_quote (d ∷ value) ≡ d ∷ value
    → All (λ b. is_quote b ≡ true) quotes'
    → parse_line (((c ∷ key) ++ blanks) ++ b'=' ∷ (quotes ++ (((d ∷ value) ++ quotes') ++ 10 ∷ [])))
      ≡ setting (c ∷ key) (d ∷ value)
unfolding parse_line setting_line
parse_line_layout c key blanks quotes d value quotes' ha hk tk hb hq hd hv tv hq' =
    let val = quotes ++ (((d ∷ value) ++ quotes') ++ 10 ∷ []) in
    rw
      (
        not_bracket c ha,
        ha,
        split_at-append b'=' ((c ∷ key) ++ blanks) val (
            All-append (λ b. b ≢ b'=') (c ∷ key) blanks hk
              (All-Apart is_blank b'=' blanks refl hb)),
        trim_end-append is_blank (c ∷ key) blanks hb,
        tk,
        parse_value_layout quotes d value quotes' hq hd hv tv hq',
      )
      refl
