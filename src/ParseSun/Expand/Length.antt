-- ===== src/ParseSun/Expand/Length.antt =====
-- modules/parse_sun.c: what `expandsunent` counts and what it writes.
use autofs.Prelude.{
  ℕ, zero, suc, ◌+◌, ◌≤◌, Bool, false, [], ◌∷◌, Option, none, some, ◌≡◌, refl, arith, length,
  length-append, Option-cases, inl, inr, if_both, ◌==◌,
}
use autofs.Text.{Bytes}
use autofs.Macros.{Substvar}
use autofs.ParseSun.Expand.{
  Round, Expansion, key_text, count_space, cons_name, split_brace, write_value, span_name,
  span_quote, count_quote, len_of, val_of, expand_macro, expand_step, expand_loop, expandsunent,
  after_round, copy_escaped, tail, starts_brace, no_name,
}

length-key_text : (key : Bytes) → length key + count_space key ≡ length (key_text key)
unfolding key_text count_space
length-key_text [] = refl
length-key_text (c ∷ s) = ground (arith, length-key_text s)

abbrev Behind : Bytes → Option (Bytes × Bytes) → Type 0
Behind s none = Unit
Behind s (some r) = length r.1 ≤ length s

cons_name-Behind :
    (c : ℕ) (s : Bytes) (r : Option (Bytes × Bytes)) → Behind s r → Behind (c ∷ s) (cons_name c r)
cons_name-Behind c s none h = tt
cons_name-Behind c s (some r) h = omega (arith, h)

split_brace-Behind : (s : Bytes) → Behind s (split_brace s)
unfolding split_brace
split_brace-Behind [] = tt
split_brace-Behind (c ∷ s) =
    if_both (Behind (c ∷ s)) (c == b'}') (λ e. omega arith)
      (λ e. cons_name-Behind c s (split_brace s) (split_brace-Behind s))

span_name-le : (s : Bytes) → length (span_name s).1 ≤ length s
unfolding span_name
span_name-le [] = omega arith
span_name-le (c ∷ s) = ground (arith, span_name-le s)

span_quote-le : (s : Bytes) → length (span_quote s).1 ≤ length s
unfolding span_quote
span_quote-le [] = omega arith
span_quote-le (c ∷ s) = ground (arith, span_quote-le s)

count_quote-length : (s : Bytes) → 1 + count_quote s ≡ length (b'"' ∷ (span_quote s).0)
unfolding span_quote count_quote
count_quote-length [] = refl
count_quote-length (c ∷ s) = ground (arith, count_quote-length s)

len_of-length : (o : Option Substvar) → len_of o ≡ length (val_of o)
len_of-length none = refl
len_of-length (some sv) = refl

-- A round counts what it writes, and leaves a text that is not longer.
abbrev IsCounted : Bytes → Option Round → Type 0
IsCounted s none = Unit
IsCounted s (some r) = (r.len ≡ length r.dst) × (length r.src ≤ length s)

write_value-IsCounted :
    (f : Bytes → Option Substvar) (s : Bytes) (r : Option (Bytes × Bytes)) (b : Bool)
    → Behind s r
    → IsCounted s (write_value f r b)
write_value-IsCounted f s none b h = tt
write_value-IsCounted f s (some (name, after)) b h = (len_of-length (f name), h)

Behind-tail : (s : Bytes) (r : Option (Bytes × Bytes)) → Behind (tail s) r → Behind s r
Behind-tail s none h = tt
Behind-tail [] (some r) h = h
Behind-tail (c ∷ s) (some r) h = omega (arith, h)

expand_macro-IsCounted :
    (f : Bytes → Option Substvar) (s : Bytes) (b : Bool) → IsCounted s (expand_macro f s b)
unfolding expand_macro
expand_macro-IsCounted f s b =
    if_both (IsCounted s) (starts_brace s)
      (λ e.
        write_value-IsCounted f s (split_brace (tail s)) b
          (Behind-tail s (split_brace (tail s)) (split_brace-Behind (tail s))))
      (λ e.
        if_both (IsCounted s) (no_name s) (λ e'. (refl, omega arith))
          (λ e'. write_value-IsCounted f s (some (span_name s)) b (span_name-le s)))

copy_escaped-IsCounted : (s : Bytes) (b : Bool) → IsCounted s (some (copy_escaped s b))
copy_escaped-IsCounted [] b = (refl, omega arith)
copy_escaped-IsCounted (c ∷ s) b = (refl, omega arith)

expand_step-IsCounted :
    (f : Bytes → Option Substvar) (key : Bytes) (slashify seen : Bool) (c : ℕ) (s : Bytes)
    → IsCounted s (expand_step f key slashify seen c s)
unfolding expand_step
expand_step-IsCounted f key slashify seen c s =
    if_both (IsCounted s) (c == b'&') (λ _. (length-key_text key, omega arith))
      (λ _.
        if_both (IsCounted s) (c == b'$') (λ _. expand_macro-IsCounted f s seen)
          (λ _.
            if_both (IsCounted s) (c == b'\\') (λ _. copy_escaped-IsCounted s seen)
              (λ _.
                if_both (IsCounted s) (c == b'"') (λ _. (count_quote-length s, span_quote-le s))
                  (λ _.
                    if_both (IsCounted s) (c == b':') (λ _. (refl, omega arith))
                      (λ _. (refl, omega arith))))))

-- There is an expansion, and it writes what it counts.
abbrev pub WritesItsLength : Option Expansion → Type 0
WritesItsLength none = ⊥
WritesItsLength (some e) = e.len ≡ length e.dst

after_round-WritesItsLength :
    (r : Round) (e : Option Expansion)
    → r.len ≡ length r.dst
    → WritesItsLength e
    → WritesItsLength (after_round r e)
after_round-WritesItsLength r none h k = k
after_round-WritesItsLength r (some e) h k =
    let a = length-append r.dst e.dst in omega (arith, h, k, a)

expand_loop-WritesItsLength :
    (fuel : ℕ) (f : Bytes → Option Substvar) (key : Bytes) (slashify seen : Bool) (s : Bytes)
    → length s ≤ fuel
    → WritesItsLength (expand_loop fuel f key slashify seen s)
unfolding expand_loop
expand_loop-WritesItsLength fuel f key slashify seen [] h = refl
expand_loop-WritesItsLength zero f key slashify seen (c ∷ s) h = absurd (omega (arith, h))
expand_loop-WritesItsLength (suc fuel) f key slashify seen (c ∷ s) h =
    let counted = expand_step-IsCounted f key slashify seen c s in
    elim (Option-cases (expand_step f key slashify seen c s)) [
      | inl e ↦ rw (e, WritesItsLength) refl
      | inr (r, e) ↦
          let (k, l) : IsCounted s (some r) = rw e at counted in
          rw (e, WritesItsLength)
            (after_round-WritesItsLength r (expand_loop fuel f key slashify r.seen_colons r.src) k (
              expand_loop-WritesItsLength fuel f key slashify r.seen_colons r.src
                (omega (arith, h, l))))
    ]

-- The expansion ends within its fuel, whatever text, key and values of macros, and the length that
-- `expandsunent` returns, also where it only counts, is that of the text that it writes.
pub expandsunent-length :
    (src key : Bytes) (findvar : Bytes → Option Substvar) (slashify_colons : Bool)
    → WritesItsLength (expandsunent src key findvar slashify_colons)
unfolding expandsunent
expandsunent-length src key findvar slashify_colons =
    expand_loop-WritesItsLength (length src) findvar key slashify_colons false src (omega arith)
