-- ===== src/ParseSun/Offsets/Rounds.antt =====
-- modules/parse_sun.c: the loop over the offsets ends.
use autofs.Prelude.{
  ℕ, zero, suc, ◌+◌, ◌≤◌, ◌<◌, Bool, true, not, ◌||◌, List, [], ◌∷◌, ◌++◌, subst, Option, none,
  some, ◌≡◌, refl, arith, ◌==◌, length, length-drop, if_both, Bool-cases, inl, inr, ltb,
}
use mathlib.Core.Option.{some_inj}
use autofs.Text.{Bytes}
use autofs.Cache.{Cache}
use autofs.Cache.Write.{Che}
use autofs.Cache.Source.{HasSource, Updated, cache_update_offset-Updated}
use autofs.Cache.Update.{cache_update_offset}
use autofs.ParseSubs.Quotes.{skipspace}
use autofs.ParseSubs.Words.{isblank}
use autofs.ParseSun.Entry.{Outcome, Entry, done, starts_with, parse_mapent}
use autofs.ParseSun.Entry.Ends.{Ends, and_then-Ends, skipspace-le, parse_mapent-Ends}
use autofs.ParseSun.Entry.Locations.{Returns, and_then-Returns, any_outcome}
use autofs.ParseSun.Entry.Behind.{SrcAtMost, parse_mapent-le}
use autofs.ParseSun.Offsets.Span.{behind, span_quoted, or_undefined, span_loop, span_space}
use autofs.ParseSun.Offsets.{
  Work, Store, is_refused_offset, store_offset, update_offset_entry, listed, offset_mapent,
  starts_offset, take_offset, Multi, add_offset, unless_zero, or_give_up, offsets_loop, offset_key,
  text_of, options_len, mapent_max_len,
}

abbrev IsBehind : ℕ → Option (Bytes × ℕ) → Type 0
IsBehind n none = Unit
IsBehind n (some r) = length r.0 < n

behind-IsBehind : (s : Bytes) (len : ℕ) → IsBehind (suc (length s)) (behind s len)
behind-IsBehind [] len = tt
behind-IsBehind (c ∷ s) len = omega arith

bound_grows : (n : ℕ) (o : Option (Bytes × ℕ)) → IsBehind n o → IsBehind (suc n) o
bound_grows n none h = tt
bound_grows n (some r) h = omega (arith, h)

span_quoted-IsBehind : (p : Bytes) (len maxlen : ℕ) → IsBehind (length p) (span_quoted p len maxlen)
unfolding span_quoted
span_quoted-IsBehind [] len maxlen = tt
span_quoted-IsBehind (c ∷ s) len maxlen =
    if_both (IsBehind (length (c ∷ s))) (not (ltb len maxlen) || starts_with b'"' s)
      (λ e. behind-IsBehind s (len + 2))
      (λ e.
        bound_grows (length s) (span_quoted s (len + 1) maxlen)
          (span_quoted-IsBehind s (len + 1) maxlen))

or_undefined-Ends :
    (n : ℕ) (o : Option (Bytes × ℕ)) (f : Bytes × ℕ → Outcome ℕ)
    → IsBehind n o
    → ((r : Bytes × ℕ) → length r.0 < n → Ends (f r))
    → Ends (or_undefined o f)
or_undefined-Ends n none f h k = tt
or_undefined-Ends n (some r) f h k = k r h

span_loop-Ends :
    (fuel : ℕ) (p : Bytes) (len maxlen : ℕ) → length p ≤ fuel → Ends (span_loop fuel p len maxlen)
unfolding span_loop
span_loop-Ends fuel [] len maxlen h = tt
span_loop-Ends zero (c ∷ s) len maxlen h = absurd (omega (arith, h))
span_loop-Ends (suc fuel) (c ∷ s) len maxlen h =
    let next : (r : Bytes × ℕ)
        → length r.0 < suc (length s)
        → Ends (span_loop fuel r.0 r.1 maxlen) =
      λ r k. span_loop-Ends fuel r.0 r.1 maxlen (omega (arith, h, k)) in
    elim (Bool-cases (isblank c || not (ltb len maxlen))) [
      | inl e ↦ rw (e, Ends) tt
      | inr e ↦ elim (Bool-cases (c == b'"')) [
        | inl f ↦
            rw (e, f, Ends)
              (or_undefined-Ends (suc (length s)) (span_quoted (c ∷ s) len maxlen) _
                (span_quoted-IsBehind (c ∷ s) len maxlen) next)
        | inr f ↦ elim (Bool-cases (c == b'\\')) [
          | inl g ↦
              rw (e, f, g, Ends)
                (or_undefined-Ends (suc (length s)) (behind s (len + 2)) _
                  (behind-IsBehind s (len + 2)) next)
          | inr g ↦ rw (e, f, g, Ends) (span_loop-Ends fuel s (len + 1) maxlen (omega (arith, h)))
        ]
      ]
    ]

take_offset-Ends : (signed : Bool) (p : Bytes) → Ends (take_offset signed p)
unfolding take_offset span_space
take_offset-Ends signed p =
    if_both Ends (not (starts_offset p)) (λ e. tt)
      (λ e.
        and_then-Ends (span_space p (length p + 1)) _
          (span_loop-Ends (length p) p 0 (length p + 1) (omega arith)) (λ l e'. tt))

-- The text behind an offset is not longer.
abbrev AtMostBehind : ℕ → Option Bytes × Bytes → Type 0
AtMostBehind n r = length r.1 ≤ n

take_offset-le :
    (signed : Bool) (p : Bytes) → Returns (AtMostBehind (length p)) (take_offset signed p)
unfolding take_offset
take_offset-le signed p =
    if_both (Returns (AtMostBehind (length p))) (not (starts_offset p)) (λ e. omega arith)
      (λ e.
        and_then-Returns (λ l. Unit) (AtMostBehind (length p)) (span_space p (length p + 1)) _
          (any_outcome (span_space p (length p + 1)))
          (λ l _. let d = length-drop l p in omega (arith, d)))

-- The cache of the store has entries of one source only.
abbrev OneSource : ℕ → Bool × Store → Type 0
OneSource ms u = HasSource ms u.1.mc

-- Ends, and leaves such a cache.
abbrev EndsIn : ℕ → Outcome (Bool × Store) → Type 0
EndsIn ms o = Ends o × Returns (OneSource ms) o

listed-EndsIn :
    (ms : ℕ) (k : Bytes) (l : List Work) (o : Option (Che × Cache))
    → Updated ms o
    → EndsIn ms (listed k l o)
listed-EndsIn ms k l none h = absurd h
listed-EndsIn ms k l (some r) h = (tt, h)

store_offset-EndsIn :
    (ms addr : ℕ) (s : Store) (name m_key : Bytes) (o loc : Option Bytes) (age : ℕ)
    → HasSource ms s.mc
    → EndsIn ms (store_offset addr s name m_key o loc age)
unfolding store_offset
store_offset-EndsIn ms addr s name m_key none loc age h = (tt, tt)
store_offset-EndsIn ms addr s name m_key (some o) loc age h =
    if_both (EndsIn ms) (ltb mapent_max_len (length (text_of loc) + options_len o)) (λ e. (tt, h))
      (λ e.
        listed-EndsIn ms m_key s.offsets
          (cache_update_offset true addr s.mc name m_key (offset_mapent o loc) age)
          (cache_update_offset-Updated true addr s.mc ms name m_key (offset_mapent o loc) age h))

add_offset-EndsIn :
    (ms : ℕ) (env : Multi) (fuel : ℕ) (s : Store) (m_offset : Bytes) (e : Entry)
    → HasSource ms s.mc
    → EndsIn ms (add_offset env fuel s m_offset e)
unfolding add_offset update_offset_entry
add_offset-EndsIn ms env fuel s m_offset e h =
    if_both (EndsIn ms) (is_refused_offset env.type env.m_root m_offset e.location) (λ _. (tt, h))
      (λ _.
        store_offset-EndsIn ms (env.addr fuel) s env.name (env.m_root ++ offset_key m_offset)
          e.options e.location env.age h)

or_give_up-Ends :
    {A : Type 0} (s : Store) (o : Option A) (f : A → Outcome (Bool × Store))
    → ((a : A) → o ≡ some a → Ends (f a))
    → Ends (or_give_up s o f)
or_give_up-Ends s none f h = tt
or_give_up-Ends s (some a) f h = h a refl

-- An outcome that is known, with what is known of all.
known : {A : Type 0} (P : A → Type 0) (o : Outcome A) (a : A) → Returns P o → o ≡ done a → P a
known P o a h e = rw e at h

unless_zero-less :
    (q : Bytes) (o : Option Entry) (e : Entry)
    → SrcAtMost (length q) o
    → unless_zero q o ≡ some e
    → length e.src < length q
unless_zero-less q none e h k = absurd (ground arith)
unless_zero-less q (some d) e h k = elim (Bool-cases (length d.src == length q)) [
  | inl f ↦ let l : none ≡ some e = rw f at k in absurd (ground arith)
  | inr f ↦
      let l : some d ≡ some e = rw f at k in
      subst (λ (x : Entry). length x.src < length q) (some_inj.0 l) (ground arith)
]

pub offsets_loop-Ends :
    (ms : ℕ) (env : Multi) (fuel : ℕ) (p : Bytes) (s : Store)
    → HasSource ms s.mc
    → length p < fuel
    → Ends (offsets_loop env fuel p s)
unfolding offsets_loop
offsets_loop-Ends ms env zero p s src h = absurd (omega (arith, h))
offsets_loop-Ends ms env (suc fuel) p s src h =
    and_then-Ends (take_offset env.signed p) _ (take_offset-Ends env.signed p) (λ o e.
      or_give_up-Ends s o.0 _ (λ m_offset _.
        and_then-Ends (parse_mapent (skipspace o.1) env.options) _
          (parse_mapent-Ends (skipspace o.1) env.options)
          (λ parsed e'. or_give_up-Ends s (unless_zero (skipspace o.1) parsed) _ (λ d f.
            and_then-Ends (add_offset env fuel s m_offset d) _
              (add_offset-EndsIn ms env fuel s m_offset d src).0
              (λ u e''. elim (Bool-cases u.0) [
                | inr g ↦ rw (g, Ends) tt
                | inl g ↦ elim (Bool-cases (starts_offset (skipspace d.src))) [
                  | inr i ↦ rw (g, i, Ends) tt
                  | inl i ↦
                      let a =
                        known (AtMostBehind (length p)) (take_offset env.signed p) o
                          (take_offset-le env.signed p) e in
                      let b = skipspace-le o.1 in
                      let c =
                        unless_zero-less (skipspace o.1) parsed d
                          (known (SrcAtMost (length (skipspace o.1)))
                            (parse_mapent (skipspace o.1) env.options) parsed
                            (parse_mapent-le (skipspace o.1) env.options) e')
                          f in
                      let j = skipspace-le d.src in
                      rw (g, i, Ends)
                        (offsets_loop-Ends ms env fuel (skipspace d.src) u.1
                          (known (OneSource ms) (add_offset env fuel s m_offset d) u
                            (add_offset-EndsIn ms env fuel s m_offset d src).1 e'')
                          (omega (arith, a, b, c, j, h)))
                ]
              ])))))
