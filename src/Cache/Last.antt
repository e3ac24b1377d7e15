-- ===== src/Cache/Last.antt =====
-- lib/cache.c: the last entry of a key on a chain.
use autofs.Prelude.{
  ℕ, zero, suc, ◌≤◌, true, List, [], ◌∷◌, ◌++◌, some, ◌≡◌, refl, sym, ◌∙◌, arith, if◌then◌else◌,
  inl, inr, Bool-cases, All, length,
}
use autofs.Text.{Bytes, equal, equal_iff}
use autofs.Cache.{Mapent, is_primary, find_key, cache_lookup_key_next}
use autofs.Cache.Write.{last_loop}
use autofs.Cache.NextKey.{key_next_loop-find_key}

-- The entries of a key in a list are primary.
abbrev pub PrimaryOf : Bytes → List Mapent → Type 0
PrimaryOf key = All (λ me. equal key me.key ≡ true → is_primary me ≡ true)

pub find_key-split :
    (key : Bytes) (pre : List Mapent) (x : Mapent) (post : List Mapent)
    → x.key ≡ key
    → (me : Mapent) × (next : List Mapent) × (find_key key (pre ++ x ∷ post) ≡ me ∷ next)
unfolding find_key
find_key-split key [] x post e = (x, post, rw ((equal_iff key x.key).1 (sym e)) refl)
find_key-split key (p ∷ pre) x post e = elim (Bool-cases (equal key p.key)) [
  | inl s ↦ (p, pre ++ x ∷ post, rw s refl)
  | inr d ↦ let (me, next, f) = find_key-split key pre x post e in (me, next, rw d f)
]

length-find_key : (key : Bytes) (c : List Mapent) → length (find_key key c) ≤ length c
unfolding find_key
length-find_key key [] = omega arith
length-find_key key (me ∷ next) = ground (arith, length-find_key key next)

last_loop_stop :
    (fuel : ℕ) (me : Mapent) (next : List Mapent)
    → is_primary me ≡ true
    → find_key me.key next ≡ []
    → last_loop (suc fuel) (me ∷ next) ≡ some (me ∷ next)
unfolding last_loop cache_lookup_key_next
last_loop_stop fuel me next p e =
    rw (key_next_loop-find_key (length (me ∷ next)) me next p (omega arith), e) refl

last_loop_go :
    (fuel : ℕ) (me this : Mapent) (next rest : List Mapent)
    → is_primary me ≡ true
    → find_key me.key next ≡ this ∷ rest
    → last_loop (suc fuel) (me ∷ next) ≡ last_loop fuel (this ∷ rest)
unfolding last_loop cache_lookup_key_next
last_loop_go fuel me this next rest p e =
    rw (key_next_loop-find_key (length (me ∷ next)) me next p (omega arith), e) refl

pub find_key_cons :
    (key : Bytes) (me : Mapent) (next : List Mapent)
    → find_key key (me ∷ next) ≡ (if equal key me.key then me ∷ next else find_key key next)
unfolding find_key
find_key_cons key me next = refl

through :
    (fuel : ℕ) (q : Mapent) (key : Bytes) (rest end : List Mapent)
    → is_primary q ≡ true
    → key ≡ q.key
    → ((me : Mapent) × (next : List Mapent) × (find_key key rest ≡ me ∷ next))
    → length (find_key key rest) ≤ length rest
    → ((g : ℕ) → length (find_key key rest) ≤ g → last_loop g (find_key key rest) ≡ some end)
    → suc (length rest) ≤ fuel
    → last_loop fuel (q ∷ rest) ≡ some end
through zero q key rest end p k found short later f = absurd (omega arith)
through (suc fuel) q key rest end p k (me, next, found) short later f =
    last_loop_go fuel q me rest next p (rw (← k) found) ∙ rw (← found) (later fuel (omega arith))

-- From the first entry of a key the loop comes to the last.
pub last_loop-split :
    (pre : List Mapent) (fuel : ℕ) (key : Bytes) (x : Mapent) (post : List Mapent)
    → x.key ≡ key
    → is_primary x ≡ true
    → find_key key post ≡ []
    → PrimaryOf key pre
    → length (find_key key (pre ++ x ∷ post)) ≤ fuel
    → last_loop fuel (find_key key (pre ++ x ∷ post)) ≡ some (x ∷ post)
last_loop-split [] zero key x post e p n a f =
    absurd (no_fuel (rw (find_key_cons key x post, (equal_iff key x.key).1 (sym e)) at f))
  where
    no_fuel : suc (length post) ≤ 0 → ⊥
    no_fuel h = omega arith
last_loop-split [] (suc fuel) key x post e p n a f =
    rw (find_key_cons key x post, (equal_iff key x.key).1 (sym e))
      (last_loop_stop fuel x post p (rw e n))
last_loop-split (q ∷ pre) fuel key x post e p n a f = elim (Bool-cases (equal key q.key)) [
  | inl s ↦
      let here : find_key key (q ∷ (pre ++ x ∷ post)) ≡ q ∷ (pre ++ x ∷ post) =
        rw (find_key_cons key q (pre ++ x ∷ post), s) refl in
      rw here (
        through fuel q key (pre ++ x ∷ post) (x ∷ post) (a.0 s) ((equal_iff key q.key).0 s)
          (find_key-split key pre x post e) (length-find_key key (pre ++ x ∷ post))
          (λ g. last_loop-split pre g key x post e p n a.1) (rw here at f))
  | inr d ↦
      let there : find_key key (q ∷ (pre ++ x ∷ post)) ≡ find_key key (pre ++ x ∷ post) =
        rw (find_key_cons key q (pre ++ x ∷ post), d) refl in
      rw there (last_loop-split pre fuel key x post e p n a.1 (rw there at f))
]
