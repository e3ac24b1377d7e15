-- ===== src/Cache/Walk.antt =====
-- lib/cache.c: walks by `cache_enumerate`.
use autofs.Prelude.{
  ℕ, zero, suc, ◌+◌, ◌≤◌, ◌<◌, List, [], ◌∷◌, ◌++◌, ◌≡◌, refl, ap, arith, if◌then◌else◌, inl, inr,
  Bool-cases, All, ltb, length, drop,
}
use autofs.Text.{hash}
use autofs.Cache.{
  if_null, Mapent, Cache, is_primary, next_primary, first_of_chains, cache_lookup_first,
  cache_lookup_next, cache_enumerate,
}

-- The entries met from a pointer on, as in `while (me) { ...; me = cache_enumerate(mc, me); }`.
unfoldable pub walk : ℕ → Cache → List Mapent → List Mapent
walk zero mc me = []
walk (suc fuel) mc [] = []
walk (suc fuel) mc (me ∷ next) = me ∷ walk fuel mc (cache_enumerate mc (me ∷ next))

abbrev pub primaries : List Mapent → List Mapent
primaries [] = []
primaries (me ∷ next) = if is_primary me then me ∷ primaries next else primaries next

abbrev pub all_primaries : List (List Mapent) → List Mapent
all_primaries [] = []
all_primaries (c ∷ rest) = primaries c ++ all_primaries rest

abbrev pub entries : List (List Mapent) → ℕ
entries [] = 0
entries (c ∷ rest) = length c + entries rest

-- Every entry is on the chain of its key.
abbrev pub ArePlaced : ℕ → ℕ → List (List Mapent) → Type 0
ArePlaced size i [] = Unit
ArePlaced size i (c ∷ rest) = All (λ me. hash me.key size ≡ i) c × ArePlaced size (suc i) rest

pub record IsCache (mc : Cache) : Type 0 where
  pub size_pos : 0 < mc.size
  pub length_hash : length mc.hash ≡ mc.size
  pub placed : ArePlaced mc.size 0 mc.hash

-- The pointer found in the rest of a chain, or else in the chains behind it.
continue : List Mapent → List (List Mapent) → List Mapent
continue c rest = if_null (next_primary c) (first_of_chains rest)

drop-length : (n : ℕ) (l : List (List Mapent)) → length l ≤ n → drop n l ≡ []
drop-length zero [] h = refl
drop-length zero (c ∷ l) h = absurd (omega arith)
drop-length (suc n) [] h = refl
drop-length (suc n) (c ∷ l) h = drop-length n l (omega arith)

drop-suc :
    (n : ℕ) (c : List Mapent) (l m : List (List Mapent)) → drop n m ≡ c ∷ l → drop (suc n) m ≡ l
drop-suc zero c l [] e = cc
drop-suc (suc n) c l [] e = cc
drop-suc zero c l (d ∷ m) e = cc
drop-suc (suc n) c l (d ∷ m) e = drop-suc n c l m e

first_of_chains_past :
    (n size : ℕ) (l : List (List Mapent))
    → length l ≡ size
    → (if ltb (n + 1) size then first_of_chains (drop (n + 1) l) else [])
      ≡ first_of_chains (drop (suc n) l)
first_of_chains_past n size l h =
    let one : n + 1 ≡ suc n = omega arith in
    rw one (elim (Bool-cases (ltb (suc n) size)) [
      | inl e ↦ rw e refl
      | inr e ↦ rw (e, drop-length (suc n) l (ground arith)) (unfold first_of_chains in refl)
    ])

cache_lookup_next-continue :
    (mc : Cache) (me : Mapent) (next : List Mapent)
    → length mc.hash ≡ mc.size
    → cache_lookup_next mc (me ∷ next) ≡ continue next (drop (suc (hash me.key mc.size)) mc.hash)
unfolding cache_lookup_next continue
cache_lookup_next-continue mc me next h =
    ap (if_null (next_primary next)) (first_of_chains_past (hash me.key mc.size) mc.size mc.hash h)

walk-nil : (fuel : ℕ) (mc : Cache) → walk fuel mc [] ≡ []
unfolding walk
walk-nil zero mc = refl
walk-nil (suc fuel) mc = refl

walk-cons :
    (fuel : ℕ) (mc : Cache) (me : Mapent) (next : List Mapent)
    → walk (suc fuel) mc (me ∷ next) ≡ me ∷ walk fuel mc (cache_lookup_next mc (me ∷ next))
unfolding walk cache_enumerate
walk-cons fuel mc me next = refl

continue-nil :
    (c : List Mapent) (rest : List (List Mapent)) → continue [] (c ∷ rest) ≡ continue c rest
unfolding continue first_of_chains
continue-nil c rest = refl

continue-cons :
    (me : Mapent) (next : List Mapent) (rest : List (List Mapent))
    → continue (me ∷ next) rest ≡ (if is_primary me then me ∷ next else continue next rest)
unfolding continue next_primary
continue-cons me next rest = elim (Bool-cases (is_primary me)) [
  | inl e ↦ rw e refl
  | inr e ↦ rw e refl
]

walk_from :
    (rest : List (List Mapent)) (c : List Mapent) (fuel i : ℕ) (mc : Cache)
    → length mc.hash ≡ mc.size
    → drop (suc i) mc.hash ≡ rest
    → All (λ me. hash me.key mc.size ≡ i) c
    → ArePlaced mc.size (suc i) rest
    → length c + entries rest ≤ fuel
    → walk fuel mc (continue c rest) ≡ primaries c ++ all_primaries rest
walk_from [] [] fuel i mc h d p q f = unfold continue first_of_chains in walk-nil fuel mc
walk_from (c' ∷ rest) [] fuel i mc h d p q f =
    rw (continue-nil c' rest) (
      walk_from rest c' fuel (suc i) mc h (drop-suc (suc i) c' rest mc.hash d) q.0 q.1
        (omega arith))
walk_from rest (me ∷ next) zero i mc h d p q f = absurd (omega arith)
walk_from rest (me ∷ next) (suc fuel) i mc h d p q f = elim (Bool-cases (is_primary me)) [
  | inl e ↦
      rw
        (
          continue-cons me next rest,
          e,
          walk-cons fuel mc me next,
          cache_lookup_next-continue mc me next h,
          p.0,
          d,
        )
        (ap (◌∷◌ me) (walk_from rest next fuel i mc h d p.1 q (omega arith)))
  | inr e ↦
      rw (continue-cons me next rest, e)
        (walk_from rest next (suc fuel) i mc h d p.1 q (omega arith))
]

start_walk :
    (l : List (List Mapent)) (fuel : ℕ) (mc : Cache)
    → length mc.hash ≡ mc.size
    → mc.hash ≡ l
    → ArePlaced mc.size 0 l
    → entries l ≤ fuel
    → walk fuel mc (first_of_chains l) ≡ all_primaries l
start_walk [] fuel mc h e q f = unfold first_of_chains in walk-nil fuel mc
start_walk (c ∷ rest) fuel mc h e q f =
    rw (← first-continue) (walk_from rest c fuel 0 mc h (rw e refl) q.0 q.1 f)
  where
    first-continue : continue c rest ≡ first_of_chains (c ∷ rest)
    first-continue = unfold continue first_of_chains in refl

-- In a cache whose entries stand on the chains of their keys, a walk from NULL by
-- `cache_enumerate`, with as many rounds as there are entries, meets the primary entries of all
-- chains, each once and in order, and then ends.
pub walk-primaries :
    (fuel : ℕ) (mc : Cache)
    → IsCache mc
    → entries mc.hash ≤ fuel
    → walk fuel mc (cache_enumerate mc []) ≡ all_primaries mc.hash
unfolding cache_enumerate cache_lookup_first
walk-primaries fuel mc inv f = start_walk mc.hash fuel mc inv.length_hash refl inv.placed f
