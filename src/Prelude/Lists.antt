-- ===== src/Prelude/Lists.antt =====
-- Lists measured and indexed by native numbers, under the library's names.
use Prim.Native.Nat.{ℕ, zero, suc, ◌+◌, ◌-◌, ◌<◌}
use mathlib.Core.Path.{◌≡◌, refl, ap}
use mathlib.Core.Logic.{◌≢◌, ◌⊎◌}
use mathlib.Core.List.{List, [], ◌∷◌, ◌++◌}
use mathlib.Core.Option.{Option, none, some}
use native.Mathlib.Omega.{arith}

module _ {ℓ} {A : Type ℓ} where
  abbrev pub length : List A → ℕ
  length [] = 0
  length (x ∷ xs) = suc (length xs)

  abbrev pub get_elem? : List A → ℕ → Option A
  get_elem? [] i = none
  get_elem? (x ∷ xs) zero = some x
  get_elem? (x ∷ xs) (suc i) = get_elem? xs i

  pub length-append : (xs ys : List A) → length (xs ++ ys) ≡ length xs + length ys
  length-append [] ys = omega arith
  length-append (x ∷ xs) ys = omega (arith, length-append xs ys)

-- Every element satisfies `P`.
abbrev pub All {ℓ κ} : {A : Type ℓ} → (A → Type κ) → List A → Type κ
All P [] = Unit
All P (x ∷ xs) = P x × All P xs

module _ {ℓ} {A : Type ℓ} where
  -- A write out of bounds changes nothing.
  abbrev pub modify : (A → A) → ℕ → List A → List A
  modify f i [] = []
  modify f zero (x ∷ xs) = f x ∷ xs
  modify f (suc i) (x ∷ xs) = x ∷ modify f i xs

  abbrev pub erase_idx : ℕ → List A → List A
  erase_idx i [] = []
  erase_idx zero (x ∷ xs) = xs
  erase_idx (suc i) (x ∷ xs) = x ∷ erase_idx i xs

module _ {ℓ} {A : Type ℓ} where
  abbrev pub get_or : List A → ℕ → A → A
  get_or [] i d = d
  get_or (x ∷ xs) zero d = x
  get_or (x ∷ xs) (suc i) d = get_or xs i d

  abbrev pub drop : ℕ → List A → List A
  drop zero xs = xs
  drop (suc n) [] = []
  drop (suc n) (x ∷ xs) = drop n xs

  abbrev pub take : ℕ → List A → List A
  take zero xs = []
  take (suc n) [] = []
  take (suc n) (x ∷ xs) = x ∷ take n xs

  abbrev pub replicate : ℕ → A → List A
  replicate zero a = []
  replicate (suc n) a = a ∷ replicate n a

  pub length-modify : (f : A → A) (i : ℕ) (xs : List A) → length (modify f i xs) ≡ length xs
  length-modify f i [] = refl
  length-modify f zero (x ∷ xs) = refl
  length-modify f (suc i) (x ∷ xs) = omega (arith, length-modify f i xs)

  pub get_or-modify_self :
      (f : A → A) (i : ℕ) (xs : List A) (d : A)
      → i < length xs
      → get_or (modify f i xs) i d ≡ f (get_or xs i d)
  get_or-modify_self f i [] d h = elim h [ ]
  get_or-modify_self f zero (x ∷ xs) d h = refl
  get_or-modify_self f (suc i) (x ∷ xs) d h = get_or-modify_self f i xs d (omega arith)

  pub get_or-modify_ne :
      (f : A → A) (i j : ℕ) (xs : List A) (d : A)
      → i ≢ j
      → get_or (modify f i xs) j d ≡ get_or xs j d
  get_or-modify_ne f i j [] d h = refl
  get_or-modify_ne f zero zero (x ∷ xs) d h = absurd (h refl)
  get_or-modify_ne f zero (suc j) (x ∷ xs) d h = refl
  get_or-modify_ne f (suc i) zero (x ∷ xs) d h = refl
  get_or-modify_ne f (suc i) (suc j) (x ∷ xs) d h = get_or-modify_ne f i j xs d (λ e. h (ap suc e))

  pub take-length : (xs : List A) → take (length xs) xs ≡ xs
  take-length [] = refl
  take-length (x ∷ xs) = ap (◌∷◌ x) (take-length xs)

  pub take-append : (xs ys : List A) → take (length xs) (xs ++ ys) ≡ xs
  take-append [] ys = refl
  take-append (x ∷ xs) ys = ap (◌∷◌ x) (take-append xs ys)

  pub drop-append : (xs ys : List A) → drop (length xs) (xs ++ ys) ≡ ys
  drop-append [] ys = refl
  drop-append (x ∷ xs) ys = drop-append xs ys

  pub length-drop : (n : ℕ) (xs : List A) → length (drop n xs) ≡ length xs - n
  length-drop zero xs = omega arith
  length-drop (suc n) [] = omega arith
  length-drop (suc n) (x ∷ xs) = omega (arith, length-drop n xs)

-- An element stands in a list.
abbrev pub In : {A : Type 0} → A → List A → Type 0
In a [] = ⊥
In a (x ∷ xs) = (x ≡ a) ⊎ In a xs
