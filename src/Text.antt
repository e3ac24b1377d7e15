-- ===== src/Text.antt =====
-- C strings, as the lists of their bytes without the final 0, and include/hash.h.
use Prim.Native.Char.{code}
use Prim.Native.String.{String}
use Prim.Native.Nat.{bit_xor}
use autofs.Prelude.{
  ℕ, ◌+◌, ◌*◌, ◌/◌, ◌%◌, ◌^◌, ◌<◌, Bool, true, false, ◌&&◌, List, [], ◌∷◌, ◌≡◌, ◌↔◌, refl, arith,
  ◌==◌, leb, if◌then◌else◌,
}

abbrev pub Bytes : Type 0
Bytes = List ℕ

abbrev pub codes : String → Bytes
codes String.[] = []
codes (String.◌∷◌ c s) = code c ∷ codes s

-- `strcmp(s, t) == 0`
unfoldable pub equal : Bytes → Bytes → Bool
equal [] [] = true
equal (x ∷ s) (y ∷ t) = x == y && equal s t
equal _ _ = false

pub equal_iff : (s t : Bytes) → (equal s t ≡ true) ↔ (s ≡ t)
unfolding equal
equal_iff (x ∷ s) (y ∷ t) = ground (arith, equal_iff s t)
equal_iff _ _ = ground arith

pub equal_refl : (s : Bytes) → equal s s ≡ true
equal_refl s = (equal_iff s s).1 refl

-- `strncmp(s, t, strlen(s)) == 0`
unfoldable pub is_prefix : Bytes → Bytes → Bool
is_prefix [] t = true
is_prefix (x ∷ s) [] = false
is_prefix (x ∷ s) (y ∷ t) = x == y && is_prefix s t

abbrev u32 : ℕ → ℕ
u32 n = n % 2 ^ 32

-- The three lines of the loop of `hash`.
mix : ℕ → ℕ → ℕ
mix hashval c =
    let added = u32 (hashval + c) in
    let shifted = u32 (added + u32 (added * 2 ^ 10)) in bit_xor shifted (shifted / 2 ^ 6)

mix_all : ℕ → Bytes → ℕ
unfolding mix
mix_all hashval [] = hashval
mix_all hashval (c ∷ s) = mix_all (mix hashval c) s

unfoldable pub hash : Bytes → ℕ → ℕ
unfolding mix_all
hash key size =
    let mixed = mix_all 0 key in
    let shifted = u32 (mixed + u32 (mixed * 2 ^ 3)) in
    let folded = bit_xor shifted (shifted / 2 ^ 11) in u32 (folded + u32 (folded * 2 ^ 15)) % size

pub hash-lt : (key : Bytes) (size : ℕ) → 0 < size → hash key size < size
unfolding hash
hash-lt key size h = grind arith

abbrev pub tolower : ℕ → ℕ
tolower c = if leb b'A' c && leb c b'Z' then c + 32 else c

unfoldable pub lower : Bytes → Bytes
lower [] = []
lower (c ∷ s) = tolower c ∷ lower s

-- `strcasecmp(s, t) == 0`
unfoldable pub equal_nocase : Bytes → Bytes → Bool
equal_nocase s t = equal (lower s) (lower t)

pub equal_nocase_iff : (s t : Bytes) → (equal_nocase s t ≡ true) ↔ (lower s ≡ lower t)
unfolding equal_nocase
equal_nocase_iff s t = equal_iff (lower s) (lower t)

pub equal_nocase_refl : (s : Bytes) → equal_nocase s s ≡ true
unfolding equal_nocase
equal_nocase_refl s = equal_refl (lower s)
