-- ===== src/ParseSubs/Sanitize.antt =====
-- lib/parse_subs.c: what `sanitize_path` returns.
use mathlib.Core.Option
use autofs.Prelude.{
  ℕ, zero, suc, ◌≤◌, Bool, true, false, not, ◌&&◌, [], ◌∷◌, Option, none, some, ◌≡◌, refl, ap,
  arith, ◌==◌, if_both, All, length,
}
use autofs.Text.{Bytes}
use autofs.ParseSubs.{
  LookupType, is_control, Scan, reject, pass, copy, scan, scan_path, unquoted, is_refused,
  strip_slash, sanitize_path,
}

-- The result, if there is one, has at most `n` bytes.
abbrev pub AtMost : ℕ → Option Bytes → Type 0
AtMost n none = Unit
AtMost n (some s) = length s ≤ n

map-AtMost : (c n : ℕ) (o : Option Bytes) → AtMost n o → AtMost (suc n) (Option.map (◌∷◌ c) o)
map-AtMost c n none h = tt
map-AtMost c n (some s) h = omega arith

suc-AtMost : (n : ℕ) (o : Option Bytes) → AtMost n o → AtMost (suc n) o
suc-AtMost n none h = tt
suc-AtMost n (some s) h = omega arith

scan_path-AtMost :
    (signed : Bool) (len : ℕ) (s : Bytes) (seen quote dquote : Bool)
    → AtMost len (scan_path signed len s seen quote dquote)
unfolding scan_path
scan_path-AtMost signed zero s seen quote true = tt
scan_path-AtMost signed zero s seen quote false = omega arith
scan_path-AtMost signed (suc len) [] seen quote dquote = tt
scan_path-AtMost signed (suc len) (c ∷ s) seen quote dquote =
    scanned (λ a q d. scan_path-AtMost signed len s a q d) (scan signed c seen quote dquote)
  where
    scanned :
        ((a q d : Bool) → AtMost len (scan_path signed len s a q d))
        → (r : Scan)
        → AtMost (suc len) (elim r [
          | reject ↦ none
          | pass a q d ↦ scan_path signed len s a q d
          | copy a q d ↦ Option.map (◌∷◌ c) (scan_path signed len s a q d)
        ])
    scanned rest reject = tt
    scanned rest (pass a q d) = suc-AtMost len _ (rest a q d)
    scanned rest (copy a q d) = map-AtMost c len _ (rest a q d)

strip_slash_lem : (origlen : ℕ) (s : Bytes) → strip_slash [] origlen s ≡ s
unfolding strip_slash
strip_slash_lem origlen s = refl

strip-AtMost :
    (n origlen : ℕ) (o : Option Bytes)
    → AtMost n o
    → AtMost n (Option.map (strip_slash [] origlen) o)
strip-AtMost n origlen none h = tt
strip-AtMost n origlen (some s) h = rw (strip_slash_lem origlen s) h

-- The copy fits the memory that is asked for: what `sanitize_path` returns has at most `origlen` bytes.
pub sanitize_path-AtMost :
    (alloc signed : Bool) (path : Bytes) (origlen : ℕ) (type : LookupType)
    → AtMost origlen (sanitize_path alloc signed path origlen type)
unfolding sanitize_path
sanitize_path-AtMost alloc signed path origlen type =
    if_both (AtMost origlen) (is_refused type (unquoted path)) (λ _. tt)
      (λ _.
        if_both (AtMost origlen) (not alloc) (λ _. tt)
          (λ _.
            strip-AtMost origlen origlen _
              (scan_path-AtMost signed origlen path false false false)))

-- Neither a control character nor a quote nor a backslash.
abbrev pub is_plain : Bool → ℕ → Bool
is_plain signed c = not (is_control signed c) && (not (c == b'"') && not (c == b'\\'))

-- No slash follows a slash; `seen` says whether one stands before.
abbrev pub is_single : Bool → Bytes → Bool
is_single seen [] = true
is_single seen (c ∷ s) = not (seen && c == b'/') && is_single (c == b'/') s

scan-plain :
    (signed : Bool) (c : ℕ) (seen : Bool)
    → is_plain signed c ≡ true
    → (seen && c == b'/') ≡ false
    → scan signed c seen false false ≡ copy (c == b'/') false false
unfolding scan
scan-plain signed c seen p n = ground arith

scan_path-plain :
    (signed : Bool) (s : Bytes) (seen : Bool)
    → All (λ c. is_plain signed c ≡ true) s
    → is_single seen s ≡ true
    → scan_path signed (length s) s seen false false ≡ some s
unfolding scan_path
scan_path-plain signed [] seen p n = refl
scan_path-plain signed (c ∷ s) seen p n =
    rw
      (
        scan-plain signed c seen p.0 (ground arith),
        scan_path,
        scan_path-plain signed s (c == b'/') p.1 (ground arith),
      )
      refl

-- A path that the type allows, of plain characters and with no slash behind a slash, comes back as it
-- was, also with the slash that it may end in.
pub sanitize_path_plain :
    (signed : Bool) (path : Bytes) (type : LookupType)
    → is_refused type (unquoted path) ≡ false
    → All (λ c. is_plain signed c ≡ true) path
    → is_single false path ≡ true
    → sanitize_path true signed path (length path) type ≡ some path
unfolding sanitize_path
sanitize_path_plain signed path type a p n =
    rw (a, scan_path-plain signed path false p n) (ap some (strip_slash_lem (length path) path))
