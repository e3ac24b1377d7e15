-- ===== src/ParseSun/Offsets/Span.antt =====
-- lib/parse_subs.c: the length of an offset. `none` and `undefined` stand for reading past the end of
-- the text.
use autofs.Prelude.{
  ℕ, zero, suc, ◌+◌, true, false, not, ◌||◌, [], ◌∷◌, Option, none, some, ◌==◌, if◌then◌else◌, ltb,
  length,
}
use autofs.Text.{Bytes}
use autofs.ParseSubs.Words.{isblank}
use autofs.ParseSun.Entry.{Outcome, no_fuel, undefined, done, starts_with}

-- `p++`
abbrev pub behind : Bytes → ℕ → Option (Bytes × ℕ)
behind [] len = none
behind (_ ∷ s) len = some (s, len)

-- The inner loop, and the step behind it: the text behind the quote, and `len`.
unfoldable pub span_quoted : Bytes → (len maxlen : ℕ) → Option (Bytes × ℕ)
span_quoted [] len maxlen = none
span_quoted (c ∷ s) len maxlen =
    let rest = span_quoted s (len + 1) maxlen in
    if not (ltb len maxlen) || starts_with b'"' s then behind s (len + 2) else rest

abbrev pub or_undefined {ℓ κ} : {A : Type ℓ} → {B : Type κ} → Option A → (A → Outcome B) → Outcome B
or_undefined none f = undefined
or_undefined (some a) f = f a

-- The loop, on fuel.
unfoldable pub span_loop : ℕ → Bytes → (len maxlen : ℕ) → Outcome ℕ
span_loop fuel [] len maxlen = done len
span_loop zero (c ∷ s) len maxlen = no_fuel
span_loop (suc fuel) (c ∷ s) len maxlen = elim (isblank c || not (ltb len maxlen)) [
  | true ↦ done len
  | false ↦ elim (c == b'"') [
    | true ↦ or_undefined (span_quoted (c ∷ s) len maxlen) (λ r. span_loop fuel r.0 r.1 maxlen)
    | false ↦ elim (c == b'\\') [
      | true ↦ or_undefined (behind s (len + 2)) (λ r. span_loop fuel r.0 r.1 maxlen)
      | false ↦ span_loop fuel s (len + 1) maxlen
    ]
  ]
]

unfoldable pub span_space : Bytes → (maxlen : ℕ) → Outcome ℕ
span_space str maxlen = span_loop (length str) str 0 maxlen
