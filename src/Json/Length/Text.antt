-- ===== src/Json/Length/Text.antt =====
-- What the white space, the literals and the strings of src/json.c leave of the text.
use asterism_astools.Prelude.{ℕ, zero, suc, ◌*◌, ◌^◌, ◌≤◌, ◌<◌, ◌≡◌, refl, ◌⊎◌, inl, inr}
use asterism_astools.Prelude.{not, ◌||◌, Option, none, some, [], ◌∷◌, arith}
use asterism_astools.Prelude.{ltb, ◌==◌, Option-cases}
use asterism_astools.Prelude.{length, drop, length-drop}
use asterism_astools.Prelude.{Bytes, within}
use asterism_astools.Prelude.{on_if}
use std.Path.{subst}
use Prim.Native.Nat.{bit_or}
use asterism_astools.Utf8.{utf8_seq}
use asterism_astools.Json.Parser.{
  skip_ws, literal, hex_digit, hex_loop, Piece, closed, bytes, bad, low_surrogate, surrogate,
  unicode, escape, plain, string_step, string_loop,
}

pub length-skip_ws : (s : Bytes) → length (skip_ws s) ≤ length s
unfolding skip_ws
length-skip_ws [] = omega arith
length-skip_ws (c ∷ s) = ground (arith, length-skip_ws s)

pub literal-le : (lit s rest : Bytes) → literal lit s ≡ some rest → length rest ≤ length s
unfolding literal
literal-le [] s rest e = ground arith
literal-le (l ∷ lit) [] rest e = ground arith
literal-le (l ∷ lit) (c ∷ s) rest e = ground (arith, literal-le lit s rest)

pub hex_loop-le :
    (n v w : ℕ) (s rest : Bytes) → hex_loop n v s ≡ some (w, rest) → length rest ≤ length s
unfolding hex_loop
hex_loop-le zero v w s rest e = ground arith
hex_loop-le (suc n) v w [] rest e = ground arith
hex_loop-le (suc n) v w (c ∷ s) rest e = elim (Option-cases (hex_digit c)) [
  | inl no_digit ↦ ground (arith, no_digit)
  | inr (d, found) ↦ ground (arith, found, hex_loop-le n (bit_or (v * 2 ^ 4) d) w s rest)
]

-- A round of the loop of a string that does not fail leaves less than it had.
unfoldable Closer : ℕ → Piece → Type 0
Closer n bad = Unit {0}
Closer n (closed rest) = length rest < n
Closer n (bytes piece rest) = length rest < n

fails : (n : ℕ) → Closer n bad
unfolding Closer
fails n = tt

leaves : (n : ℕ) (piece rest : Bytes) → length rest < n → Closer n (bytes piece rest)
unfolding Closer
leaves n piece rest h = h

low_surrogate-Closer :
    (n cp : ℕ) (o : Option (ℕ × Bytes))
    → ((lo : ℕ) (rest : Bytes) → o ≡ some (lo, rest) → length rest < n)
    → Closer n (low_surrogate cp o)
unfolding low_surrogate
low_surrogate-Closer n cp none h = fails n
low_surrogate-Closer n cp (some (lo, rest)) h =
    on_if (Closer n) (not (within 0xDC00 0xDFFF lo)) _ _ (λ e. fails n)
      λ e. leaves n _ rest (h lo rest refl)

surrogate-Closer : (n cp : ℕ) (s : Bytes) → length s < n → Closer n (surrogate cp s)
unfolding surrogate
surrogate-Closer n cp [] h = fails n
surrogate-Closer n cp (a ∷ []) h = fails n
surrogate-Closer n cp (a ∷ b ∷ s) h =
    on_if (Closer n) (not (a == b'\\') || not (b == b'u')) _ _ (λ e. fails n)
      λ e.
        low_surrogate-Closer n cp (hex_loop 4 0 s)
          λ lo rest f. omega (arith, hex_loop-le 4 0 lo s rest f)

unicode-Closer :
    (n : ℕ) (o : Option (ℕ × Bytes))
    → ((cp : ℕ) (rest : Bytes) → o ≡ some (cp, rest) → length rest < n)
    → Closer n (unicode o)
unfolding unicode
unicode-Closer n none h = fails n
unicode-Closer n (some (cp, s)) h =
    on_if (Closer n) (within 0xDC00 0xDFFF cp) _ _ (λ e. fails n)
      λ e.
        on_if (Closer n) (within 0xD800 0xDBFF cp) _ _ (λ e. surrogate-Closer n cp s (h cp s refl))
          λ e. leaves n _ s (h cp s refl)

escape-Closer : (n : ℕ) (s : Bytes) → length s < n → Closer n (escape s)
unfolding escape
escape-Closer n [] h = fails n
escape-Closer n (e ∷ s) h =
    let short : length s < n = omega arith in
    let read : Closer n (unicode (hex_loop 4 0 s)) =
      unicode-Closer n (hex_loop 4 0 s) λ cp rest f. omega (arith, hex_loop-le 4 0 cp s rest f) in
    search (on_if (Closer n), leaves, fails, short, read) depth 12

closing_quote : (n : ℕ) (rest : Bytes) → length rest < n → Closer n (closed rest)
unfolding Closer
closing_quote n rest h = h

plain-Closer : (n c : ℕ) (s : Bytes) → Closer (suc (length s)) (plain n (c ∷ s))
unfolding plain
plain-Closer n c s =
    on_if (Closer (suc (length s))) (n == 0) _ _ (λ e. fails (suc (length s)))
      λ e. leaves (suc (length s)) _ (drop n (c ∷ s)) (ground (arith, length-drop n (c ∷ s)))

string_step-Closer : (s : Bytes) → Closer (length s) (string_step s)
unfolding string_step
string_step-Closer [] = fails 0
string_step-Closer (c ∷ s) =
    on_if (Closer (suc (length s))) (c == b'"') _ _
      (λ e. closing_quote (suc (length s)) s (omega arith))
      λ e.
        on_if (Closer (suc (length s))) (c == b'\\') _ _
          (λ e. escape-Closer (suc (length s)) s (omega arith))
          λ e.
            on_if (Closer (suc (length s))) (ltb c 0x20) _ _ (λ e. fails (suc (length s)))
              λ e. plain-Closer (utf8_seq (c ∷ s)) c s

pub Piece-cases :
    (p : Piece)
    → (p ≡ bad)
      ⊎ (((r : Bytes) × (p ≡ closed r)) ⊎ ((piece : Bytes) × (r : Bytes) × (p ≡ bytes piece r)))
Piece-cases bad = inl refl
Piece-cases (closed r) = inr (inl (r, refl))
Piece-cases (bytes piece r) = inr (inr (piece, r, refl))

pub string_step-closed : (s r : Bytes) → string_step s ≡ closed r → length r < length s
unfolding Closer
string_step-closed s r e = subst (Closer (length s)) e (string_step-Closer s)

pub string_step-bytes : (s piece r : Bytes) → string_step s ≡ bytes piece r → length r < length s
unfolding Closer
string_step-bytes s piece r e = subst (Closer (length s)) e (string_step-Closer s)

-- What follows a string stands behind its quote.
pub string_loop-lt :
    (fuel : ℕ) (s str rest : Bytes) → string_loop fuel s ≡ some (str, rest) → length rest < length s
unfolding string_loop
string_loop-lt zero s str rest e = ground arith
string_loop-lt (suc fuel) s str rest e = elim (Piece-cases (string_step s)) [
  | inl failed ↦ ground (arith, failed)
  | inr (inl (r, over)) ↦ ground (arith, over, string_step-closed s r over)
  | inr (inr (piece, r, on)) ↦ elim (Option-cases (string_loop fuel r)) [
    | inl none_left ↦ ground (arith, on, none_left)
    | inr ((str2, r2), found) ↦
        ground
          (arith, on, found, string_step-bytes s piece r on, string_loop-lt fuel r str2 r2 found)
  ]
]
