-- ===== src/Json/Parser/Text.antt =====
-- The white space, the literals and the strings of the parser of src/json.c, on what is left of the text.
use asterism_astools.Prelude.{ℕ, zero, suc, ◌+◌, ◌-◌, ◌*◌, ◌/◌, ◌^◌}
use asterism_astools.Prelude.{Bool, not, ◌||◌, Option, none, some, [], ◌∷◌, ◌++◌}
use asterism_astools.Prelude.{ltb, ◌==◌, if◌then◌else◌}
use asterism_astools.Prelude.{length, take, drop}
use asterism_astools.Prelude.{Bytes, within, is_digit}
use Prim.Native.Nat.{bit_and, bit_or}
use asterism_astools.Utf8.{utf8_seq}

-- `utf8_encode`
unfoldable pub utf8_encode : ℕ → Bytes
utf8_encode cp =
    if ltb cp 0x80
    then cp ∷ []
    else if ltb cp 0x800
    then bit_or 0xC0 (cp / 2 ^ 6) ∷ bit_or 0x80 (bit_and cp 0x3F) ∷ []
    else if ltb cp 0x10000
    then bit_or 0xE0 (cp / 2 ^ 12)
      ∷ bit_or 0x80 (bit_and (cp / 2 ^ 6) 0x3F)
      ∷ bit_or 0x80 (bit_and cp 0x3F)
      ∷ []
    else bit_or 0xF0 (cp / 2 ^ 18)
      ∷ bit_or 0x80 (bit_and (cp / 2 ^ 12) 0x3F)
      ∷ bit_or 0x80 (bit_and (cp / 2 ^ 6) 0x3F)
      ∷ bit_or 0x80 (bit_and cp 0x3F)
      ∷ []

abbrev pub is_ws : ℕ → Bool
is_ws c = c == b' ' || c == 9 || c == 10 || c == 13

unfoldable pub skip_ws : Bytes → Bytes
skip_ws [] = []
skip_ws (c ∷ s) = let rest = skip_ws s in if is_ws c then rest else c ∷ s

-- `p_lit`: what follows the literal.
unfoldable pub literal : Bytes → Bytes → Option Bytes
literal [] s = some s
literal (l ∷ lit) [] = none
literal (l ∷ lit) (c ∷ s) = if l == c then literal lit s else none

-- A digit of `p_hex4`.
unfoldable pub hex_digit : ℕ → Option ℕ
hex_digit c =
    if is_digit c
    then some (c - b'0')
    else if within b'a' b'f' c
    then some (c - b'a' + 10)
    else if within b'A' b'F' c
    then some (c - b'A' + 10)
    else none

-- `p_hex4`, with the digits that are still to come.
unfoldable pub hex_loop : ℕ → ℕ → Bytes → Option (ℕ × Bytes)
hex_loop zero v s = some (v, s)
hex_loop (suc n) v [] = none
hex_loop (suc n) v (c ∷ s) = elim (hex_digit c) [
  | none ↦ none
  | some d ↦ hex_loop n (bit_or (v * 2 ^ 4) d) s
]

abbrev pub hex4 : Bytes → Option (ℕ × Bytes)
hex4 s = hex_loop 4 0 s

-- A round of the loop of `p_string_raw`: the closing quote, some bytes of the string, or a failure.
pub data Piece : Type 0 where
  closed : (rest : Bytes) → Piece
  bytes : (piece rest : Bytes) → Piece
  bad : Piece

-- The second half of a surrogate pair.
unfoldable pub low_surrogate : ℕ → Option (ℕ × Bytes) → Piece
low_surrogate cp none = bad
low_surrogate cp (some (lo, rest)) =
    if not (within 0xDC00 0xDFFF lo)
    then bad
    else bytes (utf8_encode (0x10000 + (cp - 0xD800) * 2 ^ 10 + (lo - 0xDC00))) rest

unfoldable pub surrogate : ℕ → Bytes → Piece
surrogate cp (a ∷ b ∷ s) =
    if not (a == b'\\') || not (b == b'u') then bad else low_surrogate cp (hex4 s)
surrogate cp _ = bad

-- Behind `\u`.
unfoldable pub unicode : Option (ℕ × Bytes) → Piece
unicode none = bad
unicode (some (cp, s)) =
    if within 0xDC00 0xDFFF cp
    then bad
    else if within 0xD800 0xDBFF cp
    then surrogate cp s
    else bytes (utf8_encode cp) s

-- Behind a backslash.
unfoldable pub escape : Bytes → Piece
escape [] = bad
escape (e ∷ s) =
    if e == b'"' || e == b'\\' || e == b'/'
    then bytes (e ∷ []) s
    else if e == b'b'
    then bytes (8 ∷ []) s
    else if e == b'f'
    then bytes (12 ∷ []) s
    else if e == b'n'
    then bytes (10 ∷ []) s
    else if e == b'r'
    then bytes (13 ∷ []) s
    else if e == b't'
    then bytes (9 ∷ []) s
    else if e == b'u'
    then unicode (hex4 s)
    else bad

unfoldable pub plain : ℕ → Bytes → Piece
plain n s = if n == 0 then bad else bytes (take n s) (drop n s)

unfoldable pub string_step : Bytes → Piece
string_step [] = bad
string_step (c ∷ s) =
    if c == b'"'
    then closed s
    else if c == b'\\'
    then escape s
    else if ltb c 0x20
    then bad
    else plain (utf8_seq (c ∷ s)) (c ∷ s)

abbrev pub in_front : Bytes → Option (Bytes × Bytes) → Option (Bytes × Bytes)
in_front piece none = none
in_front piece (some (s, rest)) = some (piece ++ s, rest)

-- The loop: the string up to the closing quote, and what follows. A round takes a byte at least.
unfoldable pub string_loop : ℕ → Bytes → Option (Bytes × Bytes)
string_loop zero s = none
string_loop (suc fuel) s = elim (string_step s) [
  | bad ↦ none
  | closed rest ↦ some ([], rest)
  | bytes piece rest ↦ in_front piece (string_loop fuel rest)
]

-- `p_string_raw`, behind the opening quote.
abbrev pub string_raw : Bytes → Option (Bytes × Bytes)
string_raw s = string_loop (length s) s
