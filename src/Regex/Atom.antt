-- ===== src/Regex/Atom.antt =====
-- std/regex.c: the parser of a single byte of a pattern, and of a repetition.
use asterism_astools.Prelude.{ℕ, ◌+◌, ◌-◌, ◌*◌}
use asterism_astools.Prelude.{Bool, true, false, ◌||◌, Option, none, some, [], ◌∷◌}
use asterism_astools.Prelude.{ltb, ◌==◌, if◌then◌else◌}
use asterism_astools.Prelude.{Bytes, peek, advance, within, is_digit}
use asterism_astools.Regex.{fold_ch}
use asterism_astools.Regex.Tree.{Node, rn_char, rn_any, rn_bol, rn_eol}
use asterism_astools.Regex.Parser.{
  Parsed, and_then, Parse, max_count, skip, leaf, parse_class, nothing_to_repeat,
  malformed_repetition, count_too_large, invalid_repetition, trailing_backslash, escape_d, escape_w,
  escape_s, backreference, unsupported_escape, bad, good,
}

-- The byte of an escape sequence.
unfoldable pub escape_byte : ℕ → Parsed ℕ
escape_byte e =
    if e == 0
    then bad trailing_backslash
    else if e == b'n'
    then good 10
    else if e == b't'
    then good 9
    else if e == b'r'
    then good 13
    else if e == b'd'
    then bad escape_d
    else if e == b'w'
    then bad escape_w
    else if e == b's'
    then bad escape_s
    else if is_digit e
    then bad backreference
    else if within b'a' b'z' e || within b'A' b'Z' e
    then bad unsupported_escape
    else good e

-- `parse_atom` where it does not start with a parenthesis.
unfoldable pub plain_atom : Bool → Parse → Parsed (Node × Parse)
plain_atom fold st =
    let c = peek st.p in
    if c == b'.'
    then leaf rn_any (skip 1 st)
    else if c == b'^'
    then leaf rn_bol (skip 1 st)
    else if c == b'$'
    then leaf rn_eol (skip 1 st)
    else if c == b'['
    then parse_class fold st
    else if (c == b'*' || c == b'+') || (c == b'?' || c == b'{')
    then bad nothing_to_repeat
    else if c == b'\\'
    then (and_then (escape_byte (peek (advance st.p)))
        λ lit. leaf (rn_char (fold_ch fold lit)) (skip 2 st))
    else leaf (rn_char (fold_ch fold c)) (skip 1 st)

unfoldable pub uint_loop : ℕ → Bytes → Parsed (ℕ × Bytes)
uint_loop v [] = good (v, [])
uint_loop v (c ∷ p) = elim (is_digit c) [
  | false ↦ good (v, c ∷ p)
  | true ↦ elim (ltb max_count (v * 10 + (c - b'0'))) [
    | true ↦ bad count_too_large
    | false ↦ uint_loop (v * 10 + (c - b'0')) p
  ]
]

abbrev pub parse_uint : Bytes → Parsed (ℕ × Bytes)
parse_uint p = if is_digit (peek p) then uint_loop 0 p else bad malformed_repetition

-- How often, with what follows it.
abbrev pub Counts : Type 0
Counts = ℕ × Option ℕ × Bytes

-- The repetition behind its comma.
unfoldable pub second_count : ℕ → Bytes → Parsed Counts
second_count m q =
    if peek q == b'}'
    then good (m, none, advance q)
    else and_then (parse_uint q) λ (n, q2).
      if peek q2 == b'}'
      then (if ltb n m then bad invalid_repetition else good (m, some n, advance q2))
      else bad malformed_repetition

-- The repetition behind its brace.
unfoldable pub braces : Bytes → Parsed Counts
braces p = and_then (parse_uint p) λ (m, q).
    if peek q == b'}'
    then good (m, some m, advance q)
    else if peek q == b','
    then second_count m (advance q)
    else bad malformed_repetition

-- The repetition that stands there, if any.
unfoldable pub quantifier : Bytes → Parsed (Option Counts)
quantifier p =
    if peek p == b'*'
    then good (some (0, none, advance p))
    else if peek p == b'+'
    then good (some (1, none, advance p))
    else if peek p == b'?'
    then good (some (0, some 1, advance p))
    else if peek p == b'{'
    then (and_then (braces (advance p)) λ counts. good (some counts))
    else good none
