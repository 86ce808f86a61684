-- ===== src/Callline.antt =====
-- The parsing half of src/callline.c: the first line of a model's output that is a call. The spans
-- of a line are the lists of their bytes.
pub mod Shape
mod Tokens
mod Object
pub mod Sound
pub mod Scan
use asterism_astools.Prelude.{
  ℕ, zero, suc, ◌+◌, ◌-◌, ◌*◌, ◌/◌, ◌%◌, ◌^◌, ◌≤◌, ◌<◌, ◌≡◌, refl, sym, ap, ◌∙◌, ◌≢◌, ◌↔◌, ◌⊎◌, inl,
  inr,
}
use asterism_astools.Prelude.{
  Bool, true, false, not, ◌&&◌, ◌||◌, Option, none, some, List, [], ◌∷◌, ◌++◌, map, arith,
}
use asterism_astools.Prelude.{
  ltb, leb, ◌==◌, if◌then◌else◌, ltb→lt, lt→ltb, leb→le, ==_iff, tests, Bool-cases, some_inj,
  bool_clash, Option-cases, agree_below, agree_below→eq,
}
use asterism_astools.Prelude.{
  length, get_elem?, get_or, take, drop, replicate, length-append, take-append-drop,
  drop-append_length, All-drop, All-append, zero_or_suc, list_cases, length_pos, length-take,
  length-drop, All,
}
use asterism_astools.Prelude.{
  Bytes, AreBytes, str_eq, str_eq_iff, str_eq_refl, codes, peek, advance, within, is_digit, Result,
  ok, err, Err, Result-cases, bind-eq-ok, ◌>>=◌,
}

abbrev pub slug_char : ℕ → Bool
slug_char c = within b'a' b'z' c || within b'0' b'9' c || c == b'-'

abbrev pub ver_char : ℕ → Bool
ver_char c =
    within b'0' b'9' c
    || within b'a' b'z' c
    || within b'A' b'Z' c
    || c == b'.'
    || c == b'+'
    || c == b'-'

abbrev pub ref_token_char : ℕ → Bool
ref_token_char c = ver_char c || c == b'@'

unfoldable pub all_of : (ℕ → Bool) → Bytes → Bool
all_of test [] = true
all_of test (c ∷ s) = test c && all_of test s

-- `while (i < len && (line[i] == ' ' || line[i] == '\t')) i++`
unfoldable pub skip_blanks : Bytes → Bytes
skip_blanks [] = []
skip_blanks (c ∷ s) = let rest = skip_blanks s in if c == b' ' || c == 9 then rest else c ∷ s

-- The reference token, and what follows it.
unfoldable pub take_token : Bytes → Bytes × Bytes
take_token [] = ([], [])
take_token (c ∷ s) =
    let (token, rest) = take_token s in if ref_token_char c then (c ∷ token, rest) else ([], c ∷ s)

-- What stands before and behind the last dot.
unfoldable pub split_dot : Bytes → Option (Bytes × Bytes)
split_dot [] = none
split_dot (c ∷ s) = elim (split_dot s) [
  | some (front, behind) ↦ some (c ∷ front, behind)
  | none ↦ if c == b'.' then some ([], s) else none
]

-- What stands before the first `@`, and what behind it.
unfoldable pub split_at : Bytes → Bytes × Option Bytes
split_at [] = ([], none)
split_at (c ∷ s) =
    let (front, behind) = split_at s in if c == b'@' then ([], some s) else (c ∷ front, behind)

abbrev pub is_nil : Bytes → Bool
is_nil [] = true
is_nil (_ ∷ _) = false

-- The version, if there is an `@`.
unfoldable pub version_ok : Option Bytes → Bool
version_ok none = true
version_ok (some v) = not (is_nil v) && all_of ver_char v

-- The tests on the tool and the version, in front of the last dot.
unfoldable pub ref_ok : Bytes → Bool
ref_ok ref =
    let (tool, version) = split_at ref in
    not (is_nil tool) && all_of slug_char tool && version_ok version

abbrev pub prepend : ℕ → Option Bytes → Option Bytes
prepend c none = none
prepend c (some s) = some (c ∷ s)

-- The loop over the object: up to the brace that closes the first one. The text starts with an open
-- brace, so a closing one is met with a depth of 1 at least.
unfoldable pub balanced : Bool → Bool → ℕ → Bytes → Option Bytes
balanced in_str esc depth [] = none
balanced true true depth (c ∷ s) = prepend c (balanced true false depth s)
balanced true false depth (c ∷ s) = prepend c (balanced (not (c == b'"')) (c == b'\\') depth s)
balanced false esc depth (c ∷ s) =
    if c == b'}' && depth == 1
    then some (c ∷ [])
    else prepend c (
        balanced (c == b'"') esc
          (if c == b'{' then depth + 1 else if c == b'}' then depth - 1 else depth) s)

-- `call_spans`
pub record Call : Type 0 where
  pub ref : Bytes
  pub command : Bytes
  pub args : Bytes

unfoldable pub object_part : Bytes → Option Bytes
object_part s = if not (peek s == b'{') then none else balanced false false 0 s

-- The token and the text behind it.
unfoldable pub call_of : Option (Bytes × Bytes) → Bytes → Option Call
call_of none s = none
call_of (some (ref, command)) s =
    if is_nil ref || is_nil command || not (all_of slug_char command) || not (ref_ok ref)
    then none
    else elim (object_part (skip_blanks s)) [
      | none ↦ none
      | some args ↦ some (record { ref = ref; command = command; args = args })
    ]

-- `parse_call_line`
unfoldable pub parse_call_line : Bytes → Option Call
parse_call_line line =
    let start = skip_blanks line in
    let (token, rest) = take_token (skip_blanks (drop 5 start)) in
    if not (str_eq (take 5 start) (codes "CALL ")) then none else call_of (split_dot token) rest

-- The line up to the line feed, and the text behind it.
unfoldable pub split_line : Bytes → Bytes × Option Bytes
split_line [] = ([], none)
split_line (c ∷ s) =
    let (line, more) = split_line s in if c == 10 then ([], some s) else (c ∷ line, more)

-- The loop over the lines. Each round takes a byte at least, but for the last.
unfoldable pub parse_lines : ℕ → Bytes → Result Call
parse_lines zero s = err Err.not_found
parse_lines (suc fuel) s =
    let later : Result Call = elim (split_line s).1 [
      | none ↦ err Err.not_found
      | some rest ↦ parse_lines fuel rest
    ] in
    elim (parse_call_line (split_line s).0) [ some call ↦ ok call | none ↦ later ]

-- `astools_callline_parse`
unfoldable pub callline_parse : Bytes → Result Call
callline_parse s = parse_lines (suc (length s)) s
