-- ===== src/Frame.antt =====
-- src/process_frame.c, with the frames that src/process_io.c writes: JSON-RPC messages behind a header
-- with their length. The buffer is a list of bytes. Memory does not run out, and a length is printed
-- with at most 20 digits.
pub mod Scan
pub mod Written
pub mod Taken
use asterism_astools.Prelude.{
  ℕ, zero, suc, ◌+◌, ◌-◌, ◌*◌, ◌/◌, ◌%◌, ◌^◌, ◌≤◌, ◌<◌, ◌≡◌, refl, sym, ap, ◌∙◌, ◌≢◌, ◌↔◌, ◌⊎◌, inl,
  inr,
}
use asterism_astools.Prelude.{
  Bool, true, false, not, ◌&&◌, ◌||◌, Option, none, some, List, [], ◌∷◌, ◌++◌, map, arith,
}
use asterism_astools.Prelude.{
  ltb, leb, ◌==◌, if◌then◌else◌, ltb→lt, lt→ltb, leb→le, ==_iff, tests, Bool-cases, some_inj,
  bool_clash, Option-cases, agree_below, agree_below→eq,
}
use asterism_astools.Prelude.{
  length, get_elem?, get_or, take, drop, replicate, length-append, take-append-drop,
  drop-append_length, All-drop, All-append, zero_or_suc, list_cases, length_pos, length-take,
  length-drop, All,
}
use asterism_astools.Prelude.{
  bind_option, bind_option_inv, Bytes, AreBytes, str_eq, str_eq_iff, str_eq_refl, codes, peek,
  advance, within, is_digit, Result, ok, err, Err, Result-cases, bind-eq-ok, ◌>>=◌,
}
use asterism_astools.Json.Writer.{decimal_digits}

-- `HEADER_CAP`
abbrev pub header_cap : ℕ
header_cap = 8192

unfoldable pub lower : ℕ → ℕ
lower c = if within b'A' b'Z' c then c + b'a' - b'A' else c

-- `equal`
unfoldable pub equal : Bytes → Bytes → Bool
equal s word = str_eq (map lower s) word

-- The length of the header, none where it is not complete, or a byte that no header has.
pub data Header : Type 0 where
  complete : (header : ℕ) → Header
  partial : Header
  malformed : Header

abbrev pub bad_byte : ℕ → Bool
bad_byte c = c == 0 || ltb 127 c || (ltb c 32 && not (c == 13) && not (c == 10) && not (c == 9))

-- Whether the last four bytes, the latest first, are the end of a header.
abbrev pub ends : Bytes → Bool
ends (a ∷ b ∷ c ∷ d ∷ _) = a == 10 && b == 13 && c == 10 && d == 13
ends _ = false

-- The first loop, with the bytes before `i`, the latest first, and the rounds up to `HEADER_CAP`.
unfoldable pub find_header : ℕ → Bytes → Bytes → Header
find_header zero before s = partial
find_header (suc n) before [] = partial
find_header (suc n) before (c ∷ s) =
    let next = find_header n (c ∷ before) s in
    if bad_byte c
    then malformed
    else if ends (c ∷ before)
    then complete (suc (length before))
    else next

-- The line up to the next CR LF, and what follows that.
unfoldable pub take_line : Bytes → Bytes × Bytes
take_line [] = ([], [])
take_line (c ∷ []) = ([], [])
take_line (c ∷ d ∷ s) =
    let (line, rest) = take_line (d ∷ s) in if c == 13 && d == 10 then ([], s) else (c ∷ line, rest)

-- What stands in front of the colon and behind it.
unfoldable pub split_colon : Bytes → Option (Bytes × Bytes)
split_colon [] = none
split_colon (c ∷ s) = elim (c == b':') [
  | true ↦ some ([], s)
  | false ↦ bind_option (split_colon s) λ (name, value). some (c ∷ name, value)
]

abbrev pub is_blank : ℕ → Bool
is_blank c = c == b' ' || c == 9

unfoldable pub trim_start : Bytes → Bytes
trim_start [] = []
trim_start (c ∷ s) = let rest = trim_start s in if is_blank c then rest else c ∷ s

abbrev pub is_empty : Bytes → Bool
is_empty [] = true
is_empty (_ ∷ _) = false

unfoldable pub trim_end : Bytes → Bytes
trim_end [] = []
trim_end (c ∷ s) = let rest = trim_end s in if is_empty rest && is_blank c then [] else c ∷ rest

-- The digits of a length, at most `cap`.
unfoldable pub length_loop : ℕ → ℕ → Bytes → Result ℕ
length_loop cap n [] = ok n
length_loop cap n (c ∷ s) =
    let d = c - b'0' in
    let rest = length_loop cap (n * 10 + d) s in
    if not (is_digit c)
    then err Err.protocol
    else if ltb cap d || ltb ((cap - d) / 10) n
    then err Err.tool
    else rest

-- What the lines have said: `have_length` with `length`, and `have_type`.
pub record Fields : Type 0 where
  pub content_length : Option ℕ
  pub have_type : Bool

unfoldable pub length_field : ℕ → Fields → Bytes → Result Fields
length_field cap f value = elim f.content_length [
  | some n ↦ err Err.protocol
  | none ↦
      (if is_empty value
        then err Err.protocol
        else (length_loop cap 0 value >>= λ n.
            if n == 0
            then err Err.protocol
            else ok (record { content_length = some n; have_type = f.have_type })))
]

unfoldable pub type_field : Fields → Bytes → Result Fields
type_field f value =
    if f.have_type
      || (not (equal value (codes "application/vscode-jsonrpc; charset=utf-8"))
          && not (equal value (codes "application/vscode-jsonrpc")))
    then err Err.protocol
    else ok (record { content_length = f.content_length; have_type = true })

-- A line of the header.
unfoldable pub field : ℕ → Fields → Bytes → Result Fields
field cap f line = elim (split_colon line) [
  | none ↦ err Err.protocol
  | some (name, value) ↦
      (if is_empty name
        then err Err.protocol
        else if equal name (codes "content-length")
        then length_field cap f (trim_end (trim_start value))
        else if equal name (codes "content-type")
        then type_field f (trim_end (trim_start value))
        else err Err.protocol)
]

-- The second loop, on what is left of the header; a line takes two bytes at least.
unfoldable pub fields : ℕ → ℕ → Fields → Bytes → Result Fields
fields zero cap f text = ok f
fields (suc n) cap f text = elim (ltb 2 (length text)) [
  | false ↦ ok f
  | true ↦ (field cap f (take_line text).0 >>= λ f1. fields n cap f1 (take_line text).1)
]

-- The payload and what is left in the buffer.
unfoldable pub payload : Bytes → Option ℕ → Result (Bytes × Bytes)
payload s none = err Err.protocol
payload s (some n) = if ltb (length s) n then err Err.busy else ok (take n s, drop n s)

abbrev pub no_fields : Fields
no_fields = record { content_length = none; have_type = false }

-- `astools_pp_take_frame`
unfoldable pub take_frame : ℕ → Bytes → Result (Bytes × Bytes)
take_frame cap b = elim (find_header header_cap [] b) [
  | malformed ↦ err Err.protocol
  | partial ↦ (if leb header_cap (length b) then err Err.protocol else err Err.busy)
  | complete header ↦
      (fields header cap no_fields (take header b) >>= λ f.
      payload (drop header b) f.content_length)
]

-- What `astools_pp_write_frame` writes.
abbrev pub frame_header : ℕ → Bytes
frame_header len = codes "Content-Length: " ++ (decimal_digits 20 len [] ++ 13 ∷ 10 ∷ 13 ∷ 10 ∷ [])

abbrev pub write_frame : Bytes → Bytes
write_frame json = frame_header (length json) ++ json
