-- ===== src/Uri.antt =====
-- src/lsp_uri.c: file URIs of the language servers, between a path and its percent-encoded form.
pub mod RoundTrip
use asterism_astools.Prelude.{
  ℕ, zero, suc, ◌+◌, ◌-◌, ◌*◌, ◌/◌, ◌%◌, ◌^◌, ◌≤◌, ◌<◌, ◌≡◌, refl, sym, ap, ◌∙◌, ◌≢◌, ◌↔◌, ◌⊎◌, inl,
  inr,
}
use asterism_astools.Prelude.{
  Bool, true, false, not, ◌&&◌, ◌||◌, Option, none, some, List, [], ◌∷◌, ◌++◌, map, arith,
}
use asterism_astools.Prelude.{
  ltb, leb, ◌==◌, if◌then◌else◌, ltb→lt, lt→ltb, leb→le, ==_iff, tests, Bool-cases, some_inj,
  bool_clash, Option-cases, agree_below, agree_below→eq,
}
use asterism_astools.Prelude.{
  length, get_elem?, get_or, take, drop, replicate, length-append, take-append-drop,
  drop-append_length, All-drop, All-append, zero_or_suc, list_cases, length_pos, length-take,
  length-drop, All,
}
use asterism_astools.Prelude.{
  Bytes, AreBytes, str_eq, str_eq_iff, str_eq_refl, codes, peek, advance, within, is_digit, Result,
  ok, err, Err, Result-cases, bind-eq-ok, ◌>>=◌,
}
use asterism_astools.Utf8.{utf8_valid}

-- `hex`; `none` is -1
unfoldable pub hex : ℕ → Option ℕ
hex c =
    if within b'0' b'9' c
    then some (c - b'0')
    else if within b'a' b'f' c
    then some (c - b'a' + 10)
    else if within b'A' b'F' c
    then some (c - b'A' + 10)
    else none

abbrev pub digits : Bytes
digits = codes "0123456789ABCDEF"

-- The characters that stand for themselves.
unfoldable pub is_plain : ℕ → Bool
is_plain c =
    within b'a' b'z' c
    || within b'A' b'Z' c
    || within b'0' b'9' c
    || c == b'/'
    || c == b'-'
    || c == b'.'
    || c == b'_'
    || c == b'~'

unfoldable pub encode_byte : ℕ → Bytes
encode_byte c =
    if is_plain c then c ∷ [] else b'%' ∷ get_or digits (c / 16) 0 ∷ get_or digits (c % 16) 0 ∷ []

unfoldable pub encode_path : Bytes → Bytes
encode_path [] = []
encode_path (c ∷ p) = encode_byte c ++ encode_path p

-- `astools_lsp_uri`
unfoldable pub lsp_uri : Bytes → Option Bytes
lsp_uri path =
    if not (peek path == b'/') || leb 4096 (length path) || not (utf8_valid path)
    then none
    else some (codes "file://" ++ encode_path path)

-- The two characters behind a percent sign.
unfoldable pub escaped : Bytes → Option (ℕ × Bytes)
escaped (h ∷ l ∷ rest) = elim (hex h) [
  | none ↦ none
  | some x ↦ elim (hex l) [ none ↦ none | some y ↦ some (16 * x + y, rest) ]
]
escaped _ = none

-- The byte that the loop of `astools_lsp_path` reads, and the text behind it.
unfoldable pub uri_byte : ℕ → Bytes → Option (ℕ × Bytes)
uri_byte c s = if c == b'%' then escaped s else if c == b'?' || c == b'#' then none else some (c, s)

abbrev pub push : ℕ → Option Bytes → Option Bytes
push c none = none
push c (some p) = some (c ∷ p)

-- The loop, with the number of bytes written. Each round takes a byte at least.
unfoldable pub path_loop : ℕ → ℕ → Bytes → Option Bytes
path_loop fuel n [] = some []
path_loop zero n (_ ∷ _) = none
path_loop (suc fuel) n (c ∷ s) = elim (uri_byte c s) [
  | none ↦ none
  | some (ch, rest) ↦
      let more = path_loop fuel (n + 1) rest in
      if ch == 0 || ch == b'\\' || leb 4095 n then none else push ch more
]

unfoldable pub accepted : Option Bytes → Option Bytes
accepted none = none
accepted (some out) = if not (peek out == b'/') || not (utf8_valid out) then none else some out

-- `astools_lsp_path`
unfoldable pub lsp_path : Bytes → Option Bytes
lsp_path uri =
    if not (str_eq (take 8 uri) (codes "file:///")) || ltb (3 * 4096 + 7) (length uri)
    then none
    else accepted (path_loop (length (drop 7 uri)) 0 (drop 7 uri))
