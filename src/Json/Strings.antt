-- ===== src/Json/Strings.antt =====
-- Reading back the strings that src/json.c writes.
use asterism_astools.Prelude.{
  ℕ, zero, suc, ◌+◌, ◌*◌, ◌/◌, ◌%◌, ◌^◌, ◌≤◌, ◌<◌, ◌≡◌, refl, ap, ◌∙◌, ◌≢◌, inl, inr,
}
use asterism_astools.Prelude.{Bool, true, false, Option, none, some, List, [], ◌∷◌, ◌++◌, arith}
use asterism_astools.Prelude.{ltb, ◌==◌, Bool-cases, Option-cases, agree_below, agree_below→eq}
use asterism_astools.Prelude.{
  length, get_or, take, length-append, drop-append_length, list_cases, All,
}
use asterism_astools.Prelude.{Bytes}
use mathlib.Core.List.{append_assoc, append-nil}
use asterism_astools.Prelude.Bits.{bit_or_disjoint}
use asterism_astools.Utf8.{utf8_seq}
use asterism_astools.Utf8.Spec.{IsScalar, encode, encode_all}
use asterism_astools.Utf8.Sequences.{utf8_seq-encode}
use asterism_astools.Json.Parser.{
  hex_digit, hex_loop, hex4, bytes, unicode, escape, plain, string_step, in_front, string_loop,
  string_raw, utf8_encode,
}
use asterism_astools.Json.Writer.{hex_chars, w_byte, w_bytes}

abbrev gives : Option ℕ → ℕ → Bool
gives none i = false
gives (some x) i = x == i

hex_table : (i : ℕ) → i < 16 → gives (hex_digit (get_or hex_chars i 0)) i ≡ true
unfolding agree_below hex_digit
hex_table = agree_below→eq _ (λ _. true) 16 refl

hex_digit-hex_chars : (i : ℕ) → i < 16 → hex_digit (get_or hex_chars i 0) ≡ some i
hex_digit-hex_chars i h = elim (Option-cases (hex_digit (get_or hex_chars i 0))) [
  | inl missing ↦ ground (arith, hex_table i h)
  | inr (x, found) ↦ let same : x ≡ i = ground (arith, hex_table i h) in found ∙ ap some same
]

hex_digit-lt : (c d : ℕ) → hex_digit c ≡ some d → d < 2 ^ 4
unfolding hex_digit
hex_digit-lt c d e = ground arith

hex_loop_digit :
    (n v c d : ℕ) (s : Bytes)
    → hex_digit c ≡ some d
    → hex_loop (suc n) v (c ∷ s) ≡ hex_loop n (v * 2 ^ 4 + d) s
unfolding hex_loop
hex_loop_digit n v c d s e =
    rw (hex_loop, e)
      (ap (λ x. hex_loop n x s)
        (bit_or_disjoint 4 (v * 2 ^ 4) d (omega arith) (hex_digit-lt c d e)))

-- The escape of a control character.
hex4_control :
    (c : ℕ) (rest : Bytes)
    → c < 0x20
    → hex4 (b'0' ∷ b'0' ∷ get_or hex_chars (c / 16) 0 ∷ get_or hex_chars (c % 16) 0 ∷ rest)
      ≡ some (c, rest)
hex4_control c rest h =
    let high : ℕ = get_or hex_chars (c / 16) 0 in
    let low : ℕ = get_or hex_chars (c % 16) 0 in
    let whole : ((0 * 2 ^ 4 + 0) * 2 ^ 4 + 0) * 2 ^ 4 + c / 16 ≡ c / 16 = omega arith in
    let value : (((0 * 2 ^ 4 + 0) * 2 ^ 4 + 0) * 2 ^ 4 + c / 16) * 2 ^ 4 + c % 16 ≡ c =
      omega arith in
    hex_loop_digit 3 0 b'0' 0 (b'0' ∷ high ∷ low ∷ rest) zero_digit
    ∙ hex_loop_digit 2 (0 * 2 ^ 4 + 0) b'0' 0 (high ∷ low ∷ rest) zero_digit
    ∙ hex_loop_digit 1 ((0 * 2 ^ 4 + 0) * 2 ^ 4 + 0) high (c / 16) (low ∷ rest)
        (hex_digit-hex_chars (c / 16) (omega arith))
    ∙ hex_loop_digit 0 (((0 * 2 ^ 4 + 0) * 2 ^ 4 + 0) * 2 ^ 4 + c / 16) low (c % 16) rest
        (hex_digit-hex_chars (c % 16) (omega arith))
    ∙ unfold hex_loop in ap (λ x. some (x, rest)) value
  where
    zero_digit : hex_digit b'0' ≡ some 0
    zero_digit = unfold hex_digit in refl

string_step_control :
    (c : ℕ) (rest : Bytes)
    → c < 0x20
    → string_step (
        b'\\'
        ∷ b'u'
        ∷ b'0'
        ∷ b'0'
        ∷ get_or hex_chars (c / 16) 0
        ∷ get_or hex_chars (c % 16) 0
        ∷ rest)
      ≡ bytes (c ∷ []) rest
unfolding string_step escape unicode utf8_encode
string_step_control c rest h = ground (arith, hex4_control c rest h)

step_letter :
    (e x : ℕ) (rest : Bytes)
    → escape (e ∷ rest) ≡ bytes (x ∷ []) rest
    → string_step (b'\\' ∷ e ∷ rest) ≡ bytes (x ∷ []) rest
unfolding string_step
step_letter e x rest h = h

string_step-w_byte :
    (c : ℕ) (rest : Bytes) → c < 0x80 → string_step (w_byte c ++ rest) ≡ bytes (c ∷ []) rest
string_step-w_byte c rest h = elim (Bool-cases (ltb c 0x20)) [
  | inl control ↦
      unfold w_byte escape in
      ground (
        arith,
        string_step_control c rest,
        step_letter b'b' 8 rest refl,
        step_letter b'f' 12 rest refl,
        step_letter b'n' 10 rest refl,
        step_letter b'r' 13 rest refl,
        step_letter b't' 9 rest refl,
      )
  | inr above ↦ unfold string_step escape plain utf8_seq w_byte in ground arith
]

w_bytes-append : (s t : Bytes) → w_bytes (s ++ t) ≡ w_bytes s ++ w_bytes t
unfolding w_bytes
w_bytes-append [] t = refl
w_bytes-append (c ∷ s) t = rw (w_bytes-append s t) (rw append_assoc)

-- The bytes of a longer sequence are written as they are.
w_bytes-wide : (s : Bytes) → All (λ b. 0x80 ≤ b) s → w_bytes s ≡ s
unfolding w_bytes w_byte
w_bytes-wide [] h = refl
w_bytes-wide (c ∷ s) (h, hs) = ground (arith, w_bytes-wide s hs)

encode-wide : (v : ℕ) → 0x80 ≤ v → All (λ b. 0x80 ≤ b) (encode v)
unfolding encode
encode-wide v h = ground arith

encode_cons : (v : ℕ) → 0x80 ≤ v → (c : ℕ) × (s : Bytes) × (encode v ≡ c ∷ s) × (0x80 ≤ c)
encode_cons v h = elim (list_cases (encode v)) [
  | inl e ↦ absurd (unfold encode in ground arith)
  | inr (c, s, e) ↦ (c, s, e, (rw e at (encode-wide v h)).0)
]

take-append_length : (s t : Bytes) → take (length s) (s ++ t) ≡ s
take-append_length [] t = refl
take-append_length (c ∷ s) t = ap (λ r. c ∷ r) (take-append_length s t)

string_step-plain :
    (c : ℕ) (s : Bytes) → 0x80 ≤ c → string_step (c ∷ s) ≡ plain (utf8_seq (c ∷ s)) (c ∷ s)
unfolding string_step
string_step-plain c s h = ground arith

plain_taken : (s rest : Bytes) → s ≢ [] → plain (length s) (s ++ rest) ≡ bytes s rest
unfolding plain
plain_taken [] rest h = absurd (h refl)
plain_taken (c ∷ s) rest h =
    rw (take-append_length s rest, drop-append_length s rest) (ground arith)

string_step-encode :
    (v : ℕ) (rest : Bytes)
    → IsScalar v
    → string_step (w_bytes (encode v) ++ rest) ≡ bytes (encode v) rest
string_step-encode v rest h = elim (Bool-cases (ltb v 0x80)) [
  | inl small ↦
      let e : encode v ≡ v ∷ [] = unfold encode in ground arith in
      rw e (unfold w_bytes in rw append-nil (string_step-w_byte v rest (ground arith)))
  | inr big ↦
      let (c, s, e, high) = encode_cons v (ground arith) in
      let seq : utf8_seq ((c ∷ s) ++ rest) ≡ length (c ∷ s) = rw e at (utf8_seq-encode v rest h) in
      rw (w_bytes-wide (encode v) (encode-wide v (ground arith))) (
        rw e (
          string_step-plain c (s ++ rest) high
          ∙ ap (λ n. plain n (c ∷ (s ++ rest))) seq
          ∙ plain_taken (c ∷ s) rest (λ q. cc)))
]

pub string_loop_bytes :
    (fuel : ℕ) (s piece rest : Bytes)
    → string_step s ≡ bytes piece rest
    → string_loop (suc fuel) s ≡ in_front piece (string_loop fuel rest)
unfolding string_loop
string_loop_bytes fuel s piece rest e = rw (string_loop, e) refl

w_bytes_next :
    (v : ℕ) (vs : List ℕ) (rest : Bytes)
    → w_bytes (encode_all (v ∷ vs)) ++ rest
      ≡ w_bytes (encode v) ++ (w_bytes (encode_all vs) ++ rest)
unfolding encode_all
w_bytes_next v vs rest =
    ap (λ t. t ++ rest) (w_bytes-append (encode v) (encode_all vs))
    ∙ append_assoc (w_bytes (encode v)) (w_bytes (encode_all vs)) rest

in_front_next :
    (v : ℕ) (vs : List ℕ) (rest : Bytes)
    → in_front (encode v) (some (encode_all vs, rest)) ≡ some (encode_all (v ∷ vs), rest)
unfolding encode_all
in_front_next v vs rest = refl

-- A string of Unicode scalar values is read back from what the writer makes of it.
pub string_loop-w_bytes :
    (vs : List ℕ) (fuel : ℕ) (rest : Bytes)
    → All IsScalar vs
    → length vs < fuel
    → string_loop fuel (w_bytes (encode_all vs) ++ b'"' ∷ rest) ≡ some (encode_all vs, rest)
string_loop-w_bytes vs zero rest h l = absurd (omega arith)
string_loop-w_bytes [] (suc fuel) rest h l =
    unfold encode_all w_bytes string_loop string_step in refl
string_loop-w_bytes (v ∷ vs) (suc fuel) rest (h, hs) l =
    ap (string_loop (suc fuel)) (w_bytes_next v vs (b'"' ∷ rest))
    ∙ string_loop_bytes fuel (w_bytes (encode v) ++ (w_bytes (encode_all vs) ++ b'"' ∷ rest))
        (encode v) (w_bytes (encode_all vs) ++ b'"' ∷ rest)
        (string_step-encode v (w_bytes (encode_all vs) ++ b'"' ∷ rest) h)
    ∙ ap (in_front (encode v)) (string_loop-w_bytes vs fuel rest hs (omega arith))
    ∙ in_front_next v vs rest

w_byte_pos : (c : ℕ) → 0 < length (w_byte c)
unfolding w_byte
w_byte_pos c = ground arith

length-w_bytes : (s : Bytes) → length s ≤ length (w_bytes s)
unfolding w_bytes
length-w_bytes [] = omega arith
length-w_bytes (c ∷ s) =
    omega (arith, w_byte_pos c, length-w_bytes s, length-append (w_byte c) (w_bytes s))

encode_pos : (v : ℕ) → 0 < length (encode v)
unfolding encode
encode_pos v = ground arith

length-encode_all : (vs : List ℕ) → length vs ≤ length (encode_all vs)
unfolding encode_all
length-encode_all [] = omega arith
length-encode_all (v ∷ vs) =
    omega (arith, encode_pos v, length-encode_all vs, length-append (encode v) (encode_all vs))

-- The same for the whole string, with the rounds that the parser has.
pub string_raw-w_bytes :
    (vs : List ℕ) (rest : Bytes)
    → All IsScalar vs
    → string_raw (w_bytes (encode_all vs) ++ b'"' ∷ rest) ≡ some (encode_all vs, rest)
string_raw-w_bytes vs rest h =
    string_loop-w_bytes vs (length (w_bytes (encode_all vs) ++ b'"' ∷ rest)) rest h (
      omega (
        arith,
        length-append (w_bytes (encode_all vs)) (b'"' ∷ rest),
        length-w_bytes (encode_all vs),
        length-encode_all vs,
      ))
