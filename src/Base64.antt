-- ===== src/Base64.antt =====
-- src/util.c: strict Base64 (RFC 4648). A buffer is the list of its bytes, a text the list of its
-- characters. Allocation succeeds, and a length is below the bound at which the encoder refuses.
mod Values
mod Reference
pub mod RoundTrip
pub mod Canonical
use asterism_astools.Prelude.{
  ℕ, zero, suc, ◌+◌, ◌-◌, ◌*◌, ◌/◌, ◌%◌, ◌^◌, ◌≤◌, ◌<◌, ◌≡◌, refl, sym, ap, ◌∙◌, ◌≢◌, ◌↔◌, ◌⊎◌, inl,
  inr,
}
use asterism_astools.Prelude.{
  Bool, true, false, not, ◌&&◌, ◌||◌, Option, none, some, List, [], ◌∷◌, ◌++◌, map, arith,
}
use asterism_astools.Prelude.{
  ltb, leb, ◌==◌, if◌then◌else◌, ltb→lt, lt→ltb, leb→le, ==_iff, tests, Bool-cases, Option-cases,
  agree_below, agree_below→eq,
}
use asterism_astools.Prelude.{
  length, get_elem?, get_or, take, drop, replicate, length-append, take-append-drop,
  drop-append_length, All-drop, All-append, zero_or_suc, length-take, length-drop, All,
}
use asterism_astools.Prelude.{
  Bytes, AreBytes, codes, peek, advance, within, is_digit, Result, ok, err, bind-eq-ok, ◌>>=◌,
}
use Prim.Native.Nat.{bit_and, bit_or}

abbrev pub alphabet : Bytes
alphabet = codes "ABCDEFGHIJKLMNOPQRSTUVWXYZabcdefghijklmnopqrstuvwxyz0123456789+/"

-- `b64_alpha[(v >> 6 * place) & 63]`; the index is below 64.
unfoldable pub digit_at : ℕ → ℕ → ℕ
digit_at v place = get_or alphabet (bit_and (v / 2 ^ (6 * place)) 63) 0

-- The three cases of `astools_base64_encode`: whole groups of three bytes, then one or two left.
unfoldable pub base64_encode : Bytes → Bytes
base64_encode [] = []
base64_encode (a ∷ []) = let v = a * 2 ^ 16 in digit_at v 3 ∷ digit_at v 2 ∷ b'=' ∷ b'=' ∷ []
base64_encode (a ∷ b ∷ []) =
    let v = bit_or (a * 2 ^ 16) (b * 2 ^ 8) in
    digit_at v 3 ∷ digit_at v 2 ∷ digit_at v 1 ∷ b'=' ∷ []
base64_encode (a ∷ b ∷ c ∷ rest) =
    let v = bit_or (bit_or (a * 2 ^ 16) (b * 2 ^ 8)) c in
    digit_at v 3 ∷ digit_at v 2 ∷ digit_at v 1 ∷ digit_at v 0 ∷ base64_encode rest

-- The -1 of `b64_val`, as the `uint32_t` that it is cast to.
abbrev pub minus_one : ℕ
minus_one = 2 ^ 32 - 1

unfoldable pub b64_val : ℕ → ℕ
b64_val c =
    if within b'A' b'Z' c
    then c - b'A'
    else if within b'a' b'z' c
    then c - b'a' + 26
    else if within b'0' b'9' c
    then c - b'0' + 52
    else if c == b'+'
    then 62
    else if c == b'/'
    then 63
    else minus_one

-- `x << k` on a `uint32_t`
abbrev pub shl32 : ℕ → ℕ → ℕ
shl32 x k = x * 2 ^ k % 2 ^ 32

-- `pad`, from the last two characters of a text of `n` characters.
unfoldable pub padding : Bytes → ℕ → ℕ
padding s n =
    if get_or s (n - 1) 0 == b'=' then (if get_or s (n - 2) 0 == b'=' then 2 else 1) else 0

-- The first loop of the decoder: every character is in the alphabet.
unfoldable pub all_digits : Bytes → Bool
all_digits [] = true
all_digits (c ∷ cs) = not (b64_val c == minus_one) && all_digits cs

-- The body of the second loop, on one group; `inner` is `i + 4 < n || pad == 0`.
unfoldable pub decode_group : Bool → ℕ → ℕ → ℕ → ℕ → ℕ → Option Bytes
decode_group inner pad x0 x1 x2 x3 =
    let a = b64_val x0 in
    let b = b64_val x1 in
    let c = b64_val x2 in
    let d = b64_val x3 in
    let v = bit_or (bit_or (bit_or (shl32 a 18) (shl32 b 12)) (shl32 c 6)) d in
    let v2 = bit_or (bit_or (shl32 a 18) (shl32 b 12)) (shl32 c 6) in
    let v1 = bit_or (shl32 a 18) (shl32 b 12) in
    if inner
    then some (v / 2 ^ 16 % 256 ∷ v / 2 ^ 8 % 256 ∷ v % 256 ∷ [])
    else if pad == 1
    then (if not (bit_and c 3 == 0) then none else some (v2 / 2 ^ 16 % 256 ∷ v2 / 2 ^ 8 % 256 ∷ []))
    else if not (bit_and b 15 == 0)
    then none
    else some (v1 / 2 ^ 16 % 256 ∷ [])

abbrev pub is_nil : Bytes → Bool
is_nil [] = true
is_nil (_ ∷ _) = false

-- What a group adds in front of the bytes of the later groups.
abbrev pub joined : Option Bytes → Option Bytes → Option Bytes
joined none more = none
joined (some bytes) none = none
joined (some bytes) (some rest) = some (bytes ++ rest)

-- The second loop. The length is a multiple of four, so the last clause is not met.
unfoldable pub decode_groups : ℕ → Bytes → Option Bytes
decode_groups pad (x0 ∷ x1 ∷ x2 ∷ x3 ∷ rest) =
    joined (decode_group (not (is_nil rest) || pad == 0) pad x0 x1 x2 x3) (decode_groups pad rest)
decode_groups pad _ = some []

-- `astools_base64_decode`; `none` is the result false.
unfoldable pub base64_decode : Bytes → Option Bytes
base64_decode s =
    let n = length s in
    if not (n % 4 == 0)
    then none
    else if n == 0
    then some []
    else if not (all_digits (take (n - padding s n) s))
    then none
    else decode_groups (padding s n) s
