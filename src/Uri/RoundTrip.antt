-- ===== src/Uri/RoundTrip.antt =====
-- `astools_lsp_path` on what `astools_lsp_uri` writes.
use asterism_astools.Prelude.{
  ℕ, zero, suc, ◌+◌, ◌*◌, ◌/◌, ◌%◌, ◌≤◌, ◌<◌, ◌≡◌, refl, ap, ◌∙◌, ◌≢◌, inl, inr,
}
use asterism_astools.Prelude.{Bool, true, false, Option, none, some, [], ◌∷◌, ◌++◌, arith}
use asterism_astools.Prelude.{◌==◌, Bool-cases, Option-cases, agree_below, agree_below→eq}
use asterism_astools.Prelude.{length, get_or, length-append, All}
use asterism_astools.Prelude.{Bytes, str_eq, codes}
use asterism_astools.Utf8.{utf8_valid}
use asterism_astools.Uri.{
  hex, digits, is_plain, encode_byte, encode_path, lsp_uri, escaped, uri_byte, push, path_loop,
  accepted, lsp_path,
}

abbrev gives : Option ℕ → ℕ → Bool
gives none i = false
gives (some x) i = x == i

hex_table : (i : ℕ) → i < 16 → gives (hex (get_or digits i 0)) i ≡ true
unfolding agree_below hex
hex_table = agree_below→eq _ (λ _. true) 16 refl

hex-digits : (i : ℕ) → i < 16 → hex (get_or digits i 0) ≡ some i
hex-digits i h = elim (Option-cases (hex (get_or digits i 0))) [
  | inl missing ↦ ground (arith, hex_table i h)
  | inr (x, found) ↦ let same : x ≡ i = ground (arith, hex_table i h) in found ∙ ap some same
]

-- A byte that a path may hold.
abbrev pub IsPathByte : ℕ → Type 0
IsPathByte c = (c < 256) × (c ≢ 0) × (c ≢ b'\\')

escaped_back :
    (c : ℕ) (rest : Bytes)
    → c < 256
    → escaped (get_or digits (c / 16) 0 ∷ get_or digits (c % 16) 0 ∷ rest) ≡ some (c, rest)
unfolding escaped
escaped_back c rest h =
    let whole : 16 * (c / 16) + c % 16 ≡ c = omega arith in
    rw (escaped, hex-digits (c / 16) (omega arith), hex-digits (c % 16) (omega arith)) (rw whole)

path_loop_byte :
    (fuel n c : ℕ) (rest : Bytes)
    → IsPathByte c
    → n < 4095
    → path_loop (suc fuel) n (encode_byte c ++ rest) ≡ push c (path_loop fuel (n + 1) rest)
unfolding path_loop uri_byte encode_byte
path_loop_byte fuel n c rest (small, nonzero, plain) h = elim (Bool-cases (is_plain c)) [
  | inl p ↦ rw p (unfold is_plain in ground arith)
  | inr p ↦ rw p (ground (arith, escaped_back c rest small))
]

encode_byte_pos : (c : ℕ) → 0 < length (encode_byte c)
unfolding encode_byte
encode_byte_pos c = ground arith

encode_byte-le : (c : ℕ) → length (encode_byte c) ≤ 3
unfolding encode_byte
encode_byte-le c = ground arith

path_loop-encode_path :
    (p : Bytes) (fuel n : ℕ)
    → All IsPathByte p
    → n + length p ≤ 4095
    → length (encode_path p) ≤ fuel
    → path_loop fuel n (encode_path p) ≡ some p
unfolding encode_path
path_loop-encode_path [] fuel n h k l = unfold path_loop in refl
path_loop-encode_path (c ∷ p) zero n (h, hs) k l =
    absurd (omega (arith, encode_byte_pos c, length-append (encode_byte c) (encode_path p)))
path_loop-encode_path (c ∷ p) (suc fuel) n (h, hs) k l =
    path_loop_byte fuel n c (encode_path p) h (omega arith)
    ∙ rw (
        path_loop-encode_path p fuel (n + 1) hs (omega arith)
          (omega (arith, encode_byte_pos c, length-append (encode_byte c) (encode_path p))))

length-encode_path : (p : Bytes) → length (encode_path p) ≤ 3 * length p
unfolding encode_path
length-encode_path [] = omega arith
length-encode_path (c ∷ p) =
    omega
      (arith, encode_byte-le c, length-encode_path p, length-append (encode_byte c) (encode_path p))

slash_first : (c : ℕ) (p : Bytes) → c ≡ b'/' → encode_path (c ∷ p) ≡ b'/' ∷ encode_path p
unfolding encode_path encode_byte is_plain
slash_first c p e = rw e

-- For a path of bytes without a NUL or a backslash: the URI that the encoder gives is accepted by
-- the decoder, which gives the path back.
pub lsp_path-lsp_uri :
    (path uri : Bytes) → All IsPathByte path → lsp_uri path ≡ some uri → lsp_path uri ≡ some path
unfolding lsp_uri
lsp_path-lsp_uri [] uri h e = ground arith
lsp_path-lsp_uri (c ∷ p) uri h e =
    let (root, short, valid, same) : (c ≡ b'/')
        × (length (c ∷ p) < 4096)
        × (utf8_valid (c ∷ p) ≡ true)
        × (codes "file://" ++ encode_path (c ∷ p) ≡ uri) =
      (ground arith, ground arith, ground arith, ground arith) in
    rw (← same) (
      unfold lsp_path accepted in
      rw
        (path_loop-encode_path (c ∷ p) (length (encode_path (c ∷ p))) 0 h (omega arith)
          (omega arith))
        (rw (slash_first c p root) (unfold str_eq in ground (arith, length-encode_path p))))
