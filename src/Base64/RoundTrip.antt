-- ===== src/Base64/RoundTrip.antt =====
-- `astools_base64_decode` on what `astools_base64_encode` writes.
use asterism_astools.Prelude.{ℕ, ◌+◌, ◌*◌, ◌/◌, ◌%◌, ◌<◌, ◌≡◌, refl, ap, ◌∙◌}
use asterism_astools.Prelude.{true, false, none, some, [], ◌∷◌, arith}
use asterism_astools.Prelude.{◌==◌, if◌then◌else◌}
use asterism_astools.Prelude.{Bytes, AreBytes}
use asterism_astools.Base64.{b64_val, decode_group, joined, base64_encode, base64_decode}
use asterism_astools.Base64.Values.{
  letter, b64_val-letter, b64_val_pad, digit_at-letter, pack_bytes, pack_two, pack_digits,
  pack_digits_two, pack_digits_three, bit_and_three, bit_and_fifteen,
}
use asterism_astools.Base64.Reference.{
  is_letter, last_group, inner_group, reference, joined_nil, decode-reference,
}

-- The encoder, group by group.
pub encode_three :
    (a b c : ℕ) (rest : Bytes)
    → a < 256
    → b < 256
    → c < 256
    → base64_encode (a ∷ b ∷ c ∷ rest)
      ≡ letter (a / 4)
        ∷ letter (a % 4 * 16 + b / 16)
        ∷ letter (b % 16 * 4 + c / 64)
        ∷ letter (c % 64)
        ∷ base64_encode rest
unfolding base64_encode
encode_three a b c rest ha hb hc = rw (pack_bytes a b c hb hc) (simp digit_at-letter (ground arith))

pub encode_two :
    (a b : ℕ)
    → a < 256
    → b < 256
    → base64_encode (a ∷ b ∷ [])
      ≡ letter (a / 4) ∷ letter (a % 4 * 16 + b / 16) ∷ letter (b % 16 * 4) ∷ b'=' ∷ []
unfolding base64_encode
encode_two a b ha hb = rw (pack_two a b hb) (simp digit_at-letter (ground arith))

pub encode_one :
    (a : ℕ)
    → a < 256
    → base64_encode (a ∷ []) ≡ letter (a / 4) ∷ letter (a % 4 * 16) ∷ b'=' ∷ b'=' ∷ []
unfolding base64_encode
encode_one a ha = simp digit_at-letter (ground arith)

-- The decoder on one group, by the values of its characters.
module _ (x0 x1 x2 x3 : ℕ) where
  pub group_three :
      b64_val x0 < 64
      → b64_val x1 < 64
      → b64_val x2 < 64
      → b64_val x3 < 64
      → decode_group true 0 x0 x1 x2 x3
        ≡ some (
            (b64_val x0 * 4 + b64_val x1 / 16)
            ∷ (b64_val x1 % 16 * 16 + b64_val x2 / 4)
            ∷ (b64_val x2 % 4 * 64 + b64_val x3)
            ∷ [])
  unfolding decode_group
  group_three h0 h1 h2 h3 =
      rw (pack_digits (b64_val x0) (b64_val x1) (b64_val x2) (b64_val x3) h0 h1 h2 h3)
        (ground arith)

  pub group_two :
      b64_val x0 < 64
      → b64_val x1 < 64
      → b64_val x2 < 64
      → decode_group false 1 x0 x1 x2 x3 ≡ (
          if b64_val x2 % 4 == 0
          then some
              ((b64_val x0 * 4 + b64_val x1 / 16) ∷ (b64_val x1 % 16 * 16 + b64_val x2 / 4) ∷ [])
          else none)
  unfolding decode_group
  group_two h0 h1 h2 =
      rw (bit_and_three (b64_val x2))
        (rw (pack_digits_three (b64_val x0) (b64_val x1) (b64_val x2) h0 h1 h2) (ground arith))

  pub group_one :
      b64_val x0 < 64
      → b64_val x1 < 64
      → decode_group false 2 x0 x1 x2 x3
        ≡ (if b64_val x1 % 16 == 0 then some ((b64_val x0 * 4 + b64_val x1 / 16) ∷ []) else none)
  unfolding decode_group
  group_one h0 h1 =
      rw (bit_and_fifteen (b64_val x1))
        (rw (pack_digits_two (b64_val x0) (b64_val x1) h0 h1) (ground arith))

letter-is_letter : (i : ℕ) → i < 64 → is_letter (letter i) ≡ true
letter-is_letter i h = ground (arith, b64_val-letter i h)

letter-ne-pad : (i : ℕ) → i < 64 → (letter i == b'=') ≡ false
letter-ne-pad i h = ground (arith, b64_val-letter i h, b64_val_pad)

reference_letters :
    (x0 x1 x2 x3 : ℕ) (t : Bytes)
    → is_letter x0 ≡ true
    → is_letter x1 ≡ true
    → is_letter x2 ≡ true
    → is_letter x3 ≡ true
    → reference (x0 ∷ x1 ∷ x2 ∷ x3 ∷ t) ≡ joined (decode_group true 0 x0 x1 x2 x3) (reference t)
unfolding reference last_group inner_group
reference_letters x0 x1 x2 x3 [] h0 h1 h2 h3 =
    rw (h0, h1, h2, h3, joined_nil) (ground (arith, b64_val_pad))
reference_letters x0 x1 x2 x3 (y ∷ ys) h0 h1 h2 h3 = rw (h0, h1, h2, h3) refl

reference_one : (a : ℕ) → a < 256 → reference (base64_encode (a ∷ [])) ≡ some (a ∷ [])
unfolding reference last_group
reference_one a ha = rw (encode_one a ha) (
    ground (
      arith,
      letter-is_letter (a / 4),
      letter-is_letter (a % 4 * 16),
      b64_val-letter (a / 4),
      b64_val-letter (a % 4 * 16),
      group_one (letter (a / 4)) (letter (a % 4 * 16)) b'=' b'=',
    ))

reference_two :
    (a b : ℕ) → a < 256 → b < 256 → reference (base64_encode (a ∷ b ∷ [])) ≡ some (a ∷ b ∷ [])
unfolding reference last_group
reference_two a b ha hb = rw (encode_two a b ha hb) (
    ground (
      arith,
      letter-is_letter (a / 4),
      letter-is_letter (a % 4 * 16 + b / 16),
      letter-is_letter (b % 16 * 4),
      letter-ne-pad (b % 16 * 4),
      b64_val-letter (a / 4),
      b64_val-letter (a % 4 * 16 + b / 16),
      b64_val-letter (b % 16 * 4),
      group_two (letter (a / 4)) (letter (a % 4 * 16 + b / 16)) (letter (b % 16 * 4)) b'=',
    ))

reference_three :
    (a b c : ℕ) (rest : Bytes)
    → a < 256
    → b < 256
    → c < 256
    → reference (base64_encode (a ∷ b ∷ c ∷ rest))
      ≡ joined (some (a ∷ b ∷ c ∷ [])) (reference (base64_encode rest))
reference_three a b c rest ha hb hc =
    let i0 : ℕ = a / 4 in
    let i1 : ℕ = a % 4 * 16 + b / 16 in
    let i2 : ℕ = b % 16 * 4 + c / 64 in
    let i3 : ℕ = c % 64 in
    let v0 = b64_val-letter i0 (omega arith) in
    let v1 = b64_val-letter i1 (omega arith) in
    let v2 = b64_val-letter i2 (omega arith) in
    let v3 = b64_val-letter i3 (omega arith) in
    rw (encode_three a b c rest ha hb hc) (
      reference_letters (letter i0) (letter i1) (letter i2) (letter i3) (base64_encode rest)
        (letter-is_letter i0 (omega arith)) (letter-is_letter i1 (omega arith))
        (letter-is_letter i2 (omega arith)) (letter-is_letter i3 (omega arith))
      ∙ ap (λ g. joined g (reference (base64_encode rest))) {y = some (a ∷ b ∷ c ∷ [])}
          (group_three (letter i0) (letter i1) (letter i2) (letter i3) (omega arith) (omega arith)
              (omega arith) (omega arith)
            ∙ rw (v0, v1, v2, v3) (ground arith)))

reference-encode : (bs : Bytes) → AreBytes bs → reference (base64_encode bs) ≡ some bs
reference-encode [] h = unfold base64_encode reference in refl
reference-encode (a ∷ []) h = reference_one a h.0
reference-encode (a ∷ b ∷ []) h = reference_two a b h.0 h.1.0
reference-encode (a ∷ b ∷ c ∷ rest) h =
    reference_three a b c rest h.0 h.1.0 h.1.1.0
    ∙ ap (joined (some (a ∷ b ∷ c ∷ []))) (reference-encode rest h.1.1.1)

-- Decoding what the encoder wrote gives the bytes back, whatever bytes they are.
pub decode-encode : (bs : Bytes) → AreBytes bs → base64_decode (base64_encode bs) ≡ some bs
decode-encode bs h = decode-reference (base64_encode bs) ∙ reference-encode bs h
