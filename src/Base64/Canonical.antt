-- ===== src/Base64/Canonical.antt =====
-- The texts that `astools_base64_decode` accepts.
use asterism_astools.Prelude.{ℕ, ◌+◌, ◌*◌, ◌/◌, ◌%◌, ◌<◌, ◌≡◌, refl, sym, ap, ◌∙◌}
use asterism_astools.Prelude.{true, false, Option, none, some, [], ◌∷◌, ◌++◌, arith}
use asterism_astools.Prelude.{Bytes, AreBytes}
use mathlib.Core.List.{append-nil}
use asterism_astools.Prelude.{ℕ_discrete}
use asterism_astools.Base64.{b64_val, decode_group, joined, base64_encode, base64_decode}
use asterism_astools.Base64.Values.{letter, letter-b64_val, b64_val-lt}
use asterism_astools.Base64.Reference.{
  is_letter, last_group, inner_group, reference, decode-reference,
}
use asterism_astools.Base64.RoundTrip.{
  encode_three, encode_two, encode_one, group_three, group_two, group_one,
}

abbrev IsLetter : ℕ → Type 0
IsLetter c = (c < 256) × (is_letter c ≡ true)

letter_value : (c : ℕ) → IsLetter c → b64_val c < 64
letter_value c h = ground (arith, b64_val-lt c)

letter_back : (c v : ℕ) → IsLetter c → v ≡ b64_val c → letter v ≡ c
letter_back c v h e = rw e (ground (arith, letter-b64_val c))

module _ (x0 x1 x2 x3 : ℕ) where
  full_canonical :
      (rest : Bytes) {g : Bytes}
      → IsLetter x0
      → IsLetter x1
      → IsLetter x2
      → IsLetter x3
      → decode_group true 0 x0 x1 x2 x3 ≡ some g
      → base64_encode (g ++ rest) ≡ x0 ∷ x1 ∷ x2 ∷ x3 ∷ base64_encode rest
  full_canonical rest {g} h0 h1 h2 h3 e =
      let v0 : ℕ = b64_val x0 in
      let v1 : ℕ = b64_val x1 in
      let v2 : ℕ = b64_val x2 in
      let v3 : ℕ = b64_val x3 in
      let a : ℕ = v0 * 4 + v1 / 16 in
      let b : ℕ = v1 % 16 * 16 + v2 / 4 in
      let c : ℕ = v2 % 4 * 64 + v3 in
      let l0 : v0 < 64 = letter_value x0 h0 in
      let l1 : v1 < 64 = letter_value x1 h1 in
      let l2 : v2 < 64 = letter_value x2 h2 in
      let l3 : v3 < 64 = letter_value x3 h3 in
      let same : g ≡ a ∷ b ∷ c ∷ [] = cc (group_three x0 x1 x2 x3 l0 l1 l2 l3, e) in
      rw same (
        encode_three a b c rest (omega arith) (omega arith) (omega arith)
        ∙ rw (
          letter_back x0 (a / 4) h0 (omega arith),
          letter_back x1 (a % 4 * 16 + b / 16) h1 (omega arith),
          letter_back x2 (b % 16 * 4 + c / 64) h2 (omega arith),
          letter_back x3 (c % 64) h3 (omega arith),
        ))

  two_canonical :
      {g : Bytes}
      → IsLetter x0
      → IsLetter x1
      → IsLetter x2
      → decode_group false 1 x0 x1 x2 b'=' ≡ some g
      → base64_encode g ≡ x0 ∷ x1 ∷ x2 ∷ b'=' ∷ []
  two_canonical {g = g} h0 h1 h2 e =
      let v0 : ℕ = b64_val x0 in
      let v1 : ℕ = b64_val x1 in
      let v2 : ℕ = b64_val x2 in
      let a : ℕ = v0 * 4 + v1 / 16 in
      let b : ℕ = v1 % 16 * 16 + v2 / 4 in
      let l0 : v0 < 64 = letter_value x0 h0 in
      let l1 : v1 < 64 = letter_value x1 h1 in
      let l2 : v2 < 64 = letter_value x2 h2 in
      let (z, same) : (v2 % 4 ≡ 0) × (g ≡ a ∷ b ∷ []) =
        ground (arith, group_two x0 x1 x2 b'=' l0 l1 l2) in
      rw same (
        encode_two a b (omega arith) (omega arith)
        ∙ rw (
          letter_back x0 (a / 4) h0 (omega arith),
          letter_back x1 (a % 4 * 16 + b / 16) h1 (omega arith),
          letter_back x2 (b % 16 * 4) h2 (omega arith),
        ))

  one_canonical :
      {g : Bytes}
      → IsLetter x0
      → IsLetter x1
      → decode_group false 2 x0 x1 b'=' b'=' ≡ some g
      → base64_encode g ≡ x0 ∷ x1 ∷ b'=' ∷ b'=' ∷ []
  one_canonical {g = g} h0 h1 e =
      let v0 : ℕ = b64_val x0 in
      let v1 : ℕ = b64_val x1 in
      let a : ℕ = v0 * 4 + v1 / 16 in
      let l0 : v0 < 64 = letter_value x0 h0 in
      let l1 : v1 < 64 = letter_value x1 h1 in
      let (z, same) : (v1 % 16 ≡ 0) × (g ≡ a ∷ []) =
        ground (arith, group_one x0 x1 b'=' b'=' l0 l1) in
      rw same (
        encode_one a (omega arith)
        ∙ rw
            (letter_back x0 (a / 4) h0 (omega arith), letter_back x1 (a % 4 * 16) h1 (omega arith)))

  last_canonical :
      {g : Bytes}
      → AreBytes (x0 ∷ x1 ∷ x2 ∷ x3 ∷ [])
      → last_group x0 x1 x2 x3 ≡ some g
      → base64_encode g ≡ x0 ∷ x1 ∷ x2 ∷ x3 ∷ []
  unfolding last_group
  last_canonical {g} h e = elim (ℕ_discrete x3 b'=') [
    | yes p ↦ elim (ℕ_discrete x2 b'=') [
      | yes q ↦ ground (arith, one_canonical {g = g})
      | no q ↦ ground (arith, two_canonical {g = g})
    ]
    | no p ↦ ground (arith, full_canonical [] {g = g}, append-nil g, empty)
  ]
    where
      empty : base64_encode [] ≡ []
      empty = unfold base64_encode in refl

joined_inv :
    (o m : Option Bytes) {bs : Bytes}
    → joined o m ≡ some bs
    → (g more : Bytes) × (o ≡ some g) × (m ≡ some more) × (g ++ more ≡ bs)
joined_inv none m e = cc
joined_inv (some g) none e = cc
joined_inv (some g) (some more) e = (g, more, refl, refl, cc)

inner_canonical :
    (x0 x1 x2 x3 : ℕ) (rest : Bytes) {g : Bytes}
    → (x0 < 256) × (x1 < 256) × (x2 < 256) × (x3 < 256)
    → inner_group x0 x1 x2 x3 ≡ some g
    → base64_encode (g ++ rest) ≡ x0 ∷ x1 ∷ x2 ∷ x3 ∷ base64_encode rest
unfolding inner_group
inner_canonical x0 x1 x2 x3 rest {g} h e = ground (arith, full_canonical x0 x1 x2 x3 rest {g = g})

encode-reference :
    (s : Bytes) {bs : Bytes} → AreBytes s → reference s ≡ some bs → base64_encode bs ≡ s
unfolding reference
encode-reference [] {bs} h e = let empty : bs ≡ [] = cc in rw empty (unfold base64_encode in refl)
encode-reference (x0 ∷ []) h e = cc
encode-reference (x0 ∷ x1 ∷ []) h e = cc
encode-reference (x0 ∷ x1 ∷ x2 ∷ []) h e = cc
encode-reference (x0 ∷ x1 ∷ x2 ∷ x3 ∷ []) h e = last_canonical x0 x1 x2 x3 h e
encode-reference (x0 ∷ x1 ∷ x2 ∷ x3 ∷ y ∷ ys) h e =
    let (g, more, first, later, same) =
      joined_inv (inner_group x0 x1 x2 x3) (reference (y ∷ ys)) e in
    rw (← same) (
      inner_canonical x0 x1 x2 x3 more (h.0, h.1.0, h.1.1.0, h.1.1.1.0) first
      ∙ ap (λ t. x0 ∷ x1 ∷ x2 ∷ x3 ∷ t) (encode-reference (y ∷ ys) h.1.1.1.1 later))

-- The decoder is strict: a text of bytes that it accepts is the encoding of what it returns.
pub encode-decode :
    (s : Bytes) {bs : Bytes} → AreBytes s → base64_decode s ≡ some bs → base64_encode bs ≡ s
encode-decode s h e = encode-reference s h (sym (decode-reference s) ∙ e)
