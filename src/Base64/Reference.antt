-- ===== src/Base64/Reference.antt =====
-- A decoder by groups of four characters that needs no look ahead, for `base64_decode` of
-- src/util.c.
use asterism_astools.Prelude.{ℕ, suc, ◌-◌, ◌≤◌, ◌≡◌, refl, ap, ◌∙◌, ◌≢◌}
use asterism_astools.Prelude.{Bool, true, false, not, ◌&&◌, Option, none, some, [], ◌∷◌, arith}
use asterism_astools.Prelude.{◌==◌, if◌then◌else◌}
use asterism_astools.Prelude.{length, take}
use asterism_astools.Prelude.{Bytes}
use asterism_astools.Prelude.{ℕ_discrete}
use mathlib.Core.List.{append-nil}
use asterism_astools.Base64.{
  b64_val, minus_one, padding, all_digits, decode_group, decode_groups, joined, base64_decode,
}

abbrev pub is_letter : ℕ → Bool
is_letter c = not (b64_val c == minus_one)

unfoldable pub last_group : ℕ → ℕ → ℕ → ℕ → Option Bytes
last_group x0 x1 x2 x3 =
    if not (is_letter x0 && is_letter x1)
    then none
    else if x3 == b'='
    then (if x2 == b'='
        then decode_group false 2 x0 x1 x2 x3
        else if is_letter x2
        then decode_group false 1 x0 x1 x2 x3
        else none)
    else if is_letter x2 && is_letter x3
    then decode_group true 0 x0 x1 x2 x3
    else none

unfoldable pub inner_group : ℕ → ℕ → ℕ → ℕ → Option Bytes
inner_group x0 x1 x2 x3 =
    if is_letter x0 && is_letter x1 && is_letter x2 && is_letter x3
    then decode_group true 0 x0 x1 x2 x3
    else none

unfoldable pub reference : Bytes → Option Bytes
reference [] = some []
reference (x0 ∷ x1 ∷ x2 ∷ x3 ∷ []) = last_group x0 x1 x2 x3
reference (x0 ∷ x1 ∷ x2 ∷ x3 ∷ y ∷ ys) = joined (inner_group x0 x1 x2 x3) (reference (y ∷ ys))
reference _ = none

module _ (x0 x1 x2 x3 y : ℕ) (ys : Bytes) where
  abbrev whole : Bytes
  whole = x0 ∷ x1 ∷ x2 ∷ x3 ∷ y ∷ ys

  padding-le : (s : Bytes) (n : ℕ) → padding s n ≤ 2
  unfolding padding
  padding-le s n = ground arith

  padding_cons : 1 ≤ length ys → padding whole (length whole) ≡ padding (y ∷ ys) (length (y ∷ ys))
  unfolding padding
  padding_cons h =
      let last : length whole - 1 ≡ suc (suc (suc (suc (length (y ∷ ys) - 1)))) = omega arith in
      let second : length whole - 2 ≡ suc (suc (suc (suc (length (y ∷ ys) - 2)))) = omega arith in
      rw (last, second) refl

  all_digits_cons :
      (p : ℕ)
      → p ≤ length (y ∷ ys)
      → all_digits (take (length whole - p) whole) ≡ (
          is_letter x0
          && (is_letter x1
              && (is_letter x2
                  && (is_letter x3 && all_digits (take (length (y ∷ ys) - p) (y ∷ ys))))))
  unfolding all_digits
  all_digits_cons p h =
      let longer : length whole - p ≡ suc (suc (suc (suc (length (y ∷ ys) - p)))) = omega arith in
      rw longer refl

  decode_groups_cons :
      (p : ℕ)
      → decode_groups p whole ≡ joined (decode_group true 0 x0 x1 x2 x3) (decode_groups p (y ∷ ys))
  unfolding decode_groups decode_group
  decode_groups_cons p = refl

  decode_cons_short : length ys ≡ 0 → base64_decode whole ≡ none
  unfolding base64_decode
  decode_cons_short h = ground arith

  decode_cons :
      1 ≤ length ys
      → base64_decode whole ≡ joined (inner_group x0 x1 x2 x3) (base64_decode (y ∷ ys))
  unfolding base64_decode inner_group
  decode_cons h =
      let p : ℕ = padding (y ∷ ys) (length (y ∷ ys)) in
      let small : p ≤ 2 = padding-le (y ∷ ys) (length (y ∷ ys)) in
      rw (padding_cons h)
        (rw (all_digits_cons p (omega arith)) (rw (decode_groups_cons p) (ground arith)))

pub joined_nil : (o : Option Bytes) → joined o (some []) ≡ o
joined_nil none = refl
joined_nil (some bytes) = ap some (append-nil bytes)

module _ (x0 x1 x2 x3 : ℕ) where
  abbrev four : Bytes
  four = x0 ∷ x1 ∷ x2 ∷ x3 ∷ []

  decode_four_unpadded : x3 ≢ b'=' → base64_decode four ≡ last_group x0 x1 x2 x3
  unfolding base64_decode last_group all_digits decode_groups
  decode_four_unpadded h =
      let none_padded : padding four 4 ≡ 0 = unfold padding in ground arith in
      rw none_padded (rw joined_nil (ground arith))

  decode_four_one : x3 ≡ b'=' → x2 ≢ b'=' → base64_decode four ≡ last_group x0 x1 x2 x3
  unfolding base64_decode last_group all_digits decode_groups
  decode_four_one h k =
      let one_padded : padding four 4 ≡ 1 = unfold padding in ground arith in
      rw one_padded (rw joined_nil (ground arith))

  decode_four_two : x3 ≡ b'=' → x2 ≡ b'=' → base64_decode four ≡ last_group x0 x1 x2 x3
  unfolding base64_decode last_group all_digits decode_groups
  decode_four_two h k =
      let two_padded : padding four 4 ≡ 2 = unfold padding in ground arith in
      rw two_padded (rw joined_nil (ground arith))

  decode_four : base64_decode four ≡ last_group x0 x1 x2 x3
  decode_four = elim (ℕ_discrete x3 b'=') [
    | yes e ↦ elim (ℕ_discrete x2 b'=') [ yes f ↦ decode_four_two e f | no f ↦ decode_four_one e f ]
    | no e ↦ decode_four_unpadded e
  ]

-- The decoder is the reference, on every text.
pub decode-reference : (s : Bytes) → base64_decode s ≡ reference s
unfolding reference
decode-reference [] = unfold base64_decode in refl
decode-reference (x0 ∷ []) = unfold base64_decode in refl
decode-reference (x0 ∷ x1 ∷ []) = unfold base64_decode in refl
decode-reference (x0 ∷ x1 ∷ x2 ∷ []) = unfold base64_decode in refl
decode-reference (x0 ∷ x1 ∷ x2 ∷ x3 ∷ []) = decode_four x0 x1 x2 x3
decode-reference (x0 ∷ x1 ∷ x2 ∷ x3 ∷ y ∷ []) =
    ground (arith, decode_cons_short x0 x1 x2 x3 y [] refl)
decode-reference (x0 ∷ x1 ∷ x2 ∷ x3 ∷ y ∷ z ∷ zs) =
    decode_cons x0 x1 x2 x3 y (z ∷ zs) (omega arith)
    ∙ ap (joined (inner_group x0 x1 x2 x3)) (decode-reference (y ∷ z ∷ zs))
