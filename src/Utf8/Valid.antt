-- ===== src/Utf8/Valid.antt =====
-- `jx_utf8_valid` against RFC 3629.
use asterism_astools.Prelude.{ℕ, zero, suc, ◌≤◌, ◌<◌, ◌≡◌, refl, ◌∙◌, ◌↔◌, inl, inr}
use asterism_astools.Prelude.{true, List, [], ◌∷◌, ◌++◌, arith}
use asterism_astools.Prelude.{
  length, drop, length-append, drop-append_length, All-drop, zero_or_suc, All,
}
use asterism_astools.Prelude.{Bytes, AreBytes}
use asterism_astools.Utf8.{utf8_seq, utf8_valid_loop, utf8_valid}
use asterism_astools.Utf8.Spec.{IsScalar, encode, encode_all}
use asterism_astools.Utf8.Sequences.{utf8_seq-encode, utf8_seq_sound, scalar_of}

valid_loop_step :
    (fuel n : ℕ) (s : Bytes)
    → utf8_seq s ≡ suc n
    → utf8_valid_loop (suc fuel) s ≡ utf8_valid_loop fuel (drop (suc n) s)
unfolding utf8_valid_loop
valid_loop_step fuel n [] e = unfold utf8_seq in cc
valid_loop_step fuel n (c ∷ rest) e = ground arith

encode_pos : (v : ℕ) → 0 < length (encode v)
unfolding encode
encode_pos v = ground arith

valid_loop-encode_all :
    (vs : List ℕ) (fuel : ℕ)
    → All IsScalar vs
    → length (encode_all vs) ≤ fuel
    → utf8_valid_loop fuel (encode_all vs) ≡ true
unfolding encode_all
valid_loop-encode_all [] fuel h l = unfold utf8_valid_loop in refl
valid_loop-encode_all (v ∷ vs) zero (hv, hvs) l =
    absurd (omega (arith, encode_pos v, length-append (encode v) (encode_all vs)))
valid_loop-encode_all (v ∷ vs) (suc fuel) (hv, hvs) l = elim (zero_or_suc (length (encode v))) [
  | inl e ↦ absurd (omega (arith, encode_pos v))
  | inr (n, e) ↦
      valid_loop_step fuel n (encode v ++ encode_all vs) (utf8_seq-encode v (encode_all vs) hv ∙ e)
      ∙ rw (← e) (
          rw (drop-append_length (encode v) (encode_all vs)) (
            valid_loop-encode_all vs fuel hvs
              (omega (arith, length-append (encode v) (encode_all vs)))))
]

valid_loop_sound :
    (fuel : ℕ) (s : Bytes)
    → AreBytes s
    → utf8_valid_loop fuel s ≡ true
    → (vs : List ℕ) × All IsScalar vs × (encode_all vs ≡ s)
unfolding encode_all
valid_loop_sound fuel [] h e = ([], tt, refl)
valid_loop_sound zero (c ∷ rest) h e = unfold utf8_valid_loop in cc
valid_loop_sound (suc fuel) (c ∷ rest) h e = elim (zero_or_suc (utf8_seq (c ∷ rest))) [
  | inl z ↦ unfold utf8_valid_loop in absurd (ground arith)
  | inr (n, z) ↦
      let (scalar, splits) = utf8_seq_sound (c ∷ rest) n h z in
      let (vs, all, same) =
        valid_loop_sound fuel (drop (suc n) (c ∷ rest))
          (All-drop (λ b. b < 256) (suc n) (c ∷ rest) h)
          (rw (valid_loop_step fuel n (c ∷ rest) z) at e) in
      (scalar_of (suc n) (c ∷ rest) ∷ vs, (scalar, all), rw same splits)
]

-- On bytes, `jx_utf8_valid` answers true exactly when the buffer is the concatenation of the
-- RFC 3629 encodings of some Unicode scalar values: no overlong form, no surrogate, nothing above
-- U+10FFFF and no cut sequence.
pub utf8_valid_iff :
    (s : Bytes)
    → AreBytes s
    → (utf8_valid s ≡ true) ↔ ((vs : List ℕ) × All IsScalar vs × (encode_all vs ≡ s))
unfolding utf8_valid
utf8_valid_iff s h = (
  valid_loop_sound (length s) s h,
  λ (vs, all, same). rw (← same) (valid_loop-encode_all vs _ all (omega arith)),
)

-- A sequence that is accepted lies within the bytes that are available.
pub utf8_seq-le-length : (s : Bytes) → utf8_seq s ≤ length s
unfolding utf8_seq
utf8_seq-le-length [] = omega arith
utf8_seq-le-length (c ∷ []) = ground arith
utf8_seq-le-length (c ∷ b1 ∷ []) = ground arith
utf8_seq-le-length (c ∷ b1 ∷ b2 ∷ []) = ground arith
utf8_seq-le-length (c ∷ b1 ∷ b2 ∷ b3 ∷ r) = ground arith
