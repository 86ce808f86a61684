-- ===== src/Utf8/Sequences.antt =====
-- One round of the loop: `utf8_seq` against the encoding of one scalar value.
use asterism_astools.Prelude.{
  ℕ, zero, suc, ◌+◌, ◌-◌, ◌*◌, ◌/◌, ◌%◌, ◌<◌, ◌≡◌, refl, ◌∷◌, ◌++◌, Bytes, length, arith, within,
  agree_below, agree_below→eq,
}
use asterism_astools.Prelude.{All, drop, [], ◌≤◌, ◌≢◌, ◌⊎◌}
use asterism_astools.Utf8.{is_continuation, utf8_seq}
use asterism_astools.Utf8.Spec.{IsScalar, encode}

-- The mask test is a range of bytes.
pub is_continuation-within : (b : ℕ) → b < 256 → is_continuation b ≡ within 0x80 0xBF b
unfolding agree_below
is_continuation-within = agree_below→eq _ _ 256 refl

pub utf8_seq-encode :
    (v : ℕ) (rest : Bytes) → IsScalar v → utf8_seq (encode v ++ rest) ≡ length (encode v)
unfolding utf8_seq encode
utf8_seq-encode v rest h = ground (
  arith,
  is_continuation-within (0x80 + v % 64),
  is_continuation-within (0x80 + v / 64 % 64),
  is_continuation-within (0x80 + v / 4096 % 64),
)

-- The scalar value that a sequence of `n` bytes encodes.
pub scalar_of : ℕ → Bytes → ℕ
scalar_of (suc (suc zero)) (c ∷ b1 ∷ _) = (c - 0xC0) * 64 + (b1 - 0x80)
scalar_of (suc (suc (suc zero))) (c ∷ b1 ∷ b2 ∷ _) =
    (c - 0xE0) * 4096 + (b1 - 0x80) * 64 + (b2 - 0x80)
scalar_of (suc (suc (suc (suc zero)))) (c ∷ b1 ∷ b2 ∷ b3 ∷ _) =
    (c - 0xF0) * 262144 + (b1 - 0x80) * 4096 + (b2 - 0x80) * 64 + (b3 - 0x80)
scalar_of _ (c ∷ _) = c
scalar_of _ _ = 0

-- What the tests say of the `n` bytes of a sequence.
IsSequence : ℕ → Bytes → Type 0
IsSequence (suc zero) (c ∷ _) = c < 0x80
IsSequence (suc (suc zero)) (c ∷ b1 ∷ _) = (0xC2 ≤ c) × (c < 0xE0) × (0x80 ≤ b1) × (b1 ≤ 0xBF)
IsSequence (suc (suc (suc zero))) (c ∷ b1 ∷ b2 ∷ _) =
    (0xE0 ≤ c)
    × (c < 0xF0)
    × (0x80 ≤ b1)
    × (b1 ≤ 0xBF)
    × (0x80 ≤ b2)
    × (b2 ≤ 0xBF)
    × (0xE0 * 64 + 0x20 ≤ c * 64 + b1 - 0x80)
    × ((c ≢ 0xED) ⊎ (b1 ≤ 0x9F))
IsSequence (suc (suc (suc (suc zero)))) (c ∷ b1 ∷ b2 ∷ b3 ∷ _) =
    (0xF0 ≤ c)
    × (c < 0xF5)
    × (0x80 ≤ b1)
    × (b1 ≤ 0xBF)
    × (0x80 ≤ b2)
    × (b2 ≤ 0xBF)
    × (0x80 ≤ b3)
    × (b3 ≤ 0xBF)
    × (0xF0 * 64 + 0x10 ≤ c * 64 + b1 - 0x80)
    × (c * 64 + b1 - 0x80 < 0xF4 * 64 + 0x10)
IsSequence _ _ = ⊥

utf8_seq-IsSequence :
    (s : Bytes) (n : ℕ) → All (λ b. b < 256) s → utf8_seq s ≡ suc n → IsSequence (suc n) s
unfolding utf8_seq IsSequence
utf8_seq-IsSequence [] n h e = cc
utf8_seq-IsSequence (c ∷ []) zero h e = ground arith
utf8_seq-IsSequence (c ∷ []) (suc n) h e = ground arith
utf8_seq-IsSequence (c ∷ b1 ∷ []) zero h e = ground (arith, is_continuation-within b1)
utf8_seq-IsSequence (c ∷ b1 ∷ []) (suc zero) h e = ground (arith, is_continuation-within b1)
utf8_seq-IsSequence (c ∷ b1 ∷ []) (suc (suc n)) h e = ground (arith, is_continuation-within b1)
utf8_seq-IsSequence (c ∷ b1 ∷ b2 ∷ []) zero h e = ground arith
utf8_seq-IsSequence (c ∷ b1 ∷ b2 ∷ []) (suc zero) h e = ground (arith, is_continuation-within b1)
utf8_seq-IsSequence (c ∷ b1 ∷ b2 ∷ []) (suc (suc zero)) h e =
    ground (arith, is_continuation-within b1, is_continuation-within b2)
utf8_seq-IsSequence (c ∷ b1 ∷ b2 ∷ []) (suc (suc (suc n))) h e = ground arith
utf8_seq-IsSequence (c ∷ b1 ∷ b2 ∷ b3 ∷ r) zero h e = ground arith
utf8_seq-IsSequence (c ∷ b1 ∷ b2 ∷ b3 ∷ r) (suc zero) h e =
    ground (arith, is_continuation-within b1)
utf8_seq-IsSequence (c ∷ b1 ∷ b2 ∷ b3 ∷ r) (suc (suc zero)) h e =
    ground (arith, is_continuation-within b1, is_continuation-within b2)
utf8_seq-IsSequence (c ∷ b1 ∷ b2 ∷ b3 ∷ r) (suc (suc (suc zero))) h e =
    ground (arith, is_continuation-within b1, is_continuation-within b2, is_continuation-within b3)
utf8_seq-IsSequence (c ∷ b1 ∷ b2 ∷ b3 ∷ r) (suc (suc (suc (suc n)))) h e = ground arith

-- Such bytes encode a scalar value.
IsSequence-encode :
    (n : ℕ) (s : Bytes)
    → IsSequence n s
    → IsScalar (scalar_of n s) × (encode (scalar_of n s) ++ drop n s ≡ s)
unfolding IsSequence scalar_of encode
IsSequence-encode (suc zero) (c ∷ _) h = ground arith
IsSequence-encode (suc (suc zero)) (c ∷ b1 ∷ _) h = ground arith
IsSequence-encode (suc (suc (suc zero))) (c ∷ b1 ∷ b2 ∷ _) h = ground arith
IsSequence-encode (suc (suc (suc (suc zero)))) (c ∷ b1 ∷ b2 ∷ b3 ∷ _) h = ground arith
IsSequence-encode _ _ h = absurd h

-- A sequence that is accepted encodes a scalar value, and the rest of the input follows it.
pub utf8_seq_sound :
    (s : Bytes) (n : ℕ)
    → All (λ b. b < 256) s
    → utf8_seq s ≡ suc n
    → IsScalar (scalar_of (suc n) s) × (encode (scalar_of (suc n) s) ++ drop (suc n) s ≡ s)
utf8_seq_sound s n h e = IsSequence-encode (suc n) s (utf8_seq-IsSequence s n h e)
