-- ===== src/Utf8/Spec.antt =====
-- UTF-8 as RFC 3629 defines it: the scalar values, and the bytes that encode each.
use asterism_astools.Prelude.{
  ℕ, ◌+◌, ◌/◌, ◌%◌, ◌<◌, ◌≤◌, ◌⊎◌, List, [], ◌∷◌, ◌++◌, Bytes, ltb, if◌then◌else◌,
}

-- A code point that is no surrogate.
abbrev pub IsScalar : ℕ → Type 0
IsScalar v = (v < 0xD800) ⊎ ((0xE000 ≤ v) × (v < 0x110000))

-- The byte 10xxxxxx that holds six bits.
abbrev pub continuation : ℕ → ℕ
continuation bits = 0x80 + bits % 64

unfoldable pub encode : ℕ → Bytes
encode v =
    if ltb v 0x80
    then v ∷ []
    else if ltb v 0x800
    then (0xC0 + v / 64) ∷ continuation v ∷ []
    else if ltb v 0x10000
    then (0xE0 + v / 4096) ∷ continuation (v / 64) ∷ continuation v ∷ []
    else (0xF0 + v / 262144) ∷ continuation (v / 4096) ∷ continuation (v / 64) ∷ continuation v ∷ []

unfoldable pub encode_all : List ℕ → Bytes
encode_all [] = []
encode_all (v ∷ vs) = encode v ++ encode_all vs
