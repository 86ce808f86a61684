-- ===== src/Callline/Tokens.antt =====
-- The pieces that src/callline.c cuts a line of text into.
use asterism_astools.Prelude.{◌≤◌, ◌≡◌, refl, ap, inl, inr}
use asterism_astools.Prelude.{true, false, ◌||◌, Option, none, some, [], ◌∷◌, ◌++◌, arith}
use asterism_astools.Prelude.{◌==◌, Bool-cases, Option-cases}
use asterism_astools.Prelude.{length, All}
use asterism_astools.Prelude.{Bytes}
use asterism_astools.Callline.{
  slug_char, ver_char, ref_token_char, all_of, skip_blanks, take_token, split_dot, split_at,
  version_ok, is_nil,
}
use asterism_astools.Callline.Shape.{IsBlank, IsSlugChar, IsVersionChar, IsVersionPart}

pub skip_blanks-blanks :
    (s : Bytes) → (blanks : Bytes) × (s ≡ blanks ++ skip_blanks s) × All IsBlank blanks
unfolding skip_blanks
skip_blanks-blanks [] = ([], refl, tt)
skip_blanks-blanks (c ∷ s) = elim (Bool-cases (c == b' ' || c == 9)) [
  | inl blank ↦
      let (blanks, same, all) = skip_blanks-blanks s in
      (c ∷ blanks, rw blank (ap (λ t. c ∷ t) same), (ground arith, all))
  | inr unlike ↦ ([], rw unlike refl, tt)
]

pub take_token-append : (s : Bytes) → s ≡ (take_token s).0 ++ (take_token s).1
unfolding take_token
take_token-append [] = refl
take_token-append (c ∷ s) = elim (Bool-cases (ref_token_char c)) [
  | inl member ↦ rw member (ap (λ t. c ∷ t) (take_token-append s))
  | inr outside ↦ rw outside refl
]

pub split_dot-append :
    (s : Bytes) {front behind : Bytes}
    → split_dot s ≡ some (front, behind)
    → s ≡ front ++ (b'.' ∷ behind)
unfolding split_dot
split_dot-append [] e = cc
split_dot-append (c ∷ s) {front} {behind} e = elim (Option-cases (split_dot s)) [
  | inl missing ↦ elim (Bool-cases (c == b'.')) [
    | inl dot ↦
        let (first, second) : ([] ≡ front) × (s ≡ behind) = (ground arith, ground arith) in
        let point : c ≡ b'.' = ground arith in rw (← first, ← second, point) refl
    | inr unlike ↦ ground arith
  ]
  | inr ((front2, behind2), found) ↦
      let (first, second) : (c ∷ front2 ≡ front) × (behind2 ≡ behind) =
        (ground arith, ground arith) in
      rw (← first, ← second) (ap (λ t. c ∷ t) (split_dot-append s found))
]

pub all_of-slug : (s : Bytes) → all_of slug_char s ≡ true → All IsSlugChar s
unfolding all_of
all_of-slug [] h = tt
all_of-slug (c ∷ s) h = (ground arith, all_of-slug s (ground arith))

all_of-version : (s : Bytes) → all_of ver_char s ≡ true → All IsVersionChar s
unfolding all_of
all_of-version [] h = tt
all_of-version (c ∷ s) h = (ground arith, all_of-version s (ground arith))

pub named : (s : Bytes) → is_nil s ≡ false → 1 ≤ length s
named [] h = cc
named (c ∷ s) h = omega arith

-- The version with its `@`.
abbrev pub marked : Option Bytes → Bytes
marked none = []
marked (some v) = b'@' ∷ v

pub marked-IsVersionPart : (o : Option Bytes) → version_ok o ≡ true → IsVersionPart (marked o)
unfolding version_ok
marked-IsVersionPart none h = tt
marked-IsVersionPart (some v) h = (refl, named v (ground arith), all_of-version v (ground arith))

pub split_at-append : (s : Bytes) → s ≡ (split_at s).0 ++ marked (split_at s).1
unfolding split_at
split_at-append [] = refl
split_at-append (c ∷ s) = elim (Bool-cases (c == b'@')) [
  | inl found ↦ let same : c ≡ b'@' = ground arith in rw found (rw same refl)
  | inr outside ↦ rw outside (ap (λ t. c ∷ t) (split_at-append s))
]
