-- ===== src/Text/Trim.antt =====
-- Trimming, blanks and slugs of src/util.c.
use asterism_astools.Prelude.{ℕ, ◌+◌, ◌≡◌, refl, sym, ap, ◌∙◌, ◌↔◌, inl, inr}
use asterism_astools.Prelude.{Bool, true, false, ◌&&◌, ◌||◌, [], ◌∷◌, arith}
use asterism_astools.Prelude.{leb, ◌==◌, if◌then◌else◌}
use asterism_astools.Prelude.{length, list_cases}
use asterism_astools.Prelude.{Bytes, str_eq, peek}
use asterism_astools.Text.{
  is_ascii_space, trim_end, trim_start, str_trim, str_blank, slug_start, slug_loop, slug_valid,
}

abbrev pub all_of : (ℕ → Bool) → Bytes → Bool
all_of test [] = true
all_of test (c ∷ s) = test c && all_of test s

trim_start-trim_start : (s : Bytes) → trim_start (trim_start s) ≡ trim_start s
unfolding trim_start
trim_start-trim_start [] = refl
trim_start-trim_start (c ∷ s) = ground (arith, trim_start-trim_start s)

trim_end_cons :
    (c : ℕ) (s : Bytes) (d : ℕ) (t : Bytes) → trim_end s ≡ d ∷ t → trim_end (c ∷ s) ≡ c ∷ d ∷ t
unfolding trim_end
trim_end_cons c s d t e = rw e refl

trim_end_last :
    (c : ℕ) (s : Bytes)
    → trim_end s ≡ []
    → trim_end (c ∷ s) ≡ (if is_ascii_space c then [] else c ∷ [])
unfolding trim_end
trim_end_last c s e = rw e refl

trim_end-trim_end : (s : Bytes) → trim_end (trim_end s) ≡ trim_end s
trim_end-trim_end [] = unfold trim_end in refl
trim_end-trim_end (c ∷ s) = elim (list_cases (trim_end s)) [
  | inl e ↦ rw (trim_end_last c s e) (kept (is_ascii_space c) refl)
  | inr (d, t, e) ↦
      rw (trim_end_cons c s d t e) (trim_end_cons c (d ∷ t) d t (rw e at (trim_end-trim_end s)))
]
  where
    kept :
        (b : Bool)
        → b ≡ is_ascii_space c
        → trim_end (if b then [] else c ∷ []) ≡ (if b then [] else c ∷ [])
    kept true e = unfold trim_end in refl
    kept false e = unfold trim_end in ground arith

-- The two loops commute, since neither empties a text that is not blank.
trim_start-trim_end : (s : Bytes) → trim_end (trim_start s) ≡ trim_start (trim_end s)
unfolding trim_start
trim_start-trim_end [] = unfold trim_end in refl
trim_start-trim_end (c ∷ s) = elim (list_cases (trim_end s)) [
  | inl e ↦ ground (arith, trim_end_last c s e, trim_start-trim_end s)
  | inr (d, t, e) ↦ ground (arith, trim_end_cons c s d t e, trim_start-trim_end s)
]

-- Trimming twice is trimming once.
str_trim-idempotent : (s : Bytes) → str_trim (str_trim s) ≡ str_trim s
unfolding str_trim
str_trim-idempotent s =
    ap trim_start (trim_start-trim_end (trim_end s))
    ∙ trim_start-trim_start (trim_end (trim_end s))
    ∙ ap trim_start (trim_end-trim_end s)

str_blank-trim_start : (s : Bytes) → (str_blank s ≡ true) ↔ (trim_start s ≡ [])
unfolding str_blank trim_start
str_blank-trim_start [] = ground arith
str_blank-trim_start (c ∷ s) = ground (arith, str_blank-trim_start s)

str_blank-trim_end : (s : Bytes) → (str_blank s ≡ true) ↔ (trim_end s ≡ [])
unfolding str_blank
str_blank-trim_end [] = unfold trim_end in ground arith
str_blank-trim_end (c ∷ s) = elim (list_cases (trim_end s)) [
  | inl e ↦ ground (arith, trim_end_last c s e, str_blank-trim_end s)
  | inr (d, t, e) ↦ ground (arith, trim_end_cons c s d t e, str_blank-trim_end s)
]

-- A text is blank exactly when trimming leaves nothing.
str_blank-str_trim : (s : Bytes) → (str_blank s ≡ true) ↔ (str_trim s ≡ [])
unfolding str_trim
str_blank-str_trim s = (
  λ blank. unfold trim_start in rw ((str_blank-trim_end s).0 blank) refl,
  λ e. (str_blank-trim_end s).1 (
      sym (trim_end-trim_end s)
      ∙ (str_blank-trim_end (trim_end s)).0 ((str_blank-trim_start (trim_end s)).1 e)),
)

-- Trimming twice is trimming once, and a text is blank exactly when trimming leaves nothing.
pub str_trim_exact :
    (s : Bytes) → (str_trim (str_trim s) ≡ str_trim s) × ((str_blank s ≡ true) ↔ (str_trim s ≡ []))
str_trim_exact s = (str_trim-idempotent s, str_blank-str_trim s)

slug_loop_is :
    (i : ℕ) (s : Bytes)
    → slug_loop i s
      ≡ (all_of (λ c. slug_start c || c == b'-') s && (leb (i + length s) 64 || str_eq s []))
unfolding slug_loop str_eq
slug_loop_is i [] = ground arith
slug_loop_is i (c ∷ []) = ground arith
slug_loop_is i (c ∷ d ∷ s) = ground (arith, slug_loop_is (i + 1) (d ∷ s))

-- A text is a slug exactly when it has 1 to 64 characters, which are lower-case letters, digits and
-- dashes, the first of them no dash.
pub slug_valid_is :
    (s : Bytes)
    → slug_valid s
      ≡ (slug_start (peek s) && all_of (λ c. slug_start c || c == b'-') s && leb (length s) 64)
unfolding slug_valid
slug_valid_is [] = refl
slug_valid_is (c ∷ s) = elim (list_cases s) [
  | inl e ↦ unfold str_eq in rw e (ground (arith, slug_loop_is 1 []))
  | inr (d, t, e) ↦ unfold str_eq in rw e (ground (arith, slug_loop_is 1 (d ∷ t)))
]
