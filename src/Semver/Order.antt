-- ===== src/Semver/Order.antt =====
-- The comparison of `astools_semver_cmp` with its two sides swapped.
use asterism_astools.Prelude.{ℕ, zero, suc, ◌≤◌, ◌≡◌, refl, sym, ap, ◌∙◌, ◌⊎◌, inl, inr}
use asterism_astools.Prelude.{Option, none, some, [], ◌∷◌, arith}
use asterism_astools.Prelude.{length}
use asterism_astools.Prelude.{Bytes}
use asterism_astools.Semver.{
  Semver, Sign, before, same, after, field, after_field, compare_nat, memcmp, or_else,
  compare_field, compare_fields, compare_prerelease, semver_cmp,
}

-- The answer for the two sides swapped.
abbrev pub flip : Sign → Sign
flip before = after
flip same = same
flip after = before

flip-or_else : (a b : Sign) → flip (or_else a b) ≡ or_else (flip a) (flip b)
flip-or_else before b = refl
flip-or_else same b = refl
flip-or_else after b = refl

compare_nat-flip : (x y : ℕ) → compare_nat y x ≡ flip (compare_nat x y)
compare_nat-flip x y = ground arith

memcmp-flip : (x y : Bytes) → memcmp y x ≡ flip (memcmp x y)
unfolding memcmp
memcmp-flip [] [] = refl
memcmp-flip [] (d ∷ y) = refl
memcmp-flip (c ∷ x) [] = refl
memcmp-flip (c ∷ x) (d ∷ y) = ground (arith, memcmp-flip x y)

compare_field-flip : (x y : Bytes) → compare_field y x ≡ flip (compare_field x y)
unfolding compare_field
compare_field-flip x y = ground (
  arith,
  compare_nat-flip (length x) (length y),
  memcmp-flip x y,
  flip-or_else (compare_nat (length x) (length y)) (memcmp x y),
  flip-or_else (memcmp x y) (compare_nat (length x) (length y)),
)

length-after_field : (s : Bytes) → length (after_field s) ≤ length s
unfolding after_field
length-after_field [] = omega arith
length-after_field (c ∷ s) = ground (arith, length-after_field s)

after_field_shorter : (c : ℕ) (s : Bytes) → length (after_field (c ∷ s)) ≤ length s
unfolding after_field
after_field_shorter c s = ground (arith, length-after_field s)

-- From the length of either text on, the rounds do not matter.
compare_fields_fuel :
    (n m : ℕ) (x y : Bytes)
    → (length x ≤ n) ⊎ (length y ≤ n)
    → (length x ≤ m) ⊎ (length y ≤ m)
    → compare_fields n x y ≡ compare_fields m x y
unfolding compare_fields
compare_fields_fuel n m [] [] h k = refl
compare_fields_fuel n m [] (_ ∷ _) h k = refl
compare_fields_fuel n m (_ ∷ _) [] h k = refl
compare_fields_fuel zero m (c ∷ x) (d ∷ y) h k = absurd (omega arith)
compare_fields_fuel (suc n) zero (c ∷ x) (d ∷ y) h k = absurd (omega arith)
compare_fields_fuel (suc n) (suc m) (c ∷ x) (d ∷ y) h k =
    ap (or_else (compare_field (field (c ∷ x)) (field (d ∷ y)))) (
      compare_fields_fuel n m (after_field (c ∷ x)) (after_field (d ∷ y)) (shorter n h)
        (shorter m k))
  where
    shorter :
        (i : ℕ)
        → (length (c ∷ x) ≤ suc i) ⊎ (length (d ∷ y) ≤ suc i)
        → (length (after_field (c ∷ x)) ≤ i) ⊎ (length (after_field (d ∷ y)) ≤ i)
    shorter i (inl l) = inl (omega (arith, after_field_shorter c x))
    shorter i (inr l) = inr (omega (arith, after_field_shorter d y))

compare_fields-flip : (n : ℕ) (x y : Bytes) → compare_fields n y x ≡ flip (compare_fields n x y)
unfolding compare_fields
compare_fields-flip n [] [] = refl
compare_fields-flip n [] (_ ∷ _) = refl
compare_fields-flip n (_ ∷ _) [] = refl
compare_fields-flip zero (_ ∷ _) (_ ∷ _) = refl
compare_fields-flip (suc n) (c ∷ x) (d ∷ y) =
    rw (compare_field-flip (field (c ∷ x)) (field (d ∷ y))) (
      rw (compare_fields-flip n (after_field (c ∷ x)) (after_field (d ∷ y))) (
        sym (
          flip-or_else (compare_field (field (c ∷ x)) (field (d ∷ y)))
            (compare_fields n (after_field (c ∷ x)) (after_field (d ∷ y))))))

compare_prerelease-flip :
    (x y : Option Bytes) → compare_prerelease y x ≡ flip (compare_prerelease x y)
unfolding compare_prerelease
compare_prerelease-flip none none = refl
compare_prerelease-flip none (some y) = refl
compare_prerelease-flip (some x) none = refl
compare_prerelease-flip (some x) (some y) =
    compare_fields_fuel (length y) (length x) y x (inl (omega arith)) (inr (omega arith))
    ∙ compare_fields-flip (length x) x y

-- Swapping the two versions swaps the answer, so equal versions have the answer 0 both ways.
pub semver_cmp-flip : (a b : Semver) → semver_cmp b a ≡ flip (semver_cmp a b)
unfolding semver_cmp
semver_cmp-flip a b =
    rw
      (
        compare_nat-flip a.major b.major,
        compare_nat-flip a.minor b.minor,
        compare_nat-flip a.patch b.patch,
        compare_prerelease-flip a.prerelease b.prerelease,
      )
      (ground (arith))
