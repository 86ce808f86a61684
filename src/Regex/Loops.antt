-- ===== src/Regex/Loops.antt =====
-- What the loops and the alternatives in the code of std/regex.c match.
use asterism_astools.Prelude.{ℕ, zero, suc, ◌≤◌, ◌<◌, ◌≡◌, refl, ◌⊎◌, inl, inr}
use asterism_astools.Prelude.{arith}
use asterism_astools.Prelude.{Bytes}
use std.Path.{subst}
use asterism_astools.Regex.{Regex}
use asterism_astools.Regex.Runs.{Run}
use asterism_astools.Regex.Emitted.{Shape, Local}
use asterism_astools.Regex.Repeats.{Star, Loop, Optional, Optional-Local}
use asterism_astools.Regex.Language.{Relation, Power}
use asterism_astools.Regex.Means.{PathOf, Means, Nil-Means}
use asterism_astools.Regex.Branching.{after_split, after_jmp, go_left, go_right, go_jmp}

module _ (re : Regex) (line : Bytes) (C : Shape) (R : Relation) (l : Local C)
    (h : Means re line C R) where
  star_forth :
      (n s i j p q : ℕ) → Star C re.prog i j → Power n R p q → Run re line s i p → Run re line s j q
  star_forth zero s i j p q (e, (k, c, (jump, next))) same r =
      go_right re line s i q (suc i) j e (subst (Run re line s i) same r)
  star_forth (suc n) s i j p q (e, (k, c, (jump, next))) (m, u, v) r =
      star_forth n s i j m q (e, (k, c, (jump, next))) v
        (go_jmp re line s k m i jump
          (h.forth s (suc i) k p m c u (go_left re line s i p (suc i) j e r)))

  star_back :
      (fuel n i j p x q : ℕ)
      → n ≤ fuel
      → Star C re.prog i j
      → (x < i) ⊎ (j ≤ x)
      → PathOf re line n i p x q
      → (p2 n2 : ℕ) × ((count : ℕ) × Power count R p p2) × PathOf re line n2 j p2 x q × (n2 ≤ n)
  star_back zero n i j p x q f (e, (k, c, (jump, next))) o path =
      let (m, sides, less) =
        after_split re line n i p x q (suc i) j e
          (λ same. omega (arith, l.ordered re.prog (suc i) k c)) path in
      absurd (omega arith)
  star_back (suc fuel) n i j p x q f (e, (k, c, (jump, next))) o path =
      let low = l.ordered re.prog (suc i) k c in
      let (m, sides, less) = after_split re line n i p x q (suc i) j e (λ same. omega arith) path in
      elim sides [
        | inr right ↦ (p, m, (0, refl), right, omega arith)
        | inl left ↦
            let (p2, m2, u, rest, down) = h.back m (suc i) k p x q c (omega arith) left in
            let (m3, again, down2) =
              after_jmp re line m2 k p2 x q i jump (λ same. omega arith) rest in
            let (p3, m4, (count, v), out, down3) =
              star_back fuel m3 i j p2 x q (omega arith) (e, (k, c, (jump, next))) o again in
            (p3, m4, (suc count, (p2, u, v)), out, omega arith)
      ]

  pub Star-Means : Means re line (Star C) (λ p q. (count : ℕ) × Power count R p q)
  Star-Means = record {
    forth = λ s i j p q c (n, u) r. star_forth n s i j p q c u r;
    back = λ n i j p x q c o path. star_back n n i j p x q (omega arith) c o path;
  }

  loop_forth :
      (n s i j p q : ℕ)
      → Loop C re.prog i j
      → Power (suc n) R p q
      → Run re line s i p
      → Run re line s j q
  loop_forth zero s i j p q (k, c, e, next) (m, u, same) r =
      go_right re line s k q i j e (subst (Run re line s k) same (h.forth s i k p m c u r))
  loop_forth (suc n) s i j p q (k, c, e, next) (m, u, v) r =
      loop_forth n s i j m q (k, c, e, next) v
        (go_left re line s k m i j e (h.forth s i k p m c u r))

  loop_back :
      (fuel n i j p x q : ℕ)
      → n ≤ fuel
      → Loop C re.prog i j
      → (x < i) ⊎ (j ≤ x)
      → PathOf re line n i p x q
      → (p2 n2 : ℕ) × ((count : ℕ) × Power (suc count) R p p2)
        × PathOf re line n2 j p2 x q
        × (n2 ≤ n)
  loop_back zero n i j p x q f (k, c, e, next) o path =
      let low = l.ordered re.prog i k c in
      let (p2, m2, u, rest, down) = h.back n i k p x q c (omega arith) path in
      let (m, sides, less) = after_split re line m2 k p2 x q i j e (λ same. omega arith) rest in
      absurd (omega arith)
  loop_back (suc fuel) n i j p x q f (k, c, e, next) o path =
      let low = l.ordered re.prog i k c in
      let (p2, m2, u, rest, down) = h.back n i k p x q c (omega arith) path in
      let (m3, sides, less) = after_split re line m2 k p2 x q i j e (λ same. omega arith) rest in
      elim sides [
        | inr right ↦ (p2, m3, (0, (p2, u, refl)), right, omega arith)
        | inl left ↦
            let (p3, m4, (count, v), out, down3) =
              loop_back fuel m3 i j p2 x q (omega arith) (k, c, e, next) o left in
            (p3, m4, (suc count, (p2, u, v)), out, omega arith)
      ]

  pub Loop-Means : Means re line (Loop C) (λ p q. (count : ℕ) × Power (suc count) R p q)
  Loop-Means = record {
    forth = λ s i j p q c (n, u) r. loop_forth n s i j p q c u r;
    back = λ n i j p x q c o path. loop_back n n i j p x q (omega arith) c o path;
  }

  abbrev UpTo : ℕ → Relation
  UpTo k p q = (count : ℕ) × (count ≤ k) × Power count R p q

  optional_forth :
      (k : ℕ)
      → Means re line (Optional k C) (UpTo k)
      → (s i j p q : ℕ) → Optional (suc k) C re.prog i j
      → UpTo (suc k) p q
      → Run re line s i p
      → Run re line s j q
  optional_forth k rest s i j p q (e, (m, c, d)) (zero, f, same) r =
      go_right re line s i q (suc i) j e (subst (Run re line s i) same r)
  optional_forth k rest s i j p q (e, (m, c, d)) (suc n, f, (p2, u, v)) r =
      rest.forth s m j p2 q d (n, omega arith, v)
        (h.forth s (suc i) m p p2 c u (go_left re line s i p (suc i) j e r))

  optional_back :
      (k : ℕ)
      → Means re line (Optional k C) (UpTo k)
      → (n i j p x q : ℕ) → Optional (suc k) C re.prog i j
      → (x < i) ⊎ (j ≤ x)
      → PathOf re line n i p x q
      → (p2 n2 : ℕ) × UpTo (suc k) p p2 × PathOf re line n2 j p2 x q × (n2 ≤ n)
  optional_back k rest n i j p x q (e, (m, c, d)) o path =
      let low = l.ordered re.prog (suc i) m c in
      let high = (Optional-Local k l).ordered re.prog m j d in
      let (n1, sides, less) =
        after_split re line n i p x q (suc i) j e (λ same. omega arith) path in
      elim sides [
        | inr right ↦ (p, n1, (0, omega arith, refl), right, omega arith)
        | inl left ↦
            let (p2, n2, u, inner, down) = h.back n1 (suc i) m p x q c (omega arith) left in
            let (p3, n3, (count, f, v), out, down2) =
              rest.back n2 m j p2 x q d (omega arith) inner in
            (p3, n3, (suc count, omega arith, (p2, u, v)), out, omega arith)
      ]

  none_left : (n p q : ℕ) → n ≤ 0 → Power n R p q → p ≡ q
  none_left zero p q f u = u
  none_left (suc n) p q f u = absurd (omega arith)

  pub Optional-Means :
      (k : ℕ) → Means re line (Optional k C) (λ p q. (count : ℕ) × (count ≤ k) × Power count R p q)
  Optional-Means zero = record {
    forth =
        λ s i j p q c (n, f, u) r. (Nil-Means re line).forth s i j p q c (none_left n p q f u) r;
    back = λ n i j p x q c o path.
        let (p2, n2, same, out, down) = (Nil-Means re line).back n i j p x q c o path in
        (p2, n2, (0, omega arith, same), out, down);
  }
  Optional-Means (suc k) = record {
    forth = λ s i j p q c u r. optional_forth k (Optional-Means k) s i j p q c u r;
    back = λ n i j p x q c o path. optional_back k (Optional-Means k) n i j p x q c o path;
  }
