-- ===== src/Regex/RepeatMeans.antt =====
-- What repeated code and alternatives of std/regex.c match.
use asterism_astools.Prelude.{ℕ, zero, suc, ◌+◌, ◌-◌, ◌≤◌, ◌≡◌, refl, sym, ◌⊎◌, inl, inr}
use asterism_astools.Prelude.{Option, none, some, arith}
use asterism_astools.Prelude.{Bytes}
use std.Path.{subst}
use asterism_astools.Regex.{Regex}
use asterism_astools.Regex.Emitted.{Shape, Local, Then, Times, Times-Local}
use asterism_astools.Regex.Repeats.{Loop, Loop-Local, Optional, Optional-Local}
use asterism_astools.Regex.Coded.{Either, Repeat}
use asterism_astools.Regex.Language.{Relation, Power, IsCount}
use asterism_astools.Regex.Means.{Means, Then-Means, Times-Means}
use asterism_astools.Regex.Branching.{after_split, after_jmp, go_left, go_right, go_jmp}
use asterism_astools.Regex.Loops.{Star-Means, Loop-Means, Optional-Means}

power_suc : (n p k q : ℕ) (R : Relation) → R p k → Power n R k q → Power (suc n) R p q
power_suc n p k q R r u = (k, r, u)

Power-eq : (a b p q : ℕ) (R : Relation) → a ≡ b → Power a R p q → Power b R p q
Power-eq a b p q R e u = subst (λ c. Power c R p q) e u

Power-append : (m n p k q : ℕ) (R : Relation) → Power m R p k → Power n R k q → Power (m + n) R p q
Power-append zero n p k q R same v =
    subst (λ x. Power (0 + n) R x q) (sym same) (Power-eq n (0 + n) k q R (omega arith) v)
Power-append (suc m) n p k q R (k2, r, u) v =
    Power-eq (suc (m + n)) (suc m + n) p q R (omega arith)
      (power_suc (m + n) p k2 q R r (Power-append m n k2 k q R u v))

Power-split :
    (m d c p q : ℕ) (R : Relation)
    → c ≡ m + d
    → Power c R p q
    → (k : ℕ) × Power m R p k × Power d R k q
Power-split zero d c p q R e u = (p, refl, Power-eq c d p q R (omega arith) u)
Power-split (suc m) d zero p q R e u = absurd (omega arith)
Power-split (suc m) d (suc c) p q R e (k, r, u) =
    let (k2, v, w) = Power-split m d c k q R (omega arith) u in (k2, (k, r, v), w)

-- What is left of a count above `m`.
above : (m c : ℕ) → suc m ≤ c → c ≡ m + suc (c - suc m)
above m c h = omega arith

from : (m c : ℕ) → m ≤ c → c ≡ m + (c - m)
from m c h = omega arith

module _ (re : Regex) (line : Bytes) where
  pub Means-map :
      (C : Shape) (R S : Relation)
      → ((p q : ℕ) → R p q → S p q)
      → ((p q : ℕ) → S p q → R p q)
      → Means re line C R
      → Means re line C S
  Means-map C R S f g h = record {
    forth = λ s i j p q c u r. h.forth s i j p q c (g p q u) r;
    back = λ n i j p x q c o path.
        let (p2, n2, u, out, down) = h.back n i j p x q c o path in (p2, n2, f p p2 u, out, down);
  }

  pub Either-Means :
      (A B : Shape) (R S : Relation)
      → Local A
      → Local B
      → Means re line A R
      → Means re line B S
      → Means re line (Either A B) (λ p q. R p q ⊎ S p q)
  Either-Means A B R S la lb a b = record {
    forth = λ s i j p q (k, e, (m, c, (jump, next)), d) u r. elim u [
      | inl v ↦
          go_jmp re line s m q j jump
            (a.forth s (suc i) m p q c v (go_left re line s i p (suc i) k e r))
      | inr v ↦ b.forth s k j p q d v (go_right re line s i p (suc i) k e r)
    ];
    back = λ n i j p x q (k, e, (m, c, (jump, next)), d) o path.
        let low = la.ordered re.prog (suc i) m c in
        let high = lb.ordered re.prog k j d in
        let (n1, sides, less) =
          after_split re line n i p x q (suc i) k e (λ same. omega arith) path in
        elim sides [
          | inl left ↦
              let (p2, n2, u, rest, down) = a.back n1 (suc i) m p x q c (omega arith) left in
              let (n3, out, down2) =
                after_jmp re line n2 m p2 x q j jump (λ same. omega arith) rest in
              (p2, n3, inl u, out, omega arith)
          | inr right ↦
              let (p2, n2, u, out, down) = b.back n1 k j p x q d (omega arith) right in
              (p2, n2, inr u, out, omega arith)
        ];
  }

  abbrev pub Counted : Relation → ℕ → Option ℕ → Relation
  Counted R m n p q = (count : ℕ) × IsCount m n count × Power count R p q

  range-Means :
      (C : Shape) (R : Relation) (m n : ℕ)
      → Local C
      → Means re line C R
      → Means re line (Then (Times m C) (Optional (n - m) C)) (Counted R m (some n))
  range-Means C R m n l h =
      Means-map _ _ (Counted R m (some n))
        (λ p q (k, u, (c, f, v)). (m + c, (omega arith, omega arith), Power-append m c p k q R u v))
        (λ p q (c, (low, high), u).
          let (k, v, w) = Power-split m (c - m) c p q R (from m c low) u in
          (k, v, (c - m, omega arith, w)))
        (Then-Means re line (Times m C) (Optional (n - m) C) (Power m R) _ (Times-Local m l)
          (Optional-Local (n - m) l) (Times-Means re line m C R l h)
          (Optional-Means re line C R l h (n - m)))

  pub Repeat-Means :
      (C : Shape) (R : Relation) (m : ℕ) (n : Option ℕ)
      → Local C
      → Means re line C R
      → Means re line (Repeat C m n) (Counted R m n)
  Repeat-Means C R zero none l h =
      Means-map _ _ (Counted R 0 none) (λ p q (c, u). (c, omega arith, u)) (λ p q (c, k, u). (c, u))
        (Star-Means re line C R l h)
  Repeat-Means C R (suc m) none l h =
      Means-map _ _ (Counted R (suc m) none)
        (λ p q (k, u, (c, v)). (m + suc c, omega arith, Power-append m (suc c) p k q R u v))
        (λ p q (c, f, u).
          let (k, v, w) = Power-split m (suc (c - suc m)) c p q R (above m c f) u in
          (k, v, (c - suc m, w)))
        (Then-Means re line (Times m C) (Loop C) (Power m R) _ (Times-Local m l) (Loop-Local l)
          (Times-Means re line m C R l h) (Loop-Means re line C R l h))
  Repeat-Means C R zero (some n) l h = range-Means C R 0 n l h
  Repeat-Means C R (suc m) (some n) l h = range-Means C R (suc m) n l h
