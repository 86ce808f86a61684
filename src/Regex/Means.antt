-- ===== src/Regex/Means.antt =====
-- Paths through the program of std/regex.c, and what it means that code matches a relation.
use asterism_astools.Prelude.{ℕ, zero, suc, ◌≤◌, ◌<◌, ◌≡◌, refl, sym, ◌∙◌, ◌⊎◌, inl, inr}
use asterism_astools.Prelude.{true, Option, some, arith}
use asterism_astools.Prelude.{length, get_elem?}
use asterism_astools.Prelude.{Bytes}
use std.Path.{subst}
use asterism_astools.Regex.{Inst, Regex, pushes, takes}
use asterism_astools.Regex.Runs.{Occurs, Run, begin, eps, eat}
use asterism_astools.Regex.Emitted.{Shape, Local, Nil, One, Then, Times, Times-Local}
use asterism_astools.Regex.Language.{Relation, Seq, Power}

module _ (re : Regex) (line : Bytes) where
  -- A step from an instruction.
  abbrev pub Moves : Option Inst → ℕ → ℕ → ℕ → ℕ → Type 0
  Moves o pc p pc1 p1 =
      (Occurs pc1 (pushes o pc p (length line)) × (p1 ≡ p))
      ⊎ ((c : ℕ) × (get_elem? line p ≡ some c)
          × (takes re (length line) o c ≡ true)
          × (pc1 ≡ suc pc)
          × (p1 ≡ suc p))

  -- A path of so many steps.
  unfoldable pub PathOf : ℕ → ℕ → ℕ → ℕ → ℕ → Type 0
  PathOf zero pc p x q = (pc ≡ x) × (p ≡ q)
  PathOf (suc n) pc p x q =
      (pc1 p1 : ℕ) × Moves (get_elem? re.prog pc) pc p pc1 p1 × PathOf n pc1 p1 x q

  pub Moves-Run :
      (s pc p pc1 p1 : ℕ)
      → Moves (get_elem? re.prog pc) pc p pc1 p1
      → Run re line s pc p
      → Run re line s pc1 p1
  Moves-Run s pc p pc1 p1 (inl (o, e)) r = subst (Run re line s pc1) (sym e) (eps r o)
  Moves-Run s pc p pc1 p1 (inr (c, g, t, e, f)) r =
      subst (λ x. Run re line s x p1) (sym e) (subst (Run re line s (suc pc)) (sym f) (eat c r g t))

  PathOf-snoc :
      (n pc p x q y z : ℕ)
      → PathOf n pc p x q
      → Moves (get_elem? re.prog x) x q y z
      → PathOf (suc n) pc p y z
  unfolding PathOf
  PathOf-snoc zero pc p x q y z (e, f) m = (
    y,
    z,
    subst (λ a. Moves (get_elem? re.prog a) a p y z) (sym e)
        (subst (λ b. Moves (get_elem? re.prog x) x b y z) (sym f) m),
    (refl, refl),
  )
  PathOf-snoc (suc n) pc p x q y z (pc1, p1, first, rest) m =
      (pc1, p1, first, PathOf-snoc n pc1 p1 x q y z rest m)

  -- A thread has come along a path from the beginning.
  pub Run-PathOf : (s pc p : ℕ) → Run re line s pc p → (n : ℕ) × PathOf n 0 s pc p
  unfolding PathOf
  Run-PathOf s pc p (begin h) = (0, (refl, refl))
  Run-PathOf s pc p (eps r o) =
      let (n, path) = Run-PathOf s _ _ r in (suc n, PathOf-snoc n _ _ _ _ _ _ path (inl (o, refl)))
  Run-PathOf s pc p (eat c r g t) =
      let (n, path) = Run-PathOf s _ _ r in
      (suc n, PathOf-snoc n _ _ _ _ _ _ path (inr (c, g, t, refl, refl)))

  -- The code lets a thread through where the relation holds, and a path that leaves the code has gone
  -- through it along the relation.
  pub record Means (C : Shape) (R : Relation) : Type 0 where
    pub forth : (s i j p q : ℕ) → C re.prog i j → R p q → Run re line s i p → Run re line s j q
    pub back :
        (n i j p x q : ℕ)
        → C re.prog i j
        → (x < i) ⊎ (j ≤ x)
        → PathOf n i p x q
        → (p2 n2 : ℕ) × R p p2 × PathOf n2 j p2 x q × (n2 ≤ n)

  pub Nil-Means : Means Nil (λ p q. p ≡ q)
  Nil-Means = record {
    forth = λ s i j p q e f r. subst (λ x. Run re line s x q) e (subst (Run re line s i) f r);
    back = λ n i j p x q e o path. (p, n, refl, subst (λ y. PathOf n y p x q) e path, omega arith);
  }

  pub Then-Means :
      (A B : Shape) (R S : Relation)
      → Local A
      → Local B
      → Means A R
      → Means B S
      → Means (Then A B) (Seq R S)
  Then-Means A B R S la lb a b = record {
    forth = λ s i j p q (k, x, y) (m, u, v) r. b.forth s k j m q y v (a.forth s i k p m x u r);
    back = λ n i j p x q (k, u, v) o path.
        let (p2, n2, r, path2, h2) =
          a.back n i k p x q u (omega (arith, lb.ordered re.prog k j v)) path in
        let (p3, n3, t, path3, h3) =
          b.back n2 k j p2 x q v (omega (arith, la.ordered re.prog i k u)) path2 in
        (p3, n3, (p2, r, t), path3, omega arith);
  }

  pub Times-Means :
      (k : ℕ) (C : Shape) (R : Relation) → Local C → Means C R → Means (Times k C) (Power k R)
  Times-Means zero C R l h = Nil-Means
  Times-Means (suc k) C R l h =
      Then-Means C (Times k C) R (Power k R) l (Times-Local k l) h (Times-Means k C R l h)

  -- The first step of a path that goes on from an instruction which is not its end.
  pub first_step :
      (n i p x q : ℕ) (inst : Inst)
      → get_elem? re.prog i ≡ some inst
      → (i ≡ x → ⊥)
      → PathOf n i p x q
      → (m pc1 p1 : ℕ) × Moves (some inst) i p pc1 p1 × PathOf m pc1 p1 x q × (n ≡ suc m)
  unfolding PathOf
  first_step zero i p x q inst e away (same, f) = absurd (away same)
  first_step (suc n) i p x q inst e away (pc1, p1, m, rest) =
      (n, pc1, p1, subst (λ o. Moves o i p pc1 p1) e m, rest, refl)

  -- A thread makes the step of an instruction.
  pub step_at :
      (s i p pc1 p1 : ℕ) (inst : Inst)
      → get_elem? re.prog i ≡ some inst
      → Moves (some inst) i p pc1 p1
      → Run re line s i p
      → Run re line s pc1 p1
  step_at s i p pc1 p1 inst e m r =
      Moves-Run s i p pc1 p1 (subst (λ o. Moves o i p pc1 p1) (sym e) m) r

  -- One instruction, whose steps go to the one behind it.
  pub One-Means :
      (inst : Inst) (R : Relation)
      → ((i p p2 : ℕ) → R p p2 → Moves (some inst) i p (suc i) p2)
      → ((i p pc1 p1 : ℕ) → Moves (some inst) i p pc1 p1 → R p p1 × (pc1 ≡ suc i))
      → Means (One inst) R
  One-Means inst R to from = record {
    forth = λ s i j p q (e, next) h r.
        subst (λ x. Run re line s x q) (sym next) (step_at s i p (suc i) q inst e (to i p q h) r);
    back = λ n i j p x q (e, next) o path.
        let (m, pc1, p1, move, rest, less) =
          first_step n i p x q inst e (λ same. omega arith) path in
        let (h, to_next) = from i p pc1 p1 move in
        (p1, m, h, subst (λ y. PathOf m y p1 x q) (to_next ∙ sym next) rest, omega arith);
  }
