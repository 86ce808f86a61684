-- ===== src/Regex/Branching.antt =====
-- What the loops and the alternatives in the code of std/regex.c match.
use asterism_astools.Prelude.{ℕ, suc, ◌≡◌, refl, ◌⊎◌, inl, inr}
use asterism_astools.Prelude.{some}
use asterism_astools.Prelude.{get_elem?}
use asterism_astools.Prelude.{Bytes}
use std.Path.{subst}
use asterism_astools.Regex.{ri_split, ri_jmp, Regex, pushes, takes}
use asterism_astools.Regex.Runs.{Run}
use asterism_astools.Regex.Means.{Moves, PathOf, first_step, step_at}

module _ (re : Regex) (line : Bytes) where
  split_step :
      (i p x y pc1 p1 : ℕ)
      → Moves re line (some (ri_split x y)) i p pc1 p1
      → ((pc1 ≡ x) ⊎ (pc1 ≡ y)) × (p1 ≡ p)
  unfolding pushes takes
  split_step i p x y pc1 p1 (inl (inl e, f)) = (inl e, f)
  split_step i p x y pc1 p1 (inl (inr (inl e), f)) = (inr e, f)
  split_step i p x y pc1 p1 (inl (inr (inr n), f)) = absurd n
  split_step i p x y pc1 p1 (inr (c, g, t, e, f)) = cc

  split_left : (i p x y : ℕ) → Moves re line (some (ri_split x y)) i p x p
  unfolding pushes
  split_left i p x y = inl (inl refl, refl)

  split_right : (i p x y : ℕ) → Moves re line (some (ri_split x y)) i p y p
  unfolding pushes
  split_right i p x y = inl (inr (inl refl), refl)

  jmp_step : (i p x pc1 p1 : ℕ) → Moves re line (some (ri_jmp x)) i p pc1 p1 → (pc1 ≡ x) × (p1 ≡ p)
  unfolding pushes takes
  jmp_step i p x pc1 p1 (inl (inl e, f)) = (e, f)
  jmp_step i p x pc1 p1 (inl (inr n, f)) = absurd n
  jmp_step i p x pc1 p1 (inr (c, g, t, e, f)) = cc

  jmp_to : (i p x : ℕ) → Moves re line (some (ri_jmp x)) i p x p
  unfolding pushes
  jmp_to i p x = inl (inl refl, refl)

  -- A path from a split goes on at one of its targets, and from a jump at its target.
  pub after_split :
      (n i p x q l r : ℕ)
      → get_elem? re.prog i ≡ some (ri_split l r)
      → (i ≡ x → ⊥)
      → PathOf re line n i p x q
      → (m : ℕ) × (PathOf re line m l p x q ⊎ PathOf re line m r p x q) × (n ≡ suc m)
  after_split n i p x q l r e away path =
      let (m, pc1, p1, move, rest, less) =
        first_step re line n i p x q (ri_split l r) e away path in
      let (side, same) = split_step i p l r pc1 p1 move in
      elim side [
        | inl left ↦ (
          m,
          inl (
              subst (λ y. PathOf re line m y p x q) left
                (subst (λ b. PathOf re line m pc1 b x q) same rest)),
          less,
        )
        | inr right ↦ (
          m,
          inr (
              subst (λ y. PathOf re line m y p x q) right
                (subst (λ b. PathOf re line m pc1 b x q) same rest)),
          less,
        )
      ]

  pub after_jmp :
      (n i p x q t : ℕ)
      → get_elem? re.prog i ≡ some (ri_jmp t)
      → (i ≡ x → ⊥)
      → PathOf re line n i p x q
      → (m : ℕ) × PathOf re line m t p x q × (n ≡ suc m)
  after_jmp n i p x q t e away path =
      let (m, pc1, p1, move, rest, less) = first_step re line n i p x q (ri_jmp t) e away path in
      let (to, same) = jmp_step i p t pc1 p1 move in
      (
        m,
        subst (λ y. PathOf re line m y p x q) to
            (subst (λ b. PathOf re line m pc1 b x q) same rest),
        less,
      )

  -- A thread goes on at either target.
  pub go_left :
      (s i p l r : ℕ)
      → get_elem? re.prog i ≡ some (ri_split l r)
      → Run re line s i p
      → Run re line s l p
  go_left s i p l r e h = step_at re line s i p l p (ri_split l r) e (split_left i p l r) h

  pub go_right :
      (s i p l r : ℕ)
      → get_elem? re.prog i ≡ some (ri_split l r)
      → Run re line s i p
      → Run re line s r p
  go_right s i p l r e h = step_at re line s i p r p (ri_split l r) e (split_right i p l r) h

  pub go_jmp :
      (s i p t : ℕ) → get_elem? re.prog i ≡ some (ri_jmp t) → Run re line s i p → Run re line s t p
  go_jmp s i p t e h = step_at re line s i p t p (ri_jmp t) e (jmp_to i p t) h
