-- ===== src/Regex/Settling.antt =====
-- The loop of `re_add` of std/regex.c, run to the end of its stack.
use asterism_astools.Prelude.{ℕ, zero, suc, ◌+◌, ◌*◌, ◌≤◌, ◌<◌, ◌≡◌, refl, ◌⊎◌, inl, inr}
use asterism_astools.Prelude.{Option, none, some, List, [], ◌∷◌, ◌++◌, arith}
use asterism_astools.Prelude.{length, get_elem?, length-append}
use asterism_astools.Prelude.{Bytes}
use asterism_astools.Regex.{
  Inst, ri_char, ri_class, ri_any, ri_bol, ri_eol, ri_split, ri_jmp, ri_match, Regex, start_of,
  pushes, Added, visit, add_loop, re_add,
}
use asterism_astools.Regex.Runs.{Eps}
use asterism_astools.Regex.Closure.{unmarked, unmarked-le, unmarked-mark}
use asterism_astools.Regex.Marks.{Marked, Promised, Promised-pop, Promised-visit}
use asterism_astools.Regex.Invariant.{Inv, Inv-push, Inv-pop, Inv-visit}

on_mark {ℓ} :
    {R : Type 0} (P : R → Type ℓ) (o : Option ℕ) (f : ℕ → R) (y : R)
    → ((t : ℕ) → o ≡ some t → P (f t))
    → (o ≡ none → P y)
    → P (elim o [ some t ↦ f t | none ↦ y ])
on_mark P none f y p q = q refl
on_mark P (some t) f y p q = p t refl

length-pushes : (o : Option Inst) (pc pos len : ℕ) → length (pushes o pc pos len) ≤ 2
unfolding pushes
length-pushes none pc pos len = omega arith
length-pushes (some (ri_char ch)) pc pos len = omega arith
length-pushes (some (ri_class cls)) pc pos len = omega arith
length-pushes (some ri_any) pc pos len = omega arith
length-pushes (some ri_bol) pc pos len = ground arith
length-pushes (some ri_eol) pc pos len = ground arith
length-pushes (some (ri_split x y)) pc pos len = omega arith
length-pushes (some (ri_jmp x)) pc pos len = omega arith
length-pushes (some ri_match) pc pos len = omega arith

inside_or_none : {A : Type 0} (xs : List A) (i : ℕ) → (i < length xs) ⊎ (get_elem? xs i ≡ none)
inside_or_none [] i = inr refl
inside_or_none (x ∷ xs) zero = inl (omega arith)
inside_or_none (x ∷ xs) (suc i) = elim (inside_or_none xs i) [
  | inl h ↦ inl (omega arith)
  | inr e ↦ inr e
]

-- Outside the program there is nothing to push.
pushes-bound :
    (prog : List Inst) (pc pos len : ℕ)
    → (pc < length prog) ⊎ (length (pushes (get_elem? prog pc) pc pos len) ≡ 0)
unfolding pushes
pushes-bound prog pc pos len = elim (inside_or_none prog pc) [
  | inl h ↦ inl h
  | inr e ↦ inr (rw e refl)
]

module _ (re : Regex) (line : Bytes) (pos : ℕ) (Reach : ℕ → ℕ → Type 0)
    (go : (pc2 pc3 t : ℕ) → Reach pc2 t → Eps re line pos pc2 pc3 → Reach pc3 t) where
  -- The work that is left, in rounds.
  abbrev work : List ℕ → Added → ℕ
  work stk a = 2 * unmarked a.marks (length re.prog) + length stk

  work-visit :
      (s pc : ℕ) (stk : List ℕ) (a : Added)
      → start_of a.marks pc ≡ none
      → work
          (pushes (get_elem? re.prog pc) pc pos (length line) ++ stk)
          (visit re (length line) pos s pc a)
        ≤ length stk + 2 * unmarked a.marks (length re.prog)
  unfolding visit
  work-visit s pc stk a e =
      let (less, fewer) = unmarked-mark a.marks pc s (length re.prog) e in
      let two = length-pushes (get_elem? re.prog pc) pc pos (length line) in
      elim (pushes-bound re.prog pc pos (length line)) [
        | inl inside ↦ omega (
          arith,
          length-append (pushes (get_elem? re.prog pc) pc pos (length line)) stk,
          fewer inside,
        )
        | inr nothing ↦
            omega (arith, length-append (pushes (get_elem? re.prog pc) pc pos (length line)) stk)
      ]

  unfoldable Settled : ℕ → List ℕ → Added → Added → Type 0
  Settled s stk a b =
      Inv re line pos Reach s [] b
      × ((pc t : ℕ) → Promised a.marks s stk pc t → Marked b.marks pc t)

  add_loop-Settled :
      (fuel s : ℕ) (stk : List ℕ) (a : Added)
      → work stk a ≤ fuel
      → Inv re line pos Reach s stk a
      → Settled s stk a (add_loop re (length line) fuel pos s stk a)
  unfolding Settled add_loop visit
  add_loop-Settled zero s [] a h i = (i, λ pc t p. elim p [ inl m ↦ m | inr (n, k) ↦ absurd n ])
  add_loop-Settled zero s (pc ∷ stk) a h i = absurd (omega arith)
  add_loop-Settled (suc fuel) s [] a h i =
      (i, λ pc t p. elim p [ inl m ↦ m | inr (n, k) ↦ absurd n ])
  add_loop-Settled (suc fuel) s (pc ∷ stk) a h i =
      on_mark (Settled s (pc ∷ stk) a) (start_of a.marks pc) _ _
        (λ t e.
          let (inv, kept) =
            add_loop-Settled fuel s stk a (omega arith)
              (Inv-pop re line pos Reach s pc t stk a e i) in
          (
            inv,
            λ pc2 t2 p. kept pc2 t2 (Promised-pop a.marks s pc t stk pc2 t2 e (i.below pc t e) p),
          ))
        (λ e.
          let (inv, kept) =
            add_loop-Settled fuel s _ _ (omega (arith, work-visit s pc stk a e))
              (Inv-visit re line pos Reach s pc stk a go e i) in
          (inv, λ pc2 t2 p. kept pc2 t2 (Promised-visit a.marks s pc _ stk pc2 t2 e p)))

  -- A thread that is added to a settled list settles, its own state is marked, and no mark is lost.
  pub re_add-Inv :
      (s s2 pc : ℕ) (a : Added)
      → Inv re line pos Reach s [] a
      → s ≤ s2
      → Reach pc s2
      → Inv re line pos Reach s2 [] (re_add re (length line) pos s2 pc a)
        × ((pc2 t : ℕ)
            → Marked a.marks pc2 t
            → Marked (re_add re (length line) pos s2 pc a).marks pc2 t)
        × Marked (re_add re (length line) pos s2 pc a).marks pc s2
  unfolding Settled
  re_add-Inv s s2 pc a i h r =
      let (inv, kept) =
        add_loop-Settled (2 * length re.prog + 2) s2 (pc ∷ []) a
          (omega (arith, unmarked-le a.marks (length re.prog)))
          (Inv-push re line pos Reach s s2 pc a i h r) in
      (inv, λ pc2 t m. kept pc2 t (inl m), kept pc s2 (inr (inl refl, omega arith)))
