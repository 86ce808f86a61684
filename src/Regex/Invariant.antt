-- ===== src/Regex/Invariant.antt =====
-- The invariant of the search in depth of std/regex.c: what its marks and its list say, for any notion of
-- the threads that are right which is closed under the moves without a byte.
use asterism_astools.Prelude.{ℕ, ◌≤◌, ◌≡◌, refl, sym, ap, ◌∙◌, inl, inr}
use asterism_astools.Prelude.{true, none, some, List, [], ◌∷◌, ◌++◌, arith}
use asterism_astools.Prelude.{length, get_elem?}
use asterism_astools.Prelude.{Bytes}
use std.Path.{subst}
use asterism_astools.Regex.{Regex, start_of, pushes, is_listed, Added, none_added, visit}
use asterism_astools.Regex.Runs.{Occurs, Occurs-append, Occurs-left, Eps}
use asterism_astools.Regex.Closure.{start_of_self, start_of_other}
use asterism_astools.Regex.Marks.{
  Marked, Promised, Rising, Promised-pop, Promised-visit, Promised-all, some-none, start_of_inv,
  Rising-added, added, added-inv, Occurs-added, Occurs-last,
}

module _ (re : Regex) (line : Bytes) (pos : ℕ) (Reach : ℕ → ℕ → Type 0) where
  pub record Inv (s : ℕ) (stk : List ℕ) (a : Added) : Type 0 where
    pub right : (pc t : ℕ) → start_of a.marks pc ≡ some t → Reach pc t
    pub stack : (pc : ℕ) → Occurs pc stk → Reach pc s
    pub below : (pc t : ℕ) → start_of a.marks pc ≡ some t → t ≤ s
    pub closed :
        (pc pc2 t : ℕ)
        → start_of a.marks pc ≡ some t
        → Eps re line pos pc pc2
        → Promised a.marks s stk pc2 t
    pub listed :
        (pc t : ℕ)
        → start_of a.marks pc ≡ some t
        → is_listed (get_elem? re.prog pc) ≡ true
        → Occurs (pc, t) a.list
    pub entries : (pc t : ℕ) → Occurs (pc, t) a.list → start_of a.marks pc ≡ some t
    pub rising : Rising 0 a.list

  -- A later thread can be pushed when the stack is empty.
  pub Inv-push : (s s2 pc : ℕ) (a : Added) → Inv s [] a → s ≤ s2 → Reach pc s2 → Inv s2 (pc ∷ []) a
  unfolding Marked
  Inv-push s s2 pc a i h r = record {
    right = i.right;
    stack = λ pc2 o. elim o [ inl e ↦ subst (λ q. Reach q s2) (sym e) r | inr n ↦ absurd n ];
    below = λ pc2 t e. omega (arith, i.below pc2 t e);
    closed = λ pc2 pc3 t e o. Promised-all a.marks s s2 (pc ∷ []) pc3 t (i.closed pc2 pc3 t e o);
    listed = i.listed;
    entries = i.entries;
    rising = i.rising;
  }

  pub Inv-later : (s s2 : ℕ) (a : Added) → Inv s [] a → s ≤ s2 → Inv s2 [] a
  Inv-later s s2 a i h = record {
    right = i.right;
    stack = λ pc o. absurd o;
    below = λ pc2 t e. omega (arith, i.below pc2 t e);
    closed = λ pc2 pc3 t e o. Promised-all a.marks s s2 [] pc3 t (i.closed pc2 pc3 t e o);
    listed = i.listed;
    entries = i.entries;
    rising = i.rising;
  }

  -- A state from the stack that is marked already.
  pub Inv-pop :
      (s pc t : ℕ) (stk : List ℕ) (a : Added)
      → start_of a.marks pc ≡ some t
      → Inv s (pc ∷ stk) a
      → Inv s stk a
  Inv-pop s pc t stk a e i = record {
    right = i.right;
    stack = λ pc2 o. i.stack pc2 (inr o);
    below = i.below;
    closed = λ pc2 pc3 t2 e2 o.
        Promised-pop a.marks s pc t stk pc3 t2 e (i.below pc t e) (i.closed pc2 pc3 t2 e2 o);
    listed = i.listed;
    entries = i.entries;
    rising = i.rising;
  }

  -- A state from the stack that is new.
  pub Inv-visit :
      (s pc : ℕ) (stk : List ℕ) (a : Added)
      → ((pc2 pc3 t : ℕ) → Reach pc2 t → Eps re line pos pc2 pc3 → Reach pc3 t)
      → start_of a.marks pc ≡ none
      → Inv s (pc ∷ stk) a
      → Inv s
          (pushes (get_elem? re.prog pc) pc pos (length line) ++ stk)
          (visit re (length line) pos s pc a)
  unfolding visit Marked
  Inv-visit s pc stk a go e i = record {
    right = λ pc2 t m. elim (start_of_inv a.marks pc s pc2 t m) [
      | inl (same, now) ↦
          subst (λ q. Reach q t) (sym same) (subst (Reach pc) (sym now) (i.stack pc (inl refl)))
      | inr old ↦ i.right pc2 t old
    ];
    stack = λ pc2 o. elim (Occurs-append pc2 _ stk o) [
      | inl moved ↦ go pc pc2 s (i.stack pc (inl refl)) moved
      | inr old ↦ i.stack pc2 (inr old)
    ];
    below = λ pc2 t m. elim (start_of_inv a.marks pc s pc2 t m) [
      | inl (same, now) ↦ omega arith
      | inr old ↦ i.below pc2 t old
    ];
    closed = λ pc2 pc3 t m o. elim (start_of_inv a.marks pc s pc2 t m) [
      | inl (same, now) ↦
          inr (Occurs-left pc3 _ stk (subst (λ q. Eps re line pos q pc3) same o), omega arith)
      | inr old ↦ Promised-visit a.marks s pc _ stk pc3 t e (i.closed pc2 pc3 t old o)
    ];
    listed = λ pc2 t m l. elim (start_of_inv a.marks pc s pc2 t m) [
      | inl (same, now) ↦
          subst (λ x. Occurs x (added (is_listed (get_elem? re.prog pc)) a.list (pc, s)))
            (ap (λ q. (q, s)) (sym same) ∙ ap (λ q. (pc2, q)) (sym now))
            (Occurs-last _ a.list (pc, s)
              (ap (λ q. is_listed (get_elem? re.prog q)) (sym same) ∙ l))
      | inr old ↦ Occurs-added _ a.list (pc, s) (pc2, t) (i.listed pc2 t old l)
    ];
    entries = λ pc2 t o.
        elim (added-inv (is_listed (get_elem? re.prog pc)) a.list (pc, s) (pc2, t) o) [
          | inl old ↦
              start_of_other a.marks pc s pc2 (λ same.
                some-none (sym (i.entries pc2 t old) ∙ (ap (start_of a.marks) (sym same) ∙ e)))
              ∙ i.entries pc2 t old
          | inr new ↦
              start_of_self a.marks pc s pc2 (sym (ap (λ x. x.0) new))
              ∙ ap some (sym (ap (λ x. x.1) new))
        ];
    rising = Rising-added _ a.list pc s i.rising λ pc2 t o. i.below pc2 t (i.entries pc2 t o);
  }

  pub Inv-none_added : Inv 0 [] none_added
  Inv-none_added = record {
    right = λ pc t e. absurd (some-none (sym e));
    stack = λ pc o. absurd o;
    below = λ pc t e. absurd (some-none (sym e));
    closed = λ pc pc2 t e o. absurd (some-none (sym e));
    listed = λ pc t e l. absurd (some-none (sym e));
    entries = λ pc t o. absurd o;
    rising = tt;
  }
