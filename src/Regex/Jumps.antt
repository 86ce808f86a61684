-- ===== src/Regex/Jumps.antt =====
-- Where the jumps and the classes of the code of a tree of std/regex.c are.
use asterism_astools.Prelude.{ℕ, zero, suc, ◌-◌, ◌≤◌, ◌<◌, ◌≡◌, sym, ap, ◌∙◌, inl, inr}
use asterism_astools.Prelude.{false, Option, none, some, List, arith}
use asterism_astools.Prelude.{get_elem?}
use std.Path.{subst}
use asterism_astools.Regex.{Inst, ri_split, ri_jmp, is_match}
use asterism_astools.Regex.Emitted.{
  Shape, Local, Nil, Nil-Local, One, Then, Then-Local, Times, Times-Local,
}
use asterism_astools.Regex.Patched.{Guard}
use asterism_astools.Regex.Repeats.{Star, Loop, Loop-Local, Optional, Optional-Local}
use asterism_astools.Regex.Coded.{Either, Repeat}
use asterism_astools.Regex.Codes.{Code, Code-Local}
use asterism_astools.Regex.Tree.{
  Node, null, rn_empty, rn_char, rn_class, rn_any, rn_bol, rn_eol, rn_cat, rn_alt, rn_rep,
}
use asterism_astools.Regex.Inside.{
  InstInside, inside-wider, inside-is_match, Inside, lt_or_le, eq_or_lt,
}

module _ (k : ℕ → Type 0) where
  Nil-Inside : Inside k Nil
  Nil-Inside p i j e x h l = absurd (omega arith)

  at-Inside :
      (p : List Inst) (i j m x : ℕ) (inst : Inst)
      → get_elem? p m ≡ some inst
      → InstInside k i j (some inst)
      → x ≡ m
      → InstInside k i j (get_elem? p x)
  at-Inside p i j m x inst e u same = subst (InstInside k i j) (sym (ap (get_elem? p) same ∙ e)) u

  One-Inside : (inst : Inst) → ((i : ℕ) → InstInside k i (suc i) (some inst)) → Inside k (One inst)
  One-Inside inst u p i j (e, next) x h l =
      at-Inside p i j i x inst e
        (inside-wider k i (suc i) i j (some inst) (omega arith) (omega arith) (u i)) (omega arith)

  Then-Inside : (A B : Shape) → Local A → Local B → Inside k A → Inside k B → Inside k (Then A B)
  Then-Inside A B la lb a b p i j (m, u, v) x h l =
      let low = la.ordered p i m u in
      let high = lb.ordered p m j v in
      elim (lt_or_le x m) [
        | inl left ↦ inside-wider k i m i j _ (omega arith) high (a p i m u x h left)
        | inr right ↦ inside-wider k m j i j _ low (omega arith) (b p m j v x right l)
      ]

  Times-Inside : (n : ℕ) (C : Shape) → Local C → Inside k C → Inside k (Times n C)
  Times-Inside zero C l h = Nil-Inside
  Times-Inside (suc n) C l h =
      Then-Inside C (Times n C) l (Times-Local n l) h (Times-Inside n C l h)

  split-Inside :
      (i j x y : ℕ) → i ≤ x → x ≤ j → i ≤ y → y ≤ j → InstInside k i j (some (ri_split x y))
  unfolding InstInside
  split-Inside i j x y a b c d = ((a, b), (c, d))

  jmp-Inside : (i j x : ℕ) → i ≤ x → x ≤ j → InstInside k i j (some (ri_jmp x))
  unfolding InstInside
  jmp-Inside i j x a b = (a, b)

  Guard-Inside : (D : Shape) → Local D → Inside k D → Inside k (Guard D)
  Guard-Inside D ld d p i j (e, u) x h l =
      let high = ld.ordered p (suc i) j u in
      elim (eq_or_lt i x h) [
        | inl same ↦
            at-Inside p i j i x _ e
              (split-Inside i j (suc i) j (omega arith) high (omega arith) (omega arith)) same
        | inr inside ↦
            inside-wider k (suc i) j i j _ (omega arith) (omega arith) (d p (suc i) j u x inside l)
      ]

  Star-Inside : (C : Shape) → Local C → Inside k C → Inside k (Star C)
  Star-Inside C lc c p i j (e, (m, u, (f, next))) x h l =
      let low = lc.ordered p (suc i) m u in
      elim (eq_or_lt i x h) [
        | inl same ↦
            at-Inside p i j i x _ e
              (split-Inside i j (suc i) j (omega arith) (omega arith) (omega arith) (omega arith))
              same
        | inr inside ↦ elim (lt_or_le x m) [
          | inl left ↦
              inside-wider k (suc i) m i j _ (omega arith) (omega arith)
                (c p (suc i) m u x inside left)
          | inr right ↦
              at-Inside p i j m x _ f (jmp-Inside i j i (omega arith) (omega arith)) (omega arith)
        ]
      ]

  Loop-Inside : (C : Shape) → Local C → Inside k C → Inside k (Loop C)
  Loop-Inside C lc c p i j (m, u, e, next) x h l =
      let low = lc.ordered p i m u in
      elim (lt_or_le x m) [
        | inl left ↦ inside-wider k i m i j _ (omega arith) (omega arith) (c p i m u x h left)
        | inr right ↦
            at-Inside p i j m x _ e
              (split-Inside i j i j (omega arith) (omega arith) (omega arith) (omega arith))
              (omega arith)
      ]

  Optional-Inside : (n : ℕ) (C : Shape) → Local C → Inside k C → Inside k (Optional n C)
  Optional-Inside zero C l h = Nil-Inside
  Optional-Inside (suc n) C l h =
      Guard-Inside _ (Then-Local l (Optional-Local n l))
        (Then-Inside C (Optional n C) l (Optional-Local n l) h (Optional-Inside n C l h))

  Either-Inside :
      (A B : Shape) → Local A → Local B → Inside k A → Inside k B → Inside k (Either A B)
  Either-Inside A B la lb a b p i j (m, e, (n, u, (f, next)), v) x h l =
      let low = la.ordered p (suc i) n u in
      let high = lb.ordered p m j v in
      elim (lt_or_le x m) [
        | inr right ↦ inside-wider k m j i j _ (omega arith) (omega arith) (b p m j v x right l)
        | inl left ↦ elim (eq_or_lt i x h) [
          | inl same ↦
              at-Inside p i j i x _ e
                (split-Inside i j (suc i) m (omega arith) (omega arith) (omega arith) high) same
          | inr inside ↦ elim (lt_or_le x n) [
            | inl before ↦
                inside-wider k (suc i) n i j _ (omega arith) (omega arith)
                  (a p (suc i) n u x inside before)
            | inr at ↦
                at-Inside p i j n x _ f (jmp-Inside i j j (omega arith) (omega arith)) (omega arith)
          ]
        ]
      ]

  Repeat-Inside :
      (C : Shape) (m : ℕ) (n : Option ℕ) → Local C → Inside k C → Inside k (Repeat C m n)
  Repeat-Inside C zero none l h = Star-Inside C l h
  Repeat-Inside C (suc m) none l h =
      Then-Inside (Times m C) (Loop C) (Times-Local m l) (Loop-Local l) (Times-Inside m C l h)
        (Loop-Inside C l h)
  Repeat-Inside C zero (some n) l h =
      Then-Inside Nil (Optional (n - 0) C) Nil-Local (Optional-Local (n - 0) l) Nil-Inside
        (Optional-Inside (n - 0) C l h)
  Repeat-Inside C (suc m) (some n) l h =
      Then-Inside (Times (suc m) C) (Optional (n - suc m) C) (Times-Local (suc m) l)
        (Optional-Local (n - suc m) l) (Times-Inside (suc m) C l h)
        (Optional-Inside (n - suc m) C l h)

  -- The classes of a tree have the property.
  unfoldable pub Classes : Node → Type 0
  Classes (rn_class c) = k c
  Classes (rn_cat a b) = Classes a × Classes b
  Classes (rn_alt a b) = Classes a × Classes b
  Classes (rn_rep a m n) = Classes a
  Classes _ = Unit

  pub Code-Inside : (nd : Node) → Classes nd → Inside k (Code nd)
  unfolding Code InstInside Classes
  Code-Inside null r = Nil-Inside
  Code-Inside rn_empty r = Nil-Inside
  Code-Inside (rn_char ch) r = One-Inside _ (λ i. tt)
  Code-Inside (rn_class c) r = One-Inside _ (λ i. r)
  Code-Inside rn_any r = One-Inside _ (λ i. tt)
  Code-Inside rn_bol r = One-Inside _ (λ i. tt)
  Code-Inside rn_eol r = One-Inside _ (λ i. tt)
  Code-Inside (rn_cat a b) (r, s) =
      Then-Inside (Code a) (Code b) (Code-Local a) (Code-Local b) (Code-Inside a r)
        (Code-Inside b s)
  Code-Inside (rn_alt a b) (r, s) =
      Either-Inside (Code a) (Code b) (Code-Local a) (Code-Local b) (Code-Inside a r)
        (Code-Inside b s)
  Code-Inside (rn_rep a m n) r = Repeat-Inside (Code a) m n (Code-Local a) (Code-Inside a r)

any_class : (nd : Node) → Classes (λ c. Unit) nd
unfolding Classes
any_class null = tt
any_class rn_empty = tt
any_class (rn_char ch) = tt
any_class (rn_class c) = tt
any_class rn_any = tt
any_class rn_bol = tt
any_class rn_eol = tt
any_class (rn_cat a b) = (any_class a, any_class b)
any_class (rn_alt a b) = (any_class a, any_class b)
any_class (rn_rep a m n) = any_class a

pub no_match :
    (nd : Node) (p : List Inst) (i j : ℕ)
    → Code nd p i j
    → (x : ℕ) → i ≤ x
    → x < j
    → is_match (get_elem? p x) ≡ false
no_match nd p i j u x h l =
    inside-is_match (λ c. Unit) i j (get_elem? p x)
      (Code-Inside (λ c. Unit) nd (any_class nd) p i j u x h l)
