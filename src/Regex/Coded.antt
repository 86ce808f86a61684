-- ===== src/Regex/Coded.antt =====
-- The code of alternatives and of repetitions of std/regex.c.
use asterism_astools.Prelude.{ℕ, zero, suc, ◌+◌, ◌-◌, ◌*◌, ◌<◌, ◌≡◌, sym, ◌∙◌}
use asterism_astools.Prelude.{Option, none, some, List, arith}
use asterism_astools.Prelude.{length, get_elem?}
use asterism_astools.Prelude.{bind_option}
use std.Path.{subst}
use asterism_astools.Regex.{Inst, ri_split, ri_jmp}
use asterism_astools.Regex.Tree.{
  Emit, emit1, patch_x, guarded, optional, looping, either, repeat, copies,
}
use asterism_astools.Regex.Emitted.{
  Shape, Local, Emitted, Outcome, Emits, then_emitted, One, emit1-Emits, Then, Then-Local,
  then-Emits, One-Local, Nil, Nil-Local, Times, Times-Local, copies-Emits,
}
use asterism_astools.Regex.Patched.{patch_x-jmp, Guard, guarded-Emits}
use asterism_astools.Regex.Repeats.{
  too_large, Star, Star-Local, star-Emits, Loop, Loop-Local, looping-Emits, Optional,
  Optional-Local, optional-Emits,
}

-- `a|b`
abbrev pub Either : Shape → Shape → Shape
Either A B p i j =
    (k : ℕ) × (get_elem? p i ≡ some (ri_split (suc i) k))
    × Then A (One (ri_jmp j)) p (suc i) k
    × B p k j

pub Either-Local : {A B : Shape} → Local A → Local B → Local (Either A B)
Either-Local a b = record {
  ordered = λ p i j (k, e, x, y).
      omega (arith, (Then-Local a (One-Local (ri_jmp j))).ordered p (suc i) k x, b.ordered p k j y);
  moves = λ p p2 i j same (k, e, x, y).
      let left = (Then-Local a (One-Local (ri_jmp j))).ordered p (suc i) k x in
      let right = b.ordered p k j y in
      (
        k,
        same i (omega arith) (omega arith) ∙ e,
        (Then-Local a (One-Local (ri_jmp j))).moves p p2 (suc i) k
            (λ m h1 h2. same m (omega arith) (omega arith)) x,
        b.moves p p2 k j (λ m h1 h2. same m (omega arith) h2) y,
      );
}

pred_eq : (a k : ℕ) → a ≡ suc k → a - 1 ≡ k
pred_eq a k e = omega arith

either_patch :
    (A B : Shape) (n m : ℕ) (prog p2 p3 : List Inst)
    → Local A
    → Local B
    → Emitted (Guard (Then A (One (ri_jmp 0)))) n prog p2
    → Emitted B m p2 p3
    → Emitted (Either A B) (n + m) prog (patch_x (length p2 - 1) (length p3) p3)
either_patch A B n m prog p2 p3 la lb r q =
    let (split, (k, a, (jump, next))) = r.code in
    let at_k = q.kept k (omega arith) (omega arith) ∙ jump in
    let (len, self, others) = patch_x-jmp p3 k (length p3) 0 at_k in
    let low = la.ordered p2 (suc (length prog)) k a in
    let same : (m : ℕ)
        → (k ≡ m → ⊥)
        → m < length p2
        → get_elem? (patch_x k (length p3) p3) m ≡ get_elem? p2 m =
      λ m h1 h2. others m h1 ∙ q.kept m (omega arith) h2 in
    subst (λ i. Emitted (Either A B) (n + m) prog (patch_x i (length p3) p3))
      (sym (pred_eq (length p2) k next))
      record {
        grown = omega (arith, r.grown, q.grown);
        fits = omega (arith, q.fits);
        kept = λ m h1 h2. same m (λ e. omega arith) (omega (arith, r.grown)) ∙ r.kept m h1 h2;
        code = subst (Either A B (patch_x k (length p3) p3) (length prog)) (sym len) (
          length p2,
          same (length prog) (λ e. omega arith) (omega arith) ∙ split,
          (
            k,
            la.moves p2 _ _ k (λ m h1 h2. same m (λ e. omega arith) (omega arith)) a,
            (self, next),
          ),
          lb.moves p3 _ _ _ (λ m h1 h2. others m λ e. omega arith) q.code,
        );
      }

Outcome-patch :
    (A B : Shape) (n m : ℕ) (prog p2 : List Inst) (o : Option (List Inst))
    → Local A
    → Local B
    → Emitted (Guard (Then A (One (ri_jmp 0)))) n prog p2
    → Outcome B m p2 o
    → Outcome
        (Either A B)
        (n + m)
        prog
        (bind_option o λ p3. some (patch_x (length p2 - 1) (length p3) p3))
unfolding Outcome
Outcome-patch A B n m prog p2 none la lb r q = omega (arith, r.grown)
Outcome-patch A B n m prog p2 (some p3) la lb r q = either_patch A B n m prog p2 p3 la lb r q

pub either-Emits :
    (A B : Shape) (n m : ℕ) (ea eb : Emit)
    → Local A
    → Local B
    → Emits A n ea
    → Emits B m eb
    → Emits (Either A B) (suc (n + 1) + m) (either ea eb)
unfolding either
either-Emits A B n m ea eb la lb ha hb prog fits =
    then_emitted (Outcome (Either A B) (suc (n + 1) + m) prog)
      (guarded (λ p1. bind_option (ea p1) (emit1 (ri_jmp 0))) prog) _
      (guarded-Emits (Then A (One (ri_jmp 0))) (n + 1)
        (λ p1. bind_option (ea p1) (emit1 (ri_jmp 0))) prog (Then-Local la (One-Local _))
        (then-Emits A (One (ri_jmp 0)) n 1 ea (emit1 (ri_jmp 0)) la ha (emit1-Emits _)) fits)
      (λ k. too_large (Either A B) _ prog (omega arith))
      λ p2 r. Outcome-patch A B (suc (n + 1)) m prog p2 (eb p2) la lb r (hb p2 r.fits)

-- A part that is repeated.
abbrev pub Repeat : Shape → ℕ → Option ℕ → Shape
Repeat C zero none = Star C
Repeat C (suc m) none = Then (Times m C) (Loop C)
Repeat C m (some n) = Then (Times m C) (Optional (n - m) C)

pub Repeat-Local : (C : Shape) (m : ℕ) (n : Option ℕ) → Local C → Local (Repeat C m n)
Repeat-Local C zero none l = Star-Local l
Repeat-Local C (suc m) none l = Then-Local (Times-Local m l) (Loop-Local l)
Repeat-Local C zero (some n) l = Then-Local (Times-Local 0 l) (Optional-Local (n - 0) l)
Repeat-Local C (suc m) (some n) l =
    Then-Local (Times-Local (suc m) l) (Optional-Local (n - suc m) l)

abbrev pub repeat_size : ℕ → ℕ → Option ℕ → ℕ
repeat_size size zero none = size + 2
repeat_size size (suc m) none = m * size + (size + 1)
repeat_size size m (some n) = m * size + (n - m) * suc size

pub repeat-Emits :
    (C : Shape) (m : ℕ) (n : Option ℕ) (size : ℕ) (e : Emit)
    → Local C
    → Emits C size e
    → Emits (Repeat C m n) (repeat_size size m n) (repeat e m n)
unfolding repeat
repeat-Emits C zero none size e l h = star-Emits C size e l h
repeat-Emits C (suc m) none size e l h =
    then-Emits (Times m C) (Loop C) _ _ (copies m e) (looping e) (Times-Local m l)
      (copies-Emits m C size e l h) (looping-Emits C size e l h)
repeat-Emits C zero (some n) size e l h =
    then-Emits Nil (Optional (n - 0) C) _ _ (copies 0 e) (optional (n - 0) e) Nil-Local
      (copies-Emits 0 C size e l h) (optional-Emits (n - 0) C size e l h)
repeat-Emits C (suc m) (some n) size e l h =
    then-Emits (Times (suc m) C) (Optional (n - suc m) C) _ _ (copies (suc m) e)
      (optional (n - suc m) e) (Times-Local (suc m) l) (copies-Emits (suc m) C size e l h)
      (optional-Emits (n - suc m) C size e l h)
