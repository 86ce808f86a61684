-- ===== src/Regex/Repeats.antt =====
-- The code of repetitions and alternatives of std/regex.c.
use asterism_astools.Prelude.{ℕ, zero, suc, ◌+◌, ◌*◌, ◌<◌, ◌≡◌, sym, ◌∙◌}
use asterism_astools.Prelude.{Option, none, some, List, arith}
use asterism_astools.Prelude.{length, get_elem?}
use asterism_astools.Prelude.{bind_option}
use std.Path.{subst}
use asterism_astools.Regex.{Inst, ri_split, ri_jmp}
use asterism_astools.Regex.Tree.{Emit, max_insts, emit1, optional, star, looping}
use asterism_astools.Regex.Emitted.{
  Shape, Local, Outcome, Emits, then_emitted, One, emit1-Emits, Outcome-map, Then, Then-Local,
  then-Emits, One-Local, Nil, Nil-Local, some-Emits,
}
use asterism_astools.Regex.Patched.{Guard, Guard-Local, guarded-Emits}

-- The same code by another name, and its size.
pub Outcome-as :
    (A B : Shape) (n m : ℕ) (prog : List Inst) (o : Option (List Inst))
    → n ≡ m
    → ((p : List Inst) → A p (length prog) (length p) → B p (length prog) (length p))
    → Outcome A n prog o
    → Outcome B m prog o
Outcome-as A B n m prog o e f h =
    Outcome-map A B n m prog prog o (λ l. omega arith)
      (λ p r. record {
        grown = omega (arith, r.grown);
        fits = r.fits;
        kept = r.kept;
        code = f p r.code;
      })
      h

pub too_large :
    (C : Shape) (n : ℕ) (prog : List Inst) → max_insts < length prog + n → Outcome C n prog none
unfolding Outcome
too_large C n prog h = h

-- `a*`
abbrev pub Star : Shape → Shape
Star C p i j = Guard (Then C (One (ri_jmp i))) p i j

pub Star-Local : {C : Shape} → Local C → Local (Star C)
Star-Local l = record {
  ordered = λ p i j x. (Guard-Local (Then-Local l (One-Local (ri_jmp i)))).ordered p i j x;
  moves =
      λ p p2 i j same x. (Guard-Local (Then-Local l (One-Local (ri_jmp i)))).moves p p2 i j same x;
}

pub star-Emits :
    (C : Shape) (n : ℕ) (e : Emit) → Local C → Emits C n e → Emits (Star C) (n + 2) (star e)
unfolding star
star-Emits C n e l h prog fits =
    Outcome-as _ (Star C) (suc (n + 1)) (n + 2) prog _ (omega arith) (λ p x. x)
      (guarded-Emits (Then C (One (ri_jmp (length prog)))) (n + 1)
        (λ p1. bind_option (e p1) (emit1 (ri_jmp (length prog)))) prog (Then-Local l (One-Local _))
        (then-Emits C (One (ri_jmp (length prog))) n 1 e (emit1 (ri_jmp (length prog))) l h
          (emit1-Emits _))
        fits)

-- The last copy of `a{m}`
abbrev pub Loop : Shape → Shape
Loop C p i j = (k : ℕ) × C p i k × (get_elem? p k ≡ some (ri_split i j)) × (j ≡ suc k)

pub Loop-Local : {C : Shape} → Local C → Local (Loop C)
Loop-Local l = record {
  ordered = λ p i j (k, x, e, n). omega (arith, l.ordered p i k x);
  moves = λ p p2 i j same (k, x, e, n). (
    k,
    l.moves p p2 i k (λ m h1 h2. same m h1 (omega arith)) x,
    same k (l.ordered p i k x) (omega arith) ∙ e,
    n,
  );
}

pub looping-Emits :
    (C : Shape) (n : ℕ) (e : Emit) → Local C → Emits C n e → Emits (Loop C) (n + 1) (looping e)
unfolding looping
looping-Emits C n e l h prog fits =
    then_emitted (Outcome (Loop C) (n + 1) prog) (e prog) _ (h prog fits)
      (λ k. too_large (Loop C) (n + 1) prog (omega arith))
      λ p1 r.
        Outcome-map (One (ri_split (length prog) (suc (length p1)))) (Loop C) 1 (n + 1) p1 prog _
          (λ k. omega (arith, r.grown))
          (λ p2 q. record {
            grown = omega (arith, r.grown, q.grown);
            fits = q.fits;
            kept = λ k x y. q.kept k x (omega (arith, r.grown)) ∙ r.kept k x y;
            code = (
              length p1,
              l.moves p1 p2 _ _ (λ k x y. q.kept k (omega arith) y) r.code,
              subst (λ m. get_elem? p2 (length p1) ≡ some (ri_split (length prog) m)) (sym q.code.1)
                  q.code.0,
              q.code.1,
            );
          })
          (emit1-Emits _ p1 r.fits)

-- The copies that may be left out, each with a split to the end of them all.
abbrev pub Optional : ℕ → Shape → Shape
Optional zero C = Nil
Optional (suc k) C = Guard (Then C (Optional k C))

pub Optional-Local : (k : ℕ) {C : Shape} → Local C → Local (Optional k C)
Optional-Local zero l = Nil-Local
Optional-Local (suc k) l = Guard-Local (Then-Local l (Optional-Local k l))

pub optional-Emits :
    (k : ℕ) (C : Shape) (n : ℕ) (e : Emit)
    → Local C
    → Emits C n e
    → Emits (Optional k C) (k * suc n) (optional k e)
unfolding optional
optional-Emits zero C n e l h prog fits =
    subst (λ x. Outcome Nil x prog (some prog)) (omega arith) (some-Emits prog fits)
optional-Emits (suc k) C n e l h prog fits =
    Outcome-as _ _ (suc (n + k * suc n)) (suc k * suc n) prog _ (omega arith) (λ p x. x)
      (guarded-Emits (Then C (Optional k C)) (n + k * suc n)
        (λ p1. bind_option (e p1) (optional k e)) prog (Then-Local l (Optional-Local k l))
        (then-Emits C (Optional k C) n (k * suc n) e (optional k e) l h
          (optional-Emits k C n e l h))
        fits)
