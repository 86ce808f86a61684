-- ===== src/Regex/Patched.antt =====
-- The splits and jumps that std/regex.c writes when the code up to their targets is there.
use asterism_astools.Prelude.{ℕ, suc, ◌+◌, ◌≤◌, ◌≡◌, sym, ◌∙◌}
use asterism_astools.Prelude.{Option, none, some, List, arith}
use asterism_astools.Prelude.{length, get_elem?}
use asterism_astools.Prelude.{bind_option}
use std.Path.{subst}
use asterism_astools.Prelude.{set, length-set, get_elem?-set_self, get_elem?-set_ne}
use asterism_astools.Regex.{Inst, ri_split, ri_jmp}
use asterism_astools.Regex.Runs.{get_elem?-lt}
use asterism_astools.Regex.Tree.{Emit, max_insts, emit1, patch_x, patch_y, guarded}
use asterism_astools.Regex.Emitted.{
  Shape, Local, Emitted, Outcome, Emits, One, emit1-Emits, Then, then-Emits, One-Local,
}

-- One instruction is another one.
abbrev pub Patched : ℕ → Inst → List Inst → List Inst → Type 0
Patched i inst p p2 =
    (length p2 ≡ length p)
    × (get_elem? p2 i ≡ some inst)
    × ((k : ℕ) → (i ≡ k → ⊥) → get_elem? p2 k ≡ get_elem? p k)

set-Patched :
    (p : List Inst) (i : ℕ) (old inst : Inst)
    → get_elem? p i ≡ some old
    → Patched i inst p (set p i inst)
set-Patched p i old inst e = (
  length-set p i inst,
  get_elem?-set_self p i inst (get_elem?-lt p i old e),
  λ k h. get_elem?-set_ne p inst h,
)

pub patch_x-jmp :
    (p : List Inst) (i v x : ℕ)
    → get_elem? p i ≡ some (ri_jmp x)
    → Patched i (ri_jmp v) p (patch_x i v p)
unfolding patch_x
patch_x-jmp p i v x e = rw (patch_x, e) (set-Patched p i (ri_jmp x) (ri_jmp v) e)

pub patch_y-split :
    (p : List Inst) (i v x y : ℕ)
    → get_elem? p i ≡ some (ri_split x y)
    → Patched i (ri_split x v) p (patch_y i v p)
unfolding patch_y
patch_y-split p i v x y e = rw (patch_y, e) (set-Patched p i (ri_split x y) (ri_split x v) e)

one_plus : (n : ℕ) → 1 + n ≡ suc n
one_plus n = omega arith

pub Outcome-change :
    (A B : Shape) (n : ℕ) (prog : List Inst) (o : Option (List Inst)) (g : List Inst → List Inst)
    → ((p : List Inst) → Emitted A n prog p → Emitted B n prog (g p))
    → Outcome A n prog o
    → Outcome B n prog (bind_option o λ p. some (g p))
unfolding Outcome
Outcome-change A B n prog none g f h = h
Outcome-change A B n prog (some p) g f h = f p h

-- A split to the end or into the part behind it.
abbrev pub Guard : Shape → Shape
Guard D p i j = (get_elem? p i ≡ some (ri_split (suc i) j)) × D p (suc i) j

pub Guard-Local : {D : Shape} → Local D → Local (Guard D)
Guard-Local l = record {
  ordered = λ p i j (e, x). omega (arith, l.ordered p (suc i) j x);
  moves = λ p p2 i j same (e, x). (
    same i (omega arith) (omega (arith, l.ordered p (suc i) j x)) ∙ e,
    l.moves p p2 (suc i) j (λ k h1 h2. same k (omega arith) h2) x,
  );
}

guarded_patch :
    (D : Shape) (n : ℕ) (prog p : List Inst)
    → Local D
    → Emitted (Then (One (ri_split (suc (length prog)) 0)) D) n prog p
    → Emitted (Guard D) n prog (patch_y (length prog) (length p) p)
guarded_patch D n prog p l r =
    let (k, (e, next), x) = r.code in
    let (len, self, others) = patch_y-split p (length prog) (length p) (suc (length prog)) 0 e in
    record {
      grown = omega (arith, r.grown);
      fits = omega (arith, r.fits);
      kept = λ k2 h1 h2. others k2 (λ q. omega arith) ∙ r.kept k2 h1 h2;
      code = subst (Guard D (patch_y (length prog) (length p) p) (length prog)) (sym len) (
        self,
        l.moves p _ (suc (length prog)) (length p) (λ k2 h1 h2. others k2 λ q. omega arith)
            (subst (λ m. D p m (length p)) next x),
      );
    }

pub guarded-Emits :
    (D : Shape) (n : ℕ) (e : Emit) (prog : List Inst)
    → Local D
    → Emits D n e
    → length prog ≤ max_insts
    → Outcome (Guard D) (suc n) prog (guarded e prog)
unfolding guarded
guarded-Emits D n e prog l h fits =
    Outcome-change (Then (One (ri_split (suc (length prog)) 0)) D) (Guard D) (suc n) prog
      (bind_option (emit1 (ri_split (suc (length prog)) 0) prog) e)
      (λ p. patch_y (length prog) (length p) p) (λ p r. guarded_patch D (suc n) prog p l r)
      (subst
        (λ m.
          Outcome (Then (One (ri_split (suc (length prog)) 0)) D) m prog
            (bind_option (emit1 (ri_split (suc (length prog)) 0) prog) e))
        (one_plus n)
        (then-Emits _ D 1 n (emit1 (ri_split (suc (length prog)) 0)) e (One-Local _) (emit1-Emits _)
          h prog fits))
