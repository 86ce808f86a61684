-- ===== src/Regex/Emitted.antt =====
-- What it means that code is emitted, for a pattern of code, and the parts that have no repetition.
use asterism_astools.Prelude.{ℕ, zero, suc, ◌+◌, ◌*◌, ◌≤◌, ◌<◌, ◌≡◌, refl, ◌∙◌}
use asterism_astools.Prelude.{Option, none, some, List, [], ◌∷◌, ◌++◌, arith}
use asterism_astools.Prelude.{leb}
use asterism_astools.Prelude.{length, get_elem?, length-append}
use asterism_astools.Prelude.{bind_option}
use std.Path.{subst}
use asterism_astools.Prelude.{on_if}
use asterism_astools.Regex.{Inst}
use asterism_astools.Regex.Tree.{Emit, max_insts, emit1, copies}

-- The code of a part, from one place of a program to another.
abbrev pub Shape : Type 1
Shape = List Inst → ℕ → ℕ → Type 0

-- The instructions from `i` up to `j` are the same.
abbrev pub Same : List Inst → List Inst → ℕ → ℕ → Type 0
Same p p2 i j = (k : ℕ) → i ≤ k → k < j → get_elem? p2 k ≡ get_elem? p k

-- A shape only looks at its own instructions.
pub record Local (C : Shape) : Type 0 where
  pub ordered : (p : List Inst) (i j : ℕ) → C p i j → i ≤ j
  pub moves : (p p2 : List Inst) (i j : ℕ) → Same p p2 i j → C p i j → C p2 i j

pub record Emitted (C : Shape) (size : ℕ) (prog p2 : List Inst) : Type 0 where
  pub grown : length p2 ≡ length prog + size
  pub fits : length p2 ≤ max_insts
  pub kept : Same prog p2 0 (length prog)
  pub code : C p2 (length prog) (length p2)

-- The code is appended if it fits, and only if it does not there is an error.
unfoldable pub Outcome : Shape → ℕ → List Inst → Option (List Inst) → Type 0
Outcome C size prog none = max_insts < length prog + size
Outcome C size prog (some p2) = Emitted C size prog p2

abbrev pub Emits : Shape → ℕ → Emit → Type 0
Emits C size emit = (prog : List Inst) → length prog ≤ max_insts → Outcome C size prog (emit prog)

pub then_emitted :
    {C : Shape} {size : ℕ} {prog : List Inst} (P : Option (List Inst) → Type 0)
    (o : Option (List Inst)) (f : List Inst → Option (List Inst))
    → Outcome C size prog o
    → (max_insts < length prog + size → P none)
    → ((p2 : List Inst) → Emitted C size prog p2 → P (f p2))
    → P (bind_option o f)
unfolding Outcome
then_emitted P none f h p q = p h
then_emitted P (some p2) f h p q = q p2 h

-- One instruction.
abbrev pub One : Inst → Shape
One inst p i j = (get_elem? p i ≡ some inst) × (j ≡ suc i)

pub One-Local : (inst : Inst) → Local (One inst)
One-Local inst = record {
  ordered = λ p i j (e, h). omega arith;
  moves = λ p p2 i j same (e, h). (same i (omega arith) (omega arith) ∙ e, h);
}

pub get_elem?-append_left :
    {A : Type 0} (xs ys : List A) (i : ℕ) → i < length xs → get_elem? (xs ++ ys) i ≡ get_elem? xs i
get_elem?-append_left [] ys i h = absurd (omega arith)
get_elem?-append_left (x ∷ xs) ys zero h = refl
get_elem?-append_left (x ∷ xs) ys (suc i) h = get_elem?-append_left xs ys i (omega arith)

pub get_elem?-last :
    {A : Type 0} (xs : List A) (x : A) → get_elem? (xs ++ x ∷ []) (length xs) ≡ some x
get_elem?-last [] x = refl
get_elem?-last (y ∷ xs) x = get_elem?-last xs x

one_full :
    (inst : Inst) (prog : List Inst) → max_insts ≤ length prog → Outcome (One inst) 1 prog none
unfolding Outcome
one_full inst prog h = omega arith

one_fits :
    (inst : Inst) (prog : List Inst)
    → length prog < max_insts
    → Outcome (One inst) 1 prog (some (prog ++ inst ∷ []))
unfolding Outcome
one_fits inst prog h = record {
  grown = length-append prog (inst ∷ []);
  fits = omega (arith, length-append prog (inst ∷ []));
  kept = λ k a b. get_elem?-append_left prog (inst ∷ []) k b;
  code = (get_elem?-last prog inst, omega (arith, length-append prog (inst ∷ [])));
}

pub emit1-Emits : (inst : Inst) → Emits (One inst) 1 (emit1 inst)
unfolding emit1
emit1-Emits inst prog h =
    on_if (Outcome (One inst) 1 prog) (leb max_insts (length prog)) _ _
      (λ e. one_full inst prog (ground arith)) (λ e. one_fits inst prog (ground arith))

-- Nothing.
abbrev pub Nil : Shape
Nil p i j = i ≡ j

pub Nil-Local : Local Nil
Nil-Local = record { ordered = λ p i j e. omega arith; moves = λ p p2 i j same e. e }

pub some-Emits : Emits Nil 0 some
unfolding Outcome
some-Emits prog h = record { grown = omega arith; fits = h; kept = λ k a b. refl; code = refl }

-- One part after the other.
abbrev pub Then : Shape → Shape → Shape
Then A B p i j = (k : ℕ) × A p i k × B p k j

pub Then-Local : {A B : Shape} → Local A → Local B → Local (Then A B)
Then-Local a b = record {
  ordered = λ p i j (k, x, y). omega (arith, a.ordered p i k x, b.ordered p k j y);
  moves = λ p p2 i j same (k, x, y). (
    k,
    a.moves p p2 i k (λ l h1 h2. same l h1 (omega (arith, b.ordered p k j y))) x,
    b.moves p p2 k j (λ l h1 h2. same l (omega (arith, a.ordered p i k x)) h2) y,
  );
}

pub Outcome-map :
    (A B : Shape) (n m : ℕ) (p1 prog : List Inst) (o : Option (List Inst))
    → (max_insts < length p1 + n → max_insts < length prog + m)
    → ((p2 : List Inst) → Emitted A n p1 p2 → Emitted B m prog p2)
    → Outcome A n p1 o
    → Outcome B m prog o
unfolding Outcome
Outcome-map A B n m p1 prog none f g h = f h
Outcome-map A B n m p1 prog (some p2) f g h = g p2 h

pub then-Emits :
    (A B : Shape) (n m : ℕ) (ea eb : Emit)
    → Local A
    → Emits A n ea
    → Emits B m eb
    → Emits (Then A B) (n + m) λ prog. bind_option (ea prog) eb
unfolding Outcome
then-Emits A B n m ea eb la a b prog h =
    then_emitted (Outcome (Then A B) (n + m) prog) (ea prog) eb (a prog h) (λ e. omega arith)
      λ p1 r.
        Outcome-map B (Then A B) m (n + m) p1 prog (eb p1) (λ e. omega (arith, r.grown))
          (λ p2 q. record {
            grown = omega (arith, r.grown, q.grown);
            fits = q.fits;
            kept = λ k x y. q.kept k x (omega (arith, r.grown)) ∙ r.kept k x y;
            code =
                (length p1, la.moves p1 p2 _ _ (λ k x y. q.kept k (omega arith) y) r.code, q.code);
          })
          (b p1 r.fits)

-- The same part `k` times.
abbrev pub Times : ℕ → Shape → Shape
Times zero C = Nil
Times (suc k) C = Then C (Times k C)

pub Times-Local : (k : ℕ) {C : Shape} → Local C → Local (Times k C)
Times-Local zero l = Nil-Local
Times-Local (suc k) l = Then-Local l (Times-Local k l)

pub copies-Emits :
    (k : ℕ) (C : Shape) (n : ℕ) (e : Emit)
    → Local C
    → Emits C n e
    → Emits (Times k C) (k * n) (copies k e)
unfolding copies
copies-Emits zero C n e l h prog =
    λ fits. subst (λ x. Outcome Nil x prog (some prog)) (omega arith) (some-Emits prog fits)
copies-Emits (suc k) C n e l h prog = λ fits.
    subst (λ x. Outcome (Times (suc k) C) x prog (copies (suc k) e prog)) (omega arith)
      (then-Emits C (Times k C) n (k * n) e (copies k e) l h (copies-Emits k C n e l h) prog fits)
