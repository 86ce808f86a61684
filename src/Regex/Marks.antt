-- ===== src/Regex/Marks.antt =====
-- The marks of `re_add` of std/regex.c and the order of its list.
use asterism_astools.Prelude.{ℕ, ◌≤◌, ◌≡◌, refl, sym, ap, ◌∙◌, ◌⊎◌, inl, inr}
use asterism_astools.Prelude.{Bool, true, false, none, some, List, [], ◌∷◌, ◌++◌, arith}
use asterism_astools.Prelude.{if◌then◌else◌, some_inj}
use asterism_astools.Prelude.{ℕ_discrete}
use asterism_astools.Regex.{Thread, start_of}
use asterism_astools.Regex.Runs.{Occurs, Occurs-append, Occurs-left, Occurs-right}
use asterism_astools.Regex.Closure.{start_of_self, start_of_other}

-- The state is marked with a start that is not after `t`.
unfoldable pub Marked : List Thread → ℕ → ℕ → Type 0
Marked marks pc t = (t1 : ℕ) × (start_of marks pc ≡ some t1) × (t1 ≤ t)

-- It is, or it is on the stack of a thread with such a start.
abbrev pub Promised : List Thread → ℕ → List ℕ → ℕ → ℕ → Type 0
Promised marks s stk pc t = Marked marks pc t ⊎ (Occurs pc stk × (s ≤ t))

pub some-none : {t : ℕ} → some t ≡ none → ⊥
some-none e = cc

-- The starts in the list, from `lo` on, do not fall.
abbrev pub Rising : ℕ → List Thread → Type 0
Rising lo [] = Unit
Rising lo ((pc, s) ∷ list) = (lo ≤ s) × Rising s list

pub Rising-append :
    (lo pc s : ℕ) (list : List Thread)
    → Rising lo list
    → lo ≤ s
    → ((pc2 t : ℕ) → Occurs (pc2, t) list → t ≤ s)
    → Rising lo (list ++ (pc, s) ∷ [])
Rising-append lo pc s [] h k below = (k, tt)
Rising-append lo pc s ((pc2, t) ∷ list) h k below =
    (h.0, Rising-append t pc s list h.1 (below pc2 t (inl refl)) λ pc3 t3 o. below pc3 t3 (inr o))

pub Promised-pop :
    (marks : List Thread) (s pc t0 : ℕ) (stk : List ℕ) (pc2 t : ℕ)
    → start_of marks pc ≡ some t0
    → t0 ≤ s
    → Promised marks s (pc ∷ stk) pc2 t
    → Promised marks s stk pc2 t
unfolding Marked
Promised-pop marks s pc t0 stk pc2 t e h (inl m) = inl m
Promised-pop marks s pc t0 stk pc2 t e h (inr (inl same, k)) =
    inl (t0, ap (start_of marks) same ∙ e, omega arith)
Promised-pop marks s pc t0 stk pc2 t e h (inr (inr o, k)) = inr (o, k)

pub Promised-all :
    (marks : List Thread) (s s2 : ℕ) (stk : List ℕ) (pc t : ℕ)
    → Promised marks s [] pc t
    → Promised marks s2 stk pc t
Promised-all marks s s2 stk pc t (inl m) = inl m
Promised-all marks s s2 stk pc t (inr (n, k)) = absurd n

Marked-visit :
    (marks : List Thread) (s pc pc2 t : ℕ)
    → start_of marks pc ≡ none
    → Marked marks pc2 t
    → Marked ((pc, s) ∷ marks) pc2 t
unfolding Marked
Marked-visit marks s pc pc2 t e (t1, h, k) = elim (ℕ_discrete pc pc2) [
  | yes same ↦ absurd (some-none (sym h ∙ (ap (start_of marks) (sym same) ∙ e)))
  | no other ↦ (t1, start_of_other marks pc s pc2 other ∙ h, k)
]

pub Promised-visit :
    (marks : List Thread) (s pc : ℕ) (more stk : List ℕ) (pc2 t : ℕ)
    → start_of marks pc ≡ none
    → Promised marks s (pc ∷ stk) pc2 t
    → Promised ((pc, s) ∷ marks) s (more ++ stk) pc2 t
unfolding Marked
Promised-visit marks s pc more stk pc2 t e (inl m) = inl (Marked-visit marks s pc pc2 t e m)
Promised-visit marks s pc more stk pc2 t e (inr (inl same, k)) =
    inl (s, start_of_self marks pc s pc2 (sym same), k)
Promised-visit marks s pc more stk pc2 t e (inr (inr o, k)) = inr (Occurs-right pc2 more stk o, k)

-- Which state has the start of a mark, after one more.
pub start_of_inv :
    (marks : List Thread) (pc s pc2 t : ℕ)
    → start_of ((pc, s) ∷ marks) pc2 ≡ some t
    → ((pc2 ≡ pc) × (t ≡ s)) ⊎ (start_of marks pc2 ≡ some t)
start_of_inv marks pc s pc2 t e = elim (ℕ_discrete pc pc2) [
  | yes same ↦ inl (sym same, some_inj (sym e ∙ start_of_self marks pc s pc2 same))
  | no other ↦ inr (sym (start_of_other marks pc s pc2 other) ∙ e)
]

-- The list of `visit`, by whether the state goes into it.
abbrev pub added : Bool → List Thread → Thread → List Thread
added b list x = if b then list ++ x ∷ [] else list

pub Occurs-added :
    (b : Bool) (list : List Thread) (x y : Thread) → Occurs y list → Occurs y (added b list x)
Occurs-added true list x y o = Occurs-left y list (x ∷ []) o
Occurs-added false list x y o = o

pub added-inv :
    (b : Bool) (list : List Thread) (x y : Thread)
    → Occurs y (added b list x)
    → Occurs y list ⊎ (y ≡ x)
added-inv true list x y o = elim (Occurs-append y list (x ∷ []) o) [
  | inl k ↦ inl k
  | inr k ↦ elim k [ inl e ↦ inr e | inr n ↦ absurd n ]
]
added-inv false list x y o = inl o

pub Occurs-last :
    (b : Bool) (list : List Thread) (x : Thread) → b ≡ true → Occurs x (added b list x)
Occurs-last true list x e = Occurs-right x list (x ∷ []) (inl refl)
Occurs-last false list x e = cc

pub Rising-added :
    (b : Bool) (list : List Thread) (pc s : ℕ)
    → Rising 0 list
    → ((pc2 t : ℕ) → Occurs (pc2, t) list → t ≤ s)
    → Rising 0 (added b list (pc, s))
Rising-added true list pc s h below = Rising-append 0 pc s list h (omega arith) below
Rising-added false list pc s h below = h
