-- ===== src/Regex/Complete.antt =====
-- The list of the search of std/regex.c against the threads that there are.
use asterism_astools.Prelude.{ℕ, suc, ◌≤◌, ◌≡◌, sym, inl, inr}
use asterism_astools.Prelude.{true, false, some, List, [], arith}
use asterism_astools.Prelude.{length, get_elem?}
use asterism_astools.Prelude.{Bytes}
use std.Path.{subst}
use asterism_astools.Regex.{Regex, Thread, is_listed, Best, Added, pruned, takes}
use asterism_astools.Regex.Runs.{Occurs, Run, begin, eps, eat, Eps}
use asterism_astools.Regex.Marks.{Marked}
use asterism_astools.Regex.Invariant.{Inv}

module _ (re : Regex) (line : Bytes) where
  abbrev pub Marks : ℕ → ℕ → Added → Type 0
  Marks pos s a = Inv re line pos (λ pc t. Run re line t pc pos) s [] a

  -- A thread that is at least as early is in the list, unless it would be pruned.
  abbrev pub Complete : ℕ → Best → List Thread → Type 0
  Complete pos best list =
      (pc s : ℕ)
      → Run re line s pc pos
      → pruned best s ≡ false
      → is_listed (get_elem? re.prog pc) ≡ true
      → (t : ℕ) × Occurs (pc, t) list × (t ≤ s)

  pub closed_mark :
      (pos s : ℕ) (a : Added) (pc pc2 t : ℕ)
      → Marks pos s a
      → Marked a.marks pc t
      → Eps re line pos pc pc2
      → Marked a.marks pc2 t
  unfolding Marked
  closed_mark pos s a pc pc2 t i (t1, e, k) o = elim (i.closed pc pc2 t1 e o) [
    | inl (t2, e2, k2) ↦ (t2, e2, omega arith)
    | inr (n, l) ↦ absurd n
  ]

  -- What is marked: the thread that starts here, those that took a byte, and what they reach.
  pub all_marks :
      (pos hi : ℕ) (best : Best) (a : Added)
      → Marks pos hi a
      → (pos ≤ length line → pruned best pos ≡ false → Marked a.marks 0 pos)
      → ((s pc pos0 c : ℕ)
          → suc pos0 ≡ pos
          → Run re line s pc pos0
          → get_elem? line pos0 ≡ some c
          → takes re (length line) (get_elem? re.prog pc) c ≡ true
          → pruned best s ≡ false
          → Marked a.marks (suc pc) s)
      → (s pc p : ℕ) → p ≡ pos
      → Run re line s pc p
      → pruned best s ≡ false
      → Marked a.marks pc s
  all_marks pos hi best a i start took s pc p e (begin h) live =
      subst (Marked a.marks 0) (sym e)
        (start (omega arith) (subst (λ q. pruned best q ≡ false) e live))
  all_marks pos hi best a i start took s pc p e (eps {pc = pc0} r o) live =
      closed_mark pos hi a pc0 pc s i (all_marks pos hi best a i start took s pc0 p e r live)
        (subst (λ q. Eps re line q pc0 pc) e o)
  all_marks pos hi best a i start took s pc p e (eat {pc = pc0} {pos = pos0} c r g t) live =
      took s pc0 pos0 c e r g t live

  pub Complete-marks :
      (pos hi : ℕ) (best : Best) (a : Added)
      → Marks pos hi a
      → ((pc s : ℕ) → Run re line s pc pos → pruned best s ≡ false → Marked a.marks pc s)
      → Complete pos best a.list
  unfolding Marked
  Complete-marks pos hi best a i all pc s r live l =
      let (t, e, k) = all pc s r live in (t, i.listed pc t e l, k)
