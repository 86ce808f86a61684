-- ===== src/Regex/Closure.antt =====
-- The states that `re_add` of std/regex.c has not marked.
use asterism_astools.Prelude.{ℕ, zero, suc, ◌+◌, ◌≤◌, ◌<◌, ◌≡◌, sym, ap, ◌∙◌}
use asterism_astools.Prelude.{Option, none, some, List, ◌∷◌, arith}
use asterism_astools.Prelude.{ℕ_discrete}
use asterism_astools.Regex.{Thread, start_of}

-- The states below `n` that are not marked.
unfoldable pub is_new : Option ℕ → ℕ
is_new none = 1
is_new (some s) = 0

unfoldable pub unmarked : List Thread → ℕ → ℕ
unfolding is_new
unmarked marks zero = 0
unmarked marks (suc n) = is_new (start_of marks n) + unmarked marks n

pub unmarked-le : (marks : List Thread) (n : ℕ) → unmarked marks n ≤ n
unfolding unmarked is_new
unmarked-le marks zero = omega arith
unmarked-le marks (suc n) = ground (arith, unmarked-le marks n)

-- The state that is marked is not new any more, and the others are as they were.
pub start_of_other :
    (marks : List Thread) (pc s n : ℕ)
    → (pc ≡ n → ⊥)
    → start_of ((pc, s) ∷ marks) n ≡ start_of marks n
start_of_other marks pc s n h = ground arith

pub start_of_self :
    (marks : List Thread) (pc s n : ℕ) → pc ≡ n → start_of ((pc, s) ∷ marks) n ≡ some s
start_of_self marks pc s n h = ground arith

-- Marking a state does not add to them, and takes one away from those that it is among.
pub unmarked-mark :
    (marks : List Thread) (pc s n : ℕ)
    → start_of marks pc ≡ none
    → (unmarked ((pc, s) ∷ marks) n ≤ unmarked marks n)
      × (pc < n → suc (unmarked ((pc, s) ∷ marks) n) ≤ unmarked marks n)
unfolding unmarked is_new
unmarked-mark marks pc s zero h = (omega arith, λ k. absurd (omega arith))
unmarked-mark marks pc s (suc n) h =
    let (less, fewer) = unmarked-mark marks pc s n h in
    elim (ℕ_discrete pc n) [
      | yes same ↦
          rw (start_of_self marks pc s n same)
            (rw (ap (start_of marks) (sym same) ∙ h) (omega arith, λ k. omega arith))
      | no other ↦ rw (start_of_other marks pc s n other) (omega arith, λ k. omega arith)
    ]
