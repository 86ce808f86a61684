-- ===== src/Regex/Advance.antt =====
-- The threads that the search of std/regex.c moves to the next position.
use asterism_astools.Prelude.{ℕ, suc, ◌≤◌, ◌≡◌, refl, sym, ◌∙◌, inl, inr}
use asterism_astools.Prelude.{Bool, true, false, not, ◌&&◌, some, List, [], ◌∷◌}
use asterism_astools.Prelude.{bool_clash}
use asterism_astools.Prelude.{length, get_elem?, take}
use asterism_astools.Prelude.{Bytes}
use asterism_astools.Prelude.{on_bool}
use std.Path.{subst}
use asterism_astools.Regex.{Regex, Thread, Best, Added, pruned, takes, re_add, advance_all}
use asterism_astools.Regex.Runs.{Occurs, Run, eps, eat, Run-bounds}
use asterism_astools.Regex.Marks.{Marked, Rising}
use asterism_astools.Regex.Invariant.{Inv, Inv-later}
use asterism_astools.Regex.Settling.{re_add-Inv}

both : (a b : Bool) → (not a && b) ≡ true → b ≡ true
both true b e = cc
both false b e = e

neither : (a b : Bool) → a ≡ false → b ≡ true → (not a && b) ≡ true
neither true b e f = cc
neither false b e f = f

module _ (re : Regex) (line : Bytes) (pos c : ℕ) (best : Best)
    (here : get_elem? line pos ≡ some c) where
  -- The threads of a list are where they say.
  abbrev pub Sound : List Thread → Type 0
  Sound list = (pc s : ℕ) → Occurs (pc, s) list → Run re line s pc pos

  abbrev pub Next : ℕ → Added → Type 0
  Next s a = Inv re line (suc pos) (λ pc t. Run re line t pc (suc pos)) s [] a

  unfoldable pub Moved : List Thread → Added → Added → Type 0
  Moved list a b =
      Next pos b
      × ((pc t : ℕ) → Marked a.marks pc t → Marked b.marks pc t)
      × ((pc s : ℕ)
          → Occurs (pc, s) list
          → pruned best s ≡ false
          → takes re (length line) (get_elem? re.prog pc) c ≡ true
          → Marked b.marks (suc pc) s)

  unfoldable Step : ℕ → ℕ → Added → Added → Type 0
  Step pc s a b =
      Next s b
      × ((pc2 t : ℕ) → Marked a.marks pc2 t → Marked b.marks pc2 t)
      × (pruned best s ≡ false
          → takes re (length line) (get_elem? re.prog pc) c ≡ true
          → Marked b.marks (suc pc) s)

  thread_moves :
      (lo pc s : ℕ) (a : Added)
      → Next lo a
      → lo ≤ s
      → Run re line s pc pos
      → Step pc s a (elim (not (pruned best s) && takes re (length line) (get_elem? re.prog pc) c) [
        | true ↦ re_add re (length line) (suc pos) s (suc pc) a
        | false ↦ a
      ])
  unfolding Step
  thread_moves lo pc s a i h r =
      on_bool (Step pc s a) (not (pruned best s) && takes re (length line) (get_elem? re.prog pc) c)
        _ _
        (λ e.
          let (inv, kept, marked) =
            re_add-Inv re line (suc pos) (λ pc2 t. Run re line t pc2 (suc pos))
              (λ pc2 pc3 t q o. eps q o) lo s (suc pc) a i h
              (eat c r here (both (pruned best s) _ e)) in
          (inv, kept, λ live t. marked))
        (λ e. (
          Inv-later re line (suc pos) _ lo s a i h,
          λ pc2 t m. m,
          λ live t. absurd (bool_clash (sym (neither _ _ live t) ∙ e)),
        ))

  pub advance_all-Moved :
      (lo : ℕ) (list : List Thread) (a : Added)
      → Rising lo list
      → lo ≤ pos
      → Sound list
      → Next lo a
      → Moved list a (advance_all re (length line) pos c best list a)
  unfolding Moved advance_all Step
  advance_all-Moved lo [] a h k sound i =
      (Inv-later re line (suc pos) _ lo pos a i k, λ pc t m. m, λ pc s o. absurd o)
  advance_all-Moved lo ((pc, s) ∷ list) a h k sound i =
      let (next, kept, taken) = thread_moves lo pc s a i h.0 (sound pc s (inl refl)) in
      let (last, keep, take) =
        advance_all-Moved s list _ h.1 (Run-bounds re line (sound pc s (inl refl))).0
          (λ pc2 s2 o. sound pc2 s2 (inr o)) next in
      (
        last,
        λ pc2 t m. keep pc2 t (kept pc2 t m),
        λ pc2 s2 o live t. elim o [
          | inl e ↦
              subst
                (λ x.
                  pruned best x.1 ≡ false
                  → takes re (length line) (get_elem? re.prog x.0) c ≡ true
                  → Marked (advance_all re (length line) pos c best ((pc, s) ∷ list) a).marks
                      (suc x.0) x.1)
                (sym e) (λ live2 t2. keep (suc pc) s (taken live2 t2)) live t
          | inr old ↦ take pc2 s2 old live t
        ],
      )
