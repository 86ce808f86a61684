-- ===== src/Regex/Steps.antt =====
-- The list of the search of std/regex.c from one position to the next.
use asterism_astools.Prelude.{ℕ, suc, ◌≤◌, ◌≡◌, refl, sym, ap, ◌∙◌, inl, inr}
use asterism_astools.Prelude.{true, false, some, List, arith}
use asterism_astools.Prelude.{Bool-cases, some_inj, bool_clash}
use asterism_astools.Prelude.{length, get_elem?}
use asterism_astools.Prelude.{Bytes}
use std.Path.{subst}
use asterism_astools.Regex.{
  Regex, Thread, Best, Added, none_added, pruned, takes, harvest, advance_all, inject,
}
use asterism_astools.Regex.Runs.{Run}
use asterism_astools.Regex.Marks.{Marked}
use asterism_astools.Regex.Invariant.{Inv-none_added}
use asterism_astools.Regex.Harvest.{harvest-pruned}
use asterism_astools.Regex.Advance.{Moved, advance_all-Moved}
use asterism_astools.Regex.Complete.{Complete, all_marks, Complete-marks}
use asterism_astools.Regex.Rounds.{
  takes-listed, Holds-map, pruned-earlier, State, harvest-Known, Injected, inject-Injected,
}

suc_inj : (a b : ℕ) → suc a ≡ suc b → a ≡ b
suc_inj a b e = omega arith

module _ (re : Regex) (line : Bytes) where
  -- The list of the next position.
  abbrev pub next_list : ℕ → ℕ → Best → List Thread → List Thread
  next_list pos c found list =
      (inject re (length line) pos found
        (advance_all re (length line) pos c found list none_added)).list

  not_pruned :
      (pos : ℕ) (list : List Thread) (best : Best) (s : ℕ)
      → pruned (harvest re (length line) pos list best) s ≡ false
      → pruned best s ≡ false
  not_pruned pos list best s h = elim (Bool-cases (pruned best s)) [
    | inl e ↦ absurd (bool_clash (sym (harvest-pruned re (length line) pos list best s e) ∙ h))
    | inr e ↦ e
  ]

  next-Complete :
      (pos c : ℕ) (found : Best) (list : List Thread) (here : get_elem? line pos ≡ some c)
      → Complete re line pos found list
      → (a b : Added) → Moved re line pos c found here list none_added a
      → Injected re line pos found a b
      → Complete re line (suc pos) found b.list
  unfolding Moved Injected Marked
  next-Complete pos c found list here all a b (next, kept, taken) (inv, keep, start) =
      Complete-marks re line (suc pos) (suc pos) found b inv λ pc s r live.
        all_marks re line (suc pos) (suc pos) found b inv start
          (λ s2 pc2 pos0 c2 e r2 g t live2.
            let same = suc_inj pos0 pos e in
            let (t2, o, k) =
              all pc2 s2 (subst (Run re line s2 pc2) same r2) live2
                (takes-listed re (length line) _ c2 t) in
            let (t3, e3, k3) = keep (suc pc2) t2 (
              taken pc2 t2 o (pruned-earlier found s2 t2 k live2) (
                subst (λ x. takes re (length line) (get_elem? re.prog pc2) x ≡ true)
                  (some_inj (sym g ∙ (ap (get_elem? line) same ∙ here))) t)) in
            (t3, e3, omega arith))
          s pc (suc pos) refl r live

  pub next-State :
      (pos c : ℕ) (list : List Thread) (best : Best)
      → get_elem? line pos ≡ some c
      → suc pos ≤ length line
      → State re line pos list best
      → State re line
          (suc pos)
          (next_list pos c (harvest re (length line) pos list best) list)
          (harvest re (length line) pos list best)
  unfolding Moved Injected
  next-State pos c list best here inside i =
      let found = harvest re (length line) pos list best in
      let known = harvest-Known re line pos list best i in
      let moved =
        advance_all-Moved re line pos c found here 0 list none_added i.rising (omega arith) i.sound
          (Inv-none_added re line (suc pos) _) in
      let injected = inject-Injected re line pos found _ inside known.found moved.0 in
      let inv = injected.0 in
      record {
        sound = λ pc s o. inv.right pc s (inv.entries pc s o);
        complete =
            next-Complete pos c found list here
              (λ pc s r live l. i.complete pc s r (not_pruned pos list best s live) l) _ _ moved
              injected;
        rising = inv.rising;
        known = record {
          found = Holds-map _ _ found (λ s e (a, k). (a, omega arith)) known.found;
          beaten = known.beaten;
        };
      }
