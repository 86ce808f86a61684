-- ===== src/Regex/Harvest.antt =====
-- The match that the search of std/regex.c has found: what it is better than, and where it comes from.
use asterism_astools.Prelude.{ℕ, ◌≤◌, ◌<◌, ◌≡◌, refl, sym, ap, ◌∙◌, ◌⊎◌, inl, inr}
use asterism_astools.Prelude.{true, ◌&&◌, none, some, List, [], ◌∷◌, arith}
use asterism_astools.Prelude.{ltb, ◌==◌, bool_clash}
use asterism_astools.Prelude.{get_elem?}
use asterism_astools.Prelude.{on_if}
use std.Path.{subst}
use asterism_astools.Regex.{Regex, Thread, Best, better, is_match, harvest, pruned}
use asterism_astools.Regex.Runs.{Occurs}

-- It starts before `s`, or it starts there and does not end before `e`.
abbrev pub Wins : Best → ℕ → ℕ → Type 0
Wins none s e = ⊥
Wins (some (bs, be)) s e = (bs < s) ⊎ ((bs ≡ s) × (e ≤ be))

abbrev pub Holds : (ℕ → ℕ → Type 0) → Best → Type 0
Holds Q none = Unit
Holds Q (some (s, e)) = Q s e

pub pruned-Wins : (best : Best) (s e : ℕ) → pruned best s ≡ true → Wins best s e
pruned-Wins none s e h = cc
pruned-Wins (some (bs, be)) s e h = inl (ground arith)

pub Wins-later : (best : Best) (s t e : ℕ) → t ≤ s → Wins best t e → Wins best s e
Wins-later none s t e h w = absurd w
Wins-later (some (bs, be)) s t e h (inl k) = inl (omega arith)
Wins-later (some (bs, be)) s t e h (inr (k, l)) = omega arith

better-Wins : (pos s : ℕ) (best : Best) → Wins (better pos s best) s pos
unfolding better
better-Wins pos s none = inr (refl, omega arith)
better-Wins pos s (some (bs, be)) =
    on_if (λ b. Wins b s pos) (ltb s bs) _ _ (λ h. inr (refl, omega arith))
      λ h.
        on_if (λ b. Wins b s pos) (s == bs && ltb be pos) _ _ (λ k. ground arith) λ k. ground arith

better-kept : (pos s : ℕ) (best : Best) (s2 e : ℕ) → Wins best s2 e → Wins (better pos s best) s2 e
unfolding better
better-kept pos s none s2 e w = absurd w
better-kept pos s (some (bs, be)) s2 e w =
    on_if (λ b. Wins b s2 e) (ltb s bs) _ _ (λ h. ground arith)
      λ h. on_if (λ b. Wins b s2 e) (s == bs && ltb be pos) _ _ (λ k. ground arith) λ k. w

better-pruned :
    (pos s : ℕ) (best : Best) (s2 : ℕ)
    → pruned best s2 ≡ true
    → pruned (better pos s best) s2 ≡ true
unfolding better
better-pruned pos s none s2 h = cc
better-pruned pos s (some (bs, be)) s2 h = ground arith

better-Holds :
    (Q : ℕ → ℕ → Type 0) (pos s : ℕ) (best : Best)
    → Holds Q best
    → Q s pos
    → Holds Q (better pos s best)
unfolding better
better-Holds Q pos s none h q = q
better-Holds Q pos s (some (bs, be)) h q =
    on_if (Holds Q) (ltb s bs) _ _ (λ k. q)
      λ k.
        on_if (Holds Q) (s == bs && ltb be pos) _ _ (λ l. subst (λ x. Q x pos) (ground arith) q)
          λ l. h

module _ (re : Regex) (len : ℕ) where
  -- What a round keeps, whether its thread is in a match or not.
  pub harvest-keep :
      (P : Best → Type 0) (pos : ℕ) (list : List Thread) (best : Best)
      → ((pc s : ℕ) (b : Best)
          → Occurs (pc, s) list
          → is_match (get_elem? re.prog pc) ≡ true
          → P b
          → P (better pos s b))
      → P best
      → P (harvest re len pos list best)
  unfolding harvest
  harvest-keep P pos [] best step h = h
  harvest-keep P pos ((pc, s) ∷ list) best step h =
      harvest-keep P pos list _ (λ pc2 s2 b o m p. step pc2 s2 b (inr o) m p)
        (on_if P (is_match (get_elem? re.prog pc)) (better pos s best) best
          (λ m. step pc s best (inl refl) m h) (λ m. h))

  pub harvest-kept :
      (pos : ℕ) (list : List Thread) (best : Best) (s e : ℕ)
      → Wins best s e
      → Wins (harvest re len pos list best) s e
  harvest-kept pos list best s e w =
      harvest-keep (λ b. Wins b s e) pos list best (λ pc s2 b o m p. better-kept pos s2 b s e p) w

  pub harvest-pruned :
      (pos : ℕ) (list : List Thread) (best : Best) (s : ℕ)
      → pruned best s ≡ true
      → pruned (harvest re len pos list best) s ≡ true
  harvest-pruned pos list best s w =
      harvest-keep (λ b. pruned b s ≡ true) pos list best
        (λ pc s2 b o m p. better-pruned pos s2 b s p) w

  pub harvest-Holds :
      (Q : ℕ → ℕ → Type 0) (pos : ℕ) (list : List Thread) (best : Best)
      → Holds Q best
      → ((pc s : ℕ) → Occurs (pc, s) list → is_match (get_elem? re.prog pc) ≡ true → Q s pos)
      → Holds Q (harvest re len pos list best)
  harvest-Holds Q pos list best h q =
      harvest-keep (Holds Q) pos list best (λ pc s b o m p. better-Holds Q pos s b p (q pc s o m)) h

  pub harvest-Wins :
      (pos : ℕ) (list : List Thread) (best : Best) (pc s : ℕ)
      → Occurs (pc, s) list
      → is_match (get_elem? re.prog pc) ≡ true
      → Wins (harvest re len pos list best) s pos
  unfolding harvest
  harvest-Wins pos [] best pc s o m = absurd o
  harvest-Wins pos ((pc2, s2) ∷ list) best pc s (inl e) m = harvest-kept pos list _ s pos (
      on_if (λ b. Wins b s pos) (is_match (get_elem? re.prog pc2)) _ _
        (λ m2.
          subst (λ t. Wins (better pos t best) s pos) (ap (λ x. x.1) e) (better-Wins pos s best))
        (λ m2. absurd (bool_clash (sym m ∙ (ap (λ x. is_match (get_elem? re.prog x.0)) e ∙ m2)))))
  harvest-Wins pos ((pc2, s2) ∷ list) best pc s (inr o) m = harvest-Wins pos list _ pc s o m
