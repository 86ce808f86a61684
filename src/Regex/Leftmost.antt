-- ===== src/Regex/Leftmost.antt =====
-- What the search of std/regex.c answers, against the threads that there are.
use asterism_astools.Prelude.{ℕ, zero, suc, ◌≤◌, ◌<◌, ◌≡◌, refl, ap, ◌↔◌, inl, inr}
use asterism_astools.Prelude.{true, none, some, List, [], ◌∷◌, arith}
use asterism_astools.Prelude.{some_inj}
use asterism_astools.Prelude.{length, get_elem?, drop, length-drop}
use asterism_astools.Prelude.{Bytes}
use asterism_astools.Prelude.{on_bool}
use std.Path.{subst}
use asterism_astools.Regex.{
  Regex, Thread, Best, none_added, is_over, re_add, harvest, advance_all, inject, search_loop,
  regex_search,
}
use asterism_astools.Regex.Runs.{Run, begin, eps, Run-bounds, Accepts}
use asterism_astools.Regex.Invariant.{Inv-none_added}
use asterism_astools.Regex.Settling.{re_add-Inv}
use asterism_astools.Regex.Harvest.{Wins}
use asterism_astools.Regex.Complete.{all_marks, Complete-marks}
use asterism_astools.Regex.Rounds.{Known, State, harvest-Known}
use asterism_astools.Regex.Steps.{next_list, next-State}

-- The rest of a line from a position on.
drop-cons :
    (line : Bytes) (pos c : ℕ) (rest : Bytes)
    → drop pos line ≡ c ∷ rest
    → (get_elem? line pos ≡ some c) × (drop (suc pos) line ≡ rest) × (suc pos ≤ length line)
drop-cons [] zero c rest e = cc
drop-cons [] (suc pos) c rest e = cc
drop-cons (x ∷ line) zero c rest e = (cc, cc, omega arith)
drop-cons (x ∷ line) (suc pos) c rest e =
    let (a, b, k) = drop-cons line pos c rest e in (a, b, omega arith)

drop-nil : (line : Bytes) (pos : ℕ) → drop pos line ≡ [] → length line ≤ pos
drop-nil line pos e = omega (arith, length-drop pos line, ap length e)

at_end : (pos len : ℕ) → pos ≤ len → len ≤ pos → pos ≡ len
at_end pos len h k = omega arith

-- Without threads the match that was found stays.
is_over-search_loop :
    (re : Regex) (len pos : ℕ) (list : List Thread) (best : Best) (rest : List ℕ)
    → is_over list best ≡ true
    → search_loop re len pos list best rest ≡ best
unfolding search_loop harvest advance_all inject
is_over-search_loop re len pos [] none rest e = cc
is_over-search_loop re len pos (t ∷ list) best rest e = cc
is_over-search_loop re len pos [] (some b) [] e = refl
is_over-search_loop re len pos [] (some b) (c ∷ rest) e = refl

-- Two matches that win against each other are the same.
same_match :
    (bs be s e : ℕ) → Wins (some (bs, be)) s e → Wins (some (s, e)) bs be → (bs ≡ s) × (be ≡ e)
same_match bs be s e (inl h) (inl k) = absurd (omega arith)
same_match bs be s e (inl h) (inr (k, l)) = absurd (omega arith)
same_match bs be s e (inr (h, j)) (inl k) = absurd (omega arith)
same_match bs be s e (inr (h, j)) (inr (k, l)) = (h, omega arith)

module _ (re : Regex) (line : Bytes) where
  abbrev Final : Best → Type 0
  Final best = Known re line (length line) (suc (length line)) best

  search_loop-Known :
      (pos : ℕ) (list : List Thread) (best : Best) (rest : List ℕ)
      → drop pos line ≡ rest
      → pos ≤ length line
      → State re line pos list best
      → Final (search_loop re (length line) pos list best rest)
  unfolding search_loop
  search_loop-Known pos list best [] e k i =
      subst (λ q. Known re line q (suc q) (harvest re (length line) pos list best))
        (at_end pos (length line) k (drop-nil line pos e)) (harvest-Known re line pos list best i)
  search_loop-Known pos list best (c ∷ rest) e k i =
      let (here, after, inside) = drop-cons line pos c rest e in
      let found = harvest re (length line) pos list best in
      let next = next_list re line pos c found list in
      let known =
        search_loop-Known (suc pos) next found rest after inside
          (next-State re line pos c list best here inside i) in
      on_bool Final (is_over next found) _ _
        (λ over.
          subst Final (is_over-search_loop re (length line) (suc pos) next found rest over) known)
        (λ go. known)

  first-State : State re line 0 (re_add re (length line) 0 0 0 none_added).list none
  first-State =
      let (inv, kept, marked) =
        re_add-Inv re line 0 (λ pc t. Run re line t pc 0) (λ pc2 pc3 t q o. eps q o) 0 0 0
          none_added (Inv-none_added re line 0 _) (omega arith) (begin (omega arith)) in
      record {
        sound = λ pc s o. inv.right pc s (inv.entries pc s o);
        complete = Complete-marks re line 0 0 none _ inv λ pc s r live.
            all_marks re line 0 0 none _ inv (λ l p. marked)
              (λ s2 pc2 pos0 c2 e r2 g t live2. absurd (omega arith)) s pc 0 refl r live;
        rising = inv.rising;
        known = record { found = tt; beaten = λ s e k a. absurd (omega arith) };
      }

  pub regex_search-Known : Final (regex_search re line)
  unfolding regex_search
  regex_search-Known = search_loop-Known 0 _ none line refl (omega arith) first-State

  in_line : (s e : ℕ) → Accepts re line s e → e < suc (length line)
  in_line s e (pc, r, m) = omega (arith, (Run-bounds re line r).1)

  Known-some :
      (best : Best) (s e : ℕ)
      → Final best
      → (best ≡ some (s, e))
        ↔ (Accepts re line s e × ((s2 e2 : ℕ) → Accepts re line s2 e2 → Wins (some (s, e)) s2 e2))
  Known-some none s e i = (λ eq. cc, λ (a, wins). absurd (i.beaten s e (in_line s e a) a))
  Known-some (some (bs, be)) s e i = (
    λ eq.
        subst
          (λ x.
            Accepts re line x.0 x.1 × ((s2 e2 : ℕ) → Accepts re line s2 e2 → Wins (some x) s2 e2))
          (some_inj eq) (i.found.0, λ s2 e2 a. i.beaten s2 e2 (in_line s2 e2 a) a),
    λ (a, wins).
        let (starts, ends) =
          same_match bs be s e (i.beaten s e (in_line s e a) a) (wins bs be i.found.0) in
        cc,
  )

  Known-none : (best : Best) → Final best → (best ≡ none) ↔ ((s e : ℕ) → ¬ Accepts re line s e)
  Known-none none i = (λ eq s e a. i.beaten s e (in_line s e a) a, λ h. refl)
  Known-none (some (bs, be)) i = (λ eq. cc, λ h. absurd (h bs be i.found.0))

  -- The search answers with a match exactly if a thread matches there and no other one starts earlier, or
  -- starts there and ends later; and it finds none exactly if no thread matches.
  pub regex_search_exact :
      ((s e : ℕ)
        → (regex_search re line ≡ some (s, e)) ↔ (
            Accepts re line s e × ((s2 e2 : ℕ) → Accepts re line s2 e2 → Wins (some (s, e)) s2 e2)))
      × ((regex_search re line ≡ none) ↔ ((s e : ℕ) → ¬ Accepts re line s e))
  regex_search_exact = (λ s e. Known-some _ s e regex_search-Known, Known-none _ regex_search-Known)
