-- ===== src/Regex/Compiled.antt =====
-- The search of std/regex.c with the program of a tree, against what the tree matches.
use asterism_astools.Prelude.{ℕ, zero, suc, ◌≤◌, ◌<◌, ◌≡◌, refl, sym, ap, ◌∙◌, ◌↔◌, ◌⊎◌, inl, inr}
use asterism_astools.Prelude.{Bool, true, Option, none, some, List, [], ◌∷◌, arith}
use asterism_astools.Prelude.{some_inj, bool_clash}
use asterism_astools.Prelude.{length, get_elem?}
use asterism_astools.Prelude.{Bytes}
use std.Path.{subst}
use asterism_astools.Regex.{Inst, ri_match, Regex, Class, is_match, pushes, takes, regex_search}
use asterism_astools.Regex.Runs.{Run, begin, Run-bounds, Accepts}
use asterism_astools.Regex.Leftmost.{regex_search_exact}
use asterism_astools.Regex.Tree.{Node, compile_node}
use asterism_astools.Regex.Language.{Relation, Matches}
use asterism_astools.Regex.Codes.{Program, Compiled, compile_node-Compiled}
use asterism_astools.Regex.Means.{Moves, PathOf, Run-PathOf}
use asterism_astools.Regex.Meaning.{Code-Means}
use asterism_astools.Regex.Inside.{lt_or_le}
use asterism_astools.Regex.Jumps.{no_match}

-- A match inside the line from `s` to `e` that no other one beats.
unfoldable pub LeftmostLongest : Relation → ℕ → ℕ → ℕ → Type 0
LeftmostLongest M len s e =
    (s ≤ len) × M s e × ((s2 e2 : ℕ) → s2 ≤ len → M s2 e2 → (s < s2) ⊎ ((s ≡ s2) × (e2 ≤ e)))

-- The answer is that match, or that there is none at all.
unfoldable pub Answers : Relation → ℕ → Option (ℕ × ℕ) → Type 0
Answers M len o =
    ((s e : ℕ) → (o ≡ some (s, e)) ↔ LeftmostLongest M len s e)
    × ((o ≡ none) ↔ ((s e : ℕ) → s ≤ len → ¬ M s e))

no_step :
    (re : Regex) (line : Bytes) (i p pc1 p1 : ℕ) → Moves re line (some ri_match) i p pc1 p1 → ⊥
unfolding pushes takes
no_step re line i p pc1 p1 (inl (n, e)) = n
no_step re line i p pc1 p1 (inr (c, g, t, e, f)) = cc

at_match :
    (re : Regex) (line : Bytes) (n k p q : ℕ)
    → get_elem? re.prog k ≡ some ri_match
    → PathOf re line n k p k q
    → p ≡ q
unfolding PathOf
at_match re line zero k p q e (same, f) = f
at_match re line (suc n) k p q e (pc1, p1, m, rest) =
    absurd (no_step re line k p pc1 p1 (subst (λ o. Moves re line o k p pc1 p1) e m))

match_matches : is_match (some ri_match) ≡ true
unfolding is_match
match_matches = refl

match_inside : (p : List Inst) (i : ℕ) → is_match (get_elem? p i) ≡ true → i < length p
unfolding is_match
match_inside [] i e = cc
match_inside (x ∷ p) zero e = omega arith
match_inside (x ∷ p) (suc i) e = omega (arith, match_inside p i e)

start_inside : (re : Regex) (line : Bytes) (s pc e : ℕ) → Run re line s pc e → s ≤ length line
start_inside re line s pc e r = let (h, k) = Run-bounds re line r in omega arith

module _ (re : Regex) (line : Bytes) (nd : Node)
    (program : Program nd re.prog 0 (length re.prog)) where
  match_is_last : (pc : ℕ) → is_match (get_elem? re.prog pc) ≡ true → pc ≡ program.0
  match_is_last pc m =
      let (k, code, (last, len)) = program in
      elim (lt_or_le pc k) [
        | inl inside ↦
            absurd (bool_clash (sym m ∙ no_match nd re.prog 0 k code pc (omega arith) inside))
        | inr outside ↦ omega (arith, match_inside re.prog pc m)
      ]

  Accepts→Matches :
      (s e : ℕ) → Accepts re line s e → (s ≤ length line) × Matches re.fold re.cls line nd s e
  Accepts→Matches s e (pc, r, m) =
      let (k, code, (last, len)) = program in
      let (n, path) = Run-PathOf re line s pc e r in
      let path2 = subst (λ y. PathOf re line n 0 s y e) (match_is_last pc m) path in
      let (p2, n2, u, rest, down) =
        (Code-Means re line nd).back n 0 k s k e code (omega arith) path2 in
      (
        start_inside re line s pc e r,
        subst (Matches re.fold re.cls line nd s) (at_match re line n2 k p2 e last rest) u,
      )

  Matches→Accepts :
      (s e : ℕ) → s ≤ length line → Matches re.fold re.cls line nd s e → Accepts re line s e
  Matches→Accepts s e h u =
      let (k, code, (last, len)) = program in
      (
        k,
        (Code-Means re line nd).forth s 0 k s e code u (begin h),
        ap is_match last ∙ match_matches,
      )

  program-Answers : Answers (Matches re.fold re.cls line nd) (length line) (regex_search re line)
  unfolding Answers LeftmostLongest
  program-Answers =
      let (found, missing) = regex_search_exact re line in
      (
        λ s e. (
          λ eq.
              let (a, best) = (found s e).0 eq in
              let (h, u) = Accepts→Matches s e a in
              (h, u, λ s2 e2 h2 u2. best s2 e2 (Matches→Accepts s2 e2 h2 u2)),
          λ (h, u, best). (found s e).1 (
            Matches→Accepts s e h u,
            λ s2 e2 a. let (h2, u2) = Accepts→Matches s2 e2 a in best s2 e2 h2 u2,
          ),
        ),
        (
          λ eq s e h u. missing.0 eq s e (Matches→Accepts s e h u),
          λ never. missing.1 λ s e a. let (h, u) = Accepts→Matches s e a in never s e h u,
        ),
      )

of_Compiled :
    (fold : Bool) (cls : List Class) (nd : Node) (line : Bytes) (o : Option Regex) (re : Regex)
    → o ≡ some re
    → Compiled fold cls nd o
    → Answers (Matches fold cls line nd) (length line) (regex_search re line)
unfolding Compiled
of_Compiled fold cls nd line none re e h = cc
of_Compiled fold cls nd line (some re2) re e (program, size, fits, classes, case) =
    subst (λ r. Answers (Matches fold cls line nd) (length line) (regex_search r line)) (some_inj e)
      (subst (λ f. Answers (Matches f cls line nd) (length line) (regex_search re2 line)) case
        (subst (λ c. Answers (Matches re2.fold c line nd) (length line) (regex_search re2 line))
          classes (program-Answers re2 line nd program)))

-- With a tree that is compiled, the search answers with the match of the tree that starts first, and of
-- those with the one that ends last; it finds none exactly if the tree matches nothing in the line.
pub compile_node-Answers :
    (fold : Bool) (cls : List Class) (nd : Node) (re : Regex) (line : Bytes)
    → compile_node fold cls nd ≡ some re
    → Answers (Matches fold cls line nd) (length line) (regex_search re line)
compile_node-Answers fold cls nd re line e =
    of_Compiled fold cls nd line (compile_node fold cls nd) re e (compile_node-Compiled fold cls nd)
