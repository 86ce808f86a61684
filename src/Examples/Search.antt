-- ===== src/Examples/Search.antt =====
-- Patterns, their programs and searches on concrete inputs.
use asterism_astools.Prelude.{arith}
use asterism_astools.Prelude.{ℕ, ◌≡◌, refl, ◌↔◌}
use asterism_astools.Prelude.{Bool, true, false, none, some, List, [], ◌∷◌}
use asterism_astools.Prelude.{codes}
use asterism_astools.Regex.{
  ri_char, ri_split, ri_jmp, ri_match, Regex, pushes, is_listed, takes, is_match, better, visit,
  add_loop, harvest, advance_all, inject, search_loop, regex_search,
}
use asterism_astools.Regex.Runs.{Accepts}
use asterism_astools.Regex.Harvest.{Wins}
use asterism_astools.Regex.Leftmost.{regex_search_exact}
use asterism_astools.Regex.Tree.{
  Node, rn_char, rn_rep, emit1, patch_y, guarded, star, repeat, emit_node, compile_node,
}
use asterism_astools.Regex.Language.{Matches}
use asterism_astools.Regex.Codes.{Compiled, compile_node-Compiled}
use asterism_astools.Regex.Compiled.{Answers}
use asterism_astools.Regex.Parser.{bad, good, invalid_range, node_new, class_loop, parse_class}
use asterism_astools.Regex.Atom.{plain_atom, quantifier}
use asterism_astools.Regex.Grammar.{repetitions, parse_alt, parse_pattern, regex_compile}
use asterism_astools.Regex.Sound.{Post}
use asterism_astools.Regex.Literal.{quote}
use asterism_astools.Regex.Texts.{StandsAt, regex_search-quote}
use asterism_astools.Regex.Patterns.{
  IsPattern, parse_pattern-IsPattern, IsSafe, regex_compile-IsSafe, regex_compile-Answers,
}

-- `ab*`
abbrev ab_star : Regex
ab_star = record {
  prog = ri_char b'a' ∷ ri_split 2 4 ∷ ri_char b'b' ∷ ri_jmp 1 ∷ ri_match ∷ [];
  cls = [];
  fold = false;
}

compiles : regex_compile (some (codes "ab*")) true ≡ good ab_star
unfolding regex_compile parse_pattern parse_alt repetitions node_new plain_atom quantifier
    compile_node emit_node repeat star guarded emit1 patch_y
compiles = refl

-- The first match, as long as it can be.
finds : regex_search ab_star (codes "cabbab") ≡ some (1, 4)
unfolding regex_search search_loop inject advance_all harvest add_loop visit better is_match takes
    is_listed pushes
finds = refl

-- A class with a range in the wrong order is refused.
refuses : regex_compile (some (codes "[z-a]")) true ≡ bad invalid_range
unfolding regex_compile parse_pattern parse_alt plain_atom parse_class class_loop
refuses = refl

regex_search_exact_example :
    ((s e : ℕ)
      → (regex_search ab_star (codes "cabbab") ≡ some (s, e)) ↔ (
          Accepts ab_star (codes "cabbab") s e
          × ((s2 e2 : ℕ) → Accepts ab_star (codes "cabbab") s2 e2 → Wins (some (s, e)) s2 e2)))
    × ((regex_search ab_star (codes "cabbab") ≡ none)
        ↔ ((s e : ℕ) → ¬ Accepts ab_star (codes "cabbab") s e))
regex_search_exact_example = regex_search_exact ab_star (codes "cabbab")

regex_compile-Answers_example :
    (root : Node) × (cls : List (ℕ → Bool)) × (parse_pattern false (codes "ab*") ≡ good (root, cls))
    × Answers (Matches false cls (codes "cabbab") root) 6 (regex_search ab_star (codes "cabbab"))
regex_compile-Answers_example =
    regex_compile-Answers (codes "ab*") true ab_star (codes "cabbab") compiles

regex_compile-IsSafe_example : Post IsSafe (regex_compile (some (codes "[a-c]{2,3}|x")) false)
regex_compile-IsSafe_example = regex_compile-IsSafe (some (codes "[a-c]{2,3}|x")) false

parse_pattern-IsPattern_example : Post IsPattern (parse_pattern true (codes "([^a-c]+|x)?"))
parse_pattern-IsPattern_example = parse_pattern-IsPattern true (codes "([^a-c]+|x)?")

compile_node-Compiled_example :
    Compiled false []
      (rn_rep (rn_char b'a') 2 (some 5))
      (compile_node false [] (rn_rep (rn_char b'a') 2 (some 5)))
compile_node-Compiled_example = compile_node-Compiled false [] (rn_rep (rn_char b'a') 2 (some 5))

-- The dot counts as itself.
regex_search-quote_example :
    (re : Regex) × (regex_compile (some (quote (codes "a.b"))) true ≡ good re)
    × Answers (StandsAt (codes "a.b") (codes "axb a.b")) 7 (regex_search re (codes "axb a.b"))
regex_search-quote_example =
    regex_search-quote b'a' (codes ".b") (codes "axb a.b")
      (λ e. omega arith, (λ e. omega arith, (λ e. omega arith, tt))) (omega arith)
