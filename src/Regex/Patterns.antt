-- ===== src/Regex/Patterns.antt =====
-- `astd_regex_compile` of std/regex.c as a whole.
use asterism_astools.Prelude.{ℕ, suc, ◌≤◌, ◌<◌, ◌≡◌, refl, ap}
use asterism_astools.Prelude.{Bool, not, Option, none, some, List, arith}
use asterism_astools.Prelude.{◌==◌}
use asterism_astools.Prelude.{length, get_elem?}
use asterism_astools.Prelude.{Bytes, peek}
use asterism_astools.Prelude.{on_if}
use asterism_astools.Regex.{Regex, Class, ri_match, regex_search}
use asterism_astools.Regex.Tree.{
  Node, null, rn_empty, rn_char, rn_class, rn_any, rn_bol, rn_eol, rn_cat, rn_alt, rn_rep,
  max_insts,
}
use asterism_astools.Regex.Language.{Matches}
use asterism_astools.Regex.Codes.{Compiled, compile_node-Compiled}
use asterism_astools.Regex.Compiled.{Answers, compile_node-Answers}
use asterism_astools.Regex.Parser.{
  Parsed, bad, good, and_then, max_nodes, max_classes, pattern_too_large,
}
use asterism_astools.Regex.Grammar.{start_parse, parse_fuel, parse_pattern, regex_compile}
use asterism_astools.Regex.Sound.{
  InRange, InRange-le, node_count, Post, Post-good, Post-bad, and_then-Post, IsTree,
}
use asterism_astools.Regex.Trees.{parse_alt-Post}
use asterism_astools.Regex.Inside.{InstInside}
use asterism_astools.Regex.Jumps.{Classes, Code-Inside}

-- A tree with its classes that the parser may give.
abbrev pub IsPattern : Node × List Class → Type 0
IsPattern (root, cls) =
    InRange (length cls) root × (node_count root ≤ max_nodes) × (length cls ≤ max_classes)

-- The parser comes to an end on every pattern, with an error of the source or with a tree of at most 8192
-- nodes whose classes are among the at most 65535 that it gives, and whose counts are in order and at most 4096.
pub parse_pattern-IsPattern :
    (fold : Bool) (pattern : Bytes) → Post IsPattern (parse_pattern fold pattern)
unfolding parse_pattern IsTree
parse_pattern-IsPattern fold pattern =
    and_then-Post (IsTree 0 (start_parse pattern)) IsPattern _ _
      (parse_alt-Post (parse_fuel pattern) fold (start_parse pattern) (omega arith))
      λ (root, st) (moved, inside).
        on_if (Post IsPattern) (peek st.p == 0) _ _
          (λ e.
            let (few, small) = moved.limit (omega arith, omega arith) in
            Post-good IsPattern (root, st.cls) (inside, omega (arith, moved.nodes), small))
          (λ e. Post-bad IsPattern _ tt)

-- The program ends with its only match, and every instruction before it goes to instructions of the program and
-- reads classes that there are.
unfoldable pub IsSafe : Regex → Type 0
IsSafe re =
    (length re.prog ≤ max_insts)
    × (length re.cls ≤ max_classes)
    × ((k : ℕ) × (length re.prog ≡ suc k)
        × (get_elem? re.prog k ≡ some ri_match)
        × ((x : ℕ) → x < k → InstInside (λ c. c < length re.cls) 0 k (get_elem? re.prog x)))

InRange-Classes : (k : ℕ) (nd : Node) → InRange k nd → Classes (λ c. c < k) nd
unfolding InRange Classes
InRange-Classes k null r = tt
InRange-Classes k rn_empty r = tt
InRange-Classes k (rn_char ch) r = tt
InRange-Classes k (rn_class c) r = r
InRange-Classes k rn_any r = tt
InRange-Classes k rn_bol r = tt
InRange-Classes k rn_eol r = tt
InRange-Classes k (rn_cat a b) (r, s) = (InRange-Classes k a r, InRange-Classes k b s)
InRange-Classes k (rn_alt a b) (r, s) = (InRange-Classes k a r, InRange-Classes k b s)
InRange-Classes k (rn_rep a m none) (small, r) = InRange-Classes k a r
InRange-Classes k (rn_rep a m (some n)) (le, small, r) = InRange-Classes k a r

Compiled-IsSafe :
    (fold : Bool) (cls : List Class) (root : Node) (o : Option Regex)
    → IsPattern (root, cls)
    → Compiled fold cls root o
    → Post IsSafe (elim o [ none ↦ bad pattern_too_large | some re ↦ good re ])
unfolding Compiled IsSafe
Compiled-IsSafe fold cls root none i c = Post-bad IsSafe _ tt
Compiled-IsSafe fold cls root (some re) (inside, few, small)
      ((k, code, (last, len)), size, fits, classes, case) =
    Post-good IsSafe re (
      fits,
      omega (arith, ap length classes),
      (
        k,
        omega (arith, len),
        last,
        λ x before.
            Code-Inside (λ c. c < length re.cls) root
              (InRange-Classes _ root
                (InRange-le _ _ root (omega (arith, ap length classes)) inside))
              re.prog 0 k code x (omega arith) before,
      ),
    )

-- Whatever the pattern, the compilation comes to an end, with an error of the source or with a program of at
-- most 4096 instructions that ends with its only match, all of whose jumps and splits stay in the program and whose classes
-- are all there.
pub regex_compile-IsSafe :
    (pattern : Option Bytes) (case_sensitive : Bool)
    → Post IsSafe (regex_compile pattern case_sensitive)
unfolding regex_compile
regex_compile-IsSafe none case_sensitive = Post-bad IsSafe _ tt
regex_compile-IsSafe (some pattern) case_sensitive =
    and_then-Post IsPattern IsSafe _ _ (parse_pattern-IsPattern (not case_sensitive) pattern)
      λ (root, cls) i.
        Compiled-IsSafe (not case_sensitive) cls root _ i
          (compile_node-Compiled (not case_sensitive) cls root)

and_then-good :
    {A B : Type 0} (r : Parsed A) (f : A → Parsed B) (b : B)
    → and_then r f ≡ good b
    → (a : A) × (r ≡ good a) × (f a ≡ good b)
and_then-good (bad e) f b h = cc
and_then-good (good a) f b h = (a, refl, h)

option-good :
    (o : Option Regex) (re : Regex)
    → elim o [ none ↦ bad pattern_too_large | some re2 ↦ good re2 ] ≡ good re
    → o ≡ some re
option-good none re h = cc
option-good (some re2) re h = cc

-- A compiled pattern is found as its tree says: the answer of the search is the match of the tree that starts
-- first, and of those the one that ends last, or that there is none.
pub regex_compile-Answers :
    (pattern : Bytes) (case_sensitive : Bool) (re : Regex) (line : Bytes)
    → regex_compile (some pattern) case_sensitive ≡ good re
    → (root : Node) × (cls : List Class) × (parse_pattern (not case_sensitive) pattern
        ≡ good (root, cls))
      × Answers (Matches (not case_sensitive) cls line root) (length line) (regex_search re line)
unfolding regex_compile
regex_compile-Answers pattern case_sensitive re line e =
    let ((root, cls), parsed, compiled) =
      and_then-good (parse_pattern (not case_sensitive) pattern) _ re e in
    (
      root,
      cls,
      parsed,
      compile_node-Answers (not case_sensitive) cls root re line (option-good _ re compiled),
    )
