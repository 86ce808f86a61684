-- ===== src/Regex/Grammar.antt =====
-- std/regex.c: the recursive part of the parser, and the compilation of a pattern.
--
-- Every call and every round of a loop takes one unit of fuel; five for each byte of the pattern and
-- five more are given.
use asterism_astools.Prelude.{ℕ, zero, suc, ◌+◌, ◌-◌, ◌*◌}
use asterism_astools.Prelude.{Bool, true, false, not, ◌||◌, Option, none, some, List, []}
use asterism_astools.Prelude.{leb, ◌==◌, if◌then◌else◌}
use asterism_astools.Prelude.{length}
use asterism_astools.Prelude.{Bytes, peek}
use asterism_astools.Regex.{Regex, Class}
use asterism_astools.Regex.Tree.{Node, null, rn_empty, rn_cat, rn_alt, rn_rep, compile_node}
use asterism_astools.Regex.Parser.{
  null_pattern, pattern_too_large, groups_too_deep, unterminated_group, unmatched_paren,
  out_of_fuel, Parsed, bad, good, and_then, Parse, max_depth, skip, at_depth, node_new, leaf,
}
use asterism_astools.Regex.Atom.{plain_atom, quantifier}

-- Where a branch of alternatives ends.
abbrev pub ends_branch : Bytes → Bool
ends_branch p = peek p == 0 || (peek p == b'|' || peek p == b')')

abbrev pub with_p : Bytes → Parse → Parse
with_p p st = record { p = p; nnodes = st.nnodes; depth = st.depth; cls = st.cls }

-- The loop of `parse_piece`.
unfoldable pub repetitions : ℕ → Node → Parse → Parsed (Node × Parse)
repetitions zero atom st = bad out_of_fuel
repetitions (suc fuel) atom st = and_then (quantifier st.p) λ found. elim found [
  | none ↦ good (atom, st)
  | some (m, n, q) ↦ and_then (node_new (with_p q st)) λ st1. repetitions fuel (rn_rep atom m n) st1
]

unfoldable mutual
  pub parse_atom : ℕ → Bool → Parse → Parsed (Node × Parse)
  parse_atom zero fold st = bad out_of_fuel
  parse_atom (suc fuel) fold st = elim (peek st.p == b'(') [
    | false ↦ plain_atom fold st
    | true ↦ elim (leb max_depth st.depth) [
      | true ↦ bad groups_too_deep
      | false ↦ and_then (parse_alt fuel fold (at_depth (suc st.depth) (skip 1 st))) λ (inner, st1).
          if peek st1.p == b')'
          then good (inner, at_depth (st1.depth - 1) (skip 1 st1))
          else bad unterminated_group
    ]
  ]

  pub parse_piece : ℕ → Bool → Parse → Parsed (Node × Parse)
  parse_piece zero fold st = bad out_of_fuel
  parse_piece (suc fuel) fold st =
      and_then (parse_atom fuel fold st) λ (atom, st1). repetitions fuel atom st1

  -- The loop of `parse_concat`; `null` where it ends.
  pub pieces : ℕ → Bool → Parse → Parsed (Node × Parse)
  pieces zero fold st = bad out_of_fuel
  pieces (suc fuel) fold st = elim (ends_branch st.p) [
    | true ↦ good (null, st)
    | false ↦ and_then (parse_piece fuel fold st) λ (piece, st1).
        and_then (node_new st1)
          λ st2. and_then (pieces fuel fold st2) λ (rest, st3). good (rn_cat piece rest, st3)
  ]

  pub parse_concat : ℕ → Bool → Parse → Parsed (Node × Parse)
  parse_concat zero fold st = bad out_of_fuel
  parse_concat (suc fuel) fold st = elim (ends_branch st.p) [
    | true ↦ leaf rn_empty st
    | false ↦ pieces fuel fold st
  ]

  -- The loop of `parse_alt` behind a branch.
  pub branches : ℕ → Bool → Node → Parse → Parsed (Node × Parse)
  branches zero fold br st = bad out_of_fuel
  branches (suc fuel) fold br st = elim (peek st.p == b'|') [
    | false ↦ good (br, st)
    | true ↦ and_then (node_new st) λ st1.
        and_then (parse_concat fuel fold (skip 1 st1)) λ (br2, st2).
          and_then (branches fuel fold br2 st2) λ (rest, st3). good (rn_alt br rest, st3)
  ]

  pub parse_alt : ℕ → Bool → Parse → Parsed (Node × Parse)
  parse_alt zero fold st = bad out_of_fuel
  parse_alt (suc fuel) fold st =
      and_then (parse_concat fuel fold st) λ (br, st1). branches fuel fold br st1

abbrev pub start_parse : Bytes → Parse
start_parse pattern = record { p = pattern; nnodes = 0; depth = 0; cls = [] }

abbrev pub parse_fuel : Bytes → ℕ
parse_fuel pattern = 5 * length pattern + 5

-- The tree of a whole pattern, with its classes.
unfoldable pub parse_pattern : Bool → Bytes → Parsed (Node × List Class)
parse_pattern fold pattern =
    and_then (parse_alt (parse_fuel pattern) fold (start_parse pattern))
      λ (root, st). if peek st.p == 0 then good (root, st.cls) else bad unmatched_paren

-- `astd_regex_compile`
unfoldable pub regex_compile : Option Bytes → Bool → Parsed Regex
regex_compile none case_sensitive = bad null_pattern
regex_compile (some pattern) case_sensitive =
    and_then (parse_pattern (not case_sensitive) pattern) λ (root, cls).
      elim (compile_node (not case_sensitive) cls root) [
        | none ↦ bad pattern_too_large
        | some re ↦ good re
      ]
