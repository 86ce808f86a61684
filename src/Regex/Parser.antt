-- ===== src/Regex/Parser.antt =====
-- std/regex.c: the parser of patterns, and the compilation of a pattern.
--
-- The pattern is the text up to its NUL. An error is a constructor for each message; `out_of_fuel` is
-- none of the source, and stands for a loop or a call that would have no round left.
use asterism_astools.Prelude.{ℕ, zero, suc, ◌+◌, ◌-◌}
use asterism_astools.Prelude.{Bool, true, false, not, ◌&&◌, List, [], ◌∷◌, ◌++◌, map}
use asterism_astools.Prelude.{ltb, leb, ◌==◌, if◌then◌else◌}
use asterism_astools.Prelude.{length, drop}
use asterism_astools.Prelude.{Bytes, peek, advance, within}
use asterism_astools.Regex.{Class}
use asterism_astools.Regex.Tree.{Node, rn_class}

pub data PatternError : Type 0 where
  null_pattern : PatternError
  pattern_too_large : PatternError
  unterminated_class : PatternError
  posix_class : PatternError
  invalid_range : PatternError
  groups_too_deep : PatternError
  unterminated_group : PatternError
  unmatched_paren : PatternError
  nothing_to_repeat : PatternError
  malformed_repetition : PatternError
  count_too_large : PatternError
  invalid_repetition : PatternError
  trailing_backslash : PatternError
  escape_d : PatternError
  escape_w : PatternError
  escape_s : PatternError
  backreference : PatternError
  unsupported_escape : PatternError
  out_of_fuel : PatternError

pub data Parsed (A : Type 0) : Type 0 where
  bad : (e : PatternError) → Parsed A
  good : (a : A) → Parsed A

abbrev pub and_then : {A B : Type 0} → Parsed A → (A → Parsed B) → Parsed B
and_then (bad e) f = bad e
and_then (good a) f = f a

-- The state of a parse; `p` is what is left of the pattern.
pub record Parse : Type 0 where
  pub p : Bytes
  pub nnodes : ℕ
  pub depth : ℕ
  pub cls : List Class

abbrev pub max_nodes : ℕ
max_nodes = 8192

abbrev pub max_depth : ℕ
max_depth = 100

abbrev pub max_count : ℕ
max_count = 4096

abbrev pub max_classes : ℕ
max_classes = 65535

abbrev pub skip : ℕ → Parse → Parse
skip n st = record { p = drop n st.p; nnodes = st.nnodes; depth = st.depth; cls = st.cls }

abbrev pub at_depth : ℕ → Parse → Parse
at_depth d st = record { p = st.p; nnodes = st.nnodes; depth = d; cls = st.cls }

-- The state after the node is counted.
unfoldable pub node_new : Parse → Parsed Parse
node_new st =
    if leb max_nodes st.nnodes
    then bad pattern_too_large
    else good record { p = st.p; nnodes = suc st.nnodes; depth = st.depth; cls = st.cls }

abbrev pub leaf : Node → Parse → Parsed (Node × Parse)
leaf nd st = and_then (node_new st) λ st1. good (nd, st1)

abbrev pub set_bit : ℕ → Class → Class
set_bit i map v = if v == i then true else map v

-- The byte and, where case is folded, its other case.
abbrev pub set_byte : Bool → ℕ → Class → Class
set_byte fold v map =
    if fold && within b'A' b'Z' v
    then set_bit (v + 32) (set_bit v map)
    else if fold && within b'a' b'z' v
    then set_bit (v - 32) (set_bit v map)
    else set_bit v map

-- So many bytes from `v` on.
unfoldable pub set_loop : ℕ → Bool → ℕ → Class → Class
set_loop zero fold v map = map
set_loop (suc n) fold v map = set_loop n fold (suc v) (set_byte fold v map)

abbrev pub cls_set_range : ℕ → ℕ → Bool → Class → Class
cls_set_range lo hi fold map = set_loop (suc hi - lo) fold lo map

-- The index of the class with the state.
unfoldable pub cls_add : Class → Parse → Parsed (ℕ × Parse)
cls_add map st =
    if leb max_classes (length st.cls)
    then bad pattern_too_large
    else good (
      length st.cls,
      record { p = st.p; nnodes = st.nnodes; depth = st.depth; cls = st.cls ++ map ∷ [] },
    )

-- The loop of `parse_class` over the text behind the bracket.
unfoldable pub class_loop : ℕ → Bool → Bool → Class → Bytes → Parsed (Class × Bytes)
class_loop zero fold first map p = bad out_of_fuel
class_loop (suc fuel) fold first map p =
    let c = peek p in
    let next = advance p in
    let hi = peek (advance next) in
    elim (c == 0) [
      | true ↦ bad unterminated_class
      | false ↦ elim (c == b']' && not first) [
        | true ↦ good (map, next)
        | false ↦ elim (c == b'[' && peek next == b':') [
          | true ↦ bad posix_class
          | false ↦ elim (peek next == b'-' && (not (hi == b']') && not (hi == 0))) [
            | true ↦ elim (ltb hi c) [
              | true ↦ bad invalid_range
              | false ↦ class_loop fuel fold false (cls_set_range c hi fold map) (drop 2 next)
            ]
            | false ↦ class_loop fuel fold false (cls_set_range c c fold map) next
          ]
        ]
      ]
    ]

-- The class as it stands in the pattern, behind the bracket and a `^`.
abbrev pub class_text : Bool → Bytes → Parsed (Class × Bytes)
class_text fold p = class_loop (suc (length p)) fold true (λ v. false) p

abbrev pub inverted : Parsed (Class × Bytes) → Parsed (Class × Bytes)
inverted (good (map, p)) = good ((λ v. not (map v)), p)
inverted (bad e) = bad e

unfoldable pub parse_class : Bool → Parse → Parsed (Node × Parse)
parse_class fold st =
    let p = advance st.p in
    and_then (if peek p == b'^' then inverted (class_text fold (advance p)) else class_text fold p)
      λ (map, q).
        and_then (cls_add map record { p = q; nnodes = st.nnodes; depth = st.depth; cls = st.cls })
          λ (idx, st1). leaf (rn_class idx) st1
