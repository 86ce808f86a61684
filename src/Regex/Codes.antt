-- ===== src/Regex/Codes.antt =====
-- The code of a whole tree of std/regex.c, with its size.
use asterism_astools.Prelude.{ℕ, suc, ◌+◌, ◌≤◌, ◌<◌, ◌≡◌, refl}
use asterism_astools.Prelude.{Bool, Option, none, some, List, [], arith}
use asterism_astools.Prelude.{length}
use asterism_astools.Prelude.{bind_option}
use asterism_astools.Regex.{Inst, ri_char, ri_class, ri_any, ri_bol, ri_eol, ri_match, Regex, Class}
use asterism_astools.Regex.Tree.{
  Node, null, rn_empty, rn_char, rn_class, rn_any, rn_bol, rn_eol, rn_cat, rn_alt, rn_rep,
  max_insts, emit1, emit_node, compile_node,
}
use asterism_astools.Regex.Emitted.{
  Shape, Local, Outcome, Emits, One, One-Local, emit1-Emits, Nil, Nil-Local, some-Emits, Then,
  Then-Local, then-Emits,
}
use asterism_astools.Regex.Coded.{
  Either, Either-Local, either-Emits, Repeat, Repeat-Local, repeat_size, repeat-Emits,
}

unfoldable pub Code : Node → Shape
Code null = Nil
Code rn_empty = Nil
Code (rn_char ch) = One (ri_char ch)
Code (rn_class cls) = One (ri_class cls)
Code rn_any = One ri_any
Code rn_bol = One ri_bol
Code rn_eol = One ri_eol
Code (rn_cat a b) = Then (Code a) (Code b)
Code (rn_alt a b) = Either (Code a) (Code b)
Code (rn_rep a m n) = Repeat (Code a) m n

-- How many instructions a tree takes.
unfoldable pub code_size : Node → ℕ
code_size null = 0
code_size rn_empty = 0
code_size (rn_char ch) = 1
code_size (rn_class cls) = 1
code_size rn_any = 1
code_size rn_bol = 1
code_size rn_eol = 1
code_size (rn_cat a b) = code_size a + code_size b
code_size (rn_alt a b) = suc (code_size a + 1) + code_size b
code_size (rn_rep a m n) = repeat_size (code_size a) m n

pub Code-Local : (nd : Node) → Local (Code nd)
unfolding Code
Code-Local null = Nil-Local
Code-Local rn_empty = Nil-Local
Code-Local (rn_char ch) = One-Local _
Code-Local (rn_class cls) = One-Local _
Code-Local rn_any = One-Local _
Code-Local rn_bol = One-Local _
Code-Local rn_eol = One-Local _
Code-Local (rn_cat a b) = Then-Local (Code-Local a) (Code-Local b)
Code-Local (rn_alt a b) = Either-Local (Code-Local a) (Code-Local b)
Code-Local (rn_rep a m n) = Repeat-Local (Code a) m n (Code-Local a)

pub emit_node-Emits : (nd : Node) → Emits (Code nd) (code_size nd) (emit_node nd)
unfolding Code code_size emit_node
emit_node-Emits null = some-Emits
emit_node-Emits rn_empty = some-Emits
emit_node-Emits (rn_char ch) = emit1-Emits _
emit_node-Emits (rn_class cls) = emit1-Emits _
emit_node-Emits rn_any = emit1-Emits _
emit_node-Emits rn_bol = emit1-Emits _
emit_node-Emits rn_eol = emit1-Emits _
emit_node-Emits (rn_cat a b) =
    then-Emits (Code a) (Code b) (code_size a) (code_size b) (emit_node a) (emit_node b)
      (Code-Local a) (emit_node-Emits a) (emit_node-Emits b)
emit_node-Emits (rn_alt a b) =
    either-Emits (Code a) (Code b) (code_size a) (code_size b) (emit_node a) (emit_node b)
      (Code-Local a) (Code-Local b) (emit_node-Emits a) (emit_node-Emits b)
emit_node-Emits (rn_rep a m n) =
    repeat-Emits (Code a) m n (code_size a) (emit_node a) (Code-Local a) (emit_node-Emits a)

-- A program is the code of its tree and a match.
abbrev pub Program : Node → Shape
Program nd = Then (Code nd) (One ri_match)

unfoldable pub Compiled : Bool → List Class → Node → Option Regex → Type 0
Compiled fold cls nd none = max_insts < code_size nd + 1
Compiled fold cls nd (some re) =
    Program nd re.prog 0 (length re.prog)
    × (length re.prog ≡ code_size nd + 1)
    × (length re.prog ≤ max_insts)
    × (re.cls ≡ cls)
    × (re.fold ≡ fold)

of_program :
    (fold : Bool) (cls : List Class) (nd : Node) (o : Option (List Inst))
    → Outcome (Program nd) (code_size nd + 1) [] o
    → Compiled fold cls nd
        (bind_option o λ prog. some record { prog = prog; cls = cls; fold = fold })
unfolding Compiled Outcome
of_program fold cls nd none h = omega arith
of_program fold cls nd (some p) r = (r.code, omega (arith, r.grown), r.fits, refl, refl)

-- A tree is compiled if its code and a match fit into the program, and only then; the program is the code
-- of the tree and the match, with the classes and the case that were given.
pub compile_node-Compiled :
    (fold : Bool) (cls : List Class) (nd : Node) → Compiled fold cls nd (compile_node fold cls nd)
unfolding compile_node
compile_node-Compiled fold cls nd = of_program fold cls nd _ (
    then-Emits (Code nd) (One ri_match) (code_size nd) 1 (emit_node nd) (emit1 ri_match)
      (Code-Local nd) (emit_node-Emits nd) (emit1-Emits ri_match) [] (omega arith))
