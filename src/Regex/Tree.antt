-- ===== src/Regex/Tree.antt =====
-- std/regex.c: the parse tree and the code that is emitted for it.
--
-- A program in the making is the list of its instructions. A jump or a split whose target comes later
-- is written when the code up to the target is there, the last one first; the source chains the ones
-- that wait through their own fields. `null` is an absent node.
use asterism_astools.Prelude.{ℕ, zero, suc, ◌-◌}
use asterism_astools.Prelude.{Bool, Option, none, some, List, [], ◌∷◌, ◌++◌}
use asterism_astools.Prelude.{leb, if◌then◌else◌}
use asterism_astools.Prelude.{length, get_elem?}
use asterism_astools.Prelude.{bind_option}
use asterism_astools.Prelude.{set}
use asterism_astools.Regex.{
  Inst, ri_char, ri_class, ri_any, ri_bol, ri_eol, ri_split, ri_jmp, ri_match, Regex, Class,
}

pub data Node : Type 0 where
  null : Node
  rn_empty : Node
  rn_char : (ch : ℕ) → Node
  rn_class : (cls : ℕ) → Node
  rn_any : Node
  rn_bol : Node
  rn_eol : Node
  rn_cat : (a b : Node) → Node
  rn_alt : (a b : Node) → Node
  rn_rep : (a : Node) (m : ℕ) (n : Option ℕ) → Node

abbrev pub max_insts : ℕ
max_insts = 4096

abbrev pub Emit : Type 0
Emit = List Inst → Option (List Inst)

unfoldable pub emit1 : Inst → Emit
emit1 inst prog = if leb max_insts (length prog) then none else some (prog ++ inst ∷ [])

-- The instruction with other targets.
abbrev pub with_x : Inst → ℕ → Inst
with_x (ri_split x y) v = ri_split v y
with_x (ri_jmp x) v = ri_jmp v
with_x inst v = inst

abbrev pub with_y : Inst → ℕ → Inst
with_y (ri_split x y) v = ri_split x v
with_y inst v = inst

-- `prog[i].x = v`
unfoldable pub patch_x : ℕ → ℕ → List Inst → List Inst
patch_x i v prog = elim (get_elem? prog i) [ none ↦ prog | some inst ↦ set prog i (with_x inst v) ]

-- `prog[i].y = v`
unfoldable pub patch_y : ℕ → ℕ → List Inst → List Inst
patch_y i v prog = elim (get_elem? prog i) [ none ↦ prog | some inst ↦ set prog i (with_y inst v) ]

unfoldable pub copies : ℕ → Emit → Emit
copies zero emit prog = some prog
copies (suc k) emit prog = bind_option (emit prog) (copies k emit)

-- A split, which is to go to the end, and a part; then its target is written.
unfoldable pub guarded : Emit → Emit
guarded emit prog =
    bind_option (bind_option (emit1 (ri_split (suc (length prog)) 0) prog) emit)
      λ p1. some (patch_y (length prog) (length p1) p1)

-- The copies of `{m,n}` that may be left out.
unfoldable pub optional : ℕ → Emit → Emit
optional zero emit prog = some prog
optional (suc k) emit prog = guarded (λ p1. bind_option (emit p1) (optional k emit)) prog

-- `a*`
unfoldable pub star : Emit → Emit
star emit prog = guarded (λ p1. bind_option (emit p1) (emit1 (ri_jmp (length prog)))) prog

-- The last copy of `a{m}`, which loops.
unfoldable pub looping : Emit → Emit
looping emit prog =
    bind_option (emit prog) λ p1. emit1 (ri_split (length prog) (suc (length p1))) p1

-- `a|b`; the jump behind `a` waits for the end.
unfoldable pub either : Emit → Emit → Emit
either emit_a emit_b prog =
    bind_option (guarded (λ p1. bind_option (emit_a p1) (emit1 (ri_jmp 0))) prog)
      λ p2. bind_option (emit_b p2) λ p3. some (patch_x (length p2 - 1) (length p3) p3)

unfoldable pub repeat : Emit → ℕ → Option ℕ → Emit
repeat emit zero none prog = star emit prog
repeat emit (suc m) none prog = bind_option (copies m emit prog) (looping emit)
repeat emit m (some n) prog = bind_option (copies m emit prog) (optional (n - m) emit)

unfoldable pub emit_node : Node → Emit
emit_node null prog = some prog
emit_node rn_empty prog = some prog
emit_node (rn_char ch) prog = emit1 (ri_char ch) prog
emit_node (rn_class cls) prog = emit1 (ri_class cls) prog
emit_node rn_any prog = emit1 ri_any prog
emit_node rn_bol prog = emit1 ri_bol prog
emit_node rn_eol prog = emit1 ri_eol prog
emit_node (rn_cat a b) prog = bind_option (emit_node a prog) (emit_node b)
emit_node (rn_alt a b) prog = either (emit_node a) (emit_node b) prog
emit_node (rn_rep a m n) prog = repeat (emit_node a) m n prog

-- `astd_regex_compile` for a tree: `none` is the error that the pattern is too large.
unfoldable pub compile_node : Bool → List Class → Node → Option Regex
compile_node fold cls root =
    bind_option (bind_option (emit_node root []) (emit1 ri_match))
      λ prog. some record { prog = prog; cls = cls; fold = fold }
