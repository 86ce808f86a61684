-- ===== src/Regex/Literal.antt =====
-- A text as a pattern of std/regex.c, with its special bytes escaped, and the parser on it.
use asterism_astools.Prelude.{
  ℕ, zero, suc, ◌+◌, ◌*◌, ◌≤◌, ◌<◌, ◌≡◌, refl, sym, ap, ◌∙◌, ◌≢◌, inl, inr,
}
use asterism_astools.Prelude.{Bool, true, false, ◌||◌, none, List, [], ◌∷◌, arith}
use asterism_astools.Prelude.{◌==◌, if◌then◌else◌, Bool-cases, bool_clash}
use asterism_astools.Prelude.{length, All}
use asterism_astools.Prelude.{Bytes, peek}
use asterism_astools.Prelude.{on_bool}
use asterism_astools.Regex.{Class}
use asterism_astools.Regex.Tree.{Node, null, rn_cat, rn_char}
use asterism_astools.Regex.Parser.{Parsed, good, and_then, Parse, max_nodes, node_new}
use asterism_astools.Regex.Atom.{escape_byte, plain_atom, quantifier}
use asterism_astools.Regex.Grammar.{ends_branch, repetitions, parse_atom, parse_piece, pieces}

abbrev pub is_special : ℕ → Bool
is_special c =
    (c == b'\\' || c == b'^' || c == b'$' || c == b'.' || c == b'[' || c == b'(')
    || (c == b')' || c == b'*' || c == b'+' || c == b'?' || c == b'{' || c == b'|')

-- The pattern of a text.
unfoldable pub quote : Bytes → Bytes
quote [] = []
quote (c ∷ text) = if is_special c then b'\\' ∷ c ∷ quote text else c ∷ quote text

unfoldable pub literal : Bytes → Node
literal [] = null
literal (c ∷ text) = rn_cat (rn_char c) (literal text)

escape_special : (c : ℕ) → is_special c ≡ true → escape_byte c ≡ good c
unfolding escape_byte
escape_special c h = ground arith

abbrev pub at : Bytes → ℕ → ℕ → List Class → Parse
at p n d cls = record { p = p; nnodes = n; depth = d; cls = cls }

node_new_room :
    (p : Bytes) (n d : ℕ) (cls : List Class)
    → n < max_nodes
    → node_new (at p n d cls) ≡ good (at p (suc n) d cls)
unfolding node_new
node_new_room p n d cls h = ground arith

plain_special :
    (c : ℕ) (p : Bytes) (n d : ℕ) (cls : List Class)
    → is_special c ≡ true
    → n < max_nodes
    → plain_atom false (at (b'\\' ∷ c ∷ p) n d cls) ≡ good (rn_char c, at p (suc n) d cls)
unfolding plain_atom
plain_special c p n d cls h k = rw (escape_special c h) (rw (node_new_room p n d cls k) refl)

plain_other :
    (c : ℕ) (p : Bytes) (n d : ℕ) (cls : List Class)
    → is_special c ≡ false
    → n < max_nodes
    → plain_atom false (at (c ∷ p) n d cls) ≡ good (rn_char c, at p (suc n) d cls)
unfolding plain_atom
plain_other c p n d cls h k = ground (arith, node_new_room p n d cls k)

quantifier-quote : (text : Bytes) → quantifier (quote text) ≡ good none
unfolding quantifier quote
quantifier-quote [] = refl
quantifier-quote (c ∷ text) = ground arith

-- The head of a quoted text.
pub quote-head :
    (c : ℕ) (text : Bytes)
    → c ≢ 0
    → (ends_branch (quote (c ∷ text)) ≡ false) × ((peek (quote (c ∷ text)) == b'(') ≡ false)
unfolding quote
quote-head c text h = elim (Bool-cases (is_special c)) [
  | inl e ↦ rw e (refl, refl)
  | inr e ↦ rw e (ground arith, ground arith)
]

atom-quote :
    (c fuel n d : ℕ) (text : Bytes) (cls : List Class)
    → c ≢ 0
    → n < max_nodes
    → parse_atom (suc fuel) false (at (quote (c ∷ text)) n d cls)
      ≡ good (rn_char c, at (quote text) (suc n) d cls)
unfolding parse_atom quote
atom-quote c fuel n d text cls h k = elim (Bool-cases (is_special c)) [
  | inl e ↦ rw e (plain_special c (quote text) n d cls e k)
  | inr e ↦ rw e (
      on_bool (λ r. r ≡ good (rn_char c, at (quote text) (suc n) d cls)) (c == b'(') _ _
        (λ open2. absurd (ground arith)) (λ other. plain_other c (quote text) n d cls e k))
]

piece-quote :
    (c fuel n d : ℕ) (text : Bytes) (cls : List Class)
    → c ≢ 0
    → n < max_nodes
    → parse_piece (suc (suc fuel)) false (at (quote (c ∷ text)) n d cls)
      ≡ good (rn_char c, at (quote text) (suc n) d cls)
unfolding parse_piece repetitions
piece-quote c fuel n d text cls h k =
    rw (atom-quote c fuel n d text cls h k) (rw (quantifier-quote text) refl)

pub and_then-eq :
    {A B : Type 0} (r : Parsed A) (f : A → Parsed B) (a : A) (b : Parsed B)
    → r ≡ good a
    → f a ≡ b
    → and_then r f ≡ b
and_then-eq r f a b e h = rw e h

pieces-step :
    (fuel : ℕ) (nd rest : Node) (st st1 st2 st3 : Parse)
    → ends_branch st.p ≡ false
    → parse_piece fuel false st ≡ good (nd, st1)
    → node_new st1 ≡ good st2
    → pieces fuel false st2 ≡ good (rest, st3)
    → pieces (suc fuel) false st ≡ good (rn_cat nd rest, st3)
unfolding pieces
pieces-step fuel nd rest st st1 st2 st3 more piece node others =
    on_bool (λ r. r ≡ good (rn_cat nd rest, st3)) (ends_branch st.p) _ _
      (λ ended. absurd (bool_clash (sym ended ∙ more)))
      (λ e.
        and_then-eq _ _ (nd, st1) _ piece
          (and_then-eq _ _ st2 _ node (and_then-eq _ _ (rest, st3) _ others refl)))

pieces-end :
    (fuel n d : ℕ) (cls : List Class)
    → pieces (suc fuel) false (at [] n d cls) ≡ good (null, at [] n d cls)
unfolding pieces
pieces-end fuel n d cls = refl

at_nodes :
    (n m d : ℕ) (cls : List Class) (nd : Node)
    → n ≡ m
    → ◌≡◌ {A = Parsed (Node × Parse)} (good (nd, at [] n d cls)) (good (nd, at [] m d cls))
at_nodes n m d cls nd e = ap (λ k. good (nd, at [] k d cls)) e

-- A byte after the other, two nodes for each.
pub pieces-quote :
    (text : Bytes) (fuel n d : ℕ) (cls : List Class)
    → All (λ c. c ≢ 0) text
    → length text ≤ fuel
    → n + 2 * length text ≤ max_nodes
    → pieces (suc (suc (suc fuel))) false (at (quote text) n d cls)
      ≡ good (literal text, at [] (n + 2 * length text) d cls)
unfolding literal quote
pieces-quote [] fuel n d cls a h k =
    pieces-end _ n d cls ∙ at_nodes n (n + 0) d cls null (omega arith)
pieces-quote (c ∷ text) zero n d cls a h k = absurd (omega arith)
pieces-quote (c ∷ text) (suc fuel) n d cls (first, rest) h k =
    pieces-step (suc (suc (suc fuel))) (rn_char c) (literal text) _ _ _ _
      (quote-head c text first).0 (piece-quote c (suc fuel) n d text cls first (omega arith))
      (node_new_room (quote text) (suc n) d cls (omega arith))
      (pieces-quote text fuel (suc (suc n)) d cls rest (omega arith) (omega arith))
    ∙ at_nodes (suc (suc n) + 2 * length text) (n + 2 * length (c ∷ text)) d cls
        (literal (c ∷ text)) (omega arith)
