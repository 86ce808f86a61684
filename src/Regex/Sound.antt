-- ===== src/Regex/Sound.antt =====
-- What the parser of std/regex.c gives: the parts without recursion.
use asterism_astools.Prelude.{ℕ, suc, ◌+◌, ◌≤◌, ◌<◌, ◌≡◌, refl, ◌∙◌}
use asterism_astools.Prelude.{none, some, [], ◌∷◌, map, arith}
use asterism_astools.Prelude.{leb}
use asterism_astools.Prelude.{length, length-append}
use asterism_astools.Prelude.{on_if}
use asterism_astools.Regex.{Class}
use asterism_astools.Regex.Tree.{
  Node, null, rn_empty, rn_char, rn_class, rn_any, rn_bol, rn_eol, rn_cat, rn_alt, rn_rep,
}
use asterism_astools.Regex.Parser.{
  PatternError, out_of_fuel, Parsed, bad, good, and_then, Parse, max_nodes, max_count, max_classes,
  node_new, cls_add,
}

-- Every class is among the first `k`, and no count is above its maximum.
unfoldable pub InRange : ℕ → Node → Type 0
InRange k (rn_class c) = c < k
InRange k (rn_cat a b) = InRange k a × InRange k b
InRange k (rn_alt a b) = InRange k a × InRange k b
InRange k (rn_rep a m none) = (m ≤ max_count) × InRange k a
InRange k (rn_rep a m (some n)) = (m ≤ n) × (n ≤ max_count) × InRange k a
InRange k _ = Unit

pub InRange-le : (k k2 : ℕ) (nd : Node) → k ≤ k2 → InRange k nd → InRange k2 nd
unfolding InRange
InRange-le k k2 null h i = tt
InRange-le k k2 rn_empty h i = tt
InRange-le k k2 (rn_char ch) h i = tt
InRange-le k k2 (rn_class c) h i = omega arith
InRange-le k k2 rn_any h i = tt
InRange-le k k2 rn_bol h i = tt
InRange-le k k2 rn_eol h i = tt
InRange-le k k2 (rn_cat a b) h (i, j) = (InRange-le k k2 a h i, InRange-le k k2 b h j)
InRange-le k k2 (rn_alt a b) h (i, j) = (InRange-le k k2 a h i, InRange-le k k2 b h j)
InRange-le k k2 (rn_rep a m none) h (l, i) = (l, InRange-le k k2 a h i)
InRange-le k k2 (rn_rep a m (some n)) h (l, b, i) = (l, b, InRange-le k k2 a h i)

-- The nodes of a tree.
unfoldable pub node_count : Node → ℕ
node_count null = 0
node_count (rn_cat a b) = suc (node_count a + node_count b)
node_count (rn_alt a b) = suc (node_count a + node_count b)
node_count (rn_rep a m n) = suc (node_count a)
node_count _ = 1

abbrev pub NotFuel : PatternError → Type 0
NotFuel out_of_fuel = ⊥
NotFuel _ = Unit

-- A result with a property, or an error of the source.
unfoldable pub Post : {A : Type 0} → (A → Type 0) → Parsed A → Type 0
Post Q (bad e) = NotFuel e
Post Q (good a) = Q a

pub Post-good : {A : Type 0} (Q : A → Type 0) (a : A) → Q a → Post Q (good a)
unfolding Post
Post-good Q a h = h

pub Post-bad : {A : Type 0} (Q : A → Type 0) (e : PatternError) → NotFuel e → Post Q (bad e)
unfolding Post
Post-bad Q e h = h

pub and_then-Post :
    {A B : Type 0} (Q : A → Type 0) (R : B → Type 0) (r : Parsed A) (f : A → Parsed B)
    → Post Q r
    → ((a : A) → Q a → Post R (f a))
    → Post R (and_then r f)
unfolding Post
and_then-Post Q R (bad e) f h k = h
and_then-Post Q R (good a) f h k = k a h

pub Post-map :
    {A : Type 0} (Q R : A → Type 0) (r : Parsed A) → Post Q r → ((a : A) → Q a → R a) → Post R r
unfolding Post
Post-map Q R (bad e) h f = h
Post-map Q R (good a) h f = f a h

-- The parser is within its limits.
abbrev pub IsSmall : Parse → Type 0
IsSmall st = (st.nnodes ≤ max_nodes) × (length st.cls ≤ max_classes)

-- A state after `d` bytes at least and `n` nodes.
pub record Moved (d n : ℕ) (st st2 : Parse) : Type 0 where
  pub shorter : d + length st2.p ≤ length st.p
  pub nodes : st2.nnodes ≡ n + st.nnodes
  pub limit : IsSmall st → IsSmall st2
  pub classes : length st.cls ≤ length st2.cls
  pub same_depth : st2.depth ≡ st.depth

pub Moved-trans :
    (d n d2 n2 : ℕ) (st st1 st2 : Parse)
    → Moved d n st st1
    → Moved d2 n2 st1 st2
    → Moved (d + d2) (n2 + n) st st2
Moved-trans d n d2 n2 st st1 st2 a b = record {
  shorter = omega (arith, a.shorter, b.shorter);
  nodes = omega (arith, a.nodes, b.nodes);
  limit = λ h. b.limit (a.limit h);
  classes = omega (arith, a.classes, b.classes);
  same_depth = b.same_depth ∙ a.same_depth;
}

-- A tree that is right, in a state after so many bytes and its own nodes.
unfoldable pub IsTree : ℕ → Parse → Node × Parse → Type 0
IsTree d st (nd, st2) = Moved d (node_count nd) st st2 × InRange (length st2.cls) nd

pub node_new-Post : (st : Parse) → Post (λ st1. Moved 0 1 st st1 × (st1.p ≡ st.p)) (node_new st)
unfolding node_new
node_new-Post st =
    on_if (Post _) (leb max_nodes st.nnodes) _ _ (λ full. Post-bad _ _ tt)
      λ room. Post-good _ _ (
        record {
          shorter = omega arith;
          nodes = omega arith;
          limit = λ h. (ground arith, h.1);
          classes = omega arith;
          same_depth = refl;
        },
        refl,
      )

pub cls_add-Post :
    (map : Class) (st : Parse)
    → Post (λ (idx, st1). Moved 0 0 st st1 × (idx < length st1.cls)) (cls_add map st)
unfolding cls_add
cls_add-Post map st =
    on_if (Post _) (leb max_classes (length st.cls)) _ _ (λ full. Post-bad _ _ tt)
      λ room. Post-good _ _ (
        record {
          shorter = omega arith;
          nodes = omega arith;
          limit = λ h. (h.0, ground (arith, length-append st.cls (map ∷ [])));
          classes = omega (arith, length-append st.cls (map ∷ []));
          same_depth = refl;
        },
        omega (arith, length-append st.cls (map ∷ [])),
      )
