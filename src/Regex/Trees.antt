-- ===== src/Regex/Trees.antt =====
-- The recursive part of the parser of std/regex.c, with the fuel it takes.
use asterism_astools.Prelude.{ℕ, zero, suc, ◌+◌, ◌*◌, ◌≤◌, ◌<◌, ◌≡◌, refl, ◌∙◌}
use asterism_astools.Prelude.{Bool, false, Option, none, some, [], ◌∷◌, arith}
use asterism_astools.Prelude.{leb, ◌==◌}
use asterism_astools.Prelude.{length, length-drop}
use asterism_astools.Prelude.{Bytes, peek}
use asterism_astools.Prelude.{on_if, on_bool}
use asterism_astools.Regex.Tree.{Node, null, rn_empty, rn_cat, rn_alt, rn_rep}
use asterism_astools.Regex.Parser.{Parsed, Parse, max_depth, skip, at_depth, node_new, leaf}
use asterism_astools.Regex.Atom.{Counts, quantifier}
use asterism_astools.Regex.Grammar.{
  ends_branch, with_p, repetitions, parse_atom, parse_piece, pieces, parse_concat, branches,
  parse_alt,
}
use asterism_astools.Regex.Sound.{
  InRange, InRange-le, node_count, Post, Post-good, Post-bad, and_then-Post, IsTree, node_new-Post,
}
use asterism_astools.Regex.Atoms.{peek_is, skip-Moved, leaf-Post, plain_atom-Post}
use asterism_astools.Regex.Quantifiers.{IsQuantifier, AreCounts, quantifier-Post}

on_quantifier :
    {A : Type 0} (P : Parsed A → Type 0) (p : Bytes) (o : Option Counts) (x : Parsed A)
    (f : ℕ → Option ℕ → Bytes → Parsed A)
    → IsQuantifier p o
    → P x
    → ((m : ℕ) (n : Option ℕ) (q : Bytes) → IsQuantifier p (some (m, n, q)) → P (f m n q))
    → P (elim o [ none ↦ x | some (m, n, q) ↦ f m n q ])
on_quantifier P p none x f is h k = h
on_quantifier P p (some (m, n, q)) x f is h k = k m n q is

rep-InRange :
    (k l m : ℕ) (n : Option ℕ) (q : Bytes) (nd : Node)
    → AreCounts l (m, n, q)
    → InRange k nd
    → InRange k (rn_rep nd m n)
unfolding InRange
rep-InRange k l m none q nd (h, s) i = (h, i)
rep-InRange k l m (some n) q nd (h, s) i = (h.0, h.1, i)

counts_left : (l m : ℕ) (n : Option ℕ) (q : Bytes) → AreCounts l (m, n, q) → length q ≤ l
counts_left l m none q (h, s) = s
counts_left l m (some n) q (h, s) = s

repetitions-Post :
    (fuel d : ℕ) (st0 : Parse) (atom : Node) (st : Parse)
    → length st.p < fuel
    → IsTree d st0 (atom, st)
    → Post (IsTree d st0) (repetitions fuel atom st)
unfolding repetitions IsTree node_count
repetitions-Post zero d st0 atom st h t = absurd (omega arith)
repetitions-Post (suc fuel) d st0 atom st h (moved, inside) =
    and_then-Post (IsQuantifier st.p) (IsTree d st0) (quantifier st.p) _ (quantifier-Post st.p)
      λ found is.
        on_quantifier (Post (IsTree d st0)) st.p found _ _ is
          (Post-good (IsTree d st0) (atom, st) (moved, inside))
          λ m n q (some_left, counts).
            let left = counts_left _ m n q counts in
            and_then-Post _ (IsTree d st0) (node_new (with_p q st)) _ (node_new-Post (with_p q st))
              λ st1 (n1, same).
                repetitions-Post fuel d st0 (rn_rep atom m n) st1 (omega (arith, n1.shorter, left))
                  (
                    record {
                      shorter = omega (arith, moved.shorter, n1.shorter, left);
                      nodes = omega (arith, moved.nodes, n1.nodes);
                      limit = λ k. n1.limit (moved.limit k);
                      classes = omega (arith, moved.classes, n1.classes);
                      same_depth = n1.same_depth ∙ moved.same_depth;
                    },
                    rep-InRange _ _ m n q atom counts (InRange-le _ _ atom n1.classes inside),
                  )

leaf_empty : (st : Parse) → Post (IsTree 0 st) (leaf rn_empty st)
unfolding InRange node_count
leaf_empty st = leaf-Post 0 rn_empty st st refl (skip-Moved 0 st (omega arith)) tt

null-IsTree : (st : Parse) → IsTree 0 st (null, st)
unfolding IsTree InRange node_count
null-IsTree st = (skip-Moved 0 st (omega arith), tt)

not_ended : (p : Bytes) → ends_branch p ≡ false → 0 < length p
not_ended [] e = cc
not_ended (c ∷ p) e = omega arith

mutual
  unfolding parse_atom parse_piece pieces parse_concat branches parse_alt IsTree node_count InRange

  pub parse_atom-Post :
      (fuel : ℕ) (fold : Bool) (st : Parse)
      → 5 * length st.p + 1 ≤ fuel
      → 0 < length st.p
      → Post (IsTree 1 st) (parse_atom fuel fold st)
  parse_atom-Post zero fold st h some_left = absurd (omega arith)
  parse_atom-Post (suc fuel) fold st h some_left =
      on_bool (Post (IsTree 1 st)) (peek st.p == b'(') _ _
        (λ e.
          on_bool (Post (IsTree 1 st)) (leb max_depth st.depth) _ _ (λ e2. Post-bad _ _ tt)
            λ e2.
              let inner = at_depth (suc st.depth) (skip 1 st) in
              and_then-Post (IsTree 0 inner) (IsTree 1 st) (parse_alt fuel fold inner) _
                (parse_alt-Post fuel fold inner (omega (arith, length-drop 1 st.p)))
                λ (nd, st1) (moved, inside).
                  on_if (Post (IsTree 1 st)) (peek st1.p == b')') _ _
                    (λ e3. Post-good (IsTree 1 st) _ (
                      record {
                        shorter = omega (
                          arith,
                          length-drop 1 st1.p,
                          length-drop 1 st.p,
                          moved.shorter,
                          peek_is st.p b'(' (omega arith) e,
                        );
                        nodes = moved.nodes;
                        limit = moved.limit;
                        classes = moved.classes;
                        same_depth = omega (arith, moved.same_depth);
                      },
                      inside,
                    ))
                    (λ e3. Post-bad _ _ tt))
        (λ e. plain_atom-Post fold st some_left)

  pub parse_piece-Post :
      (fuel : ℕ) (fold : Bool) (st : Parse)
      → 5 * length st.p + 2 ≤ fuel
      → 0 < length st.p
      → Post (IsTree 1 st) (parse_piece fuel fold st)
  parse_piece-Post zero fold st h some_left = absurd (omega arith)
  parse_piece-Post (suc fuel) fold st h some_left =
      and_then-Post (IsTree 1 st) (IsTree 1 st) (parse_atom fuel fold st) _
        (parse_atom-Post fuel fold st (omega arith) some_left)
        λ (atom, st1) (moved, inside).
          repetitions-Post fuel 1 st atom st1 (omega (arith, moved.shorter)) (moved, inside)

  pub pieces-Post :
      (fuel : ℕ) (fold : Bool) (st : Parse)
      → 5 * length st.p + 3 ≤ fuel
      → Post (IsTree 0 st) (pieces fuel fold st)
  pieces-Post zero fold st h = absurd (omega arith)
  pieces-Post (suc fuel) fold st h =
      on_bool (Post (IsTree 0 st)) (ends_branch st.p) _ _
        (λ e. Post-good (IsTree 0 st) _ (null-IsTree st))
        λ e.
          and_then-Post (IsTree 1 st) (IsTree 0 st) (parse_piece fuel fold st) _
            (parse_piece-Post fuel fold st (omega arith) (not_ended st.p e))
            λ (piece, st1) (m1, i1).
              and_then-Post _ (IsTree 0 st) (node_new st1) _ (node_new-Post st1) λ st2 (m2, same).
                and_then-Post (IsTree 0 st2) (IsTree 0 st) (pieces fuel fold st2) _
                  (pieces-Post fuel fold st2 (omega (arith, m1.shorter, m2.shorter)))
                  λ (rest, st3) (m3, i3).
                    Post-good (IsTree 0 st) (rn_cat piece rest, st3)
                      (
                        record {
                          shorter = omega (arith, m1.shorter, m2.shorter, m3.shorter);
                          nodes = omega (arith, m1.nodes, m2.nodes, m3.nodes);
                          limit = λ k. m3.limit (m2.limit (m1.limit k));
                          classes = omega (arith, m1.classes, m2.classes, m3.classes);
                          same_depth = m3.same_depth ∙ (m2.same_depth ∙ m1.same_depth);
                        },
                        (InRange-le _ _ piece (omega (arith, m2.classes, m3.classes)) i1, i3),
                      )

  pub parse_concat-Post :
      (fuel : ℕ) (fold : Bool) (st : Parse)
      → 5 * length st.p + 4 ≤ fuel
      → Post (IsTree 0 st) (parse_concat fuel fold st)
  parse_concat-Post zero fold st h = absurd (omega arith)
  parse_concat-Post (suc fuel) fold st h =
      on_bool (Post (IsTree 0 st)) (ends_branch st.p) _ _ (λ e. leaf_empty st)
        (λ e. pieces-Post fuel fold st (omega arith))

  pub branches-Post :
      (fuel : ℕ) (fold : Bool) (st0 : Parse) (br : Node) (st : Parse)
      → 5 * length st.p + 1 ≤ fuel
      → IsTree 0 st0 (br, st)
      → Post (IsTree 0 st0) (branches fuel fold br st)
  branches-Post zero fold st0 br st h t = absurd (omega arith)
  branches-Post (suc fuel) fold st0 br st h (m0, i0) =
      on_bool (Post (IsTree 0 st0)) (peek st.p == b'|') _ _
        (λ e. and_then-Post _ (IsTree 0 st0) (node_new st) _ (node_new-Post st) λ st1 (m1, same).
          let bar = peek_is st.p b'|' (omega arith) e in
          let st2 = skip 1 st1 in
          and_then-Post (IsTree 0 st2) (IsTree 0 st0) (parse_concat fuel fold st2) _
            (parse_concat-Post fuel fold st2 (omega (arith, m1.shorter, length-drop 1 st1.p)))
            λ (br2, st3) (m3, i3).
              and_then-Post (IsTree 0 st2) (IsTree 0 st0) (branches fuel fold br2 st3) _
                (branches-Post fuel fold st2 br2 st3
                  (omega (arith, m1.shorter, length-drop 1 st1.p, m3.shorter)) (m3, i3))
                λ (rest, st4) (m4, i4).
                  Post-good (IsTree 0 st0) (rn_alt br rest, st4)
                    (
                      record {
                        shorter =
                            omega (arith, m0.shorter, m1.shorter, m4.shorter, length-drop 1 st1.p);
                        nodes = omega (arith, m0.nodes, m1.nodes, m4.nodes);
                        limit = λ k. m4.limit (m1.limit (m0.limit k));
                        classes = omega (arith, m0.classes, m1.classes, m4.classes);
                        same_depth = m4.same_depth ∙ (m1.same_depth ∙ m0.same_depth);
                      },
                      (InRange-le _ _ br (omega (arith, m1.classes, m4.classes)) i0, i4),
                    ))
        (λ e. Post-good (IsTree 0 st0) (br, st) (m0, i0))

  pub parse_alt-Post :
      (fuel : ℕ) (fold : Bool) (st : Parse)
      → 5 * length st.p + 5 ≤ fuel
      → Post (IsTree 0 st) (parse_alt fuel fold st)
  parse_alt-Post zero fold st h = absurd (omega arith)
  parse_alt-Post (suc fuel) fold st h =
      and_then-Post (IsTree 0 st) (IsTree 0 st) (parse_concat fuel fold st) _
        (parse_concat-Post fuel fold st (omega arith))
        λ (br, st1) (m, i). branches-Post fuel fold st br st1 (omega (arith, m.shorter)) (m, i)
