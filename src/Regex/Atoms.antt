-- ===== src/Regex/Atoms.antt =====
-- What the parser of std/regex.c gives for a class, for a single byte and for a repetition.
use asterism_astools.Prelude.{ℕ, zero, suc, ◌≤◌, ◌<◌, ◌≡◌, refl, ◌∙◌}
use asterism_astools.Prelude.{Bool, true, false, not, ◌&&◌, ◌||◌, [], ◌∷◌, map, arith}
use asterism_astools.Prelude.{ltb, ◌==◌}
use asterism_astools.Prelude.{length, drop, length-drop}
use asterism_astools.Prelude.{Bytes, peek, advance, within, is_digit}
use asterism_astools.Prelude.{on_if, on_bool}
use asterism_astools.Regex.{Class, fold_ch}
use asterism_astools.Regex.Tree.{Node, rn_char, rn_class, rn_any, rn_bol, rn_eol}
use asterism_astools.Regex.Parser.{
  Parsed, bad, good, Parse, skip, node_new, leaf, class_loop, class_text, inverted, parse_class,
}
use asterism_astools.Regex.Atom.{escape_byte, plain_atom}
use asterism_astools.Regex.Sound.{
  InRange, InRange-le, node_count, Post, Post-good, Post-bad, Post-map, and_then-Post, Moved,
  IsTree, node_new-Post, cls_add-Post,
}

pub not_nul : (p : Bytes) → (peek p == 0) ≡ false → suc (length (advance p)) ≤ length p
not_nul [] e = cc
not_nul (c ∷ p) e = omega arith

pub peek_is :
    (p : Bytes) (c : ℕ) → 0 < c → (peek p == c) ≡ true → suc (length (advance p)) ≤ length p
peek_is [] c h e = absurd (ground arith)
peek_is (x ∷ p) c h e = omega arith

pub advance-le : (p : Bytes) → length (advance p) ≤ length p
advance-le [] = omega arith
advance-le (x ∷ p) = omega arith

length-advance : (p : Bytes) → 0 < length p → suc (length (advance p)) ≤ length p
length-advance [] h = absurd (omega arith)
length-advance (x ∷ p) h = omega arith

pub skip-Moved : (n : ℕ) (st : Parse) → n ≤ length st.p → Moved n 0 st (skip n st)
skip-Moved n st h = record {
  shorter = omega (arith, length-drop n st.p);
  nodes = omega arith;
  limit = λ k. k;
  classes = omega arith;
  same_depth = refl;
}

pub leaf-Post :
    (d : ℕ) (nd : Node) (st0 st : Parse)
    → node_count nd ≡ 1
    → Moved d 0 st0 st
    → InRange (length st.cls) nd
    → Post (IsTree d st0) (leaf nd st)
unfolding IsTree
leaf-Post d nd st0 st one m i =
    and_then-Post _ (IsTree d st0) (node_new st) _ (node_new-Post st) λ st1 (n, same).
      Post-good (IsTree d st0) (nd, st1)
        (
          record {
            shorter = omega (arith, m.shorter, n.shorter);
            nodes = omega (arith, m.nodes, n.nodes);
            limit = λ h. n.limit (m.limit h);
            classes = omega (arith, m.classes, n.classes);
            same_depth = n.same_depth ∙ m.same_depth;
          },
          InRange-le _ _ nd n.classes i,
        )

Moved-less : {n d : ℕ} {st st2 : Parse} → Moved (suc d) n st st2 → Moved 1 n st st2
Moved-less m = record {
  shorter = omega (arith, m.shorter);
  nodes = m.nodes;
  limit = m.limit;
  classes = m.classes;
  same_depth = m.same_depth;
}

-- The loop takes the closing bracket, and comes to an end.
class_loop-Post :
    (fuel : ℕ) (fold first : Bool) (map : Class) (p : Bytes)
    → length p < fuel
    → Post (λ (m, q). suc (length q) ≤ length p) (class_loop fuel fold first map p)
unfolding class_loop
class_loop-Post zero fold first map p h = absurd (omega arith)
class_loop-Post (suc fuel) fold first map p h =
    on_bool (Post _) (peek p == 0) _ _ (λ e. Post-bad _ _ tt)
      λ more.
        on_bool (Post _) (peek p == b']' && not first) _ _ (λ e. Post-good _ _ (not_nul p more))
          λ e1.
            on_bool (Post _) (peek p == b'[' && peek (advance p) == b':') _ _ (λ e. Post-bad _ _ tt)
              λ e2.
                on_bool (Post _)
                  (peek (advance p) == b'-'
                    && (not (peek (advance (advance p)) == b']')
                        && not (peek (advance (advance p)) == 0)))
                  _ _
                  (λ e.
                    on_bool (Post _) (ltb (peek (advance (advance p))) (peek p)) _ _
                      (λ e3. Post-bad _ _ tt)
                      λ e3.
                        Post-map _ _ _
                          (class_loop-Post fuel fold false _ (drop 2 (advance p))
                            (omega (arith, not_nul p more, length-drop 2 (advance p))))
                          λ (m, q) k. omega (arith, k, not_nul p more, length-drop 2 (advance p)))
                  (λ e.
                    Post-map _ _ _
                      (class_loop-Post fuel fold false _ (advance p)
                        (omega (arith, not_nul p more)))
                      λ (m, q) k. omega (arith, k, not_nul p more))

inverted-Post :
    (n : ℕ) (r : Parsed (Class × Bytes))
    → Post (λ (m, q). suc (length q) ≤ n) r
    → Post (λ (m, q). suc (length q) ≤ n) (inverted r)
unfolding Post
inverted-Post n (bad e) h = h
inverted-Post n (good (m, q)) h = h

class_text-Post :
    (fold : Bool) (p : Bytes) → Post (λ (m, q). suc (length q) ≤ length p) (class_text fold p)
class_text-Post fold p = class_loop-Post (suc (length p)) fold true _ p (omega arith)

parse_class-Post :
    (fold : Bool) (st : Parse) → 0 < length st.p → Post (IsTree 1 st) (parse_class fold st)
unfolding parse_class InRange node_count
parse_class-Post fold st h =
    and_then-Post (λ (m, q). suc (length q) ≤ length st.p) (IsTree 1 st) _ _
      (on_if (Post _) (peek (advance st.p) == b'^') _ _
        (λ e. inverted-Post (length st.p) _ (
          Post-map _ _ _ (class_text-Post fold (advance (advance st.p)))
            λ (m, q) k. omega (arith, k, advance-le (advance st.p), advance-le st.p)))
        (λ e.
          Post-map _ _ _ (class_text-Post fold (advance st.p))
            λ (m, q) k. omega (arith, k, length-advance st.p h)))
      λ (m, q) k. and_then-Post _ (IsTree 1 st) _ _ (cls_add-Post m _) λ (idx, st1) (moved, below).
        leaf-Post 1 (rn_class idx) st st1 refl
          (record {
            shorter = omega (arith, k, moved.shorter);
            nodes = moved.nodes;
            limit = moved.limit;
            classes = moved.classes;
            same_depth = moved.same_depth;
          })
          below

escape_byte-Post : (e : ℕ) → Post (λ b. (e == 0) ≡ false) (escape_byte e)
unfolding escape_byte
escape_byte-Post e =
    on_if (Post _) (e == 0) _ _ (λ h. Post-bad _ _ tt)
      λ more.
        on_if (Post _) (e == b'n') _ _ (λ h. Post-good _ _ more)
          λ h1.
            on_if (Post _) (e == b't') _ _ (λ h. Post-good _ _ more)
              λ h2.
                on_if (Post _) (e == b'r') _ _ (λ h. Post-good _ _ more)
                  λ h3.
                    on_if (Post _) (e == b'd') _ _ (λ h. Post-bad _ _ tt)
                      λ h4.
                        on_if (Post _) (e == b'w') _ _ (λ h. Post-bad _ _ tt)
                          λ h5.
                            on_if (Post _) (e == b's') _ _ (λ h. Post-bad _ _ tt)
                              λ h6.
                                on_if (Post _) (is_digit e) _ _ (λ h. Post-bad _ _ tt)
                                  λ h7.
                                    on_if (Post _) (within b'a' b'z' e || within b'A' b'Z' e) _ _
                                      (λ h. Post-bad _ _ tt) λ h8. Post-good _ _ more

pub plain_atom-Post :
    (fold : Bool) (st : Parse) → 0 < length st.p → Post (IsTree 1 st) (plain_atom fold st)
unfolding plain_atom InRange node_count
plain_atom-Post fold st h =
    let one = skip-Moved 1 st (omega arith) in
    on_if (Post _) (peek st.p == b'.') _ _ (λ e. leaf-Post 1 rn_any st _ refl one tt)
      λ e1.
        on_if (Post _) (peek st.p == b'^') _ _ (λ e. leaf-Post 1 rn_bol st _ refl one tt)
          λ e2.
            on_if (Post _) (peek st.p == b'$') _ _ (λ e. leaf-Post 1 rn_eol st _ refl one tt)
              λ e3.
                on_if (Post _) (peek st.p == b'[') _ _ (λ e. parse_class-Post fold st h)
                  λ e4.
                    on_if (Post _)
                      ((peek st.p == b'*' || peek st.p == b'+')
                        || (peek st.p == b'?' || peek st.p == b'{'))
                      _ _ (λ e. Post-bad _ _ tt)
                      λ e5.
                        on_if (Post _) (peek st.p == b'\\') _ _
                          (λ e.
                            and_then-Post _ (IsTree 1 st) _ _
                              (escape_byte-Post (peek (advance st.p)))
                              λ lit more.
                                leaf-Post 1 (rn_char (fold_ch fold lit)) st _ refl
                                  (Moved-less (
                                    skip-Moved 2 st (
                                      omega (
                                        arith,
                                        not_nul (advance st.p) more,
                                        length-advance st.p h,
                                      ))))
                                  tt)
                          (λ e. leaf-Post 1 (rn_char (fold_ch fold (peek st.p))) st _ refl one tt)
