-- ===== src/Regex/Texts.antt =====
-- The search of std/regex.c for a quoted text.
use asterism_astools.Prelude.{
  ℕ, zero, suc, ◌+◌, ◌*◌, ◌≤◌, ◌<◌, ◌≡◌, refl, sym, ap, ◌∙◌, ◌≢◌, ◌↔◌, inl, inr,
}
use asterism_astools.Prelude.{Bool, true, false, Option, none, some, List, [], ◌∷◌, arith}
use asterism_astools.Prelude.{◌==◌, Bool-cases, bool_clash}
use asterism_astools.Prelude.{length, get_elem?, take, drop, All}
use asterism_astools.Prelude.{Bytes, peek}
use std.Path.{subst}
use asterism_astools.Prelude.{on_bool}
use asterism_astools.Regex.{Regex, Class, regex_search}
use asterism_astools.Regex.Tree.{Node, max_insts, compile_node}
use asterism_astools.Regex.Parser.{good, Parse, max_nodes}
use asterism_astools.Regex.Grammar.{
  ends_branch, pieces, parse_concat, branches, parse_alt, start_parse, parse_fuel, parse_pattern,
  regex_compile,
}
use asterism_astools.Regex.Language.{Relation, Matches}
use asterism_astools.Regex.Codes.{code_size, Compiled, compile_node-Compiled}
use asterism_astools.Regex.Compiled.{Answers, LeftmostLongest, compile_node-Answers}
use asterism_astools.Regex.Literal.{
  is_special, quote, literal, at, quote-head, and_then-eq, pieces-quote,
}

-- The text stands in the line from `p` to `q`.
abbrev pub StandsAt : Bytes → Bytes → Relation
StandsAt text line p q = (take (length text) (drop p line) ≡ text) × (q ≡ p + length text)

concat-pieces :
    (fuel : ℕ) (st : Parse)
    → ends_branch st.p ≡ false
    → parse_concat (suc fuel) false st ≡ pieces fuel false st
unfolding parse_concat
concat-pieces fuel st more =
    on_bool (λ r. r ≡ pieces fuel false st) (ends_branch st.p) _ _
      (λ ended. absurd (bool_clash (sym ended ∙ more))) (λ e. refl)

branches-end :
    (fuel : ℕ) (br : Node) (st : Parse)
    → st.p ≡ []
    → branches (suc fuel) false br st ≡ good (br, st)
unfolding branches
branches-end fuel br st e =
    on_bool (λ r. r ≡ good (br, st)) (peek st.p == b'|') _ _
      (λ bar. absurd (bool_clash (sym bar ∙ ap (λ p. peek p == b'|') e))) (λ other. refl)

alt-step :
    (fuel : ℕ) (br : Node) (st st1 : Parse)
    → parse_concat fuel false st ≡ good (br, st1)
    → branches fuel false br st1 ≡ good (br, st1)
    → parse_alt (suc fuel) false st ≡ good (br, st1)
unfolding parse_alt
alt-step fuel br st st1 e h = and_then-eq _ _ (br, st1) _ e h

five_more : (n : ℕ) → n + 5 ≡ suc (suc (suc (suc (suc n))))
five_more n = omega arith

alt-one :
    (fuel : ℕ) (br : Node) (st st1 : Parse)
    → parse_concat (suc fuel) false st ≡ good (br, st1)
    → st1.p ≡ []
    → parse_alt (suc (suc fuel)) false st ≡ good (br, st1)
alt-one fuel br st st1 e ended = alt-step (suc fuel) br st st1 e (branches-end fuel br st1 ended)

length-quote : (text : Bytes) → length text ≤ length (quote text)
unfolding quote
length-quote [] = omega arith
length-quote (c ∷ text) = elim (Bool-cases (is_special c)) [
  | inl e ↦ rw e (omega (arith, length-quote text))
  | inr e ↦ rw e (omega (arith, length-quote text))
]

parse-quote :
    (c : ℕ) (text : Bytes)
    → All (λ c. c ≢ 0) (c ∷ text)
    → 2 * length (c ∷ text) ≤ max_nodes
    → parse_pattern false (quote (c ∷ text)) ≡ good (literal (c ∷ text), [])
unfolding parse_pattern
parse-quote c text a k =
    let whole = quote (c ∷ text) in
    and_then-eq (parse_alt (parse_fuel whole) false (start_parse whole)) _
      (literal (c ∷ text), at [] (0 + 2 * length (c ∷ text)) 0 []) _
      (ap (λ fuel. parse_alt fuel false (start_parse whole)) (five_more (5 * length whole))
        ∙ alt-one _ _ _ _
            (concat-pieces _ (start_parse whole) (quote-head c text a.0).0
              ∙ pieces-quote (c ∷ text) (5 * length whole) 0 0 [] a
                  (omega (arith, length-quote (c ∷ text))) (omega arith))
            refl)
      refl

code_size-literal : (text : Bytes) → code_size (literal text) ≡ length text
unfolding code_size literal
code_size-literal [] = refl
code_size-literal (c ∷ text) = omega (arith, code_size-literal text)

-- The tree of a text matches where the text stands.
byte_here :
    (line : Bytes) (p n c : ℕ) (t : Bytes)
    → take (suc n) (drop p line) ≡ c ∷ t
    → (get_elem? line p ≡ some c) × (take n (drop (suc p) line) ≡ t)
byte_here [] zero n c t e = cc
byte_here [] (suc p) n c t e = cc
byte_here (x ∷ line) zero n c t e = (cc, cc)
byte_here (x ∷ line) (suc p) n c t e = byte_here line p n c t e

here_byte :
    (line : Bytes) (p n c : ℕ) (t : Bytes)
    → get_elem? line p ≡ some c
    → take n (drop (suc p) line) ≡ t
    → take (suc n) (drop p line) ≡ c ∷ t
here_byte [] p n c t e h = cc
here_byte (x ∷ line) zero n c t e h = cc
here_byte (x ∷ line) (suc p) n c t e h = here_byte line p n c t e h

Matches-StandsAt :
    (text line : Bytes) (p q : ℕ)
    → Matches false [] line (literal text) p q ↔ StandsAt text line p q
unfolding Matches literal
Matches-StandsAt [] line p q = (λ e. (refl, omega arith), λ (e, f). omega arith)
Matches-StandsAt (c ∷ text) line p q = (
  λ (k, (c2, g, same, next), m).
      let (t, e) = (Matches-StandsAt text line k q).0 m in
      (
        here_byte line p (length text) c text (g ∙ ap some same)
            (subst (λ x. take (length text) (drop x line) ≡ text) next t),
        omega arith,
      ),
  λ (t, e).
      let (g, rest) = byte_here line p (length text) c text t in
      (suc p, (c, g, refl, refl), (Matches-StandsAt text line (suc p) q).1 (rest, omega arith)),
)

Answers-iff :
    (M N : Relation) (len : ℕ) (o : Option (ℕ × ℕ))
    → ((p q : ℕ) → M p q ↔ N p q)
    → Answers M len o
    → Answers N len o
unfolding Answers LeftmostLongest
Answers-iff M N len o iff (found, missing) = (
  λ s e. (
    λ eq.
        let (h, m, best) = (found s e).0 eq in
        (h, (iff s e).0 m, λ s2 e2 h2 m2. best s2 e2 h2 ((iff s2 e2).1 m2)),
    λ (h, m, best).
        (found s e).1 (h, (iff s e).1 m, λ s2 e2 h2 m2. best s2 e2 h2 ((iff s2 e2).0 m2)),
  ),
  (
    λ eq s e h m. missing.0 eq s e h ((iff s e).1 m),
    λ never. missing.1 λ s e h m. never s e h ((iff s e).0 m),
  ),
)

fitting :
    (fold : Bool) (cls : List Class) (nd : Node) (o : Option Regex)
    → code_size nd < max_insts
    → Compiled fold cls nd o
    → (re : Regex) × (o ≡ some re)
unfolding Compiled
fitting fold cls nd none h c = absurd (omega arith)
fitting fold cls nd (some re) h c = (re, refl)

of_tree :
    (pattern : Bytes) (nd : Node) (re : Regex)
    → parse_pattern false pattern ≡ good (nd, [])
    → compile_node false [] nd ≡ some re
    → regex_compile (some pattern) true ≡ good re
unfolding regex_compile
of_tree pattern nd re parsed compiled =
    and_then-eq (parse_pattern false pattern) _ (nd, []) _ parsed (rw compiled refl)

-- A text without NUL, of 1 to 4095 bytes and with its special bytes escaped, is compiled with case, and the search then
-- finds the first place in the line where the text stands, or nothing if it stands nowhere.
pub regex_search-quote :
    (c : ℕ) (text line : Bytes)
    → All (λ c. c ≢ 0) (c ∷ text)
    → length (c ∷ text) < 4096
    → (re : Regex) × (regex_compile (some (quote (c ∷ text))) true ≡ good re)
      × Answers (StandsAt (c ∷ text) line) (length line) (regex_search re line)
regex_search-quote c text line a k =
    let nd = literal (c ∷ text) in
    let (re, compiled) =
      fitting false [] nd (compile_node false [] nd) (omega (arith, code_size-literal (c ∷ text)))
        (compile_node-Compiled false [] nd) in
    (
      re,
      of_tree (quote (c ∷ text)) nd re (parse-quote c text a (omega arith)) compiled,
      Answers-iff _ _ (length line) _ (Matches-StandsAt (c ∷ text) line)
          (compile_node-Answers false [] nd re line compiled),
    )
