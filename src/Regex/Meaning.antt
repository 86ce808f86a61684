-- ===== src/Regex/Meaning.antt =====
-- The code of a tree of std/regex.c against what the tree matches.
use asterism_astools.Prelude.{ℕ, suc, ◌≡◌, refl, sym, ap, ◌∙◌, ◌↔◌, inl, inr}
use asterism_astools.Prelude.{Bool, true, false, Option, none, some, [], ◌∷◌}
use asterism_astools.Prelude.{◌==◌, if◌then◌else◌, ==_iff, some_inj, bool_clash}
use asterism_astools.Prelude.{length, get_elem?}
use asterism_astools.Prelude.{Bytes}
use std.Path.{subst}
use asterism_astools.Regex.{
  Inst, ri_char, ri_class, ri_any, ri_bol, ri_eol, Regex, Class, fold_ch, pushes, takes,
}
use asterism_astools.Regex.Runs.{Occurs}
use asterism_astools.Regex.Emitted.{One}
use asterism_astools.Regex.Codes.{Code, Code-Local}
use asterism_astools.Regex.Tree.{
  Node, null, rn_empty, rn_char, rn_class, rn_any, rn_bol, rn_eol, rn_cat, rn_alt, rn_rep,
}
use asterism_astools.Regex.Language.{Byte, InClass, Matches}
use asterism_astools.Regex.Means.{Moves, Means, Nil-Means, One-Means, Then-Means}
use asterism_astools.Regex.RepeatMeans.{Either-Means, Repeat-Means}

class_test :
    (o : Option Class) (c : ℕ)
    → (elim o [ none ↦ false | some has ↦ has c ] ≡ true)
      ↔ ((has : Class) × (o ≡ some has) × (has c ≡ true))
class_test none c = (λ e. cc, λ (has, e, h). cc)
class_test (some has) c = (λ e. (has, refl, e), λ (has2, e, h). ap (λ f. f c) (some_inj e) ∙ h)

in_if : (b : Bool) (x : ℕ) → b ≡ true → Occurs x (if b then x ∷ [] else [])
in_if true x e = inl refl
in_if false x e = cc

from_if : (b : Bool) (x y : ℕ) → Occurs y (if b then x ∷ [] else []) → (b ≡ true) × (y ≡ x)
from_if true x y (inl e) = (refl, e)
from_if true x y (inr n) = absurd n
from_if false x y n = absurd n

module _ (re : Regex) (line : Bytes) where
  byte_step :
      (inst : Inst) (P : ℕ → Type 0)
      → ((c : ℕ) → (takes re (length line) (some inst) c ≡ true) ↔ P c)
      → ((pc pos : ℕ) → pushes (some inst) pc pos (length line) ≡ [])
      → (i p pc1 p1 : ℕ) → Moves re line (some inst) i p pc1 p1
      → Byte re.fold re.cls line P p p1 × (pc1 ≡ suc i)
  byte_step inst P iff empty i p pc1 p1 (inl (o, e)) = absurd (subst (Occurs pc1) (empty i p) o)
  byte_step inst P iff empty i p pc1 p1 (inr (c, g, t, e, f)) = ((c, g, (iff c).0 t, f), e)

  -- An instruction that takes a byte.
  byte-Means :
      (inst : Inst) (P : ℕ → Type 0)
      → ((c : ℕ) → (takes re (length line) (some inst) c ≡ true) ↔ P c)
      → ((pc pos : ℕ) → pushes (some inst) pc pos (length line) ≡ [])
      → Means re line (One inst) (Byte re.fold re.cls line P)
  byte-Means inst P iff empty =
      One-Means re line inst _ (λ i p p2 (c, g, h, e). inr (c, g, (iff c).1 h, refl, e))
        (λ i p pc1 p1 move. byte_step inst P iff empty i p pc1 p1 move)

  char_iff :
      (ch c : ℕ) → (takes re (length line) (some (ri_char ch)) c ≡ true) ↔ (fold_ch re.fold c ≡ ch)
  unfolding takes
  char_iff ch c = ==_iff (fold_ch re.fold c) ch

  class_iff :
      (k c : ℕ)
      → (takes re (length line) (some (ri_class k)) c ≡ true) ↔ InClass re.fold re.cls line k c
  unfolding takes
  class_iff k c = class_test (get_elem? re.cls k) c

  any_iff : (c : ℕ) → (takes re (length line) (some ri_any) c ≡ true) ↔ Unit {0}
  unfolding takes
  any_iff c = (λ e. tt, λ t. refl)

  -- An instruction that only looks at the position.
  width_step :
      (inst : Inst) (test : ℕ → Bool) (P : ℕ → Type 0)
      → ((p : ℕ) → (test p ≡ true) ↔ P p)
      → ((pc p : ℕ) → pushes (some inst) pc p (length line) ≡ (if test p then suc pc ∷ [] else []))
      → ((c : ℕ) → takes re (length line) (some inst) c ≡ false)
      → (i p pc1 p1 : ℕ) → Moves re line (some inst) i p pc1 p1
      → (P p × (p ≡ p1)) × (pc1 ≡ suc i)
  width_step inst test P iff eq none_taken i p pc1 p1 (inl (o, e)) =
      let (holds, next) = from_if (test p) (suc i) pc1 (subst (Occurs pc1) (eq i p) o) in
      (((iff p).0 holds, sym e), next)
  width_step inst test P iff eq none_taken i p pc1 p1 (inr (c, g, t, e, f)) =
      absurd (bool_clash (sym t ∙ none_taken c))

  width-Means :
      (inst : Inst) (test : ℕ → Bool) (P : ℕ → Type 0)
      → ((p : ℕ) → (test p ≡ true) ↔ P p)
      → ((pc p : ℕ) → pushes (some inst) pc p (length line) ≡ (if test p then suc pc ∷ [] else []))
      → ((c : ℕ) → takes re (length line) (some inst) c ≡ false)
      → Means re line (One inst) (λ p q. P p × (p ≡ q))
  width-Means inst test P iff eq none_taken =
      One-Means re line inst _
        (λ i p p2 (h, e).
          inl (subst (Occurs (suc i)) (sym (eq i p)) (in_if (test p) (suc i) ((iff p).1 h)), sym e))
        (λ i p pc1 p1 move. width_step inst test P iff eq none_taken i p pc1 p1 move)

  bol-Means : Means re line (One ri_bol) (λ p q. (p ≡ 0) × (p ≡ q))
  unfolding pushes takes
  bol-Means = width-Means ri_bol (λ p. p == 0) _ (λ p. ==_iff p 0) (λ pc p. refl) (λ c. refl)

  eol-Means : Means re line (One ri_eol) (λ p q. (p ≡ length line) × (p ≡ q))
  unfolding pushes takes
  eol-Means =
      width-Means ri_eol (λ p. p == length line) _ (λ p. ==_iff p (length line)) (λ pc p. refl)
        (λ c. refl)

  pub Code-Means : (nd : Node) → Means re line (Code nd) (Matches re.fold re.cls line nd)
  unfolding Code Matches pushes
  Code-Means null = Nil-Means re line
  Code-Means rn_empty = Nil-Means re line
  Code-Means (rn_char ch) = byte-Means (ri_char ch) _ (char_iff ch) (λ pc pos. refl)
  Code-Means (rn_class k) = byte-Means (ri_class k) _ (class_iff k) (λ pc pos. refl)
  Code-Means rn_any = byte-Means ri_any _ any_iff (λ pc pos. refl)
  Code-Means rn_bol = bol-Means
  Code-Means rn_eol = eol-Means
  Code-Means (rn_cat a b) =
      Then-Means re line (Code a) (Code b) _ _ (Code-Local a) (Code-Local b) (Code-Means a)
        (Code-Means b)
  Code-Means (rn_alt a b) =
      Either-Means re line (Code a) (Code b) _ _ (Code-Local a) (Code-Local b) (Code-Means a)
        (Code-Means b)
  Code-Means (rn_rep a m n) = Repeat-Means re line (Code a) _ m n (Code-Local a) (Code-Means a)
