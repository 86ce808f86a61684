-- ===== src/Regex/Inside.antt =====
-- The instructions that stay inside a part of a program of std/regex.c.
use asterism_astools.Prelude.{ℕ, ◌≤◌, ◌<◌, ◌≡◌, refl, ◌⊎◌}
use asterism_astools.Prelude.{false, Option, none, some, List, arith}
use asterism_astools.Prelude.{get_elem?}
use asterism_astools.Regex.{
  Inst, ri_char, ri_class, ri_any, ri_bol, ri_eol, ri_split, ri_jmp, ri_match, is_match,
}
use asterism_astools.Regex.Emitted.{Shape}

-- An instruction of code from `i` to `j`, with classes that have a property.
unfoldable pub InstInside : (ℕ → Type 0) → ℕ → ℕ → Option Inst → Type 0
InstInside k i j none = ⊥
InstInside k i j (some (ri_class c)) = k c
InstInside k i j (some (ri_split x y)) = ((i ≤ x) × (x ≤ j)) × ((i ≤ y) × (y ≤ j))
InstInside k i j (some (ri_jmp x)) = (i ≤ x) × (x ≤ j)
InstInside k i j (some ri_match) = ⊥
InstInside k i j (some _) = Unit

pub inside-wider :
    (k : ℕ → Type 0) (i j i2 j2 : ℕ) (o : Option Inst)
    → i2 ≤ i
    → j ≤ j2
    → InstInside k i j o
    → InstInside k i2 j2 o
unfolding InstInside
inside-wider k i j i2 j2 none h l u = u
inside-wider k i j i2 j2 (some (ri_char ch)) h l u = u
inside-wider k i j i2 j2 (some (ri_class c)) h l u = u
inside-wider k i j i2 j2 (some ri_any) h l u = u
inside-wider k i j i2 j2 (some ri_bol) h l u = u
inside-wider k i j i2 j2 (some ri_eol) h l u = u
inside-wider k i j i2 j2 (some (ri_split x y)) h l u = omega arith
inside-wider k i j i2 j2 (some (ri_jmp x)) h l u = omega arith
inside-wider k i j i2 j2 (some ri_match) h l u = u

pub inside-is_match :
    (k : ℕ → Type 0) (i j : ℕ) (o : Option Inst) → InstInside k i j o → is_match o ≡ false
unfolding InstInside is_match
inside-is_match k i j none u = absurd u
inside-is_match k i j (some (ri_char ch)) u = refl
inside-is_match k i j (some (ri_class c)) u = refl
inside-is_match k i j (some ri_any) u = refl
inside-is_match k i j (some ri_bol) u = refl
inside-is_match k i j (some ri_eol) u = refl
inside-is_match k i j (some (ri_split x y)) u = refl
inside-is_match k i j (some (ri_jmp x)) u = refl
inside-is_match k i j (some ri_match) u = absurd u

abbrev pub Inside : (ℕ → Type 0) → Shape → Type 0
Inside k C =
    (p : List Inst) (i j : ℕ) → C p i j → (x : ℕ) → i ≤ x → x < j → InstInside k i j (get_elem? p x)

pub lt_or_le : (a b : ℕ) → (a < b) ⊎ (b ≤ a)
lt_or_le a b = omega arith

pub eq_or_lt : (a b : ℕ) → a ≤ b → (b ≡ a) ⊎ (a < b)
eq_or_lt a b h = omega arith
