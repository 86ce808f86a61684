-- ===== src/Regex/Language.antt =====
-- What a pattern of std/regex.c means: the stretches of a line that its tree matches.
use asterism_astools.Prelude.{ℕ, zero, suc, ◌+◌, ◌-◌, ◌≤◌, ◌≡◌, ◌⊎◌}
use asterism_astools.Prelude.{Bool, true, Option, none, some, List}
use asterism_astools.Prelude.{length, get_elem?}
use asterism_astools.Prelude.{Bytes}
use asterism_astools.Regex.{Class, fold_ch}
use asterism_astools.Regex.Tree.{
  Node, null, rn_empty, rn_char, rn_class, rn_any, rn_bol, rn_eol, rn_cat, rn_alt, rn_rep,
}

-- Relations between two positions of a line.
abbrev pub Relation : Type 1
Relation = ℕ → ℕ → Type 0

abbrev pub Seq : Relation → Relation → Relation
Seq R S p q = (k : ℕ) × R p k × S k q

-- `R`, so many times.
abbrev pub Power : ℕ → Relation → Relation
Power zero R p q = p ≡ q
Power (suc n) R p q = Seq R (Power n R) p q

-- At least `m` and, where `n` is given, at most `n` times, but always `m` times.
abbrev pub IsCount : ℕ → Option ℕ → ℕ → Type 0
IsCount m none count = m ≤ count
IsCount m (some n) count = (m ≤ count) × (count ≤ m + (n - m))

module _ (fold : Bool) (cls : List Class) (line : Bytes) where
  -- A byte with a property.
  abbrev pub Byte : (ℕ → Type 0) → Relation
  Byte P p q = (c : ℕ) × (get_elem? line p ≡ some c) × P c × (q ≡ suc p)

  abbrev pub InClass : ℕ → ℕ → Type 0
  InClass k c = (has : Class) × (get_elem? cls k ≡ some has) × (has c ≡ true)

  -- The tree matches the bytes from one position up to another one.
  unfoldable pub Matches : Node → Relation
  Matches null p q = p ≡ q
  Matches rn_empty p q = p ≡ q
  Matches (rn_char ch) p q = Byte (λ c. fold_ch fold c ≡ ch) p q
  Matches (rn_class k) p q = Byte (InClass k) p q
  Matches rn_any p q = Byte (λ c. Unit) p q
  Matches rn_bol p q = (p ≡ 0) × (p ≡ q)
  Matches rn_eol p q = (p ≡ length line) × (p ≡ q)
  Matches (rn_cat a b) p q = Seq (Matches a) (Matches b) p q
  Matches (rn_alt a b) p q = Matches a p q ⊎ Matches b p q
  Matches (rn_rep a m n) p q = (count : ℕ) × IsCount m n count × Power count (Matches a) p q
