-- ===== src/Regex/Runs.antt =====
-- The threads of std/regex.c as a relation: where a thread can be that starts at a position.
use asterism_astools.Prelude.{ℕ, zero, suc, ◌≤◌, ◌<◌, ◌≡◌, ◌⊎◌, inl, inr}
use asterism_astools.Prelude.{true, some, List, [], ◌∷◌, ◌++◌, arith}
use asterism_astools.Prelude.{length, get_elem?}
use asterism_astools.Prelude.{Bytes}
use asterism_astools.Regex.{Regex, pushes, takes, is_match}

module _ {A : Type 0} where
  abbrev pub Occurs : A → List A → Type 0
  Occurs x [] = ⊥
  Occurs x (y ∷ ys) = (x ≡ y) ⊎ Occurs x ys

  pub Occurs-append : (x : A) (xs ys : List A) → Occurs x (xs ++ ys) → Occurs x xs ⊎ Occurs x ys
  Occurs-append x [] ys h = inr h
  Occurs-append x (y ∷ xs) ys (inl e) = inl (inl e)
  Occurs-append x (y ∷ xs) ys (inr h) = elim (Occurs-append x xs ys h) [
    | inl k ↦ inl (inr k)
    | inr k ↦ inr k
  ]

  pub Occurs-left : (x : A) (xs ys : List A) → Occurs x xs → Occurs x (xs ++ ys)
  Occurs-left x [] ys h = absurd h
  Occurs-left x (y ∷ xs) ys (inl e) = inl e
  Occurs-left x (y ∷ xs) ys (inr h) = inr (Occurs-left x xs ys h)

  pub Occurs-right : (x : A) (xs ys : List A) → Occurs x ys → Occurs x (xs ++ ys)
  Occurs-right x [] ys h = h
  Occurs-right x (y ∷ xs) ys h = inr (Occurs-right x xs ys h)

module _ (re : Regex) (line : Bytes) where
  -- The states that are reached from a state without a byte.
  abbrev pub Eps : ℕ → ℕ → ℕ → Type 0
  Eps pos pc pc2 = Occurs pc2 (pushes (get_elem? re.prog pc) pc pos (length line))

  -- A thread that starts at `s` is in a state at a position.
  pub data Run (s : ℕ) : ℕ → ℕ → Type 0 where
    begin : s ≤ length line → Run s 0 s
    eps : {pc pc2 pos : ℕ} → Run s pc pos → Eps pos pc pc2 → Run s pc2 pos
    eat :
        {pc pos : ℕ} (c : ℕ)
        → Run s pc pos
        → get_elem? line pos ≡ some c
        → takes re (length line) (get_elem? re.prog pc) c ≡ true
        → Run s (suc pc) (suc pos)

  -- It matches from `s` to `e`.
  abbrev pub Accepts : ℕ → ℕ → Type 0
  Accepts s e = (pc : ℕ) × Run s pc e × (is_match (get_elem? re.prog pc) ≡ true)

pub get_elem?-lt :
    {A : Type 0} (xs : List A) (i : ℕ) (c : A) → get_elem? xs i ≡ some c → i < length xs
get_elem?-lt [] i c e = cc
get_elem?-lt (x ∷ xs) zero c e = omega arith
get_elem?-lt (x ∷ xs) (suc i) c e = omega (arith, get_elem?-lt xs i c e)

-- A thread is not before its start and not behind the line.
pub Run-bounds :
    (re : Regex) (line : Bytes) {s pc pos : ℕ}
    → Run re line s pc pos
    → (s ≤ pos) × (pos ≤ length line)
Run-bounds re line (begin h) = (omega arith, h)
Run-bounds re line (eps r h) = Run-bounds re line r
Run-bounds re line (eat {pos} c r e h) =
    (omega (arith, (Run-bounds re line r).0), omega (arith, get_elem?-lt line pos c e))
