-- ===== src/Json/Branches.antt =====
-- A property of what the parser of src/json.c goes on with, from the property of each branch.
use asterism_astools.Prelude.{ℕ, ◌≡◌, refl, Option, none, some, [], ◌∷◌, Bytes}
use asterism_astools.Json.Parser.{Next, more, last, wrong}

module _ {ℓ} {R : Type 0} (P : R → Type ℓ) where
  pub on_list :
      (s : Bytes) (z : R) (f : ℕ → Bytes → R)
      → P z
      → ((c : ℕ) (r : Bytes) → s ≡ c ∷ r → P (f c r))
      → P (elim s [ [] ↦ z | c ∷ r ↦ f c r ])
  on_list [] z f p q = p
  on_list (c ∷ r) z f p q = q c r refl

  pub on_next :
      (n : Next) (f g : Bytes → R) (z : R)
      → ((s : Bytes) → n ≡ more s → P (f s))
      → ((s : Bytes) → n ≡ last s → P (g s))
      → P z
      → P (elim n [ more s ↦ f s | last s ↦ g s | wrong ↦ z ])
  on_next (more s) f g z p q r = p s refl
  on_next (last s) f g z p q r = q s refl
  on_next wrong f g z p q r = r

-- The same with what is known in every branch.
module _ {R : Type 0} (P : R → Type 0) where
  pub on_each_list :
      (s : Bytes) (z : R) (f : ℕ → Bytes → R)
      → (s ≡ [] → P z)
      → ((c : ℕ) (r : Bytes) → s ≡ c ∷ r → P (f c r))
      → P (elim s [ [] ↦ z | c ∷ r ↦ f c r ])
  on_each_list [] z f p q = p refl
  on_each_list (c ∷ r) z f p q = q c r refl

  pub on_each_option :
      {A : Type 0} (o : Option A) (z : R) (f : A → R)
      → (o ≡ none → P z)
      → ((a : A) → o ≡ some a → P (f a))
      → P (elim o [ none ↦ z | some a ↦ f a ])
  on_each_option none z f p q = p refl
  on_each_option (some a) z f p q = q a refl

  pub on_each_next :
      (n : Next) (f g : Bytes → R) (z : R)
      → ((s : Bytes) → n ≡ more s → P (f s))
      → ((s : Bytes) → n ≡ last s → P (g s))
      → (n ≡ wrong → P z)
      → P (elim n [ more s ↦ f s | last s ↦ g s | wrong ↦ z ])
  on_each_next (more s) f g z p q r = p s refl
  on_each_next (last s) f g z p q r = q s refl
  on_each_next wrong f g z p q r = r refl
