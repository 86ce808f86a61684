-- ===== src/Prelude/Branches.antt =====
-- A property of what a test, an optional value or a result leads to, from the property of each branch.
use std.Path.{subst}
use mathlib.Core.Path.{◌≡◌, refl}
use mathlib.Core.Bool.{Bool, true, false}
use mathlib.Core.Option.{Option, none, some}
use asterism_astools.Prelude.Tests.{if◌then◌else◌, bind_option}
use asterism_astools.Prelude.Errors.{Result, ok, err, Err, ◌>>=◌}

module _ {ℓ κ} {R : Type κ} (P : R → Type ℓ) where
  pub on_bool :
      (b : Bool) (x y : R)
      → (b ≡ true → P x)
      → (b ≡ false → P y)
      → P (elim b [ true ↦ x | false ↦ y ])
  on_bool true x y f g = f refl
  on_bool false x y f g = g refl

  pub on_if : (b : Bool) (x y : R) → (b ≡ true → P x) → (b ≡ false → P y) → P (if b then x else y)
  on_if true x y f g = f refl
  on_if false x y f g = g refl

  pub on_option {ι} :
      {A : Type ι} (o : Option A) (z : R) (f : A → R)
      → P z
      → ((a : A) → o ≡ some a → P (f a))
      → P (elim o [ none ↦ z | some a ↦ f a ])
  on_option none z f p q = p
  on_option (some a) z f p q = q a refl

-- Of the value of a result, where there is one.
unfoldable pub OnOk {ℓ κ} : {A : Type κ} → (A → Type ℓ) → Result A → Type ℓ
OnOk P (err code) = Unit
OnOk P (ok a) = P a

pub on_err {ℓ κ} : {A : Type κ} (P : A → Type ℓ) (code : Err) → OnOk P (err code)
unfolding OnOk
on_err P code = tt

pub on_ok {ℓ κ} : {A : Type κ} (P : A → Type ℓ) (a : A) → P a → OnOk P (ok a)
unfolding OnOk
on_ok P a h = h

pub of_ok {ℓ κ} : {A : Type κ} (P : A → Type ℓ) (r : Result A) {a : A} → r ≡ ok a → OnOk P r → P a
unfolding OnOk
of_ok P r e h = subst (OnOk P) e h

pub on_bind {ι ℓ κ} :
    {A : Type κ} {B : Type ι} (P : B → Type ℓ) (r : Result A) (f : A → Result B)
    → ((a : A) → r ≡ ok a → OnOk P (f a))
    → OnOk P (r >>= f)
on_bind P (err code) f h = on_err P code
on_bind P (ok a) f h = h a refl

pub on_bind_option {ι ℓ κ} :
    {A : Type κ} {B : Type ι} (P : Option B → Type ℓ) (o : Option A) (f : A → Option B)
    → P none
    → ((a : A) → o ≡ some a → P (f a))
    → P (bind_option o f)
on_bind_option P none f p q = p
on_bind_option P (some a) f p q = q a refl
