-- ===== src/Policy/Access.antt =====
-- The test of one path argument against a list of prefixes, and the access bits in it.
use asterism_astools.Prelude.{ℕ, ◌+◌, ◌-◌, ◌*◌, ◌/◌, ◌%◌, ◌^◌, ◌<◌, ◌≡◌, refl}
use asterism_astools.Prelude.{Bool, true, false, ◌&&◌, ◌||◌, List, [], ◌∷◌, arith}
use asterism_astools.Prelude.{ltb, ◌==◌, ltb→lt, agree_below, agree_below→eq}
use asterism_astools.Prelude.{Bytes}
use Prim.Native.Nat.{bit_and}
use asterism_astools.Path.{path_under}
use asterism_astools.Policy.{Entry}

-- `(need & ~have) == 0` on 32-bit ints
abbrev pub allows : ℕ → ℕ → Bool
allows have need = bit_and need (2 ^ 32 - 1 - have) == 0

unfoldable pub hit : Entry → Bytes → ℕ → Bool
hit e path need = allows e.access need && path_under path e.path

-- The loop that sets `covered` in `walk_type`.
unfoldable pub covered : List Entry → Bytes → ℕ → Bool
unfolding hit
covered [] path need = false
covered (e ∷ es) path need = hit e path need || covered es path need

-- A request or a grant names some access, of the two bits.
abbrev pub IsAccess : ℕ → Type 0
IsAccess a = a < 4

allows-bit_and_table :
    (i : ℕ)
    → i < 64
    → allows (bit_and (i / 4 % 4) (i % 4)) (i / 16)
      ≡ (allows (i / 4 % 4) (i / 16) && allows (i % 4) (i / 16))
unfolding agree_below
allows-bit_and_table = agree_below→eq _ _ 64 refl

-- The access of both grants what each of them grants.
pub allows-bit_and :
    (a b need : ℕ)
    → IsAccess a
    → IsAccess b
    → IsAccess need
    → allows (bit_and a b) need ≡ (allows a need && allows b need)
allows-bit_and a b need ha hb hn =
    let i : ℕ = need * 16 + a * 4 + b in
    let first : i / 4 % 4 ≡ a = omega arith in
    let second : i % 4 ≡ b = omega arith in
    let third : i / 16 ≡ need = omega arith in
    rw (first, second, third) at (allows-bit_and_table i (omega arith))

allows_zero_table : (i : ℕ) → i < 4 → allows 0 i ≡ (i == 0)
unfolding agree_below
allows_zero_table = agree_below→eq _ _ 4 refl

pub allows_zero : (need : ℕ) → IsAccess need → 0 < need → allows 0 need ≡ false
allows_zero need h pos = ground (arith, allows_zero_table need h)

bit_and_access_table : (i : ℕ) → i < 16 → ltb (bit_and (i / 4) (i % 4)) 4 ≡ true
unfolding agree_below
bit_and_access_table = agree_below→eq _ (λ _. true) 16 refl

pub bit_and-IsAccess : (a b : ℕ) → IsAccess a → IsAccess b → IsAccess (bit_and a b)
bit_and-IsAccess a b ha hb =
    let i : ℕ = a * 4 + b in
    let first : i / 4 ≡ a = omega arith in
    let second : i % 4 ≡ b = omega arith in
    ltb→lt _ _ (rw (first, second) at (bit_and_access_table i (omega arith)))
