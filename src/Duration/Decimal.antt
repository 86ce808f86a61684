-- ===== src/Duration/Decimal.antt =====
-- The guards against overflow in `number` and `add`.
use asterism_astools.Prelude.{ℕ, ◌+◌, ◌-◌, ◌*◌, ◌≤◌, ◌<◌, ◌≡◌, refl, ◌≢◌}
use asterism_astools.Prelude.{Bool, true, false, ◌&&◌, none, some, [], ◌∷◌, ◌++◌, arith}
use asterism_astools.Prelude.{leb, if◌then◌else◌}
use asterism_astools.Prelude.{length, All}
use asterism_astools.Prelude.{Bytes, peek, is_digit}
use native.Mathlib.Nat.{div-lt_iff_lt-mul}
use asterism_astools.Duration.{int64_max, number_loop, number, add}

abbrev pub AreDigits : Bytes → Type 0
AreDigits = All (λ c. is_digit c ≡ true)

-- The decimal value of the digits, read behind the digits of `n`.
abbrev pub value_from : ℕ → Bytes → ℕ
value_from n [] = n
value_from n (c ∷ ds) = value_from (n * 10 + (c - b'0')) ds

abbrev pub decimal : Bytes → ℕ
decimal ds = value_from 0 ds

pub le-value_from : (n : ℕ) (ds : Bytes) → n ≤ value_from n ds
le-value_from n [] = omega arith
le-value_from n (c ∷ ds) = omega (arith, le-value_from (n * 10 + (c - b'0')) ds)

abbrev fits : ℕ → Bool
fits v = leb v int64_max

number_loop_exact :
    (ds rest : Bytes) (k n : ℕ)
    → AreDigits ds
    → is_digit (peek rest) ≡ false
    → n ≤ int64_max
    → k ≤ 19
    → number_loop k n (ds ++ rest) ≡ (
        if leb (k + length ds) 19 && fits (value_from n ds)
        then some (value_from n ds, rest)
        else none)
unfolding number_loop
number_loop_exact [] [] k n h hr small hk = ground arith
number_loop_exact [] (c ∷ rest) k n h hr small hk = ground arith
number_loop_exact (c ∷ ds) rest k n (h, hs) hr small hk = ground (
  arith,
  le-value_from (n * 10 + (c - b'0')) ds,
  number_loop_exact ds rest (k + 1) (n * 10 + (c - b'0')),
)

-- On digits, one at least, before the end or a byte that is no digit: `number` gives their value and
-- what follows them when there are at most 19 of them and the value fits an `int64_t`, and fails
-- otherwise.
pub number_exact :
    (ds rest : Bytes)
    → AreDigits ds
    → ds ≢ []
    → is_digit (peek rest) ≡ false
    → number (ds ++ rest)
      ≡ (if leb (length ds) 19 && fits (decimal ds) then some (decimal ds, rest) else none)
unfolding number
number_exact [] rest h ne hr = absurd (ne refl)
number_exact (c ∷ ds) rest (h, hs) ne hr =
    rw h (ground (arith, number_loop_exact (c ∷ ds) rest 0 0 (h, hs) hr))

-- For a positive unit and a fraction that fits an `int64_t`: `add` gives `total + n * unit + fraction`
-- when that fits, and fails otherwise.
pub add_exact :
    (total n unit fraction : ℕ)
    → 0 < unit
    → fraction ≤ int64_max
    → add total n unit fraction
      ≡ (if fits (total + n * unit + fraction) then some (total + n * unit + fraction) else none)
unfolding add
add_exact total n unit fraction pos small =
    let quotient = div-lt_iff_lt-mul {k = unit} {x = int64_max - total - fraction} {y = n} pos in
    ground (arith, quotient.0, quotient.1)
