-- ===== src/Duration/Fuel.antt =====
-- The rounds of the loop over the time part of a duration.
use asterism_astools.Prelude.{
  bind_option_inv, ℕ, zero, suc, ◌+◌, ◌-◌, ◌*◌, ◌/◌, ◌≤◌, ◌<◌, ◌≡◌, refl, inl, inr,
}
use asterism_astools.Prelude.{Bool, some, [], ◌∷◌, arith}
use asterism_astools.Prelude.{Option-cases}
use asterism_astools.Prelude.{length}
use asterism_astools.Prelude.{Bytes, peek, advance}
use asterism_astools.Duration.{
  number_loop, number, add, fraction_loop, decimal_part, unit_of, time_field, time_loop,
}

number_loop_shorter :
    (k n : ℕ) (s : Bytes) {v : ℕ} {rest : Bytes}
    → number_loop k n s ≡ some (v, rest)
    → length rest ≤ length s
unfolding number_loop
number_loop_shorter k n [] e = ground arith
number_loop_shorter k n (c ∷ s) {v} {rest} e =
    ground (arith, number_loop_shorter (k + 1) (n * 10 + (c - b'0')) s {v = v} {rest = rest})

number_shorter :
    (s : Bytes) {v : ℕ} {rest : Bytes} → number s ≡ some (v, rest) → length rest ≤ length s
unfolding number
number_shorter s {v} {rest} e = ground (arith, number_loop_shorter 0 0 s {v = v} {rest = rest})

fraction_loop_shorter :
    (scale f : ℕ) (s : Bytes) {v : ℕ} {rest : Bytes}
    → fraction_loop scale f s ≡ some (v, rest)
    → length rest ≤ length s
unfolding fraction_loop
fraction_loop_shorter scale f [] e = ground arith
fraction_loop_shorter scale f (c ∷ s) {v} {rest} e =
    ground
      (arith, fraction_loop_shorter (scale / 10) (f + (c - b'0') * scale) s {v = v} {rest = rest})

length-advance : (s : Bytes) → length (advance s) ≤ length s
length-advance [] = omega arith
length-advance (c ∷ s) = omega arith

decimal_part_shorter :
    (s : Bytes) {b : Bool} {v : ℕ} {rest : Bytes}
    → decimal_part s ≡ some (b, v, rest)
    → length rest ≤ length s
unfolding decimal_part
decimal_part_shorter s e = elim (Option-cases (fraction_loop 100 0 (advance s))) [
  | inl bad ↦ ground arith
  | inr ((f, after), good) ↦
      ground (arith, fraction_loop_shorter 100 0 (advance s) good, length-advance s)
]

unit_of_present :
    (s : Bytes) (stage : ℕ) (decimal : Bool) {unit stage' : ℕ}
    → unit_of (peek s) stage decimal ≡ some (unit, stage')
    → length (advance s) < length s
unfolding unit_of
unit_of_present [] stage decimal e = ground arith
unit_of_present (c ∷ s) stage decimal e = omega arith

time_field_shorter :
    (total stage : ℕ) (s : Bytes) {total' stage' : ℕ} {rest : Bytes}
    → time_field total stage s ≡ some (total', stage', rest)
    → length rest < length s
unfolding time_field
time_field_shorter total stage s {rest = rest} e =
    let ((n, s1), e1, r1) = bind_option_inv (number s) _ e in
    let ((decimal, fraction, s2), e2, r2) = bind_option_inv (decimal_part s1) _ r1 in
    let ((unit, stage''), e3, r3) = bind_option_inv (unit_of (peek s2) stage decimal) _ r2 in
    let (t, e4, r4) = bind_option_inv (add total n unit fraction) _ r3 in
    let last : advance s2 ≡ rest = ground arith in
    rw (← last) (
      omega (
        arith,
        number_shorter s e1,
        decimal_part_shorter s1 e2,
        unit_of_present s2 stage decimal e3,
      ))

-- The loop over the time part never stops for want of rounds: from the length of the text on, more
-- rounds give the same answer.
pub time_loop_fuel :
    (fuel more total stage : ℕ) (s : Bytes)
    → length s ≤ fuel
    → length s ≤ more
    → time_loop fuel total stage s ≡ time_loop more total stage s
unfolding time_loop
time_loop_fuel zero zero total stage s h k = refl
time_loop_fuel zero (suc more) total stage [] h k = refl
time_loop_fuel zero (suc more) total stage (c ∷ s) h k = absurd (omega arith)
time_loop_fuel (suc fuel) zero total stage [] h k = refl
time_loop_fuel (suc fuel) zero total stage (c ∷ s) h k = absurd (omega arith)
time_loop_fuel (suc fuel) (suc more) total stage [] h k = refl
time_loop_fuel (suc fuel) (suc more) total stage (c ∷ s) h k =
    elim (Option-cases (time_field total stage (c ∷ s))) [
      | inl bad ↦ rw (bad, time_loop)
      | inr ((total', stage', rest), good) ↦
          rw (good, time_loop)
            (time_loop_fuel fuel more total' stage' rest
              (omega (arith, time_field_shorter total stage (c ∷ s) good))
              (omega (arith, time_field_shorter total stage (c ∷ s) good)))
    ]
