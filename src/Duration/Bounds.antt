-- ===== src/Duration/Bounds.antt =====
-- How large the result of the parser of src/duration.c is.
use asterism_astools.Prelude.{
  bind_option_inv, ℕ, zero, suc, ◌+◌, ◌-◌, ◌*◌, ◌/◌, ◌≤◌, ◌<◌, ◌≡◌, inl, inr,
}
use asterism_astools.Prelude.{Bool, true, some, [], ◌∷◌, arith}
use asterism_astools.Prelude.{Option-cases}
use asterism_astools.Prelude.{length}
use asterism_astools.Prelude.{Bytes, peek, advance, is_digit}
use asterism_astools.Duration.{
  int64_max, number, add, fraction_loop, decimal_part, unit_of, time_field, time_loop, time_part,
  date_part, duration_parse_ms,
}
use asterism_astools.Duration.Decimal.{add_exact}

times_nine : (d scale : ℕ) → d ≤ 9 → d * scale ≤ 9 * scale
times_nine d scale h = grind arith

fraction_loop-le :
    (scale fraction : ℕ) (s : Bytes) {v : ℕ} {rest : Bytes}
    → fraction_loop scale fraction s ≡ some (v, rest)
    → v ≤ fraction + 10 * scale
unfolding fraction_loop
fraction_loop-le scale fraction [] e = ground arith
fraction_loop-le scale fraction (c ∷ s) {v} {rest} e =
    let ih =
      fraction_loop-le (scale / 10) (fraction + (c - b'0') * scale) s {v = v} {rest = rest} in
    let digit : is_digit c ≡ true → (c - b'0') * scale ≤ 9 * scale =
      λ h. times_nine (c - b'0') scale (ground arith) in
    ground (arith, ih, digit)

decimal_part-le :
    (s : Bytes) {b : Bool} {v : ℕ} {rest : Bytes} → decimal_part s ≡ some (b, v, rest) → v ≤ 1000
unfolding decimal_part
decimal_part-le s e = elim (Option-cases (fraction_loop 100 0 (advance s))) [
  | inl bad ↦ ground arith
  | inr ((f, after), good) ↦ ground (arith, fraction_loop-le 100 0 (advance s) good)
]

add-le :
    (total n unit fraction : ℕ) {v : ℕ}
    → 0 < unit
    → fraction ≤ int64_max
    → add total n unit fraction ≡ some v
    → v ≤ int64_max
add-le total n unit fraction pos small e = ground (arith, add_exact total n unit fraction pos small)

unit_of-pos :
    (suffix stage : ℕ) (decimal : Bool) {unit stage' : ℕ}
    → unit_of suffix stage decimal ≡ some (unit, stage')
    → 0 < unit
unfolding unit_of
unit_of-pos suffix stage decimal e = ground arith

time_field-le :
    (total stage : ℕ) (s : Bytes) {total' stage' : ℕ} {rest : Bytes}
    → time_field total stage s ≡ some (total', stage', rest)
    → total' ≤ int64_max
unfolding time_field
time_field-le total stage s e =
    let ((n, s1), e1, r1) = bind_option_inv (number s) _ e in
    let ((decimal, fraction, s2), e2, r2) = bind_option_inv (decimal_part s1) _ r1 in
    let ((unit, stage''), e3, r3) = bind_option_inv (unit_of (peek s2) stage decimal) _ r2 in
    let (t, e4, r4) = bind_option_inv (add total n unit fraction) _ r3 in
    let bound : t ≤ int64_max =
      add-le total n unit fraction (unit_of-pos (peek s2) stage decimal e3)
        (omega (arith, decimal_part-le s1 e2)) e4 in
    ground arith

time_loop-le :
    (fuel total stage : ℕ) (s : Bytes) {v : ℕ}
    → total ≤ int64_max
    → time_loop fuel total stage s ≡ some v
    → v ≤ int64_max
unfolding time_loop
time_loop-le fuel total stage [] h e = ground arith
time_loop-le zero total stage (c ∷ s) h e = cc
time_loop-le (suc fuel) total stage (c ∷ s) h e =
    elim (Option-cases (time_field total stage (c ∷ s))) [
      | inl bad ↦ ground arith
      | inr ((total', stage', rest), good) ↦
          time_loop-le fuel total' stage' rest (time_field-le total stage (c ∷ s) good)
            (rw (good, time_loop) at e)
    ]

time_part-le :
    (total : ℕ) (s : Bytes) {v : ℕ} → total ≤ int64_max → time_part total s ≡ some v → v ≤ int64_max
unfolding time_part
time_part-le total s {v} h e =
    ground (arith, time_loop-le (length (advance s)) total 0 (advance s) {v = v})

date_part-le : (s : Bytes) {v : ℕ} → date_part s ≡ some v → v ≤ int64_max
unfolding date_part
date_part-le s {v} e =
    let ((n, s1), e1, r1) = bind_option_inv (number s) _ e in
    elim (Option-cases (add 0 n 86400000 0)) [
      | inl bad ↦ ground (arith, add-le 0 n 604800000 0 {v = v})
      | inr (total, good) ↦ ground (
        arith,
        add-le 0 n 604800000 0 {v = v},
        add-le 0 n 86400000 0 (omega arith) (omega arith) good,
        time_part-le total (advance s1) {v = v},
      )
    ]

-- The value of a duration that is accepted is at most `INT64_MAX`.
pub duration_parse_ms-le : (s : Bytes) (v : ℕ) → duration_parse_ms s ≡ some v → v ≤ int64_max
unfolding duration_parse_ms
duration_parse_ms-le s v e =
    ground (arith, date_part-le (advance s) {v = v}, time_part-le 0 (advance s) {v = v})
