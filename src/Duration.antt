-- ===== src/Duration.antt =====
-- src/duration.c: ISO 8601 durations as milliseconds. An `int64_t` that is never negative is a
-- number; the tests that guard it against overflow are those of the source.
pub mod Decimal
pub mod Bounds
pub mod Fuel
use asterism_astools.Prelude.{
  bind_option, ℕ, zero, suc, ◌+◌, ◌-◌, ◌*◌, ◌/◌, ◌%◌, ◌^◌, ◌≤◌, ◌<◌, ◌≡◌, refl, sym, ap, ◌∙◌, ◌≢◌,
  ◌↔◌, ◌⊎◌, inl, inr,
}
use asterism_astools.Prelude.{
  Bool, true, false, not, ◌&&◌, ◌||◌, Option, none, some, List, [], ◌∷◌, ◌++◌, map, arith,
}
use asterism_astools.Prelude.{
  ltb, leb, ◌==◌, if◌then◌else◌, ltb→lt, lt→ltb, leb→le, ==_iff, tests, Bool-cases, some_inj,
  bool_clash, Option-cases, agree_below, agree_below→eq,
}
use asterism_astools.Prelude.{
  length, get_elem?, get_or, take, drop, replicate, length-append, take-append-drop,
  drop-append_length, All-drop, All-append, zero_or_suc, list_cases, length_pos, length-take,
  length-drop, All,
}
use asterism_astools.Prelude.{
  Bytes, AreBytes, str_eq, str_eq_iff, str_eq_refl, codes, peek, advance, within, is_digit, Result,
  ok, err, Err, Result-cases, bind-eq-ok, ◌>>=◌,
}

-- `INT64_MAX`
abbrev pub int64_max : ℕ
int64_max = 2 ^ 63 - 1

-- The loop of `number`, with the digits and the value read so far.
unfoldable pub number_loop : ℕ → ℕ → Bytes → Option (ℕ × Bytes)
number_loop digits n [] = some (n, [])
number_loop digits n (c ∷ s) =
    let d = c - b'0' in
    let more = number_loop (digits + 1) (n * 10 + d) s in
    if not (is_digit c)
    then some (n, c ∷ s)
    else if ltb 19 (digits + 1) || ltb ((int64_max - d) / 10) n
    then none
    else more

-- `number`: the value, and what follows the digits.
unfoldable pub number : Bytes → Option (ℕ × Bytes)
number s = if not (is_digit (peek s)) then none else number_loop 0 0 s

-- `add`: the new total.
unfoldable pub add : ℕ → ℕ → ℕ → ℕ → Option ℕ
add total n unit fraction =
    if ltb (int64_max - fraction) total || ltb ((int64_max - total - fraction) / unit) n
    then none
    else some (total + n * unit + fraction)

-- The digits behind the point: the fraction in milliseconds, with the scale of the next digit.
unfoldable pub fraction_loop : ℕ → ℕ → Bytes → Option (ℕ × Bytes)
fraction_loop scale fraction [] = some (fraction, [])
fraction_loop scale fraction (c ∷ s) =
    let more = fraction_loop (scale / 10) (fraction + (c - b'0') * scale) s in
    if not (is_digit c) then some (fraction, c ∷ s) else if scale == 0 then none else more

-- The optional decimal part: whether there is one, its value, and what follows.
unfoldable pub decimal_part : Bytes → Option (Bool × ℕ × Bytes)
decimal_part s =
    if not (peek s == b'.')
    then some (false, 0, s)
    else if not (is_digit (peek (advance s)))
    then none
    else elim (fraction_loop 100 0 (advance s)) [
      | none ↦ none
      | some (fraction, rest) ↦ some (true, fraction, rest)
    ]

-- The unit and the next stage of a suffix.
unfoldable pub unit_of : ℕ → ℕ → Bool → Option (ℕ × ℕ)
unit_of suffix stage decimal =
    if suffix == b'H' && ltb stage 1 && not decimal
    then some (3600000, 1)
    else if suffix == b'M' && ltb stage 2 && not decimal
    then some (60000, 2)
    else if suffix == b'S' && ltb stage 3
    then some (1000, 3)
    else none

-- One round of the loop over the time part: the total, the stage, and what is left.
unfoldable pub time_field : ℕ → ℕ → Bytes → Option (ℕ × ℕ × Bytes)
time_field total stage s = bind_option (number s) λ (n, s1).
    bind_option (decimal_part s1) λ (decimal, fraction, s2).
      bind_option (unit_of (peek s2) stage decimal) λ (unit, stage').
        bind_option (add total n unit fraction) λ total'. some (total', stage', advance s2)

-- The loop. Each round reads a byte at least.
unfoldable pub time_loop : ℕ → ℕ → ℕ → Bytes → Option ℕ
time_loop fuel total stage [] = some total
time_loop zero total stage (c ∷ s) = none
time_loop (suc fuel) total stage (c ∷ s) = elim (time_field total stage (c ∷ s)) [
  | none ↦ none
  | some (total', stage', rest) ↦ time_loop fuel total' stage' rest
]

-- From the `T` on.
unfoldable pub time_part : ℕ → Bytes → Option ℕ
time_part total s =
    if not (peek s == b'T')
    then none
    else if str_eq (advance s) []
    then none
    else time_loop (length (advance s)) total 0 (advance s)

-- The leading number with `W` or `D`.
unfoldable pub date_part : Bytes → Option ℕ
date_part s = bind_option (number s) λ (n, s1).
    if peek s1 == b'W'
    then (if not (str_eq (advance s1) []) then none else add 0 n 604800000 0)
    else if not (peek s1 == b'D')
    then none
    else (bind_option (add 0 n 86400000 0)
        λ total. if str_eq (advance s1) [] then some total else time_part total (advance s1))

-- `astools_duration_parse_ms`
unfoldable pub duration_parse_ms : Bytes → Option ℕ
duration_parse_ms s =
    if not (peek s == b'P')
    then none
    else if str_eq (advance s) []
    then none
    else if not (peek (advance s) == b'T')
    then date_part (advance s)
    else time_part 0 (advance s)
