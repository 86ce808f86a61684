-- ===== src/Time.antt =====
-- src/time.c: the civil calendar, and RFC 3339 in Time/Rfc3339.antt. The days and years of the
-- functions fit an `int64_t`, so that no operation overflows.
pub mod Calendar
pub mod Dates
pub mod Rfc3339
pub mod RoundTrip
use asterism_astools.Prelude.{
  ℕ, zero, suc, ◌+◌, ◌-◌, ◌*◌, ◌/◌, ◌%◌, ◌^◌, ◌≤◌, ◌<◌, ◌≡◌, refl, sym, ap, ◌∙◌, ◌≢◌, ◌↔◌, ◌⊎◌, inl,
  inr,
}
use asterism_astools.Prelude.{
  Bool, true, false, not, ◌&&◌, ◌||◌, Option, none, some, List, [], ◌∷◌, ◌++◌, map, arith,
}
use asterism_astools.Prelude.{
  ltb, leb, ◌==◌, if◌then◌else◌, ltb→lt, lt→ltb, leb→le, ==_iff, tests, Bool-cases, some_inj,
  bool_clash, Option-cases, agree_below, agree_below→eq,
}
use asterism_astools.Prelude.{
  length, get_elem?, get_or, take, drop, replicate, length-append, take-append-drop,
  drop-append_length, All-drop, All-append, zero_or_suc, list_cases, length_pos, length-take,
  length-drop, All,
}
use asterism_astools.Prelude.{
  Bytes, AreBytes, str_eq, str_eq_iff, str_eq_refl, codes, peek, advance, within, is_digit, Result,
  ok, err, Err, Result-cases, bind-eq-ok, ◌>>=◌,
}
use asterism_astools.Int.{ℤ, pos, negsuc, ◌+ℤ◌, ◌-ℤ◌, scale, quot, rem, nonneg, unsigned}

-- `era` in both functions: division that rounds down, and what it leaves.
unfoldable pub era_of : ℕ → ℤ → ℤ
era_of len z = quot (if nonneg z then z else z -ℤ pos (len - 1)) len

unfoldable pub in_era : ℕ → ℤ → ℕ
in_era len z = unsigned (z -ℤ scale len (era_of len z))

-- `y` less or plus one in the months up to February
abbrev pub early : ℕ → ℕ
early m = if leb m 2 then 1 else 0

-- The day of the era from the year of the era.
unfoldable pub day_of_era : ℕ → ℕ → ℕ → ℕ
day_of_era yoe m d =
    let doy = (153 * (if ltb 2 m then m - 3 else m + 9) + 2) / 5 + d - 1 in
    yoe * 365 + yoe / 4 - yoe / 100 + doy

unfoldable pub days_from_civil : ℤ → ℕ → ℕ → ℤ
days_from_civil y m d =
    let y1 = y -ℤ pos (early m) in
    scale 146097 (era_of 400 y1) +ℤ pos (day_of_era (in_era 400 y1) m d) -ℤ pos 719468

unfoldable pub year_of_era : ℕ → ℕ
year_of_era doe = (doe - doe / 1460 + doe / 36524 - doe / 146096) / 365

unfoldable pub day_of_year : ℕ → ℕ
day_of_year doe = let yoe = year_of_era doe in doe - (365 * yoe + yoe / 4 - yoe / 100)

unfoldable pub month_of : ℕ → ℕ
month_of doy = let mp = (5 * doy + 2) / 153 in if ltb mp 10 then mp + 3 else mp - 9

unfoldable pub day_of : ℕ → ℕ
day_of doy = let mp = (5 * doy + 2) / 153 in doy - (153 * mp + 2) / 5 + 1

pub data Civil : Type 0 where
  civil : (year : ℤ) (month day : ℕ) → Civil

unfoldable pub civil_from_days : ℤ → Civil
civil_from_days z =
    let z1 = z +ℤ pos 719468 in
    let doe = in_era 146097 z1 in
    let m = month_of (day_of_year doe) in
    civil (pos (year_of_era doe) +ℤ scale 400 (era_of 146097 z1) +ℤ pos (early m)) m
      (day_of (day_of_year doe))

-- `y % 4 == 0` and so on: the sign does not matter.
abbrev pub divides : ℕ → ℤ → Bool
divides k (pos n) = n % k == 0
divides k (negsuc n) = suc n % k == 0

unfoldable pub is_leap : ℤ → Bool
is_leap y = divides 4 y && not (divides 100 y) || divides 400 y

unfoldable pub days_in_month : ℤ → ℕ → ℕ
days_in_month y m =
    if m == 2 && is_leap y
    then 29
    else get_or (31 ∷ 28 ∷ 31 ∷ 30 ∷ 31 ∷ 30 ∷ 31 ∷ 31 ∷ 30 ∷ 31 ∷ 30 ∷ 31 ∷ []) (m - 1) 0
