-- ===== src/Time/Dates.antt =====
-- Dates of src/time.c: how long a month is, and the dates that days have.
use asterism_astools.Prelude.{
  ℕ, zero, suc, ◌+◌, ◌-◌, ◌*◌, ◌/◌, ◌%◌, ◌≤◌, ◌<◌, ◌≡◌, refl, ap, ◌⊎◌, inl, inr,
}
use asterism_astools.Prelude.{Bool, true, not, ◌&&◌, ◌||◌, [], ◌∷◌, arith}
use asterism_astools.Prelude.{ltb, ◌==◌, if◌then◌else◌}
use asterism_astools.Prelude.{get_or}
use asterism_astools.Int.{
  ℤ, pos, negsuc, pos_part, neg_part, ◌+ℤ◌, ◌-ℤ◌, scale, +ℤ_parts, -ℤ_parts, parts_eq,
}
use asterism_astools.Time.{
  early, day_of_era, days_from_civil, year_of_era, day_of_year, month_of, day_of, Civil, civil,
  civil_from_days, is_leap, days_in_month,
}
use asterism_astools.Time.Calendar.{
  Divided, split_146097, split_400, year_of_era-range, day_of_year-range, civil_parts, days_parts,
  scale_parts, days_from_civil-civil_from_days,
}

-- The rule of the leap years, on a number.
abbrev leap : ℕ → Bool
leap n = n % 4 == 0 && not (n % 100 == 0) || n % 400 == 0

is_leap-leap :
    (y e : ℤ) (n : ℕ)
    → pos_part y + 400 * neg_part e ≡ neg_part y + 400 * pos_part e + n
    → is_leap y ≡ leap n
unfolding is_leap
is_leap-leap (pos a) (pos b) n h = ground arith
is_leap-leap (pos a) (negsuc b) n h = ground arith
is_leap-leap (negsuc a) (pos b) n h = ground arith
is_leap-leap (negsuc a) (negsuc b) n h = ground arith

abbrev month_days : Bool → ℕ → ℕ
month_days l m =
    if m == 2
    then (if l then 29 else 28)
    else if m == 4 || m == 6 || m == 9 || m == 11
    then 30
    else 31

month_length :
    (l : Bool) (m : ℕ)
    → 1 ≤ m
    → m ≤ 12
    → (if m == 2 && l
        then 29
        else get_or (31 ∷ 28 ∷ 31 ∷ 30 ∷ 31 ∷ 30 ∷ 31 ∷ 31 ∷ 30 ∷ 31 ∷ 30 ∷ 31 ∷ []) (m - 1) 0)
      ≡ month_days l m
month_length l zero low high = absurd (omega arith)
month_length l (suc zero) low high = refl
month_length l (suc (suc zero)) low high = refl
month_length l (suc (suc (suc zero))) low high = refl
month_length l (suc (suc (suc (suc zero)))) low high = refl
month_length l (suc (suc (suc (suc (suc zero))))) low high = refl
month_length l (suc (suc (suc (suc (suc (suc zero)))))) low high = refl
month_length l (suc (suc (suc (suc (suc (suc (suc zero))))))) low high = refl
month_length l (suc (suc (suc (suc (suc (suc (suc (suc zero)))))))) low high = refl
month_length l (suc (suc (suc (suc (suc (suc (suc (suc (suc zero))))))))) low high = refl
month_length l (suc (suc (suc (suc (suc (suc (suc (suc (suc (suc zero)))))))))) low high = refl
month_length l (suc (suc (suc (suc (suc (suc (suc (suc (suc (suc (suc zero))))))))))) low high =
    refl
month_length l (suc (suc (suc (suc (suc (suc (suc (suc (suc (suc (suc (suc zero)))))))))))) low
      high =
    refl
month_length l (suc (suc (suc (suc (suc (suc (suc (suc (suc (suc (suc (suc (suc m))))))))))))) low
      high =
    absurd (omega arith)

-- The last day of February comes in leap years only.
day_in_month :
    (r : ℕ)
    → r < 146097
    → (let m = month_of (day_of_year r) in
        day_of (day_of_year r) ≤ month_days (leap (year_of_era r + early m)) m)
unfolding month_of day_of day_of_year year_of_era
day_in_month r small =
    let (low, start) = year_of_era-range r small in
    let long : (day_of_year r ≤ 364) ⊎ ((day_of_year r ≡ 365) × (leap (year_of_era r + 1) ≡ true)) =
      ground arith in
    ground arith

module _ (yoe m d : ℕ) (small : yoe < 400) (first : 1 ≤ m) (final : m ≤ 12) (one : 1 ≤ d)
    (inside : d ≤ month_days (leap (yoe + early m)) m) where
  -- The day of the year that starts in March.
  abbrev doy : ℕ
  doy = (153 * (if ltb 2 m then m - 3 else m + 9) + 2) / 5 + d - 1

  doy-range : (doy ≤ 364) ⊎ ((doy ≡ 365) × (leap (yoe + 1) ≡ true))
  doy-range = ground arith

  doy-month : (month_of doy ≡ m) × (day_of doy ≡ d)
  unfolding month_of day_of day_of_year year_of_era
  doy-month = (ground arith, ground arith)

  day_of_era-range : day_of_era yoe m d < 146097
  unfolding day_of_era
  day_of_era-range = elim doy-range [ inl short ↦ omega arith | inr (long, l) ↦ ground (arith) ]

  year_of_era-day_of_era : year_of_era (day_of_era yoe m d) ≡ yoe
  unfolding day_of_era year_of_era
  year_of_era-day_of_era = elim doy-range [ inl short ↦ omega arith | inr (long, l) ↦ ground arith ]

  day_of_year-day_of_era : day_of_year (day_of_era yoe m d) ≡ doy
  unfolding day_of_era day_of_year
  day_of_year-day_of_era = rw year_of_era-day_of_era (omega arith)

-- A date of the calendar.
abbrev pub IsDate : ℤ → ℕ → ℕ → Type 0
IsDate y m d = (1 ≤ m) × (m ≤ 12) × (1 ≤ d) × (d ≤ days_in_month y m)

abbrev pub IsCivil : Civil → Type 0
IsCivil (civil y m d) = IsDate y m d

days_in_month-leap :
    (y e : ℤ) (n m : ℕ)
    → pos_part y + 400 * neg_part e ≡ neg_part y + 400 * pos_part e + n
    → 1 ≤ m
    → m ≤ 12
    → days_in_month y m ≡ month_days (leap n) m
unfolding days_in_month
days_in_month-leap y e n m h low high = rw (is_leap-leap y e n h) (month_length (leap n) m low high)

-- Each day is a date of the calendar.
pub civil_from_days-IsDate : (z : ℤ) → IsCivil (civil_from_days z)
civil_from_days-IsDate z =
    let (e, r, div) = split_146097 (z +ℤ pos 719468) in
    let m = month_of (day_of_year r) in
    let a = pos (year_of_era r) +ℤ scale 400 e in
    let (short, low, high, one) = day_of_year-range r div.0 in
    let long =
      days_in_month-leap (a +ℤ pos (early m)) e (year_of_era r + early m) m
        (omega (
          arith,
          +ℤ_parts a (pos (early m)),
          +ℤ_parts (pos (year_of_era r)) (scale 400 e),
          scale_parts 400 e,
        ))
        low high in
    rw (civil_parts z e r div) (low, high, one, rw long (day_in_month r div.0))

-- The day number of a date of the calendar gives that date back.
pub civil_from_days-days_from_civil :
    (y : ℤ) (m d : ℕ) → IsDate y m d → civil_from_days (days_from_civil y m d) ≡ civil y m d
civil_from_days-days_from_civil y m d (low, high, one, inside) =
    let y1 = y -ℤ pos (early m) in
    let (e, yoe, div) = split_400 y1 in
    let long =
      days_in_month-leap y e (yoe + early m) m (omega (arith, -ℤ_parts y (pos (early m)), div.1))
        low high in
    let within_month : d ≤ month_days (leap (yoe + early m)) m = rw long at inside in
    let r = day_of_era yoe m d in
    let z = scale 146097 e +ℤ pos r -ℤ pos 719468 in
    let (month_is, day_is) = doy-month yoe m d div.0 low high one within_month in
    let year_is : pos yoe +ℤ scale 400 e +ℤ pos (early m) ≡ y = parts_eq _ _ (
      omega (
        arith,
        div.1,
        -ℤ_parts y (pos (early m)),
        +ℤ_parts (pos yoe +ℤ scale 400 e) (pos (early m)),
        +ℤ_parts (pos yoe) (scale 400 e),
        scale_parts 400 e,
      )) in
    let whole : Divided 146097 (z +ℤ pos 719468) e r = (
      day_of_era-range yoe m d div.0 low high one within_month,
      omega (
        arith,
        +ℤ_parts z (pos 719468),
        -ℤ_parts (scale 146097 e +ℤ pos r) (pos 719468),
        +ℤ_parts (scale 146097 e) (pos r),
        scale_parts 146097 e,
      ),
    ) in
    rw (days_parts y e yoe m d div) (
      rw (civil_parts z e r whole) (
        rw (day_of_year-day_of_era yoe m d div.0 low high one within_month) (
          rw (month_is, day_is)
            (rw (year_of_era-day_of_era yoe m d div.0 low high one within_month)
              (ap (λ u. civil u m d) year_is)))))

-- A month has at most 31 days.
pub day_bound : (y : ℤ) (m d : ℕ) → IsDate y m d → d ≤ 31
day_bound y m d (low, high, one, inside) =
    let (e, n, div) = split_400 y in
    let long = days_in_month-leap y e n m div.1 low high in ground (arith, long)

-- Each day, however far in the past or the future, is a date of the calendar, and the day number of that
-- date is the day.
pub civil_from_days_exact :
    (z : ℤ)
    → IsCivil (civil_from_days z)
      × ((elim (civil_from_days z) [ civil y m d ↦ days_from_civil y m d ]) ≡ z)
civil_from_days_exact z = (civil_from_days-IsDate z, days_from_civil-civil_from_days z)
