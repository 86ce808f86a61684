-- ===== src/Time/Calendar.antt =====
-- The civil calendar of src/time.c: the functions between days and dates.
use asterism_astools.Prelude.{ℕ, ◌+◌, ◌-◌, ◌*◌, ◌/◌, ◌%◌, ◌≤◌, ◌<◌, ◌≡◌, refl, ap}
use asterism_astools.Prelude.{arith}
use asterism_astools.Int.{
  ℤ, pos, negsuc, pos_part, neg_part, ◌+ℤ◌, ◌-ℤ◌, scale, quot, +ℤ_parts, -ℤ_parts, parts_eq,
}
use asterism_astools.Time.{
  era_of, in_era, early, day_of_era, days_from_civil, year_of_era, day_of_year, month_of, day_of,
  civil, civil_from_days,
}

-- A number as the quotient and the rest of a division that rounds down.
abbrev pub Divided : ℕ → ℤ → ℤ → ℕ → Type 0
Divided len z e r = (r < len) × (pos_part z + len * neg_part e ≡ neg_part z + len * pos_part e + r)

era_400 : (z e : ℤ) (r : ℕ) → Divided 400 z e r → (era_of 400 z ≡ e) × (in_era 400 z ≡ r)
unfolding era_of in_era quot scale ◌-ℤ◌
era_400 (pos n) (pos m) r (small, h) = (ap pos (omega arith), ground arith)
era_400 (pos n) (negsuc m) r (small, h) = absurd (omega arith)
era_400 (negsuc n) (pos m) r (small, h) = absurd (omega arith)
era_400 (negsuc n) (negsuc m) r (small, h) = (ground arith, ground arith)

era_146097 :
    (z e : ℤ) (r : ℕ) → Divided 146097 z e r → (era_of 146097 z ≡ e) × (in_era 146097 z ≡ r)
unfolding era_of in_era quot scale ◌-ℤ◌
era_146097 (pos n) (pos m) r (small, h) = (ap pos (omega arith), ground arith)
era_146097 (pos n) (negsuc m) r (small, h) = absurd (omega arith)
era_146097 (negsuc n) (pos m) r (small, h) = absurd (omega arith)
era_146097 (negsuc n) (negsuc m) r (small, h) = (ground arith, ground arith)

pub split_146097 : (z : ℤ) → (e : ℤ) × (r : ℕ) × Divided 146097 z e r
split_146097 (pos n) = (pos (n / 146097), n % 146097, (omega arith, omega arith))
split_146097 (negsuc n) = (negsuc (n / 146097), 146096 - n % 146097, (omega arith, omega arith))

pub split_400 : (z : ℤ) → (e : ℤ) × (r : ℕ) × Divided 400 z e r
split_400 (pos n) = (pos (n / 400), n % 400, (omega arith, omega arith))
split_400 (negsuc n) = (negsuc (n / 400), 399 - n % 400, (omega arith, omega arith))

-- Within an era: the year that starts in March, and its day.
module _ (doe : ℕ) (small : doe < 146097) where
  pub year_of_era-range :
      (year_of_era doe < 400)
      × (365 * year_of_era doe + year_of_era doe / 4 - year_of_era doe / 100 ≤ doe)
  unfolding year_of_era
  year_of_era-range = (omega arith, omega arith)

  pub year_of_era-above : let y = year_of_era doe + 1 in doe < 365 * y + y / 4 - y / 100 + y / 400
  unfolding year_of_era
  year_of_era-above = omega arith

  pub day_of_year-range :
      (day_of_year doe ≤ 365)
      × (1 ≤ month_of (day_of_year doe))
      × (month_of (day_of_year doe) ≤ 12)
      × (1 ≤ day_of (day_of_year doe))
  unfolding day_of_year month_of day_of
  day_of_year-range =
      let (low, start) = year_of_era-range in
      let short : day_of_year doe ≤ 365 = omega (arith, year_of_era-above) in
      (short, ground arith, ground arith, ground arith)

  day_of_era-parts :
      day_of_era (year_of_era doe) (month_of (day_of_year doe)) (day_of (day_of_year doe)) ≡ doe
  unfolding day_of_era day_of_year month_of day_of
  day_of_era-parts =
      let (low, start) = year_of_era-range in
      let short : day_of_year doe ≤ 365 = day_of_year-range.0 in ground arith

pub scale_parts :
    (k : ℕ) (x : ℤ) → pos_part (scale k x) + k * neg_part x ≡ neg_part (scale k x) + k * pos_part x
unfolding scale
scale_parts k x = ground arith

-- What `civil_from_days` gives, from the era and its day.
pub civil_parts :
    (z e : ℤ) (r : ℕ)
    → Divided 146097 (z +ℤ pos 719468) e r
    → civil_from_days z ≡ (
        let m = month_of (day_of_year r) in
        civil (pos (year_of_era r) +ℤ scale 400 e +ℤ pos (early m)) m (day_of (day_of_year r)))
unfolding civil_from_days
civil_parts z e r div = let (era, day) = era_146097 (z +ℤ pos 719468) e r div in rw (era, day) refl

-- What `days_from_civil` gives, from the era and its year.
pub days_parts :
    (y e : ℤ) (yoe m d : ℕ)
    → Divided 400 (y -ℤ pos (early m)) e yoe
    → days_from_civil y m d ≡ scale 146097 e +ℤ pos (day_of_era yoe m d) -ℤ pos 719468
unfolding days_from_civil
days_parts y e yoe m d div =
    let (era, day) = era_400 (y -ℤ pos (early m)) e yoe div in rw (era, day) refl

-- The date of a day has that day as its day number, for all days.
pub days_from_civil-civil_from_days :
    (z : ℤ) → (elim (civil_from_days z) [ civil y m d ↦ days_from_civil y m d ]) ≡ z
days_from_civil-civil_from_days z =
    let (e, r, div) = split_146097 (z +ℤ pos 719468) in
    let m = month_of (day_of_year r) in
    let a = pos (year_of_era r) +ℤ scale 400 e in
    let (low, start) = year_of_era-range r div.0 in
    rw (civil_parts z e r div) (
      rw
        (days_parts (a +ℤ pos (early m)) e (year_of_era r) m (day_of (day_of_year r)) (
          low,
          omega (
            arith,
            -ℤ_parts (a +ℤ pos (early m)) (pos (early m)),
            +ℤ_parts a (pos (early m)),
            +ℤ_parts (pos (year_of_era r)) (scale 400 e),
            scale_parts 400 e,
          ),
        ))
        (parts_eq _ _ (
          omega (
            arith,
            day_of_era-parts r div.0,
            div.1,
            -ℤ_parts (scale 146097 e +ℤ pos (day_of_era (year_of_era r) m (day_of (day_of_year r))))
                (pos 719468),
            +ℤ_parts (scale 146097 e) (pos (day_of_era (year_of_era r) m (day_of (day_of_year r)))),
            scale_parts 146097 e,
            +ℤ_parts z (pos 719468),
          ))))
