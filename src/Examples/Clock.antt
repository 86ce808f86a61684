-- ===== src/Examples/Clock.antt =====
-- Dates and times on concrete inputs.
use asterism_astools.Prelude.{◌≡◌, refl, sym, ◌∙◌, ◌≢◌, [], arith, codes, some}
use asterism_astools.Int.{pos, negsuc, ◌+ℤ◌, ◌-ℤ◌, scale, quot, rem}
use asterism_astools.Time.{
  civil, civil_from_days, days_from_civil, era_of, in_era, year_of_era, day_of_year, month_of,
  day_of, days_in_month, is_leap,
}
use asterism_astools.Time.Dates.{
  IsCivil, IsDate, civil_from_days_exact, civil_from_days-days_from_civil,
}
use asterism_astools.Time.Rfc3339.{time_parse, time_format, split_time, format_civil}
use asterism_astools.Time.RoundTrip.{time_parse-time_format}

-- Day -1 is the last of 1969.
civil_from_days_exact_example :
    IsCivil (civil_from_days (negsuc 0))
    × ((elim (civil_from_days (negsuc 0)) [ civil y m d ↦ days_from_civil y m d ]) ≡ negsuc 0)
civil_from_days_exact_example = civil_from_days_exact (negsuc 0)

leap_day : IsDate (pos 2024) 2 29
unfolding days_in_month is_leap
leap_day = (omega arith, omega arith, omega arith, omega arith)

civil_from_days-days_from_civil_example :
    civil_from_days (days_from_civil (pos 2024) 2 29) ≡ civil (pos 2024) 2 29
civil_from_days-days_from_civil_example = civil_from_days-days_from_civil (pos 2024) 2 29 leap_day

-- 2023-11-14T22:13:20Z
written : time_format (pos 1700000000) ≡ codes "2023-11-14T22:13:20Z"
unfolding time_format split_time quot rem format_civil civil_from_days ◌+ℤ◌ ◌-ℤ◌ scale era_of in_era
    year_of_era day_of_year month_of day_of
written = refl

shown : time_format (pos 1700000000) ≢ []
shown e = absurd (no_text (sym written ∙ e))
  where
    no_text : codes "2023-11-14T22:13:20Z" ≡ [] → ⊥
    no_text p = cc

time_parse-time_format_example : time_parse (time_format (pos 1700000000)) ≡ some (pos 1700000000)
time_parse-time_format_example = time_parse-time_format (pos 1700000000) shown
