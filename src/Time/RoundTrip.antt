-- ===== src/Time/RoundTrip.antt =====
-- Reading back a time that src/time.c writes.
use asterism_astools.Prelude.{ℕ, ◌+◌, ◌*◌, ◌/◌, ◌%◌, ◌<◌, ◌≡◌, refl, ap, ◌∙◌, ◌≢◌, inl, inr}
use asterism_astools.Prelude.{true, false, some, [], ◌∷◌, ◌++◌, arith}
use asterism_astools.Prelude.{ltb, Bool-cases}
use asterism_astools.Prelude.{Bytes}
use asterism_astools.Int.{
  ℤ, pos, negsuc, pos_part, neg_part, ◌+ℤ◌, ◌-ℤ◌, scale, quot, rem, +ℤ_parts, parts_eq,
}
use asterism_astools.Time.{days_from_civil, Civil, civil, civil_from_days}
use asterism_astools.Time.Calendar.{days_from_civil-civil_from_days, scale_parts}
use asterism_astools.Time.Dates.{IsCivil, IsDate, civil_from_days-IsDate, day_bound}
use asterism_astools.Time.Rfc3339.{
  parse_digits, fraction, offset, in_range, seconds, time_parse, split_time, two, format_civil,
  time_format,
}

digits_two : (n : ℕ) (s : Bytes) → n < 100 → parse_digits 2 0 (two n ++ s) ≡ some (n, s)
unfolding parse_digits
digits_two n s h = ground arith

digits_four :
    (y : ℕ) (s : Bytes)
    → y < 10000
    → parse_digits 4 0 (
        (b'0' + y / 1000 % 10) ∷ (b'0' + y / 100 % 10) ∷ (b'0' + y / 10 % 10) ∷ (b'0' + y % 10) ∷ s)
      ≡ some (y, s)
unfolding parse_digits
digits_four y s h = ground arith

split_time-parts :
    (t : ℤ)
    → ((split_time t).1 < 86400)
      × (pos_part t + 86400 * neg_part (split_time t).0
          ≡ neg_part t + 86400 * pos_part (split_time t).0 + (split_time t).1)
unfolding split_time quot rem ◌-ℤ◌
split_time-parts (pos n) = (omega arith, omega arith)
split_time-parts (negsuc n) = ground arith

-- The parts of a text from its end on.
zulu : offset (b'Z' ∷ []) ≡ some (pos 0, [])
unfolding offset
zulu = refl

no_fraction : fraction (b'Z' ∷ []) ≡ some (b'Z' ∷ [])
unfolding fraction
no_fraction = refl

in_range-IsDate :
    (y m d sod : ℕ)
    → IsDate (pos y) m d
    → sod < 86400
    → in_range y m d (sod / 3600) (sod / 60 % 60) (sod % 60) ≡ true
unfolding in_range
in_range-IsDate y m d sod (low, high, one, inside) short = ground arith

format_short :
    (y m d sod : ℕ)
    → y < 10000
    → format_civil (civil (pos y) m d) sod
      ≡ (b'0' + y / 1000 % 10)
        ∷ (b'0' + y / 100 % 10)
        ∷ (b'0' + y / 10 % 10)
        ∷ (b'0' + y % 10)
        ∷ b'-'
        ∷ (two m
            ++ b'-'
              ∷ (two d
                  ++ b'T'
                    ∷ (two (sod / 3600)
                        ++ b':' ∷ (two (sod / 60 % 60) ++ b':' ∷ (two (sod % 60) ++ b'Z' ∷ [])))))
unfolding format_civil
format_short y m d sod small = let short : ltb 9999 y ≡ false = ground arith in rw short refl

-- The text of a date and a second of the day is read as these.
parse_civil :
    (y m d sod : ℕ)
    → y < 10000
    → IsDate (pos y) m d
    → d < 100
    → sod < 86400
    → time_parse (format_civil (civil (pos y) m d) sod)
      ≡ some (seconds y m d (sod / 3600) (sod / 60 % 60) (sod % 60) (pos 0))
unfolding time_parse
parse_civil y m d sod small date short_day short =
    let (low, high, one, inside) = date in
    let t5 = two (sod % 60) ++ b'Z' ∷ [] in
    let t4 = two (sod / 60 % 60) ++ b':' ∷ t5 in
    let t3 = two (sod / 3600) ++ b':' ∷ t4 in
    let t2 = two d ++ b'T' ∷ t3 in
    let t1 = two m ++ b'-' ∷ t2 in
    rw (format_short y m d sod small) (
      rw (digits_four y (b'-' ∷ t1) small) (
        rw (digits_two m (b'-' ∷ t2) (omega arith)) (
          rw (digits_two d (b'T' ∷ t3) short_day) (
            rw (digits_two (sod / 3600) (b':' ∷ t4) (omega arith)) (
              rw (digits_two (sod / 60 % 60) (b':' ∷ t5) (omega arith)) (
                rw (digits_two (sod % 60) (b'Z' ∷ []) (omega arith))
                  (rw (no_fraction, zulu) (rw (in_range-IsDate y m d sod date short) refl))))))))

-- The seconds of a date, from its day number.
date_seconds :
    (days t : ℤ) (y m d sod : ℕ)
    → days_from_civil (pos y) m d ≡ days
    → sod < 86400
    → pos_part t + 86400 * neg_part days ≡ neg_part t + 86400 * pos_part days + sod
    → seconds y m d (sod / 3600) (sod / 60 % 60) (sod % 60) (pos 0) ≡ t
unfolding seconds
date_seconds days t y m d sod e short parts =
    let a = scale 86400 days in
    let b = a +ℤ pos (sod / 3600 * 3600) in
    let c = b +ℤ pos (sod / 60 % 60 * 60) in
    rw e (
      parts_eq _ _ (
        omega (
          arith,
          parts,
          scale_parts 86400 days,
          +ℤ_parts a (pos (sod / 3600 * 3600)),
          +ℤ_parts b (pos (sod / 60 % 60 * 60)),
          +ℤ_parts c (pos (sod % 60)),
          +ℤ_parts (c +ℤ pos (sod % 60)) (pos 0),
        )))

parse_format :
    (days t : ℤ) (sod : ℕ) (c : Civil)
    → IsCivil c
    → (elim c [ civil y m d ↦ days_from_civil y m d ]) ≡ days
    → sod < 86400
    → pos_part t + 86400 * neg_part days ≡ neg_part t + 86400 * pos_part days + sod
    → format_civil c sod ≢ []
    → time_parse (format_civil c sod) ≡ some t
unfolding format_civil
parse_format days t sod (civil (negsuc y) m d) date e short parts shown = absurd (shown refl)
parse_format days t sod (civil (pos y) m d) date e short parts shown =
    elim (Bool-cases (ltb 9999 y)) [
      | inl long ↦ absurd (shown (rw long refl))
      | inr small ↦
          parse_civil y m d sod (ground arith) date (omega (arith, day_bound (pos y) m d date))
            short
          ∙ ap some (date_seconds days t y m d sod e short parts)
    ]

-- What is written of a time is read as that time, for every time that is written at all, which is in
-- the years from 0 to 9999.
pub time_parse-time_format : (t : ℤ) → time_format t ≢ [] → time_parse (time_format t) ≡ some t
unfolding time_format
time_parse-time_format t shown =
    let (short, parts) = split_time-parts t in
    let days = (split_time t).0 in
    parse_format days t (split_time t).1 (civil_from_days days) (civil_from_days-IsDate days)
      (days_from_civil-civil_from_days days) short parts shown
