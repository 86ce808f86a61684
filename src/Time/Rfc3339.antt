-- ===== src/Time/Rfc3339.antt =====
-- RFC 3339 texts of src/time.c. A text is a list of bytes other than NUL, and what the parser has passed
-- is taken off it; the checks come in the order of the code.
use asterism_astools.Prelude.{ℕ, zero, suc, ◌+◌, ◌-◌, ◌*◌, ◌/◌, ◌%◌}
use asterism_astools.Prelude.{Bool, true, false, not, ◌&&◌, ◌||◌, Option, none, some, [], ◌∷◌, ◌++◌}
use asterism_astools.Prelude.{ltb, ◌==◌, if◌then◌else◌}
use asterism_astools.Prelude.{bind_option, Bytes, peek, advance, is_digit}
use asterism_astools.Int.{ℤ, pos, negsuc, ◌+ℤ◌, ◌-ℤ◌, scale, quot, rem}
use asterism_astools.Time.{days_from_civil, days_in_month, Civil, civil, civil_from_days}

-- `n` digits, and what follows them.
unfoldable pub parse_digits : ℕ → ℕ → Bytes → Option (ℕ × Bytes)
parse_digits zero v s = some (v, s)
parse_digits (suc n) v [] = none
parse_digits (suc n) v (c ∷ s) = if is_digit c then parse_digits n (v * 10 + (c - b'0')) s else none

abbrev pub expect : ℕ → Bytes → Option Bytes
expect c s = if peek s == c then some (advance s) else none

unfoldable pub skip_digits : Bytes → Bytes
skip_digits [] = []
skip_digits (c ∷ s) = let rest = skip_digits s in if is_digit c then rest else c ∷ s

unfoldable pub fraction : Bytes → Option Bytes
fraction s =
    if peek s == b'.'
    then (if is_digit (peek (advance s)) then some (skip_digits (advance s)) else none)
    else some s

-- The seconds that the offset adds.
unfoldable pub offset : Bytes → Option (ℤ × Bytes)
offset s =
    let sign = peek s in
    if sign == b'Z' || sign == b'z'
    then some (pos 0, advance s)
    else if sign == b'+' || sign == b'-'
    then (bind_option (parse_digits 2 0 (advance s)) λ (offh, s1).
        bind_option (expect b':' s1) λ s2. bind_option (parse_digits 2 0 s2) λ (offm, s3).
          if ltb 23 offh || ltb 59 offm
          then none
          else (let off = pos (offh * 3600 + offm * 60) in
              some (if sign == b'+' then pos 0 -ℤ off else off, s3)))
    else none

abbrev pub is_nul : Bytes → Bool
is_nul [] = true
is_nul (_ ∷ _) = false

-- `*out` of `astools_time_parse_rfc3339`, where it returns true.
unfoldable pub in_range : ℕ → ℕ → ℕ → ℕ → ℕ → ℕ → Bool
in_range y mo d h mi se =
    not (ltb mo 1 || ltb 12 mo)
    && not (ltb d 1 || ltb (days_in_month (pos y) mo) d)
    && not (ltb 23 h || ltb 59 mi || ltb 60 se)

unfoldable pub seconds : ℕ → ℕ → ℕ → ℕ → ℕ → ℕ → ℤ → ℤ
seconds y mo d h mi se off =
    scale 86400 (days_from_civil (pos y) mo d) +ℤ pos (h * 3600) +ℤ pos (mi * 60) +ℤ pos se +ℤ off

unfoldable pub time_parse : Bytes → Option ℤ
time_parse s = bind_option (parse_digits 4 0 s) λ (y, s1). bind_option (expect b'-' s1) λ s2.
    bind_option (parse_digits 2 0 s2) λ (mo, s3). bind_option (expect b'-' s3) λ s4.
      bind_option (parse_digits 2 0 s4) λ (d, s5).
        bind_option (if peek s5 == b'T' || peek s5 == b't' then some (advance s5) else none) λ s6.
          bind_option (parse_digits 2 0 s6) λ (h, s7). bind_option (expect b':' s7) λ s8.
            bind_option (parse_digits 2 0 s8) λ (mi, s9). bind_option (expect b':' s9) λ s10.
              bind_option (parse_digits 2 0 s10) λ (se, s11). bind_option (fraction s11) λ s12.
                bind_option (offset s12) λ (off, s13).
                  if is_nul s13 && in_range y mo d h mi se
                  then some (seconds y mo d h mi se off)
                  else none

-- The date and the seconds of the day.
unfoldable pub split_time : ℤ → ℤ × ℕ
split_time t =
    let days = quot t 86400 in
    let sod = rem t 86400 in
    elim sod [ pos n ↦ (days, n) | negsuc n ↦ (days -ℤ pos 1, 86400 - suc n) ]

abbrev pub two : ℕ → Bytes
two n = (b'0' + n / 10) ∷ (b'0' + n % 10) ∷ []

-- The text of a date and a second, or the empty text for a year of another length.
unfoldable pub format_civil : Civil → ℕ → Bytes
format_civil (civil (negsuc n) m d) sod = []
format_civil (civil (pos y) m d) sod =
    if ltb 9999 y
    then []
    else (b'0' + y / 1000 % 10)
      ∷ (b'0' + y / 100 % 10)
      ∷ (b'0' + y / 10 % 10)
      ∷ (b'0' + y % 10)
      ∷ b'-'
      ∷ (two m
          ++ b'-'
            ∷ (two d
                ++ b'T'
                  ∷ (two (sod / 3600)
                      ++ b':' ∷ (two (sod / 60 % 60) ++ b':' ∷ (two (sod % 60) ++ b'Z' ∷ [])))))

-- `astools_time_format_rfc3339`
unfoldable pub time_format : ℤ → Bytes
time_format t = let (days, sod) = split_time t in format_civil (civil_from_days days) sod
