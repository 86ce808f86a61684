-- ===== src/Callline/Scan.antt =====
-- The loop of `astools_callline_parse` against the list of the lines.
use asterism_astools.Prelude.{ℕ, zero, suc, ◌≤◌, ◌<◌, ◌≡◌, refl, inl, inr}
use asterism_astools.Prelude.{Option, none, some, List, [], ◌∷◌, arith}
use asterism_astools.Prelude.{◌==◌, if◌then◌else◌, Option-cases}
use asterism_astools.Prelude.{length}
use asterism_astools.Prelude.{Bytes, Result, ok, err, Err}
use asterism_astools.Callline.{Call, parse_call_line, split_line, parse_lines, callline_parse}

abbrev to_first : ℕ → List Bytes → List Bytes
to_first c [] = (c ∷ []) ∷ []
to_first c (line ∷ more) = (c ∷ line) ∷ more

-- The lines between the line feeds; there is always one.
unfoldable pub lines : Bytes → List Bytes
lines [] = [] ∷ []
lines (c ∷ s) = let rest = lines s in if c == 10 then [] ∷ rest else to_first c rest

-- The first line that is a call.
unfoldable pub first_call : List Bytes → Result Call
first_call [] = err Err.not_found
first_call (line ∷ more) = elim (parse_call_line line) [
  | some call ↦ ok call
  | none ↦ first_call more
]

lines_of : Option Bytes → List Bytes
lines_of none = []
lines_of (some s) = lines s

lines-split_line : (s : Bytes) → lines s ≡ (split_line s).0 ∷ lines_of (split_line s).1
unfolding lines split_line lines_of
lines-split_line [] = refl
lines-split_line (c ∷ s) = ground (arith, lines-split_line s)

behind : Option Bytes → ℕ
behind none = 0
behind (some s) = suc (length s)

split_line_shorter : (s : Bytes) → behind (split_line s).1 ≤ length s
unfolding split_line behind
split_line_shorter [] = omega arith
split_line_shorter (c ∷ s) = ground (arith, split_line_shorter s)

parse_lines-first_call :
    (fuel : ℕ) (s : Bytes) → length s < fuel → parse_lines fuel s ≡ first_call (lines s)
unfolding parse_lines first_call lines_of behind
parse_lines-first_call zero s h = absurd (omega arith)
parse_lines-first_call (suc fuel) s h = elim (Option-cases (parse_call_line (split_line s).0)) [
  | inr (call, found) ↦ rw (lines-split_line s) (rw (found, parse_lines, first_call) refl)
  | inl missing ↦ elim (Option-cases (split_line s).1) [
    | inl last ↦ rw (lines-split_line s) (rw (missing, last, parse_lines, first_call) refl)
    | inr (rest, more) ↦
        let shorter : length rest < fuel = omega (arith, rw more at (split_line_shorter s)) in
        rw (lines-split_line s)
          (rw (missing, more, parse_lines, first_call) (parse_lines-first_call fuel rest shorter))
  ]
]

-- Of the lines of the output, split at the line feeds, the first one that is a call is returned, and
-- `not_found` when none is.
pub callline_parse-first_call : (s : Bytes) → callline_parse s ≡ first_call (lines s)
unfolding callline_parse
callline_parse-first_call s = parse_lines-first_call (suc (length s)) s (omega arith)
