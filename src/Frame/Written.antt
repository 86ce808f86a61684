-- ===== src/Frame/Written.antt =====
-- A frame that src/process_io.c writes, read by src/process_frame.c.
use asterism_astools.Prelude.{ℕ, zero, suc, ◌+◌, ◌-◌, ◌*◌, ◌^◌, ◌≤◌, ◌<◌, ◌≡◌, refl, sym, ap, ◌∙◌}
use asterism_astools.Prelude.{true, false, some, [], ◌∷◌, ◌++◌, arith}
use asterism_astools.Prelude.{ltb, leb}
use asterism_astools.Prelude.{
  length, take, length-append, drop-append_length, take-append_length, All-append, length-take, All,
}
use asterism_astools.Prelude.{Bytes, str_eq, codes, ok, err, Err}
use mathlib.Core.List.{append_assoc, append-nil}
use asterism_astools.Json.Parser.{decimal_from}
use asterism_astools.Json.Numbers.{AreDigits, IsDecimal, IsWritten, decimal_digits-IsWritten}
use asterism_astools.Prelude.{dec_lt}
use asterism_astools.Frame.{
  header_cap, lower, equal, complete, find_header, take_line, split_colon, trim_start, trim_end,
  length_loop, Fields, length_field, field, fields, payload, no_fields, take_frame, frame_header,
  write_frame,
}
use asterism_astools.Frame.Scan.{IsPrinted, find_header-prefix, find_header-line}

take_line-printed : (t s : Bytes) → All IsPrinted t → take_line (t ++ 13 ∷ 10 ∷ s) ≡ (t, s)
unfolding take_line
take_line-printed [] s h = refl
take_line-printed (c ∷ []) s (h, hs) = ground arith
take_line-printed (c ∷ d ∷ t) s (h, hs) = rw (take_line-printed (d ∷ t) s hs) (ground arith)

trim_end-digits : (ds : Bytes) → AreDigits ds → trim_end ds ≡ ds
unfolding trim_end
trim_end-digits [] h = refl
trim_end-digits (c ∷ ds) (h, hs) = rw (trim_end-digits ds hs) (ground arith)

trim_start-digits : (ds : Bytes) → AreDigits ds → trim_start ds ≡ ds
unfolding trim_start
trim_start-digits [] h = refl
trim_start-digits (c ∷ ds) (h, hs) = ground arith

decimal_from-ge : (n : ℕ) (ds : Bytes) → n ≤ decimal_from n ds
decimal_from-ge n [] = omega arith
decimal_from-ge n (c ∷ ds) = omega (arith, decimal_from-ge (n * 10 + (c - b'0')) ds)

length_loop-digits :
    (limit n : ℕ) (ds : Bytes)
    → AreDigits ds
    → decimal_from n ds ≤ limit
    → length_loop limit n ds ≡ ok (decimal_from n ds)
unfolding length_loop
length_loop-digits limit n [] h small = refl
length_loop-digits limit n (c ∷ ds) (h, hs) small = ground (
  arith,
  length_loop-digits limit (n * 10 + (c - b'0')) ds hs small,
  decimal_from-ge (n * 10 + (c - b'0')) ds,
)

abbrev label : Bytes
label = codes "Content-Length: "

abbrev read_length : ℕ → Fields
read_length n = record { content_length = some n; have_type = false }

length_field-digits :
    (limit n : ℕ) (ds : Bytes)
    → IsDecimal ds n
    → 1 ≤ n
    → n ≤ limit
    → length_field limit no_fields ds ≡ ok (read_length n)
unfolding length_field
length_field-digits limit n [] d least small = absurd (d.nonempty refl)
length_field-digits limit n (c ∷ ds) d least small =
    rw (length_loop-digits limit 0 (c ∷ ds) d.all_digits (omega (arith, d.value)))
      (rw d.value (ground arith))

blank_start : (s : Bytes) → trim_start (b' ' ∷ s) ≡ trim_start s
unfolding trim_start
blank_start s = refl

field-label :
    (limit n : ℕ) (ds : Bytes)
    → IsDecimal ds n
    → 1 ≤ n
    → n ≤ limit
    → field limit no_fields (label ++ ds) ≡ ok (read_length n)
unfolding field split_colon equal lower str_eq
field-label limit n ds d least small = rw (blank_start ds) (
    rw (trim_start-digits ds d.all_digits)
      (rw (trim_end-digits ds d.all_digits) (length_field-digits limit n ds d least small)))

fields-header :
    (m limit n : ℕ) (ds : Bytes)
    → IsDecimal ds n
    → 1 ≤ n
    → n ≤ limit
    → All IsPrinted (label ++ ds)
    → fields (suc (suc m)) limit no_fields ((label ++ ds) ++ 13 ∷ 10 ∷ 13 ∷ 10 ∷ [])
      ≡ ok (read_length n)
unfolding fields
fields-header m limit n ds d least small h =
    let long : ltb 2 (length ((label ++ ds) ++ 13 ∷ 10 ∷ 13 ∷ 10 ∷ [])) ≡ true = ground arith in
    rw (long, fields)
      (rw (take_line-printed (label ++ ds) (13 ∷ 10 ∷ []) h)
        (rw (field-label limit n ds d least small) refl))

All-IsPrinted-digits : (ds : Bytes) → AreDigits ds → All IsPrinted ds
All-IsPrinted-digits [] h = tt
All-IsPrinted-digits (c ∷ ds) (h, hs) = (ground arith, All-IsPrinted-digits ds hs)

-- The label and the digits of a length, the line of a header.
abbrev pub label_tail : Bytes
label_tail = codes "ontent-Length: "

label-IsPrinted : (ds : Bytes) → AreDigits ds → All IsPrinted (label ++ ds)
label-IsPrinted ds h =
    All-append IsPrinted label ds
      (
        refl,
        (
          refl,
          (
            refl,
            (
              refl,
              (
                refl,
                (
                  refl,
                  (
                    refl,
                    (refl, (refl, (refl, (refl, (refl, (refl, (refl, (refl, (refl, tt))))))))),
                  ),
                ),
              ),
            ),
          ),
        ),
      )
      (All-IsPrinted-digits ds h)

take-append :
    (k : ℕ) (xs ys : Bytes) → length xs ≤ k → take k (xs ++ ys) ≡ xs ++ take (k - length xs) ys
take-append k [] ys h = ap (λ n. take n ys) (omega arith)
take-append zero (x ∷ xs) ys h = absurd (omega arith)
take-append (suc k) (x ∷ xs) ys h =
    ap (◌∷◌ x) (take-append k xs ys (omega arith) ∙ ap (λ n. xs ++ take n ys) (omega arith))

-- The text of a frame, with its digits.
module _ (json rest : Bytes) where
  digits_of : length json < 2 ^ 64 → IsWritten 20 (length json) []
  digits_of h = decimal_digits-IsWritten 19 (length json) [] (omega arith)

  frame_text :
      (w : IsWritten 20 (length json) [])
      → write_frame json ++ rest ≡ ((label ++ w.ds) ++ 13 ∷ 10 ∷ 13 ∷ 10 ∷ []) ++ (json ++ rest)
  frame_text w =
      append_assoc (frame_header (length json)) json rest
      ∙ ap (λ u. u ++ (json ++ rest))
          (ap (λ u. label ++ (u ++ 13 ∷ 10 ∷ 13 ∷ 10 ∷ [])) (w.written ∙ append-nil w.ds)
            ∙ sym (append_assoc label w.ds (13 ∷ 10 ∷ 13 ∷ 10 ∷ [])))

-- A frame is taken off the buffer once it is there as a whole.
module _ (limit : ℕ) (json ds : Bytes) (d : IsDecimal ds (length json)) (short : length ds ≤ 20)
    (some_text : 1 ≤ length json) (small : length json ≤ limit) where
  abbrev head : Bytes
  head = (label ++ ds) ++ 13 ∷ 10 ∷ 13 ∷ 10 ∷ []

  length-head : length head ≡ suc (suc (length ds + 18))
  length-head =
      omega (arith, length-append (label ++ ds) (13 ∷ 10 ∷ 13 ∷ 10 ∷ []), length-append label ds)

  found : (s : Bytes) → find_header header_cap [] (head ++ s) ≡ complete (length head)
  found s =
      ap (find_header header_cap []) (append_assoc (label ++ ds) (13 ∷ 10 ∷ 13 ∷ 10 ∷ []) s)
      ∙ find_header-line b'C' (label_tail ++ ds) s (label-IsPrinted ds d.all_digits)
          (omega (arith, length-append label_tail ds))
      ∙ ap complete (omega (arith, length-head, length-append label_tail ds))

  take_head : (s : Bytes) → take_frame limit (head ++ s) ≡ payload s (some (length json))
  unfolding take_frame
  take_head s =
      let read : fields (length head) limit no_fields head ≡ ok (read_length (length json)) =
        ap (λ k. fields k limit no_fields head) length-head
        ∙ fields-header (length ds + 18) limit (length json) ds d some_text small
            (label-IsPrinted ds d.all_digits) in
      rw (take_frame, found s)
        (rw (take-append_length head s, drop-append_length head s) (rw read refl))

  take_whole : (rest : Bytes) → take_frame limit (head ++ (json ++ rest)) ≡ ok (json, rest)
  unfolding payload
  take_whole rest =
      let long : ltb (length (json ++ rest)) (length json) ≡ false =
        ground (arith, length-append json rest) in
      take_head (json ++ rest)
      ∙ rw long (rw (take-append_length json rest, drop-append_length json rest) refl)

  -- A part of it is not taken.
  take_part :
      (k : ℕ) → k < length (head ++ json) → take_frame limit (take k (head ++ json)) ≡ err Err.busy
  unfolding take_frame payload
  take_part k fewer = elim (dec_lt k (length head)) [
    | yes early ↦
        let none_yet =
          find_header-prefix header_cap [] (head ++ json) k (length head) (found json)
            (omega arith) in
        let brief : leb header_cap (length (take k (head ++ json))) ≡ false =
          ground (arith, length-take k (head ++ json), length-head) in
        rw (take_frame, none_yet) (rw brief refl)
    | no late ↦
        let j = k - length head in
        let brief : ltb (length (take j json)) (length json) ≡ true =
          ground (arith, length-take j json, length-append head json) in
        ap (take_frame limit) (take-append k head json (omega arith))
        ∙ take_head (take j json)
        ∙ rw brief refl
  ]

-- A message that is written as a frame is read as that message, with what follows it left in the buffer,
-- if it is not empty and not longer than the limit, which is below 2^64.
pub take_frame-write_frame :
    (limit : ℕ) (json rest : Bytes)
    → limit < 2 ^ 64
    → 1 ≤ length json
    → length json ≤ limit
    → take_frame limit (write_frame json ++ rest) ≡ ok (json, rest)
take_frame-write_frame limit json rest bound some_text small =
    let w = digits_of json rest (omega arith) in
    ap (take_frame limit) (frame_text json rest w)
    ∙ take_whole limit json w.ds w.is_decimal w.short some_text small rest

-- As long as a frame is not in the buffer as a whole, the reader asks for more and takes nothing.
pub take_frame-take :
    (limit : ℕ) (json : Bytes) (k : ℕ)
    → limit < 2 ^ 64
    → 1 ≤ length json
    → length json ≤ limit
    → k < length (write_frame json)
    → take_frame limit (take k (write_frame json)) ≡ err Err.busy
take_frame-take limit json k bound some_text small fewer =
    let w = digits_of json [] (omega arith) in
    let text : write_frame json
        ≡ head limit json w.ds w.is_decimal w.short some_text small ++ json =
      sym (append-nil (write_frame json))
      ∙ frame_text json [] w
      ∙ ap (λ u. ((label ++ w.ds) ++ 13 ∷ 10 ∷ 13 ∷ 10 ∷ []) ++ u) (append-nil json) in
    rw text (
      take_part limit json w.ds w.is_decimal w.short some_text small k
        (omega (arith, ap length text)))
