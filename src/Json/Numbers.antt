-- ===== src/Json/Numbers.antt =====
-- Reading back the integers that src/json.c writes.
use asterism_astools.Prelude.{
  ℕ, zero, suc, ◌+◌, ◌-◌, ◌*◌, ◌/◌, ◌%◌, ◌^◌, ◌≤◌, ◌<◌, ◌≡◌, refl, sym, ap, ◌∙◌, ◌≢◌, ◌⊎◌, inl, inr,
}
use asterism_astools.Prelude.{Bool, true, false, not, ◌&&◌, Option, some, [], ◌∷◌, ◌++◌, arith}
use asterism_astools.Prelude.{ltb, leb, ◌==◌, Bool-cases}
use asterism_astools.Prelude.{length, length-append, All-append, zero_or_suc, All}
use asterism_astools.Prelude.{Bytes, peek, is_digit}
use mathlib.Core.List.{append_assoc, append-nil}
use native.Mathlib.Nat.{pow-suc}
use asterism_astools.Json.{integer, number}
use asterism_astools.Json.Parser.{
  digits, sign_part, integer_part, fraction_part, exponent_part, decimal_from, integer_of,
  number_of, p_number,
}
use asterism_astools.Json.Writer.{decimal_digits}

abbrev pub AreDigits : Bytes → Type 0
AreDigits = All (λ c. is_digit c ≡ true)

decimal_from-append :
    (n : ℕ) (ds : Bytes) (c : ℕ)
    → decimal_from n (ds ++ c ∷ []) ≡ decimal_from n ds * 10 + (c - b'0')
decimal_from-append n [] c = refl
decimal_from-append n (d ∷ ds) c = decimal_from-append (n * 10 + (d - b'0')) ds c

-- The digits of a number, with no zero in front of others.
pub record IsDecimal (ds : Bytes) (n : ℕ) : Type 0 where
  pub all_digits : AreDigits ds
  pub value : decimal_from 0 ds ≡ n
  pub nonempty : ds ≢ []
  pub leading : (ds ≡ b'0' ∷ []) ⊎ (b'0' < peek ds)

peek-append : (ds : Bytes) (t : Bytes) → ds ≢ [] → peek (ds ++ t) ≡ peek ds
peek-append [] t h = absurd (h refl)
peek-append (d ∷ ds) t h = refl

one_digit : (n : ℕ) → n < 10 → IsDecimal ((b'0' + n) ∷ []) n
one_digit n h = record {
  all_digits = (ground arith, tt);
  value = omega arith;
  nonempty = λ p. cc;
  leading = elim (zero_or_suc n) [ inl e ↦ inl (rw e refl) | inr (m, e) ↦ inr (omega arith) ];
}

next_digit :
    (ds : Bytes) (n : ℕ) → 10 ≤ n → IsDecimal ds (n / 10) → IsDecimal (ds ++ (b'0' + n % 10) ∷ []) n
next_digit ds n h d = record {
  all_digits =
      All-append (λ c. is_digit c ≡ true) ds ((b'0' + n % 10) ∷ []) d.all_digits (ground arith, tt);
  value = decimal_from-append 0 ds (b'0' + n % 10) ∙ omega (arith, d.value);
  nonempty = λ p. absurd (omega (arith, length-append ds ((b'0' + n % 10) ∷ []), ap length p));
  leading = inr (elim d.leading [
    | inl zero_only ↦ absurd (big (rw zero_only at d.value))
    | inr above ↦ rw (peek-append ds ((b'0' + n % 10) ∷ []) d.nonempty) above
  ]);
}
  where
    big : (0 * 10 + (b'0' - b'0') ≡ n / 10) → ⊥
    big p = omega arith

digits_small :
    (fuel n : ℕ) (acc : Bytes)
    → ltb n 10 ≡ true
    → decimal_digits (suc fuel) n acc ≡ (b'0' + n) ∷ acc
unfolding decimal_digits
digits_small fuel n acc e = rw (decimal_digits, e) refl

digits_more :
    (fuel n : ℕ) (acc : Bytes)
    → ltb n 10 ≡ false
    → decimal_digits (suc fuel) n acc ≡ decimal_digits fuel (n / 10) ((b'0' + n % 10) ∷ acc)
unfolding decimal_digits
digits_more fuel n acc e = rw (decimal_digits, e) refl

-- What is written in front of a text.
pub record IsWritten (fuel n : ℕ) (acc : Bytes) : Type 0 where
  pub ds : Bytes
  pub is_decimal : IsDecimal ds n
  pub short : length ds ≤ fuel
  pub written : decimal_digits fuel n acc ≡ ds ++ acc

pub decimal_digits-IsWritten :
    (fuel n : ℕ) (acc : Bytes) → n < 10 ^ suc fuel → IsWritten (suc fuel) n acc
decimal_digits-IsWritten zero n acc h = record {
  ds = (b'0' + n) ∷ [];
  is_decimal = one_digit n (omega arith);
  short = omega arith;
  written = digits_small zero n acc (ground arith);
}
decimal_digits-IsWritten (suc fuel) n acc h = elim (Bool-cases (ltb n 10)) [
  | inl small ↦ record {
    ds = (b'0' + n) ∷ [];
    is_decimal = one_digit n (ground arith);
    short = omega arith;
    written = digits_small (suc fuel) n acc small;
  }
  | inr big ↦
      let w =
        decimal_digits-IsWritten fuel (n / 10) ((b'0' + n % 10) ∷ acc)
          (omega (arith, pow-suc 10 (suc fuel))) in
      record {
        ds = w.ds ++ (b'0' + n % 10) ∷ [];
        is_decimal = next_digit w.ds n (ground arith) w.is_decimal;
        short = omega (arith, w.short, length-append w.ds ((b'0' + n % 10) ∷ []));
        written =
            digits_more (suc fuel) n acc big
            ∙ w.written
            ∙ sym (append_assoc w.ds ((b'0' + n % 10) ∷ []) acc);
      }
]

-- What may stand behind a number.
abbrev pub stops : ℕ → Bool
stops c = not (is_digit c) && not (c == b'.') && not (c == b'e') && not (c == b'E')

digits_run :
    (ds rest : Bytes)
    → AreDigits ds
    → is_digit (peek rest) ≡ false
    → digits (ds ++ rest) ≡ (ds, rest)
unfolding digits
digits_run [] [] h e = refl
digits_run [] (c ∷ rest) h e = rw e refl
digits_run (d ∷ ds) rest (h, hs) e = rw (digits_run ds rest hs e) (rw h refl)

integer_part_decimal :
    (ds rest : Bytes) (n : ℕ)
    → IsDecimal ds n
    → is_digit (peek rest) ≡ false
    → integer_part (ds ++ rest) ≡ some (ds, rest)
integer_part_decimal [] rest n d e = absurd (d.nonempty refl)
integer_part_decimal (c ∷ ds) rest n d e = elim d.leading [
  | inl zero_only ↦ unfold integer_part in ground arith
  | inr above ↦
      let run = digits_run (c ∷ ds) rest d.all_digits e in
      let digit : is_digit c ≡ true = d.all_digits.0 in unfold integer_part in ground (arith, run)
]

none_behind :
    (rest : Bytes)
    → stops (peek rest) ≡ true
    → (fraction_part rest ≡ some ([], rest)) × (exponent_part rest ≡ some ([], rest))
unfolding fraction_part exponent_part
none_behind [] h = (refl, refl)
none_behind (c ∷ rest) h = (ground arith, ground arith)

-- `strtod` of an integer of at most 19 digits is finite.
abbrev pub IsFinite : (Bytes → Option ℕ) → Type 0
IsFinite strtod =
    (sign ds : Bytes) → AreDigits ds → length ds ≤ 19 → (d : ℕ) × (strtod (sign ++ ds) ≡ some d)

-- The sign that the writer puts in front.
abbrev pub sign_of : Bool → Bytes
sign_of true = b'-' ∷ []
sign_of false = []

-- An integer that fits an `int64_t`, and is no zero with a sign.
unfoldable pub fits : Bool → ℕ → Bool
fits true n = ltb 0 n && leb n (2 ^ 63)
fits false n = leb n (2 ^ 63 - 1)

sign_part_decimal :
    (negative : Bool) (ds rest : Bytes) (n : ℕ)
    → IsDecimal ds n
    → sign_part (sign_of negative ++ (ds ++ rest)) ≡ (sign_of negative, ds ++ rest)
unfolding sign_part
sign_part_decimal true ds rest n d = refl
sign_part_decimal false [] rest n d = absurd (d.nonempty refl)
sign_part_decimal false (c ∷ ds) rest n d =
    let digit : is_digit c ≡ true = d.all_digits.0 in ground arith

integer_of_decimal :
    (negative : Bool) (ds : Bytes) (n : ℕ)
    → IsDecimal ds n
    → fits negative n ≡ true
    → integer_of (sign_of negative) ds ≡ some (integer negative n)
unfolding integer_of fits
integer_of_decimal true ds n d h = rw d.value (ground arith)
integer_of_decimal false ds n d h = rw d.value (ground arith)

pub p_number-decimal :
    (strtod : Bytes → Option ℕ) (negative : Bool) (n : ℕ) (ds rest : Bytes)
    → IsFinite strtod
    → IsDecimal ds n
    → length ds ≤ 19
    → fits negative n ≡ true
    → stops (peek rest) ≡ true
    → p_number strtod (sign_of negative ++ (ds ++ rest)) ≡ some (number (integer negative n), rest)
unfolding p_number
p_number-decimal strtod negative n ds rest finite d short fit stop =
    let (bits, found) = finite (sign_of negative) ds d.all_digits short in
    rw (sign_part_decimal negative ds rest n d) (
      rw (integer_part_decimal ds rest n d (ground arith)) (
        rw (none_behind rest stop).0 (
          rw (none_behind rest stop).1 (
            rw append-nil
              (rw (found, integer_of_decimal negative ds n d fit) (unfold number_of in refl))))))
