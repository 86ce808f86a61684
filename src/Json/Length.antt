-- ===== src/Json/Length.antt =====
-- What the parts of the parser of src/json.c leave of the text: each takes a byte at least.
mod Text
pub use Text.*
use asterism_astools.Prelude.{
  ℕ, zero, suc, ◌+◌, ◌-◌, ◌*◌, ◌/◌, ◌%◌, ◌^◌, ◌≤◌, ◌<◌, ◌≡◌, refl, sym, ap, ◌∙◌, ◌≢◌, ◌↔◌, ◌⊎◌, inl,
  inr,
}
use asterism_astools.Prelude.{
  Bool, true, false, not, ◌&&◌, ◌||◌, Option, none, some, List, [], ◌∷◌, ◌++◌, map, arith,
}
use asterism_astools.Prelude.{
  ltb, leb, ◌==◌, if◌then◌else◌, ltb→lt, lt→ltb, leb→le, ==_iff, tests, Bool-cases, some_inj,
  bool_clash, Option-cases, agree_below, agree_below→eq,
}
use asterism_astools.Prelude.{
  length, get_elem?, get_or, take, drop, replicate, length-append, take-append-drop,
  drop-append_length, take-append_length, All-drop, All-append, zero_or_suc, list_cases, length_pos,
  length-take, length-drop, All,
}
use asterism_astools.Prelude.{
  bind_option, bind_option_inv, Bytes, AreBytes, str_eq, str_eq_iff, str_eq_refl, codes, peek,
  advance, within, is_digit, Result, ok, err, Err, Result-cases, bind-eq-ok, ◌>>=◌,
}
use asterism_astools.Prelude.{on_if, on_bool, on_option, on_bind_option, bind_option_inv}
use std.Path.{subst}
use Prim.Native.Nat.{bit_or}
use asterism_astools.Utf8.{utf8_seq}
use asterism_astools.Json.{Json, Members}
use asterism_astools.Json.Parser.{
  skip_ws, literal, hex_digit, hex_loop, Piece, closed, bytes, bad, low_surrogate, surrogate,
  unicode, escape, plain, string_step, string_loop, string_raw, digits, sign_part, integer_part,
  some_digits, fraction_part, exponent_part, p_number, p_scalar, number_of, integer_of, is_nil,
  p_key, closes, separator, more, last,
}

digits-le : (s : Bytes) → length (digits s).1 ≤ length s
unfolding digits
digits-le [] = omega arith
digits-le (c ∷ s) = ground (arith, digits-le s)

sign_part-le : (s : Bytes) → length (sign_part s).1 ≤ length s
unfolding sign_part
sign_part-le [] = omega arith
sign_part-le (c ∷ s) = ground arith

pub closes-lt : (close : ℕ) (s rest : Bytes) → closes close s ≡ some rest → length rest < length s
unfolding closes
closes-lt close [] rest e = ground arith
closes-lt close (c ∷ s) rest e = ground arith

pub separator-more :
    (close : ℕ) (s rest : Bytes) → separator close s ≡ more rest → length rest < length s
unfolding separator
separator-more close [] rest e = ground arith
separator-more close (c ∷ s) rest e = ground arith

pub separator-last :
    (close : ℕ) (s rest : Bytes) → separator close s ≡ last rest → length rest < length s
unfolding separator
separator-last close [] rest e = ground arith
separator-last close (c ∷ s) rest e = ground arith

length-advance : (s : Bytes) → length (advance s) ≤ length s
length-advance [] = omega arith
length-advance (c ∷ s) = omega arith

-- The parts of a value.
some_digits-le :
    (front s text rest : Bytes) → some_digits front s ≡ some (text, rest) → length rest ≤ length s
unfolding some_digits
some_digits-le front s text rest e = ground (arith, digits-le s)

fraction_part-le :
    (s text rest : Bytes) → fraction_part s ≡ some (text, rest) → length rest ≤ length s
unfolding fraction_part
fraction_part-le [] text rest e = ground arith
fraction_part-le (c ∷ s) text rest e = ground (arith, some_digits-le (c ∷ []) s text rest)

exponent_part-le :
    (s text rest : Bytes) → exponent_part s ≡ some (text, rest) → length rest ≤ length s
unfolding exponent_part
exponent_part-le [] text rest e = ground arith
exponent_part-le (c ∷ []) text rest e = ground (arith, some_digits-le (c ∷ []) [] text rest)
exponent_part-le (c ∷ d ∷ s) text rest e =
    ground
      (arith, some_digits-le (c ∷ d ∷ []) s text rest, some_digits-le (c ∷ []) (d ∷ s) text rest)

integer_part-lt :
    (s text rest : Bytes) → integer_part s ≡ some (text, rest) → length rest < length s
unfolding integer_part digits
integer_part-lt [] text rest e = ground arith
integer_part-lt (c ∷ s) text rest e = ground (arith, digits-le s)

unfoldable pub Left : {A : Type 0} → ℕ → Option (A × Bytes) → Type 0
Left n none = Unit {0}
Left n (some (v, rest)) = length rest < n

pub nothing : (A : Type 0) (n : ℕ) → Left {A = A} n none
unfolding Left
nothing A n = tt

pub something :
    {A : Type 0} (n : ℕ) (v : A) (rest : Bytes) → length rest < n → Left n (some (v, rest))
unfolding Left
something n v rest h = h

module _ (strtod : Bytes → Option ℕ) where
  p_number-Left : (s : Bytes) → Left (length s) (p_number strtod s)
  unfolding p_number
  p_number-Left s =
      let n = length s in
      on_bind_option (Left n) (integer_part (sign_part s).1) _ (nothing Json n) λ (whole, s2) e2.
        on_bind_option (Left n) (fraction_part s2) _ (nothing Json n) λ (fraction, s3) e3.
          on_bind_option (Left n) (exponent_part s3) _ (nothing Json n) λ (exponent, s4) e4.
            on_bind_option (Left n)
              (number_of (strtod ((sign_part s).0 ++ (whole ++ (fraction ++ exponent)))) (
                if is_nil fraction && is_nil exponent
                then integer_of (sign_part s).0 whole
                else none))
              _ (nothing Json n)
              λ v e5. something n _ s4 (
                omega (
                  arith,
                  sign_part-le s,
                  integer_part-lt (sign_part s).1 whole s2 e2,
                  fraction_part-le s2 fraction s3 e3,
                  exponent_part-le s3 exponent s4 e4,
                ))

  word-Left :
      (c l : ℕ) (lit s : Bytes) (v : Json)
      → Left (suc (length s)) (bind_option (literal (l ∷ lit) (c ∷ s)) λ rest. some (v, rest))
  unfolding literal
  word-Left c l lit s v =
      on_bind_option (Left (suc (length s))) (literal (l ∷ lit) (c ∷ s)) _
        (nothing Json (suc (length s)))
        λ rest e. something (suc (length s)) v rest (ground (arith, literal-le lit s rest))

  p_scalar-Left : (c : ℕ) (s : Bytes) → Left (suc (length s)) (p_scalar strtod c s)
  unfolding p_scalar
  p_scalar-Left c s =
      let n = suc (length s) in
      on_if (Left n) (c == b'n') _ _ (λ e. word-Left c b'n' (codes "ull") s _)
        λ e.
          on_if (Left n) (c == b't') _ _ (λ e. word-Left c b't' (codes "rue") s _)
            λ e.
              on_if (Left n) (c == b'f') _ _ (λ e. word-Left c b'f' (codes "alse") s _)
                λ e.
                  on_if (Left n) (c == b'"') _ _
                    (λ e.
                      on_bind_option (Left n) (string_loop (length s) s) _ (nothing Json n)
                        λ (str, rest) f.
                          something n _ rest
                            (omega (arith, string_loop-lt (length s) s str rest f)))
                    λ e.
                      on_if (Left n) (c == b'-' || is_digit c) _ _ (λ e. p_number-Left (c ∷ s))
                        λ e. nothing Json n

  pub p_scalar-lt :
      (c : ℕ) (s : Bytes) (v : Json) (rest : Bytes)
      → p_scalar strtod c s ≡ some (v, rest)
      → length rest < suc (length s)
  unfolding Left
  p_scalar-lt c s v rest e = subst (Left (suc (length s))) e (p_scalar-Left c s)

pub p_key-lt :
    (obj : Members) (s key rest : Bytes) → p_key obj s ≡ some (key, rest) → length rest < length s
unfolding p_key
p_key-lt obj [] key rest e = ground arith
p_key-lt obj (c ∷ s) key rest e = elim (Option-cases (string_raw s)) [
  | inl no_string ↦ ground (arith, no_string)
  | inr ((k, s1), found) ↦ ground (
    arith,
    found,
    string_loop-lt (length s) s k s1 found,
    length-skip_ws s1,
    length-advance (skip_ws s1),
  )
]
