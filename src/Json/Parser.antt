-- ===== src/Json/Parser.antt =====
-- The numbers and the values of the parser of src/json.c. What is left of the text is a list of bytes,
-- and `depth` the number of open arrays and objects.
mod Text
unfoldable pub use Text.*
use asterism_astools.Prelude.{
  ℕ, zero, suc, ◌+◌, ◌-◌, ◌*◌, ◌/◌, ◌%◌, ◌^◌, ◌≤◌, ◌<◌, ◌≡◌, refl, sym, ap, ◌∙◌, ◌≢◌, ◌↔◌, ◌⊎◌, inl,
  inr,
}
use asterism_astools.Prelude.{
  Bool, true, false, not, ◌&&◌, ◌||◌, Option, none, some, List, [], ◌∷◌, ◌++◌, map, arith,
}
use asterism_astools.Prelude.{
  ltb, leb, ◌==◌, if◌then◌else◌, ltb→lt, lt→ltb, leb→le, ==_iff, tests, Bool-cases, some_inj,
  bool_clash, Option-cases, agree_below, agree_below→eq,
}
use asterism_astools.Prelude.{
  length, get_elem?, get_or, take, drop, replicate, length-append, take-append-drop,
  drop-append_length, take-append_length, All-drop, All-append, zero_or_suc, list_cases, length_pos,
  length-take, length-drop, All,
}
use asterism_astools.Prelude.{
  bind_option, bind_option_inv, Bytes, AreBytes, str_eq, str_eq_iff, str_eq_refl, codes, peek,
  advance, within, is_digit, Result, ok, err, Err, Result-cases, bind-eq-ok, ◌>>=◌,
}
use asterism_astools.Json.{
  Number, integer, double, Json, null, boolean, number, string, array, object, Items, no_items,
  Members, no_members, array_push, obj_put, object_get,
}

-- The digits at the start, and what follows them.
unfoldable pub digits : Bytes → Bytes × Bytes
digits [] = ([], [])
digits (c ∷ s) = let (ds, rest) = digits s in if is_digit c then (c ∷ ds, rest) else ([], c ∷ s)

-- The parts of a number in `p_number`: each gives the text that it took and what follows.
unfoldable pub sign_part : Bytes → Bytes × Bytes
sign_part [] = ([], [])
sign_part (c ∷ s) = if c == b'-' then (c ∷ [], s) else ([], c ∷ s)

unfoldable pub integer_part : Bytes → Option (Bytes × Bytes)
integer_part [] = none
integer_part (c ∷ s) =
    if c == b'0' then some (c ∷ [], s) else if is_digit c then some (digits (c ∷ s)) else none

-- One digit at least, behind some text.
unfoldable pub some_digits : Bytes → Bytes → Option (Bytes × Bytes)
some_digits front s =
    if not (is_digit (peek s)) then none else some (front ++ (digits s).0, (digits s).1)

unfoldable pub fraction_part : Bytes → Option (Bytes × Bytes)
fraction_part [] = some ([], [])
fraction_part (c ∷ s) = if c == b'.' then some_digits (c ∷ []) s else some ([], c ∷ s)

unfoldable pub exponent_part : Bytes → Option (Bytes × Bytes)
exponent_part [] = some ([], [])
exponent_part (c ∷ s) =
    if c == b'e' || c == b'E'
    then (if peek s == b'+' || peek s == b'-'
        then some_digits (c ∷ peek s ∷ []) (advance s)
        else some_digits (c ∷ []) s)
    else some ([], c ∷ s)

-- The value of a run of digits.
abbrev pub decimal_from : ℕ → Bytes → ℕ
decimal_from n [] = n
decimal_from n (c ∷ ds) = decimal_from (n * 10 + (c - b'0')) ds

-- `strtoll` on a text of this form, where there is no overflow, less the zero with a sign.
unfoldable pub integer_of : Bytes → Bytes → Option Number
integer_of sign ds =
    let n = decimal_from 0 ds in
    if peek sign == b'-'
    then (if n == 0 || ltb (2 ^ 63) n then none else some (integer true n))
    else if ltb (2 ^ 63 - 1) n
    then none
    else some (integer false n)

abbrev pub is_nil : Bytes → Bool
is_nil [] = true
is_nil (_ ∷ _) = false

unfoldable pub number_of : Option ℕ → Option Number → Option Number
number_of none i = none
number_of (some d) none = some (double d)
number_of (some d) (some i) = some i

-- `strlen(key) != klen`
unfoldable pub has_nul : Bytes → Bool
has_nul [] = false
has_nul (c ∷ s) = c == 0 || has_nul s

abbrev pub has_key : Members → Bytes → Bool
has_key obj key = elim (object_get obj key) [ none ↦ false | some _ ↦ true ]

-- `JX_MAX_DEPTH`
abbrev pub max_depth : ℕ
max_depth = 64

-- `strtod` on the text of a number; `none` where the value is not finite.
module _ (strtod : Bytes → Option ℕ) where
  -- `p_number`
  unfoldable pub p_number : Bytes → Option (Json × Bytes)
  p_number s =
      let (sign, s1) = sign_part s in
      bind_option (integer_part s1) λ (whole, s2). bind_option (fraction_part s2) λ (fraction, s3).
        bind_option (exponent_part s3) λ (exponent, s4).
          bind_option
            (number_of (strtod (sign ++ (whole ++ (fraction ++ exponent))))
              (if is_nil fraction && is_nil exponent then integer_of sign whole else none))
            λ n. some (number n, s4)

  -- The cases of `p_value` that are no array and no object; `c` is the first byte.
  unfoldable pub p_scalar : ℕ → Bytes → Option (Json × Bytes)
  p_scalar c s =
      if c == b'n'
      then (bind_option (literal (codes "null") (c ∷ s)) λ rest. some (null, rest))
      else if c == b't'
      then (bind_option (literal (codes "true") (c ∷ s)) λ rest. some (boolean true, rest))
      else if c == b'f'
      then (bind_option (literal (codes "false") (c ∷ s)) λ rest. some (boolean false, rest))
      else if c == b'"'
      then (bind_option (string_raw s) λ (str, rest). some (string str, rest))
      else if c == b'-' || is_digit c
      then p_number (c ∷ s)
      else none

-- The key of a member with its colon; a key with a NUL inside, or one that the object has, is refused.
unfoldable pub p_key : Members → Bytes → Option (Bytes × Bytes)
p_key obj s =
    if not (peek s == b'"')
    then none
    else (bind_option (string_raw (advance s)) λ (key, s1).
        if has_nul key || has_key obj key
        then none
        else if not (peek (skip_ws s1) == b':')
        then none
        else some (key, advance (skip_ws s1)))

-- What follows a closing bracket, behind white space.
unfoldable pub closes : ℕ → Bytes → Option Bytes
closes close [] = none
closes close (c ∷ s) = if c == close then some s else none

-- What stands behind an item or a member: a comma, the closing bracket, or something else.
pub data Next : Type 0 where
  more : (rest : Bytes) → Next
  last : (rest : Bytes) → Next
  wrong : Next

unfoldable pub separator : ℕ → Bytes → Next
separator close [] = wrong
separator close (c ∷ s) = if c == b',' then more s else if c == close then last s else wrong

abbrev pub as_array : Option (Items × Bytes) → Option (Json × Bytes)
as_array none = none
as_array (some (xs, rest)) = some (array xs, rest)

abbrev pub as_object : Option (Members × Bytes) → Option (Json × Bytes)
as_object none = none
as_object (some (ms, rest)) = some (object ms, rest)

module _ (strtod : Bytes → Option ℕ) where
  -- `p_value` with the branches of `p_array` and `p_object`, and the loops of these two.
  unfoldable mutual
    pub p_value : ℕ → ℕ → Bytes → Option (Json × Bytes)
    p_value zero depth s = none
    p_value (suc fuel) depth s = elim (skip_ws s) [
      | [] ↦ none
      | c ∷ r ↦ elim (c == b'[') [
        | true ↦ elim (leb max_depth depth) [
          | true ↦ none
          | false ↦ elim (closes b']' (skip_ws r)) [
            | some rest ↦ some (array no_items, rest)
            | none ↦ as_array (p_items fuel (suc depth) no_items (skip_ws r))
          ]
        ]
        | false ↦ elim (c == b'{') [
          | true ↦ elim (leb max_depth depth) [
            | true ↦ none
            | false ↦ elim (closes b'}' (skip_ws r)) [
              | some rest ↦ some (object no_members, rest)
              | none ↦ as_object (p_members fuel (suc depth) no_members (skip_ws r))
            ]
          ]
          | false ↦ p_scalar strtod c r
        ]
      ]
    ]

    pub p_items : ℕ → ℕ → Items → Bytes → Option (Items × Bytes)
    p_items zero depth arr s = none
    p_items (suc fuel) depth arr s = elim (p_value fuel depth s) [
      | none ↦ none
      | some (v, s1) ↦ elim (separator b']' (skip_ws s1)) [
        | more s2 ↦ p_items fuel depth (array_push arr v) s2
        | last s2 ↦ some (array_push arr v, s2)
        | wrong ↦ none
      ]
    ]

    pub p_members : ℕ → ℕ → Members → Bytes → Option (Members × Bytes)
    p_members zero depth obj s = none
    p_members (suc fuel) depth obj s = elim (p_key obj (skip_ws s)) [
      | none ↦ none
      | some (key, s1) ↦ elim (p_value fuel depth s1) [
        | none ↦ none
        | some (v, s2) ↦ elim (separator b'}' (skip_ws s2)) [
          | more s3 ↦ p_members fuel depth (obj_put obj key v) s3
          | last s3 ↦ some (obj_put obj key v, s3)
          | wrong ↦ none
        ]
      ]
    ]

  -- `jx_parse`. A call of `p_value` on `n` bytes has `2 * n` rounds.
  unfoldable pub json_parse : Bytes → Option Json
  json_parse s =
      bind_option (p_value (2 * length s) 0 s)
        λ (v, rest). if is_nil (skip_ws rest) then some v else none
