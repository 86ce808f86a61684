-- ===== src/Json/Reading.antt =====
-- The parts of a value's text in src/json.c: strings, keys, integers, and what stands between them.
use asterism_astools.Prelude.{ℕ, ◌≡◌, refl, sym, ap, ◌∙◌}
use asterism_astools.Prelude.{Bool, true, false, Option, none, some, [], ◌∷◌, ◌++◌, arith}
use asterism_astools.Prelude.{◌==◌}
use asterism_astools.Prelude.{Bytes, peek, is_digit}
use std.Path.{subst}
use mathlib.Core.List.{append_assoc}
use asterism_astools.Json.{
  integer, Json, number, Items, no_items, item, Members, no_members, member,
}
use asterism_astools.Json.Parser.{
  is_ws, skip_ws, has_nul, has_key, p_scalar, p_key, closes, string_raw, p_number,
}
use asterism_astools.Json.Writer.{
  w_string, w_bytes, new_line, colon, w_number, w_value, w_items, w_members,
}
use asterism_astools.Json.Strings.{string_raw-w_bytes}
use asterism_astools.Json.Numbers.{IsFinite, stops, p_number-decimal}
use asterism_astools.Json.Plain.{
  IsUnicode, IsPlain, digits_start, w_number-IsWritten, w_value-Starts,
}
use asterism_astools.Json.Steps.{skip_ws-cons, skip_ws-new_line}

not_closed : (c : ℕ) (t : Bytes) → (c == b']') ≡ false → closes b']' (c ∷ t) ≡ none
unfolding closes
not_closed c t e = rw e refl

-- A string that is written, with its quotes.
pub read_string :
    (s rest : Bytes) → IsUnicode s → string_raw (w_bytes s ++ b'"' ∷ rest) ≡ some (s, rest)
read_string s rest (vs, scalars, e) =
    subst (λ t. string_raw (w_bytes t ++ b'"' ∷ rest) ≡ some (t, rest)) e
      (string_raw-w_bytes vs rest scalars)

pub string_text : (s rest : Bytes) → w_string s ++ rest ≡ b'"' ∷ (w_bytes s ++ b'"' ∷ rest)
string_text s rest = ap (◌∷◌ b'"') (append_assoc (w_bytes s) (b'"' ∷ []) rest)

-- The colon, and the blank behind it.
read_colon :
    (pretty : Bool) (rest : Bytes)
    → (t : Bytes) × (skip_ws (colon pretty ++ rest) ≡ b':' ∷ t) × (skip_ws t ≡ skip_ws rest)
unfolding skip_ws
read_colon true rest = (b' ' ∷ rest, refl, refl)
read_colon false rest = (rest, refl, refl)

pub read_key :
    (pretty : Bool) (obj : Members) (k rest : Bytes)
    → IsUnicode k
    → has_nul k ≡ false
    → has_key obj k ≡ false
    → (t : Bytes) × (p_key obj (w_string k ++ (colon pretty ++ rest)) ≡ some (k, t))
      × (skip_ws t ≡ skip_ws rest)
unfolding p_key
read_key pretty obj k rest unicode no_nul new =
    let (t, e, f) = read_colon pretty rest in
    (
      t,
      rw (string_text k (colon pretty ++ rest))
          (rw (read_string k (colon pretty ++ rest) unicode) (rw (no_nul, new) (rw e refl))),
      f,
    )

digit_scalar :
    (strtod : Bytes → Option ℕ) (c : ℕ) (r : Bytes)
    → is_digit c ≡ true
    → p_scalar strtod c r ≡ p_number strtod (c ∷ r)
unfolding p_scalar
digit_scalar strtod c r h = ground arith

-- Behind the items or members comes the closing bracket.
pub closing :
    (pretty : Bool) (level close : ℕ) (rest : Bytes)
    → is_ws close ≡ false
    → skip_ws ((new_line pretty level ++ close ∷ []) ++ rest) ≡ close ∷ rest
closing pretty level close rest h =
    rw (append_assoc (new_line pretty level) (close ∷ []) rest)
      (skip_ws-new_line pretty level (close ∷ rest) ∙ skip_ws-cons close rest h)

module _ (print_g : ℕ → ℕ → Bytes) (strtod : Bytes → Option ℕ) (finite : IsFinite strtod) where
  pub read_integer :
      (negative : Bool) (n room : ℕ) (rest : Bytes)
      → IsPlain room (number (integer negative n))
      → stops (peek rest) ≡ true
      → (c : ℕ) × (r : Bytes) × (w_number print_g strtod (integer negative n) ++ rest ≡ c ∷ r)
        × (is_ws c ≡ false)
        × ((c == b'[') ≡ false)
        × ((c == b'{') ≡ false)
        × (p_scalar strtod c r ≡ some (number (integer negative n), rest))
  unfolding IsPlain p_scalar
  read_integer true n room rest h stop =
      let (w, e) = w_number-IsWritten print_g strtod true n h in
      (
        b'-',
        w.ds ++ rest,
        ap (λ t. t ++ rest) e,
        refl,
        refl,
        refl,
        p_number-decimal strtod true n w.ds rest finite w.is_decimal w.short h stop,
      )
  read_integer false n room rest h stop =
      let (w, e) = w_number-IsWritten print_g strtod false n h in
      let (c, t, f, digit) = digits_start w.ds n w.is_decimal in
      let read = p_number-decimal strtod false n w.ds rest finite w.is_decimal w.short h stop in
      (
        c,
        t ++ rest,
        ap (λ u. u ++ rest) (e ∙ f),
        ground arith,
        ground arith,
        ground arith,
        digit_scalar strtod c (t ++ rest) digit
            ∙ subst (λ u. p_number strtod (u ++ rest) ≡ some (number (integer false n), rest)) f
                read,
      )

  pub stops-w_items :
      (pretty : Bool) (level : ℕ) (rest : Bytes) (xs : Items)
      → stops (peek (w_items print_g strtod pretty level xs ++ rest)) ≡ true
  unfolding w_items new_line
  stops-w_items true level rest no_items = refl
  stops-w_items false level rest no_items = refl
  stops-w_items pretty level rest (item x xs) = refl

  pub stops-w_members :
      (pretty : Bool) (level : ℕ) (rest : Bytes) (ms : Members)
      → stops (peek (w_members print_g strtod pretty level ms ++ rest)) ≡ true
  unfolding w_members new_line
  stops-w_members true level rest no_members = refl
  stops-w_members false level rest no_members = refl
  stops-w_members pretty level rest (member k x ms) = refl

  -- A value is not preceded by white space, and does not close an array.
  pub value_first :
      (pretty : Bool) (level room : ℕ) (v : Json) (t : Bytes)
      → IsPlain room v
      → (skip_ws (w_value print_g strtod pretty level v ++ t)
          ≡ w_value print_g strtod pretty level v ++ t)
        × (closes b']' (w_value print_g strtod pretty level v ++ t) ≡ none)
  value_first pretty level room v t h =
      let w = w_value-Starts print_g strtod pretty level room v h in
      subst (λ u. (skip_ws (u ++ t) ≡ u ++ t) × (closes b']' (u ++ t) ≡ none)) (sym w.begins)
        (skip_ws-cons w.first (w.tail ++ t) w.black, not_closed w.first (w.tail ++ t) w.opens)
