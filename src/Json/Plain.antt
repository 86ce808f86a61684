-- ===== src/Json/Plain.antt =====
-- The values of src/json.c that JSON can hold, the rounds that reading them takes, and how their text starts.
use asterism_astools.Prelude.{ℕ, zero, suc, ◌+◌, ◌≡◌, refl, sym, ap, ◌∙◌}
use asterism_astools.Prelude.{
  Bool, true, false, not, ◌&&◌, ◌||◌, Option, List, [], ◌∷◌, ◌++◌, arith,
}
use asterism_astools.Prelude.{◌==◌}
use asterism_astools.Prelude.{All}
use asterism_astools.Prelude.{Bytes, str_eq, is_digit}
use std.Path.{subst}
use mathlib.Core.List.{append-nil}
use asterism_astools.Utf8.Spec.{IsScalar, encode_all}
use asterism_astools.Json.{
  integer, double, Json, null, boolean, number, string, array, object, Items, no_items, item,
  Members, no_members, member, array_push, obj_put, object_get,
}
use asterism_astools.Json.Parser.{is_ws, has_nul, has_key}
use asterism_astools.Json.Writer.{w_number, w_value}
use asterism_astools.Json.Numbers.{fits, sign_of, IsDecimal, IsWritten, decimal_digits-IsWritten}
use asterism_astools.Json.Laws.{object_get-obj_put}

-- A string of Unicode scalar values.
abbrev pub IsUnicode : Bytes → Type 0
IsUnicode s = (vs : List ℕ) × All IsScalar vs × (encode_all vs ≡ s)

unfoldable pub keys_differ : Bytes → Members → Bool
keys_differ key no_members = true
keys_differ key (member k v ms) = not (str_eq key k) && keys_differ key ms

-- The values that are written as JSON: Unicode strings, keys that differ and hold no NUL, integers that
-- fit an `int64_t`, and at most `room` arrays and objects inside one another.
unfoldable mutual
  pub IsPlain : ℕ → Json → Type 0
  IsPlain room null = Unit {0}
  IsPlain room (boolean b) = Unit {0}
  IsPlain room (number (integer negative n)) = fits negative n ≡ true
  IsPlain room (number (double bits)) = ⊥
  IsPlain room (string s) = IsUnicode s
  IsPlain zero (array xs) = ⊥
  IsPlain (suc room) (array xs) = ArePlain room xs
  IsPlain zero (object ms) = ⊥
  IsPlain (suc room) (object ms) = HavePlain room ms

  pub ArePlain : ℕ → Items → Type 0
  ArePlain room no_items = Unit {0}
  ArePlain room (item x xs) = IsPlain room x × ArePlain room xs

  pub HavePlain : ℕ → Members → Type 0
  HavePlain room no_members = Unit {0}
  HavePlain room (member k x ms) =
      IsUnicode k
      × (has_nul k ≡ false)
      × (keys_differ k ms ≡ true)
      × IsPlain room x
      × HavePlain room ms

-- How many rounds reading it takes.
unfoldable mutual
  pub cost : Json → ℕ
  cost (array xs) = suc (cost_items xs)
  cost (object ms) = suc (cost_members ms)
  cost _ = 1

  pub cost_items : Items → ℕ
  cost_items no_items = 0
  cost_items (item x xs) = suc (cost x + cost_items xs)

  pub cost_members : Members → ℕ
  cost_members no_members = 0
  cost_members (member k x ms) = suc (cost x + cost_members ms)

-- One list behind another.
unfoldable pub joined : Items → Items → Items
joined no_items ys = ys
joined (item x xs) ys = item x (joined xs ys)

unfoldable pub merged : Members → Members → Members
merged no_members ns = ns
merged (member k x ms) ns = member k x (merged ms ns)

pub joined-array_push :
    (xs ys : Items) (v : Json) → joined (array_push xs v) ys ≡ joined xs (item v ys)
unfolding joined array_push
joined-array_push no_items ys v = refl
joined-array_push (item x xs) ys v = ap (item x) (joined-array_push xs ys v)

pub joined-no_items : (xs : Items) → joined xs no_items ≡ xs
unfolding joined
joined-no_items no_items = refl
joined-no_items (item x xs) = ap (item x) (joined-no_items xs)

pub merged-no_members : (ms : Members) → merged ms no_members ≡ ms
unfolding merged
merged-no_members no_members = refl
merged-no_members (member k x ms) = ap (member k x) (merged-no_members ms)

has_key-member :
    (k : Bytes) (x : Json) (ms : Members) (key : Bytes)
    → has_key (member k x ms) key ≡ str_eq k key || has_key ms key
unfolding object_get
has_key-member k x ms key = ground arith

pub merged-obj_put :
    (ms ns : Members) (key : Bytes) (v : Json)
    → has_key ms key ≡ false
    → merged (obj_put ms key v) ns ≡ merged ms (member key v ns)
unfolding merged obj_put
merged-obj_put no_members ns key v h = refl
merged-obj_put (member k x ms) ns key v h =
    let h2 : str_eq k key || has_key ms key ≡ false = sym (has_key-member k x ms key) ∙ h in
    let other : str_eq k key ≡ false = ground arith in
    rw other (ap (member k x) (merged-obj_put ms ns key v (ground arith)))

has_key-obj_put :
    (ms : Members) (key : Bytes) (v : Json) (j : Bytes)
    → has_key (obj_put ms key v) j ≡ str_eq key j || has_key ms j
has_key-obj_put ms key v j = rw (has_key, object_get-obj_put ms key v j) (ground arith)

-- No key of the second is one of the first.
unfoldable pub unseen : Members → Members → Bool
unseen ms no_members = true
unseen ms (member k x ns) = not (has_key ms k) && unseen ms ns

-- Setting a key that differs from all that are to come.
pub unseen-obj_put :
    (ms : Members) (key : Bytes) (v : Json) (ns : Members)
    → unseen ms ns ≡ true
    → keys_differ key ns ≡ true
    → unseen (obj_put ms key v) ns ≡ true
unfolding unseen keys_differ
unseen-obj_put ms key v no_members h d = refl
unseen-obj_put ms key v (member k x ns) h d =
    let rest : unseen (obj_put ms key v) ns ≡ true =
      unseen-obj_put ms key v ns (ground arith) (ground arith) in
    ground (arith, has_key-obj_put ms key v k)

pub unseen-no_members : (ns : Members) → unseen no_members ns ≡ true
unfolding unseen object_get
unseen-no_members no_members = refl
unseen-no_members (member k x ns) = unseen-no_members ns

-- The first byte of what a value is written as.
pub record Starts (text : Bytes) : Type 0 where
  pub first : ℕ
  pub tail : Bytes
  pub begins : text ≡ first ∷ tail
  pub black : is_ws first ≡ false
  pub opens : (first == b']') ≡ false

pub w_number-IsWritten :
    (print_g : ℕ → ℕ → Bytes) (strtod : Bytes → Option ℕ) (negative : Bool) (n : ℕ)
    → fits negative n ≡ true
    → (w : IsWritten 19 n []) × (w_number print_g strtod (integer negative n)
        ≡ sign_of negative ++ w.ds)
unfolding w_number fits
w_number-IsWritten print_g strtod true n h =
    let w = decimal_digits-IsWritten 18 n [] (ground arith) in
    (w, ap (◌∷◌ b'-') (w.written ∙ append-nil w.ds))
w_number-IsWritten print_g strtod false n h =
    let w = decimal_digits-IsWritten 18 n [] (ground arith) in (w, w.written ∙ append-nil w.ds)

-- A number of digits starts with one.
pub digits_start :
    (ds : Bytes) (n : ℕ)
    → IsDecimal ds n
    → (c : ℕ) × (t : Bytes) × (ds ≡ c ∷ t) × (is_digit c ≡ true)
digits_start [] n d = absurd (d.nonempty refl)
digits_start (c ∷ t) n d = (c, t, refl, d.all_digits.0)

number_start :
    (negative : Bool) (ds : Bytes) (n : ℕ) → IsDecimal ds n → Starts (sign_of negative ++ ds)
number_start true ds n d = record {
  first = b'-';
  tail = ds;
  begins = refl;
  black = refl;
  opens = refl;
}
number_start false ds n d =
    let (c, t, e, digit) = digits_start ds n d in
    record { first = c; tail = t; begins = e; black = ground arith; opens = ground arith }

starts : (c : ℕ) (t : Bytes) → is_ws c ≡ false → (c == b']') ≡ false → Starts (c ∷ t)
starts c t e f = record { first = c; tail = t; begins = refl; black = e; opens = f }

pub w_value-Starts :
    (print_g : ℕ → ℕ → Bytes) (strtod : Bytes → Option ℕ) (pretty : Bool) (level room : ℕ)
    (v : Json)
    → IsPlain room v
    → Starts (w_value print_g strtod pretty level v)
unfolding w_value IsPlain
w_value-Starts print_g strtod pretty level room null h = starts _ _ refl refl
w_value-Starts print_g strtod pretty level room (boolean true) h = starts _ _ refl refl
w_value-Starts print_g strtod pretty level room (boolean false) h = starts _ _ refl refl
w_value-Starts print_g strtod pretty level room (number (integer negative n)) h =
    let (w, e) = w_number-IsWritten print_g strtod negative n h in
    subst Starts (sym e) (number_start negative w.ds n w.is_decimal)
w_value-Starts print_g strtod pretty level room (number (double bits)) h = absurd h
w_value-Starts print_g strtod pretty level room (string s) h = starts _ _ refl refl
w_value-Starts print_g strtod pretty level room (array no_items) h = starts _ _ refl refl
w_value-Starts print_g strtod pretty level room (array (item x xs)) h = starts _ _ refl refl
w_value-Starts print_g strtod pretty level room (object no_members) h = starts _ _ refl refl
w_value-Starts print_g strtod pretty level room (object (member k x ms)) h = starts _ _ refl refl
