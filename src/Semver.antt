-- ===== src/Semver.antt =====
-- src/semver.c: parsing and precedence of SemVer 2.0.0. An `int64_t` that is never negative is a
-- number; its overflow guard is that of the source.
pub mod Bounds
pub mod Order
use asterism_astools.Prelude.{
  ℕ, zero, suc, ◌+◌, ◌-◌, ◌*◌, ◌/◌, ◌%◌, ◌^◌, ◌≤◌, ◌<◌, ◌≡◌, refl, sym, ap, ◌∙◌, ◌≢◌, ◌↔◌, ◌⊎◌, inl,
  inr,
}
use asterism_astools.Prelude.{
  Bool, true, false, not, ◌&&◌, ◌||◌, Option, none, some, List, [], ◌∷◌, ◌++◌, map, arith,
}
use asterism_astools.Prelude.{
  ltb, leb, ◌==◌, if◌then◌else◌, ltb→lt, lt→ltb, leb→le, ==_iff, tests, Bool-cases, some_inj,
  bool_clash, Option-cases, agree_below, agree_below→eq,
}
use asterism_astools.Prelude.{
  length, get_elem?, get_or, take, drop, replicate, length-append, take-append-drop,
  drop-append_length, All-drop, All-append, zero_or_suc, list_cases, length_pos, length-take,
  length-drop, All,
}
use asterism_astools.Prelude.{
  Bytes, AreBytes, str_eq, str_eq_iff, str_eq_refl, codes, peek, advance, within, is_digit, Result,
  ok, err, Err, Result-cases, bind-eq-ok, ◌>>=◌,
}

-- `INT64_MAX`
abbrev pub int64_max : ℕ
int64_max = 2 ^ 63 - 1

abbrev pub is_ident_char : ℕ → Bool
is_ident_char c = is_digit c || within b'a' b'z' c || within b'A' b'Z' c || c == b'-'

-- The loop of `sv_number`.
unfoldable pub sv_number_loop : ℕ → Bytes → Option (ℕ × Bytes)
sv_number_loop v [] = some (v, [])
sv_number_loop v (c ∷ s) =
    let d = c - b'0' in
    let more = sv_number_loop (v * 10 + d) s in
    if not (is_digit c)
    then some (v, c ∷ s)
    else if ltb ((int64_max - d) / 10) v
    then none
    else more

unfoldable pub sv_number : Bytes → Option (ℕ × Bytes)
sv_number s =
    if not (is_digit (peek s))
    then none
    else if peek s == b'0' && is_digit (peek (advance s))
    then none
    else sv_number_loop 0 s

-- `sv_idents`: `in_field` has read `len` characters of an identifier that starts with `first`,
-- `start_field` stands in front of one.
unfoldable mutual
  pub in_field : Bool → ℕ → ℕ → Bool → Bytes → Option Bytes
  in_field strict first len numeric [] =
      if strict && numeric && ltb 1 len && first == b'0' then none else some []
  in_field strict first len numeric (c ∷ s) = elim (is_ident_char c) [
    | true ↦ in_field strict first (len + 1) (numeric && is_digit c) s
    | false ↦ elim (strict && numeric && ltb 1 len && first == b'0') [
      | true ↦ none
      | false ↦ elim (c == b'.') [ true ↦ start_field strict s | false ↦ some (c ∷ s) ]
    ]
  ]

  pub start_field : Bool → Bytes → Option Bytes
  start_field strict [] = none
  start_field strict (c ∷ s) = elim (is_ident_char c) [
    | true ↦ in_field strict c 1 (is_digit c) s
    | false ↦ none
  ]

-- `astools_semver`; `prerelease` is `none` for a null pointer.
pub record Semver : Type 0 where
  pub major : ℕ
  pub minor : ℕ
  pub patch : ℕ
  pub prerelease : Option Bytes

abbrev pub then_parse {ℓ κ} : {A : Type ℓ} {B : Type κ} → Option A → (A → Option B) → Option B
then_parse none f = none
then_parse (some a) f = f a

-- A component and the dot behind it.
unfoldable pub dotted : Bytes → Option (ℕ × Bytes)
dotted s =
    then_parse (sv_number s) λ (v, rest). if peek rest == b'.' then some (v, advance rest) else none

-- The pre-release, with the text behind it.
unfoldable pub prerelease_part : Bytes → Option (Option Bytes × Bytes)
prerelease_part s =
    if peek s == b'-'
    then (then_parse (start_field true (advance s))
        λ rest. some (some (take (length (advance s) - length rest) (advance s)), rest))
    else some (none, s)

-- The build metadata, which is dropped.
unfoldable pub build_part : Bytes → Option Bytes
build_part s = if peek s == b'+' then start_field false (advance s) else some s

-- `astools_semver_parse`
unfoldable pub semver_parse : Bytes → Option Semver
semver_parse s = then_parse (dotted s) λ (maj, s1). then_parse (dotted s1) λ (min, s2).
    then_parse (sv_number s2) λ (pat, s3). then_parse (prerelease_part s3) λ (pre, s4).
      then_parse (build_part s4) λ s5.
        if not (peek s5 == 0)
        then none
        else some (record { major = maj; minor = min; patch = pat; prerelease = pre })

-- The results -1, 0 and 1 of a comparison.
pub data Sign : Type 0 where
  before same after : Sign

-- The field at the start, up to a dot or the end, and what follows it and its dot.
unfoldable pub field : Bytes → Bytes
field [] = []
field (c ∷ s) = let rest = field s in if c == b'.' then [] else c ∷ rest

unfoldable pub after_field : Bytes → Bytes
after_field [] = []
after_field (c ∷ s) = let rest = after_field s in if c == b'.' then s else rest

unfoldable pub all_digits : Bytes → Bool
all_digits [] = true
all_digits (c ∷ s) = is_digit c && all_digits s

-- `sv_field_numeric`
unfoldable pub field_numeric : Bytes → Bool
field_numeric [] = false
field_numeric (c ∷ s) = all_digits (c ∷ s)

abbrev pub compare_nat : ℕ → ℕ → Sign
compare_nat x y = if x == y then same else if ltb x y then before else after

-- `memcmp` on the first bytes that both have.
unfoldable pub memcmp : Bytes → Bytes → Sign
memcmp (x ∷ xs) (y ∷ ys) =
    let rest = memcmp xs ys in if x == y then rest else if ltb x y then before else after
memcmp _ _ = same

-- The first of two comparisons that decides.
abbrev pub or_else : Sign → Sign → Sign
or_else before r = before
or_else same r = r
or_else after r = after

-- One pair of fields.
unfoldable pub compare_field : Bytes → Bytes → Sign
compare_field x y =
    let na = field_numeric x in
    let nb = field_numeric y in
    if na && not nb
    then before
    else if not na && nb
    then after
    else if na
    then or_else (compare_nat (length x) (length y)) (memcmp x y)
    else or_else (memcmp x y) (compare_nat (length x) (length y))

-- The loop over the fields. Each round takes a byte at least of each text.
unfoldable pub compare_fields : ℕ → Bytes → Bytes → Sign
compare_fields fuel [] [] = same
compare_fields fuel [] (_ ∷ _) = before
compare_fields fuel (_ ∷ _) [] = after
compare_fields zero (_ ∷ _) (_ ∷ _) = same
compare_fields (suc fuel) (x ∷ xs) (y ∷ ys) =
    or_else (compare_field (field (x ∷ xs)) (field (y ∷ ys)))
      (compare_fields fuel (after_field (x ∷ xs)) (after_field (y ∷ ys)))

unfoldable pub compare_prerelease : Option Bytes → Option Bytes → Sign
compare_prerelease none none = same
compare_prerelease none (some y) = after
compare_prerelease (some x) none = before
compare_prerelease (some x) (some y) = compare_fields (length x) x y

-- `astools_semver_cmp`, of two versions that are not null
unfoldable pub semver_cmp : Semver → Semver → Sign
semver_cmp a b = or_else (compare_nat a.major b.major) (
    or_else (compare_nat a.minor b.minor)
      (or_else (compare_nat a.patch b.patch) (compare_prerelease a.prerelease b.prerelease)))
