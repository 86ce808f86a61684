-- ===== src/Json/Fuel.antt =====
-- The rounds of the parser of src/json.c, against its runs.
use asterism_astools.Prelude.{ℕ, zero, suc, ◌*◌, ◌≤◌, ◌<◌, ◌≡◌, refl, ap, ◌∙◌, ◌↔◌, inl, inr}
use asterism_astools.Prelude.{true, false, Option, none, some, [], ◌∷◌, arith}
use asterism_astools.Prelude.{leb, ◌==◌}
use asterism_astools.Prelude.{length}
use asterism_astools.Prelude.{Bytes}
use asterism_astools.Prelude.{on_bool}
use asterism_astools.Json.{
  Json, array, object, Items, no_items, Members, no_members, array_push, obj_put,
}
use asterism_astools.Json.Parser.{
  skip_ws, p_key, closes, separator, as_array, as_object, max_depth, p_value, p_items, p_members,
  bad, string_step, string_loop, string_raw,
}
use asterism_astools.Json.Runs.{
  StringRun, string_closed, string_bad, string_on, ValueRun, no_value, too_deep, empty_array,
  array_run, empty_object, object_run, scalar_run, ItemsRun, item_bad, item_more, item_last,
  item_wrong, MembersRun, key_bad, member_bad, member_more, member_last, member_wrong,
}
use asterism_astools.Json.Length.{
  length-skip_ws, separator-more, p_key-lt, string_step-bytes, Piece-cases,
}
use asterism_astools.Json.Branches.{on_each_list, on_each_option, on_each_next}
use std.Path.{subst}
use asterism_astools.Json.Outcome.{ValueRun-p_value, StringRun-string_loop}
use asterism_astools.Json.Rest.{behind_ws, p_value-lt}

module _ (strtod : Bytes → Option ℕ) where
  nothing_there : (depth : ℕ) → ValueRun strtod depth [] none
  unfolding skip_ws
  nothing_there depth = no_value refl

  array_branch :
      (depth : ℕ) (s : Bytes) (c : ℕ) (r : Bytes) (o : Option (Items × Bytes))
      → skip_ws s ≡ c ∷ r
      → c ≡ b'['
      → ItemsRun strtod (suc depth) no_items (skip_ws r) o
      → ValueRun strtod depth s (elim (leb max_depth depth) [
        | true ↦ none
        | false ↦ elim (closes b']' (skip_ws r)) [
          | some rest ↦ some (array no_items, rest)
          | none ↦ as_array o
        ]
      ])
  array_branch depth s c r o e bracket run =
      let start : skip_ws s ≡ b'[' ∷ r = e ∙ ap (λ x. x ∷ r) bracket in
      on_bool (ValueRun strtod depth s) (leb max_depth depth) _ _
        (λ deep. too_deep e (inl bracket) (ground arith))
        λ fits.
          on_each_option (ValueRun strtod depth s) (closes b']' (skip_ws r)) _ _
            (λ inner. array_run start (ground arith) inner run)
            λ rest shut. empty_array start (ground arith) shut

  object_branch :
      (depth : ℕ) (s : Bytes) (c : ℕ) (r : Bytes) (o : Option (Members × Bytes))
      → skip_ws s ≡ c ∷ r
      → c ≡ b'{'
      → MembersRun strtod (suc depth) no_members (skip_ws r) o
      → ValueRun strtod depth s (elim (leb max_depth depth) [
        | true ↦ none
        | false ↦ elim (closes b'}' (skip_ws r)) [
          | some rest ↦ some (object no_members, rest)
          | none ↦ as_object o
        ]
      ])
  object_branch depth s c r o e bracket run =
      let start : skip_ws s ≡ b'{' ∷ r = e ∙ ap (λ x. x ∷ r) bracket in
      on_bool (ValueRun strtod depth s) (leb max_depth depth) _ _
        (λ deep. too_deep e (inr bracket) (ground arith))
        λ fits.
          on_each_option (ValueRun strtod depth s) (closes b'}' (skip_ws r)) _ _
            (λ inner. object_run start (ground arith) inner run)
            λ rest shut. empty_object start (ground arith) shut

  mutual
    unfolding p_value

    p_value-run :
        (rounds depth : ℕ) (s : Bytes)
        → 2 * length s ≤ rounds
        → ValueRun strtod depth s (p_value strtod rounds depth s)
    p_value-run zero depth [] h = nothing_there depth
    p_value-run zero depth (c ∷ s) h = absurd (omega arith)
    p_value-run (suc rounds) depth s h =
        on_each_list (ValueRun strtod depth s) (skip_ws s) _ _ (λ e. no_value e)
          λ c r e.
            let short = behind_ws s r c e in
            on_bool (ValueRun strtod depth s) (c == b'[') _ _
              (λ e1. array_branch depth s c r _ e (ground arith) (
                p_items-run rounds (suc depth) no_items (skip_ws r)
                  (omega (arith, short, length-skip_ws r))))
              λ e1.
                on_bool (ValueRun strtod depth s) (c == b'{') _ _
                  (λ e2. object_branch depth s c r _ e (ground arith) (
                    p_members-run rounds (suc depth) no_members (skip_ws r)
                      (omega (arith, short, length-skip_ws r))))
                  λ e2. scalar_run e (ground arith) (ground arith)

    p_items-run :
        (rounds depth : ℕ) (acc : Items) (s : Bytes)
        → 2 * length s < rounds
        → ItemsRun strtod depth acc s (p_items strtod rounds depth acc s)
    p_items-run zero depth acc s h = absurd (omega arith)
    p_items-run (suc rounds) depth acc s h =
        let value = p_value-run rounds depth s (omega arith) in
        on_each_option (ItemsRun strtod depth acc s) (p_value strtod rounds depth s) _ _
          (λ e. item_bad (rw e at value))
          λ (v, s1) e.
            let first : ValueRun strtod depth s (some (v, s1)) = rw e at value in
            on_each_next (ItemsRun strtod depth acc s) (separator b']' (skip_ws s1)) _ _ _
              (λ s2 n. item_more first n (
                p_items-run rounds depth (array_push acc v) s2 (
                  omega (
                    arith,
                    p_value-lt strtod rounds depth s v s1 e,
                    separator-more b']' (skip_ws s1) s2 n,
                    length-skip_ws s1,
                  ))))
              (λ s2 n. item_last first n) (λ n. item_wrong first n)

    p_members-run :
        (rounds depth : ℕ) (acc : Members) (s : Bytes)
        → 2 * length s < rounds
        → MembersRun strtod depth acc s (p_members strtod rounds depth acc s)
    p_members-run zero depth acc s h = absurd (omega arith)
    p_members-run (suc rounds) depth acc s h =
        on_each_option (MembersRun strtod depth acc s) (p_key acc (skip_ws s)) _ _ (λ e. key_bad e)
          λ (key, s1) keyed.
            let fewer : length s1 < length s =
              omega (arith, p_key-lt acc (skip_ws s) key s1 keyed, length-skip_ws s) in
            let value = p_value-run rounds depth s1 (omega (arith, fewer)) in
            on_each_option (MembersRun strtod depth acc s) (p_value strtod rounds depth s1) _ _
              (λ e. member_bad keyed (rw e at value))
              λ (v, s2) e.
                let first : ValueRun strtod depth s1 (some (v, s2)) = rw e at value in
                on_each_next (MembersRun strtod depth acc s) (separator b'}' (skip_ws s2)) _ _ _
                  (λ s3 n. member_more keyed first n (
                    p_members-run rounds depth (obj_put acc key v) s3 (
                      omega (
                        arith,
                        fewer,
                        p_value-lt strtod rounds depth s1 v s2 e,
                        separator-more b'}' (skip_ws s2) s3 n,
                        length-skip_ws s2,
                      ))))
                  (λ s3 n. member_last keyed first n) (λ n. member_wrong keyed first n)

string_loop-run : (rounds : ℕ) (s : Bytes) → length s ≤ rounds → StringRun s (string_loop rounds s)
unfolding string_loop
string_loop-run zero [] h =
    let nothing : string_step [] ≡ bad = unfold string_step in refl in string_bad nothing
string_loop-run zero (c ∷ s) h = absurd (omega arith)
string_loop-run (suc rounds) s h = elim (Piece-cases (string_step s)) [
  | inl failed ↦ rw (string_loop, failed) (string_bad failed)
  | inr (inl (r, over)) ↦ rw (string_loop, over) (string_closed over)
  | inr (inr (piece, r, on)) ↦
      rw (string_loop, on)
        (string_on on (string_loop-run rounds r (omega (arith, string_step-bytes s piece r on))))
]

-- The parser comes to an end on every text, and with two rounds for each byte or more it gives the outcome of its run, which
-- is finite and has no bound on the rounds: a value has a run with some outcome exactly if that is what the function gives,
-- and the same holds of the loop over a string.
pub p_value-ValueRun :
    (strtod : Bytes → Option ℕ) (rounds depth : ℕ) (s : Bytes)
    → 2 * length s ≤ rounds
    → ((o : Option (Json × Bytes))
        → ValueRun strtod depth s o ↔ (p_value strtod rounds depth s ≡ o))
      × ((o : Option (Bytes × Bytes)) → StringRun s o ↔ (string_raw s ≡ o))
p_value-ValueRun strtod rounds depth s h = (
  λ o. (
    (λ run. ValueRun-p_value strtod rounds depth s o run h),
    λ e. subst (ValueRun strtod depth s) e (p_value-run strtod rounds depth s h),
  ),
  λ o. (
    (λ run. StringRun-string_loop (length s) run (omega arith)),
    λ e. subst (StringRun s) e (string_loop-run (length s) s (omega arith)),
  ),
)
