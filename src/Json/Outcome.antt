-- ===== src/Json/Outcome.antt =====
-- The outcome of a run of the parser of src/json.c.
use asterism_astools.Prelude.{ℕ, zero, suc, ◌*◌, ◌≤◌, ◌<◌, ◌≡◌, refl, ap, ◌∙◌, ◌⊎◌, inl, inr}
use asterism_astools.Prelude.{true, false, Option, none, [], ◌∷◌, arith}
use asterism_astools.Prelude.{leb, ◌==◌}
use asterism_astools.Prelude.{length}
use asterism_astools.Prelude.{Bytes}
use asterism_astools.Json.{Json, Items, Members}
use asterism_astools.Json.Parser.{
  skip_ws, as_array, as_object, max_depth, p_value, p_items, p_members, string_loop, in_front,
}
use asterism_astools.Json.Steps.{
  value_scalar, value_empty_array, value_array, value_empty_object, value_object, items_more,
  items_last, members_more, members_last,
}
use asterism_astools.Json.Runs.{
  StringRun, string_closed, string_bad, string_on, ValueRun, no_value, too_deep, empty_array,
  array_run, empty_object, object_run, scalar_run, ItemsRun, item_bad, item_more, item_last,
  item_wrong, MembersRun, key_bad, member_bad, member_more, member_last, member_wrong,
}
use asterism_astools.Json.Length.{
  length-skip_ws, separator-more, p_key-lt, string_step-bytes, string_step-closed,
}
use asterism_astools.Json.Rest.{behind_ws, p_value-lt}

module _ (strtod : Bytes → Option ℕ) where
  value_none :
      (rounds depth : ℕ) (s : Bytes) → skip_ws s ≡ [] → p_value strtod rounds depth s ≡ none
  unfolding p_value
  value_none zero depth s e = refl
  value_none (suc rounds) depth s e = rw (p_value, e) refl

  value_deep :
      (rounds depth c : ℕ) (s r : Bytes)
      → skip_ws s ≡ c ∷ r
      → (c ≡ b'[') ⊎ (c ≡ b'{')
      → leb max_depth depth ≡ true
      → p_value strtod rounds depth s ≡ none
  unfolding p_value
  value_deep zero depth c s r e f g = refl
  value_deep (suc rounds) depth c s r e (inl f) g =
      let square : (c == b'[') ≡ true = ground arith in rw (p_value, e) (rw (square, g) refl)
  value_deep (suc rounds) depth c s r e (inr f) g =
      let square : (c == b'[') ≡ false = ground arith in
      let curly : (c == b'{') ≡ true = ground arith in rw (p_value, e) (rw (square, curly, g) refl)

  -- The text behind white space has some rounds.
  some_rounds :
      (rounds : ℕ) (s r : Bytes) (c : ℕ)
      → 2 * length s ≤ rounds
      → skip_ws s ≡ c ∷ r
      → (k : ℕ) × (rounds ≡ suc k) × (2 * length (skip_ws r) < k)
  some_rounds zero s r c h e = absurd (omega (arith, behind_ws s r c e))
  some_rounds (suc k) s r c h e = (k, refl, omega (arith, behind_ws s r c e, length-skip_ws r))

  mutual
    unfolding p_value

    value_outcome :
        {depth : ℕ} {s : Bytes} {o : Option (Json × Bytes)} (rounds : ℕ)
        → ValueRun strtod depth s o
        → 2 * length s ≤ rounds
        → p_value strtod rounds depth s ≡ o
    value_outcome {depth} {s} rounds (no_value e) h = value_none rounds depth s e
    value_outcome {depth} {s} rounds (too_deep {c = c} {r = r} e bracket deep) h =
        value_deep rounds depth c s r e bracket (ground arith)
    value_outcome {depth} {s} rounds (empty_array {r = r} {rest = rest} e fits shut) h =
        let (k, same, left) = some_rounds rounds s r b'[' h e in
        rw same (value_empty_array strtod k depth s r (ground arith) rest e shut)
    value_outcome {depth} {s} rounds (array_run {r = r} e fits inner run) h =
        let (k, same, left) = some_rounds rounds s r b'[' h e in
        rw same (
          value_array strtod k depth s r (ground arith) e inner
          ∙ ap as_array (items_outcome k run left))
    value_outcome {depth} {s} rounds (empty_object {r = r} {rest = rest} e fits shut) h =
        let (k, same, left) = some_rounds rounds s r b'{' h e in
        rw same (value_empty_object strtod k depth s r (ground arith) rest e shut)
    value_outcome {depth} {s} rounds (object_run {r = r} e fits inner run) h =
        let (k, same, left) = some_rounds rounds s r b'{' h e in
        rw same (
          value_object strtod k depth s r (ground arith) e inner
          ∙ ap as_object (members_outcome k run left))
    value_outcome {depth} {s} rounds (scalar_run {c = c} {r = r} e f g) h =
        let (k, same, left) = some_rounds rounds s r c h e in
        rw same (value_scalar strtod k depth s c r e (ground arith) (ground arith))

    items_outcome :
        {depth : ℕ} {arr : Items} {s : Bytes} {o : Option (Items × Bytes)} (rounds : ℕ)
        → ItemsRun strtod depth arr s o
        → 2 * length s < rounds
        → p_items strtod rounds depth arr s ≡ o
    items_outcome zero run h = absurd (omega arith)
    items_outcome (suc k) (item_bad run) h = rw (p_items, value_outcome k run (omega arith)) refl
    items_outcome {depth} {arr} {s} (suc k) (item_more {s1 = s1} {s2 = s2} {v = v} run n more_run)
          h =
        let found = value_outcome k run (omega arith) in
        items_more strtod k depth s arr v s1 s2 found n
        ∙ items_outcome k more_run (
            omega (
              arith,
              p_value-lt strtod k depth s v s1 found,
              separator-more b']' (skip_ws s1) s2 n,
              length-skip_ws s1,
            ))
    items_outcome {depth} {arr} {s} (suc k) (item_last {s1 = s1} {s2 = s2} {v = v} run n) h =
        items_last strtod k depth s arr v s1 s2 (value_outcome k run (omega arith)) n
    items_outcome (suc k) (item_wrong run n) h =
        rw (p_items, value_outcome k run (omega arith)) (rw n refl)

    members_outcome :
        {depth : ℕ} {obj : Members} {s : Bytes} {o : Option (Members × Bytes)} (rounds : ℕ)
        → MembersRun strtod depth obj s o
        → 2 * length s < rounds
        → p_members strtod rounds depth obj s ≡ o
    members_outcome zero run h = absurd (omega arith)
    members_outcome (suc k) (key_bad e) h = rw (p_members, e) refl
    members_outcome {obj = obj} {s = s} (suc k) (member_bad {s1 = s1} {key = key} keyed run) h =
        let fewer : 2 * length s1 ≤ k =
          omega (arith, p_key-lt obj (skip_ws s) key s1 keyed, length-skip_ws s) in
        rw (p_members, keyed) (rw (value_outcome k run fewer) refl)
    members_outcome {depth} {obj} {s} (suc k)
          (member_more {s1 = s1} {s2 = s2} {s3 = s3} {key = key} {v = v} keyed run n more_run) h =
        let fewer : length s1 < length s =
          omega (arith, p_key-lt obj (skip_ws s) key s1 keyed, length-skip_ws s) in
        let found = value_outcome k run (omega (arith, fewer)) in
        members_more strtod k depth s obj key v s1 s2 s3 keyed found n
        ∙ members_outcome k more_run (
            omega (
              arith,
              fewer,
              p_value-lt strtod k depth s1 v s2 found,
              separator-more b'}' (skip_ws s2) s3 n,
              length-skip_ws s2,
            ))
    members_outcome {depth} {obj} {s} (suc k)
          (member_last {s1 = s1} {s2 = s2} {s3 = s3} {key = key} {v = v} keyed run n) h =
        let fewer : 2 * length s1 ≤ k =
          omega (arith, p_key-lt obj (skip_ws s) key s1 keyed, length-skip_ws s) in
        members_last strtod k depth s obj key v s1 s2 s3 keyed (value_outcome k run fewer) n
    members_outcome {obj = obj} {s = s} (suc k) (member_wrong {s1 = s1} {key = key} keyed run n) h =
        let fewer : 2 * length s1 ≤ k =
          omega (arith, p_key-lt obj (skip_ws s) key s1 keyed, length-skip_ws s) in
        rw (p_members, keyed) (rw (value_outcome k run fewer) (rw n refl))

  pub ValueRun-p_value :
      (rounds depth : ℕ) (s : Bytes) (o : Option (Json × Bytes))
      → ValueRun strtod depth s o
      → 2 * length s ≤ rounds
      → p_value strtod rounds depth s ≡ o
  ValueRun-p_value rounds depth s o run h = value_outcome rounds run h

pub StringRun-string_loop :
    {s : Bytes} {o : Option (Bytes × Bytes)} (rounds : ℕ)
    → StringRun s o
    → length s ≤ rounds
    → string_loop rounds s ≡ o
unfolding string_loop
StringRun-string_loop {s} zero (string_closed {rest = rest} e) h =
    absurd (omega (arith, string_step-closed s rest e))
StringRun-string_loop zero (string_bad e) h = refl
StringRun-string_loop {s} zero (string_on {piece = piece} {rest = rest} e run) h =
    absurd (omega (arith, string_step-bytes s piece rest e))
StringRun-string_loop (suc k) (string_closed e) h = rw (string_loop, e) refl
StringRun-string_loop (suc k) (string_bad e) h = rw (string_loop, e) refl
StringRun-string_loop {s} (suc k) (string_on {piece = piece} {rest = rest} e run) h =
    rw (string_loop, e)
      (ap (in_front piece)
        (StringRun-string_loop k run (omega (arith, string_step-bytes s piece rest e))))
