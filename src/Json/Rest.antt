-- ===== src/Json/Rest.antt =====
-- What a value of src/json.c leaves of the text.
use asterism_astools.Prelude.{ℕ, zero, suc, ◌≤◌, ◌<◌, ◌≡◌, refl, ap, inl, inr}
use asterism_astools.Prelude.{Option, none, some, [], ◌∷◌, arith}
use asterism_astools.Prelude.{leb, ◌==◌, Option-cases}
use asterism_astools.Prelude.{length}
use asterism_astools.Prelude.{Bytes}
use asterism_astools.Prelude.{on_bool, on_option}
use std.Path.{subst}
use asterism_astools.Json.{Json, Items, no_items, Members, no_members, array_push, obj_put}
use asterism_astools.Json.Parser.{
  skip_ws, p_scalar, p_key, closes, separator, as_array, as_object, max_depth, p_value, p_items,
  p_members,
}
use asterism_astools.Json.Length.{
  Left, nothing, something, length-skip_ws, closes-lt, separator-more, separator-last, p_scalar-lt,
  p_key-lt,
}
use asterism_astools.Json.Branches.{on_list, on_next}

-- A value, the items and the members leave less than there was.
of-Left :
    {A : Type 0} (n : ℕ) (o : Option (A × Bytes)) {v : A} {rest : Bytes}
    → o ≡ some (v, rest)
    → Left n o
    → length rest < n
unfolding Left
of-Left n o e h = subst (Left n) e h

Left-mono : {A : Type 0} (m n : ℕ) (o : Option (A × Bytes)) → m ≤ n → Left m o → Left n o
unfolding Left
Left-mono m n none h k = tt
Left-mono m n (some (v, rest)) h k = omega arith

as_array-Left : (m n : ℕ) (o : Option (Items × Bytes)) → m ≤ n → Left m o → Left n (as_array o)
unfolding Left
as_array-Left m n none h k = tt
as_array-Left m n (some (xs, rest)) h k = omega arith

as_object-Left : (m n : ℕ) (o : Option (Members × Bytes)) → m ≤ n → Left m o → Left n (as_object o)
unfolding Left
as_object-Left m n none h k = tt
as_object-Left m n (some (ms, rest)) h k = omega arith

pub behind_ws : (s r : Bytes) (c : ℕ) → skip_ws s ≡ c ∷ r → suc (length r) ≤ length s
behind_ws s r c e = omega (arith, length-skip_ws s, ap length e)

module _ (strtod : Bytes → Option ℕ) where
  p_scalar-Left : (c : ℕ) (r : Bytes) (n : ℕ) → suc (length r) ≤ n → Left n (p_scalar strtod c r)
  p_scalar-Left c r n h = elim (Option-cases (p_scalar strtod c r)) [
    | inl none_there ↦ rw none_there (nothing Json n)
    | inr ((v, rest), e) ↦
        rw e (something n v rest (omega (arith, p_scalar-lt strtod c r v rest e)))
  ]

  pub no_text : (fuel depth : ℕ) → p_value strtod (suc fuel) depth [] ≡ none
  unfolding p_value skip_ws
  no_text fuel depth = refl

  mutual
    unfolding p_value

    p_value-Left : (fuel depth : ℕ) (s : Bytes) → Left (length s) (p_value strtod fuel depth s)
    p_value-Left zero depth s = nothing Json (length s)
    p_value-Left (suc fuel) depth s =
        on_list (Left (length s)) (skip_ws s) none _ (nothing Json (length s)) λ c r e.
          let short = behind_ws s r c e in
          on_bool (Left (length s)) (c == b'[') _ _
            (λ e1.
              on_bool (Left (length s)) (leb max_depth depth) _ _ (λ e2. nothing Json (length s))
                λ e2.
                  on_option (Left (length s)) (closes b']' (skip_ws r)) _ _
                    (as_array-Left (length (skip_ws r)) (length s) _
                      (omega (arith, length-skip_ws r))
                      (p_items-Left fuel (suc depth) no_items (skip_ws r)))
                    λ rest e3.
                      something (length s) _ rest
                        (omega (arith, closes-lt b']' (skip_ws r) rest e3, length-skip_ws r)))
            λ e1.
              on_bool (Left (length s)) (c == b'{') _ _
                (λ e4.
                  on_bool (Left (length s)) (leb max_depth depth) _ _
                    (λ e2. nothing Json (length s))
                    λ e2.
                      on_option (Left (length s)) (closes b'}' (skip_ws r)) _ _
                        (as_object-Left (length (skip_ws r)) (length s) _
                          (omega (arith, length-skip_ws r))
                          (p_members-Left fuel (suc depth) no_members (skip_ws r)))
                        λ rest e3.
                          something (length s) _ rest
                            (omega (arith, closes-lt b'}' (skip_ws r) rest e3, length-skip_ws r)))
                λ e4. p_scalar-Left c r (length s) short

    p_items-Left :
        (fuel depth : ℕ) (acc : Items) (s : Bytes)
        → Left (length s) (p_items strtod fuel depth acc s)
    p_items-Left zero depth acc s = nothing Items (length s)
    p_items-Left (suc fuel) depth acc s =
        let n = length s in
        on_option (Left n) (p_value strtod fuel depth s) none _ (nothing Items n) λ (v, s1) found.
          let short = of-Left n _ found (p_value-Left fuel depth s) in
          on_next (Left n) (separator b']' (skip_ws s1)) _ _ none
            (λ s2 e.
              Left-mono (length s2) n _
                (omega (arith, short, separator-more b']' (skip_ws s1) s2 e, length-skip_ws s1))
                (p_items-Left fuel depth (array_push acc v) s2))
            (λ s2 e.
              something n _ s2
                (omega (arith, short, separator-last b']' (skip_ws s1) s2 e, length-skip_ws s1)))
            (nothing Items n)

    p_members-Left :
        (fuel depth : ℕ) (acc : Members) (s : Bytes)
        → Left (length s) (p_members strtod fuel depth acc s)
    p_members-Left zero depth acc s = nothing Members (length s)
    p_members-Left (suc fuel) depth acc s =
        let n = length s in
        on_option (Left n) (p_key acc (skip_ws s)) none _ (nothing Members n) λ (key, s1) keyed.
          on_option (Left n) (p_value strtod fuel depth s1) none _ (nothing Members n)
            λ (v, s2) found.
              let short : length s2 < n = omega (
                arith,
                of-Left (length s1) _ found (p_value-Left fuel depth s1),
                p_key-lt acc (skip_ws s) key s1 keyed,
                length-skip_ws s,
              ) in
              on_next (Left n) (separator b'}' (skip_ws s2)) _ _ none
                (λ s3 e.
                  Left-mono (length s3) n _
                    (omega (arith, short, separator-more b'}' (skip_ws s2) s3 e, length-skip_ws s2))
                    (p_members-Left fuel depth (obj_put acc key v) s3))
                (λ s3 e.
                  something n _ s3 (
                    omega (arith, short, separator-last b'}' (skip_ws s2) s3 e, length-skip_ws s2)))
                (nothing Members n)

  pub p_value-lt :
      (fuel depth : ℕ) (s : Bytes) (v : Json) (rest : Bytes)
      → p_value strtod fuel depth s ≡ some (v, rest)
      → length rest < length s
  p_value-lt fuel depth s v rest e = of-Left (length s) _ e (p_value-Left fuel depth s)
