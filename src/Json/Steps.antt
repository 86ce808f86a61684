-- ===== src/Json/Steps.antt =====
-- The steps of the parser of src/json.c, each under the equations that lead to it.
use asterism_astools.Prelude.{ℕ, zero, suc, ◌≡◌, refl}
use asterism_astools.Prelude.{Bool, true, false, Option, none, some, ◌∷◌, ◌++◌}
use asterism_astools.Prelude.{leb, ◌==◌}
use asterism_astools.Prelude.{Bytes}
use asterism_astools.Json.{
  Json, array, object, Items, no_items, Members, no_members, array_push, obj_put,
}
use asterism_astools.Json.Parser.{
  is_ws, skip_ws, p_scalar, p_key, closes, more, last, separator, as_array, as_object, max_depth,
  p_value, p_items, p_members,
}
use asterism_astools.Json.Writer.{indent, new_line}

pub skip_ws-cons : (c : ℕ) (s : Bytes) → is_ws c ≡ false → skip_ws (c ∷ s) ≡ c ∷ s
unfolding skip_ws
skip_ws-cons c s e = rw e refl

skip_ws-indent : (level : ℕ) (s : Bytes) → skip_ws (indent level ++ s) ≡ skip_ws s
unfolding skip_ws indent
skip_ws-indent zero s = refl
skip_ws-indent (suc level) s = skip_ws-indent level s

pub skip_ws-new_line :
    (pretty : Bool) (level : ℕ) (s : Bytes) → skip_ws (new_line pretty level ++ s) ≡ skip_ws s
unfolding skip_ws new_line
skip_ws-new_line true level s = skip_ws-indent level s
skip_ws-new_line false level s = refl

module _ (strtod : Bytes → Option ℕ) (fuel depth : ℕ) (s : Bytes) where
  pub value_scalar :
      (c : ℕ) (r : Bytes)
      → skip_ws s ≡ c ∷ r
      → (c == b'[') ≡ false
      → (c == b'{') ≡ false
      → p_value strtod (suc fuel) depth s ≡ p_scalar strtod c r
  unfolding p_value
  value_scalar c r e f g = rw (p_value, e) (rw (f, g) refl)

  module _ (r : Bytes) (low : leb max_depth depth ≡ false) where
    pub value_empty_array :
        (rest : Bytes)
        → skip_ws s ≡ b'[' ∷ r
        → closes b']' (skip_ws r) ≡ some rest
        → p_value strtod (suc fuel) depth s ≡ some (array no_items, rest)
    unfolding p_value
    value_empty_array rest e f = rw (p_value, e) (rw (low, f) refl)

    pub value_array :
        skip_ws s ≡ b'[' ∷ r
        → closes b']' (skip_ws r) ≡ none
        → p_value strtod (suc fuel) depth s
          ≡ as_array (p_items strtod fuel (suc depth) no_items (skip_ws r))
    unfolding p_value
    value_array e f = rw (p_value, e) (rw (low, f) refl)

    pub value_empty_object :
        (rest : Bytes)
        → skip_ws s ≡ b'{' ∷ r
        → closes b'}' (skip_ws r) ≡ some rest
        → p_value strtod (suc fuel) depth s ≡ some (object no_members, rest)
    unfolding p_value
    value_empty_object rest e f = rw (p_value, e) (rw (low, f) refl)

    pub value_object :
        skip_ws s ≡ b'{' ∷ r
        → closes b'}' (skip_ws r) ≡ none
        → p_value strtod (suc fuel) depth s
          ≡ as_object (p_members strtod fuel (suc depth) no_members (skip_ws r))
    unfolding p_value
    value_object e f = rw (p_value, e) (rw (low, f) refl)

  module _ (arr : Items) (v : Json) (s1 s2 : Bytes)
      (found : p_value strtod fuel depth s ≡ some (v, s1)) where
    pub items_more :
        separator b']' (skip_ws s1) ≡ more s2
        → p_items strtod (suc fuel) depth arr s ≡ p_items strtod fuel depth (array_push arr v) s2
    unfolding p_items
    items_more e = rw (p_items, found) (rw e refl)

    pub items_last :
        separator b']' (skip_ws s1) ≡ last s2
        → p_items strtod (suc fuel) depth arr s ≡ some (array_push arr v, s2)
    unfolding p_items
    items_last e = rw (p_items, found) (rw e refl)

  module _ (obj : Members) (key : Bytes) (v : Json) (s1 s2 s3 : Bytes)
      (keyed : p_key obj (skip_ws s) ≡ some (key, s1))
      (found : p_value strtod fuel depth s1 ≡ some (v, s2)) where
    pub members_more :
        separator b'}' (skip_ws s2) ≡ more s3
        → p_members strtod (suc fuel) depth obj s
          ≡ p_members strtod fuel depth (obj_put obj key v) s3
    unfolding p_members
    members_more e = rw (p_members, keyed) (rw found (rw e refl))

    pub members_last :
        separator b'}' (skip_ws s2) ≡ last s3
        → p_members strtod (suc fuel) depth obj s ≡ some (obj_put obj key v, s3)
    unfolding p_members
    members_last e = rw (p_members, keyed) (rw found (rw e refl))
