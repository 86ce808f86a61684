-- ===== src/Json/Sound.antt =====
-- What the values are that the parser of src/json.c gives.
use asterism_astools.Prelude.{ℕ, zero, suc, ◌+◌, ◌*◌, ◌≡◌, refl, inl, inr}
use asterism_astools.Prelude.{Bool, true, false, Option, none, some, arith}
use asterism_astools.Prelude.{leb, ◌==◌, if◌then◌else◌, Bool-cases, Option-cases}
use asterism_astools.Prelude.{length}
use asterism_astools.Prelude.{on_bool, on_option, bind_option, Bytes, str_eq, advance}
use std.Path.{subst}
use asterism_astools.Json.{
  Json, null, boolean, number, string, array, object, Items, no_items, item, Members, no_members,
  member, array_push, obj_put,
}
use asterism_astools.Json.Parser.{
  skip_ws, has_nul, p_scalar, p_number, p_key, closes, separator, string_raw, as_array, as_object,
  max_depth, p_value, p_items, p_members, json_parse,
}
use asterism_astools.Json.Branches.{on_list, on_next}
use asterism_astools.Json.Plain.{keys_differ}

-- At most `room` arrays and objects inside one another, and the keys of an object differ and hold no NUL.
unfoldable mutual
  pub IsSound : ℕ → Json → Type 0
  IsSound room null = Unit {0}
  IsSound room (boolean b) = Unit {0}
  IsSound room (number n) = Unit {0}
  IsSound room (string s) = Unit {0}
  IsSound zero (array xs) = ⊥
  IsSound (suc room) (array xs) = AreSound room xs
  IsSound zero (object ms) = ⊥
  IsSound (suc room) (object ms) = HaveSound room ms

  pub AreSound : ℕ → Items → Type 0
  AreSound room no_items = Unit {0}
  AreSound room (item x xs) = IsSound room x × AreSound room xs

  pub HaveSound : ℕ → Members → Type 0
  HaveSound room no_members = Unit {0}
  HaveSound room (member k x ms) =
      (has_nul k ≡ false) × (keys_differ k ms ≡ true) × IsSound room x × HaveSound room ms

array_push-AreSound :
    (room : ℕ) (xs : Items) (v : Json)
    → AreSound room xs
    → IsSound room v
    → AreSound room (array_push xs v)
unfolding array_push AreSound
array_push-AreSound room no_items v hs h = (h, tt)
array_push-AreSound room (item x xs) v (hx, hs) h = (hx, array_push-AreSound room xs v hs h)

keys_differ-obj_put :
    (ms : Members) (k key : Bytes) (v : Json)
    → keys_differ k ms ≡ true
    → str_eq k key ≡ false
    → keys_differ k (obj_put ms key v) ≡ true
unfolding keys_differ obj_put
keys_differ-obj_put no_members k key v d e = ground arith
keys_differ-obj_put (member j x ms) k key v d e = elim (Bool-cases (str_eq j key)) [
  | inl same ↦ rw same d
  | inr other ↦ rw other (ground (arith, keys_differ-obj_put ms k key v (ground arith) e))
]

obj_put-HaveSound :
    (room : ℕ) (ms : Members) (key : Bytes) (v : Json)
    → HaveSound room ms
    → has_nul key ≡ false
    → IsSound room v
    → HaveSound room (obj_put ms key v)
unfolding obj_put HaveSound
obj_put-HaveSound room no_members key v hs no_nul h = (no_nul, unfold keys_differ in refl, h, tt)
obj_put-HaveSound room (member k x ms) key v (clean, differ, hx, hs) no_nul h =
    elim (Bool-cases (str_eq k key)) [
      | inl same ↦ rw same (clean, differ, h, hs)
      | inr other ↦ rw other (
        clean,
        keys_differ-obj_put ms k key v differ other,
        hx,
        obj_put-HaveSound room ms key v hs no_nul h,
      )
    ]

-- A result that is sound where there is one.
abbrev Sound : ℕ → Option (Json × Bytes) → Type 0
Sound room none = Unit {0}
Sound room (some (v, rest)) = IsSound room v

abbrev SoundItems : ℕ → Option (Items × Bytes) → Type 0
SoundItems room none = Unit {0}
SoundItems room (some (xs, rest)) = AreSound room xs

abbrev SoundMembers : ℕ → Option (Members × Bytes) → Type 0
SoundMembers room none = Unit {0}
SoundMembers room (some (ms, rest)) = HaveSound room ms

bind_option-Sound :
    (room : ℕ) {A : Type 0} (o : Option A) (f : A → Option (Json × Bytes))
    → ((a : A) → Sound room (f a))
    → Sound room (bind_option o f)
bind_option-Sound room none f q = tt
bind_option-Sound room (some a) f q = q a

if-Sound :
    (room : ℕ) (b : Bool) (x y : Option (Json × Bytes))
    → Sound room x
    → Sound room y
    → Sound room (if b then x else y)
if-Sound room true x y p q = p
if-Sound room false x y p q = q

module _ (strtod : Bytes → Option ℕ) where
  p_number-Sound : (room : ℕ) (s : Bytes) → Sound room (p_number strtod s)
  unfolding p_number IsSound
  p_number-Sound room s = search (bind_option-Sound, tt)

  p_scalar-Sound : (room c : ℕ) (s : Bytes) → Sound room (p_scalar strtod c s)
  unfolding p_scalar IsSound
  p_scalar-Sound room c s = search (bind_option-Sound, if-Sound, p_number-Sound, tt) depth 9

  -- An array or an object needs room.
  as_array-Sound :
      (room : ℕ) (o : Option (Items × Bytes)) → SoundItems room o → Sound (suc room) (as_array o)
  unfolding IsSound
  as_array-Sound room none h = tt
  as_array-Sound room (some a) h = h

  as_object-Sound :
      (room : ℕ) (o : Option (Members × Bytes))
      → SoundMembers room o
      → Sound (suc room) (as_object o)
  unfolding IsSound
  as_object-Sound room none h = tt
  as_object-Sound room (some a) h = h

  p_key-clean :
      (obj : Members) (s : Bytes) (k s1 : Bytes) → p_key obj s ≡ some (k, s1) → has_nul k ≡ false
  unfolding p_key
  p_key-clean obj s k s1 e = elim (Option-cases (string_raw (advance s))) [
    | inl no_string ↦ ground (arith, no_string)
    | inr (found, f) ↦ ground (arith, f)
  ]

  mutual
    unfolding p_value IsSound

    p_value-Sound :
        (fuel room depth : ℕ) (s : Bytes)
        → room + depth ≡ 64
        → Sound room (p_value strtod fuel depth s)
    p_value-Sound zero room depth s d = tt
    p_value-Sound (suc fuel) zero depth s d = on_list (Sound zero) (skip_ws s) none _ tt λ c r e0.
        on_bool (Sound zero) (c == b'[') _ _
          (λ e. on_bool (Sound zero) (leb max_depth depth) _ _ (λ f. tt) λ f. absurd (ground arith))
          (λ e.
            on_bool (Sound zero) (c == b'{') _ _
              (λ g.
                on_bool (Sound zero) (leb max_depth depth) _ _ (λ f. tt) λ f. absurd (ground arith))
              (λ g. p_scalar-Sound zero c r))
    p_value-Sound (suc fuel) (suc room) depth s d =
        on_list (Sound (suc room)) (skip_ws s) none _ tt λ c r e0.
          on_bool (Sound (suc room)) (c == b'[') _ _
            (λ e.
              on_bool (Sound (suc room)) (leb max_depth depth) _ _ (λ f. tt)
                λ f.
                  on_option (Sound (suc room)) (closes b']' (skip_ws r)) _ _
                    (as_array-Sound room _
                      (p_items-Sound fuel room (suc depth) no_items (skip_ws r) (omega arith) tt))
                    λ rest g. tt)
            (λ e.
              on_bool (Sound (suc room)) (c == b'{') _ _
                (λ g.
                  on_bool (Sound (suc room)) (leb max_depth depth) _ _ (λ f. tt)
                    λ f.
                      on_option (Sound (suc room)) (closes b'}' (skip_ws r)) _ _
                        (as_object-Sound room _ (
                          p_members-Sound fuel room (suc depth) no_members (skip_ws r) (omega arith)
                            tt))
                        λ rest g. tt)
                (λ g. p_scalar-Sound (suc room) c r))

    p_items-Sound :
        (fuel room depth : ℕ) (acc : Items) (s : Bytes)
        → room + depth ≡ 64
        → AreSound room acc
        → SoundItems room (p_items strtod fuel depth acc s)
    p_items-Sound zero room depth acc s d h = tt
    p_items-Sound (suc fuel) room depth acc s d h =
        on_option (SoundItems room) (p_value strtod fuel depth s) none _ tt λ (v, s1) found.
          let pushed =
            array_push-AreSound room acc v h
              (subst (Sound room) found (p_value-Sound fuel room depth s d)) in
          on_next (SoundItems room) (separator b']' (skip_ws s1)) _ _ _
            (λ s2 e0. p_items-Sound fuel room depth (array_push acc v) s2 d pushed)
            (λ s2 e0. pushed) tt

    p_members-Sound :
        (fuel room depth : ℕ) (acc : Members) (s : Bytes)
        → room + depth ≡ 64
        → HaveSound room acc
        → SoundMembers room (p_members strtod fuel depth acc s)
    p_members-Sound zero room depth acc s d h = tt
    p_members-Sound (suc fuel) room depth acc s d h =
        on_option (SoundMembers room) (p_key acc (skip_ws s)) none _ tt λ (k, s1) keyed.
          on_option (SoundMembers room) (p_value strtod fuel depth s1) none _ tt λ (v, s2) found.
            let put =
              obj_put-HaveSound room acc k v h (p_key-clean acc (skip_ws s) k s1 keyed)
                (subst (Sound room) found (p_value-Sound fuel room depth s1 d)) in
            on_next (SoundMembers room) (separator b'}' (skip_ws s2)) _ _ _
              (λ s3 e0. p_members-Sound fuel room depth (obj_put acc k v) s3 d put) (λ s3 e0. put)
              tt

-- A value that the parser gives has at most 64 arrays and objects inside one another, and the keys of
-- each of its objects differ and hold no NUL.
pub json_parse-IsSound :
    (strtod : Bytes → Option ℕ) (s : Bytes) (v : Json)
    → json_parse strtod s ≡ some v
    → IsSound max_depth v
unfolding json_parse
json_parse-IsSound strtod s v e = elim (Option-cases (p_value strtod (2 * length s) 0 s)) [
  | inl nothing ↦ ground (arith, nothing)
  | inr ((w, rest), found) ↦
      let sound =
        subst (Sound max_depth) found (p_value-Sound strtod (2 * length s) max_depth 0 s refl) in
      let same : w ≡ v = ground (arith, found) in subst (IsSound max_depth) same sound
]
