-- ===== src/Json/Runs.antt =====
-- The runs of the parser of src/json.c, without a bound on the rounds: `p_value` with the loops of
-- `p_array` and `p_object`, and the loop of `p_string_raw`. A run is finite.
use asterism_astools.Prelude.{ℕ, suc, ◌≤◌, ◌<◌, ◌≡◌, ◌≢◌, ◌⊎◌}
use asterism_astools.Prelude.{Option, none, some, [], ◌∷◌}
use asterism_astools.Prelude.{Bytes}
use asterism_astools.Json.{
  Json, array, object, Items, no_items, Members, no_members, array_push, obj_put,
}
use asterism_astools.Json.Parser.{
  skip_ws, p_key, closes, separator, as_array, as_object, max_depth, string_step, in_front, closed,
  bytes, bad, more, last, wrong, p_scalar,
}

-- What the loop over a string gives, behind the opening quote.
pub data StringRun : Bytes → Option (Bytes × Bytes) → Type 0 where
  string_closed : {s rest : Bytes} → string_step s ≡ closed rest → StringRun s (some ([], rest))
  string_bad : {s : Bytes} → string_step s ≡ bad → StringRun s none
  string_on :
      {s piece rest : Bytes} {o : Option (Bytes × Bytes)}
      → string_step s ≡ bytes piece rest
      → StringRun rest o
      → StringRun s (in_front piece o)

module _ (strtod : Bytes → Option ℕ) where
  mutual
    pub data ValueRun : ℕ → Bytes → Option (Json × Bytes) → Type 0 where
      no_value : {depth : ℕ} {s : Bytes} → skip_ws s ≡ [] → ValueRun depth s none
      too_deep :
          {depth c : ℕ} {s r : Bytes}
          → skip_ws s ≡ c ∷ r
          → (c ≡ b'[') ⊎ (c ≡ b'{')
          → max_depth ≤ depth
          → ValueRun depth s none
      empty_array :
          {depth : ℕ} {s r rest : Bytes}
          → skip_ws s ≡ b'[' ∷ r
          → depth < max_depth
          → closes b']' (skip_ws r) ≡ some rest
          → ValueRun depth s (some (array no_items, rest))
      array_run :
          {depth : ℕ} {s r : Bytes} {o : Option (Items × Bytes)}
          → skip_ws s ≡ b'[' ∷ r
          → depth < max_depth
          → closes b']' (skip_ws r) ≡ none
          → ItemsRun (suc depth) no_items (skip_ws r) o
          → ValueRun depth s (as_array o)
      empty_object :
          {depth : ℕ} {s r rest : Bytes}
          → skip_ws s ≡ b'{' ∷ r
          → depth < max_depth
          → closes b'}' (skip_ws r) ≡ some rest
          → ValueRun depth s (some (object no_members, rest))
      object_run :
          {depth : ℕ} {s r : Bytes} {o : Option (Members × Bytes)}
          → skip_ws s ≡ b'{' ∷ r
          → depth < max_depth
          → closes b'}' (skip_ws r) ≡ none
          → MembersRun (suc depth) no_members (skip_ws r) o
          → ValueRun depth s (as_object o)
      scalar_run :
          {depth c : ℕ} {s r : Bytes}
          → skip_ws s ≡ c ∷ r
          → c ≢ b'['
          → c ≢ b'{'
          → ValueRun depth s (p_scalar strtod c r)

    pub data ItemsRun : ℕ → Items → Bytes → Option (Items × Bytes) → Type 0 where
      item_bad :
          {depth : ℕ} {arr : Items} {s : Bytes} → ValueRun depth s none → ItemsRun depth arr s none
      item_more :
          {depth : ℕ} {arr : Items} {s s1 s2 : Bytes} {v : Json} {o : Option (Items × Bytes)}
          → ValueRun depth s (some (v, s1))
          → separator b']' (skip_ws s1) ≡ more s2
          → ItemsRun depth (array_push arr v) s2 o
          → ItemsRun depth arr s o
      item_last :
          {depth : ℕ} {arr : Items} {s s1 s2 : Bytes} {v : Json}
          → ValueRun depth s (some (v, s1))
          → separator b']' (skip_ws s1) ≡ last s2
          → ItemsRun depth arr s (some (array_push arr v, s2))
      item_wrong :
          {depth : ℕ} {arr : Items} {s s1 : Bytes} {v : Json}
          → ValueRun depth s (some (v, s1))
          → separator b']' (skip_ws s1) ≡ wrong
          → ItemsRun depth arr s none

    pub data MembersRun : ℕ → Members → Bytes → Option (Members × Bytes) → Type 0 where
      key_bad :
          {depth : ℕ} {obj : Members} {s : Bytes}
          → p_key obj (skip_ws s) ≡ none
          → MembersRun depth obj s none
      member_bad :
          {depth : ℕ} {obj : Members} {s s1 key : Bytes}
          → p_key obj (skip_ws s) ≡ some (key, s1)
          → ValueRun depth s1 none
          → MembersRun depth obj s none
      member_more :
          {depth : ℕ} {obj : Members} {s s1 s2 s3 key : Bytes} {v : Json}
          {o : Option (Members × Bytes)}
          → p_key obj (skip_ws s) ≡ some (key, s1)
          → ValueRun depth s1 (some (v, s2))
          → separator b'}' (skip_ws s2) ≡ more s3
          → MembersRun depth (obj_put obj key v) s3 o
          → MembersRun depth obj s o
      member_last :
          {depth : ℕ} {obj : Members} {s s1 s2 s3 key : Bytes} {v : Json}
          → p_key obj (skip_ws s) ≡ some (key, s1)
          → ValueRun depth s1 (some (v, s2))
          → separator b'}' (skip_ws s2) ≡ last s3
          → MembersRun depth obj s (some (obj_put obj key v, s3))
      member_wrong :
          {depth : ℕ} {obj : Members} {s s1 s2 key : Bytes} {v : Json}
          → p_key obj (skip_ws s) ≡ some (key, s1)
          → ValueRun depth s1 (some (v, s2))
          → separator b'}' (skip_ws s2) ≡ wrong
          → MembersRun depth obj s none
