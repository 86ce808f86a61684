-- ===== src/Json/Laws.antt =====
-- `obj_put` and `jx_object_get` of src/json.c as a map, and `jx_array_push` as a list.
use asterism_astools.Prelude.{ℕ, zero, suc, ◌≡◌, refl}
use asterism_astools.Prelude.{some, arith}
use asterism_astools.Prelude.{◌==◌, if◌then◌else◌}
use asterism_astools.Prelude.{Bytes, str_eq, str_eq_iff}
use asterism_astools.Json.{
  Json, Items, no_items, item, Members, no_members, member, array_push, array_len, array_at,
  obj_put, object_get,
}

-- After a member is set, its key gives the new value, and every other key gives what it gave before.
pub object_get-obj_put :
    (ms : Members) (key : Bytes) (v : Json) (j : Bytes)
    → object_get (obj_put ms key v) j ≡ (if str_eq key j then some v else object_get ms j)
unfolding object_get obj_put
object_get-obj_put no_members key v j = ground arith
object_get-obj_put (member k x ms) key v j =
    ground
      (arith, str_eq_iff k key, str_eq_iff key j, str_eq_iff k j, object_get-obj_put ms key v j)

-- A pushed value stands behind the others, which stay where they are.
pub array_at-array_push :
    (xs : Items) (v : Json) (i : ℕ)
    → array_at (array_push xs v) i ≡ (if i == array_len xs then some v else array_at xs i)
unfolding array_at array_push array_len
array_at-array_push no_items v zero = refl
array_at-array_push no_items v (suc i) = ground arith
array_at-array_push (item x xs) v zero = ground arith
array_at-array_push (item x xs) v (suc i) = ground (arith, array_at-array_push xs v i)
