-- ===== src/Json/Clone.antt =====
-- `jx_clone` of src/json.c, which pushes items and sets members.
use asterism_astools.Prelude.{ℕ, zero, suc, ◌≡◌, refl, sym, ap, ◌∙◌}
use asterism_astools.Prelude.{true, arith}
use asterism_astools.Json.{
  Json, null, boolean, number, string, array, object, Items, no_items, item, Members, no_members,
  member, array_push, obj_put, clone, clone_items, clone_members,
}
use asterism_astools.Json.Plain.{
  joined, merged, joined-array_push, joined-no_items, merged-obj_put, merged-no_members, unseen,
  unseen-obj_put, unseen-no_members,
}
use asterism_astools.Json.Sound.{IsSound, AreSound, HaveSound}

mutual
  unfolding clone IsSound joined merged unseen

  copied : (room : ℕ) (v : Json) → IsSound room v → clone v ≡ v
  copied room null h = refl
  copied room (boolean b) h = refl
  copied room (number n) h = refl
  copied room (string s) h = refl
  copied zero (array xs) h = absurd h
  copied (suc room) (array xs) h = ap array (copied_items room no_items xs h)
  copied zero (object ms) h = absurd h
  copied (suc room) (object ms) h =
      ap object (copied_members room no_members ms h (unseen-no_members ms))

  copied_items : (room : ℕ) (c xs : Items) → AreSound room xs → clone_items c xs ≡ joined c xs
  copied_items room c no_items h = sym (joined-no_items c)
  copied_items room c (item x xs) (h, hs) =
      copied_items room (array_push c (clone x)) xs hs
      ∙ joined-array_push c xs (clone x)
      ∙ ap (λ y. joined c (item y xs)) (copied room x h)

  copied_members :
      (room : ℕ) (c ms : Members)
      → HaveSound room ms
      → unseen c ms ≡ true
      → clone_members c ms ≡ merged c ms
  copied_members room c no_members h new = sym (merged-no_members c)
  copied_members room c (member k x ms) (no_nul, differ, h, hs) new =
      copied_members room (obj_put c k (clone x)) ms hs
        (unseen-obj_put c k (clone x) ms (ground arith) differ)
      ∙ merged-obj_put c ms k (clone x) (ground arith)
      ∙ ap (λ y. merged c (member k y ms)) (copied room x h)

-- The copy of a value is the same value, if the keys of each of its objects differ and hold no NUL.
pub clone_exact : (room : ℕ) (v : Json) → IsSound room v → clone v ≡ v
clone_exact room v h = copied room v h
