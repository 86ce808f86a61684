-- ===== src/Json/RoundTrip.antt =====
-- Reading back a value that src/json.c writes.
use asterism_astools.Prelude.{ℕ, zero, suc, ◌+◌, ◌*◌, ◌≤◌, ◌≡◌, refl, sym, ap, ◌∙◌}
use asterism_astools.Prelude.{Bool, true, false, Option, some, [], ◌∷◌, ◌++◌, arith}
use asterism_astools.Prelude.{length}
use asterism_astools.Prelude.{Bytes, peek}
use mathlib.Core.List.{append-nil}
use asterism_astools.Json.{
  integer, double, Json, null, boolean, number, string, array, object, Items, no_items, item,
  Members, no_members, member, array_push, obj_put,
}
use asterism_astools.Json.Parser.{
  skip_ws, literal, p_scalar, p_key, closes, separator, as_array, as_object, max_depth, p_value,
  p_items, p_members, json_parse,
}
use asterism_astools.Json.Writer.{new_line, w_value, w_items, w_members, json_write}
use asterism_astools.Json.Numbers.{IsFinite, stops}
use asterism_astools.Json.Plain.{
  IsPlain, ArePlain, HavePlain, cost, cost_items, cost_members, joined, merged, joined-array_push,
  joined-no_items, merged-obj_put, merged-no_members, unseen, unseen-obj_put, unseen-no_members,
}
use asterism_astools.Json.Reading.{closing, stops-w_items, stops-w_members, value_first}
use asterism_astools.Json.Cost.{cost-w_value}
use asterism_astools.Json.Steps.{
  value_scalar, value_empty_array, value_array, value_empty_object, value_object, items_more,
  items_last, members_more, members_last,
}
use asterism_astools.Json.Parts.{
  next_value, read_number, read_text, member_text, member_open, member_black, next_member,
}

module _ (print_g : ℕ → ℕ → Bytes) (strtod : Bytes → Option ℕ) (finite : IsFinite strtod)
    (pretty : Bool) where
  mutual
    unfolding HavePlain IsPlain cost joined merged array_push obj_put w_value p_scalar literal
        closes separator skip_ws unseen

    read_value :
        (v : Json) (level room depth fuel : ℕ) (s rest : Bytes)
        → IsPlain room v
        → room + depth ≤ 64
        → cost v ≤ fuel
        → stops (peek rest) ≡ true
        → skip_ws s ≡ w_value print_g strtod pretty level v ++ rest
        → p_value strtod fuel depth s ≡ some (v, rest)
    read_value null level room depth zero s rest h d enough stop e = absurd (omega arith)
    read_value null level room depth (suc fuel) s rest h d enough stop e =
        value_scalar strtod fuel depth s _ _ e refl refl
    read_value (boolean true) level room depth zero s rest h d enough stop e = absurd (omega arith)
    read_value (boolean true) level room depth (suc fuel) s rest h d enough stop e =
        value_scalar strtod fuel depth s _ _ e refl refl
    read_value (boolean false) level room depth zero s rest h d enough stop e = absurd (omega arith)
    read_value (boolean false) level room depth (suc fuel) s rest h d enough stop e =
        value_scalar strtod fuel depth s _ _ e refl refl
    read_value (number (integer negative n)) level room depth fuel s rest h d enough stop e =
        read_number print_g strtod finite pretty negative n room depth fuel s rest h enough stop e
    read_value (number (double bits)) level room depth fuel s rest h d enough stop e = absurd h
    read_value (string str) level room depth fuel s rest h d enough stop e =
        read_text print_g strtod finite pretty str depth fuel s rest h enough e
    read_value (array no_items) level zero depth fuel s rest h d enough stop e = absurd h
    read_value (array no_items) level (suc room) depth zero s rest h d enough stop e =
        absurd (omega arith)
    read_value (array no_items) level (suc room) depth (suc fuel) s rest h d enough stop e =
        value_empty_array strtod fuel depth s (b']' ∷ rest) (ground arith) rest e refl
    read_value (array (item x xs)) level zero depth fuel s rest h d enough stop e = absurd h
    read_value (array (item x xs)) level (suc room) depth zero s rest h d enough stop e =
        absurd (omega arith)
    read_value (array (item x xs)) level (suc room) depth (suc zero) s rest h d enough stop e =
        absurd (omega arith)
    read_value (array (item x xs)) level (suc room) depth (suc (suc fuel)) s rest (h, hs) d enough
          stop e =
        let wx = w_value print_g strtod pretty (suc level) x in
        let after = w_items print_g strtod pretty level xs ++ rest in
        let inner =
          (new_line pretty (suc level) ++ (wx ++ w_items print_g strtod pretty level xs)) ++ rest in
        let shown =
          next_value print_g strtod finite pretty (suc level) (suc level) room x
            (w_items print_g strtod pretty level xs) rest h in
        let (start, unclosed) =
          value_first print_g strtod finite pretty (suc level) room x after h in
        let read =
          read_value x (suc level) room (suc depth) fuel (skip_ws inner) after h (omega arith)
            (omega arith) (stops-w_items print_g strtod finite pretty level rest xs)
            (ap skip_ws shown ∙ start) in
        value_array strtod (suc fuel) depth s inner (ground arith) e
          (ap (closes b']') shown ∙ unclosed)
        ∙ ap as_array (
            read_items xs level room (suc depth) fuel no_items x (skip_ws inner) rest hs
              (omega arith) (omega arith) read)
    read_value (object no_members) level zero depth fuel s rest h d enough stop e = absurd h
    read_value (object no_members) level (suc room) depth zero s rest h d enough stop e =
        absurd (omega arith)
    read_value (object no_members) level (suc room) depth (suc fuel) s rest h d enough stop e =
        value_empty_object strtod fuel depth s (b'}' ∷ rest) (ground arith) rest e refl
    read_value (object (member k x ms)) level zero depth fuel s rest h d enough stop e = absurd h
    read_value (object (member k x ms)) level (suc room) depth zero s rest h d enough stop e =
        absurd (omega arith)
    read_value (object (member k x ms)) level (suc room) depth (suc zero) s rest h d enough stop e =
        absurd (omega arith)
    read_value (object (member k x ms)) level (suc room) depth (suc (suc fuel)) s rest h d enough
          stop e =
        let inner = member_text print_g strtod finite pretty level room no_members ms k x rest in
        let (unicode, no_nul, differ, hx, hs) = h in
        let (t, keyed, behind) =
          next_member print_g strtod finite pretty level room no_members ms k x rest h
            (unseen-no_members (member k x ms)) in
        let read =
          read_value x (suc level) room (suc depth) fuel t
            (w_members print_g strtod pretty level ms ++ rest) hx (omega arith) (omega arith)
            (stops-w_members print_g strtod finite pretty level rest ms) behind in
        value_object strtod (suc fuel) depth s inner (ground arith) e
          (member_open print_g strtod finite pretty level room no_members ms k x rest)
        ∙ ap as_object (
            read_members ms level room (suc depth) fuel no_members k x (skip_ws inner) t rest hs
              (omega arith) (omega arith)
              (unseen-obj_put no_members k x ms (unseen-no_members ms) differ)
              (ap (p_key no_members)
                  (member_black print_g strtod finite pretty level room no_members ms k x rest)
                ∙ keyed)
              read)

    read_items :
        (xs : Items) (level room depth fuel : ℕ) (acc : Items) (x : Json) (s rest : Bytes)
        → ArePlain room xs
        → room + depth ≤ 64
        → cost_items xs ≤ fuel
        → p_value strtod fuel depth s ≡ some (x, w_items print_g strtod pretty level xs ++ rest)
        → p_items strtod (suc fuel) depth acc s ≡ some (joined (array_push acc x) xs, rest)
    read_items no_items level room depth fuel acc x s rest h d enough found =
        items_last strtod fuel depth s acc x _ rest found
          (rw (closing pretty level b']' rest refl) refl)
        ∙ ap (λ t. some (t, rest)) (sym (joined-no_items (array_push acc x)))
    read_items (item y ys) level room depth zero acc x s rest (h, hs) d enough found =
        absurd (omega arith)
    read_items (item y ys) level room depth (suc fuel) acc x s rest (h, hs) d enough found =
        let tail =
          (new_line pretty (suc level)
            ++ (w_value print_g strtod pretty (suc level) y
                ++ w_items print_g strtod pretty level ys))
          ++ rest in
        let read =
          read_value y (suc level) room depth fuel tail
            (w_items print_g strtod pretty level ys ++ rest) h d (omega arith)
            (stops-w_items print_g strtod finite pretty level rest ys)
            (next_value print_g strtod finite pretty (suc level) (suc level) room y
              (w_items print_g strtod pretty level ys) rest h) in
        items_more strtod (suc fuel) depth s acc x _ tail found refl
        ∙ read_items ys level room depth fuel (array_push acc x) y tail rest hs d (omega arith) read
        ∙ ap (λ t. some (t, rest)) (joined-array_push (array_push acc x) ys y)

    read_members :
        (ms : Members) (level room depth fuel : ℕ) (acc : Members) (k : Bytes) (x : Json)
        (s s1 rest : Bytes)
        → HavePlain room ms
        → room + depth ≤ 64
        → cost_members ms ≤ fuel
        → unseen (obj_put acc k x) ms ≡ true
        → p_key acc (skip_ws s) ≡ some (k, s1)
        → p_value strtod fuel depth s1 ≡ some (x, w_members print_g strtod pretty level ms ++ rest)
        → p_members strtod (suc fuel) depth acc s ≡ some (merged (obj_put acc k x) ms, rest)
    read_members no_members level room depth fuel acc k x s s1 rest h d enough new keyed found =
        members_last strtod fuel depth s acc k x s1 _ rest keyed found
          (rw (closing pretty level b'}' rest refl) refl)
        ∙ ap (λ t. some (t, rest)) (sym (merged-no_members (obj_put acc k x)))
    read_members (member j y ns) level room depth zero acc k x s s1 rest h d enough new keyed
          found =
        absurd (omega arith)
    read_members (member j y ns) level room depth (suc fuel) acc k x s s1 rest h d enough new keyed
          found =
        let obj = obj_put acc k x in
        let tail = member_text print_g strtod finite pretty level room obj ns j y rest in
        let (unicode, no_nul, differ, hy, hns) = h in
        let (t, keyed2, behind) =
          next_member print_g strtod finite pretty level room obj ns j y rest h new in
        let read =
          read_value y (suc level) room depth fuel t
            (w_members print_g strtod pretty level ns ++ rest) hy d (omega arith)
            (stops-w_members print_g strtod finite pretty level rest ns) behind in
        members_more strtod (suc fuel) depth s acc k x s1 _ tail keyed found refl
        ∙ read_members ns level room depth fuel obj j y tail t rest hns d (omega arith)
            (unseen-obj_put obj j y ns (ground arith) differ) keyed2 read
        ∙ ap (λ u. some (u, rest)) (merged-obj_put obj ns j y (ground arith))

pub json_parse-json_write :
    (print_g : ℕ → ℕ → Bytes) (strtod : Bytes → Option ℕ)
    → IsFinite strtod
    → (v : Json) (pretty : Bool) → IsPlain max_depth v
    → json_parse strtod (json_write print_g strtod v pretty) ≡ some v
unfolding json_parse skip_ws
json_parse-json_write print_g strtod finite v pretty h =
    let text = json_write print_g strtod v pretty in
    let start = (value_first print_g strtod finite pretty 0 max_depth v [] h).0 in
    let start2 : skip_ws text ≡ text ++ [] = ap skip_ws (sym (append-nil text)) ∙ start in
    rw
      (read_value print_g strtod finite pretty v 0 max_depth 0 (2 * length text) text [] h
        (omega arith) (cost-w_value print_g strtod pretty v 0 max_depth h) refl start2)
      refl
