-- ===== src/Json/Cost.antt =====
-- The rounds of the parser that a text of src/json.c takes, against its length.
use asterism_astools.Prelude.{ℕ, zero, suc, ◌+◌, ◌*◌, ◌≤◌}
use asterism_astools.Prelude.{Bool, true, false, Option, ◌++◌, arith}
use asterism_astools.Prelude.{length, length-append}
use asterism_astools.Prelude.{Bytes}
use asterism_astools.Json.{
  Json, null, boolean, number, string, array, object, Items, no_items, item, Members, no_members,
  member,
}
use asterism_astools.Json.Writer.{w_string, new_line, colon, w_value, w_items, w_members}
use asterism_astools.Json.Plain.{
  IsPlain, ArePlain, HavePlain, cost, cost_items, cost_members, w_value-Starts, Starts,
}

length-Starts : (text : Bytes) → Starts text → 1 ≤ length text
length-Starts text w = rw w.begins (omega arith)

longer : (n : ℕ) (front text : Bytes) → n ≤ 2 * length text → n ≤ 2 * length (front ++ text)
longer n front text h = omega (arith, length-append front text)

together :
    (n m : ℕ) (front middle text : Bytes)
    → n ≤ 2 * length middle
    → m ≤ 2 * length text
    → n + m ≤ 2 * length (front ++ (middle ++ text))
together n m front middle text h k =
    omega (arith, length-append front (middle ++ text), length-append middle text)

module _ (print_g : ℕ → ℕ → Bytes) (strtod : Bytes → Option ℕ) (pretty : Bool) where
  members_cost :
      (k : Bytes) (x : Json) (ms : Members) (level : ℕ)
      → cost x ≤ 2 * length (w_value print_g strtod pretty (suc level) x)
      → cost_members ms ≤ 2 * length (w_members print_g strtod pretty level ms)
      → cost x + cost_members ms
        ≤ 2
          * length (
              new_line pretty (suc level)
              ++ (w_string k
                  ++ (colon pretty
                      ++ (w_value print_g strtod pretty (suc level) x
                          ++ w_members print_g strtod pretty level ms))))
  members_cost k x ms level h hs =
      longer (cost x + cost_members ms) (new_line pretty (suc level)) _ (
        longer (cost x + cost_members ms) (w_string k) _ (
          together (cost x) (cost_members ms) (colon pretty)
            (w_value print_g strtod pretty (suc level) x) (w_members print_g strtod pretty level ms)
            h hs))

  items_cost :
      (x : Json) (xs : Items) (level : ℕ)
      → cost x ≤ 2 * length (w_value print_g strtod pretty (suc level) x)
      → cost_items xs ≤ 2 * length (w_items print_g strtod pretty level xs)
      → cost x + cost_items xs
        ≤ 2
          * length (
              new_line pretty (suc level)
              ++ (w_value print_g strtod pretty (suc level) x
                  ++ w_items print_g strtod pretty level xs))
  items_cost x xs level h hs =
      together (cost x) (cost_items xs) (new_line pretty (suc level))
        (w_value print_g strtod pretty (suc level) x) (w_items print_g strtod pretty level xs) h hs

  mutual
    unfolding IsPlain cost w_value

    pub cost-w_value :
        (v : Json) (level room : ℕ)
        → IsPlain room v
        → cost v ≤ 2 * length (w_value print_g strtod pretty level v)
    cost-w_value null level room h = omega arith
    cost-w_value (boolean true) level room h = omega arith
    cost-w_value (boolean false) level room h = omega arith
    cost-w_value (number n) level room h =
        omega
          (arith, length-Starts _ (w_value-Starts print_g strtod pretty level room (number n) h))
    cost-w_value (string s) level room h = omega arith
    cost-w_value (array no_items) level room h = omega arith
    cost-w_value (array (item x xs)) level zero h = absurd h
    cost-w_value (array (item x xs)) level (suc room) (h, hs) = omega (
      arith,
      items_cost x xs level (cost-w_value x (suc level) room h) (cost-w_items xs level room hs),
    )
    cost-w_value (object no_members) level room h = omega arith
    cost-w_value (object (member k x ms)) level zero h = absurd h
    cost-w_value (object (member k x ms)) level (suc room) (unicode, no_nul, differ, h, hs) =
        omega (
          arith,
          members_cost k x ms level (cost-w_value x (suc level) room h)
              (cost-w_members ms level room hs),
        )

    cost-w_items :
        (xs : Items) (level room : ℕ)
        → ArePlain room xs
        → cost_items xs ≤ 2 * length (w_items print_g strtod pretty level xs)
    cost-w_items no_items level room h = omega arith
    cost-w_items (item x xs) level room (h, hs) = omega (
      arith,
      items_cost x xs level (cost-w_value x (suc level) room h) (cost-w_items xs level room hs),
    )

    cost-w_members :
        (ms : Members) (level room : ℕ)
        → HavePlain room ms
        → cost_members ms ≤ 2 * length (w_members print_g strtod pretty level ms)
    cost-w_members no_members level room h = omega arith
    cost-w_members (member k x ms) level room (unicode, no_nul, differ, h, hs) = omega (
      arith,
      members_cost k x ms level (cost-w_value x (suc level) room h)
          (cost-w_members ms level room hs),
    )
