-- ===== src/Json.antt =====
-- src/json.c: the JSON codec of the process transports. A value is a tree of data, so that sharing
-- and release are no matter. A `double` is the number of its 64 bits, and what the C library makes of
-- one is a parameter. Memory does not run out.
pub mod Parser
pub mod Writer
mod Strings
pub mod Numbers
mod Steps
pub mod Laws
pub mod Plain
mod Reading
mod Parts
mod Cost
mod Length
mod Rest
mod Branches
pub mod Runs
mod Outcome
pub mod Fuel
pub mod Sound
pub mod Clone
pub mod RoundTrip
use asterism_astools.Prelude.{
  ℕ, zero, suc, ◌+◌, ◌-◌, ◌*◌, ◌/◌, ◌%◌, ◌^◌, ◌≤◌, ◌<◌, ◌≡◌, refl, sym, ap, ◌∙◌, ◌≢◌, ◌↔◌, ◌⊎◌, inl,
  inr,
}
use asterism_astools.Prelude.{
  Bool, true, false, not, ◌&&◌, ◌||◌, Option, none, some, List, [], ◌∷◌, ◌++◌, map, arith,
}
use asterism_astools.Prelude.{
  ltb, leb, ◌==◌, if◌then◌else◌, ltb→lt, lt→ltb, leb→le, ==_iff, tests, Bool-cases, some_inj,
  bool_clash, Option-cases, agree_below, agree_below→eq,
}
use asterism_astools.Prelude.{
  length, get_elem?, get_or, take, drop, replicate, length-append, take-append-drop,
  drop-append_length, All-drop, All-append, zero_or_suc, list_cases, length_pos, length-take,
  length-drop, All,
}
use asterism_astools.Prelude.{
  Bytes, AreBytes, str_eq, str_eq_iff, str_eq_refl, codes, peek, advance, within, is_digit, Result,
  ok, err, Err, Result-cases, bind-eq-ok, ◌>>=◌,
}

-- The number of a `jx_value`: one with `is_int` by its sign and magnitude, or a `double`. The `double`
-- view of an integer is not kept.
pub data Number : Type 0 where
  integer : (negative : Bool) (magnitude : ℕ) → Number
  double : (bits : ℕ) → Number

-- `jx_value`, its items and its `jx_member`s.
mutual
  pub data Json : Type 0 where
    null : Json
    boolean : Bool → Json
    number : Number → Json
    string : Bytes → Json
    array : Items → Json
    object : Members → Json

  pub data Items : Type 0 where
    no_items : Items
    item : Json → Items → Items

  pub data Members : Type 0 where
    no_members : Members
    member : Bytes → Json → Members → Members

-- `jx_array_push`
unfoldable pub array_push : Items → Json → Items
array_push no_items v = item v no_items
array_push (item x xs) v = item x (array_push xs v)

-- `jx_array_len` and `jx_array_at`
unfoldable pub array_len : Items → ℕ
array_len no_items = 0
array_len (item x xs) = suc (array_len xs)

unfoldable pub array_at : Items → ℕ → Option Json
array_at no_items i = none
array_at (item x xs) zero = some x
array_at (item x xs) (suc i) = array_at xs i

-- `obj_put`: a value of that key is replaced, and a new key goes to the end.
unfoldable pub obj_put : Members → Bytes → Json → Members
obj_put no_members key v = member key v no_members
obj_put (member k x ms) key v =
    let rest = obj_put ms key v in if str_eq k key then member k v ms else member k x rest

-- `jx_object_get`
unfoldable pub object_get : Members → Bytes → Option Json
object_get no_members key = none
object_get (member k x ms) key =
    let rest = object_get ms key in if str_eq k key then some x else rest

-- `jx_object_count`, `jx_object_key_at` and `jx_object_value_at`
unfoldable pub object_count : Members → ℕ
object_count no_members = 0
object_count (member k x ms) = suc (object_count ms)

unfoldable pub key_at : Members → ℕ → Option Bytes
key_at no_members i = none
key_at (member k x ms) zero = some k
key_at (member k x ms) (suc i) = key_at ms i

unfoldable pub value_at : Members → ℕ → Option Json
value_at no_members i = none
value_at (member k x ms) zero = some x
value_at (member k x ms) (suc i) = value_at ms i

-- `jx_clone`: items are pushed and members set, one after the other.
unfoldable mutual
  pub clone : Json → Json
  clone null = null
  clone (boolean b) = boolean b
  clone (number n) = number n
  clone (string s) = string s
  clone (array xs) = array (clone_items no_items xs)
  clone (object ms) = object (clone_members no_members ms)

  pub clone_items : Items → Items → Items
  clone_items c no_items = c
  clone_items c (item x xs) = clone_items (array_push c (clone x)) xs

  pub clone_members : Members → Members → Members
  clone_members c no_members = c
  clone_members c (member k x ms) = clone_members (obj_put c k (clone x)) ms
