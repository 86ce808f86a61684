-- ===== src/Examples/Json.antt =====
-- A JSON value on concrete inputs.
use asterism_astools.Prelude.{
  ℕ, ◌≡◌, ◌↔◌, refl, inl, true, some, Option, [], ◌∷◌, ◌++◌, arith, codes, Bytes, str_eq,
}
use asterism_astools.Utf8.Spec.{encode, encode_all}
use asterism_astools.Json.{
  Json, number, integer, boolean, string, array, object, no_items, item, no_members, member, clone,
}
use asterism_astools.Json.Parser.{p_value, string_raw, json_parse, decimal_from, has_nul}
use asterism_astools.Json.Writer.{json_write}
use asterism_astools.Json.Numbers.{IsFinite, fits}
use asterism_astools.Json.Plain.{IsPlain, IsUnicode, keys_differ}
use asterism_astools.Json.RoundTrip.{json_parse-json_write}
use asterism_astools.Json.Sound.{IsSound, json_parse-IsSound}
use asterism_astools.Json.Runs.{ValueRun, StringRun}
use asterism_astools.Json.Fuel.{p_value-ValueRun}
use asterism_astools.Json.Clone.{clone_exact}

-- {"k": [-12, true], "é": "x\n"}
abbrev sample : Json
sample = object (
    member (codes "k") (array (item (number (integer true 12)) (item (boolean true) no_items)))
      (member (0xC3 ∷ 0xA9 ∷ []) (string (codes "x" ++ 10 ∷ [])) no_members))

-- A C library for a run.
abbrev some_double : Bytes → Option ℕ
some_double s = some (decimal_from 0 s)

abbrev no_print : ℕ → ℕ → Bytes
no_print p bits = codes "0"

finite : IsFinite some_double
finite sign ds h short = (decimal_from 0 (sign ++ ds), refl)

key_text : IsUnicode (codes "k")
unfolding encode encode_all
key_text = (b'k' ∷ [], (inl (omega arith), tt), refl)

accent_text : IsUnicode (0xC3 ∷ 0xA9 ∷ [])
unfolding encode encode_all
accent_text = (0xE9 ∷ [], (inl (omega arith), tt), refl)

line_text : IsUnicode (codes "x" ++ 10 ∷ [])
unfolding encode encode_all
line_text = (b'x' ∷ 10 ∷ [], (inl (omega arith), (inl (omega arith), tt)), refl)

sample-IsPlain : IsPlain 64 sample
unfolding IsPlain fits keys_differ has_nul str_eq
sample-IsPlain = (key_text, refl, refl, (refl, (tt, tt)), (accent_text, refl, refl, line_text, tt))

json_parse-json_write_example :
    json_parse some_double (json_write no_print some_double sample true) ≡ some sample
json_parse-json_write_example =
    json_parse-json_write no_print some_double finite sample true sample-IsPlain

json_parse-IsSound_example : IsSound 64 sample
json_parse-IsSound_example =
    json_parse-IsSound some_double (json_write no_print some_double sample true) sample
      json_parse-json_write_example

clone_exact_example : clone sample ≡ sample
clone_exact_example = clone_exact 64 sample json_parse-IsSound_example

p_value-ValueRun_example :
    ((o : Option (Json × Bytes))
      → ValueRun some_double 0 (codes "[1, 2]") o ↔ (p_value some_double 30 0 (codes "[1, 2]") ≡ o))
    × ((o : Option (Bytes × Bytes))
        → StringRun (codes "[1, 2]") o ↔ (string_raw (codes "[1, 2]") ≡ o))
p_value-ValueRun_example = p_value-ValueRun some_double 30 0 (codes "[1, 2]") (omega arith)
