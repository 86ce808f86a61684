-- ===== src/Json/Parts.antt =====
-- The parts of a written value of src/json.c, each read back.
use asterism_astools.Prelude.{ℕ, zero, suc, ◌≤◌, ◌≡◌, refl, sym, ap, ◌∙◌}
use asterism_astools.Prelude.{Bool, true, Option, none, some, ◌∷◌, ◌++◌, arith}
use asterism_astools.Prelude.{Bytes, peek}
use mathlib.Core.List.{append_assoc}
use asterism_astools.Json.{integer, Json, number, string, Members, member}
use asterism_astools.Json.Parser.{skip_ws, p_scalar, p_key, closes, p_value}
use asterism_astools.Json.Writer.{w_string, w_bytes, new_line, colon, w_number, w_value, w_members}
use asterism_astools.Json.Numbers.{IsFinite, stops}
use asterism_astools.Json.Plain.{IsUnicode, IsPlain, HavePlain, unseen}
use asterism_astools.Json.Reading.{read_string, string_text, read_key, read_integer, value_first}
use asterism_astools.Json.Steps.{skip_ws-cons, skip_ws-new_line, value_scalar}

module _ (print_g : ℕ → ℕ → Bytes) (strtod : Bytes → Option ℕ) (finite : IsFinite strtod)
    (pretty : Bool) where
  -- A value behind the line feed and the indentation.
  pub next_value :
      (level lines room : ℕ) (v : Json) (after rest : Bytes)
      → IsPlain room v
      → skip_ws
          ((new_line pretty lines ++ (w_value print_g strtod pretty level v ++ after)) ++ rest)
        ≡ w_value print_g strtod pretty level v ++ (after ++ rest)
  next_value level lines room v after rest h =
      rw
        (append_assoc (new_line pretty lines) (w_value print_g strtod pretty level v ++ after) rest)
        (rw (append_assoc (w_value print_g strtod pretty level v) after rest) (
          skip_ws-new_line pretty lines _
          ∙ (value_first print_g strtod finite pretty level room v (after ++ rest) h).0))

  pub read_number :
      (negative : Bool) (n room depth fuel : ℕ) (s rest : Bytes)
      → IsPlain room (number (integer negative n))
      → 1 ≤ fuel
      → stops (peek rest) ≡ true
      → skip_ws s ≡ w_number print_g strtod (integer negative n) ++ rest
      → p_value strtod fuel depth s ≡ some (number (integer negative n), rest)
  read_number negative n room depth zero s rest h enough stop e = absurd (omega arith)
  read_number negative n room depth (suc fuel) s rest h enough stop e =
      let (c, r, text, black, square, curly, read) =
        read_integer print_g strtod finite negative n room rest h stop in
      value_scalar strtod fuel depth s c r (e ∙ text) square curly ∙ read

  pub read_text :
      (str : Bytes) (depth fuel : ℕ) (s rest : Bytes)
      → IsUnicode str
      → 1 ≤ fuel
      → skip_ws s ≡ w_string str ++ rest
      → p_value strtod fuel depth s ≡ some (string str, rest)
  unfolding p_scalar
  read_text str depth zero s rest h enough e = absurd (omega arith)
  read_text str depth (suc fuel) s rest h enough e =
      value_scalar strtod fuel depth s b'"' (w_bytes str ++ b'"' ∷ rest) (e ∙ string_text str rest)
        refl refl
      ∙ rw (read_string str rest h) refl

  module _ (level room : ℕ) (obj ms : Members) (k : Bytes) (x : Json) (rest : Bytes) where
    -- A member with all that follows it, and what that is behind the line feed and the indentation.
    abbrev pub member_text : Bytes
    member_text =
        (new_line pretty (suc level)
          ++ (w_string k
              ++ (colon pretty
                  ++ (w_value print_g strtod pretty (suc level) x
                      ++ w_members print_g strtod pretty level ms))))
        ++ rest

    abbrev pub behind_key : Bytes
    behind_key =
        w_value print_g strtod pretty (suc level) x
        ++ (w_members print_g strtod pretty level ms ++ rest)

    pub shown_member : skip_ws member_text ≡ w_string k ++ (colon pretty ++ behind_key)
    shown_member =
        let wx = w_value print_g strtod pretty (suc level) x in
        let wms = w_members print_g strtod pretty level ms in
        rw
          (append_assoc (new_line pretty (suc level)) (w_string k ++ (colon pretty ++ (wx ++ wms)))
            rest)
          (skip_ws-new_line pretty (suc level)
              ((w_string k ++ (colon pretty ++ (wx ++ wms))) ++ rest)
            ∙ skip_ws-cons b'"' _ refl
            ∙ append_assoc (w_string k) (colon pretty ++ (wx ++ wms)) rest
            ∙ ap (λ t. w_string k ++ t)
                (append_assoc (colon pretty) (wx ++ wms) rest
                  ∙ ap (λ t. colon pretty ++ t) (append_assoc wx wms rest)))

    -- It closes no object.
    pub member_open : closes b'}' (skip_ws member_text) ≡ none
    unfolding closes
    member_open = ap (closes b'}') shown_member

    pub member_black : skip_ws (skip_ws member_text) ≡ skip_ws member_text
    member_black = ap skip_ws shown_member ∙ skip_ws-cons b'"' _ refl ∙ sym shown_member

    -- The key of the first member.
    pub next_member :
        HavePlain room (member k x ms)
        → unseen obj (member k x ms) ≡ true
        → (t : Bytes) × (p_key obj (skip_ws member_text) ≡ some (k, t)) × (skip_ws t ≡ behind_key)
    unfolding HavePlain unseen
    next_member (unicode, no_nul, differ, h, hs) new =
        let (t, keyed, behind) = read_key pretty obj k behind_key unicode no_nul (ground arith) in
        (
          t,
          ap (p_key obj) shown_member ∙ keyed,
          behind
              ∙ (value_first print_g strtod finite pretty (suc level) room x
                  (w_members print_g strtod pretty level ms ++ rest) h).0,
        )
