-- ===== src/Json/Writer.antt =====
-- The writer of src/json.c. The text that a value is printed as is a list of bytes.
use asterism_astools.Prelude.{ℕ, zero, suc, ◌+◌, ◌/◌, ◌%◌}
use asterism_astools.Prelude.{Bool, true, false, ◌||◌, Option, none, some, [], ◌∷◌, ◌++◌}
use asterism_astools.Prelude.{ltb, ◌==◌, if◌then◌else◌}
use asterism_astools.Prelude.{get_or}
use asterism_astools.Prelude.{Bytes, codes}
use asterism_astools.Json.{
  Number, integer, double, Json, null, boolean, number, string, array, object, Items, no_items,
  item, Members, no_members, member,
}

abbrev pub hex_chars : Bytes
hex_chars = codes "0123456789abcdef"

-- A byte of a string, as `w_string` writes it.
unfoldable pub w_byte : ℕ → Bytes
w_byte c =
    if c == b'"' || c == b'\\'
    then b'\\' ∷ c ∷ []
    else if c == 8
    then b'\\' ∷ b'b' ∷ []
    else if c == 12
    then b'\\' ∷ b'f' ∷ []
    else if c == 10
    then b'\\' ∷ b'n' ∷ []
    else if c == 13
    then b'\\' ∷ b'r' ∷ []
    else if c == 9
    then b'\\' ∷ b't' ∷ []
    else if ltb c 0x20
    then b'\\' ∷ b'u' ∷ b'0' ∷ b'0' ∷ get_or hex_chars (c / 16) 0 ∷ get_or hex_chars (c % 16) 0 ∷ []
    else c ∷ []

unfoldable pub w_bytes : Bytes → Bytes
w_bytes [] = []
w_bytes (c ∷ s) = w_byte c ++ w_bytes s

-- `w_string`
abbrev pub w_string : Bytes → Bytes
w_string s = b'"' ∷ (w_bytes s ++ b'"' ∷ [])

-- The decimal digits of a number in front of a text, for `%lld`: at most `fuel` of them.
unfoldable pub decimal_digits : ℕ → ℕ → Bytes → Bytes
decimal_digits zero n acc = acc
decimal_digits (suc fuel) n acc = elim (ltb n 10) [
  | true ↦ (b'0' + n) ∷ acc
  | false ↦ decimal_digits fuel (n / 10) ((b'0' + n % 10) ∷ acc)
]

-- The line feed and the indentation of `w_nl_indent`, where the text is pretty.
unfoldable pub indent : ℕ → Bytes
indent zero = []
indent (suc level) = b' ' ∷ b' ' ∷ indent level

unfoldable pub new_line : Bool → ℕ → Bytes
new_line true level = 10 ∷ indent level
new_line false level = []

abbrev pub colon : Bool → Bytes
colon true = b':' ∷ b' ' ∷ []
colon false = b':' ∷ []

-- `print_g p bits` is what `snprintf` writes for `%.*g`, and `strtod` as in the parser.
module _ (print_g : ℕ → ℕ → Bytes) (strtod : Bytes → Option ℕ) where
  -- 15 digits, unless they are another number.
  unfoldable pub w_double : ℕ → Bytes
  w_double bits =
      let same : Bool = elim (strtod (print_g 15 bits)) [ none ↦ false | some d ↦ d == bits ] in
      if same then print_g 15 bits else print_g 17 bits

  -- `w_number`; an `int64_t` has at most 19 digits.
  unfoldable pub w_number : Number → Bytes
  w_number (integer negative n) = elim negative [
    | true ↦ b'-' ∷ decimal_digits 19 n []
    | false ↦ decimal_digits 19 n []
  ]
  w_number (double bits) = w_double bits

  -- `w_value`. The loops write a comma in front of all items but the first, and the closing bracket.
  unfoldable mutual
    pub w_value : Bool → ℕ → Json → Bytes
    w_value pretty level null = codes "null"
    w_value pretty level (boolean true) = codes "true"
    w_value pretty level (boolean false) = codes "false"
    w_value pretty level (number n) = w_number n
    w_value pretty level (string s) = w_string s
    w_value pretty level (array no_items) = codes "[]"
    w_value pretty level (array (item x xs)) =
        b'['
        ∷ (new_line pretty (suc level) ++ (w_value pretty (suc level) x ++ w_items pretty level xs))
    w_value pretty level (object no_members) = codes "{}"
    w_value pretty level (object (member k x ms)) =
        b'{'
        ∷ (new_line pretty (suc level)
            ++ (w_string k
                ++ (colon pretty ++ (w_value pretty (suc level) x ++ w_members pretty level ms))))

    pub w_items : Bool → ℕ → Items → Bytes
    w_items pretty level no_items = new_line pretty level ++ b']' ∷ []
    w_items pretty level (item x xs) =
        b','
        ∷ (new_line pretty (suc level) ++ (w_value pretty (suc level) x ++ w_items pretty level xs))

    pub w_members : Bool → ℕ → Members → Bytes
    w_members pretty level no_members = new_line pretty level ++ b'}' ∷ []
    w_members pretty level (member k x ms) =
        b','
        ∷ (new_line pretty (suc level)
            ++ (w_string k
                ++ (colon pretty ++ (w_value pretty (suc level) x ++ w_members pretty level ms))))

  -- `jx_write`, of a value that is not null
  abbrev pub json_write : Json → Bool → Bytes
  json_write v pretty = w_value pretty 0 v
