-- ===== src/Callline/Shape.antt =====
-- The form of a call in a line of text, for the parser of src/callline.c.
use asterism_astools.Prelude.{ℕ, suc, ◌≤◌, ◌≡◌, ◌≢◌, ◌⊎◌}
use asterism_astools.Prelude.{[], ◌∷◌, ◌++◌}
use asterism_astools.Prelude.{length, All}
use asterism_astools.Prelude.{Bytes, codes}
use asterism_astools.Callline.{Call}

abbrev pub IsBlank : ℕ → Type 0
IsBlank c = (c ≡ b' ') ⊎ (c ≡ 9)

abbrev pub IsLower : ℕ → Type 0
IsLower c = (b'a' ≤ c) × (c ≤ b'z')

abbrev pub IsUpper : ℕ → Type 0
IsUpper c = (b'A' ≤ c) × (c ≤ b'Z')

abbrev pub IsNumeral : ℕ → Type 0
IsNumeral c = (b'0' ≤ c) × (c ≤ b'9')

-- A character of a slug: a small letter, a digit or a dash.
abbrev pub IsSlugChar : ℕ → Type 0
IsSlugChar c = IsLower c ⊎ (IsNumeral c ⊎ (c ≡ b'-'))

abbrev pub IsVersionChar : ℕ → Type 0
IsVersionChar c = IsLower c ⊎ (IsUpper c ⊎ (IsNumeral c ⊎ ((c ≡ b'.') ⊎ ((c ≡ b'+') ⊎ (c ≡ b'-')))))

-- A name of one slug character at least.
abbrev pub IsSlug : Bytes → Type 0
IsSlug s = (1 ≤ length s) × All IsSlugChar s

-- Nothing, or a version behind an `@`.
abbrev pub IsVersionPart : Bytes → Type 0
IsVersionPart [] = Unit
IsVersionPart (c ∷ v) = (c ≡ b'@') × (1 ≤ length v) × All IsVersionChar v

-- The text of an object from some place in it on, with so many braces open, and the same from a place
-- in a string.
mutual
  pub data Inside : ℕ → Bytes → Type 0 where
    ends : {c : ℕ} → c ≡ b'}' → Inside 1 (c ∷ [])
    opens : {c depth : ℕ} {s : Bytes} → c ≡ b'{' → Inside (suc depth) s → Inside depth (c ∷ s)
    closes :
        {c depth : ℕ} {s : Bytes}
        → c ≡ b'}'
        → Inside (suc depth) s
        → Inside (suc (suc depth)) (c ∷ s)
    quotes : {c depth : ℕ} {s : Bytes} → c ≡ b'"' → InString depth s → Inside depth (c ∷ s)
    other :
        {c depth : ℕ} {s : Bytes}
        → c ≢ b'{'
        → c ≢ b'}'
        → c ≢ b'"'
        → Inside depth s
        → Inside depth (c ∷ s)

  pub data InString : ℕ → Bytes → Type 0 where
    unquotes : {c depth : ℕ} {s : Bytes} → c ≡ b'"' → Inside depth s → InString depth (c ∷ s)
    escapes :
        {c e depth : ℕ} {s : Bytes} → c ≡ b'\\' → InString depth s → InString depth (c ∷ e ∷ s)
    within_string :
        {c depth : ℕ} {s : Bytes} → c ≢ b'"' → c ≢ b'\\' → InString depth s → InString depth (c ∷ s)

-- An object: an open brace, and the text up to the brace that closes it.
abbrev pub IsObject : Bytes → Type 0
IsObject [] = ⊥
IsObject (c ∷ s) = (c ≡ b'{') × Inside 1 s

-- The line holds the call: the word `CALL`, the tool with its version, a dot and the command, the object,
-- and any rest, with blanks between them.
pub record IsCall (line : Bytes) (call : Call) : Type 0 where
  pub lead : Bytes
  pub gap : Bytes
  pub space : Bytes
  pub tool : Bytes
  pub version : Bytes
  pub rest : Bytes
  pub line_is :
      line
      ≡ lead
        ++ (codes "CALL "
            ++ (gap
                ++ ((tool ++ version)
                    ++ (b'.' ∷ (call.command ++ (space ++ (call.args ++ rest)))))))
  pub lead_blank : All IsBlank lead
  pub gap_blank : All IsBlank gap
  pub space_blank : All IsBlank space
  pub ref_is : call.ref ≡ tool ++ version
  pub tool_named : IsSlug tool
  pub versioned : IsVersionPart version
  pub command_named : IsSlug call.command
  pub args_closed : IsObject call.args
