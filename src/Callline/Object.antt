-- ===== src/Callline/Object.antt =====
-- The loop of src/callline.c over the object of a call.
use asterism_astools.Prelude.{ℕ, suc, ◌+◌, ◌-◌, ◌≡◌, refl, ap, inl, inr}
use asterism_astools.Prelude.{true, false, Option, none, some, [], ◌∷◌, ◌++◌, arith}
use asterism_astools.Prelude.{◌==◌, Bool-cases, some_inj}
use asterism_astools.Prelude.{zero_or_suc}
use asterism_astools.Prelude.{Bytes}
use asterism_astools.Callline.{balanced, object_part, prepend}
use asterism_astools.Callline.Shape.{
  Inside, ends, opens, closes, quotes, other, InString, unquotes, escapes, within_string, IsObject,
}

prepend_inv :
    (c : ℕ) (o : Option Bytes) {r : Bytes}
    → prepend c o ≡ some r
    → (t : Bytes) × (o ≡ some t) × (c ∷ t ≡ r)
prepend_inv c none e = cc
prepend_inv c (some t) e = (t, refl, cc)

-- What was read has the form, and is the start of the text.
abbrev pub Reads : (Bytes → Type 0) → Bytes → Bytes → Type 0
Reads P s r = P r × ((rest : Bytes) × (s ≡ r ++ rest))

read_on :
    (P Q : Bytes → Type 0) (c : ℕ) (s r : Bytes) (o : Option Bytes)
    → prepend c o ≡ some r
    → ((t : Bytes) → P t → Q (c ∷ t))
    → ((t : Bytes) → o ≡ some t → Reads P s t)
    → Reads Q (c ∷ s) r
read_on P Q c s r o e step read =
    let (t, found, same) = prepend_inv c o e in
    let (body, (rest, more)) = read t found in
    rw (← same) (step t body, (rest, ap (λ x. c ∷ x) more))

-- The byte that is escaped, and the string behind it.
abbrev Escaped : ℕ → Bytes → Type 0
Escaped depth r = (c : ℕ) × (t : Bytes) × (r ≡ c ∷ t) × InString depth t

mutual
  unfolding balanced

  balanced-Inside :
      (depth : ℕ) (s r : Bytes)
      → balanced false false (suc depth) s ≡ some r
      → Reads (Inside (suc depth)) s r
  balanced-Inside depth [] r e = cc
  balanced-Inside depth (c ∷ s) r e = elim (Bool-cases (c == b'}')) [
    | inl shut ↦
        let brace : (c == b'{') ≡ false = ground arith in
        let quote : (c == b'"') ≡ false = ground arith in
        elim (zero_or_suc depth) [
          | inl outermost ↦
              let same : c ∷ [] ≡ r = some_inj (rw (shut, outermost) at e) in
              rw (outermost, ← same) (ends (ground arith), (s, refl))
          | inr (d, deeper) ↦
              let not_last : (suc (suc d) == 1) ≡ false = ground arith in
              let one_less : suc (suc d) - 1 ≡ suc d = omega arith in
              rw deeper (
                read_on (Inside (suc d)) (Inside (suc (suc d))) c s r _
                  (rw (shut, deeper, not_last, brace, quote, one_less) at e)
                  (λ t body. closes (ground arith) body) (λ t found. balanced-Inside d s t found))
        ]
    | inr inner ↦ elim (Bool-cases (c == b'{')) [
      | inl brace ↦
          let one_more : suc depth + 1 ≡ suc (suc depth) = omega arith in
          let quote : (c == b'"') ≡ false = ground arith in
          read_on (Inside (suc (suc depth))) (Inside (suc depth)) c s r _
            (rw (inner, brace, quote, one_more) at e) (λ t body. opens (ground arith) body)
            (λ t found. balanced-Inside (suc depth) s t found)
      | inr apart ↦ elim (Bool-cases (c == b'"')) [
        | inl quote ↦
            read_on (InString (suc depth)) (Inside (suc depth)) c s r _
              (rw (inner, apart, quote) at e) (λ t body. quotes (ground arith) body)
              (λ t found. balanced-InString depth s t found)
        | inr plain ↦
            read_on (Inside (suc depth)) (Inside (suc depth)) c s r _
              (rw (inner, apart, plain) at e)
              (λ t body. other (ground arith) (ground arith) (ground arith) body)
              (λ t found. balanced-Inside depth s t found)
      ]
    ]
  ]

  balanced-InString :
      (depth : ℕ) (s r : Bytes)
      → balanced true false (suc depth) s ≡ some r
      → Reads (InString (suc depth)) s r
  balanced-InString depth [] r e = cc
  balanced-InString depth (c ∷ s) r e = elim (Bool-cases (c == b'"')) [
    | inl quote ↦
        let plain : (c == b'\\') ≡ false = ground arith in
        read_on (Inside (suc depth)) (InString (suc depth)) c s r _ (rw (quote, plain) at e)
          (λ t body. unquotes (ground arith) body) (λ t found. balanced-Inside depth s t found)
    | inr inner ↦ elim (Bool-cases (c == b'\\')) [
      | inl escape ↦
          read_on (Escaped (suc depth)) (InString (suc depth)) c s r _ (rw (inner, escape) at e)
            (λ t (c2, t2, same, body). rw same (escapes (ground arith) body))
            (λ t found. balanced-Escaped depth s t found)
      | inr plain ↦
          read_on (InString (suc depth)) (InString (suc depth)) c s r _ (rw (inner, plain) at e)
            (λ t body. within_string (ground arith) (ground arith) body)
            (λ t found. balanced-InString depth s t found)
    ]
  ]

  balanced-Escaped :
      (depth : ℕ) (s r : Bytes)
      → balanced true true (suc depth) s ≡ some r
      → Reads (Escaped (suc depth)) s r
  balanced-Escaped depth [] r e = cc
  balanced-Escaped depth (c ∷ s) r e =
      read_on (InString (suc depth)) (Escaped (suc depth)) c s r _ e (λ t body. (c, t, refl, body))
        (λ t found. balanced-InString depth s t found)

pub object_part-IsObject : (s args : Bytes) → object_part s ≡ some args → Reads IsObject s args
unfolding object_part
object_part-IsObject [] args e = cc
object_part-IsObject (c ∷ s) args e = elim (Bool-cases (c == b'{')) [
  | inl brace ↦
      let shut : (c == b'}') ≡ false = ground arith in
      let quote : (c == b'"') ≡ false = ground arith in
      let first : prepend c (balanced false false 1 s) ≡ some args =
        unfold balanced in rw (brace, shut, quote) at e in
      read_on (Inside 1) IsObject c s args _ first (λ t body. (ground arith, body))
        (λ t found. balanced-Inside 0 s t found)
  | inr unlike ↦ ground arith
]
