-- ===== src/Examples.antt =====
-- The theorems applied to concrete inputs.
mod Search
mod Codecs
mod Clock
mod Exchange
mod Json
mod Tools
mod Texts
mod Stores
mod Paths
mod Grants
mod Arguments
use asterism_astools.Prelude.{
  ℕ, zero, suc, ◌+◌, ◌-◌, ◌*◌, ◌/◌, ◌%◌, ◌^◌, ◌≤◌, ◌<◌, ◌≡◌, refl, sym, ap, ◌∙◌, ◌≢◌, ◌↔◌, ◌⊎◌, inl,
  inr,
}
use asterism_astools.Prelude.{
  Bool, true, false, not, ◌&&◌, ◌||◌, Option, none, some, List, [], ◌∷◌, ◌++◌, map, arith,
}
use asterism_astools.Prelude.{
  ltb, leb, ◌==◌, if◌then◌else◌, ltb→lt, lt→ltb, leb→le, ==_iff, tests, Bool-cases, some_inj,
  bool_clash, Option-cases, agree_below, agree_below→eq,
}
use asterism_astools.Prelude.{
  length, get_elem?, get_or, take, drop, replicate, length-append, take-append-drop,
  drop-append_length, All-drop, All-append, zero_or_suc, list_cases, length_pos, length-take,
  length-drop, All,
}
use asterism_astools.Prelude.{
  Bytes, AreBytes, str_eq, str_eq_iff, str_eq_refl, codes, peek, advance, within, is_digit, Result,
  ok, err, Err, Result-cases, bind-eq-ok, ◌>>=◌,
}
use asterism_astools.Path.Strip.{IsText}
use asterism_astools.Path.{slash, Resolved, resolved, enoent}
use asterism_astools.Path.Segments.{IsNameByte, IsSegment, flat, render, IsCanonical}

-- The side conditions, by evaluation.
abbrev pub are_bytes : Bytes → Bool
are_bytes [] = true
are_bytes (c ∷ cs) = ltb c 256 && are_bytes cs

pub are_bytes-AreBytes : (s : Bytes) → are_bytes s ≡ true → AreBytes s
are_bytes-AreBytes [] e = tt
are_bytes-AreBytes (c ∷ cs) e = (ground arith, are_bytes-AreBytes cs (ground arith))

abbrev pub is_text : Bytes → Bool
is_text [] = true
is_text (c ∷ cs) = not (c == 0) && is_text cs

pub is_text-IsText : (s : Bytes) → is_text s ≡ true → IsText s
is_text-IsText [] e = tt
is_text-IsText (c ∷ cs) e = (ground arith, is_text-IsText cs (ground arith))

-- A file system with two directories, "/" and "/w".
abbrev pub disk : Bytes → Resolved
disk p =
    if str_eq p (codes "/")
    then resolved (codes "/")
    else if str_eq p (codes "/w")
    then resolved (codes "/w")
    else enoent

abbrev pub is_name : Bytes → Bool
is_name [] = true
is_name (c ∷ cs) = not (c == 0) && not (c == slash) && is_name cs

names_by : (s : Bytes) → is_name s ≡ true → All IsNameByte s
names_by [] e = tt
names_by (c ∷ cs) e = ((ground arith, ground arith), names_by cs (ground arith))

pub is_name-IsSegment :
    (s : Bytes)
    → is_name s ≡ true
    → not (str_eq s [] || str_eq s (codes ".") || str_eq s (codes "..")) ≡ true
    → IsSegment s
is_name-IsSegment s e h = record {
  nonempty = λ p. ground (arith, str_eq_iff s []);
  plain = names_by s e;
  not_dot = λ p. ground (arith, str_eq_iff s (codes "."));
  not_dots = λ p. ground (arith, str_eq_iff s (codes ".."));
}

pub root_IsCanonical : IsCanonical (codes "/")
unfolding render
root_IsCanonical = ([], tt, refl)

pub workspace_IsCanonical : IsCanonical (codes "/w")
unfolding render flat str_eq
workspace_IsCanonical = (codes "w" ∷ [], (is_name-IsSegment (codes "w") refl refl, tt), refl)

pub file_IsCanonical : IsCanonical (codes "/w/a")
unfolding render flat str_eq
file_IsCanonical = (
  codes "w" ∷ codes "a" ∷ [],
  (is_name-IsSegment (codes "w") refl refl, (is_name-IsSegment (codes "a") refl refl, tt)),
  refl,
)

pub disk-IsCanonical : (p q : Bytes) → disk p ≡ resolved q → IsCanonical q
disk-IsCanonical p q e = elim (Bool-cases (str_eq p (codes "/"))) [
  | inl root ↦ let same : codes "/" ≡ q = ground arith in rw (← same) root_IsCanonical
  | inr other ↦ elim (Bool-cases (str_eq p (codes "/w"))) [
    | inl w ↦ let same : codes "/w" ≡ q = ground arith in rw (← same) workspace_IsCanonical
    | inr neither ↦ ground arith
  ]
]
