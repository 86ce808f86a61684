-- ===== src/Text.antt =====
-- The small text functions of src/util.c.
pub mod Trim
use asterism_astools.Prelude.{
  ℕ, zero, suc, ◌+◌, ◌-◌, ◌*◌, ◌/◌, ◌%◌, ◌^◌, ◌≤◌, ◌<◌, ◌≡◌, refl, sym, ap, ◌∙◌, ◌≢◌, ◌↔◌, ◌⊎◌, inl,
  inr,
}
use asterism_astools.Prelude.{
  Bool, true, false, not, ◌&&◌, ◌||◌, Option, none, some, List, [], ◌∷◌, ◌++◌, map, arith,
}
use asterism_astools.Prelude.{
  ltb, leb, ◌==◌, if◌then◌else◌, ltb→lt, lt→ltb, leb→le, ==_iff, tests, Bool-cases, some_inj,
  bool_clash, Option-cases, agree_below, agree_below→eq,
}
use asterism_astools.Prelude.{
  length, get_elem?, get_or, take, drop, replicate, length-append, take-append-drop,
  drop-append_length, All-drop, All-append, zero_or_suc, list_cases, length_pos, length-take,
  length-drop, All,
}
use asterism_astools.Prelude.{
  Bytes, AreBytes, str_eq, str_eq_iff, str_eq_refl, codes, peek, advance, within, is_digit, Result,
  ok, err, Err, Result-cases, bind-eq-ok, ◌>>=◌,
}
use Prim.Native.Nat.{bit_xor}

-- `is_ascii_space`
abbrev pub is_ascii_space : ℕ → Bool
is_ascii_space c = c == b' ' || c == 9 || c == 10 || c == 13 || c == 11 || c == 12

-- The first loop of `astools_str_trim`: the spaces at the end go.
unfoldable pub trim_end : Bytes → Bytes
trim_end [] = []
trim_end (c ∷ s) = elim (trim_end s) [
  | [] ↦ if is_ascii_space c then [] else c ∷ []
  | d ∷ t ↦ c ∷ d ∷ t
]

-- The second loop: those at the start.
unfoldable pub trim_start : Bytes → Bytes
trim_start [] = []
trim_start (c ∷ s) = let rest = trim_start s in if is_ascii_space c then rest else c ∷ s

-- `astools_str_trim`
unfoldable pub str_trim : Bytes → Bytes
str_trim s = trim_start (trim_end s)

-- `astools_str_blank`
unfoldable pub str_blank : Bytes → Bool
str_blank [] = true
str_blank (c ∷ s) = if not (is_ascii_space c) then false else str_blank s

-- `astools_fnv1a64`
unfoldable pub fnv_loop : ℕ → Bytes → ℕ
fnv_loop h [] = h
fnv_loop h (c ∷ s) = fnv_loop (bit_xor h c * 0x100000001b3 % 2 ^ 64) s

unfoldable pub fnv1a64 : Bytes → ℕ
fnv1a64 s = fnv_loop 0xcbf29ce484222325 s

abbrev pub slug_start : ℕ → Bool
slug_start c = within b'a' b'z' c || within b'0' b'9' c

-- The loop of `astools_slug_valid`, with the index.
unfoldable pub slug_loop : ℕ → Bytes → Bool
slug_loop i [] = true
slug_loop i (c ∷ s) =
    let rest = slug_loop (i + 1) s in
    if ltb 63 i then false else if not (slug_start c || c == b'-') then false else rest

unfoldable pub slug_valid : Bytes → Bool
slug_valid [] = false
slug_valid (c ∷ s) = if not (slug_start c) then false else slug_loop 1 s
