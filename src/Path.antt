-- ===== src/Path.antt =====
-- src/path.c in its POSIX build, and `os_path_join` of src/os_common.c and
-- `os_realpath` and `os_path_is_abs` of src/os_proc_posix.c: the canonical form of a
-- path and the containment test on canonical paths. `realpath` of
-- the C library is a parameter.
pub mod Segments
pub mod Strip
pub mod Under
pub mod Canonical
use asterism_astools.Prelude.{
  ℕ, zero, suc, ◌+◌, ◌-◌, ◌*◌, ◌/◌, ◌%◌, ◌^◌, ◌≤◌, ◌<◌, ◌≡◌, refl, sym, ap, ◌∙◌, ◌≢◌, ◌↔◌, ◌⊎◌, inl,
  inr,
}
use asterism_astools.Prelude.{
  Bool, true, false, not, ◌&&◌, ◌||◌, Option, none, some, List, [], ◌∷◌, ◌++◌, map, arith,
}
use asterism_astools.Prelude.{
  ltb, leb, ◌==◌, if◌then◌else◌, ltb→lt, lt→ltb, leb→le, ==_iff, tests, Bool-cases, Option-cases,
  agree_below, agree_below→eq,
}
use asterism_astools.Prelude.{
  length, get_elem?, get_or, take, drop, replicate, length-append, take-append-drop,
  drop-append_length, All-drop, All-append, zero_or_suc, length-take, length-drop, All,
}
use asterism_astools.Prelude.{Err}
use asterism_astools.Prelude.{
  Bytes, AreBytes, str_eq, str_eq_iff, str_eq_refl, codes, peek, advance, within, is_digit, Result,
  ok, err, bind-eq-ok, ◌>>=◌,
}
use mathlib.Core.List.{reverse}

abbrev pub slash : ℕ
slash = b'/'

-- The loop of `path_squeeze`. The bytes written so far stand last one first, so the byte before
-- the write position is the head.
unfoldable pub squeeze_loop : Bytes → Bytes → Bytes
squeeze_loop written [] = written
squeeze_loop written (c ∷ rest) =
    squeeze_loop (if c == slash && peek written == slash then written else c ∷ written) rest

-- `if (w > 1 && s[w - 1] == '/') w--`
unfoldable pub drop_trailing : Bytes → Bytes
drop_trailing [] = []
drop_trailing (c ∷ []) = c ∷ []
drop_trailing (c ∷ d ∷ rest) = if c == slash then d ∷ rest else c ∷ d ∷ rest

-- The first two bytes are kept when exactly two slashes lead the path.
unfoldable pub path_squeeze : Bytes → Bytes
path_squeeze s =
    let second = advance s in
    let third = advance second in
    if peek s == slash && peek second == slash && not (peek third == slash)
    then reverse (drop_trailing (squeeze_loop (slash ∷ slash ∷ []) third))
    else reverse (drop_trailing (squeeze_loop [] s))

unfoldable pub comp_rejected : Bytes → Bool
comp_rejected comp = str_eq comp [] || str_eq comp (codes ".") || str_eq comp (codes "..")

-- `strrchr(work, '/')`: what stands before the last slash, if there is one, and what behind.
unfoldable pub split_step : ℕ → Option Bytes × Bytes → Option Bytes × Bytes
split_step c (some front, behind) = (some (c ∷ front), behind)
split_step c (none, behind) = if c == slash then (some [], behind) else (none, c ∷ behind)

unfoldable pub split_last : Bytes → Option Bytes × Bytes
split_last [] = (none, [])
split_last (c ∷ rest) = split_step c (split_last rest)

-- What is left of the path when its last component goes.
unfoldable pub shortened : Option Bytes → Bytes
shortened none = []
shortened (some []) = slash ∷ []
shortened (some (c ∷ front)) = c ∷ front

-- `strip_last`: the shortened path and the component.
unfoldable pub strip_last : Bytes → Result (Bytes × Bytes)
strip_last work =
    if str_eq work [] || str_eq work (slash ∷ [])
    then err Err.io
    else if comp_rejected (split_last work).1
    then err Err.invalid
    else ok (shortened (split_last work).0, (split_last work).1)

-- `os_path_is_abs`
unfoldable pub path_is_abs : Bytes → Bool
path_is_abs p = peek p == slash

abbrev pub last_byte : Bytes → ℕ
last_byte [] = 0
last_byte (c ∷ []) = c
last_byte (c ∷ d ∷ rest) = last_byte (d ∷ rest)

-- `os_path_join`
unfoldable pub path_join : Bytes → Bytes → Bytes
path_join [] b = b
path_join (a ∷ cs) [] = a ∷ cs
path_join (a ∷ cs) (b ∷ bs) =
    let last = last_byte (a ∷ cs) in
    if not (last == slash) && not (last == b'\\')
    then (a ∷ cs) ++ (slash ∷ b ∷ bs)
    else (a ∷ cs) ++ b ∷ bs

-- The loop that appends the tail to the canonical ancestor, a separator first if there is none.
unfoldable pub append_comp : Bytes → Bytes → Bytes
append_comp path comp =
    if str_eq path [] || not (last_byte path == slash) then path ++ (slash ∷ comp) else path ++ comp

unfoldable pub append_tail : Bytes → List Bytes → Bytes
append_tail path [] = path
append_tail path (comp ∷ tail) = append_tail (append_comp path comp) tail

-- The answers of `realpath` of the C library, with the values of `errno` that are told apart.
pub data Resolved : Type 0 where
  resolved : Bytes → Resolved
  enoent enotdir enomem other_errno : Resolved

unfoldable pub os_realpath : Resolved → Result Bytes
os_realpath (resolved path) = ok path
os_realpath enoent = err Err.not_found
os_realpath enotdir = err Err.not_found
os_realpath enomem = err Err.nomem
os_realpath other_errno = err Err.io

-- The rest of a round of the walk, on the shortened path, the answer of `os_realpath` to it, the
-- tail, and what the later rounds give.
unfoldable pub climb :
    Bytes → Result Bytes → List Bytes → Result (Bytes × List Bytes) → Result (Bytes × List Bytes)
climb work answer tail more =
    if str_eq work []
    then err Err.io
    else elim answer [ ok canon ↦ ok (canon, tail) | err Err.not_found ↦ more | err e ↦ err e ]

-- `realpath`, of a file system that does not change during the call.
module _ (realpath : Bytes → Resolved) where
  -- The walk to the deepest ancestor that exists, and the tail that was stripped, shallowest
  -- component first. Each round shortens the path; with none left the path is empty.
  unfoldable pub walk_up : ℕ → Bytes → List Bytes → Result (Bytes × List Bytes)
  walk_up zero work tail = err Err.io
  walk_up (suc fuel) work tail = do
    (work', comp) ← strip_last work
    let more = walk_up fuel work' (comp ∷ tail)
    climb work' (os_realpath (realpath work')) (comp ∷ tail) more

  -- What `astools_path_canonical` makes of a squeezed path that does not exist.
  unfoldable pub canonical_missing : Bytes → Result Bytes
  canonical_missing work = do
    (canon, tail) ← walk_up (length work) work []
    if str_eq canon [] then err Err.io else ok (append_tail canon tail)

  unfoldable pub canonical_squeezed : Bytes → Bool → Result Bytes
  canonical_squeezed work missing_ok =
      let missing = canonical_missing work in
      if str_eq work [] then err Err.invalid else elim (os_realpath (realpath work)) [
        | ok canon ↦ if str_eq canon [] then err Err.io else ok canon
        | err Err.not_found ↦ if missing_ok then missing else err Err.not_found
        | err e ↦ err e
      ]

  -- `astools_path_canonical`
  unfoldable pub path_canonical : Bytes → Bytes → Bool → Result Bytes
  path_canonical workspace path missing_ok =
      let work = path_squeeze (if path_is_abs path then path else path_join workspace path) in
      if str_eq path [] then err Err.invalid else canonical_squeezed work missing_ok

-- The bytes without the slashes at their end.
unfoldable pub trim_end : Bytes → Bytes
trim_end [] = []
trim_end (c ∷ rest) = elim (trim_end rest) [
  | [] ↦ if c == slash then [] else c ∷ []
  | d ∷ more ↦ c ∷ d ∷ more
]

-- `prefix` up to `plen`: the loop leaves one byte at least.
unfoldable pub trim_slashes : Bytes → Bytes
trim_slashes [] = []
trim_slashes (c ∷ rest) = c ∷ trim_end rest

-- `path + plen`, where `strncmp(path, prefix, plen)` is 0.
unfoldable pub after_prefix : Bytes → Bytes → Option Bytes
after_prefix [] path = some path
after_prefix (c ∷ prefix) [] = none
after_prefix (c ∷ prefix) (d ∷ path) = if c == d then after_prefix prefix path else none

unfoldable pub at_boundary : Option Bytes → Bool
at_boundary none = false
at_boundary (some rest) = peek rest == 0 || peek rest == slash

-- `astools_path_under`
unfoldable pub path_under : Bytes → Bytes → Bool
path_under path prefix =
    let kept = trim_slashes prefix in
    if not (peek path == slash) || not (peek prefix == slash)
    then false
    else if length kept == 1
    then true
    else at_boundary (after_prefix kept path)
