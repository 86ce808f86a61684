-- ===== src/Selection.antt =====
-- src/selection.c: which version of each tool is listed, and in which order. The sort of the C
-- library is a parameter. A null tool or manifest, or one without an id, has no `id`.
pub mod Pins
pub mod Once
use asterism_astools.Prelude.{
  ℕ, zero, suc, ◌+◌, ◌-◌, ◌*◌, ◌/◌, ◌%◌, ◌^◌, ◌≤◌, ◌<◌, ◌≡◌, refl, sym, ap, ◌∙◌, ◌≢◌, ◌↔◌, ◌⊎◌, inl,
  inr,
}
use asterism_astools.Prelude.{
  Bool, true, false, not, ◌&&◌, ◌||◌, Option, none, some, List, [], ◌∷◌, ◌++◌, map, arith,
}
use asterism_astools.Prelude.{
  ltb, leb, ◌==◌, if◌then◌else◌, ltb→lt, lt→ltb, leb→le, ==_iff, tests, Bool-cases, some_inj,
  bool_clash, Option-cases, agree_below, agree_below→eq,
}
use asterism_astools.Prelude.{
  length, get_elem?, get_or, take, drop, replicate, length-append, take-append-drop,
  drop-append_length, All-drop, All-append, zero_or_suc, list_cases, length_pos, length-take,
  length-drop, All,
}
use asterism_astools.Prelude.{
  Bytes, AreBytes, str_eq, str_eq_iff, str_eq_refl, codes, peek, advance, within, is_digit, Result,
  ok, err, Err, Result-cases, bind-eq-ok, ◌>>=◌,
}
use asterism_astools.Semver.{Semver, Sign, before, same, after, semver_parse, semver_cmp}

-- `astools_tool`, as far as the selection reads it.
pub record Tool : Type 0 where
  pub id : Option Bytes
  pub available : Bool
  pub enabled : Bool
  pub ver : Semver

-- `astools_pin`
pub record Pin : Type 0 where
  pub tool : Option Bytes
  pub version : Option Bytes

abbrev pub is_same : Sign → Bool
is_same same = true
is_same _ = false

abbrev pub is_after : Sign → Bool
is_after after = true
is_after _ = false

-- The version of a pin against that of the tool.
unfoldable pub pinned_to : Option Semver → Semver → Bool
pinned_to none ver = false
pinned_to (some version) ver = is_same (semver_cmp version ver)

-- The version that a complete pin gives for the tool.
unfoldable pub pin_for : Pin → Bytes → Option Bytes
pin_for pin id = elim pin.tool [
  | none ↦ none
  | some tool ↦ if not (str_eq tool id) then none else pin.version
]

-- `matches_pin`: the first complete pin of the tool decides.
unfoldable pub matches_pin : List Pin → Bytes → Semver → Bool
matches_pin [] id ver = true
matches_pin (pin ∷ pins) id ver =
    let rest = matches_pin pins id ver in
    elim (pin_for pin id) [ none ↦ rest | some version ↦ pinned_to (semver_parse version) ver ]

abbrev pub is_release : Semver → Bool
is_release v = elim v.prerelease [ none ↦ true | some _ ↦ false ]

-- `version_better`
unfoldable pub version_better : Semver → Semver → Bool
version_better cand cur =
    if is_release cand && not (is_release cur)
    then true
    else if not (is_release cand) && is_release cur
    then false
    else is_after (semver_cmp cand cur)

-- A tool that is listed, with its id.
pub record Chosen : Type 0 where
  pub id : Bytes
  pub tool : Tool

-- `tool_listed` and `matches_pin`
unfoldable pub eligible : List Pin → Tool → Option Chosen
eligible pins t = elim t.id [
  | none ↦ none
  | some id ↦
      if t.available && t.enabled && matches_pin pins id t.ver
      then some (record { id = id; tool = t })
      else none
]

-- The inner loop over the selection: a better version takes the place, a new id goes to the end.
unfoldable pub place : List Chosen → Chosen → List Chosen
place [] t = t ∷ []
place (s ∷ sel) t =
    let rest = place sel t in
    if str_eq s.id t.id
    then (if version_better t.tool.ver s.tool.ver then t ∷ sel else s ∷ sel)
    else s ∷ rest

unfoldable pub place_eligible : List Chosen → Option Chosen → List Chosen
place_eligible sel none = sel
place_eligible sel (some t) = place sel t

unfoldable pub select : List Pin → List Chosen → List Tool → List Chosen
select pins sel [] = sel
select pins sel (t ∷ tools) = select pins (place_eligible sel (eligible pins t)) tools

-- The first tool with the id that is not taken yet, and the others.
unfoldable pub pull : Bytes → List Chosen → Option (Chosen × List Chosen)
pull pid [] = none
pull pid (s ∷ sel) = elim (str_eq s.id pid) [
  | true ↦ some (s, sel)
  | false ↦ elim (pull pid sel) [ none ↦ none | some (t, rest) ↦ some (t, s ∷ rest) ]
]

-- The loop over the priorities: the tools in their order, and those that are not taken.
unfoldable pub prioritize : List (Option Bytes) → List Chosen → List Chosen × List Chosen
prioritize [] sel = ([], sel)
prioritize (none ∷ ps) sel = prioritize ps sel
prioritize (some pid ∷ ps) sel = elim (pull pid sel) [
  | none ↦ prioritize ps sel
  | some (t, rest) ↦ (t ∷ (prioritize ps rest).0, (prioritize ps rest).1)
]

-- `qsort` with `cmp_tool_id`
module _ (sort : List Chosen → List Chosen) where
  -- `astools_collect_tools`
  unfoldable pub collect_tools : List Pin → List (Option Bytes) → List Tool → List Chosen
  collect_tools pins priority tools =
      let (ordered, tail) = prioritize priority (select pins [] tools) in ordered ++ sort tail
