-- ===== src/Selection/Once.antt =====
-- How often `astools_collect_tools` lists an id.
use asterism_astools.Prelude.{ℕ, ◌+◌, ◌≤◌, ◌↔◌, ◌≡◌, refl, sym, ap, ◌∙◌, inl, inr}
use asterism_astools.Prelude.{
  Bool, true, false, ◌&&◌, Option, none, some, List, [], ◌∷◌, ◌++◌, arith,
}
use asterism_astools.Prelude.{◌==◌, if◌then◌else◌, Bool-cases, bool_clash, Option-cases}
use asterism_astools.Prelude.{Bytes, str_eq, str_eq_iff}
use asterism_astools.Selection.{
  Tool, Pin, Chosen, eligible, place, place_eligible, select, pull, prioritize, collect_tools,
}
use asterism_astools.Selection.Pins.{
  has_id, HasCandidate, some_eligible, some_eligible-HasCandidate, HasCandidate-some_eligible,
}

-- How often an id is listed.
abbrev pub one_if : Bool → ℕ
one_if true = 1
one_if false = 0

abbrev pub occurrences : Bytes → List Chosen → ℕ
occurrences id [] = 0
occurrences id (s ∷ sel) = one_if (str_eq s.id id) + occurrences id sel

occurrences-append :
    (id : Bytes) (xs ys : List Chosen)
    → occurrences id (xs ++ ys) ≡ occurrences id xs + occurrences id ys
occurrences-append id [] ys = omega arith
occurrences-append id (x ∷ xs) ys = omega (arith, occurrences-append id xs ys)

occurrences-place :
    (id : Bytes) (sel : List Chosen) (t : Chosen)
    → occurrences id (place sel t)
      ≡ (if str_eq t.id id && occurrences id sel == 0 then 1 else occurrences id sel)
unfolding place
occurrences-place id [] t = ground arith
occurrences-place id (s ∷ sel) t = elim (Bool-cases (str_eq s.id t.id)) [
  | inl equal ↦
      let e : s.id ≡ t.id = (str_eq_iff s.id t.id).0 equal in
      let same : str_eq s.id id ≡ str_eq t.id id = ap (λ x. str_eq x id) e in ground arith
  | inr other ↦
      let apart : str_eq s.id id ≡ true → str_eq t.id id ≡ true → ⊥ = λ p q. bool_clash (
        sym ((str_eq_iff s.id t.id).1 ((str_eq_iff s.id id).0 p ∙ sym ((str_eq_iff t.id id).0 q)))
        ∙ other) in
      ground (arith, occurrences-place id sel t, apart)
]

occurrences-place_eligible :
    (id : Bytes) (sel : List Chosen) (o : Option Chosen)
    → occurrences id (place_eligible sel o)
      ≡ (if has_id id o && occurrences id sel == 0 then 1 else occurrences id sel)
unfolding place_eligible
occurrences-place_eligible id sel none = refl
occurrences-place_eligible id sel (some t) = occurrences-place id sel t

occurrences-select :
    (pins : List Pin) (id : Bytes) (tools : List Tool) (sel : List Chosen)
    → occurrences id (select pins sel tools)
      ≡ (if some_eligible pins id tools && occurrences id sel == 0 then 1 else occurrences id sel)
unfolding select some_eligible
occurrences-select pins id [] sel = refl
occurrences-select pins id (t ∷ tools) sel = ground (
  arith,
  occurrences-place_eligible id sel (eligible pins t),
  occurrences-select pins id tools (place_eligible sel (eligible pins t)),
)

occurrences-pull :
    (id pid : Bytes) (sel : List Chosen) (t : Chosen) (rest : List Chosen)
    → pull pid sel ≡ some (t, rest)
    → one_if (str_eq t.id id) + occurrences id rest ≡ occurrences id sel
unfolding pull
occurrences-pull id pid [] t rest e = cc
occurrences-pull id pid (s ∷ sel) t rest e = elim (Bool-cases (str_eq s.id pid)) [
  | inl found ↦
      let (first, second) : (s ≡ t) × (sel ≡ rest) = (ground arith, ground arith) in
      rw (← first, ← second) refl
  | inr other ↦ elim (Option-cases (pull pid sel)) [
    | inl missing ↦ ground arith
    | inr ((t', rest'), later) ↦
        let (first, second) : (t' ≡ t) × (s ∷ rest' ≡ rest) = (ground arith, ground arith) in
        rw (← first, ← second) (omega (arith, occurrences-pull id pid sel t' rest' later))
  ]
]

occurrences-prioritize :
    (id : Bytes) (ps : List (Option Bytes)) (sel : List Chosen)
    → occurrences id (prioritize ps sel).0 + occurrences id (prioritize ps sel).1
      ≡ occurrences id sel
unfolding prioritize
occurrences-prioritize id [] sel = omega arith
occurrences-prioritize id (none ∷ ps) sel = occurrences-prioritize id ps sel
occurrences-prioritize id (some pid ∷ ps) sel = elim (Option-cases (pull pid sel)) [
  | inl missing ↦ rw (prioritize, missing) (occurrences-prioritize id ps sel)
  | inr ((t, rest), found) ↦
      rw (prioritize, found)
        (omega (arith, occurrences-prioritize id ps rest, occurrences-pull id pid sel t rest found))
]

occurrences-collect_tools :
    (sort : List Chosen → List Chosen) (pins : List Pin) (priority : List (Option Bytes))
    (tools : List Tool) (id : Bytes)
    → ((x : Bytes) (l : List Chosen) → occurrences x (sort l) ≡ occurrences x l)
    → occurrences id (collect_tools sort pins priority tools)
      ≡ (if some_eligible pins id tools then 1 else 0)
unfolding collect_tools
occurrences-collect_tools sort pins priority tools id permutes =
    occurrences-append id (prioritize priority (select pins [] tools)).0
      (sort (prioritize priority (select pins [] tools)).1)
    ∙ ap (λ n. occurrences id (prioritize priority (select pins [] tools)).0 + n) (permutes id _)
    ∙ occurrences-prioritize id priority (select pins [] tools)
    ∙ ground (arith, occurrences-select pins id tools [])

-- Where the sort only permutes: an id is listed once at most, and it is listed exactly when one of the tools has it, is
-- available and enabled and has the version that the first pin of the id asks for, if there is a pin; whatever the
-- priorities are.
pub collect_tools_once :
    (sort : List Chosen → List Chosen) (pins : List Pin) (priority : List (Option Bytes))
    (tools : List Tool) (id : Bytes)
    → ((x : Bytes) (l : List Chosen) → occurrences x (sort l) ≡ occurrences x l)
    → (occurrences id (collect_tools sort pins priority tools) ≤ 1)
      × ((occurrences id (collect_tools sort pins priority tools) ≡ 1) ↔ HasCandidate pins id tools)
collect_tools_once sort pins priority tools id permutes =
    let count = occurrences-collect_tools sort pins priority tools id permutes in
    (
      ground (arith, count),
      (
        (λ once. some_eligible-HasCandidate pins id tools (ground (arith, count))),
        λ has.
            let listed = HasCandidate-some_eligible pins id tools has in
            ground (arith, count, listed),
      ),
    )
