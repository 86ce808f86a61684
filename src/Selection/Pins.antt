-- ===== src/Selection/Pins.antt =====
-- Which tools may be listed, for `matches_pin` and `tool_listed` of src/selection.c.
use asterism_astools.Prelude.{ℕ, zero, suc, ◌≡◌, refl, sym, ap, ◌∙◌, ◌≢◌, ◌↔◌, ◌⊎◌, inl, inr}
use asterism_astools.Prelude.{
  Bool, true, false, ◌&&◌, ◌||◌, Option, none, some, List, [], ◌∷◌, arith,
}
use asterism_astools.Prelude.{Bool-cases, some_inj, bool_clash, Option-cases}
use asterism_astools.Prelude.{get_elem?}
use asterism_astools.Prelude.{Bytes, str_eq, str_eq_iff, str_eq_refl}
use asterism_astools.Semver.{Semver, Sign, before, same, after, semver_parse, semver_cmp}
use asterism_astools.Selection.{
  Tool, Pin, Chosen, is_same, pinned_to, pin_for, matches_pin, eligible,
}

-- The version of the first pin that names the tool and has a version, if there is one.
pub data FirstPin (id : Bytes) : List Pin → Option Bytes → Type 0 where
  unpinned : FirstPin id [] none
  elsewhere :
      {pin : Pin} {pins : List Pin} {o : Option Bytes}
      → (pin.tool ≢ some id) ⊎ (pin.version ≡ none)
      → FirstPin id pins o
      → FirstPin id (pin ∷ pins) o
  decides :
      {pin : Pin} {pins : List Pin} {v : Bytes}
      → pin.tool ≡ some id
      → pin.version ≡ some v
      → FirstPin id (pin ∷ pins) (some v)

-- The text is a version of the same precedence.
abbrev pub Agrees : Option Bytes → Semver → Type 0
Agrees none ver = Unit
Agrees (some v) ver = (w : Semver) × (semver_parse v ≡ some w) × (semver_cmp w ver ≡ same)

-- The tool of that id is available and enabled, and its version is the one that its first pin asks for, if it
-- has a pin.
pub record IsCandidate (pins : List Pin) (id : Bytes) (t : Tool) : Type 0 where
  pub named : t.id ≡ some id
  pub there : t.available ≡ true
  pub on : t.enabled ≡ true
  pub pin : Option Bytes
  pub first_pin : FirstPin id pins pin
  pub agreed : Agrees pin t.ver

pin_for-none :
    (pin : Pin) (id : Bytes) → pin_for pin id ≡ none → (pin.tool ≢ some id) ⊎ (pin.version ≡ none)
unfolding pin_for
pin_for-none pin id e = elim (Option-cases pin.tool) [
  | inl unnamed ↦ inl (λ h. cc)
  | inr (tool, is_tool) ↦ elim (Bool-cases (str_eq tool id)) [
    | inl equal ↦ inr (ground arith)
    | inr unlike ↦
        inl λ h. bool_clash (sym ((str_eq_iff tool id).1 (some_inj (sym is_tool ∙ h))) ∙ unlike)
  ]
]

pin_for-some :
    (pin : Pin) (id v : Bytes)
    → pin_for pin id ≡ some v
    → (pin.tool ≡ some id) × (pin.version ≡ some v)
unfolding pin_for
pin_for-some pin id v e = elim (Option-cases pin.tool) [
  | inl unnamed ↦ absurd (ground arith)
  | inr (tool, is_tool) ↦ elim (Bool-cases (str_eq tool id)) [
    | inl equal ↦ (is_tool ∙ ap some ((str_eq_iff tool id).0 equal), ground arith)
    | inr unlike ↦ absurd (ground arith)
  ]
]

is_same_iff : (s : Sign) → (is_same s ≡ true) ↔ (s ≡ same)
is_same_iff before = ((λ e. cc), λ e. cc)
is_same_iff same = ((λ e. refl), λ e. refl)
is_same_iff after = ((λ e. cc), λ e. cc)

pinned_to-Agrees :
    (v : Bytes) (ver : Semver) → pinned_to (semver_parse v) ver ≡ true → Agrees (some v) ver
unfolding pinned_to
pinned_to-Agrees v ver e = elim (Option-cases (semver_parse v)) [
  | inl wrong ↦ cc
  | inr (w, parsed) ↦ (w, parsed, (is_same_iff (semver_cmp w ver)).0 (rw (pinned_to, parsed) at e))
]

Agrees-pinned_to :
    (v : Bytes) (ver : Semver) → Agrees (some v) ver → pinned_to (semver_parse v) ver ≡ true
unfolding pinned_to
Agrees-pinned_to v ver (w, parsed, equal) =
    rw (pinned_to, parsed) ((is_same_iff (semver_cmp w ver)).1 equal)

passed_by :
    (pin : Pin) (id : Bytes) → (pin.tool ≢ some id) ⊎ (pin.version ≡ none) → pin_for pin id ≡ none
passed_by pin id why = elim (Option-cases (pin_for pin id)) [
  | inl passed ↦ passed
  | inr (v, found) ↦
      let (named, versioned) = pin_for-some pin id v found in
      elim why [ inl other ↦ absurd (other named) | inr missing ↦ cc ]
]

decided_by :
    (pin : Pin) (id v : Bytes) → pin.tool ≡ some id → pin.version ≡ some v → pin_for pin id ≡ some v
unfolding pin_for
decided_by pin id v named versioned = rw named (rw (str_eq_refl id) versioned)

pub matches_pin-FirstPin :
    (pins : List Pin) (id : Bytes) (ver : Semver)
    → matches_pin pins id ver ≡ true
    → (o : Option Bytes) × FirstPin id pins o × Agrees o ver
unfolding matches_pin
matches_pin-FirstPin [] id ver e = (none, unpinned, tt)
matches_pin-FirstPin (pin ∷ pins) id ver e = elim (Option-cases (pin_for pin id)) [
  | inl passed ↦
      let (o, first, agreed) = matches_pin-FirstPin pins id ver (rw (matches_pin, passed) at e) in
      (o, elsewhere (pin_for-none pin id passed) first, agreed)
  | inr (v, found) ↦
      let (named, versioned) = pin_for-some pin id v found in
      (some v, decides named versioned, pinned_to-Agrees v ver (rw (matches_pin, found) at e))
]

pub FirstPin-matches_pin :
    (pins : List Pin) (id : Bytes) (ver : Semver) (o : Option Bytes)
    → FirstPin id pins o
    → Agrees o ver
    → matches_pin pins id ver ≡ true
unfolding matches_pin
FirstPin-matches_pin [] id ver none unpinned agreed = refl
FirstPin-matches_pin [] id ver (some v) first agreed = elim first [ ]
FirstPin-matches_pin (pin ∷ pins) id ver o (elsewhere why first) agreed =
    rw (matches_pin, passed_by pin id why) (FirstPin-matches_pin pins id ver o first agreed)
FirstPin-matches_pin (pin ∷ pins) id ver (some v) (decides named versioned) agreed =
    rw (matches_pin, decided_by pin id v named versioned) (Agrees-pinned_to v ver agreed)

abbrev pub has_id : Bytes → Option Chosen → Bool
has_id id none = false
has_id id (some t) = str_eq t.id id

-- The tool gets through the tests with this id.
pub eligible-IsCandidate :
    (pins : List Pin) (id : Bytes) (t : Tool)
    → has_id id (eligible pins t) ≡ true
    → IsCandidate pins id t
unfolding eligible
eligible-IsCandidate pins id t e = elim (Option-cases t.id) [
  | inl unnamed ↦ absurd (ground arith)
  | inr (name, is_name) ↦
      elim (Bool-cases (t.available && t.enabled && matches_pin pins name t.ver)) [
        | inl passed ↦
            let same : name ≡ id = (str_eq_iff name id).0 (rw (eligible, is_name, passed) at e) in
            let (pin, first, agreed) =
              matches_pin-FirstPin pins id t.ver (rw (← same) (ground arith)) in
            record {
              named = is_name ∙ ap some same;
              there = ground arith;
              on = ground arith;
              pin = pin;
              first_pin = first;
              agreed = agreed;
            }
        | inr refused ↦ absurd (ground arith)
      ]
]

pub IsCandidate-eligible :
    (pins : List Pin) (id : Bytes) (t : Tool)
    → IsCandidate pins id t
    → has_id id (eligible pins t) ≡ true
unfolding eligible
IsCandidate-eligible pins id t c =
    let matched = FirstPin-matches_pin pins id t.ver c.pin c.first_pin c.agreed in
    rw (eligible, c.named, c.there, c.on, matched) (str_eq_refl id)

-- One of the tools may be listed with the id.
abbrev pub HasCandidate : List Pin → Bytes → List Tool → Type 0
HasCandidate pins id tools =
    (k : ℕ) × (t : Tool) × (get_elem? tools k ≡ some t) × IsCandidate pins id t

unfoldable pub some_eligible : List Pin → Bytes → List Tool → Bool
some_eligible pins id [] = false
some_eligible pins id (t ∷ tools) = has_id id (eligible pins t) || some_eligible pins id tools

pub some_eligible-HasCandidate :
    (pins : List Pin) (id : Bytes) (tools : List Tool)
    → some_eligible pins id tools ≡ true
    → HasCandidate pins id tools
unfolding some_eligible
some_eligible-HasCandidate pins id [] e = cc
some_eligible-HasCandidate pins id (t ∷ tools) e = elim (Bool-cases (has_id id (eligible pins t))) [
  | inl this ↦ (0, t, refl, eligible-IsCandidate pins id t this)
  | inr unlike ↦
      let (k, found, at_k, candidate) = some_eligible-HasCandidate pins id tools (ground arith) in
      (suc k, found, at_k, candidate)
]

pub HasCandidate-some_eligible :
    (pins : List Pin) (id : Bytes) (tools : List Tool)
    → HasCandidate pins id tools
    → some_eligible pins id tools ≡ true
unfolding some_eligible
HasCandidate-some_eligible pins id [] (k, found, at_k, candidate) = cc
HasCandidate-some_eligible pins id (t ∷ tools) (zero, found, at_k, candidate) =
    let here : t ≡ found = some_inj at_k in
    let passed = IsCandidate-eligible pins id t (rw here candidate) in ground (arith, passed)
HasCandidate-some_eligible pins id (t ∷ tools) (suc k, found, at_k, candidate) =
    let later = HasCandidate-some_eligible pins id tools (k, found, at_k, candidate) in
    ground (arith, later)
