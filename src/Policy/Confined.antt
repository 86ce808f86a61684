-- ===== src/Policy/Confined.antt =====
-- The arguments that `astools_policy_preflight` lets through.
use asterism_astools.Prelude.{ℕ, zero, suc, ◌+◌, ◌≡◌, refl, sym, ap, ◌∙◌, inl, inr}
use asterism_astools.Prelude.{Bool, true, false, not, ◌||◌, Option, none, some, List, arith}
use asterism_astools.Prelude.{bool_clash, Option-cases}
use asterism_astools.Prelude.{get_elem?}
use asterism_astools.Prelude.{Bytes, str_eq, str_eq_iff, Result, ok, bind-eq-ok}
use asterism_astools.Prelude.{some_inj}
use asterism_astools.Path.{path_canonical, Resolved}
use asterism_astools.Policy.{Effective, Perms}
use asterism_astools.Policy.Access.{covered}
use asterism_astools.Policy.Preflight.{
  ParamType, absent, scalar, path, array, dictionary, object, Params, no_params, param, Node, text,
  items, members, no_members, member, Members, keys, if_shallow, walk_items, walk_values,
  walk_found, check_path, walk_type, walk_params, walk_args, policy_preflight,
}
use asterism_astools.Policy.Members.{
  member_at, AllItems, AllValues, walk_items-AllItems, walk_values-AllValues, walk_member-IsWalked,
}

unfoldable pub has_param : Params → Bytes → Bool
has_param no_params name = false
has_param (param none t ps) name = has_param ps name
has_param (param (some n) t ps) name = str_eq n name || has_param ps name

-- No command and no object type has two parameters of one name, as the manifest loader checks.
unfoldable mutual
  pub IsWellNamed : ParamType → Type 0
  IsWellNamed (array t) = IsWellNamed t
  IsWellNamed (dictionary t) = IsWellNamed t
  IsWellNamed (object ps) = AreWellNamed ps
  IsWellNamed _ = Unit {0}

  pub AreWellNamed : Params → Type 0
  AreWellNamed no_params = Unit {0}
  AreWellNamed (param none t ps) = AreWellNamed ps
  AreWellNamed (param (some name) t ps) =
      (has_param ps name ≡ false) × IsWellNamed t × AreWellNamed ps

-- The value at a position, if there is one, has the property.
unfoldable pub AtPosition : (Node → Type 0) → ℕ → Members → Type 0
AtPosition P i no_members = Unit {0}
AtPosition P zero (member k n ms) = P n
AtPosition P (suc i) (member k n ms) = AtPosition P i ms

unfoldable pub AtFound : (Node → Type 0) → Option ℕ → Members → Type 0
AtFound P none ms = Unit {0}
AtFound P (some i) ms = AtPosition P i ms

position_holds :
    (P : Node → Type 0) (i : ℕ) (ms : Members)
    → ((n : Node) → member_at ms i ≡ some n → P n)
    → AtPosition P i ms
unfolding member_at AtPosition
position_holds P i no_members h = tt
position_holds P zero (member k n ms) h = h n refl
position_holds P (suc i) (member k n ms) h = position_holds P i ms h

found_holds :
    (P : Node → Type 0) (o : Option ℕ) (ms : Members)
    → ((i : ℕ) (n : Node) → o ≡ some i → member_at ms i ≡ some n → P n)
    → AtFound P o ms
unfolding AtFound
found_holds P none ms h = tt
found_holds P (some i) ms h = position_holds P i ms (λ n here. h i n refl here)

module _ (exists : Bytes → Bool) (find : List Bytes → Bytes → Option ℕ) (eff : Effective) where
  -- Each string at the place of a path type is covered by the effective prefixes for the access of
  -- the type, and exists where the type asks for it.
  unfoldable mutual
    pub IsConfined : ParamType → Node → Type 0
    IsConfined (path access must_exist) (text s) =
        (covered eff.fs s access ≡ true) × ((not must_exist || exists s) ≡ true)
    IsConfined (array t) (items ns) = AllItems (IsConfined t) ns
    IsConfined (dictionary t) (members ms) = AllValues (IsConfined t) ms
    IsConfined (object ps) (members ms) = AreConfined ps ms
    IsConfined _ _ = Unit {0}

    pub AreConfined : Params → Members → Type 0
    AreConfined no_params ms = Unit {0}
    AreConfined (param none t ps) ms = AreConfined ps ms
    AreConfined (param (some name) t ps) ms =
        AtFound (IsConfined t) (find (keys ms) name) ms × AreConfined ps ms

-- `xcdn_object_get` finds a member with the key that is asked for.
abbrev pub FindsKeys : (List Bytes → Bytes → Option ℕ) → Type 0
FindsKeys find =
    (ks : List Bytes) (name : Bytes) (i : ℕ) → find ks name ≡ some i → get_elem? ks i ≡ some name

module _ (realpath : Bytes → Resolved) (exists : Bytes → Bool)
    (find : List Bytes → Bytes → Option ℕ) (workspace : Bytes) (eff : Effective)
    (finds : FindsKeys find) where
  abbrev walk : ParamType → ℕ → Node → Result Node
  walk = walk_type realpath exists find workspace eff

  abbrev walk_all : Params → ℕ → Members → Result Members
  walk_all = walk_params realpath exists find workspace eff

  walk_found-keys :
      (o : Option ℕ) (f : Node → Result Node) (ms : Members) {ms' : Members}
      → walk_found o f ms ≡ ok ms'
      → keys ms' ≡ keys ms
  unfolding walk_found
  walk_found-keys none f ms e = ap keys cc
  walk_found-keys (some i) f ms e = (walk_member-IsWalked i f ms e).same_keys

  walk_params_keys :
      (ps : Params) (depth : ℕ) (ms : Members) {ms' : Members}
      → walk_all ps depth ms ≡ ok ms'
      → keys ms' ≡ keys ms
  unfolding walk_params
  walk_params_keys no_params depth ms e = ap keys cc
  walk_params_keys (param none t ps) depth ms e = walk_params_keys ps depth ms e
  walk_params_keys (param (some name) t ps) depth ms e =
      let (mid, first, later) =
        bind-eq-ok (walk_found (find (keys ms) name) (walk t depth) ms) _ e in
      walk_params_keys ps depth mid later
      ∙ walk_found-keys (find (keys ms) name) (walk t depth) ms first

  -- A member that another name stands for is left alone.
  walk_found_ne :
      (name key : Bytes) (j : ℕ) (f : Node → Result Node) (ms : Members) {ms' : Members}
      → get_elem? (keys ms) j ≡ some key
      → str_eq name key ≡ false
      → walk_found (find (keys ms) name) f ms ≡ ok ms'
      → member_at ms' j ≡ member_at ms j
  unfolding walk_found
  walk_found_ne name key j f ms {ms' = ms'} h ne e = elim (Option-cases (find (keys ms) name)) [
    | inl missing ↦ ap (λ x. member_at x j) (same_members (rw missing at e))
    | inr (i, found) ↦ (walk_member-IsWalked i f ms (rw found at e)).others j (λ same. bool_clash (
        sym (
          (str_eq_iff name key).1
            (some_inj (sym (finds (keys ms) name i found) ∙ ap (get_elem? (keys ms)) same ∙ h)))
        ∙ ne))
  ]
    where
      same_members : ok ms ≡ ok ms' → ms' ≡ ms
      same_members p = cc

  walk_params_ne :
      (ps : Params) (depth : ℕ) (key : Bytes) (j : ℕ) (ms : Members) {ms' : Members}
      → get_elem? (keys ms) j ≡ some key
      → has_param ps key ≡ false
      → walk_all ps depth ms ≡ ok ms'
      → member_at ms' j ≡ member_at ms j
  unfolding walk_params has_param
  walk_params_ne no_params depth key j ms h ne e = ap (λ x. member_at x j) (cc)
  walk_params_ne (param none t ps) depth key j ms h ne e = walk_params_ne ps depth key j ms h ne e
  walk_params_ne (param (some name) t ps) depth key j ms h ne e =
      let (first_ne, rest_ne) : (str_eq name key ≡ false) × (has_param ps key ≡ false) =
        ground arith in
      let (mid, first, later) =
        bind-eq-ok (walk_found (find (keys ms) name) (walk t depth) ms) _ e in
      let same = walk_found-keys (find (keys ms) name) (walk t depth) ms first in
      walk_params_ne ps depth key j mid (ap (λ ks. get_elem? ks j) same ∙ h) rest_ne later
      ∙ walk_found_ne name key j (walk t depth) ms h first_ne first

  -- The member that a parameter names was walked.
  walk_found_walked :
      (name : Bytes) (i : ℕ) (f : Node → Result Node) (ms : Members) {ms' : Members} (n : Node)
      → find (keys ms) name ≡ some i
      → walk_found (find (keys ms) name) f ms ≡ ok ms'
      → member_at ms' i ≡ some n
      → (n0 : Node) × (f n0 ≡ ok n)
  unfolding walk_found
  walk_found_walked name i f ms n found e h =
      (walk_member-IsWalked i f ms (rw found at e)).walked n h

  shallow_ok : (depth : ℕ) (r : Result Node) {n : Node} → if_shallow depth r ≡ ok n → r ≡ ok n
  shallow_ok depth r e = ground arith

  check_path-IsConfined :
      (access : ℕ) (must_exist : Bool) (s : Bytes) (n : Node)
      → check_path realpath exists find workspace eff access must_exist s ≡ ok n
      → IsConfined exists find eff (path access must_exist) n
  unfolding check_path IsConfined
  check_path-IsConfined access must_exist s n e =
      let (canon, found, rest) = bind-eq-ok (path_canonical realpath workspace s true) _ e in
      let same : text canon ≡ n = ground arith in rw (← same) (ground arith, ground arith)

  kept : (depth : ℕ) {n n' : Node} → if_shallow depth (ok n) ≡ ok n' → n ≡ n'
  kept depth e = ground arith

  mutual
    unfolding walk_type walk_params IsConfined AreConfined IsWellNamed AreWellNamed

    walk_type-IsConfined :
        (t : ParamType) (depth : ℕ) (n n' : Node)
        → IsWellNamed t
        → walk t depth n ≡ ok n'
        → IsConfined exists find eff t n'
    walk_type-IsConfined (path access must_exist) depth (text s) n' w e =
        check_path-IsConfined access must_exist s n' (shallow_ok depth _ e)
    walk_type-IsConfined (array t) depth (items ns) n' w e =
        let (ns', walked, last) =
          bind-eq-ok (walk_items (walk t (depth + 1)) ns) _ (shallow_ok depth _ e) in
        let same : items ns' ≡ n' = cc in
        rw (← same) (
          walk_items-AllItems (IsConfined exists find eff t) (walk t (depth + 1))
            (λ m m' h. walk_type-IsConfined t (depth + 1) m m' w h) ns walked)
    walk_type-IsConfined (dictionary t) depth (members ms) n' w e =
        let (ms', walked, last) =
          bind-eq-ok (walk_values (walk t (depth + 1)) ms) _ (shallow_ok depth _ e) in
        let same : members ms' ≡ n' = cc in
        rw (← same) (
          walk_values-AllValues (IsConfined exists find eff t) (walk t (depth + 1))
            (λ m m' h. walk_type-IsConfined t (depth + 1) m m' w h) ms walked)
    walk_type-IsConfined (object ps) depth (members ms) n' w e =
        let (ms', walked, last) =
          bind-eq-ok (walk_all ps (depth + 1) ms) _ (shallow_ok depth _ e) in
        let same : members ms' ≡ n' = cc in
        rw (← same) (walk_params-AreConfined ps (depth + 1) ms ms' w walked)
    walk_type-IsConfined absent depth n n' w e = tt
    walk_type-IsConfined scalar depth n n' w e = tt
    walk_type-IsConfined (path _ _) depth _ n' w e = rw (← kept depth e) tt
    walk_type-IsConfined (array _) depth _ n' w e = rw (← kept depth e) tt
    walk_type-IsConfined (dictionary _) depth _ n' w e = rw (← kept depth e) tt
    walk_type-IsConfined (object _) depth _ n' w e = rw (← kept depth e) tt

    walk_params-AreConfined :
        (ps : Params) (depth : ℕ) (ms ms' : Members)
        → AreWellNamed ps
        → walk_all ps depth ms ≡ ok ms'
        → AreConfined exists find eff ps ms'
    walk_params-AreConfined no_params depth ms ms' w e = tt
    walk_params-AreConfined (param none t ps) depth ms ms' w e =
        walk_params-AreConfined ps depth ms ms' w e
    walk_params-AreConfined (param (some name) t ps) depth ms ms' (fresh, wt, wps) e =
        let (mid, first, later) =
          bind-eq-ok (walk_found (find (keys ms) name) (walk t depth) ms) _ e in
        let same_keys =
          walk_params_keys ps depth mid later
          ∙ walk_found-keys (find (keys ms) name) (walk t depth) ms first in
        (
          found_holds (IsConfined exists find eff t) (find (keys ms') name) ms' (λ i n found here.
              let before : find (keys ms) name ≡ some i =
                ap (λ ks. find ks name) (sym same_keys) ∙ found in
              let (n0, walked) = walk_found_walked name i (walk t depth) ms n before first (
                sym (
                  walk_params_ne ps depth name i mid
                    (ap (λ ks. get_elem? ks i)
                        (walk_found-keys (find (keys ms) name) (walk t depth) ms first)
                      ∙ finds (keys ms) name i before)
                    fresh later)
                ∙ here) in
              walk_type-IsConfined t depth n0 n wt walked),
          walk_params-AreConfined ps depth mid ms' wps later,
        )

  walk_args-IsConfined :
      (ps : Params) (args args' : Node)
      → AreWellNamed ps
      → walk_args realpath exists find workspace eff ps args ≡ ok args'
      → IsConfined exists find eff (object ps) args'
  unfolding walk_args IsConfined
  walk_args-IsConfined ps (members ms) args' w e =
      let (ms', walked, last) = bind-eq-ok (walk_all ps 0 ms) _ e in
      let same : members ms' ≡ args' = cc in
      rw (← same) (walk_params-AreConfined ps 0 ms ms' w walked)
  walk_args-IsConfined ps _ args' w e = rw (← ok_same e) tt
    where
      ok_same : {a b : Node} → ok a ≡ ok b → a ≡ b
      ok_same p = cc

  -- For parameters with distinct names, and an object lookup that finds a member with the key asked for:
  -- the arguments that `policy_preflight` lets through hold, at each place of a path type, a path
  -- that the effective prefixes cover for the access of the type and that exists where the type
  -- asks for it; and a manifest that requests the proc or the net grant has it.
  pub policy_preflight-IsConfined :
      (perms : Perms) (ps : Params) (args args' : Node)
      → AreWellNamed ps
      → policy_preflight realpath exists find workspace eff perms ps args ≡ ok args'
      → IsConfined exists find eff (object ps) args'
        × ((not perms.proc || eff.proc) ≡ true)
        × ((not perms.net || eff.net) ≡ true)
  unfolding policy_preflight
  policy_preflight-IsConfined perms ps args args' w e =
      let (mid, walked, rest) =
        bind-eq-ok (walk_args realpath exists find workspace eff ps args) _ e in
      let same : mid ≡ args' = ground arith in
      (walk_args-IsConfined ps args args' w (walked ∙ ap ok same), ground arith, ground arith)
