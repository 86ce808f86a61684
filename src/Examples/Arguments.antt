-- ===== src/Examples/Arguments.antt =====
-- The preflight of one argument.
use asterism_astools.Prelude.{ℕ, suc, ◌≡◌, refl, ap, inl, inr}
use asterism_astools.Prelude.{true, false, Option, none, some, List, [], ◌∷◌, arith}
use asterism_astools.Prelude.{if◌then◌else◌, Bool-cases, Option-cases}
use asterism_astools.Prelude.{Bytes, str_eq, str_eq_iff, codes, ok}
use asterism_astools.Examples.{disk}
use asterism_astools.Path.{
  path_squeeze, squeeze_loop, drop_trailing, path_is_abs, path_join, comp_rejected, split_step,
  split_last, shortened, strip_last, append_comp, append_tail, os_realpath, climb, walk_up,
  canonical_missing, canonical_squeezed, path_canonical, path_under, trim_end, trim_slashes,
  after_prefix, at_boundary,
}
use asterism_astools.Policy.{Effective, Perms}
use asterism_astools.Policy.Access.{covered, hit}
use asterism_astools.Policy.Preflight.{
  path, Params, no_params, param, Node, text, members, Members, no_members, member, keys,
  walk_member, walk_found, check_path, walk_type, walk_params, walk_args, policy_preflight,
}
use asterism_astools.Policy.Preflight
use asterism_astools.Policy.Confined.{
  has_param, AreWellNamed, IsConfined, FindsKeys, policy_preflight-IsConfined,
}

-- A lookup of the first member with the key.
abbrev after : Option ℕ → Option ℕ
after none = none
after (some i) = some (suc i)

unfoldable first_of : List Bytes → Bytes → Option ℕ
first_of [] name = none
first_of (k ∷ ks) name =
    let later = after (first_of ks name) in if str_eq k name then some 0 else later

first_of-FindsKeys : FindsKeys first_of
unfolding first_of
first_of-FindsKeys [] name i e = cc
first_of-FindsKeys (k ∷ ks) name i e = elim (Bool-cases (str_eq k name)) [
  | inl same ↦ let here : 0 ≡ i = ground arith in rw (← here) (ap some ((str_eq_iff k name).0 same))
  | inr other ↦ elim (Option-cases (first_of ks name)) [
    | inl missing ↦ ground arith
    | inr (j, found) ↦
        let here : suc j ≡ i = ground arith in rw (← here) (first_of-FindsKeys ks name j found)
  ]
]

abbrev effective : Effective
effective = record {
  fs = record { path = codes "/w"; access = 1 } ∷ [];
  net = true;
  proc = false;
  env = [];
}

abbrev perms : Perms
perms = record { fs = []; net = true; proc = false; env = [] }

-- A command with one parameter, a path that it reads.
abbrev params : Params
params = param (some (codes "file")) (path 1 false) no_params

abbrev before : Node
before = members (member (codes "file") (text (codes "a")) no_members)

abbrev checked : Node
checked = members (member (codes "file") (text (codes "/w/a")) no_members)

passes :
    policy_preflight disk (λ _. true) first_of (codes "/w") effective perms params before
    ≡ ok checked
unfolding policy_preflight walk_args walk_params walk_found walk_member walk_type check_path covered
    hit keys first_of path_canonical canonical_squeezed canonical_missing walk_up climb os_realpath
    append_tail append_comp strip_last shortened split_last split_step comp_rejected path_join
    path_is_abs path_squeeze squeeze_loop drop_trailing path_under trim_slashes trim_end
    after_prefix at_boundary str_eq
passes = refl

well_named : AreWellNamed params
unfolding AreWellNamed has_param
well_named = (refl, tt, tt)

policy_preflight-IsConfined_example :
    IsConfined (λ _. true) first_of effective (Preflight.object params) checked
    × (true ≡ true)
    × (true ≡ true)
policy_preflight-IsConfined_example =
    policy_preflight-IsConfined disk (λ _. true) first_of (codes "/w") effective first_of-FindsKeys
      perms params before checked well_named passes
