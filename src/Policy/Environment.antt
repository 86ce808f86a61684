-- ===== src/Policy/Environment.antt =====
-- The environment variables that are passed to a tool.
use asterism_astools.Prelude.{◌≡◌, refl, ap, ◌∙◌, inl, inr}
use asterism_astools.Prelude.{Bool, true, false, Option, ◌&&◌, ◌||◌, List, [], ◌∷◌, ◌++◌, arith}
use asterism_astools.Prelude.{Bool-cases}
use asterism_astools.Prelude.{Bytes, str_eq, str_eq_iff, str_eq_refl, ok}
use asterism_astools.Path.{Resolved}
use asterism_astools.Policy.{
  Grant, Host, Manifest, grant_matches, Effective, contains_name, granted_names, add_name,
  add_names, candidates, effective_env, policy_effective,
}
use asterism_astools.Policy.Flags.{some_grant}
use asterism_astools.Policy.Concedes.{policy_effective-IsConceded}

contains_name-append :
    (xs ys : List Bytes) (n : Bytes)
    → contains_name (xs ++ ys) n ≡ (contains_name xs n || contains_name ys n)
unfolding contains_name
contains_name-append [] ys n = refl
contains_name-append (x ∷ xs) ys n = ground (arith, contains_name-append xs ys n)

contains-add_name :
    (granted env : List Bytes) (name n : Bytes)
    → contains_name (add_name granted env name) n
      ≡ (contains_name env n || (contains_name granted n && str_eq name n))
unfolding add_name
contains-add_name granted env name n = elim (Bool-cases (str_eq name n)) [
  | inl same ↦
      let e : name ≡ n = (str_eq_iff name n).0 same in
      rw e
        (unfold contains_name in ground (arith, contains_name-append env (n ∷ []) n, str_eq_refl n))
  | inr other ↦ unfold contains_name in ground (arith, contains_name-append env (name ∷ []) n)
]

contains-add_names :
    (granted env names : List Bytes) (n : Bytes)
    → contains_name (add_names granted env names) n
      ≡ (contains_name env n || (contains_name granted n && contains_name names n))
unfolding add_names
contains-add_names granted env [] n = unfold contains_name in ground arith
contains-add_names granted env (name ∷ names) n =
    contains-add_names granted (add_name granted env name) names n
    ∙ rw (contains-add_name granted env name n) (unfold contains_name in ground arith)

abbrev pub is_empty : List Bytes → Bool
is_empty [] = true
is_empty (_ ∷ _) = false

-- A name stands at most once.
pub AreDistinct : List Bytes → Type 0
AreDistinct [] = Unit {0}
AreDistinct (x ∷ xs) = (contains_name xs x ≡ false) × AreDistinct xs

distinct-append :
    (xs : List Bytes) (n : Bytes)
    → AreDistinct xs
    → contains_name xs n ≡ false
    → AreDistinct (xs ++ n ∷ [])
unfolding AreDistinct
distinct-append [] n h k = unfold contains_name in (refl, tt)
distinct-append (x ∷ xs) n (h, hs) k =
    let (other, later) : (str_eq x n ≡ false) × (contains_name xs n ≡ false) =
      unfold contains_name in ground arith in
    (
      contains_name-append xs (n ∷ []) x
          ∙ unfold contains_name in ground (arith, str_eq_iff n x, str_eq_iff x n),
      distinct-append xs n hs later,
    )

add_name-AreDistinct :
    (granted env : List Bytes) (name : Bytes)
    → AreDistinct env
    → AreDistinct (add_name granted env name)
unfolding add_name
add_name-AreDistinct granted env name h = elim (Bool-cases (contains_name granted name)) [
  | inl known ↦ elim (Bool-cases (contains_name env name)) [
    | inl old ↦ rw (known, old) h
    | inr new ↦ rw (known, new) (distinct-append env name h new)
  ]
  | inr unknown ↦ rw unknown h
]

add_names-AreDistinct :
    (granted env names : List Bytes) → AreDistinct env → AreDistinct (add_names granted env names)
unfolding add_names
add_names-AreDistinct granted env [] h = h
add_names-AreDistinct granted env (name ∷ names) h =
    add_names-AreDistinct granted (add_name granted env name) names
      (add_name-AreDistinct granted env name h)

contains-candidates :
    (requested granted : List Bytes) (n : Bytes)
    → (contains_name granted n && contains_name (candidates requested granted) n)
      ≡ (contains_name granted n && (is_empty requested || contains_name requested n))
unfolding candidates
contains-candidates [] granted n = ground arith
contains-candidates (x ∷ xs) granted n = refl

-- A name is among the granted names when some grant for the tool holds it.
contains-granted_names :
    (id : Option Bytes) (grants : List Grant) (n : Bytes)
    → contains_name (granted_names id grants) n ≡ some_grant (λ q. contains_name q.env n) id grants
unfolding granted_names some_grant
contains-granted_names id [] n = unfold contains_name in refl
contains-granted_names id (g ∷ grants) n = elim (Bool-cases (grant_matches g.tool id)) [
  | inl matches ↦ rw matches (
      contains_name-append g.perms.env (granted_names id grants) n
      ∙ ap (λ b. contains_name g.perms.env n || b) (contains-granted_names id grants n))
  | inr other ↦ rw other (contains-granted_names id grants n)
]

-- When the policy is computed, the variables that are passed on are those that some grant of the host for this
-- tool holds and that the manifest requests, where an empty request asks for all of them; and each stands once.
pub policy_effective_env :
    (realpath : Bytes → Resolved) (host : Host) (m : Manifest) (eff : Effective) (name : Bytes)
    → policy_effective realpath host m ≡ ok eff
    → AreDistinct eff.env
      × (contains_name eff.env name ≡ (
          some_grant (λ q. contains_name q.env name) m.id host.tool_grants
          && (is_empty m.perms.env || contains_name m.perms.env name)))
policy_effective_env realpath host m eff name e =
    let c = policy_effective-IsConceded realpath host m e in
    let granted : List Bytes = granted_names m.id host.tool_grants in
    let asked : (contains_name granted name && contains_name (candidates m.perms.env granted) name)
        ≡ (contains_name granted name && (is_empty m.perms.env || contains_name m.perms.env name)) =
      contains-candidates m.perms.env granted name in
    let nothing_before : (contains_name [] name
          || (contains_name granted name && contains_name (candidates m.perms.env granted) name))
        ≡ (contains_name granted name && contains_name (candidates m.perms.env granted) name) =
      unfold contains_name in refl in
    unfold effective_env in
    (
      rw c.env_is (
          add_names-AreDistinct granted [] (candidates m.perms.env granted)
            (unfold AreDistinct in tt)),
      rw c.env_is (
          contains-add_names granted [] (candidates m.perms.env granted) name
          ∙ (nothing_before ∙ asked)
          ∙ ap (λ b. b && (is_empty m.perms.env || contains_name m.perms.env name))
              (contains-granted_names m.id host.tool_grants name)),
    )
