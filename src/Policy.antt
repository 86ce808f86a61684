-- ===== src/Policy.antt =====
-- src/policy.c: the grants of an invocation, as the intersection of what the manifest requests and
-- what the host grants, and the check of the arguments before a tool is started. Paths are those of
-- `Path`, `realpath` of the C library is a parameter. Memory does not run out but where `realpath`
-- says so, the log is not modelled, and no name in a list of environment variables is null.
pub mod Access
pub mod Concedes
pub mod Flags
pub mod Environment
pub mod Intersection
pub mod Preflight
mod Members
pub mod Confined
use asterism_astools.Prelude.{
  ℕ, zero, suc, ◌+◌, ◌-◌, ◌*◌, ◌/◌, ◌%◌, ◌^◌, ◌≤◌, ◌<◌, ◌≡◌, refl, sym, ap, ◌∙◌, ◌≢◌, ◌↔◌, ◌⊎◌, inl,
  inr,
}
use asterism_astools.Prelude.{
  Bool, true, false, not, ◌&&◌, ◌||◌, Option, none, some, List, [], ◌∷◌, ◌++◌, map, arith,
}
use asterism_astools.Prelude.{
  ltb, leb, ◌==◌, if◌then◌else◌, ltb→lt, lt→ltb, leb→le, ==_iff, tests, Bool-cases, bool_clash,
  Option-cases, agree_below, agree_below→eq,
}
use asterism_astools.Prelude.{
  length, get_elem?, get_or, take, drop, replicate, length-append, take-append-drop,
  drop-append_length, All-drop, All-append, zero_or_suc, list_cases, length_pos, length-take,
  length-drop, All,
}
use asterism_astools.Prelude.{Err}
use asterism_astools.Prelude.{
  Bytes, AreBytes, str_eq, str_eq_iff, str_eq_refl, codes, peek, advance, within, is_digit, Result,
  ok, err, Err, Result-cases, bind-eq-ok, ◌>>=◌,
}
use Prim.Native.Nat.{bit_and}
use asterism_astools.Path.{path_canonical, path_under, Resolved}

-- `ASTOOLS_ACCESS_RW`
abbrev pub access_rw : ℕ
access_rw = 3

-- `astools_fs_perm`; a null path is `none`.
pub record FsPerm : Type 0 where
  pub path : Option Bytes
  pub access : ℕ

-- An entry of a `perm_list`.
pub record Entry : Type 0 where
  pub path : Bytes
  pub access : ℕ

-- `astools_perms` and `astools_grant`
pub record Perms : Type 0 where
  pub fs : List FsPerm
  pub net : Bool
  pub proc : Bool
  pub env : List Bytes

pub record Grant : Type 0 where
  pub tool : Option Bytes
  pub perms : Perms

-- The fields of the context and of the manifest that the policy reads.
pub record Host : Type 0 where
  pub workspace : Bytes
  pub workspace_access : ℕ
  pub tool_grants : List Grant

pub record Manifest : Type 0 where
  pub id : Option Bytes
  pub perms : Perms

-- `astools_effective`
pub record Effective : Type 0 where
  pub fs : List Entry
  pub net : Bool
  pub proc : Bool
  pub env : List Bytes

-- `g->tool && m->id && strcmp(g->tool, m->id) == 0`
unfoldable pub grant_matches : Option Bytes → Option Bytes → Bool
grant_matches (some tool) (some id) = str_eq tool id
grant_matches _ _ = false

-- `perm_push`
abbrev pub perm_push : List Entry → Bytes → ℕ → List Entry
perm_push entries path access = entries ++ record { path = path; access = access } ∷ []

-- `canon_push`, behind its test for a null path: a prefix with no canonical form is dropped.
unfoldable pub push_canonical : List Entry → ℕ → Result Bytes → Result (List Entry)
push_canonical entries access (ok canon) = ok (perm_push entries canon access)
push_canonical entries access (err Err.nomem) = err Err.nomem
push_canonical entries access (err e) = ok entries

module _ (realpath : Bytes → Resolved) where
  unfoldable pub canon_push : Bytes → List Entry → FsPerm → Result (List Entry)
  canon_push workspace entries perm = elim perm.path [
    | none ↦ ok entries
    | some path ↦
        if bit_and perm.access access_rw == 0
        then ok entries
        else push_canonical entries (bit_and perm.access access_rw)
            (path_canonical realpath workspace path true)
  ]

  unfoldable pub canon_push_all : Bytes → List Entry → List FsPerm → Result (List Entry)
  canon_push_all workspace entries [] = ok entries
  canon_push_all workspace entries (perm ∷ perms) = do
    entries' ← canon_push workspace entries perm
    canon_push_all workspace entries' perms

-- The prefixes, and the net and proc grants, of the grants that match the tool.
pub record Granted : Type 0 where
  pub fs : List Entry
  pub net : Bool
  pub proc : Bool

-- The workspace itself comes first.
unfoldable pub workspace_grant : Host → Granted
workspace_grant host = record {
  fs =
      if bit_and host.workspace_access access_rw == 0
      then []
      else perm_push [] host.workspace (bit_and host.workspace_access access_rw);
  net = false;
  proc = false;
}

-- The flags of one more grant, and the prefixes that it leads to.
abbrev pub with_grant : Granted → Grant → List Entry → Granted
with_grant granted g fs = record {
  fs = fs;
  net = granted.net || g.perms.net;
  proc = granted.proc || g.perms.proc;
}

module _ (realpath : Bytes → Resolved) where
  unfoldable pub add_grants : Host → Option Bytes → Granted → List Grant → Result Granted
  add_grants host id granted [] = ok granted
  add_grants host id granted (g ∷ grants) =
      let next = canon_push_all realpath host.workspace granted.fs g.perms.fs in
      if not (grant_matches g.tool id)
      then add_grants host id granted grants
      else (do fs ← next; add_grants host id (with_grant granted g fs) grants)

-- `dup`
unfoldable pub has_entry : List Entry → Bytes → ℕ → Bool
has_entry [] path access = false
has_entry (x ∷ xs) path access =
    (x.access == access && str_eq x.path path) || has_entry xs path access

unfoldable pub add_entry : List Entry → Bytes → ℕ → List Entry
unfolding has_entry
add_entry found path access =
    if has_entry found path access then found else perm_push found path access

-- One pair of a request and a grant: the deeper path, with the access of both.
unfoldable pub add_pair : List Entry → Entry → Entry → List Entry
add_pair found r g =
    let access = bit_and r.access g.access in
    if access == 0
    then found
    else if path_under r.path g.path
    then add_entry found r.path access
    else if path_under g.path r.path
    then add_entry found g.path access
    else found

unfoldable pub add_pairs : List Entry → Entry → List Entry → List Entry
add_pairs found r [] = found
add_pairs found r (g ∷ grants) = add_pairs (add_pair found r g) r grants

unfoldable pub intersect : List Entry → List Entry → List Entry → List Entry
intersect found [] grants = found
intersect found (r ∷ requests) grants = intersect (add_pairs found r grants) requests grants

unfoldable pub contains_name : List Bytes → Bytes → Bool
contains_name [] name = false
contains_name (x ∷ xs) name = str_eq x name || contains_name xs name

-- The names of the grants that match, in order.
unfoldable pub granted_names : Option Bytes → List Grant → List Bytes
granted_names id [] = []
granted_names id (g ∷ grants) =
    if grant_matches g.tool id
    then g.perms.env ++ granted_names id grants
    else granted_names id grants

-- One round of the loop over the candidates.
unfoldable pub add_name : List Bytes → List Bytes → Bytes → List Bytes
add_name granted env name =
    if not (contains_name granted name)
    then env
    else if contains_name env name
    then env
    else env ++ name ∷ []

unfoldable pub add_names : List Bytes → List Bytes → List Bytes → List Bytes
add_names granted env [] = env
add_names granted env (name ∷ names) = add_names granted (add_name granted env name) names

-- An empty request stands for every granted name.
unfoldable pub candidates : List Bytes → List Bytes → List Bytes
candidates [] granted = granted
candidates (name ∷ names) granted = name ∷ names

unfoldable pub effective_env : List Bytes → List Bytes → List Bytes
effective_env requested granted = add_names granted [] (candidates requested granted)

module _ (realpath : Bytes → Resolved) where
  -- `astools_policy_effective`, of a context, a tool and a manifest that are not null
  unfoldable pub policy_effective : Host → Manifest → Result Effective
  policy_effective host m = do
    requests ← canon_push_all realpath host.workspace [] m.perms.fs
    granted ← add_grants realpath host m.id (workspace_grant host) host.tool_grants
    ok (record {
      fs = intersect [] requests granted.fs;
      net = m.perms.net && granted.net;
      proc = m.perms.proc && granted.proc;
      env = effective_env m.perms.env (granted_names m.id host.tool_grants);
    })
