-- ===== src/Policy/Preflight.antt =====
-- `walk_type` and `astools_policy_preflight` of src/policy.c: the check of the arguments. A value is
-- rebuilt where the source writes into it.
use asterism_astools.Prelude.{ℕ, zero, suc, ◌+◌}
use asterism_astools.Prelude.{Bool, true, not, ◌&&◌, Option, none, some, List, [], ◌∷◌}
use asterism_astools.Prelude.{ltb, if◌then◌else◌}
use asterism_astools.Prelude.{Bytes, Result, ok, err, Err, ◌>>=◌}
use asterism_astools.Prelude.{Err}
use asterism_astools.Path.{path_canonical, Resolved}
use asterism_astools.Policy.{Effective, Perms}
use asterism_astools.Policy.Access.{covered}

-- `astools_type`, as far as the walk reads it, and the parameters of a command or an object. A null
-- type is `absent`, and all kinds with no path inside are `scalar`.
mutual
  pub data ParamType : Type 0 where
    absent : ParamType
    scalar : ParamType
    path : (access : ℕ) (must_exist : Bool) → ParamType
    array : (item : ParamType) → ParamType
    dictionary : (value : ParamType) → ParamType
    object : (fields : Params) → ParamType

  pub data Params : Type 0 where
    no_params : Params
    param : (name : Option Bytes) (type : ParamType) (rest : Params) → Params

-- An xCDN value; one with no string inside that the walk could reach is `other`.
mutual
  pub data Node : Type 0 where
    other : Bytes → Node
    text : Bytes → Node
    items : Items → Node
    members : Members → Node

  pub data Items : Type 0 where
    no_items : Items
    item : Node → Items → Items

  pub data Members : Type 0 where
    no_members : Members
    member : Bytes → Node → Members → Members

unfoldable pub keys : Members → List Bytes
keys no_members = []
keys (member k n ms) = k ∷ keys ms

-- `POLICY_MAX_DEPTH`
abbrev pub max_depth : ℕ
max_depth = 128

abbrev pub if_shallow : ℕ → Result Node → Result Node
if_shallow depth r = if ltb max_depth depth then err Err.invalid else r

unfoldable pub walk_items : (Node → Result Node) → Items → Result Items
walk_items f no_items = ok no_items
walk_items f (item n ns) = do n' ← f n; ns' ← walk_items f ns; ok (item n' ns')

unfoldable pub walk_values : (Node → Result Node) → Members → Result Members
walk_values f no_members = ok no_members
walk_values f (member k n ms) = do n' ← f n; ms' ← walk_values f ms; ok (member k n' ms')

-- The walk of the member at a position.
unfoldable pub walk_member : ℕ → (Node → Result Node) → Members → Result Members
walk_member i f no_members = ok no_members
walk_member zero f (member k n ms) = do n' ← f n; ok (member k n' ms)
walk_member (suc i) f (member k n ms) = do ms' ← walk_member i f ms; ok (member k n ms')

unfoldable pub walk_found : Option ℕ → (Node → Result Node) → Members → Result Members
walk_found none f ms = ok ms
walk_found (some i) f ms = walk_member i f ms

-- `find keys name` is the position of the member that `xcdn_object_get` of the xCDN library finds
-- in an object with these keys, `exists` the answer of `os_stat`.
module _ (realpath : Bytes → Resolved) (exists : Bytes → Bool)
    (find : List Bytes → Bytes → Option ℕ) (workspace : Bytes) (eff : Effective) where
  -- The case `AT_PATH`, for a string.
  unfoldable pub check_path : ℕ → Bool → Bytes → Result Node
  check_path access must_exist s = do
    canon ← path_canonical realpath workspace s true
    if not (covered eff.fs canon access)
        then err Err.denied
        else if must_exist && not (exists canon)
        then err Err.invalid
        else ok (text canon)

  unfoldable mutual
    pub walk_type : ParamType → ℕ → Node → Result Node
    walk_type (path access must_exist) depth (text s) =
        if_shallow depth (check_path access must_exist s)
    walk_type (array t) depth (items ns) =
        if_shallow depth (do ns' ← walk_items (walk_type t (depth + 1)) ns; ok (items ns'))
    walk_type (dictionary t) depth (members ms) =
        if_shallow depth (do ms' ← walk_values (walk_type t (depth + 1)) ms; ok (members ms'))
    walk_type (object ps) depth (members ms) =
        if_shallow depth (do ms' ← walk_params ps (depth + 1) ms; ok (members ms'))
    walk_type absent depth n = ok n
    walk_type _ depth n = if_shallow depth (ok n)

    pub walk_params : Params → ℕ → Members → Result Members
    walk_params no_params depth ms = ok ms
    walk_params (param none t ps) depth ms = walk_params ps depth ms
    walk_params (param (some name) t ps) depth ms = do
      ms' ← walk_found (find (keys ms) name) (walk_type t depth) ms
      walk_params ps depth ms'

  -- The loop over the parameters of the command; arguments that are no object are left alone.
  unfoldable pub walk_args : Params → Node → Result Node
  walk_args ps (members ms) = do ms' ← walk_params ps 0 ms; ok (members ms')
  walk_args ps n = ok n

  -- `astools_policy_preflight`
  unfoldable pub policy_preflight : Perms → Params → Node → Result Node
  policy_preflight perms ps args = do
    args' ← walk_args ps args
    if perms.proc && not eff.proc
        then err Err.denied
        else if perms.net && not eff.net
        then err Err.denied
        else ok args'
