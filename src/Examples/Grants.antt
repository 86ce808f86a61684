-- ===== src/Examples/Grants.antt =====
-- The grants of a tool in a small workspace.
use asterism_astools.Prelude.{◌≡◌, refl}
use asterism_astools.Prelude.{true, false, ◌&&◌, ◌||◌, some, List, [], ◌∷◌, arith}
use asterism_astools.Prelude.{some_inj}
use asterism_astools.Prelude.{All}
use asterism_astools.Prelude.{str_eq, codes, ok}
use asterism_astools.Examples.{
  is_text-IsText, disk, disk-IsCanonical, workspace_IsCanonical, file_IsCanonical,
}
use asterism_astools.Path.{
  path_squeeze, squeeze_loop, drop_trailing, path_is_abs, os_realpath, canonical_squeezed,
  path_canonical, path_under, trim_end, trim_slashes, after_prefix, at_boundary,
}
use asterism_astools.Policy.{
  Entry, Host, Manifest, Effective, Granted, grant_matches, push_canonical, canon_push,
  canon_push_all, workspace_grant, add_grants, has_entry, add_entry, add_pair, add_pairs, intersect,
  contains_name, granted_names, add_name, add_names, candidates, effective_env, policy_effective,
}
use asterism_astools.Policy.Access.{covered}
use asterism_astools.Policy.Concedes.{IsPermText, policy_effective_exact}
use asterism_astools.Policy.Flags.{some_grant, policy_effective_flags}
use asterism_astools.Policy.Environment.{AreDistinct, policy_effective_env}

-- Read access to the workspace is requested, and the net.
abbrev manifest : Manifest
manifest = record {
  id = some (codes "tool");
  perms = record {
    fs = record { path = some (codes "/w"); access = 1 } ∷ [];
    net = true;
    proc = true;
    env = [];
  };
}

-- The host grants the net and a variable.
abbrev host : Host
host = record {
  workspace = codes "/w";
  workspace_access = 3;
  tool_grants =
      record {
        tool = some (codes "tool");
        perms = record { fs = []; net = true; proc = false; env = codes "HOME" ∷ [] };
      }
      ∷ [];
}

abbrev effective : Effective
effective = record {
  fs = record { path = codes "/w"; access = 1 } ∷ [];
  net = true;
  proc = false;
  env = codes "HOME" ∷ [];
}

computes : policy_effective disk host manifest ≡ ok effective
unfolding policy_effective canon_push_all canon_push push_canonical add_grants workspace_grant
    grant_matches intersect add_pairs add_pair add_entry has_entry effective_env candidates
    add_names add_name contains_name granted_names path_canonical canonical_squeezed os_realpath
    path_is_abs path_squeeze squeeze_loop drop_trailing path_under trim_slashes trim_end
    after_prefix at_boundary str_eq
computes = refl

request_IsPermText : All IsPermText manifest.perms.fs
request_IsPermText = (λ p e. rw (← some_inj e) (is_text-IsText (codes "/w") refl), tt)

policy_effective_exact_example :
    (requests : List Entry) × (granted : Granted) × (canon_push_all disk
        (codes "/w")
        []
        manifest.perms.fs
      ≡ ok requests)
    × (add_grants disk host (some (codes "tool")) (workspace_grant host) host.tool_grants
        ≡ ok granted)
    × (covered effective.fs (codes "/w/a") 2
        ≡ (covered requests (codes "/w/a") 2 && covered granted.fs (codes "/w/a") 2))
policy_effective_exact_example =
    policy_effective_exact disk disk-IsCanonical host manifest effective (codes "/w/a") 2
      workspace_IsCanonical (is_text-IsText (codes "/w") refl) request_IsPermText (tt, tt) computes
      file_IsCanonical (omega arith) (omega arith)

policy_effective_flags_example :
    (true ≡ (true && some_grant (λ q. q.net) (some (codes "tool")) host.tool_grants))
    × (false ≡ (true && some_grant (λ q. q.proc) (some (codes "tool")) host.tool_grants))
policy_effective_flags_example = policy_effective_flags disk host manifest effective computes

policy_effective_env_example :
    AreDistinct (codes "HOME" ∷ [])
    × (contains_name (codes "HOME" ∷ []) (codes "HOME") ≡ (
        some_grant (λ q. contains_name q.env (codes "HOME")) (some (codes "tool")) host.tool_grants
        && (true || contains_name [] (codes "HOME"))))
policy_effective_env_example =
    policy_effective_env disk host manifest effective (codes "HOME") computes
