-- ===== src/Policy/Flags.antt =====
-- The net and proc grants.
use asterism_astools.Prelude.{◌≡◌, ap, ◌∙◌, inl, inr}
use asterism_astools.Prelude.{Bool, false, ◌&&◌, ◌||◌, Option, List, [], ◌∷◌, arith}
use asterism_astools.Prelude.{Bool-cases}
use asterism_astools.Prelude.{Bytes, ok, bind-eq-ok}
use asterism_astools.Path.{Resolved}
use asterism_astools.Policy.{
  Perms, Grant, Host, Manifest, Effective, Granted, grant_matches, canon_push_all, with_grant,
  workspace_grant, add_grants, policy_effective,
}
use asterism_astools.Policy.Concedes.{policy_effective-IsConceded}

-- Some grant for the tool satisfies the test.
unfoldable pub some_grant : (Perms → Bool) → Option Bytes → List Grant → Bool
some_grant test id [] = false
some_grant test id (g ∷ grants) =
    (grant_matches g.tool id && test g.perms) || some_grant test id grants

module _ (realpath : Bytes → Resolved) where
  add_grants-flags :
      (host : Host) (id : Option Bytes) (grants : List Grant) (granted : Granted)
      {granted' : Granted}
      → add_grants realpath host id granted grants ≡ ok granted'
      → (granted'.net ≡ (granted.net || some_grant (λ q. q.net) id grants))
        × (granted'.proc ≡ (granted.proc || some_grant (λ q. q.proc) id grants))
  unfolding add_grants some_grant
  add_grants-flags host id [] granted e = ground arith
  add_grants-flags host id (g ∷ grants) granted {granted'} e =
      elim (Bool-cases (grant_matches g.tool id)) [
        | inl matches ↦
            let (fs, first, later) =
              bind-eq-ok (canon_push_all realpath host.workspace granted.fs g.perms.fs) _
                (rw matches at e) in
            let ih = add_grants-flags host id grants (with_grant granted g fs) later in ground arith
        | inr other ↦
            let ih = add_grants-flags host id grants granted (rw other at e) in ground arith
      ]

  -- When the policy is computed, the tool gets the net, or the proc, grant exactly when its manifest requests it and some grant
  -- of the host for this tool gives it.
  pub policy_effective_flags :
      (host : Host) (m : Manifest) (eff : Effective)
      → policy_effective realpath host m ≡ ok eff
      → (eff.net ≡ (m.perms.net && some_grant (λ q. q.net) m.id host.tool_grants))
        × (eff.proc ≡ (m.perms.proc && some_grant (λ q. q.proc) m.id host.tool_grants))
  policy_effective_flags host m eff e =
      let c = policy_effective-IsConceded realpath host m e in
      let flags = add_grants-flags host m.id host.tool_grants (workspace_grant host) c.granted_by in
      unfold workspace_grant in
      (
        c.net_is ∙ ap (λ b. m.perms.net && b) flags.0,
        c.proc_is ∙ ap (λ b. m.perms.proc && b) flags.1,
      )
