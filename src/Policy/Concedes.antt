-- ===== src/Policy/Concedes.antt =====
-- What `policy_effective` concedes, in terms of the requests and of the grants that match.
use asterism_astools.Prelude.{ℕ, ◌<◌, ◌≡◌, refl, ◌∙◌, inl, inr}
use asterism_astools.Prelude.{true, ◌&&◌, Option, some, List, [], ◌∷◌, arith}
use asterism_astools.Prelude.{◌==◌, Bool-cases, Option-cases}
use asterism_astools.Prelude.{All-append, All}
use asterism_astools.Prelude.{Bytes, Result, ok, err, bind-eq-ok}
use Prim.Native.Nat.{bit_and}
use asterism_astools.Prelude.Bits.{bit_and_mask}
use asterism_astools.Path.{path_canonical, Resolved, resolved}
use asterism_astools.Path.Segments.{IsCanonical}
use asterism_astools.Path.Strip.{IsText}
use asterism_astools.Path.Canonical.{path_canonical-IsCanonical}
use asterism_astools.Policy.{
  FsPerm, Entry, Grant, Host, Manifest, Effective, Granted, grant_matches, perm_push,
  push_canonical, canon_push, canon_push_all, with_grant, workspace_grant, add_grants, intersect,
  policy_effective, access_rw, granted_names, effective_env,
}
use asterism_astools.Policy.Access.{covered, IsAccess}
use asterism_astools.Policy.Intersection.{IsGood, covered-intersect}

-- A prefix of a manifest or of a grant is a C string.
abbrev pub IsPermText : FsPerm → Type 0
IsPermText perm = (path : Bytes) → perm.path ≡ some path → IsText path

abbrev pub IsGrantText : Grant → Type 0
IsGrantText g = All IsPermText g.perms.fs

mask-IsAccess : (a : ℕ) → IsAccess (bit_and a access_rw)
mask-IsAccess a = rw (bit_and_mask 2 a) (omega arith)

push_canonical-IsGood :
    (entries : List Entry) (access : ℕ) (r : Result Bytes) {entries' : List Entry}
    → IsAccess access
    → ((canon : Bytes) → r ≡ ok canon → IsCanonical canon)
    → All IsGood entries
    → push_canonical entries access r ≡ ok entries'
    → All IsGood entries'
unfolding push_canonical
push_canonical-IsGood entries access (ok canon) {entries'} ha hc h e =
    let same : perm_push entries canon access ≡ entries' = cc in
    rw (← same) (All-append IsGood entries _ h ((hc canon refl, ha), tt))
push_canonical-IsGood entries access (err x) {entries'} ha hc h e =
    let same : entries ≡ entries' = ground arith in rw (← same) h

module _ (realpath : Bytes → Resolved) where
  -- What `policy_effective` computed: the canonical requests, the canonical grants that match the
  -- tool with the workspace in front, and the four fields of the result.
  pub record IsConceded (host : Host) (m : Manifest) (eff : Effective) : Type 0 where
    pub requests : List Entry
    pub granted : Granted
    pub requested_by : canon_push_all realpath host.workspace [] m.perms.fs ≡ ok requests
    pub granted_by :
        add_grants realpath host m.id (workspace_grant host) host.tool_grants ≡ ok granted
    pub fs_is : eff.fs ≡ intersect [] requests granted.fs
    pub net_is : eff.net ≡ (m.perms.net && granted.net)
    pub proc_is : eff.proc ≡ (m.perms.proc && granted.proc)
    pub env_is : eff.env ≡ effective_env m.perms.env (granted_names m.id host.tool_grants)

  pub policy_effective-IsConceded :
      (host : Host) (m : Manifest) {eff : Effective}
      → policy_effective realpath host m ≡ ok eff
      → IsConceded host m eff
  unfolding policy_effective
  policy_effective-IsConceded host m {eff} e =
      let (requests, requested, rest) =
        bind-eq-ok (canon_push_all realpath host.workspace [] m.perms.fs) _ e in
      let (granted, grants, last) =
        bind-eq-ok (add_grants realpath host m.id (workspace_grant host) host.tool_grants) _ rest in
      record {
        requests = requests;
        granted = granted;
        requested_by = requested;
        granted_by = grants;
        fs_is = ground arith;
        net_is = ground arith;
        proc_is = ground arith;
        env_is = ground arith;
      }

-- `realpath` answers with absolute paths that have no ".", no ".." and no doubled slash.
module _ (realpath : Bytes → Resolved)
    (sound : (p q : Bytes) → realpath p ≡ resolved q → IsCanonical q) where
  canon_push-IsGood :
      (workspace : Bytes) (entries : List Entry) (perm : FsPerm) {entries' : List Entry}
      → IsText workspace
      → IsPermText perm
      → All IsGood entries
      → canon_push realpath workspace entries perm ≡ ok entries'
      → All IsGood entries'
  unfolding canon_push push_canonical
  canon_push-IsGood workspace entries perm {entries'} hw ht h e = elim (Option-cases perm.path) [
    | inl none_path ↦ let same : entries ≡ entries' = ground arith in rw (← same) h
    | inr (path, some_path) ↦ elim (Bool-cases (bit_and perm.access access_rw == 0)) [
      | inl zero_access ↦ let same : entries ≡ entries' = ground arith in rw (← same) h
      | inr some_access ↦
          push_canonical-IsGood entries (bit_and perm.access access_rw)
            (path_canonical realpath workspace path true) (mask-IsAccess perm.access)
            (λ canon found.
              path_canonical-IsCanonical realpath workspace path true canon sound hw
                (ht path some_path) found)
            h (rw (some_path, some_access) at e)
    ]
  ]

  canon_push_all-IsGood :
      (workspace : Bytes) (entries : List Entry) (perms : List FsPerm) {entries' : List Entry}
      → IsText workspace
      → All IsPermText perms
      → All IsGood entries
      → canon_push_all realpath workspace entries perms ≡ ok entries'
      → All IsGood entries'
  unfolding canon_push_all
  canon_push_all-IsGood workspace entries [] {entries'} hw ht h e =
      let same : entries ≡ entries' = cc in rw (← same) h
  canon_push_all-IsGood workspace entries (perm ∷ perms) hw (ht, hts) h e =
      let (next, first, later) = bind-eq-ok (canon_push realpath workspace entries perm) _ e in
      canon_push_all-IsGood workspace next perms hw hts
        (canon_push-IsGood workspace entries perm hw ht h first) later

  add_grants-IsGood :
      (host : Host) (id : Option Bytes) (granted : Granted) (grants : List Grant)
      {granted' : Granted}
      → IsText host.workspace
      → All IsGrantText grants
      → All IsGood granted.fs
      → add_grants realpath host id granted grants ≡ ok granted'
      → All IsGood granted'.fs
  unfolding add_grants
  add_grants-IsGood host id granted [] {granted'} hw ht h e =
      let same : granted ≡ granted' = cc in rw (← same) h
  add_grants-IsGood host id granted (g ∷ grants) hw (ht, hts) h e =
      elim (Bool-cases (grant_matches g.tool id)) [
        | inl matches ↦
            let (fs, first, later) =
              bind-eq-ok (canon_push_all realpath host.workspace granted.fs g.perms.fs) _
                (rw matches at e) in
            add_grants-IsGood host id (with_grant granted g fs) grants hw hts
              (canon_push_all-IsGood host.workspace granted.fs g.perms.fs hw ht h first) later
        | inr other ↦ add_grants-IsGood host id granted grants hw hts h (rw other at e)
      ]

  workspace_grant-IsGood :
      (host : Host) → IsCanonical host.workspace → All IsGood (workspace_grant host).fs
  unfolding workspace_grant
  workspace_grant-IsGood host h = elim (Bool-cases (bit_and host.workspace_access access_rw == 0)) [
    | inl zero_access ↦ rw zero_access tt
    | inr some_access ↦ rw some_access ((h, mask-IsAccess host.workspace_access), tt)
  ]

  -- Where `realpath` answers with canonical paths, the workspace is canonical, the prefixes of the
  -- manifest and of the host have no NUL, and the policy is computed:
  -- for a canonical path and a non-empty set of access bits, the effective prefixes cover the
  -- access exactly when both the canonical requests of the manifest and the canonical grants of
  -- the host, the workspace among them, cover it.
  pub policy_effective_exact :
      (host : Host) (m : Manifest) (eff : Effective) (path : Bytes) (need : ℕ)
      → IsCanonical host.workspace
      → IsText host.workspace
      → All IsPermText m.perms.fs
      → All IsGrantText host.tool_grants
      → policy_effective realpath host m ≡ ok eff
      → IsCanonical path
      → IsAccess need
      → 0 < need
      → (requests : List Entry) × (granted : Granted) × (canon_push_all realpath host.workspace []
            m.perms.fs
          ≡ ok requests)
        × (add_grants realpath host m.id (workspace_grant host) host.tool_grants ≡ ok granted)
        × (covered eff.fs path need ≡ (covered requests path need && covered granted.fs path need))
  policy_effective_exact host m eff path need hc hw hm hg e hp hn pos =
      let c = policy_effective-IsConceded realpath host m e in
      let requests_good =
        canon_push_all-IsGood host.workspace [] m.perms.fs hw hm tt c.requested_by in
      let grants_good =
        add_grants-IsGood host m.id (workspace_grant host) host.tool_grants hw hg
          (workspace_grant-IsGood host hc) c.granted_by in
      (
        c.requests,
        c.granted,
        c.requested_by,
        c.granted_by,
        rw c.fs_is (
            covered-intersect path need hp hn pos [] c.requests c.granted.fs requests_good
              grants_good
            ∙ unfold covered in refl),
      )
