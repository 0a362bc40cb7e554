-- ===== src/Authz/Suspension.antt =====
-- From SetIdentityStatus (pkg/store/memory.go) through Load and RolesFor to Can.
use shpyrd.Common.{
  String, ◌≡◌, refl, ◌∙◌, Bool, true, false, ◌&&◌, some, ◌==◌, arith, Option-cases, inl, inr, any,
  any-map, any-keep, any-sort, any-update_first_found, find?, find?-passes, lookup, to_lower,
}
use shpyrd.Store.Types.{Workspace, Identity as Person, status_suspended}
use shpyrd.Store.State.{Memory, ok, with_ws}
use shpyrd.Store.Identities.{has_email, set_identity_status, list_identities}
use shpyrd.Store.Teams.{list_teams}
use shpyrd.Store.Grants.{list_grants}
use shpyrd.Authz.Roles.{can}
use shpyrd.Authz.Order.{allows_nothing}
use shpyrd.Authz.Snapshot.{
  Snapshot, Identity, is_operator, is_suspended, suspended_in, roles_for, load,
}

-- Someone who is suspended may do nothing, whatever the teams and the grants say.
pub suspended_cannot :
    (s : Snapshot) (id : Identity)
    → is_operator id ≡ false
    → is_suspended s id ≡ true
    → (a p : String) → can (roles_for s id) a p ≡ false
unfolding can roles_for lookup
suspended_cannot s id o x a p = rw (o, x, allows_nothing a) (ground arith)

abbrev is_out : String → String → Person → Bool
is_out wid email p = p.workspace_id == wid && (p.status == status_suspended && p.email == email)

-- Load lists the email of whoever is suspended in the workspace.
any-suspended_in :
    (ws email : String) (m : Memory) (w : Workspace)
    → lookup ws m.workspaces ≡ some w
    → any (λ e. e == email) (suspended_in (list_identities ws m).0)
      ≡ any (is_out w.id email) m.identities
unfolding list_identities with_ws
any-suspended_in ws email m w there = rw (there, any-map, any-keep, any-sort, any-keep) refl

loaded-suspended :
    (ws : String) (m : Memory) (s : Snapshot)
    → load m ws ≡ ok s
    → s.suspended ≡ suspended_in (list_identities ws m).0
unfolding load list_teams list_grants with_ws
loaded-suspended ws m s h = elim (Option-cases (lookup ws m.workspaces)) [
  | inl e ↦ ground (arith, e)
  | inr (w, e) ↦ ground (arith, e)
]

module _ (ws email : String) (m : Memory) where
  set_status_found :
      (it : Person)
      → (set_identity_status ws email status_suspended m).0 ≡ ok it
      → (w : Workspace) × (lookup ws (set_identity_status ws email status_suspended m).1.workspaces
          ≡ some w)
        × (any
              (is_out w.id (to_lower email))
              (set_identity_status ws email status_suspended m).1.identities
            ≡ true)
  unfolding set_identity_status with_ws
  set_status_found it h = elim (Option-cases (lookup ws m.workspaces)) [
    | inl e ↦ absurd (ground (arith, e))
    | inr (w, e) ↦ elim (Option-cases (find? (has_email w.id (to_lower email)) m.identities)) [
      | inl f ↦ absurd (ground (arith, e, f))
      | inr (x, f) ↦
          rw (e, f)
            (
              w,
              e,
              any-update_first_found (has_email w.id (to_lower email))
                  (is_out w.id (to_lower email)) _ m.identities f
                  (ground (arith, find?-passes (has_email w.id (to_lower email)) m.identities f)),
            )
    ]
  ]

  -- Once SetIdentityStatus has suspended an email, a snapshot loaded from the store lets nobody do
  -- anything who signs in with that email in any case, if it is not empty, unless by an operator's
  -- credential.
  pub suspend-cannot :
      (it : Person)
      → (set_identity_status ws email status_suspended m).0 ≡ ok it
      → (s : Snapshot) → load (set_identity_status ws email status_suspended m).1 ws ≡ ok s
      → (id : Identity) → is_operator id ≡ false
      → (id.email == "") ≡ false
      → to_lower id.email ≡ to_lower email
      → (a p : String) → can (roles_for s id) a p ≡ false
  suspend-cannot it h s l id o e same a p =
      let after = (set_identity_status ws email status_suspended m).1 in
      let (w, there, out) = set_status_found it h in
      suspended_cannot s id o
        (rw (e, same, loaded-suspended ws after s l)
          (any-suspended_in ws (to_lower email) after w there ∙ out))
        a p
