-- ===== src/Store/Dump/Steps.antt =====
-- What the methods that Import calls leave alone, and when they succeed.
use shpyrd.Common.{
  ℕ, String, ◌≡◌, refl, sym, ◌∙◌, ◌⊎◌, [], ◌∷◌, Bool, true, false, not, ◌&&◌, ◌||◌, some, arith,
  ◌==◌, eq_iff, inl, inr, Bool-cases, Option-cases, any, any-append, any-update_first, find?,
  find?-some-any, find?-passes, All-find?, lookup, lookup-update_first, eq_refl,
}
use mathlib.Core.Path.{subst}
use shpyrd.Store.Types.{
  Workspace, WorkspaceSettings, Team, Grant, Identity, team_everyone, conflict,
}
use shpyrd.Store.State.{Memory, Env, err, with_ws, with_ws-after}
use shpyrd.Store.Workspaces.{update_workspace, update_workspace_settings, write_workspace}
use shpyrd.Store.Domains.{put_domain_claim, mark_domain_verified}
use shpyrd.Store.Identities.{touch_identity, set_identity_status}
use shpyrd.Store.Teams.{is_team, put_team, new_team, rewritten}
use shpyrd.Store.Grants.{add_grant, same_grant, new_grant}
use shpyrd.Store.Valid.{IsValid}
use shpyrd.Store.Valid.Workspaces.{IsQuiet, write_workspace-IsValid}
use shpyrd.Store.Dump.{is_ok}

guard_off : (a b : Bool) → (a || b) ≡ true → (not a && not b) ≡ false
guard_off a b h = ground arith

-- A valid store whose workspace `ws` has the identifier `wid`.
pub record Ready (ws wid : String) (m : Memory) : Type 0 where
  pub valid : IsValid m
  pub home : Workspace
  pub there : lookup ws m.workspaces ≡ some home
  pub id : home.id ≡ wid

pub Ready-same :
    {ws wid : String} {m m' : Memory}
    → Ready ws wid m
    → IsValid m'
    → m'.workspaces ≡ m.workspaces
    → Ready ws wid m'
Ready-same r v e = record { valid = v; home = r.home; there = rw e r.there; id = r.id }

module _ (ws : String) (m : Memory) where
  abbrev pub Same : Memory → Type 0
  Same x = (x.workspaces ≡ m.workspaces) × (x.teams ≡ m.teams)

  pub put_domain_claim-Same :
      (env : Env) (domain connector : String) → Same (put_domain_claim env ws domain connector m).1
  unfolding put_domain_claim
  put_domain_claim-Same env domain connector =
      with_ws-after Same ws m _ (refl, refl) λ w _. ground arith

  pub mark_domain_verified-Same :
      (domain : String) (at : ℕ) → Same (mark_domain_verified ws domain at m).1
  unfolding mark_domain_verified
  mark_domain_verified-Same domain at = with_ws-after Same ws m _ (refl, refl) λ w _. ground arith

  pub touch_identity-Same : (env : Env) (id : Identity) → Same (touch_identity env ws id m).1
  unfolding touch_identity
  touch_identity-Same env id = with_ws-after Same ws m _ (refl, refl) λ w _. ground arith

  pub set_identity_status-Same :
      (email status : String) → Same (set_identity_status ws email status m).1
  unfolding set_identity_status
  set_identity_status-Same email status = with_ws-after Same ws m _ (refl, refl) λ w _. ground arith

  pub add_grant-Same : (env : Env) (g : Grant) → Same (add_grant env ws g m).1
  unfolding add_grant
  add_grant-Same env g = with_ws-after Same ws m _ (refl, refl) λ w _. ground arith

  pub put_team-workspaces :
      (env : Env) (t : Team) → (put_team env ws t m).1.workspaces ≡ m.workspaces
  unfolding put_team
  put_team-workspaces env t =
      with_ws-after (λ x. x.workspaces ≡ m.workspaces) ws m _ refl λ w _. ground arith

  -- PutTeam removes no team.
  pub put_team-keeps :
      (env : Env) (t : Team) (id name : String)
      → any (is_team id name) m.teams ≡ true
      → any (is_team id name) (put_team env ws t m).1.teams ≡ true
  unfolding put_team
  put_team-keeps env t id name h =
      with_ws-after (λ x. any (is_team id name) x.teams ≡ true) ws m _ h
        λ w _. ground (
          arith,
          any-append (is_team id name) m.teams (new_team env w.id t ∷ []),
          any-update_first (is_team w.id t.name) (is_team id name) (rewritten env t) (λ a. refl)
              m.teams,
        )

module _ (ws wid : String) (m : Memory) (r : Ready ws wid m) where
  pub put_domain_claim-ok :
      (env : Env) (domain connector : String)
      → is_ok (put_domain_claim env ws domain connector m).0 ≡ true
  unfolding put_domain_claim with_ws
  put_domain_claim-ok env domain connector = ground (arith, r.there)

  pub touch_identity-ok : (env : Env) (id : Identity) → is_ok (touch_identity env ws id m).0 ≡ true
  unfolding touch_identity with_ws
  touch_identity-ok env id = ground (arith, r.there)

  -- The team that a search by name finds is not built in, unless it is looked for.
  not_built_in :
      (name : String) (t : Team)
      → (name == team_everyone) ≡ false
      → find? (is_team r.home.id name) m.teams ≡ some t
      → t.everyone ≡ false
  not_built_in name t h e = ground (
    arith,
    find?-passes (is_team r.home.id name) m.teams e,
    All-find? (λ (x : Team). x.everyone ≡ (x.name == team_everyone)) (is_team r.home.id name)
        m.teams r.valid.teams.reserved e,
    eq_iff t.name name,
    eq_iff t.name team_everyone,
    eq_iff name team_everyone,
  )

  -- PutTeam succeeds for every name but the built-in one, and the team is there afterwards.
  pub put_team-ok :
      (env : Env) (t : Team)
      → (t.name == team_everyone) ≡ false
      → (is_ok (put_team env ws t m).0 ≡ true)
        × (any (is_team wid t.name) (put_team env ws t m).1.teams ≡ true)
  unfolding put_team with_ws
  put_team-ok env t h = elim (Option-cases (find? (is_team r.home.id t.name) m.teams)) [
    | inl e ↦
        rw (r.there, e, ← r.id)
          (
            refl,
            unfold any in
                ground (
                  arith,
                  eq_refl r.home.id,
                  eq_refl t.name,
                  any-append (is_team r.home.id t.name) m.teams (new_team env r.home.id t ∷ []),
                ),
          )
    | inr (o, e) ↦
        rw (r.there, e, not_built_in t.name o h e, ← r.id)
          (
            refl,
            any-update_first (is_team r.home.id t.name) (is_team r.home.id t.name) (rewritten env t)
                  (λ a. refl) m.teams
                ∙ find?-some-any _ _ m.teams e (find?-passes _ m.teams e),
          )
  ]

  -- AddGrant stores the grant or finds it there, if its team is known.
  pub add_grant-ok :
      (env : Env) (g : Grant)
      → (g.team == "" || any (is_team wid g.team) m.teams) ≡ true
      → ((add_grant env ws g m).0 ≡ err conflict) ⊎ (is_ok (add_grant env ws g m).0 ≡ true)
  unfolding add_grant with_ws
  add_grant-ok env g h =
      let known =
        subst (λ x. (g.team == "" || any (is_team x g.team) m.teams) ≡ true) (sym r.id) h in
      rw (r.there, guard_off _ _ known)
        (elim (Bool-cases (any (λ x. same_grant x (new_grant env r.home.id g)) m.grants)) [
          | inl e ↦ inl (rw e)
          | inr e ↦ inr (rw e)
        ])

  pub update_workspace-ok :
      (env : Env) (name : String) → is_ok (update_workspace env ws name m).0 ≡ true
  unfolding update_workspace with_ws
  update_workspace-ok env name = ground (arith, r.there)

  pub update_workspace_settings-ok :
      (env : Env) (settings : WorkspaceSettings)
      → is_ok (update_workspace_settings env ws settings m).0 ≡ true
  unfolding update_workspace_settings with_ws
  update_workspace_settings-ok env settings = ground (arith, r.there)

  -- A write to the workspace that keeps its identifier leaves it ready.
  write_workspace-Ready :
      (f : Workspace → Workspace) → IsQuiet f → Ready ws wid (write_workspace ws f m)
  write_workspace-Ready f q = record {
    valid = write_workspace-IsValid f q ws m r.valid;
    home = f r.home;
    there = lookup-update_first ws f m.workspaces r.there;
    id = q.id r.home ∙ r.id;
  }

  pub update_workspace-Ready :
      (env : Env) (name : String) → Ready ws wid (update_workspace env ws name m).1
  unfolding update_workspace with_ws
  update_workspace-Ready env name = rw r.there (
      write_workspace-Ready (λ x. record x { name = name; updated_at = env.now })
        (record { id = λ _. refl; slug = λ _. refl; address = λ _. refl }))

  pub update_workspace_settings-Ready :
      (env : Env) (settings : WorkspaceSettings)
      → Ready ws wid (update_workspace_settings env ws settings m).1
  unfolding update_workspace_settings with_ws
  update_workspace_settings-Ready env settings = rw r.there (
      write_workspace-Ready (λ x. record x { settings = settings; updated_at = env.now })
        (record { id = λ _. refl; slug = λ _. refl; address = λ _. refl }))
