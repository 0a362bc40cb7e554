-- ===== src/Store/Dump/Total.antt =====
-- When Import goes through to the end.
use shpyrd.Common.{
  ℕ, String, ◌≡◌, refl, sym, ap, ◌∙◌, ◌⊎◌, Bool, true, not, ◌&&◌, ◌||◌, Option, none, some, List,
  arith, ◌==◌, inl, inr, Bool-cases, any,
}
use mathlib.Core.Path.{subst}
use shpyrd.Store.Types.{
  Team, Grant, Identity, DomainClaim, not_found, conflict, built_in, status_suspended,
}
use shpyrd.Store.State.{Memory, Env, Result, ok, err}
use shpyrd.Store.Workspaces.{update_workspace, update_workspace_settings}
use shpyrd.Store.Domains.{put_domain_claim}
use shpyrd.Store.Identities.{touch_identity}
use shpyrd.Store.Teams.{is_team}
use shpyrd.Store.Grants.{add_grant}
use shpyrd.Store.Dump.{
  Dump, ImportResult, State, after_update, verify, after_claim, after_team, is_ok, after_grant,
  after_identity, import_domain, import_grant, import_identity, import_name, import_settings,
  import_workspace,
}
use shpyrd.Store.Dump.Loops.{Succeeds, and_then-Succeeds}
use shpyrd.Store.Dump.Steps
use shpyrd.Store.Dump.Steps.{Ready, Ready-same}
use shpyrd.Store.Dump.Valid.{import_domain-IsValid, import_grant-IsValid, import_identity-IsValid}

module _ {ℓ} {A : Type ℓ} where
  after_update-none :
      (r : ImportResult) (o : Result A × Memory) → is_ok o.0 ≡ true → (after_update r o).0 ≡ none
  after_update-none r (ok a, m) h = refl
  after_update-none r (err e, m) h = ground arith

  after_update-state : (r : ImportResult) (o : Result A × Memory) → (after_update r o).1.1 ≡ o.1
  after_update-state r (ok a, m) = refl
  after_update-state r (err e, m) = refl

verify-same :
    (ws : String) (dc : DomainClaim) (a b : Option ℕ) (m : Memory)
    → (verify ws dc a b m).workspaces ≡ m.workspaces
verify-same ws dc (some at) none m = (Steps.mark_domain_verified-Same ws m dc.domain at).0
verify-same ws dc none b m = refl
verify-same ws dc (some a) (some b) m = refl

after_claim_lem :
    (ws : String) (dc : DomainClaim) (r : ImportResult) (o : Result DomainClaim × Memory)
    → is_ok o.0 ≡ true
    → ((after_claim ws dc r o).0 ≡ none) × ((after_claim ws dc r o).1.1.workspaces ≡ o.1.workspaces)
after_claim_lem ws dc r (ok c, m) h = (refl, verify-same ws dc dc.verified_at c.verified_at m)
after_claim_lem ws dc r (err e, m) h = ground arith

pub after_team_lem :
    (r : ImportResult) (o : Result (Team × Bool) × Memory)
    → is_ok o.0 ≡ true
    → ((after_team r o).0 ≡ none) × ((after_team r o).1.1 ≡ o.1)
after_team_lem r (ok t, m) h = (refl, refl)
after_team_lem r (err e, m) h = ground arith

pub after_grant_lem :
    (r : ImportResult) (o : Result Grant × Memory)
    → (o.0 ≡ err conflict) ⊎ (is_ok o.0 ≡ true)
    → ((after_grant r o).0 ≡ none) × ((after_grant r o).1.1 ≡ o.1)
after_grant_lem r (ok g, m) h = (refl, refl)
after_grant_lem r (err conflict, m) h = (refl, refl)
after_grant_lem r (err not_found, m) h = ground arith
after_grant_lem r (err built_in, m) h = ground arith

after_identity_lem :
    (ws : String) (id : Identity) (r : ImportResult) (o : Result Identity × Memory)
    → is_ok o.0 ≡ true
    → ((after_identity ws id r o).0 ≡ none) × Steps.Same ws o.1 (after_identity ws id r o).1.1
after_identity_lem ws id r (ok x, m) h = (
  refl,
  elim (Bool-cases (id.status == status_suspended)) [
    | inl e ↦ rw e (Steps.set_identity_status-Same ws m id.email status_suspended)
    | inr e ↦ rw e (refl, refl)
  ],
)
after_identity_lem ws id r (err e, m) h = ground arith

module _ (ws wid : String) where
  abbrev pub ReadyState : State → Type 0
  ReadyState s = Ready ws wid s.1

  pub import_domain-Succeeds :
      (envs : ℕ → Env) (i : ℕ) (dc : DomainClaim) (s : State)
      → ReadyState s
      → Succeeds ReadyState (import_domain envs ws i dc s)
  import_domain-Succeeds envs i dc s r =
      let o = put_domain_claim (envs i) ws dc.domain dc.connector s.1 in
      let a =
        after_claim_lem ws dc s.0 o
          (Steps.put_domain_claim-ok ws wid s.1 r (envs i) dc.domain dc.connector) in
      record {
        no_error = unfold import_domain in a.0;
        state = Ready-same r (import_domain-IsValid ws envs i dc s r.valid) (
            unfold import_domain in
            a.1 ∙ (Steps.put_domain_claim-Same ws s.1 (envs i) dc.domain dc.connector).0);
      }

  -- Ready, with these teams.
  pub record ReadyWith (teams : List Team) (s : State) : Type 0 where
    pub ready : ReadyState s
    pub teams_are : s.1.teams ≡ teams

  pub import_identity-Succeeds :
      (envs : ℕ → Env) (teams : List Team) (i : ℕ) (id : Identity) (s : State)
      → ReadyWith teams s
      → Succeeds (ReadyWith teams) (import_identity envs ws i id s)
  import_identity-Succeeds envs teams i id s r =
      let o = touch_identity (envs i) ws id s.1 in
      let a =
        after_identity_lem ws id s.0 o (Steps.touch_identity-ok ws wid s.1 r.ready (envs i) id) in
      let b = Steps.touch_identity-Same ws s.1 (envs i) id in
      record {
        no_error = unfold import_identity in a.0;
        state = record {
          ready =
              Ready-same r.ready (import_identity-IsValid ws envs i id s r.ready.valid)
                (unfold import_identity in a.1.0 ∙ b.0);
          teams_are = unfold import_identity in a.1.1 ∙ b.1 ∙ r.teams_are;
        };
      }

  -- The team of the grant is one of these.
  abbrev pub Known : List Team → Grant → Type 0
  Known teams g = (g.team == "" || any (is_team wid g.team) teams) ≡ true

  pub import_grant-Succeeds :
      (envs : ℕ → Env) (teams : List Team) (i : ℕ) (g : Grant) (s : State)
      → Known teams g
      → ReadyWith teams s
      → Succeeds (ReadyWith teams) (import_grant envs ws i g s)
  import_grant-Succeeds envs teams i g s k r =
      let o = add_grant (envs i) ws g s.1 in
      let a = after_grant_lem s.0 o (
        Steps.add_grant-ok ws wid s.1 r.ready (envs i) g
          (subst (λ ts. Known ts g) (sym r.teams_are) k)) in
      let b = Steps.add_grant-Same ws s.1 (envs i) g in
      record {
        no_error = unfold import_grant in a.0;
        state = record {
          ready =
              Ready-same r.ready (import_grant-IsValid ws envs i g s r.ready.valid)
                (unfold import_grant in ap (λ (x : Memory). x.workspaces) a.1 ∙ b.0);
          teams_are = unfold import_grant in ap (λ (x : Memory). x.teams) a.1 ∙ b.1 ∙ r.teams_are;
        };
      }

  pub import_workspace-Succeeds :
      (envs : ℕ → Env) (d : Dump) (overwrite : Bool) (s : State)
      → ReadyState s
      → Succeeds ReadyState (import_workspace envs ws d overwrite s)
  import_workspace-Succeeds envs d overwrite s r =
      elim (Bool-cases (not (d.workspace.name == "") && overwrite)) [
        | inr e ↦ rw e (record { no_error = refl; state = r })
        | inl e ↦ rw e (
            and_then-Succeeds ReadyState ReadyState (import_name (envs 0) ws d s)
              (import_settings (envs 1) ws d) (name s r) settings)
      ]
    where
      name : (t : State) → ReadyState t → Succeeds ReadyState (import_name (envs 0) ws d t)
      name t q =
          let o = update_workspace (envs 0) ws d.workspace.name t.1 in
          record {
            no_error =
                unfold import_name in
                after_update-none t.0 o
                  (Steps.update_workspace-ok ws wid t.1 q (envs 0) d.workspace.name);
            state =
                unfold import_name in
                rw (after_update-state t.0 o)
                  (Steps.update_workspace-Ready ws wid t.1 q (envs 0) d.workspace.name);
          }

      settings : (t : State) → ReadyState t → Succeeds ReadyState (import_settings (envs 1) ws d t)
      settings t q =
          let o = update_workspace_settings (envs 1) ws d.workspace.settings t.1 in
          record {
            no_error =
                unfold import_settings in
                after_update-none t.0 o
                  (Steps.update_workspace_settings-ok ws wid t.1 q (envs 1) d.workspace.settings);
            state =
                unfold import_settings in
                rw (after_update-state t.0 o) (
                  Steps.update_workspace_settings-Ready ws wid t.1 q (envs 1) d.workspace.settings);
          }
