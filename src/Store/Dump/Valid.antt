-- ===== src/Store/Dump/Valid.antt =====
-- importDump and the invariant of the store.
use shpyrd.Common.{ℕ, String, Bool, not, ◌&&◌, ◌||◌, Option, none, some, ◌==◌, inl, inr, Bool-cases}
use shpyrd.Store.Types.{
  Team, Grant, Identity, DomainClaim, not_found, conflict, built_in, team_everyone,
  status_suspended,
}
use shpyrd.Store.State.{Memory, Env, Result, ok, err}
use shpyrd.Store.Workspaces.{update_workspace, update_workspace_settings}
use shpyrd.Store.Teams.{get_team}
use shpyrd.Store.Valid.{IsValid}
use shpyrd.Store.Valid.Workspaces.{update_workspace-IsValid, update_workspace_settings-IsValid}
use shpyrd.Store.Valid.Teams.{put_team-IsValid}
use shpyrd.Store.Valid.Grants.{add_grant-IsValid}
use shpyrd.Store.Valid.People.{touch_identity-IsValid, set_identity_status-IsValid}
use shpyrd.Store.Valid.Others.{put_domain_claim-IsValid, mark_domain_verified-IsValid}
use shpyrd.Store.Dump.{
  Dump, ImportResult, State, after_update, verify, after_claim, after_team, is_ok, after_grant,
  after_identity, import_domain, import_team, import_grant, import_identity, import_name,
  import_settings, import_workspace, nothing_yet, parts, import_dump,
}
use shpyrd.Store.Dump.Loops.{and_then-keeps, in_turn-keeps, for_each-keeps}

abbrev IsValidState : State → Type 0
IsValidState s = IsValid s.1

module _ {ℓ} {A : Type ℓ} where
  after_update-IsValid :
      (r : ImportResult) (o : Result A × Memory) → IsValid o.1 → IsValid (after_update r o).1.1
  after_update-IsValid r (ok a, m) v = v
  after_update-IsValid r (err e, m) v = v

verify-IsValid :
    (ws : String) (dc : DomainClaim) (a b : Option ℕ) (m : Memory)
    → IsValid m
    → IsValid (verify ws dc a b m)
verify-IsValid ws dc (some at) none m v = mark_domain_verified-IsValid m v ws dc.domain at
verify-IsValid ws dc none b m v = v
verify-IsValid ws dc (some a) (some b) m v = v

after_claim-IsValid :
    (ws : String) (dc : DomainClaim) (r : ImportResult) (o : Result DomainClaim × Memory)
    → IsValid o.1
    → IsValid (after_claim ws dc r o).1.1
after_claim-IsValid ws dc r (ok c, m) v = verify-IsValid ws dc dc.verified_at c.verified_at m v
after_claim-IsValid ws dc r (err e, m) v = v

after_team-IsValid :
    (r : ImportResult) (o : Result (Team × Bool) × Memory)
    → IsValid o.1
    → IsValid (after_team r o).1.1
after_team-IsValid r (ok t, m) v = v
after_team-IsValid r (err e, m) v = v

after_grant-IsValid :
    (r : ImportResult) (o : Result Grant × Memory) → IsValid o.1 → IsValid (after_grant r o).1.1
after_grant-IsValid r (ok g, m) v = v
after_grant-IsValid r (err conflict, m) v = v
after_grant-IsValid r (err not_found, m) v = v
after_grant-IsValid r (err built_in, m) v = v

after_identity-IsValid :
    (ws : String) (id : Identity) (r : ImportResult) (o : Result Identity × Memory)
    → IsValid o.1
    → IsValid (after_identity ws id r o).1.1
after_identity-IsValid ws id r (ok x, m) v = elim (Bool-cases (id.status == status_suspended)) [
  | inl e ↦ rw e (set_identity_status-IsValid m v ws id.email status_suspended)
  | inr e ↦ rw e v
]
after_identity-IsValid ws id r (err e, m) v = v

module _ (ws : String) where
  pub import_domain-IsValid :
      (envs : ℕ → Env) (i : ℕ) (dc : DomainClaim) (s : State)
      → IsValidState s
      → IsValidState (import_domain envs ws i dc s).1
  unfolding import_domain
  import_domain-IsValid envs i dc s v =
      after_claim-IsValid ws dc s.0 _
        (put_domain_claim-IsValid s.1 v (envs i) ws dc.domain dc.connector)

  pub import_team-IsValid :
      (envs : ℕ → Env) (overwrite : Bool) (i : ℕ) (t : Team) (s : State)
      → IsValidState s
      → IsValidState (import_team envs ws overwrite i t s).1
  unfolding import_team
  import_team-IsValid envs overwrite i t s v =
      elim (Bool-cases (t.everyone || t.name == team_everyone)) [
        | inl e ↦ rw e v
        | inr e ↦ elim (Bool-cases (not overwrite && is_ok (get_team ws t.name s.1).0)) [
          | inl f ↦ rw (e, f) v
          | inr f ↦ rw (e, f) (after_team-IsValid s.0 _ (put_team-IsValid (envs i) ws t s.1 v))
        ]
      ]

  pub import_grant-IsValid :
      (envs : ℕ → Env) (i : ℕ) (g : Grant) (s : State)
      → IsValidState s
      → IsValidState (import_grant envs ws i g s).1
  unfolding import_grant
  import_grant-IsValid envs i g s v =
      after_grant-IsValid s.0 _ (add_grant-IsValid s.1 v (envs i) ws g)

  pub import_identity-IsValid :
      (envs : ℕ → Env) (i : ℕ) (id : Identity) (s : State)
      → IsValidState s
      → IsValidState (import_identity envs ws i id s).1
  unfolding import_identity
  import_identity-IsValid envs i id s v =
      after_identity-IsValid ws id s.0 _ (touch_identity-IsValid s.1 v (envs i) ws id)

  import_name-IsValid :
      (env : Env) (d : Dump) (s : State) → IsValidState s → IsValidState (import_name env ws d s).1
  unfolding import_name
  import_name-IsValid env d s v =
      after_update-IsValid s.0 (update_workspace env ws d.workspace.name s.1)
        (update_workspace-IsValid env ws s.1 v d.workspace.name)

  import_settings-IsValid :
      (env : Env) (d : Dump) (s : State)
      → IsValidState s
      → IsValidState (import_settings env ws d s).1
  unfolding import_settings
  import_settings-IsValid env d s v =
      after_update-IsValid s.0 (update_workspace_settings env ws d.workspace.settings s.1)
        (update_workspace_settings-IsValid env ws s.1 v d.workspace.settings)

  pub import_workspace-IsValid :
      (envs : ℕ → Env) (d : Dump) (overwrite : Bool) (s : State)
      → IsValidState s
      → IsValidState (import_workspace envs ws d overwrite s).1
  import_workspace-IsValid envs d overwrite s v =
      elim (Bool-cases (not (d.workspace.name == "") && overwrite)) [
        | inr e ↦ rw e v
        | inl e ↦ rw e (
            and_then-keeps IsValidState (import_name (envs 0) ws d s)
              (import_settings (envs 1) ws d) (import_name-IsValid (envs 0) d s v)
              (import_settings-IsValid (envs 1) d))
      ]

  -- Importing any dump into a valid store, with an error or without, keeps the store valid.
  pub import_dump-IsValid :
      (envs : ℕ → ℕ → Env) (d : Dump) (overwrite : Bool) (m : Memory)
      → IsValid m
      → IsValid (import_dump envs ws d overwrite m).1.1
  unfolding import_dump
  import_dump-IsValid envs d overwrite m v =
      in_turn-keeps IsValidState (parts envs ws d overwrite)
        (
          import_workspace-IsValid (envs 0) d overwrite,
          (
            for_each-keeps IsValidState (import_domain (envs 1) ws) (import_domain-IsValid (envs 1))
                0 d.domains,
            (
              for_each-keeps IsValidState (import_team (envs 2) ws overwrite)
                  (import_team-IsValid (envs 2) overwrite) 0 d.teams,
              (
                for_each-keeps IsValidState (import_grant (envs 3) ws)
                    (import_grant-IsValid (envs 3)) 0 d.grants,
                (
                  for_each-keeps IsValidState (import_identity (envs 4) ws)
                      (import_identity-IsValid (envs 4)) 0 d.identities,
                  tt,
                ),
              ),
            ),
          ),
        )
        (nothing_yet, m) v
