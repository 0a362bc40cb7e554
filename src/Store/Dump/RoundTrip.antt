-- ===== src/Store/Dump/RoundTrip.antt =====
-- Export and then Import, as a platform backup uses them.
use shpyrd.Common.{
  ℕ, String, ◌≡◌, refl, Bool, true, ◌||◌, none, some, List, [], ◌∷◌, arith, ◌==◌, eq_iff, inl, inr,
  Bool-cases, any, keep, any-sort, lookup, All, All-sort, All-keep_map, sort, text_less,
  Option-cases,
}
use mathlib.Core.Path.{subst}
use shpyrd.Store.Types.{Workspace, Team, Grant, team_everyone, not_found}
use shpyrd.Store.State.{Memory, Env, ok, err, with_ws}
use shpyrd.Store.Domains.{list_domain_claims}
use shpyrd.Store.Identities.{list_identities}
use shpyrd.Store.Teams.{is_team, list_teams}
use shpyrd.Store.Grants.{list_grants, grant_less}
use shpyrd.Store.Valid.{IsValid, team_known}
use shpyrd.Store.Dump.{Dump, import_dump, export}
use shpyrd.Store.Dump.Restore.{IsCoherent, import_dump-Complete}

-- A team of the workspace is found by its name among the workspace's teams.
named_of_listed :
    (wid name : String) (teams : List Team)
    → any (is_team wid name) teams ≡ true
    → any (λ t. t.name == name) (keep (λ t. t.workspace_id == wid) teams) ≡ true
unfolding any keep
named_of_listed wid name [] h = ground arith
named_of_listed wid name (t ∷ ts) h = ground (arith, named_of_listed wid name ts)

module _ (ws : String) (m : Memory) where
  -- The dump of a workspace, written out.
  abbrev exported : Workspace → Dump
  exported w = record {
    version = 1;
    workspace = w;
    identities =
        sort (λ a b. text_less a.email b.email) (keep (λ it. it.workspace_id == w.id) m.identities);
    teams = sort (λ a b. text_less a.name b.name) (keep (λ t. t.workspace_id == w.id) m.teams);
    grants = sort grant_less (keep (λ g. g.workspace_id == w.id) m.grants);
    domains =
        sort (λ a b. text_less a.domain b.domain) (keep (λ d. d.workspace_id == w.id) m.domains);
  }

  export-eq-exported :
      (w : Workspace) → lookup ws m.workspaces ≡ some w → (export ws m).0 ≡ ok (exported w)
  unfolding export with_ws list_teams list_grants list_identities list_domain_claims
  export-eq-exported w f = rw f

  export_missing : lookup ws m.workspaces ≡ none → (export ws m).0 ≡ err not_found
  unfolding export with_ws
  export_missing f = rw f

  exported-IsCoherent : (w : Workspace) → IsValid m → IsCoherent (exported w)
  exported-IsCoherent w v = record {
    reserved = All-sort _ Plain _ (
        All-keep_map Plain Plain (λ t. t.workspace_id == w.id) (λ _ _ h. h) m.teams
          v.teams.reserved);
    known = All-sort grant_less Named _ (
        All-keep_map (λ (g : Grant). team_known m.teams g ≡ true) Named
          (λ g. g.workspace_id == w.id) named m.grants v.grants.known);
  }
    where
      Plain : Team → Type 0
      Plain t = t.everyone ≡ (t.name == team_everyone)

      Named : Grant → Type 0
      Named g = (g.team == "" || any (λ t. t.name == g.team) (exported w).teams) ≡ true

      named : (g : Grant) → (g.workspace_id == w.id) ≡ true → team_known m.teams g ≡ true → Named g
      named g kept h = elim (Bool-cases (g.team == "")) [
        | inl e ↦ rw e refl
        | inr e ↦
            rw (e, any-sort)
              (named_of_listed w.id g.team m.teams (
                subst (λ i. any (is_team i g.team) m.teams ≡ true) ((eq_iff _ _).0 kept)
                  (rw e at h)))
      ]

  -- A workspace of a valid store exports a coherent dump.
  pub export-IsCoherent : (d : Dump) → IsValid m → (export ws m).0 ≡ ok d → IsCoherent d
  export-IsCoherent d v e = elim (Option-cases (lookup ws m.workspaces)) [
    | inl f ↦ absurd (ground (arith, export_missing f))
    | inr (w, f) ↦
        subst IsCoherent (ground (arith, export-eq-exported w f)) (exported-IsCoherent w v)
  ]

-- A dump that was exported from a valid store is imported without an error into any workspace of
-- any valid store, whatever the store holds already and with or without overwriting; afterwards
-- the store is valid, and the workspace has a team under the name of each team of the dump.
pub export-import :
    (source : Memory) (from : String) (d : Dump)
    → IsValid source
    → (export from source).0 ≡ ok d
    → (target : Memory) (to : String) (home : Workspace) → IsValid target
    → lookup to target.workspaces ≡ some home
    → (envs : ℕ → ℕ → Env) (overwrite : Bool)
    → ((import_dump envs to d overwrite target).0 ≡ none)
      × IsValid (import_dump envs to d overwrite target).1.1
      × All
          (λ t.
            any (is_team home.id t.name) (import_dump envs to d overwrite target).1.1.teams ≡ true)
          d.teams
export-import source from d v e target to home w there envs overwrite =
    let s =
      import_dump-Complete to home.id envs d overwrite (export-IsCoherent from source d v e) target
        (record { valid = w; home = home; there = there; id = refl }) in
    (s.no_error, s.state.ready.valid, s.state.teams)
