-- ===== src/Store/Valid/Teams.antt =====
-- The methods on teams and the invariant of the store.
use mathlib.Core.Bool.{false≢true}
use mathlib.Core.Path.{subst}
use shpyrd.Common.{
  String, ◌≡◌, refl, sym, ◌∙◌, eq_refl, true, false, not, some, List, [], ◌∷◌, ◌++◌, arith, ◌==◌,
  eq_iff, inl, inr, Bool-cases, any, keep, All, All-map, All-snoc, All-update_first,
  All-delete_first, All-keep_map, IsUnique-snoc, IsUnique-update_first, IsUnique-delete_first,
  IsUnique-keep, any-append, any-update_first, any-delete_first_ne, update_first, delete_first,
  find?, find?-none, find?-passes, lookup, lookup-some-any, Option-cases, All-lookup,
}
use shpyrd.Store.Types.{Workspace, Team, Grant, team_everyone}
use shpyrd.Store.State.{Memory, Env, with_ws-after}
use shpyrd.Store.Teams.{is_team, rewritten, new_team, put_team, given_to, delete_team}
use shpyrd.Store.Grants.{same_grant}
use shpyrd.Store.Workspaces.{is_everyone_of}
use shpyrd.Store.Valid.{Entry, has_id, TeamsValid, same_team, team_known, IsValid}

-- The built-in team of a workspace is the one that is called so.
pub everyone_by_name :
    (id : String) (teams : List Team)
    → All (λ (t : Team). t.everyone ≡ (t.name == team_everyone)) teams
    → any (is_everyone_of id) teams ≡ any (is_team id team_everyone) teams
unfolding any
everyone_by_name id [] h = refl
everyone_by_name id (t ∷ ts) h = rw (h.0, everyone_by_name id ts h.1)

module _ (m : Memory) (v : IsValid m) (teams : List Team) where
  with_teams :
      TeamsValid m.workspaces teams
      → ((g : Grant) → team_known m.teams g ≡ true → team_known teams g ≡ true)
      → IsValid (record m { teams = teams })
  with_teams t k = record {
    workspaces = v.workspaces;
    teams = t;
    grants = record {
      distinct = v.grants.distinct;
      known = All-map (λ (g : Grant). team_known m.teams g ≡ true) _ k m.grants v.grants.known;
    };
    people = v.people;
    claims = v.claims;
    tokens = v.tokens;
    sessions = v.sessions;
  }

module _ (env : Env) (m : Memory) (v : IsValid m) (t : Team) (w : Workspace) where
  rewritten-IsValid :
      IsValid (record m { teams = update_first (is_team w.id t.name) (rewritten env t) m.teams })
  rewritten-IsValid =
      with_teams m v _
        (record {
          names =
              IsUnique-update_first same_team (is_team w.id t.name) (rewritten env t) (λ a b. refl)
                (λ a b. refl) m.teams v.teams.names;
          homes =
              All-update_first (λ (x : Team). any (has_id x.workspace_id) m.workspaces ≡ true)
                (is_team w.id t.name) (rewritten env t) (λ a _ h. h) m.teams v.teams.homes;
          reserved =
              All-update_first (λ (x : Team). x.everyone ≡ (x.name == team_everyone))
                (is_team w.id t.name) (rewritten env t) (λ a _ h. h) m.teams v.teams.reserved;
          present =
              All-map (λ (e : Entry). any (is_everyone_of e.1.id) m.teams ≡ true) _
                (λ e h.
                  any-update_first (is_team w.id t.name) (is_everyone_of e.1.id) (rewritten env t)
                    (λ a. refl) m.teams
                  ∙ h)
                m.workspaces v.teams.present;
        })
        (λ g h.
          rw
            (any-update_first (is_team w.id t.name) (is_team g.workspace_id g.team)
              (rewritten env t) (λ a. refl) m.teams)
            h)

  module _ (slug : String) (there : lookup slug m.workspaces ≡ some w)
      (absent : any (is_team w.id t.name) m.teams ≡ false) where
    -- A name that no team has is not the built-in team's.
    not_reserved : (t.name == team_everyone) ≡ false
    not_reserved = elim (Bool-cases (t.name == team_everyone)) [
      | inr e ↦ e
      | inl e ↦ absurd (
          false≢true (
            sym absent
            ∙ subst (λ n. any (is_team w.id n) m.teams ≡ true) (sym ((eq_iff _ _).0 e))
                (sym (everyone_by_name w.id m.teams v.teams.reserved)
                  ∙ (All-lookup (λ (x : Entry). any (is_everyone_of x.1.id) m.teams ≡ true) slug
                      m.workspaces v.teams.present there).2)))
    ]

    new_team-IsValid : IsValid (record m { teams = m.teams ++ new_team env w.id t ∷ [] })
    new_team-IsValid =
        with_teams m v _
          (record {
            names = IsUnique-snoc same_team m.teams _ absent v.teams.names;
            homes =
                All-snoc (λ (x : Team). any (has_id x.workspace_id) m.workspaces ≡ true) m.teams _
                  v.teams.homes
                  (lookup-some-any slug (λ x. x.id == w.id) m.workspaces there (eq_refl w.id));
            reserved =
                All-snoc (λ (x : Team). x.everyone ≡ (x.name == team_everyone)) m.teams _
                  v.teams.reserved (sym not_reserved);
            present =
                All-map (λ (e : Entry). any (is_everyone_of e.1.id) m.teams ≡ true) _
                  (λ e h.
                    ground (
                      arith,
                      any-append (is_everyone_of e.1.id) m.teams (new_team env w.id t ∷ []),
                    ))
                  m.workspaces v.teams.present;
          })
          (λ g h.
            ground (
              arith,
              any-append (is_team g.workspace_id g.team) m.teams (new_team env w.id t ∷ []),
            ))

-- PutTeam keeps the store valid, whatever the team.
pub put_team-IsValid :
    (env : Env) (ws : String) (t : Team) (m : Memory) → IsValid m → IsValid (put_team env ws t m).1
unfolding put_team
put_team-IsValid env ws t m v = with_ws-after IsValid ws m _ v λ w there.
    elim (Option-cases (find? (is_team w.id t.name) m.teams)) [
      | inl e ↦ rw e (new_team-IsValid env m v t w ws there (find?-none _ m.teams e))
      | inr (o, e) ↦ elim (Bool-cases o.everyone) [
        | inl b ↦ rw (e, b) v
        | inr b ↦ rw (e, b) (rewritten-IsValid env m v t w)
      ]
    ]

module _ (m : Memory) (v : IsValid m) (wid name : String) (t : Team)
    (found : find? (is_team wid name) m.teams ≡ some t) (plain : t.everyone ≡ false) where
  -- A grant that was not given to the deleted team finds its team still there.
  still_known :
      (g : Grant)
      → not (given_to wid name g) ≡ true
      → team_known m.teams g ≡ true
      → team_known (delete_first (is_team wid name) m.teams) g ≡ true
  still_known g kept known = elim (Bool-cases (is_team g.workspace_id g.team t)) [
    | inr e ↦
        rw (any-delete_first_ne (is_team wid name) (is_team g.workspace_id g.team) m.teams found e)
          known
    | inl e ↦ absurd (
        ground (
          arith,
          find?-passes (is_team wid name) m.teams found,
          eq_iff t.workspace_id wid,
          eq_iff t.name name,
          eq_iff t.workspace_id g.workspace_id,
          eq_iff t.name g.team,
          eq_iff g.workspace_id wid,
          eq_iff g.team name,
        ))
  ]

  deleted-IsValid : IsValid (record m {
    teams = delete_first (is_team wid name) m.teams;
    grants = keep (λ g. not (given_to wid name g)) m.grants;
  })
  deleted-IsValid = record {
    workspaces = v.workspaces;
    teams = record {
      names = IsUnique-delete_first same_team (is_team wid name) m.teams v.teams.names;
      homes =
          All-delete_first (λ (x : Team). any (has_id x.workspace_id) m.workspaces ≡ true)
            (is_team wid name) m.teams v.teams.homes;
      reserved =
          All-delete_first (λ (x : Team). x.everyone ≡ (x.name == team_everyone)) (is_team wid name)
            m.teams v.teams.reserved;
      present =
          All-map (λ (e : Entry). any (is_everyone_of e.1.id) m.teams ≡ true) _
            (λ e h.
              any-delete_first_ne (is_team wid name) (is_everyone_of e.1.id) m.teams found
                (ground arith)
              ∙ h)
            m.workspaces v.teams.present;
    };
    grants = record {
      distinct = IsUnique-keep same_grant _ m.grants v.grants.distinct;
      known =
          All-keep_map (λ (g : Grant). team_known m.teams g ≡ true) _ _ still_known m.grants
            v.grants.known;
    };
    people = v.people;
    claims = v.claims;
    tokens = v.tokens;
    sessions = v.sessions;
  }

-- DeleteTeam keeps the store valid: no grant is left that names a team which is gone.
pub delete_team-IsValid :
    (ws name : String) (m : Memory) → IsValid m → IsValid (delete_team ws name m).1
unfolding delete_team
delete_team-IsValid ws name m v = with_ws-after IsValid ws m _ v λ w there.
    elim (Option-cases (find? (is_team w.id name) m.teams)) [
      | inl e ↦ rw e v
      | inr (t, e) ↦ elim (Bool-cases t.everyone) [
        | inl b ↦ rw (e, b) v
        | inr b ↦ rw (e, b) (deleted-IsValid m v w.id name t e b)
      ]
    ]
