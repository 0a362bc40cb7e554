-- ===== src/Postgres/Refine/Links.antt =====
-- The references from grants to teams, after DeleteTeam and AddGrant of pkg/store/postgres.go.
use shpyrd.Common.{
  String, ◌≡◌, refl, sym, ap, ◌∙◌, true, false, not, Option, none, some, arith, inl, inr, ◌==◌,
  eq_iff, eq_refl, eq_comm, any, keep, find?, find?-none, find?-some-any, Bool-cases, Option-cases,
  All-map, All-snoc, All-keep_map, IsUnique-snoc, IsUnique-keep, any-keep_kept,
}
use shpyrd.Store.Types.{Workspace, Grant, team_everyone}
use shpyrd.Store.State.{Env}
use shpyrd.Postgres.Tables.{TeamRow, Database, is_row, has_row_id}
use shpyrd.Postgres.Teams.{delete_team, falls_with, refers}
use shpyrd.Postgres.Grants.{insert_row, add_grant, has_one_subject, new_row, same_row}
use shpyrd.Postgres.Refine.{HasWorkspace, HasSubject, IsSound}
use shpyrd.Postgres.Refine.Deletion.{team_stays}
use shpyrd.Postgres.Refine.Grants.{row_by_name}
use shpyrd.Postgres.Refine.Sound.{with_id-IsSound, RefersTo-map, All-keep, HasWorkspace-found}

module _ (ws name : String) (db : Database) (sound : IsSound db)
    (named : (name == "") ≡ false) where
  cut-IsSound :
      (w : Workspace)
      → (name == team_everyone) ≡ false
      → IsSound (record db {
        teams = keep (λ t. not (is_row w.id name t)) db.teams;
        grants = keep (λ g. not (falls_with (keep (is_row w.id name) db.teams) g)) db.grants;
      })
  cut-IsSound w other = record {
    workspace_ids = sound.workspace_ids;
    workspace_slugs = sound.workspace_slugs;
    workspace_addresses = sound.workspace_addresses;
    team_workspaces = All-keep _ _ db.teams sound.team_workspaces;
    grant_workspaces = All-keep _ _ db.grants sound.grant_workspaces;
    grant_rows = IsUnique-keep same_row _ db.grants sound.grant_rows;
    team_ids = IsUnique-keep (λ a b. a.id == b.id) _ db.teams sound.team_ids;
    team_names = IsUnique-keep (λ a b. is_row b.workspace_id b.name a) _ db.teams sound.team_names;
    built_in =
        All-map _ _
          (λ v h.
            any-keep_kept _ (is_row v.id team_everyone)
              (λ a h. ground (
                arith,
                eq_iff a.name team_everyone,
                eq_iff a.name name,
                eq_comm team_everyone name,
              ))
              db.teams
            ∙ h)
          db.workspaces sound.built_in;
    kinds = All-keep _ _ db.teams sound.kinds;
    grant_ids = IsUnique-keep (λ a b. a.id == b.id) _ db.grants sound.grant_ids;
    subjects =
        All-keep_map (HasSubject db.teams) _ _
          (λ g k h.
            RefersTo-map db.teams _ g.workspace_id g.user_email g.team_id
              (λ i a r e. (
                a,
                team_stays w.id name db.teams sound.team_ids named i e (
                    ap (λ r. not (any (λ t. refers t.id r) (keep (is_row w.id name) db.teams)))
                      (sym r)
                    ∙ k),
                refl,
                refl,
              ))
              h)
          db.grants sound.subjects;
  }

  -- DeleteTeam keeps IsSound.
  pub delete_team-IsSound : IsSound (delete_team ws name db).1
  unfolding delete_team
  delete_team-IsSound = with_id-IsSound ws db _ sound λ w there.
      elim (Bool-cases (name == team_everyone)) [
        | inl n ↦ rw n sound
        | inr n ↦ elim (Bool-cases (any (is_row w.id name) db.teams)) [
          | inl f ↦ rw (n, f) (cut-IsSound w n)
          | inr f ↦ rw (n, f) sound
        ]
      ]

module _ (env : Env) (ws : String) (g : Grant) (db : Database) (sound : IsSound db) where
  insert_row-IsSound :
      (wid : String) (r : Option String)
      → HasWorkspace db.workspaces wid
      → (has_one_subject (new_row env wid g r) ≡ true → HasSubject db.teams (new_row env wid g r))
      → IsSound (insert_row (new_row env wid g r) db).1
  insert_row-IsSound wid r home has = elim (Bool-cases (has_one_subject (new_row env wid g r))) [
    | inr c ↦ rw c sound
    | inl c ↦ elim (Bool-cases (any (λ e. e.id == env.uuid 0) db.grants)) [
      | inl f ↦ rw (c, f) sound
      | inr f ↦ elim (Bool-cases (any (λ e. same_row e (new_row env wid g r)) db.grants)) [
        | inl d ↦ rw (c, f, d) sound
        | inr d ↦
            rw (c, f, d)
              record {
                workspace_ids = sound.workspace_ids;
                workspace_slugs = sound.workspace_slugs;
                workspace_addresses = sound.workspace_addresses;
                team_workspaces = sound.team_workspaces;
                grant_workspaces =
                    All-snoc (λ g. HasWorkspace db.workspaces g.workspace_id) db.grants
                      (new_row env wid g r) sound.grant_workspaces home;
                grant_rows =
                    IsUnique-snoc same_row db.grants (new_row env wid g r) d sound.grant_rows;
                team_ids = sound.team_ids;
                team_names = sound.team_names;
                built_in = sound.built_in;
                kinds = sound.kinds;
                grant_ids =
                    IsUnique-snoc (λ a b. a.id == b.id) db.grants (new_row env wid g r) f
                      sound.grant_ids;
                subjects =
                    All-snoc (HasSubject db.teams) db.grants (new_row env wid g r) sound.subjects
                      (has c);
              }
      ]
    ]
  ]

  team-HasSubject :
      (wid : String) {t : TeamRow}
      → find? (is_row wid g.team) db.teams ≡ some t
      → (g.team == "") ≡ false
      → has_one_subject (new_row env wid g (some t.id)) ≡ true
      → HasSubject db.teams (new_row env wid g (some t.id))
  team-HasSubject wid {t} e k c = elim (Option-cases (find? (has_row_id t.id) db.teams)) [
    | inl f ↦ absurd (
        ground (
          arith,
          find?-none (has_row_id t.id) db.teams f,
          eq_refl t.id,
          find?-some-any (is_row wid g.team) (has_row_id t.id) db.teams e,
        ))
    | inr (u, f) ↦
        let same : is_row wid g.team u ≡ true =
          row_by_name env ws g db sound wid t.id e f ∙ eq_refl t.id in
        (
          c,
          (
            u,
            f,
            ground (arith, same, eq_iff u.workspace_id wid),
            ground (arith, same, k, eq_iff u.name g.team),
          ),
        )
  ]

  -- AddGrant keeps IsSound.
  pub add_grant-IsSound : IsSound (add_grant env ws g db).1
  unfolding add_grant
  add_grant-IsSound = with_id-IsSound ws db _ sound λ w there. elim (Bool-cases (g.team == "")) [
    | inl k ↦ rw k (
        insert_row-IsSound w.id none (HasWorkspace-found ws db.workspaces there)
          (λ c. ground (arith, c)))
    | inr k ↦ elim (Option-cases (find? (is_row w.id g.team) db.teams)) [
      | inl e ↦ rw (k, e) sound
      | inr (t, e) ↦
          rw (k, e)
            (insert_row-IsSound w.id (some t.id) (HasWorkspace-found ws db.workspaces there)
              (team-HasSubject w.id e k))
    ]
  ]
