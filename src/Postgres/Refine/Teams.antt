-- ===== src/Postgres/Refine/Teams.antt =====
-- PutTeam and DeleteTeam of pkg/store/postgres.go, against those of pkg/store/memory.go.
use shpyrd.Common.{
  String, ◌≡◌, refl, ap, ◌∙◌, Bool, true, false, Option, none, some, List, [], ◌∷◌, ◌++◌, arith,
  inl, inr, ◌==◌, eq_iff, any, find?, find?-none, find?-passes, &&-eq-true, Bool-cases,
  Option-cases, All-find?, All-Unit, update_first, find?-map, update_first-map, map_same,
  map-append, find?-append,
}
use shpyrd.Store.Types.{Workspace, Team, team_everyone}
use shpyrd.Store.State.{Env}
use shpyrd.Store.Teams
use shpyrd.Store.Teams.{is_team}
use shpyrd.Postgres.Tables.{
  TeamRow, Database, is_row, has_row_id, team_name, scan_team, scan_grant, name_or_empty,
}
use shpyrd.Postgres.Teams.{put_team, inserted, updated}
use shpyrd.Postgres.Refine.{view, Refines, RefersTo, HasSubject, IsSound, with_id-Refines}

-- A new row changes the name of no team that a grant refers to.
team_name-append :
    (teams : List TeamRow) (row : TeamRow) (wid user : String) (r : Option String)
    → RefersTo teams wid user r
    → team_name (teams ++ row ∷ []) r ≡ team_name teams r
team_name-append teams row wid user none h = refl
team_name-append teams row wid user (some i) h =
    let found = h.1.1 in rw (find?-append (has_row_id i) teams (row ∷ []) found, found) refl

name-update :
    (env : Env) (t : Team) (p : TeamRow → Bool) (i : String) (xs : List TeamRow)
    → name_or_empty (find? (has_row_id i) (update_first p (updated env t) xs))
      ≡ name_or_empty (find? (has_row_id i) xs)
unfolding find? update_first
name-update env t p i [] = refl
name-update env t p i (x ∷ xs) = ground (arith, name-update env t p i xs)

-- Nor does an UPDATE that leaves identifiers and names alone.
team_name-update :
    (env : Env) (t : Team) (p : TeamRow → Bool) (teams : List TeamRow) (r : Option String)
    → team_name (update_first p (updated env t) teams) r ≡ team_name teams r
team_name-update env t p teams none = refl
team_name-update env t p teams (some i) = name-update env t p i teams

pub find?-is_row :
    (wid name : String) (teams : List TeamRow) {row : TeamRow}
    → find? (is_row wid name) teams ≡ some row
    → ((row.workspace_id == wid) ≡ true) × ((row.name == name) ≡ true)
find?-is_row wid name teams {row} e =
    &&-eq-true (row.workspace_id == wid) (row.name == name) (find?-passes (is_row wid name) teams e)

module _ (env : Env) (ws : String) (t : Team) (db : Database) (sound : IsSound db) where
  inserted-view :
      (w : Workspace)
      → view (record db { teams = db.teams ++ inserted env w.id t ∷ [] })
        ≡ record (view db) { teams = (view db).teams ++ Teams.new_team env w.id t ∷ [] }
  inserted-view w = ground (
    arith,
    map-append scan_team db.teams (inserted env w.id t ∷ []),
    map_same (HasSubject db.teams) (scan_grant (db.teams ++ inserted env w.id t ∷ []))
        (scan_grant db.teams)
        (λ g h.
          ap (λ n. record (scan_grant [] g) { team = n })
            (team_name-append db.teams (inserted env w.id t) g.workspace_id g.user_email g.team_id
              h))
        db.grants sound.subjects,
  )

  updated-view :
      (w : Workspace)
      → view (record db { teams = update_first (is_row w.id t.name) (updated env t) db.teams })
        ≡ record (view db) {
          teams = update_first (is_team w.id t.name) (Teams.rewritten env t) (view db).teams;
        }
  updated-view w = ground (
    arith,
    update_first-map scan_team (is_team w.id t.name) (Teams.rewritten env t) (updated env t)
        (λ a. refl) db.teams,
    map_same (λ g. Unit {0})
        (scan_grant (update_first (is_row w.id t.name) (updated env t) db.teams))
        (scan_grant db.teams)
        (λ g h.
          ap (λ n. record (scan_grant [] g) { team = n })
            (team_name-update env t (is_row w.id t.name) db.teams g.team_id))
        db.grants (All-Unit db.grants),
  )

  -- PutTeam of Postgres refines PutTeam of Memory, if the identifier drawn is new.
  pub put_team-Refines :
      any (has_row_id (env.uuid 0)) db.teams ≡ false
      → Refines (put_team env ws t db) (Teams.put_team env ws t (view db))
  unfolding put_team Teams.put_team
  put_team-Refines fresh = with_id-Refines ws db _ _ λ w there.
      let seen = find?-map scan_team (is_team w.id t.name) db.teams in
      let present =
        All-find? (λ w. any (is_row w.id team_everyone) db.teams ≡ true) _ db.workspaces
          sound.built_in there in
      elim (Option-cases (find? (is_row w.id t.name) db.teams)) [
        | inl e ↦ elim (Bool-cases (t.name == team_everyone)) [
          | inl n ↦ absurd (
              ground (
                arith,
                find?-none (is_row w.id t.name) db.teams e,
                present,
                (eq_iff t.name team_everyone).0 n,
              ))
          | inr n ↦ rw (n, e, fresh, seen, e) (refl, inserted-view w)
        ]
        | inr (row, e) ↦
            let kind =
              All-find? (λ t. (t.kind == "everyone") ≡ (t.name == team_everyone)) _ db.teams
                sound.kinds e in
            let named = (eq_iff row.name t.name).0 (find?-is_row w.id t.name db.teams e).1 in
            elim (Bool-cases (t.name == team_everyone)) [
              | inl n ↦
                  let k : (row.kind == "everyone") ≡ true =
                    kind ∙ ap (λ s. s == team_everyone) named ∙ n in
                  rw (n, seen, e, k) (refl, refl)
              | inr n ↦
                  let k : (row.kind == "everyone") ≡ false =
                    kind ∙ ap (λ s. s == team_everyone) named ∙ n in
                  rw (n, e, seen, e, k) (refl, updated-view w)
            ]
      ]
