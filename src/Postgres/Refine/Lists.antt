-- ===== src/Postgres/Refine/Lists.antt =====
-- GetTeam, ListTeams, ListGrants and ListProjectGrants of pkg/store/postgres.go, against those of
-- pkg/store/memory.go.
use mathlib.Core.List.{Perm}
use mathlib.Core.List.Perm
use shpyrd.Common.{
  String, ◌≡◌, refl, sym, Bool, ◌&&◌, List, map, arith, inl, inr, ◌==◌, keep, keep-map, find?,
  find?-map, Option-cases, text_less, sort, sort-map, sort-perm, keep-sort, keep-keep,
}
use shpyrd.Store.Types.{Grant}
use shpyrd.Store.State.{Result, with_ws}
use shpyrd.Store.State
use shpyrd.Store.Teams
use shpyrd.Store.Teams.{is_team}
use shpyrd.Store.Grants
use shpyrd.Store.Grants.{grant_less}
use shpyrd.Postgres.Tables.{
  Database, Answer, ok, err, failed, with_id, is_row, scan_team, scan_grant,
}
use shpyrd.Postgres.Teams.{get_team, list_teams}
use shpyrd.Postgres.Grants.{list_grants, list_project_grants, row_less}
use shpyrd.Postgres.Refine.{view, Refines, with_id-Refines, lookup-view}

-- The same grants, in any order, or the same error.
abbrev pub SameGrants : Answer (List Grant) → Result (List Grant) → Type 0
SameGrants (ok xs) (State.ok ys) = Perm xs ys
SameGrants (ok xs) (State.err e) = ⊥
SameGrants (err e) (State.ok ys) = ⊥
SameGrants (err e) (State.err f) = e ≡ f
SameGrants failed r = ⊥

module _ (ws : String) (db : Database) where
  -- GetTeam of Postgres refines that of Memory.
  pub get_team-Refines :
      (name : String) → Refines (get_team ws name db) (Teams.get_team ws name (view db))
  unfolding get_team Teams.get_team
  get_team-Refines name = with_id-Refines ws db _ _ λ w there.
      let seen = find?-map scan_team (is_team w.id name) db.teams in
      elim (Option-cases (find? (is_row w.id name) db.teams)) [
        | inl e ↦ rw (seen, e) (refl, refl)
        | inr (row, e) ↦ rw (seen, e) (refl, refl)
      ]

  -- ListTeams of Postgres refines that of Memory.
  pub list_teams-Refines : Refines (list_teams ws db) (Teams.list_teams ws (view db))
  unfolding list_teams Teams.list_teams
  list_teams-Refines = with_id-Refines ws db _ _ λ w there. (
    ground (
      arith,
      keep-map scan_team (λ t. t.workspace_id == w.id) db.teams,
      sort-map scan_team (λ a b. text_less a.name b.name)
          (keep (λ t. t.workspace_id == w.id) db.teams),
    ),
    refl,
  )

  -- What a query returns, and the same grants in the order of sortGrants.
  both_sorted :
      (p : Grant → Bool)
      → Perm
          (sort row_less
            (map (scan_grant db.teams) (keep (λ g. p (scan_grant db.teams g)) db.grants)))
          (sort grant_less (keep p (map (scan_grant db.teams) db.grants)))
  both_sorted p =
      rw (keep-map (scan_grant db.teams) p db.grants)
        (Perm.trans (sort-perm row_less _) (Perm.symm (sort-perm grant_less _)))

  -- ListGrants of Postgres lists the grants that ListGrants of Memory lists.
  pub list_grants-Refines :
      SameGrants (list_grants ws db).0 (Grants.list_grants ws (view db)).0
      × (view (list_grants ws db).1 ≡ (Grants.list_grants ws (view db)).1)
  unfolding list_grants Grants.list_grants with_id with_ws
  list_grants-Refines = elim (Option-cases (find? (λ w. w.slug == ws) db.workspaces)) [
    | inl e ↦ rw (lookup-view ws db.workspaces, e) (refl, refl)
    | inr (w, e) ↦
        rw (lookup-view ws db.workspaces, e) (both_sorted (λ g. g.workspace_id == w.id), refl)
  ]

  -- ListProjectGrants of Postgres lists the grants that ListProjectGrants of Memory lists.
  pub list_project_grants-Refines :
      (project : String)
      → SameGrants
          (list_project_grants ws project db).0
          (Grants.list_project_grants ws project (view db)).0
        × (view (list_project_grants ws project db).1
            ≡ (Grants.list_project_grants ws project (view db)).1)
  unfolding list_project_grants Grants.list_project_grants Grants.list_grants with_id with_ws
  list_project_grants-Refines project =
      elim (Option-cases (find? (λ w. w.slug == ws) db.workspaces)) [
        | inl e ↦ rw (lookup-view ws db.workspaces, e) (refl, refl)
        | inr (w, e) ↦
            rw (lookup-view ws db.workspaces, e)
              (
                Perm.trans (both_sorted (λ g. g.workspace_id == w.id && g.project == project)) (
                    Perm.trans (sort-perm grant_less _) (
                      rw
                        (sym (
                          keep-keep (λ g. g.workspace_id == w.id) (λ g. g.project == project)
                            (view db).grants))
                        (Perm.symm (
                          keep-sort grant_less (λ g. g.project == project)
                            (keep (λ g. g.workspace_id == w.id) (view db).grants))))),
                refl,
              )
      ]
