-- ===== src/Postgres/Refine.antt =====
-- The tables of pkg/store/postgres.go as a representation of the state of pkg/store/memory.go.
pub mod Teams
pub mod Deletion
pub mod Grants
pub mod Sound
pub mod Links
pub mod Lists
pub mod Runs
use shpyrd.Common.{
  String, ◌≡◌, refl, true, false, Option, none, some, List, [], ◌∷◌, map, arith, inl, inr, ◌==◌,
  any, find?, lookup, not, ◌&&◌, Option-cases, All, IsUnique,
}
use shpyrd.Store.Types.{Workspace, team_everyone}
use shpyrd.Store.State.{Memory, Result, empty_memory, with_ws}
use shpyrd.Store.State
use shpyrd.Postgres.Tables.{
  TeamRow, GrantRow, Database, Answer, ok, err, with_id, is_row, has_row_id, scan_team, scan_grant,
}
use shpyrd.Postgres.Grants.{same_row}

-- The state that the tables stand for: a grant names its team where the table refers to it.
abbrev pub view : Database → Memory
view db = record empty_memory {
  workspaces = map (λ w. (w.slug, w)) db.workspaces;
  teams = map scan_team db.teams;
  grants = map (scan_grant db.teams) db.grants;
}

abbrev pub answer {ℓ} : {A : Type ℓ} → Result A → Answer A
answer (State.ok a) = ok a
answer (State.err e) = err e

-- A method of Postgres answers and leaves what the method of Memory does on the state that the
-- tables stand for.
abbrev pub Refines {ℓ} : {A : Type ℓ} → Answer A × Database → Result A × Memory → Type ℓ
Refines p m = (p.0 ≡ answer m.0) × (view p.1 ≡ m.1)

-- The CHECK and the reference of a row of grants: a grant to a user refers to no team, and another
-- one to a team. Beyond the schema, the team is of the grant's workspace and its name is not empty.
abbrev pub RefersTo : List TeamRow → String → String → Option String → Type 0
RefersTo teams wid user none = (user == "") ≡ false
RefersTo teams wid user (some i) =
    ((user == "") ≡ true)
    × ((t : TeamRow) × (find? (has_row_id i) teams ≡ some t)
        × (t.workspace_id ≡ wid)
        × ((t.name == "") ≡ false))

abbrev pub HasSubject : List TeamRow → GrantRow → Type 0
HasSubject teams g = RefersTo teams g.workspace_id g.user_email g.team_id

-- The row refers to a workspace.
abbrev pub HasWorkspace : List Workspace → String → Type 0
HasWorkspace ws id = any (λ w. w.id == id) ws ≡ true

-- What holds of the rows. The schema has the keys of the three tables, their references to
-- workspaces, the indexes workspaces_address and grants_unique and, of `subjects`, the CHECK and the reference to a team. It
-- says nothing of the rest, which is what the methods keep up: `built_in`, every workspace has its
-- team of everyone; `kinds`, the teams of that name are those of that kind; and of `subjects`, that
-- the team of a grant is of the same workspace and has a name.
pub record IsSound (db : Database) : Type 0 where
  pub workspace_ids : IsUnique (λ a b. a.id == b.id) db.workspaces
  pub workspace_slugs : IsUnique (λ a b. a.slug == b.slug) db.workspaces
  pub workspace_addresses :
      IsUnique (λ a b. not (a.address == "") && a.address == b.address) db.workspaces
  pub team_workspaces : All (λ t. HasWorkspace db.workspaces t.workspace_id) db.teams
  pub grant_workspaces : All (λ g. HasWorkspace db.workspaces g.workspace_id) db.grants
  pub grant_rows : IsUnique same_row db.grants
  pub team_ids : IsUnique (λ a b. a.id == b.id) db.teams
  pub team_names : IsUnique (λ a b. is_row b.workspace_id b.name a) db.teams
  pub built_in : All (λ w. any (is_row w.id team_everyone) db.teams ≡ true) db.workspaces
  pub kinds : All (λ t. (t.kind == "everyone") ≡ (t.name == team_everyone)) db.teams
  pub grant_ids : IsUnique (λ a b. a.id == b.id) db.grants
  pub subjects : All (HasSubject db.teams) db.grants

pub lookup-view :
    (slug : String) (ws : List Workspace)
    → lookup slug (map (λ w. (w.slug, w)) ws) ≡ find? (λ w. w.slug == slug) ws
unfolding lookup find?
lookup-view slug [] = refl
lookup-view slug (w ∷ ws) = ground (arith, lookup-view slug ws)

-- A method refines another one where its body does in the workspace found.
pub with_id-Refines {ℓ} :
    {A : Type ℓ} (slug : String) (db : Database) (p : String → Answer A × Database)
    (m : Workspace → Result A × Memory)
    → ((w : Workspace)
        → find? (λ w. w.slug == slug) db.workspaces ≡ some w
        → Refines (p w.id) (m w))
    → Refines (with_id slug db p) (with_ws slug (view db) m)
unfolding with_id with_ws
with_id-Refines slug db p m h = elim (Option-cases (find? (λ w. w.slug == slug) db.workspaces)) [
  | inl e ↦ rw (lookup-view slug db.workspaces, e) (refl, refl)
  | inr (w, e) ↦ rw (lookup-view slug db.workspaces, e) (h w e)
]
