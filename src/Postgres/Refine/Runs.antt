-- ===== src/Postgres/Refine/Runs.antt =====
-- Calls of the methods on teams and grants one after the other, on the tables of
-- pkg/store/postgres.go and on the state of pkg/store/memory.go.
use shpyrd.Common.{
  String, ◌≡◌, refl, sym, Bool, false, not, Option-cases, inl, inr, find?, List, [], ◌∷◌, ◌==◌, any,
  to_lower, trim_space,
}
use shpyrd.Store.Types.{Team, Grant}
use shpyrd.Store.State.{Memory, Env, Result}
use shpyrd.Store.Teams
use shpyrd.Store.Grants
use shpyrd.Postgres.Tables.{Database, Answer, is_row, has_row_id}
use shpyrd.Postgres.Teams as TeamTable
use shpyrd.Postgres.Grants as GrantTable
use shpyrd.Postgres.Refine.{view, answer, IsSound}
use shpyrd.Postgres.Refine.Teams.{put_team-Refines}
use shpyrd.Postgres.Refine.Deletion.{delete_team-Refines}
use shpyrd.Postgres.Refine.Grants.{
  add_grant-Refines, delete_grant-Refines, delete_project_grants-Refines,
}
use shpyrd.Postgres.Refine.Lists.{
  SameGrants, get_team-Refines, list_teams-Refines, list_grants-Refines,
  list_project_grants-Refines,
}
use shpyrd.Postgres.Refine.Sound.{
  with_id-IsSound, put_team-IsSound, delete_grant-IsSound, delete_project_grants-IsSound,
}
use shpyrd.Postgres.Refine.Links.{delete_team-IsSound, add_grant-IsSound}

pub data Call : Type 0 where
  put_team : String → Team → Call
  get_team delete_team : String → String → Call
  list_teams list_grants : String → Call
  add_grant : String → Grant → Call
  delete_grant delete_project_grants list_project_grants : String → String → Call

-- What the call returns beside an error.
abbrev pub Returns : Call → Type 0
Returns (put_team s t) = Team × Bool
Returns (get_team s n) = Team
Returns (delete_team s n) = Unit
Returns (list_teams s) = List Team
Returns (list_grants s) = List Grant
Returns (add_grant s g) = Grant
Returns (delete_grant s i) = Unit
Returns (delete_project_grants s p) = Unit
Returns (list_project_grants s p) = List Grant

-- The call on the tables.
abbrev pub query : Env → (c : Call) → Database → Answer (Returns c) × Database
query env (put_team s t) db = TeamTable.put_team env s t db
query env (get_team s n) db = TeamTable.get_team s n db
query env (delete_team s n) db = TeamTable.delete_team s n db
query env (list_teams s) db = TeamTable.list_teams s db
query env (list_grants s) db = GrantTable.list_grants s db
query env (add_grant s g) db = GrantTable.add_grant env s g db
query env (delete_grant s i) db = GrantTable.delete_grant s i db
query env (delete_project_grants s p) db = GrantTable.delete_project_grants s p db
query env (list_project_grants s p) db = GrantTable.list_project_grants s p db

-- The call on the state.
abbrev pub method : Env → (c : Call) → Memory → Result (Returns c) × Memory
method env (put_team s t) m = Teams.put_team env s t m
method env (get_team s n) m = Teams.get_team s n m
method env (delete_team s n) m = Teams.delete_team s n m
method env (list_teams s) m = Teams.list_teams s m
method env (list_grants s) m = Grants.list_grants s m
method env (add_grant s g) m = Grants.add_grant env s g m
method env (delete_grant s i) m = Grants.delete_grant s i m
method env (delete_project_grants s p) m = Grants.delete_project_grants s p m
method env (list_project_grants s p) m = Grants.list_project_grants s p m

-- Two answers to a call are the same. A list of grants may be in another order.
abbrev pub SameAnswer : (c : Call) → Answer (Returns c) → Result (Returns c) → Type 0
SameAnswer (put_team s t) a r = a ≡ answer r
SameAnswer (get_team s n) a r = a ≡ answer r
SameAnswer (delete_team s n) a r = a ≡ answer r
SameAnswer (list_teams s) a r = a ≡ answer r
SameAnswer (list_grants s) a r = SameGrants a r
SameAnswer (add_grant s g) a r = a ≡ answer r
SameAnswer (delete_grant s i) a r = a ≡ answer r
SameAnswer (delete_project_grants s p) a r = a ≡ answer r
SameAnswer (list_project_grants s p) a r = SameGrants a r

-- What a call is made with: an identifier that no row has, a name, and a grant to a user or to a
-- team and not both.
abbrev pub Admits : Database → Env → Call → Type 0
Admits db env (put_team s t) = any (has_row_id (env.uuid 0)) db.teams ≡ false
Admits db env (get_team s n) = Unit
Admits db env (delete_team s n) = (n == "") ≡ false
Admits db env (list_teams s) = Unit
Admits db env (list_grants s) = Unit
Admits db env (add_grant s g) =
    (any (λ e. e.id == env.uuid 0) db.grants ≡ false)
    × ((to_lower (trim_space g.user) == "") ≡ not (g.team == ""))
Admits db env (delete_grant s i) = Unit
Admits db env (delete_project_grants s p) = Unit
Admits db env (list_project_grants s p) = Unit

query-Refines :
    (env : Env) (c : Call) (db : Database)
    → IsSound db
    → Admits db env c
    → SameAnswer c (query env c db).0 (method env c (view db)).0
      × (view (query env c db).1 ≡ (method env c (view db)).1)
query-Refines env (put_team s t) db h k = put_team-Refines env s t db h k
query-Refines env (get_team s n) db h k = get_team-Refines s db n
query-Refines env (delete_team s n) db h k = delete_team-Refines s n db h k
query-Refines env (list_teams s) db h k = list_teams-Refines s db
query-Refines env (list_grants s) db h k = list_grants-Refines s db
query-Refines env (add_grant s g) db h k = add_grant-Refines env s g db h k.0 k.1
query-Refines env (delete_grant s i) db h k = delete_grant-Refines s db i h
query-Refines env (delete_project_grants s p) db h k = delete_project_grants-Refines s db p
query-Refines env (list_project_grants s p) db h k = list_project_grants-Refines s db p

query-IsSound :
    (env : Env) (c : Call) (db : Database)
    → IsSound db
    → Admits db env c
    → IsSound (query env c db).1
unfolding TeamTable.get_team TeamTable.list_teams GrantTable.list_grants
    GrantTable.list_project_grants
query-IsSound env (put_team s t) db h k = put_team-IsSound env s t db h
query-IsSound env (get_team s n) db h k = with_id-IsSound s db _ h λ w there.
    elim (Option-cases (find? (is_row w.id n) db.teams)) [ inl e ↦ rw e h | inr (row, e) ↦ rw e h ]
query-IsSound env (delete_team s n) db h k = delete_team-IsSound s n db h k
query-IsSound env (list_teams s) db h k = with_id-IsSound s db _ h λ w there. h
query-IsSound env (list_grants s) db h k = with_id-IsSound s db _ h λ w there. h
query-IsSound env (add_grant s g) db h k = add_grant-IsSound env s g db h
query-IsSound env (delete_grant s i) db h k = delete_grant-IsSound s db h i
query-IsSound env (delete_project_grants s p) db h k = delete_project_grants-IsSound s db h p
query-IsSound env (list_project_grants s p) db h k = with_id-IsSound s db _ h λ w there. h

unfoldable pub run : List (Env × Call) → Database → Database
run [] db = db
run ((env, c) ∷ rest) db = run rest (query env c db).1

abbrev pub AllAdmit : List (Env × Call) → Database → Type 0
AllAdmit [] db = Unit
AllAdmit ((env, c) ∷ rest) db = Admits db env c × AllAdmit rest (query env c db).1

-- From the tables and from the state every call of the run has the same answer, and the tables
-- stand for the state in the end.
abbrev pub Simulates : List (Env × Call) → Database → Memory → Type 0
Simulates [] db m = view db ≡ m
Simulates ((env, c) ∷ rest) db m =
    SameAnswer c (query env c db).0 (method env c m).0
    × Simulates rest (query env c db).1 (method env c m).1

-- A run of calls on the tables refines the run on the state that they stand for: every call has
-- the same answer, where a list of grants may be in another order, and in the end the tables stand
-- for the state. It keeps IsSound, which the tables meet at the start: the keys, references, CHECK and
-- unique indexes that the schema has for workspaces, teams and grants, and beyond the schema that every
-- workspace has its team "everyone", that the teams of that name are those of that kind, and that the
-- team of a grant is of the same workspace and has a name that is not empty. New identifiers are
-- taken by no row, DeleteTeam is called with a name that is not empty, and AddGrant with a grant to a
-- user or to a team and not both.
pub run_refines :
    (calls : List (Env × Call)) (db : Database)
    → IsSound db
    → AllAdmit calls db
    → Simulates calls db (view db) × IsSound (run calls db)
unfolding run
run_refines [] db h k = (refl, h)
run_refines ((env, c) ∷ rest) db h k =
    let (same, viewed) = query-Refines env c db h k.0 in
    let (later, sound) = run_refines rest (query env c db).1 (query-IsSound env c db h k.0) k.1 in
    ((same, rw (sym viewed) later), sound)
