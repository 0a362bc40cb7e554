-- ===== src/Postgres/Tests.antt =====
-- Runs of the methods on the tables at concrete inputs.
use shpyrd.Common.{ℕ, String, refl, false, List, [], ◌∷◌, any, find?, to_lower, trim_space}
use shpyrd.Store.Types.{Team, Grant, team_everyone}
use shpyrd.Store.State.{Env}
use shpyrd.Store.Workspaces.{implicit_workspace}
use shpyrd.Postgres.Tables.{TeamRow, Database, with_id}
use shpyrd.Postgres.Teams.{put_team}
use shpyrd.Postgres.Grants.{add_grant}
use shpyrd.Postgres.Refine.{view, IsSound}
use shpyrd.Postgres.Refine.Runs.{Call, AllAdmit, Simulates, run, run_refines}

abbrev env_at : ℕ → String → Env
env_at now id = record { now = now; uuid = λ n. id }

abbrev everyone_row : TeamRow
everyone_row = record {
  id = "t0";
  workspace_id = "w1";
  name = team_everyone;
  description = "";
  members = [];
  groups = [];
  platform_role = "";
  kind = "everyone";
  created_at = 1;
  updated_at = 1;
}

abbrev migrated : Database
migrated = record {
  workspaces = implicit_workspace (env_at 1 "w1") "shpyrd" ∷ [];
  teams = everyone_row ∷ [];
  grants = [];
}

abbrev dev : Team
dev = record {
  id = "";
  workspace_id = "";
  name = "dev";
  description = "";
  members = " Ana@Example.com" ∷ [];
  groups = [];
  platform_role = "";
  everyone = false;
  created_at = 0;
  updated_at = 0;
}

abbrev grant_of : String → String → Grant
grant_of user team = record {
  id = "";
  workspace_id = "";
  project = "shop";
  role = "developer";
  user = user;
  team = team;
  created_at = 0;
}

abbrev calls : List (Env × Call)
calls =
    (env_at 2 "t1", Call.put_team "default" dev)
    ∷ (env_at 3 "g1", Call.add_grant "default" (grant_of "" "dev"))
    ∷ (env_at 4 "g2", Call.add_grant "default" (grant_of "bo@example.com" ""))
    ∷ (env_at 5 "", Call.list_grants "default")
    ∷ (env_at 6 "", Call.delete_team "default" "dev")
    ∷ (env_at 7 "", Call.delete_team "default" team_everyone)
    ∷ []

migrated-IsSound : IsSound migrated
unfolding any
migrated-IsSound = record {
  workspace_ids = (refl, tt);
  workspace_slugs = (refl, tt);
  workspace_addresses = (refl, tt);
  team_workspaces = (refl, tt);
  grant_workspaces = tt;
  grant_rows = tt;
  team_ids = (refl, tt);
  team_names = (refl, tt);
  built_in = (refl, tt);
  kinds = (refl, tt);
  grant_ids = tt;
  subjects = tt;
}

calls-AllAdmit : AllAdmit calls migrated
unfolding any find? with_id put_team add_grant to_lower trim_space
calls-AllAdmit = (refl, ((refl, refl), ((refl, refl), (tt, (refl, (refl, tt))))))

run_refines_example : Simulates calls migrated (view migrated) × IsSound (run calls migrated)
run_refines_example = run_refines calls migrated migrated-IsSound calls-AllAdmit
