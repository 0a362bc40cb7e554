-- ===== src/Store/Tests.antt =====
-- Runs of the store at concrete inputs.
use shpyrd.Common.{
  ℕ, String, ◌≡◌, refl, Bool, true, false, none, some, List, [], ◌∷◌, any, keep, lookup, insert,
  find?, not, All, length, sort, text_less,
}
use shpyrd.Store.Types.{Workspace, Team, Grant, Code}
use shpyrd.Store.State.{Memory, Env, Result, ok, err, with_ws}
use shpyrd.Store.Calls.{Call, step, run}
use shpyrd.Store.Workspaces.{new_memory, migrate, implicit_workspace}
use shpyrd.Store.Teams.{put_team, delete_team, get_team, list_teams, is_team, given_to}
use shpyrd.Store.Grants.{add_grant}
use shpyrd.Store.Sessions.{put_session}
use shpyrd.Store.Dump.{Dump, export, import_dump}
use shpyrd.Store.Dump.RoundTrip.{export-import}
use shpyrd.Store.Dump.Valid.{import_dump-IsValid}
use shpyrd.Store.Laws.Teams.{get_team-put_team, delete_team-revokes}
use shpyrd.Store.Valid.{IsValid}
use shpyrd.Store.Valid.Workspaces.{new_memory-IsValid}
use shpyrd.Store.Valid.Runs.{run-new_memory-IsValid, IsFreshRun}

abbrev env_at : ℕ → String → Env
env_at now id = record { now = now; uuid = λ n. id }

abbrev dev : Team
dev = record {
  id = "";
  workspace_id = "";
  name = "dev";
  description = "";
  members = " Ana@Example.com" ∷ [];
  groups = [];
  platform_role = "";
  everyone = false;
  created_at = 0;
  updated_at = 0;
}

abbrev dev_on_shop : Grant
dev_on_shop = record {
  id = "";
  workspace_id = "";
  project = "shop";
  role = "developer";
  user = "";
  team = "dev";
  created_at = 0;
}

abbrev first : Memory
first = new_memory (env_at 1 "w1")

abbrev setup : List (Env × Call)
setup =
    (env_at 2 "t1", Call.put_team "default" dev)
    ∷ (env_at 3 "g1", Call.add_grant "default" dev_on_shop)
    ∷ []

abbrev set_up : Memory
set_up = run setup first

setup-IsFresh : IsFreshRun setup first
unfolding new_memory migrate step run any lookup put_team add_grant with_ws insert find?
setup-IsFresh = (refl, (refl, tt))

run-new_memory-IsValid_example : IsValid set_up
run-new_memory-IsValid_example = run-new_memory-IsValid (env_at 1 "w1") setup setup-IsFresh

abbrev home : Workspace
home = implicit_workspace (env_at 1 "w1") "shpyrd"

home_is : lookup "default" set_up.workspaces ≡ some home
unfolding new_memory migrate step run any lookup put_team add_grant with_ws insert find?
home_is = refl

abbrev ok_or {ℓ} : {A : Type ℓ} → A → Result A → A
ok_or d (ok a) = a
ok_or d (err e) = d

abbrev no_dump : Dump
no_dump = record {
  version = 0;
  workspace = home;
  identities = [];
  teams = [];
  grants = [];
  domains = [];
}

abbrev dump : Dump
dump = ok_or no_dump (export "default" set_up).0

dump_is : (export "default" set_up).0 ≡ ok dump
unfolding new_memory migrate step run any lookup put_team add_grant with_ws insert find? export keep
dump_is = refl

two_teams : length dump.teams ≡ 2
unfolding new_memory migrate step run any lookup put_team add_grant with_ws insert find? export keep
    sort list_teams text_less
two_teams = refl

abbrev target : Memory
target = new_memory (env_at 9 "w9")

target_is : lookup "default" target.workspaces ≡ some (implicit_workspace (env_at 9 "w9") "shpyrd")
unfolding new_memory migrate lookup any
target_is = refl

abbrev restore_envs : ℕ → ℕ → Env
restore_envs phase i = env_at 10 "r"

export-import_example :
    ((import_dump restore_envs "default" dump true target).0 ≡ none)
    × IsValid (import_dump restore_envs "default" dump true target).1.1
    × All
        (λ t.
          any (is_team "w9" t.name) (import_dump restore_envs "default" dump true target).1.1.teams
          ≡ true)
        dump.teams
export-import_example =
    export-import set_up "default" dump (run-new_memory-IsValid (env_at 1 "w1") setup setup-IsFresh)
      dump_is target "default" (implicit_workspace (env_at 9 "w9") "shpyrd")
      (new_memory-IsValid (env_at 9 "w9")) target_is restore_envs true

import_dump-IsValid_example : IsValid (import_dump restore_envs "default" dump false target).1.1
import_dump-IsValid_example =
    import_dump-IsValid "default" restore_envs dump false target
      (new_memory-IsValid (env_at 9 "w9"))

deletes : (delete_team "default" "dev" set_up).0 ≡ ok tt
unfolding new_memory migrate step run any lookup put_team add_grant with_ws insert find? delete_team
deletes = refl

delete_team-revokes_example :
    (any (is_team "w1" "dev") (delete_team "default" "dev" set_up).1.teams ≡ false)
    × (any (given_to "w1" "dev") (delete_team "default" "dev" set_up).1.grants ≡ false)
    × ((delete_team "default" "dev" set_up).1.grants
        ≡ keep (λ g. not (given_to "w1" "dev" g)) set_up.grants)
delete_team-revokes_example =
    delete_team-revokes "default" set_up home home_is "dev"
      (run-new_memory-IsValid (env_at 1 "w1") setup setup-IsFresh) deletes

abbrev renamed : Team
renamed = record dev { description = "the developers" }

abbrev put_again : Team × Bool
put_again = ok_or (dev, false) (put_team (env_at 4 "t2") "default" renamed set_up).0

puts : (put_team (env_at 4 "t2") "default" renamed set_up).0 ≡ ok (put_again.0, put_again.1)
unfolding new_memory migrate step run any lookup put_team add_grant with_ws insert find?
puts = refl

get_team-put_team_example :
    (get_team "default" "dev" (put_team (env_at 4 "t2") "default" renamed set_up).1).0
    ≡ ok put_again.0
get_team-put_team_example =
    get_team-put_team "default" set_up home home_is (env_at 4 "t2") renamed put_again.0 put_again.1
      puts

abbrev code : Code
code = record { code = "c1"; host = "shop.example.com"; claims = "{}"; expires_at = 100 }

abbrev signed_in : Memory
signed_in =
    (put_session "default"
      (record {
        id = "s1";
        workspace_id = "";
        identity = "{}";
        csrf = "x";
        id_token = "";
        created_at = 5;
        last_seen_at = 5;
      })
      set_up).1
