-- ===== src/Authz/Tests.antt =====
-- Decisions at concrete snapshots.
use shpyrd.Common.{
  ℕ, String, ◌≡◌, refl, true, false, none, List, [], ◌∷◌, any, lookup, find?, to_lower, trim_space,
  equal_fold, arith, ◌∙◌, ◌==◌,
}
use mathlib.Core.List.Perm
use shpyrd.Store.Types.{Team, Grant, Identity as Person, status_suspended, not_found}
use shpyrd.Store.State.{Memory, Env, Result, ok, err, with_ws}
use shpyrd.Store.Workspaces.{new_memory, migrate}
use shpyrd.Store.Identities.{touch_identity, set_identity_status, list_identities}
use shpyrd.Store.Teams.{list_teams}
use shpyrd.Store.Grants.{list_grants}
use shpyrd.Authz.Table.{allows, rank, platform_rank}
use shpyrd.Authz.Roles.{can, role_at}
use shpyrd.Authz.Grants.{rank-project_roles_best, best_rank}
use shpyrd.Authz.Snapshot.{Snapshot, Identity, enforced, belongs, roles_for, load, project_roles}
use shpyrd.Authz.Resolver.{Cached, Resolver, Fetch, snapshot_for}
use shpyrd.Authz.Access.{IsPerson, may, by_team, by_grant, given, in_team}
use shpyrd.Authz.Can.{can-eq-may, can_perm, can_grow, with_grant}
use shpyrd.Authz.Suspension.{suspend-cannot}
use shpyrd.Authz.Cache.{snapshot_for_twice}

abbrev team : String → List String → String → Team
team name members platform_role = record {
  id = name;
  workspace_id = "w1";
  name = name;
  description = "";
  members = members;
  groups = [];
  platform_role = platform_role;
  everyone = false;
  created_at = 0;
  updated_at = 0;
}

abbrev grant : String → String → String → Grant
grant project role to_team = record {
  id = project;
  workspace_id = "w1";
  project = project;
  role = role;
  user = "";
  team = to_team;
  created_at = 0;
}

abbrev shop : Snapshot
shop = record {
  teams = team "dev" ("ana@example.com" ∷ []) "" ∷ team "ops" ("bo@example.com" ∷ []) "" ∷ [];
  grants = grant "shop" "viewer" "dev" ∷ grant "shop" "developer" "dev" ∷ [];
  suspended = "eve@example.com" ∷ [];
  explicit = false;
}

abbrev signed_in : String → Identity
signed_in email = record { subject = "1"; email = email; groups = []; provider = "dex" }

abbrev ana : Identity
ana = signed_in "Ana@example.com"

ana-IsPerson : IsPerson shop ana
unfolding enforced any to_lower
ana-IsPerson = record { no_operator = refl; active = refl; enforced = refl }

can-eq-may_example :
    can (roles_for shop ana) "project.deploy" "shop" ≡ may shop ana "project.deploy" "shop"
can-eq-may_example =
    can-eq-may shop ana (unfold any in (refl, (refl, tt))) ana-IsPerson "project.deploy" "shop"

ana-may_deploy : may shop ana "project.deploy" "shop" ≡ true
unfolding may any by_team belongs to_lower equal_fold platform_rank by_grant given in_team rank
    allows
ana-may_deploy = refl

abbrev swapped : List Grant
swapped = grant "shop" "developer" "dev" ∷ grant "shop" "viewer" "dev" ∷ []

can_perm_example :
    can (roles_for (record shop { grants = swapped }) ana) "project.deploy" "shop"
    ≡ can (roles_for shop ana) "project.deploy" "shop"
can_perm_example =
    can_perm shop swapped ana (unfold any in (refl, (refl, tt))) ana-IsPerson
      (unfold enforced any in refl)
      (Perm.swap (grant "shop" "developer" "dev") (grant "shop" "viewer" "dev") []) "project.deploy"
      "shop"

can_grow_example :
    can (roles_for (with_grant shop (grant "blog" "admin" "ops")) ana) "project.deploy" "shop"
    ≡ true
can_grow_example =
    can_grow shop (grant "blog" "admin" "ops") ana (unfold any in (refl, (refl, tt)))
      (unfold enforced any in refl) "project.deploy" "shop"
      (can-eq-may shop ana (unfold any in (refl, (refl, tt))) ana-IsPerson "project.deploy" "shop"
        ∙ ana-may_deploy)

abbrev fresh_cluster : Snapshot
fresh_cluster = record { teams = []; grants = []; suspended = []; explicit = false }

admin_creates : allows "platform-admin" "cluster.create" ≡ true
unfolding allows
admin_creates = refl

rank-project_roles_best_example :
    rank (role_at (project_roles (λ g. g.team == "dev") shop.grants []) "shop")
    ≡ best_rank (λ g. g.team == "dev") "shop" shop.grants
rank-project_roles_best_example = rank-project_roles_best (λ g. g.team == "dev") "shop" shop.grants

abbrev cached : Cached
cached = record { snap = shop; fetched = 100 }

abbrev resolver : Resolver
resolver = record { workspace = "default"; ttl = 10; snaps = ("default", cached) ∷ [] }

abbrev failing : Fetch
failing = record { check_at = 200; fetched_at = 201; load = λ ws. err not_found }

abbrev loading : ℕ → Fetch
loading now = record { check_at = now; fetched_at = now; load = λ ws. ok shop }

snapshot_for_twice_example :
    (snapshot_for failing "default"
      (snapshot_for (loading 195) "default" (record resolver { snaps = [] })).1).0
    ≡ ok shop
snapshot_for_twice_example =
    snapshot_for_twice (loading 195) failing "default" (record resolver { snaps = [] }) shop refl
      (unfold lookup in refl) (omega arith)

abbrev env : Env
env = record { now = 1; uuid = λ n. "w1" }

abbrev eve : Person
eve = record {
  id = "";
  workspace_id = "";
  realm = "";
  email = "Eve@example.com";
  name = "Eve";
  provider = "dex";
  groups = none;
  status = "";
  first_seen_at = 0;
  last_seen_at = 0;
}

abbrev with_eve : Memory
with_eve = (touch_identity env "default" eve (new_memory env)).1

abbrev ok_or {ℓ} : {A : Type ℓ} → A → Result A → A
ok_or d (ok a) = a
ok_or d (err e) = d

abbrev suspended_eve : Person
suspended_eve =
    ok_or eve (set_identity_status "default" "eve@example.com" status_suspended with_eve).0

abbrev loaded : Snapshot
loaded =
    ok_or fresh_cluster
      (load (set_identity_status "default" "eve@example.com" status_suspended with_eve).1 "default")

suspends :
    (set_identity_status "default" "eve@example.com" status_suspended with_eve).0 ≡ ok suspended_eve
unfolding set_identity_status touch_identity new_memory migrate with_ws lookup any find? to_lower
    trim_space
suspends = refl

loads :
    load (set_identity_status "default" "eve@example.com" status_suspended with_eve).1 "default"
    ≡ ok loaded
unfolding load set_identity_status touch_identity new_memory migrate with_ws lookup any find?
    list_teams list_grants list_identities to_lower trim_space
loads = refl

suspend-cannot_example :
    can (roles_for loaded (signed_in "EVE@example.com")) "project.open" "shop" ≡ false
suspend-cannot_example =
    suspend-cannot "default" "eve@example.com" with_eve suspended_eve suspends loaded loads
      (signed_in "EVE@example.com") refl refl (unfold to_lower in refl) "project.open" "shop"
