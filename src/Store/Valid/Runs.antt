-- ===== src/Store/Valid/Runs.antt =====
-- The invariant along runs of calls.
use shpyrd.Common.{◌≡◌, false, List, [], ◌∷◌, any}
use shpyrd.Store.State.{Memory, Env}
use shpyrd.Store.Calls.{Call, step, run}
use shpyrd.Store.Workspaces.{new_memory}
use shpyrd.Store.Valid.{has_id, IsValid}
use shpyrd.Store.Valid.Workspaces
use shpyrd.Store.Valid.Teams
use shpyrd.Store.Valid.Grants
use shpyrd.Store.Valid.People
use shpyrd.Store.Valid.Others

-- uuid.NewString does not return the identifier of a workspace that exists.
abbrev pub IsFresh : Env → Memory → Type 0
IsFresh env m = any (has_id (env.uuid 0)) m.workspaces ≡ false

-- Each call of a run draws an identifier that is fresh in the state that it meets.
abbrev pub IsFreshRun : List (Env × Call) → Memory → Type 0
IsFreshRun [] m = Unit
IsFreshRun ((env, c) ∷ rest) m = IsFresh env m × IsFreshRun rest (step env c m)

-- Every call, whatever its arguments and its outcome, keeps the store valid.
pub step-IsValid :
    (env : Env) (c : Call) (m : Memory) → IsFresh env m → IsValid m → IsValid (step env c m)
unfolding step
step-IsValid env (Call.migrate n) m f v = Workspaces.migrate-IsValid env m v n f
step-IsValid env (Call.create_workspace w) m f v = Workspaces.create_workspace-IsValid env m v w f
step-IsValid env (Call.set_workspace_status s t) m f v =
    Workspaces.set_workspace_status-IsValid env s m v t
step-IsValid env (Call.update_workspace s n) m f v = Workspaces.update_workspace-IsValid env s m v n
step-IsValid env (Call.update_workspace_settings s t) m f v =
    Workspaces.update_workspace_settings-IsValid env s m v t
step-IsValid env (Call.put_domain_claim s d c) m f v = Others.put_domain_claim-IsValid m v env s d c
step-IsValid env (Call.mark_domain_verified s d t) m f v =
    Others.mark_domain_verified-IsValid m v s d t
step-IsValid env (Call.delete_domain_claim s d) m f v = Others.delete_domain_claim-IsValid m v s d
step-IsValid env (Call.touch_identity s i) m f v = People.touch_identity-IsValid m v env s i
step-IsValid env (Call.set_identity_status s e t) m f v =
    People.set_identity_status-IsValid m v s e t
step-IsValid env (Call.delete_identity s e) m f v = People.delete_identity-IsValid m v s e
step-IsValid env (Call.put_team s t) m f v = Teams.put_team-IsValid env s t m v
step-IsValid env (Call.delete_team s n) m f v = Teams.delete_team-IsValid s n m v
step-IsValid env (Call.add_grant s g) m f v = Grants.add_grant-IsValid m v env s g
step-IsValid env (Call.delete_grant s i) m f v = Grants.delete_grant-IsValid m v s i
step-IsValid env (Call.delete_project_grants s p) m f v =
    Grants.delete_project_grants-IsValid m v s p
step-IsValid env (Call.put_session s x) m f v = Others.put_session-IsValid m v s x
step-IsValid env (Call.touch_session i t) m f v = Others.touch_session-IsValid m v i t
step-IsValid env (Call.delete_session i) m f v = Others.delete_session-IsValid m v i
step-IsValid env (Call.purge_sessions a b) m f v = Others.purge_sessions-IsValid m v a b
step-IsValid env (Call.put_code c) m f v = Others.put_code-IsValid m v env c
step-IsValid env (Call.take_code c) m f v = Others.take_code-IsValid m v env c
step-IsValid env (Call.create_token s t h) m f v = Others.create_token-IsValid m v env s t h
step-IsValid env (Call.lookup_token h) m f v = Others.lookup_token-IsValid m v env h
step-IsValid env (Call.delete_token s i) m f v = Others.delete_token-IsValid m v s i

-- From a valid store, after any calls in any order, if the identifiers drawn are fresh, the store
-- is valid.
pub run-IsValid :
    (calls : List (Env × Call)) (m : Memory)
    → IsFreshRun calls m
    → IsValid m
    → IsValid (run calls m)
unfolding run
run-IsValid [] m f v = v
run-IsValid ((env, c) ∷ rest) m f v =
    run-IsValid rest (step env c m) f.1 (step-IsValid env c m f.0 v)

-- Whatever calls follow NewMemory, in any order, if the identifiers drawn are fresh, the store is
-- valid: keys are distinct, every grant to a team names a team that exists, every team belongs to
-- a workspace and every workspace has its built-in team.
pub run-new_memory-IsValid :
    (env : Env) (calls : List (Env × Call))
    → IsFreshRun calls (new_memory env)
    → IsValid (run calls (new_memory env))
run-new_memory-IsValid env calls f =
    run-IsValid calls (new_memory env) f (Workspaces.new_memory-IsValid env)
