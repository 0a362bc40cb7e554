-- ===== src/Store/Calls.antt =====
-- The store as a state machine: one call of a method of the Store interface that changes it.
use shpyrd.Common.{ℕ, String, List, [], ◌∷◌}
use shpyrd.Store.Types.{
  Workspace, WorkspaceSettings, Team, Grant, Identity, Session, Code, ApiToken,
}
use shpyrd.Store.State.{Memory, Env}
use shpyrd.Store.Workspaces
use shpyrd.Store.Domains
use shpyrd.Store.Identities
use shpyrd.Store.Teams
use shpyrd.Store.Grants
use shpyrd.Store.Sessions
use shpyrd.Store.Tokens

pub data Call : Type 0 where
  migrate : String → Call
  create_workspace : Workspace → Call
  set_workspace_status update_workspace : String → String → Call
  update_workspace_settings : String → WorkspaceSettings → Call
  put_domain_claim : String → String → String → Call
  mark_domain_verified : String → String → ℕ → Call
  delete_domain_claim : String → String → Call
  touch_identity : String → Identity → Call
  set_identity_status : String → String → String → Call
  delete_identity : String → String → Call
  put_team : String → Team → Call
  delete_team : String → String → Call
  add_grant : String → Grant → Call
  delete_grant delete_project_grants : String → String → Call
  put_session : String → Session → Call
  touch_session : String → ℕ → Call
  delete_session : String → Call
  purge_sessions : ℕ → ℕ → Call
  put_code : Code → Call
  take_code : String → Call
  create_token : String → ApiToken → String → Call
  lookup_token : String → Call
  delete_token : String → String → Call

-- The state that the call leaves.
unfoldable pub step : Env → Call → Memory → Memory
step env (migrate n) m = Workspaces.migrate env n m
step env (create_workspace w) m = (Workspaces.create_workspace env w m).1
step env (set_workspace_status s t) m = (Workspaces.set_workspace_status env s t m).1
step env (update_workspace s n) m = (Workspaces.update_workspace env s n m).1
step env (update_workspace_settings s t) m = (Workspaces.update_workspace_settings env s t m).1
step env (put_domain_claim s d c) m = (Domains.put_domain_claim env s d c m).1
step env (mark_domain_verified s d t) m = (Domains.mark_domain_verified s d t m).1
step env (delete_domain_claim s d) m = (Domains.delete_domain_claim s d m).1
step env (touch_identity s i) m = (Identities.touch_identity env s i m).1
step env (set_identity_status s e t) m = (Identities.set_identity_status s e t m).1
step env (delete_identity s e) m = (Identities.delete_identity s e m).1
step env (put_team s t) m = (Teams.put_team env s t m).1
step env (delete_team s n) m = (Teams.delete_team s n m).1
step env (add_grant s g) m = (Grants.add_grant env s g m).1
step env (delete_grant s i) m = (Grants.delete_grant s i m).1
step env (delete_project_grants s p) m = (Grants.delete_project_grants s p m).1
step env (put_session s x) m = (Sessions.put_session s x m).1
step env (touch_session i t) m = (Sessions.touch_session i t m).1
step env (delete_session i) m = Sessions.delete_session i m
step env (purge_sessions a b) m = (Sessions.purge_sessions a b m).1
step env (put_code c) m = Sessions.put_code env c m
step env (take_code c) m = (Sessions.take_code env c m).1
step env (create_token s t h) m = (Tokens.create_token env s t h m).1
step env (lookup_token h) m = (Tokens.lookup_token env h m).1
step env (delete_token s i) m = (Tokens.delete_token s i m).1

unfoldable pub run : List (Env × Call) → Memory → Memory
run [] m = m
run ((env, c) ∷ rest) m = run rest (step env c m)
