-- ===== src/Store/Dump.antt =====
-- Export, Import and importDump of pkg/store/memory.go. Import goes through the public methods,
-- each of which draws its own time and identifiers: `envs` gives them by phase and index.
pub mod Loops
pub mod Steps
pub mod Valid
pub mod Total
pub mod Restore
pub mod RoundTrip
use shpyrd.Common.{
  ℕ, suc, ◌+◌, String, Bool, true, false, not, ◌&&◌, ◌||◌, Option, none, some, List, [], ◌∷◌, ◌==◌,
  if◌then◌else◌,
}
use shpyrd.Store.Types.{
  Workspace, Team, Grant, Identity, DomainClaim, Error, not_found, conflict, built_in,
  team_everyone, status_suspended,
}
use shpyrd.Store.State.{Memory, Env, Result, ok, err, with_ws}
use shpyrd.Store.Workspaces.{update_workspace, update_workspace_settings}
use shpyrd.Store.Domains.{list_domain_claims, put_domain_claim, mark_domain_verified}
use shpyrd.Store.Identities.{list_identities, touch_identity, set_identity_status}
use shpyrd.Store.Teams.{list_teams, get_team, put_team}
use shpyrd.Store.Grants.{list_grants, add_grant}

pub record Dump : Type 0 where
  pub version : ℕ
  pub workspace : Workspace
  pub identities : List Identity
  pub teams : List Team
  pub grants : List Grant
  pub domains : List DomainClaim

pub record ImportResult : Type 0 where
  pub teams : ℕ
  pub grants : ℕ
  pub identities : ℕ
  pub skipped : ℕ

-- `xs, _ := f()`: nil beside an error.
abbrev pub listed {ℓ} : {A : Type ℓ} → Result (List A) → List A
listed (ok xs) = xs
listed (err e) = []

-- Memory.Export
unfoldable pub export : String → Memory → Result Dump × Memory
export ws m = with_ws ws m λ w. (
  ok (record {
    version = 1;
    workspace = w;
    identities = listed (list_identities ws m).0;
    teams = listed (list_teams ws m).0;
    grants = listed (list_grants ws m).0;
    domains = listed (list_domain_claims ws m).0;
  }),
  m,
)

-- The counts so far and the store; the error that stopped the import, if one did.
abbrev pub State : Type 0
State = ImportResult × Memory

abbrev pub Progress : Type 0
Progress = Option Error × State

-- A return on the first error.
abbrev pub and_then : Progress → (State → Progress) → Progress
and_then (none, s) k = k s
and_then (some e, s) k = (some e, s)

-- for i, x := range xs, with a return on an error
unfoldable pub for_each {ℓ} :
    {A : Type ℓ} → (ℕ → A → State → Progress) → ℕ → List A → State → Progress
for_each body i [] s = (none, s)
for_each body i (x ∷ xs) s = and_then (body i x s) (for_each body (suc i) xs)

abbrev pub after_update {ℓ} : {A : Type ℓ} → ImportResult → Result A × Memory → Progress
after_update r (ok _, m) = (none, (r, m))
after_update r (err e, m) = (some e, (r, m))

abbrev pub verify : String → DomainClaim → Option ℕ → Option ℕ → Memory → Memory
verify ws dc (some at) none m = (mark_domain_verified ws dc.domain at m).1
verify ws dc _ _ m = m

abbrev pub after_claim :
    String → DomainClaim → ImportResult → Result DomainClaim × Memory → Progress
after_claim ws dc r (ok claim, m) = (none, (r, verify ws dc dc.verified_at claim.verified_at m))
after_claim ws dc r (err e, m) = (some e, (r, m))

unfoldable pub import_domain : (ℕ → Env) → String → ℕ → DomainClaim → State → Progress
import_domain envs ws i dc s =
    after_claim ws dc s.0 (put_domain_claim (envs i) ws dc.domain dc.connector s.1)

abbrev pub after_team : ImportResult → Result (Team × Bool) × Memory → Progress
after_team r (ok _, m) = (none, (record r { teams = r.teams + 1 }, m))
after_team r (err e, m) = (some e, (r, m))

abbrev pub is_ok {ℓ} : {A : Type ℓ} → Result A → Bool
is_ok (ok _) = true
is_ok (err _) = false

unfoldable pub import_team : (ℕ → Env) → String → Bool → ℕ → Team → State → Progress
import_team envs ws overwrite i t s =
    if t.everyone || t.name == team_everyone
    then (none, s)
    else if not overwrite && is_ok (get_team ws t.name s.1).0
    then (none, (record (s.0) { skipped = s.0.skipped + 1 }, s.1))
    else after_team s.0 (put_team (envs i) ws t s.1)

abbrev pub after_grant : ImportResult → Result Grant × Memory → Progress
after_grant r (ok _, m) = (none, (record r { grants = r.grants + 1 }, m))
after_grant r (err conflict, m) = (none, (record r { skipped = r.skipped + 1 }, m))
after_grant r (err not_found, m) = (some not_found, (r, m))
after_grant r (err built_in, m) = (some built_in, (r, m))

unfoldable pub import_grant : (ℕ → Env) → String → ℕ → Grant → State → Progress
import_grant envs ws i g s = after_grant s.0 (add_grant (envs i) ws g s.1)

abbrev pub after_identity : String → Identity → ImportResult → Result Identity × Memory → Progress
after_identity ws id r (ok _, m) = (
  none,
  (
    record r { identities = r.identities + 1 },
    if id.status == status_suspended
        then (set_identity_status ws id.email status_suspended m).1
        else m,
  ),
)
after_identity ws id r (err e, m) = (some e, (r, m))

unfoldable pub import_identity : (ℕ → Env) → String → ℕ → Identity → State → Progress
import_identity envs ws i id s = after_identity ws id s.0 (touch_identity (envs i) ws id s.1)

unfoldable pub import_name : Env → String → Dump → State → Progress
import_name env ws d s = after_update s.0 (update_workspace env ws d.workspace.name s.1)

unfoldable pub import_settings : Env → String → Dump → State → Progress
import_settings env ws d s =
    after_update s.0 (update_workspace_settings env ws d.workspace.settings s.1)

abbrev pub import_workspace : (ℕ → Env) → String → Dump → Bool → State → Progress
import_workspace envs ws d overwrite s =
    if not (d.workspace.name == "") && overwrite
    then and_then (import_name (envs 0) ws d s) (import_settings (envs 1) ws d)
    else (none, s)

abbrev pub nothing_yet : ImportResult
nothing_yet = record { teams = 0; grants = 0; identities = 0; skipped = 0 }

-- One part after the other, with a return on the first error.
unfoldable pub in_turn : List (State → Progress) → State → Progress
in_turn [] s = (none, s)
in_turn (part ∷ parts) s = and_then (part s) (in_turn parts)

-- The parts of importDump: the workspace, then a loop for each list of the dump.
abbrev pub parts : (ℕ → ℕ → Env) → String → Dump → Bool → List (State → Progress)
parts envs ws d overwrite =
    import_workspace (envs 0) ws d overwrite
    ∷ for_each (import_domain (envs 1) ws) 0 d.domains
    ∷ for_each (import_team (envs 2) ws overwrite) 0 d.teams
    ∷ for_each (import_grant (envs 3) ws) 0 d.grants
    ∷ for_each (import_identity (envs 4) ws) 0 d.identities
    ∷ []

-- importDump, which Memory.Import calls
unfoldable pub import_dump : (ℕ → ℕ → Env) → String → Dump → Bool → Memory → Progress
unfolding in_turn
import_dump envs ws d overwrite m = in_turn (parts envs ws d overwrite) (nothing_yet, m)
