-- ===== src/Store/Valid.antt =====
-- A well-formedness invariant of the struct Memory, pkg/store/memory.go.
pub mod Workspaces
pub mod Teams
pub mod Grants
pub mod People
pub mod Others
pub mod Runs
use shpyrd.Common.{String, ◌≡◌, Bool, true, ◌||◌, List, ◌==◌, any, All, IsUnique, to_lower}
use shpyrd.Store.Types.{Workspace, Team, Grant, Identity, DomainClaim, Session, team_everyone}
use shpyrd.Store.State.{Memory, TokenEntry}
use shpyrd.Store.Workspaces.{is_everyone_of, address_taken}
use shpyrd.Store.Domains.{is_claim}
use shpyrd.Store.Identities.{is_person}
use shpyrd.Store.Teams.{is_team}
use shpyrd.Store.Grants.{same_grant}
use shpyrd.Store.Tokens.{is_token}

abbrev pub Entry : Type 0
Entry = String × Workspace

abbrev pub has_id : String → Entry → Bool
has_id id e = e.1.id == id

-- The keys are the slugs; no two workspaces share a slug, an identifier or a set address.
pub record WorkspacesValid (ws : List Entry) : Type 0 where
  pub keyed : All (λ e. e.0 ≡ e.1.slug) ws
  pub slugs : IsUnique (λ a b. a.0 == b.0) ws
  pub ids : IsUnique (λ a b. has_id b.1.id a) ws
  pub addresses : IsUnique (λ a b. address_taken b.1.address a) ws

abbrev pub same_team : Team → Team → Bool
same_team a b = is_team b.workspace_id b.name a

-- No two teams of a workspace share a name; each belongs to a workspace of the store; the teams
-- called "everyone" are the built-in ones, and each workspace has one.
pub record TeamsValid (ws : List Entry) (teams : List Team) : Type 0 where
  pub names : IsUnique same_team teams
  pub homes : All (λ t. any (has_id t.workspace_id) ws ≡ true) teams
  pub reserved : All (λ t. t.everyone ≡ (t.name == team_everyone)) teams
  pub present : All (λ e. any (is_everyone_of e.1.id) teams ≡ true) ws

-- The team that a grant names is there.
abbrev pub team_known : List Team → Grant → Bool
team_known teams g = g.team == "" || any (is_team g.workspace_id g.team) teams

pub record GrantsValid (teams : List Team) (grants : List Grant) : Type 0 where
  pub distinct : IsUnique same_grant grants
  pub known : All (λ g. team_known teams g ≡ true) grants

abbrev pub same_person : Identity → Identity → Bool
same_person a b = is_person b.workspace_id b.realm b.email a

-- A workspace has one record of an email in a realm, and the email is in lower case.
pub record PeopleValid (people : List Identity) : Type 0 where
  pub distinct : IsUnique same_person people
  pub lower : All (λ it. to_lower it.email ≡ it.email) people

abbrev pub same_claim : DomainClaim → DomainClaim → Bool
same_claim a b = is_claim b.workspace_id b.domain a

abbrev pub same_token : TokenEntry → TokenEntry → Bool
same_token a b = is_token b.token.workspace_id b.token.owner_email b.token.name a

pub record IsValid (m : Memory) : Type 0 where
  pub workspaces : WorkspacesValid m.workspaces
  pub teams : TeamsValid m.workspaces m.teams
  pub grants : GrantsValid m.teams m.grants
  pub people : PeopleValid m.identities
  pub claims : IsUnique same_claim m.domains
  pub tokens : IsUnique same_token m.tokens
  pub sessions : All (λ (e : String × Session). e.0 ≡ e.1.id) m.sessions
