-- ===== src/Store/Types.antt =====
-- The records of pkg/store/store.go. A time is a number of nanoseconds, a `*time.Time` is an
-- `Option`, a raw JSON message is its text.
use shpyrd.Common.{ℕ, String, Bool, Option, List}

-- Go's int; `negsuc n` is -(n + 1).
pub data ℤ : Type 0 where
  pos : ℕ → ℤ
  negsuc : ℕ → ℤ

pub record Limits : Type 0 where
  pub projects : ℤ
  pub instances : ℤ
  pub cpu : String
  pub memory : String
  pub storage : String

pub record WorkspaceSettings : Type 0 where
  pub join_policy : String
  pub limits : Option Limits

pub record Workspace : Type 0 where
  pub id : String
  pub slug : String
  pub name : String
  pub address : String
  pub status : String
  pub settings : WorkspaceSettings
  pub created_at : ℕ
  pub updated_at : ℕ

abbrev pub default_workspace : String
default_workspace = "default"

abbrev pub workspace_active : String
workspace_active = "active"

pub record DomainClaim : Type 0 where
  pub id : String
  pub workspace_id : String
  pub domain : String
  pub token : String
  pub connector : String
  pub verified_at : Option ℕ
  pub created_at : ℕ

-- `groups` is nil-able: `none` is nil, which TouchIdentity tells apart from an empty slice.
pub record Identity : Type 0 where
  pub id : String
  pub workspace_id : String
  pub realm : String
  pub email : String
  pub name : String
  pub provider : String
  pub groups : Option (List String)
  pub status : String
  pub first_seen_at : ℕ
  pub last_seen_at : ℕ

abbrev pub status_active : String
status_active = "active"

abbrev pub status_suspended : String
status_suspended = "suspended"

abbrev pub team_everyone : String
team_everyone = "everyone"

pub record Team : Type 0 where
  pub id : String
  pub workspace_id : String
  pub name : String
  pub description : String
  pub members : List String
  pub groups : List String
  pub platform_role : String
  pub everyone : Bool
  pub created_at : ℕ
  pub updated_at : ℕ

pub record Grant : Type 0 where
  pub id : String
  pub workspace_id : String
  pub project : String
  pub role : String
  pub user : String
  pub team : String
  pub created_at : ℕ

pub record Session : Type 0 where
  pub id : String
  pub workspace_id : String
  pub identity : String
  pub csrf : String
  pub id_token : String
  pub created_at : ℕ
  pub last_seen_at : ℕ

pub record Code : Type 0 where
  pub code : String
  pub host : String
  pub claims : String
  pub expires_at : ℕ

pub record ApiToken : Type 0 where
  pub id : String
  pub workspace_id : String
  pub name : String
  pub owner_email : String
  pub platform_role : String
  pub project_roles : List (String × String)
  pub created_at : ℕ
  pub expires_at : Option ℕ
  pub last_used_at : Option ℕ

-- ErrNotFound, ErrConflict, ErrBuiltIn
pub data Error : Type 0 where
  not_found conflict built_in : Error
