-- ===== src/Authz/Table.antt =====
-- The actions, the role table and the ranks of pkg/authz/authz.go. Roles and actions are texts, as
-- in the source; the roles' names are those of api/v1alpha1/membership_types.go.
use shpyrd.Common.{ℕ, String, Bool, List, [], ◌∷◌, ◌==◌, if◌then◌else◌, any}

abbrev pub project_view : String
project_view = "project.view"

abbrev pub project_deploy : String
project_deploy = "project.deploy"

abbrev pub project_scale : String
project_scale = "project.scale"

abbrev pub project_config : String
project_config = "project.config"

abbrev pub project_exec : String
project_exec = "project.exec"

abbrev pub project_resource : String
project_resource = "project.resource"

abbrev pub project_members : String
project_members = "project.members"

abbrev pub project_destroy : String
project_destroy = "project.destroy"

abbrev pub project_open : String
project_open = "project.open"

abbrev pub cluster_view : String
cluster_view = "cluster.view"

abbrev pub cluster_admin : String
cluster_admin = "cluster.admin"

abbrev pub cluster_create : String
cluster_create = "cluster.create"

abbrev pub role_user : String
role_user = "user"

abbrev pub role_viewer : String
role_viewer = "viewer"

abbrev pub role_developer : String
role_developer = "developer"

abbrev pub role_admin : String
role_admin = "admin"

abbrev pub role_platform_admin : String
role_platform_admin = "platform-admin"

abbrev pub role_platform_viewer : String
role_platform_viewer = "platform-viewer"

-- roleActions; a role that is no key of the map has no action.
unfoldable pub role_actions : String → List String
role_actions role =
    if role == role_user
    then project_open ∷ []
    else if role == role_viewer
    then project_open ∷ project_view ∷ []
    else if role == role_developer
    then project_open ∷ project_view ∷ project_deploy ∷ project_scale ∷ project_config
      ∷ project_exec ∷ []
    else if role == role_admin
    then project_open ∷ project_view ∷ project_deploy ∷ project_scale ∷ project_config
      ∷ project_exec ∷ project_resource ∷ project_members ∷ project_destroy ∷ []
    else if role == role_platform_viewer
    then cluster_view ∷ project_open ∷ project_view ∷ []
    else if role == role_platform_admin
    then cluster_view ∷ cluster_admin ∷ cluster_create ∷ project_open ∷ project_view
      ∷ project_deploy ∷ project_scale ∷ project_config ∷ project_exec ∷ project_resource
      ∷ project_members ∷ project_destroy ∷ []
    else []

-- allows
unfoldable pub allows : String → String → Bool
unfolding role_actions any
allows role action = any (λ a. a == action) (role_actions role)

-- rank, and RankRole
unfoldable pub rank : String → ℕ
rank role =
    if role == role_admin
    then 4
    else if role == role_developer
    then 3
    else if role == role_viewer
    then 2
    else if role == role_user
    then 1
    else 0

-- platformRank, and PlatformRank
unfoldable pub platform_rank : String → ℕ
platform_rank role =
    if role == role_platform_admin then 2 else if role == role_platform_viewer then 1 else 0
