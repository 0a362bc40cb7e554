-- ===== src/Authz/Roles.antt =====
-- The type Roles of pkg/authz/authz.go and its methods.
use shpyrd.Common.{String, Bool, true, false, Option, none, some, List, ◌==◌, if◌then◌else◌, lookup}
use shpyrd.Authz.Table.{allows, role_admin, role_viewer, role_platform_admin, role_platform_viewer}

pub record Roles : Type 0 where
  pub platform : String
  pub projects : List (String × String)
  pub enforced : Bool
  pub suspended : Bool

-- The zero value of a missing key.
abbrev pub or_empty : Option String → String
or_empty none = ""
or_empty (some r) = r

-- r.Projects[project]
abbrev pub role_at : List (String × String) → String → String
role_at projects project = or_empty (lookup project projects)

-- Roles.Can
unfoldable pub can : Roles → String → String → Bool
can r action project =
    if allows r.platform action
    then true
    else if project == ""
    then false
    else allows (role_at r.projects project) action

-- Roles.ProjectRole
unfoldable pub project_role : Roles → String → String
project_role r project =
    let role = role_at r.projects project in
    if r.platform == role_platform_admin
    then role_admin
    else if role == ""
    then (if r.platform == role_platform_viewer then role_viewer else "")
    else role
