-- ===== src/Project/Names.antt =====
-- Slugs, reserved hosts and namespaces of pkg/project/project.go.
use Prim.Native.String.{◌++◌}
use shpyrd.Common.{
  String, Bool, not, ◌||◌, Option, none, some, List, [], ◌∷◌, ◌==◌, if◌then◌else◌, any,
  matches_name,
}
use text.Mathlib.Text.{starts_with}
use shpyrd.Store.Types.{default_workspace}

-- The errors, one for each message
pub data BadName : Type 0 where
  bad_slug namespace_prefix reserved_host bad_workspace_slug reserved_workspace : BadName

-- ValidSlug
unfoldable pub valid_slug : String → Bool
valid_slug s = matches_name 38 s

-- ValidateSlug; `none` is a nil error.
unfoldable pub validate_slug : String → Option BadName
validate_slug s =
    if not (valid_slug s)
    then some bad_slug
    else if starts_with s "app-"
    then some namespace_prefix
    else none

-- reservedHosts: the keys of the map
abbrev pub reserved_hosts : List String
reserved_hosts =
    "www" ∷ "api" ∷ "app" ∷ "apps" ∷ "auth" ∷ "login" ∷ "signin" ∷ "console" ∷ "ops" ∷ "admin"
    ∷ "mail" ∷ "smtp" ∷ "shpyrd" ∷ "status" ∷ "docs" ∷ "grafana" ∷ "registry" ∷ "edge" ∷ "oauth"
    ∷ "well-known" ∷ "ns1" ∷ "ns2" ∷ []

-- Reserved
unfoldable pub reserved : String → Bool
reserved slug = any (λ h. h == slug) reserved_hosts

abbrev or_reserved : String → Option BadName → Option BadName
or_reserved s (some e) = some e
or_reserved s none = if reserved s then some reserved_host else none

-- ValidateNewSlug
unfoldable pub validate_new_slug : String → Option BadName
validate_new_slug s = or_reserved s (validate_slug s)

-- ValidateWorkspaceSlug
unfoldable pub validate_workspace_slug : String → Option BadName
validate_workspace_slug s =
    if not (matches_name 22 s)
    then some bad_workspace_slug
    else if s == default_workspace || reserved s || starts_with s "app-"
    then some reserved_workspace
    else none

-- NamespaceIn
unfoldable pub namespace_in : String → String → String
namespace_in workspace slug =
    if workspace == "" || workspace == default_workspace
    then "app-" ++ slug
    else (("app-" ++ workspace) ++ "-") ++ slug

-- Namespace
unfoldable pub namespace : String → String
namespace slug = namespace_in default_workspace slug
