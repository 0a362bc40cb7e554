-- ===== src/Project/Tests.antt =====
-- Names of concrete projects.
use shpyrd.Common.{String, ◌≡◌, refl, false, none, inr, any, matches_name}
use shpyrd.Project.Names.{namespace_in, validate_workspace_slug, reserved}
use shpyrd.Project.Namespaces.{has_dash, namespace_in_injective, namespace_in_shared}

acceptable : validate_workspace_slug "acme" ≡ none
unfolding validate_workspace_slug matches_name reserved any
acceptable = refl

longer_acceptable : validate_workspace_slug "acme-web" ≡ none
unfolding validate_workspace_slug matches_name reserved any
longer_acceptable = refl

namespace_in_shared_example : namespace_in "acme" "web-shop" ≡ namespace_in "acme-web" "shop"
namespace_in_shared_example = namespace_in_shared "acme" "web" "shop" acceptable longer_acceptable

no_dash : has_dash "acme" ≡ false
unfolding has_dash
no_dash = refl

namespace_in_injective_example :
    (◌≡◌ {A = String} "acme" "acme") × (◌≡◌ {A = String} "web-1" "web-1")
namespace_in_injective_example =
    namespace_in_injective "acme" "acme" "web-1" "web-1" (inr (acceptable, no_dash))
      (inr (acceptable, no_dash)) refl
