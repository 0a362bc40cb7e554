-- ===== src/Tenancy/Tests.antt =====
-- Resolving hosts at concrete inputs.
use shpyrd.Common.{
  ℕ, ◌+◌, ◌≤◌, ◌<◌, String, ◌≡◌, refl, Bool, false, Option, none, some, List, [], ◌∷◌, length,
  lookup, find?, any, to_lower, trim_space,
}
use shpyrd.Store.Types.{Workspace, workspace_active}
use shpyrd.Store.State.{Memory, empty_memory}
use shpyrd.Store.Workspaces.{no_settings, workspace_by_address}
use shpyrd.Store.Valid.{WorkspacesValid}
use shpyrd.Tenancy.Hosts.{
  host_of, after_dot, internal, one_label_under, has_suffix, contains, cut_suffix, before_bracket,
  has_dot,
}
use shpyrd.Tenancy.Resolver.{
  Directory, at, unknown_host, Entry, ByAddress, effective_ttl, look_up, resolve, remember,
  is_platform,
}
use shpyrd.Tenancy.Caches.{with_cache, Reaches, start, remembered, Reaches-length, resolve_recent}
use shpyrd.Tenancy.Slugs.{SlugEntry, Addresses, workspace_of, or_default}
use shpyrd.Tenancy.SlugCaches
use shpyrd.Tenancy.SlugCaches.{found_or_nil, with_entries, workspace_of_recent}
use shpyrd.Store.Workspaces.{workspace}
use shpyrd.Store.State.{with_ws}
use shpyrd.Tenancy.Claims.{memory_directory, memory_directory-IsLawful, Claims, resolve-Claims}

abbrev acme : Workspace
acme = record {
  id = "w2";
  slug = "acme";
  name = "Acme";
  address = "acme.shpyrd.app";
  status = workspace_active;
  settings = no_settings;
  created_at = 1;
  updated_at = 1;
}

abbrev store : Memory
store = record empty_memory { workspaces = ("acme", acme) ∷ [] }

store-WorkspacesValid : WorkspacesValid store.workspaces
unfolding any
store-WorkspacesValid = record {
  keyed = (refl, tt);
  slugs = (refl, tt);
  ids = (refl, tt);
  addresses = (refl, tt);
}

-- No text has a port, and none is an address of a machine.
abbrev no_port : String → Option String
no_port h = none

abbrev no_ip : String → Bool
no_ip h = false

abbrev seen : ℕ → Directory
seen t = memory_directory store

abbrev resolver : ByAddress
resolver = record { domain = "shpyrd.app"; dashboard_host = ""; ttl = 0; cache = [] }

abbrev host : String
host = host_of no_port no_ip "Shop.Acme.shpyrd.app."

host_is : host ≡ "shop.acme.shpyrd.app"
unfolding host_of to_lower trim_space before_bracket cut_suffix
host_is = refl

shop_is_acme : look_up no_port no_ip (seen 5) resolver "shop.acme.shpyrd.app" ≡ at acme
unfolding look_up workspace_by_address find? to_lower trim_space after_dot
shop_is_acme = refl

nobody_at : look_up no_port no_ip (seen 5) resolver "shop.example.com" ≡ unknown_host
unfolding look_up workspace_by_address find? to_lower trim_space after_dot is_platform internal
    one_label_under has_suffix contains cut_suffix host_of has_dot
nobody_at = refl

abbrev cached : List (String × Entry)
cached =
    (remember no_port no_ip 5 host (look_up no_port no_ip (seen 5) resolver host)
      (with_cache no_port no_ip seen resolver [])).cache

once : Reaches no_port no_ip seen resolver cached
once = remembered 5 host start

Reaches-length_example : length cached ≤ 4097
Reaches-length_example = Reaches-length no_port no_ip seen resolver once

resolve_recent_example :
    (t : ℕ) × (7 < t + effective_ttl 0)
    × ((resolve no_port no_ip 7
          (seen 7)
          "shop.acme.shpyrd.app"
          (with_cache no_port no_ip seen resolver cached)).0
        ≡ look_up no_port no_ip (seen t) resolver (host_of no_port no_ip "shop.acme.shpyrd.app"))
resolve_recent_example = resolve_recent no_port no_ip seen resolver 7 "shop.acme.shpyrd.app" once

lands :
    (resolve no_port no_ip 7
      (seen 7)
      "shop.acme.shpyrd.app"
      (with_cache no_port no_ip seen resolver [])).0
    ≡ at acme
unfolding resolve host_of to_lower trim_space before_bracket cut_suffix look_up workspace_by_address
    find? after_dot lookup
lands = refl

resolve-Claims_example :
    Claims no_port no_ip resolver (host_of no_port no_ip "shop.acme.shpyrd.app") acme
resolve-Claims_example =
    resolve-Claims no_port no_ip seen resolver 7 "shop.acme.shpyrd.app"
      (λ t. memory_directory-IsLawful store store-WorkspacesValid) start lands

abbrev addresses : Addresses
addresses = record { ttl = 0; cache = [] }

is_acme : (workspace_of 5 (seen 5) "acme" addresses).0 ≡ some acme
unfolding workspace_of workspace lookup with_ws
is_acme = refl

abbrev slugs : List (String × SlugEntry)
slugs = (workspace_of 5 (seen 5) "acme" (with_entries 0 seen [])).1.cache

slugs-Reaches : SlugCaches.Reaches 0 seen slugs
unfolding workspace_of lookup workspace with_ws
slugs-Reaches = SlugCaches.kept 5 "acme" SlugCaches.start

workspace_of_recent_example :
    (t : ℕ) × (7 < t + effective_ttl 0)
    × ((workspace_of 7 (seen 7) "acme" (with_entries 0 seen slugs)).0
        ≡ found_or_nil ((seen t).by_slug (or_default "acme")))
workspace_of_recent_example = workspace_of_recent 0 seen 7 "acme" slugs-Reaches
