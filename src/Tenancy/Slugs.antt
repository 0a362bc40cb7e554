-- ===== src/Tenancy/Slugs.antt =====
-- Single and Addresses of pkg/tenancy/tenancy.go. `none` is a nil workspace.
use shpyrd.Common.{
  ℕ, ◌+◌, String, ◌||◌, Option, none, some, List, ltb, ◌==◌, if◌then◌else◌, lookup, insert,
}
use shpyrd.Store.Types.{Workspace, Limits, default_workspace}
use shpyrd.Tenancy.Resolver.{Found, found, absent, trouble, Directory, effective_ttl}

pub record Single : Type 0 where
  pub workspace : Option Workspace

abbrev read_once : Single → Found → Found × Single
read_once s (found w) = (found w, record { workspace = some w })
read_once s absent = (absent, s)
read_once s trouble = (trouble, s)

abbrev kept_or_read : Directory → Single → Option Workspace → Found × Single
kept_or_read dir s (some w) = (found w, s)
kept_or_read dir s none = read_once s (dir.by_slug default_workspace)

-- Single.Resolve, which does not look at the host
unfoldable pub resolve_single : Directory → Single → Found × Single
resolve_single dir s = kept_or_read dir s s.workspace

pub record SlugEntry : Type 0 where
  pub workspace : Option Workspace
  pub expires : ℕ

pub record Addresses : Type 0 where
  pub ttl : ℕ
  pub cache : List (String × SlugEntry)

abbrev keep_answer : ℕ → String → Option Workspace → Addresses → Option Workspace × Addresses
keep_answer now slug ws a = (
  ws,
  record a {
    cache = insert slug (record { workspace = ws; expires = now + effective_ttl a.ttl }) a.cache;
  },
)

abbrev pub ask : ℕ → String → Addresses → Found → Option Workspace × Addresses
ask now slug a (found w) = keep_answer now slug (some w) a
ask now slug a absent = keep_answer now slug none a
ask now slug a trouble = (none, a)

abbrev pub unless_cached :
    ℕ → Directory → String → Addresses → Option SlugEntry → Option Workspace × Addresses
unless_cached now dir slug a none = ask now slug a (dir.by_slug slug)
unless_cached now dir slug a (some e) =
    if ltb now e.expires then (e.workspace, a) else ask now slug a (dir.by_slug slug)

abbrev pub or_default : String → String
or_default slug = if slug == "" then default_workspace else slug

-- Addresses.Workspace
unfoldable pub workspace_of : ℕ → Directory → String → Addresses → Option Workspace × Addresses
workspace_of now dir slug a =
    let s = or_default slug in unless_cached now dir s a (lookup s a.cache)

abbrev address_or_empty : Option Workspace → String
address_or_empty none = ""
address_or_empty (some w) = w.address

-- Addresses.Address
unfoldable pub address_of : ℕ → Directory → String → Addresses → String × Addresses
address_of now dir slug a =
    let (ws, after) = workspace_of now dir slug a in
    if slug == "" || slug == default_workspace then ("", a) else (address_or_empty ws, after)

abbrev limits_or_none : Option Workspace → Option Limits
limits_or_none none = none
limits_or_none (some w) = w.settings.limits

-- Addresses.Limits
unfoldable pub limits_of : ℕ → Directory → String → Addresses → Option Limits × Addresses
limits_of now dir slug a =
    let (ws, after) = workspace_of now dir slug a in (limits_or_none ws, after)
