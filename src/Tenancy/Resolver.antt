-- ===== src/Tenancy/Resolver.antt =====
-- The resolvers of pkg/tenancy/tenancy.go. The methods of the store that they call are a parameter,
-- Directory; the clock is an argument.
use shpyrd.Common.{
  ℕ, ◌+◌, String, Bool, ◌&&◌, ◌||◌, not, Option, none, some, List, [], ltb, leb, ◌==◌,
  if◌then◌else◌, length, lookup, insert, remove, to_lower,
}
use shpyrd.Store.Types.{Workspace, default_workspace}
use shpyrd.Tenancy.Hosts.{host_of, internal, one_label_under, after_dot}

-- What a method of the store answers: a workspace, ErrNotFound or another error.
pub data Found : Type 0 where
  found : Workspace → Found
  absent trouble : Found

-- WorkspaceByAddress and Workspace of store.Store, as they answer during one call of a resolver.
pub record Directory : Type 0 where
  pub by_address : String → Found
  pub by_slug : String → Found

-- What Resolve answers: a workspace, ErrUnknownHost or an error of the store.
pub data Outcome : Type 0 where
  at : Workspace → Outcome
  unknown_host failed : Outcome

pub record Entry : Type 0 where
  pub outcome : Outcome
  pub expires : ℕ

pub record ByAddress : Type 0 where
  pub domain : String
  pub dashboard_host : String
  pub ttl : ℕ
  pub cache : List (String × Entry)

-- Ten seconds, in nanoseconds
abbrev pub default_ttl : ℕ
default_ttl = 10000000000

-- ByAddress.ttl
unfoldable pub effective_ttl : ℕ → ℕ
effective_ttl ttl = if leb ttl 0 then default_ttl else ttl

abbrev pub of_store : Found → Outcome
of_store (found w) = at w
of_store absent = failed
of_store trouble = failed

module _ (split_host_port : String → Option String) (is_ip : String → Bool) where
  -- The names of the platform itself in ByAddress.lookup.
  unfoldable pub is_platform : ByAddress → String → Bool
  is_platform r host =
      let domain = to_lower r.domain in
      let dashboard = to_lower (host_of split_host_port is_ip r.dashboard_host) in
      internal split_host_port is_ip host
      || (not (domain == "") && (host == domain || one_label_under host domain))
      || (not (dashboard == "") && host == dashboard)

  abbrev pub platform : Directory → ByAddress → String → Outcome
  platform dir r host =
      if is_platform r host then of_store (dir.by_slug default_workspace) else unknown_host

  abbrev pub or_platform : Directory → ByAddress → String → Found → Outcome
  or_platform dir r host (found w) = at w
  or_platform dir r host absent = platform dir r host
  or_platform dir r host trouble = failed

  abbrev pub parent : Directory → ByAddress → String → Option String → Outcome
  parent dir r host none = platform dir r host
  parent dir r host (some p) =
      if p == "" then platform dir r host else or_platform dir r host (dir.by_address p)

  abbrev pub or_parent : Directory → ByAddress → String → Found → Outcome
  or_parent dir r host (found w) = at w
  or_parent dir r host absent = parent dir r host (after_dot host)
  or_parent dir r host trouble = failed

  -- ByAddress.lookup
  unfoldable pub look_up : Directory → ByAddress → String → Outcome
  look_up dir r host = or_parent dir r host (dir.by_address host)

  -- What Resolve does with the outcome of a lookup, under the lock: errors of the store are not
  -- kept, and a cache with more than 4096 entries is emptied.
  unfoldable pub remember : ℕ → String → Outcome → ByAddress → ByAddress
  remember now host failed r = r
  remember now host (at w) r = record r {
    cache =
        insert host (record { outcome = at w; expires = now + effective_ttl r.ttl })
          (if ltb 4096 (length r.cache) then [] else r.cache);
  }
  remember now host unknown_host r = record r {
    cache =
        insert host (record { outcome = unknown_host; expires = now + effective_ttl r.ttl })
          (if ltb 4096 (length r.cache) then [] else r.cache);
  }

  abbrev unless_cached : ℕ → Outcome → ByAddress → String → Option Entry → Outcome × ByAddress
  unless_cached now fresh r host none = (fresh, remember now host fresh r)
  unless_cached now fresh r host (some e) =
      if ltb now e.expires then (e.outcome, r) else (fresh, remember now host fresh r)

  -- ByAddress.Resolve
  unfoldable pub resolve : ℕ → Directory → String → ByAddress → Outcome × ByAddress
  resolve now dir hostport r =
      let host = host_of split_host_port is_ip hostport in
      unless_cached now (look_up dir r host) r host (lookup host r.cache)

  -- ByAddress.Forget
  unfoldable pub forget : String → ByAddress → ByAddress
  forget host r = record r { cache = remove (host_of split_host_port is_ip host) r.cache }
