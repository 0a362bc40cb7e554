-- ===== src/Authz/Resolver.antt =====
-- The type Resolver of pkg/authz/authz.go: a cache of snapshots, one for each workspace. What Load
-- returns and the two readings of the clock are arguments.
use shpyrd.Common.{
  ℕ, ◌-◌, String, Bool, Option, none, some, List, [], ltb, leb, ◌==◌, if◌then◌else◌, lookup, insert,
}
use shpyrd.Store.Types.{default_workspace}
use shpyrd.Store.State.{Result, ok, err}
use shpyrd.Authz.Roles.{Roles}
use shpyrd.Authz.Snapshot.{Snapshot, Identity, roles_for}

pub record Cached : Type 0 where
  pub snap : Snapshot
  pub fetched : ℕ

pub record Resolver : Type 0 where
  pub workspace : String
  pub ttl : ℕ
  pub snaps : List (String × Cached)

-- Five seconds, in nanoseconds
abbrev pub default_ttl : ℕ
default_ttl = 5000000000

abbrev pub effective_ttl : ℕ → ℕ
effective_ttl ttl = if leb ttl 0 then default_ttl else ttl

abbrev pub effective_workspace : String → String
effective_workspace ws = if ws == "" then default_workspace else ws

-- What the environment gives to one call: the clock at the test of the age, the clock after
-- loading, and the outcome of Load.
pub record Fetch : Type 0 where
  pub check_at : ℕ
  pub fetched_at : ℕ
  pub load : String → Result Snapshot

-- now().Sub(c.fetched) < ttl. A clock that went back gives 0, below any ttl, as in the source.
abbrev pub is_recent : ℕ → ℕ → Cached → Bool
is_recent now ttl c = ltb (now - c.fetched) ttl

abbrev refresh :
    Fetch → String → Resolver → Option Cached → Result Snapshot → Result Snapshot × Resolver
refresh f ws r c (ok snap) = (
  ok snap,
  record r { snaps = insert ws (record { snap = snap; fetched = f.fetched_at }) r.snaps },
)
refresh f ws r (some c) (err e) = (ok c.snap, r)
refresh f ws r none (err e) = (err e, r)

abbrev from_cache : Fetch → String → Resolver → Option Cached → Result Snapshot × Resolver
from_cache f ws r none = refresh f ws r none (f.load ws)
from_cache f ws r (some c) =
    if is_recent f.check_at (effective_ttl r.ttl) c
    then (ok c.snap, r)
    else refresh f ws r (some c) (f.load ws)

-- Resolver.SnapshotFor
unfoldable pub snapshot_for : Fetch → String → Resolver → Result Snapshot × Resolver
snapshot_for f ws r = let slug = effective_workspace ws in from_cache f slug r (lookup slug r.snaps)

-- Resolver.Snapshot
unfoldable pub snapshot : Fetch → Resolver → Result Snapshot × Resolver
unfolding snapshot_for
snapshot f r = snapshot_for f r.workspace r

-- Resolver.Invalidate
unfoldable pub invalidate : Resolver → Resolver
invalidate r = record r { snaps = [] }

abbrev with_roles : Identity → Result Snapshot × Resolver → Result Roles × Resolver
with_roles id (ok s, r) = (ok (roles_for s id), r)
with_roles id (err e, r) = (err e, r)

-- Resolver.RolesIn
unfoldable pub roles_in : Fetch → String → Identity → Resolver → Result Roles × Resolver
unfolding snapshot_for
roles_in f ws id r = with_roles id (snapshot_for f ws r)

-- Resolver.Roles
unfoldable pub roles : Fetch → Identity → Resolver → Result Roles × Resolver
unfolding roles_in
roles f id r = roles_in f r.workspace id r
