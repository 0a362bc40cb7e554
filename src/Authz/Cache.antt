-- ===== src/Authz/Cache.antt =====
-- The Resolver's cache of snapshots.
use shpyrd.Common.{
  ℕ, ◌+◌, ◌-◌, ◌<◌, String, ◌≡◌, refl, true, false, none, some, eq_refl, arith, Bool-cases,
  Option-cases, inl, inr, lookup, lookup-insert, lt→ltb,
}
use shpyrd.Store.Types.{Error}
use shpyrd.Store.State.{Result, ok, err}
use shpyrd.Authz.Snapshot.{Snapshot}
use shpyrd.Authz.Resolver.{
  Cached, Resolver, Fetch, effective_ttl, effective_workspace, is_recent, snapshot_for, invalidate,
}

module _ (f : Fetch) (ws : String) (r : Resolver) where
  abbrev slug : String
  slug = effective_workspace ws

  -- An entry younger than the TTL is returned as it is, without a load, and the cache stays.
  pub snapshot_for_recent :
      (c : Cached)
      → lookup slug r.snaps ≡ some c
      → is_recent f.check_at (effective_ttl r.ttl) c ≡ true
      → snapshot_for f ws r ≡ (ok c.snap, r)
  unfolding snapshot_for
  snapshot_for_recent c e h = rw (e, h)

  -- With no recent entry, what Load returns is returned and cached with its time.
  pub snapshot_for_loaded :
      (s : Snapshot)
      → f.load slug ≡ ok s
      → ((c : Cached)
          → lookup slug r.snaps ≡ some c
          → is_recent f.check_at (effective_ttl r.ttl) c ≡ false)
      → ((snapshot_for f ws r).0 ≡ ok s)
        × (lookup slug (snapshot_for f ws r).1.snaps
            ≡ some (record { snap = s; fetched = f.fetched_at }))
  unfolding snapshot_for
  snapshot_for_loaded s l old = elim (Option-cases (lookup slug r.snaps)) [
    | inl e ↦ rw (e, l) (refl, rw (lookup-insert, eq_refl))
    | inr (c, e) ↦ rw (e, old c e, l) (refl, rw (lookup-insert, eq_refl))
  ]

  -- Where something is cached for the workspace, of whatever age, a load that fails is made up for
  -- by it, and the cache stays.
  pub snapshot_for_stale :
      (c : Cached) (e : Error)
      → lookup slug r.snaps ≡ some c
      → f.load slug ≡ err e
      → snapshot_for f ws r ≡ (ok c.snap, r)
  unfolding snapshot_for
  snapshot_for_stale c e there l =
      elim (Bool-cases (is_recent f.check_at (effective_ttl r.ttl) c)) [
        | inl h ↦ rw (there, h)
        | inr h ↦ rw (there, h, l)
      ]

  -- After Invalidate the next call answers what Load returns, error or not.
  pub snapshot_for-invalidate : (snapshot_for f ws (invalidate r)).0 ≡ f.load slug
  unfolding snapshot_for invalidate lookup
  snapshot_for-invalidate = by_load (f.load slug) refl
    where
      by_load :
          (l : Result Snapshot)
          → f.load slug ≡ l
          → (snapshot_for f ws (invalidate r)).0 ≡ f.load slug
      by_load (ok s) e = rw e
      by_load (err x) e = rw e

-- Two calls for one workspace that was not cached, the second less than the TTL after the first
-- has loaded: the second answers what the first loaded, whatever the store holds by then.
pub snapshot_for_twice :
    (f g : Fetch) (ws : String) (r : Resolver) (s : Snapshot)
    → f.load (effective_workspace ws) ≡ ok s
    → lookup (effective_workspace ws) r.snaps ≡ none
    → g.check_at < f.fetched_at + effective_ttl r.ttl
    → (snapshot_for g ws (snapshot_for f ws r).1).0 ≡ ok s
unfolding snapshot_for
snapshot_for_twice f g ws r s l e h =
    rw (e, l)
      (rw (lookup-insert, eq_refl)
        (rw
          (lt→ltb (g.check_at - f.fetched_at) (effective_ttl r.ttl)
            (recent (effective_ttl r.ttl) (ttl_pos r.ttl) h))
          refl))
  where
    recent : (t : ℕ) → 0 < t → g.check_at < f.fetched_at + t → g.check_at - f.fetched_at < t
    recent t p q = omega arith

    ttl_pos : (t : ℕ) → 0 < effective_ttl t
    ttl_pos t = ground arith
