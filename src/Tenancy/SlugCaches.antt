-- ===== src/Tenancy/SlugCaches.antt =====
-- The cache of Addresses, pkg/tenancy/tenancy.go, over any interleaving of calls. Workspace reads the
-- cache under the lock, asks the store without it, and takes it again to keep the answer.
use shpyrd.Common.{
  ℕ, ◌+◌, ◌<◌, String, ◌≡◌, refl, sym, Option, none, some, List, [], ltb, lookup, arith, inl, inr,
  Bool-cases, Option-cases, All, All-insert, All-lookup_at, ltb→lt,
}
use shpyrd.Store.Types.{Workspace}
use shpyrd.Tenancy.Resolver.{Found, found, absent, trouble, Directory, effective_ttl}
use shpyrd.Tenancy.Caches.{ttl-positive}
use shpyrd.Tenancy.Slugs.{SlugEntry, Addresses, ask, or_default, workspace_of}

-- A workspace that the store found; nil on any error
abbrev pub found_or_nil : Found → Option Workspace
found_or_nil (found w) = some w
found_or_nil absent = none
found_or_nil trouble = none

-- `seen t` is the store as a call sees it that has read the clock at t.
module _ (ttl : ℕ) (seen : ℕ → Directory) where
  abbrev pub with_entries : List (String × SlugEntry) → Addresses
  with_entries c = record { ttl = ttl; cache = c }

  -- The caches that calls lead to, in any order, each call keeping its answer when it may. Calls for
  -- other slugs, and calls that find an answer here, change nothing else.
  pub data Reaches : List (String × SlugEntry) → Type 0 where
    start : Reaches []
    kept :
        {c : List (String × SlugEntry)} (now : ℕ) (slug : String)
        → Reaches c
        → Reaches (ask now slug (with_entries c) ((seen now).by_slug slug)).1.cache

  -- An entry is what the store answered, but for trouble, to a call that read the clock the TTL
  -- before it expires.
  abbrev IsAnswer : String × SlugEntry → Type 0
  IsAnswer e =
      (t : ℕ) × (e.1.workspace ≡ found_or_nil ((seen t).by_slug e.0))
      × (e.1.expires ≡ t + effective_ttl ttl)

  ask-IsAnswer :
      (now : ℕ) (slug : String) (f : Found) (c : List (String × SlugEntry))
      → found_or_nil f ≡ found_or_nil ((seen now).by_slug slug)
      → All IsAnswer c
      → All IsAnswer (ask now slug (with_entries c) f).1.cache
  ask-IsAnswer now slug (found w) c e h = All-insert IsAnswer slug _ c (now, e, refl) h
  ask-IsAnswer now slug absent c e h = All-insert IsAnswer slug _ c (now, e, refl) h
  ask-IsAnswer now slug trouble c e h = h

  Reaches-IsAnswer : {c : List (String × SlugEntry)} → Reaches c → All IsAnswer c
  Reaches-IsAnswer start = tt
  Reaches-IsAnswer (kept {c} now slug h) = ask-IsAnswer now slug _ c refl (Reaches-IsAnswer h)

  ask-found_or_nil :
      (now : ℕ) (slug : String) (a : Addresses) (f : Found) → (ask now slug a f).0 ≡ found_or_nil f
  ask-found_or_nil now slug a (found w) = refl
  ask-found_or_nil now slug a absent = refl
  ask-found_or_nil now slug a trouble = refl

  -- Whatever calls came before and however they interleaved, Workspace answers what the store
  -- answers for the slug, the empty one being that of the implicit workspace, in a call that read the
  -- clock less than the TTL before now; the answer is nil where the store finds none or fails.
  pub workspace_of_recent :
      {c : List (String × SlugEntry)} (now : ℕ) (slug : String)
      → Reaches c
      → (t : ℕ) × (now < t + effective_ttl ttl)
        × ((workspace_of now (seen now) slug (with_entries c)).0
            ≡ found_or_nil ((seen t).by_slug (or_default slug)))
  unfolding workspace_of
  workspace_of_recent {c} now slug h =
      let before : now < now + effective_ttl ttl = omega (arith, ttl-positive ttl) in
      let fresh =
        ask-found_or_nil now (or_default slug) (with_entries c)
          ((seen now).by_slug (or_default slug)) in
      elim (Option-cases (lookup (or_default slug) c)) [
        | inl e ↦ rw e (now, before, fresh)
        | inr (old, e) ↦ elim (Bool-cases (ltb now old.expires)) [
          | inr f ↦ rw (e, f) (now, before, fresh)
          | inl f ↦
              let (t, same, until) =
                All-lookup_at IsAnswer (or_default slug) c (Reaches-IsAnswer h) e in
              rw (e, f) (t, rw (sym until) (ltb→lt now old.expires f), same)
        ]
      ]
