-- ===== src/Tenancy/Caches.antt =====
-- The cache of ByAddress, pkg/tenancy/tenancy.go, over any interleaving of calls. Resolve reads the
-- cache under the lock, asks the store without it, and takes it again to remember the outcome.
use shpyrd.Common.{
  ℕ, ◌+◌, ◌≤◌, ◌<◌, String, ◌≡◌, refl, sym, Bool, not, Option, List, [], ltb, ◌==◌, if◌then◌else◌,
  length, lookup, lookup-remove, eq_refl, remove, arith, inl, inr, Bool-cases, Option-cases, All,
  All-insert, All-lookup_at, length-insert, length-keep_le, All-keep, ltb→lt,
}
use shpyrd.Tenancy.Hosts.{host_of}
use shpyrd.Tenancy.Resolver.{
  Directory, Outcome, at, unknown_host, failed, Entry, ByAddress, effective_ttl, is_platform,
  look_up, remember, resolve, forget,
}

pub ttl-positive : (ttl : ℕ) → 0 < effective_ttl ttl
unfolding effective_ttl
ttl-positive ttl = ground arith

-- `seen t` is the store as a call sees it that has read the clock at t.
module _ (split_host_port : String → Option String) (is_ip : String → Bool) (seen : ℕ → Directory)
    (r : ByAddress) where
  abbrev pub with_cache : List (String × Entry) → ByAddress
  with_cache c = record r { cache = c }

  -- The caches that calls lead to, in any order, each call remembering what it found when it may.
  pub data Reaches : List (String × Entry) → Type 0 where
    start : Reaches []
    remembered :
        {c : List (String × Entry)} (now : ℕ) (host : String)
        → Reaches c
        → Reaches
            (remember split_host_port is_ip now host
              (look_up split_host_port is_ip (seen now) r host)
              (with_cache c)).cache
    forgotten :
        {c : List (String × Entry)} (host : String)
        → Reaches c
        → Reaches (forget split_host_port is_ip host (with_cache c)).cache

  -- An entry is what a lookup found that started less than the TTL before it expires.
  abbrev IsFound : String × Entry → Type 0
  IsFound e =
      (t : ℕ) × (e.1.outcome ≡ look_up split_host_port is_ip (seen t) r e.0)
      × (e.1.expires ≡ t + effective_ttl r.ttl)

  or_emptied :
      (c : List (String × Entry))
      → All IsFound c
      → All IsFound (if ltb 4096 (length c) then [] else c)
  or_emptied c h = elim (Bool-cases (ltb 4096 (length c))) [ inl e ↦ rw e tt | inr e ↦ rw e h ]

  remember-IsFound :
      (now : ℕ) (host : String) (o : Outcome) (c : List (String × Entry))
      → o ≡ look_up split_host_port is_ip (seen now) r host
      → All IsFound c
      → All IsFound (remember split_host_port is_ip now host o (with_cache c)).cache
  unfolding remember
  remember-IsFound now host failed c e h = h
  remember-IsFound now host unknown_host c e h =
      All-insert IsFound host _ _ (now, e, refl) (or_emptied c h)
  remember-IsFound now host (at w) c e h =
      All-insert IsFound host _ _ (now, e, refl) (or_emptied c h)

  Reaches-IsFound : {c : List (String × Entry)} → Reaches c → All IsFound c
  unfolding forget remove
  Reaches-IsFound start = tt
  Reaches-IsFound (remembered {c} now host h) =
      remember-IsFound now host _ c refl (Reaches-IsFound h)
  Reaches-IsFound (forgotten {c} host h) = All-keep IsFound _ c (Reaches-IsFound h)

  remember-length :
      (now : ℕ) (host : String) (o : Outcome) (c : List (String × Entry))
      → length c ≤ 4097
      → length (remember split_host_port is_ip now host o (with_cache c)).cache ≤ 4097
  unfolding remember
  remember-length now host failed c h = h
  remember-length now host unknown_host c h = ground (
    arith,
    length-insert {V = Entry} host
        (record { outcome = unknown_host; expires = now + effective_ttl r.ttl }) c,
    length-insert {V = Entry} host
        (record { outcome = unknown_host; expires = now + effective_ttl r.ttl }) [],
  )
  remember-length now host (at w) c h = ground (
    arith,
    length-insert {V = Entry} host (record { outcome = at w; expires = now + effective_ttl r.ttl })
        c,
    length-insert {V = Entry} host (record { outcome = at w; expires = now + effective_ttl r.ttl })
        [],
  )

  -- However calls of Resolve and Forget interleave, the cache has at most 4097 entries.
  pub Reaches-length : {c : List (String × Entry)} → Reaches c → length c ≤ 4097
  unfolding forget remove
  Reaches-length start = omega arith
  Reaches-length (remembered {c} now host h) = remember-length now host _ c (Reaches-length h)
  Reaches-length (forgotten {c} host h) = omega (
    arith,
    Reaches-length h,
    length-keep_le (λ e. not (e.0 == host_of split_host_port is_ip host)) c,
  )

  before : (now : ℕ) → now < now + effective_ttl r.ttl
  before now = omega (arith, ttl-positive r.ttl)

  -- Whatever calls came before and however they interleaved, Resolve answers what a lookup of the
  -- host finds in the store, in a call that read the clock less than the TTL ago.
  pub resolve_recent :
      {c : List (String × Entry)} (now : ℕ) (hostport : String)
      → Reaches c
      → (t : ℕ) × (now < t + effective_ttl r.ttl)
        × ((resolve split_host_port is_ip now (seen now) hostport (with_cache c)).0
            ≡ look_up split_host_port is_ip (seen t) r (host_of split_host_port is_ip hostport))
  unfolding resolve look_up is_platform
  resolve_recent {c} now hostport h =
      elim (Option-cases (lookup (host_of split_host_port is_ip hostport) c)) [
        | inl e ↦ rw e (now, before now, refl)
        | inr (old, e) ↦ elim (Bool-cases (ltb now old.expires)) [
          | inr f ↦ rw (e, f) (now, before now, refl)
          | inl f ↦
              let (t, same, until) = All-lookup_at IsFound _ c (Reaches-IsFound h) e in
              rw (e, f) (t, rw (sym until) (ltb→lt now old.expires f), same)
        ]
      ]

  -- After Forget of a host, Resolve answers what a lookup of the host finds in the store now.
  pub resolve-forget :
      (c : List (String × Entry)) (now : ℕ) (hostport : String)
      → (resolve split_host_port is_ip now
          (seen now)
          hostport
          (forget split_host_port is_ip hostport (with_cache c))).0
        ≡ look_up split_host_port is_ip (seen now) r (host_of split_host_port is_ip hostport)
  unfolding resolve forget look_up is_platform
  resolve-forget c now hostport = rw (lookup-remove, eq_refl) refl
