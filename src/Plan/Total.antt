-- ===== src/Plan/Total.antt =====
-- checkPlan of pkg/api/plan.go over a workspace's apps.
use shpyrd.Common.{
  ℕ, ◌+◌, String, ◌≡◌, refl, sym, Bool, true, false, not, ◌&&◌, ◌||◌, Option, none, some, List, [],
  ◌∷◌, arith, inl, inr, Bool-cases, Option-cases, any, keep, IsUnique, eq_iff, ◌==◌, if◌then◌else◌,
}
use shpyrd.Store.Types.{Limits}
use shpyrd.Sizes.Quantities.{Quantities}
use shpyrd.Sizes.Catalog.{Catalog}
use shpyrd.Plan.Usage.{
  App, Volume, Usage, no_usage, add_unseen, with_volumes, add_app, add_apps, add_volumes,
  workspace_usage, workspace_of, same_app,
}
use shpyrd.Plan.Check.{axis_compute, check_plan, allowed, exceeds, judge_usage, Cluster}
use shpyrd.Plan.Ceilings.{IsUnder, exceeds-IsWithin}
use shpyrd.Plan.Count.{instances_of, add_app-instances}

module _ (q : Quantities) (ws : String) (r : App q) where
  -- An app of the workspace that the changed one does not replace
  abbrev is_other : App q → Bool
  is_other a = workspace_of q a == ws && not (same_app q a r)

  abbrev in_place : App q → Bool
  in_place a = workspace_of q a == ws && same_app q a r

  abbrev total : List (App q) → ℕ
  total [] = 0
  total (a ∷ rest) = instances_of q a + total rest

  -- The instances of the workspace's other apps
  abbrev pub others : List (App q) → ℕ
  others apps = total (keep is_other apps)

  no_second :
      (a : App q) (rest : List (App q))
      → same_app q a r ≡ true
      → any (same_app q a) rest ≡ false
      → any in_place rest ≡ false
  unfolding any
  no_second a [] h k = refl
  no_second a (b ∷ rest) h k = ground (
    arith,
    no_second a rest h,
    eq_iff a.namespace r.namespace,
    eq_iff a.name r.name,
    eq_iff b.namespace r.namespace,
    eq_iff b.name r.name,
    eq_iff a.namespace b.namespace,
    eq_iff a.name b.name,
  )

  add_apps-instances :
      (cat : Catalog) (apps : List (App q)) (seen : Bool) (u : Usage q) (after : Bool) (v : Usage q)
      → IsUnique (same_app q) apps
      → add_apps q cat ws (some r) apps seen u ≡ some (after, v)
      → (after ≡ (seen || any in_place apps))
        × (v.instances
            ≡ u.instances + others apps + (if any in_place apps then instances_of q r else 0))
  unfolding add_apps any keep
  add_apps-instances cat [] seen u after v un h = ground arith
  add_apps-instances cat (a ∷ rest) seen u after v un h =
      elim (Bool-cases (workspace_of q a == ws)) [
        | inr e ↦ ground (arith, e, add_apps-instances cat rest seen u after v un.1)
        | inl e ↦ elim (Bool-cases (same_app q a r)) [
          | inl s ↦ elim (Option-cases (add_app q cat r u)) [
            | inl n ↦ absurd (ground (arith, e, s, n))
            | inr (w, n) ↦ ground (
              arith,
              e,
              s,
              n,
              no_second a rest s un.0,
              add_app-instances q cat r u w n,
              add_apps-instances cat rest true w after v un.1,
              add_apps-instances cat rest (seen || true) w after v un.1,
            )
          ]
          | inr s ↦ elim (Option-cases (add_app q cat a u)) [
            | inl n ↦ absurd (ground (arith, e, s, n))
            | inr (w, n) ↦ ground (
              arith,
              e,
              s,
              n,
              add_app-instances q cat a u w n,
              add_apps-instances cat rest (seen || false) w after v un.1,
            )
          ]
        ]
      ]

  add_volumes-instances :
      (vs : List (Volume q)) (u : Usage q) → (add_volumes q ws vs u).instances ≡ u.instances
  unfolding add_volumes
  add_volumes-instances [] u = refl
  add_volumes-instances (v ∷ rest) u = ground (
    arith,
    add_volumes-instances rest u,
    add_volumes-instances rest (record u { storage = q.add u.storage v.size }),
  )

  add_unseen-instances :
      (cat : Catalog) (apps : List (App q)) (v : Usage q)
      → IsUnique (same_app q) apps
      → add_unseen q cat (some r) (add_apps q cat ws (some r) apps false (no_usage q)) ≡ some v
      → v.instances ≡ others apps + instances_of q r
  add_unseen-instances cat apps v un h =
      elim (Option-cases (add_apps q cat ws (some r) apps false (no_usage q))) [
        | inl e ↦ absurd (ground (arith, e))
        | inr ((after, w), e) ↦ ground (
          arith,
          e,
          add_app-instances q cat r w v,
          add_apps-instances cat apps false (no_usage q) after w un e,
        )
      ]

  with_volumes-instances :
      (vs : Option (List (Volume q))) (o : Option (Usage q)) (v : Usage q)
      → with_volumes q ws vs o ≡ some v
      → (w : Usage q) × (o ≡ some w) × (v.instances ≡ w.instances)
  with_volumes-instances vs none v h = absurd (ground (arith, h))
  with_volumes-instances none (some u) v h = (u, refl, ground arith)
  with_volumes-instances (some vs) (some u) v h =
      (u, refl, ground (arith, add_volumes-instances vs u))

  workspace_usage-instances :
      (cat : Catalog) (apps : List (App q)) (vs : Option (List (Volume q))) (v : Usage q)
      → IsUnique (same_app q) apps
      → workspace_usage q ws cat (some r) apps vs ≡ some v
      → v.instances ≡ others apps + instances_of q r
  unfolding workspace_usage
  workspace_usage-instances cat apps vs v un h =
      let (w, e, s) =
        with_volumes-instances vs
          (add_unseen q cat (some r) (add_apps q cat ws (some r) apps false (no_usage q))) v h in
      ground (arith, s, add_unseen-instances cat apps w un e)

  judge_usage-allowed :
      (l : Limits) (u : Usage q)
      → judge_usage q l (axis_compute ∷ []) (λ u. u) (some u) ≡ allowed
      → IsUnder l.instances u.instances
  judge_usage-allowed l u h = elim (Option-cases (exceeds q l u (axis_compute ∷ []))) [
    | inl e ↦ ((exceeds-IsWithin q l u (axis_compute ∷ [])).0.0 e).0.0
    | inr (c, e) ↦ absurd (ground (arith, e))
  ]

  -- A change to an app that checkPlan lets through, in a workspace with a plan, leaves the
  -- workspace's other apps and the changed app together within the plan's instances, if no two
  -- apps have one namespace and name.
  pub check_plan-instances :
      (l : Limits) (k : Cluster q) (cat : Catalog) (apps : List (App q))
      → k.catalog ≡ some cat
      → k.apps ≡ some apps
      → IsUnique (same_app q) apps
      → check_plan q (some l) ws r k ≡ allowed
      → IsUnder l.instances (others apps + instances_of q r)
  unfolding check_plan
  check_plan-instances l k cat apps c a un h =
      elim (Option-cases (workspace_usage q ws cat (some r) apps k.volumes)) [
        | inl e ↦ absurd (ground (arith, c, a, e))
        | inr (v, e) ↦
            rw (sym (workspace_usage-instances cat apps k.volumes v un e))
              (judge_usage-allowed l v (ground (arith, c, a, e)))
      ]
