-- ===== src/Plan/Count.antt =====
-- What addApp of pkg/api/plan.go counts.
use shpyrd.Common.{
  ℕ, zero, suc, ◌+◌, String, ◌≡◌, some, List, [], ◌∷◌, arith, inl, inr, Option-cases, if◌then◌else◌,
}
use shpyrd.Sizes.Quantities.{Quantities}
use shpyrd.Sizes.Catalog.{Catalog}
use shpyrd.Sizes.Resources.{resolve, resolved, unknown_size, panic, Resolved}
use shpyrd.Plan.Usage.{
  App, Process, Usage, add_instances, add_process, add_processes, add_app, desired, processes_of,
  has_nothing_to_run,
}

module _ (q : Quantities) where
  -- The instances that the processes of an app ask for
  abbrev total_desired : List (String × Process q) → ℕ
  total_desired [] = 0
  total_desired ((name, p) ∷ rest) = desired q p.replicas + total_desired rest

  abbrev pub instances_of : App q → ℕ
  instances_of app = if has_nothing_to_run q app then 0 else total_desired (processes_of q app)

  add_instances-instances :
      (n : ℕ) (r : Resolved q) (u v : Usage q)
      → add_instances q n r u ≡ some v
      → (v.instances ≡ u.instances + n) × (v.projects ≡ u.projects)
  add_instances-instances zero r u v h = ground arith
  add_instances-instances (suc n) unknown_size u v h = ground arith
  add_instances-instances (suc n) panic u v h = absurd (ground arith)
  add_instances-instances (suc n) (resolved r name) u v h = ground arith

  add_process-instances :
      (cat : Catalog) (p : Process q) (u v : Usage q)
      → add_process q cat p u ≡ some v
      → (v.instances ≡ u.instances + desired q p.replicas) × (v.projects ≡ u.projects)
  unfolding add_process
  add_process-instances cat p u v h =
      add_instances-instances (desired q p.replicas) (resolve q p.size p.resources cat) u v h

  add_processes-instances :
      (cat : Catalog) (ps : List (String × Process q)) (u v : Usage q)
      → add_processes q cat ps u ≡ some v
      → (v.instances ≡ u.instances + total_desired ps) × (v.projects ≡ u.projects)
  unfolding add_processes
  add_processes-instances cat [] u v h = ground arith
  add_processes-instances cat ((name, p) ∷ rest) u v h =
      elim (Option-cases (add_process q cat p u)) [
        | inl e ↦ absurd (ground (arith, e))
        | inr (w, e) ↦
            ground
              (arith, e, add_process-instances cat p u w e, add_processes-instances cat rest w v)
      ]

  -- An app adds the instances that its processes ask for, and nothing where it has nothing to run.
  pub add_app-instances :
      (cat : Catalog) (app : App q) (u v : Usage q)
      → add_app q cat app u ≡ some v
      → v.instances ≡ u.instances + instances_of app
  unfolding add_app
  add_app-instances cat app u v h = ground (
    arith,
    add_processes-instances cat (processes_of q app) (record u { projects = suc u.projects }) v,
  )
