-- ===== src/Plan/Check.antt =====
-- exceeds, checkPlan and checkPlanStorage of pkg/api/plan.go.
use shpyrd.Common.{
  ℕ, String, Bool, false, not, ◌&&◌, Option, none, some, List, [], ◌∷◌, ltb, ◌==◌, if◌then◌else◌,
}
use shpyrd.Store.Types.{ℤ, pos, negsuc, Limits}
use shpyrd.Sizes.Quantities.{Quantities}
use shpyrd.Sizes.Catalog.{Catalog}
use shpyrd.Plan.Usage.{App, Volume, Usage, workspace_usage}

pub data Axis : Type 0 where
  axis_projects axis_compute axis_storage : Axis

-- The ceiling that the message names
pub data Ceiling : Type 0 where
  too_many_projects too_many_instances too_much_cpu too_much_memory too_much_storage : Ceiling

-- l > 0 && n > l
abbrev pub above : ℤ → ℕ → Bool
above (pos l) n = ltb 0 l && ltb l n
above (negsuc l) n = false

module _ (q : Quantities) where
  abbrev more_than : Option (q.Quantity) → q.Quantity → Bool
  more_than none used = false
  more_than (some limit) used = q.more used limit

  -- err == nil && text != "" && used.Cmp(q) > 0
  abbrev pub above_text : String → q.Quantity → Bool
  above_text text used = not (text == "") && more_than (q.parse text) used

  abbrev on_axis : Limits → Usage q → Axis → Option Ceiling
  on_axis l u axis_projects = if above l.projects u.projects then some too_many_projects else none
  on_axis l u axis_compute =
      if above l.instances u.instances
      then some too_many_instances
      else if above_text l.cpu u.cpu
      then some too_much_cpu
      else if above_text l.memory u.memory
      then some too_much_memory
      else none
  on_axis l u axis_storage = if above_text l.storage u.storage then some too_much_storage else none

  abbrev first_of : Option Ceiling → Option Ceiling → Option Ceiling
  first_of (some c) rest = some c
  first_of none rest = rest

  -- exceeds, for a plan that is set: the first ceiling broken; `none` is "".
  unfoldable pub exceeds : Limits → Usage q → List Axis → Option Ceiling
  exceeds l u [] = none
  exceeds l u (a ∷ rest) = first_of (on_axis l u a) (exceeds l u rest)

  -- What a check answers; the panic is that of Resources.
  pub data Answer : Type 0 where
    allowed panicked : Answer
    -- an error of the API server on the way
    failed : Answer
    refused : Ceiling → Answer

  abbrev judge : Option Ceiling → Answer
  judge none = allowed
  judge (some c) = refused c

  -- What the API server answers: the catalog, the apps and the volumes.
  pub record Cluster : Type 0 where
    pub catalog : Option Catalog
    pub apps : Option (List (App q))
    pub volumes : Option (List (Volume q))

  abbrev pub judge_usage : Limits → List Axis → (Usage q → Usage q) → Option (Usage q) → Answer
  judge_usage l axes change none = panicked
  judge_usage l axes change (some u) = judge (exceeds l (change u) axes)

  abbrev with_apps :
      String
      → Limits
      → List Axis
      → (Usage q → Usage q)
      → Option (App q)
      → Option (List (Volume q))
      → Option Catalog
      → Option (List (App q))
      → Answer
  with_apps ws l axes change replace volumes none apps = failed
  with_apps ws l axes change replace volumes (some cat) none = failed
  with_apps ws l axes change replace volumes (some cat) (some apps) =
      judge_usage l axes change (workspace_usage q ws cat replace apps volumes)

  -- Server.checkPlan; the limits are what planOf returns.
  unfoldable pub check_plan : Option Limits → String → App q → Cluster → Answer
  check_plan none ws after k = allowed
  check_plan (some l) ws after k =
      with_apps ws l (axis_compute ∷ []) (λ u. u) (some after) k.volumes k.catalog k.apps

  -- Server.checkPlanStorage
  unfoldable pub check_plan_storage : Option Limits → String → q.Quantity → Cluster → Answer
  check_plan_storage none ws extra k = allowed
  check_plan_storage (some l) ws extra k =
      if l.storage == ""
      then allowed
      else with_apps ws l (axis_storage ∷ []) (λ u. record u { storage = q.add u.storage extra })
          none k.volumes k.catalog k.apps
