-- ===== src/Plan/Tests.antt =====
-- Plans at concrete apps.
use shpyrd.Common.{
  ℕ, String, ◌≡◌, refl, none, some, List, [], ◌∷◌, ltb, ◌+◌, ◌↔◌, any, find?, lookup, All,
}
use shpyrd.Store.Types.{pos, Limits}
use shpyrd.Sizes.Catalog.{get, defaults}
use shpyrd.Sizes.Quantities.{Quantities}
use shpyrd.Sizes.Resources.{resolve, resources}
use shpyrd.Plan.Usage.{
  App, Process, Usage, add_app, add_apps, add_process, add_processes, add_times, workspace_usage,
}
use shpyrd.Plan.Check.{axis_projects, axis_compute, allowed, check_plan, exceeds, Cluster}
use shpyrd.Plan.Ceilings.{exceeds-IsWithin, IsWithin, NamesBroken, IsUnder}
use shpyrd.Plan.Count.{instances_of}
use shpyrd.Plan.Total.{check_plan-instances, others}

abbrev numbers : Quantities
numbers = record {
  Quantity = ℕ;
  parse = λ s.
      lookup s (
        ("0.5", 500)
        ∷ ("1", 1000)
        ∷ ("4", 4000)
        ∷ ("64Mi", 64)
        ∷ ("32Mi", 32)
        ∷ ("0.25", 250)
        ∷ []);
  is_positive = λ n. ltb 0 n;
  more = λ a b. ltb b a;
  milli_value = λ n. n;
  new_milli = λ n. n;
  add = λ a b. a + b;
  nothing = 0;
}

abbrev web : ℕ → List (String × Process numbers)
web n =
    (
      "web",
      record {
        size = "";
        replicas = some (pos n);
        resources = record { requests = []; limits = [] };
      },
    )
    ∷ []

abbrev app : String → ℕ → App numbers
app name n = record {
  namespace = "app-";
  name = name;
  workspace_label = "";
  image = "registry/app";
  source = none;
  processes = web n;
}

abbrev limits : Limits
limits = record { projects = pos 0; instances = pos 5; cpu = "4"; memory = ""; storage = "" }

abbrev apps : List (App numbers)
apps = app "shop" 1 ∷ app "blog" 2 ∷ []

abbrev cluster : Cluster numbers
cluster = record { catalog = some defaults; apps = some apps; volumes = none }

fits : check_plan numbers (some limits) "default" (app "shop" 3) cluster ≡ allowed
unfolding check_plan workspace_usage add_apps add_app add_processes add_process resolve get find?
    resources lookup add_times exceeds
fits = refl

check_plan-instances_example :
    IsUnder
      (pos 5)
      (others numbers "default" (app "shop" 3) apps + instances_of numbers (app "shop" 3))
check_plan-instances_example =
    check_plan-instances numbers "default" (app "shop" 3) limits cluster defaults apps refl refl
      (unfold any in (refl, (refl, tt))) fits

abbrev used : Usage numbers
used = record { projects = 2; instances = 5; cpu = 2500; memory = 320; storage = 0 }

exceeds-IsWithin_example :
    ((exceeds numbers limits used (axis_projects ∷ axis_compute ∷ []) ≡ none)
      ↔ All (IsWithin numbers limits used) (axis_projects ∷ axis_compute ∷ []))
    × NamesBroken numbers limits used
        (exceeds numbers limits used (axis_projects ∷ axis_compute ∷ []))
exceeds-IsWithin_example = exceeds-IsWithin numbers limits used (axis_projects ∷ axis_compute ∷ [])
