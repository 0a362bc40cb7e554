-- ===== src/Plan/Usage.antt =====
-- The type usage of pkg/api/plan.go, addApp and workspaceUsage. Of an App and a Volume it has the
-- fields that those read. A result `none` is a panic of MustParse in Resources.
use shpyrd.Common.{
  ℕ, zero, suc, ◌+◌, String, Bool, false, not, ◌&&◌, ◌||◌, Option, none, some, List, [], ◌∷◌, ◌==◌,
  if◌then◌else◌, lookup,
}
use shpyrd.Store.Types.{ℤ, pos, negsuc, default_workspace}
use shpyrd.Sizes.Quantities.{Quantities}
use shpyrd.Sizes.Catalog.{Catalog}
use shpyrd.Sizes.Resources.{
  Requirements, Resolved, resolved, unknown_size, panic, resolve, cpu, memory,
}

pub record Source : Type 0 where
  pub has_git : Bool
  pub has_blob : Bool

module _ (q : Quantities) where
  pub record Process : Type 0 where
    pub size : String
    pub replicas : Option ℤ
    pub resources : Requirements q

  pub record App : Type 0 where
    pub namespace : String
    pub name : String
    pub workspace_label : String
    pub image : String
    pub source : Option Source
    pub processes : List (String × Process)

  pub record Volume : Type 0 where
    pub workspace_label : String
    pub size : q.Quantity

  pub record Usage : Type 0 where
    pub projects : ℕ
    pub instances : ℕ
    pub cpu : q.Quantity
    pub memory : q.Quantity
    pub storage : q.Quantity

  abbrev pub no_usage : Usage
  no_usage = record {
    projects = 0;
    instances = 0;
    cpu = q.nothing;
    memory = q.nothing;
    storage = q.nothing;
  }

  abbrev configured : Option Source → Bool
  configured none = false
  configured (some s) = s.has_git || s.has_blob

  -- App.HasSource
  abbrev pub has_source : App → Bool
  has_source app = configured app.source

  abbrev workspace_or_default : String → String
  workspace_or_default label = if not (label == "") then label else default_workspace

  -- workspaceOf and volumeWorkspace
  abbrev pub workspace_of : App → String
  workspace_of app = workspace_or_default app.workspace_label

  abbrev pub volume_workspace : Volume → String
  volume_workspace v = workspace_or_default v.workspace_label

  -- The loop that adds one request for each instance
  unfoldable pub add_times : ℕ → q.Quantity → q.Quantity → q.Quantity
  add_times zero x acc = acc
  add_times (suc n) x acc = add_times n x (q.add acc x)

  abbrev add_request : ℕ → Option (q.Quantity) → q.Quantity → q.Quantity
  add_request n none acc = acc
  add_request n (some x) acc = add_times n x acc

  abbrev add_requests : ℕ → Resolved q → Usage → Option Usage
  add_requests n unknown_size u = some u
  add_requests n panic u = none
  add_requests n (resolved r name) u = some (record u {
    cpu = add_request n (lookup cpu r.requests) u.cpu;
    memory = add_request n (lookup memory r.requests) u.memory;
  })

  -- How many instances a process asks for: one where it does not say, none below one.
  abbrev pub desired : Option ℤ → ℕ
  desired none = 1
  desired (some (pos n)) = n
  desired (some (negsuc n)) = 0

  abbrev pub add_instances : ℕ → Resolved q → Usage → Option Usage
  add_instances zero r u = some u
  add_instances (suc n) r u = add_requests (suc n) r (record u { instances = u.instances + suc n })

  -- The body of the loop over the processes
  unfoldable pub add_process : Catalog → Process → Usage → Option Usage
  unfolding resolve
  add_process cat p u = add_instances (desired p.replicas) (resolve q p.size p.resources cat) u

  abbrev and_then {ℓ} : {A : Type ℓ} → Option Usage → (Usage → Option A) → Option A
  and_then none f = none
  and_then (some u) f = f u

  unfoldable pub add_processes : Catalog → List (String × Process) → Usage → Option Usage
  add_processes cat [] u = some u
  add_processes cat ((name, p) ∷ rest) u = and_then (add_process cat p u) (add_processes cat rest)

  -- A project that names no process has the process `web`.
  abbrev pub processes_of : App → List (String × Process)
  processes_of app = or_web app.processes
    where
      or_web : List (String × Process) → List (String × Process)
      or_web [] =
          (
            "web",
            record {
              size = "";
              replicas = none;
              resources = record { requests = []; limits = [] };
            },
          )
          ∷ []
      or_web (p ∷ rest) = p ∷ rest

  abbrev pub has_nothing_to_run : App → Bool
  has_nothing_to_run app = app.image == "" && not (has_source app)

  -- usage.addApp
  unfoldable pub add_app : Catalog → App → Usage → Option Usage
  add_app cat app u =
      let counted = record u { projects = suc u.projects } in
      if has_nothing_to_run app then some counted else add_processes cat (processes_of app) counted

  abbrev pub same_app : App → App → Bool
  same_app a b = a.namespace == b.namespace && a.name == b.name

  abbrev replaces : App → Option App → Bool
  replaces a none = false
  replaces a (some r) = same_app a r

  abbrev replacement : App → Option App → App
  replacement a none = a
  replacement a (some r) = if same_app a r then r else a

  -- The loop over the apps; the flag is `seen`.
  unfoldable pub add_apps :
      Catalog → String → Option App → List App → Bool → Usage → Option (Bool × Usage)
  add_apps cat ws replace [] seen u = some (seen, u)
  add_apps cat ws replace (a ∷ rest) seen u =
      if not (workspace_of a == ws)
      then add_apps cat ws replace rest seen u
      else and_then (add_app cat (replacement a replace) u)
          (add_apps cat ws replace rest (seen || replaces a replace))

  abbrev pub add_unseen : Catalog → Option App → Option (Bool × Usage) → Option Usage
  add_unseen cat replace none = none
  add_unseen cat none (some (seen, u)) = some u
  add_unseen cat (some r) (some (seen, u)) = if seen then some u else add_app cat r u

  unfoldable pub add_volumes : String → List Volume → Usage → Usage
  add_volumes ws [] u = u
  add_volumes ws (v ∷ rest) u =
      if not (volume_workspace v == ws)
      then add_volumes ws rest u
      else add_volumes ws rest (record u { storage = q.add u.storage v.size })

  abbrev pub with_volumes : String → Option (List Volume) → Option Usage → Option Usage
  with_volumes ws volumes none = none
  with_volumes ws none (some u) = some u
  with_volumes ws (some vs) (some u) = some (add_volumes ws vs u)

  -- Server.workspaceUsage, on the lists that the API server returned; `none` for the volumes is
  -- an error, which the source passes over.
  unfoldable pub workspace_usage :
      String → Catalog → Option App → List App → Option (List Volume) → Option Usage
  workspace_usage ws cat replace apps volumes =
      with_volumes ws volumes (add_unseen cat replace (add_apps cat ws replace apps false no_usage))
