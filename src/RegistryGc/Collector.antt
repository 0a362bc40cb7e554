-- ===== src/RegistryGc/Collector.antt =====
-- One collection, RegistryGC.run of internal/controller/registrygc.go. What Kubernetes answers to each
-- call, and what the clock says, is a parameter, World. Times are in seconds. A loop runs on fuel:
-- `unfinished` is what it answers when it has none left.
use shpyrd.Common.{
  ℕ, zero, suc, ◌+◌, ◌-◌, String, Bool, true, false, not, ◌&&◌, Option, none, some, List, map, leb,
  ltb, ◌==◌, if◌then◌else◌, any,
}

-- A volume of the pod template, with the name of its config map where it has one.
pub record Volume : Type 0 where
  pub name : String
  pub config_map : Option String

-- The volumes of the pod template of the registry's Deployment.
abbrev pub Template : Type 0
Template = List Volume

pub data Outcome {ℓ} (A : Type ℓ) : Type ℓ where
  done : A → Outcome A
  error unfinished : Outcome A

-- The Deployment in the loop of setReadOnly: the read failed, or it is rolled out or not.
pub data Poll : Type 0 where
  read_failed rolled_out rolling : Poll

-- The Job in the loop of waitJob; the summary may not parse.
pub data JobPoll : Type 0 where
  job_read_failed job_failed job_running : JobPoll
  job_succeeded : Option (ℕ × ℕ) → JobPoll

-- The Boolean argument says which call of setReadOnly it is.
pub record World : Type 0 where
  pub writes_config : Bool
  pub reads : Bool → Bool
  pub updates : Bool → Bool
  pub rollout_start : Bool → ℕ
  pub rollout_now : Bool → ℕ → ℕ
  pub rollout_poll : Bool → ℕ → Poll
  pub node : Option String
  pub creates_job : Bool
  pub job_now : ℕ → ℕ
  pub job_poll : ℕ → JobPoll
  pub run_start : ℕ

abbrev pub config_name : String
config_name = "registry-config"

abbrev pub read_only_config : String
read_only_config = "registry-config-readonly"

abbrev pub target_config : Bool → String
target_config true = read_only_config
target_config false = config_name

abbrev pub differs : String → Option String → Bool
differs want none = false
differs want (some n) = not (n == want)

-- v.Name == "config" && v.ConfigMap != nil && v.ConfigMap.Name != want
abbrev pub is_changed : String → Volume → Bool
is_changed want v = v.name == "config" && differs want v.config_map

abbrev pub retarget : String → Volume → Volume
retarget want v = if is_changed want v then record v { config_map = some want } else v

-- The context of a run ends an hour after Trigger made it.
abbrev pub is_cancelled : World → ℕ → Bool
is_cancelled w now = leb (w.run_start + 3600) now

abbrev pub on_poll : Poll → Outcome (Unit {0}) → Outcome (Unit {0})
on_poll read_failed wait = error
on_poll rolled_out wait = done tt
on_poll rolling wait = wait

-- The loop of setReadOnly, from the i-th round on; the way back has no context to be cancelled by.
unfoldable pub await_rollout : World → Bool → ℕ → ℕ → Outcome (Unit {0})
await_rollout w on zero i = unfinished
await_rollout w on (suc n) i =
    let rest = await_rollout w on n (i + 1) in
    on_poll (w.rollout_poll on i) (
      if ltb (w.rollout_start on + 300) (w.rollout_now on i)
      then error
      else if on && is_cancelled w (w.rollout_now on i)
      then error
      else rest)

-- RegistryGC.setReadOnly
unfoldable pub set_read_only : World → ℕ → Bool → Template → Outcome (Unit {0}) × Template
set_read_only w fuel on c =
    let want = target_config on in
    if on && not w.writes_config
    then (error, c)
    else if not (w.reads on)
    then (error, c)
    else if any (is_changed want) c && not (w.updates on)
    then (error, c)
    else (await_rollout w on fuel 0, map (retarget want) c)

abbrev pub or_error {ℓ} : {A : Type ℓ} → Option A → Outcome A
or_error none = error
or_error (some a) = done a

abbrev pub on_job : JobPoll → Outcome (ℕ × ℕ) → Outcome (ℕ × ℕ)
on_job job_read_failed wait = error
on_job job_failed wait = error
on_job job_running wait = wait
on_job (job_succeeded s) wait = or_error s

-- RegistryGC.waitJob, from the i-th round on
unfoldable pub await_job : World → ℕ → ℕ → Outcome (ℕ × ℕ)
await_job w zero i = unfinished
await_job w (suc n) i =
    let rest = await_job w n (i + 1) in
    on_job (w.job_poll i) (if is_cancelled w (w.job_now i) then error else rest)

-- The bytes reclaimed, not below 0, and those in use afterwards.
abbrev pub reclaimed : Outcome (ℕ × ℕ) → Outcome (ℕ × ℕ)
reclaimed (done s) = done (s.0 - s.1, s.1)
reclaimed error = error
reclaimed unfinished = unfinished

abbrev pub start_collector :
    World → ℕ → Template → Option String → Outcome (ℕ × ℕ) × Option Template
start_collector w fuel c none = (error, none)
start_collector w fuel c (some node) =
    if w.creates_job then (reclaimed (await_job w fuel 0), some c) else (error, none)

-- The part of run between the two calls of setReadOnly: what it answers, and the template of the
-- registry that the collector runs beside, if it does.
unfoldable pub collect : World → ℕ → Template → Outcome (ℕ × ℕ) × Option Template
collect w fuel c = start_collector w fuel c w.node

-- What the deferred return to read-write makes of the answer.
abbrev pub deferred : Outcome (ℕ × ℕ) → Outcome (Unit {0}) → Outcome (ℕ × ℕ)
deferred unfinished o = unfinished
deferred error unfinished = unfinished
deferred (done s) unfinished = unfinished
deferred error error = error
deferred error (done u) = error
deferred (done s) error = error
deferred (done s) (done u) = done s

pub record Collection : Type 0 where
  pub answer : Outcome (ℕ × ℕ)
  pub template : Template
  pub beside : Option Template

abbrev pub after_read_only : World → ℕ → Outcome (Unit {0}) → Template → Collection
after_read_only w fuel error c = record { answer = error; template = c; beside = none }
after_read_only w fuel unfinished c = record { answer = unfinished; template = c; beside = none }
after_read_only w fuel (done u) c =
    let (answer, beside) = collect w fuel c in
    let (back, after) = set_read_only w fuel false c in
    record { answer = deferred answer back; template = after; beside = beside }

-- RegistryGC.run
unfoldable pub run : World → ℕ → Template → Collection
run w fuel c =
    let (first, read_only) = set_read_only w fuel true c in after_read_only w fuel first read_only
