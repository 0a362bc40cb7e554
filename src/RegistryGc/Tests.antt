-- ===== src/RegistryGc/Tests.antt =====
-- Collections at concrete inputs.
use shpyrd.Common.{
  ℕ, arith, ◌*◌, ◌≤◌, ◌≡◌, ◌≢◌, refl, true, false, none, some, [], ◌∷◌, any, ltb, inl, ◌⊎◌,
}
use shpyrd.RegistryGc.Collector.{
  World, Template, done, error, unfinished, rolled_out, rolling, job_succeeded, run, config_name,
  read_only_config, set_read_only, await_rollout, await_job, collect,
}
use shpyrd.RegistryGc.Ends.{Ticks, run-ends}
use shpyrd.RegistryGc.Templates.{IsSwitched}
use shpyrd.RegistryGc.Modes.{RollsOut, run-read_only, run-restores}
use shpyrd.RegistryGc.Trigger.{
  Gc, trigger, background, Reaches, start, triggered, Reaches-running, trigger-background,
}

abbrev deployed : Template
deployed =
    record { name = "data"; config_map = none }
    ∷ record { name = "config"; config_map = some config_name }
    ∷ []

-- Every call succeeds at once, and the collector halves 10 bytes.
abbrev calm : World
calm = record {
  writes_config = true;
  reads = λ on. true;
  updates = λ on. true;
  rollout_start = λ on. 0;
  rollout_now = λ on i. 3 * i;
  rollout_poll = λ on i. rolled_out;
  node = some "node-1";
  creates_job = true;
  job_now = λ i. 5 * i;
  job_poll = λ i. job_succeeded (some (10, 5));
  run_start = 0;
}

calm-Ticks : Ticks calm
calm-Ticks = record { rollout_ticks = λ on i. omega arith; job_ticks = λ i. omega arith }

collects : (run calm 721 deployed).answer ≡ done (5, 5)
unfolding run set_read_only await_rollout await_job collect any
collects = refl

run-ends_example : (run calm 721 deployed).answer ≢ unfinished
run-ends_example = run-ends calm calm-Ticks 721 deployed (omega arith)

abbrev switched : Template
switched =
    record { name = "data"; config_map = none }
    ∷ record { name = "config"; config_map = some read_only_config }
    ∷ []

runs_beside : (run calm 721 deployed).beside ≡ some switched
unfolding run set_read_only await_rollout await_job collect any
runs_beside = refl

run-read_only_example : RollsOut calm true 0 × IsSwitched read_only_config deployed switched
run-read_only_example = run-read_only calm 721 deployed runs_beside

run-restores_example : IsSwitched config_name deployed (run calm 721 deployed).template
run-restores_example = run-restores calm 721 deployed (inl ((5, 5), collects))

-- A registry that does not roll out with the read-only configuration keeps it.
abbrev stuck : World
stuck = record calm { rollout_poll = λ on i. rolling; rollout_now = λ on i. 400 }

left_read_only :
    ((run stuck 721 deployed).answer ≡ error) × ((run stuck 721 deployed).template ≡ switched)
unfolding run set_read_only await_rollout await_job collect any
left_read_only = (refl, refl)

abbrev once : Gc
once = (trigger 5 (record { running = false; started = 0 })).1

once-Reaches : Reaches once 1
unfolding trigger
once-Reaches = triggered 5 (start 0)

Reaches-running_example : (1 ≤ 1) × (once.running ≡ ltb 0 1)
Reaches-running_example = Reaches-running once-Reaches

abbrev one : ℕ
one = 1

trigger-background_example :
    (((one ≡ 0) × (trigger 9 once ≡ (true, record { running = true; started = 9 })))
      ⊎ ((one ≡ 1) × (trigger 9 once ≡ (false, once))))
    × ((trigger 9 once).1.running ≡ true)
    × ((trigger 12 (background calm 721 deployed (trigger 9 once).1)).0 ≡ true)
trigger-background_example =
    trigger-background calm calm-Ticks 721 deployed 9 12 (omega arith) once-Reaches
