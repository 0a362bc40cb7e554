-- ===== src/RegistryGc/Ends.antt =====
-- A collection ends: the loops of internal/controller/registrygc.go stop at their deadlines.
use shpyrd.Common.{
  ℕ, String, zero, suc, ◌+◌, ◌*◌, ◌≤◌, ◌<◌, ◌≡◌, ◌≢◌, refl, Bool, true, false, ◌&&◌, Option, none,
  some, ltb, arith, inl, inr, Bool-cases,
}
use shpyrd.RegistryGc.Collector.{
  World, Template, Outcome, done, error, unfinished, Poll, read_failed, rolled_out, rolling,
  JobPoll, job_read_failed, job_failed, job_running, job_succeeded, is_cancelled, await_rollout,
  await_job, set_read_only, collect, on_poll, on_job, deferred, run, start_collector, reclaimed,
  after_read_only,
}

-- A round of the first loop waits three seconds at least, one of the second five.
pub record Ticks (w : World) : Type 0 where
  pub rollout_ticks : (on : Bool) (i : ℕ) → w.rollout_start on + 3 * i ≤ w.rollout_now on i
  pub job_ticks : (i : ℕ) → w.run_start + 5 * i ≤ w.job_now i

abbrev is_finished {ℓ} : {A : Type ℓ} → Outcome A → Bool
is_finished (done a) = true
is_finished error = true
is_finished unfinished = false

on_poll_finished :
    (p : Poll) (o : Outcome Unit) → is_finished o ≡ true → is_finished (on_poll p o) ≡ true
on_poll_finished read_failed o h = refl
on_poll_finished rolled_out o h = refl
on_poll_finished rolling o h = h

on_job_finished :
    (p : JobPoll) (o : Outcome (ℕ × ℕ)) → is_finished o ≡ true → is_finished (on_job p o) ≡ true
on_job_finished job_read_failed o h = refl
on_job_finished job_failed o h = refl
on_job_finished job_running o h = h
on_job_finished (job_succeeded none) o h = refl
on_job_finished (job_succeeded (some s)) o h = refl

reclaimed_finished : (o : Outcome (ℕ × ℕ)) → is_finished o ≡ true → is_finished (reclaimed o) ≡ true
reclaimed_finished (done s) h = refl
reclaimed_finished error h = refl
reclaimed_finished unfinished h = h

deferred_finished :
    (a : Outcome (ℕ × ℕ)) (b : Outcome Unit)
    → is_finished a ≡ true
    → is_finished b ≡ true
    → is_finished (deferred a b) ≡ true
deferred_finished (done s) (done u) h k = refl
deferred_finished (done s) error h k = refl
deferred_finished (done s) unfinished h k = k
deferred_finished error (done u) h k = refl
deferred_finished error error h k = refl
deferred_finished error unfinished h k = k
deferred_finished unfinished b h k = h

module _ (w : World) (ticks : Ticks w) where
  await_rollout_finished :
      (on : Bool) (n i : ℕ) → 101 < n + i → i ≤ 101 → is_finished (await_rollout w on n i) ≡ true
  unfolding await_rollout
  await_rollout_finished on zero i h k = absurd (omega (arith, h, k))
  await_rollout_finished on (suc n) i h k =
      on_poll_finished (w.rollout_poll on i) _
        (elim (Bool-cases (ltb (w.rollout_start on + 300) (w.rollout_now on i))) [
          | inl e ↦ rw e refl
          | inr e ↦ rw e (elim (Bool-cases (on && is_cancelled w (w.rollout_now on i))) [
            | inl f ↦ rw f refl
            | inr f ↦ rw f (
                await_rollout_finished on n (i + 1) (omega (arith, h))
                  (ground (arith, e, ticks.rollout_ticks on i)))
          ])
        ])

  await_job_finished : (n i : ℕ) → 720 < n + i → i ≤ 720 → is_finished (await_job w n i) ≡ true
  unfolding await_job
  await_job_finished zero i h k = absurd (omega (arith, h, k))
  await_job_finished (suc n) i h k =
      on_job_finished (w.job_poll i) _ (elim (Bool-cases (is_cancelled w (w.job_now i))) [
        | inl e ↦ rw e refl
        | inr e ↦
            rw e (
              await_job_finished n (i + 1) (omega (arith, h))
                (ground (arith, e, ticks.job_ticks i)))
      ])

  set_read_only_finished :
      (fuel : ℕ) (on : Bool) (c : Template)
      → 101 < fuel
      → is_finished (set_read_only w fuel on c).0 ≡ true
  unfolding set_read_only
  set_read_only_finished fuel on c h =
      ground (arith, await_rollout_finished on fuel 0 (omega (arith, h)) (omega arith))

  collect_finished :
      (fuel : ℕ) (c : Template) → 720 < fuel → is_finished (collect w fuel c).0 ≡ true
  unfolding collect
  collect_finished fuel c h = by_node w.node
    where
      by_node : (n : Option String) → is_finished (start_collector w fuel c n).0 ≡ true
      by_node none = refl
      by_node (some n) = elim (Bool-cases w.creates_job) [
        | inl e ↦ ground (
          arith,
          e,
          reclaimed_finished (await_job w fuel 0)
              (await_job_finished fuel 0 (omega (arith, h)) (omega arith)),
        )
        | inr e ↦ ground (arith, e)
      ]

  run_finished : (fuel : ℕ) (c : Template) → 720 < fuel → is_finished (run w fuel c).answer ≡ true
  unfolding run
  run_finished fuel c h =
      by_first (set_read_only w fuel true c).0 (set_read_only w fuel true c).1
        (set_read_only_finished fuel true c (omega (arith, h)))
    where
      by_first :
          (o : Outcome Unit) (d : Template)
          → is_finished o ≡ true
          → is_finished (after_read_only w fuel o d).answer ≡ true
      by_first error d k = refl
      by_first unfinished d k = k
      by_first (done u) d k =
          deferred_finished (collect w fuel d).0 (set_read_only w fuel false d).0
            (collect_finished fuel d h) (set_read_only_finished fuel false d (omega (arith, h)))

  -- With fuel for 721 rounds a collection ends, with an answer or with an error, if a round of the
  -- loop of setReadOnly takes three seconds at least and one of waitJob five.
  pub run-ends : (fuel : ℕ) (c : Template) → 720 < fuel → (run w fuel c).answer ≢ unfinished
  run-ends fuel c h e = ground (arith, run_finished fuel c h, e)
