-- ===== src/RegistryGc/Modes.antt =====
-- The configuration of the registry during and after a collection,
-- internal/controller/registrygc.go.
use shpyrd.Common.{
  ℕ, zero, suc, ◌+◌, String, ◌≡◌, refl, sym, Bool, true, false, not, ◌&&◌, Option, none, some, map,
  ltb, if◌then◌else◌, arith, any, ◌⊎◌, inl, inr, Bool-cases,
}
use shpyrd.RegistryGc.Collector.{
  World, Poll, read_failed, rolled_out, rolling, on_poll, is_cancelled, await_rollout, Template,
  Outcome, done, error, unfinished, config_name, read_only_config, target_config, is_changed,
  retarget, set_read_only, collect, start_collector, deferred, after_read_only, run,
}
use shpyrd.RegistryGc.Templates.{mounts_some, IsSwitched, retarget-mounts_some, retarget-IsSwitched}

-- What the loop of setReadOnly saw from a round on: the Deployment rolling within five minutes, as
-- often as it may be, and then rolled out.
pub data RollsOut (w : World) (on : Bool) : ℕ → Type 0 where
  this_round : {i : ℕ} → w.rollout_poll on i ≡ rolled_out → RollsOut w on i
  later_round :
      {i : ℕ}
      → w.rollout_poll on i ≡ rolling
      → ltb (w.rollout_start on + 300) (w.rollout_now on i) ≡ false
      → RollsOut w on (i + 1)
      → RollsOut w on i

module _ (w : World) (fuel : ℕ) where
  -- The way back sets the configuration where the Deployment can be read and updated.
  back-template :
      (c : Template)
      → w.reads false ≡ true
      → w.updates false ≡ true
      → (set_read_only w fuel false c).1 ≡ map (retarget config_name) c
  unfolding set_read_only
  back-template c r u = ground (arith, r, u)

  await_rollout-RollsOut :
      (on : Bool) (n i : ℕ) {u : Unit {0}} → await_rollout w on n i ≡ done u → RollsOut w on i
  unfolding await_rollout
  await_rollout-RollsOut on zero i e = absurd (ground (arith, e))
  await_rollout-RollsOut on (suc n) i {u} e =
      by_poll (w.rollout_poll on i) refl (await_rollout-RollsOut on n (i + 1) {u = u}) e
    where
      by_poll :
          (p : Poll)
          → w.rollout_poll on i ≡ p
          → (await_rollout w on n (i + 1) ≡ done u → RollsOut w on (i + 1))
          → on_poll p (
              if ltb (w.rollout_start on + 300) (w.rollout_now on i)
              then error
              else if on && is_cancelled w (w.rollout_now on i)
              then error
              else await_rollout w on n (i + 1))
            ≡ done u
          → RollsOut w on i
      by_poll read_failed f r e = absurd (ground (arith, e))
      by_poll rolled_out f r e = this_round f
      by_poll rolling f r e =
          elim (Bool-cases (ltb (w.rollout_start on + 300) (w.rollout_now on i))) [
            | inl g ↦ absurd (ground (arith, e, g))
            | inr g ↦ elim (Bool-cases (on && is_cancelled w (w.rollout_now on i))) [
              | inl h ↦ absurd (ground (arith, rw (g, h) at e))
              | inr h ↦ later_round f g (r (rw (g, h) at e))
            ]
          ]

  set_read_only-RollsOut :
      (on : Bool) (c : Template) {u : Unit {0}}
      → (set_read_only w fuel on c).0 ≡ done u
      → RollsOut w on 0 × ((set_read_only w fuel on c).1 ≡ map (retarget (target_config on)) c)
  unfolding set_read_only
  set_read_only-RollsOut on c {u} e = elim (Bool-cases (on && not w.writes_config)) [
    | inl f ↦ absurd (ground (arith, rw f at e))
    | inr f ↦ elim (Bool-cases (w.reads on)) [
      | inr g ↦ absurd (ground (arith, rw (f, g) at e))
      | inl g ↦ elim (Bool-cases (any (is_changed (target_config on)) c && not (w.updates on))) [
        | inl k ↦ absurd (ground (arith, rw (f, g, k) at e))
        | inr k ↦ rw (f, g, k) (await_rollout-RollsOut on fuel 0 {u = u} (rw (f, g, k) at e), refl)
      ]
    ]
  ]

  -- Where the collector runs, the Deployment was seen rolled out before, no round but the last coming
  -- after the five minutes, and it has the read-only configuration: a volume called config mounts that
  -- config map if one mounted any before, and none mounts another.
  pub run-read_only :
      (c : Template) {d : Template}
      → (run w fuel c).beside ≡ some d
      → RollsOut w true 0 × IsSwitched read_only_config c d
  unfolding run collect
  run-read_only c {d} e =
      by_first (set_read_only w fuel true c).0 (set_read_only w fuel true c).1
        (λ u f.
          let (waited, same) = set_read_only-RollsOut true c {u = u} f in
          (waited, rw same (retarget-IsSwitched read_only_config c c refl)))
        e
    where
      beside : (n : Option String) (b : Template) → (start_collector w fuel b n).1 ≡ some d → b ≡ d
      beside none b e = absurd (ground (arith, e))
      beside (some n) b e = ground (arith, e)

      by_first :
          (o : Outcome Unit) (b : Template)
          → ((u : Unit {0}) → o ≡ done u → RollsOut w true 0 × IsSwitched read_only_config c b)
          → (after_read_only w fuel o b).beside ≡ some d
          → RollsOut w true 0 × IsSwitched read_only_config c d
      by_first error b h e = absurd (ground (arith, e))
      by_first unfinished b h e = absurd (ground (arith, e))
      by_first (done u) b h e = rw (sym (beside w.node b e)) (h u refl)

  -- A collection that succeeds leaves the template of the registry's Deployment with the read-write
  -- configuration: a volume called config mounts that config map if one mounted any before, and none
  -- mounts another. So does one that fails after the switch to read-only, if the Deployment can be
  -- read and updated.
  pub run-restores :
      (c : Template)
      → ((s : ℕ × ℕ) × ((run w fuel c).answer ≡ done s))
        ⊎ (((set_read_only w fuel true c).0 ≡ done tt)
            × (w.reads false ≡ true)
            × (w.updates false ≡ true))
      → IsSwitched config_name c (run w fuel c).template
  unfolding run
  run-restores c h =
      by_first (set_read_only w fuel true c).0 (set_read_only w fuel true c).1
        (λ u f.
          rw ((set_read_only-RollsOut true c {u = u} f).1)
            (retarget-mounts_some read_only_config c))
        h
    where
      by_back :
          (a : Outcome (ℕ × ℕ)) (b : Template) (s : ℕ × ℕ) (o : Outcome Unit)
          → any mounts_some b ≡ any mounts_some c
          → (set_read_only w fuel false b).0 ≡ o
          → deferred a o ≡ done s
          → IsSwitched config_name c (set_read_only w fuel false b).1
      by_back (done t) b s (done u) k f e =
          rw ((set_read_only-RollsOut false b {u = u} f).1) (retarget-IsSwitched config_name c b k)
      by_back (done t) b s error k f e = absurd (ground (arith, e))
      by_back (done t) b s unfinished k f e = absurd (ground (arith, e))
      by_back error b s (done u) k f e = absurd (ground (arith, e))
      by_back error b s error k f e = absurd (ground (arith, e))
      by_back error b s unfinished k f e = absurd (ground (arith, e))
      by_back unfinished b s o k f e = absurd (ground (arith, e))

      by_first :
          (o : Outcome Unit) (b : Template)
          → ((u : Unit {0}) → o ≡ done u → any mounts_some b ≡ any mounts_some c)
          → ((s : ℕ × ℕ) × ((after_read_only w fuel o b).answer ≡ done s))
            ⊎ ((o ≡ done tt) × (w.reads false ≡ true) × (w.updates false ≡ true))
          → IsSwitched config_name c (after_read_only w fuel o b).template
      by_first error b k (inl (s, e)) = absurd (ground (arith, e))
      by_first error b k (inr (e, r, u)) = absurd (ground (arith, e))
      by_first unfinished b k (inl (s, e)) = absurd (ground (arith, e))
      by_first unfinished b k (inr (e, r, u)) = absurd (ground (arith, e))
      by_first (done t) b k (inl (s, e)) =
          by_back (collect w fuel b).0 b s (set_read_only w fuel false b).0 (k t refl) refl e
      by_first (done t) b k (inr (e, r, u)) =
          rw (back-template b r u) (retarget-IsSwitched config_name c b (k t refl))
