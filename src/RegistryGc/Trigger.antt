-- ===== src/RegistryGc/Trigger.antt =====
-- Who may start a collection: Trigger of internal/controller/registrygc.go, and the background run
-- that it starts. Each takes the lock for as long as it touches the fields.
use shpyrd.Common.{
  ℕ, suc, ◌≤◌, ◌<◌, ◌≡◌, ◌≢◌, refl, Bool, true, false, ltb, arith, ◌⊎◌, inl, inr, Bool-cases,
  if◌then◌else◌,
}
use shpyrd.RegistryGc.Collector.{World, Template, Outcome, done, error, unfinished, run}
use shpyrd.RegistryGc.Ends.{Ticks, run-ends}

-- The fields under the lock.
pub record Gc : Type 0 where
  pub running : Bool
  pub started : ℕ

-- RegistryGC.Trigger up to the start of the run: whether it starts one or is refused with
-- errGCRunning.
unfoldable pub trigger : ℕ → Gc → Bool × Gc
trigger now g = if g.running then (false, g) else (true, record { running = true; started = now })

-- The end of the run.
unfoldable pub finish : Gc → Gc
finish g = record g { running = false }

abbrev begun : Bool → ℕ → ℕ
begun true n = suc n
begun false n = n

-- The fields that calls lead to, with the number of runs that have not ended.
pub data Reaches : Gc → ℕ → Type 0 where
  start : (started : ℕ) → Reaches (record { running = false; started = started }) 0
  triggered :
      {g : Gc} {n : ℕ} (now : ℕ)
      → Reaches g n
      → Reaches (trigger now g).1 (begun (trigger now g).0 n)
  ended : {g : Gc} {n : ℕ} → Reaches g (suc n) → Reaches (finish g) n

-- At most one collection runs at a time, and the field `running` says whether one does.
pub Reaches-running : {g : Gc} {n : ℕ} → Reaches g n → (n ≤ 1) × (g.running ≡ ltb 0 n)
unfolding trigger finish
Reaches-running (start s) = (omega arith, refl)
Reaches-running (triggered {g} {n} now h) = by_flag (Reaches-running h)
  where
    by_flag :
        (n ≤ 1) × (g.running ≡ ltb 0 n)
        → (begun (trigger now g).0 n ≤ 1)
          × ((trigger now g).1.running ≡ ltb 0 (begun (trigger now g).0 n))
    by_flag (few, flag) = elim (Bool-cases g.running) [
      | inl e ↦ ground (arith, e, few, flag)
      | inr e ↦ ground (arith, e, few, flag)
    ]
Reaches-running (ended {g} {n} h) =
    let (few, flag) = Reaches-running h in (omega (arith, few), ground (arith, few))

abbrev after_run : Outcome (ℕ × ℕ) → Gc → Gc
after_run (done s) g = finish g
after_run error g = finish g
after_run unfinished g = g

-- The goroutine of Trigger up to its second lock: `running` falls once the collection has ended.
unfoldable pub background : World → ℕ → Template → Gc → Gc
background w fuel c g = after_run (run w fuel c).answer g

background-running :
    (w : World) (fuel : ℕ) (c : Template) (g : Gc)
    → (run w fuel c).answer ≢ unfinished
    → (background w fuel c g).running ≡ false
unfolding background finish
background-running w fuel c g h = by_answer (run w fuel c).answer h
  where
    by_answer : (o : Outcome (ℕ × ℕ)) → o ≢ unfinished → (after_run o g).running ≡ false
    by_answer (done s) h = refl
    by_answer error h = refl
    by_answer unfinished h = absurd (h refl)

next_starts : (now : ℕ) (g : Gc) → g.running ≡ false → (trigger now g).0 ≡ true
unfolding trigger
next_starts now g e = rw e refl

-- However calls came before: where no collection runs, Trigger starts one and notes the time; where
-- one runs, it is refused and changes nothing. Either way a collection runs then, and once it has
-- ended, as it does with fuel for 721 rounds if a round of the loop of setReadOnly takes three
-- seconds at least and one of waitJob five, the next Trigger starts one.
pub trigger-background :
    (w : World) (ticks : Ticks w) (fuel : ℕ) (c : Template) {g : Gc} {n : ℕ} (now later : ℕ)
    → 720 < fuel
    → Reaches g n
    → (((n ≡ 0) × (trigger now g ≡ (true, record { running = true; started = now })))
        ⊎ ((n ≡ 1) × (trigger now g ≡ (false, g))))
      × ((trigger now g).1.running ≡ true)
      × ((trigger later (background w fuel c (trigger now g).1)).0 ≡ true)
unfolding trigger
trigger-background w ticks fuel c {g} {n} now later enough h =
    let (few, flag) = Reaches-running h in
    let (answer, busy) = by_flag g.running refl (few, flag) in
    (
      answer,
      busy,
      next_starts later (background w fuel c (trigger now g).1)
          (background-running w fuel c (trigger now g).1 (run-ends w ticks fuel c enough)),
    )
  where
    by_flag :
        (b : Bool)
        → g.running ≡ b
        → (n ≤ 1) × (g.running ≡ ltb 0 n)
        → (((n ≡ 0) × (trigger now g ≡ (true, record { running = true; started = now })))
            ⊎ ((n ≡ 1) × (trigger now g ≡ (false, g))))
          × ((trigger now g).1.running ≡ true)
    by_flag true e (few, flag) = rw e (inr (ground (arith, e, few, flag), refl), refl)
    by_flag false e (few, flag) = rw e (inl (ground (arith, e, few, flag), refl), refl)
