-- ===== src/Simulation/Retry.antt =====
-- What a failed attempt leaves for the next one (`process_queued_runs` of
-- src/planagent/services/simulation/engine.py).
use mathlib.Core.Path.{subst}
use mathlib.Core.List.{append_assoc}
use ming_jian.Base.{
  ℕ, String, ◌≡◌, refl, sym, ap, ◌∙◌, Bool, true, false, ◌&&◌, ◌||◌, List, [], ◌∷◌, ◌++◌, none,
  some, arith, ◌==◌, eq_iff, eqb, any_of,
}
use ming_jian.Base.Dict.{Dict}
use ming_jian.Lease.{claim_rows}
use ming_jian.Simulation.{SimulationRun, StateSnapshotRecord, Tables, simulation_queue}
use ming_jian.Simulation.Run.{actor_of, snapshot}
use ming_jian.Simulation.Ticks.{start}
use ming_jian.Simulation.Execution.{execute_run, distinct_snapshots}
use ming_jian.Simulation.Queue.{Worker, settle_run, process_runs, commit, process_queued_runs}
use ming_jian.Simulation.Rows.{
  Grows, Grows-refl, Grows-trans, execute_run-Grows, execute_run-starts,
}

module _ {F : Type 0} where
  -- The snapshot of tick 0 of a run with this actor is there.
  abbrev pub is_start : String → String → StateSnapshotRecord F → Bool
  is_start i actor z = (z.run_id == i) && (eqb z.tick 0 && (z.actor_id == actor))

  abbrev pub has_start : String → String → List (StateSnapshotRecord F) → Bool
  has_start i actor = any_of (is_start i actor)

  has_start-append :
      (i actor : String) (xs ys : List (StateSnapshotRecord F))
      → has_start i actor (xs ++ ys) ≡ (has_start i actor xs || has_start i actor ys)
  has_start-append i actor [] ys = refl
  has_start-append i actor (x ∷ xs) ys = ground (arith, has_start-append i actor xs ys)

  has_start-key :
      (i actor : String) (s : StateSnapshotRecord F) (xs : List (StateSnapshotRecord F))
      → is_start i actor s ≡ true
      → has_start i actor xs ≡ true
      → any_of (λ z. (z.run_id == s.run_id) && (eqb z.tick s.tick && (z.actor_id == s.actor_id))) xs
        ≡ true
  has_start-key i actor s [] h k = cc
  has_start-key i actor s (x ∷ xs) h k = ground (
    arith,
    has_start-key i actor s xs h,
    eq_iff s.run_id i,
    eq_iff s.actor_id actor,
    eq_iff x.run_id i,
    eq_iff x.actor_id actor,
    eq_iff x.run_id s.run_id,
    eq_iff x.actor_id s.actor_id,
  )

  -- Twice the same start: the constraint does not hold.
  distinct-twice :
      (i actor : String) (xs ys : List (StateSnapshotRecord F))
      → has_start i actor xs ≡ true
      → has_start i actor ys ≡ true
      → distinct_snapshots (xs ++ ys) ≡ false
  unfolding distinct_snapshots
  distinct-twice i actor [] ys h k = cc
  distinct-twice i actor (x ∷ xs) ys h k = ground (
    arith,
    distinct-twice i actor xs ys,
    has_start-append i actor xs ys,
    has_start-key i actor x (xs ++ ys),
  )

module _ {F : Type 0} (w : Worker F) where
  settle_run-snapshots :
      (r : SimulationRun F) (o : Tables F × Bool) → (settle_run w r o).0.snapshots ≡ o.0.snapshots
  settle_run-snapshots r (t, true) = ground arith
  settle_run-snapshots r (t, false) = refl

  one-Grows :
      (now : ℕ) (r : SimulationRun F) (t : Tables F)
      → Grows t.snapshots (settle_run w r (execute_run w.services now r t)).0.snapshots
  one-Grows now r t =
      subst (Grows t.snapshots) (sym (settle_run-snapshots r (execute_run w.services now r t)))
        (execute_run-Grows w.services now r t)

  process_runs-Grows :
      (now : ℕ) (rs : List (SimulationRun F)) (t : Tables F)
      → Grows t.snapshots (process_runs w now rs t).0.snapshots
  unfolding process_runs
  process_runs-Grows now [] t = Grows-refl t.snapshots
  process_runs-Grows now (r ∷ rs) t =
      Grows-trans (one-Grows now r t)
        (process_runs-Grows now rs (settle_run w r (execute_run w.services now r t)).0)

  -- The run's pack is there and its calibration context can be built.
  pub record CanStart (r : SimulationRun F) : Type 0 where
    pub initial : Dict F
    pub pack : w.services.pack_state r.domain_id r.actor_template ≡ some initial
    pub calibrated : w.services.calibrates r.id ≡ true

-- The second list is the first with more at its end, the run's start among it.
record Starts {F : Type 0} (i actor : String) (xs ys : List (StateSnapshotRecord F)) : Type 0 where
  more : List (StateSnapshotRecord F)
  grown : ys ≡ xs ++ more
  started : has_start i actor more ≡ true

module _ {F : Type 0} {i actor : String} {xs ys : List (StateSnapshotRecord F)} where
  Starts-after :
      {zs : List (StateSnapshotRecord F)}
      → Grows xs ys
      → Starts i actor ys zs
      → Starts i actor xs zs
  Starts-after g s = record {
    more = g.more ++ s.more;
    grown = s.grown ∙ ap (λ l. l ++ s.more) g.grown ∙ append_assoc xs g.more s.more;
    started = has_start-append i actor g.more s.more ∙ ground (arith, s.started);
  }

  Starts-before :
      {zs : List (StateSnapshotRecord F)}
      → Starts i actor xs ys
      → Grows ys zs
      → Starts i actor xs zs
  Starts-before s g = record {
    more = s.more ++ g.more;
    grown = g.grown ∙ ap (λ l. l ++ g.more) s.grown ∙ append_assoc xs s.more g.more;
    started = has_start-append i actor s.more g.more ∙ ground (arith, s.started);
  }

  Starts-twice : Starts i actor xs ys → has_start i actor xs ≡ true → distinct_snapshots ys ≡ false
  Starts-twice s h = ap distinct_snapshots s.grown ∙ distinct-twice i actor xs s.more h s.started

module _ {F : Type 0} (w : Worker F) where
  execute_run-Starts :
      (now : ℕ) (r : SimulationRun F) (t : Tables F)
      → CanStart w r
      → Starts r.id (actor_of r) t.snapshots (execute_run w.services now r t).0.snapshots
  execute_run-Starts now r t c =
      let one = snapshot r 0 (start w.services r c.initial).state ∷ [] in
      Starts-before
        (record {
          more = one;
          grown = refl;
          started = ground (arith, eq_iff r.id r.id, eq_iff (actor_of r) (actor_of r));
        })
        (execute_run-starts w.services now r t c.pack c.calibrated)

  -- Among the runs of a call, one that can start adds its start.
  process_runs-Starts :
      (now : ℕ) (qs : List (SimulationRun F)) (r : SimulationRun F) (qs' : List (SimulationRun F))
      (t : Tables F)
      → CanStart w r
      → Starts r.id (actor_of r) t.snapshots (process_runs w now (qs ++ r ∷ qs') t).0.snapshots
  unfolding process_runs
  process_runs-Starts now [] r qs' t c =
      let o = execute_run w.services now r t in
      Starts-before
        (subst (Starts r.id (actor_of r) t.snapshots) (sym (settle_run-snapshots w r o))
          (execute_run-Starts now r t c))
        (process_runs-Grows w now qs' (settle_run w r o).0)
  process_runs-Starts now (q ∷ qs) r qs' t c =
      Starts-after (one-Grows w now q t)
        (process_runs-Starts now qs r qs' (settle_run w q (execute_run w.services now q t)).0 c)

  -- The tables after the loop over the claimed runs.
  after_loop : ℕ → String → ℕ → Tables F → Tables F × ℕ
  after_loop limit worker now t =
      let claimed =
        claim_rows (simulation_queue w.worker_lease_seconds) (λ r. true) limit now worker t.runs in
      process_runs w now claimed.0 (record t { runs = claimed.1 })

  -- The call claims the run.
  abbrev pub Claims : ℕ → String → ℕ → Tables F → SimulationRun F → Type 0
  Claims limit worker now t r =
      (qs : List (SimulationRun F)) × (qs' : List (SimulationRun F)) × ((claim_rows
          (simulation_queue w.worker_lease_seconds) (λ r. true) limit now worker t.runs).0
        ≡ qs ++ r ∷ qs')

  after_loop-Starts :
      (limit : ℕ) (worker : String) (now : ℕ) (t : Tables F) (r : SimulationRun F)
      → Claims limit worker now t r
      → CanStart w r
      → Starts r.id (actor_of r) t.snapshots (after_loop limit worker now t).0.snapshots
  unfolding after_loop
  after_loop-Starts limit worker now t r (qs, qs', e) c =
      let claimed =
        claim_rows (simulation_queue w.worker_lease_seconds) (λ r. true) limit now worker t.runs in
      let t0 = record t { runs = claimed.1 } in
      subst (λ l. Starts r.id (actor_of r) t.snapshots (process_runs w now l t0).0.snapshots)
        (sym e) (process_runs-Starts now qs r qs' t0 c)

  commit-stopped : (o : Tables F × ℕ) → distinct_snapshots o.0.snapshots ≡ false → commit w o ≡ none
  commit-stopped o h = ground arith

  pub commit-done : (o : Tables F × ℕ) {t : Tables F} {n : ℕ} → commit w o ≡ some (t, n) → o.0 ≡ t
  commit-done o h = ground arith

  -- A call that commits has written the start of each run that could start.
  starts_written :
      (limit : ℕ) (worker : String) (now : ℕ) (t : Tables F) (r : SimulationRun F) {t' : Tables F}
      {n : ℕ}
      → Claims limit worker now t r
      → CanStart w r
      → process_queued_runs w limit worker now t ≡ some (t', n)
      → has_start r.id (actor_of r) t'.snapshots ≡ true
  unfolding process_queued_runs after_loop
  starts_written limit worker now t r k c done =
      let s = after_loop-Starts limit worker now t r k c in
      ap (λ z. has_start r.id (actor_of r) z.snapshots)
        (sym (commit-done (after_loop limit worker now t) done))
      ∙ ap (has_start r.id (actor_of r)) s.grown
      ∙ has_start-append r.id (actor_of r) t.snapshots s.more
      ∙ ground (arith, s.started)

  -- A call that claims a run whose start is there already commits nothing.
  restart_raises :
      (limit : ℕ) (worker : String) (now : ℕ) (t : Tables F) (r : SimulationRun F)
      → Claims limit worker now t r
      → CanStart w r
      → has_start r.id (actor_of r) t.snapshots ≡ true
      → process_queued_runs w limit worker now t ≡ none
  unfolding process_queued_runs after_loop
  restart_raises limit worker now t r k c h =
      commit-stopped (after_loop limit worker now t)
        (Starts-twice (after_loop-Starts limit worker now t r k c) h)

-- No run gets a second attempt: when a call has claimed a run that could start and has committed,
-- then, whatever rows others add, each later call, of the same worker or of another, with the same
-- answers of the bus, the model and the resolver or with others, that claims a run with the same id
-- and actor that it could start raises and commits nothing, for this run and for all runs that it
-- has claimed.
pub second_attempt_raises :
    {F : Type 0} (w w' : Worker F) (limit limit' : ℕ) (worker worker' : String) (now now' : ℕ)
    (t t1 t2 : Tables F) (n : ℕ) (r r' : SimulationRun F)
    → Claims w limit worker now t r
    → CanStart w r
    → process_queued_runs w limit worker now t ≡ some (t1, n)
    → Grows t1.snapshots t2.snapshots
    → r'.id ≡ r.id
    → actor_of r' ≡ actor_of r
    → Claims w' limit' worker' now' t2 r'
    → CanStart w' r'
    → process_queued_runs w' limit' worker' now' t2 ≡ none
second_attempt_raises w w' limit limit' worker worker' now now' t t1 t2 n r r' k c done g same_id
      same_actor k' c' =
    restart_raises w' limit' worker' now' t2 r' k' c' (
      ap (λ i. has_start i (actor_of r') t2.snapshots) same_id
      ∙ ap (λ a. has_start r.id a t2.snapshots) same_actor
      ∙ ap (has_start r.id (actor_of r)) g.grown
      ∙ has_start-append r.id (actor_of r) t1.snapshots g.more
      ∙ ground (arith, starts_written w limit worker now t r k c done))
