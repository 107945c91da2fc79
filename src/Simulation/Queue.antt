-- ===== src/Simulation/Queue.antt =====
-- The calls of the workers: `process_queued_runs` of src/planagent/services/simulation/engine.py and
-- `generate_pending_reports` of services/simulation/report.py.
--
-- A flush that meets a unique constraint rolls the transaction back and leaves the session unusable
-- until a rollback, so the handler of exceptions raises in turn when it reads the run's id, and the
-- call ends with an exception and nothing written. The rows that a run has added are never taken
-- back, so they are flushed at the commit at the latest: the call raises exactly if the constraints
-- do not hold of all rows by then.
use ming_jian.Base.{
  ℕ, ◌+◌, String, Bool, true, false, not, ◌&&◌, ◌||◌, List, [], ◌∷◌, ◌++◌, Option, none, some, ◌==◌,
  leb, if◌then◌else◌, any_of, is_some, keep_if, map, take, ◌*◌,
}
use ming_jian.Lease.{claim_rows, claim_loop}
use ming_jian.Simulation.{RunStatus, SimulationRun, Tables, simulation_queue, report_queue}
use ming_jian.Simulation.Run.{Services}
use ming_jian.Simulation.Execution.{put_run, flushes, archive_event, execute_run}

-- The settings, and what the two calls use beside a run's own services: whether
-- `_refresh_scenario_branch` works, which writes only to the branch, and the id of the report of a run
-- (`none` is an exception).
pub record Worker (F : Type 0) : Type 0 where
  pub services : Services F
  pub worker_lease_seconds : ℕ
  pub worker_max_attempts : ℕ
  pub refreshes_branch : String → Bool
  pub report_of : String → Option String

module _ {F : Type 0} where
  abbrev pub released : SimulationRun F → SimulationRun F
  released r = record r { lease_owner = none; lease_expires_at = none }

  -- `run.last_error = None`, and the `finally` block.
  abbrev pub succeeded : SimulationRun F → SimulationRun F
  succeeded r = released (record r { last_error = none })

  abbrev pub status_after : ℕ → SimulationRun F → RunStatus
  status_after most r =
      if leb most r.processing_attempts then RunStatus.failed else RunStatus.pending

  -- The handler of exceptions, and the `finally` block.
  abbrev pub simulation_failed : ℕ → SimulationRun F → SimulationRun F
  simulation_failed most r =
      released
        (record r { last_error = some "Simulation execution failed"; status = status_after most r })

  abbrev pub report_failed : SimulationRun F → SimulationRun F
  report_failed r = released (record r { last_error = some "Report generation failed" })

module _ {F : Type 0} (w : Worker F) where
  -- The end of a run's turn: the tables, and whether it counts as processed.
  abbrev pub settle_run : SimulationRun F → Tables F × Bool → Tables F × ℕ
  settle_run r (t, true) =
      if not (is_some r.parent_run_id) || w.refreshes_branch r.id
      then (put_run r.id succeeded t, 1)
      else (put_run r.id (simulation_failed w.worker_max_attempts) t, 0)
  settle_run r (t, false) = (put_run r.id (simulation_failed w.worker_max_attempts) t, 0)

  -- The loop over the claimed runs.
  unfoldable pub process_runs : ℕ → List (SimulationRun F) → Tables F → Tables F × ℕ
  unfolding execute_run
  process_runs now [] t = (t, 0)
  process_runs now (r ∷ rs) t =
      let one = settle_run r (execute_run w.services now r t) in
      let rest = process_runs now rs one.0 in (rest.0, one.1 + rest.1)

  -- `session.commit()`: `none` when a unique constraint stops it.
  abbrev pub commit : Tables F × ℕ → Option (Tables F × ℕ)
  commit (t, n) = if flushes t then some (t, n) else none

  -- `process_queued_runs`
  unfoldable pub process_queued_runs : ℕ → String → ℕ → Tables F → Option (Tables F × ℕ)
  unfolding process_runs
  process_queued_runs limit worker now t =
      let claimed =
        claim_rows (simulation_queue w.worker_lease_seconds) (λ r. true) limit now worker t.runs in
      commit (process_runs now claimed.0 (record t { runs = claimed.1 }))

  -- `_generate_report`: the report is added, archived, and sent.
  unfoldable pub generate_report : String → Option String → Tables F → Tables F × Bool
  generate_report i none t = (t, false)
  generate_report i (some report) t = (
    archive_event "report.generated" i (record t { reports = t.reports ++ i ∷ [] }),
    w.services.publish "report.generated" i,
  )

  abbrev pub settle_report : String → Tables F × Bool → Tables F × ℕ
  settle_report i (t, true) = (put_run i succeeded t, 1)
  settle_report i (t, false) = (put_run i report_failed t, 0)

  unfoldable pub report_runs : List (SimulationRun F) → Tables F → Tables F × ℕ
  unfolding generate_report
  report_runs [] t = (t, 0)
  report_runs (r ∷ rs) t =
      let one = settle_report r.id (generate_report r.id (w.report_of r.id) t) in
      let rest = report_runs rs one.0 in (rest.0, one.1 + rest.1)

  abbrev pub unreported : Tables F → SimulationRun F → Bool
  unreported t r = not (any_of (λ i. i == r.id) t.reports)

  -- `ORDER BY completed_at, created_at`, where no instant comes last.
  abbrev pub completed_before : Option ℕ → Option ℕ → Bool
  completed_before none none = true
  completed_before none (some b) = false
  completed_before (some a) none = true
  completed_before (some a) (some b) = leb a b

  abbrev pub insert_completed : SimulationRun F → List (SimulationRun F) → List (SimulationRun F)
  insert_completed r [] = r ∷ []
  insert_completed r (q ∷ qs) =
      if completed_before r.completed_at q.completed_at
      then r ∷ q ∷ qs
      else q ∷ insert_completed r qs

  abbrev pub by_completion : List (SimulationRun F) → List (SimulationRun F)
  by_completion [] = []
  by_completion (r ∷ rs) = insert_completed r (by_completion rs)

  -- `_claim_report_runs`
  abbrev pub claim_reports :
      ℕ → ℕ → String → Tables F → List (SimulationRun F) × List (SimulationRun F)
  claim_reports limit now worker t =
      let q = report_queue w.worker_lease_seconds in
      let ready = by_completion (keep_if (λ r. q.claimable now r && unreported t r) t.runs) in
      claim_loop q limit now worker (take (limit * 3) (map (λ r. r.id) ready)) t.runs []

  -- `generate_pending_reports`
  unfoldable pub generate_pending_reports : ℕ → String → ℕ → Tables F → Tables F × ℕ
  unfolding report_runs
  generate_pending_reports limit worker now t =
      let claimed = claim_reports limit now worker t in
      report_runs claimed.0 (record t { runs = claimed.1 })
