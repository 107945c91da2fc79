-- ===== src/Simulation/Settling.antt =====
-- How a call leaves the runs that it has claimed (`process_queued_runs` of
-- src/planagent/services/simulation/engine.py).
use mathlib.Core.Bool.{true≢false}
use ming_jian.Base.{
  ℕ, String, ◌≡◌, refl, sym, ap, ◌∙◌, Bool, true, false, not, ◌&&◌, ◌||◌, List, [], ◌∷◌, Option,
  none, some, arith, ◌==◌, eq_iff, if◌then◌else◌, any_of, is_none, is_some, Bool-cases, inl, inr,
  if-cases,
}
use ming_jian.Base.Dict.{Dict}
use ming_jian.Base.Table.{update_rows}
use ming_jian.Lease.{claim_rows}
use ming_jian.Simulation.{Claim, RunStatus, SimulationRun, Tables, simulation_queue}
use ming_jian.Simulation.Run.{Services, Progress}
use ming_jian.Simulation.Execution.{
  has_id, put_run, set_status, completed_run, finish_run, generate_decision_options, execute_from,
  execute_with, execute_run, add_rows,
}
use ming_jian.Simulation.Evidence.{fetch_relevant_claims}
use ming_jian.Simulation.Ticks.{run_ticks, start}
use ming_jian.Simulation.Retry.{commit-done}
use ming_jian.Simulation.Queue.{
  Worker, succeeded, simulation_failed, settle_run, process_runs, process_queued_runs,
}

abbrev pub in_progress : RunStatus → Bool
in_progress RunStatus.processing = true
in_progress _ = false

module _ {F : Type 0} where
  -- No worker and no lease holds the run, and it is not in PROCESSING.
  abbrev pub ended : SimulationRun F → Bool
  ended r = is_none r.lease_owner && (is_none r.lease_expires_at && not (in_progress r.status))

  -- Some row of the run has not ended.
  abbrev pub is_open : String → List (SimulationRun F) → Bool
  is_open i = any_of (λ r. has_id i r && not (ended r))

  -- A change that leaves the ids.
  abbrev KeepsId : (SimulationRun F → SimulationRun F) → Type 0
  KeepsId f = (r : SimulationRun F) → (f r).id ≡ r.id

  is_open-other :
      (i j : String) (f : SimulationRun F → SimulationRun F) (rs : List (SimulationRun F))
      → KeepsId f
      → (i == j) ≡ false
      → is_open i (update_rows (has_id j) f rs) ≡ is_open i rs
  is_open-other i j f [] k h = refl
  is_open-other i j f (r ∷ rs) k h =
      ground (arith, is_open-other i j f rs k h, k r, eq_iff r.id i, eq_iff r.id j, eq_iff i j)

  is_open-closed :
      (i : String) (f : SimulationRun F → SimulationRun F) (rs : List (SimulationRun F))
      → ((r : SimulationRun F) → ended (f r) ≡ true)
      → is_open i (update_rows (has_id i) f rs) ≡ false
  is_open-closed i f [] e = refl
  is_open-closed i f (r ∷ rs) e = ground (arith, is_open-closed i f rs e, e r)

  update-twice :
      (i : String) (f g : SimulationRun F → SimulationRun F) (r : SimulationRun F)
      → KeepsId g
      → (let q = if has_id i r then g r else r in if has_id i q then f q else q)
        ≡ (if has_id i r then f (g r) else r)
  update-twice i f g r k = ground (arith, k r)

  update_rows-twice :
      (i : String) (f g : SimulationRun F → SimulationRun F) (rs : List (SimulationRun F))
      → KeepsId g
      → update_rows (has_id i) f (update_rows (has_id i) g rs)
        ≡ update_rows (has_id i) (λ r. f (g r)) rs
  update_rows-twice i f g [] k = refl
  update_rows-twice i f g (r ∷ rs) k =
      ap (λ x. x ∷ update_rows (has_id i) f (update_rows (has_id i) g rs)) (update-twice i f g r k)
      ∙ ap (λ l. (if has_id i r then f (g r) else r) ∷ l) (update_rows-twice i f g rs k)

module _ {F : Type 0} (sv : Services F) where
  -- The last write of a run that ends well.
  record Completed (r : SimulationRun F) (rs : List (SimulationRun F)) : Type 0 where
    change : SimulationRun F → SimulationRun F
    before : List (SimulationRun F)
    keeps : KeepsId change
    completes : (q : SimulationRun F) → (change q).status ≡ RunStatus.completed
    written : rs ≡ update_rows (has_id r.id) change before

  finish_run-runs :
      (now : ℕ) (r : SimulationRun F) (claims : List Claim) (p : Progress F) (t : Tables F)
      → (finish_run sv now r claims p t).0.runs
        ≡ update_rows (has_id r.id) (completed_run sv now claims p) t.runs
  unfolding finish_run generate_decision_options
  finish_run-runs now r claims p t = ground arith

  execute_from-Completed :
      (now : ℕ) (r : SimulationRun F) (claims : List Claim) (o : Progress F × Bool) (t : Tables F)
      → (execute_from sv now r claims o t).1 ≡ true
      → Completed r (execute_from sv now r claims o t).0.runs
  unfolding execute_from
  execute_from-Completed now r claims (p, false) t h = elim (true≢false (sym h)) [ ]
  execute_from-Completed now r claims (p, true) t h = record {
    change = completed_run sv now claims p;
    before = t.runs;
    keeps = λ q. refl;
    completes = λ q. refl;
    written = finish_run-runs now r claims p (add_rows p t);
  }

  execute_from-other :
      (i : String) (now : ℕ) (r : SimulationRun F) (claims : List Claim) (o : Progress F × Bool)
      (t : Tables F)
      → (i == r.id) ≡ false
      → is_open i (execute_from sv now r claims o t).0.runs ≡ is_open i t.runs
  unfolding execute_from
  execute_from-other i now r claims (p, false) t h = refl
  execute_from-other i now r claims (p, true) t h =
      ap (is_open i) (finish_run-runs now r claims p (add_rows p t))
      ∙ is_open-other i r.id (completed_run sv now claims p) t.runs (λ q. refl) h

  execute_with-Completed :
      (now : ℕ) (r : SimulationRun F) (pack : Option (Dict F)) (t : Tables F)
      → (execute_with sv now r pack t).1 ≡ true
      → Completed r (execute_with sv now r pack t).0.runs
  unfolding execute_with
  execute_with-Completed now r none t h = elim (true≢false (sym h)) [ ]
  execute_with-Completed now r (some initial) t h =
      let claims = fetch_relevant_claims (sv.query r) t.claims in
      let o = run_ticks sv r claims r.tick_count 1 (start sv r initial) in
      if-cases (λ (z : Tables F × Bool). z.1 ≡ true → Completed r z.0.runs) (sv.calibrates r.id)
        (λ _. execute_from-Completed now r claims o t)
        (λ _ raised. elim (true≢false (sym raised)) [ ]) h

  execute_with-other :
      (i : String) (now : ℕ) (r : SimulationRun F) (pack : Option (Dict F)) (t : Tables F)
      → (i == r.id) ≡ false
      → is_open i (execute_with sv now r pack t).0.runs ≡ is_open i t.runs
  unfolding execute_with
  execute_with-other i now r none t h = refl
  execute_with-other i now r (some initial) t h =
      let claims = fetch_relevant_claims (sv.query r) t.claims in
      let o = run_ticks sv r claims r.tick_count 1 (start sv r initial) in
      if-cases (λ (z : Tables F × Bool). is_open i z.0.runs ≡ is_open i t.runs) (sv.calibrates r.id)
        (λ _. execute_from-other i now r claims o t h) (λ _. refl)

  execute_run-Completed :
      (now : ℕ) (r : SimulationRun F) (t : Tables F)
      → (execute_run sv now r t).1 ≡ true
      → Completed r (execute_run sv now r t).0.runs
  unfolding execute_run
  execute_run-Completed now r t =
      execute_with-Completed now r (sv.pack_state r.domain_id r.actor_template)
        (put_run r.id (set_status RunStatus.processing) t)

  execute_run-other :
      (i : String) (now : ℕ) (r : SimulationRun F) (t : Tables F)
      → (i == r.id) ≡ false
      → is_open i (execute_run sv now r t).0.runs ≡ is_open i t.runs
  unfolding execute_run
  execute_run-other i now r t h =
      execute_with-other i now r (sv.pack_state r.domain_id r.actor_template)
        (put_run r.id (set_status RunStatus.processing) t) h
      ∙ is_open-other i r.id (set_status RunStatus.processing) t.runs (λ q. refl) h

module _ {F : Type 0} (w : Worker F) where
  failed-ended : (most : ℕ) (r : SimulationRun F) → ended (simulation_failed most r) ≡ true
  failed-ended most r = ground arith

  succeeded-ended :
      (r : SimulationRun F) → r.status ≡ RunStatus.completed → ended (succeeded r) ≡ true
  succeeded-ended r h = ap (λ s. not (in_progress s)) h

  -- A run's turn leaves it ended,
  settle_run-closed :
      (now : ℕ) (r : SimulationRun F) (o : Tables F × Bool)
      → (o.1 ≡ true → Completed w.services r o.0.runs)
      → is_open r.id (settle_run w r o).0.runs ≡ false
  settle_run-closed now r (t, false) c =
      is_open-closed r.id (simulation_failed w.worker_max_attempts) t.runs
        (failed-ended w.worker_max_attempts)
  settle_run-closed now r (t, true) c =
      let d = c refl in
      if-cases (λ (z : Tables F × ℕ). is_open r.id z.0.runs ≡ false)
        (not (is_some r.parent_run_id) || w.refreshes_branch r.id)
        (λ _.
          ap (λ l. is_open r.id (update_rows (has_id r.id) succeeded l)) d.written
          ∙ ap (is_open r.id) (update_rows-twice r.id succeeded d.change d.before d.keeps)
          ∙ is_open-closed r.id (λ q. succeeded (d.change q)) d.before
              (λ q. succeeded-ended (d.change q) (d.completes q)))
        (λ _.
          is_open-closed r.id (simulation_failed w.worker_max_attempts) t.runs
            (failed-ended w.worker_max_attempts))

  -- and the other runs as they were.
  settle_run-other :
      (i : String) (r : SimulationRun F) (o : Tables F × Bool)
      → (i == r.id) ≡ false
      → is_open i (settle_run w r o).0.runs ≡ is_open i o.0.runs
  settle_run-other i r (t, false) h =
      is_open-other i r.id (simulation_failed w.worker_max_attempts) t.runs (λ q. refl) h
  settle_run-other i r (t, true) h =
      if-cases (λ (z : Tables F × ℕ). is_open i z.0.runs ≡ is_open i t.runs)
        (not (is_some r.parent_run_id) || w.refreshes_branch r.id)
        (λ _. is_open-other i r.id succeeded t.runs (λ q. refl) h)
        (λ _. is_open-other i r.id (simulation_failed w.worker_max_attempts) t.runs (λ q. refl) h)

  closes : (a x : Bool) → x ≡ false → (a || not x) ≡ true
  closes a x h = ground arith

  keeps_or :
      (i j : String) (a x y : Bool)
      → (i == j) ≡ false
      → y ≡ x
      → ((if j == i then true else a) || not x) ≡ true
      → (a || not y) ≡ true
  keeps_or i j a x y n e h = ground (arith, eq_iff i j, eq_iff j i)

  process_runs-closed :
      (i : String) (now : ℕ) (rs : List (SimulationRun F)) (t : Tables F)
      → (any_of (has_id i) rs || not (is_open i t.runs)) ≡ true
      → is_open i (process_runs w now rs t).0.runs ≡ false
  unfolding process_runs
  process_runs-closed i now [] t h = ground arith
  process_runs-closed i now (r ∷ rs) t h =
      let o = execute_run w.services now r t in
      let next = (settle_run w r o).0 in
      let closed = settle_run-closed now r o (execute_run-Completed w.services now r t) in
      process_runs-closed i now rs next (elim (Bool-cases (i == r.id)) [
        | inl same ↦
            closes (any_of (has_id i) rs) (is_open i next.runs)
              (ap (λ j. is_open j next.runs) ((eq_iff i r.id).0 same) ∙ closed)
        | inr other ↦
            keeps_or i r.id (any_of (has_id i) rs) (is_open i t.runs) (is_open i next.runs) other
              (settle_run-other i r o other ∙ execute_run-other w.services i now r t other) h
      ])

  -- Every run that a call has claimed is left, when the call commits, without a worker and
  -- without a lease, and completed, failed or pending again.
  pub claimed_runs_end :
      (i : String) (limit : ℕ) (worker : String) (now : ℕ) (t t' : Tables F) (n : ℕ)
      → any_of
          (has_id i)
          (claim_rows
            (simulation_queue w.worker_lease_seconds)
            (λ r. true)
            limit
            now
            worker
            t.runs).0
        ≡ true
      → process_queued_runs w limit worker now t ≡ some (t', n)
      → is_open i t'.runs ≡ false
  unfolding process_queued_runs
  claimed_runs_end i limit worker now t t' n h done =
      let claimed =
        claim_rows (simulation_queue w.worker_lease_seconds) (λ r. true) limit now worker t.runs in
      let o = process_runs w now claimed.0 (record t { runs = claimed.1 }) in
      ap (λ z. is_open i z.runs) (sym (commit-done w o done))
      ∙ process_runs-closed i now claimed.0 (record t { runs = claimed.1 }) (ground (arith, h))
