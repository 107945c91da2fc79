-- ===== src/Simulation/Execution.antt =====
-- `_execute_run` from its first line to its last, with `_generate_decision_options`
-- (src/planagent/services/simulation/engine.py).
use ming_jian.Base.{
  ℕ, suc, String, Bool, true, false, ◌&&◌, not, List, [], ◌∷◌, ◌++◌, Option, none, some, ◌==◌, eqb,
  if◌then◌else◌, any_of, is_some, length, take, keep_if,
}
use ming_jian.Base.Dict.{Dict}
use ming_jian.Base.Table.{update_rows}
use ming_jian.Simulation.{
  RunStatus, Claim, SimulationRun, StateSnapshotRecord, DecisionRecordRecord, DecisionOption,
  Tables,
}
use ming_jian.StreamTopology.{update_set, sort_texts}
use ming_jian.Simulation.Evidence.{fetch_relevant_claims}
use ming_jian.Simulation.Run.{Services, Progress}
use ming_jian.Simulation.Ticks.{run_ticks, start}

module _ {F : Type 0} where
  abbrev pub has_id : String → SimulationRun F → Bool
  has_id i r = r.id == i

  -- A write to the run's object, which is its row.
  abbrev pub put_run : String → (SimulationRun F → SimulationRun F) → Tables F → Tables F
  put_run i f t = record t { runs = update_rows (has_id i) f t.runs }

  abbrev pub set_status : RunStatus → SimulationRun F → SimulationRun F
  set_status s r = record r { status = s }

  -- `unique_actions`: the first decision of each action.
  unfoldable pub first_decisions :
      List (DecisionRecordRecord F) → List (DecisionRecordRecord F) → List (DecisionRecordRecord F)
  first_decisions seen [] = seen
  first_decisions seen (d ∷ ds) =
      first_decisions
        (if any_of (λ e. e.action_id == d.action_id) seen then seen else seen ++ d ∷ []) ds

  abbrev pub of_run : String → DecisionRecordRecord F → Bool
  of_run i d = d.run_id == i

  abbrev pub archive_event : String → String → Tables F → Tables F
  archive_event topic i t = record t { archive = t.archive ++ (topic, i) ∷ [] }

  abbrev pub add_rows : Progress F → Tables F → Tables F
  add_rows p t = record t {
    shocks = t.shocks ++ p.shocks;
    decisions = t.decisions ++ p.decisions;
    snapshots = t.snapshots ++ p.snapshots;
  }

  -- Whether the unique constraints hold of the tables that a flush has written.
  unfoldable pub distinct_snapshots : List (StateSnapshotRecord F) → Bool
  distinct_snapshots [] = true
  distinct_snapshots (s ∷ ss) =
      not (
        any_of (λ z. (z.run_id == s.run_id) && (eqb z.tick s.tick && (z.actor_id == s.actor_id)))
          ss)
      && distinct_snapshots ss

  unfoldable pub distinct_decisions : List (DecisionRecordRecord F) → Bool
  distinct_decisions [] = true
  distinct_decisions (d ∷ ds) =
      not (
        any_of (λ e. (e.run_id == d.run_id) && (eqb e.tick d.tick && eqb e.sequence d.sequence)) ds)
      && distinct_decisions ds

  abbrev pub flushes : Tables F → Bool
  flushes t = distinct_snapshots t.snapshots && distinct_decisions t.decisions

module _ {F : Type 0} (sv : Services F) where
  -- The options of the top actions, ranked from `rank`.
  unfoldable pub ranked_options :
      SimulationRun F → ℕ → List (DecisionRecordRecord F) → List (DecisionOption F)
  ranked_options r rank [] = []
  ranked_options r rank (d ∷ ds) =
      record {
        run_id = r.id;
        title = sv.action_title r.domain_id d.action_id;
        description = d.why_selected;
        expected_effects = d.expected_effect;
        evidence_ids = d.evidence_ids;
        ranking = rank;
      }
      ∷ ranked_options r (suc rank) ds

  -- `_generate_decision_options`; the rows of a run are in the order of their ticks.
  unfoldable pub generate_decision_options : SimulationRun F → Tables F → Tables F
  unfolding first_decisions ranked_options
  generate_decision_options r t =
      let top = take 3 (first_decisions [] (keep_if (of_run r.id) t.decisions)) in
      if any_of (λ o. o.run_id == r.id) t.options
      then t
      else record t { options = t.options ++ ranked_options r 1 top }

  -- `run.status = COMPLETED`, with the summary.
  abbrev pub completed_run : ℕ → List Claim → Progress F → SimulationRun F → SimulationRun F
  completed_run now claims p r = record r {
    status = RunStatus.completed;
    completed_at = some now;
    summary = some record {
      ticks_completed = r.tick_count;
      evidence_count = length claims;
      shock_count = length p.shocks;
      matched_rules = sort_texts (update_set [] p.matched_rules);
      final_state = p.state;
    };
  }

  abbrev pub event_topic : SimulationRun F → String
  event_topic r = if is_some r.parent_run_id then "scenario.completed" else "simulation.completed"

  -- After the last tick.
  unfoldable pub finish_run :
      ℕ → SimulationRun F → List Claim → Progress F → Tables F → Tables F × Bool
  unfolding generate_decision_options
  finish_run now r claims p t =
      let done = archive_event (event_topic r) r.id (put_run r.id (completed_run now claims p) t) in
      if sv.publish (event_topic r) r.id
      then (generate_decision_options r done, sv.create_initial_versions r.id)
      else (done, false)

  unfoldable pub execute_from :
      ℕ → SimulationRun F → List Claim → Progress F × Bool → Tables F → Tables F × Bool
  unfolding finish_run
  execute_from now r claims (p, true) t = finish_run now r claims p (add_rows p t)
  execute_from now r claims (p, false) t = (add_rows p t, false)

  unfoldable pub execute_with : ℕ → SimulationRun F → Option (Dict F) → Tables F → Tables F × Bool
  unfolding execute_from run_ticks
  execute_with now r none t = (t, false)
  execute_with now r (some initial) t =
      let claims = fetch_relevant_claims (sv.query r) t.claims in
      if sv.calibrates r.id
      then execute_from now r claims (run_ticks sv r claims r.tick_count 1 (start sv r initial)) t
      else (t, false)

  -- `_execute_run`; false when it raises, with the rows added to the session by then.
  unfoldable pub execute_run : ℕ → SimulationRun F → Tables F → Tables F × Bool
  unfolding execute_with
  execute_run now r t =
      execute_with now r (sv.pack_state r.domain_id r.actor_template)
        (put_run r.id (set_status RunStatus.processing) t)
