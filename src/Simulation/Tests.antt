-- ===== src/Simulation/Tests.antt =====
-- Calls on a run whose event the bus does not take, and examples of the theorems.
use ming_jian.Base.{
  ℕ, ◌≤◌, ◌<◌, ◌≡◌, refl, ◌⊎◌, inl, Bool, true, false, List, [], ◌∷◌, none, some, length, All,
  any_of,
}
use ming_jian.Base.Dict.{set_item}
use ming_jian.Schema.{ClaimStatus}
use ming_jian.Lease.{claim_rows, claim_loop, candidate_ids, attempt, get_row}
use ming_jian.Simulation.{Claim, SimulationRun, acquire_run, simulation_queue}
use ming_jian.Simulation.Shocks.{contains_lower, derive_shocks, apply_external_shock}
use ming_jian.Simulation.Replay.{replay, shocks_explain_state}
use ming_jian.Simulation.Evidence.{accepted_about, minimum_claims, fetch_relevant_claims}
use ming_jian.Simulation.Usable.{usable, fetched_usable}
use ming_jian.StreamTopology.{sort_texts, update_set}
use ming_jian.Simulation.Run.{actor_of, update_state}
use ming_jian.Simulation.Execution.{execute_run, has_id, distinct_snapshots, distinct_decisions}
use ming_jian.Simulation.Queue.{process_queued_runs}
use ming_jian.Simulation.Rows.{Grows-refl}
use ming_jian.Simulation.Retry.{CanStart, second_attempt_raises}
use ming_jian.Simulation.Trace.{Traced, decisions_explain_snapshots}
use ming_jian.Simulation.Settling.{is_open, claimed_runs_end}
use ming_jian.Simulation.Sample.{
  whole, query, claim, services, worker, run, tables, failed_run, after_failure,
}

-- A statement on mud is recorded as a shock, and nothing changes.
mud_recorded : length (derive_shocks "military" "Deep mud on the road" "e") ≡ 1
unfolding derive_shocks contains_lower
mud_recorded = refl

mud_forgotten : apply_external_shock whole "military" "Deep mud on the road" [] ≡ []
unfolding apply_external_shock contains_lower
mud_forgotten = refl

shocks_explain_state_example :
    apply_external_shock whole "corporate" "GPU price up" []
    ≡ replay whole (derive_shocks "corporate" "GPU price up" "e") []
shocks_explain_state_example =
    shocks_explain_state whole "corporate" "GPU price up" "e" [] (inl refl)

abbrev claims : List Claim
claims =
    claim "1" "acme" 90 ClaimStatus.accepted
    ∷ claim "2" "acme" 50 ClaimStatus.pending_review
    ∷ claim "3" "acme" 70 ClaimStatus.pending_review
    ∷ claim "4" "other" 80 ClaimStatus.accepted
    ∷ claim "5" "acme" 75 ClaimStatus.pending_review
    ∷ claim "6" "other" 99 ClaimStatus.pending_review
    ∷ []

fetched :
    fetch_relevant_claims query claims
    ≡ claim "1" "acme" 90 ClaimStatus.accepted
      ∷ claim "4" "other" 80 ClaimStatus.accepted
      ∷ claim "5" "acme" 75 ClaimStatus.pending_review
      ∷ claim "3" "acme" 70 ClaimStatus.pending_review
      ∷ []
unfolding fetch_relevant_claims
fetched = refl

fetched_usable_example :
    All (λ c. usable query c ≡ true) (fetch_relevant_claims query claims)
    × (((fetch_relevant_claims query claims ≡ accepted_about query claims)
          × (minimum_claims query ≤ length (accepted_about query claims)))
        ⊎ ((length (fetch_relevant_claims query claims) ≤ minimum_claims query)
            × (length (accepted_about query claims) < minimum_claims query)))
fetched_usable_example = fetched_usable query claims

first_attempt : process_queued_runs (worker false) 10 "w" 7 tables ≡ some (after_failure, 0)
unfolding process_queued_runs claim_rows claim_loop candidate_ids attempt get_row distinct_snapshots
    fetch_relevant_claims distinct_decisions sort_texts set_item actor_of update_state update_set
first_attempt = refl

can_start : (accepts : Bool) (r : SimulationRun ℕ) → CanStart (worker accepts) r
can_start accepts r = record { initial = ("cash", 100) ∷ []; pack = refl; calibrated = refl }

first_claim :
    (claim_rows (simulation_queue 1) (λ r. true) 10 7 "w" tables.runs).0
    ≡ acquire_run 1_000_000 7 "w" run ∷ []
unfolding claim_rows claim_loop candidate_ids attempt get_row
first_claim = refl

second_claim :
    (claim_rows (simulation_queue 1) (λ r. true) 10 9 "v" after_failure.runs).0
    ≡ acquire_run 1_000_000 9 "v" failed_run ∷ []
unfolding claim_rows claim_loop candidate_ids attempt get_row
second_claim = refl

same_actor :
    actor_of (acquire_run 1_000_000 9 "v" failed_run) ≡ actor_of (acquire_run 1_000_000 7 "w" run)
unfolding actor_of
same_actor = refl

second_attempt_raises_example : process_queued_runs (worker true) 10 "v" 9 after_failure ≡ none
second_attempt_raises_example =
    second_attempt_raises (worker false) (worker true) 10 10 "w" "v" 7 9 tables after_failure
      after_failure 0 (acquire_run 1_000_000 7 "w" run) (acquire_run 1_000_000 9 "v" failed_run)
      ([], [], first_claim) (can_start false (acquire_run 1_000_000 7 "w" run)) first_attempt
      (Grows-refl after_failure.snapshots) refl same_actor ([], [], second_claim)
      (can_start true (acquire_run 1_000_000 9 "v" failed_run))

executed : (execute_run (services true) 7 run tables).1 ≡ true
unfolding execute_run
executed = refl

decisions_explain_snapshots_example :
    Traced (services true) run tables (execute_run (services true) 7 run tables).0
decisions_explain_snapshots_example =
    decisions_explain_snapshots (services true) 7 run tables executed

claimed :
    any_of (has_id "r") (claim_rows (simulation_queue 1) (λ r. true) 10 7 "w" tables.runs).0 ≡ true
unfolding claim_rows claim_loop candidate_ids attempt get_row
claimed = refl

claimed_runs_end_example : is_open "r" after_failure.runs ≡ false
claimed_runs_end_example =
    claimed_runs_end (worker false) "r" 10 "w" 7 tables after_failure 0 claimed first_attempt
