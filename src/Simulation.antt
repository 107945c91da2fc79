-- ===== src/Simulation.antt =====
-- The simulation service of src/planagent: services/simulation/engine.py, impact.py and report.py.
-- The tables are the columns of domain/models.py that the code reads or writes. A table lists its
-- rows in the order in which they were added; confidences are whole numbers on a fixed scale;
-- instants are whole microseconds.
use ming_jian.Base.{
  ℕ, ◌+◌, ◌*◌, ◌≤◌, ◌<◌, String, ◌≡◌, refl, Bool, true, false, ◌&&◌, List, Option, none, some,
  arith, ltb, leb, if◌then◌else◌,
}
use ming_jian.Base.Dict.{Dict}
use ming_jian.Schema.{ClaimStatus}
use ming_jian.Lease.{LeaseQueue}
pub mod Shocks
pub mod Evidence
pub mod Usable
pub mod Run
pub mod Ticks
pub mod Execution
pub mod Queue
pub mod Rows
pub mod Retry
pub mod Trace
pub mod Settling
mod Sample
mod Tests
pub mod Replay

-- Python's `float` and what the code does with it: a literal in thousandths, `+`, `-` and
-- `round(x, 4)`. No law is asked of it.
pub record Floats (F : Type 0) : Type 0 where
  pub decimal : ℕ → F
  pub add : F → F → F
  pub sub : F → F → F
  pub round4 : F → F

-- SimulationRunStatus
pub data RunStatus : Type 0 where
  pending processing completed failed : RunStatus

pub record Claim : Type 0 where
  pub id : String
  pub evidence_item_id : String
  pub tenant_id : Option String
  pub preset_id : Option String
  pub subject : String
  pub object_text : String
  pub statement : String
  pub confidence : ℕ
  pub status : ClaimStatus

-- What `_execute_run` writes to `run.summary`.
pub record RunSummary (F : Type 0) : Type 0 where
  pub ticks_completed : ℕ
  pub evidence_count : ℕ
  pub shock_count : ℕ
  pub matched_rules : List String
  pub final_state : Dict F

pub record SimulationRun (F : Type 0) : Type 0 where
  pub id : String
  pub company_id : Option String
  pub force_id : Option String
  pub tenant_id : Option String
  pub preset_id : Option String
  pub domain_id : String
  pub actor_template : String
  pub parent_run_id : Option String
  pub status : RunStatus
  pub tick_count : ℕ
  -- `configuration["initial_state"]`
  pub initial_state : Dict F
  pub summary : Option (RunSummary F)
  pub lease_owner : Option String
  pub lease_expires_at : Option ℕ
  pub processing_attempts : ℕ
  pub last_error : Option String
  pub completed_at : Option ℕ

pub record StateSnapshotRecord (F : Type 0) : Type 0 where
  pub run_id : String
  pub tick : ℕ
  pub actor_id : String
  pub state : Dict F

pub record DecisionRecordRecord (F : Type 0) : Type 0 where
  pub run_id : String
  pub tick : ℕ
  pub sequence : ℕ
  pub actor_id : String
  pub action_id : String
  pub why_selected : String
  pub evidence_ids : List String
  pub policy_rule_ids : List String
  pub expected_effect : Dict F
  pub actual_effect : Dict F
  pub decision_method : String

pub record ExternalShockRecord : Type 0 where
  pub run_id : String
  pub tick : ℕ
  pub domain : String
  pub shock_type : String
  pub evidence_id : String

pub record DecisionOption (F : Type 0) : Type 0 where
  pub run_id : String
  pub title : String
  pub description : String
  pub expected_effects : Dict F
  pub evidence_ids : List String
  pub ranking : ℕ

-- `archive` is EventArchive: the topic, and the id of the run that the event names.
pub record Tables (F : Type 0) : Type 0 where
  pub runs : List (SimulationRun F)
  pub claims : List Claim
  pub snapshots : List (StateSnapshotRecord F)
  pub decisions : List (DecisionRecordRecord F)
  pub shocks : List ExternalShockRecord
  pub options : List (DecisionOption F)
  pub archive : List (String × String)
  pub reports : List String

pub record SelectedAction (F : Type 0) : Type 0 where
  pub action_id : String
  pub why_selected : String
  pub rule_ids : List String
  pub evidence_ids : List String
  pub expected_effect : Dict F
  pub actual_effect : Dict F
  pub decision_method : String

-- `lease_expires_at is None or lease_expires_at < now`
abbrev pub lease_over : Option ℕ → ℕ → Bool
lease_over none now = true
lease_over (some t) now = ltb t now

pub held_over : {t u : ℕ} → t ≤ u → lease_over (some u) t ≡ false
held_over le = ground arith

abbrev pub run_claimable : RunStatus → Option ℕ → ℕ → Bool
run_claimable RunStatus.pending lease now = true
run_claimable RunStatus.processing lease now = lease_over lease now
run_claimable RunStatus.completed lease now = false
run_claimable RunStatus.failed lease now = false

abbrev pub is_completed : RunStatus → Bool
is_completed RunStatus.completed = true
is_completed _ = false

pub held_report :
    (s : RunStatus) {t u : ℕ} → t ≤ u → (is_completed s && lease_over (some u) t) ≡ false
held_report s le = ground (arith, held_over le)

module _ {F : Type 0} where
  abbrev pub acquire_run : ℕ → ℕ → String → SimulationRun F → SimulationRun F
  acquire_run duration now w r = record r {
    status = RunStatus.processing;
    lease_owner = some w;
    lease_expires_at = some (now + duration);
    processing_attempts = r.processing_attempts + 1;
  }

  abbrev pub acquire_report : ℕ → ℕ → String → SimulationRun F → SimulationRun F
  acquire_report duration now w r = record r {
    lease_owner = some w;
    lease_expires_at = some (now + duration);
    processing_attempts = r.processing_attempts + 1;
  }

  -- `_claim_simulation_runs`, for a lease of `seconds`.
  abbrev pub simulation_queue : ℕ → LeaseQueue (SimulationRun F)
  simulation_queue seconds = record {
    row_id = λ r. r.id;
    claimable = λ now r. run_claimable r.status r.lease_expires_at now;
    acquire = acquire_run (seconds * 1_000_000);
    duration = seconds * 1_000_000;
    acquire_id = λ now w r. refl;
    acquire_held = λ now t w r le. held_over le;
  }

  -- `_claim_report_runs`, less the join with the reports.
  abbrev pub report_queue : ℕ → LeaseQueue (SimulationRun F)
  report_queue seconds = record {
    row_id = λ r. r.id;
    claimable = λ now r. is_completed r.status && lease_over r.lease_expires_at now;
    acquire = acquire_report (seconds * 1_000_000);
    duration = seconds * 1_000_000;
    acquire_id = λ now w r. refl;
    acquire_held = λ now t w r le. held_report r.status le;
  }
