-- ===== src/Simulation/Sample.antt =====
-- A company's run of one tick, over whole numbers for Python's floats.
use ming_jian.Base.{ℕ, ◌+◌, ◌-◌, String, Bool, true, [], ◌∷◌, none, some, ◌==◌}
use ming_jian.Schema.{ClaimStatus}
use ming_jian.Simulation.{Floats, RunStatus, Claim, SimulationRun, Tables, SelectedAction}
use ming_jian.Simulation.Evidence.{Query}
use ming_jian.Simulation.Run.{Services}
use ming_jian.Simulation.Queue.{Worker}

abbrev pub whole : Floats ℕ
whole = record { decimal = λ n. n; add = λ a b. a + b; sub = λ a b. a - b; round4 = λ a. a }

abbrev pub query : Query
query = record {
  tenant_id = some "t";
  preset_id = none;
  terms = "acme" ∷ [];
  tick_count = 1;
  floor = 60;
  ilike = λ term text. term == text;
}

abbrev pub claim : String → String → ℕ → ClaimStatus → Claim
claim i subject confidence status = record {
  id = i;
  evidence_item_id = i;
  tenant_id = some "t";
  preset_id = none;
  subject = subject;
  object_text = "";
  statement = "";
  confidence = confidence;
  status = status;
}

abbrev pub hire : SelectedAction ℕ
hire = record {
  action_id = "hire";
  why_selected = "demand";
  rule_ids = "r2" ∷ "r1" ∷ "r2" ∷ [];
  evidence_ids = [];
  expected_effect = ("cash", 5) ∷ [];
  actual_effect = ("cash", 5) ∷ [];
  decision_method = "rule_engine";
}

-- The bus takes an event or not.
abbrev pub services : Bool → Services ℕ
services sends = record {
  floats = whole;
  pack_state = λ d a. some (("cash", 100) ∷ []);
  action_title = λ d a. a;
  query = λ r. query;
  calibrates = λ i. true;
  select_action = λ s. some hire;
  resolve_military = λ s a c e. none;
  publish = λ topic i. sends;
  create_initial_versions = λ i. true;
}

abbrev pub worker : Bool → Worker ℕ
worker sends = record {
  services = services sends;
  worker_lease_seconds = 1;
  worker_max_attempts = 3;
  refreshes_branch = λ i. true;
  report_of = λ i. some "report";
}

abbrev pub run : SimulationRun ℕ
run = record {
  id = "r";
  company_id = some "c";
  force_id = none;
  tenant_id = some "t";
  preset_id = none;
  domain_id = "corporate";
  actor_template = "founder";
  parent_run_id = none;
  status = RunStatus.pending;
  tick_count = 1;
  initial_state = [];
  summary = none;
  lease_owner = none;
  lease_expires_at = none;
  processing_attempts = 0;
  last_error = none;
  completed_at = none;
}

abbrev pub tables : Tables ℕ
tables = record {
  runs = run ∷ [];
  claims = [];
  snapshots = [];
  decisions = [];
  shocks = [];
  options = [];
  archive = [];
  reports = [];
}

abbrev pub failed_run : SimulationRun ℕ
failed_run = record run {
  summary = some record {
    ticks_completed = 1;
    evidence_count = 0;
    shock_count = 0;
    matched_rules = "r1" ∷ "r2" ∷ [];
    final_state = ("cash", 105) ∷ [];
  };
  processing_attempts = 1;
  last_error = some "Simulation execution failed";
  completed_at = some 7;
}

-- The tables after a turn that the bus has stopped.
abbrev pub after_failure : Tables ℕ
after_failure = record {
  runs = failed_run ∷ [];
  claims = [];
  snapshots =
      record { run_id = "r"; tick = 0; actor_id = "c:founder"; state = ("cash", 100) ∷ [] }
      ∷ record { run_id = "r"; tick = 1; actor_id = "c:founder"; state = ("cash", 105) ∷ [] }
      ∷ [];
  decisions =
      record {
        run_id = "r";
        tick = 1;
        sequence = 1;
        actor_id = "c:founder";
        action_id = "hire";
        why_selected = "demand";
        evidence_ids = [];
        policy_rule_ids = "r2" ∷ "r1" ∷ "r2" ∷ [];
        expected_effect = ("cash", 5) ∷ [];
        actual_effect = ("cash", 5) ∷ [];
        decision_method = "rule_engine";
      }
      ∷ [];
  shocks = [];
  options = [];
  archive = ("simulation.completed", "r") ∷ [];
  reports = [];
}
