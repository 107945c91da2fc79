-- ===== src/Prediction/Tests.antt =====
-- A series with one version, revised once: the theorems of Prediction at concrete tables.
use ming_jian.Base.{
  map, ℕ, String, ◌≡◌, refl, true, false, List, [], ◌∷◌, none, some, eqb, if◌then◌else◌,
}
use ming_jian.Lease.{attempt, get_row, claim_loop, candidate_ids, claim_rows}
use ming_jian.Prediction.{
  RunStatus, JobStatus, active, initial, SimulationRun, PredictionVersion, PredictionRevisionJob,
  Predictions, Outside,
}
use ming_jian.Prediction.Enqueue.{enqueue_revisions}
use ming_jian.Prediction.Revision.{
  add_version, create_evidence_link, link_run_evidence, revision_text,
}
use ming_jian.Prediction.Process.{process_revision_jobs, process_job}
use ming_jian.Prediction.Steps.{Call, enqueues, processes, others, step, run}
use ming_jian.Prediction.Failure.{Stranded, unannounced_version_fails_job}

abbrev numbered : ℕ → String
numbered n = if eqb n 0 then "j" else if eqb n 1 then "r" else if eqb n 2 then "v2" else "x"

abbrev outside : Outside
outside = record { new_id = numbered; publish_works = λ t. true; lease_length = 300 }

abbrev first_version : PredictionVersion
first_version = record {
  id = "v1";
  series_id = "s";
  run_id = some "r0";
  base_version_id = none;
  version_number = 1;
  trigger_type = initial;
  trigger_ref_id = none;
  trigger_event_id = none;
  hypothesis_id = none;
  decision_option_id = none;
  prediction_text = "steady";
  time_horizon = "3_months";
  confidence = 500;
  status = active;
}

abbrev tables : Predictions
tables = record {
  series = record { id = "s"; is_active = true; current_version_id = some "v1" } ∷ [];
  versions = first_version ∷ [];
  links =
      record {
        series_id = "s";
        version_id = "v1";
        evidence_item_id = some "e";
        claim_id = none;
        link_type = "initial";
      }
      ∷ [];
  jobs = [];
  runs = record { id = "r0"; status = RunStatus.completed; revision_job_id = none } ∷ [];
  hypotheses = [];
  options = [];
  records = [];
  claims = [];
  archive = [];
  made = 0;
}

abbrev simulated : List SimulationRun
simulated = record { id = "r"; status = RunStatus.completed; revision_job_id = some "j" } ∷ []

-- The evidence is announced twice, the job starts a run, the run completes, the job is finished.
abbrev calls : List (ℕ × Call)
calls =
    (0, enqueues "" "e" "new_evidence")
    ∷ (1, enqueues "" "e" "new_evidence")
    ∷ (2, processes 5 "w")
    ∷ (3, others simulated [] [] [] [])
    ∷ (4, processes 5 "w")
    ∷ []

revised_versions :
    map (λ (v : PredictionVersion). v.version_number) (run outside calls tables).versions
    ≡ 2 ∷ 1 ∷ []
unfolding run step enqueue_revisions process_revision_jobs attempt get_row claim_loop candidate_ids
    claim_rows add_version create_evidence_link link_run_evidence revision_text
revised_versions = refl

revised_jobs :
    map (λ (j : PredictionRevisionJob). j.status) (run outside calls tables).jobs
    ≡ JobStatus.completed ∷ []
unfolding run step enqueue_revisions process_revision_jobs attempt get_row claim_loop candidate_ids
    claim_rows add_version create_evidence_link link_run_evidence revision_text
revised_jobs = refl

abbrev silent : Outside
silent = record outside { publish_works = λ t. false }

abbrev running_job : PredictionRevisionJob
running_job = record {
  id = "j";
  series_id = "s";
  base_version_id = some "v1";
  claim_id = none;
  evidence_item_id = some "e";
  reason = "new_evidence";
  status = JobStatus.processing;
  revision_run_id = some "r";
  new_version_id = none;
  lease_owner = some "w";
  lease_expires_at = some 300;
  attempts = 2;
  completed_at = none;
  last_error = none;
}

-- The tables when the run of the job has completed.
abbrev simulated_tables : Predictions
simulated_tables = record tables {
  jobs = running_job ∷ [];
  runs = record { id = "r"; status = RunStatus.completed; revision_job_id = some "j" } ∷ [];
}

unannounced_version_fails_job_example :
    Stranded running_job "r"
      (process_job silent 4 running_job JobStatus.processing simulated_tables).0
unannounced_version_fails_job_example =
    unannounced_version_fails_job silent 4 running_job simulated_tables
      (record { id = "r"; status = RunStatus.completed; revision_job_id = some "j" })
      (record { id = "s"; is_active = true; current_version_id = some "v1" }) first_version refl
      refl refl refl refl refl refl
