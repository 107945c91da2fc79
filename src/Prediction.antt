-- ===== src/Prediction.antt =====
-- Prediction series and their revision: `PredictionService` of src/planagent/services/prediction.py.
-- Confidences are thousandths. Hypotheses and options are listed in the order in which the source
-- reads them; tables of versions, links and jobs list the newest row first.
pub mod Enqueue
pub mod Revision
pub mod Process
pub mod Change
pub mod Finishing
pub mod Steps
pub mod Numbering
pub mod Jobs
pub mod Failure
mod Tests
use ming_jian.Base.{
  ℕ, ◌+◌, ◌*◌, ◌≤◌, String, ◌≡◌, refl, Bool, true, false, ◌&&◌, ◌||◌, List, [], ◌∷◌, Option, none,
  some, arith, ◌==◌, ltb, leb, max, if◌then◌else◌, is_none, any_of,
}
use ming_jian.Base.Table.{update_first, find_row}
use ming_jian.Lease.{LeaseQueue}

pub data RunStatus : Type 0 where
  pending processing completed failed : RunStatus

pub data JobStatus : Type 0 where
  pending processing completed failed : JobStatus

pub data VersionStatus : Type 0 where
  active superseded : VersionStatus

pub data Trigger : Type 0 where
  initial evidence_update : Trigger

-- The fields of the rows that this service reads and writes.
pub record SimulationRun : Type 0 where
  pub id : String
  pub status : RunStatus
  pub revision_job_id : Option String

pub record PredictionSeries : Type 0 where
  pub id : String
  pub is_active : Bool
  pub current_version_id : Option String

pub record PredictionVersion : Type 0 where
  pub id : String
  pub series_id : String
  pub run_id : Option String
  pub base_version_id : Option String
  pub version_number : ℕ
  pub trigger_type : Trigger
  pub trigger_ref_id : Option String
  pub trigger_event_id : Option String
  pub hypothesis_id : Option String
  pub decision_option_id : Option String
  pub prediction_text : String
  pub time_horizon : String
  pub confidence : ℕ
  pub status : VersionStatus

pub record PredictionEvidenceLink : Type 0 where
  pub series_id : String
  pub version_id : String
  pub evidence_item_id : Option String
  pub claim_id : Option String
  pub link_type : String

pub record PredictionRevisionJob : Type 0 where
  pub id : String
  pub series_id : String
  pub base_version_id : Option String
  pub claim_id : Option String
  pub evidence_item_id : Option String
  pub reason : String
  pub status : JobStatus
  pub revision_run_id : Option String
  pub new_version_id : Option String
  pub lease_owner : Option String
  pub lease_expires_at : Option ℕ
  pub attempts : ℕ
  pub completed_at : Option ℕ
  pub last_error : Option String

pub record Hypothesis : Type 0 where
  pub id : String
  pub run_id : String
  pub decision_option_id : Option String
  pub prediction : String
  pub time_horizon : String

pub record DecisionOption : Type 0 where
  pub id : String
  pub run_id : String
  pub description : String
  pub confidence : ℕ

pub record DecisionRecord : Type 0 where
  pub run_id : String
  pub evidence_ids : List String

-- A claim's evidence, by falling confidence.
pub record EvidenceClaim : Type 0 where
  pub id : String
  pub evidence_item_id : String

-- The tables, the archived events, and how many ids have been made.
pub record Predictions : Type 0 where
  pub series : List PredictionSeries
  pub versions : List PredictionVersion
  pub links : List PredictionEvidenceLink
  pub jobs : List PredictionRevisionJob
  pub runs : List SimulationRun
  pub hypotheses : List Hypothesis
  pub options : List DecisionOption
  pub records : List DecisionRecord
  pub claims : List EvidenceClaim
  pub archive : List (String × String)
  pub made : ℕ

-- The n-th id made, whether the bus takes an event of a topic, and the length of a lease.
pub record Outside : Type 0 where
  pub new_id : ℕ → String
  pub publish_works : String → Bool
  pub lease_length : ℕ

abbrev pub is_open_status : JobStatus → Bool
is_open_status JobStatus.pending = true
is_open_status JobStatus.processing = true
is_open_status JobStatus.completed = false
is_open_status JobStatus.failed = false

abbrev pub lease_free : Option ℕ → ℕ → Bool
lease_free none now = true
lease_free (some e) now = ltb e now

-- `_claim_revision_jobs` as a lease queue.
module _ (out : Outside) where
  abbrev pub job_claimable : ℕ → PredictionRevisionJob → Bool
  job_claimable now j = is_open_status j.status && lease_free j.lease_expires_at now

  abbrev pub acquire_job : ℕ → String → PredictionRevisionJob → PredictionRevisionJob
  acquire_job now w j = record j {
    lease_owner = some w;
    lease_expires_at = some (now + out.lease_length);
    attempts = j.attempts + 1;
  }

  pub job_held :
      (now t : ℕ) (w : String) (j : PredictionRevisionJob)
      → t ≤ now + out.lease_length
      → job_claimable t (acquire_job now w j) ≡ false
  job_held now t w j h = ground arith

  abbrev pub revision_queue : LeaseQueue PredictionRevisionJob
  revision_queue = record {
    row_id = λ j. j.id;
    claimable = job_claimable;
    acquire = acquire_job;
    duration = out.lease_length;
    acquire_id = λ now w j. refl;
    acquire_held = job_held;
  }

-- `_publish_event`: the event is archived, then sent; false when the bus raises.
unfoldable pub publish_event : Outside → String → String → Predictions → Predictions × Bool
publish_event out topic key db =
    (record db { archive = (topic, key) ∷ db.archive }, out.publish_works topic)

abbrev pub put_job :
    String → (PredictionRevisionJob → PredictionRevisionJob) → Predictions → Predictions
put_job i f db = record db { jobs = update_first (λ j. j.id == i) f db.jobs }

abbrev pub find_job : String → Predictions → Option PredictionRevisionJob
find_job i db = find_row (λ j. j.id == i) db.jobs

abbrev pub find_version : String → Predictions → Option PredictionVersion
find_version i db = find_row (λ v. v.id == i) db.versions

abbrev pub find_series : String → Predictions → Option PredictionSeries
find_series i db = find_row (λ s. s.id == i) db.series

abbrev pub find_run : String → Predictions → Option SimulationRun
find_run i db = find_row (λ r. r.id == i) db.runs
