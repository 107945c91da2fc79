-- ===== src/Prediction/Revision.antt =====
-- `_start_revision_simulation`, `_finalize_revision_job` and what they call, of
-- src/planagent/services/prediction.py. A flag that is false, or `none`, is an exception, with the
-- changes made before it.
use ming_jian.Base.{
  ℕ, ◌+◌, String, Bool, true, false, ◌&&◌, List, [], ◌∷◌, ◌++◌, Option, none, some, ◌==◌, max,
  if◌then◌else◌, any_of,
}
use ming_jian.Base.Table.{update_rows, find_row}
use ming_jian.Prediction.{
  RunStatus, JobStatus, VersionStatus, active, superseded, evidence_update, SimulationRun,
  PredictionSeries, PredictionVersion, PredictionRevisionJob, Hypothesis, DecisionOption,
  DecisionRecord, EvidenceClaim, Predictions, Outside, put_job, find_version, find_series, find_run,
}
use ming_jian.Prediction.Enqueue.{same_text}

abbrev pub started : String → PredictionRevisionJob → PredictionRevisionJob
started run j = record j {
  revision_run_id = some run;
  status = JobStatus.processing;
  last_error = none;
  lease_owner = none;
  lease_expires_at = none;
}

abbrev pub start_from :
    Outside
    → PredictionRevisionJob
    → Predictions
    → Option PredictionSeries
    → Option SimulationRun
    → Predictions × Bool
start_from out j db none r = (db, false)
start_from out j db (some s) none = (db, false)
start_from out j db (some s) (some r) =
    let run = out.new_id db.made in
    let new_run : SimulationRun = record {
      id = run;
      status = RunStatus.pending;
      revision_job_id = some j.id;
    } in
    (put_job j.id (started run) (record db { runs = new_run ∷ db.runs; made = db.made + 1 }), true)

abbrev pub run_of : Predictions → Option String → Option SimulationRun
run_of db none = none
run_of db (some i) = find_run i db

abbrev pub version_of : Predictions → Option String → Option PredictionVersion
version_of db none = none
version_of db (some i) = find_version i db

abbrev pub base_run_of : Predictions → Option PredictionVersion → Option SimulationRun
base_run_of db none = none
base_run_of db (some v) = run_of db v.run_id

-- `_start_revision_simulation`: false is a LookupError, before any change.
unfoldable pub start_revision : Outside → PredictionRevisionJob → Predictions → Predictions × Bool
start_revision out j db =
    start_from out j db (find_series j.series_id db)
      (base_run_of db (version_of db j.base_version_id))

abbrev pub same_option : Option String → Option String → Bool
same_option none none = true
same_option none (some b) = false
same_option (some a) b = same_text b a

abbrev pub claim_id : Option EvidenceClaim → Option String
claim_id none = none
claim_id (some c) = some c.id

-- The strongest claim of an evidence item.
abbrev pub claim_for : Predictions → Option String → Option String → Option String
claim_for db (some c) e = some c
claim_for db none none = none
claim_for db none (some e) = claim_id (find_row (λ c. c.evidence_item_id == e) db.claims)

-- `_create_evidence_link`
unfoldable pub create_evidence_link :
    String → String → Option String → Option String → String → Predictions → Predictions
create_evidence_link series version e claim link_type db =
    let c = claim_for db claim e in
    if any_of
      (λ l.
        (l.version_id == version) && same_option l.evidence_item_id e && same_option l.claim_id c)
      db.links
    then db
    else record db {
      links =
          record {
            series_id = series;
            version_id = version;
            evidence_item_id = e;
            claim_id = c;
            link_type = link_type;
          }
          ∷ db.links;
    }

-- The inner loop of `link_run_evidence`, with the evidence ids seen.
unfoldable pub link_evidence :
    PredictionVersion → List String → List String → Predictions → Predictions
unfolding create_evidence_link
link_evidence v [] seen db = db
link_evidence v (e ∷ es) seen db = link_evidence v es (e ∷ seen) (
    if any_of (λ x. x == e) seen
    then db
    else create_evidence_link v.series_id v.id (some e) none "decision_trace" db)

-- The evidence ids of a run's decisions, in order.
abbrev pub evidence_of : String → List DecisionRecord → List String
evidence_of run [] = []
evidence_of run (r ∷ rs) =
    if r.run_id == run then r.evidence_ids ++ evidence_of run rs else evidence_of run rs

-- `link_run_evidence`
unfoldable pub link_run_evidence : String → PredictionVersion → Predictions → Predictions
unfolding link_evidence
link_run_evidence run v db = link_evidence v (evidence_of run db.records) [] db

-- `_revision_prediction_text`: text, confidence, hypothesis, option and horizon.
pub record Text : Type 0 where
  pub prediction_text : String
  pub confidence : ℕ
  pub hypothesis_id : Option String
  pub decision_option_id : Option String
  pub time_horizon : String

abbrev pub option_of : Predictions → Option String → Option DecisionOption
option_of db none = none
option_of db (some i) = find_row (λ o. o.id == i) db.options

abbrev pub option_id : Option DecisionOption → Option String
option_id none = none
option_id (some o) = some o.id

abbrev pub option_confidence : ℕ → Option DecisionOption → ℕ
option_confidence base none = base
option_confidence base (some o) = o.confidence

abbrev pub option_text : PredictionVersion → Option DecisionOption → Text
option_text base none = record {
  prediction_text = base.prediction_text;
  confidence = base.confidence;
  hypothesis_id = none;
  decision_option_id = none;
  time_horizon = base.time_horizon;
}
option_text base (some o) = record {
  prediction_text = o.description;
  confidence = o.confidence;
  hypothesis_id = none;
  decision_option_id = some o.id;
  time_horizon = base.time_horizon;
}

abbrev pub hypothesis_text : Predictions → String → PredictionVersion → Option Hypothesis → Text
hypothesis_text db run base none = option_text base (find_row (λ o. o.run_id == run) db.options)
hypothesis_text db run base (some h) =
    let o = option_of db h.decision_option_id in
    record {
      prediction_text = h.prediction;
      confidence = option_confidence base.confidence o;
      hypothesis_id = some h.id;
      decision_option_id = option_id o;
      time_horizon = h.time_horizon;
    }

unfoldable pub revision_text : Predictions → String → PredictionVersion → Text
revision_text db run base =
    hypothesis_text db run base (find_row (λ h. h.run_id == run) db.hypotheses)

-- `coalesce(max(version_number), 0)` over the series.
abbrev pub max_number : String → List PredictionVersion → ℕ
max_number i [] = 0
max_number i (v ∷ vs) =
    if v.series_id == i then max v.version_number (max_number i vs) else max_number i vs

abbrev pub is_active : VersionStatus → Bool
is_active active = true
is_active superseded = false

abbrev pub active_of : String → PredictionVersion → Bool
active_of i v = (v.series_id == i) && is_active v.status

abbrev pub supersede : PredictionVersion → PredictionVersion
supersede v = record v { status = superseded }

abbrev pub new_version :
    Outside → PredictionRevisionJob → String → PredictionVersion → Predictions → PredictionVersion
new_version out j run base db =
    let t = revision_text db run base in
    record {
      id = out.new_id db.made;
      series_id = j.series_id;
      run_id = some run;
      base_version_id = some base.id;
      version_number = max_number j.series_id db.versions + 1;
      trigger_type = evidence_update;
      trigger_ref_id = j.evidence_item_id;
      trigger_event_id = some j.reason;
      hypothesis_id = t.hypothesis_id;
      decision_option_id = t.decision_option_id;
      prediction_text = t.prediction_text;
      time_horizon = t.time_horizon;
      confidence = t.confidence;
      status = active;
    }

-- The active versions of the series are superseded, and the new one becomes the current.
unfoldable pub add_version : PredictionVersion → Predictions → Predictions
add_version v db = record db {
  versions = v ∷ update_rows (active_of v.series_id) supersede db.versions;
  series =
      update_rows (λ s. s.id == v.series_id) (λ s. record s { current_version_id = some v.id })
        db.series;
  made = db.made + 1;
}
