-- ===== src/Prediction/Enqueue.antt =====
-- `enqueue_revisions_for_evidence` of src/planagent/services/prediction.py. The number of new jobs
-- that it returns is left out.
use ming_jian.Base.{
  ◌+◌, String, Bool, true, false, ◌&&◌, List, [], ◌∷◌, Option, none, some, ◌==◌, if◌then◌else◌,
  is_some, any_of, keep_if,
}
use ming_jian.Prediction.{
  JobStatus, PredictionSeries, PredictionEvidenceLink, PredictionRevisionJob, Predictions, Outside,
  is_open_status, publish_event,
}

abbrev pub same_text : Option String → String → Bool
same_text none t = false
same_text (some s) t = s == t

-- A job of the series that is pending or processing.
abbrev pub open_job : String → PredictionRevisionJob → Bool
open_job i j = (j.series_id == i) && is_open_status j.status

abbrev pub is_linked : List PredictionEvidenceLink → String → PredictionSeries → Bool
is_linked links e s = any_of (λ l. same_text l.evidence_item_id e && (l.series_id == s.id)) links

-- The series that the evidence touches: active, with a current version.
abbrev pub affected : String → Predictions → List PredictionSeries
affected e db =
    keep_if (λ s. is_linked db.links e s && s.is_active && is_some s.current_version_id) db.series

abbrev pub or_absent : String → Option String
or_absent t = if t == "" then none else some t

abbrev pub revision_job :
    Outside → String → String → String → PredictionSeries → Predictions → PredictionRevisionJob
revision_job out claim e reason s db = record {
  id = out.new_id db.made;
  series_id = s.id;
  base_version_id = s.current_version_id;
  claim_id = or_absent claim;
  evidence_item_id = some e;
  reason = reason;
  status = JobStatus.pending;
  revision_run_id = none;
  new_version_id = none;
  lease_owner = none;
  lease_expires_at = none;
  attempts = 0;
  completed_at = none;
  last_error = none;
}

abbrev pub add_job : PredictionRevisionJob → Predictions → Predictions
add_job j db = record db { jobs = j ∷ db.jobs; made = db.made + 1 }

-- One turn of the loop: false when publishing raises, after the job was added.
unfoldable pub enqueue_one :
    Outside → String → String → String → PredictionSeries → Predictions → Predictions × Bool
unfolding publish_event
enqueue_one out claim e reason s db =
    let j = revision_job out claim e reason s db in
    if any_of (open_job s.id) db.jobs
    then (db, true)
    else publish_event out "prediction.revision_requested" j.id (add_job j db)

-- The loop; it stops at an exception.
unfoldable pub enqueue_all :
    Outside → String → String → String → List PredictionSeries → Predictions → Predictions × Bool
unfolding enqueue_one
enqueue_all out claim e reason [] db = (db, true)
enqueue_all out claim e reason (s ∷ ss) db =
    let one = enqueue_one out claim e reason s db in
    let rest = enqueue_all out claim e reason ss one.0 in if one.1 then rest else one

unfoldable pub enqueue_revisions :
    Outside → String → String → String → Predictions → Predictions × Bool
unfolding enqueue_all
enqueue_revisions out claim e reason db = enqueue_all out claim e reason (affected e db) db
