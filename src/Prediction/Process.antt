-- ===== src/Prediction/Process.antt =====
-- `_finalize_revision_job` and `process_revision_jobs` of src/planagent/services/prediction.py.
use ming_jian.Base.{
  ℕ, ◌+◌, String, Bool, true, false, ◌&&◌, List, [], ◌∷◌, Option, none, some, ◌==◌, if◌then◌else◌,
  any_of,
}
use ming_jian.Lease.{claim_rows}
use ming_jian.Prediction.{
  RunStatus, JobStatus, Trigger, evidence_update, SimulationRun, PredictionSeries,
  PredictionVersion, PredictionRevisionJob, Predictions, Outside, revision_queue, publish_event,
  put_job, find_job, find_series,
}
use ming_jian.Prediction.Enqueue.{same_text}
use ming_jian.Prediction.Revision.{
  run_of, version_of, start_revision, create_evidence_link, link_run_evidence, new_version,
  add_version,
}

abbrev pub released : PredictionRevisionJob → PredictionRevisionJob
released j = record j { lease_owner = none; lease_expires_at = none }

abbrev pub failed_with : String → PredictionRevisionJob → PredictionRevisionJob
failed_with error j = record (released j) { status = JobStatus.failed; last_error = some error }

-- A job whose version is there already.
abbrev pub done_before : ℕ → PredictionRevisionJob → PredictionRevisionJob
done_before now j = record (released j) { status = JobStatus.completed; completed_at = some now }

abbrev pub done_with : ℕ → String → PredictionRevisionJob → PredictionRevisionJob
done_with now version j = record (done_before now j) {
  new_version_id = some version;
  last_error = none;
}

-- What a finished job leaves: `none` is an exception.
abbrev pub Finished : Type 0
Finished = Predictions × Option ℕ

-- The events of a new version. The first that raises ends the job's turn.
abbrev pub announce : Outside → String → String → Predictions → Finished
announce out version job db =
    let first = publish_event out "prediction.version_created" version db in
    let second = publish_event out "prediction.revision_completed" job first.0 in
    if first.1 then (second.0, if second.1 then some 1 else none) else (first.0, none)

-- The tables with the new version, its evidence and the finished job.
abbrev pub with_version :
    Outside → ℕ → PredictionRevisionJob → String → PredictionVersion → Predictions → Predictions
with_version out now j run base db =
    let v = new_version out j run base db in
    put_job j.id (done_with now v.id) (
      link_run_evidence run v (
        create_evidence_link j.series_id v.id j.evidence_item_id j.claim_id "revision_trigger"
          (add_version v db)))

abbrev pub is_update : Trigger → Bool
is_update evidence_update = true
is_update Trigger.initial = false

-- The version that an earlier turn made of this run.
abbrev pub made_by : String → String → PredictionVersion → Bool
made_by series run v = (v.series_id == series) && same_text v.run_id run && is_update v.trigger_type

unfoldable pub revise :
    Outside
    → ℕ
    → PredictionRevisionJob
    → String
    → Predictions
    → Option PredictionSeries
    → Option PredictionVersion
    → Finished
revise out now j run db none base = (db, none)
revise out now j run db (some s) none = (db, none)
revise out now j run db (some s) (some base) =
    let v = new_version out j run base db in
    if any_of (made_by j.series_id run) db.versions
    then (put_job j.id (done_before now) db, some 1)
    else announce out v.id j.id (with_version out now j run base db)

unfoldable pub finalize_on :
    Outside → ℕ → PredictionRevisionJob → Predictions → String → RunStatus → Finished
unfolding revise
finalize_on out now j db run RunStatus.failed =
    (put_job j.id (failed_with "Revision simulation failed") db, some 1)
finalize_on out now j db run RunStatus.pending = (put_job j.id released db, some 0)
finalize_on out now j db run RunStatus.processing = (put_job j.id released db, some 0)
finalize_on out now j db run RunStatus.completed =
    revise out now j run db (find_series j.series_id db) (version_of db j.base_version_id)

unfoldable pub finalize_found :
    Outside → ℕ → PredictionRevisionJob → Predictions → Option SimulationRun → Finished
unfolding finalize_on
finalize_found out now j db none = (db, none)
finalize_found out now j db (some r) = finalize_on out now j db r.id r.status

-- `_finalize_revision_job`
unfoldable pub finalize_revision : Outside → ℕ → PredictionRevisionJob → Predictions → Finished
unfolding finalize_found
finalize_revision out now j db = finalize_found out now j db (run_of db j.revision_run_id)

-- The handler of exceptions: what was changed before stays.
abbrev pub settle : PredictionRevisionJob → Finished → Predictions × ℕ
settle j (db, some n) = (db, n)
settle j (db, none) = (put_job j.id (failed_with "Prediction revision failed") db, 1)

abbrev pub count_start : Predictions × Bool → Finished
count_start (db, true) = (db, some 1)
count_start (db, false) = (db, none)

unfoldable pub process_job :
    Outside → ℕ → PredictionRevisionJob → JobStatus → Predictions → Predictions × ℕ
unfolding finalize_revision start_revision
process_job out now j JobStatus.pending db = settle j (count_start (start_revision out j db))
process_job out now j JobStatus.processing db = settle j (finalize_revision out now j db)
process_job out now j JobStatus.completed db = (db, 0)
process_job out now j JobStatus.failed db = (db, 0)

abbrev pub process_found :
    Outside → ℕ → Option PredictionRevisionJob → Predictions → Predictions × ℕ
process_found out now none db = (db, 0)
process_found out now (some j) db = process_job out now j j.status db

-- The loop over the claimed jobs. A job is an object of the session: the row as it is by then.
unfoldable pub process_jobs :
    Outside → ℕ → List PredictionRevisionJob → Predictions → Predictions × ℕ
unfolding process_job
process_jobs out now [] db = (db, 0)
process_jobs out now (j ∷ js) db =
    let one = process_found out now (find_job j.id db) db in
    let rest = process_jobs out now js one.0 in (rest.0, one.1 + rest.1)

-- `process_revision_jobs`
unfoldable pub process_revision_jobs : Outside → ℕ → String → ℕ → Predictions → Predictions × ℕ
unfolding process_jobs
process_revision_jobs out limit worker now db =
    let claimed = claim_rows (revision_queue out) (λ j. true) limit now worker db.jobs in
    process_jobs out now claimed.0 (record db { jobs = claimed.1 })
