-- ===== src/Prediction/Failure.antt =====
-- A revision whose announcement fails (`process_revision_jobs` of
-- src/planagent/services/prediction.py): the exception comes after the version was made.
use ming_jian.Base.{
  ℕ, String, ◌≡◌, refl, ap, ◌∙◌, Bool, true, false, List, [], ◌∷◌, Option, none, some, arith, ◌==◌,
  if◌then◌else◌, any_of, All, Bool-cases, inl, inr,
}
use ming_jian.Base.Table.{update_rows, update_first, find_row}
use ming_jian.Prediction.{
  RunStatus, JobStatus, SimulationRun, PredictionSeries, PredictionVersion, PredictionRevisionJob,
  Predictions, Outside, publish_event, find_series, find_job, active,
}
use ming_jian.Prediction.Revision.{
  run_of, version_of, create_evidence_link, link_evidence, link_run_evidence, evidence_of,
  new_version, add_version, active_of, supersede,
}
use ming_jian.Prediction.Process.{
  failed_with, done_with, announce, with_version, made_by, revise, finalize_on, finalize_found,
  finalize_revision, settle, process_job,
}

create_evidence_link-versions :
    (series version : String) (e c : Option String) (t : String) (s : Predictions)
    → (create_evidence_link series version e c t s).versions ≡ s.versions
unfolding create_evidence_link
create_evidence_link-versions series version e c t s = ground arith

create_evidence_link-jobs :
    (series version : String) (e c : Option String) (t : String) (s : Predictions)
    → (create_evidence_link series version e c t s).jobs ≡ s.jobs
unfolding create_evidence_link
create_evidence_link-jobs series version e c t s = ground arith

versions_if :
    (b : Bool) (s t : Predictions)
    → t.versions ≡ s.versions
    → (if b then s else t).versions ≡ s.versions
versions_if true s t e = refl
versions_if false s t e = e

jobs_if : (b : Bool) (s t : Predictions) → t.jobs ≡ s.jobs → (if b then s else t).jobs ≡ s.jobs
jobs_if true s t e = refl
jobs_if false s t e = e

link_evidence-kept :
    (v : PredictionVersion) (es seen : List String) (s : Predictions)
    → ((link_evidence v es seen s).versions ≡ s.versions)
      × ((link_evidence v es seen s).jobs ≡ s.jobs)
unfolding link_evidence
link_evidence-kept v [] seen s = (refl, refl)
link_evidence-kept v (e ∷ es) seen s =
    let t = create_evidence_link v.series_id v.id (some e) none "decision_trace" s in
    let b = any_of (λ x. x == e) seen in
    let rest = link_evidence-kept v es (e ∷ seen) (if b then s else t) in
    (
      rest.0
          ∙ versions_if b s t
              (create_evidence_link-versions v.series_id v.id (some e) none "decision_trace" s),
      rest.1
          ∙ jobs_if b s t
              (create_evidence_link-jobs v.series_id v.id (some e) none "decision_trace" s),
    )

announce-silent :
    (out : Outside) (version job : String) (db : Predictions)
    → out.publish_works "prediction.version_created" ≡ false
    → announce out version job db
      ≡ (record db { archive = ("prediction.version_created", version) ∷ db.archive }, none)
unfolding publish_event
announce-silent out version job db silent = rw silent refl

revise-new :
    (out : Outside) (now : ℕ) (j : PredictionRevisionJob) (run : String) (db : Predictions)
    (s : PredictionSeries) (base : PredictionVersion)
    → any_of (made_by j.series_id run) db.versions ≡ false
    → revise out now j run db (some s) (some base)
      ≡ announce out (new_version out j run base db).id j.id (with_version out now j run base db)
unfolding revise
revise-new out now j run db s base new = rw new refl

module _ (out : Outside) (now : ℕ) (j : PredictionRevisionJob) (run : String)
    (base : PredictionVersion) (db : Predictions) where
  abbrev made_version : PredictionVersion
  made_version = new_version out j run base db

  abbrev linked : Predictions
  linked =
      create_evidence_link j.series_id made_version.id j.evidence_item_id j.claim_id
        "revision_trigger" (add_version made_version db)

  with_version-versions :
      (with_version out now j run base db).versions
      ≡ made_version ∷ update_rows (active_of j.series_id) supersede db.versions
  unfolding link_run_evidence add_version
  with_version-versions =
      (link_evidence-kept made_version (evidence_of run linked.records) [] linked).0
      ∙ create_evidence_link-versions j.series_id made_version.id j.evidence_item_id j.claim_id
          "revision_trigger" (add_version made_version db)

  with_version-jobs :
      (with_version out now j run base db).jobs
      ≡ update_first (λ k. k.id == j.id) (done_with now made_version.id) db.jobs
  unfolding link_run_evidence add_version
  with_version-jobs = ap (update_first (λ k. k.id == j.id) (done_with now made_version.id)) (
      (link_evidence-kept made_version (evidence_of run linked.records) [] linked).1
      ∙ create_evidence_link-jobs j.series_id made_version.id j.evidence_item_id j.claim_id
          "revision_trigger" (add_version made_version db))

  unannounced :
      (s : PredictionSeries)
      → any_of (made_by j.series_id run) db.versions ≡ false
      → out.publish_works "prediction.version_created" ≡ false
      → let x = (settle j (revise out now j run db (some s) (some base))).0 in
        (x.versions ≡ made_version ∷ update_rows (active_of j.series_id) supersede db.versions)
        × (x.jobs
            ≡ update_first
                (λ k. k.id == j.id)
                (failed_with "Prediction revision failed")
                (update_first (λ k. k.id == j.id) (done_with now made_version.id) db.jobs))
  unannounced s new silent =
      rw
        (revise-new out now j run db s base new
          ∙ announce-silent out made_version.id j.id (with_version out now j run base db) silent)
        (
          with_version-versions,
          ap (update_first (λ k. k.id == j.id) (failed_with "Prediction revision failed"))
              with_version-jobs,
        )

superseded_one : (i : String) (v : PredictionVersion) → active_of i (supersede v) ≡ false
superseded_one i v = ground arith

-- After the update no version of the series is active.
none_active :
    (i : String) (vs : List PredictionVersion)
    → All (λ v. active_of i v ≡ false) (update_rows (active_of i) supersede vs)
none_active i [] = tt
none_active i (v ∷ vs) = (
  elim (Bool-cases (active_of i v)) [ inl e ↦ rw e (superseded_one i v) | inr e ↦ rw (e, e) refl ],
  none_active i vs,
)

find_job-first :
    (i : String) (f : PredictionRevisionJob → PredictionRevisionJob)
    (js : List PredictionRevisionJob) (j : PredictionRevisionJob)
    → ((k : PredictionRevisionJob) → (f k).id ≡ k.id)
    → find_row (λ k. k.id == i) js ≡ some j
    → find_row (λ k. k.id == i) (update_first (λ k. k.id == i) f js) ≡ some (f j)
find_job-first i f [] j keeps e = cc
find_job-first i f (k ∷ js) j keeps e = elim (Bool-cases (k.id == i)) [
  | inl own ↦
      let same : k ≡ j = ground (arith, e, own) in
      let own' : ((f k).id == i) ≡ true = ap (λ x. x == i) (keeps k) ∙ own in
      rw (own, own') (ap (λ x. some (f x)) same)
  | inr other ↦ rw (other, other) (find_job-first i f js j keeps (rw other at e))
]

-- The newest version is of the run and active, the others of its series are not; and the job has
-- failed, without a lease, with the id of that version and an error.
pub record Stranded (j : PredictionRevisionJob) (run : String) (x : Predictions) : Type 0 where
  pub version : PredictionVersion
  pub older : List PredictionVersion
  pub newest : x.versions ≡ version ∷ older
  pub of_series : version.series_id ≡ j.series_id
  pub of_run : version.run_id ≡ some run
  pub stands : version.status ≡ active
  pub alone : All (λ v. active_of j.series_id v ≡ false) older
  pub job : PredictionRevisionJob
  pub found : find_job j.id x ≡ some job
  pub failed : job.status ≡ JobStatus.failed
  pub names : job.new_version_id ≡ some version.id
  pub unowned : job.lease_owner ≡ none
  pub free : job.lease_expires_at ≡ none
  pub reason : job.last_error ≡ some "Prediction revision failed"

stranded :
    (out : Outside) (now : ℕ) (j : PredictionRevisionJob) (run : String) (base : PredictionVersion)
    (db x : Predictions)
    → find_job j.id db ≡ some j
    → x.versions
      ≡ new_version out j run base db ∷ update_rows (active_of j.series_id) supersede db.versions
    → x.jobs
      ≡ update_first
          (λ k. k.id == j.id)
          (failed_with "Prediction revision failed")
          (update_first
            (λ k. k.id == j.id)
            (done_with now (new_version out j run base db).id)
            db.jobs)
    → Stranded j run x
stranded out now j run base db x here versions jobs =
    let v = new_version out j run base db in
    let done = done_with now v.id in
    record {
      version = v;
      older = update_rows (active_of j.series_id) supersede db.versions;
      newest = versions;
      of_series = refl;
      of_run = refl;
      stands = refl;
      alone = none_active j.series_id db.versions;
      job = failed_with "Prediction revision failed" (done j);
      found =
          ap (find_row (λ k. k.id == j.id)) jobs
          ∙ find_job-first j.id (failed_with "Prediction revision failed")
              (update_first (λ k. k.id == j.id) done db.jobs) (done j) (λ k. refl)
              (find_job-first j.id done db.jobs j (λ k. refl) here);
      failed = refl;
      names = refl;
      unowned = refl;
      free = refl;
      reason = refl;
    }

-- When a job is there, its run has completed, its series and its base version are there, no earlier
-- turn made a version of the run, and the bus does not take the event of the new version, then the
-- new version stands all the same: it is the newest, of the run, active, and the only active one
-- of its series. The job ends as failed, without a lease, with the id of that version and an error.
pub unannounced_version_fails_job :
    (out : Outside) (now : ℕ) (j : PredictionRevisionJob) (db : Predictions) (r : SimulationRun)
    (s : PredictionSeries) (base : PredictionVersion)
    → find_job j.id db ≡ some j
    → run_of db j.revision_run_id ≡ some r
    → r.status ≡ RunStatus.completed
    → find_series j.series_id db ≡ some s
    → version_of db j.base_version_id ≡ some base
    → any_of (made_by j.series_id r.id) db.versions ≡ false
    → out.publish_works "prediction.version_created" ≡ false
    → Stranded j r.id (process_job out now j JobStatus.processing db).0
unfolding process_job finalize_revision finalize_found finalize_on
unannounced_version_fails_job out now j db r s base here runs done series based new silent =
    let e = unannounced out now j r.id base db s new silent in
    rw runs
      (rw (done, finalize_on) (rw (series, based) (stranded out now j r.id base db _ here e.0 e.1)))
