-- ===== src/Prediction/Finishing.antt =====
-- The operations of the prediction service (src/planagent/services/prediction.py) as chains of small
-- changes.
use ming_jian.Base.{
  ℕ, String, ◌≡◌, refl, ap, ◌∙◌, Bool, true, false, List, [], ◌∷◌, Option, none, some, arith, ◌==◌,
  eq_iff, any_of, Bool-cases, inl, inr,
}
use ming_jian.Base.Table.{find_row}
use ming_jian.Prediction.{
  RunStatus, JobStatus, SimulationRun, PredictionSeries, PredictionVersion, PredictionRevisionJob,
  Predictions, Outside, is_open_status, publish_event, put_job, find_job, find_series,
}
use ming_jian.Prediction.Enqueue.{open_job, revision_job, enqueue_one, enqueue_all}
use ming_jian.Prediction.Revision.{
  run_of, version_of, base_run_of, start_from, start_revision, create_evidence_link, link_evidence,
  link_run_evidence, evidence_of, new_version, add_version, started,
}
use ming_jian.Prediction.Process.{
  released, failed_with, done_before, done_with, Finished, announce, with_version, made_by, revise,
  finalize_on, finalize_found, finalize_revision, settle, count_start, process_job, process_found,
  process_jobs,
}
use ming_jian.Prediction.Change.{
  aside, close, start, enqueue, number, Changes, none_yet, after, once, Changes-trans, Changes-if,
}

publish_event-Changes :
    (out : Outside) (topic key : String) (s : Predictions)
    → Changes s (publish_event out topic key s).0
unfolding publish_event
publish_event-Changes out topic key s = once (aside s _ refl refl)

enqueue_one-Changes :
    (out : Outside) (claim e reason : String) (x : PredictionSeries) (s : Predictions)
    → Changes s (enqueue_one out claim e reason x s).0
unfolding enqueue_one
enqueue_one-Changes out claim e reason x s = elim (Bool-cases (any_of (open_job x.id) s.jobs)) [
  | inl busy ↦ rw busy none_yet
  | inr free ↦ rw free (
      Changes-trans (once (enqueue s (revision_job out claim e reason x s) free))
        (publish_event-Changes out "prediction.revision_requested" _ _))
]

pub enqueue_all-Changes :
    (out : Outside) (claim e reason : String) (xs : List PredictionSeries) (s : Predictions)
    → Changes s (enqueue_all out claim e reason xs s).0
unfolding enqueue_all
enqueue_all-Changes out claim e reason [] s = none_yet
enqueue_all-Changes out claim e reason (x ∷ xs) s =
    let one = enqueue_one-Changes out claim e reason x s in
    Changes-if s (enqueue_one out claim e reason x s).1 _ _
      (Changes-trans one (enqueue_all-Changes out claim e reason xs _)) one

-- A write that leaves a job's status, or closes it.
close_job :
    (i : String) (f : PredictionRevisionJob → PredictionRevisionJob) (s : Predictions)
    → ((j : PredictionRevisionJob) → (f j).series_id ≡ j.series_id)
    → ((j : PredictionRevisionJob)
        → is_open_status j.status ≡ false
        → is_open_status (f j).status ≡ false)
    → Changes s (put_job i f s)
close_job i f s same closed =
    once (close s i f (record { same_series = same; stays_closed = closed }))

start_from-Changes :
    (out : Outside) (j : PredictionRevisionJob) (s : Predictions) (x : Option PredictionSeries)
    (r : Option SimulationRun)
    → find_job j.id s ≡ some j
    → is_open_status j.status ≡ true
    → Changes s (start_from out j s x r).0
start_from-Changes out j s none r here waiting = none_yet
start_from-Changes out j s (some x) none here waiting = none_yet
start_from-Changes out j s (some x) (some r) here waiting =
    after (once (aside s _ refl refl))
      (start _ j.id j (started (out.new_id s.made)) here waiting refl)

create_evidence_link-Changes :
    (series version : String) (e c : Option String) (t : String) (s : Predictions)
    → Changes s (create_evidence_link series version e c t s)
unfolding create_evidence_link
create_evidence_link-Changes series version e c t s = once (aside s _ (ground arith) (ground arith))

link_evidence-Changes :
    (v : PredictionVersion) (es seen : List String) (s : Predictions)
    → Changes s (link_evidence v es seen s)
unfolding link_evidence
link_evidence-Changes v [] seen s = none_yet
link_evidence-Changes v (e ∷ es) seen s = elim (Bool-cases (any_of (λ x. x == e) seen)) [
  | inl old ↦ rw old (link_evidence-Changes v es (e ∷ seen) s)
  | inr new ↦ rw new (
      Changes-trans (create_evidence_link-Changes v.series_id v.id (some e) none "decision_trace" s)
        (link_evidence-Changes v es (e ∷ seen) _))
]

with_version-Changes :
    (out : Outside) (now : ℕ) (j : PredictionRevisionJob) (run : String) (base : PredictionVersion)
    (s : Predictions)
    → Changes s (with_version out now j run base s)
unfolding link_run_evidence
with_version-Changes out now j run base s =
    let v = new_version out j run base s in
    Changes-trans (once (number s v refl)) (
      Changes-trans
        (create_evidence_link-Changes j.series_id v.id j.evidence_item_id j.claim_id
          "revision_trigger" (add_version v s))
        (Changes-trans (link_evidence-Changes v (evidence_of run _) [] _)
          (close_job j.id (done_with now v.id) _ (λ x. refl) (λ x e. refl))))

announce-Changes :
    (out : Outside) (version job : String) (s : Predictions)
    → Changes s (announce out version job s).0
announce-Changes out version job s =
    let one = publish_event-Changes out "prediction.version_created" version s in
    Changes-if s (publish_event out "prediction.version_created" version s).1 _ _
      (Changes-trans one (publish_event-Changes out "prediction.revision_completed" job _)) one

revise-Changes :
    (out : Outside) (now : ℕ) (j : PredictionRevisionJob) (run : String) (s : Predictions)
    (x : Option PredictionSeries) (base : Option PredictionVersion)
    → Changes s (revise out now j run s x base).0
unfolding revise
revise-Changes out now j run s none base = none_yet
revise-Changes out now j run s (some x) none = none_yet
revise-Changes out now j run s (some x) (some base) =
    Changes-if s (any_of (made_by j.series_id run) s.versions) _ _
      (close_job j.id (done_before now) s (λ y. refl) (λ y e. refl))
      (Changes-trans (with_version-Changes out now j run base s)
        (announce-Changes out (new_version out j run base s).id j.id _))

finalize_on-Changes :
    (out : Outside) (now : ℕ) (j : PredictionRevisionJob) (s : Predictions) (run : String)
    (status : RunStatus)
    → Changes s (finalize_on out now j s run status).0
unfolding finalize_on
finalize_on-Changes out now j s run RunStatus.failed =
    close_job j.id (failed_with "Revision simulation failed") s (λ y. refl) (λ y e. refl)
finalize_on-Changes out now j s run RunStatus.pending =
    close_job j.id released s (λ y. refl) (λ y e. e)
finalize_on-Changes out now j s run RunStatus.processing =
    close_job j.id released s (λ y. refl) (λ y e. e)
finalize_on-Changes out now j s run RunStatus.completed =
    revise-Changes out now j run s (find_series j.series_id s) (version_of s j.base_version_id)

finalize_found-Changes :
    (out : Outside) (now : ℕ) (j : PredictionRevisionJob) (s : Predictions)
    (r : Option SimulationRun)
    → Changes s (finalize_found out now j s r).0
unfolding finalize_found
finalize_found-Changes out now j s none = none_yet
finalize_found-Changes out now j s (some r) = finalize_on-Changes out now j s r.id r.status

settle-Changes :
    (j : PredictionRevisionJob) (s : Predictions) (x : Finished)
    → Changes s x.0
    → Changes s (settle j x).0
settle-Changes j s (t, some n) c = c
settle-Changes j s (t, none) c =
    Changes-trans c
      (close_job j.id (failed_with "Prediction revision failed") t (λ y. refl) (λ y e. refl))

count_start-Changes :
    (s : Predictions) (x : Predictions × Bool) → Changes s x.0 → Changes s (count_start x).0
count_start-Changes s (t, true) c = c
count_start-Changes s (t, false) c = c

process_job-Changes :
    (out : Outside) (now : ℕ) (j : PredictionRevisionJob) (status : JobStatus) (s : Predictions)
    → find_job j.id s ≡ some j
    → j.status ≡ status
    → Changes s (process_job out now j status s).0
unfolding process_job start_revision finalize_revision
process_job-Changes out now j JobStatus.pending s here is = settle-Changes j s _ (
    count_start-Changes s _ (
      start_from-Changes out j s (find_series j.series_id s)
        (base_run_of s (version_of s j.base_version_id)) here (ap is_open_status is)))
process_job-Changes out now j JobStatus.processing s here is =
    settle-Changes j s _ (finalize_found-Changes out now j s (run_of s j.revision_run_id))
process_job-Changes out now j JobStatus.completed s here is = none_yet
process_job-Changes out now j JobStatus.failed s here is = none_yet

found_id :
    (i : String) (t : List PredictionRevisionJob) (j : PredictionRevisionJob)
    → find_row (λ x. x.id == i) t ≡ some j
    → j.id ≡ i
found_id i [] j e = cc
found_id i (x ∷ t) j e = ground (arith, found_id i t j, eq_iff x.id i)

pub process_jobs-Changes :
    (out : Outside) (now : ℕ) (js : List PredictionRevisionJob) (s : Predictions)
    → Changes s (process_jobs out now js s).0
unfolding process_jobs
process_jobs-Changes out now [] s = none_yet
process_jobs-Changes out now (j ∷ js) s =
    Changes-trans (found (find_job j.id s) refl) (process_jobs-Changes out now js _)
  where
    found :
        (o : Option PredictionRevisionJob)
        → find_job j.id s ≡ o
        → Changes s (process_found out now o s).0
    found none e = none_yet
    found (some x) e =
        process_job-Changes out now x x.status s
          (ap (λ i. find_job i s) (found_id j.id s.jobs x e) ∙ e) refl
