-- ===== src/Prediction/Steps.antt =====
-- Calls of `enqueue_revisions_for_evidence` and of `process_revision_jobs` of
-- src/planagent/services/prediction.py one after another, each as a whole, and what other services
-- write between two calls, as a chain of small changes.
use ming_jian.Base.{ℕ, String, refl, true, List, [], ◌∷◌, leb, if◌then◌else◌, length}
use ming_jian.Base.Table.{update_rows}
use ming_jian.Lease.{claim_loop, candidate_ids, claim_rows, attempt, wanted, add_found, get_row}
use ming_jian.Prediction.{
  SimulationRun, PredictionRevisionJob, Hypothesis, DecisionOption, DecisionRecord, EvidenceClaim,
  Predictions, Outside, revision_queue, acquire_job,
}
use ming_jian.Prediction.Enqueue.{affected, enqueue_revisions}
use ming_jian.Prediction.Process.{process_revision_jobs}
use ming_jian.Prediction.Change.{
  aside, acquire, Changes, none_yet, once, Changes-trans, Changes-jobs_if,
}
use ming_jian.Prediction.Finishing.{enqueue_all-Changes, process_jobs-Changes}

-- The jobs claimed after one more candidate.
abbrev claimed_so_far :
    Outside
    → ℕ
    → String
    → String
    → List PredictionRevisionJob
    → List PredictionRevisionJob
    → List PredictionRevisionJob
claimed_so_far out now w i t claimed =
    let a = attempt (revision_queue out) now w i t in
    if a.1
    then add_found (revision_queue out) claimed (get_row (revision_queue out) i a.0)
    else claimed

-- The claim of a batch is a chain of claims of one row.
claim_loop-Changes :
    (out : Outside) (limit now : ℕ) (w : String) (ids : List String) (s : Predictions)
    (claimed : List PredictionRevisionJob)
    → Changes s
        (record s { jobs = (claim_loop (revision_queue out) limit now w ids s.jobs claimed).1 })
unfolding claim_loop attempt
claim_loop-Changes out limit now w [] s claimed = none_yet
claim_loop-Changes out limit now w (i ∷ ids) s claimed =
    let t = update_rows (wanted (revision_queue out) now i) (acquire_job out now w) s.jobs in
    let one : Changes s (record s { jobs = t }) = once (
      acquire s (wanted (revision_queue out) now i) (acquire_job out now w)
        (record { same_series = λ j. refl; stays_closed = λ j e. e })) in
    Changes-jobs_if s (leb limit (length (claimed_so_far out now w i s.jobs claimed))) _ _ one
      (Changes-trans one (claim_loop-Changes out limit now w ids (record s { jobs = t }) _))

-- A call of the service, or what other services write to the tables that it reads: runs,
-- hypotheses, options, decisions and claims.
pub data Call : Type 0 where
  enqueues : String → String → String → Call
  processes : ℕ → String → Call
  others :
      List SimulationRun
      → List Hypothesis
      → List DecisionOption
      → List DecisionRecord
      → List EvidenceClaim
      → Call

unfoldable pub step : Outside → ℕ × Call → Predictions → Predictions
step out (now, enqueues c e reason) s = (enqueue_revisions out c e reason s).0
step out (now, processes limit worker) s = (process_revision_jobs out limit worker now s).0
step out (now, others runs hs os rs cs) s = record s {
  runs = runs;
  hypotheses = hs;
  options = os;
  records = rs;
  claims = cs;
}

unfoldable pub run : Outside → List (ℕ × Call) → Predictions → Predictions
run out [] s = s
run out (c ∷ cs) s = run out cs (step out c s)

step-Changes : (out : Outside) (c : ℕ × Call) (s : Predictions) → Changes s (step out c s)
unfolding step enqueue_revisions process_revision_jobs claim_rows
step-Changes out (now, enqueues c e reason) s = enqueue_all-Changes out c e reason (affected e s) s
step-Changes out (now, processes limit worker) s =
    Changes-trans
      (claim_loop-Changes out limit now worker
        (candidate_ids (revision_queue out) (λ j. true) limit now s.jobs) s [])
      (process_jobs-Changes out now
        (claim_rows (revision_queue out) (λ j. true) limit now worker s.jobs).0 _)
step-Changes out (now, others runs hs os rs cs) s = once (aside s _ refl refl)

pub run-Changes :
    (out : Outside) (cs : List (ℕ × Call)) (s : Predictions) → Changes s (run out cs s)
unfolding run
run-Changes out [] s = none_yet
run-Changes out (c ∷ cs) s =
    Changes-trans (step-Changes out c s) (run-Changes out cs (step out c s))
