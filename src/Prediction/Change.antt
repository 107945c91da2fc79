-- ===== src/Prediction/Change.antt =====
-- Small changes of the versions and the jobs of the prediction service
-- (src/planagent/services/prediction.py), and chains of them.
use ming_jian.Base.{◌+◌, String, ◌≡◌, Bool, true, false, List, some, if◌then◌else◌, any_of}
use ming_jian.Base.Table.{update_rows}
use ming_jian.Prediction.{
  PredictionVersion, PredictionRevisionJob, Predictions, is_open_status, put_job, find_job,
}
use ming_jian.Prediction.Enqueue.{open_job, add_job}
use ming_jian.Prediction.Revision.{max_number, add_version}

-- A write to a job that keeps its series and opens no closed job.
pub record Settles (f : PredictionRevisionJob → PredictionRevisionJob) : Type 0 where
  pub same_series : (j : PredictionRevisionJob) → (f j).series_id ≡ j.series_id
  pub stays_closed :
      (j : PredictionRevisionJob)
      → is_open_status j.status ≡ false
      → is_open_status (f j).status ≡ false

pub data Change : Predictions → Predictions → Type 0 where
  aside : (s t : Predictions) → t.versions ≡ s.versions → t.jobs ≡ s.jobs → Change s t
  acquire :
      (s : Predictions) (p : PredictionRevisionJob → Bool)
      (f : PredictionRevisionJob → PredictionRevisionJob)
      → Settles f
      → Change s (record s { jobs = update_rows p f s.jobs })
  close :
      (s : Predictions) (i : String) (f : PredictionRevisionJob → PredictionRevisionJob)
      → Settles f
      → Change s (put_job i f s)
  start :
      (s : Predictions) (i : String) (j : PredictionRevisionJob)
      (f : PredictionRevisionJob → PredictionRevisionJob)
      → find_job i s ≡ some j
      → is_open_status j.status ≡ true
      → (f j).series_id ≡ j.series_id
      → Change s (put_job i f s)
  enqueue :
      (s : Predictions) (j : PredictionRevisionJob)
      → any_of (open_job j.series_id) s.jobs ≡ false
      → Change s (add_job j s)
  number :
      (s : Predictions) (v : PredictionVersion)
      → v.version_number ≡ max_number v.series_id s.versions + 1
      → Change s (add_version v s)

pub data Changes (s : Predictions) : Predictions → Type 0 where
  none_yet : Changes s s
  after : {t u : Predictions} → Changes s t → Change t u → Changes s u

abbrev pub once : {s t : Predictions} → Change s t → Changes s t
once c = after none_yet c

pub Changes-trans : {s t u : Predictions} → Changes s t → Changes t u → Changes s u
Changes-trans a none_yet = a
Changes-trans a (after b c) = after (Changes-trans a b) c

pub Changes-if {ℓ} :
    {A : Type ℓ} (s : Predictions) (b : Bool) (x y : Predictions × A)
    → Changes s x.0
    → Changes s y.0
    → Changes s (if b then x else y).0
Changes-if s true x y p q = p
Changes-if s false x y p q = q

pub Changes-jobs_if {ℓ} :
    {A : Type ℓ} (s : Predictions) (b : Bool) (x y : A × List PredictionRevisionJob)
    → Changes s (record s { jobs = x.1 })
    → Changes s (record s { jobs = y.1 })
    → Changes s (record s { jobs = (if b then x else y).1 })
Changes-jobs_if s true x y p q = p
Changes-jobs_if s false x y p q = q
