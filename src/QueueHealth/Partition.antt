-- ===== src/QueueHealth/Partition.antt =====
-- The counters of the queues of src/planagent/services/runtime.py split the rows that they count.
use ming_jian.Base.{
  ℕ, ◌+◌, String, ◌≡◌, refl, Bool, false, ◌&&◌, ◌||◌, List, [], ◌∷◌, Option, arith, if◌then◌else◌,
  is_none, is_some,
}
use ming_jian.Base.Table.{count_rows}
use ming_jian.Schema.{JobStatus, ReviewItemStatus}
use ming_jian.Pipeline.Ingest.{is_status, job_claimable, lease_over}
use ming_jian.QueueHealth.{
  JobRow, ReviewRow, QueueHealthBucketRead, lease_runs, lease_ran_out, job_processing,
  job_reclaimable, job_bucket, job_filters, review_filters, is_pending, is_resolved, review_pending,
  review_processing, review_reclaimable, build_review_bucket, build_ingest_bucket, build_raw_bucket,
  build_simulation_bucket,
}

-- A truth value as a number.
abbrev pub bit : Bool → ℕ
bit b = if b then 1 else 0

module _ {Row : Type 0} where
  -- Counts of five tests of which each row in question passes exactly one.
  count_partition :
      (p0 p1 p2 p3 p4 q : Row → Bool)
      → ((r : Row) → bit (p0 r) + bit (p1 r) + bit (p2 r) + bit (p3 r) + bit (p4 r) ≡ bit (q r))
      → (t : List Row)
      → count_rows p0 t + count_rows p1 t + count_rows p2 t + count_rows p3 t + count_rows p4 t
        ≡ count_rows q t
  count_partition p0 p1 p2 p3 p4 q h [] = refl
  count_partition p0 p1 p2 p3 p4 q h (r ∷ t) =
      ground (arith, h r, count_partition p0 p1 p2 p3 p4 q h t)

job_row_partition :
    (now : ℕ) (f : Bool) (s : JobStatus) (owner : Option String) (t : Option ℕ)
    → bit (f && is_status s JobStatus.pending)
        + bit (f && (is_status s JobStatus.processing && (is_none owner || lease_runs t now)))
        + bit (f && is_status s JobStatus.completed)
        + bit (f && is_status s JobStatus.failed)
        + bit (f && (is_status s JobStatus.processing && (is_some owner && lease_ran_out t now)))
      ≡ bit f
job_row_partition now f s owner t = ground arith

-- All rows that the bucket counts.
abbrev pub bucket_total : QueueHealthBucketRead → ℕ
bucket_total b = b.pending + b.processing + b.completed + b.failed + b.reclaimable

job_bucket-total :
    (now : ℕ) (queue : String) (f : JobRow → Bool) (t : List JobRow)
    → bucket_total (job_bucket now queue f t) ≡ count_rows f t
job_bucket-total now queue f t =
    count_partition (λ r. f r && is_status r.status JobStatus.pending)
      (λ r. f r && job_processing now r) (λ r. f r && is_status r.status JobStatus.completed)
      (λ r. f r && is_status r.status JobStatus.failed) (λ r. f r && job_reclaimable now r) f
      (λ r. job_row_partition now (f r) r.status r.lease_owner r.lease_expires_at) t

-- At any time and under any tenant and preset filter, each of the job tables' rows that the filter
-- admits is counted in exactly one of the five counters of its bucket: they sum to the number of
-- those rows.
pub job_buckets_partition :
    (now : ℕ) (tenant preset : Option String) (t : List JobRow)
    → (bucket_total (build_ingest_bucket now tenant preset t)
        ≡ count_rows (job_filters tenant preset) t)
      × (bucket_total (build_raw_bucket now tenant preset t)
          ≡ count_rows (job_filters tenant preset) t)
      × (bucket_total (build_simulation_bucket now tenant preset t)
          ≡ count_rows (job_filters tenant preset) t)
unfolding build_ingest_bucket build_raw_bucket build_simulation_bucket
job_buckets_partition now tenant preset t = (
  job_bucket-total now "ingest_runs" (job_filters tenant preset) t,
  job_bucket-total now "raw_source_items" (job_filters tenant preset) t,
  job_bucket-total now "simulation_runs" (job_filters tenant preset) t,
)

review_row_partition :
    (now : ℕ) (f : Bool) (s : ReviewItemStatus) (owner : Option String) (t : Option ℕ)
    → bit (f && (is_pending s && is_none owner))
        + bit (f && (is_pending s && (is_some owner && lease_runs t now)))
        + bit (f && is_resolved s)
        + bit false
        + bit (f && (is_pending s && (is_some owner && lease_ran_out t now)))
      ≡ bit f
review_row_partition now f s owner t = ground arith

count_none : {Row : Type 0} (t : List Row) → count_rows (λ _. false) t ≡ 0
count_none [] = refl
count_none (r ∷ t) = count_none t

-- At any time and under any filter, the counters of the review bucket sum to the number of review
-- items that the filter admits.
pub review_bucket_partition :
    (now : ℕ) (tenant preset : Option String) (t : List ReviewRow)
    → bucket_total (build_review_bucket now tenant preset t)
      ≡ count_rows (review_filters tenant preset) t
unfolding build_review_bucket
review_bucket_partition now tenant preset t =
    let f = review_filters tenant preset in
    omega (
      arith,
      count_none t,
      count_partition (λ r. f r && review_pending r.key) (λ r. f r && review_processing now r.key)
          (λ r. f r && is_resolved r.key.status) (λ _. false)
          (λ r. f r && review_reclaimable now r.key) f
          (λ r.
            review_row_partition now (f r) r.key.status r.key.lease_owner r.key.lease_expires_at)
          t,
    )

-- A run in PROCESSING that the claim takes for abandoned and the monitor for running: no lease
-- time, or no owner.
abbrev pub unseen : ℕ → JobRow → Bool
unseen now r =
    is_status r.status JobStatus.processing
    && (lease_over r.lease_expires_at now && (is_none r.lease_owner || is_none r.lease_expires_at))

claimable_row :
    (now : ℕ) (f : Bool) (s : JobStatus) (owner : Option String) (t : Option ℕ)
    → bit (f && is_status s JobStatus.pending)
        + bit (f && (is_status s JobStatus.processing && (is_some owner && lease_ran_out t now)))
        + bit (
            f
            && (is_status s JobStatus.processing
                && (lease_over t now && (is_none owner || is_none t))))
        + bit false
        + bit false
      ≡ bit (f && job_claimable s t now)
claimable_row now f s owner t = ground arith

-- The load that the back-pressure test looks at, pending and reclaimable rows, is short of the rows
-- that a worker would claim at the same instant by exactly the rows in PROCESSING that have no
-- lease time, or a lease that is over and no owner.
pub load-claimable :
    (now : ℕ) (tenant preset : Option String) (t : List JobRow)
    → (build_ingest_bucket now tenant preset t).pending
        + (build_ingest_bucket now tenant preset t).reclaimable
        + count_rows (λ r. job_filters tenant preset r && unseen now r) t
      ≡ count_rows
          (λ r. job_filters tenant preset r && job_claimable r.status r.lease_expires_at now)
          t
unfolding build_ingest_bucket
load-claimable now tenant preset t =
    let f = job_filters tenant preset in
    omega (
      arith,
      count_none t,
      count_partition (λ r. f r && is_status r.status JobStatus.pending)
          (λ r. f r && job_reclaimable now r) (λ r. f r && unseen now r) (λ _. false) (λ _. false)
          (λ r. f r && job_claimable r.status r.lease_expires_at now)
          (λ r. claimable_row now (f r) r.status r.lease_owner r.lease_expires_at) t,
    )
