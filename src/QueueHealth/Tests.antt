-- ===== src/QueueHealth/Tests.antt =====
-- Runs of the queue monitor on small tables, and examples of its theorems.
use ming_jian.Base.{
  ℕ, ◌+◌, String, ◌≡◌, refl, ◌&&◌, List, [], ◌∷◌, Option, none, some, ◌==◌, keep_if,
}
use ming_jian.Base.Dict.{lookup}
use ming_jian.Base.Table.{count_rows}
use ming_jian.Schema.{JobStatus, ReviewItemStatus}
use ming_jian.Pipeline.Ingest.{job_claimable}
use ming_jian.QueueHealth.{
  JobRow, ReviewRow, build_ingest_bucket, build_review_bucket, build_review_reason_breakdown,
  job_filters, same_group, add_to_group, group_rows, add_count, count_in, count_groups,
}
use ming_jian.QueueHealth.Partition.{load-claimable, unseen}
use ming_jian.QueueHealth.Reasons.{counts_of, breakdown-bucket}

abbrev job : JobStatus → Option String → Option ℕ → JobRow
job s o e = record {
  tenant_id = some "acme";
  preset_id = none;
  status = s;
  lease_owner = o;
  lease_expires_at = e;
}

abbrev jobs : List JobRow
jobs =
    job JobStatus.pending none none
    ∷ job JobStatus.processing (some "w") (some 5)
    ∷ job JobStatus.processing (some "w") (some 50)
    ∷ job JobStatus.processing none none
    ∷ job JobStatus.completed none none
    ∷ []

abbrev review : String → ReviewItemStatus → Option String → Option ℕ → ReviewRow
review x s o e = record {
  tenant_id = none;
  preset_id = some "p";
  key = record { queue_reason = x; status = s; lease_owner = o; lease_expires_at = e };
}

abbrev reviews : List ReviewRow
reviews =
    review "conflict" ReviewItemStatus.pending none none
    ∷ review "gray" ReviewItemStatus.pending (some "w") (some 5)
    ∷ review "conflict" ReviewItemStatus.pending none none
    ∷ review "conflict" ReviewItemStatus.rejected none none
    ∷ []

-- The run without a lease counts as processing.
bucket_run : (build_ingest_bucket 10 (some "acme") none jobs).processing ≡ 2
unfolding build_ingest_bucket
bucket_run = refl

breakdown_run :
    (counts_of "conflict" (build_review_reason_breakdown 10 none (some "p") reviews)).pending ≡ 2
unfolding counts_of lookup build_review_reason_breakdown count_groups group_rows add_to_group
    same_group count_in add_count
breakdown_run = refl

load-claimable_example :
    (build_ingest_bucket 10 none none jobs).pending
      + (build_ingest_bucket 10 none none jobs).reclaimable
      + count_rows (λ r. job_filters none none r && unseen 10 r) jobs
    ≡ count_rows (λ r. job_filters none none r && job_claimable r.status r.lease_expires_at 10) jobs
load-claimable_example = load-claimable 10 none none jobs

breakdown-bucket_example :
    (((counts_of "conflict" (build_review_reason_breakdown 10 none none reviews)).pending
        ≡ (build_review_bucket 10 none none
            (keep_if (λ r. r.key.queue_reason == "conflict") reviews)).pending)
      × ((counts_of "conflict" (build_review_reason_breakdown 10 none none reviews)).processing
          ≡ (build_review_bucket 10 none none
              (keep_if (λ r. r.key.queue_reason == "conflict") reviews)).processing))
    × (((counts_of "conflict" (build_review_reason_breakdown 10 none none reviews)).completed
          ≡ (build_review_bucket 10 none none
              (keep_if (λ r. r.key.queue_reason == "conflict") reviews)).completed)
        × ((counts_of "conflict" (build_review_reason_breakdown 10 none none reviews)).reclaimable
            ≡ (build_review_bucket 10 none none
                (keep_if (λ r. r.key.queue_reason == "conflict") reviews)).reclaimable))
breakdown-bucket_example = breakdown-bucket 10 none none "conflict" reviews
