-- ===== src/QueueHealth.antt =====
-- `RuntimeMonitorService` of src/planagent/services/runtime.py. IngestRun, RawSourceItem and
-- SimulationRun are counted by their shared columns (JobRow; the status is `knowledge_status` for
-- raw items). The tenant arrives normalized. The list of review reasons is kept in the order in
-- which the reasons are met; the source sorts it for display.
pub mod Partition
pub mod Reasons
mod Tests
use ming_jian.Base.{
  ℕ, ◌+◌, ◌*◌, ◌-◌, max, String, Bool, true, false, not, ◌&&◌, ◌||◌, List, [], ◌∷◌, Option, none,
  some, ◌==◌, eqb, ltb, leb, if◌then◌else◌, any_of, keep_if, map, is_some, is_none, length,
}
use ming_jian.Base.Dict.{Dict}
use ming_jian.Base.Table.{count_rows}
use ming_jian.Schema.{JobStatus, ReviewItemStatus}
use ming_jian.Pipeline.Ingest.{is_status}

pub record JobRow : Type 0 where
  pub tenant_id : Option String
  pub preset_id : Option String
  pub status : JobStatus
  pub lease_owner : Option String
  pub lease_expires_at : Option ℕ

-- The columns that the reason breakdown groups by.
pub record ReviewKey : Type 0 where
  pub queue_reason : String
  pub status : ReviewItemStatus
  pub lease_owner : Option String
  pub lease_expires_at : Option ℕ

pub record ReviewRow : Type 0 where
  pub tenant_id : Option String
  pub preset_id : Option String
  pub key : ReviewKey

pub record SourceHealth : Type 0 where
  pub source_type : String
  pub status : String
  pub consecutive_failures : ℕ
  pub last_error : Option String
  pub last_failure_at : Option ℕ

pub record QueueHealthBucketRead : Type 0 where
  pub queue : String
  pub pending : ℕ
  pub processing : ℕ
  pub completed : ℕ
  pub failed : ℕ
  pub reclaimable : ℕ

abbrev pub column_is : Option String → Option String → Bool
column_is none _ = true
column_is (some _) none = false
column_is (some want) (some found) = found == want

-- `_optional_filters`
abbrev pub optional_filters : Option String → Option String → Option String → Option String → Bool
optional_filters tenant preset row_tenant row_preset =
    column_is tenant row_tenant && column_is preset row_preset

-- `lease_expires_at IS NOT NULL AND lease_expires_at < now`
abbrev pub lease_ran_out : Option ℕ → ℕ → Bool
lease_ran_out none now = false
lease_ran_out (some t) now = ltb t now

-- `lease_expires_at IS NULL OR lease_expires_at >= now`
abbrev pub lease_runs : Option ℕ → ℕ → Bool
lease_runs none now = true
lease_runs (some t) now = leb now t

module _ (now : ℕ) where
  abbrev pub job_processing : JobRow → Bool
  job_processing r =
      is_status r.status JobStatus.processing
      && (is_none r.lease_owner || lease_runs r.lease_expires_at now)

  abbrev pub job_reclaimable : JobRow → Bool
  job_reclaimable r =
      is_status r.status JobStatus.processing
      && (is_some r.lease_owner && lease_ran_out r.lease_expires_at now)

  abbrev pub job_bucket : String → (JobRow → Bool) → List JobRow → QueueHealthBucketRead
  job_bucket queue filters t = record {
    queue = queue;
    pending = count_rows (λ r. filters r && is_status r.status JobStatus.pending) t;
    processing = count_rows (λ r. filters r && job_processing r) t;
    completed = count_rows (λ r. filters r && is_status r.status JobStatus.completed) t;
    failed = count_rows (λ r. filters r && is_status r.status JobStatus.failed) t;
    reclaimable = count_rows (λ r. filters r && job_reclaimable r) t;
  }

abbrev pub job_filters : Option String → Option String → JobRow → Bool
job_filters tenant preset r = optional_filters tenant preset r.tenant_id r.preset_id

unfoldable pub build_ingest_bucket :
    ℕ → Option String → Option String → List JobRow → QueueHealthBucketRead
build_ingest_bucket now tenant preset t = job_bucket now "ingest_runs" (job_filters tenant preset) t

unfoldable pub build_raw_bucket :
    ℕ → Option String → Option String → List JobRow → QueueHealthBucketRead
build_raw_bucket now tenant preset t =
    job_bucket now "raw_source_items" (job_filters tenant preset) t

unfoldable pub build_simulation_bucket :
    ℕ → Option String → Option String → List JobRow → QueueHealthBucketRead
build_simulation_bucket now tenant preset t =
    job_bucket now "simulation_runs" (job_filters tenant preset) t

abbrev pub is_pending : ReviewItemStatus → Bool
is_pending ReviewItemStatus.pending = true
is_pending _ = false

-- `status IN (ACCEPTED, REJECTED)`
abbrev pub is_resolved : ReviewItemStatus → Bool
is_resolved ReviewItemStatus.accepted = true
is_resolved ReviewItemStatus.rejected = true
is_resolved ReviewItemStatus.pending = false

abbrev pub review_filters : Option String → Option String → ReviewRow → Bool
review_filters tenant preset r = optional_filters tenant preset r.tenant_id r.preset_id

abbrev pub review_pending : ReviewKey → Bool
review_pending k = is_pending k.status && is_none k.lease_owner

abbrev pub review_processing : ℕ → ReviewKey → Bool
review_processing now k =
    is_pending k.status && (is_some k.lease_owner && lease_runs k.lease_expires_at now)

abbrev pub review_reclaimable : ℕ → ReviewKey → Bool
review_reclaimable now k =
    is_pending k.status && (is_some k.lease_owner && lease_ran_out k.lease_expires_at now)

unfoldable pub build_review_bucket :
    ℕ → Option String → Option String → List ReviewRow → QueueHealthBucketRead
build_review_bucket now tenant preset t =
    let filters = review_filters tenant preset in
    record {
      queue = "review_items";
      pending = count_rows (λ r. filters r && review_pending r.key) t;
      processing = count_rows (λ r. filters r && review_processing now r.key) t;
      completed = count_rows (λ r. filters r && is_resolved r.key.status) t;
      failed = 0;
      reclaimable = count_rows (λ r. filters r && review_reclaimable now r.key) t;
    }

abbrev pub same_status : ReviewItemStatus → ReviewItemStatus → Bool
same_status ReviewItemStatus.pending ReviewItemStatus.pending = true
same_status ReviewItemStatus.accepted ReviewItemStatus.accepted = true
same_status ReviewItemStatus.rejected ReviewItemStatus.rejected = true
same_status _ _ = false

abbrev pub same_owner : Option String → Option String → Bool
same_owner none none = true
same_owner (some a) (some b) = a == b
same_owner _ _ = false

abbrev pub same_time : Option ℕ → Option ℕ → Bool
same_time none none = true
same_time (some a) (some b) = eqb a b
same_time _ _ = false

unfoldable pub same_group : ReviewKey → ReviewKey → Bool
same_group a b =
    (a.queue_reason == b.queue_reason)
    && (same_status a.status b.status
        && (same_owner a.lease_owner b.lease_owner
            && same_time a.lease_expires_at b.lease_expires_at))

abbrev pub Groups : Type 0
Groups = List (ReviewKey × ℕ)

unfoldable pub add_to_group : ReviewKey → Groups → Groups
add_to_group k [] = (k, 1) ∷ []
add_to_group k ((j, n) ∷ gs) =
    if same_group j k then (j, n + 1) ∷ gs else (j, n) ∷ add_to_group k gs

-- `SELECT queue_reason, status, lease_owner, lease_expires_at, count(*) … GROUP BY …`
unfoldable pub group_rows : (ReviewRow → Bool) → List ReviewRow → Groups → Groups
group_rows filters [] gs = gs
group_rows filters (r ∷ t) gs =
    group_rows filters t (if filters r then add_to_group r.key gs else gs)

pub record ReasonCounts : Type 0 where
  pub pending : ℕ
  pub processing : ℕ
  pub completed : ℕ
  pub reclaimable : ℕ

abbrev pub no_counts : ReasonCounts
no_counts = record { pending = 0; processing = 0; completed = 0; reclaimable = 0 }

-- The chain of tests in the loop of `_build_review_reason_breakdown`.
unfoldable pub add_count : ℕ → ReviewKey → ℕ → ReasonCounts → ReasonCounts
add_count now k n c =
    if is_resolved k.status
    then record c { completed = c.completed + n }
    else if is_none k.lease_owner
    then record c { pending = c.pending + n }
    else if lease_ran_out k.lease_expires_at now
    then record c { reclaimable = c.reclaimable + n }
    else record c { processing = c.processing + n }

-- `grouped[str(queue_reason)]` of the defaultdict, changed in place.
unfoldable pub count_in : ℕ → ReviewKey → ℕ → Dict ReasonCounts → Dict ReasonCounts
count_in now k n [] = (k.queue_reason, add_count now k n no_counts) ∷ []
count_in now k n ((j, c) ∷ d) =
    if j == k.queue_reason then (j, add_count now k n c) ∷ d else (j, c) ∷ count_in now k n d

unfoldable pub count_groups : ℕ → Groups → Dict ReasonCounts → Dict ReasonCounts
count_groups now [] d = d
count_groups now ((k, n) ∷ gs) d = count_groups now gs (count_in now k n d)

unfoldable pub build_review_reason_breakdown :
    ℕ → Option String → Option String → List ReviewRow → Dict ReasonCounts
build_review_reason_breakdown now tenant preset t =
    count_groups now (group_rows (review_filters tenant preset) t []) []

pub record Tables : Type 0 where
  pub ingest_runs : List JobRow
  pub raw_source_items : List JobRow
  pub review_items : List ReviewRow
  pub simulation_runs : List JobRow
  pub dead_letter_events : ℕ
  pub source_health : List SourceHealth

pub record RuntimeQueueHealthRead : Type 0 where
  pub queues : List QueueHealthBucketRead
  pub review_queue_reasons : Dict ReasonCounts
  pub dead_letter_count : ℕ
  pub degraded_sources : List SourceHealth
  pub backpressure_active : Bool

pub record RuntimeMonitorService : Type 0 where
  pub backpressure_pending_threshold : ℕ
  pub recent_error_window_hours : ℕ

-- `__init__`, for a whole number of hours
abbrev pub new_monitor : ℕ → ℕ → RuntimeMonitorService
new_monitor threshold hours = record {
  backpressure_pending_threshold = threshold;
  recent_error_window_hours = max 1 hours;
}

abbrev pub hour : ℕ
hour = 3600000000

-- `last_failure_at` is missing, or not before the cutoff.
abbrev pub failed_since : ℕ → Option ℕ → Bool
failed_since cutoff none = true
failed_since cutoff (some t) = leb cutoff t

abbrev pub is_degraded : ℕ → SourceHealth → Bool
is_degraded cutoff s =
    (s.status == "ERROR" || s.status == "DEGRADED") && failed_since cutoff s.last_failure_at

abbrev pub over_threshold : ℕ → QueueHealthBucketRead → Bool
over_threshold threshold b = ltb threshold (b.pending + b.reclaimable)

unfoldable pub collect_queue_health :
    RuntimeMonitorService → ℕ → Option String → Option String → Tables → RuntimeQueueHealthRead
collect_queue_health m now tenant preset t =
    let queues =
      build_ingest_bucket now tenant preset t.ingest_runs
      ∷ build_raw_bucket now tenant preset t.raw_source_items
      ∷ build_review_bucket now tenant preset t.review_items
      ∷ build_simulation_bucket now tenant preset t.simulation_runs
      ∷ [] in
    record {
      queues = queues;
      review_queue_reasons = build_review_reason_breakdown now tenant preset t.review_items;
      dead_letter_count = t.dead_letter_events;
      degraded_sources =
          keep_if (is_degraded (now - m.recent_error_window_hours * hour)) t.source_health;
      backpressure_active = any_of (over_threshold m.backpressure_pending_threshold) queues;
    }
