-- ===== src/Schema.antt =====
-- The tables that the ingest pipeline and the review worker share: the columns of
-- src/planagent/domain/models.py and the enums of domain/enums.py that their code reads or writes.
-- A table lists its rows in the order of creation. Confidences are whole numbers on a fixed scale,
-- since the code only compares them; instants are whole microseconds.
use ming_jian.Base.{ℕ, String, Bool, List, Option}

-- IngestRunStatus, and the same four texts of `knowledge_status`.
pub data JobStatus : Type 0 where
  pending processing completed failed : JobStatus

pub data ClaimStatus : Type 0 where
  accepted pending_review rejected archived : ClaimStatus

pub data ReviewItemStatus : Type 0 where
  pending accepted rejected : ReviewItemStatus

-- The summary counters of a run (`_empty_summary`).
pub record Summary : Type 0 where
  pub processed_items : ℕ
  pub duplicate_items : ℕ
  pub accepted_claims : ℕ
  pub review_claims : ℕ
  pub archived_claims : ℕ
  pub failed_items : ℕ

abbrev pub empty_summary : Summary
empty_summary = record {
  processed_items = 0;
  duplicate_items = 0;
  accepted_claims = 0;
  review_claims = 0;
  archived_claims = 0;
  failed_items = 0;
}

-- `items` are the dedupe keys (`build_dedupe_key`) of `request_payload["items"]`.
pub record IngestRun : Type 0 where
  pub id : String
  pub items : List String
  pub summary : Summary
  pub status : JobStatus
  pub lease_owner : Option String
  pub lease_expires_at : Option ℕ
  pub processing_attempts : ℕ
  pub last_error : Option String

pub record RawSourceItem : Type 0 where
  pub id : String
  pub ingest_run_id : String
  pub dedupe_key : String
  pub knowledge_status : JobStatus
  pub lease_owner : Option String
  pub lease_expires_at : Option ℕ
  pub processing_attempts : ℕ
  pub last_error : Option String

pub record Claim : Type 0 where
  pub id : String
  pub raw_id : String
  pub confidence : ℕ
  pub status : ClaimStatus
  pub requires_review : Bool

pub record ReviewItem : Type 0 where
  pub id : String
  pub claim_id : String
  pub status : ReviewItemStatus
  pub lease_owner : Option String
  pub lease_expires_at : Option ℕ
  pub processing_attempts : ℕ
  pub last_error : Option String
  pub reviewer_id : Option String

pub data EventTopic : Type 0 where
  raw_ingested evidence_created claim_review_requested knowledge_extracted : EventTopic

-- `normalized` holds the raw item ids that have a NormalizedItem; `events` is the archive, with the
-- id of the row that each event names; `made` counts the ids handed out.
pub record Db : Type 0 where
  pub runs : List IngestRun
  pub raws : List RawSourceItem
  pub normalized : List String
  pub claims : List Claim
  pub reviews : List ReviewItem
  pub events : List (EventTopic × String)
  pub made : ℕ

-- The fields of config/base.py that the code reads.
pub record Settings : Type 0 where
  pub worker_lease_seconds : ℕ
  pub worker_max_attempts : ℕ
  pub accepted_claim_confidence : ℕ
  pub review_claim_confidence_floor : ℕ
  pub review_auto_process_confidence : ℕ
  pub review_conditional_accept_confidence : ℕ

-- What the services call and the tables do not decide: `uuid4`, the archive storage (file system
-- or MinIO), which may raise, and the claim extraction with its language model, which may raise
-- before a claim is made (`none`) or give the confidences of its candidates.
pub record Outside : Type 0 where
  pub generate_id : ℕ → String
  pub archive_works : String → Bool
  pub extract_claims : String → Option (List ℕ)
