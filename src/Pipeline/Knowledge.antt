-- ===== src/Pipeline/Knowledge.antt =====
-- `_claim_raw_items`, `_materialize_knowledge_for_raw_item`, `_create_claim`,
-- `_finalize_queued_run` and `process_pending_knowledge` of src/planagent/services/pipeline.py.
-- Of the rows that a materialisation writes, the normalized item (its raw id), the claims, the
-- review items and the archived events are kept; evidence and artifact rows (Signal, EventRecord,
-- Trend) are written and never read here. A candidate stands by its final confidence.
use ming_jian.Base.{
  ℕ, ◌+◌, ◌*◌, ◌≤◌, String, ◌≡◌, refl, Bool, true, false, not, ◌&&◌, ◌||◌, List, [], ◌∷◌, ◌++◌, ◌-◌,
  Option, none, some, arith, ◌==◌, ltb, leb, if◌then◌else◌, any_of, length,
}
use ming_jian.Base.Table.{update_rows, count_rows}
use ming_jian.Lease.{LeaseQueue, claim_rows, get_row}
use ming_jian.Schema.{
  JobStatus, ClaimStatus, ReviewItemStatus, Summary, IngestRun, RawSourceItem, Claim, ReviewItem,
  EventTopic, Db, Settings, Outside,
}
use ming_jian.Pipeline.Ingest.{is_status, job_claimable, second, buffer_event, save_run, run_queue}

module _ (cfg : Settings) where
  abbrev pub raw_claimable : ℕ → RawSourceItem → Bool
  raw_claimable now r = job_claimable r.knowledge_status r.lease_expires_at now

  abbrev pub acquire_raw : ℕ → String → RawSourceItem → RawSourceItem
  acquire_raw now w r = record r {
    knowledge_status = JobStatus.processing;
    lease_owner = some w;
    lease_expires_at = some (now + cfg.worker_lease_seconds * second);
    processing_attempts = r.processing_attempts + 1;
  }

  pub raw_held :
      (now t : ℕ) (w : String) (r : RawSourceItem)
      → t ≤ now + cfg.worker_lease_seconds * second
      → raw_claimable t (acquire_raw now w r) ≡ false
  raw_held now t w r h = ground arith

  abbrev pub raw_queue : LeaseQueue RawSourceItem
  raw_queue = record {
    row_id = λ r. r.id;
    claimable = raw_claimable;
    acquire = acquire_raw;
    duration = cfg.worker_lease_seconds * second;
    acquire_id = λ now w r. refl;
    acquire_held = raw_held;
  }

-- The join of the claim's SELECT: the item's run is PROCESSING.
abbrev pub raw_eligible : List IngestRun → RawSourceItem → Bool
raw_eligible runs raw =
    any_of (λ r. (r.id == raw.ingest_run_id) && is_status r.status JobStatus.processing) runs

-- The tables and the run's counters, which `_create_claim` changes together.
pub record Work : Type 0 where
  pub db : Db
  pub summary : Summary

abbrev pub new_claim : Outside → RawSourceItem → ℕ → ClaimStatus → Bool → Db → Claim
new_claim o raw c s review db = record {
  id = o.generate_id db.made;
  raw_id = raw.id;
  confidence = c;
  status = s;
  requires_review = review;
}

abbrev pub insert_claim : Claim → Db → Db
insert_claim c db = record db { claims = db.claims ++ c ∷ []; made = db.made + 1 }

abbrev pub new_review : Outside → String → Db → ReviewItem
new_review o claim_id db = record {
  id = o.generate_id db.made;
  claim_id = claim_id;
  status = ReviewItemStatus.pending;
  lease_owner = none;
  lease_expires_at = none;
  processing_attempts = 0;
  last_error = none;
  reviewer_id = none;
}

abbrev pub insert_review : ReviewItem → Db → Db
insert_review v db = record db { reviews = db.reviews ++ v ∷ []; made = db.made + 1 }

module _ (o : Outside) (cfg : Settings) where
  abbrev pub queue_for_review : Claim → Db → Db
  queue_for_review c db =
      let db' = insert_claim c db in
      buffer_event EventTopic.claim_review_requested c.id
        (insert_review (new_review o c.id db') db')

  unfoldable pub create_claim : RawSourceItem → ℕ → Work → Work
  create_claim raw c w =
      let s = w.summary in
      if leb cfg.accepted_claim_confidence c
      then record {
        db = insert_claim (new_claim o raw c ClaimStatus.accepted false w.db) w.db;
        summary = record s { accepted_claims = s.accepted_claims + 1 };
      }
      else if leb cfg.review_claim_confidence_floor c
      then record {
        db = queue_for_review (new_claim o raw c ClaimStatus.pending_review true w.db) w.db;
        summary = record s { review_claims = s.review_claims + 1 };
      }
      else record {
        db = insert_claim (new_claim o raw c ClaimStatus.archived false w.db) w.db;
        summary = record s { archived_claims = s.archived_claims + 1 };
      }

  unfoldable pub create_claims : RawSourceItem → List ℕ → Work → Work
  create_claims raw [] w = w
  create_claims raw (c ∷ cs) w = create_claims raw cs (create_claim raw c w)

  -- The new NormalizedItem and EvidenceItem, and the event that names the latter.
  abbrev pub add_evidence : RawSourceItem → Db → Db
  add_evidence raw db =
      buffer_event EventTopic.evidence_created (o.generate_id (db.made + 1))
        (record db { normalized = db.normalized ++ raw.id ∷ []; made = db.made + 2 })

  abbrev pub processed_one : Work → Work
  processed_one w = record w {
    summary = record (w.summary) { processed_items = w.summary.processed_items + 1 };
  }

  abbrev pub extracted : RawSourceItem → Option (List ℕ) → Work → Work × Bool
  extracted raw none w = (w, false)
  extracted raw (some cs) w =
      let evidence = o.generate_id (w.db.made - 1) in
      let w' = create_claims raw cs w in
      (
        processed_one
            (record w' { db = buffer_event EventTopic.knowledge_extracted evidence w'.db }),
        true,
      )

  -- The work done, and whether it came to its end (false: an exception).
  unfoldable pub materialize : RawSourceItem → Work → Work × Bool
  materialize raw w =
      if any_of (λ i. i == raw.id) w.db.normalized
      then (w, true)
      else extracted raw (o.extract_claims raw.id) (record w { db = add_evidence raw w.db })

  abbrev pub knowledge_error : String
  knowledge_error = "Knowledge materialization failed"

  abbrev pub release_raw : Bool → RawSourceItem → RawSourceItem
  release_raw done raw = record raw {
    knowledge_status =
        if done
        then JobStatus.completed
        else if leb cfg.worker_max_attempts raw.processing_attempts
        then JobStatus.failed
        else JobStatus.pending;
    lease_owner = none;
    lease_expires_at = none;
    last_error = if done then none else some knowledge_error;
  }

  abbrev pub count_failure : Bool → RawSourceItem → Summary → Summary
  count_failure done raw s =
      if not done && leb cfg.worker_max_attempts raw.processing_attempts
      then record s { failed_items = s.failed_items + 1 }
      else s

  abbrev pub save_raw : RawSourceItem → Db → Db
  save_raw raw db = record db { raws = update_rows (λ s. s.id == raw.id) (λ _. raw) db.raws }

  -- One round of the loop for an item whose run is there.
  unfoldable pub process_raw : RawSourceItem → IngestRun → Db → Db
  process_raw raw run db =
      let m = materialize raw (record { db = db; summary = run.summary }) in
      save_run (record run { summary = count_failure m.1 raw m.0.summary })
        (save_raw (release_raw m.1 raw) m.0.db)

  abbrev pub touch : String → List String → List String
  touch i ids = if any_of (λ j. j == i) ids then ids else ids ++ i ∷ []

  abbrev pub process_found : RawSourceItem → Option IngestRun → Db × List String → Db × List String
  process_found raw none s = s
  process_found raw (some run) (db, touched) = (process_raw raw run db, touch run.id touched)

  unfoldable pub process_raws : List RawSourceItem → Db × List String → Db × List String
  process_raws [] s = s
  process_raws (raw ∷ raws) s =
      process_raws raws (process_found raw (get_row (run_queue cfg) raw.ingest_run_id s.0.runs) s)

-- `_finalize_queued_run`: the run as it is saved, and whether it is finished.
abbrev pub of_run : String → RawSourceItem → Bool
of_run i r = r.ingest_run_id == i

abbrev pub raw_open : JobStatus → Bool
raw_open s = is_status s JobStatus.pending || is_status s JobStatus.processing

unfoldable pub finalize_queued_run : List RawSourceItem → IngestRun → IngestRun × Bool
finalize_queued_run raws run =
    let stored = count_rows (of_run run.id) raws in
    let open_items = count_rows (λ r. of_run run.id r && raw_open r.knowledge_status) raws in
    let bad =
      count_rows (λ r. of_run run.id r && is_status r.knowledge_status JobStatus.failed) raws in
    if ltb (stored + run.summary.duplicate_items) (length run.items)
    then (record run { status = JobStatus.processing }, false)
    else if ltb 0 open_items
    then (record run { status = JobStatus.processing }, false)
    else if ltb 0 bad
    then (
      record run {
        summary = record (run.summary) { failed_items = bad };
        status = JobStatus.failed;
      },
      true,
    )
    else (record run { status = JobStatus.completed }, true)

abbrev pub finalize_found : Option IngestRun → Db × ℕ → Db × ℕ
finalize_found none s = s
finalize_found (some run) (db, finished) =
    let f = finalize_queued_run db.raws run in
    (save_run f.0 db, if f.1 then finished + 1 else finished)

module _ (o : Outside) (cfg : Settings) where
  unfoldable pub finalize_runs : List String → Db × ℕ → Db × ℕ
  finalize_runs [] s = s
  finalize_runs (i ∷ ids) s =
      finalize_runs ids (finalize_found (get_row (run_queue cfg) i s.0.runs) s)

  -- The tables, the items taken and the runs finished.
  unfoldable pub process_pending_knowledge : ℕ → ℕ → String → Db → Db × ℕ × ℕ
  process_pending_knowledge limit now w db =
      let c = claim_rows (raw_queue cfg) (raw_eligible db.runs) limit now w db.raws in
      let p = process_raws o cfg c.0 (record db { raws = c.1 }, []) in
      let f = finalize_runs p.1 (p.0, 0) in (f.0, length c.0, f.1)
