-- ===== src/Pipeline/Ingest.antt =====
-- `_claim_ingest_runs`, `_persist_raw_item`, `_stage_run_items` and `process_queued_runs` of
-- src/planagent/services/pipeline.py. `_persist_raw_item` is the path with INSERT … ON CONFLICT DO
-- NOTHING (PostgreSQL). One clock reading stands for those of a call; updated_at is not kept.
use ming_jian.Base.{
  ℕ, ◌+◌, ◌*◌, ◌≤◌, String, ◌≡◌, refl, Bool, true, false, ◌&&◌, ◌||◌, List, [], ◌∷◌, ◌++◌, Option,
  none, some, arith, ◌==◌, eqb, ltb, leb, if◌then◌else◌, any_of,
}
use ming_jian.Base.Table.{update_rows}
use ming_jian.Lease.{LeaseQueue, claim_rows}
use ming_jian.Schema.{JobStatus, IngestRun, RawSourceItem, EventTopic, Db, Settings, Outside}

abbrev pub is_status : JobStatus → JobStatus → Bool
is_status JobStatus.pending JobStatus.pending = true
is_status JobStatus.processing JobStatus.processing = true
is_status JobStatus.completed JobStatus.completed = true
is_status JobStatus.failed JobStatus.failed = true
is_status _ _ = false

-- `lease_expires_at IS NULL OR lease_expires_at < now`
abbrev pub lease_over : Option ℕ → ℕ → Bool
lease_over none now = true
lease_over (some t) now = ltb t now

-- PENDING, or PROCESSING with no lease that still runs.
abbrev pub job_claimable : JobStatus → Option ℕ → ℕ → Bool
job_claimable s lease now =
    is_status s JobStatus.pending || (is_status s JobStatus.processing && lease_over lease now)

abbrev pub second : ℕ
second = 1000000

module _ (cfg : Settings) where
  abbrev pub run_claimable : ℕ → IngestRun → Bool
  run_claimable now r = job_claimable r.status r.lease_expires_at now

  abbrev pub acquire_run : ℕ → String → IngestRun → IngestRun
  acquire_run now w r = record r {
    status = JobStatus.processing;
    lease_owner = some w;
    lease_expires_at = some (now + cfg.worker_lease_seconds * second);
    processing_attempts = r.processing_attempts + 1;
  }

  pub run_held :
      (now t : ℕ) (w : String) (r : IngestRun)
      → t ≤ now + cfg.worker_lease_seconds * second
      → run_claimable t (acquire_run now w r) ≡ false
  run_held now t w r h = ground arith

  abbrev pub run_queue : LeaseQueue IngestRun
  run_queue = record {
    row_id = λ r. r.id;
    claimable = run_claimable;
    acquire = acquire_run;
    duration = cfg.worker_lease_seconds * second;
    acquire_id = λ now w r. refl;
    acquire_held = run_held;
  }

-- How `_persist_raw_item` ended.
pub data Persisted : Type 0 where
  duplicate stored raised : Persisted

abbrev pub has_key : String → RawSourceItem → Bool
has_key k r = r.dedupe_key == k

abbrev pub new_raw : String → String → String → RawSourceItem
new_raw rid run_id key = record {
  id = rid;
  ingest_run_id = run_id;
  dedupe_key = key;
  knowledge_status = JobStatus.pending;
  lease_owner = none;
  lease_expires_at = none;
  processing_attempts = 0;
  last_error = none;
}

abbrev pub buffer_event : EventTopic → String → Db → Db
buffer_event topic i db = record db { events = db.events ++ (topic, i) ∷ [] }

abbrev pub insert_raw : RawSourceItem → Db → Db
insert_raw r db = record db { raws = db.raws ++ r ∷ []; made = db.made + 1 }

-- The loop of `_stage_run_items`: the tables, the duplicates and the staged items so far, and
-- whether it came to its end.
pub record Staged : Type 0 where
  pub db : Db
  pub duplicates : ℕ
  pub staged : ℕ
  pub finished : Bool

abbrev pub after_item : Staged → Persisted → Staged → Staged
after_item s Persisted.duplicate rest = rest
after_item s Persisted.stored rest = rest
after_item s Persisted.raised rest = record s { finished = false }

abbrev pub add_duplicate : Persisted → ℕ
add_duplicate Persisted.duplicate = 1
add_duplicate _ = 0

abbrev pub add_staged : Persisted → ℕ
add_staged Persisted.stored = 1
add_staged _ = 0

abbrev pub save_run : IngestRun → Db → Db
save_run r db = record db { runs = update_rows (λ s. s.id == r.id) (λ _. r) db.runs }

abbrev pub stage_error : String
stage_error = "Ingest run processing failed"

-- The end of `_stage_run_items`, and the `try`, `except` and `finally` of one round of
-- `process_queued_runs`.
abbrev pub staged_run : Settings → Staged → IngestRun → IngestRun
staged_run cfg s r =
    if s.finished
    then record r {
      summary = record (r.summary) { duplicate_items = r.summary.duplicate_items + s.duplicates };
      status = if eqb s.staged 0 then JobStatus.completed else JobStatus.processing;
      lease_owner = none;
      lease_expires_at = none;
      last_error = none;
    }
    else record r {
      status =
          if leb cfg.worker_max_attempts r.processing_attempts
          then JobStatus.failed
          else JobStatus.pending;
      lease_owner = none;
      lease_expires_at = none;
      last_error = some stage_error;
    }

module _ (o : Outside) where
  unfoldable pub persist_raw_item : String → String → Db → Db × Persisted
  persist_raw_item run_id key db =
      let raw = new_raw (o.generate_id db.made) run_id key in
      if any_of (has_key key) db.raws
      then (db, Persisted.duplicate)
      else if o.archive_works raw.id
      then (buffer_event EventTopic.raw_ingested raw.id (insert_raw raw db), Persisted.stored)
      else (insert_raw raw db, Persisted.raised)

  unfoldable pub stage_items : String → List String → Staged → Staged
  stage_items run_id [] s = s
  stage_items run_id (key ∷ items) s =
      let p = persist_raw_item run_id key s.db in
      let s' : Staged = record s {
        db = p.0;
        duplicates = s.duplicates + add_duplicate p.1;
        staged = s.staged + add_staged p.1;
      } in
      let rest = stage_items run_id items s' in after_item s' p.1 rest

  unfoldable pub process_run : Settings → IngestRun → Db → Db × Bool
  process_run cfg r db =
      let s =
        stage_items r.id r.items
          (record { db = db; duplicates = 0; staged = 0; finished = true }) in
      (save_run (staged_run cfg s r) s.db, s.finished)

  unfoldable pub process_runs : Settings → List IngestRun → Db → ℕ → Db × ℕ
  process_runs cfg [] db processed = (db, processed)
  process_runs cfg (r ∷ rs) db processed =
      let p = process_run cfg r db in
      process_runs cfg rs p.0 (if p.1 then processed + 1 else processed)

  unfoldable pub process_queued_runs : Settings → ℕ → ℕ → String → Db → Db × ℕ
  process_queued_runs cfg limit now w db =
      let c = claim_rows (run_queue cfg) (λ _. true) limit now w db.runs in
      process_runs cfg c.0 (record db { runs = c.1 }) 0
