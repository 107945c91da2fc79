-- ===== src/Pipeline/Tests.antt =====
-- The pipeline on small tables.
use Prim.Native.String.{String}
use text.Mathlib.Text.{◌==◌}
use ming_jian.Base.{
  ℕ, zero, suc, ◌+◌, ◌≡◌, refl, true, false, [], ◌∷◌, none, some, arith, if◌then◌else◌, length, All,
  min, ◌&&◌,
}
use ming_jian.Base.Table.{count_rows}
use ming_jian.Schema.{JobStatus, empty_summary, IngestRun, RawSourceItem, Db, Settings, Outside}
use ming_jian.Lease.{attempt, claim_rows}
use ming_jian.Lease.Exclusion.{exclusive, wins}
use ming_jian.Lease.Progress.{claim_rows_exact}
use ming_jian.Pipeline.Ingest.{
  run_claimable, run_queue, Staged, stage_items, persist_raw_item, process_run,
}
use ming_jian.Pipeline.Staging.{KeysDistinct, Present, process_run_stages}
use ming_jian.Pipeline.Knowledge.{materialize, release_raw, Work, create_claims}
use ming_jian.Pipeline.Claims.{Adds, create_claims-Adds}
use ming_jian.Pipeline.Stranding.{retry_skips_extraction}

abbrev cfg : Settings
cfg = record {
  worker_lease_seconds = 60;
  worker_max_attempts = 3;
  accepted_claim_confidence = 700;
  review_claim_confidence_floor = 450;
  review_auto_process_confidence = 620;
  review_conditional_accept_confidence = 575;
}

abbrev name_of : ℕ → String
name_of zero = "a"
name_of (suc zero) = "b"
name_of (suc (suc zero)) = "c"
name_of _ = "z"

-- Item "b" has three claims, the extraction of any other raises.
abbrev outside : Outside
outside = record {
  generate_id = name_of;
  archive_works = λ i. true;
  extract_claims = λ i. if i == "b" then some (800 ∷ 500 ∷ 100 ∷ []) else none;
}

abbrev run : IngestRun
run = record {
  id = "run";
  items = "k1" ∷ "k2" ∷ "k1" ∷ [];
  summary = empty_summary;
  status = JobStatus.pending;
  lease_owner = none;
  lease_expires_at = none;
  processing_attempts = 0;
  last_error = none;
}

abbrev db : Db
db = record {
  runs = run ∷ [];
  raws = [];
  normalized = [];
  claims = [];
  reviews = [];
  events = [];
  made = 0;
}

run_ends : (process_run outside cfg run db).1 ≡ true
unfolding process_run stage_items persist_raw_item
run_ends = refl

process_run_stages_example :
    let t = (process_run outside cfg run db).0.raws in
    KeysDistinct t
    × All (Present t) run.items
    × ((d : ℕ) × (length t + d ≡ length db.raws + length run.items)
        × (All
            (λ s. s.id ≡ run.id → s.summary.duplicate_items ≡ run.summary.duplicate_items + d)
            (process_run outside cfg run db).0.runs))
process_run_stages_example = process_run_stages outside cfg run db tt run_ends

abbrev raw : RawSourceItem
raw = record {
  id = "a";
  ingest_run_id = "run";
  dedupe_key = "k1";
  knowledge_status = JobStatus.processing;
  lease_owner = some "w";
  lease_expires_at = some 9;
  processing_attempts = 1;
  last_error = none;
}

abbrev work : Work
work = record { db = db; summary = empty_summary }

retry_skips_extraction_example :
    let first = materialize outside cfg raw work in
    let back = release_raw outside cfg first.1 raw in
    let second = materialize outside cfg back first.0 in
    (first.1 ≡ false)
    × (back.knowledge_status ≡ JobStatus.pending)
    × (second.1 ≡ true)
    × (second.0.db.claims ≡ [])
    × (second.0.summary ≡ empty_summary)
retry_skips_extraction_example = retry_skips_extraction outside cfg raw work refl refl (omega arith)

create_claims-Adds_example :
    Adds cfg raw.id
      (800 ∷ 500 ∷ 100 ∷ [])
      work
      (create_claims outside cfg raw (800 ∷ 500 ∷ 100 ∷ []) work)
create_claims-Adds_example = create_claims-Adds outside cfg raw (800 ∷ 500 ∷ 100 ∷ []) work

abbrev broken : Staged
broken = record { db = db; duplicates = 0; staged = 0; finished = false }

attempt_taken : (attempt (run_queue cfg) 7 "w" "run" (run ∷ [])).1 ≡ true
unfolding attempt
attempt_taken = refl

exclusive_example :
    wins
      (run_queue cfg)
      "run"
      ((8, "v", "run") ∷ (60000007, "w", "run") ∷ [])
      (attempt (run_queue cfg) 7 "w" "run" (run ∷ [])).0
    ≡ 0
exclusive_example =
    exclusive (run_queue cfg) 7 "w" "run" (run ∷ []) ((8, "v", "run") ∷ (60000007, "w", "run") ∷ [])
      (refl, tt) attempt_taken (omega arith)

claim_rows_exact_example :
    length (claim_rows (run_queue cfg) (λ r. true) 5 7 "w" (run ∷ [])).0
    ≡ min 5 (count_rows (λ r. run_claimable cfg 7 r && true) (run ∷ []))
claim_rows_exact_example =
    claim_rows_exact (run_queue cfg) (λ r. true) 7 5 "w" (run ∷ []) (refl, tt)
