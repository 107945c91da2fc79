-- ===== src/Pipeline/Stranding.antt =====
-- Two ways in which the queued path of pipeline.py loses work: a staged run that the ingest worker
-- claims again, and an item whose extraction raised once.
use ming_jian.Base.{
  zero, ℕ, suc, ◌+◌, ◌<◌, String, ◌≡◌, refl, true, false, List, [], ◌∷◌, ◌++◌, arith, ltb, none,
  any_of, ◌==◌, eq_iff,
}
use ming_jian.Schema.{JobStatus, IngestRun, RawSourceItem, Db, Settings, Outside}
use ming_jian.Pipeline.Ingest.{run_claimable, acquire_run, Staged, stage_items, staged_run}
use ming_jian.Pipeline.Knowledge.{materialize, release_raw, Work, add_evidence}

abbrev waiting_run : Staged → IngestRun → IngestRun
waiting_run s r = record r {
  summary = record (r.summary) { duplicate_items = r.summary.duplicate_items + s.duplicates };
  status = JobStatus.processing;
  lease_owner = none;
  lease_expires_at = none;
  last_error = none;
}

module _ (o : Outside) (cfg : Settings) (r : IngestRun) (db : Db) where
  abbrev pub staging : Staged
  staging =
      stage_items o r.id r.items (record { db = db; duplicates = 0; staged = 0; finished = true })

any_last : (i : String) (ids : List String) → any_of (λ j. j == i) (ids ++ i ∷ []) ≡ true
any_last i [] = ground (arith, eq_iff i i)
any_last i (j ∷ ids) = ground (arith, any_last i ids)

-- An item whose extraction raises on its first claim is put back as PENDING, but its normalized
-- item stays: the next round completes it, and neither a claim nor a counted item comes of it.
pub retry_skips_extraction :
    (o : Outside) (cfg : Settings) (raw : RawSourceItem) (w : Work)
    → any_of (λ i. i == raw.id) w.db.normalized ≡ false
    → o.extract_claims raw.id ≡ none
    → raw.processing_attempts < cfg.worker_max_attempts
    → let first = materialize o cfg raw w in
      let back = release_raw o cfg first.1 raw in
      let second = materialize o cfg back first.0 in
      (first.1 ≡ false)
      × (back.knowledge_status ≡ JobStatus.pending)
      × (second.1 ≡ true)
      × (second.0.db.claims ≡ w.db.claims)
      × (second.0.summary ≡ w.summary)
unfolding materialize
retry_skips_extraction o cfg raw w fresh raises more =
    let e : materialize o cfg raw w ≡ (record w { db = add_evidence o cfg raw w.db }, false) =
      rw (fresh, raises) in
    let known : any_of (λ i. i == raw.id) (w.db.normalized ++ raw.id ∷ []) ≡ true =
      any_last raw.id w.db.normalized in
    rw (e, known) (refl, ground arith, refl, refl, refl)

-- A run whose staging raises every time it is claimed.
abbrev pub failing : Settings → Staged → ℕ → String → ℕ → IngestRun → IngestRun
failing cfg s now w zero r = r
failing cfg s now w (suc n) r = staged_run cfg s (acquire_run cfg now w (failing cfg s now w n r))

failing_attempts :
    (cfg : Settings) (s : Staged) (now : ℕ) (w : String) (n : ℕ) (r : IngestRun)
    → (failing cfg s now w n r).processing_attempts ≡ r.processing_attempts + n
failing_attempts cfg s now w zero r = omega arith
failing_attempts cfg s now w (suc n) r = ground (arith, failing_attempts cfg s now w n r)

-- A run whose staging raises each time can be claimed again, at once, exactly while its attempts are
-- fewer than `worker_max_attempts`.
retried_until_limit :
    (cfg : Settings) (s : Staged) (now t : ℕ) (w : String) (n : ℕ) (r : IngestRun)
    → s.finished ≡ false
    → run_claimable cfg t (failing cfg s now w (suc n) r)
      ≡ ltb (r.processing_attempts + suc n) cfg.worker_max_attempts
retried_until_limit cfg s now t w n r fin = ground (arith, fin, failing_attempts cfg s now w n r)
