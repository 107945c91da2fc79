-- ===== src/Pipeline/Staging.antt =====
-- What staging does (Pipeline/Ingest): every item's key is stored once, the counters add up, and a
-- run that keeps failing is given up. Also what becomes of a staged run that is claimed again.
use ming_jian.Base.{
  ℕ, ◌+◌, String, ◌≡◌, ◌≢◌, refl, true, false, List, [], ◌∷◌, ◌++◌, arith, ◌==◌, eq_iff,
  if◌then◌else◌, any_of, All, length, length-append,
}
use ming_jian.Base.Table.{update_rows}
use ming_jian.Schema.{IngestRun, RawSourceItem, Db, Settings, Outside}
use ming_jian.Pipeline.Ingest.{
  Persisted, has_key, persist_raw_item, Staged, stage_items, staged_run, process_run, add_duplicate,
  add_staged, new_raw,
}

-- The UNIQUE constraint on `dedupe_key`.
abbrev pub KeysDistinct : List RawSourceItem → Type 0
KeysDistinct [] = Unit
KeysDistinct (r ∷ t) = (any_of (has_key r.dedupe_key) t ≡ false) × KeysDistinct t

abbrev pub Present : List RawSourceItem → String → Type 0
Present t k = any_of (has_key k) t ≡ true

any-append :
    (k : String) (t : List RawSourceItem) (r : RawSourceItem)
    → any_of (has_key k) (t ++ r ∷ []) ≡ (if r.dedupe_key == k then true else any_of (has_key k) t)
any-append k [] r = refl
any-append k (s ∷ t) r = ground (arith, any-append k t r)

append-KeysDistinct :
    (t : List RawSourceItem) (r : RawSourceItem)
    → KeysDistinct t
    → any_of (has_key r.dedupe_key) t ≡ false
    → KeysDistinct (t ++ r ∷ [])
append-KeysDistinct [] r h n = (refl, tt)
append-KeysDistinct (s ∷ t) r h n = ground (
  arith,
  append-KeysDistinct t r h.1,
  any-append s.dedupe_key t r,
  eq_iff r.dedupe_key s.dedupe_key,
  eq_iff s.dedupe_key r.dedupe_key,
)

-- Every row of the run's id is the saved run.
saved :
    (cfg : Settings) (e : Staged) (r : IngestRun)
    → e.finished ≡ true
    → (t : List IngestRun)
    → All
        (λ s. s.id ≡ r.id → s.summary.duplicate_items ≡ r.summary.duplicate_items + e.duplicates)
        (update_rows (λ s. s.id == (staged_run cfg e r).id) (λ _. staged_run cfg e r) t)
saved cfg e r fin [] = tt
saved cfg e r fin (s ∷ t) = (
  λ q. ground (arith, q, fin, eq_iff s.id r.id, eq_iff s.id (staged_run cfg e r).id),
  saved cfg e r fin t,
)

module _ (o : Outside) where
  persist-KeysDistinct :
      (run_id key : String) (db : Db)
      → KeysDistinct db.raws
      → KeysDistinct (persist_raw_item o run_id key db).0.raws
  unfolding persist_raw_item
  persist-KeysDistinct run_id key db h =
      ground (arith, append-KeysDistinct db.raws (new_raw (o.generate_id db.made) run_id key) h)

  persist-Present :
      (run_id key k : String) (db : Db)
      → Present db.raws k
      → Present (persist_raw_item o run_id key db).0.raws k
  unfolding persist_raw_item
  persist-Present run_id key k db h =
      ground (arith, any-append k db.raws (new_raw (o.generate_id db.made) run_id key))

  persist-Present_self :
      (run_id key : String) (db : Db) → Present (persist_raw_item o run_id key db).0.raws key
  unfolding persist_raw_item
  persist-Present_self run_id key db =
      ground
        (arith, any-append key db.raws (new_raw (o.generate_id db.made) run_id key), eq_iff key key)

  length-persist :
      (run_id key : String) (db : Db)
      → (persist_raw_item o run_id key db).1 ≢ Persisted.raised
      → length (persist_raw_item o run_id key db).0.raws
        ≡ length db.raws + add_staged (persist_raw_item o run_id key db).1
  unfolding persist_raw_item
  length-persist run_id key db h =
      ground (arith, length-append db.raws (new_raw (o.generate_id db.made) run_id key ∷ []), h)

  persist_known :
      (run_id key : String) (db : Db)
      → Present db.raws key
      → persist_raw_item o run_id key db ≡ (db, Persisted.duplicate)
  unfolding persist_raw_item
  persist_known run_id key db h = rw h

  -- One item further.
  abbrev pub step : String → String → Staged → Staged
  step run_id key s =
      let p = persist_raw_item o run_id key s.db in
      record s {
        db = p.0;
        duplicates = s.duplicates + add_duplicate p.1;
        staged = s.staged + add_staged p.1;
      }

  stage-KeysDistinct :
      (run_id : String) (items : List String) (s : Staged)
      → KeysDistinct s.db.raws
      → KeysDistinct (stage_items o run_id items s).db.raws
  unfolding stage_items
  stage-KeysDistinct run_id [] s h = h
  stage-KeysDistinct run_id (key ∷ items) s h =
      let h' = persist-KeysDistinct run_id key s.db h in
      ground (arith, h', stage-KeysDistinct run_id items (step run_id key s) h')

  stage-Present :
      (run_id k : String) (items : List String) (s : Staged)
      → Present s.db.raws k
      → Present (stage_items o run_id items s).db.raws k
  unfolding stage_items
  stage-Present run_id k [] s h = h
  stage-Present run_id k (key ∷ items) s h =
      let h' = persist-Present run_id key k s.db h in
      ground (arith, h', stage-Present run_id k items (step run_id key s) h')

  -- After a staging that came to its end, every item's key is stored.
  pub stage-AllPresent :
      (run_id : String) (items : List String) (s : Staged)
      → (stage_items o run_id items s).finished ≡ true
      → All (Present (stage_items o run_id items s).db.raws) items
  unfolding stage_items
  stage-AllPresent run_id [] s h = tt
  stage-AllPresent run_id (key ∷ items) s h =
      let s' = step run_id key s in
      let here = persist-Present_self run_id key s.db in
      let ih = stage-AllPresent run_id items s' in
      let kept = stage-Present run_id key items s' here in ground (arith, ih, kept)

  stage_counts :
      (run_id : String) (items : List String) (s : Staged)
      → (stage_items o run_id items s).finished ≡ true
      → let e = stage_items o run_id items s in
        (e.duplicates + e.staged ≡ s.duplicates + s.staged + length items)
        × (length e.db.raws + s.staged ≡ length s.db.raws + e.staged)
  unfolding stage_items
  stage_counts run_id [] s h = (omega arith, omega arith)
  stage_counts run_id (key ∷ items) s h =
      ground (arith, length-persist run_id key s.db, stage_counts run_id items (step run_id key s))

  -- A staging of keys that are all stored changes no table.
  pub stage_duplicates :
      (run_id : String) (items : List String) (s : Staged)
      → All (Present s.db.raws) items
      → stage_items o run_id items s ≡ record s { duplicates = s.duplicates + length items }
  unfolding stage_items
  stage_duplicates run_id [] s h = ground arith
  stage_duplicates run_id (key ∷ items) s h = ground (
    arith,
    h,
    persist_known run_id key s.db h.0,
    stage_duplicates run_id items (step run_id key s),
  )

  -- A run that is processed to its end has each of its items' keys stored, keys stay distinct, and
  -- the run's duplicates and the rows added make up its items.
  pub process_run_stages :
      (cfg : Settings) (r : IngestRun) (db : Db)
      → KeysDistinct db.raws
      → (process_run o cfg r db).1 ≡ true
      → let t = (process_run o cfg r db).0.raws in
        KeysDistinct t
        × All (Present t) r.items
        × ((d : ℕ) × (length t + d ≡ length db.raws + length r.items)
            × (All
                (λ s. s.id ≡ r.id → s.summary.duplicate_items ≡ r.summary.duplicate_items + d)
                (process_run o cfg r db).0.runs))
  unfolding process_run
  process_run_stages cfg r db h fin =
      let s : Staged = record { db = db; duplicates = 0; staged = 0; finished = true } in
      let c = stage_counts r.id r.items s fin in
      let e = stage_items o r.id r.items s in
      (
        stage-KeysDistinct r.id r.items s h,
        stage-AllPresent r.id r.items s fin,
        (e.duplicates, omega (arith, c), saved cfg e r fin e.db.runs),
      )
