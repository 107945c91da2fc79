-- ===== src/Lease.antt =====
-- Leases on database rows. The claim loops of src/planagent (`_claim_ingest_runs` and
-- `_claim_raw_items` of services/pipeline.py, `_claim_review_items` of workers/review.py,
-- `_claim_due_sessions` of workers/strategic_watch.py) are one loop over different tables: select
-- the ids of claimable rows, then take each by an UPDATE that tests again. The loop is written once
-- here, over an interface that each table fills. Times are whole microseconds.
pub mod Exclusion
pub mod Progress
use ming_jian.Base.{
  ℕ, ◌+◌, ◌*◌, ◌≤◌, ◌<◌, String, ◌≡◌, Bool, true, false, ◌&&◌, List, [], ◌∷◌, ◌++◌, map, ◌==◌,
  Option, none, some, ltb, leb, if◌then◌else◌, length, take, keep_if,
}
use ming_jian.Base.Table.{update_rows, count_rows}

-- `claimable now r` is the WHERE clause of the claim (less the id), `acquire now w r` the row that
-- the UPDATE writes, `duration` the length of the lease.
pub record LeaseQueue (Row : Type 0) : Type 0 where
  pub row_id : Row → String
  pub claimable : ℕ → Row → Bool
  pub acquire : ℕ → String → Row → Row
  pub duration : ℕ
  pub acquire_id : (now : ℕ) (w : String) (r : Row) → row_id (acquire now w r) ≡ row_id r
  pub acquire_held :
      (now t : ℕ) (w : String) (r : Row)
      → t ≤ now + duration
      → claimable t (acquire now w r) ≡ false

module _ {Row : Type 0} (q : LeaseQueue Row) where
  abbrev pub wanted : ℕ → String → Row → Bool
  wanted now i r = (q.row_id r == i) && q.claimable now r

  -- `UPDATE … WHERE id = i AND claimable`: the table, and `result.rowcount` as a truth value.
  unfoldable pub attempt : ℕ → String → String → List Row → List Row × Bool
  attempt now w i t =
      (update_rows (wanted now i) (q.acquire now w) t, ltb 0 (count_rows (wanted now i) t))

  -- `session.get(Row, i)`
  unfoldable pub get_row : String → List Row → Option Row
  get_row i [] = none
  get_row i (r ∷ t) = if q.row_id r == i then some r else get_row i t

  abbrev pub add_found : List Row → Option Row → List Row
  add_found claimed none = claimed
  add_found claimed (some r) = claimed ++ r ∷ []

  -- The `for` loop over the candidate ids, with its break.
  unfoldable pub claim_loop :
      ℕ → ℕ → String → List String → List Row → List Row → List Row × List Row
  claim_loop limit now w [] t claimed = (claimed, t)
  claim_loop limit now w (i ∷ ids) t claimed =
      let a = attempt now w i t in
      let claimed' = if a.1 then add_found claimed (get_row i a.0) else claimed in
      let rest = claim_loop limit now w ids a.0 claimed' in
      if leb limit (length claimed') then (claimed', a.0) else rest

  -- `SELECT id WHERE claimable ORDER BY created_at LIMIT limit * 3`; a table lists its rows in the
  -- order of creation. `eligible` is what the SELECT asks beyond the UPDATE, such as a join.
  unfoldable pub candidate_ids : (Row → Bool) → ℕ → ℕ → List Row → List String
  candidate_ids eligible limit now t =
      take (limit * 3) (map q.row_id (keep_if (λ r. q.claimable now r && eligible r) t))

  -- The rows claimed, and the table after the claim.
  unfoldable pub claim_rows : (Row → Bool) → ℕ → ℕ → String → List Row → List Row × List Row
  claim_rows eligible limit now w t =
      claim_loop limit now w (candidate_ids eligible limit now t) t []
