-- ===== src/Watch.antt =====
-- Watch rules: `WatchExecutionLeaseManager` of src/planagent/services/watch_execution.py, the
-- 24-hour window of src/planagent/services/community_monitoring.py, and the marking of polls by
-- `WatchIngestWorker` of src/planagent/workers/watch_ingest.py. Instants are whole microseconds in
-- UTC; of a rule, the columns that this code reads or writes are kept.
pub mod Fencing
pub mod Window
mod Tests
use ming_jian.Base.{
  ℕ, ◌+◌, ◌*◌, ◌≤◌, max, String, ◌≡◌, refl, Bool, true, false, not, ◌&&◌, ◌||◌, List, [], ◌∷◌,
  Option, none, some, arith, ◌==◌, ltb, leb, if◌then◌else◌, is_some, is_none,
}
use ming_jian.Base.Table.{update_rows, count_rows, find_row}
use ming_jian.Lease.{LeaseQueue, attempt, claim_rows}
use ming_jian.Schema.{Settings}
use ming_jian.Pipeline.Ingest.{second}

pub record WatchRule : Type 0 where
  pub id : String
  pub created_at : ℕ
  pub poll_interval_minutes : ℕ
  pub enabled : Bool
  pub next_poll_at : Option ℕ
  pub lease_owner : Option String
  pub lease_expires_at : Option ℕ
  pub poll_attempts : ℕ
  pub last_poll_at : Option ℕ
  pub last_poll_error : Option String

abbrev pub min_lease_seconds : ℕ
min_lease_seconds = 15 * 60

-- `lease_owner IS NULL OR lease_expires_at < now`: a missing time passes no comparison.
abbrev pub lease_open : ℕ → WatchRule → Bool
lease_open now r =
    is_none r.lease_owner || (elim r.lease_expires_at [ none ↦ false | some t ↦ ltb t now ])

-- `enabled`, and a `next_poll_at` that has come.
abbrev pub is_due : ℕ → WatchRule → Bool
is_due now r = r.enabled && (elim r.next_poll_at [ none ↦ false | some t ↦ leb t now ])

abbrev pub watch_claimable : Bool → ℕ → WatchRule → Bool
watch_claimable due_only now r = lease_open now r && (if due_only then is_due now r else true)

module _ (cfg : Settings) where
  -- `watch_execution_lease_expires_at`
  abbrev pub watch_lease_expires_at : ℕ → ℕ
  watch_lease_expires_at now = now + max cfg.worker_lease_seconds min_lease_seconds * second

  abbrev pub acquire_rule : ℕ → String → WatchRule → WatchRule
  acquire_rule now w r = record r {
    poll_attempts = r.poll_attempts + 1;
    lease_owner = some w;
    lease_expires_at = some (watch_lease_expires_at now);
    last_poll_error = none;
  }

  pub rule_held :
      (due_only : Bool) (now t : ℕ) (w : String) (r : WatchRule)
      → t ≤ watch_lease_expires_at now
      → watch_claimable due_only t (acquire_rule now w r) ≡ false
  rule_held due_only now t w r h = ground arith

  abbrev pub watch_queue : Bool → LeaseQueue WatchRule
  watch_queue due_only = record {
    row_id = λ r. r.id;
    claimable = watch_claimable due_only;
    acquire = acquire_rule;
    duration = max cfg.worker_lease_seconds min_lease_seconds * second;
    acquire_id = λ now w r. refl;
    acquire_held = rule_held due_only;
  }

  -- `_claim`: the table, and whether a row was taken.
  unfoldable pub claim_rule : Bool → ℕ → String → String → List WatchRule → List WatchRule × Bool
  unfolding attempt
  claim_rule due_only now owner i t = attempt (watch_queue due_only) now owner i t

abbrev pub is_owner : String → Option String → Bool
is_owner w none = false
is_owner w (some v) = v == w

-- `WHERE id = i AND lease_owner = owner`
abbrev pub owned : String → String → WatchRule → Bool
owned i owner r = (r.id == i) && is_owner owner r.lease_owner

abbrev pub completed_rule : ℕ → Option ℕ → WatchRule → WatchRule
completed_rule now next r = record r {
  enabled = is_some next;
  last_poll_at = some now;
  last_poll_error = none;
  lease_owner = none;
  lease_expires_at = none;
  next_poll_at = next;
}

unfoldable pub complete_rule :
    String → String → ℕ → Option ℕ → List WatchRule → List WatchRule × Bool
complete_rule i owner now next t =
    (update_rows (owned i owner) (completed_rule now next) t, ltb 0 (count_rows (owned i owner) t))

abbrev pub failed_rule : String → Bool → Option ℕ → WatchRule → WatchRule
failed_rule error enabled next r = record r {
  enabled = enabled;
  lease_owner = none;
  lease_expires_at = none;
  last_poll_error = some error;
  next_poll_at = next;
}

unfoldable pub fail_rule :
    String → String → String → Bool → Option ℕ → List WatchRule → List WatchRule × Bool
fail_rule i owner error enabled next t = (
  update_rows (owned i owner) (failed_rule error enabled next) t,
  ltb 0 (count_rows (owned i owner) t),
)

abbrev pub minute : ℕ
minute = 60 * second

-- `COMMUNITY_MONITORING_WINDOW`
abbrev pub monitoring_window : ℕ
monitoring_window = 24 * 60 * minute

abbrev pub monitoring_expires_at : ℕ → ℕ
monitoring_expires_at created = created + monitoring_window

abbrev pub monitoring_window_expired : ℕ → ℕ → Bool
monitoring_window_expired created now = leb (monitoring_expires_at created) now

unfoldable pub next_schedule_within_window : ℕ → ℕ → ℕ → Option ℕ
next_schedule_within_window created delay now =
    if ltb (now + delay) (monitoring_expires_at created) then some (now + delay) else none

unfoldable pub next_poll_within_window : ℕ → ℕ → ℕ → Option ℕ
unfolding next_schedule_within_window
next_poll_within_window created minutes now =
    next_schedule_within_window created (minutes * minute) now

-- `_mark_poll_success`: false is WatchExecutionLeaseLostError, after a rollback.
unfoldable pub mark_poll_success : String → ℕ → WatchRule → List WatchRule → List WatchRule × Bool
mark_poll_success owner now r t =
    let p =
      complete_rule r.id owner now
        (next_poll_within_window r.created_at r.poll_interval_minutes now) t in
    if p.1 then (p.0, true) else (t, false)

abbrev pub retry_at : ℕ → Option WatchRule → Option ℕ
retry_at now none = none
retry_at now (some r) = next_poll_within_window r.created_at 60 now

-- `_mark_failure`
unfoldable pub mark_failure : String → String → String → ℕ → List WatchRule → List WatchRule
mark_failure owner i error now t =
    let next = retry_at now (find_row (λ r. r.id == i) t) in
    (fail_rule i owner error (is_some next) next t).0
