-- ===== src/SourceState.antt =====
-- `SourceStateService` of src/planagent/services/source_state.py: the cursor state of a watched
-- source. Instants are whole microseconds in UTC. The normalization of a content hash, which hashes
-- with sha256 what is not a digest yet, is the function `normalize`.
pub mod Retry
mod Tests
use ming_jian.Base.{
  ℕ, ◌+◌, ◌-◌, ◌*◌, ◌^◌, min, max, String, Bool, true, false, ◌&&◌, ◌||◌, List, [], ◌∷◌, ◌++◌,
  Option, none, some, ◌==◌, ltb, leb, if◌then◌else◌,
}
use ming_jian.Base.Table.{update_rows, count_rows, find_row}
use ming_jian.Watch.{WatchRule, minute}

pub data HealthStatus : Type 0 where
  pending healthy changed degraded failed : HealthStatus

pub record SourceCursorState : Type 0 where
  pub id : String
  pub watch_rule_id : Option String
  pub source_type : String
  pub source_url_or_query : String
  pub tenant_id : Option String
  pub preset_id : Option String
  pub cursor : Option String
  pub health_status : HealthStatus
  pub etag : Option String
  pub last_modified : Option String
  pub last_seen_hash : Option String
  pub last_seen_raw_source_item_id : Option String
  pub last_success_at : Option ℕ
  pub last_failure_at : Option ℕ
  pub last_checked_at : Option ℕ
  pub consecutive_failures : ℕ

-- The settings of config/base.py that the retries read.
pub record SourceSettings : Type 0 where
  pub source_failure_circuit_breaker_threshold : ℕ
  pub source_failure_backoff_base_minutes : ℕ
  pub source_failure_backoff_max_minutes : ℕ

-- `==` on a column, which is IS NULL for None.
abbrev pub same_rule : Option String → Option String → Bool
same_rule none none = true
same_rule (some a) (some b) = a == b
same_rule _ _ = false

abbrev pub is_source : String → String → Option String → SourceCursorState → Bool
is_source source_type query rule s =
    (s.source_type == source_type)
    && ((s.source_url_or_query == query) && same_rule s.watch_rule_id rule)

abbrev pub new_state :
    String → String → String → Option String → Option String → Option String → SourceCursorState
new_state i source_type query rule tenant preset = record {
  id = i;
  watch_rule_id = rule;
  source_type = source_type;
  source_url_or_query = query;
  tenant_id = tenant;
  preset_id = preset;
  cursor = none;
  health_status = HealthStatus.pending;
  etag = none;
  last_modified = none;
  last_seen_hash = none;
  last_seen_raw_source_item_id = none;
  last_success_at = none;
  last_failure_at = none;
  last_checked_at = none;
  consecutive_failures = 0;
}

-- `get_or_create_state`: `i` is the id for a new row.
unfoldable pub get_or_create_state :
    String
    → String
    → String
    → Option String
    → Option String
    → Option String
    → List SourceCursorState
    → SourceCursorState × List SourceCursorState
get_or_create_state i source_type query rule tenant preset t =
    elim (find_row (is_source source_type query rule) t) [
      | some s ↦ (s, t)
      | none ↦ let s = new_state i source_type query rule tenant preset in (s, t ++ s ∷ [])
    ]

-- The arguments of `update_after_fetch`.
pub record Fetch : Type 0 where
  pub success : Bool
  pub cursor : Option String
  pub etag : Option String
  pub last_modified : Option String
  pub content_hash : Option String
  pub raw_source_item_id : Option String
  pub preserve_changed : Bool

-- `if value is not None: state.column = value`
abbrev pub or_kept : Option String → Option String → Option String
or_kept none old = old
or_kept (some new) old = some new

module _ (normalize : String → String) where
  abbrev pub normalized_hash : Option String → Option String
  normalized_hash none = none
  normalized_hash (some h) = some (normalize h)

  unfoldable pub after_fetch : ℕ → Fetch → SourceCursorState → SourceCursorState
  after_fetch now f s =
      if f.success
      then record s {
        last_checked_at = some now;
        cursor = or_kept f.cursor s.cursor;
        etag = or_kept f.etag s.etag;
        last_modified = or_kept f.last_modified s.last_modified;
        last_seen_hash = or_kept (normalized_hash f.content_hash) s.last_seen_hash;
        last_seen_raw_source_item_id = or_kept f.raw_source_item_id s.last_seen_raw_source_item_id;
        last_success_at = some now;
        consecutive_failures = 0;
        health_status = if f.preserve_changed then HealthStatus.changed else HealthStatus.healthy;
      }
      else record s {
        last_checked_at = some now;
        consecutive_failures = s.consecutive_failures + 1;
        last_failure_at = some now;
        health_status =
            if leb 3 (s.consecutive_failures + 1)
            then HealthStatus.failed
            else HealthStatus.degraded;
      }

  -- `update_after_fetch`: `none` is the LookupError.
  unfoldable pub update_after_fetch :
      ℕ → String → Fetch → List SourceCursorState → Option (List SourceCursorState)
  update_after_fetch now i f t = elim (find_row (λ s. s.id == i) t) [
    | none ↦ none
    | some s ↦ some (update_rows (λ s. s.id == i) (after_fetch now f) t)
  ]

-- The last failure is later than the last success.
abbrev pub failed_last : Option ℕ → Option ℕ → Bool
failed_last success none = false
failed_last none (some f) = true
failed_last (some s) (some f) = ltb s f

-- `now - since >= minutes`
abbrev pub passed : ℕ → Option ℕ → ℕ → Bool
passed now none minutes = false
passed now (some since) minutes = leb (since + minutes * minute) now

abbrev pub fetched_before : SourceCursorState → Bool
fetched_before s = elim s.last_success_at [
  | some t ↦ true
  | none ↦ elim s.last_failure_at [ some t ↦ true | none ↦ false ]
]

module _ (cfg : SourceSettings) where
  unfoldable pub failure_backoff_minutes : ℕ → ℕ → ℕ
  failure_backoff_minutes failures threshold =
      let base_minutes = max 1 cfg.source_failure_backoff_base_minutes in
      let max_minutes = max base_minutes cfg.source_failure_backoff_max_minutes in
      let exponent = min (failures - threshold) 8 in min max_minutes (base_minutes * 2 ^ exponent)

  abbrev pub breaker_threshold : ℕ
  breaker_threshold = max 1 cfg.source_failure_circuit_breaker_threshold

  unfoldable pub should_fetch : ℕ → ℕ → SourceCursorState → Bool
  unfolding failure_backoff_minutes
  should_fetch now refresh_minutes s =
      if fetched_before s
      then if failed_last s.last_success_at s.last_failure_at
        then if ltb s.consecutive_failures breaker_threshold
          then true
          else passed now s.last_failure_at
              (failure_backoff_minutes s.consecutive_failures breaker_threshold)
        else passed now s.last_success_at refresh_minutes
      else true

abbrev pub reset_state : SourceCursorState → SourceCursorState
reset_state s = record s {
  cursor = none;
  etag = none;
  last_modified = none;
  last_seen_hash = none;
  last_seen_raw_source_item_id = none;
  health_status = HealthStatus.pending;
}

abbrev pub of_rule : String → SourceCursorState → Bool
of_rule rule s = same_rule s.watch_rule_id (some rule)

-- `reset_cursor`: the states, the rules (the time of the reset is not kept), and the number of
-- states.
unfoldable pub reset_cursor :
    ℕ
    → String
    → List SourceCursorState
    → List WatchRule
    → List SourceCursorState × List WatchRule × ℕ
reset_cursor now rule states rules = (
  update_rows (of_rule rule) reset_state states,
  update_rows (λ r. r.id == rule) (λ r. record r { next_poll_at = some now }) rules,
  count_rows (of_rule rule) states,
)
