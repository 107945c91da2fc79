-- ===== src/SourceState/Tests.antt =====
-- Fetches of one source, and examples of the theorems on them.
use ming_jian.Base.{ℕ, String, ◌≡◌, refl, Bool, true, false, List, [], ◌∷◌, none, some}
use ming_jian.SourceState.{
  SourceCursorState, SourceSettings, Fetch, new_state, failure_backoff_minutes,
}

abbrev cfg : SourceSettings
cfg = record {
  source_failure_circuit_breaker_threshold = 10;
  source_failure_backoff_base_minutes = 5;
  source_failure_backoff_max_minutes = 360;
}

abbrev normalize : String → String
normalize h = h

abbrev fetch : Bool → Fetch
fetch b = record {
  success = b;
  cursor = none;
  etag = some "e";
  last_modified = none;
  content_hash = none;
  raw_source_item_id = none;
  preserve_changed = false;
}

abbrev state : SourceCursorState
state = new_state "s" "rss" "q" none none none

backoff_run : failure_backoff_minutes cfg 13 10 ≡ 40
unfolding failure_backoff_minutes
backoff_run = refl

abbrev fetches : List (ℕ × Fetch)
fetches = (1, fetch true) ∷ (2, fetch false) ∷ (3, fetch false) ∷ (4, fetch false) ∷ []
