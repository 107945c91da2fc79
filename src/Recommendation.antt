-- ===== src/Recommendation.antt =====
-- `RecommendationVersionService` of src/planagent/services/recommendations.py: the timeline of a
-- strategic session. The table lists the newest row first; a JSON value is a text. The lock on the
-- session makes `create_version` one step.
pub mod Log
mod Tests
use ming_jian.Base.{
  ℕ, ◌+◌, String, Bool, List, [], ◌∷◌, Option, none, some, ◌==◌, leb, max, if◌then◌else◌, any_of,
  keep_if, take,
}

-- What the caller of `create_version` gives.
pub record Draft : Type 0 where
  pub watch_rule_id : Option String
  pub tenant_id : Option String
  pub preset_id : Option String
  pub trigger_type : String
  pub trigger_source_change_id : Option String
  pub source_change_ids : Option (List String)
  pub significance : String
  pub change_summary : Option String
  pub recommendation_summary : String
  pub result_payload : Option String
  pub source_snapshot : Option (List String)
  pub ingest_run_id : Option String
  pub simulation_run_id : Option String
  pub debate_id : Option String

pub record RecommendationVersion : Type 0 where
  pub session_id : String
  pub version_number : ℕ
  pub watch_rule_id : Option String
  pub tenant_id : Option String
  pub preset_id : Option String
  pub trigger_type : String
  pub trigger_source_change_id : Option String
  pub source_change_ids : List String
  pub significance : String
  pub change_summary : Option String
  pub recommendation_summary : String
  pub result_payload : String
  pub source_snapshot : List String
  pub ingest_run_id : Option String
  pub simulation_run_id : Option String
  pub debate_id : Option String
  pub generated_at : ℕ

-- The ids of the strategic sessions, and the versions.
pub record Timeline : Type 0 where
  pub sessions : List String
  pub versions : List RecommendationVersion

abbrev pub or_default {ℓ} : {A : Type ℓ} → A → Option A → A
or_default a none = a
or_default a (some b) = b

abbrev pub new_record : ℕ → String → ℕ → Draft → RecommendationVersion
new_record now i n d = record {
  session_id = i;
  version_number = n;
  watch_rule_id = d.watch_rule_id;
  tenant_id = d.tenant_id;
  preset_id = d.preset_id;
  trigger_type = d.trigger_type;
  trigger_source_change_id = d.trigger_source_change_id;
  source_change_ids = or_default [] d.source_change_ids;
  significance = d.significance;
  change_summary = d.change_summary;
  recommendation_summary = d.recommendation_summary;
  result_payload = or_default "{}" d.result_payload;
  source_snapshot = or_default [] d.source_snapshot;
  ingest_run_id = d.ingest_run_id;
  simulation_run_id = d.simulation_run_id;
  debate_id = d.debate_id;
  generated_at = now;
}

abbrev pub of_session : String → RecommendationVersion → Bool
of_session i v = v.session_id == i

-- `max(version_number)` of the session, 0 where there is none.
abbrev pub max_version : String → List RecommendationVersion → ℕ
max_version i [] = 0
max_version i (v ∷ vs) =
    if v.session_id == i then max v.version_number (max_version i vs) else max_version i vs

-- `_next_version_number`
abbrev pub next_version_number : String → Timeline → ℕ
next_version_number i db = max_version i db.versions + 1

-- `create_version`: `none` is the ValueError of `_lock_timeline`.
unfoldable pub create_version :
    ℕ → String → Draft → Timeline → Option RecommendationVersion × Timeline
create_version now i d db =
    let v = new_record now i (next_version_number i db) d in
    if any_of (λ s. s == i) db.sessions
    then (some v, record db { versions = v ∷ db.versions })
    else (none, db)

-- `ORDER BY version_number DESC`
abbrev pub insert_desc :
    RecommendationVersion → List RecommendationVersion → List RecommendationVersion
insert_desc v [] = v ∷ []
insert_desc v (w ∷ ws) =
    if leb w.version_number v.version_number then v ∷ w ∷ ws else w ∷ insert_desc v ws

abbrev pub sort_desc : List RecommendationVersion → List RecommendationVersion
sort_desc [] = []
sort_desc (v ∷ vs) = insert_desc v (sort_desc vs)

-- `list_versions`
unfoldable pub list_versions : String → ℕ → Timeline → List RecommendationVersion
list_versions i limit db = take limit (sort_desc (keep_if (of_session i) db.versions))
