-- ===== src/Recommendation/Tests.antt =====
-- A session with two recommendations.
use ming_jian.Base.{String, ◌≡◌, refl, List, [], ◌∷◌, none, some}
use ming_jian.Recommendation.{Draft, Timeline, new_record, create_version, list_versions}
use ming_jian.Recommendation.Log.{
  Call, creates, lists, created, listed, serve, serve_logs, serves_logs,
}

abbrev draft : String → Draft
draft text = record {
  watch_rule_id = none;
  tenant_id = none;
  preset_id = none;
  trigger_type = "manual";
  trigger_source_change_id = none;
  source_change_ids = none;
  significance = "none";
  change_summary = none;
  recommendation_summary = text;
  result_payload = none;
  source_snapshot = none;
  ingest_run_id = none;
  simulation_run_id = none;
  debate_id = none;
}

abbrev one_session : Timeline
one_session = record { sessions = "s" ∷ []; versions = [] }

abbrev calls : List Call
calls =
    creates 10 "s" (draft "wait")
    ∷ creates 20 "s" (draft "act")
    ∷ creates 30 "other" (draft "act")
    ∷ lists "s" 1
    ∷ []

answers :
    serve calls one_session
    ≡ created (some (new_record 10 "s" 1 (draft "wait")))
      ∷ created (some (new_record 20 "s" 2 (draft "act")))
      ∷ created none
      ∷ listed (new_record 20 "s" 2 (draft "act") ∷ [])
      ∷ []
unfolding serve create_version list_versions
answers = refl

serves_logs_example : serve calls one_session ≡ serve_logs ("s" ∷ []) calls (λ k. [])
serves_logs_example = serves_logs calls one_session refl
