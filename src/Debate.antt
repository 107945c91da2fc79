-- ===== src/Debate.antt =====
-- Debates: src/planagent/services/debate. The data, and the verdict of a debate
-- (adjudication.py). Confidences are thousandths.
use ming_jian.Base.{
  ℕ, ◌+◌, String, Bool, true, false, ◌&&◌, List, [], ◌∷◌, Option, none, some, ◌==◌, leb, max,
  if◌then◌else◌, any_of, keep_if,
}
pub mod Workflow
pub mod Streaming
pub mod Outcome
mod Tests

-- `arguments` are the claims of the arguments, `concessions` the reasons of the concessions.
pub record DebateRound : Type 0 where
  pub round_number : ℕ
  pub role : String
  pub position : String
  pub confidence : ℕ
  pub arguments : List String
  pub concessions : List String

pub data Verdict : Type 0 where
  accepted rejected conditional : Verdict

-- `r["role"] in {…}`
abbrev pub has_role : List String → DebateRound → Bool
has_role roles r = any_of (λ x. x == r.role) roles

abbrev pub advocate_rounds : List DebateRound → List DebateRound
advocate_rounds = keep_if (
    has_role (
      "advocate" ∷ "strategist" ∷ "geo_expert" ∷ "econ_analyst" ∷ "military_strategist"
      ∷ "tech_foresight" ∷ "social_impact" ∷ []))

abbrev pub challenger_rounds : List DebateRound → List DebateRound
challenger_rounds = keep_if (has_role ("challenger" ∷ "risk_analyst" ∷ "intel_analyst" ∷ []))

abbrev pub arbitrator_rounds : List DebateRound → List DebateRound
arbitrator_rounds = keep_if (has_role ("arbitrator" ∷ "opportunist" ∷ []))

-- `max(r["confidence"] for r in rounds)` from the first on.
unfoldable pub highest : ℕ → List DebateRound → ℕ
highest m [] = m
highest m (r ∷ rs) = highest (max m r.confidence) rs

-- `max(…, default=0.5)`
unfoldable pub top_confidence : List DebateRound → ℕ
unfolding highest
top_confidence [] = 500
top_confidence (r ∷ rs) = highest r.confidence rs

abbrev pub last_round : DebateRound → List DebateRound → DebateRound
last_round r [] = r
last_round r (s ∷ ss) = last_round s ss

-- `{"SUPPORT": "ACCEPTED", "OPPOSE": "REJECTED"}.get(position, "CONDITIONAL")`
abbrev pub verdict_of_position : String → Verdict
verdict_of_position p =
    if p == "SUPPORT" then accepted else if p == "OPPOSE" then rejected else conditional

abbrev pub verdict_of_confidence : ℕ → ℕ → Verdict
verdict_of_confidence support challenge =
    if leb (challenge + 100) support && leb 650 support
    then accepted
    else if leb (support + 100) challenge && leb 650 challenge
    then rejected
    else conditional

-- `_generate_adjudication`
unfoldable pub generate_adjudication : ℕ → ℕ → List DebateRound → Verdict
generate_adjudication support challenge [] = verdict_of_confidence support challenge
generate_adjudication support challenge (r ∷ rs) = verdict_of_position (last_round r rs).position

-- The verdict of `_build_assessment_from_llm_rounds`.
unfoldable pub llm_verdict : List DebateRound → Verdict
unfolding generate_adjudication top_confidence
llm_verdict rounds =
    generate_adjudication (top_confidence (advocate_rounds rounds))
      (top_confidence (challenger_rounds rounds)) (arbitrator_rounds rounds)
