-- ===== src/Debate/Tests.antt =====
-- A debate of two rounds.
use ming_jian.Base.{String, ◌≡◌, refl, true, [], ◌∷◌, none, some, ◌==◌, not}
use ming_jian.Debate.{DebateRound, accepted, conditional, llm_verdict}
use ming_jian.Debate.Workflow.{DebateStatus, round_start, round_complete, World, observe}
use ming_jian.Debate.Outcome.{Ends, debate_ends}

abbrev advocate : DebateRound
advocate = record {
  round_number = 1;
  role = "advocate";
  position = "SUPPORT";
  confidence = 800;
  arguments = "demand grows" ∷ [];
  concessions = [];
}

abbrev challenger : DebateRound
challenger = record {
  round_number = 1;
  role = "challenger";
  position = "OPPOSE";
  confidence = 600;
  arguments = "costs too" ∷ [];
  concessions = [];
}

-- The bus takes the topics but one.
abbrev world : String → World
world refused = record {
  command_resolves = true;
  starts = true;
  preparation =
      some (
        some (round_start 1 "advocate" ∷ round_complete advocate ∷ round_complete challenger ∷ []));
  assess = none;
  persists = λ r. true;
  completes = true;
  publish = λ topic. not (topic == refused);
  reads = true;
}

verdict_run : llm_verdict (advocate ∷ challenger ∷ []) ≡ accepted
unfolding llm_verdict
verdict_run = refl

close_run : llm_verdict (challenger ∷ []) ≡ conditional
unfolding llm_verdict
close_run = refl

-- The consumer stays to the end.
completed_run : (observe (world "") 9).0.0.status ≡ some DebateStatus.completed
unfolding observe
completed_run = refl

-- The consumer leaves after the second round.
abandoned_run : (observe (world "") 2).0.0.rounds ≡ []
unfolding observe
abandoned_run = refl

-- The bus stops, or the consumer leaves with the last observation: the verdict is stored, and the
-- debate has failed.
refused_status : (observe (world "debate.completed") 9).0.0.status ≡ some DebateStatus.failed
unfolding observe
refused_status = refl

refused_verdict : (observe (world "debate.completed") 9).0.0.verdict ≡ some accepted
unfolding observe
refused_verdict = refl

left_with_last : (observe (world "") 3).0.0.status ≡ some DebateStatus.failed
unfolding observe
left_with_last = refl

debate_ends_example :
    Ends
      (observe (world "debate.completed") 9).0.0
      (observe (world "debate.completed") 9).0.1
      (observe (world "debate.completed") 9).1
debate_ends_example = debate_ends (world "debate.completed") 9
