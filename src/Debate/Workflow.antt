-- ===== src/Debate/Workflow.antt =====
-- `DebateWorkflow` of src/planagent/services/debate/workflow.py: `observe`, a generator, and `decide`.
-- A session of the database is two stores, what is committed and what the transaction sees.
use ming_jian.Base.{
  ℕ, zero, suc, String, Bool, true, false, ◌&&◌, List, [], ◌∷◌, ◌++◌, Option, none, some, ◌==◌,
  if◌then◌else◌, take, keep_if, not, is_some,
}
use ming_jian.Debate.{DebateRound, Verdict, llm_verdict}

pub data DebateStatus : Type 0 where
  running completed failed : DebateStatus

-- What the tables hold of one debate. `archive` is EventArchive's topics.
pub record Store : Type 0 where
  pub status : Option DebateStatus
  pub rounds : List DebateRound
  pub verdict : Option Verdict
  pub archive : List String

abbrev pub empty_store : Store
empty_store = record { status = none; rounds = []; verdict = none; archive = [] }

-- DebateStreamEvent; `breaks` is an exception of the adapter.
pub data StreamEvent : Type 0 where
  interrupt_injected : ℕ → String → ℕ → StreamEvent
  round_start : ℕ → String → StreamEvent
  round_complete : DebateRound → StreamEvent
  unsupported : String → StreamEvent
  breaks : StreamEvent

-- DebateRoundCompleted
pub record Completed : Type 0 where
  pub round_number : ℕ
  pub role : String
  pub position : String
  pub confidence : ℕ
  pub key_arguments : List String

pub data Observation : Type 0 where
  injected : ℕ → String → ℕ → Observation
  started : ℕ → String → Observation
  completed : Completed → Observation
  finished : Observation

-- What a debate calls: `none` and `false` are exceptions. `preparation` gives the events of the
-- language model's adapter, if there is a preparation and the adapter is available.
pub record World : Type 0 where
  pub command_resolves : Bool
  pub starts : Bool
  pub preparation : Option (Option (List StreamEvent))
  pub assess : Option (List DebateRound × Verdict)
  pub persists : DebateRound → Bool
  pub completes : Bool
  pub publish : String → Bool
  pub reads : Bool

-- The generator's state: the database, the observations that it has yielded, and how often the
-- consumer still comes back for more. A consumer that does not come back closes the generator.
pub record Generator : Type 0 where
  pub stored : Store
  pub seen_by_us : Store
  pub yielded : List Observation
  pub patience : ℕ

abbrev pub yield_with : Observation → ℕ → Generator → Generator × Bool
yield_with o zero g = (record g { yielded = g.yielded ++ o ∷ [] }, false)
yield_with o (suc n) g = (record g { yielded = g.yielded ++ o ∷ []; patience = n }, true)

-- `yield observation`; false when the consumer closes the generator.
unfoldable pub yield_observation : Observation → Generator → Generator × Bool
yield_observation o g = yield_with o g.patience g

-- `session.commit()`
abbrev pub commit : Generator → Generator
commit g = record g { stored = g.seen_by_us }

-- `_round_key_arguments`
abbrev pub key_arguments : DebateRound → List String
key_arguments r = keep_if (λ a. not (a == "")) (take 3 r.arguments)

-- `_completed_observation`
abbrev pub completed_of : DebateRound → Completed
completed_of r = record {
  round_number = r.round_number;
  role = r.role;
  position = r.position;
  confidence = r.confidence;
  key_arguments = key_arguments r;
}

abbrev pub persisted_round : DebateRound → Generator → Generator
persisted_round r g = record g {
  seen_by_us = record g.seen_by_us { rounds = g.seen_by_us.rounds ++ r ∷ [] };
}

-- A round is persisted, by `_persist_stream_round`, and then yielded.
unfoldable pub report_round : World → DebateRound → Generator → Generator × Bool
unfolding yield_observation
report_round w r g =
    if w.persists r
    then yield_observation (Observation.completed (completed_of r)) (persisted_round r g)
    else (g, false)

-- One event of the adapter; the round that it completes, if any.
unfoldable pub handle_event :
    World → StreamEvent → Generator → (Generator × Bool) × List DebateRound
unfolding report_round
handle_event w (interrupt_injected n role count) g =
    (yield_observation (injected n role count) g, [])
handle_event w (round_start n role) g = (yield_observation (started n role) g, [])
handle_event w (round_complete r) g = (report_round w r g, r ∷ [])
handle_event w (unsupported event) g = ((g, false), [])
handle_event w breaks g = ((g, false), [])

-- `async for stream_event in stream_rounds(…)`: the rounds, if the loop comes to its end.
unfoldable pub stream_rounds :
    World → List StreamEvent → List DebateRound → Generator → Generator × Option (List DebateRound)
unfolding handle_event
stream_rounds w [] rounds g = (g, some rounds)
stream_rounds w (e ∷ es) rounds g =
    let one = handle_event w e g in
    let rest = stream_rounds w es (rounds ++ one.1) one.0.0 in
    if one.0.1 then rest else (one.0.0, none)

-- `for round_payload in assessment.rounds`
unfoldable pub replay_rounds : World → List DebateRound → Generator → Generator × Bool
unfolding report_round
replay_rounds w [] g = (g, true)
replay_rounds w (r ∷ rs) g =
    let start = yield_observation (started r.round_number r.role) g in
    let one = report_round w r start.0 in
    let rest = replay_rounds w rs one.0 in if start.1 then (if one.1 then rest else one) else start

-- The rounds and the verdict, if they come about.
abbrev pub Assessed : Type 0
Assessed = Generator × Option (List DebateRound × Verdict)

abbrev pub with_llm_verdict : Generator × Option (List DebateRound) → Assessed
with_llm_verdict (g, none) = (g, none)
with_llm_verdict (g, some rounds) = (g, some (rounds, llm_verdict rounds))

abbrev pub assess_and_replay : World → Option (List DebateRound × Verdict) → Generator → Assessed
assess_and_replay w none g = (g, none)
assess_and_replay w (some (rounds, v)) g =
    let all = replay_rounds w rounds g in (all.0, if all.1 then some (rounds, v) else none)

unfoldable pub assess_debate : World → Option (Option (List StreamEvent)) → Generator → Assessed
unfolding stream_rounds replay_rounds llm_verdict
assess_debate w none g = (g, none)
assess_debate w (some none) g = assess_and_replay w w.assess g
assess_debate w (some (some events)) g = with_llm_verdict (stream_rounds w events [] g)

abbrev pub finished_with : Verdict → Generator → Generator
finished_with v g = commit (record g {
  seen_by_us = record g.seen_by_us { status = some DebateStatus.completed; verdict = some v };
})

-- `_complete_debate`, the flush and the commit. Without a round, `max` raises.
unfoldable pub complete_debate : World → List DebateRound → Verdict → Generator → Generator × Bool
complete_debate w [] v g = (g, false)
complete_debate w (r ∷ rs) v g = if w.completes then (finished_with v g, true) else (g, false)

-- The events, the result read back, and the last observation.
unfoldable pub announce : World → Generator → Generator × Bool
unfolding yield_observation
announce w g =
    if w.publish "debate.triggered" && w.publish "debate.completed" && w.reads
    then yield_observation finished g
    else (g, false)

abbrev pub announce_done : World → Generator × Bool → Generator × Bool
announce_done w (g, true) = announce w g
announce_done w (g, false) = (g, false)

unfoldable pub conclude : World → Assessed → Generator × Bool
unfolding complete_debate announce
conclude w (g, none) = (g, false)
conclude w (g, some (rounds, v)) = announce_done w (complete_debate w rounds v g)

-- The first transaction: the session and its event.
abbrev pub begin_debate : Generator → Generator
begin_debate g = commit (record g {
  seen_by_us = record g.seen_by_us {
    status = some DebateStatus.running;
    archive = g.seen_by_us.archive ++ "debate.triggered" ∷ [];
  };
})

-- The body of the `try`.
unfoldable pub try_debate : World → Generator → Generator × Bool
unfolding conclude assess_debate
try_debate w g =
    if w.starts then conclude w (assess_debate w w.preparation (begin_debate g)) else (g, false)

abbrev pub mark_failed : Store → Store
mark_failed s = record s { status = some DebateStatus.failed }

-- `except BaseException`: roll back, and mark the session, if it is there.
abbrev pub on_exception : Generator → Generator
on_exception g =
    if is_some g.stored.status
    then record g { stored = mark_failed g.stored; seen_by_us = mark_failed g.stored }
    else record g { seen_by_us = g.stored }

abbrev pub new_generator : ℕ → Generator
new_generator patience = record {
  stored = empty_store;
  seen_by_us = empty_store;
  yielded = [];
  patience = patience;
}

-- The end of the `try`, with its handler.
abbrev pub closed : Generator × Bool → Generator
closed o = if o.1 then o.0 else on_exception o.0

abbrev pub report : Generator × Bool → (Store × List Observation) × Bool
report o = (((closed o).stored, (closed o).yielded), o.1)

-- `observe`, for a consumer that comes back `patience` times: what is stored at last, what has been
-- yielded, and whether the generator has come to its end.
unfoldable pub observe : World → ℕ → (Store × List Observation) × Bool
unfolding try_debate
observe w patience =
    if w.command_resolves
    then report (try_debate w (new_generator patience))
    else ((empty_store, []), false)
