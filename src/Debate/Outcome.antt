-- ===== src/Debate/Outcome.antt =====
-- How a debate ends (`observe` of src/planagent/services/debate/workflow.py).
use mathlib.Core.Path.{subst}
use mathlib.Core.List.{append-nil}
use mathlib.Core.Bool.{true≢false}
use mathlib.Core.Option.{some-injective}
use ming_jian.Base.{
  ℕ, ◌≡◌, refl, sym, ap, ◌∙◌, Bool, true, false, ◌&&◌, List, [], ◌∷◌, ◌++◌, map, Option, none, some,
  if◌then◌else◌, is_some, if-cases,
}
use ming_jian.Debate.{DebateRound, Verdict}
use ming_jian.Debate.Workflow.{
  DebateStatus, Store, empty_store, StreamEvent, Observation, finished, World, Generator, Assessed,
  yield_observation, completed_of, stream_rounds, replay_rounds, with_llm_verdict,
  assess_and_replay, assess_debate, complete_debate, announce, announce_done, conclude,
  finished_with, begin_debate, try_debate, closed, new_generator, observe,
}
use ming_jian.Debate.Streaming.{
  rounds_seen, Reports, Streams, stream_rounds-Streams, replay_rounds-Step, yield-Yields,
  rounds_seen-append,
}

abbrev pub status_at : Bool → DebateStatus
status_at true = DebateStatus.completed
status_at false = DebateStatus.failed

-- What is stored, what was yielded, and whether the generator came to its end.
pub data Ends : Store → List Observation → Bool → Type 0 where
  -- Nothing was stored.
  unstarted : {os : List Observation} → Ends empty_store os false
  -- The debate has failed, with no round and no verdict.
  abandoned :
      {os : List Observation}
      → Ends
          (record {
            status = some DebateStatus.failed;
            rounds = [];
            verdict = none;
            archive = "debate.triggered" ∷ [];
          })
          os
          false
  -- All rounds that were yielded and a verdict are stored; the debate is completed if the generator
  -- has come to its end, and failed if not.
  decided :
      {s : Store} {os : List Observation} {ended : Bool} (r : DebateRound) (rs : List DebateRound)
      (v : Verdict)
      → s.status ≡ some (status_at ended)
      → s.rounds ≡ r ∷ rs
      → s.verdict ≡ some v
      → rounds_seen os ≡ map completed_of (r ∷ rs)
      → Ends s os ended

-- What the rounds and the assessment leave: nothing new is committed, and the rounds, if there are
-- any, were reported.
record Assesses (g : Generator) (a : Assessed) : Type 0 where
  same_stored : a.0.stored ≡ g.stored
  reports : {rs : List DebateRound} {v : Verdict} → a.1 ≡ some (rs, v) → Reports rs g a.0

with_llm_verdict-Assesses :
    (g : Generator) (o : Generator × Option (List DebateRound))
    → Streams [] g o
    → Assesses g (with_llm_verdict o)
with_llm_verdict-Assesses g (h, none) s = record { same_stored = s.same_stored; reports = λ e. cc }
with_llm_verdict-Assesses g (h, some rounds) s =
    let m = s.rounds refl in
    record {
      same_stored = s.same_stored;
      reports =
          λ e. subst (λ l. Reports l g h) (sym m.1.0 ∙ ap (λ p. p.0) (some-injective _ _ e)) m.1.1;
    }

chosen :
    {A : Type 0} (b : Bool) (x : A) {y : A}
    → (if b then some x else none) ≡ some y
    → (b ≡ true) × (x ≡ y)
chosen true x e = (refl, some-injective _ _ e)
chosen false x e = cc

assess_and_replay-Assesses :
    (w : World) (a : Option (List DebateRound × Verdict)) (g : Generator)
    → Assesses g (assess_and_replay w a g)
assess_and_replay-Assesses w none g = record { same_stored = refl; reports = λ e. cc }
assess_and_replay-Assesses w (some (rounds, v)) g =
    let s = replay_rounds-Step w rounds g in
    record {
      same_stored = s.same_stored;
      reports = λ e.
          let c = chosen (replay_rounds w rounds g).1 (rounds, v) e in
          subst (λ l. Reports l g (replay_rounds w rounds g).0) (ap (λ p. p.0) c.1) (s.reports c.0);
    }

assess_debate-Assesses :
    (w : World) (p : Option (Option (List StreamEvent))) (g : Generator)
    → Assesses g (assess_debate w p g)
unfolding assess_debate
assess_debate-Assesses w none g = record { same_stored = refl; reports = λ e. cc }
assess_debate-Assesses w (some none) g = assess_and_replay-Assesses w w.assess g
assess_debate-Assesses w (some (some events)) g =
    with_llm_verdict-Assesses g (stream_rounds w events [] g) (stream_rounds-Streams w events [] g)

-- The store once the debate has begun.
abbrev begun : Store
begun = record {
  status = some DebateStatus.running;
  rounds = [];
  verdict = none;
  archive = "debate.triggered" ∷ [];
}

abbrev Fine : Generator × Bool → Type 0
Fine o = Ends (closed o).stored (closed o).yielded o.1

raised-Fine : (g : Generator) → g.stored ≡ begun → Fine (g, false)
raised-Fine g e = subst (λ s. Fine (record g { stored = s }, false)) (sym e) abandoned

-- After the commit: the store has the rounds and the verdict.
record Committed (r : DebateRound) (rs : List DebateRound) (v : Verdict) (g : Generator)
    : Type 0 where
  status : g.stored.status ≡ some DebateStatus.completed
  rounds : g.stored.rounds ≡ r ∷ rs
  verdict : g.stored.verdict ≡ some v
  seen : rounds_seen g.yielded ≡ map completed_of (r ∷ rs)

Committed-Fine :
    (r : DebateRound) (rs : List DebateRound) (v : Verdict) (g : Generator) (b : Bool)
    → Committed r rs v g
    → Fine (g, b)
Committed-Fine r rs v g true c = decided r rs v c.status c.rounds c.verdict c.seen
Committed-Fine r rs v g false c =
    if-cases (λ (z : Generator). Ends z.stored z.yielded false) (is_some g.stored.status)
      (λ _. decided r rs v refl c.rounds c.verdict c.seen)
      (λ n. elim (true≢false (sym (ap is_some c.status) ∙ n)) [ ])

announce-Fine :
    (w : World) (r : DebateRound) (rs : List DebateRound) (v : Verdict) (g : Generator)
    → Committed r rs v g
    → Fine (announce w g)
unfolding announce rounds_seen
announce-Fine w r rs v g c =
    let y = yield-Yields finished g in
    if-cases Fine (w.publish "debate.triggered" && w.publish "debate.completed" && w.reads)
      (λ _.
        Committed-Fine r rs v (yield_observation finished g).0 (yield_observation finished g).1
          record {
            status = ap (λ s. s.status) y.same_stored ∙ c.status;
            rounds = ap (λ s. s.rounds) y.same_stored ∙ c.rounds;
            verdict = ap (λ s. s.verdict) y.same_stored ∙ c.verdict;
            seen =
                ap rounds_seen y.longer
                ∙ rounds_seen-append g.yielded (finished ∷ [])
                ∙ append-nil (rounds_seen g.yielded)
                ∙ c.seen;
          })
      (λ _. Committed-Fine r rs v g false c)

conclude-Fine :
    (w : World) (g : Generator) (a : Assessed)
    → g.stored ≡ begun
    → g.seen_by_us ≡ begun
    → g.yielded ≡ []
    → Assesses g a
    → Fine (conclude w a)
unfolding conclude complete_debate rounds_seen
conclude-Fine w g (h, none) e s y a = raised-Fine h (a.same_stored ∙ e)
conclude-Fine w g (h, some ([], v)) e s y a = raised-Fine h (a.same_stored ∙ e)
conclude-Fine w g (h, some (r ∷ rs, v)) e s y a =
    let p = a.reports refl in
    if-cases (λ (o : Generator × Bool). Fine (announce_done w o)) w.completes
      (λ _. announce-Fine w r rs v (finished_with v h) record {
        status = refl;
        rounds = ap (λ z. z.rounds) p.persisted ∙ ap (λ z. z.rounds ++ r ∷ rs) s;
        verdict = refl;
        seen = p.seen ∙ ap (λ l. rounds_seen l ++ map completed_of (r ∷ rs)) y;
      })
      (λ _. raised-Fine h (a.same_stored ∙ e))

-- However the debate goes, whatever raises, and wherever the consumer closes the generator: the
-- debate is not left RUNNING. It has failed without a round or a verdict, or its verdict is stored
-- with just the rounds that were yielded; then it is COMPLETED if the generator came to its end and
-- FAILED if not.
pub debate_ends :
    (w : World) (patience : ℕ)
    → Ends (observe w patience).0.0 (observe w patience).0.1 (observe w patience).1
unfolding observe try_debate
debate_ends w patience =
    let g = begin_debate (new_generator patience) in
    let a = assess_debate w w.preparation g in
    if-cases (λ (o : (Store × List Observation) × Bool). Ends o.0.0 o.0.1 o.1) w.command_resolves
      (λ _.
        if-cases Fine w.starts
          (λ _. conclude-Fine w g a refl refl refl (assess_debate-Assesses w w.preparation g))
          (λ _. unstarted))
      (λ _. unstarted)
