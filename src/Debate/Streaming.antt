-- ===== src/Debate/Streaming.antt =====
-- What the rounds of a debate leave, whether they come to their end or not
-- (src/planagent/services/debate/workflow.py).
use mathlib.Core.List.{append-nil, append_assoc}
use mathlib.Core.Bool.{true≢false}
use mathlib.Core.Option.{some-injective}
use ming_jian.Base.{
  ℕ, zero, suc, ◌≡◌, refl, sym, ap, ◌∙◌, Bool, true, false, List, [], ◌∷◌, ◌++◌, map, Option, some,
  if-cases,
}
use ming_jian.Debate.{DebateRound}
use ming_jian.Debate.Workflow.{
  Store, StreamEvent, interrupt_injected, round_start, round_complete, unsupported, breaks,
  Completed, Observation, injected, started, finished, World, Generator, yield_with,
  yield_observation, completed_of, persisted_round, report_round, handle_event, stream_rounds,
  replay_rounds,
}

-- The rounds among the observations.
unfoldable pub rounds_seen : List Observation → List Completed
rounds_seen [] = []
rounds_seen (Observation.completed c ∷ os) = c ∷ rounds_seen os
rounds_seen (injected n r c ∷ os) = rounds_seen os
rounds_seen (started n r ∷ os) = rounds_seen os
rounds_seen (finished ∷ os) = rounds_seen os

pub rounds_seen-append :
    (xs ys : List Observation) → rounds_seen (xs ++ ys) ≡ rounds_seen xs ++ rounds_seen ys
unfolding rounds_seen
rounds_seen-append [] ys = refl
rounds_seen-append (Observation.completed c ∷ os) ys = ap (λ l. c ∷ l) (rounds_seen-append os ys)
rounds_seen-append (injected n r c ∷ os) ys = rounds_seen-append os ys
rounds_seen-append (started n r ∷ os) ys = rounds_seen-append os ys
rounds_seen-append (finished ∷ os) ys = rounds_seen-append os ys

-- From `g` to `h` these rounds were persisted and yielded, and nothing was committed.
pub record Reports (rs : List DebateRound) (g h : Generator) : Type 0 where
  pub same_stored : h.stored ≡ g.stored
  pub persisted : h.seen_by_us ≡ record g.seen_by_us { rounds = g.seen_by_us.rounds ++ rs }
  pub seen : rounds_seen h.yielded ≡ rounds_seen g.yielded ++ map completed_of rs

pub Reports-none : (g : Generator) → Reports [] g g
Reports-none g = record {
  same_stored = refl;
  persisted = ap (λ l. record g.seen_by_us { rounds = l }) (sym (append-nil g.seen_by_us.rounds));
  seen = sym (append-nil (rounds_seen g.yielded));
}

abbrev more_rounds : List DebateRound → Store → Store
more_rounds rs s = record s { rounds = s.rounds ++ rs }

map-append :
    (rs ss : List DebateRound)
    → map completed_of (rs ++ ss) ≡ map completed_of rs ++ map completed_of ss
map-append [] ss = refl
map-append (r ∷ rs) ss = ap (λ l. completed_of r ∷ l) (map-append rs ss)

pub Reports-trans :
    {rs ss : List DebateRound} {g h k : Generator}
    → Reports rs g h
    → Reports ss h k
    → Reports (rs ++ ss) g k
Reports-trans {rs} {ss} {g} a b = record {
  same_stored = b.same_stored ∙ a.same_stored;
  persisted =
      b.persisted
      ∙ ap (more_rounds ss) a.persisted
      ∙ ap (λ l. record g.seen_by_us { rounds = l }) (append_assoc g.seen_by_us.rounds rs ss);
  seen =
      b.seen
      ∙ ap (λ l. l ++ map completed_of ss) a.seen
      ∙ append_assoc (rounds_seen g.yielded) (map completed_of rs) (map completed_of ss)
      ∙ ap (λ l. rounds_seen g.yielded ++ l) (sym (map-append rs ss));
}

-- What a yield leaves, whether the consumer comes back or not.
pub record Yields (o : Observation) (g h : Generator) : Type 0 where
  pub same_stored : h.stored ≡ g.stored
  pub same_seen : h.seen_by_us ≡ g.seen_by_us
  pub longer : h.yielded ≡ g.yielded ++ o ∷ []

yield_with-Yields : (o : Observation) (n : ℕ) (g : Generator) → Yields o g (yield_with o n g).0
yield_with-Yields o zero g = record { same_stored = refl; same_seen = refl; longer = refl }
yield_with-Yields o (suc n) g = record { same_stored = refl; same_seen = refl; longer = refl }

pub yield-Yields : (o : Observation) (g : Generator) → Yields o g (yield_observation o g).0
unfolding yield_observation
yield-Yields o g = yield_with-Yields o g.patience g

-- An observation that is no round.
silent-Reports :
    {o : Observation} {g h : Generator} → rounds_seen (o ∷ []) ≡ [] → Yields o g h → Reports [] g h
silent-Reports {o} {g} quiet y = record {
  same_stored = y.same_stored;
  persisted =
      y.same_seen
      ∙ ap (λ l. record g.seen_by_us { rounds = l }) (sym (append-nil g.seen_by_us.rounds));
  seen =
      ap rounds_seen y.longer
      ∙ rounds_seen-append g.yielded (o ∷ [])
      ∙ ap (λ l. rounds_seen g.yielded ++ l) quiet;
}

-- A step: nothing is committed, and if it comes to its end, the rounds were reported.
pub record Step (rs : List DebateRound) (g : Generator) (o : Generator × Bool) : Type 0 where
  pub same_stored : o.0.stored ≡ g.stored
  pub reports : o.1 ≡ true → Reports rs g o.0

silent-Step :
    (o : Observation) (g : Generator)
    → rounds_seen (o ∷ []) ≡ []
    → Step [] g (yield_observation o g)
silent-Step o g quiet = record {
  same_stored = (yield-Yields o g).same_stored;
  reports = λ _. silent-Reports quiet (yield-Yields o g);
}

stopped : (rs : List DebateRound) (g : Generator) → Step rs g (g, false)
stopped rs g = record { same_stored = refl; reports = λ h. elim (true≢false (sym h)) [ ] }

report-Step :
    (r : DebateRound) (g : Generator)
    → Step
        (r ∷ [])
        g
        (yield_observation (Observation.completed (completed_of r)) (persisted_round r g))
unfolding rounds_seen
report-Step r g =
    let o = Observation.completed (completed_of r) in
    let y = yield-Yields o (persisted_round r g) in
    record {
      same_stored = y.same_stored;
      reports = λ _. record {
        same_stored = y.same_stored;
        persisted = y.same_seen;
        seen = ap rounds_seen y.longer ∙ rounds_seen-append g.yielded (o ∷ []);
      };
    }

report_round-Step :
    (w : World) (r : DebateRound) (g : Generator) → Step (r ∷ []) g (report_round w r g)
unfolding report_round
report_round-Step w r g =
    if-cases (Step (r ∷ []) g) (w.persists r) (λ _. report-Step r g) (λ _. stopped (r ∷ []) g)

handle_event-Step :
    (w : World) (e : StreamEvent) (g : Generator)
    → Step (handle_event w e g).1 g (handle_event w e g).0
unfolding handle_event rounds_seen
handle_event-Step w (interrupt_injected n role count) g = silent-Step (injected n role count) g refl
handle_event-Step w (round_start n role) g = silent-Step (started n role) g refl
handle_event-Step w (round_complete r) g = report_round-Step w r g
handle_event-Step w (unsupported event) g = stopped [] g
handle_event-Step w breaks g = stopped [] g

-- The rounds of a loop that comes to its end.
pub record Streams (before : List DebateRound) (g : Generator)
    (o : Generator × Option (List DebateRound)) : Type 0 where
  pub same_stored : o.0.stored ≡ g.stored
  pub rounds :
      {rs : List DebateRound}
      → o.1 ≡ some rs
      → (new : List DebateRound) × ((rs ≡ before ++ new) × Reports new g o.0)

pub stream_rounds-Streams :
    (w : World) (es : List StreamEvent) (before : List DebateRound) (g : Generator)
    → Streams before g (stream_rounds w es before g)
unfolding stream_rounds
stream_rounds-Streams w [] before g = record {
  same_stored = refl;
  rounds = λ e. ([], (some-injective _ before (sym e) ∙ sym (append-nil before), Reports-none g));
}
stream_rounds-Streams w (e ∷ es) before g =
    let one = handle_event w e g in
    let s = handle_event-Step w e g in
    let rest = stream_rounds-Streams w es (before ++ one.1) one.0.0 in
    if-cases (Streams before g) one.0.1
      (λ ok. record {
        same_stored = rest.same_stored ∙ s.same_stored;
        rounds = λ h.
            let m = rest.rounds h in
            (
              one.1 ++ m.0,
              (m.1.0 ∙ append_assoc before one.1 m.0, Reports-trans (s.reports ok) m.1.1),
            );
      })
      (λ _. record { same_stored = s.same_stored; rounds = λ h. cc })

pub replay_rounds-Step :
    (w : World) (rs : List DebateRound) (g : Generator) → Step rs g (replay_rounds w rs g)
unfolding replay_rounds rounds_seen
replay_rounds-Step w [] g = record { same_stored = refl; reports = λ _. Reports-none g }
replay_rounds-Step w (r ∷ rs) g =
    let o = started r.round_number r.role in
    let start = yield_observation o g in
    let one = report_round w r start.0 in
    let first = silent-Step o g refl in
    let second = report_round-Step w r start.0 in
    let third = replay_rounds-Step w rs one.0 in
    if-cases (Step (r ∷ rs) g) start.1
      (λ begun.
        if-cases (Step (r ∷ rs) g) one.1
          (λ ok. record {
            same_stored = third.same_stored ∙ second.same_stored ∙ first.same_stored;
            reports = λ h.
                Reports-trans (first.reports begun)
                  (Reports-trans (second.reports ok) (third.reports h));
          })
          (λ stop. record {
            same_stored = second.same_stored ∙ first.same_stored;
            reports = λ h. elim (true≢false (sym h ∙ stop)) [ ];
          }))
      (λ stop. record {
        same_stored = first.same_stored;
        reports = λ h. elim (true≢false (sym h ∙ stop)) [ ];
      })
