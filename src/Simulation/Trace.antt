-- ===== src/Simulation/Trace.antt =====
-- The decisions of a run explain its snapshots (`_execute_run` of
-- src/planagent/services/simulation/engine.py).
use mathlib.Core.List.{append_assoc, append-nil}
use ming_jian.Base.{
  ℕ, zero, suc, ◌+◌, String, ◌≡◌, refl, sym, ap, ◌∙◌, Bool, true, false, List, [], ◌∷◌, ◌++◌, map,
  Option, none, some, arith, ◌==◌, if-cases,
}
use ming_jian.Base.Dict.{Dict}
use ming_jian.Simulation.{
  Claim, SimulationRun, StateSnapshotRecord, DecisionRecordRecord, Tables, SelectedAction,
  RunStatus,
}
use mathlib.Core.Bool.{true≢false}
use ming_jian.Simulation.Rows.{meet_claim-snapshots, execute_from-snapshots}
use ming_jian.Simulation.Evidence.{fetch_relevant_claims}
use ming_jian.Simulation.Run.{Services, Progress, Resolution, apply_effects, active_claim, snapshot}
use ming_jian.Simulation.Ticks.{
  situation, shocked, meet_claim, act, resolve, take_action, run_tick, run_ticks, start,
}
use ming_jian.Simulation.Execution.{
  execute_from, execute_with, execute_run, finish_run, generate_decision_options, add_rows, put_run,
  set_status,
}

-- `range(tick, tick + n)`
abbrev pub ticks_from : ℕ → ℕ → List ℕ
ticks_from tick zero = []
ticks_from tick (suc n) = tick ∷ ticks_from (tick + 1) n

module _ {F : Type 0} (sv : Services F) (r : SimulationRun F) (claims : List Claim) where
  -- The snapshots that the effects of the decisions give, one after another.
  unfoldable pub history : ℕ → Dict F → List (DecisionRecordRecord F) → List (StateSnapshotRecord F)
  history tick state [] = []
  history tick state (d ∷ ds) =
      let state' =
        apply_effects sv d.actual_effect (shocked sv r (active_claim claims tick) state) in
      snapshot r tick state' ∷ history (tick + 1) state' ds

  -- What an action adds to the state that the tick's claim has left.
  record Acts (tick : ℕ) (p p' : Progress F) : Type 0 where
    decision : DecisionRecordRecord F
    at : decision.tick ≡ tick
    decided : p'.decisions ≡ p.decisions ++ decision ∷ []
    moved : p'.state ≡ apply_effects sv decision.actual_effect p.state
    kept : p'.snapshots ≡ p.snapshots ++ snapshot r tick p'.state ∷ []

  act-Acts :
      (tick : ℕ) (a : SelectedAction F) (effect : Dict F) (why : String) (enemy : List String)
      (p : Progress F)
      → Acts tick p (act sv r tick a effect why enemy p)
  unfolding act
  act-Acts tick a effect why enemy p = record {
    decision = _;
    at = refl;
    decided = refl;
    moved = refl;
    kept = refl;
  }

  resolve-Acts :
      (tick : ℕ) (a : SelectedAction F) (m : Option (Resolution F)) (p : Progress F)
      → (resolve sv r tick a m p).1 ≡ true
      → Acts tick p (resolve sv r tick a m p).0
  unfolding resolve
  resolve-Acts tick a none p h = cc
  resolve-Acts tick a (some m) p h =
      act-Acts tick a m.actual_effect m.why_selected (m.enemy_action_id ∷ []) p

  take_action-Acts :
      (tick : ℕ) (c : Option Claim) (a : Option (SelectedAction F)) (p : Progress F)
      → (take_action sv r tick c a p).1 ≡ true
      → Acts tick p (take_action sv r tick c a p).0
  unfolding take_action
  take_action-Acts tick c none p h = cc
  take_action-Acts tick c (some a) p h =
      if-cases (λ (o : Progress F × Bool). o.1 ≡ true → Acts tick p o.0) (r.domain_id == "military")
        (λ _. resolve-Acts tick a (sv.resolve_military p.state a c p.enemy_history) p)
        (λ _ _. act-Acts tick a a.actual_effect a.why_selected [] p) h

  meet_claim-state :
      (tick : ℕ) (c : Option Claim) (p : Progress F)
      → (meet_claim sv r tick c p).state ≡ shocked sv r c p.state
  unfolding meet_claim
  meet_claim-state tick none p = refl
  meet_claim-state tick (some c) p = refl

  meet_claim-decisions :
      (tick : ℕ) (c : Option Claim) (p : Progress F)
      → (meet_claim sv r tick c p).decisions ≡ p.decisions
  unfolding meet_claim
  meet_claim-decisions tick none p = refl
  meet_claim-decisions tick (some c) p = refl

  run_tick-Acts :
      (tick : ℕ) (p : Progress F)
      → (run_tick sv r claims tick p).1 ≡ true
      → Acts tick
          (meet_claim sv r tick (active_claim claims tick) p)
          (run_tick sv r claims tick p).0
  unfolding run_tick
  run_tick-Acts tick p h =
      let c = active_claim claims tick in
      let p' = meet_claim sv r tick c p in
      take_action-Acts tick c (sv.select_action (situation r c p')) p' h

  -- `n` ticks on: one decision for each, and the snapshots that they give.
  pub record Explains (n tick : ℕ) (p p' : Progress F) : Type 0 where
    pub decided : List (DecisionRecordRecord F)
    pub ticks : map (λ d. d.tick) decided ≡ ticks_from tick n
    pub decisions : p'.decisions ≡ p.decisions ++ decided
    pub snapshots : p'.snapshots ≡ p.snapshots ++ history tick p.state decided

  joined :
      (n tick : ℕ) (p : Progress F) {one end : Progress F}
      → Acts tick (meet_claim sv r tick (active_claim claims tick) p) one
      → Explains n (tick + 1) one end
      → Explains (suc n) tick p end
  unfolding history
  joined n tick p {one} d e =
      let c = active_claim claims tick in
      let ds = e.decided in
      let effect = d.decision.actual_effect in
      record {
        decided = d.decision ∷ ds;
        ticks = ap (λ k. k ∷ map (λ d. d.tick) ds) d.at ∙ ap (λ ks. tick ∷ ks) e.ticks;
        decisions =
            e.decisions
            ∙ ap (λ l. l ++ ds)
                (d.decided ∙ ap (λ l. l ++ d.decision ∷ []) (meet_claim-decisions tick c p))
            ∙ append_assoc p.decisions (d.decision ∷ []) ds;
        snapshots =
            e.snapshots
            ∙ ap (λ l. l ++ history (tick + 1) one.state ds)
                (d.kept
                  ∙ ap (λ l. l ++ snapshot r tick one.state ∷ [])
                      (meet_claim-snapshots sv r tick c p))
            ∙ append_assoc p.snapshots (snapshot r tick one.state ∷ [])
                (history (tick + 1) one.state ds)
            ∙ ap (λ s. p.snapshots ++ snapshot r tick s ∷ history (tick + 1) s ds)
                (d.moved ∙ ap (apply_effects sv effect) (meet_claim-state tick c p));
      }

  pub run_ticks-Explains :
      (n tick : ℕ) (p : Progress F)
      → (run_ticks sv r claims n tick p).1 ≡ true
      → Explains n tick p (run_ticks sv r claims n tick p).0
  unfolding run_ticks history
  run_ticks-Explains zero tick p h = record {
    decided = [];
    ticks = refl;
    decisions = sym (append-nil p.decisions);
    snapshots = sym (append-nil p.snapshots);
  }
  run_ticks-Explains (suc n) tick p h =
      let one = run_tick sv r claims tick p in
      if-cases (λ (o : Progress F × Bool). o.1 ≡ true → Explains (suc n) tick p o.0) one.1
        (λ ok more.
          joined n tick p (run_tick-Acts tick p ok) (run_ticks-Explains n (tick + 1) one.0 more))
        (λ stop more. elim (true≢false (sym more ∙ stop)) [ ]) h

module _ {F : Type 0} (sv : Services F) where
  finish_run-decisions :
      (now : ℕ) (r : SimulationRun F) (claims : List Claim) (p : Progress F) (t : Tables F)
      → (finish_run sv now r claims p t).0.decisions ≡ t.decisions
  unfolding finish_run generate_decision_options
  finish_run-decisions now r claims p t = ground arith

  execute_from-decisions :
      (now : ℕ) (r : SimulationRun F) (claims : List Claim) (o : Progress F × Bool) (t : Tables F)
      → (execute_from sv now r claims o t).0.decisions ≡ t.decisions ++ o.0.decisions
  unfolding execute_from
  execute_from-decisions now r claims (p, true) t =
      finish_run-decisions now r claims p (add_rows p t)
  execute_from-decisions now r claims (p, false) t = refl

  execute_from-worked :
      (now : ℕ) (r : SimulationRun F) (claims : List Claim) (o : Progress F × Bool) (t : Tables F)
      → (execute_from sv now r claims o t).1 ≡ true
      → o.1 ≡ true
  unfolding execute_from
  execute_from-worked now r claims (p, true) t h = refl
  execute_from-worked now r claims (p, false) t h = h

  -- The rows of a whole run: one decision a tick, from the first to the last, and the snapshot of the
  -- initial state before those that the decisions give.
  pub record Traced (r : SimulationRun F) (t t' : Tables F) : Type 0 where
    pub initial : Dict F
    pub pack : sv.pack_state r.domain_id r.actor_template ≡ some initial
    pub decided : List (DecisionRecordRecord F)
    pub ticks : map (λ d. d.tick) decided ≡ ticks_from 1 r.tick_count
    pub decisions : t'.decisions ≡ t.decisions ++ decided
    pub snapshots :
        t'.snapshots
        ≡ t.snapshots
          ++ snapshot r 0 (start sv r initial).state
            ∷ history sv r
                (fetch_relevant_claims (sv.query r) t.claims)
                1
                (start sv r initial).state
                decided

  execute_with-Traced :
      (now : ℕ) (r : SimulationRun F) (pack : Option (Dict F)) (t : Tables F)
      → sv.pack_state r.domain_id r.actor_template ≡ pack
      → (execute_with sv now r pack t).1 ≡ true
      → Traced r t (execute_with sv now r pack t).0
  unfolding execute_with
  execute_with-Traced now r none t e h = cc
  execute_with-Traced now r (some initial) t e h =
      let claims = fetch_relevant_claims (sv.query r) t.claims in
      let p = start sv r initial in
      let o = run_ticks sv r claims r.tick_count 1 p in
      if-cases (λ (z : Tables F × Bool). z.1 ≡ true → Traced r t z.0) (sv.calibrates r.id)
        (λ _ worked.
          let x =
            run_ticks-Explains sv r claims r.tick_count 1 p
              (execute_from-worked now r claims o t worked) in
          record {
            initial = initial;
            pack = e;
            decided = x.decided;
            ticks = x.ticks;
            decisions =
                execute_from-decisions now r claims o t ∙ ap (λ l. t.decisions ++ l) x.decisions;
            snapshots =
                execute_from-snapshots sv now r claims o t ∙ ap (λ l. t.snapshots ++ l) x.snapshots;
          })
        (λ _ raised. elim (true≢false (sym raised)) [ ]) h

  -- A run that executes without an exception has added one decision for each of its ticks, in order,
  -- and the snapshots that follow from its initial state by the shocks of the claims and the effects
  -- of these decisions.
  pub decisions_explain_snapshots :
      (now : ℕ) (r : SimulationRun F) (t : Tables F)
      → (execute_run sv now r t).1 ≡ true
      → Traced r t (execute_run sv now r t).0
  unfolding execute_run
  decisions_explain_snapshots now r t h =
      let t0 = put_run r.id (set_status RunStatus.processing) t in
      let x = execute_with-Traced now r (sv.pack_state r.domain_id r.actor_template) t0 refl h in
      record {
        initial = x.initial;
        pack = x.pack;
        decided = x.decided;
        ticks = x.ticks;
        decisions = x.decisions;
        snapshots = x.snapshots;
      }
