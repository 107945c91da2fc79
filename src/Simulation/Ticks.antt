-- ===== src/Simulation/Ticks.antt =====
-- The loop over the ticks of a run (`_execute_run` of src/planagent/services/simulation/engine.py).
use ming_jian.Base.{
  ℕ, zero, suc, ◌+◌, String, Bool, true, false, List, [], ◌∷◌, ◌++◌, map, Option, none, some, ◌==◌,
  if◌then◌else◌,
}
use ming_jian.Base.Dict.{Dict}
use ming_jian.Simulation.{Claim, SimulationRun, SelectedAction}
use ming_jian.Simulation.Shocks.{derive_shocks, apply_external_shock}
use ming_jian.Simulation.Run.{
  Resolution, Situation, Services, Progress, apply_effects, update_state, last_of, active_claim,
  actor_of, snapshot, shock_row,
}

module _ {F : Type 0} where
  abbrev pub situation : SimulationRun F → Option Claim → Progress F → Situation F
  situation r c p = record {
    domain_id = r.domain_id;
    state = p.state;
    active_claim = c;
    recent_claims = p.recent_claims;
    action_history = p.action_history;
  }

module _ {F : Type 0} (sv : Services F) where
  -- The state that the tick's claim leaves.
  abbrev pub shocked : SimulationRun F → Option Claim → Dict F → Dict F
  shocked r none state = state
  shocked r (some c) state = apply_external_shock sv.floats r.domain_id c.statement state

  -- `if active_claim is not None: …`
  unfoldable pub meet_claim : SimulationRun F → ℕ → Option Claim → Progress F → Progress F
  unfolding derive_shocks
  meet_claim r tick none p = p
  meet_claim r tick (some c) p = record p {
    shocks =
        p.shocks
        ++ map (shock_row r tick c) (derive_shocks r.domain_id c.statement c.evidence_item_id);
    state = shocked r (some c) p.state;
    recent_claims = last_of 3 (p.recent_claims ++ c ∷ []);
  }

  -- From the effect on: the state, the decision and the snapshot of the tick.
  unfoldable pub act :
      SimulationRun F
      → ℕ
      → SelectedAction F
      → Dict F
      → String
      → List String
      → Progress F
      → Progress F
  unfolding apply_effects
  act r tick a effect why enemy p =
      let state' = apply_effects sv effect p.state in
      record p {
        state = state';
        action_history = p.action_history ++ a.action_id ∷ [];
        enemy_history = p.enemy_history ++ enemy;
        matched_rules = p.matched_rules ++ a.rule_ids;
        decisions =
            p.decisions
            ++ record {
              run_id = r.id;
              tick = tick;
              sequence = 1;
              actor_id = actor_of r;
              action_id = a.action_id;
              why_selected = why;
              evidence_ids = a.evidence_ids;
              policy_rule_ids = a.rule_ids;
              expected_effect = a.expected_effect;
              actual_effect = effect;
              decision_method = a.decision_method;
            }
              ∷ [];
        snapshots = p.snapshots ++ snapshot r tick state' ∷ [];
      }

  unfoldable pub resolve :
      SimulationRun F
      → ℕ
      → SelectedAction F
      → Option (Resolution F)
      → Progress F
      → Progress F × Bool
  unfolding act
  resolve r tick a none p = (p, false)
  resolve r tick a (some m) p =
      (act r tick a m.actual_effect m.why_selected (m.enemy_action_id ∷ []) p, true)

  unfoldable pub take_action :
      SimulationRun F
      → ℕ
      → Option Claim
      → Option (SelectedAction F)
      → Progress F
      → Progress F × Bool
  unfolding resolve
  take_action r tick c none p = (p, false)
  take_action r tick c (some a) p =
      if r.domain_id == "military"
      then resolve r tick a (sv.resolve_military p.state a c p.enemy_history) p
      else (act r tick a a.actual_effect a.why_selected [] p, true)

  -- One tick; false when it raises, with what it has changed by then.
  unfoldable pub run_tick : SimulationRun F → List Claim → ℕ → Progress F → Progress F × Bool
  unfolding take_action meet_claim
  run_tick r claims tick p =
      let c = active_claim claims tick in
      let p' = meet_claim r tick c p in
      take_action r tick c (sv.select_action (situation r c p')) p'

  -- `for tick in range(1, run.tick_count + 1)`, `n` of them left.
  unfoldable pub run_ticks : SimulationRun F → List Claim → ℕ → ℕ → Progress F → Progress F × Bool
  unfolding run_tick
  run_ticks r claims zero tick p = (p, true)
  run_ticks r claims (suc n) tick p =
      let one = run_tick r claims tick p in
      let rest = run_ticks r claims n (tick + 1) one.0 in if one.1 then rest else one

  -- `{**default_state, **template}` and the run's own state over it.
  abbrev pub start : SimulationRun F → Dict F → Progress F
  start r initial =
      let state = update_state sv r.initial_state initial in
      record {
        state = state;
        recent_claims = [];
        action_history = [];
        enemy_history = [];
        matched_rules = [];
        shocks = [];
        decisions = [];
        snapshots = snapshot r 0 state ∷ [];
      }
