-- ===== src/Simulation/Run.antt =====
-- One run of a simulation: `_execute_run` and `_generate_decision_options` of
-- src/planagent/services/simulation/engine.py, which add rows to the session. The military
-- pictures in the summary are left out.
use Prim.Native.String.{◌++◌ as append}
use ming_jian.Base.{
  ℕ, zero, suc, ◌-◌, ◌%◌, String, Bool, List, [], ◌∷◌, Option, none, some, ◌==◌, if◌then◌else◌,
  length,
}
use ming_jian.Base.Dict.{Dict, set_item}
use ming_jian.Simulation.{
  Floats, Claim, SimulationRun, StateSnapshotRecord, DecisionRecordRecord, ExternalShockRecord,
  SelectedAction,
}
use ming_jian.Simulation.Shocks.{Shock, get_or}
use ming_jian.Simulation.Evidence.{Query}

-- `military_resolution`: the effect, the enemy's action and the reason with its part on the enemy.
pub record Resolution (F : Type 0) : Type 0 where
  pub actual_effect : Dict F
  pub enemy_action_id : String
  pub why_selected : String

-- What `_select_action` is given: the state, the active claim, the last claims, the actions so far.
pub record Situation (F : Type 0) : Type 0 where
  pub domain_id : String
  pub state : Dict F
  pub active_claim : Option Claim
  pub recent_claims : List Claim
  pub action_history : List String

-- What a run calls. `none` and `false` are exceptions: the domain packs (their state, and the titles
-- of their actions), the claim query's parameters, the calibration context, `_select_action` with its
-- rules and language model, the military resolver, the event bus, and the prediction service.
pub record Services (F : Type 0) : Type 0 where
  pub floats : Floats F
  pub pack_state : String → String → Option (Dict F)
  pub action_title : String → String → String
  pub query : SimulationRun F → Query
  pub calibrates : String → Bool
  pub select_action : Situation F → Option (SelectedAction F)
  pub resolve_military :
      Dict F → SelectedAction F → Option Claim → List String → Option (Resolution F)
  pub publish : String → String → Bool
  pub create_initial_versions : String → Bool

module _ {F : Type 0} (sv : Services F) where
  -- `_apply_effects`
  unfoldable pub apply_effects : Dict F → Dict F → Dict F
  unfolding get_or
  apply_effects [] state = state
  apply_effects ((k, delta) ∷ effect) state = apply_effects effect (
      set_item k
        (sv.floats.round4 (sv.floats.add (get_or sv.floats k (sv.floats.decimal 0) state) delta))
        state)

  -- `initial_state.update(…)`
  unfoldable pub update_state : Dict F → Dict F → Dict F
  update_state [] state = state
  update_state ((k, v) ∷ changes) state = update_state changes (set_item k v state)

-- `xs[n:]`
abbrev pub drop {ℓ} : {A : Type ℓ} → ℕ → List A → List A
drop zero xs = xs
drop (suc n) [] = []
drop (suc n) (x ∷ xs) = drop n xs

-- `xs[-n:]`
abbrev pub last_of {ℓ} : {A : Type ℓ} → ℕ → List A → List A
last_of n xs = drop (length xs - n) xs

abbrev pub nth {ℓ} : {A : Type ℓ} → ℕ → List A → Option A
nth n [] = none
nth zero (x ∷ xs) = some x
nth (suc n) (x ∷ xs) = nth n xs

-- `claims[(tick - 1) % len(claims)] if claims else None`
abbrev pub active_claim : List Claim → ℕ → Option Claim
active_claim [] tick = none
active_claim (c ∷ cs) tick = nth ((tick - 1) % length (c ∷ cs)) (c ∷ cs)

-- The variables of the loop over the ticks, with the rows added so far.
pub record Progress (F : Type 0) : Type 0 where
  pub state : Dict F
  pub recent_claims : List Claim
  pub action_history : List String
  pub enemy_history : List String
  pub matched_rules : List String
  pub shocks : List ExternalShockRecord
  pub decisions : List (DecisionRecordRecord F)
  pub snapshots : List (StateSnapshotRecord F)

-- `x or y`
abbrev pub or_text : Option String → String → String
or_text none y = y
or_text (some x) y = if x == "" then y else x

module _ {F : Type 0} where
  -- `_subject_id`
  abbrev pub subject_id : SimulationRun F → String
  subject_id r = or_text r.company_id (or_text r.force_id r.id)

  unfoldable pub actor_of : SimulationRun F → String
  actor_of r = append (subject_id r) (append ":" r.actor_template)

  abbrev pub snapshot : SimulationRun F → ℕ → Dict F → StateSnapshotRecord F
  snapshot r tick state = record {
    run_id = r.id;
    tick = tick;
    actor_id = actor_of r;
    state = state;
  }

  abbrev pub shock_row : SimulationRun F → ℕ → Claim → Shock → ExternalShockRecord
  shock_row r tick c s = record {
    run_id = r.id;
    tick = tick;
    domain = r.domain_id;
    shock_type = s.shock_type;
    evidence_id = c.evidence_item_id;
  }
