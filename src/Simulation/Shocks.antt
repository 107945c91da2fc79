-- ===== src/Simulation/Shocks.antt =====
-- External shocks: `_derive_shocks` and `_apply_external_shock` of
-- src/planagent/services/simulation/impact.py.
use Prim.Native.Char.{code}
use ming_jian.Base.{
  ℕ, String, Bool, true, false, ◌&&◌, ◌||◌, List, [], ◌∷◌, none, some, ◌==◌, eqb, if◌then◌else◌,
  any_of,
}
use ming_jian.Base.Texts.{to_lower}
use ming_jian.Base.Dict.{Dict, lookup, set_item}
use ming_jian.Simulation.{Floats}

unfoldable pub starts_lower : String → String → Bool
starts_lower String.[] s = true
starts_lower (String.◌∷◌ d t) String.[] = false
starts_lower (String.◌∷◌ d t) (String.◌∷◌ c s) =
    eqb (to_lower (code c)) (to_lower (code d)) && starts_lower t s

-- `word.lower() in text.lower()`
unfoldable pub contains_lower : String → String → Bool
unfolding starts_lower
contains_lower word String.[] = starts_lower word String.[]
contains_lower word (String.◌∷◌ c s) = starts_lower word (String.◌∷◌ c s) || contains_lower word s

-- `any(keyword in lowered for keyword in words)`
abbrev pub any_in : List String → String → Bool
any_in words text = any_of (λ w. contains_lower w text) words

-- What a shock's row says beside its run and tick.
pub record Shock : Type 0 where
  pub shock_type : String
  pub matched_keywords : List String
  pub evidence_id : String

-- One `if` of `_derive_shocks` after another.
unfoldable pub derive_from : List (List String × String) → String → String → List Shock
derive_from [] statement evidence = []
derive_from ((words, type) ∷ cases) statement evidence =
    let rest = derive_from cases statement evidence in
    if any_in words statement
    then record { shock_type = type; matched_keywords = words; evidence_id = evidence } ∷ rest
    else rest

abbrev pub corporate_shocks : List (List String × String)
corporate_shocks =
    ("cost" ∷ "price" ∷ "gpu" ∷ [], "market_cost_pressure")
    ∷ ("ship" ∷ "launch" ∷ "release" ∷ [], "product_launch")
    ∷ ("demand" ∷ "adoption" ∷ "growth" ∷ [], "demand_shift")
    ∷ (
      "bundled" ∷ "native" ∷ "copilot" ∷ "platform" ∷ "workspace" ∷ [],
      "platform_bundling_pressure",
    )
    ∷ (
      "security" ∷ "compliance" ∷ "procurement" ∷ "integration" ∷ "pilot" ∷ [],
      "enterprise_buying_friction",
    )
    ∷ (
      "hallucination" ∷ "latency" ∷ "outage" ∷ "accuracy" ∷ "reliability" ∷ [],
      "reliability_incident",
    )
    ∷ ("roi" ∷ "renewal" ∷ "expansion" ∷ "savings" ∷ "hours" ∷ [], "validated_roi")
    ∷ []

abbrev pub military_shocks : List (List String × String)
military_shocks =
    ("supply" ∷ "bridge" ∷ "port" ∷ "convoy" ∷ [], "supply_disruption")
    ∷ ("weather" ∷ "storm" ∷ "fog" ∷ "mud" ∷ [], "weather_window")
    ∷ ("drone" ∷ "swarm" ∷ "strike" ∷ "airspace" ∷ [], "air_attack")
    ∷ ("isr" ∷ "satellite" ∷ "recon" ∷ "radar" ∷ [], "isr_window")
    ∷ ("jam" ∷ "electronic" ∷ "cyber" ∷ [], "electronic_attack")
    ∷ []

-- `_derive_shocks`
unfoldable pub derive_shocks : String → String → String → List Shock
unfolding derive_from
derive_shocks domain statement evidence =
    if domain == "corporate"
    then derive_from corporate_shocks statement evidence
    else derive_from military_shocks statement evidence

-- One line `state[metric] = state.get(metric, default) ± amount`, in thousandths.
pub data Nudge : Type 0 where
  raised : String → ℕ → ℕ → Nudge
  lowered : String → ℕ → ℕ → Nudge

-- The body of each `if` of `_apply_external_shock`, for the corporate domain.
abbrev pub cost_nudges : List Nudge
cost_nudges =
    raised "infra_cost_index" 1000 80
    ∷ lowered "runway_weeks" 52_000 2000
    ∷ lowered "gross_margin" 620 50
    ∷ lowered "pipeline" 1000 20
    ∷ []

abbrev pub launch_nudges : List Nudge
launch_nudges =
    raised "brand_index" 1000 50
    ∷ raised "market_share" 50 10
    ∷ raised "pipeline" 1000 80
    ∷ raised "active_deployments" 3000 250
    ∷ raised "support_load" 350 40
    ∷ raised "reliability_debt" 280 20
    ∷ []

abbrev pub demand_nudges : List Nudge
demand_nudges =
    lowered "delivery_velocity" 1000 10
    ∷ raised "market_share" 50 15
    ∷ raised "pipeline" 1000 120
    ∷ raised "active_deployments" 3000 300
    ∷ raised "support_load" 350 30
    ∷ []

abbrev pub bundling_nudges : List Nudge
bundling_nudges =
    lowered "brand_index" 1000 40
    ∷ lowered "market_share" 50 20
    ∷ lowered "team_morale" 1000 10
    ∷ lowered "pipeline" 1000 80
    ∷ lowered "nrr" 1020 30
    ∷ raised "churn_risk" 120 40
    ∷ []

abbrev pub friction_nudges : List Nudge
friction_nudges =
    lowered "delivery_velocity" 1000 30
    ∷ lowered "cash" 100_000 4000
    ∷ lowered "runway_weeks" 52_000 1000
    ∷ raised "active_deployments" 3000 200
    ∷ raised "support_load" 350 80
    ∷ lowered "implementation_capacity" 3000 50
    ∷ []

abbrev pub incident_nudges : List Nudge
incident_nudges =
    lowered "brand_index" 1000 60
    ∷ lowered "market_share" 50 15
    ∷ lowered "team_morale" 1000 30
    ∷ raised "reliability_debt" 280 100
    ∷ raised "support_load" 350 90
    ∷ raised "churn_risk" 120 50
    ∷ lowered "nrr" 1020 40
    ∷ []

abbrev pub roi_nudges : List Nudge
roi_nudges =
    raised "cash" 100_000 8000
    ∷ raised "brand_index" 1000 40
    ∷ raised "market_share" 50 15
    ∷ raised "pipeline" 1000 60
    ∷ raised "gross_margin" 620 30
    ∷ raised "nrr" 1020 50
    ∷ lowered "churn_risk" 120 30
    ∷ []

-- For the others.
abbrev pub supply_nudges : List Nudge
supply_nudges =
    lowered "logistics_throughput" 1000 120
    ∷ lowered "ammo" 1000 60
    ∷ lowered "readiness" 1000 40
    ∷ lowered "supply_network" 840 100
    ∷ lowered "objective_control" 500 40
    ∷ raised "enemy_pressure" 660 50
    ∷ []

abbrev pub weather_nudges : List Nudge
weather_nudges =
    lowered "mobility" 1000 100
    ∷ lowered "isr_coverage" 1000 50
    ∷ lowered "supply_network" 840 50
    ∷ lowered "recovery_capacity" 680 20
    ∷ []

abbrev pub air_nudges : List Nudge
air_nudges =
    lowered "air_defense" 1000 80
    ∷ raised "civilian_risk" 250 60
    ∷ raised "escalation_index" 300 50
    ∷ raised "enemy_pressure" 660 70
    ∷ raised "enemy_readiness" 820 30
    ∷ []

abbrev pub isr_nudges : List Nudge
isr_nudges =
    raised "isr_coverage" 1000 100
    ∷ raised "information_advantage" 1000 80
    ∷ raised "objective_control" 500 40
    ∷ lowered "enemy_pressure" 660 30
    ∷ []

abbrev pub electronic_nudges : List Nudge
electronic_nudges =
    lowered "ew_control" 1000 80
    ∷ lowered "command_cohesion" 1000 50
    ∷ lowered "objective_control" 500 30
    ∷ lowered "supply_network" 840 30
    ∷ []

abbrev pub corporate_cases : List (List String × List Nudge)
corporate_cases =
    ("cost" ∷ "price" ∷ "gpu" ∷ [], cost_nudges)
    ∷ ("ship" ∷ "launch" ∷ "release" ∷ [], launch_nudges)
    ∷ ("demand" ∷ "adoption" ∷ "growth" ∷ [], demand_nudges)
    ∷ ("bundled" ∷ "native" ∷ "copilot" ∷ "platform" ∷ "workspace" ∷ [], bundling_nudges)
    ∷ ("security" ∷ "compliance" ∷ "procurement" ∷ "integration" ∷ "pilot" ∷ [], friction_nudges)
    ∷ ("hallucination" ∷ "latency" ∷ "outage" ∷ "accuracy" ∷ "reliability" ∷ [], incident_nudges)
    ∷ ("roi" ∷ "renewal" ∷ "expansion" ∷ "savings" ∷ "hours" ∷ [], roi_nudges)
    ∷ []

abbrev pub military_cases : List (List String × List Nudge)
military_cases =
    ("supply" ∷ "bridge" ∷ "port" ∷ "convoy" ∷ [], supply_nudges)
    ∷ ("weather" ∷ "storm" ∷ "fog" ∷ [], weather_nudges)
    ∷ ("drone" ∷ "swarm" ∷ "strike" ∷ [], air_nudges)
    ∷ ("isr" ∷ "satellite" ∷ "recon" ∷ [], isr_nudges)
    ∷ ("jam" ∷ "electronic" ∷ "cyber" ∷ [], electronic_nudges)
    ∷ []

module _ {F : Type 0} (fl : Floats F) where
  -- `state.get(metric, default)`
  unfoldable pub get_or : String → F → Dict F → F
  unfolding lookup
  get_or k x state = elim (lookup k state) [ none ↦ x | some y ↦ y ]

  abbrev pub nudge : Nudge → Dict F → Dict F
  nudge (raised k d v) state =
      set_item k (fl.add (get_or k (fl.decimal d) state) (fl.decimal v)) state
  nudge (lowered k d v) state =
      set_item k (fl.sub (get_or k (fl.decimal d) state) (fl.decimal v)) state

  abbrev pub nudge_all : List Nudge → Dict F → Dict F
  nudge_all [] state = state
  nudge_all (n ∷ ns) state = nudge_all ns (nudge n state)

  abbrev pub apply_from : List (List String × List Nudge) → String → Dict F → Dict F
  apply_from [] statement state = state
  apply_from ((words, ns) ∷ cases) statement state =
      apply_from cases statement (if any_in words statement then nudge_all ns state else state)

  -- `_apply_external_shock`
  unfoldable pub apply_external_shock : String → String → Dict F → Dict F
  apply_external_shock domain statement state =
      if domain == "corporate"
      then apply_from corporate_cases statement state
      else apply_from military_cases statement state
