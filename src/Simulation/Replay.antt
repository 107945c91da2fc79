-- ===== src/Simulation/Replay.antt =====
-- The shocks that are recorded explain the changes of state (services/simulation/impact.py of
-- src/planagent).
use ming_jian.Base.{
  String, ◌≡◌, refl, sym, true, false, ◌⊎◌, inl, inr, List, [], ◌∷◌, arith, ◌==◌, if◌then◌else◌,
  Bool-cases,
}
use ming_jian.Base.Dict.{Dict}
use ming_jian.Simulation.{Floats}
use ming_jian.Simulation.Shocks.{
  Shock, Nudge, any_in, derive_from, derive_shocks, corporate_shocks, military_shocks, nudge_all,
  apply_from, apply_external_shock, corporate_cases, military_cases, cost_nudges, launch_nudges,
  demand_nudges, bundling_nudges, friction_nudges, incident_nudges, roi_nudges, supply_nudges,
  weather_nudges, air_nudges, isr_nudges, electronic_nudges,
}

-- What a shock of a type does to the state.
unfoldable pub effect_of : String → List Nudge
effect_of type =
    if type == "market_cost_pressure"
    then cost_nudges
    else if type == "product_launch"
    then launch_nudges
    else if type == "demand_shift"
    then demand_nudges
    else if type == "platform_bundling_pressure"
    then bundling_nudges
    else if type == "enterprise_buying_friction"
    then friction_nudges
    else if type == "reliability_incident"
    then incident_nudges
    else if type == "validated_roi"
    then roi_nudges
    else if type == "supply_disruption"
    then supply_nudges
    else if type == "weather_window"
    then weather_nudges
    else if type == "air_attack"
    then air_nudges
    else if type == "isr_window"
    then isr_nudges
    else if type == "electronic_attack"
    then electronic_nudges
    else []

-- The table of the words and that of the changes agree on a statement.
data Agrees (text : String)
    : List (List String × String) → List (List String × List Nudge) → Type 0 where
  done : Agrees text [] []
  agree :
      {words words' : List String} {type : String} {ns : List Nudge}
      {cs : List (List String × String)} {bs : List (List String × List Nudge)}
      → any_in words text ≡ any_in words' text
      → effect_of type ≡ ns
      → Agrees text cs bs
      → Agrees text ((words, type) ∷ cs) ((words', ns) ∷ bs)

module _ {F : Type 0} (fl : Floats F) where
  -- The state after the recorded shocks.
  unfoldable pub replay : List Shock → Dict F → Dict F
  unfolding effect_of
  replay [] state = state
  replay (s ∷ ss) state = replay ss (nudge_all fl (effect_of s.shock_type) state)

  apply_from-replay :
      (text evidence : String) {cs : List (List String × String)}
      {bs : List (List String × List Nudge)}
      → Agrees text cs bs
      → (state : Dict F) → apply_from fl bs text state ≡ replay (derive_from cs text evidence) state
  unfolding replay derive_from
  apply_from-replay text evidence done state = refl
  apply_from-replay text evidence (agree {words} {words'} {type} {ns} same effect rest) state =
      elim (Bool-cases (any_in words text)) [
        | inl hit ↦
            rw (sym same, hit, sym effect)
              (apply_from-replay text evidence rest (nudge_all fl (effect_of type) state))
        | inr miss ↦ rw (sym same, miss) (apply_from-replay text evidence rest state)
      ]

corporate-Agrees : (text : String) → Agrees text corporate_shocks corporate_cases
unfolding effect_of
corporate-Agrees text = agree refl refl (
    agree refl refl (
      agree refl refl (agree refl refl (agree refl refl (agree refl refl (agree refl refl done))))))

-- The words that only the records of the shocks look for.
abbrev pub record_only : List String
record_only = "mud" ∷ "airspace" ∷ "radar" ∷ []

military-Agrees :
    (text : String) → any_in record_only text ≡ false → Agrees text military_shocks military_cases
unfolding effect_of
military-Agrees text h = agree refl refl (
    agree (ground arith) refl
      (agree (ground arith) refl (agree (ground arith) refl (agree refl refl done))))

module _ {F : Type 0} (fl : Floats F) where
  -- The change of the state by a claim is that of the shocks recorded for it: always in the
  -- corporate domain, and elsewhere if the statement has none of "mud", "airspace" and "radar".
  pub shocks_explain_state :
      (domain text evidence : String) (state : Dict F)
      → ((domain == "corporate") ≡ true) ⊎ (any_in record_only text ≡ false)
      → apply_external_shock fl domain text state
        ≡ replay fl (derive_shocks domain text evidence) state
  unfolding apply_external_shock derive_shocks
  shocks_explain_state domain text evidence state h = elim (Bool-cases (domain == "corporate")) [
    | inl c ↦ rw c (apply_from-replay fl text evidence (corporate-Agrees text) state)
    | inr n ↦ rw n (apply_from-replay fl text evidence (military-Agrees text (ground arith)) state)
  ]
