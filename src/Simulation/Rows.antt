-- ===== src/Simulation/Rows.antt =====
-- The rows that a run adds: they only grow, and each attempt adds the snapshot of tick 0
-- (src/planagent/services/simulation/engine.py).
use mathlib.Core.Path.{subst}
use mathlib.Core.List.{append-nil, append_assoc}
use ming_jian.Base.{
  ℕ, zero, suc, ◌+◌, ◌≡◌, refl, sym, ap, ◌∙◌, Bool, true, false, List, [], ◌∷◌, ◌++◌, Option, none,
  some, arith, ◌==◌, if-cases,
}
use ming_jian.Base.Dict.{Dict}
use ming_jian.Simulation.{Claim, SimulationRun, RunStatus, Tables, SelectedAction}
use ming_jian.Simulation.Evidence.{fetch_relevant_claims}
use ming_jian.Simulation.Run.{Services, Progress, Resolution, snapshot, active_claim}
use ming_jian.Simulation.Ticks.{
  meet_claim, act, resolve, take_action, run_tick, run_ticks, start, situation,
}
use ming_jian.Simulation.Execution.{
  generate_decision_options, finish_run, execute_from, execute_with, execute_run, add_rows, put_run,
  set_status,
}

-- The second list is the first with more at its end.
pub record Grows {ℓ} {A : Type ℓ} (xs ys : List A) : Type ℓ where
  pub more : List A
  pub grown : ys ≡ xs ++ more

module _ {ℓ} {A : Type ℓ} where
  pub Grows-refl : (xs : List A) → Grows xs xs
  Grows-refl xs = record { more = []; grown = sym (append-nil xs) }

  pub Grows-by : (xs more : List A) → Grows xs (xs ++ more)
  Grows-by xs more = record { more = more; grown = refl }

  pub Grows-trans : {xs ys zs : List A} → Grows xs ys → Grows ys zs → Grows xs zs
  Grows-trans {xs} g h = record {
    more = g.more ++ h.more;
    grown = h.grown ∙ ap (λ l. l ++ h.more) g.grown ∙ append_assoc xs g.more h.more;
  }

module _ {F : Type 0} (sv : Services F) where
  pub meet_claim-snapshots :
      (r : SimulationRun F) (tick : ℕ) (c : Option Claim) (p : Progress F)
      → (meet_claim sv r tick c p).snapshots ≡ p.snapshots
  unfolding meet_claim
  meet_claim-snapshots r tick none p = refl
  meet_claim-snapshots r tick (some c) p = refl

  resolve-Grows :
      (r : SimulationRun F) (tick : ℕ) (a : SelectedAction F) (m : Option (Resolution F))
      (p : Progress F)
      → Grows p.snapshots (resolve sv r tick a m p).0.snapshots
  unfolding resolve act
  resolve-Grows r tick a none p = Grows-refl p.snapshots
  resolve-Grows r tick a (some m) p = Grows-by p.snapshots _

  take_action-Grows :
      (r : SimulationRun F) (tick : ℕ) (c : Option Claim) (a : Option (SelectedAction F))
      (p : Progress F)
      → Grows p.snapshots (take_action sv r tick c a p).0.snapshots
  unfolding take_action act
  take_action-Grows r tick c none p = Grows-refl p.snapshots
  take_action-Grows r tick c (some a) p =
      if-cases (λ (o : Progress F × Bool). Grows p.snapshots o.0.snapshots)
        (r.domain_id == "military")
        (λ _. resolve-Grows r tick a (sv.resolve_military p.state a c p.enemy_history) p)
        (λ _. Grows-by p.snapshots _)

  run_tick-Grows :
      (r : SimulationRun F) (claims : List Claim) (tick : ℕ) (p : Progress F)
      → Grows p.snapshots (run_tick sv r claims tick p).0.snapshots
  unfolding run_tick
  run_tick-Grows r claims tick p =
      let c = active_claim claims tick in
      let p' = meet_claim sv r tick c p in
      subst (λ l. Grows l (run_tick sv r claims tick p).0.snapshots)
        (meet_claim-snapshots r tick c p)
        (take_action-Grows r tick c (sv.select_action (situation r c p')) p')

  run_ticks-Grows :
      (r : SimulationRun F) (claims : List Claim) (n tick : ℕ) (p : Progress F)
      → Grows p.snapshots (run_ticks sv r claims n tick p).0.snapshots
  unfolding run_ticks
  run_ticks-Grows r claims zero tick p = Grows-refl p.snapshots
  run_ticks-Grows r claims (suc n) tick p =
      let one = run_tick sv r claims tick p in
      let g = run_tick-Grows r claims tick p in
      if-cases (λ (o : Progress F × Bool). Grows p.snapshots o.0.snapshots) one.1
        (λ _. Grows-trans g (run_ticks-Grows r claims n (tick + 1) one.0)) (λ _. g)

  finish_run-snapshots :
      (now : ℕ) (r : SimulationRun F) (claims : List Claim) (p : Progress F) (t : Tables F)
      → (finish_run sv now r claims p t).0.snapshots ≡ t.snapshots
  unfolding finish_run generate_decision_options
  finish_run-snapshots now r claims p t = ground arith

  pub execute_from-snapshots :
      (now : ℕ) (r : SimulationRun F) (claims : List Claim) (o : Progress F × Bool) (t : Tables F)
      → (execute_from sv now r claims o t).0.snapshots ≡ t.snapshots ++ o.0.snapshots
  unfolding execute_from
  execute_from-snapshots now r claims (p, true) t =
      finish_run-snapshots now r claims p (add_rows p t)
  execute_from-snapshots now r claims (p, false) t = refl

  execute_with-Grows :
      (now : ℕ) (r : SimulationRun F) (initial : Option (Dict F)) (t : Tables F)
      → Grows t.snapshots (execute_with sv now r initial t).0.snapshots
  unfolding execute_with
  execute_with-Grows now r none t = Grows-refl t.snapshots
  execute_with-Grows now r (some initial) t =
      let claims = fetch_relevant_claims (sv.query r) t.claims in
      let o = run_ticks sv r claims r.tick_count 1 (start sv r initial) in
      if-cases (λ (o : Tables F × Bool). Grows t.snapshots o.0.snapshots) (sv.calibrates r.id)
        (λ _. record { more = o.0.snapshots; grown = execute_from-snapshots now r claims o t })
        (λ _. Grows-refl t.snapshots)

  pub execute_run-Grows :
      (now : ℕ) (r : SimulationRun F) (t : Tables F)
      → Grows t.snapshots (execute_run sv now r t).0.snapshots
  unfolding execute_run
  execute_run-Grows now r t =
      execute_with-Grows now r (sv.pack_state r.domain_id r.actor_template)
        (put_run r.id (set_status RunStatus.processing) t)

  -- The first thing that an attempt adds.
  pub execute_run-starts :
      (now : ℕ) (r : SimulationRun F) (t : Tables F) {initial : Dict F}
      → sv.pack_state r.domain_id r.actor_template ≡ some initial
      → sv.calibrates r.id ≡ true
      → Grows
          (t.snapshots ++ snapshot r 0 (start sv r initial).state ∷ [])
          (execute_run sv now r t).0.snapshots
  unfolding execute_run execute_with
  execute_run-starts now r t {initial} pack cal =
      let t' = put_run r.id (set_status RunStatus.processing) t in
      let claims = fetch_relevant_claims (sv.query r) t.claims in
      let p = start sv r initial in
      let o = run_ticks sv r claims r.tick_count 1 p in
      let g = run_ticks-Grows r claims r.tick_count 1 p in
      rw (pack, cal)
        record {
          more = g.more;
          grown =
              execute_from-snapshots now r claims o t'
              ∙ ap (λ l. t.snapshots ++ l) g.grown
              ∙ sym (append_assoc t.snapshots (snapshot r 0 p.state ∷ []) g.more);
        }
