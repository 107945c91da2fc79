-- ===== src/Watch/Fencing.antt =====
-- Fencing of watch executions (src/planagent/services/watch_execution.py): a worker finishes an
-- execution only while it still holds the claim it made.
use ming_jian.Base.{
  ℕ, ◌+◌, ◌≤◌, String, ◌≡◌, refl, Bool, true, false, ◌&&◌, List, [], ◌∷◌, Option, none, arith, ◌==◌,
  eq_iff, ltb, if◌then◌else◌, Bool-cases, inl, inr, ap, ◌∙◌, any_of,
}
use ming_jian.Base.Table.{update_rows, count_rows}
use mathlib.Core.Path.{subst}
use ming_jian.Lease.{attempt, wanted}
use ming_jian.Lease.Exclusion.{IsKeyed}
use ming_jian.Schema.{Settings}
use ming_jian.Watch.{
  WatchRule, claim_rule, complete_rule, fail_rule, owned, watch_queue, acquire_rule, completed_rule,
  failed_rule,
}

-- A statement of some worker on some rule.
pub data Step : Type 0 where
  claims : (due_only : Bool) (now : ℕ) (owner : String) (i : String) → Step
  completes : (i owner : String) (now : ℕ) (next : Option ℕ) → Step
  fails : (i owner error : String) (enabled : Bool) (next : Option ℕ) → Step

module _ (cfg : Settings) where
  -- The table after a statement, and whether the statement changed a row.
  unfoldable pub run_step : Step → List WatchRule → List WatchRule × Bool
  unfolding claim_rule complete_rule fail_rule
  run_step (Step.claims due_only now owner i) t = claim_rule cfg due_only now owner i t
  run_step (Step.completes i owner now next) t = complete_rule i owner now next t
  run_step (Step.fails i owner error enabled next) t = fail_rule i owner error enabled next t

  -- The statement is a claim of the rule `i` by `w`.
  abbrev pub is_claim : String → String → Step → Bool
  is_claim w i (Step.claims due_only now owner j) = (owner == w) && (j == i)
  is_claim w i _ = false

  -- The statement ends an execution of the rule `i` by `w`.
  abbrev pub is_finish : String → String → Step → Bool
  is_finish w i (Step.completes j owner now next) = (owner == w) && (j == i)
  is_finish w i (Step.fails j owner error enabled next) = (owner == w) && (j == i)
  is_finish w i _ = false

  -- How many statements of a kind have changed a row.
  unfoldable pub successes : (Step → Bool) → List Step → List WatchRule → ℕ
  successes p [] t = 0
  successes p (s ∷ steps) t =
      let a = run_step s t in
      let rest = successes p steps a.0 in (if p s && a.1 then 1 else 0) + rest

  -- One if `w` holds the rule `i`.
  abbrev pub holding : String → String → List WatchRule → ℕ
  holding w i t = if ltb 0 (count_rows (owned i w) t) then 1 else 0

  gone :
      (f : WatchRule → WatchRule)
      → ((r : WatchRule) → (f r).lease_owner ≡ none)
      → (w i : String) (r : WatchRule) → owned i w (f r) ≡ false
  gone f h w i r = rw (h r) (ground arith)

  acquired_row :
      (due_only : Bool) (now : ℕ) (w i v j : String) (r : WatchRule)
      → ((v == w) && (j == i)) ≡ false
      → owned i w
          (if wanted (watch_queue cfg due_only) now j r then acquire_rule cfg now v r else r)
        ≡ true
      → owned i w r ≡ true
  acquired_row due_only now w i v j r ne e =
      elim (Bool-cases (wanted (watch_queue cfg due_only) now j r)) [
        | inl e' ↦ ground (arith, eq_iff r.id j, eq_iff r.id i, eq_iff j i)
        | inr e' ↦ ground arith
      ]

  released_count :
      (f : WatchRule → WatchRule)
      → ((r : WatchRule) → (f r).lease_owner ≡ none)
      → (w i v j : String) (t : List WatchRule)
      → count_rows (owned i w) (update_rows (owned j v) f t) ≤ count_rows (owned i w) t
  released_count f h w i v j [] = omega arith
  released_count f h w i v j (r ∷ t) = ground (arith, gone f h w i r, released_count f h w i v j t)

  released_self :
      (f : WatchRule → WatchRule)
      → ((r : WatchRule) → (f r).lease_owner ≡ none)
      → (w i : String) (t : List WatchRule)
      → count_rows (owned i w) (update_rows (owned i w) f t) ≡ 0
  released_self f h w i [] = refl
  released_self f h w i (r ∷ t) = ground (arith, gone f h w i r, released_self f h w i t)

  claimed_count :
      (due_only : Bool) (now : ℕ) (w i v j : String) (t : List WatchRule)
      → ((v == w) && (j == i)) ≡ false
      → count_rows (owned i w) (attempt (watch_queue cfg due_only) now v j t).0
        ≤ count_rows (owned i w) t
  unfolding attempt
  claimed_count due_only now w i v j [] ne = omega arith
  claimed_count due_only now w i v j (r ∷ t) ne =
      ground
        (arith, acquired_row due_only now w i v j r ne, claimed_count due_only now w i v j t ne)

  same_owned :
      (w i v j : String) (t : List WatchRule)
      → ((v == w) && (j == i)) ≡ true
      → count_rows (owned j v) t ≡ count_rows (owned i w) t
  same_owned w i v j t e =
      let owner : v ≡ w = (eq_iff v w).0 (ground arith) in
      let rule : j ≡ i = (eq_iff j i).0 (ground arith) in
      ap (λ x. count_rows (owned j x) t) owner ∙ ap (λ x. count_rows (owned x w) t) rule

  update_none :
      {Row : Type 0} (p : Row → Bool) (f : Row → Row) (t : List Row)
      → count_rows p t ≡ 0
      → update_rows p f t ≡ t
  update_none p f [] h = refl
  update_none p f (r ∷ t) h = ground (arith, update_none p f t)

  finish_holding :
      (f : WatchRule → WatchRule)
      → ((r : WatchRule) → (f r).lease_owner ≡ none)
      → (w i v j : String) (t : List WatchRule)
      → (if ((v == w) && (j == i)) && ltb 0 (count_rows (owned j v) t) then 1 else 0)
          + holding w i (update_rows (owned j v) f t)
        ≤ holding w i t + 0
  finish_holding f h w i v j t = elim (Bool-cases ((v == w) && (j == i))) [
    | inl e ↦ ground (
      arith,
      e,
      released_self f h v j t,
      same_owned w i v j t e,
      same_owned w i v j (update_rows (owned j v) f t) e,
    )
    | inr e ↦ ground (arith, e, released_count f h w i v j t)
  ]

  claim_holding :
      (due_only : Bool) (now : ℕ) (w i v j : String) (t : List WatchRule)
      → holding w i (attempt (watch_queue cfg due_only) now v j t).0
        ≤ holding w i t
          + (if ((v == w) && (j == i)) && (attempt (watch_queue cfg due_only) now v j t).1
              then 1
              else 0)
  unfolding attempt
  claim_holding due_only now w i v j t = elim (Bool-cases ((v == w) && (j == i))) [
    | inl e ↦ elim (Bool-cases (ltb 0 (count_rows (wanted (watch_queue cfg due_only) now j) t))) [
      | inl e' ↦ ground (arith, e, e')
      | inr e' ↦
          rw
            (update_none (wanted (watch_queue cfg due_only) now j) (acquire_rule cfg now v) t
              (ground arith))
            (ground arith)
    ]
    | inr e ↦ ground (arith, e, claimed_count due_only now w i v j t e)
  ]

  -- What a statement does to the holding of a rule.
  step_holding :
      (w i : String) (s : Step) (t : List WatchRule)
      → (if is_finish w i s && (run_step s t).1 then 1 else 0) + holding w i (run_step s t).0
        ≤ holding w i t + (if is_claim w i s && (run_step s t).1 then 1 else 0)
  unfolding run_step
  step_holding w i (Step.claims due_only now v j) t =
      omega (arith, claim_holding due_only now w i v j t)
  step_holding w i (Step.completes j v now next) t =
      finish_holding (completed_rule now next) (λ r. refl) w i v j t
  step_holding w i (Step.fails j v error enabled next) t =
      finish_holding (failed_rule error enabled next) (λ r. refl) w i v j t

  -- Whatever workers claim, complete and fail, in any order: a worker ends executions of a rule at
  -- most as often as its claims of the rule succeeded, and once more if it held the rule before.
  finishes_bounded :
      (w i : String) (steps : List Step) (t : List WatchRule)
      → successes (is_finish w i) steps t ≤ successes (is_claim w i) steps t + holding w i t
  unfolding successes
  finishes_bounded w i [] t = omega arith
  finishes_bounded w i (s ∷ steps) t =
      omega (arith, step_holding w i s t, finishes_bounded w i steps (run_step s t).0)

  absent_owned :
      (due_only : Bool) (now : ℕ) (w i v : String) (t : List WatchRule)
      → any_of (λ s. s.id == i) t ≡ false
      → count_rows (owned i w) (attempt (watch_queue cfg due_only) now v i t).0 ≡ 0
  unfolding attempt
  absent_owned due_only now w i v [] h = refl
  absent_owned due_only now w i v (r ∷ t) h = ground (arith, absent_owned due_only now w i v t)

  absent_wanted :
      (due_only : Bool) (now : ℕ) (i : String) (t : List WatchRule)
      → any_of (λ s. s.id == i) t ≡ false
      → count_rows (wanted (watch_queue cfg due_only) now i) t ≡ 0
  absent_wanted due_only now i [] h = refl
  absent_wanted due_only now i (r ∷ t) h = ground (arith, absent_wanted due_only now i t)

  taken_owned :
      (due_only : Bool) (now : ℕ) (w i v : String) (t : List WatchRule)
      → IsKeyed (watch_queue cfg due_only) t
      → (v == w) ≡ false
      → (attempt (watch_queue cfg due_only) now v i t).1 ≡ true
      → count_rows (owned i w) (attempt (watch_queue cfg due_only) now v i t).0 ≡ 0
  unfolding attempt
  taken_owned due_only now w i v [] k ne won = refl
  taken_owned due_only now w i v (r ∷ t) k ne won = elim (Bool-cases (r.id == i)) [
    | inl e ↦
        let absent : any_of (λ s. s.id == i) t ≡ false =
          subst (λ x. any_of (λ s. s.id == x) t ≡ false) ((eq_iff r.id i).0 e) k.0 in
        ground (
          arith,
          e,
          absent_wanted due_only now i t absent,
          absent_owned due_only now w i v t absent,
        )
    | inr e ↦ ground (arith, e, taken_owned due_only now w i v t k.1 ne)
  ]

  no_effect :
      {Row : Type 0} (p : Row → Bool) (f : Row → Row) (t : List Row)
      → count_rows p t ≡ 0
      → ◌≡◌ {A = List Row × Bool} (update_rows p f t, ltb 0 (count_rows p t)) (t, false)
  no_effect p f t h = rw h (λ i. (update_none p f t h i, false))

  -- In a table without repeated ids, once another worker has taken over a rule, the worker that held
  -- it can neither complete nor fail the execution: its statement changes no row and says so.
  pub taken_over :
      (due_only : Bool) (now : ℕ) (w i v error : String) (later : ℕ) (next : Option ℕ)
      (enabled : Bool) (t : List WatchRule)
      → IsKeyed (watch_queue cfg due_only) t
      → (v == w) ≡ false
      → (claim_rule cfg due_only now v i t).1 ≡ true
      → let t' = (claim_rule cfg due_only now v i t).0 in
        (complete_rule i w later next t' ≡ (t', false))
        × (fail_rule i w error enabled next t' ≡ (t', false))
  unfolding claim_rule complete_rule fail_rule
  taken_over due_only now w i v error later next enabled t k ne won =
      let t' = (attempt (watch_queue cfg due_only) now v i t).0 in
      let none_owned = taken_owned due_only now w i v t k ne won in
      (
        no_effect (owned i w) (completed_rule later next) t' none_owned,
        no_effect (owned i w) (failed_rule error enabled next) t' none_owned,
      )
