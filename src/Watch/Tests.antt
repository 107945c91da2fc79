-- ===== src/Watch/Tests.antt =====
-- Watch rules on a small table, and examples of the theorems on them.
use ming_jian.Base.{◌*◌, ◌≡◌, refl, true, false, List, [], ◌∷◌, none, some}
use ming_jian.Schema.{Settings}
use ming_jian.Lease.{attempt}
use ming_jian.Watch.{
  WatchRule, claim_rule, complete_rule, fail_rule, minute, next_poll_within_window,
  next_schedule_within_window,
}
use ming_jian.Watch.Fencing.{Step, run_step, successes, is_finish, taken_over}

abbrev cfg : Settings
cfg = record {
  worker_lease_seconds = 60;
  worker_max_attempts = 3;
  accepted_claim_confidence = 700;
  review_claim_confidence_floor = 450;
  review_auto_process_confidence = 620;
  review_conditional_accept_confidence = 575;
}

abbrev rule : WatchRule
rule = record {
  id = "rule";
  created_at = 0;
  poll_interval_minutes = 60;
  enabled = true;
  next_poll_at = some 0;
  lease_owner = some "w";
  lease_expires_at = some 5;
  poll_attempts = 1;
  last_poll_at = none;
  last_poll_error = none;
}

abbrev rules : List WatchRule
rules = rule ∷ []

-- The holder's statement succeeds, and only once.
abbrev steps : List Step
steps = Step.completes "rule" "w" 4 none ∷ Step.completes "rule" "w" 5 none ∷ []

successes_run : successes cfg (is_finish cfg "w" "rule") steps rules ≡ 1
unfolding successes run_step claim_rule complete_rule fail_rule
successes_run = refl

-- After a poll at the end of the window the rule is not scheduled again.
next_run : next_poll_within_window 0 60 (23 * 60 * minute) ≡ none
unfolding next_poll_within_window next_schedule_within_window
next_run = refl

taken : (claim_rule cfg true 10 "v" "rule" rules).1 ≡ true
unfolding claim_rule attempt
taken = refl

taken_over_example :
    let t' = (claim_rule cfg true 10 "v" "rule" rules).0 in
    (complete_rule "rule" "w" 11 none t' ≡ (t', false))
    × (fail_rule "rule" "w" "late" false none t' ≡ (t', false))
taken_over_example =
    taken_over cfg true 10 "w" "rule" "v" "late" 11 none false rules (refl, tt) refl taken

first_poll : next_schedule_within_window 0 (60 * minute) 0 ≡ some (60 * minute)
unfolding next_schedule_within_window
first_poll = refl
