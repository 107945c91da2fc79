-- ===== src/Watch/Window.antt =====
-- The 24-hour window of src/planagent/services/community_monitoring.py bounds the polls of a rule.
use ming_jian.Base.{ℕ, ◌+◌, ◌*◌, ◌≤◌, ◌<◌, ◌≡◌, List, [], ◌∷◌, some, arith, length}
use ming_jian.Watch.{monitoring_expires_at, next_schedule_within_window}

-- Polls at the times of the list, the first scheduled at time t, each not before its schedule.
abbrev pub IsSchedule : ℕ → ℕ → ℕ → List ℕ → Type 0
IsSchedule created delay t [] = Unit
IsSchedule created delay t (t' ∷ ts) =
    (next : ℕ) × (next_schedule_within_window created delay t ≡ some next)
    × (next ≤ t')
    × IsSchedule created delay t' ts

next_bound :
    (created delay t next : ℕ)
    → next_schedule_within_window created delay t ≡ some next
    → (next ≡ t + delay) × (t + delay < monitoring_expires_at created)
unfolding next_schedule_within_window
next_bound created delay t next h = ground arith

-- However late polls run, a chain of further polls from time t, each scheduled when the one before
-- it ended, fits with its delays between t and the end of the rule's 24-hour window.
polls_bounded :
    (created delay t t' : ℕ) (ts : List ℕ)
    → IsSchedule created delay t (t' ∷ ts)
    → t + length (t' ∷ ts) * delay < monitoring_expires_at created
polls_bounded created delay t t' [] (next, h, le, rest) =
    let b = next_bound created delay t next h in omega arith
polls_bounded created delay t t' (t'' ∷ ts) (next, h, le, rest) =
    let b = next_bound created delay t next h in
    let later = polls_bounded created delay t' t'' ts rest in omega arith
