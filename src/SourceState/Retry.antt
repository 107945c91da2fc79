-- ===== src/SourceState/Retry.antt =====
-- When a source is fetched again (src/planagent/services/source_state.py): the circuit breaker's
-- back-off, and the count of failures since the last success.
use native.Mathlib.Nat.{pow-le-pow_right, mul-le-mul_left}
use ming_jian.Base.{
  ℕ, ◌+◌, ◌-◌, ◌*◌, ◌^◌, ◌≤◌, ◌<◌, min, max, String, ◌≡◌, List, [], ◌∷◌, arith, if◌then◌else◌,
}
use ming_jian.SourceState.{
  SourceCursorState, SourceSettings, Fetch, HealthStatus, after_fetch, failure_backoff_minutes,
}

-- Capped multiples of b that grow with the factor.
capped_growth :
    (b p q limit : ℕ)
    → 1 ≤ p
    → p ≤ q
    → b ≤ limit
    → (b ≤ min limit (b * p))
      × (min limit (b * p) ≤ min limit (b * q))
      × (min limit (b * q) ≤ limit)
capped_growth b p q limit one le cap_b =
    (omega (arith, mul-le-mul_left b one), omega (arith, mul-le-mul_left b le), omega arith)

two_pow : {i j : ℕ} → i ≤ j → 2 ^ i ≤ 2 ^ j
two_pow le = pow-le-pow_right {n = 2} (omega arith) le

module _ (cfg : SourceSettings) where
  -- The longest back-off.
  abbrev longest : ℕ
  longest =
      max (max 1 cfg.source_failure_backoff_base_minutes) cfg.source_failure_backoff_max_minutes

  -- The back-off is never shorter than the base minutes (at least one) nor longer than the longest,
  -- and more failures never make it shorter.
  backoff_bounds :
      (failures more threshold : ℕ)
      → failures ≤ more
      → (max 1 cfg.source_failure_backoff_base_minutes
          ≤ failure_backoff_minutes cfg failures threshold)
        × (failure_backoff_minutes cfg failures threshold
            ≤ failure_backoff_minutes cfg more threshold)
        × (failure_backoff_minutes cfg more threshold ≤ longest)
  unfolding failure_backoff_minutes
  backoff_bounds failures more threshold le =
      capped_growth (max 1 cfg.source_failure_backoff_base_minutes)
        (2 ^ min (failures - threshold) 8) (2 ^ min (more - threshold) 8) longest
        (two_pow {i = 0} (omega arith)) (two_pow (omega arith)) (omega arith)

module _ (normalize : String → String) where
  -- A sequence of fetches with their times.
  unfoldable pub after_fetches : List (ℕ × Fetch) → SourceCursorState → SourceCursorState
  unfolding after_fetch
  after_fetches [] s = s
  after_fetches ((t, f) ∷ fs) s = after_fetches fs (after_fetch normalize t f s)

  -- The failures at the end of a sequence that began with n of them.
  abbrev pub trailing_failures : ℕ → List (ℕ × Fetch) → ℕ
  trailing_failures n [] = n
  trailing_failures n ((t, f) ∷ fs) = trailing_failures (if f.success then 0 else n + 1) fs

  -- The status that a sequence of fetches leaves says how it ended.
  abbrev pub StatusFits : SourceCursorState → Type 0
  StatusFits s = elim s.health_status [
    | HealthStatus.failed ↦ 3 ≤ s.consecutive_failures
    | HealthStatus.degraded ↦ (0 < s.consecutive_failures) × (s.consecutive_failures < 3)
    | HealthStatus.healthy ↦ s.consecutive_failures ≡ 0
    | HealthStatus.changed ↦ Unit
    | HealthStatus.pending ↦ Unit
  ]
