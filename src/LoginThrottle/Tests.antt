-- ===== src/LoginThrottle/Tests.antt =====
-- The limiter on concrete calls.
use ming_jian.Base.{◌≤◌, ◌<◌, ◌≡◌, refl, List, [], ◌∷◌, none, some, arith, length}
use ming_jian.Base.Dict.{lookup, erase, IsDistinct}
use ming_jian.LoginThrottle.{
  LoginAttemptLimiter, new_limiter, retry_after, evict_oldest, record_failure,
}
use ming_jian.LoginThrottle.Invariant.{IsValid, Call, handle_all, memory_bounded}
use ming_jian.LoginThrottle.Lockout.{
  fail_at, retry_after_exact, lockout_exact, record_failure_lem, bumped, live_only,
}

abbrev small : LoginAttemptLimiter
small = record { max_failures = 2; window_seconds = 10; max_entries = 2; attempts = [] }

small-IsValid : IsValid small
small-IsValid = omega arith

abbrev calls : List Call
calls =
    Call.failure 0 "a"
    ∷ Call.failure 10 "b"
    ∷ Call.failure 20 "c"
    ∷ Call.check 30 "b"
    ∷ Call.failure 40 "d"
    ∷ []

-- The third key evicts the first, the fourth the second.
evictions :
    (lookup "a" (handle_all calls small).attempts ≡ none)
    × (lookup "b" (handle_all calls small).attempts ≡ none)
    × (lookup "d" (handle_all calls small).attempts
        ≡ some (record { failures = 1; expires_at = 10_000_040 }))
unfolding retry_after record_failure evict_oldest lookup erase
evictions = (refl, refl, refl)

memory_bounded_example :
    IsDistinct (handle_all calls small).attempts × (length (handle_all calls small).attempts ≤ 2)
unfolding new_limiter
memory_bounded_example = memory_bounded 2 10 2 small calls refl

abbrev locked : LoginAttemptLimiter
locked = fail_at "a" (0 ∷ 500_000 ∷ []) small

locked_answer : (retry_after 1_000_000 "a" locked).0 ≡ some 9
unfolding retry_after record_failure evict_oldest lookup erase
locked_answer = refl

-- With 8.0005 seconds left the answer is 8, and 8 seconds later the key is still locked out.
early_answer :
    ((retry_after 1_999_500 "a" locked).0 ≡ some 8)
    × ((retry_after 9_999_500 "a" (retry_after 1_999_500 "a" locked).1).0 ≡ some 1)
unfolding retry_after record_failure evict_oldest lookup erase
early_answer = (refl, refl)

locked-IsValid : IsValid locked
unfolding record_failure evict_oldest lookup erase
locked-IsValid = record { distinct = (refl, tt); bounded = omega arith; room = omega arith }

record_failure_lem_example :
    lookup "a" (record_failure 900 "a" locked).attempts
    ≡ some (bumped 900 10 (live_only 900 (lookup "a" locked.attempts)))
unfolding record_failure
record_failure_lem_example = record_failure_lem 900 "a" locked locked-IsValid

retry_after_exact_example :
    let l' = (retry_after 1_000_000 "a" locked).1 in
    ((retry_after 10_001_000 "a" l').0 ≡ none) × (1 < 9 → (retry_after 9_000_000 "a" l').0 ≡ some 1)
retry_after_exact_example = retry_after_exact 1_000_000 9 "a" locked locked-IsValid locked_answer

lockout_exact_example :
    (retry_after 1_000_000 "a" (fail_at "a" (0 ∷ 500_000 ∷ []) small)).0 ≡ some 9
unfolding lookup
lockout_exact_example =
    lockout_exact "a" 0 1_000_000 (500_000 ∷ []) small small-IsValid refl (omega arith)
      (omega arith)
