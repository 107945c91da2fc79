-- ===== src/LoginThrottle/Lockout.antt =====
-- What the limiter of login_throttle.py answers: when a key is locked out, and for how long.
use ming_jian.Base.{
  ℕ, ◌+◌, ◌-◌, ◌*◌, ◌≤◌, ◌<◌, String, ◌≡◌, refl, ap, ◌∙◌, List, [], ◌∷◌, Option, none, some, arith,
  eq_iff, length, All, ltb, leb, if◌then◌else◌, sym, keep_if, Bool,
}
use ming_jian.Base.Dict.{
  Dict, lookup, erase, add_last, IsDistinct, lookup-erase_self, lookup-erase_ne, lookup-add_last,
  lookup-keep_if-none, keep_if-IsDistinct,
}
use ming_jian.LoginThrottle.{
  AttemptWindow, LoginAttemptLimiter, discard_expired, is_live, purged, seconds_left, retry_found,
  retry_after, evict_oldest, counted, record_failure, clear,
}
use ming_jian.LoginThrottle.Invariant.{IsValid, Call, handle-IsValid, purged-IsValid}

-- What `_discard_expired` leaves of one key's window.
abbrev pub live_only : ℕ → Option AttemptWindow → Option AttemptWindow
live_only now none = none
live_only now (some w) = if leb w.expires_at now then none else some w

pub lookup-discard_expired :
    (now : ℕ) (k : String) (d : Dict AttemptWindow)
    → IsDistinct d
    → lookup k (discard_expired now d) ≡ live_only now (lookup k d)
unfolding lookup
lookup-discard_expired now k [] h = refl
lookup-discard_expired now k ((i, w) ∷ d) h = ground (
  arith,
  lookup-discard_expired now k d h.1,
  lookup-keep_if-none (is_live now) i d h.0,
  eq_iff i k,
)

lookup-evict_last :
    (limit : ℕ) (k : String) (w : AttemptWindow) (d : Dict AttemptWindow)
    → 1 ≤ limit
    → lookup k d ≡ none
    → lookup k (evict_oldest limit (add_last k w d)) ≡ some w
unfolding lookup evict_oldest
lookup-evict_last limit k w [] h n = ground (arith, eq_iff k k)
lookup-evict_last limit k w ((i, v) ∷ d) h n =
    ground (arith, lookup-evict_last limit k w d h, lookup-add_last k k w d, eq_iff i k, eq_iff k k)

-- One more failure in the window that is open, or the first of a new window.
abbrev pub bumped : ℕ → ℕ → Option AttemptWindow → AttemptWindow
bumped now window none = record { failures = 1; expires_at = now + window * 1_000_000 }
bumped now window (some w) = record { failures = w.failures + 1; expires_at = w.expires_at }

lookup-counted :
    (limit now window : ℕ) (k : String) (o : Option AttemptWindow) (d : Dict AttemptWindow)
    → 1 ≤ limit
    → IsDistinct d
    → lookup k d ≡ o
    → lookup k (evict_oldest limit (counted now window k o d)) ≡ some (bumped now window o)
lookup-counted limit now window k none d c h e = lookup-evict_last limit k _ d c e
lookup-counted limit now window k (some w) d c h e =
    lookup-evict_last limit k _ (erase k d) c (lookup-erase_self k d h)

-- A failure is never lost at once to the eviction: the key's window holds one failure more, and
-- the end of an open window does not move.
pub record_failure_lem :
    (now : ℕ) (k : String) (l : LoginAttemptLimiter)
    → IsValid l
    → lookup k (record_failure now k l).attempts
      ≡ some (bumped now l.window_seconds (live_only now (lookup k l.attempts)))
unfolding record_failure
record_failure_lem now k l v =
    lookup-counted l.max_entries now l.window_seconds k _ (discard_expired now l.attempts) v.room
      (keep_if-IsDistinct (is_live now) l.attempts v.distinct) refl
    ∙ ap (λ o. some (bumped now l.window_seconds o))
        (lookup-discard_expired now k l.attempts v.distinct)

-- The answer to a key whose window is `o`.
abbrev pub answer : ℕ → ℕ → Option AttemptWindow → Option ℕ
answer limit now none = none
answer limit now (some w) =
    if ltb w.failures limit then none else some (seconds_left w.expires_at now)

retry_found-answer :
    (now : ℕ) (k : String) (l : LoginAttemptLimiter) (o : Option AttemptWindow)
    → (retry_found now k l o).0 ≡ answer l.max_failures now o
unfolding retry_found
retry_found-answer now k l o = ground arith

pub retry_after-answer :
    (now : ℕ) (k : String) (l : LoginAttemptLimiter)
    → IsValid l
    → (retry_after now k l).0 ≡ answer l.max_failures now (live_only now (lookup k l.attempts))
unfolding retry_after
retry_after-answer now k l v =
    retry_found-answer now k (purged now l) _
    ∙ ap (answer l.max_failures now) (lookup-discard_expired now k l.attempts v.distinct)

-- A check leaves every key's live window as it was.
retry_found_window :
    (now : ℕ) (k j : String) (l : LoginAttemptLimiter) (o : Option AttemptWindow)
    → IsDistinct l.attempts
    → lookup k l.attempts ≡ o
    → lookup j (retry_found now k l o).1.attempts ≡ lookup j l.attempts
unfolding retry_found
retry_found_window now k j l none h e = refl
retry_found_window now k j l (some w) h e = ground (
  arith,
  lookup-add_last k j w (erase k l.attempts) (lookup-erase_self k l.attempts h),
  lookup-erase_ne k j l.attempts,
  eq_iff k j,
)

retry_after_window :
    (now : ℕ) (k j : String) (l : LoginAttemptLimiter)
    → IsValid l
    → lookup j (retry_after now k l).1.attempts ≡ live_only now (lookup j l.attempts)
unfolding retry_after
retry_after_window now k j l v =
    retry_found_window now k j (purged now l) _ (purged-IsValid now l v).distinct refl
    ∙ lookup-discard_expired now j l.attempts v.distinct

retry_after_limits :
    (now : ℕ) (k : String) (l : LoginAttemptLimiter)
    → (retry_after now k l).1.max_failures ≡ l.max_failures
unfolding retry_after retry_found
retry_after_limits now k l = ground arith

wait_answer :
    (limit now s : ℕ) (o : Option AttemptWindow)
    → answer limit now (live_only now o) ≡ some s
    → (answer limit
          (now + s * 1_000_000 + 1000)
          (live_only (now + s * 1_000_000 + 1000) (live_only now o))
        ≡ none)
      × (1 < s
          → answer limit
              (now + (s - 1) * 1_000_000)
              (live_only (now + (s - 1) * 1_000_000) (live_only now o))
            ≡ some 1)
wait_answer limit now s none h = cc
wait_answer limit now s (some w) h = ground arith

-- When a key is told to retry after `s` seconds, then, with no other call in between, the same key
-- is allowed one millisecond after `s` seconds, and after `s - 1` seconds (if `s` is more than one)
-- it is still told to wait one second.
pub retry_after_exact :
    (now s : ℕ) (k : String) (l : LoginAttemptLimiter)
    → IsValid l
    → (retry_after now k l).0 ≡ some s
    → let l' = (retry_after now k l).1 in
      ((retry_after (now + s * 1_000_000 + 1000) k l').0 ≡ none)
      × (1 < s → (retry_after (now + (s - 1) * 1_000_000) k l').0 ≡ some 1)
retry_after_exact now s k l v h =
    let v' : IsValid (retry_after now k l).1 = handle-IsValid (Call.check now k) l v in
    let w =
      wait_answer l.max_failures now s (lookup k l.attempts)
        (sym (retry_after-answer now k l v) ∙ h) in
    let at : (t : ℕ)
        → (retry_after t k (retry_after now k l).1).0
          ≡ answer l.max_failures t (live_only t (live_only now (lookup k l.attempts))) =
      λ t.
        retry_after-answer t k (retry_after now k l).1 v'
        ∙ cc (retry_after_limits now k l, retry_after_window now k k l v) in
    (at (now + s * 1_000_000 + 1000) ∙ w.0, λ p. at (now + (s - 1) * 1_000_000) ∙ w.1 p)

-- Failures of one key at the given times.
abbrev pub fail_at : String → List ℕ → LoginAttemptLimiter → LoginAttemptLimiter
fail_at k [] l = l
fail_at k (t ∷ ts) l = fail_at k ts (record_failure t k l)

record_failure_limits :
    (now : ℕ) (k : String) (l : LoginAttemptLimiter)
    → (record_failure now k l).max_failures ≡ l.max_failures
unfolding record_failure
record_failure_limits now k l = refl

fail_at_window :
    (k : String) (ts : List ℕ) (n expires : ℕ) (l : LoginAttemptLimiter)
    → IsValid l
    → All (λ t. t < expires) ts
    → lookup k l.attempts ≡ some (record { failures = n; expires_at = expires })
    → IsValid (fail_at k ts l)
      × ((fail_at k ts l).max_failures ≡ l.max_failures)
      × (lookup k (fail_at k ts l).attempts
          ≡ some (record { failures = n + length ts; expires_at = expires }))
fail_at_window k [] n expires l v all e = (v, refl, ground (arith, e))
fail_at_window k (t ∷ ts) n expires l v all e =
    let l' = record_failure t k l in
    let v' : IsValid l' = handle-IsValid (Call.failure t k) l v in
    let e' : lookup k l'.attempts ≡ some (record { failures = n + 1; expires_at = expires }) =
      ground (arith, record_failure_lem t k l v) in
    let ih = fail_at_window k ts (n + 1) expires l' v' all.1 e' in
    (ih.0, ih.1 ∙ record_failure_limits t k l, ground (arith, ih.2))

-- A key with no open window that fails at `t0` and then at the times `ts`, all before the window of
-- `window_seconds` ends, with no other call of the limiter in between: a check that follows, before
-- the window ends, finds it locked out exactly if the failures, counted together, reach
-- `max_failures`, and tells it to wait for the end of the window that began at `t0`.
pub lockout_exact :
    (k : String) (t0 now : ℕ) (ts : List ℕ) (l : LoginAttemptLimiter)
    → IsValid l
    → live_only t0 (lookup k l.attempts) ≡ none
    → All (λ t. t < t0 + l.window_seconds * 1_000_000) ts
    → now < t0 + l.window_seconds * 1_000_000
    → (retry_after now k (fail_at k (t0 ∷ ts) l)).0 ≡ (
        if ltb (length ts + 1) l.max_failures
        then none
        else some (seconds_left (t0 + l.window_seconds * 1_000_000) now))
lockout_exact k t0 now ts l v fresh all before =
    let expires = t0 + l.window_seconds * 1_000_000 in
    let l1 = record_failure t0 k l in
    let e1 : lookup k l1.attempts ≡ some (record { failures = 1; expires_at = expires }) =
      record_failure_lem t0 k l v ∙ ap (λ o. some (bumped t0 l.window_seconds o)) fresh in
    let r = fail_at_window k ts 1 expires l1 (handle-IsValid (Call.failure t0 k) l v) all e1 in
    retry_after-answer now k (fail_at k ts l1) r.0
    ∙ ground (arith, r.1, r.2, record_failure_limits t0 k l)

-- A successful login clears the key: at no later time is it locked out.
pub clear_unlocks :
    (k : String) (now : ℕ) (l : LoginAttemptLimiter)
    → IsValid l
    → (retry_after now k (clear k l)).0 ≡ none
unfolding clear
clear_unlocks k now l v =
    retry_after-answer now k (clear k l) (handle-IsValid (Call.success k) l v)
    ∙ ap (λ o. answer l.max_failures now (live_only now o))
        (lookup-erase_self k l.attempts v.distinct)

keep_if_twice {ℓ} :
    {A : Type ℓ} (p : A → Bool) (xs : List A) → keep_if p (keep_if p xs) ≡ keep_if p xs
keep_if_twice p [] = refl
keep_if_twice p (x ∷ xs) = ground (arith, keep_if_twice p xs)

pub record_failure-purged :
    (now : ℕ) (k : String) (l : LoginAttemptLimiter)
    → record_failure now k (purged now l) ≡ record_failure now k l
unfolding record_failure
record_failure-purged now k l = rw (keep_if_twice (is_live now) l.attempts)

retry_found-allowed :
    (now : ℕ) (k : String) (l : LoginAttemptLimiter) (o : Option AttemptWindow)
    → (retry_found now k l o).0 ≡ none
    → (retry_found now k l o).1 ≡ l
unfolding retry_found
retry_found-allowed now k l none e = refl
retry_found-allowed now k l (some w) e = ground arith

-- A key that is let through leaves the limiter without its expired windows.
pub retry_after-allowed :
    (now : ℕ) (k : String) (l : LoginAttemptLimiter)
    → (retry_after now k l).0 ≡ none
    → (retry_after now k l).1 ≡ purged now l
unfolding retry_after
retry_after-allowed now k l e = retry_found-allowed now k (purged now l) _ e
