-- ===== src/LoginThrottle.antt =====
-- `LoginAttemptLimiter` of src/planagent/services/login_throttle.py, method by method.
-- The clock's readings are whole microseconds, handed to the methods; `window_seconds` is counted
-- in seconds, as in the source. The methods hold a lock, so each is one step.
pub mod Invariant
pub mod Lockout
mod Tests
use ming_jian.Base.{
  ℕ, suc, ◌+◌, ◌-◌, ◌*◌, ◌/◌, max, String, Bool, not, ◌||◌, List, [], ◌∷◌, Option, none, some, ltb,
  leb, if◌then◌else◌, length, keep_if,
}
use ming_jian.Base.Dict.{Dict, lookup, erase, add_last}

pub record AttemptWindow : Type 0 where
  pub failures : ℕ
  pub expires_at : ℕ

pub record LoginAttemptLimiter : Type 0 where
  pub max_failures : ℕ
  pub window_seconds : ℕ
  pub max_entries : ℕ
  pub attempts : Dict AttemptWindow

-- `__init__`: `none` is the ValueError.
unfoldable pub new_limiter : ℕ → ℕ → ℕ → Option LoginAttemptLimiter
new_limiter f w e =
    if ltb f 1 || ltb w 1 || ltb e 1
    then none
    else some (record { max_failures = f; window_seconds = w; max_entries = e; attempts = [] })

abbrev pub is_live : ℕ → String × AttemptWindow → Bool
is_live now (_, w) = not (leb w.expires_at now)

-- `_discard_expired`
abbrev pub discard_expired : ℕ → Dict AttemptWindow → Dict AttemptWindow
discard_expired now d = keep_if (is_live now) d

-- `OrderedDict.move_to_end` of a key that holds `w`.
abbrev pub move_to_end : String → AttemptWindow → Dict AttemptWindow → Dict AttemptWindow
move_to_end k w d = add_last k w (erase k d)

-- `max(1, int(expires_at - now + 0.999))`
abbrev pub seconds_left : ℕ → ℕ → ℕ
seconds_left expires now = max 1 ((expires - now + 999_000) / 1_000_000)

retry_found :
    ℕ → String → LoginAttemptLimiter → Option AttemptWindow → Option ℕ × LoginAttemptLimiter
retry_found now key l none = (none, l)
retry_found now key l (some w) = if ltb w.failures l.max_failures then (none, l) else (
  some (seconds_left w.expires_at now),
  record l { attempts = move_to_end key w l.attempts },
)

abbrev pub purged : ℕ → LoginAttemptLimiter → LoginAttemptLimiter
purged now l = record l { attempts = discard_expired now l.attempts }

-- `retry_after`: the seconds to wait, `none` when the key is allowed.
unfoldable pub retry_after : ℕ → String → LoginAttemptLimiter → Option ℕ × LoginAttemptLimiter
unfolding retry_found
retry_after now key l = let l' = purged now l in retry_found now key l' (lookup key l'.attempts)

-- `while len(self._attempts) > self._max_entries: self._attempts.popitem(last=False)`
unfoldable pub evict_oldest : ℕ → Dict AttemptWindow → Dict AttemptWindow
evict_oldest limit [] = []
evict_oldest limit (e ∷ d) =
    let rest = evict_oldest limit d in if ltb limit (length (e ∷ d)) then rest else e ∷ d

abbrev pub counted : ℕ → ℕ → String → Option AttemptWindow → Dict AttemptWindow → Dict AttemptWindow
counted now window key none d =
    add_last key (record { failures = 1; expires_at = now + window * 1_000_000 }) d
counted now window key (some w) d =
    move_to_end key (record { failures = w.failures + 1; expires_at = w.expires_at }) d

unfoldable pub record_failure : ℕ → String → LoginAttemptLimiter → LoginAttemptLimiter
record_failure now key l =
    let d = discard_expired now l.attempts in
    record l {
      attempts = evict_oldest l.max_entries (counted now l.window_seconds key (lookup key d) d);
    }

unfoldable pub clear : String → LoginAttemptLimiter → LoginAttemptLimiter
clear key l = record l { attempts = erase key l.attempts }
