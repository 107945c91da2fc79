-- ===== src/LoginThrottle/Invariant.antt =====
-- The limiter's memory: what every sequence of calls to login_throttle.py keeps.
use ming_jian.Base.{
  ℕ, ◌≤◌, String, ◌≡◌, refl, ◌∙◌, List, [], ◌∷◌, Option, none, some, arith, length, length-append,
  length-keep_if,
}
use ming_jian.Base.Dict.{
  Dict, lookup, erase, IsDistinct, lookup-erase_self, erase-IsDistinct, add_last-IsDistinct,
  keep_if-IsDistinct, length-erase, length-erase_found,
}
use ming_jian.LoginThrottle.{
  AttemptWindow, LoginAttemptLimiter, new_limiter, discard_expired, is_live, move_to_end, purged,
  retry_found, retry_after, evict_oldest, counted, record_failure, clear,
}

-- A key is listed once, and no more keys are held than the limit allows.
pub record IsValid (l : LoginAttemptLimiter) : Type 0 where
  pub distinct : IsDistinct l.attempts
  pub bounded : length l.attempts ≤ l.max_entries
  pub room : 1 ≤ l.max_entries

pub evict_oldest-le : (limit : ℕ) (d : Dict AttemptWindow) → length (evict_oldest limit d) ≤ limit
unfolding evict_oldest
evict_oldest-le limit [] = omega arith
evict_oldest-le limit (e ∷ d) = ground (arith, evict_oldest-le limit d)

pub evict_oldest-IsDistinct :
    (limit : ℕ) (d : Dict AttemptWindow) → IsDistinct d → IsDistinct (evict_oldest limit d)
unfolding evict_oldest
evict_oldest-IsDistinct limit [] h = h
evict_oldest-IsDistinct limit (e ∷ d) h = ground (arith, evict_oldest-IsDistinct limit d h.1)

pub move_to_end-IsDistinct :
    (k : String) (w : AttemptWindow) (d : Dict AttemptWindow)
    → IsDistinct d
    → IsDistinct (move_to_end k w d)
move_to_end-IsDistinct k w d h =
    add_last-IsDistinct k w (erase k d) (erase-IsDistinct k d h) (lookup-erase_self k d h)

pub counted-IsDistinct :
    (now window : ℕ) (k : String) (o : Option AttemptWindow) (d : Dict AttemptWindow)
    → lookup k d ≡ o
    → IsDistinct d
    → IsDistinct (counted now window k o d)
counted-IsDistinct now window k none d e h = add_last-IsDistinct k _ d h e
counted-IsDistinct now window k (some w) d e h = move_to_end-IsDistinct k _ d h

pub purged-IsValid : (now : ℕ) (l : LoginAttemptLimiter) → IsValid l → IsValid (purged now l)
purged-IsValid now l v = record {
  distinct = keep_if-IsDistinct (is_live now) l.attempts v.distinct;
  bounded = omega (arith, length-keep_if (is_live now) l.attempts, v.bounded);
  room = v.room;
}

length-move_to_end :
    (k : String) (w : AttemptWindow) (d : Dict AttemptWindow) (w' : AttemptWindow)
    → lookup k d ≡ some w'
    → length (move_to_end k w d) ≡ length d
length-move_to_end k w d w' e =
    omega (arith, length-append (erase k d) ((k, w) ∷ []), length-erase_found k w' d e)

retry_found-IsValid :
    (now : ℕ) (k : String) (l : LoginAttemptLimiter) (o : Option AttemptWindow)
    → lookup k l.attempts ≡ o
    → IsValid l
    → IsValid (retry_found now k l o).1
unfolding retry_found
retry_found-IsValid now k l none e v = v
retry_found-IsValid now k l (some w) e v =
    ground (
      arith,
      length-move_to_end k w l.attempts w e,
      move_to_end-IsDistinct k w l.attempts v.distinct,
    )

-- The calls that a limiter can receive, with the clock's reading.
pub data Call : Type 0 where
  check failure : ℕ → String → Call
  success : String → Call

abbrev pub handle : Call → LoginAttemptLimiter → LoginAttemptLimiter
handle (Call.check now k) l = (retry_after now k l).1
handle (Call.failure now k) l = record_failure now k l
handle (Call.success k) l = clear k l

abbrev pub handle_all : List Call → LoginAttemptLimiter → LoginAttemptLimiter
handle_all [] l = l
handle_all (c ∷ cs) l = handle_all cs (handle c l)

pub handle-IsValid : (c : Call) (l : LoginAttemptLimiter) → IsValid l → IsValid (handle c l)
unfolding retry_after record_failure clear
handle-IsValid (Call.check now k) l v =
    retry_found-IsValid now k (purged now l) _ refl (purged-IsValid now l v)
handle-IsValid (Call.failure now k) l v =
    let d = discard_expired now l.attempts in
    let c = counted now l.window_seconds k (lookup k d) d in
    record {
      distinct = evict_oldest-IsDistinct l.max_entries c (
          counted-IsDistinct now l.window_seconds k (lookup k d) d refl
            (purged-IsValid now l v).distinct);
      bounded = evict_oldest-le l.max_entries c;
      room = v.room;
    }
handle-IsValid (Call.success k) l v = record {
  distinct = erase-IsDistinct k l.attempts v.distinct;
  bounded = omega (arith, length-erase k l.attempts, v.bounded);
  room = v.room;
}

handle_all-IsValid :
    (cs : List Call) (l : LoginAttemptLimiter) → IsValid l → IsValid (handle_all cs l)
handle_all-IsValid [] l v = v
handle_all-IsValid (c ∷ cs) l v = handle_all-IsValid cs (handle c l) (handle-IsValid c l v)

handle_limit : (c : Call) (l : LoginAttemptLimiter) → (handle c l).max_entries ≡ l.max_entries
unfolding retry_after retry_found record_failure clear
handle_limit (Call.check now k) l = ground arith
handle_limit (Call.failure now k) l = refl
handle_limit (Call.success k) l = refl

handle_all_limit :
    (cs : List Call) (l : LoginAttemptLimiter) → (handle_all cs l).max_entries ≡ l.max_entries
handle_all_limit [] l = refl
handle_all_limit (c ∷ cs) l = handle_all_limit cs (handle c l) ∙ handle_limit c l

-- Whatever calls arrive at a limiter that the constructor accepted, no key is listed twice and at
-- most `max_entries` keys are held.
pub memory_bounded :
    (f w e : ℕ) (l : LoginAttemptLimiter) (cs : List Call)
    → new_limiter f w e ≡ some l
    → IsDistinct (handle_all cs l).attempts × (length (handle_all cs l).attempts ≤ e)
unfolding new_limiter
memory_bounded f w e l cs h =
    let v : IsValid l = ground arith in
    let r : IsValid (handle_all cs l) = handle_all-IsValid cs l v in
    (r.distinct, ground (arith, r.bounded, handle_all_limit cs l))
