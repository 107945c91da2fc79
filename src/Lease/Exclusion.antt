-- ===== src/Lease/Exclusion.antt =====
-- Two workers never hold one row: once an UPDATE has taken a row, no attempt on it succeeds until
-- the lease has run out, in whatever order the attempts of the workers arrive.
use ming_jian.Base.{
  ℕ, ◌+◌, ◌≤◌, String, ◌≡◌, refl, true, false, ◌&&◌, List, [], ◌∷◌, arith, ◌==◌, eq_iff,
  if◌then◌else◌, any_of, All, Bool-cases, inl, inr,
}
use mathlib.Core.Path.{subst}
use ming_jian.Base.Table.{count_rows}
use ming_jian.Lease.{LeaseQueue, wanted, attempt}

module _ {Row : Type 0} (q : LeaseQueue Row) where
  -- No id stands on two rows.
  abbrev pub IsKeyed : List Row → Type 0
  IsKeyed [] = Unit
  IsKeyed (r ∷ t) = (any_of (λ s. q.row_id s == q.row_id r) t ≡ false) × IsKeyed t

  -- No row with this id can be claimed up to the given time.
  abbrev pub HeldUntil : ℕ → String → List Row → Type 0
  HeldUntil end i [] = Unit
  HeldUntil end i (r ∷ t) = ((now : ℕ) → now ≤ end → wanted q now i r ≡ false) × HeldUntil end i t

  -- An attempt of a worker: time, worker and id.
  abbrev pub Attempt : Type 0
  Attempt = ℕ × String × String

  -- How many of the attempts take the row `i`.
  pub wins : String → List Attempt → List Row → ℕ
  wins i [] t = 0
  wins i ((now, w, j) ∷ steps) t =
      let a = attempt q now w j t in
      let rest = wins i steps a.0 in (if a.1 && (j == i) then 1 else 0) + rest

  held_step :
      (end now : ℕ) (w i j : String) (r : Row)
      → ((n : ℕ) → n ≤ end → wanted q n i r ≡ false)
      → now ≤ end
      → (n : ℕ) → n ≤ end
      → wanted q n i (if wanted q now j r then q.acquire now w r else r) ≡ false
  held_step end now w i j r h le n m = ground (
    arith,
    h n,
    h now,
    q.acquire_id now w r,
    eq_iff (q.row_id r) i,
    eq_iff (q.row_id r) j,
    eq_iff (q.row_id (q.acquire now w r)) i,
  )

  attempt-HeldUntil :
      (end now : ℕ) (w i j : String) (t : List Row)
      → HeldUntil end i t
      → now ≤ end
      → HeldUntil end i (attempt q now w j t).0
  unfolding attempt
  attempt-HeldUntil end now w i j [] h le = tt
  attempt-HeldUntil end now w i j (r ∷ t) h le =
      (held_step end now w i j r h.0 le, attempt-HeldUntil end now w i j t h.1 le)

  held_count :
      (end now : ℕ) (i : String) (t : List Row)
      → HeldUntil end i t
      → now ≤ end
      → count_rows (wanted q now i) t ≡ 0
  held_count end now i [] h le = refl
  held_count end now i (r ∷ t) h le = ground (arith, h.0 now le, held_count end now i t h.1 le)

  held_attempt :
      (end now : ℕ) (w i j : String) (t : List Row)
      → HeldUntil end i t
      → now ≤ end
      → ((attempt q now w j t).1 && (j == i)) ≡ false
  unfolding attempt
  held_attempt end now w i j t h le = ground (arith, held_count end now i t h le, eq_iff j i)

  wins_none :
      (end : ℕ) (i : String) (steps : List Attempt) (t : List Row)
      → HeldUntil end i t
      → All (λ (a : Attempt). a.0 ≤ end) steps
      → wins i steps t ≡ 0
  unfolding wins
  wins_none end i [] t h all = refl
  wins_none end i ((now, w, j) ∷ steps) t h all = ground (
    arith,
    held_attempt end now w i j t h all.0,
    wins_none end i steps (attempt q now w j t).0 (attempt-HeldUntil end now w i j t h all.0) all.1,
  )

  absent-HeldUntil :
      (end now : ℕ) (w i : String) (t : List Row)
      → any_of (λ s. q.row_id s == i) t ≡ false
      → HeldUntil end i (attempt q now w i t).0
  unfolding attempt
  absent-HeldUntil end now w i [] h = tt
  absent-HeldUntil end now w i (r ∷ t) h =
      (λ n m. ground arith, absent-HeldUntil end now w i t (ground arith))

  count_absent :
      (now : ℕ) (i : String) (t : List Row)
      → any_of (λ s. q.row_id s == i) t ≡ false
      → count_rows (wanted q now i) t ≡ 0
  count_absent now i [] h = refl
  count_absent now i (r ∷ t) h = ground (arith, count_absent now i t)

  won-HeldUntil :
      (now : ℕ) (w i : String) (t : List Row)
      → IsKeyed t
      → (attempt q now w i t).1 ≡ true
      → HeldUntil (now + q.duration) i (attempt q now w i t).0
  unfolding attempt
  won-HeldUntil now w i [] k won = tt
  won-HeldUntil now w i (r ∷ t) k won = elim (Bool-cases (q.row_id r == i)) [
    | inl e ↦
        let gone : any_of (λ s. q.row_id s == i) t ≡ false =
          subst (λ x. any_of (λ s. q.row_id s == x) t ≡ false) ((eq_iff (q.row_id r) i).0 e) k.0 in
        (
          λ n m. ground (arith, count_absent now i t gone, q.acquire_held now n w r m),
          absent-HeldUntil (now + q.duration) now w i t gone,
        )
    | inr e ↦ (λ n m. ground arith, won-HeldUntil now w i t k.1 (ground arith))
  ]

  -- Once a worker's UPDATE has taken the row `i`, no attempt to take it succeeds before the lease
  -- has run out: whichever workers make the attempts, in whatever order, and on other rows too.
  pub exclusive :
      (now : ℕ) (w i : String) (t : List Row) (steps : List Attempt)
      → IsKeyed t
      → (attempt q now w i t).1 ≡ true
      → All (λ (a : Attempt). a.0 ≤ now + q.duration) steps
      → wins i steps (attempt q now w i t).0 ≡ 0
  exclusive now w i t steps k won all =
      wins_none (now + q.duration) i steps (attempt q now w i t).0 (won-HeldUntil now w i t k won)
        all
