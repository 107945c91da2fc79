-- ===== src/Lease/Progress.antt =====
-- A claim takes as many rows as it may: the limit, or all that are claimable if they are fewer.
use ming_jian.Base.{
  ℕ, zero, suc, ◌+◌, ◌*◌, ◌<◌, min, String, ◌≡◌, refl, ◌∙◌, Bool, ◌&&◌, true, false, List, [], ◌∷◌,
  ◌++◌, map, arith, ◌==◌, eq_iff, some, ltb, leb, if◌then◌else◌, any_of, All, Bool-cases, inl, inr,
  length, length-append, take, keep_if,
}
use ming_jian.Base.Table.{count_rows}
use ming_jian.Lease.{LeaseQueue, wanted, attempt, get_row, claim_loop, candidate_ids, claim_rows}
use ming_jian.Lease.Exclusion.{IsKeyed}

count-any {ℓ} : {A : Type ℓ} (p : A → Bool) (t : List A) → ltb 0 (count_rows p t) ≡ any_of p t
count-any p [] = refl
count-any p (r ∷ t) = ground (arith, count-any p t)

abbrev NoRepeat : List String → Type 0
NoRepeat [] = Unit
NoRepeat (i ∷ ids) = (any_of (λ j. j == i) ids ≡ false) × NoRepeat ids

length-take-min {ℓ} : {A : Type ℓ} (n : ℕ) (xs : List A) → length (take n xs) ≡ min n (length xs)
length-take-min zero xs = omega arith
length-take-min (suc n) [] = omega arith
length-take-min (suc n) (x ∷ xs) = omega (arith, length-take-min n xs)

module _ {Row : Type 0} (q : LeaseQueue Row) (eligible : Row → Bool) (now : ℕ) where
  abbrev Can : List Row → String → Type 0
  Can t i = any_of (wanted q now i) t ≡ true

  can_other :
      (w i j : String) (t : List Row)
      → (j == i) ≡ false
      → any_of (wanted q now j) (attempt q now w i t).0 ≡ any_of (wanted q now j) t
  unfolding attempt
  can_other w i j [] h = refl
  can_other w i j (r ∷ t) h = ground (
    arith,
    can_other w i j t h,
    q.acquire_id now w r,
    eq_iff (q.row_id r) i,
    eq_iff (q.row_id r) j,
    eq_iff j i,
    eq_iff (q.row_id (q.acquire now w r)) j,
  )

  get_row-attempt :
      (w i : String) (t : List Row)
      → Can t i
      → (r : Row) × (get_row q i (attempt q now w i t).0 ≡ some r)
  unfolding attempt get_row
  get_row-attempt w i [] h = cc
  get_row-attempt w i (r ∷ t) h = elim (Bool-cases (q.row_id r == i)) [
    | inl e ↦ (
      if wanted q now i r then q.acquire now w r else r,
      ground (
        arith,
        q.acquire_id now w r,
        eq_iff (q.row_id r) i,
        eq_iff (q.row_id (q.acquire now w r)) i,
      ),
    )
    | inr e ↦ let (s, found) = get_row-attempt w i t (ground arith) in (s, ground (arith, found))
  ]

  attempt_wins : (w i : String) (t : List Row) → Can t i → (attempt q now w i t).1 ≡ true
  unfolding attempt
  attempt_wins w i t h = count-any (wanted q now i) t ∙ h

  All-other :
      (w i : String) (ids : List String) (t : List Row)
      → any_of (λ j. j == i) ids ≡ false
      → All (Can t) ids
      → All (Can (attempt q now w i t).0) ids
  All-other w i [] t h all = tt
  All-other w i (j ∷ ids) t h all =
      (can_other w i j t (ground arith) ∙ all.0, All-other w i ids t (ground arith) all.1)

  length-claim_loop :
      (limit : ℕ) (w : String) (ids : List String) (t claimed : List Row)
      → length claimed < limit
      → NoRepeat ids
      → All (Can t) ids
      → length (claim_loop q limit now w ids t claimed).0 ≡ min limit (length claimed + length ids)
  unfolding claim_loop
  length-claim_loop limit w [] t claimed h u all = omega arith
  length-claim_loop limit w (i ∷ ids) t claimed h u all =
      let (r, found) = get_row-attempt w i t all.0 in
      let t' = (attempt q now w i t).0 in
      let claimed' = claimed ++ r ∷ [] in
      let longer : length claimed' ≡ length claimed + 1 = length-append claimed (r ∷ []) in
      rw (attempt_wins w i t all.0, found)
        (elim (Bool-cases (leb limit (length claimed'))) [
          | inl full ↦ rw full (ground (arith, longer))
          | inr more ↦ rw more (
              length-claim_loop limit w ids t' claimed' (ground (arith, longer)) u.1
                (All-other w i ids t u.0 all.1)
              ∙ omega (arith, longer))
        ])

  Can-cons : (i : String) (r : Row) (t : List Row) → Can t i → Can (r ∷ t) i
  Can-cons i r t h = ground arith

  All-cons : (ids : List String) (r : Row) (t : List Row) → All (Can t) ids → All (Can (r ∷ t)) ids
  All-cons [] r t h = tt
  All-cons (i ∷ ids) r t h = (Can-cons i r t h.0, All-cons ids r t h.1)

  abbrev ids_of : List Row → List String
  ids_of t = map q.row_id (keep_if (λ r. q.claimable now r && eligible r) t)

  ids_of-absent :
      (i : String) (t : List Row)
      → any_of (λ s. q.row_id s == i) t ≡ false
      → any_of (λ j. j == i) (ids_of t) ≡ false
  ids_of-absent i [] h = refl
  ids_of-absent i (r ∷ t) h = ground (arith, ids_of-absent i t)

  ids_of_fine : (t : List Row) → IsKeyed q t → NoRepeat (ids_of t) × All (Can t) (ids_of t)
  ids_of_fine [] k = (tt, tt)
  ids_of_fine (r ∷ t) k =
      let ih = ids_of_fine t k.1 in
      elim (Bool-cases (q.claimable now r && eligible r)) [
        | inl e ↦ rw e (
          (ids_of-absent (q.row_id r) t k.0, ih.0),
          (ground (arith, eq_iff (q.row_id r) (q.row_id r)), All-cons (ids_of t) r t ih.1),
        )
        | inr e ↦ rw e (ih.0, All-cons (ids_of t) r t ih.1)
      ]

  length-ids_of :
      (t : List Row) → length (ids_of t) ≡ count_rows (λ r. q.claimable now r && eligible r) t
  length-ids_of [] = refl
  length-ids_of (r ∷ t) = ground (arith, length-ids_of t)

  absent_take :
      (n : ℕ) (i : String) (ids : List String)
      → any_of (λ j. j == i) ids ≡ false
      → any_of (λ j. j == i) (take n ids) ≡ false
  absent_take zero i ids h = refl
  absent_take (suc n) i [] h = refl
  absent_take (suc n) i (j ∷ ids) h = ground (arith, absent_take n i ids)

  claim_none :
      (w : String) (ids : List String) (t : List Row)
      → length (claim_loop q 0 now w (take (0 * 3) ids) t []).0
        ≡ min 0 (count_rows (λ r. q.claimable now r && eligible r) t)
  unfolding claim_loop
  claim_none w ids t = omega arith

  take_fine :
      (n : ℕ) (ids : List String) (t : List Row)
      → NoRepeat ids × All (Can t) ids
      → NoRepeat (take n ids) × All (Can t) (take n ids)
  take_fine zero ids t h = (tt, tt)
  take_fine (suc n) [] t h = (tt, tt)
  take_fine (suc n) (i ∷ ids) t (u, all) =
      let ih = take_fine n ids t (u.1, all.1) in ((absent_take n i ids u.0, ih.0), (all.0, ih.1))

  -- Over a table whose ids differ, a claim takes exactly as many rows as are claimable and
  -- eligible, but not more than the limit.
  pub claim_rows_exact :
      (limit : ℕ) (w : String) (t : List Row)
      → IsKeyed q t
      → length (claim_rows q eligible limit now w t).0
        ≡ min limit (count_rows (λ r. q.claimable now r && eligible r) t)
  unfolding claim_rows candidate_ids
  claim_rows_exact zero w t k = claim_none w (ids_of t) t
  claim_rows_exact (suc n) w t k =
      let ids = take (suc n * 3) (ids_of t) in
      let fine = take_fine (suc n * 3) (ids_of t) t (ids_of_fine t k) in
      length-claim_loop (suc n) w ids t [] (omega arith) fine.0 fine.1
      ∙ omega (arith, length-take-min (suc n * 3) (ids_of t), length-ids_of t)
