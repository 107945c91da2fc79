-- ===== src/Simulation/Usable.antt =====
-- Which claims drive a run, and how many (`_fetch_relevant_claims` of
-- src/planagent/services/simulation/engine.py).
use ming_jian.Base.{
  ℕ, ◌+◌, ◌≤◌, ◌<◌, ◌≡◌, refl, ◌⊎◌, inl, inr, Bool, true, false, ◌&&◌, ◌||◌, List, [], ◌∷◌, arith,
  leb, keep_if, take, length, All, zero, suc, leb→le, if-cases,
}
use ming_jian.Simulation.{Claim}
use ming_jian.Simulation.Evidence.{
  Query, is_accepted, is_pending_review, tenant_fits, preset_fits, accepted_here, provisional_here,
  about, minimum_claims, set_default, fill, since_first, insert_confident, by_confidence, by_id,
  accepted_about, recent_accepted, provisional_about, recent_provisional, add_provisional,
  fetch_relevant_claims,
}

-- In the run's scope, and accepted, or waiting for its review with a confidence of the floor at least.
abbrev pub usable : Query → Claim → Bool
usable q c =
    (is_accepted c.status || (is_pending_review c.status && leb q.floor c.confidence))
    && (tenant_fits q.tenant_id c.tenant_id && preset_fits q.preset_id c.preset_id)

module _ (u : Claim → Bool) where
  abbrev pub Passes : List Claim → Type 0
  Passes = All (λ c. u c ≡ true)

  set_default-Passes :
      (c : Claim) (s : List Claim) → u c ≡ true → Passes s → Passes (set_default c s)
  set_default-Passes c [] h k = (h, tt)
  set_default-Passes c (d ∷ ds) h k = ground (arith, set_default-Passes c ds h k.1)

  pub fill-Passes : (n : ℕ) (s cs : List Claim) → Passes s → Passes cs → Passes (fill n s cs)
  unfolding fill
  fill-Passes n s [] h k = h
  fill-Passes n s (c ∷ cs) h k =
      let s' = set_default-Passes c s k.0 h in
      ground (arith, s', fill-Passes n (set_default c s) cs s' k.1)

  pub by_id-Passes : (s cs : List Claim) → Passes s → Passes cs → Passes (by_id s cs)
  unfolding by_id
  by_id-Passes s [] h k = h
  by_id-Passes s (c ∷ cs) h k = by_id-Passes (set_default c s) cs (set_default-Passes c s k.0 h) k.1

  insert_confident-Passes :
      (c : Claim) (s : List Claim) → u c ≡ true → Passes s → Passes (insert_confident c s)
  unfolding insert_confident
  insert_confident-Passes c [] h k = (h, tt)
  insert_confident-Passes c (d ∷ ds) h k = ground (arith, insert_confident-Passes c ds h k.1)

  pub by_confidence-Passes : (s : List Claim) → Passes s → Passes (by_confidence s)
  unfolding by_confidence
  by_confidence-Passes [] k = tt
  by_confidence-Passes (c ∷ cs) k =
      insert_confident-Passes c (by_confidence cs) k.0 (by_confidence-Passes cs k.1)

  pub take-Passes : (n : ℕ) (s : List Claim) → Passes s → Passes (take n s)
  take-Passes zero s k = tt
  take-Passes (suc n) [] k = tt
  take-Passes (suc n) (c ∷ cs) k = (k.0, take-Passes n cs k.1)

  pub keep_if-Passes :
      (p : Claim → Bool) (s : List Claim)
      → ((c : Claim) → p c ≡ true → u c ≡ true)
      → Passes (keep_if p s)
  keep_if-Passes p [] h = tt
  keep_if-Passes p (c ∷ cs) h = ground (arith, h c, keep_if-Passes p cs h)

length-set_default : (c : Claim) (s : List Claim) → length (set_default c s) ≤ length s + 1
length-set_default c [] = omega arith
length-set_default c (d ∷ ds) = ground (arith, length-set_default c ds)

few : (n : ℕ) (s : List Claim) → leb n (length s) ≡ false → length s < n
few n s h = ground arith

fewer : {a b n : ℕ} → a ≤ 0 + b → b < n → a < n
fewer h k = omega arith

length-fill : (n : ℕ) (s cs : List Claim) → length s < n → length (fill n s cs) ≤ n
unfolding fill
length-fill n s [] h = omega arith
length-fill n s (c ∷ cs) h =
    ground (arith, length-set_default c s, length-fill n (set_default c s) cs)

length-by_id : (s cs : List Claim) → length (by_id s cs) ≤ length s + length cs
unfolding by_id
length-by_id s [] = omega arith
length-by_id s (c ∷ cs) = omega (arith, length-by_id (set_default c s) cs, length-set_default c s)

module _ (q : Query) where
  accepted_about-Passes : (table : List Claim) → Passes (usable q) (accepted_about q table)
  accepted_about-Passes table = keep_if-Passes (usable q) _ table (λ c k. ground arith)

  recent_accepted-Passes : (s table : List Claim) → Passes (usable q) (recent_accepted q s table)
  recent_accepted-Passes s table =
      take-Passes (usable q) 25 (keep_if (accepted_here q) (since_first s table))
        (keep_if-Passes (usable q) (accepted_here q) (since_first s table) (λ c k. ground arith))

  provisional_about-Passes : (table : List Claim) → Passes (usable q) (provisional_about q table)
  unfolding provisional_about
  provisional_about-Passes table =
      by_confidence-Passes (usable q)
        (keep_if (λ c. provisional_here q c && about q q.terms c) table)
        (keep_if-Passes (usable q) (λ c. provisional_here q c && about q q.terms c) table
          (λ c k. ground arith))

  recent_provisional-Passes :
      (s table : List Claim) → Passes (usable q) (recent_provisional q s table)
  unfolding recent_provisional
  recent_provisional-Passes s table =
      let found = keep_if (provisional_here q) (since_first s table) in
      take-Passes (usable q) 25 (by_confidence found) (
        by_confidence-Passes (usable q) found (
          keep_if-Passes (usable q) (provisional_here q) (since_first s table)
            (λ c k. ground arith)))

  add_provisional-Passes :
      (table s : List Claim) → Passes (usable q) s → Passes (usable q) (add_provisional q table s)
  unfolding add_provisional
  add_provisional-Passes table s h =
      let least = minimum_claims q in
      let third = fill least s (provisional_about q table) in
      let third_ok =
        fill-Passes (usable q) least s (provisional_about q table) h
          (provisional_about-Passes table) in
      if-cases (Passes (usable q)) (leb least (length third)) (λ _. third_ok)
        (λ _.
          fill-Passes (usable q) least third (recent_provisional q third table) third_ok
            (recent_provisional-Passes third table))

  add_provisional-length :
      (table s : List Claim)
      → length s < minimum_claims q
      → length (add_provisional q table s) ≤ minimum_claims q
  unfolding add_provisional
  add_provisional-length table s h =
      let least = minimum_claims q in
      let third = fill least s (provisional_about q table) in
      if-cases (λ (xs : List Claim). length xs ≤ least) (leb least (length third))
        (λ _. length-fill least s (provisional_about q table) h)
        (λ more. length-fill least third (recent_provisional q third table) (few least third more))

  -- Every claim that drives a run is in the run's tenant and preset and is accepted, or waits for its
  -- review with a confidence of the floor at least. Claims that are not the accepted ones on the
  -- subject come in only while those are fewer than the minimum, and up to the minimum.
  pub fetched_usable :
      (table : List Claim)
      → All (λ c. usable q c ≡ true) (fetch_relevant_claims q table)
        × (((fetch_relevant_claims q table ≡ accepted_about q table)
              × (minimum_claims q ≤ length (accepted_about q table)))
            ⊎ ((length (fetch_relevant_claims q table) ≤ minimum_claims q)
                × (length (accepted_about q table) < minimum_claims q)))
  unfolding fetch_relevant_claims
  fetched_usable table =
      let least = minimum_claims q in
      let claims = accepted_about q table in
      let recent = fill least (by_id [] claims) (recent_accepted q claims table) in
      let recent_ok =
        fill-Passes (usable q) least (by_id [] claims) (recent_accepted q claims table)
          (by_id-Passes (usable q) [] claims tt (accepted_about-Passes table))
          (recent_accepted-Passes claims table) in
      if-cases
        (λ (xs : List Claim).
          Passes (usable q) xs
          × (((xs ≡ claims) × (least ≤ length claims))
              ⊎ ((length xs ≤ least) × (length claims < least))))
        (leb least (length claims))
        (λ enough. (accepted_about-Passes table, inl (refl, leb→le least (length claims) enough)))
        (λ short.
          let by_id_few = length-by_id [] claims in
          let room =
            length-fill least (by_id [] claims) (recent_accepted q claims table)
              (fewer by_id_few (few least claims short)) in
          if-cases
            (λ (xs : List Claim).
              Passes (usable q) xs
              × (((xs ≡ claims) × (least ≤ length claims))
                  ⊎ ((length xs ≤ least) × (length claims < least))))
            (leb least (length recent)) (λ _. (recent_ok, inr (room, few least claims short)))
            (λ less. (
              add_provisional-Passes table recent recent_ok,
              inr (
                add_provisional-length table recent (few least recent less),
                few least claims short,
              ),
            )))
