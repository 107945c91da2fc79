-- ===== src/Simulation/Evidence.antt =====
-- The claims that drive a simulation run: `_fetch_relevant_claims` of
-- src/planagent/services/simulation/engine.py. A table of claims lists them in the order of their
-- creation instants, which are distinct.
use ming_jian.Base.{
  ℕ, String, Bool, true, false, ◌&&◌, ◌||◌, List, [], ◌∷◌, Option, none, some, ◌==◌, leb, max,
  if◌then◌else◌, any_of, keep_if, take, length,
}
use ming_jian.Schema.{ClaimStatus}
use ming_jian.Simulation.{Claim}

-- What the query asks: the run's tenant and preset, the terms of its subject, how many claims are
-- wanted at least, the setting `review_auto_process_confidence` as the floor, and the ILIKE of the
-- database for `%term%`.
pub record Query : Type 0 where
  pub tenant_id : Option String
  pub preset_id : Option String
  pub terms : List String
  pub tick_count : ℕ
  pub floor : ℕ
  pub ilike : String → String → Bool

abbrev pub is_accepted : ClaimStatus → Bool
is_accepted ClaimStatus.accepted = true
is_accepted _ = false

abbrev pub is_pending_review : ClaimStatus → Bool
is_pending_review ClaimStatus.pending_review = true
is_pending_review _ = false

abbrev pub tenant_fits : Option String → Option String → Bool
tenant_fits none t = true
tenant_fits (some w) none = false
tenant_fits (some w) (some t) = t == w

abbrev pub preset_fits : Option String → Option String → Bool
preset_fits none p = true
preset_fits (some w) none = true
preset_fits (some w) (some p) = p == w

module _ (q : Query) where
  -- `scoped`
  abbrev pub in_scope : Claim → Bool
  in_scope c = tenant_fits q.tenant_id c.tenant_id && preset_fits q.preset_id c.preset_id

  abbrev pub mentions : Claim → String → Bool
  mentions c term = q.ilike term c.statement || q.ilike term c.subject || q.ilike term c.object_text

  -- `subject_scoped`
  abbrev pub about : List String → Claim → Bool
  about [] c = true
  about (t ∷ ts) c = any_of (mentions c) (t ∷ ts)

  abbrev pub accepted_here : Claim → Bool
  accepted_here c = is_accepted c.status && in_scope c

  -- `provisional_filter`, scoped.
  abbrev pub provisional_here : Claim → Bool
  provisional_here c = (is_pending_review c.status && leb q.floor c.confidence) && in_scope c

  abbrev pub minimum_claims : ℕ
  minimum_claims = max 4 q.tick_count

-- `selected_by_id.setdefault(claim.id, claim)`
abbrev pub set_default : Claim → List Claim → List Claim
set_default c [] = c ∷ []
set_default c (d ∷ ds) = if d.id == c.id then d ∷ ds else d ∷ set_default c ds

-- `for claim in …: setdefault; if len(selected_by_id) >= minimum: break`
unfoldable pub fill : ℕ → List Claim → List Claim → List Claim
fill least selected [] = selected
fill least selected (c ∷ cs) =
    let selected' = set_default c selected in
    let rest = fill least selected' cs in if leb least (length selected') then selected' else rest

-- `created_at >= first.created_at`
unfoldable pub since : String → List Claim → List Claim
since i [] = []
since i (c ∷ cs) = if c.id == i then c ∷ cs else since i cs

abbrev pub since_first : List Claim → List Claim → List Claim
since_first [] table = table
since_first (c ∷ cs) table = since c.id table

-- `ORDER BY confidence DESC, created_at ASC`
unfoldable pub insert_confident : Claim → List Claim → List Claim
insert_confident c [] = c ∷ []
insert_confident c (d ∷ ds) =
    if leb d.confidence c.confidence then c ∷ d ∷ ds else d ∷ insert_confident c ds

unfoldable pub by_confidence : List Claim → List Claim
unfolding insert_confident
by_confidence [] = []
by_confidence (c ∷ cs) = insert_confident c (by_confidence cs)

-- `{claim.id: claim for claim in claims}`
unfoldable pub by_id : List Claim → List Claim → List Claim
by_id selected [] = selected
by_id selected (c ∷ cs) = by_id (set_default c selected) cs

module _ (q : Query) where
  -- `accepted_query`
  abbrev pub accepted_about : List Claim → List Claim
  accepted_about table = keep_if (λ c. accepted_here q c && about q q.terms c) table

  -- `recent_query`, for the claims selected so far.
  abbrev pub recent_accepted : List Claim → List Claim → List Claim
  recent_accepted claims table = take 25 (keep_if (accepted_here q) (since_first claims table))

  -- `provisional_query`
  unfoldable pub provisional_about : List Claim → List Claim
  unfolding by_confidence
  provisional_about table =
      by_confidence (keep_if (λ c. provisional_here q c && about q q.terms c) table)

  -- `recent_provisional_query`, for the claims selected so far.
  unfoldable pub recent_provisional : List Claim → List Claim → List Claim
  unfolding by_confidence since
  recent_provisional selected table =
      take 25 (by_confidence (keep_if (provisional_here q) (since_first selected table)))

  -- The last two steps, once the accepted claims are too few.
  unfoldable pub add_provisional : List Claim → List Claim → List Claim
  unfolding fill provisional_about recent_provisional
  add_provisional table selected =
      let least = minimum_claims q in
      let third = fill least selected (provisional_about table) in
      let fourth = fill least third (recent_provisional third table) in
      if leb least (length third) then third else fourth

  -- `_fetch_relevant_claims`
  unfoldable pub fetch_relevant_claims : List Claim → List Claim
  unfolding add_provisional by_id since
  fetch_relevant_claims table =
      let least = minimum_claims q in
      let claims = accepted_about table in
      let recent = fill least (by_id [] claims) (recent_accepted claims table) in
      let more = add_provisional table recent in
      if leb least (length claims)
      then claims
      else if leb least (length recent)
      then recent
      else more
