-- ===== src/Review/Outcome.antt =====
-- How a round of `ReviewWorker` (src/planagent/workers/review.py) ends for the items it takes.
use Prim.Native.String.{◌++◌ as append}
use ming_jian.Base.{
  ℕ, ◌≤◌, String, ◌≡◌, ◌≢◌, refl, sym, Bool, true, false, List, Option, none, some, arith, ◌==◌,
  ltb, leb, Bool-cases, inl, inr, any_of,
}
use mathlib.Core.Path.{subst}
use ming_jian.Schema.{ReviewItemStatus, Claim, ReviewItem, Db, Settings}
use ming_jian.Review.{
  review_of, claim_of, Debates, Result, empty_result, worker_id, set_debated,
  resolve_or_release_conditional, on_verdict, choose_trigger, after_debate, hold_debate, weigh,
  with_verdict, with_claim, try_review_item, or_released, process_review_item, TriggerType, Ended,
  review_error, is_accepted_claim, is_pending_item,
}
use ming_jian.Review.Settling.{
  Settled, Counts, IsDecided, find_row-id, release-Settled, accept-Settled, reject-Settled,
  accept-IsDecided, reject-IsDecided,
}

counts_debated :
    (told : Bool) (s : ReviewItemStatus) (n : ℕ) (res : Result)
    → Counts told s res
    → Counts told s (record res { debated_items = n })
counts_debated told ReviewItemStatus.pending n res k = k
counts_debated true ReviewItemStatus.accepted n res k = k
counts_debated false ReviewItemStatus.accepted n res k = k
counts_debated told ReviewItemStatus.rejected n res k = k

module _ (cfg : Settings) (o : Debates) (db : Db) (r : ReviewItem) (h : review_of r.id db ≡ some r)
    (p : r.status ≡ ReviewItemStatus.pending) where
  -- An end of the body of the `try` that the handler, if it is called, leaves settled.
  abbrev Done : Ended → Type 0
  Done e = Settled o.publishes r.id db (or_released r.id e)

  -- An exception before any commit.
  raised-Done : Done (db, none)
  raised-Done =
      let pending : is_pending_item r ≡ true = rw p refl in
      rw (h, pending) (release-Settled o.publishes r.id db r h (some review_error) p)

  module _ (c : Claim) (hc : claim_of r.claim_id db ≡ some c) where
    conditional-Done :
        (note : String) → Done (resolve_or_release_conditional cfg o.publishes r c note db)
    unfolding resolve_or_release_conditional
    conditional-Done note = elim (Bool-cases (ltb r.processing_attempts cfg.worker_max_attempts)) [
      | inl e ↦ rw e (release-Settled o.publishes r.id db r h (some note) p)
      | inr e ↦
          rw e (elim (Bool-cases (leb cfg.review_conditional_accept_confidence c.confidence)) [
            | inl e' ↦ rw e' (
                accept-Settled o.publishes r.id db r h c hc worker_id
                  (record empty_result { auto_accepted = 1 }) (refl, refl, refl))
            | inr e' ↦ rw e' (
                reject-Settled o.publishes r.id db r h c hc worker_id
                  (record empty_result { auto_rejected = 1 }) (refl, refl, refl))
          ])
    ]

    verdict-Done :
        (v : Option String) (note : String) → Done (on_verdict cfg o.publishes r c v note db)
    unfolding on_verdict
    verdict-Done none note = conditional-Done note
    verdict-Done (some v) note = elim (Bool-cases (v == "ACCEPTED")) [
      | inl e ↦ rw e (
          accept-Settled o.publishes r.id db r h c hc worker_id
            (record empty_result { auto_accepted = 1 }) (refl, refl, refl))
      | inr e ↦ rw e (elim (Bool-cases (v == "REJECTED")) [
        | inl e' ↦ rw e' (
            reject-Settled o.publishes r.id db r h c hc worker_id
              (record empty_result { auto_rejected = 1 }) (refl, refl, refl))
        | inr e' ↦ rw e' (conditional-Done note)
      ])
    ]

    debated-Done : (n : ℕ) (e : Ended) → Done e → Done (set_debated n e)
    debated-Done n (db', none) d = d
    debated-Done n (db', some res) d = record {
      item = d.item;
      found = d.found;
      unowned = d.unowned;
      free = d.free;
      claim = d.claim;
      counted = counts_debated (o.publishes d.item.claim_id) d.item.status n res d.counted;
      others = d.others;
    }

    debate-Done :
        (t : TriggerType) (v : Option (Option String)) → Done (after_debate cfg o r c t v db)
    debate-Done t none = raised-Done
    debate-Done t (some v) =
        debated-Done 1 (on_verdict cfg o.publishes r c v (o.note c t v) db)
          (verdict-Done v (o.note c t v))

    trigger-Done : (t : Option TriggerType) → Done (hold_debate cfg o r c t db)
    trigger-Done none = release-Settled o.publishes r.id db r h none p
    trigger-Done (some t) = debate-Done t (o.decide c t)

    weigh-Done : (rel : Option (List Claim × List Claim)) → Done (weigh cfg o r c rel db)
    weigh-Done none = raised-Done
    weigh-Done (some (supportive, conflicting)) =
        trigger-Done (choose_trigger cfg r c supportive conflicting)

    found-Done : (v : Option String) → Done (with_verdict cfg o r c v db)
    found-Done none = weigh-Done (o.find_claim_relations c db.claims)
    found-Done (some v) = verdict-Done (some v) (append "existing_debate_verdict=" v)

  claim-Done : (c : Option Claim) → claim_of r.claim_id db ≡ c → Done (with_claim cfg o r c db)
  claim-Done none e = release-Settled o.publishes r.id db r h (some "claim_not_found") p
  claim-Done (some c) e = found-Done c e (o.latest_automated_verdict c.id)

  tried-Done : Done (try_review_item cfg o r db)
  unfolding try_review_item
  tried-Done = claim-Done (claim_of r.claim_id db) refl

process_done :
    (cfg : Settings) (o : Debates) (i : String) (db : Db) (r : ReviewItem)
    → review_of i db ≡ some r
    → r.status ≡ ReviewItemStatus.pending
    → process_review_item cfg o i db ≡ or_released i (try_review_item cfg o r db)
unfolding process_review_item
process_done cfg o i db r h p = rw (h, process_review_item, p) refl

-- When the worker handles a pending item, the item is left with no lease and is either ACCEPTED
-- with its claim ACCEPTED, or REJECTED with its claim REJECTED, or still pending with all claims
-- unchanged; the result counts it once, in the place of its status, but an accepted one whose event
-- the bus does not take for the manual queue; and no other item changes. This includes a missing
-- claim, an exception of the search for related claims or of the debate, and one of the bus after
-- the commit.
pub process-Settled :
    (cfg : Settings) (o : Debates) (i : String) (db : Db) (r : ReviewItem)
    → review_of i db ≡ some r
    → r.status ≡ ReviewItemStatus.pending
    → Settled o.publishes i db (process_review_item cfg o i db)
process-Settled cfg o i db r h p =
    let own : r.id ≡ i = find_row-id (λ (s : ReviewItem). s.id) i db.reviews r h in
    let own_row : review_of r.id db ≡ some r = subst (λ j. review_of j db ≡ some r) (sym own) h in
    rw (process_done cfg o i db r h p) (
      subst (λ j. Settled o.publishes j db (or_released j (try_review_item cfg o r db))) own
        (tried-Done cfg o db r own_row p))

module _ (cfg : Settings) (o : Debates) (db : Db) (r : ReviewItem) (c : Claim)
    (h : review_of r.id db ≡ some r) (hc : claim_of r.claim_id db ≡ some c)
    (last : cfg.worker_max_attempts ≤ r.processing_attempts) where
  -- An end that leaves the item accepted or rejected, whether an exception follows or not.
  abbrev IsDecision : Ended → Type 0
  IsDecision e = IsDecided r.id (or_released r.id e).0

  conditional-IsDecision :
      (note : String) → IsDecision (resolve_or_release_conditional cfg o.publishes r c note db)
  unfolding resolve_or_release_conditional
  conditional-IsDecision note =
      let late : ltb r.processing_attempts cfg.worker_max_attempts ≡ false = ground arith in
      rw late (elim (Bool-cases (leb cfg.review_conditional_accept_confidence c.confidence)) [
        | inl e ↦ rw e (
            accept-IsDecided o.publishes r.id db r h c hc worker_id
              (record empty_result { auto_accepted = 1 }))
        | inr e ↦ rw e (
            reject-IsDecided o.publishes r.id db r h c hc worker_id
              (record empty_result { auto_rejected = 1 }))
      ])

  verdict-IsDecision :
      (v : Option String) (note : String) → IsDecision (on_verdict cfg o.publishes r c v note db)
  unfolding on_verdict
  verdict-IsDecision none note = conditional-IsDecision note
  verdict-IsDecision (some v) note = elim (Bool-cases (v == "ACCEPTED")) [
    | inl e ↦ rw e (
        accept-IsDecided o.publishes r.id db r h c hc worker_id
          (record empty_result { auto_accepted = 1 }))
    | inr e ↦ rw e (elim (Bool-cases (v == "REJECTED")) [
      | inl e' ↦ rw e' (
          reject-IsDecided o.publishes r.id db r h c hc worker_id
            (record empty_result { auto_rejected = 1 }))
      | inr e' ↦ rw e' (conditional-IsDecision note)
    ])
  ]

  debated-IsDecision : (n : ℕ) (e : Ended) → IsDecision e → IsDecision (set_debated n e)
  debated-IsDecision n (db', none) d = d
  debated-IsDecision n (db', some res) d = d

  debate-IsDecision :
      (t : TriggerType) (v : Option (Option String))
      → v ≢ none
      → IsDecision (after_debate cfg o r c t v db)
  debate-IsDecision t none ne = elim (ne refl) [ ]
  debate-IsDecision t (some v) ne =
      debated-IsDecision 1 (on_verdict cfg o.publishes r c v (o.note c t v) db)
        (verdict-IsDecision v (o.note c t v))

  trigger_given :
      (supportive conflicting : List Claim)
      → (t : TriggerType) × (choose_trigger cfg r c supportive conflicting ≡ some t)
  unfolding choose_trigger
  trigger_given supportive conflicting = elim (Bool-cases (any_of is_accepted_claim conflicting)) [
    | inl e ↦ (TriggerType.conflict_resolution, rw e refl)
    | inr e ↦ (TriggerType.evidence_assessment, ground arith)
  ]

  weigh-IsDecision :
      (rel : Option (List Claim × List Claim))
      → rel ≢ none
      → ((t : TriggerType) → o.decide c t ≢ none)
      → IsDecision (weigh cfg o r c rel db)
  weigh-IsDecision none ne d = elim (ne refl) [ ]
  weigh-IsDecision (some (supportive, conflicting)) ne d =
      let t = trigger_given supportive conflicting in
      rw t.1 (debate-IsDecision t.0 (o.decide c t.0) (d t.0))

  found-IsDecision :
      (v : Option String)
      → o.find_claim_relations c db.claims ≢ none
      → ((t : TriggerType) → o.decide c t ≢ none)
      → IsDecision (with_verdict cfg o r c v db)
  found-IsDecision none ne d = weigh-IsDecision (o.find_claim_relations c db.claims) ne d
  found-IsDecision (some v) ne d = verdict-IsDecision (some v) (append "existing_debate_verdict=" v)

-- An item that has used up its attempts does not stay pending: if its claim is there and neither
-- the search for related claims nor the debate raises, then handling it leaves it accepted or
-- rejected, whatever the verdicts are and whether the bus takes the event or not.
pub last_attempt_decides :
    (cfg : Settings) (o : Debates) (i : String) (db : Db) (r : ReviewItem) (c : Claim)
    → review_of i db ≡ some r
    → r.status ≡ ReviewItemStatus.pending
    → claim_of r.claim_id db ≡ some c
    → cfg.worker_max_attempts ≤ r.processing_attempts
    → o.find_claim_relations c db.claims ≢ none
    → ((t : TriggerType) → o.decide c t ≢ none)
    → IsDecided i (process_review_item cfg o i db).0
unfolding try_review_item
last_attempt_decides cfg o i db r c h p hc last ne d =
    let own : r.id ≡ i = find_row-id (λ (s : ReviewItem). s.id) i db.reviews r h in
    let own_row : review_of r.id db ≡ some r = subst (λ j. review_of j db ≡ some r) (sym own) h in
    rw (process_done cfg o i db r h p, try_review_item, hc)
      (subst (λ j. IsDecided j (or_released j (with_claim cfg o r (some c) db)).0) own
        (found-IsDecision cfg o db r c own_row hc last (o.latest_automated_verdict c.id) ne d))
