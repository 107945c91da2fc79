-- ===== src/Review.antt =====
-- `ReviewWorker` of src/planagent/workers/review.py, and `accept_review_item` and
-- `reject_review_item` of src/planagent/services/pipeline.py, which it calls. The debate service and
-- the debate tables stand by the record Debates. The notes that a decision stores beside the
-- reviewer are left out; an unresolved item keeps its note in last_error. Rows that the
-- promotion of a claim writes (Signal, EventRecord, Trend) are never read here.
pub mod Settling
pub mod Outcome
pub mod Round
mod Tests
use Prim.Native.String.{◌++◌ as append}
use ming_jian.Base.{
  ℕ, ◌+◌, ◌*◌, ◌≤◌, String, ◌≡◌, refl, Bool, true, false, not, ◌&&◌, ◌||◌, List, [], ◌∷◌, Option,
  none, some, arith, ◌==◌, ltb, leb, if◌then◌else◌, any_of, length, map,
}
use ming_jian.Base.Table.{update_rows, find_row}
use ming_jian.Lease.{LeaseQueue, claim_rows}
use ming_jian.Schema.{ClaimStatus, ReviewItemStatus, Claim, ReviewItem, EventTopic, Db, Settings}
use ming_jian.Pipeline.Ingest.{second, lease_over, buffer_event}

abbrev pub is_pending_item : ReviewItem → Bool
is_pending_item r = elim r.status [ ReviewItemStatus.pending ↦ true | _ ↦ false ]

-- `_claim_review_items` as a lease queue.
module _ (cfg : Settings) where
  abbrev pub review_claimable : ℕ → ReviewItem → Bool
  review_claimable now r = is_pending_item r && lease_over r.lease_expires_at now

  abbrev pub acquire_review : ℕ → String → ReviewItem → ReviewItem
  acquire_review now w r = record r {
    lease_owner = some w;
    lease_expires_at = some (now + cfg.worker_lease_seconds * second);
    processing_attempts = r.processing_attempts + 1;
    last_error = none;
  }

  pub review_held :
      (now t : ℕ) (w : String) (r : ReviewItem)
      → t ≤ now + cfg.worker_lease_seconds * second
      → review_claimable t (acquire_review now w r) ≡ false
  review_held now t w r h = ground arith

  abbrev pub review_queue : LeaseQueue ReviewItem
  review_queue = record {
    row_id = λ r. r.id;
    claimable = review_claimable;
    acquire = acquire_review;
    duration = cfg.worker_lease_seconds * second;
    acquire_id = λ now w r. refl;
    acquire_held = review_held;
  }

abbrev pub review_of : String → Db → Option ReviewItem
review_of i db = find_row (λ r. r.id == i) db.reviews

abbrev pub claim_of : String → Db → Option Claim
claim_of i db = find_row (λ c. c.id == i) db.claims

abbrev pub save_review : ReviewItem → Db → Db
save_review r db = record db { reviews = update_rows (λ s. s.id == r.id) (λ _. r) db.reviews }

abbrev pub save_claim : Claim → Db → Db
save_claim c db = record db { claims = update_rows (λ s. s.id == c.id) (λ _. c) db.claims }

abbrev pub decided : ReviewItemStatus → String → ReviewItem → ReviewItem
decided s reviewer r = record r {
  status = s;
  lease_owner = none;
  lease_expires_at = none;
  last_error = none;
  reviewer_id = some reviewer;
}

abbrev pub decided_claim : ClaimStatus → Claim → Claim
decided_claim s c = record c { status = s; requires_review = false }

-- The tables that stand committed, and whether the call has returned. The LookupErrors come before
-- the commit; a publication that raises comes after it.
abbrev pub accept_found : (String → Bool) → String → ReviewItem → Option Claim → Db → Db × Bool
accept_found publishes reviewer r none db = (db, false)
accept_found publishes reviewer r (some c) db = (
  buffer_event EventTopic.evidence_created c.id (
      save_claim (decided_claim ClaimStatus.accepted c)
        (save_review (decided ReviewItemStatus.accepted reviewer r) db)),
  publishes c.id,
)

abbrev pub reject_found : String → ReviewItem → Option Claim → Db → Db × Bool
reject_found reviewer r none db = (db, false)
reject_found reviewer r (some c) db = (
  save_claim (decided_claim ClaimStatus.rejected c)
      (save_review (decided ReviewItemStatus.rejected reviewer r) db),
  true,
)

-- `accept_review_item`; `publishes` says of a claim whether the bus takes the event that names it.
unfoldable pub accept_review_item : (String → Bool) → String → String → Db → Db × Bool
accept_review_item publishes reviewer i db = elim (review_of i db) [
  | none ↦ (db, false)
  | some r ↦ accept_found publishes reviewer r (claim_of r.claim_id db) db
]

-- `reject_review_item`
unfoldable pub reject_review_item : String → String → Db → Db × Bool
reject_review_item reviewer i db = elim (review_of i db) [
  | none ↦ (db, false)
  | some r ↦ reject_found reviewer r (claim_of r.claim_id db) db
]

pub data TriggerType : Type 0 where
  conflict_resolution evidence_assessment : TriggerType

-- What the worker asks of the debate service and of the bus. The latest automated verdict on a
-- claim; the supportive and the conflicting claims of a claim among the claims, where `none` is an
-- exception; the verdict of a debate that is held now (`none` is an exception, `some none` no
-- verdict); the note about it; and whether the bus takes the event that names a claim.
pub record Debates : Type 0 where
  pub latest_automated_verdict : String → Option String
  pub find_claim_relations : Claim → List Claim → Option (List Claim × List Claim)
  pub decide : Claim → TriggerType → Option (Option String)
  pub note : Claim → TriggerType → Option String → String
  pub publishes : String → Bool

pub record Result : Type 0 where
  pub debated_items : ℕ
  pub auto_accepted : ℕ
  pub auto_rejected : ℕ
  pub manual_queue : ℕ

abbrev pub empty_result : Result
empty_result = record { debated_items = 0; auto_accepted = 0; auto_rejected = 0; manual_queue = 0 }

abbrev pub manual_result : Result
manual_result = record empty_result { manual_queue = 1 }

abbrev pub worker_id : String
worker_id = "review-worker"

-- `_release_review_item`
abbrev pub release_review_item : Option String → ReviewItem → ReviewItem
release_review_item error r = record r {
  lease_owner = none;
  lease_expires_at = none;
  last_error = error;
}

-- How the body of the `try` in `_process_review_item` ends: with the tables that are committed,
-- and with a result, or `none` for an exception.
abbrev pub Ended : Type 0
Ended = Db × Option Result

-- A call of the pipeline service, whose exception passes through, and the result after it.
abbrev pub then_result : Result → Db × Bool → Ended
then_result res (db, true) = (db, some res)
then_result res (db, false) = (db, none)

-- `result["debated_items"] = debated`
abbrev pub set_debated : ℕ → Ended → Ended
set_debated n (db, none) = (db, none)
set_debated n (db, some res) = (db, some (record res { debated_items = n }))

abbrev pub review_error : String
review_error = "Review processing failed"

abbrev pub release_pending : Option ReviewItem → Db → Db
release_pending none db = db
release_pending (some r) db =
    if is_pending_item r then save_review (release_review_item (some review_error) r) db else db

-- The `except` of `_process_review_item`: the session is rolled back to the tables that are
-- committed, and the item is released if it is there and pending still.
abbrev pub or_released : String → Ended → Db × Result
or_released i (db, some res) = (db, res)
or_released i (db, none) = (release_pending (review_of i db) db, manual_result)

abbrev pub is_accepted_claim : Claim → Bool
is_accepted_claim c = elim c.status [ ClaimStatus.accepted ↦ true | _ ↦ false ]

abbrev pub is_empty : List Claim → Bool
is_empty [] = true
is_empty (c ∷ cs) = false

module _ (cfg : Settings) where
  unfoldable pub resolve_or_release_conditional :
      (String → Bool) → ReviewItem → Claim → String → Db → Ended
  resolve_or_release_conditional publishes r c note db =
      if ltb r.processing_attempts cfg.worker_max_attempts
      then (save_review (release_review_item (some note) r) db, some manual_result)
      else if leb cfg.review_conditional_accept_confidence c.confidence
      then then_result (record empty_result { auto_accepted = 1 })
          (accept_review_item publishes worker_id r.id db)
      else then_result (record empty_result { auto_rejected = 1 })
          (reject_review_item worker_id r.id db)

  -- What follows on a verdict, which the worker does in the same way for the verdict it finds and
  -- for the one of its own debate.
  unfoldable pub on_verdict :
      (String → Bool) → ReviewItem → Claim → Option String → String → Db → Ended
  on_verdict publishes r c verdict note db =
      let unresolved = resolve_or_release_conditional publishes r c note db in
      elim verdict [
        | none ↦ unresolved
        | some v ↦
            if v == "ACCEPTED"
            then then_result (record empty_result { auto_accepted = 1 })
                (accept_review_item publishes worker_id r.id db)
            else if v == "REJECTED"
            then then_result (record empty_result { auto_rejected = 1 })
                (reject_review_item worker_id r.id db)
            else unresolved
      ]

  -- Why a debate is held, if one is.
  unfoldable pub choose_trigger : ReviewItem → Claim → List Claim → List Claim → Option TriggerType
  choose_trigger r c supportive conflicting =
      if any_of is_accepted_claim conflicting
      then some TriggerType.conflict_resolution
      else if any_of is_accepted_claim supportive && is_empty conflicting
      then some TriggerType.evidence_assessment
      else if leb cfg.review_auto_process_confidence c.confidence
          || leb cfg.worker_max_attempts r.processing_attempts
      then some TriggerType.evidence_assessment
      else none

  module _ (o : Debates) where
    abbrev pub after_debate : ReviewItem → Claim → TriggerType → Option (Option String) → Db → Ended
    after_debate r c t none db = (db, none)
    after_debate r c t (some verdict) db =
        set_debated 1 (on_verdict o.publishes r c verdict (o.note c t verdict) db)

    abbrev pub hold_debate : ReviewItem → Claim → Option TriggerType → Db → Ended
    hold_debate r c none db = (save_review (release_review_item none r) db, some manual_result)
    hold_debate r c (some t) db = after_debate r c t (o.decide c t) db

    abbrev pub weigh : ReviewItem → Claim → Option (List Claim × List Claim) → Db → Ended
    weigh r c none db = (db, none)
    weigh r c (some (supportive, conflicting)) db =
        hold_debate r c (choose_trigger r c supportive conflicting) db

    abbrev pub with_verdict : ReviewItem → Claim → Option String → Db → Ended
    with_verdict r c (some v) db =
        on_verdict o.publishes r c (some v) (append "existing_debate_verdict=" v) db
    with_verdict r c none db = weigh r c (o.find_claim_relations c db.claims) db

    abbrev pub with_claim : ReviewItem → Option Claim → Db → Ended
    with_claim r none db =
        (save_review (release_review_item (some "claim_not_found") r) db, some manual_result)
    with_claim r (some c) db = with_verdict r c (o.latest_automated_verdict c.id) db

    -- The body of the `try` in `_process_review_item`.
    unfoldable pub try_review_item : ReviewItem → Db → Ended
    try_review_item r db = with_claim r (claim_of r.claim_id db) db

    unfoldable pub process_review_item : String → Db → Db × Result
    process_review_item i db = elim (review_of i db) [
      | none ↦ (db, empty_result)
      | some r ↦
          if is_pending_item r then or_released i (try_review_item r db) else (db, empty_result)
    ]

    abbrev pub add_results : Result → Result → Result
    add_results a b = record {
      debated_items = a.debated_items + b.debated_items;
      auto_accepted = a.auto_accepted + b.auto_accepted;
      auto_rejected = a.auto_rejected + b.auto_rejected;
      manual_queue = a.manual_queue + b.manual_queue;
    }

    unfoldable pub process_items : List String → Db → Db × Result
    process_items [] db = (db, empty_result)
    process_items (i ∷ ids) db =
        let p = process_review_item i db in
        let rest = process_items ids p.0 in (rest.0, add_results p.1 rest.1)

    -- `run_once`: the tables, the number of items taken and the totals.
    unfoldable pub run_once : ℕ → Db → Db × ℕ × Result
    run_once now db =
        let c = claim_rows (review_queue cfg) (λ _. true) 20 now worker_id db.reviews in
        let p = process_items (map (λ (r : ReviewItem). r.id) c.0) (record db { reviews = c.1 }) in
        (p.0, length c.0, p.1)
