-- ===== src/Review/Settling.antt =====
-- What `_process_review_item` of src/planagent/workers/review.py leaves behind, on every branch.
use ming_jian.Base.{
  String, ◌≡◌, refl, ap, ◌∙◌, ◌⊎◌, inl, inr, Bool, true, false, if◌then◌else◌, List, [], ◌∷◌,
  Option, none, some, arith, ◌==◌, eq_iff,
}
use ming_jian.Base.Table.{update_rows, find_row}
use ming_jian.Schema.{ClaimStatus, ReviewItemStatus, Claim, ReviewItem, EventTopic, Db}
use ming_jian.Pipeline.Ingest.{buffer_event}
use ming_jian.Review.{
  review_of, claim_of, save_review, save_claim, accept_review_item, reject_review_item, Result,
  manual_result, is_pending_item, or_released, release_review_item, then_result, decided,
  decided_claim,
}

module _ {Row : Type 0} (id_of : Row → String) where
  find_row-update_self :
      (i k : String) (r' : Row) (t : List Row) (r : Row)
      → find_row (λ s. id_of s == i) t ≡ some r
      → k ≡ i
      → id_of r' ≡ i
      → find_row (λ s. id_of s == i) (update_rows (λ s. id_of s == k) (λ _. r') t) ≡ some r'
  find_row-update_self i k r' [] r h e e' = cc
  find_row-update_self i k r' (s ∷ t) r h e e' = ground (
    arith,
    eq_iff (id_of r') i,
    eq_iff (id_of s) k,
    eq_iff (id_of s) i,
    find_row-update_self i k r' t r,
  )

  find_row-update_ne :
      (i j k : String) (r' : Row) (t : List Row)
      → k ≡ i
      → id_of r' ≡ i
      → (i == j) ≡ false
      → find_row (λ s. id_of s == j) (update_rows (λ s. id_of s == k) (λ _. r') t)
        ≡ find_row (λ s. id_of s == j) t
  find_row-update_ne i j k r' [] e e' ne = refl
  find_row-update_ne i j k r' (s ∷ t) e e' ne = ground (
    arith,
    eq_iff (id_of r') j,
    eq_iff i j,
    eq_iff (id_of s) k,
    eq_iff (id_of s) j,
    find_row-update_ne i j k r' t e e' ne,
  )

  pub find_row-id :
      (i : String) (t : List Row) (r : Row) → find_row (λ s. id_of s == i) t ≡ some r → id_of r ≡ i
  find_row-id i [] r h = cc
  find_row-id i (s ∷ t) r h = ground (arith, eq_iff (id_of s) i, find_row-id i t r)

-- The claim of an item after a decision: ACCEPTED or REJECTED as the item is, and not for review;
-- for an item that is still pending, all claims as they were.
abbrev pub ClaimFollows : ReviewItem → Db → Db → Type 0
ClaimFollows r db db' = elim r.status [
  | ReviewItemStatus.pending ↦ db'.claims ≡ db.claims
  | ReviewItemStatus.accepted ↦
      (c : Claim) × (claim_of r.claim_id db' ≡ some c)
      × (c.status ≡ ClaimStatus.accepted)
      × (c.requires_review ≡ false)
  | ReviewItemStatus.rejected ↦
      (c : Claim) × (claim_of r.claim_id db' ≡ some c)
      × (c.status ≡ ClaimStatus.rejected)
      × (c.requires_review ≡ false)
]

-- The result counts the item in the place of its status; an accepted one whose event the bus does
-- not take it counts for the manual queue.
abbrev pub Counts : Bool → ReviewItemStatus → Result → Type 0
Counts told ReviewItemStatus.pending res =
    (res.manual_queue ≡ 1) × (res.auto_accepted ≡ 0) × (res.auto_rejected ≡ 0)
Counts true ReviewItemStatus.accepted res =
    (res.manual_queue ≡ 0) × (res.auto_accepted ≡ 1) × (res.auto_rejected ≡ 0)
Counts false ReviewItemStatus.accepted res =
    (res.manual_queue ≡ 1) × (res.auto_accepted ≡ 0) × (res.auto_rejected ≡ 0)
Counts told ReviewItemStatus.rejected res =
    (res.manual_queue ≡ 0) × (res.auto_accepted ≡ 0) × (res.auto_rejected ≡ 1)

-- The item `i` after the worker has handled it.
pub record Settled (publishes : String → Bool) (i : String) (db : Db) (s : Db × Result)
    : Type 0 where
  pub item : ReviewItem
  pub found : review_of i s.0 ≡ some item
  pub unowned : item.lease_owner ≡ none
  pub free : item.lease_expires_at ≡ none
  pub claim : ClaimFollows item db s.0
  pub counted : Counts (publishes item.claim_id) item.status s.1
  pub others : (j : String) → (i == j) ≡ false → review_of j s.0 ≡ review_of j db

-- The item is there, accepted or rejected.
abbrev pub IsDecided : String → Db → Type 0
IsDecided i db =
    (item : ReviewItem) × (review_of i db ≡ some item)
    × ((item.status ≡ ReviewItemStatus.accepted) ⊎ (item.status ≡ ReviewItemStatus.rejected))

-- An item that is decided stays as it is when an exception follows.
stays :
    (i : String) (db : Db) (r : ReviewItem) (res : Result) (told : Bool)
    → review_of i db ≡ some r
    → is_pending_item r ≡ false
    → or_released i (then_result res (db, told)) ≡ (db, if told then res else manual_result)
stays i db r res true h d = refl
stays i db r res false h d = rw (h, d) refl

module _ (publishes : String → Bool) where
  module _ (i : String) (db : Db) (r : ReviewItem) (h : review_of i db ≡ some r) where
    saved : (r' : ReviewItem) → r'.id ≡ r.id → review_of i (save_review r' db) ≡ some r'
    saved r' e =
        find_row-update_self (λ (s : ReviewItem). s.id) i r'.id r' db.reviews r h
          (e ∙ find_row-id (λ (s : ReviewItem). s.id) i db.reviews r h)
          (e ∙ find_row-id (λ (s : ReviewItem). s.id) i db.reviews r h)

    saved_others :
        (r' : ReviewItem)
        → r'.id ≡ r.id
        → (j : String) → (i == j) ≡ false
        → review_of j (save_review r' db) ≡ review_of j db
    saved_others r' e j ne =
        find_row-update_ne (λ (s : ReviewItem). s.id) i j r'.id r' db.reviews
          (e ∙ find_row-id (λ (s : ReviewItem). s.id) i db.reviews r h)
          (e ∙ find_row-id (λ (s : ReviewItem). s.id) i db.reviews r h) ne

    pub release-Settled :
        (error : Option String)
        → r.status ≡ ReviewItemStatus.pending
        → Settled publishes i db (save_review (release_review_item error r) db, manual_result)
    release-Settled error p = record {
      item = release_review_item error r;
      found = saved (release_review_item error r) refl;
      unowned = refl;
      free = refl;
      claim = rw p refl;
      counted = rw p (refl, refl, refl);
      others = saved_others (release_review_item error r) refl;
    }

    module _ (c : Claim) (hc : claim_of r.claim_id db ≡ some c) where
      claim_saved :
          (c' : Claim) (d : Db)
          → c'.id ≡ c.id
          → d.claims ≡ db.claims
          → claim_of r.claim_id (save_claim c' d) ≡ some c'
      claim_saved c' d e k =
          let own : c.id ≡ r.claim_id =
            find_row-id (λ (s : Claim). s.id) r.claim_id db.claims c hc in
          find_row-update_self (λ (s : Claim). s.id) r.claim_id c'.id c' d.claims c (rw k hc)
            (e ∙ own) (e ∙ own)

      abbrev accepted_db : String → Db
      accepted_db reviewer = buffer_event EventTopic.evidence_created c.id (
          save_claim (decided_claim ClaimStatus.accepted c)
            (save_review (decided ReviewItemStatus.accepted reviewer r) db))

      abbrev rejected_db : String → Db
      rejected_db reviewer =
          save_claim (decided_claim ClaimStatus.rejected c)
            (save_review (decided ReviewItemStatus.rejected reviewer r) db)

      accept_done :
          (reviewer : String) (res : Result)
          → or_released i (then_result res (accept_review_item publishes reviewer i db))
            ≡ (accepted_db reviewer, if publishes r.claim_id then res else manual_result)
      unfolding accept_review_item
      accept_done reviewer res =
          let own : c.id ≡ r.claim_id =
            find_row-id (λ (s : Claim). s.id) r.claim_id db.claims c hc in
          rw (h, accept_review_item, hc)
            (stays i (accepted_db reviewer) (decided ReviewItemStatus.accepted reviewer r) res
                (publishes c.id) (saved (decided ReviewItemStatus.accepted reviewer r) refl) refl
              ∙ ap (λ j. (accepted_db reviewer, if publishes j then res else manual_result)) own)

      told_counts :
          (told : Bool) (res : Result)
          → Counts true ReviewItemStatus.accepted res
          → Counts told ReviewItemStatus.accepted (if told then res else manual_result)
      told_counts true res n = n
      told_counts false res n = (refl, refl, refl)

      pub accept-Settled :
          (reviewer : String) (res : Result)
          → Counts true ReviewItemStatus.accepted res
          → Settled publishes i db
              (or_released i (then_result res (accept_review_item publishes reviewer i db)))
      accept-Settled reviewer res n = rw (accept_done reviewer res) (record {
        item = decided ReviewItemStatus.accepted reviewer r;
        found = saved (decided ReviewItemStatus.accepted reviewer r) refl;
        unowned = refl;
        free = refl;
        claim = (
          decided_claim ClaimStatus.accepted c,
          claim_saved (decided_claim ClaimStatus.accepted c)
              (save_review (decided ReviewItemStatus.accepted reviewer r) db) refl refl,
          refl,
          refl,
        );
        counted = told_counts (publishes r.claim_id) res n;
        others = saved_others (decided ReviewItemStatus.accepted reviewer r) refl;
      })

      pub accept-IsDecided :
          (reviewer : String) (res : Result)
          → IsDecided i
              (or_released i (then_result res (accept_review_item publishes reviewer i db))).0
      accept-IsDecided reviewer res = rw (accept_done reviewer res) (
        decided ReviewItemStatus.accepted reviewer r,
        saved (decided ReviewItemStatus.accepted reviewer r) refl,
        inl refl,
      )

      reject_done :
          (reviewer : String) → reject_review_item reviewer i db ≡ (rejected_db reviewer, true)
      unfolding reject_review_item
      reject_done reviewer = rw (h, reject_review_item, hc) refl

      pub reject-Settled :
          (reviewer : String) (res : Result)
          → Counts true ReviewItemStatus.rejected res
          → Settled publishes i db
              (or_released i (then_result res (reject_review_item reviewer i db)))
      reject-Settled reviewer res n = rw (reject_done reviewer) (record {
        item = decided ReviewItemStatus.rejected reviewer r;
        found = saved (decided ReviewItemStatus.rejected reviewer r) refl;
        unowned = refl;
        free = refl;
        claim = (
          decided_claim ClaimStatus.rejected c,
          claim_saved (decided_claim ClaimStatus.rejected c)
              (save_review (decided ReviewItemStatus.rejected reviewer r) db) refl refl,
          refl,
          refl,
        );
        counted = n;
        others = saved_others (decided ReviewItemStatus.rejected reviewer r) refl;
      })

      pub reject-IsDecided :
          (reviewer : String) (res : Result)
          → IsDecided i (or_released i (then_result res (reject_review_item reviewer i db))).0
      reject-IsDecided reviewer res = rw (reject_done reviewer) (
        decided ReviewItemStatus.rejected reviewer r,
        saved (decided ReviewItemStatus.rejected reviewer r) refl,
        inr refl,
      )
