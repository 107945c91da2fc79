-- ===== src/Review/Tests.antt =====
-- The review worker on two items, and examples of its theorems.
use mathlib.Core.Logic.{◌≢◌}
use ming_jian.Base.{
  ℕ, String, ◌≡◌, refl, true, false, List, [], ◌∷◌, none, some, arith, ◌==◌, if◌then◌else◌,
}
use ming_jian.Schema.{ClaimStatus, ReviewItemStatus, Claim, ReviewItem, Db, Settings}
use ming_jian.Review.{
  Debates, TriggerType, process_review_item, try_review_item, choose_trigger, on_verdict,
  resolve_or_release_conditional, accept_review_item,
}
use ming_jian.Review.Settling.{Settled, IsDecided}
use ming_jian.Review.Outcome.{process-Settled, last_attempt_decides}

abbrev cfg : Settings
cfg = record {
  worker_lease_seconds = 60;
  worker_max_attempts = 3;
  accepted_claim_confidence = 700;
  review_claim_confidence_floor = 450;
  review_auto_process_confidence = 620;
  review_conditional_accept_confidence = 575;
}

-- The debate on claim "c1" ends in a conditional verdict, on "c2" it raises.
abbrev debates : Debates
debates = record {
  latest_automated_verdict = λ i. none;
  find_claim_relations = λ c cs. some ([], []);
  decide = λ c t. if c.id == "c1" then some (some "CONDITIONAL") else none;
  note = λ c t v. "note";
  publishes = λ c. false;
}

abbrev item : String → String → ℕ → ReviewItem
item i c n = record {
  id = i;
  claim_id = c;
  status = ReviewItemStatus.pending;
  lease_owner = some "review-worker";
  lease_expires_at = some 60;
  processing_attempts = n;
  last_error = none;
  reviewer_id = none;
}

abbrev claim : String → ℕ → Claim
claim i n = record {
  id = i;
  raw_id = "raw";
  confidence = n;
  status = ClaimStatus.pending_review;
  requires_review = true;
}

abbrev db : Db
db = record {
  runs = [];
  raws = [];
  normalized = [];
  claims = claim "c1" 600 ∷ claim "c2" 650 ∷ [];
  reviews = item "r1" "c1" 3 ∷ item "r2" "c2" 1 ∷ [];
  events = [];
  made = 4;
}

abbrev ids : List String
ids = "r1" ∷ "r2" ∷ []

-- A conditional verdict at the last attempt is settled by the claim's confidence. The bus does not
-- take the event: the accepted item counts for the manual queue.
last_run : (process_review_item cfg debates "r1" db).1.manual_queue ≡ 1
unfolding process_review_item try_review_item choose_trigger on_verdict
    resolve_or_release_conditional accept_review_item
last_run = refl

process-Settled_example :
    Settled debates.publishes "r2" db (process_review_item cfg debates "r2" db)
process-Settled_example = process-Settled cfg debates "r2" db (item "r2" "c2" 1) refl refl

not_none : (t : TriggerType) → debates.decide (claim "c1" 600) t ≢ none
not_none t = λ e. cc

relations_found : debates.find_claim_relations (claim "c1" 600) db.claims ≢ none
relations_found = λ e. cc

last_attempt_decides_example : IsDecided "r1" (process_review_item cfg debates "r1" db).0
last_attempt_decides_example =
    last_attempt_decides cfg debates "r1" db (item "r1" "c1" 3) (claim "c1" 600) refl refl refl
      (omega arith) relations_found not_none
