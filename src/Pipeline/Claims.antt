-- ===== src/Pipeline/Claims.antt =====
-- The claims that a materialisation makes (Pipeline/Knowledge): each candidate becomes one claim,
-- counted once, and the review queue holds one item for each claim in the review band.
use mathlib.Core.List.{append-nil, append_assoc}
use ming_jian.Base.{
  ℕ, String, ◌+◌, ◌≡◌, refl, sym, ap, ◌∙◌, Bool, true, false, List, [], ◌∷◌, ◌++◌, map, arith, leb,
  if◌then◌else◌, keep_if, All, length, Bool-cases, inl, inr,
}
use ming_jian.Base.Table.{count_rows}
use ming_jian.Schema.{
  ClaimStatus, ReviewItemStatus, RawSourceItem, Claim, ReviewItem, Settings, Outside,
}
use ming_jian.Pipeline.Knowledge.{
  Work, create_claim, create_claims, new_claim, new_review, insert_claim,
}

-- The band of a confidence.
abbrev pub band : Settings → ℕ → ClaimStatus
band cfg c =
    if leb cfg.accepted_claim_confidence c
    then ClaimStatus.accepted
    else if leb cfg.review_claim_confidence_floor c
    then ClaimStatus.pending_review
    else ClaimStatus.archived

abbrev in_review_band : Settings → ℕ → Bool
in_review_band cfg c =
    if leb cfg.accepted_claim_confidence c then false else leb cfg.review_claim_confidence_floor c

-- The claims, one for each candidate in order: of the item, with the candidate's confidence and the
-- status of its band, and marked for review in the review band only.
abbrev pub Made : Settings → String → List ℕ → List Claim → Type 0
Made cfg raw [] [] = Unit
Made cfg raw [] (n ∷ ns) = true ≡ false
Made cfg raw (c ∷ cs) [] = true ≡ false
Made cfg raw (c ∷ cs) (n ∷ ns) =
    ((n.raw_id ≡ raw)
      × (n.confidence ≡ c)
      × (n.status ≡ band cfg c)
      × (n.requires_review ≡ in_review_band cfg c))
    × Made cfg raw cs ns

-- The ids of the claims that wait for a review.
abbrev pub for_review : List Claim → List String
for_review ns = map (λ (n : Claim). n.id) (keep_if (λ (n : Claim). n.requires_review) ns)

-- What a list of candidates adds to the tables and to the run's counters: the claims, and a pending
-- review item for each of them that waits for a review, in the same order.
pub record Adds (cfg : Settings) (raw : String) (cs : List ℕ) (w w' : Work) : Type 0 where
  pub new : List Claim
  pub queued : List ReviewItem
  pub claims : w'.db.claims ≡ w.db.claims ++ new
  pub reviews : w'.db.reviews ≡ w.db.reviews ++ queued
  pub made : Made cfg raw cs new
  pub named : map (λ (v : ReviewItem). v.claim_id) queued ≡ for_review new
  pub waiting : All (λ (v : ReviewItem). v.status ≡ ReviewItemStatus.pending) queued
  pub accepted_count :
      w'.summary.accepted_claims
      ≡ w.summary.accepted_claims + count_rows (leb cfg.accepted_claim_confidence) cs
  pub review_count :
      w'.summary.review_claims ≡ w.summary.review_claims + count_rows (in_review_band cfg) cs
  pub total_count :
      w'.summary.accepted_claims + w'.summary.review_claims + w'.summary.archived_claims
      ≡ w.summary.accepted_claims + w.summary.review_claims + w.summary.archived_claims + length cs

Made-append :
    (cfg : Settings) (raw : String) (cs : List ℕ) (ns : List Claim) (ds : List ℕ) (ms : List Claim)
    → Made cfg raw cs ns
    → Made cfg raw ds ms
    → Made cfg raw (cs ++ ds) (ns ++ ms)
Made-append cfg raw [] [] ds ms a b = b
Made-append cfg raw [] (n ∷ ns) ds ms a b = cc
Made-append cfg raw (c ∷ cs) [] ds ms a b = cc
Made-append cfg raw (c ∷ cs) (n ∷ ns) ds ms a b = (a.0, Made-append cfg raw cs ns ds ms a.1 b)

for_review-append : (ns ms : List Claim) → for_review (ns ++ ms) ≡ for_review ns ++ for_review ms
for_review-append [] ms = refl
for_review-append (n ∷ ns) ms = elim (Bool-cases n.requires_review) [
  | inl e ↦ rw e (ap (λ l. n.id ∷ l) (for_review-append ns ms))
  | inr e ↦ rw e (for_review-append ns ms)
]

named-append :
    (vs us : List ReviewItem)
    → map (λ (v : ReviewItem). v.claim_id) (vs ++ us)
      ≡ map (λ (v : ReviewItem). v.claim_id) vs ++ map (λ (v : ReviewItem). v.claim_id) us
named-append [] us = refl
named-append (v ∷ vs) us = ap (λ l. v.claim_id ∷ l) (named-append vs us)

waiting-append :
    (vs us : List ReviewItem)
    → All (λ (v : ReviewItem). v.status ≡ ReviewItemStatus.pending) vs
    → All (λ (v : ReviewItem). v.status ≡ ReviewItemStatus.pending) us
    → All (λ (v : ReviewItem). v.status ≡ ReviewItemStatus.pending) (vs ++ us)
waiting-append [] us a b = b
waiting-append (v ∷ vs) us a b = (a.0, waiting-append vs us a.1 b)

module _ (o : Outside) (cfg : Settings) where
  create_claim-Adds :
      (raw : RawSourceItem) (c : ℕ) (w : Work)
      → Adds cfg raw.id (c ∷ []) w (create_claim o cfg raw c w)
  unfolding create_claim
  create_claim-Adds raw c w = elim (Bool-cases (leb cfg.accepted_claim_confidence c)) [
    | inl e ↦ rw e (record {
      new = new_claim o raw c ClaimStatus.accepted false w.db ∷ [];
      queued = [];
      claims = refl;
      reviews = sym (append-nil w.db.reviews);
      made = ((refl, refl, rw e refl, rw e refl), tt);
      named = refl;
      waiting = tt;
      accepted_count = ground (arith, e);
      review_count = ground (arith, e);
      total_count = omega arith;
    })
    | inr e ↦ elim (Bool-cases (leb cfg.review_claim_confidence_floor c)) [
      | inl e' ↦
          let n = new_claim o raw c ClaimStatus.pending_review true w.db in
          rw (e, e')
            (record {
              new = n ∷ [];
              queued = new_review o n.id (insert_claim n w.db) ∷ [];
              claims = refl;
              reviews = refl;
              made = ((refl, refl, rw (e, e') refl, rw (e, e') refl), tt);
              named = refl;
              waiting = (refl, tt);
              accepted_count = ground (arith, e, e');
              review_count = ground (arith, e, e');
              total_count = omega arith;
            })
      | inr e' ↦
          rw (e, e')
            (record {
              new = new_claim o raw c ClaimStatus.archived false w.db ∷ [];
              queued = [];
              claims = refl;
              reviews = sym (append-nil w.db.reviews);
              made = ((refl, refl, rw (e, e') refl, rw (e, e') refl), tt);
              named = refl;
              waiting = tt;
              accepted_count = ground (arith, e, e');
              review_count = ground (arith, e, e');
              total_count = omega arith;
            })
    ]
  ]

  Adds-trans :
      (raw : String) (c : ℕ) (cs : List ℕ) (w w1 w2 : Work)
      → Adds cfg raw (c ∷ []) w w1
      → Adds cfg raw cs w1 w2
      → Adds cfg raw (c ∷ cs) w w2
  Adds-trans raw c cs w w1 w2 a b = record {
    new = a.new ++ b.new;
    queued = a.queued ++ b.queued;
    claims = b.claims ∙ ap (λ l. l ++ b.new) a.claims ∙ append_assoc w.db.claims a.new b.new;
    reviews =
        b.reviews ∙ ap (λ l. l ++ b.queued) a.reviews ∙ append_assoc w.db.reviews a.queued b.queued;
    made = Made-append cfg raw (c ∷ []) a.new cs b.new a.made b.made;
    named =
        named-append a.queued b.queued
        ∙ cc (a.named, b.named)
        ∙ sym (for_review-append a.new b.new);
    waiting = waiting-append a.queued b.queued a.waiting b.waiting;
    accepted_count = ground (arith, a.accepted_count, b.accepted_count);
    review_count = ground (arith, a.review_count, b.review_count);
    total_count = ground (arith, a.total_count, b.total_count);
  }

  -- Each candidate becomes one new claim of the item, in order, with the candidate's confidence and
  -- the status of its band; each of these claims in the review band, and no other, gets one review
  -- item, which names it and is pending; and the run's counters grow by the numbers of candidates in
  -- the bands. The rows that were there before stay as they are.
  pub create_claims-Adds :
      (raw : RawSourceItem) (cs : List ℕ) (w : Work)
      → Adds cfg raw.id cs w (create_claims o cfg raw cs w)
  unfolding create_claims
  create_claims-Adds raw [] w = record {
    new = [];
    queued = [];
    claims = sym (append-nil w.db.claims);
    reviews = sym (append-nil w.db.reviews);
    made = tt;
    named = refl;
    waiting = tt;
    accepted_count = omega arith;
    review_count = omega arith;
    total_count = omega arith;
  }
  create_claims-Adds raw (c ∷ cs) w =
      let w1 = create_claim o cfg raw c w in
      Adds-trans raw.id c cs w w1 (create_claims o cfg raw cs w1) (create_claim-Adds raw c w)
        (create_claims-Adds raw cs w1)
