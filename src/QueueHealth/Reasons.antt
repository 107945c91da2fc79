-- ===== src/QueueHealth/Reasons.antt =====
-- The reason breakdown of src/planagent/services/runtime.py agrees with the review bucket, reason
-- by reason.
use ming_jian.Base.{
  ℕ, ◌+◌, String, ◌≡◌, refl, Bool, true, ◌&&◌, List, [], ◌∷◌, Option, none, some, arith, ◌==◌,
  eq_iff, if◌then◌else◌, keep_if, Bool-cases, inl, inr, ap,
}
use ming_jian.Base.Dict.{Dict, lookup}
use ming_jian.Base.Table.{count_rows}
use ming_jian.Schema.{ReviewItemStatus}
use ming_jian.QueueHealth.{
  ReviewKey, ReviewRow, ReasonCounts, no_counts, Groups, same_group, add_to_group, group_rows,
  add_count, count_in, count_groups, build_review_reason_breakdown, build_review_bucket,
  review_filters, review_pending, review_processing, review_reclaimable, is_resolved, same_status,
  same_owner, same_time,
}
use ming_jian.QueueHealth.Partition.{bit}

same_status_eq : (a b : ReviewItemStatus) → same_status a b ≡ true → a ≡ b
same_status_eq a b h = ground arith

same_owner_eq : (a b : Option String) → same_owner a b ≡ true → a ≡ b
same_owner_eq none none h = refl
same_owner_eq none (some b) h = cc
same_owner_eq (some a) none h = cc
same_owner_eq (some a) (some b) h = ap some ((eq_iff a b).0 h)

same_time_eq : (a b : Option ℕ) → same_time a b ≡ true → a ≡ b
same_time_eq none none h = refl
same_time_eq none (some b) h = cc
same_time_eq (some a) none h = cc
same_time_eq (some a) (some b) h = ap some (ground arith)

-- Rows in one group agree on every test.
same_group_eq : (P : ReviewKey → Bool) (a b : ReviewKey) → same_group a b ≡ true → P a ≡ P b
unfolding same_group
same_group_eq P a b h =
    let e0 : a.queue_reason ≡ b.queue_reason =
      (eq_iff a.queue_reason b.queue_reason).0 (ground arith) in
    let e1 : a.status ≡ b.status = same_status_eq a.status b.status (ground arith) in
    let e2 : a.lease_owner ≡ b.lease_owner =
      same_owner_eq a.lease_owner b.lease_owner (ground arith) in
    let e3 : a.lease_expires_at ≡ b.lease_expires_at =
      same_time_eq a.lease_expires_at b.lease_expires_at (ground arith) in
    ap P (λ i. record {
      queue_reason = e0 i;
      status = e1 i;
      lease_owner = e2 i;
      lease_expires_at = e3 i;
    })

-- The rows of the groups that pass a test.
weight : (ReviewKey → Bool) → Groups → ℕ
weight P [] = 0
weight P ((k, n) ∷ gs) = (if P k then n else 0) + weight P gs

weight-add_to_group :
    (P : ReviewKey → Bool) (k : ReviewKey) (gs : Groups)
    → weight P (add_to_group k gs) ≡ weight P gs + bit (P k)
unfolding weight add_to_group
weight-add_to_group P k [] = ground arith
weight-add_to_group P k ((j, n) ∷ gs) =
    ground (arith, same_group_eq P j k, weight-add_to_group P k gs)

weight-group_rows :
    (P : ReviewKey → Bool) (f : ReviewRow → Bool) (t : List ReviewRow) (gs : Groups)
    → weight P (group_rows f t gs) ≡ weight P gs + count_rows (λ r. f r && P r.key) t
unfolding group_rows
weight-group_rows P f [] gs = omega arith
weight-group_rows P f (r ∷ t) gs = ground (
  arith,
  weight-add_to_group P r.key gs,
  weight-group_rows P f t gs,
  weight-group_rows P f t (add_to_group r.key gs),
)

-- A reason's counters; the defaultdict's zeros if it is not there.
abbrev pub or_none : Option ReasonCounts → ReasonCounts
or_none none = no_counts
or_none (some c) = c

unfoldable pub counts_of : String → Dict ReasonCounts → ReasonCounts
unfolding lookup
counts_of x d = or_none (lookup x d)

counts_of-count_in :
    (now : ℕ) (x : String) (k : ReviewKey) (n : ℕ) (d : Dict ReasonCounts)
    → counts_of x (count_in now k n d)
      ≡ (if k.queue_reason == x then add_count now k n (counts_of x d) else counts_of x d)
unfolding counts_of lookup count_in
counts_of-count_in now x k n [] = ground arith
counts_of-count_in now x k n ((j, c) ∷ d) = ground (
  arith,
  counts_of-count_in now x k n d,
  eq_iff j k.queue_reason,
  eq_iff j x,
  eq_iff k.queue_reason x,
)

-- A counter that `add_count` increases for the groups that pass a test.
abbrev pub IsCounter : ℕ → (ReasonCounts → ℕ) → (ReviewKey → Bool) → Type 0
IsCounter now get P =
    (k : ReviewKey) (n : ℕ) (c : ReasonCounts)
    → get (add_count now k n c) ≡ get c + (if P k then n else 0)

module _ (now : ℕ) (get : ReasonCounts → ℕ) (P : ReviewKey → Bool) (c : IsCounter now get P) where
  counter-count_in :
      (x : String) (k : ReviewKey) (n : ℕ) (d : Dict ReasonCounts)
      → get (counts_of x (count_in now k n d))
        ≡ get (counts_of x d) + (if (k.queue_reason == x) && P k then n else 0)
  counter-count_in x k n d = elim (Bool-cases (k.queue_reason == x)) [
    | inl e ↦ rw (counts_of-count_in now x k n d) (ground (arith, c k n (counts_of x d)))
    | inr e ↦ rw (counts_of-count_in now x k n d) (ground arith)
  ]

  counter-count_groups :
      (x : String) (gs : Groups) (d : Dict ReasonCounts)
      → get (counts_of x (count_groups now gs d))
        ≡ get (counts_of x d) + weight (λ k. (k.queue_reason == x) && P k) gs
  unfolding count_groups weight
  counter-count_groups x [] d = omega arith
  counter-count_groups x ((k, n) ∷ gs) d =
      omega (arith, counter-count_groups x gs (count_in now k n d), counter-count_in x k n d)

  count_kept :
      (x : String) (f : ReviewRow → Bool) (t : List ReviewRow)
      → count_rows (λ r. f r && ((r.key.queue_reason == x) && P r.key)) t
        ≡ count_rows (λ r. f r && P r.key) (keep_if (λ r. r.key.queue_reason == x) t)
  count_kept x f [] = refl
  count_kept x f (r ∷ t) = ground (arith, count_kept x f t)

pending_IsCounter : (now : ℕ) → IsCounter now (λ c. c.pending) review_pending
unfolding add_count
pending_IsCounter now k n c = ground arith

processing_IsCounter : (now : ℕ) → IsCounter now (λ c. c.processing) (review_processing now)
unfolding add_count
processing_IsCounter now k n c = ground arith

completed_IsCounter : (now : ℕ) → IsCounter now (λ c. c.completed) (λ k. is_resolved k.status)
unfolding add_count
completed_IsCounter now k n c = ground arith

reclaimable_IsCounter : (now : ℕ) → IsCounter now (λ c. c.reclaimable) (review_reclaimable now)
unfolding add_count
reclaimable_IsCounter now k n c = ground arith

module _ (now : ℕ) (tenant preset : Option String) (x : String) (t : List ReviewRow) where
  abbrev pub rows_of_reason : List ReviewRow
  rows_of_reason = keep_if (λ r. r.key.queue_reason == x) t

  counter_lem :
      (get : ReasonCounts → ℕ) (P : ReviewKey → Bool)
      → IsCounter now get P
      → get no_counts ≡ 0
      → get (counts_of x (build_review_reason_breakdown now tenant preset t))
        ≡ count_rows (λ r. review_filters tenant preset r && P r.key) rows_of_reason
  unfolding build_review_reason_breakdown counts_of lookup weight
  counter_lem get P c z = omega (
    arith,
    counter-count_groups now get P c x (group_rows (review_filters tenant preset) t []) [],
    weight-group_rows (λ k. (k.queue_reason == x) && P k) (review_filters tenant preset) t [],
    count_kept now get P c x (review_filters tenant preset) t,
  )

  -- At any time and under any filter, the counters that the breakdown holds for a reason (zeros if
  -- it has no entry) are those of the review bucket over the review items of that reason.
  pub breakdown-bucket :
      (((counts_of x (build_review_reason_breakdown now tenant preset t)).pending
          ≡ (build_review_bucket now tenant preset rows_of_reason).pending)
        × ((counts_of x (build_review_reason_breakdown now tenant preset t)).processing
            ≡ (build_review_bucket now tenant preset rows_of_reason).processing))
      × (((counts_of x (build_review_reason_breakdown now tenant preset t)).completed
            ≡ (build_review_bucket now tenant preset rows_of_reason).completed)
          × ((counts_of x (build_review_reason_breakdown now tenant preset t)).reclaimable
              ≡ (build_review_bucket now tenant preset rows_of_reason).reclaimable))
  unfolding build_review_bucket
  breakdown-bucket = (
    (
      counter_lem (λ c. c.pending) review_pending (pending_IsCounter now) refl,
      counter_lem (λ c. c.processing) (review_processing now) (processing_IsCounter now) refl,
    ),
    (
      counter_lem (λ c. c.completed) (λ k. is_resolved k.status) (completed_IsCounter now) refl,
      counter_lem (λ c. c.reclaimable) (review_reclaimable now) (reclaimable_IsCounter now) refl,
    ),
  )
