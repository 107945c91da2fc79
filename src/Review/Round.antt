-- ===== src/Review/Round.antt =====
-- A round of `ReviewWorker.run_once` (src/planagent/workers/review.py) over the items it has taken.
use ming_jian.Base.{
  ℕ, ◌+◌, String, ◌≡◌, refl, ◌∙◌, Bool, true, false, List, [], ◌∷◌, some, arith, ◌==◌, length, All,
}
use ming_jian.Schema.{ReviewItemStatus, ReviewItem, Db, Settings}
use ming_jian.Review.{review_of, Debates, Result, process_review_item, process_items}
use ming_jian.Review.Settling.{Counts}
use ming_jian.Review.Outcome.{process-Settled}

-- The items are there and pending.
abbrev pub IsPending : Db → String → Type 0
IsPending db i =
    (r : ReviewItem) × (review_of i db ≡ some r) × (r.status ≡ ReviewItemStatus.pending)

-- No id twice.
abbrev pub AreDistinct : List String → Type 0
AreDistinct [] = Unit
AreDistinct (i ∷ ids) = All (λ j. (i == j) ≡ false) ids × AreDistinct ids

abbrev pub handled : Result → ℕ
handled res = res.auto_accepted + res.auto_rejected + res.manual_queue

handled_one :
    (told : Bool) (s : ReviewItemStatus) (res : Result) → Counts told s res → handled res ≡ 1
handled_one told ReviewItemStatus.pending res (a, b, c) = omega arith
handled_one true ReviewItemStatus.accepted res (a, b, c) = omega arith
handled_one false ReviewItemStatus.accepted res (a, b, c) = omega arith
handled_one told ReviewItemStatus.rejected res (a, b, c) = omega arith

still-IsPending :
    (db db' : Db) (i : String) (ids : List String)
    → ((j : String) → (i == j) ≡ false → review_of j db' ≡ review_of j db)
    → All (λ j. (i == j) ≡ false) ids
    → All (IsPending db) ids
    → All (IsPending db') ids
still-IsPending db db' i [] same ne p = tt
still-IsPending db db' i (j ∷ ids) same ne p =
    ((p.0.0, same j ne.0 ∙ p.0.1, p.0.2), still-IsPending db db' i ids same ne.1 p.1)

-- A round over distinct pending items handles each exactly once: the accepted, the rejected and
-- the items left to the manual queue together number the items.
process_items-total :
    (cfg : Settings) (o : Debates) (ids : List String) (db : Db)
    → AreDistinct ids
    → All (IsPending db) ids
    → handled (process_items cfg o ids db).1 ≡ length ids
unfolding process_items
process_items-total cfg o [] db ds ps = refl
process_items-total cfg o (i ∷ ids) db ds ps =
    let s = process-Settled cfg o i db ps.0.0 ps.0.1 ps.0.2 in
    let p = process_review_item cfg o i db in
    omega (
      arith,
      handled_one (o.publishes s.item.claim_id) s.item.status p.1 s.counted,
      process_items-total cfg o ids p.0 ds.1 (still-IsPending db p.0 i ids s.others ds.0 ps.1),
    )
