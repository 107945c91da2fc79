-- ===== src/StreamWorker/Ids.antt =====
-- The ids of the events of a topic (src/planagent/events/bus.py): they stay apart when events are
-- published and acknowledged, and what a total over the open events becomes.
use Prim.Native.String.{len}
use text.Mathlib.TextPositions.{len-append}
use ming_jian.Base.{
  ℕ, ◌+◌, ◌≤◌, ◌<◌, String, ◌≡◌, refl, sym, ap, ◌∙◌, Bool, false, true, ◌⊎◌, List, [], ◌∷◌, ◌++◌,
  arith, ◌==◌, eq_iff, eqb, if◌then◌else◌, any_of, keep_if, Bool-cases, inl, inr,
}
use mathlib.Core.Path.{subst}
use ming_jian.EventBus.{
  Payload, ConsumedEvent, InMemoryEventBus, events_of, publish, is_open, ack, dead_letter_topic,
}
use ming_jian.EventBus.Delivery.{
  IsNumbered, publish-IsNumbered, ack-IsNumbered, published, publish_opens, ack_closes, other_id,
  events_of-append_event, keep-append, events-ack,
}

abbrev pub total {ℓ} : {A : Type ℓ} → (A → ℕ) → List A → ℕ
total f [] = 0
total f (x ∷ xs) = f x + total f xs

pub total-append {ℓ} :
    {A : Type ℓ} (f : A → ℕ) (xs ys : List A) → total f (xs ++ ys) ≡ total f xs + total f ys
total-append f [] ys = omega arith
total-append f (x ∷ xs) ys = omega (arith, total-append f xs ys)

abbrev pub has_id : ℕ → ConsumedEvent → Bool
has_id n e = eqb e.message_id n

-- No message id stands on two of the events, and none is above the counter.
abbrev pub IdsFine : ℕ → List ConsumedEvent → Type 0
IdsFine top [] = Unit
IdsFine top (e ∷ es) =
    (e.message_id ≤ top) × (any_of (has_id e.message_id) es ≡ false) × IdsFine top es

abbrev pub In : ConsumedEvent → List ConsumedEvent → Type 0
In e [] = ⊥
In e (x ∷ xs) = (x ≡ e) ⊎ In e xs

keep_absent :
    (n : ℕ) (es : List ConsumedEvent) → any_of (has_id n) es ≡ false → keep_if (other_id n) es ≡ es
keep_absent n [] h = refl
keep_absent n (e ∷ es) h = ground (arith, keep_absent n es)

In-id :
    (n : ℕ) (e : ConsumedEvent) (es : List ConsumedEvent)
    → In e es
    → any_of (has_id n) es ≡ false
    → eqb e.message_id n ≡ false
In-id n e [] i h = absurd i
In-id n e (x ∷ es) (inl p) h = ground (arith, ap (λ y. y.message_id) p)
In-id n e (x ∷ es) (inr i) h = ground (arith, In-id n e es i)

pub In-top :
    (top : ℕ) (e : ConsumedEvent) (es : List ConsumedEvent)
    → In e es
    → IdsFine top es
    → e.message_id ≤ top
In-top top e [] i h = absurd i
In-top top e (x ∷ es) (inl p) h = ground (arith, h.0, ap (λ y. y.message_id) p)
In-top top e (x ∷ es) (inr i) h = In-top top e es i h.2

total-keep_here :
    (f : ConsumedEvent → ℕ) (e : ConsumedEvent) (es : List ConsumedEvent)
    → any_of (has_id e.message_id) es ≡ false
    → total f (keep_if (other_id e.message_id) (e ∷ es)) + f e ≡ f e + total f es
total-keep_here f e es h = ground (arith, keep_absent e.message_id es h)

-- Taking one event out takes its share of any total.
total-keep :
    (f : ConsumedEvent → ℕ) (top : ℕ) (e : ConsumedEvent) (es : List ConsumedEvent)
    → In e es
    → IdsFine top es
    → total f (keep_if (other_id e.message_id) es) + f e ≡ total f es
total-keep f top e [] i h = absurd i
total-keep f top e (x ∷ es) (inl p) h =
    subst
      (λ (y : ConsumedEvent).
        any_of (has_id y.message_id) es ≡ false
        → total f (keep_if (other_id e.message_id) (y ∷ es)) + f e ≡ f y + total f es)
      (sym p) (total-keep_here f e es) h.1
total-keep f top e (x ∷ es) (inr i) h =
    ground (arith, total-keep f top e es i h.2, In-id x.message_id e es i h.1)

-- A bus whose ids are in order, for the events of one topic.
pub record IsFine (topic : String) (b : InMemoryEventBus) : Type 0 where
  pub numbered : IsNumbered b
  pub ids : IdsFine b.counter (events_of topic b.events)

abbrev pub opened : String → String → InMemoryEventBus → List ConsumedEvent
opened group topic b = keep_if (is_open group b) (events_of topic b.events)

any-keep :
    (p q : ConsumedEvent → Bool) (es : List ConsumedEvent)
    → any_of p es ≡ false
    → any_of p (keep_if q es) ≡ false
any-keep p q [] h = refl
any-keep p q (e ∷ es) h = ground (arith, any-keep p q es)

pub keep-IdsFine :
    (top : ℕ) (q : ConsumedEvent → Bool) (es : List ConsumedEvent)
    → IdsFine top es
    → IdsFine top (keep_if q es)
keep-IdsFine top q [] h = tt
keep-IdsFine top q (e ∷ es) h =
    ground (arith, h, keep-IdsFine top q es h.2, any-keep (has_id e.message_id) q es h.1)

any-id_append :
    (n : ℕ) (es : List ConsumedEvent) (e : ConsumedEvent)
    → any_of (has_id n) es ≡ false
    → eqb e.message_id n ≡ false
    → any_of (has_id n) (es ++ e ∷ []) ≡ false
any-id_append n [] e h k = ground arith
any-id_append n (x ∷ es) e h k = ground (arith, any-id_append n es e)

above_absent :
    (top n : ℕ) (es : List ConsumedEvent) → IdsFine top es → top < n → any_of (has_id n) es ≡ false
above_absent top n [] h k = refl
above_absent top n (e ∷ es) h k = ground (arith, above_absent top n es h.2, h.0)

append-IdsFine :
    (top : ℕ) (es : List ConsumedEvent) (e : ConsumedEvent)
    → IdsFine top es
    → e.message_id ≡ top + 1
    → IdsFine (top + 1) (es ++ e ∷ [])
append-IdsFine top [] e h k = (omega arith, refl, tt)
append-IdsFine top (x ∷ es) e h k = (
  omega (arith, h.0),
  any-id_append x.message_id es e h.1 (ground (arith, h.0)),
  append-IdsFine top es e h.2 k,
)

raise-IdsFine : (top : ℕ) (es : List ConsumedEvent) → IdsFine top es → IdsFine (top + 1) es
raise-IdsFine top [] h = tt
raise-IdsFine top (e ∷ es) h = (omega (arith, h.0), h.1, raise-IdsFine top es h.2)

pub publish-IsFine :
    (t topic : String) (p : Payload) (b : InMemoryEventBus)
    → IsFine topic b
    → IsFine topic (publish t p b)
unfolding publish
publish-IsFine t topic p b v = record {
  numbered = publish-IsNumbered t p b v.numbered;
  ids =
      rw (events_of-append_event t topic (published t p b) b.events)
        (elim (Bool-cases (t == topic)) [
          | inl same ↦
              rw same
                (append-IdsFine b.counter (events_of topic b.events) (published t p b) v.ids refl)
          | inr differ ↦ rw differ (raise-IdsFine b.counter (events_of topic b.events) v.ids)
        ]);
}

ack_counter : (group : String) (n : ℕ) (b : InMemoryEventBus) → (ack group n b).counter ≡ b.counter
unfolding ack
ack_counter group n b = ground arith

pub ack-IsFine :
    (topic group : String) (n : ℕ) (b : InMemoryEventBus)
    → n ≤ b.counter
    → IsFine topic b
    → IsFine topic (ack group n b)
ack-IsFine topic group n b h v = record {
  numbered = ack-IsNumbered group n b v.numbered h;
  ids = rw (ack_counter group n b, events-ack group n b) v.ids;
}

-- A dead-letter topic is never the topic itself.
pub dead_letter_topic-ne : (t : String) → (dead_letter_topic t == t) ≡ false
dead_letter_topic-ne t = elim (Bool-cases (dead_letter_topic t == t)) [
  | inr differ ↦ differ
  | inl same ↦
      absurd (omega (arith, ap len ((eq_iff (dead_letter_topic t) t).0 same), len-append t ".dlq"))
]

module _ (worker t : String) where
  -- After a publication and the acknowledgement of an old event.
  opened_after :
      (topic : String) (p : Payload) (n : ℕ) (b : InMemoryEventBus)
      → IsNumbered b
      → opened worker t (ack worker n (publish topic p b))
        ≡ keep_if (other_id n) (
            if topic == t then opened worker t b ++ published topic p b ∷ [] else opened worker t b)
  opened_after topic p n b v =
      ack_closes worker worker t n (publish topic p b)
      ∙ rw ((eq_iff worker worker).1 refl)
          (ap (keep_if (other_id n)) (publish_opens topic t worker p b v))

  pub total_after :
      (f : ConsumedEvent → ℕ) (topic : String) (p : Payload) (e : ConsumedEvent)
      (b : InMemoryEventBus)
      → IsFine t b
      → In e (opened worker t b)
      → total f (opened worker t (ack worker e.message_id (publish topic p b))) + f e
        ≡ total f (opened worker t b) + (if topic == t then f (published topic p b) else 0)
  total_after f topic p e b v i =
      let fine = keep-IdsFine b.counter (is_open worker b) (events_of t b.events) v.ids in
      let old = In-top b.counter e (opened worker t b) i fine in
      let taken = total-keep f b.counter e (opened worker t b) i fine in
      let others = keep_if (other_id e.message_id) (opened worker t b) in
      rw (opened_after topic p e.message_id b v.numbered) (
        ground (
          arith,
          old,
          taken,
          keep-append (other_id e.message_id) (opened worker t b) (published topic p b),
          total-append f others (published topic p b ∷ []),
        ))

  In-keep :
      (q : ConsumedEvent → Bool) (e : ConsumedEvent) (es : List ConsumedEvent)
      → In e es
      → q e ≡ true
      → In e (keep_if q es)
  In-keep q e [] i h = i
  In-keep q e (x ∷ es) (inl p) h = rw (ap q p ∙ h) (inl p)
  In-keep q e (x ∷ es) (inr i) h = elim (Bool-cases (q x)) [
    | inl k ↦ rw k (inr (In-keep q e es i h))
    | inr k ↦ rw k (In-keep q e es i h)
  ]

  In-append : (e : ConsumedEvent) (xs ys : List ConsumedEvent) → In e xs → In e (xs ++ ys)
  In-append e [] ys i = absurd i
  In-append e (x ∷ xs) ys (inl p) = inl p
  In-append e (x ∷ xs) ys (inr i) = inr (In-append e xs ys i)

  -- Another open event stays open.
  pub In-after :
      (topic : String) (p : Payload) (n : ℕ) (e : ConsumedEvent) (b : InMemoryEventBus)
      → IsNumbered b
      → In e (opened worker t b)
      → eqb n e.message_id ≡ false
      → In e (opened worker t (ack worker n (publish topic p b)))
  In-after topic p n e b v i h = rw (opened_after topic p n b v) (
      In-keep (other_id n) e
        (if topic == t then opened worker t b ++ published topic p b ∷ [] else opened worker t b)
        (elim (Bool-cases (topic == t)) [
          | inl k ↦ rw k (In-append e (opened worker t b) (published topic p b ∷ []) i)
          | inr k ↦ rw k i
        ])
        (ground (arith, h)))
