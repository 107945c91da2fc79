-- ===== src/EventBus/Delivery.antt =====
-- Delivery by the in-memory bus: what is consumed, and what an acknowledgement changes.
use ming_jian.Base.{
  ℕ, zero, suc, ◌+◌, ◌≤◌, ◌<◌, String, ◌≡◌, refl, sym, ap, ◌∙◌, Bool, false, true, not, ◌&&◌, List,
  [], ◌∷◌, ◌++◌, arith, ◌==◌, eq_iff, eqb, ltb, if◌then◌else◌, any_of, keep_if, length,
  length-append, take, Bool-cases, inl, inr,
}
use mathlib.Core.Path.{ap₂, fun_ext}
use mathlib.Core.List.{append-nil, append_assoc}
use ming_jian.Base.Dict.{Dict}
use ming_jian.EventBus.{
  Payload, ConsumedEvent, InMemoryEventBus, build_event_envelope, events_of, append_event, publish,
  is_ack, is_open, collect, consume_from, consume, ack, pending_count,
}

-- The events that a group has not acknowledged, topic by topic.
abbrev pub open_events : List String → String → InMemoryEventBus → List ConsumedEvent
open_events [] group b = []
open_events (topic ∷ topics) group b =
    keep_if (is_open group b) (events_of topic b.events) ++ open_events topics group b

-- Filling a list up to `count`.
abbrev fill : ℕ → List ConsumedEvent → List ConsumedEvent → List ConsumedEvent
fill count results [] = results
fill count results (e ∷ es) =
    fill count (if ltb (length results) count then results ++ e ∷ [] else results) es

collect-fill :
    (group : String) (count : ℕ) (b : InMemoryEventBus) (es results : List ConsumedEvent)
    → collect group count b es results ≡ fill count results (keep_if (is_open group b) es)
unfolding collect
collect-fill group count b [] results = refl
collect-fill group count b (e ∷ es) results = elim (Bool-cases (is_open group b e)) [
  | inl yes' ↦ rw yes' (collect-fill group count b es _)
  | inr no' ↦ rw no' (collect-fill group count b es results)
]

fill-append :
    (count : ℕ) (results xs ys : List ConsumedEvent)
    → fill count results (xs ++ ys) ≡ fill count (fill count results xs) ys
fill-append count results [] ys = refl
fill-append count results (x ∷ xs) ys =
    fill-append count (if ltb (length results) count then results ++ x ∷ [] else results) xs ys

consume_from-fill :
    (topics : List String) (group : String) (count : ℕ) (b : InMemoryEventBus)
    (results : List ConsumedEvent)
    → consume_from topics group count b results ≡ fill count results (open_events topics group b)
unfolding consume_from
consume_from-fill [] group count b results = refl
consume_from-fill (topic ∷ topics) group count b results =
    let opened = keep_if (is_open group b) (events_of topic b.events) in
    rw collect-fill (
      consume_from-fill topics group count b (fill count results opened)
      ∙ sym (fill-append count results opened (open_events topics group b)))

fill-take :
    (count k : ℕ) (results es : List ConsumedEvent)
    → length results + k ≡ count
    → fill count results es ≡ results ++ take k es
fill-take count zero results [] h = sym (append-nil results)
fill-take count (suc k) results [] h = sym (append-nil results)
fill-take count zero results (e ∷ es) h =
    let full : ltb (length results) count ≡ false = ground (arith, h) in
    rw full (fill-take count zero results es h)
fill-take count (suc k) results (e ∷ es) h =
    let room : ltb (length results) count ≡ true = ground (arith, h) in
    rw room (
      fill-take count k (results ++ e ∷ []) es (omega (arith, h, length-append results (e ∷ [])))
      ∙ append_assoc results (e ∷ []) (take k es))

-- A group consumes the first `count` of its open events, topic by topic in the order asked for and
-- in the order of publication within a topic.
pub consume_exact :
    (topics : List String) (group : String) (count : ℕ) (b : InMemoryEventBus)
    → consume topics group count b ≡ take count (open_events topics group b)
unfolding consume
consume_exact topics group count b =
    consume_from-fill topics group count b []
    ∙ fill-take count count [] (open_events topics group b) (omega arith)

-- Backpressure counts the events that could be consumed.
pub pending_count-open_events :
    (topics : List String) (group : String) (b : InMemoryEventBus)
    → pending_count topics group b ≡ length (open_events topics group b)
unfolding pending_count
pending_count-open_events [] group b = refl
pending_count-open_events (topic ∷ topics) group b = omega (
  arith,
  pending_count-open_events topics group b,
  length-append (keep_if (is_open group b) (events_of topic b.events)) (open_events topics group b),
)

pub events_of-append_event :
    (topic j : String) (e : ConsumedEvent) (d : Dict (List ConsumedEvent))
    → events_of j (append_event topic e d)
      ≡ (if topic == j then events_of j d ++ e ∷ [] else events_of j d)
unfolding events_of append_event
events_of-append_event topic j e [] = ground (arith, eq_iff topic j)
events_of-append_event topic j e ((i, es) ∷ d) =
    ground (arith, events_of-append_event topic j e d, eq_iff i topic, eq_iff i j, eq_iff topic j)

-- Message ids in use are at most the counter.
pub record IsNumbered (b : InMemoryEventBus) : Type 0 where
  pub acks_old : (g : String) (n : ℕ) → b.counter < n → any_of (is_ack g n) b.acked ≡ false

pub publish-IsNumbered :
    (topic : String) (p : Payload) (b : InMemoryEventBus)
    → IsNumbered b
    → IsNumbered (publish topic p b)
unfolding publish
publish-IsNumbered topic p b v = record { acks_old = λ g n h. v.acks_old g n (omega arith) }

pub ack-IsNumbered :
    (group : String) (n : ℕ) (b : InMemoryEventBus)
    → IsNumbered b
    → n ≤ b.counter
    → IsNumbered (ack group n b)
unfolding ack
ack-IsNumbered group n b v h = record {
  acks_old = λ g m k. ground (arith, v.acks_old g m, eq_iff group g);
}

pub keep-append :
    (p : ConsumedEvent → Bool) (xs : List ConsumedEvent) (e : ConsumedEvent)
    → keep_if p (xs ++ e ∷ []) ≡ (if p e then keep_if p xs ++ e ∷ [] else keep_if p xs)
keep-append p [] e = ground arith
keep-append p (x ∷ xs) e = ground (arith, keep-append p xs e)

-- The event that `publish` makes.
abbrev pub published : String → Payload → InMemoryEventBus → ConsumedEvent
published topic p b = record {
  topic = topic;
  message_id = b.counter + 1;
  payload = build_event_envelope p;
}

-- A published event joins the open events of its topic, at the end and for every group, and no
-- other topic's.
pub publish_opens :
    (topic j group : String) (p : Payload) (b : InMemoryEventBus)
    → IsNumbered b
    → let b' = publish topic p b in
      keep_if (is_open group b') (events_of j b'.events) ≡ (
        if topic == j
        then keep_if (is_open group b) (events_of j b.events) ++ published topic p b ∷ []
        else keep_if (is_open group b) (events_of j b.events))
unfolding publish
publish_opens topic j group p b v =
    let e = published topic p b in
    let fresh = v.acks_old group (b.counter + 1) (omega arith) in
    rw (events_of-append_event topic j e b.events)
      (ground (arith, fresh, keep-append (is_open group b) (events_of j b.events) e))

abbrev pub other_id : ℕ → ConsumedEvent → Bool
other_id n e = not (eqb n e.message_id)

same_ack :
    (l : List (String × ℕ)) {g h : String} {n m : ℕ}
    → g ≡ h
    → n ≡ m
    → any_of (is_ack g n) l ≡ any_of (is_ack h m) l
same_ack l p q = ap₂ (λ g n. any_of (is_ack g n) l) p q

ack_test :
    (group g : String) (n : ℕ) (b : InMemoryEventBus) (e : ConsumedEvent)
    → is_open g (ack group n b) e
      ≡ (if group == g then other_id n e && is_open g b e else is_open g b e)
unfolding ack
ack_test group g n b e = elim (Bool-cases (group == g)) [
  | inr differ ↦ rw differ (ground (arith, differ))
  | inl same ↦
      let p = (eq_iff group g).0 same in
      rw same (elim (Bool-cases (eqb n e.message_id)) [
        | inl hit ↦
            let q : n ≡ e.message_id = ground (arith, hit) in
            ground (arith, same, hit, same_ack b.acked p q)
        | inr miss ↦ ground (arith, same, miss)
      ])
]

keep_and :
    (p q : ConsumedEvent → Bool) (es : List ConsumedEvent)
    → keep_if (λ e. p e && q e) es ≡ keep_if p (keep_if q es)
keep_and p q [] = refl
keep_and p q (e ∷ es) = ground (arith, keep_and p q es)

pub events-ack : (group : String) (n : ℕ) (b : InMemoryEventBus) → (ack group n b).events ≡ b.events
unfolding ack
events-ack group n b = ground arith

keep_ack :
    (group g : String) (n : ℕ) (b : InMemoryEventBus) (es : List ConsumedEvent)
    → keep_if (is_open g (ack group n b)) es ≡ (
        if group == g
        then keep_if (other_id n) (keep_if (is_open g b) es)
        else keep_if (is_open g b) es)
keep_ack group g n b es = elim (Bool-cases (group == g)) [
  | inl same ↦ rw same (
      ap (λ p. keep_if p es)
        (fun_ext {f = is_open g (ack group n b)} {g = λ e. other_id n e && is_open g b e}
          (λ e. ack_test group g n b e ∙ rw same))
      ∙ keep_and (other_id n) (is_open g b) es)
  | inr differ ↦ rw differ (
      ap (λ p. keep_if p es)
        (fun_ext {f = is_open g (ack group n b)} {g = is_open g b}
          (λ e. ack_test group g n b e ∙ rw differ)))
]

-- An acknowledgement takes exactly the events of its id from the group's open events, and changes
-- nothing for another group.
pub ack_closes :
    (group g topic : String) (n : ℕ) (b : InMemoryEventBus)
    → let b' = ack group n b in
      keep_if (is_open g b') (events_of topic b'.events) ≡ (
        if group == g
        then keep_if (other_id n) (keep_if (is_open g b) (events_of topic b.events))
        else keep_if (is_open g b) (events_of topic b.events))
ack_closes group g topic n b =
    rw (events-ack group n b) (keep_ack group g n b (events_of topic b.events))
