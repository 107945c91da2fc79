-- ===== src/StreamWorker/Batch.antt =====
-- One failed event of a batch: nothing is lost, and each failure uses up one attempt.
use ming_jian.Base.{
  ℕ, ◌+◌, ◌-◌, max, String, ◌≡◌, refl, ap, false, true, [], ◌∷◌, arith, ◌==◌, eq_iff, eqb, leb,
  length, length-append, Bool-cases, inl, inr,
}
use mathlib.Core.Path.{subst}
use ming_jian.EventBus.{
  Payload, ConsumedEvent, InMemoryEventBus, build_event_envelope, events_of, publish, is_open,
  dead_letter_topic, publish_dead_letter,
}
use ming_jian.EventBus.Delivery.{published}
use ming_jian.StreamWorker.{
  DeadLetterEvent, World, attempts_of, retry_payload, dead_payload, retry_or_dead_letter,
}
use ming_jian.StreamWorker.Ids.{
  total, total-append, In, In-top, opened, keep-IdsFine, publish-IsFine, ack-IsFine,
  dead_letter_topic-ne, total_after, In-after, IsFine,
}

-- How many failures an event has left, the one that dead-letters it included.
abbrev pub failures_left : ℕ → ConsumedEvent → ℕ
failures_left max_attempts e = max 1 (max 1 max_attempts + 1 - attempts_of e.payload)

abbrev dead_row : String → ConsumedEvent → DeadLetterEvent
dead_row worker e = record {
  topic = e.topic;
  group_name = worker;
  message_id = e.message_id;
  payload = e.payload;
}

publish_counter :
    (topic : String) (p : Payload) (b : InMemoryEventBus)
    → (publish topic p b).counter ≡ b.counter + 1
unfolding publish
publish_counter topic p b = refl

envelope_attempts : (p : Payload) → (build_event_envelope p).worker_attempts ≡ p.worker_attempts
unfolding build_event_envelope
envelope_attempts p = ground arith

envelope_body : (p : Payload) → (build_event_envelope p).body ≡ p.body
unfolding build_event_envelope
envelope_body p = ground arith

-- A way to count by topic, group and text, for dead letters and for a group's open events.
abbrev pub Mark : Type 0
Mark = String → String → String → ℕ

abbrev pub dead_mark : Mark → DeadLetterEvent → ℕ
dead_mark g d = g d.topic d.group_name d.payload.body

abbrev pub open_mark : Mark → String → ConsumedEvent → ℕ
open_mark g worker e = g e.topic worker e.payload.body

module _ (worker t : String) (max_attempts : ℕ) (e : ConsumedEvent) (w : World) where
  abbrev pub handled : World
  handled = retry_or_dead_letter max_attempts worker e w

  pub handled-IsFine : IsFine t w.bus → In e (opened worker t w.bus) → IsFine t handled.bus
  unfolding retry_or_dead_letter publish_dead_letter
  handled-IsFine v i =
      let fine =
        keep-IdsFine w.bus.counter (is_open worker w.bus) (events_of t w.bus.events) v.ids in
      let old = In-top w.bus.counter e (opened worker t w.bus) i fine in
      let n = attempts_of e.payload in
      let again = publish e.topic (retry_payload (n + 1) e.payload) w.bus in
      let dead = publish (dead_letter_topic e.topic) (dead_payload n e.payload) w.bus in
      elim (Bool-cases (leb (n + 1) (max 1 max_attempts))) [
        | inl k ↦ rw k (
            ack-IsFine t worker e.message_id again
              (omega (arith, old, publish_counter e.topic (retry_payload (n + 1) e.payload) w.bus))
              (publish-IsFine e.topic t (retry_payload (n + 1) e.payload) w.bus v))
        | inr k ↦ rw k (
            ack-IsFine t worker e.message_id dead
              (omega (
                arith,
                old,
                publish_counter (dead_letter_topic e.topic) (dead_payload n e.payload) w.bus,
              ))
              (publish-IsFine (dead_letter_topic e.topic) t (dead_payload n e.payload) w.bus v))
      ]

  -- A failed event is acknowledged, and comes back with one attempt more or becomes a dead letter:
  -- no event is lost, and the failures left go down by one.
  pub handled_accounts :
      (e.topic == t) ≡ true
      → IsFine t w.bus
      → In e (opened worker t w.bus)
      → (length handled.dead_letters + total (λ x. 1) (opened worker t handled.bus)
          ≡ length w.dead_letters + total (λ x. 1) (opened worker t w.bus))
        × (total (failures_left max_attempts) (opened worker t handled.bus) + 1
            ≡ total (failures_left max_attempts) (opened worker t w.bus))
  unfolding retry_or_dead_letter publish_dead_letter
  handled_accounts topic v i =
      let n = attempts_of e.payload in
      let left = failures_left max_attempts in
      let again = retry_payload (n + 1) e.payload in
      let dead = dead_payload n e.payload in
      let d = dead_letter_topic e.topic in
      let other : (d == t) ≡ false =
        subst (λ (u : String). (d == u) ≡ false) ((eq_iff e.topic t).0 topic)
          (dead_letter_topic-ne e.topic) in
      elim (Bool-cases (leb (n + 1) (max 1 max_attempts))) [
        | inl k ↦ rw k (
            ground (
              arith,
              topic,
              k,
              total_after worker t (λ x. 1) e.topic again e w.bus v i,
              total_after worker t left e.topic again e w.bus v i,
              envelope_attempts again,
            ))
        | inr k ↦ rw k (
            ground (
              arith,
              other,
              k,
              total_after worker t (λ x. 1) d dead e w.bus v i,
              total_after worker t left d dead e w.bus v i,
              length-append w.dead_letters (dead_row worker e ∷ []),
            ))
      ]

  -- However it is counted by topic, group and text, a failed event is open still or a dead letter.
  pub handled_keeps :
      (g : Mark)
      → (e.topic == t) ≡ true
      → IsFine t w.bus
      → In e (opened worker t w.bus)
      → total (dead_mark g) handled.dead_letters
          + total (open_mark g worker) (opened worker t handled.bus)
        ≡ total (dead_mark g) w.dead_letters + total (open_mark g worker) (opened worker t w.bus)
  unfolding retry_or_dead_letter publish_dead_letter
  handled_keeps g topic v i =
      let n = attempts_of e.payload in
      let again = retry_payload (n + 1) e.payload in
      let dead = dead_payload n e.payload in
      let d = dead_letter_topic e.topic in
      let other : (d == t) ≡ false =
        subst (λ (u : String). (d == u) ≡ false) ((eq_iff e.topic t).0 topic)
          (dead_letter_topic-ne e.topic) in
      elim (Bool-cases (leb (n + 1) (max 1 max_attempts))) [
        | inl k ↦
            let same : open_mark g worker (published e.topic again w.bus) ≡ open_mark g worker e =
              ap (g e.topic worker) (envelope_body again) in
            rw k (
              ground (
                arith,
                topic,
                k,
                same,
                total_after worker t (open_mark g worker) e.topic again e w.bus v i,
              ))
        | inr k ↦ rw k (
            ground (
              arith,
              other,
              k,
              total_after worker t (open_mark g worker) d dead e w.bus v i,
              total-append (dead_mark g) w.dead_letters (dead_row worker e ∷ []),
            ))
      ]

  -- Another open event stays open.
  pub kept_open :
      (x : ConsumedEvent)
      → IsFine t w.bus
      → In x (opened worker t w.bus)
      → eqb x.message_id e.message_id ≡ false
      → In x (opened worker t handled.bus)
  unfolding retry_or_dead_letter publish_dead_letter
  kept_open x v i h =
      let n = attempts_of e.payload in
      let differ : eqb e.message_id x.message_id ≡ false = ground (arith, h) in
      elim (Bool-cases (leb (n + 1) (max 1 max_attempts))) [
        | inl k ↦ rw k (
            In-after worker t e.topic (retry_payload (n + 1) e.payload) e.message_id x w.bus
              v.numbered i differ)
        | inr k ↦ rw k (
            In-after worker t (dead_letter_topic e.topic) (dead_payload n e.payload) e.message_id x
              w.bus v.numbered i differ)
      ]
