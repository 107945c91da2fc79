-- ===== src/StreamWorker/Drain.antt =====
-- A worker that always fails: every event is retried until its attempts run out, and in the end the
-- topic has no open event and the dead letters have grown by exactly these.
use mathlib.Core.List.{append-nil}
use ming_jian.Base.{
  ℕ, zero, suc, ◌+◌, ◌≤◌, String, ◌≡◌, refl, ap, ◌∙◌, Bool, true, false, List, [], ◌∷◌, ◌++◌, arith,
  ◌==◌, any_of, keep_if, length, take, All, inl, inr, Bool-cases, leb, max, ◌⊎◌,
}
use ming_jian.EventBus.{
  ConsumedEvent, InMemoryEventBus, Payload, events_of, publish, is_open, consume,
  refresh_backpressure, set_backpressure_signal, dead_letter_topic, publish_dead_letter,
}
use ming_jian.EventBus.Delivery.{consume_exact, events_of-append_event, published, events-ack}
use ming_jian.StreamWorker.{
  World, StreamSettings, attempts_of, retry_or_dead_letter, retry_all, settle, stream_round,
  retry_payload, dead_payload,
}
use ming_jian.StreamWorker.Ids.{total, In, IdsFine, keep-IdsFine, IsFine, opened, has_id}
use ming_jian.StreamWorker.Batch.{
  Mark, dead_mark, open_mark, handled, handled-IsFine, handled_accounts, handled_keeps,
  failures_left, kept_open,
}

any-take :
    (p : ConsumedEvent → Bool) (n : ℕ) (es : List ConsumedEvent)
    → any_of p es ≡ false
    → any_of p (take n es) ≡ false
any-take p zero es h = refl
any-take p (suc n) [] h = refl
any-take p (suc n) (e ∷ es) h = ground (arith, any-take p n es)

settle_failed :
    (cfg : StreamSettings) (worker : String) (es : List ConsumedEvent) (w : World)
    → settle cfg worker false es w ≡ retry_all cfg.worker_max_attempts worker es w
unfolding retry_all
settle_failed cfg worker [] w = refl
settle_failed cfg worker (e ∷ es) w = refl

no_weight :
    (max_attempts : ℕ) (es : List ConsumedEvent)
    → total (failures_left max_attempts) es ≤ 0
    → es ≡ []
no_weight max_attempts [] h = refl
no_weight max_attempts (e ∷ es) h = absurd (omega (arith, h))

-- A round on open events takes at least one of them.
progress :
    (max_attempts count : ℕ) (es : List ConsumedEvent)
    → 1 ≤ count
    → (total (failures_left max_attempts) es ≤ 0) ⊎ (1 ≤ length (take count es))
progress max_attempts count [] c = inl (omega arith)
progress max_attempts zero (e ∷ es) c = absurd (omega arith)
progress max_attempts (suc count) (e ∷ es) c = inr (omega arith)

module _ (worker t : String) where
  -- A batch of open events of the topic.
  abbrev AllIn : World → List ConsumedEvent → Type 0
  AllIn w es = All (λ e. In e (opened worker t w.bus)) es

  abbrev pub OnTopic : List ConsumedEvent → Type 0
  OnTopic es = All (λ e. (e.topic == t) ≡ true) es

  rest_open :
      (max_attempts : ℕ) (e : ConsumedEvent) (es : List ConsumedEvent) (w : World)
      → IsFine t w.bus
      → any_of (has_id e.message_id) es ≡ false
      → AllIn w es
      → AllIn (handled worker t max_attempts e w) es
  rest_open max_attempts e [] w v h all = tt
  rest_open max_attempts e (x ∷ es) w v h all = (
    kept_open worker t max_attempts e w x v all.0 (ground arith),
    rest_open max_attempts e es w v (ground arith) all.1,
  )

  -- What a failed batch leaves: the same events, open or dead, however they are counted by topic,
  -- group and text, and one failure less for each.
  pub record Accounts (max_attempts n : ℕ) (w w' : World) : Type 0 where
    pub fine : IsFine t w'.bus
    pub kept :
        (g : Mark)
        → total (dead_mark g) w'.dead_letters + total (open_mark g worker) (opened worker t w'.bus)
          ≡ total (dead_mark g) w.dead_letters + total (open_mark g worker) (opened worker t w.bus)
    pub used :
        total (failures_left max_attempts) (opened worker t w'.bus) + n
        ≡ total (failures_left max_attempts) (opened worker t w.bus)

  -- The events of a failed batch of open events are all accounted for.
  pub retry_all-Accounts :
      (max_attempts top : ℕ) (es : List ConsumedEvent) (w : World)
      → IsFine t w.bus
      → IdsFine top es
      → OnTopic es
      → AllIn w es
      → Accounts max_attempts (length es) w (retry_all max_attempts worker es w)
  unfolding retry_all
  retry_all-Accounts max_attempts top [] w v ids topics all = record {
    fine = v;
    kept = λ g. refl;
    used = omega arith;
  }
  retry_all-Accounts max_attempts top (e ∷ es) w v ids topics all =
      let w1 = handled worker t max_attempts e w in
      let a = handled_accounts worker t max_attempts e w topics.0 v all.0 in
      let r =
        retry_all-Accounts max_attempts top es w1 (handled-IsFine worker t max_attempts e w v all.0)
          ids.2 topics.1 (rest_open max_attempts e es w v ids.1 all.1) in
      record {
        fine = r.fine;
        kept = λ g. r.kept g ∙ handled_keeps worker t max_attempts e w g topics.0 v all.0;
        used = omega (arith, a, r.used);
      }

  ends-OnTopic :
      (es : List ConsumedEvent) (e : ConsumedEvent)
      → OnTopic es
      → (e.topic == t) ≡ true
      → OnTopic (es ++ e ∷ [])
  ends-OnTopic [] e h k = (k, tt)
  ends-OnTopic (x ∷ es) e h k = (h.0, ends-OnTopic es e h.1 k)

  keep-OnTopic :
      (q : ConsumedEvent → Bool) (es : List ConsumedEvent) → OnTopic es → OnTopic (keep_if q es)
  keep-OnTopic q [] h = tt
  keep-OnTopic q (e ∷ es) h = ground (arith, h.0, keep-OnTopic q es h.1)

  take-OnTopic : (n : ℕ) (es : List ConsumedEvent) → OnTopic es → OnTopic (take n es)
  take-OnTopic zero es h = tt
  take-OnTopic (suc n) [] h = tt
  take-OnTopic (suc n) (e ∷ es) h = (h.0, take-OnTopic n es h.1)

  publish-OnTopic :
      (topic : String) (p : Payload) (b : InMemoryEventBus)
      → OnTopic (events_of t b.events)
      → OnTopic (events_of t (publish topic p b).events)
  unfolding publish
  publish-OnTopic topic p b h =
      rw (events_of-append_event topic t (published topic p b) b.events)
        (elim (Bool-cases (topic == t)) [
          | inl k ↦ rw k (ends-OnTopic (events_of t b.events) (published topic p b) h k)
          | inr k ↦ rw k h
        ])

  handled-OnTopic :
      (max_attempts : ℕ) (e : ConsumedEvent) (w : World)
      → OnTopic (events_of t w.bus.events)
      → OnTopic (events_of t (handled worker t max_attempts e w).bus.events)
  unfolding retry_or_dead_letter publish_dead_letter
  handled-OnTopic max_attempts e w h =
      let n = attempts_of e.payload in
      elim (Bool-cases (leb (n + 1) (max 1 max_attempts))) [
        | inl k ↦
            rw
              (
                k,
                events-ack worker e.message_id
                    (publish e.topic (retry_payload (n + 1) e.payload) w.bus),
              )
              (publish-OnTopic e.topic (retry_payload (n + 1) e.payload) w.bus h)
        | inr k ↦
            rw
              (
                k,
                events-ack worker e.message_id
                    (publish (dead_letter_topic e.topic) (dead_payload n e.payload) w.bus),
              )
              (publish-OnTopic (dead_letter_topic e.topic) (dead_payload n e.payload) w.bus h)
      ]

  retry_all-OnTopic :
      (max_attempts : ℕ) (es : List ConsumedEvent) (w : World)
      → OnTopic (events_of t w.bus.events)
      → OnTopic (events_of t (retry_all max_attempts worker es w).bus.events)
  unfolding retry_all
  retry_all-OnTopic max_attempts [] w h = h
  retry_all-OnTopic max_attempts (e ∷ es) w h =
      retry_all-OnTopic max_attempts es (handled worker t max_attempts e w)
        (handled-OnTopic max_attempts e w h)

  take-IdsFine : (top n : ℕ) (es : List ConsumedEvent) → IdsFine top es → IdsFine top (take n es)
  take-IdsFine top zero es h = tt
  take-IdsFine top (suc n) [] h = tt
  take-IdsFine top (suc n) (e ∷ es) h =
      (h.0, any-take (has_id e.message_id) n es h.1, take-IdsFine top n es h.2)

  weaken-In :
      (x : ConsumedEvent) (l es : List ConsumedEvent)
      → All (λ e. In e l) es
      → All (λ e. In e (x ∷ l)) es
  weaken-In x l [] h = tt
  weaken-In x l (e ∷ es) h = (inr h.0, weaken-In x l es h.1)

  take-In : (n : ℕ) (es : List ConsumedEvent) → All (λ e. In e es) (take n es)
  take-In zero es = tt
  take-In (suc n) [] = tt
  take-In (suc n) (e ∷ es) = (inl refl, weaken-In e es (take n es) (take-In n es))

  module _ (reason : ℕ → String) (cfg : StreamSettings) where
    -- A round whose run raises.
    abbrev pub failed_round : World → World
    failed_round w = stream_round reason cfg worker (t ∷ []) false w

    abbrev pub failed_rounds : ℕ → World → World
    failed_rounds zero w = w
    failed_rounds (suc n) w = failed_rounds n (failed_round w)

    -- The round on the batch that it consumes.
    failed_round_lem :
        (w : World)
        → let b =
            (refresh_backpressure reason
              (t ∷ [])
              worker
              cfg.backpressure_pending_threshold
              w.bus).0 in
          failed_round w
          ≡ retry_all cfg.worker_max_attempts worker
              (take cfg.stream_consumer_count (opened worker t w.bus))
              (record w { bus = b })
    unfolding stream_round refresh_backpressure set_backpressure_signal
    failed_round_lem w =
        let b =
          (refresh_backpressure reason (t ∷ []) worker cfg.backpressure_pending_threshold
            w.bus).0 in
        settle_failed cfg worker (consume (t ∷ []) worker cfg.stream_consumer_count b)
          (record w { bus = b })
        ∙ ap (λ es. retry_all cfg.worker_max_attempts worker es (record w { bus = b }))
            (consume_exact (t ∷ []) worker cfg.stream_consumer_count b
              ∙ ap (take cfg.stream_consumer_count) (append-nil (opened worker t w.bus)))

    round-Accounts :
        (w : World)
        → IsFine t w.bus
        → OnTopic (events_of t w.bus.events)
        → Accounts cfg.worker_max_attempts
            (length (take cfg.stream_consumer_count (opened worker t w.bus)))
            w
            (failed_round w)
          × OnTopic (events_of t (failed_round w).bus.events)
    unfolding refresh_backpressure set_backpressure_signal
    round-Accounts w v topics =
        let b =
          (refresh_backpressure reason (t ∷ []) worker cfg.backpressure_pending_threshold
            w.bus).0 in
        let es = take cfg.stream_consumer_count (opened worker t w.bus) in
        let v' : IsFine t b = record {
          numbered = record { acks_old = v.numbered.acks_old };
          ids = v.ids;
        } in
        let fine =
          keep-IdsFine w.bus.counter (is_open worker w.bus) (events_of t w.bus.events) v.ids in
        let on = keep-OnTopic (is_open worker w.bus) (events_of t w.bus.events) topics in
        let r =
          retry_all-Accounts cfg.worker_max_attempts w.bus.counter es (record w { bus = b }) v'
            (take-IdsFine w.bus.counter cfg.stream_consumer_count (opened worker t w.bus) fine)
            (take-OnTopic cfg.stream_consumer_count (opened worker t w.bus) on)
            (take-In cfg.stream_consumer_count (opened worker t w.bus)) in
        rw (failed_round_lem w) (
          record { fine = r.fine; kept = r.kept; used = r.used },
          retry_all-OnTopic cfg.worker_max_attempts es (record w { bus = b }) topics,
        )

    -- For a worker that reads one topic, on a bus whose message ids are in order and whose events of
    -- the topic are filed under it, if every run raises and a round takes at least one event, then
    -- after as many rounds as the topic's open events have failures left, or more, none of them is
    -- open for the group, and the dead letters have grown by exactly the events that were open, one
    -- each under its topic, the group and its text: this holds for every way to count by these.
    pub poison_drained :
        (n : ℕ) (w : World)
        → IsFine t w.bus
        → OnTopic (events_of t w.bus.events)
        → 1 ≤ cfg.stream_consumer_count
        → total (failures_left cfg.worker_max_attempts) (opened worker t w.bus) ≤ n
        → (opened worker t (failed_rounds n w).bus ≡ [])
          × ((g : Mark)
              → total (dead_mark g) (failed_rounds n w).dead_letters
                ≡ total (dead_mark g) w.dead_letters
                  + total (open_mark g worker) (opened worker t w.bus))
    poison_drained zero w v topics c h =
        let none_open =
          no_weight cfg.worker_max_attempts (opened worker t w.bus) (omega (arith, h)) in
        (none_open, λ g. rw none_open (omega arith))
    poison_drained (suc n) w v topics c h =
        let (a, topics') = round-Accounts w v topics in
        let ih = poison_drained n (failed_round w) a.fine topics' c (
          omega (
            arith,
            a.used,
            h,
            progress cfg.worker_max_attempts cfg.stream_consumer_count (opened worker t w.bus) c,
          )) in
        (ih.0, λ g. ih.1 g ∙ a.kept g)
