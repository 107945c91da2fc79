-- ===== src/StreamWorker/Tests.antt =====
-- The stream loop on a bus with two events.
use ming_jian.Base.{
  ◌+◌, ◌≡◌, refl, [], ◌∷◌, none, arith, length, take, keep_if, inl, if◌then◌else◌, ◌==◌, ◌++◌,
}
use ming_jian.Base.Dict.{lookup}
use ming_jian.EventBus.{
  Payload, ConsumedEvent, InMemoryEventBus, new_bus, build_event_envelope, events_of, append_event,
  publish, ack, consume, is_open,
}
use ming_jian.EventBus.Delivery.{
  IsNumbered, published, publish_opens, ack_closes, other_id, consume_exact, open_events,
}
use ming_jian.StreamWorker.{World, StreamSettings}
use ming_jian.StreamWorker.Ids.{IsFine, In, total, opened}
use ming_jian.StreamWorker.Batch.{
  Mark, dead_mark, open_mark, handled, failures_left, handled_accounts,
}
use ming_jian.StreamWorker.Drain.{failed_rounds, poison_drained}

abbrev plain : Payload
plain = record { worker_attempts = none; attempts = none; attempt = none; body = "x" }

abbrev bus : InMemoryEventBus
bus = publish "raw.ingested" plain (publish "raw.ingested" plain new_bus)

abbrev world : World
world = record { bus = bus; dead_letters = [] }

abbrev cfg : StreamSettings
cfg = record {
  stream_consumer_count = 10;
  backpressure_pending_threshold = 1000;
  worker_max_attempts = 3;
}

bus-IsFine : IsFine "raw.ingested" bus
unfolding publish append_event events_of lookup
bus-IsFine = record {
  numbered = record { acks_old = λ g n h. refl };
  ids = (omega arith, refl, (omega arith, refl, tt));
}

poison_drained_example :
    (opened "w" "raw.ingested" (failed_rounds "w" "raw.ingested" (λ n. "full") cfg 6 world).bus
      ≡ [])
    × ((g : Mark)
        → total
            (dead_mark g)
            (failed_rounds "w" "raw.ingested" (λ n. "full") cfg 6 world).dead_letters
          ≡ total (dead_mark g) world.dead_letters
            + total (open_mark g "w") (opened "w" "raw.ingested" bus))
unfolding publish append_event events_of lookup
poison_drained_example =
    poison_drained "w" "raw.ingested" (λ n. "full") cfg 6 world bus-IsFine (refl, (refl, tt))
      (omega arith) (omega arith)

bus-IsNumbered : IsNumbered bus
bus-IsNumbered = bus-IsFine.numbered

publish_opens_example :
    let b' = publish "raw.ingested" plain bus in
    keep_if (is_open "w" b') (events_of "raw.ingested" b'.events) ≡ (
      if "raw.ingested" == "raw.ingested"
      then keep_if (is_open "w" bus) (events_of "raw.ingested" bus.events)
        ++ published "raw.ingested" plain bus ∷ []
      else keep_if (is_open "w" bus) (events_of "raw.ingested" bus.events))
publish_opens_example = publish_opens "raw.ingested" "raw.ingested" "w" plain bus bus-IsNumbered

ack_closes_example :
    let b' = ack "w" 1 bus in
    keep_if (is_open "w" b') (events_of "raw.ingested" b'.events) ≡ (
      if "w" == "w"
      then keep_if (other_id 1) (keep_if (is_open "w" bus) (events_of "raw.ingested" bus.events))
      else keep_if (is_open "w" bus) (events_of "raw.ingested" bus.events))
ack_closes_example = ack_closes "w" "w" "raw.ingested" 1 bus

consume_exact_example :
    consume ("raw.ingested" ∷ []) "w" 1 bus ≡ take 1 (open_events ("raw.ingested" ∷ []) "w" bus)
consume_exact_example = consume_exact ("raw.ingested" ∷ []) "w" 1 bus

abbrev first_event : ConsumedEvent
first_event = published "raw.ingested" plain new_bus

first_open : In first_event (opened "w" "raw.ingested" bus)
unfolding publish append_event events_of lookup build_event_envelope
first_open = inl refl

handled_accounts_example :
    let w' = handled "w" "raw.ingested" 3 first_event world in
    (length w'.dead_letters + total (λ x. 1) (opened "w" "raw.ingested" w'.bus)
      ≡ length world.dead_letters + total (λ x. 1) (opened "w" "raw.ingested" bus))
    × (total (failures_left 3) (opened "w" "raw.ingested" w'.bus) + 1
        ≡ total (failures_left 3) (opened "w" "raw.ingested" bus))
handled_accounts_example =
    handled_accounts "w" "raw.ingested" 3 first_event world refl bus-IsFine first_open
