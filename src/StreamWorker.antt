-- ===== src/StreamWorker.antt =====
-- The stream loop of src/planagent/worker_cli.py over the in-memory bus: a batch is consumed, the
-- worker runs once, and the batch is acknowledged or, if the run raised, each event is retried or
-- dead-lettered. Whether a run raises is an input. The dead-letter table accepts every row.
pub mod Ids
pub mod Batch
pub mod Drain
mod Tests
use ming_jian.Base.{
  ℕ, zero, suc, ◌+◌, max, String, Bool, true, false, List, [], ◌∷◌, ◌++◌, Option, none, some, leb,
  if◌then◌else◌,
}
use ming_jian.EventBus.{
  Payload, ConsumedEvent, InMemoryEventBus, publish, publish_dead_letter, ack, consume,
  refresh_backpressure,
}

pub record DeadLetterEvent : Type 0 where
  pub topic : String
  pub group_name : String
  pub message_id : ℕ
  pub payload : Payload

pub record World : Type 0 where
  pub bus : InMemoryEventBus
  pub dead_letters : List DeadLetterEvent

-- `int(metadata.get("attempts", 1) or 1)`
abbrev pub attempts_of : Payload → ℕ
attempts_of p = elim p.worker_attempts [ none ↦ 1 | some zero ↦ 1 | some (suc n) ↦ suc n ]

abbrev pub retry_payload : ℕ → Payload → Payload
retry_payload next p = record p { worker_attempts = some next; attempt = some next }

-- The payload that wraps a dead event; its text stands for the wrapped event.
abbrev pub dead_payload : ℕ → Payload → Payload
dead_payload n p = record {
  worker_attempts = none;
  attempts = some n;
  attempt = some n;
  body = p.body;
}

-- `_retry_or_dead_letter_event`
unfoldable pub retry_or_dead_letter : ℕ → String → ConsumedEvent → World → World
retry_or_dead_letter max_attempts worker e w =
    let n = attempts_of e.payload in
    if leb (n + 1) (max 1 max_attempts)
    then record w {
      bus = ack worker e.message_id (publish e.topic (retry_payload (n + 1) e.payload) w.bus);
    }
    else record {
      bus = ack worker e.message_id (publish_dead_letter e.topic (dead_payload n e.payload) w.bus);
      dead_letters =
          w.dead_letters
          ++ record {
            topic = e.topic;
            group_name = worker;
            message_id = e.message_id;
            payload = e.payload;
          }
            ∷ [];
    }

unfoldable pub retry_all : ℕ → String → List ConsumedEvent → World → World
retry_all max_attempts worker [] w = w
retry_all max_attempts worker (e ∷ es) w =
    retry_all max_attempts worker es (retry_or_dead_letter max_attempts worker e w)

-- `_ack_events`
unfoldable pub ack_events : String → List ConsumedEvent → InMemoryEventBus → InMemoryEventBus
ack_events worker [] b = b
ack_events worker (e ∷ es) b = ack_events worker es (ack worker e.message_id b)

-- `InMemoryEventBus.reclaim_pending`
abbrev pub reclaim_pending : List ConsumedEvent
reclaim_pending = []

abbrev pub or_consume : List ConsumedEvent → List ConsumedEvent → List ConsumedEvent
or_consume [] es = es
or_consume (e ∷ es) _ = e ∷ es

pub record StreamSettings : Type 0 where
  pub stream_consumer_count : ℕ
  pub backpressure_pending_threshold : ℕ
  pub worker_max_attempts : ℕ

abbrev pub settle : StreamSettings → String → Bool → List ConsumedEvent → World → World
settle cfg worker ran [] w = w
settle cfg worker true (e ∷ es) w = record w { bus = ack_events worker (e ∷ es) w.bus }
settle cfg worker false (e ∷ es) w = retry_all cfg.worker_max_attempts worker (e ∷ es) w

-- One round of `_run_stream_worker`; `ran` is false if `run_once` raised.
unfoldable pub stream_round :
    (ℕ → String) → StreamSettings → String → List String → Bool → World → World
stream_round reason cfg worker consumes ran w =
    let b =
      (refresh_backpressure reason consumes worker cfg.backpressure_pending_threshold w.bus).0 in
    let es = or_consume reclaim_pending (consume consumes worker cfg.stream_consumer_count b) in
    settle cfg worker ran es (record w { bus = b })
