-- ===== src/EventBus.antt =====
-- `InMemoryEventBus` of src/planagent/events/bus.py. A message id "mem-n" stands by its number n,
-- and an acknowledgement "group:mem-n" by the pair: the texts determine them. Of an event's
-- payload the model keeps what the workers read: the attempt counters, and the rest as one text.
pub mod Delivery
use Prim.Native.String.{◌++◌ as append}
use ming_jian.Base.{
  ℕ, suc, ◌+◌, max, String, Bool, false, true, not, ◌&&◌, List, [], ◌∷◌, ◌++◌, Option, none, some,
  ◌==◌, eqb, ltb, if◌then◌else◌, any_of, keep_if, length, is_some, ◌||◌,
}
use ming_jian.Base.Dict.{Dict, lookup}

-- `_worker["attempts"]`, the fields "attempts" and "attempt", and everything else.
pub record Payload : Type 0 where
  pub worker_attempts : Option ℕ
  pub attempts : Option ℕ
  pub attempt : Option ℕ
  pub body : String

pub record ConsumedEvent : Type 0 where
  pub topic : String
  pub message_id : ℕ
  pub payload : Payload

-- The first of the candidates that is there, and at least one; the last candidate is 1.
abbrev pub resolve_attempt : Payload → ℕ
resolve_attempt p = elim p.worker_attempts [
  | some n ↦ max 1 n
  | none ↦ elim p.attempts [ some n ↦ max 1 n | none ↦ 1 ]
]

-- `build_event_envelope` with no explicit attempt, on the counters.
unfoldable pub build_event_envelope : Payload → Payload
build_event_envelope p =
    if is_some p.worker_attempts || is_some p.attempts
    then record p { attempt = some (resolve_attempt p) }
    else record p { attempt = elim p.attempt [ some n ↦ some n | none ↦ some (resolve_attempt p) ] }

pub record InMemoryEventBus : Type 0 where
  pub events : Dict (List ConsumedEvent)
  pub acked : List (String × ℕ)
  pub counter : ℕ
  pub backpressure_active : Bool
  pub backpressure_reason : Option String

abbrev pub new_bus : InMemoryEventBus
new_bus = record {
  events = [];
  acked = [];
  counter = 0;
  backpressure_active = false;
  backpressure_reason = none;
}

-- `self._events.get(topic, [])`
abbrev pub or_empty : Option (List ConsumedEvent) → List ConsumedEvent
or_empty none = []
or_empty (some es) = es

unfoldable pub events_of : String → Dict (List ConsumedEvent) → List ConsumedEvent
unfolding lookup
events_of topic d = or_empty (lookup topic d)

-- `self._events.setdefault(topic, []).append(event)`
unfoldable pub append_event :
    String → ConsumedEvent → Dict (List ConsumedEvent) → Dict (List ConsumedEvent)
append_event topic e [] = (topic, e ∷ []) ∷ []
append_event topic e ((j, es) ∷ d) =
    if j == topic then (j, es ++ e ∷ []) ∷ d else (j, es) ∷ append_event topic e d

unfoldable pub publish : String → Payload → InMemoryEventBus → InMemoryEventBus
unfolding build_event_envelope
publish topic p b =
    let e : ConsumedEvent = record {
      topic = topic;
      message_id = b.counter + 1;
      payload = build_event_envelope p;
    } in
    record b { counter = b.counter + 1; events = append_event topic e b.events }

abbrev pub is_ack : String → ℕ → String × ℕ → Bool
is_ack group n (g, m) = (g == group) && eqb m n

-- `f"{group}:{event.message_id}" not in self._acked`
abbrev pub is_open : String → InMemoryEventBus → ConsumedEvent → Bool
is_open group b e = not (any_of (is_ack group e.message_id) b.acked)

-- The inner loop of `consume`, over the events of one topic.
unfoldable pub collect :
    String → ℕ → InMemoryEventBus → List ConsumedEvent → List ConsumedEvent → List ConsumedEvent
collect group count b [] results = results
collect group count b (e ∷ es) results =
    collect group count b es
      (if is_open group b e && ltb (length results) count then results ++ e ∷ [] else results)

unfoldable pub consume_from :
    List String → String → ℕ → InMemoryEventBus → List ConsumedEvent → List ConsumedEvent
consume_from [] group count b results = results
consume_from (topic ∷ topics) group count b results =
    consume_from topics group count b (collect group count b (events_of topic b.events) results)

unfoldable pub consume : List String → String → ℕ → InMemoryEventBus → List ConsumedEvent
consume topics group count b = consume_from topics group count b []

-- `self._acked` is a set: an acknowledgement that is there is not added again.
unfoldable pub ack : String → ℕ → InMemoryEventBus → InMemoryEventBus
ack group n b =
    if any_of (is_ack group n) b.acked then b else record b { acked = (group, n) ∷ b.acked }

-- `f"{topic}.dlq"`
abbrev pub dead_letter_topic : String → String
dead_letter_topic topic = append topic ".dlq"

unfoldable pub publish_dead_letter : String → Payload → InMemoryEventBus → InMemoryEventBus
publish_dead_letter topic p b = publish (dead_letter_topic topic) p b

unfoldable pub pending_count : List String → String → InMemoryEventBus → ℕ
pending_count [] group b = 0
pending_count (topic ∷ topics) group b =
    length (keep_if (is_open group b) (events_of topic b.events)) + pending_count topics group b

unfoldable pub set_backpressure_signal : Bool → String → InMemoryEventBus → InMemoryEventBus
set_backpressure_signal active reason b = record b {
  backpressure_active = active;
  backpressure_reason = if active then some reason else none;
}

-- The reason's text is a function of the pending count, the threshold and the group.
unfoldable pub refresh_backpressure :
    (ℕ → String) → List String → String → ℕ → InMemoryEventBus → InMemoryEventBus × Bool × ℕ
refresh_backpressure reason topics group threshold b =
    let pending = pending_count topics group b in
    let active = ltb threshold pending in
    (set_backpressure_signal active (reason pending) b, active, pending)
