-- ===== src/StreamTopology.antt =====
-- The stream topology of src/planagent/events/topology.py: which worker reads and which writes each
-- topic, built from the descriptions of the workers (src/planagent/workers/base.py).
use Prim.Native.Char.{code}
use Prim.Native.String.{◌++◌ as append}
use ming_jian.Base.{
  String, Bool, true, false, List, [], ◌∷◌, ◌++◌, map, Option, none, some, ◌==◌, if◌then◌else◌, ltb,
  eqb, any_of,
}
use ming_jian.Base.Dict.{Dict, lookup, set_item}
pub mod Order
pub mod Validity
mod Tests

pub record WorkerDescription : Type 0 where
  worker_id : String
  summary : String
  consumes : List String
  produces : List String

pub record StreamTopologySpec : Type 0 where
  topic : String
  stream : String
  consumer_group : Option String
  consumer_groups : List String
  producers : List String
  consumers : List String
  dead_letter_stream : String
  backpressure_scope : String

unfoldable pub stream_name : String → String
stream_name topic = append "stream:" topic

unfoldable pub dead_letter_stream_name : String → String
dead_letter_stream_name topic = append "stream:" (append topic ".dlq")

-- The topics that are listed whatever the workers are.
abbrev pub listed_topics : List String
listed_topics =
    "raw.ingested" ∷ "evidence.created" ∷ "claim.review_requested" ∷ "knowledge.extracted"
    ∷ "evidence.updated" ∷ "simulation.completed" ∷ "scenario.completed" ∷ "report.generated"
    ∷ "verification.failed" ∷ "jarvis.repair_requested" ∷ []

-- `x in xs`
abbrev pub elem : String → List String → Bool
elem x xs = any_of (λ y. y == x) xs

-- `topics.update(xs)`, a set being a list without repeats.
unfoldable pub update_set : List String → List String → List String
update_set topics [] = topics
update_set topics (x ∷ xs) = update_set (if elem x topics then topics else x ∷ topics) xs

unfoldable pub all_topics : List WorkerDescription → List String → List String
unfolding update_set
all_topics [] topics = topics
all_topics (d ∷ ds) topics = all_topics ds (update_set (update_set topics d.consumes) d.produces)

-- `a < b` on texts: by code points.
unfoldable pub text_lt : String → String → Bool
text_lt s String.[] = false
text_lt String.[] (String.◌∷◌ d t) = true
text_lt (String.◌∷◌ c s) (String.◌∷◌ d t) =
    let rest = text_lt s t in
    if ltb (code c) (code d) then true else if eqb (code c) (code d) then rest else false

unfoldable pub insert_text : String → List String → List String
unfolding text_lt
insert_text x [] = x ∷ []
insert_text x (y ∷ ys) = if text_lt y x then y ∷ insert_text x ys else x ∷ y ∷ ys

-- `sorted(topics)`
unfoldable pub sort_texts : List String → List String
unfolding insert_text
sort_texts [] = []
sort_texts (x ∷ xs) = insert_text x (sort_texts xs)

-- The workers that read the topic.
unfoldable pub consumers_of : String → List WorkerDescription → List String
consumers_of topic [] = []
consumers_of topic (d ∷ ds) =
    if elem topic d.consumes then d.worker_id ∷ consumers_of topic ds else consumers_of topic ds

-- The workers that write the topic.
unfoldable pub producers_of : String → List WorkerDescription → List String
producers_of topic [] = []
producers_of topic (d ∷ ds) =
    if elem topic d.produces then d.worker_id ∷ producers_of topic ds else producers_of topic ds

abbrev pub first_of : List String → Option String
first_of [] = none
first_of (x ∷ xs) = some x

-- `xs or default`
abbrev pub or_else : List String → List String → List String
or_else [] default = default
or_else (x ∷ xs) default = x ∷ xs

abbrev pub scope_of : List String → String
scope_of [] = "api"
scope_of (x ∷ xs) = "worker"

unfoldable pub topic_spec : List WorkerDescription → String → StreamTopologySpec
unfolding consumers_of producers_of stream_name dead_letter_stream_name
topic_spec ds t = record {
  topic = t;
  stream = stream_name t;
  consumer_group = first_of (consumers_of t ds);
  consumer_groups = consumers_of t ds;
  producers = or_else (producers_of t ds) ("control-api" ∷ []);
  consumers = consumers_of t ds;
  dead_letter_stream = dead_letter_stream_name t;
  backpressure_scope = scope_of (consumers_of t ds);
}

unfoldable pub build_stream_topology : List WorkerDescription → List StreamTopologySpec
unfolding topic_spec sort_texts all_topics
build_stream_topology ds = map (topic_spec ds) (sort_texts (all_topics ds listed_topics))

unfoldable pub by_topic :
    List StreamTopologySpec → Dict StreamTopologySpec → Dict StreamTopologySpec
unfolding set_item
by_topic [] d = d
by_topic (s ∷ ss) d = by_topic ss (set_item s.topic s d)

unfoldable pub topology_by_topic : List WorkerDescription → Dict StreamTopologySpec
unfolding by_topic build_stream_topology
topology_by_topic ds = by_topic (build_stream_topology ds) []

-- An error message, unless the test holds.
abbrev pub unless : Bool → String → List String
unless true message = []
unless false message = message ∷ []

abbrev pub check_consumed : String → String → Option StreamTopologySpec → List String
check_consumed worker topic none = append "missing topology for consumed topic " topic ∷ []
check_consumed worker topic (some s) =
    unless (elem worker s.consumers)
      (append worker (append " not registered as consumer for " topic))
    ++ unless (elem worker s.consumer_groups)
        (append topic (append " missing consumer group " worker))

abbrev pub check_produced : String → String → Option StreamTopologySpec → List String
check_produced worker topic none = append "missing topology for produced topic " topic ∷ []
check_produced worker topic (some s) =
    unless (elem worker s.producers)
      (append worker (append " not registered as producer for " topic))

abbrev pub check_each : (String → List String) → List String → List String
check_each f [] = []
check_each f (t ∷ ts) = f t ++ check_each f ts

abbrev pub check_workers : Dict StreamTopologySpec → List WorkerDescription → List String
check_workers d [] = []
check_workers d (w ∷ ws) =
    check_each (λ t. check_consumed w.worker_id t (lookup t d)) w.consumes
    ++ check_each (λ t. check_produced w.worker_id t (lookup t d)) w.produces
    ++ check_workers d ws

abbrev pub check_required : String → Option StreamTopologySpec → List String
check_required topic none = append "missing Jarvis closure topic " topic ∷ []
check_required topic (some s) = []

unfoldable pub validate_stream_topology : List WorkerDescription → List String
unfolding topology_by_topic lookup
validate_stream_topology ds =
    let d = topology_by_topic ds in
    check_workers d ds
    ++ check_required "verification.failed" (lookup "verification.failed" d)
    ++ check_required "jarvis.repair_requested" (lookup "jarvis.repair_requested" d)
