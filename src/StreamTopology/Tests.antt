-- ===== src/StreamTopology/Tests.antt =====
-- A topology with a worker that writes and two that read.
use ming_jian.Base.{◌≡◌, refl, List, [], ◌∷◌, none, some, map}
use ming_jian.Base.Dict.{lookup}
use ming_jian.StreamTopology.{
  WorkerDescription, StreamTopologySpec, build_stream_topology, topology_by_topic, check_consumed,
  validate_stream_topology,
}
use ming_jian.StreamTopology.Validity.{topology_validates}

abbrev knowledge_worker : WorkerDescription
knowledge_worker = record {
  worker_id = "knowledge-worker";
  summary = "";
  consumes = "raw.ingested" ∷ [];
  produces = "evidence.updated" ∷ "knowledge.extracted" ∷ [];
}

abbrev graph_worker : WorkerDescription
graph_worker = record {
  worker_id = "graph-worker";
  summary = "";
  consumes = "knowledge.extracted" ∷ "evidence.updated" ∷ [];
  produces = "graph.built" ∷ [];
}

abbrev report_worker : WorkerDescription
report_worker = record {
  worker_id = "report-worker";
  summary = "";
  consumes = "knowledge.extracted" ∷ [];
  produces = [];
}

abbrev workers : List WorkerDescription
workers = knowledge_worker ∷ graph_worker ∷ report_worker ∷ []

-- The topics come in order, each once.
topics :
    map (λ (s : StreamTopologySpec). s.topic) (build_stream_topology workers)
    ≡ "claim.review_requested" ∷ "evidence.created" ∷ "evidence.updated" ∷ "graph.built"
      ∷ "jarvis.repair_requested" ∷ "knowledge.extracted" ∷ "raw.ingested" ∷ "report.generated"
      ∷ "scenario.completed" ∷ "simulation.completed" ∷ "verification.failed" ∷ []
unfolding build_stream_topology
topics = refl

knowledge_extracted :
    lookup "knowledge.extracted" (topology_by_topic workers)
    ≡ some record {
      topic = "knowledge.extracted";
      stream = "stream:knowledge.extracted";
      consumer_group = some "graph-worker";
      consumer_groups = "graph-worker" ∷ "report-worker" ∷ [];
      producers = "knowledge-worker" ∷ [];
      consumers = "graph-worker" ∷ "report-worker" ∷ [];
      dead_letter_stream = "stream:knowledge.extracted.dlq";
      backpressure_scope = "worker";
    }
unfolding topology_by_topic lookup
knowledge_extracted = refl

-- A topic that is read and not listed is an error.
missing : check_consumed "graph-worker" "raw" none ≡ "missing topology for consumed topic raw" ∷ []
missing = refl

topology_validates_example : validate_stream_topology workers ≡ []
topology_validates_example = topology_validates workers
