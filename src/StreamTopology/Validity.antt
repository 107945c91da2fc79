-- ===== src/StreamTopology/Validity.antt =====
-- A topology that is built passes its own check (events/topology.py of src/planagent).
use ming_jian.Base.{
  String, ◌≡◌, refl, ap, ◌∙◌, Bool, true, false, List, [], ◌∷◌, ◌++◌, map, some, arith, ◌==◌,
  eq_iff, if◌then◌else◌, Bool-cases, inl, inr,
}
use mathlib.Core.Path.{subst}
use ming_jian.Base.Dict.{Dict, lookup, set_item, lookup-set_item}
use ming_jian.StreamTopology.{
  WorkerDescription, StreamTopologySpec, elem, listed_topics, all_topics, sort_texts, consumers_of,
  producers_of, or_else, topic_spec, build_stream_topology, by_topic, topology_by_topic, unless,
  check_consumed, check_produced, check_each, check_workers, check_required,
  validate_stream_topology,
}
use ming_jian.StreamTopology.Order.{
  elem-sort_texts, IsIn, all_topics-keeps, all_topics-consumed, all_topics-produced,
}

pub consumers_of-elem :
    (t : String) (w : WorkerDescription) (ds : List WorkerDescription)
    → IsIn w ds
    → elem t w.consumes ≡ true
    → elem w.worker_id (consumers_of t ds) ≡ true
unfolding consumers_of
consumers_of-elem t w [] i h = elim i [ ]
consumers_of-elem t w (d ∷ ds) (inl e) h =
    subst (λ v. elem t v.consumes ≡ true → elem v.worker_id (consumers_of t (d ∷ ds)) ≡ true) e
      (λ k. ground (arith, eq_iff d.worker_id d.worker_id)) h
consumers_of-elem t w (d ∷ ds) (inr i) h = ground (arith, consumers_of-elem t w ds i h)

pub producers_of-elem :
    (t : String) (w : WorkerDescription) (ds : List WorkerDescription)
    → IsIn w ds
    → elem t w.produces ≡ true
    → elem w.worker_id (producers_of t ds) ≡ true
unfolding producers_of
producers_of-elem t w [] i h = elim i [ ]
producers_of-elem t w (d ∷ ds) (inl e) h =
    subst (λ v. elem t v.produces ≡ true → elem v.worker_id (producers_of t (d ∷ ds)) ≡ true) e
      (λ k. ground (arith, eq_iff d.worker_id d.worker_id)) h
producers_of-elem t w (d ∷ ds) (inr i) h = ground (arith, producers_of-elem t w ds i h)

or_else-elem : (x : String) (xs ys : List String) → elem x xs ≡ true → elem x (or_else xs ys) ≡ true
or_else-elem x [] ys h = cc
or_else-elem x (y ∷ xs) ys h = h

stores :
    (ds : List WorkerDescription) (t x : String) (d : Dict StreamTopologySpec)
    → (x == t) ≡ true
    → lookup t (set_item x (topic_spec ds x) d) ≡ some (topic_spec ds t)
stores ds t x d e =
    lookup-set_item x t (topic_spec ds x) d
    ∙ ap (λ b. if b then some (topic_spec ds x) else lookup t d) e
    ∙ ap (λ y. some (topic_spec ds y)) ((eq_iff x t).0 e)

passes_over :
    (ds : List WorkerDescription) (t x : String) (d : Dict StreamTopologySpec)
    → (x == t) ≡ false
    → lookup t (set_item x (topic_spec ds x) d) ≡ lookup t d
passes_over ds t x d n =
    lookup-set_item x t (topic_spec ds x) d
    ∙ ap (λ b. if b then some (topic_spec ds x) else lookup t d) n

-- What the loop has stored for a topic, it leaves.
by_topic-keeps :
    (ds : List WorkerDescription) (t : String) (ts : List String) (d : Dict StreamTopologySpec)
    → lookup t d ≡ some (topic_spec ds t)
    → lookup t (by_topic (map (topic_spec ds) ts) d) ≡ some (topic_spec ds t)
unfolding by_topic topic_spec
by_topic-keeps ds t [] d h = h
by_topic-keeps ds t (x ∷ ts) d h =
    let d' = set_item x (topic_spec ds x) d in
    elim (Bool-cases (x == t)) [
      | inl e ↦ by_topic-keeps ds t ts d' (stores ds t x d e)
      | inr n ↦ by_topic-keeps ds t ts d' (passes_over ds t x d n ∙ h)
    ]

by_topic-finds :
    (ds : List WorkerDescription) (t : String) (ts : List String) (d : Dict StreamTopologySpec)
    → elem t ts ≡ true
    → lookup t (by_topic (map (topic_spec ds) ts) d) ≡ some (topic_spec ds t)
unfolding by_topic topic_spec
by_topic-finds ds t [] d h = cc
by_topic-finds ds t (x ∷ ts) d h =
    let d' = set_item x (topic_spec ds x) d in
    elim (Bool-cases (x == t)) [
      | inl e ↦ by_topic-keeps ds t ts d' (stores ds t x d e)
      | inr n ↦ by_topic-finds ds t ts d' (ground arith)
    ]

-- A topic of the set has its specification in the topology.
topology-finds :
    (ds : List WorkerDescription) (t : String)
    → elem t (all_topics ds listed_topics) ≡ true
    → lookup t (topology_by_topic ds) ≡ some (topic_spec ds t)
unfolding topology_by_topic build_stream_topology
topology-finds ds t h =
    let ts = all_topics ds listed_topics in
    by_topic-finds ds t (sort_texts ts) [] (elem-sort_texts t ts ∙ h)

none_in_all : {xs ys : List String} → xs ≡ [] → ys ≡ [] → xs ++ ys ≡ []
none_in_all h k = cc

unless-true : (b : Bool) (m : String) → b ≡ true → unless b m ≡ []
unless-true true m h = refl
unless-true false m h = cc

unless-both : (b : Bool) (m n : String) → b ≡ true → unless b m ++ unless b n ≡ []
unless-both true m n h = refl
unless-both false m n h = cc

check_consumed-passes :
    (ds : List WorkerDescription) (w : WorkerDescription) (t : String)
    → IsIn w ds
    → elem t w.consumes ≡ true
    → check_consumed w.worker_id t (lookup t (topology_by_topic ds)) ≡ []
unfolding topic_spec
check_consumed-passes ds w t i h =
    ap (check_consumed w.worker_id t)
      (topology-finds ds t (all_topics-consumed t w ds listed_topics i h))
    ∙ unless-both _ _ _ (consumers_of-elem t w ds i h)

check_produced-passes :
    (ds : List WorkerDescription) (w : WorkerDescription) (t : String)
    → IsIn w ds
    → elem t w.produces ≡ true
    → check_produced w.worker_id t (lookup t (topology_by_topic ds)) ≡ []
unfolding topic_spec
check_produced-passes ds w t i h =
    ap (check_produced w.worker_id t)
      (topology-finds ds t (all_topics-produced t w ds listed_topics i h))
    ∙ unless-true _ _ (
        or_else-elem w.worker_id (producers_of t ds) ("control-api" ∷ [])
          (producers_of-elem t w ds i h))

check_each-passes :
    (f : String → List String) (ts : List String)
    → ((t : String) → elem t ts ≡ true → f t ≡ [])
    → check_each f ts ≡ []
check_each-passes f [] h = refl
check_each-passes f (t ∷ ts) h =
    ap (λ xs. xs ++ check_each f ts) (h t (ground (arith, eq_iff t t)))
    ∙ check_each-passes f ts (λ u k. h u (ground arith))

check_workers-passes :
    (ds ws : List WorkerDescription)
    → ((w : WorkerDescription) → IsIn w ws → IsIn w ds)
    → check_workers (topology_by_topic ds) ws ≡ []
check_workers-passes ds [] h = refl
check_workers-passes ds (w ∷ ws) h =
    let i = h w (inl refl) in
    none_in_all
      (none_in_all (check_each-passes _ w.consumes (λ t k. check_consumed-passes ds w t i k))
        (check_each-passes _ w.produces (λ t k. check_produced-passes ds w t i k)))
      (check_workers-passes ds ws (λ v k. h v (inr k)))

check_required-passes :
    (ds : List WorkerDescription) (t : String)
    → elem t listed_topics ≡ true
    → check_required t (lookup t (topology_by_topic ds)) ≡ []
check_required-passes ds t h =
    ap (check_required t) (topology-finds ds t (all_topics-keeps t ds listed_topics h))

-- Whatever the workers are, the topology built from their descriptions has no validation error.
pub topology_validates : (ds : List WorkerDescription) → validate_stream_topology ds ≡ []
unfolding validate_stream_topology
topology_validates ds =
    none_in_all
      (none_in_all (check_workers-passes ds ds (λ w i. i))
        (check_required-passes ds "verification.failed" refl))
      (check_required-passes ds "jarvis.repair_requested" refl)
