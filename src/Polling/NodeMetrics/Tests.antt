-- ===== src/Polling/NodeMetrics/Tests.antt =====
-- Tests of the poll of the nodes, and the theorem at a concrete run.
use klustr.Prelude.{false, none, some, List, includes, refl, ◌≡◌, ◌∷◌, []}
use klustr.Polling.NodeMetrics.Laws.{by_node_by_context-handle}
use klustr.Polling.NodeMetrics.{Event, handle, handle_all, mounted}
use klustr.Metrics.{MetricsState, NodeMetrics, set_node_metrics}
use klustr.Dict.Index.{indexed}
use klustr.Dict
use klustr.Dict.{Dict, get, put}

abbrev node : NodeMetrics
node = record { name = "n1"; cpu_mc = 900; mem_b = 8192 }

abbrev empty : MetricsState
empty = record { available = []; by_pod_by_context = []; by_node_by_context = [] }

-- `prod` is answered once, and asked again before `dev` is chosen.
abbrev switched : List Event
switched =
    Event.rerun ("prod" ∷ [])
    ∷ Event.answer 0 (some (node ∷ []))
    ∷ Event.tick "prod"
    ∷ Event.rerun ("dev" ∷ [])
    ∷ []

abbrev late : Event
late = Event.answer 0 none

left_prod : includes "prod" (handle_all switched (mounted empty)).contexts ≡ false
unfolding handle_all handle set_node_metrics includes
left_prod = refl

-- What was stored for `prod` is still there.
kept_prod :
    Dict.get (handle_all switched (mounted empty)).metrics.by_node_by_context "prod"
    ≡ some (("n1", node) ∷ [])
unfolding handle_all handle set_node_metrics includes indexed Dict.get Dict.put
kept_prod = refl

by_node_by_context-handle_example :
    Dict.get (handle late (handle_all switched (mounted empty))).metrics.by_node_by_context "prod"
    ≡ Dict.get (handle_all switched (mounted empty)).metrics.by_node_by_context "prod"
by_node_by_context-handle_example = by_node_by_context-handle switched empty late "prod" left_prod
