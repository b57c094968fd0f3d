-- ===== src/Metrics/Actions.antt =====
-- The operations of store/metrics.ts as data.
use klustr.Prelude.{String, List}
use klustr.Metrics
use klustr.Metrics.{PodMetrics, NodeMetrics, MetricsState}

pub data MetricsAction : Type 0 where
  set_node_metrics : String → List NodeMetrics → MetricsAction
  set_pod_metrics : String → List PodMetrics → MetricsAction
  set_unavailable : String → MetricsAction
  clear_context : String → MetricsAction
  reset : MetricsAction

unfoldable pub act : MetricsAction → MetricsState → MetricsState
act (MetricsAction.set_node_metrics ctx list) s = Metrics.set_node_metrics ctx list s
act (MetricsAction.set_pod_metrics ctx list) s = Metrics.set_pod_metrics ctx list s
act (MetricsAction.set_unavailable ctx) s = Metrics.set_unavailable ctx s
act (MetricsAction.clear_context ctx) s = Metrics.clear_context ctx s
act MetricsAction.reset s = Metrics.reset s
