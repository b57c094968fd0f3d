-- ===== src/Metrics/Tests.antt =====
-- A report of metrics-server on a concrete state.
use klustr.Prelude.{String, true, false, ◌∷◌, []}
use klustr.Metrics.{MetricsState, PodMetrics}
use klustr.Metrics.Actions.{MetricsAction}

abbrev usage : String → PodMetrics
usage name = record {
  namespace = "default";
  name = name;
  cpu_mc = 12;
  mem_b = 4096;
  resource_metrics_available = true;
  volume_usage_b = 0;
  volume_limit_b = 0;
  volume_stats_available = false;
}

abbrev nothing_known : MetricsState
nothing_known = record { available = []; by_pod_by_context = []; by_node_by_context = [] }

abbrev report : MetricsAction
report = MetricsAction.set_pod_metrics "prod" (usage "web" ∷ usage "db" ∷ [])
