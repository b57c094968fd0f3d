-- ===== src/Metrics.antt =====
-- store/metrics.ts: what metrics-server reported on the pods and the nodes of each context.
pub mod Actions
mod Laws
mod Tests
use klustr.Prelude.{
  ℕ, String, Bool, true, false, Option, none, some, List, [], ◌∷◌, ◌||◌, ◌==◌, if◌then◌else◌,
  or_else, any, length, ltb,
}
use Prim.Native.String
use klustr.Dict
use klustr.Dict.{Dict}
use klustr.Dict.Index.{indexed}

pub record PodMetrics : Type 0 where
  pub namespace : String
  pub name : String
  pub cpu_mc : ℕ
  pub mem_b : ℕ
  pub resource_metrics_available : Bool
  pub volume_usage_b : ℕ
  pub volume_limit_b : ℕ
  pub volume_stats_available : Bool

pub record NodeMetrics : Type 0 where
  pub name : String
  pub cpu_mc : ℕ
  pub mem_b : ℕ

pub record MetricsState : Type 0 where
  pub available : Dict Bool
  pub by_pod_by_context : Dict (Dict PodMetrics)
  pub by_node_by_context : Dict (Dict NodeMetrics)

abbrev pub pod_key : String → String → String
pod_key namespace name = String.◌++◌ namespace (String.◌++◌ "/" name)

abbrev pub key_of_pod : PodMetrics → String
key_of_pod m = pod_key m.namespace m.name

abbrev pub key_of_node : NodeMetrics → String
key_of_node m = m.name

unfoldable pub set_node_metrics : String → List NodeMetrics → MetricsState → MetricsState
set_node_metrics ctx list s = record s {
  available = if ltb 0 (length list) then Dict.put s.available ctx true else s.available;
  by_node_by_context = Dict.put s.by_node_by_context ctx (indexed key_of_node list []);
}

unfoldable pub set_pod_metrics : String → List PodMetrics → MetricsState → MetricsState
set_pod_metrics ctx [] s = record s {
  available = Dict.put s.available ctx false;
  by_pod_by_context = Dict.put s.by_pod_by_context ctx [];
}
set_pod_metrics ctx (m ∷ list) s = record s {
  available =
      Dict.put s.available ctx (any (λ (m : PodMetrics). m.resource_metrics_available) (m ∷ list));
  by_pod_by_context = Dict.put s.by_pod_by_context ctx (indexed key_of_pod (m ∷ list) []);
}

unfoldable pub set_unavailable : String → MetricsState → MetricsState
set_unavailable ctx s = record s {
  available = Dict.put s.available ctx false;
  by_pod_by_context = Dict.put s.by_pod_by_context ctx [];
}

unfoldable pub clear_context : String → MetricsState → MetricsState
clear_context ctx s = record s {
  available = Dict.remove s.available ctx;
  by_pod_by_context = Dict.remove s.by_pod_by_context ctx;
  by_node_by_context = Dict.remove s.by_node_by_context ctx;
}

unfoldable pub reset : MetricsState → MetricsState
reset s = record s { available = []; by_pod_by_context = []; by_node_by_context = [] }

-- `byContext[ctx]?.[key]`
abbrev pub entry : {V : Type 0} → Dict (Dict V) → String → String → Option V
entry m ctx k = Dict.get (or_else (Dict.get m ctx) []) k

unfoldable pub select_node_metric : Option String → String → MetricsState → Option NodeMetrics
select_node_metric none name s = none
select_node_metric (some ctx) name s =
    if ctx == "" then none else entry s.by_node_by_context ctx name

unfoldable pub select_pod_metric :
    Option String → String → String → MetricsState → Option PodMetrics
select_pod_metric none namespace name s = none
select_pod_metric (some ctx) namespace name s =
    if ctx == "" then none else entry s.by_pod_by_context ctx (pod_key namespace name)

unfoldable pub select_metrics_available : List String → MetricsState → Bool
select_metrics_available [] s = false
select_metrics_available (c ∷ cs) s =
    or_else (Dict.get s.available c) false || select_metrics_available cs s
