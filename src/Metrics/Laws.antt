-- ===== src/Metrics/Laws.antt =====
-- What the selectors of store/metrics.ts return after each operation.
use klustr.Prelude.{
  String, ◌≡◌, refl, Bool, true, false, Option, none, some, List, [], ◌∷◌, ◌&&◌, ◌==◌, arith,
  if◌then◌else◌, or_else, any, length, ltb,
}
use klustr.Dict
use klustr.Dict.{Dict, get-put, get-remove}
use klustr.Dict.Index.{indexed, last_with, get-indexed}
use klustr.Metrics
use klustr.Metrics.Actions.{MetricsAction, act}
use klustr.Metrics.{
  PodMetrics, NodeMetrics, MetricsState, pod_key, key_of_pod, key_of_node, entry,
  select_node_metric, select_pod_metric, select_metrics_available,
}

-- The metrics of a pod that a report gives: the last item on that pod.
abbrev pub reported_pod : List PodMetrics → String → Option PodMetrics
reported_pod list k = last_with key_of_pod k list

-- What an operation leaves of the entry of a pod of one context.
abbrev pub pod_after : MetricsAction → String → String → Option PodMetrics → Option PodMetrics
pod_after (MetricsAction.set_node_metrics c list) ctx k old = old
pod_after (MetricsAction.set_pod_metrics c list) ctx k old =
    if c == ctx then reported_pod list k else old
pod_after (MetricsAction.set_unavailable c) ctx k old = if c == ctx then none else old
pod_after (MetricsAction.clear_context c) ctx k old = if c == ctx then none else old
pod_after MetricsAction.reset ctx k old = none

abbrev pub node_after : MetricsAction → String → String → Option NodeMetrics → Option NodeMetrics
node_after (MetricsAction.set_node_metrics c list) ctx k old =
    if c == ctx then last_with key_of_node k list else old
node_after (MetricsAction.set_pod_metrics c list) ctx k old = old
node_after (MetricsAction.set_unavailable c) ctx k old = old
node_after (MetricsAction.clear_context c) ctx k old = if c == ctx then none else old
node_after MetricsAction.reset ctx k old = none

-- Whether a context counts as having metrics after an operation.
abbrev pub available_after : MetricsAction → String → Bool → Bool
available_after (MetricsAction.set_node_metrics c list) ctx old =
    if c == ctx && ltb 0 (length list) then true else old
available_after (MetricsAction.set_pod_metrics c list) ctx old =
    if c == ctx then any (λ (m : PodMetrics). m.resource_metrics_available) list else old
available_after (MetricsAction.set_unavailable c) ctx old = if c == ctx then false else old
available_after (MetricsAction.clear_context c) ctx old = if c == ctx then false else old
available_after MetricsAction.reset ctx old = false

get-nil : {V : Type 0} → (k : String) → Dict.get {V = V} [] k ≡ none
unfolding Dict.get
get-nil k = refl

entry-put :
    {V : Type 0}
    → (m : Dict (Dict V)) (c : String) (d : Dict V) (ctx k : String)
    → entry (Dict.put m c d) ctx k ≡ (if c == ctx then Dict.get d k else entry m ctx k)
entry-put m c d ctx k = ground (arith, get-put m c ctx d)

entry-remove :
    {V : Type 0}
    → (m : Dict (Dict V)) (c ctx k : String)
    → entry (Dict.remove m c) ctx k ≡ (if c == ctx then none else entry m ctx k)
entry-remove {V = V} m c ctx k = ground (arith, get-remove m c ctx, get-nil {V = V} k)

get-indexed_nil :
    {A : Type 0}
    → (key : A → String) (xs : List A) (k : String)
    → Dict.get (indexed key xs []) k ≡ last_with key k xs
get-indexed_nil {A = A} key xs k = ground (arith, get-indexed key xs [] k, get-nil {V = A} k)

pod_entry-act :
    (a : MetricsAction) (s : MetricsState) (ctx k : String)
    → entry (act a s).by_pod_by_context ctx k ≡ pod_after a ctx k (entry s.by_pod_by_context ctx k)
unfolding act Metrics.set_node_metrics Metrics.set_pod_metrics Metrics.set_unavailable
    Metrics.clear_context Metrics.reset
pod_entry-act (MetricsAction.set_node_metrics c list) s ctx k = refl
pod_entry-act (MetricsAction.set_pod_metrics c []) s ctx k =
    ground (arith, entry-put s.by_pod_by_context c [] ctx k, get-nil {V = PodMetrics} k)
pod_entry-act (MetricsAction.set_pod_metrics c (m ∷ list)) s ctx k = ground (
  arith,
  entry-put s.by_pod_by_context c (indexed key_of_pod (m ∷ list) []) ctx k,
  get-indexed_nil key_of_pod (m ∷ list) k,
)
pod_entry-act (MetricsAction.set_unavailable c) s ctx k =
    ground (arith, entry-put s.by_pod_by_context c [] ctx k, get-nil {V = PodMetrics} k)
pod_entry-act (MetricsAction.clear_context c) s ctx k = entry-remove s.by_pod_by_context c ctx k
pod_entry-act MetricsAction.reset s ctx k =
    ground (arith, get-nil {V = Dict PodMetrics} ctx, get-nil {V = PodMetrics} k)

node_entry-act :
    (a : MetricsAction) (s : MetricsState) (ctx k : String)
    → entry (act a s).by_node_by_context ctx k
      ≡ node_after a ctx k (entry s.by_node_by_context ctx k)
unfolding act Metrics.set_node_metrics Metrics.set_pod_metrics Metrics.set_unavailable
    Metrics.clear_context Metrics.reset
node_entry-act (MetricsAction.set_node_metrics c list) s ctx k = ground (
  arith,
  entry-put s.by_node_by_context c (indexed key_of_node list []) ctx k,
  get-indexed_nil key_of_node list k,
)
node_entry-act (MetricsAction.set_pod_metrics c []) s ctx k = refl
node_entry-act (MetricsAction.set_pod_metrics c (m ∷ list)) s ctx k = refl
node_entry-act (MetricsAction.set_unavailable c) s ctx k = refl
node_entry-act (MetricsAction.clear_context c) s ctx k = entry-remove s.by_node_by_context c ctx k
node_entry-act MetricsAction.reset s ctx k =
    ground (arith, get-nil {V = Dict NodeMetrics} ctx, get-nil {V = NodeMetrics} k)

-- What the selectors return after an operation, for a context with a name: a report on pods replaces
-- all pods of its context, of repeated pods the last; a report on nodes does so with the nodes; a
-- failure empties the pods of its context and keeps the nodes; clearing a context empties both, and a
-- reset empties all. Everything else is returned as before.
pub metrics-act :
    (a : MetricsAction) (s : MetricsState) (ctx namespace name : String)
    → (select_pod_metric (some ctx) namespace name (act a s) ≡ (
        if ctx == ""
        then none
        else pod_after a ctx
            (pod_key namespace name)
            (select_pod_metric (some ctx) namespace name s)))
      × (select_node_metric (some ctx) name (act a s) ≡ (
          if ctx == "" then none else node_after a ctx name (select_node_metric (some ctx) name s)))
unfolding select_pod_metric select_node_metric
metrics-act a s ctx namespace name =
    let k = pod_key namespace name in
    (ground (arith, pod_entry-act a s ctx k), ground (arith, node_entry-act a s ctx name))

available-act :
    (a : MetricsAction) (s : MetricsState) (ctx : String)
    → or_else (Dict.get (act a s).available ctx) false
      ≡ available_after a ctx (or_else (Dict.get s.available ctx) false)
unfolding act Metrics.set_node_metrics Metrics.set_pod_metrics Metrics.set_unavailable
    Metrics.clear_context Metrics.reset
available-act (MetricsAction.set_node_metrics c list) s ctx =
    ground (arith, get-put s.available c ctx true)
available-act (MetricsAction.set_pod_metrics c []) s ctx =
    ground (arith, get-put s.available c ctx false)
available-act (MetricsAction.set_pod_metrics c (m ∷ list)) s ctx = ground (
  arith,
  get-put s.available c ctx (any (λ (m : PodMetrics). m.resource_metrics_available) (m ∷ list)),
)
available-act (MetricsAction.set_unavailable c) s ctx =
    ground (arith, get-put s.available c ctx false)
available-act (MetricsAction.clear_context c) s ctx = ground (arith, get-remove s.available c ctx)
available-act MetricsAction.reset s ctx = ground (arith, get-nil {V = Bool} ctx)

-- Metrics count as available in one of the contexts, after an operation, exactly if some context is
-- marked: a report on pods marks its context if some item has resource metrics and unmarks it
-- otherwise, a report on nodes marks it if the report is not empty and never unmarks it, a failure, a
-- clearing or a reset unmarks.
pub select_metrics_available-act :
    (a : MetricsAction) (s : MetricsState) (ctxs : List String)
    → select_metrics_available ctxs (act a s)
      ≡ any (λ ctx. available_after a ctx (or_else (Dict.get s.available ctx) false)) ctxs
unfolding select_metrics_available
select_metrics_available-act a s [] = refl
select_metrics_available-act a s (c ∷ cs) =
    ground (arith, available-act a s c, select_metrics_available-act a s cs)
