-- ===== src/Polling/PodMetrics/Tests.antt =====
-- Tests of the poll of the pods, and the theorems at concrete runs.
use klustr.Prelude.{String, true, false, none, some, List, any, includes, All, refl, ◌≡◌, ◌∷◌, []}
use klustr.Polling.PodMetrics.Live.{IsCleared, IsPolling, handle_all-IsCleared}
use klustr.Polling.PodMetrics.Refreshing.{is_refresh, refreshing-handle_all}
use klustr.Polling.PodMetrics.{Event, call_refresh, clear_left, handle, handle_all, mounted}
use klustr.Metrics.{MetricsState, PodMetrics, clear_context, set_pod_metrics, set_unavailable}
use klustr.Dict
use klustr.Dict.{Dict, get, put}

abbrev web : PodMetrics
web = record {
  namespace = "shop";
  name = "web";
  cpu_mc = 120;
  mem_b = 4096;
  resource_metrics_available = true;
  volume_usage_b = 0;
  volume_limit_b = 0;
  volume_stats_available = false;
}

abbrev empty : MetricsState
empty = record { available = []; by_pod_by_context = []; by_node_by_context = [] }

empty-IsCleared : (c : String) → IsCleared empty c
unfolding Dict.get
empty-IsCleared c = (refl, refl)

-- `prod` is polled and answered, then `dev` is chosen, and then a late answer for `prod` comes.
abbrev switched : List Event
switched =
    Event.rerun ("prod" ∷ [])
    ∷ Event.tick "prod"
    ∷ Event.answer 0 (some (web ∷ []))
    ∷ Event.rerun ("dev" ∷ [])
    ∷ Event.answer 0 (some (web ∷ []))
    ∷ []

switched-IsPolling : All IsPolling switched
switched-IsPolling = (tt, (tt, (tt, (tt, (tt, tt)))))

left_prod : includes "prod" (handle_all switched (mounted empty)).contexts ≡ false
unfolding handle_all handle clear_left set_pod_metrics clear_context includes
left_prod = refl

-- Before the switch the metrics are there.
abbrev unswitched : List Event
unswitched = Event.rerun ("prod" ∷ []) ∷ Event.answer 0 (some (web ∷ [])) ∷ []

stored_prod : Dict.get (handle_all unswitched (mounted empty)).metrics.available "prod" ≡ some true
unfolding handle_all handle clear_left set_pod_metrics includes Dict.get Dict.put
stored_prod = refl

-- Two calls of `refresh`, one of them answered by an error.
abbrev twice : List Event
twice =
    Event.rerun ("prod" ∷ [])
    ∷ Event.refresh
    ∷ Event.refresh
    ∷ Event.answer 1 none
    ∷ Event.answer 1 (some (web ∷ []))
    ∷ []

twice_answered : any is_refresh (handle_all twice (mounted empty)).pending ≡ false
unfolding handle_all handle call_refresh clear_left set_pod_metrics set_unavailable includes
twice_answered = refl

abbrev once : List Event
once = Event.rerun ("prod" ∷ []) ∷ Event.refresh ∷ []

once_refreshing : (handle_all once (mounted empty)).refreshing ≡ true
unfolding handle_all handle call_refresh clear_left includes
once_refreshing = refl

handle_all-IsCleared_example : IsCleared (handle_all switched (mounted empty)).metrics "prod"
handle_all-IsCleared_example =
    handle_all-IsCleared switched empty "prod" switched-IsPolling empty-IsCleared left_prod

refreshing-handle_all_example : (handle_all twice (mounted empty)).refreshing ≡ false
refreshing-handle_all_example = refreshing-handle_all twice empty twice_answered
