-- ===== src/Polling/PodMetrics.antt =====
-- features/pods/usePodMetricsPoll.ts: the hook as a machine over the store of the metrics.
mod Live
mod Refreshing
mod Tests
use klustr.Prelude.{
  ℕ, ◌+◌, String, Bool, true, false, not, ◌&&◌, ◌||◌, Option, none, some, List, [], ◌∷◌, ◌++◌,
  if◌then◌else◌, eqb, get_elem?, drop_at, includes, any,
}
use klustr.Metrics.{PodMetrics, MetricsState, set_pod_metrics, set_unavailable, clear_context}

-- Who called `fetchMetrics`: the effect in one of its runs, whose `isCancelled` reads the `cancelled`
-- of that run, or one call of `refresh`, which is never cancelled.
pub data Caller : Type 0 where
  polled : ℕ → Caller
  refreshed : ℕ → Caller

pub record Fetch : Type 0 where
  pub caller : Caller
  pub ctx : String

-- `run` counts the runs of the polling effect: `cancelled` holds in all but the last. `refreshes`
-- counts the calls of `refresh`. `live` is `liveContextsRef.current`.
pub record Poll : Type 0 where
  pub contexts : List String
  pub run : ℕ
  pub refreshes : ℕ
  pub pending : List Fetch
  pub live : List String
  pub refreshing : Bool
  pub metrics : MetricsState

pub data Event : Type 0 where
  rerun : List String → Event
  tick : String → Event
  refresh : Event
  answer : ℕ → Option (List PodMetrics) → Event
  unmount : Event

abbrev pub fetches : Caller → List String → List Fetch
fetches caller [] = []
fetches caller (ctx ∷ ctxs) = record { caller = caller; ctx = ctx } ∷ fetches caller ctxs

-- `for (const ctx of previous) if (!contexts.includes(ctx)) clearContext(ctx)`
unfoldable pub clear_left : List String → List String → MetricsState → MetricsState
unfolding includes
clear_left [] contexts m = m
clear_left (ctx ∷ previous) contexts m =
    clear_left previous contexts (if includes ctx contexts then m else clear_context ctx m)

abbrev pub is_cancelled : Poll → Caller → Bool
is_cancelled p (Caller.polled run) = not (eqb run p.run)
is_cancelled p (Caller.refreshed call) = false

-- The items that came, or the `catch`.
abbrev pub stored : String → Option (List PodMetrics) → MetricsState → MetricsState
stored ctx none m = set_unavailable ctx m
stored ctx (some list) m = set_pod_metrics ctx list m

-- The rest of `fetchMetrics` after the `await`.
abbrev pub fetched : Fetch → Option (List PodMetrics) → Poll → Poll
fetched f result p =
    if is_cancelled p f.caller then p else record p { metrics = stored f.ctx result p.metrics }

abbrev pub is_call : ℕ → Caller → Bool
is_call call (Caller.polled run) = false
is_call call (Caller.refreshed other) = eqb call other

-- A fetch of the same call of `refresh`.
abbrev pub is_of_call : ℕ → Fetch → Bool
is_of_call call f = is_call call f.caller

-- `finally`: `Promise.all` is done once the last fetch of the call is.
abbrev pub finished : Caller → Poll → Poll
finished (Caller.polled run) p = p
finished (Caller.refreshed call) p =
    if any (is_of_call call) p.pending then p else record p { refreshing = false }

abbrev pub settled : Option Fetch → ℕ → Option (List PodMetrics) → Poll → Poll
settled none i result p = p
settled (some f) i result p =
    finished f.caller (fetched f result (record p { pending = drop_at p.pending i }))

abbrev pub refresh_for : List String → Poll → Poll
refresh_for [] p = p
refresh_for (ctx ∷ ctxs) p = record p {
  refreshes = p.refreshes + 1;
  refreshing = true;
  pending = p.pending ++ fetches (Caller.refreshed (p.refreshes + 1)) (ctx ∷ ctxs);
}

-- `refresh`
unfoldable pub call_refresh : Poll → Poll
call_refresh p = refresh_for p.contexts p

-- One event: the hook is called with other contexts or another namespace, the interval of a context
-- runs out, the user refreshes, a fetch gets its list or fails, or the page is left.
unfoldable pub handle : Event → Poll → Poll
unfolding includes
handle (Event.rerun contexts) p = record p {
  contexts = contexts;
  run = p.run + 1;
  pending = p.pending ++ fetches (Caller.polled (p.run + 1)) contexts;
  live = contexts;
  metrics = clear_left p.live contexts p.metrics;
}
handle (Event.tick ctx) p =
    if includes ctx p.contexts
    then record p { pending = p.pending ++ fetches (Caller.polled p.run) (ctx ∷ []) }
    else p
handle Event.refresh p = call_refresh p
handle (Event.answer i result) p = settled (get_elem? p.pending i) i result p
handle Event.unmount p = record p {
  contexts = [];
  run = p.run + 1;
  live = [];
  metrics = clear_left p.live [] p.metrics;
}

unfoldable pub handle_all : List Event → Poll → Poll
unfolding handle
handle_all [] p = p
handle_all (e ∷ events) p = handle_all events (handle e p)

-- Before the first run of the effects.
abbrev pub mounted : MetricsState → Poll
mounted metrics = record {
  contexts = [];
  run = 0;
  refreshes = 0;
  pending = [];
  live = [];
  refreshing = false;
  metrics = metrics;
}
