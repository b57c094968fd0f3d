-- ===== src/Polling/NodeMetrics.antt =====
-- features/nodes/useNodeMetricsPoll.ts: the hook as a machine over the store of the metrics.
mod Laws
mod Tests
use klustr.Prelude.{
  ℕ, ◌+◌, String, Option, none, some, List, [], ◌∷◌, ◌++◌, if◌then◌else◌, eqb, get_elem?, drop_at,
  or_else, includes,
}
use klustr.Metrics.{NodeMetrics, MetricsState, set_node_metrics}

-- A request that is not answered yet, with the run of the effect that made it.
pub record Tick : Type 0 where
  pub run : ℕ
  pub ctx : String

pub record NodePoll : Type 0 where
  pub contexts : List String
  pub run : ℕ
  pub pending : List Tick
  pub metrics : MetricsState

pub data Event : Type 0 where
  rerun : List String → Event
  tick : String → Event
  answer : ℕ → Option (List NodeMetrics) → Event

abbrev pub ticks : ℕ → List String → List Tick
ticks run [] = []
ticks run (ctx ∷ ctxs) = record { run = run; ctx = ctx } ∷ ticks run ctxs

-- A request that fails counts as an empty list.
abbrev pub ticked : Tick → Option (List NodeMetrics) → NodePoll → NodePoll
ticked t result p =
    if eqb t.run p.run
    then record p { metrics = set_node_metrics t.ctx (or_else result []) p.metrics }
    else p

abbrev pub settled : Option Tick → ℕ → Option (List NodeMetrics) → NodePoll → NodePoll
settled none i result p = p
settled (some t) i result p = ticked t result (record p { pending = drop_at p.pending i })

-- One event: the hook is called with other contexts, with none when the page is left, the interval of
-- a context runs out, or a request gets its list or fails.
unfoldable pub handle : Event → NodePoll → NodePoll
unfolding includes set_node_metrics
handle (Event.rerun contexts) p = record p {
  contexts = contexts;
  run = p.run + 1;
  pending = p.pending ++ ticks (p.run + 1) contexts;
}
handle (Event.tick ctx) p =
    if includes ctx p.contexts
    then record p { pending = p.pending ++ ticks p.run (ctx ∷ []) }
    else p
handle (Event.answer i result) p = settled (get_elem? p.pending i) i result p

unfoldable pub handle_all : List Event → NodePoll → NodePoll
unfolding handle
handle_all [] p = p
handle_all (e ∷ events) p = handle_all events (handle e p)

-- Before the first run of the effect.
abbrev pub mounted : MetricsState → NodePoll
mounted metrics = record { contexts = []; run = 0; pending = []; metrics = metrics }
