-- ===== src/Polling/NodeMetrics/Laws.antt =====
-- features/nodes/useNodeMetricsPoll.ts: the nodes of a context that was left keep what was stored.
use klustr.Prelude.{
  ℕ, ◌+◌, ◌≤◌, String, ◌≡◌, refl, true, false, not, ◌||◌, Option, none, some, List, [], ◌∷◌, ◌==◌,
  arith, eq_iff, eq_refl, eqb, get_elem?, or_else, includes, All, All-append, All-drop_at,
  All-get_elem?, Bool-cases, inl, inr,
}
use klustr.Dict
use klustr.Dict.{get-put}
use klustr.Metrics.{NodeMetrics, MetricsState, set_node_metrics}
use klustr.Polling.NodeMetrics.{Tick, NodePoll, Event, ticks, settled, handle, handle_all, mounted}

-- A request of the last run is for a context of the hook.
abbrev pub IsTickOf : List String → ℕ → Tick → Type 0
IsTickOf contexts run t = (t.run ≤ run) × ((not (eqb t.run run) || includes t.ctx contexts) ≡ true)

abbrev pub IsCurrent : NodePoll → Type 0
IsCurrent p = All (IsTickOf p.contexts p.run) p.pending

ticks-IsTickOf :
    (run : ℕ) (contexts asked : List String)
    → ((c : String) → includes c asked ≡ true → includes c contexts ≡ true)
    → All (IsTickOf contexts run) (ticks run asked)
unfolding includes
ticks-IsTickOf run contexts [] h = tt
ticks-IsTickOf run contexts (c ∷ asked) h = (
  (omega arith, ground (arith, h c, eq_refl c)),
  ticks-IsTickOf run contexts asked (λ d e. h d (ground arith)),
)

-- After a new run, the older requests are of older runs.
IsTickOf-older :
    (contexts after : List String) (run : ℕ) (ts : List Tick)
    → All (IsTickOf contexts run) ts
    → All (IsTickOf after (run + 1)) ts
IsTickOf-older contexts after run [] h = tt
IsTickOf-older contexts after run (t ∷ ts) ((le, c), h) =
    ((omega arith, ground arith), IsTickOf-older contexts after run ts h)

settled-IsCurrent :
    (o : Option Tick) (i : ℕ) (result : Option (List NodeMetrics)) (p : NodePoll)
    → IsCurrent p
    → IsCurrent (settled o i result p)
settled-IsCurrent none i result p h = h
settled-IsCurrent (some t) i result p h = elim (Bool-cases (eqb t.run p.run)) [
  | inl e ↦ rw e (All-drop_at (IsTickOf p.contexts p.run) p.pending i h)
  | inr e ↦ rw e (All-drop_at (IsTickOf p.contexts p.run) p.pending i h)
]

handle-IsCurrent : (e : Event) (p : NodePoll) → IsCurrent p → IsCurrent (handle e p)
unfolding handle
handle-IsCurrent (Event.rerun contexts) p h =
    All-append (IsTickOf contexts (p.run + 1)) p.pending _
      (IsTickOf-older p.contexts contexts p.run p.pending h)
      (ticks-IsTickOf (p.run + 1) contexts contexts (λ c e. e))
handle-IsCurrent (Event.tick ctx) p h = elim (Bool-cases (includes ctx p.contexts)) [
  | inl e ↦
      rw e (All-append (IsTickOf p.contexts p.run) p.pending _ h ((omega arith, ground arith), tt))
  | inr e ↦ rw e h
]
handle-IsCurrent (Event.answer i result) p h =
    settled-IsCurrent (get_elem? p.pending i) i result p h

handle_all-IsCurrent :
    (events : List Event) (p : NodePoll) → IsCurrent p → IsCurrent (handle_all events p)
unfolding handle_all
handle_all-IsCurrent [] p h = h
handle_all-IsCurrent (e ∷ events) p h =
    handle_all-IsCurrent events (handle e p) (handle-IsCurrent e p h)

kept-set_node_metrics :
    (c : String) (list : List NodeMetrics) (m : MetricsState) (ctx : String)
    → (c == ctx) ≡ false
    → Dict.get (set_node_metrics c list m).by_node_by_context ctx
      ≡ Dict.get m.by_node_by_context ctx
unfolding set_node_metrics
kept-set_node_metrics c list m ctx e = simp (get-put m.by_node_by_context c ctx _, e)

kept-settled :
    (o : Option Tick) (i : ℕ) (result : Option (List NodeMetrics)) (p : NodePoll) (ctx : String)
    → get_elem? p.pending i ≡ o
    → IsCurrent p
    → includes ctx p.contexts ≡ false
    → Dict.get (settled o i result p).metrics.by_node_by_context ctx
      ≡ Dict.get p.metrics.by_node_by_context ctx
kept-settled none i result p ctx at h other = refl
kept-settled (some t) i result p ctx at h other = ground (
  arith,
  (All-get_elem? (IsTickOf p.contexts p.run) p.pending i t h at).1,
  kept-set_node_metrics t.ctx (or_else result []) p.metrics ctx,
  eq_iff t.ctx ctx,
)

kept-handle :
    (e : Event) (p : NodePoll) (ctx : String)
    → IsCurrent p
    → includes ctx p.contexts ≡ false
    → Dict.get (handle e p).metrics.by_node_by_context ctx
      ≡ Dict.get p.metrics.by_node_by_context ctx
unfolding handle
kept-handle (Event.rerun contexts) p ctx h other = refl
kept-handle (Event.tick c) p ctx h other = ground arith
kept-handle (Event.answer i result) p ctx h other =
    kept-settled (get_elem? p.pending i) i result p ctx refl h other

-- Whatever happened since the page was opened, no event changes or removes the stored nodes of a
-- context that the hook is not called with: late answers are dropped, and nothing is cleared.
pub by_node_by_context-handle :
    (events : List Event) (m : MetricsState) (e : Event) (ctx : String)
    → includes ctx (handle_all events (mounted m)).contexts ≡ false
    → Dict.get (handle e (handle_all events (mounted m))).metrics.by_node_by_context ctx
      ≡ Dict.get (handle_all events (mounted m)).metrics.by_node_by_context ctx
by_node_by_context-handle events m e ctx other =
    kept-handle e (handle_all events (mounted m)) ctx (handle_all-IsCurrent events (mounted m) tt)
      other
