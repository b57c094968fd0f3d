-- ===== src/Polling/PodMetrics/Live.antt =====
-- features/pods/usePodMetricsPoll.ts: what stands in the store for the contexts that were left.
use klustr.Prelude.{
  ℕ, ◌+◌, ◌≤◌, String, ◌≡◌, refl, ◌∙◌, true, false, not, ◌||◌, ◌==◌, Option, none, some, List, [],
  ◌∷◌, arith, eq_iff, eq_refl, eqb, get_elem?, includes, All, All-append, All-drop_at,
  All-get_elem?, Bool-cases, inl, inr,
}
use klustr.Dict
use klustr.Dict.{get-put, get-remove}
use klustr.Dict.Index.{indexed}
use klustr.Metrics.{
  PodMetrics, MetricsState, key_of_pod, set_pod_metrics, set_unavailable, clear_context,
}
use klustr.Polling.PodMetrics.{
  Caller, Fetch, Poll, Event, fetches, clear_left, stored, fetched, finished, settled, call_refresh,
  handle, handle_all, mounted,
}

-- Nothing of a context stands in the store.
abbrev pub IsCleared : MetricsState → String → Type 0
IsCleared m ctx = (Dict.get m.available ctx ≡ none) × (Dict.get m.by_pod_by_context ctx ≡ none)

IsCleared-clear_context :
    (m : MetricsState) (ctx c : String) → IsCleared m c → IsCleared (clear_context ctx m) c
unfolding clear_context
IsCleared-clear_context m ctx c (a, b) = (
  ground (arith, get-remove m.available ctx c),
  ground (arith, get-remove m.by_pod_by_context ctx c),
)

clear_context-IsCleared : (m : MetricsState) (ctx : String) → IsCleared (clear_context ctx m) ctx
unfolding clear_context
clear_context-IsCleared m ctx = (
  ground (arith, get-remove m.available ctx ctx, eq_refl ctx),
  ground (arith, get-remove m.by_pod_by_context ctx ctx, eq_refl ctx),
)

IsCleared-clear_left :
    (previous contexts : List String) (m : MetricsState) (c : String)
    → IsCleared m c
    → IsCleared (clear_left previous contexts m) c
unfolding clear_left
IsCleared-clear_left [] contexts m c h = h
IsCleared-clear_left (ctx ∷ previous) contexts m c h =
    IsCleared-clear_left previous contexts _ c (elim (Bool-cases (includes ctx contexts)) [
      | inl e ↦ rw e h
      | inr e ↦ rw e (IsCleared-clear_context m ctx c h)
    ])

-- A context that was live, and is not any more, is cleared.
clear_left-IsCleared :
    (previous contexts : List String) (m : MetricsState) (c : String)
    → includes c previous ≡ true
    → includes c contexts ≡ false
    → IsCleared (clear_left previous contexts m) c
unfolding clear_left includes
clear_left-IsCleared [] contexts m c was left = absurd (cc)
clear_left-IsCleared (ctx ∷ previous) contexts m c was left = elim (Bool-cases (ctx == c)) [
  | inl e ↦
      IsCleared-clear_left previous contexts _ c
        (rw ((eq_iff ctx c).0 e, left) (clear_context-IsCleared m c))
  | inr e ↦ clear_left-IsCleared previous contexts _ c (ground arith) left
]

-- A fetch of the last run is for a context of the hook.
abbrev pub IsOf : List String → ℕ → Caller → String → Type 0
IsOf contexts run (Caller.polled r) ctx =
    (r ≤ run) × ((not (eqb r run) || includes ctx contexts) ≡ true)
IsOf contexts run (Caller.refreshed call) ctx = ⊥

abbrev pub IsFetchOf : List String → ℕ → Fetch → Type 0
IsFetchOf contexts run f = IsOf contexts run f.caller f.ctx

pub record IsTidy (p : Poll) : Type 0 where
  pub current : All (IsFetchOf p.contexts p.run) p.pending
  pub is_live : p.live ≡ p.contexts
  pub cleared : (c : String) → includes c p.contexts ≡ false → IsCleared p.metrics c

fetches-IsFetchOf :
    (run : ℕ) (contexts asked : List String)
    → ((c : String) → includes c asked ≡ true → includes c contexts ≡ true)
    → All (IsFetchOf contexts run) (fetches (Caller.polled run) asked)
unfolding includes
fetches-IsFetchOf run contexts [] h = tt
fetches-IsFetchOf run contexts (c ∷ asked) h = (
  (omega arith, ground (arith, h c, eq_refl c)),
  fetches-IsFetchOf run contexts asked (λ d e. h d (ground arith)),
)

IsOf-older :
    (contexts after : List String) (run : ℕ) (caller : Caller) (ctx : String)
    → IsOf contexts run caller ctx
    → IsOf after (run + 1) caller ctx
IsOf-older contexts after run (Caller.polled r) ctx (le, h) = (omega arith, ground arith)
IsOf-older contexts after run (Caller.refreshed call) ctx h = absurd h

-- After a new run, the older fetches are of older runs.
IsFetchOf-older :
    (contexts after : List String) (run : ℕ) (fs : List Fetch)
    → All (IsFetchOf contexts run) fs
    → All (IsFetchOf after (run + 1)) fs
IsFetchOf-older contexts after run [] h = tt
IsFetchOf-older contexts after run (f ∷ fs) (h, hs) =
    (IsOf-older contexts after run f.caller f.ctx h, IsFetchOf-older contexts after run fs hs)

IsCleared-stored :
    (ctx c : String) (result : Option (List PodMetrics)) (m : MetricsState)
    → (ctx == c) ≡ false
    → IsCleared m c
    → IsCleared (stored ctx result m) c
unfolding set_unavailable set_pod_metrics
IsCleared-stored ctx c none m e (a, b) = (
  ground (arith, get-put m.available ctx c false),
  ground (arith, get-put m.by_pod_by_context ctx c []),
)
IsCleared-stored ctx c (some []) m e (a, b) = (
  ground (arith, get-put m.available ctx c false),
  ground (arith, get-put m.by_pod_by_context ctx c []),
)
IsCleared-stored ctx c (some (x ∷ list)) m e (a, b) =
    (simp (get-put m.available ctx c _, e, a), simp (get-put m.by_pod_by_context ctx c _, e, b))

fetched-IsTidy :
    (caller : Caller) (ctx : String) (result : Option (List PodMetrics)) (p : Poll)
    → IsOf p.contexts p.run caller ctx
    → IsTidy p
    → IsTidy (finished caller (fetched (record { caller = caller; ctx = ctx }) result p))
fetched-IsTidy (Caller.refreshed call) ctx result p h t = absurd h
fetched-IsTidy (Caller.polled run) ctx result p (le, h) t = elim (Bool-cases (eqb run p.run)) [
  | inl e ↦ rw e (record {
    current = t.current;
    is_live = t.is_live;
    cleared = λ c left.
        IsCleared-stored ctx c result p.metrics (ground (arith, eq_iff ctx c)) (t.cleared c left);
  })
  | inr e ↦ rw e t
]

settled-IsTidy :
    (o : Option Fetch) (i : ℕ) (result : Option (List PodMetrics)) (p : Poll)
    → get_elem? p.pending i ≡ o
    → IsTidy p
    → IsTidy (settled o i result p)
settled-IsTidy none i result p at t = t
settled-IsTidy (some f) i result p at t =
    fetched-IsTidy f.caller f.ctx result _
      (All-get_elem? (IsFetchOf p.contexts p.run) p.pending i f t.current at)
      (record {
        current = All-drop_at (IsFetchOf p.contexts p.run) p.pending i t.current;
        is_live = t.is_live;
        cleared = t.cleared;
      })

-- An event other than a click on refresh.
abbrev pub IsPolling : Event → Type 0
IsPolling Event.refresh = ⊥
IsPolling e = Unit

handle-IsTidy : (e : Event) (p : Poll) → IsPolling e → IsTidy p → IsTidy (handle e p)
unfolding handle
handle-IsTidy (Event.rerun contexts) p q t = record {
  current =
      All-append (IsFetchOf contexts (p.run + 1)) p.pending _
        (IsFetchOf-older p.contexts contexts p.run p.pending t.current)
        (fetches-IsFetchOf (p.run + 1) contexts contexts (λ c h. h));
  is_live = refl;
  cleared = λ c left. elim (Bool-cases (includes c p.contexts)) [
    | inl was ↦ clear_left-IsCleared p.live contexts p.metrics c (rw (t.is_live) was) left
    | inr e ↦ IsCleared-clear_left p.live contexts p.metrics c (t.cleared c e)
  ];
}
handle-IsTidy (Event.tick ctx) p q t = elim (Bool-cases (includes ctx p.contexts)) [
  | inl e ↦ rw e (record {
    current =
        All-append (IsFetchOf p.contexts p.run) p.pending _ t.current
          ((omega arith, ground arith), tt);
    is_live = t.is_live;
    cleared = t.cleared;
  })
  | inr e ↦ rw e t
]
handle-IsTidy Event.refresh p q t = absurd q
handle-IsTidy (Event.answer i result) p q t =
    settled-IsTidy (get_elem? p.pending i) i result p refl t
handle-IsTidy Event.unmount p q t = record {
  current = IsFetchOf-older p.contexts [] p.run p.pending t.current;
  is_live = refl;
  cleared = λ c left. elim (Bool-cases (includes c p.contexts)) [
    | inl was ↦ clear_left-IsCleared p.live [] p.metrics c (rw (t.is_live) was) left
    | inr e ↦ IsCleared-clear_left p.live [] p.metrics c (t.cleared c e)
  ];
}

handle_all-IsTidy :
    (events : List Event) (p : Poll)
    → All IsPolling events
    → IsTidy p
    → IsTidy (handle_all events p)
unfolding handle_all
handle_all-IsTidy [] p q t = t
handle_all-IsTidy (e ∷ events) p (q, qs) t =
    handle_all-IsTidy events (handle e p) qs (handle-IsTidy e p q t)

-- As long as nobody refreshes by hand, nothing of a context stands in a store that was empty before,
-- unless the context is one of those that the hook was last called with: what was stored for a context
-- is removed when it is left, and answers that come later are dropped.
pub handle_all-IsCleared :
    (events : List Event) (m : MetricsState) (ctx : String)
    → All IsPolling events
    → ((c : String) → IsCleared m c)
    → includes ctx (handle_all events (mounted m)).contexts ≡ false
    → IsCleared (handle_all events (mounted m)).metrics ctx
handle_all-IsCleared events m ctx q empty left =
    (handle_all-IsTidy events (mounted m) q
        (record { current = tt; is_live = refl; cleared = λ c e. empty c })).cleared
      ctx left

-- The page is opened, refreshed by hand and left, and then the second fetch is answered.
abbrev pub left_early : String → List PodMetrics → List Event
left_early ctx list =
    Event.rerun (ctx ∷ []) ∷ Event.refresh ∷ Event.unmount ∷ Event.answer 1 (some list) ∷ []

-- When a page of one context is refreshed by hand and left before the answer, no context is polled
-- any more, and yet the pods of the answer, if there are any, are stored for the context.
pub refresh-left_early :
    (ctx : String) (x : PodMetrics) (list : List PodMetrics) (m : MetricsState)
    → ((handle_all (left_early ctx (x ∷ list)) (mounted m)).contexts ≡ [])
      × (Dict.get (handle_all (left_early ctx (x ∷ list)) (mounted m)).metrics.by_pod_by_context ctx
          ≡ some (indexed key_of_pod (x ∷ list) []))
unfolding handle_all handle call_refresh clear_left set_pod_metrics clear_context
refresh-left_early ctx x list m = (refl, get-put _ ctx ctx _ ∙ rw (eq_refl ctx))
