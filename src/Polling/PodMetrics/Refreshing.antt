-- ===== src/Polling/PodMetrics/Refreshing.antt =====
-- features/pods/usePodMetricsPoll.ts: the sign of the refresh does not stay when all is answered.
use klustr.Prelude.{
  ℕ, ◌+◌, String, ◌≡◌, refl, subst, zero, suc, Bool, true, false, not, ◌||◌, Option, none, some,
  List, [], ◌∷◌, ◌++◌, arith, get_elem?, drop_at, any,
}
use klustr.Metrics.{PodMetrics, MetricsState}
use klustr.Polling.PodMetrics.{
  Caller, Fetch, Poll, Event, fetches, is_call, is_of_call, fetched, finished, settled, refresh_for,
  call_refresh, handle, handle_all, mounted,
}

abbrev pub is_any_call : Caller → Bool
is_any_call (Caller.polled run) = false
is_any_call (Caller.refreshed call) = true

-- A fetch of any call of `refresh`.
abbrev pub is_refresh : Fetch → Bool
is_refresh f = is_any_call f.caller

-- While the hook says that it refreshes, a fetch of a refresh is not answered yet.
abbrev pub is_honest : Poll → Bool
is_honest p = not p.refreshing || any is_refresh p.pending

any-append :
    (test : Fetch → Bool) (fs gs : List Fetch) → any test (fs ++ gs) ≡ (any test fs || any test gs)
any-append test [] gs = refl
any-append test (f ∷ fs) gs = ground (arith, any-append test fs gs)

is_any_call-is_call : (call : ℕ) (c : Caller) → is_call call c ≡ true → is_any_call c ≡ true
is_any_call-is_call call (Caller.polled run) h = h
is_any_call-is_call call (Caller.refreshed other) h = refl

any-is_of_call :
    (call : ℕ) (fs : List Fetch) → any (is_of_call call) fs ≡ true → any is_refresh fs ≡ true
any-is_of_call call [] h = h
any-is_of_call call (f ∷ fs) h =
    ground (arith, is_any_call-is_call call f.caller, any-is_of_call call fs)

is_refresh-first : (x f : Fetch) → some x ≡ some f → is_refresh f ≡ false → is_refresh x ≡ false
is_refresh-first x f at e = subst (λ g. is_refresh g ≡ false) {x = f} {y = x} (cc) e

any-drop_at :
    (fs : List Fetch) (i : ℕ) (f : Fetch)
    → get_elem? fs i ≡ some f
    → is_refresh f ≡ false
    → any is_refresh (drop_at fs i) ≡ any is_refresh fs
any-drop_at [] i f at e = refl
any-drop_at (x ∷ fs) zero f at e = ground (arith, is_refresh-first x f at e)
any-drop_at (x ∷ fs) (suc i) f at e = rw (any-drop_at fs i f at e)

refreshing-fetched :
    (f : Fetch) (result : Option (List PodMetrics)) (p : Poll)
    → (fetched f result p).refreshing ≡ p.refreshing
refreshing-fetched f result p = ground arith

pending-fetched :
    (f : Fetch) (result : Option (List PodMetrics)) (p : Poll)
    → (fetched f result p).pending ≡ p.pending
pending-fetched f result p = ground arith

finished-is_honest :
    (caller : Caller) (p : Poll)
    → (is_any_call caller ≡ false → is_honest p ≡ true)
    → is_honest (finished caller p) ≡ true
finished-is_honest (Caller.polled run) p h = h refl
finished-is_honest (Caller.refreshed call) p h = ground (arith, any-is_of_call call p.pending)

settled-is_honest :
    (o : Option Fetch) (i : ℕ) (result : Option (List PodMetrics)) (p : Poll)
    → get_elem? p.pending i ≡ o
    → is_honest p ≡ true
    → is_honest (settled o i result p) ≡ true
settled-is_honest none i result p at h = h
settled-is_honest (some f) i result p at h = finished-is_honest f.caller _ (λ e. ground (
  arith,
  any-drop_at p.pending i f at e,
  refreshing-fetched f result (record p { pending = drop_at p.pending i }),
  pending-fetched f result (record p { pending = drop_at p.pending i }),
))

refresh_for-is_honest :
    (contexts : List String) (p : Poll)
    → is_honest p ≡ true
    → is_honest (refresh_for contexts p) ≡ true
refresh_for-is_honest [] p h = h
refresh_for-is_honest (ctx ∷ ctxs) p h = ground (
  arith,
  any-append is_refresh p.pending (fetches (Caller.refreshed (p.refreshes + 1)) (ctx ∷ ctxs)),
)

handle-is_honest : (e : Event) (p : Poll) → is_honest p ≡ true → is_honest (handle e p) ≡ true
unfolding handle call_refresh
handle-is_honest (Event.rerun contexts) p h =
    ground (arith, any-append is_refresh p.pending (fetches (Caller.polled (p.run + 1)) contexts))
handle-is_honest (Event.tick ctx) p h =
    ground (arith, any-append is_refresh p.pending (fetches (Caller.polled p.run) (ctx ∷ [])))
handle-is_honest Event.refresh p h = refresh_for-is_honest p.contexts p h
handle-is_honest (Event.answer i result) p h =
    settled-is_honest (get_elem? p.pending i) i result p refl h
handle-is_honest Event.unmount p h = h

handle_all-is_honest :
    (events : List Event) (p : Poll) → is_honest p ≡ true → is_honest (handle_all events p) ≡ true
unfolding handle_all
handle_all-is_honest [] p h = h
handle_all-is_honest (e ∷ events) p h =
    handle_all-is_honest events (handle e p) (handle-is_honest e p h)

-- Once every fetch that a refresh made is answered, with items or with an error and in any order, the
-- hook does not say any more that it refreshes, whatever else happened since the page was opened.
pub refreshing-handle_all :
    (events : List Event) (m : MetricsState)
    → any is_refresh (handle_all events (mounted m)).pending ≡ false
    → (handle_all events (mounted m)).refreshing ≡ false
refreshing-handle_all events m none_left =
    ground (arith, handle_all-is_honest events (mounted m) refl)
