-- ===== src/Events/Laws.antt =====
-- Synced kinds and subscriptions of lib/events.ts.
use text.Mathlib.Text.{starts_with}
use text.Mathlib.TextPositions.{starts_with-append}
use text.Mathlib.TextLemmas.{append_assoc}
use klustr.Prelude.{
  ℕ, String, ◌≡◌, refl, ◌∙◌, ap, subst, Bool, true, false, not, ◌&&◌, ◌||◌, List, [], ◌∷◌, ◌++◌,
  arith, eq_iff, eq_refl, ◌==◌, if◌then◌else◌, or_else, includes, keep, any, map, includes-append,
  eqb, Option-cases, Bool-cases, inl, inr,
}
use klustr.Dict
use klustr.Dict.{Dict, get-put}
use klustr.Events
use klustr.Events.{
  Events, sync_key, added, lacks_prefix, reset_from, reset_sync_state, kube_change, is_kind_synced,
  on_kube_change, unsubscribe, is_among,
}

includes-added :
    (k key : String) (set : List String) → includes k (added key set) ≡ (key == k || includes k set)
unfolding includes
includes-added k key set = ground (arith, includes-append k set (key ∷ []), eq_iff key k)

includes-keep :
    (p : String → Bool) (k : String) (xs : List String)
    → includes k (keep p xs) ≡ (p k && includes k xs)
unfolding includes
includes-keep p k [] = ground arith
includes-keep p k (x ∷ xs) = elim (Bool-cases (x == k)) [
  | inl e ↦ ground (arith, includes-keep p k xs, e, ap p ((eq_iff x k).0 e))
  | inr e ↦ ground (arith, includes-keep p k xs, e)
]

includes-reset_from :
    (k : String) (ctxs keys : List String)
    → includes k (reset_from ctxs keys)
      ≡ (includes k keys && not (any (λ ctx. starts_with k (sync_key ctx "")) ctxs))
unfolding reset_from
includes-reset_from k [] keys = ground arith
includes-reset_from k (ctx ∷ ctxs) keys = ground (
  arith,
  includes-reset_from k ctxs (keep (lacks_prefix (sync_key ctx "")) keys),
  includes-keep (lacks_prefix (sync_key ctx "")) k keys,
)

-- After a reset for some contexts a kind counts as synced in a context exactly if it did so before and
-- its key, the context, a space and the kind, begins with none of the contexts of the reset followed
-- by a space.
pub is_kind_synced-reset :
    (ctxs : List String) (s : Events) (c kind : String)
    → is_kind_synced c kind (reset_sync_state ctxs s) ≡ (
        is_kind_synced c kind s
        && not (any (λ ctx. starts_with (sync_key c kind) (sync_key ctx "")) ctxs))
unfolding is_kind_synced reset_sync_state Events.install
is_kind_synced-reset ctxs s c kind = includes-reset_from (sync_key c kind) ctxs s.synced_kinds

starts_with-sync_key : (c kind : String) → starts_with (sync_key c kind) (sync_key c "") ≡ true
starts_with-sync_key c kind =
    subst (λ v. starts_with v (sync_key c "") ≡ true) (append_assoc c " " kind)
      (starts_with-append (sync_key c "") kind)

any-of_includes :
    (p : String → Bool) (c : String) (ctxs : List String)
    → p c ≡ true
    → includes c ctxs ≡ true
    → any p ctxs ≡ true
unfolding includes
any-of_includes p c [] h i = ground (arith, i)
any-of_includes p c (x ∷ xs) h i = elim (Bool-cases (x == c)) [
  | inl e ↦ ground (arith, h, e, ap p ((eq_iff x c).0 e))
  | inr e ↦ ground (arith, e, i, any-of_includes p c xs h)
]

-- After a reset no kind counts as synced in the contexts of the reset, and after the next change a
-- kind does there exactly if its key is that of the change.
pub kinds-sync :
    (ctxs : List String) (s : Events) (c kind ctx changed : String)
    → includes c ctxs ≡ true
    → (is_kind_synced c kind (reset_sync_state ctxs s) ≡ false)
      × (is_kind_synced c kind (kube_change ctx changed (reset_sync_state ctxs s)).0
          ≡ (sync_key ctx changed == sync_key c kind))
unfolding is_kind_synced reset_sync_state Events.install kube_change
kinds-sync ctxs s c kind ctx changed i =
    let gone : includes (sync_key c kind) (reset_from ctxs s.synced_kinds) ≡ false = ground (
      arith,
      includes-reset_from (sync_key c kind) ctxs s.synced_kinds,
      any-of_includes (λ ctx. starts_with (sync_key c kind) (sync_key ctx "")) c ctxs
          (starts_with-sync_key c kind) i,
    ) in
    (
      gone,
      ground (
        arith,
        gone,
        includes-added (sync_key c kind) (sync_key ctx changed) (reset_from ctxs s.synced_kinds),
      ),
    )

-- The handlers of a kind, and whether a handler is called with a context.
abbrev pub handlers_of : String → Events → List ℕ
handlers_of kind s = or_else (Dict.get s.handlers kind) []

abbrev pub is_called : ℕ → String → List (ℕ × String) → Bool
is_called h ctx calls = any (λ (c : ℕ × String). eqb h c.0 && ctx == c.1) calls

is_called-map :
    (h : ℕ) (ctx : String) (hs : List ℕ) → is_called h ctx (map (λ h. (h, ctx)) hs) ≡ is_among h hs
is_called-map h ctx [] = refl
is_called-map h ctx (x ∷ xs) = ground (arith, is_called-map h ctx xs, eq_refl ctx)

is_among-append :
    (h : ℕ) (xs ys : List ℕ) → is_among h (xs ++ ys) ≡ (is_among h xs || is_among h ys)
is_among-append h [] ys = refl
is_among-append h (x ∷ xs) ys = ground (arith, is_among-append h xs ys)

is_among-keep :
    (h handler : ℕ) (xs : List ℕ)
    → is_among h (keep (λ x. not (eqb handler x)) xs) ≡ (not (eqb handler h) && is_among h xs)
is_among-keep h handler [] = ground arith
is_among-keep h handler (x ∷ xs) = ground (arith, is_among-keep h handler xs)

eqb→eq : (a b : ℕ) → eqb a b ≡ true → a ≡ b
eqb→eq a b h = ground (arith, h)

is_among_once :
    (h handler : ℕ) (set : List ℕ)
    → is_among h (if is_among handler set then set else set ++ handler ∷ [])
      ≡ (eqb handler h || is_among h set)
is_among_once h handler set = elim (Bool-cases (eqb handler h)) [
  | inl e ↦ ground (
    arith,
    is_among-append h set (handler ∷ []),
    e,
    ap (λ h. is_among h set) (eqb→eq handler h e),
  )
  | inr e ↦ ground (arith, is_among-append h set (handler ∷ []), e)
]

is_among-unsubscribe :
    (kind : String) (handler : ℕ) (s : Events) (changed : String) (h : ℕ)
    → is_among h (handlers_of changed (unsubscribe kind handler s))
      ≡ (not (kind == changed && eqb handler h) && is_among h (handlers_of changed s))
unfolding unsubscribe
is_among-unsubscribe kind handler s changed h = elim (Option-cases (Dict.get s.handlers kind)) [
  | inl e ↦ ground (arith, e, eq_iff kind changed)
  | inr (set, e) ↦ ground (
    arith,
    e,
    eq_iff kind changed,
    get-put s.handlers kind changed (keep (λ h. not (eqb handler h)) set),
    is_among-keep h handler set,
  )
]

calls-kube_change :
    (s : Events) (ctx changed : String) (h : ℕ)
    → s.installed ≡ true
    → is_called h ctx (kube_change ctx changed s).1 ≡ is_among h (handlers_of changed s)
unfolding kube_change
calls-kube_change s ctx changed h i = ground (arith, i, is_called-map h ctx (handlers_of changed s))

is_among-on_kube_change :
    (kind : String) (handler : ℕ) (s : Events) (changed : String) (h : ℕ)
    → is_among h (handlers_of changed (on_kube_change kind handler s))
      ≡ ((kind == changed && eqb handler h) || is_among h (handlers_of changed s))
unfolding on_kube_change Events.install
is_among-on_kube_change kind handler s changed h =
    let set = handlers_of kind s in
    ground (
      arith,
      get-put s.handlers kind changed (if is_among handler set then set else set ++ handler ∷ []),
      eq_iff kind changed,
      is_among_once h handler set,
    )

-- After a handler subscribes to a kind, a change calls it if the change is of that kind, with the
-- context, and calls the other handlers as before; after it unsubscribes no change of that kind calls
-- it any more, and the other handlers are still called.
pub calls-subscriptions :
    (kind : String) (handler : ℕ) (s : Events) (ctx changed : String) (h : ℕ)
    → (is_called h ctx (kube_change ctx changed (on_kube_change kind handler s)).1
        ≡ ((kind == changed && eqb handler h) || is_among h (handlers_of changed s)))
      × (is_called h ctx
            (kube_change ctx changed (unsubscribe kind handler (on_kube_change kind handler s))).1
          ≡ (not (kind == changed && eqb handler h) && is_among h (handlers_of changed s)))
calls-subscriptions kind handler s ctx changed h =
    let t = on_kube_change kind handler s in
    (
      calls-kube_change t ctx changed h installed
          ∙ is_among-on_kube_change kind handler s changed h,
      calls-kube_change (unsubscribe kind handler t) ctx changed h unsubscribed
          ∙ ground (
            arith,
            is_among-unsubscribe kind handler t changed h,
            is_among-on_kube_change kind handler s changed h,
          ),
    )
  where
    installed : (on_kube_change kind handler s).installed ≡ true
    installed = unfold on_kube_change Events.install in refl

    unsubscribed : (unsubscribe kind handler (on_kube_change kind handler s)).installed ≡ true
    unsubscribed = unfold unsubscribe on_kube_change Events.install in refl
