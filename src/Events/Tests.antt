-- ===== src/Events/Tests.antt =====
-- Changes and subscriptions on a concrete state.
use klustr.Prelude.{true, false, not, any, includes, refl, ◌≡◌, ◌&&◌, ◌∷◌, []}
use klustr.Events
use klustr.Events.{
  Events, install, is_among, is_kind_synced, kube_change, on_kube_change, reset_from,
  reset_sync_state, sync_key, unsubscribe,
}
use klustr.Events.Laws.{is_kind_synced-reset}
use text.Mathlib.Text.{starts_with}

abbrev watched : Events
watched = record { synced_kinds = sync_key "a b" "pods" ∷ []; handlers = []; installed = true }

is_reset : includes "a" ("a" ∷ []) ≡ true
unfolding includes
is_reset = refl

is_kind_synced-reset_example : is_kind_synced "a b" "pods" (reset_sync_state ("a" ∷ []) watched) ≡ (
    is_kind_synced "a b" "pods" watched
    && not (any (λ ctx. starts_with (sync_key "a b" "pods") (sync_key ctx "")) ("a" ∷ [])))
is_kind_synced-reset_example = is_kind_synced-reset ("a" ∷ []) watched "a b" "pods"

-- A reset of the context "a" forgets also what has synced in the context "a b".
other_context : is_kind_synced "a b" "pods" (reset_sync_state ("a" ∷ []) watched) ≡ false
unfolding is_kind_synced reset_sync_state reset_from Events.install includes
other_context = refl

still_synced : is_kind_synced "a b" "pods" watched ≡ true
unfolding is_kind_synced includes
still_synced = refl
