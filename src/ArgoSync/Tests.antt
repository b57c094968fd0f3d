-- ===== src/ArgoSync/Tests.antt =====
-- Tests of the synchronization of an application, and the theorems at concrete dialogs.
use klustr.Prelude.{true, false, some, List, includes, without, All, refl, ◌≡◌, ◌∷◌, []}
use klustr.ArgoSync.Current.{handle-handle_all-IsShownAfter}
use klustr.ArgoSync.Laws.{IsShownAfter}
use klustr.ArgoSync.Timeout.{IsQuiet, polls_now, polls_now-handle_all-time_out}
use klustr.ArgoSync.{
  Dialog, Event, OperationState, Phase, asked, handle, handle_all, has_name, is_polling, mounted,
  selected_resources, set_phase,
}

abbrev done : OperationState
done = record { phase = "Succeeded"; started_at_ms = some 98500 }

abbrev earlier : OperationState
earlier = record { phase = "Succeeded"; started_at_ms = some 97999 }

-- A synchronization at 100000 is polled.
abbrev started : List Event
started =
    Event.set_open true
    ∷ Event.toggle_selected "apps|Deployment|shop|web"
    ∷ Event.synchronize
    ∷ Event.sync_done 0 100000 true
    ∷ []

abbrev polled : Dialog
polled = handle_all started (mounted (some "prod"))

-- The state of an operation of before is not taken for the result.
old_ignored : is_polling (handle (Event.answer 0 (some earlier)) polled).phase ≡ true
unfolding handle_all handle asked set_phase includes without
old_ignored = refl

new_shown : (handle (Event.answer 0 (some done)) polled).phase ≡ Phase.results done false
unfolding handle_all handle asked set_phase includes without
new_shown = refl

abbrev under_way : Dialog
under_way = handle_all (Event.set_open true ∷ Event.synchronize ∷ []) (mounted (some "prod"))

one_sync : under_way.syncs ≡ false ∷ []
unfolding handle_all handle
one_sync = refl

polled_named : has_name polled.context_name ≡ true
unfolding handle_all handle asked set_phase includes
polled_named = refl

abbrev late_answer : List Event
late_answer = Event.answer 0 (some done) ∷ Event.sync_done 0 100 false ∷ []

late-IsQuiet : All IsQuiet late_answer
late-IsQuiet = (tt, (refl, tt))

web_chosen :
    selected_resources ("apps|Deployment|shop|web" ∷ []) (
      record { group = "apps"; kind = "Deployment"; namespace = "shop"; name = "web" }
      ∷ record { group = ""; kind = "Service"; namespace = "shop"; name = "web" }
      ∷ [])
    ≡ record { group = "apps"; kind = "Deployment"; namespace = "shop"; name = "web" } ∷ []
unfolding selected_resources includes
web_chosen = refl

handle-handle_all-IsShownAfter_example :
    IsShownAfter
      (handle (Event.answer 0 (some done)) (handle_all started (mounted (some "prod")))).phase
      (handle_all started (mounted (some "prod"))).phase
handle-handle_all-IsShownAfter_example =
    handle-handle_all-IsShownAfter (some "prod") started (Event.answer 0 (some done))

polls_now-handle_all-time_out_example :
    polls_now (handle_all late_answer (handle Event.time_out polled)) ≡ false
polls_now-handle_all-time_out_example =
    polls_now-handle_all-time_out polled late_answer polled_named late-IsQuiet
