-- ===== src/Polling/Detail/Tests.antt =====
-- Tests of the loading of a resource, and the theorems at a concrete run.
use klustr.Prelude.{String, true, some, List, inl, inr, is_some, refl, ◌≡◌, ◌∷◌, []}
use klustr.Polling.Detail.Laws.{
  IsOneAnswer, handle_all-IsOneAnswer, is_answered_or_awaited, is_answered_or_awaited-handle_all,
}
use klustr.Polling.Detail.{Event, handle, handle_all, mounted}

-- The first resource fails to load after another context was chosen.
abbrev switched : List (Event String)
switched =
    Event.rerun (some "prod") "Pod"
    ∷ Event.rerun (some "dev") "Pod"
    ∷ Event.answer 0 (inr "refused")
    ∷ Event.change "Pod" "dev"
    ∷ Event.answer 0 (inl "web")
    ∷ []

named_dev : is_some (handle_all switched mounted).context_name ≡ true
unfolding handle_all handle
named_dev = refl

-- The error of the first context is not shown.
shown_web : (handle_all switched mounted).detail ≡ some "web"
unfolding handle_all handle
shown_web = refl

handle_all-IsOneAnswer_example : IsOneAnswer (handle_all switched mounted)
handle_all-IsOneAnswer_example = handle_all-IsOneAnswer switched

is_answered_or_awaited-handle_all_example :
    is_answered_or_awaited (handle_all switched (mounted {T = String})) ≡ true
is_answered_or_awaited-handle_all_example = is_answered_or_awaited-handle_all switched named_dev
