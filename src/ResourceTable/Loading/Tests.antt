-- ===== src/ResourceTable/Loading/Tests.antt =====
-- Tests of the loading effect, and the theorems at concrete runs.
use klustr.Prelude.{String, true, false, some, List, includes, All, refl, ◌≡◌, ◌∷◌, []}
use klustr.ResourceTable.Loading.Laws.{by_context-handle}
use klustr.ResourceTable.Loading.Progress.{IsQuiet, all_loaded-grace}
use klustr.ResourceTable.Loading.{Event, all_loaded, handle, handle_all, mounted}
use klustr.Resources.{ByContext}
use klustr.Dict
use klustr.Dict.{Dict, get}

abbrev prod_only : List String
prod_only = "prod" ∷ []

abbrev listed : ByContext String
listed = ("prod", "shop" ∷ "jobs" ∷ "web" ∷ []) ∷ []

-- The answer for `prod` comes after `dev` was chosen.
abbrev late : List (Event String)
late = Event.rerun prod_only "" ∷ Event.rerun ("dev" ∷ []) "" ∷ []

abbrev answer_late : Event String
answer_late = Event.answer 0 (some ("pod" ∷ [])) true

left_prod : includes "prod" (handle_all late (mounted [])).active ≡ false
unfolding handle_all includes
left_prod = refl

abbrev empty_answer : List (Event String)
empty_answer = Event.answer 0 (some []) false ∷ []

empty-IsQuiet : All IsQuiet empty_answer
empty-IsQuiet = (tt, tt)

by_context-handle_example :
    Dict.get (handle answer_late (handle_all late (mounted []))).by_context "prod"
    ≡ Dict.get (handle_all late (mounted [])).by_context "prod"
by_context-handle_example = by_context-handle ([]) late answer_late "prod" left_prod

all_loaded-grace_example :
    all_loaded (handle_all empty_answer (handle Event.grace (handle_all late (mounted listed))))
    ≡ true
all_loaded-grace_example = all_loaded-grace listed late empty_answer empty-IsQuiet
