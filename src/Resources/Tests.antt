-- ===== src/Resources/Tests.antt =====
-- The resource store on concrete states.
use klustr.Prelude.{ℕ, refl, ◌≡◌, ◌==◌, ◌∷◌, [], if◌then◌else◌}
use klustr.Dict
use klustr.Dict.{Dict, get}
use klustr.Resources.Kinds.{KindKey, key_name}
use klustr.Resources.{
  ByContext, ResourcesState, clear_context, empty_maps, merge_for_contexts, set_kind,
}
use klustr.Resources.Laws.{items, items-clear_context}

abbrev pods_of_prod : ResourcesState ℕ
pods_of_prod = set_kind KindKey.pods "prod" (1 ∷ 2 ∷ []) empty_maps

abbrev by_context : ByContext ℕ
by_context = ("prod", 1 ∷ 2 ∷ []) ∷ ("stage", 3 ∷ []) ∷ []

items-clear_context_example :
    items (clear_context "prod" pods_of_prod) (key_name KindKey.pods) "prod"
    ≡ (if "prod" == "prod" then [] else items pods_of_prod (key_name KindKey.pods) "prod")
items-clear_context_example = items-clear_context "prod" pods_of_prod (KindKey.pods) "prod"

merged : merge_for_contexts by_context ("stage" ∷ "prod" ∷ "dev" ∷ []) ≡ 3 ∷ 1 ∷ 2 ∷ []
unfolding merge_for_contexts Dict.get
merged = refl
