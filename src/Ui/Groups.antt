-- ===== src/Ui/Groups.antt =====
-- store/ui.ts: the named groups of contexts.
pub mod Laws
use Prim.Native.Char.{Char, code}
use Prim.Native.String
use klustr.Prelude.{
  ℕ, zero, suc, String, Bool, true, false, Option, none, some, List, [], ◌∷◌, ◌++◌, ◌==◌,
  if◌then◌else◌, eqb, length, without, dedupe,
}
use klustr.Prelude.Numerals.{trim}
use klustr.Ui.Types.{ContextGroup}
use klustr.Ui.Persistence.{is_valid_group_color, persist_context_groups}
use klustr.Ui.State.{UiState, World}

-- The group that `upsertContextGroup` stores: `contexts` loses its empty names and repetitions.
unfoldable pub cleaned : ContextGroup → ContextGroup
cleaned group = record {
  id = group.id;
  name = trim group.name;
  contexts = dedupe (without "" group.contexts);
  color = if is_valid_group_color group.color then group.color else "sky";
}

-- `groups.findIndex((g) => g.id === id)`
unfoldable pub find_index : String → List ContextGroup → Option ℕ
find_index id [] = none
find_index id (g ∷ gs) =
    let later : Option ℕ = elim (find_index id gs) [ none ↦ none | some i ↦ some (suc i) ] in
    if g.id == id then some zero else later

-- `groups.map((g, i) => (i === idx ? cleaned : g))`
unfoldable pub replace_at : ℕ → ContextGroup → List ContextGroup → List ContextGroup
replace_at i new [] = []
replace_at zero new (g ∷ gs) = new ∷ gs
replace_at (suc i) new (g ∷ gs) = g ∷ replace_at i new gs

unfoldable pub upserted : ContextGroup → List ContextGroup → List ContextGroup
unfolding find_index replace_at
upserted new groups = elim (find_index new.id groups) [
  | none ↦ groups ++ new ∷ []
  | some i ↦ replace_at i new groups
]

abbrev pub is_empty : List String → Bool
is_empty [] = true
is_empty (x ∷ xs) = false

abbrev with_groups : List ContextGroup → World → World
with_groups next w = record w {
  ui = record w.ui { context_groups = next };
  storage = persist_context_groups next w.storage;
}

unfoldable pub upsert_context_group : ContextGroup → World → World
unfolding cleaned upserted
upsert_context_group group w =
    if (cleaned group).name == ""
    then w
    else if is_empty (cleaned group).contexts
    then w
    else with_groups (upserted (cleaned group) w.ui.context_groups) w

-- `groups.filter((g) => g.id !== id)`
unfoldable pub without_group : String → List ContextGroup → List ContextGroup
without_group id [] = []
without_group id (g ∷ gs) =
    let rest = without_group id gs in elim (g.id == id) [ true ↦ rest | false ↦ g ∷ rest ]

unfoldable pub remove_context_group : String → World → World
unfolding without_group
remove_context_group id w =
    let next = without_group id w.ui.context_groups in
    if eqb (length next) (length w.ui.context_groups) then w else with_groups next w
