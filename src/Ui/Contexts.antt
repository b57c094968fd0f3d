-- ===== src/Ui/Contexts.antt =====
-- store/ui.ts: the active contexts and the namespace selection that is remembered for each set of
-- them. `Date.now()` is an argument of the actions that read it.
pub mod Selection
pub mod Memory
pub mod Invariant
mod Tests
use Prim.Native.String
use klustr.Prelude.{
  ℕ, String, Bool, true, false, Option, none, some, List, [], ◌∷◌, ◌++◌, ◌==◌, ◌&&◌, if◌then◌else◌,
  or_else, includes, without, same_list,
}
use klustr.Dict
use klustr.Dict.{Dict}
use klustr.Collation.{Collation, dedupe_sorted}
use klustr.Ui.Types.{LastSession}
use klustr.Ui.Persistence.{
  persist_aggregated_contexts, persist_namespaces_by_context, persist_last_session,
  persist_default_context,
}
use klustr.Ui.State.{UiState, World, active_contexts, effective_context_list, single_context}

-- `contexts.join('\n')`
unfoldable pub namespace_key : List String → String
namespace_key [] = ""
namespace_key (c ∷ []) = c
namespace_key (c ∷ d ∷ cs) = String.◌++◌ c (String.◌++◌ "\n" (namespace_key (d ∷ cs)))

-- `namespacesByContext[namespaceKey(contexts)] ?? []`
unfoldable pub saved_namespaces : Dict (List String) → List String → List String
saved_namespaces map contexts = or_else (Dict.get map (namespace_key contexts)) []

-- `sortedNext.length >= 2 ? sortedNext : []`
unfoldable pub several : List String → List String
several (c ∷ d ∷ cs) = c ∷ d ∷ cs
several _ = []

-- `sortedNext.length === 1 ? sortedNext[0] : null`
unfoldable pub only_one : List String → Option String
only_one (c ∷ []) = some c
only_one _ = none

abbrev pub same_group : Option String → Option String → Bool
same_group none none = true
same_group (some a) (some b) = a == b
same_group _ _ = false

-- `persistLastSession(ls)` and `lastSession: ls`
unfoldable pub with_session : List String → Option String → ℕ → World → World
with_session contexts group_id now w =
    let session : LastSession = record { contexts = contexts; group_id = group_id; at = now } in
    record w {
      ui = record w.ui { last_session = some session };
      storage = persist_last_session (some session) w.storage;
    }

-- `if (next.length > 0)`, and `if (name)`
abbrev pub session_if_any : List String → Option String → ℕ → World → World
session_if_any [] group_id now w = w
session_if_any (c ∷ cs) group_id now w = with_session (c ∷ cs) group_id now w

abbrev pub with_group : Option String → World → World
with_group group_id w = record w { ui = record w.ui { active_group_id = group_id } }

unfoldable pub clear_last_session : World → World
clear_last_session w = record w {
  ui = record w.ui { last_session = none };
  storage = persist_last_session none w.storage;
}

-- An empty selection is not stored: its key is deleted.
unfoldable pub save_namespaces : Dict (List String) → String → List String → Dict (List String)
save_namespaces map key [] = Dict.remove map key
save_namespaces map key (n ∷ ns) = Dict.put map key (n ∷ ns)

unfoldable pub apply_namespace_selection : List String → World → World
unfolding effective_context_list save_namespaces
apply_namespace_selection next w =
    let key = namespace_key (effective_context_list w.ui) in
    let map = save_namespaces w.ui.namespaces_by_context key next in
    if key == "" then record w { ui = record w.ui { selected_namespaces = next } } else record w {
      ui = record w.ui { selected_namespaces = next; namespaces_by_context = map };
      storage = persist_namespaces_by_context map w.storage;
    }

unfoldable pub clear_selected_namespaces : World → World
unfolding apply_namespace_selection
clear_selected_namespaces w = apply_namespace_selection [] w

-- `name && name.length > 0 ? name : null`
abbrev pub nonempty_name : Option String → Option String
nonempty_name none = none
nonempty_name (some name) = if name == "" then none else some name

unfoldable pub set_default_context : Option String → World → World
set_default_context name w = record w {
  ui = record w.ui { default_context = nonempty_name name };
  storage = persist_default_context (nonempty_name name) w.storage;
}

module _ (coll : Collation) where
  -- `normalizeContexts` spread over the state: its fields, and the write to localStorage
  unfoldable pub normalize_contexts : List String → World → World
  unfolding several only_one saved_namespaces active_contexts
  normalize_contexts next w =
      let sorted = dedupe_sorted coll next in
      record w {
        ui = record w.ui {
          selected_context = only_one sorted;
          aggregated_contexts = several sorted;
          active_group_id = none;
          selected_namespaces =
              saved_namespaces w.ui.namespaces_by_context
                (active_contexts (several sorted) (only_one sorted));
          selected_crd_key = none;
          selected_resource = none;
          last_selected_resource = none;
        };
        storage = persist_aggregated_contexts (several sorted) w.storage;
      }

  unfoldable pub set_selected_context : ℕ → Option String → World → World
  unfolding normalize_contexts with_session effective_context_list single_context
  set_selected_context now name w =
      let next = single_context name in
      if same_list next (effective_context_list w.ui)
      then w
      else session_if_any next none now (normalize_contexts next w)

  unfoldable pub set_aggregated_contexts : ℕ → List String → Option String → World → World
  unfolding normalize_contexts with_session effective_context_list
  set_aggregated_contexts now names group_id w =
      let next = dedupe_sorted coll names in
      if same_list next (effective_context_list w.ui) && same_group w.ui.active_group_id group_id
      then w
      else session_if_any next group_id now (with_group group_id (normalize_contexts next w))

  unfoldable pub toggled : String → List String → List String
  toggled name current =
      if includes name current
      then without name current
      else dedupe_sorted coll (current ++ name ∷ [])

  unfoldable pub toggle_aggregated_context : String → World → World
  unfolding normalize_contexts effective_context_list toggled
  toggle_aggregated_context name w =
      let next = toggled name (effective_context_list w.ui) in
      if same_list next (effective_context_list w.ui) then w else normalize_contexts next w

  abbrev pub clear_if_any : List String → World → World
  clear_if_any [] w = w
  clear_if_any (c ∷ cs) w = normalize_contexts [] w

  unfoldable pub clear_aggregated_contexts : World → World
  unfolding normalize_contexts effective_context_list
  clear_aggregated_contexts w = clear_if_any (effective_context_list w.ui) w

  unfoldable pub set_selected_namespaces : List String → World → World
  unfolding apply_namespace_selection
  set_selected_namespaces names w = apply_namespace_selection (dedupe_sorted coll names) w

  unfoldable pub toggle_selected_namespace : String → World → World
  unfolding apply_namespace_selection toggled
  toggle_selected_namespace name w =
      apply_namespace_selection (toggled name w.ui.selected_namespaces) w
