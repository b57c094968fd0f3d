-- ===== src/Ui/State.antt =====
-- store/ui.ts: the state of the UI store, and what an action can change beside it. An action is a
-- function on worlds: the store's state, localStorage, and the page's theme classes.
use klustr.Prelude.{ℕ, String, Bool, Option, none, some, List, [], ◌∷◌, ◌==◌, if◌then◌else◌}
use klustr.Dict.{Dict}
use klustr.Storage.{Storage}
use klustr.Ui.Views.{ResourceView}
use klustr.Ui.Types.{
  SidebarMode, CustomTagDef, ContextGroup, LastSession, SelectedResource, DetailTab, PendingAction,
}

pub record UiState : Type 0 where
  pub selected_context : Option String
  pub aggregated_contexts : List String
  pub active_group_id : Option String
  pub selected_namespaces : List String
  pub namespaces_by_context : Dict (List String)
  pub global_read_only : Bool
  pub selected_view : ResourceView
  pub selected_crd_key : Option String
  pub selected_resource : Option SelectedResource
  pub last_selected_resource : Option SelectedResource
  pub resource_nav_stack : List SelectedResource
  pub requested_tab : Option DetailTab
  pub pending_action : Option PendingAction
  pub theme_id : String
  pub sidebar_mode : SidebarMode
  pub sidebar_width : ℕ
  pub collapsed_nav_groups : List String
  pub expanded_crd_groups : List String
  pub hidden_sidebar_items_by_context : Dict (List String)
  pub default_context : Option String
  pub context_tags : Dict (List String)
  pub custom_tags : Dict CustomTagDef
  pub context_groups : List ContextGroup
  pub last_session : Option LastSession

-- `following_system` is the closure variable that says whether the theme listener is installed.
pub record World : Type 0 where
  pub ui : UiState
  pub storage : Storage
  pub root_classes : List String
  pub following_system : Bool

-- `name ? [name] : []`, where the empty text counts as absent
unfoldable pub single_context : Option String → List String
single_context none = []
single_context (some name) = if name == "" then [] else name ∷ []

-- `aggregatedContexts.length > 0 ? aggregatedContexts : selectedContext ? [selectedContext] : []`
unfoldable pub active_contexts : List String → Option String → List String
unfolding single_context
active_contexts [] selected = single_context selected
active_contexts (x ∷ xs) selected = x ∷ xs

unfoldable pub effective_context_list : UiState → List String
unfolding active_contexts
effective_context_list s = active_contexts s.aggregated_contexts s.selected_context
