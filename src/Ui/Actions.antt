-- ===== src/Ui/Actions.antt =====
-- store/ui.ts: the store at boot, and its actions as data, so that a run of the program is a list.
pub mod Boot
pub mod Frame
pub mod Reachable
pub mod Restart
pub mod Saved
pub mod Sessions
mod Tests
use klustr.Prelude.{
  ℕ, String, Bool, true, false, Option, none, some, List, [], ◌∷◌, or_else, is_some, not,
}
use klustr.Prelude.Numerals.{ℤ}
use klustr.Storage.{Storage, JsonText}
use klustr.Collation.{Collation}
use klustr.Ui.Views.{ResourceView, overview}
use klustr.Ui.Types.{CustomTagDef, ContextGroup, SelectedResource, DetailTab, PendingAction}
use klustr.Ui.Themes.{get_theme, default_dark, default_light}
use klustr.Ui.Persistence.Read.{
  read_collapsed_nav_groups, read_expanded_crd_groups, read_aggregated_contexts,
  read_hidden_sidebar_items_by_context, read_namespaces_by_context, read_default_context,
  read_global_read_only, read_sidebar_mode, read_sidebar_width, read_saved_theme_id,
  read_last_session, read_context_groups, read_context_tags, read_custom_tags,
}
use klustr.Ui.State.{UiState, World, active_contexts}
use klustr.Ui.Contexts.{
  saved_namespaces, several, set_selected_context, set_aggregated_contexts,
  toggle_aggregated_context, clear_aggregated_contexts, clear_last_session, set_selected_namespaces,
  toggle_selected_namespace, clear_selected_namespaces, set_default_context,
}
use klustr.Ui.Inspector.{
  set_selected_view, set_selected_crd, set_selected_resource, open_resource, go_back_resource,
  set_pending_action,
}
use klustr.Ui.Appearance.{apply_theme_classes, set_theme, on_system_change, set_global_read_only}
use klustr.Ui.Sidebar.{
  toggle_sidebar_mode, set_sidebar_width, toggle_nav_group, toggle_crd_group, hide_sidebar_item,
  show_sidebar_item, clear_hidden_sidebar_items,
}
use klustr.Ui.Tags.{toggle_context_tag, clear_context_tags, add_custom_tag, remove_custom_tag}
use klustr.Ui.Groups.{upsert_context_group, remove_context_group}

-- `aggregatedAtBoot.length > 0 ? null : initialDefaultContext`
abbrev selected_at_boot : List String → Option String → Option String
selected_at_boot [] default_context = default_context
selected_at_boot (c ∷ cs) default_context = none

abbrev system_theme_id : Bool → String
system_theme_id true = default_dark
system_theme_id false = default_light

-- `create<UIState>`: from localStorage, the system's preference for dark, the time, and the classes
-- that the page has.
unfoldable pub boot : JsonText → Bool → ℕ → Storage → List String → World
unfolding several saved_namespaces active_contexts
boot jt prefers_dark now storage classes =
    let saved = read_saved_theme_id jt storage in
    let theme_id = or_else saved (system_theme_id prefers_dark) in
    let aggregated = several (read_aggregated_contexts jt storage) in
    let selected = selected_at_boot aggregated (read_default_context jt storage) in
    let namespaces = read_namespaces_by_context jt storage in
    record {
      ui = record {
        selected_context = selected;
        aggregated_contexts = aggregated;
        active_group_id = none;
        selected_namespaces = saved_namespaces namespaces (active_contexts aggregated selected);
        namespaces_by_context = namespaces;
        global_read_only = read_global_read_only jt storage;
        selected_view = overview;
        selected_crd_key = none;
        selected_resource = none;
        last_selected_resource = none;
        resource_nav_stack = [];
        requested_tab = none;
        pending_action = none;
        theme_id = theme_id;
        sidebar_mode = read_sidebar_mode jt storage;
        sidebar_width = read_sidebar_width jt storage;
        collapsed_nav_groups = read_collapsed_nav_groups jt storage;
        expanded_crd_groups = read_expanded_crd_groups jt storage;
        hidden_sidebar_items_by_context = read_hidden_sidebar_items_by_context jt storage;
        default_context = read_default_context jt storage;
        context_tags = read_context_tags jt storage;
        custom_tags = read_custom_tags jt storage;
        context_groups = read_context_groups jt storage;
        last_session = read_last_session jt now storage;
      };
      storage = storage;
      root_classes = apply_theme_classes (get_theme theme_id) classes;
      following_system = not (is_some saved);
    }

-- The actions of `UIState`, with the time where they read the clock, and the browser's event.
pub data Action : Type 0 where
  set_selected_context_to : ℕ → Option String → Action
  set_aggregated_contexts_to : ℕ → List String → Option String → Action
  toggle_aggregated : String → Action
  clear_aggregated clear_session : Action
  set_namespaces : List String → Action
  toggle_namespace : String → Action
  clear_namespaces : Action
  set_read_only : Bool → Action
  set_view : ResourceView → Action
  set_crd : Option String → Action
  set_resource : Option SelectedResource → Action
  open_at : SelectedResource → Option DetailTab → Action
  go_back : Action
  set_pending : Option PendingAction → Action
  pick_theme : String → Action
  toggle_mode : Action
  set_width : ℤ → Action
  toggle_nav toggle_crd : String → Action
  hide_item show_item : ResourceView → Action
  clear_hidden : Action
  set_default : Option String → Action
  toggle_tag : String → String → Action
  clear_tags : String → Action
  add_tag : CustomTagDef → Action
  remove_tag : String → Action
  upsert_group : ContextGroup → Action
  remove_group : String → Action
  system_change : Bool → Action

module _ (coll : Collation) where
  unfoldable pub act : Action → World → World
  act (set_selected_context_to now name) w = set_selected_context coll now name w
  act (set_aggregated_contexts_to now names g) w = set_aggregated_contexts coll now names g w
  act (toggle_aggregated name) w = toggle_aggregated_context coll name w
  act clear_aggregated w = clear_aggregated_contexts coll w
  act clear_session w = clear_last_session w
  act (set_namespaces names) w = set_selected_namespaces coll names w
  act (toggle_namespace name) w = toggle_selected_namespace coll name w
  act clear_namespaces w = clear_selected_namespaces w
  act (set_read_only value) w = set_global_read_only value w
  act (set_view view) w = set_selected_view view w
  act (set_crd key) w = set_selected_crd key w
  act (set_resource r) w = set_selected_resource r w
  act (open_at r tab) w = open_resource r tab w
  act go_back w = go_back_resource w
  act (set_pending action) w = set_pending_action action w
  act (pick_theme id) w = set_theme id w
  act toggle_mode w = toggle_sidebar_mode w
  act (set_width px) w = set_sidebar_width px w
  act (toggle_nav label) w = toggle_nav_group label w
  act (toggle_crd label) w = toggle_crd_group label w
  act (hide_item view) w = hide_sidebar_item view w
  act (show_item view) w = show_sidebar_item view w
  act clear_hidden w = clear_hidden_sidebar_items w
  act (set_default name) w = set_default_context name w
  act (toggle_tag name t) w = toggle_context_tag name t w
  act (clear_tags name) w = clear_context_tags name w
  act (add_tag def) w = add_custom_tag def w
  act (remove_tag id) w = remove_custom_tag id w
  act (upsert_group g) w = upsert_context_group g w
  act (remove_group id) w = remove_context_group id w
  act (system_change matches) w = on_system_change matches w

  unfoldable pub run : List Action → World → World
  run [] w = w
  run (a ∷ rest) w = run rest (act a w)
