-- ===== src/Ui/Fixtures.antt =====
-- Test data for store/ui.ts: a world with an empty localStorage and nothing selected.
use klustr.Prelude.{String, false, none, [], ◌∷◌}
use klustr.Storage.{JsonText}
use klustr.Ui.Views.{ResourceView}
use klustr.Ui.Types.{SidebarMode, SelectedResource, ContextGroup, CustomTagDef}
use klustr.Ui.State.{World}

-- Parsing refuses every text: nothing that is not written by the store is stored.
abbrev pub no_json : JsonText
no_json = record { parse = λ t. none; stringify = λ j. "" }

abbrev pub started : World
started = record {
  ui = record {
    selected_context = none;
    aggregated_contexts = [];
    active_group_id = none;
    selected_namespaces = [];
    namespaces_by_context = [];
    global_read_only = false;
    selected_view = ResourceView.overview;
    selected_crd_key = none;
    selected_resource = none;
    last_selected_resource = none;
    resource_nav_stack = [];
    requested_tab = none;
    pending_action = none;
    theme_id = "light";
    sidebar_mode = SidebarMode.expanded;
    sidebar_width = 240;
    collapsed_nav_groups = [];
    expanded_crd_groups = [];
    hidden_sidebar_items_by_context = [];
    default_context = none;
    context_tags = [];
    custom_tags = [];
    context_groups = [];
    last_session = none;
  };
  storage = [];
  root_classes = [];
  following_system = false;
}

abbrev pub pod : String → SelectedResource
pod name = record {
  kind = "pod";
  namespace = "default";
  name = name;
  gvr = none;
  context = none;
  suspended = none;
  log_container = none;
}

abbrev pub fleet : ContextGroup
fleet = record { id = "g1"; name = "Fleet"; contexts = "prod" ∷ "stage" ∷ []; color = "blue" }

abbrev pub tier : CustomTagDef
tier = record { id = "tier"; label = "Tier"; short_label = "T"; color = "blue" }
