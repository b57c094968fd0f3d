-- ===== src/Ui/Inspector.antt =====
-- store/ui.ts: the view on screen, the resource that is open, and the way back to the resources
-- that were open before.
pub mod Navigation
use klustr.Prelude.{
  String, Bool, true, false, Option, none, some, List, [], ◌∷◌, ◌++◌, ◌==◌, ◌&&◌, if◌then◌else◌,
  get_last?, drop_last,
}
use klustr.Ui.Views.{ResourceView}
use klustr.Ui.Types.{SelectedResource, DetailTab, PendingAction}
use klustr.Ui.State.{UiState, World}

unfoldable pub same_resource : SelectedResource → SelectedResource → Bool
same_resource a b = a.kind == b.kind && a.namespace == b.namespace && a.name == b.name

unfoldable pub set_selected_view : ResourceView → World → World
set_selected_view view w = record w {
  ui = record w.ui {
    selected_view = view;
    selected_crd_key = none;
    selected_resource = none;
    last_selected_resource = none;
    resource_nav_stack = [];
    requested_tab = none;
  };
}

unfoldable pub set_selected_crd : Option String → World → World
set_selected_crd key w = record w {
  ui = record w.ui {
    selected_crd_key = key;
    selected_resource = none;
    last_selected_resource = none;
    resource_nav_stack = [];
    requested_tab = none;
  };
}

-- `a ?? b`, for values that may be absent
abbrev first_present : Option SelectedResource → Option SelectedResource → Option SelectedResource
first_present none b = b
first_present (some a) b = some a

unfoldable pub set_selected_resource : Option SelectedResource → World → World
set_selected_resource resource w = record w {
  ui = record w.ui {
    selected_resource = resource;
    last_selected_resource =
        first_present resource (first_present w.ui.selected_resource w.ui.last_selected_resource);
    resource_nav_stack = [];
    requested_tab = none;
  };
}

-- The stack of `openResource`: the resource that is left goes on it, if it is another one.
unfoldable pub pushed :
    Option SelectedResource → SelectedResource → List SelectedResource → List SelectedResource
unfolding same_resource
pushed none resource stack = stack
pushed (some current) resource stack =
    if same_resource current resource then stack else stack ++ current ∷ []

unfoldable pub open_resource : SelectedResource → Option DetailTab → World → World
unfolding pushed
open_resource resource tab w = record w {
  ui = record w.ui {
    resource_nav_stack = pushed w.ui.selected_resource resource w.ui.resource_nav_stack;
    selected_resource = some resource;
    last_selected_resource = some resource;
    requested_tab = tab;
  };
}

unfoldable pub go_back_resource : World → World
go_back_resource w = elim (get_last? w.ui.resource_nav_stack) [
  | none ↦ w
  | some next ↦ record w {
    ui = record w.ui {
      selected_resource = some next;
      last_selected_resource = some next;
      resource_nav_stack = drop_last w.ui.resource_nav_stack;
      requested_tab = none;
    };
  }
]

unfoldable pub set_pending_action : Option PendingAction → World → World
set_pending_action action w = record w { ui = record w.ui { pending_action = action } }
