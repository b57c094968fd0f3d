-- ===== src/Ui/Actions/Tests.antt =====
-- The actions of store/ui.ts on concrete worlds.
use klustr.Prelude.{
  String, false, Option, none, some, List, inl, length, arith, includes, without, same_list,
  Distinct, get_last?, refl, ◌≡◌, ◌&&◌, ◌==◌, ◌∷◌, ◌≤◌, [], if◌then◌else◌,
}
use klustr.Dict
use klustr.Dict.{Dict, get, keys}
use klustr.Collation.CodePoints.{code_points}
use klustr.Ui.Types.{DetailTab, SelectedResource}
use klustr.Ui.Views.{ResourceView, view_name}
use klustr.Ui.State.{World, active_contexts, effective_context_list, single_context}
use klustr.Ui.Contexts.{namespace_key, set_selected_context, several}
use klustr.Ui.Contexts.Selection.{active}
use klustr.Ui.Inspector.{
  go_back_resource, open_resource, pushed, same_resource, set_selected_crd, set_selected_resource,
  set_selected_view,
}
use klustr.Ui.Inspector.Navigation.{
  IsTrail, go_back-open, go_back-open-switch, inspector-IsTrail, selected, stack,
}
use klustr.Ui.Tags.{remove_custom_tag, tags_of}
use klustr.Ui.Tags.Laws.{IsTagBounded, tags, tags-remove_custom_tag}
use klustr.Ui.Groups.{cleaned, remove_context_group, upsert_context_group}
use klustr.Ui.Groups.Laws.{find, find-group_actions, groups, is_accepted}
use klustr.Ui.Sidebar.{clear_hidden_sidebar_items, hide_sidebar_item, show_sidebar_item}
use klustr.Ui.Sidebar.Hidden.{entry, entry-sidebar_actions, hidden_also, is_active, shown_again}
use klustr.Ui.Actions.{Action, run}
use klustr.Ui.Actions.Reachable.{IsInvariant, run-IsInvariant}
use klustr.Ui.Fixtures.{fleet, pod, started, tier}
use klustr.Ui.Actions.{Action, set_aggregated_contexts_to, set_width, upsert_group}
use klustr.Prelude.Numerals.{pos}

started-IsInvariant : IsInvariant code_points started
unfolding keys
started-IsInvariant = (
  record {
    exclusive = inl refl;
    enough = several-nil;
    canonical = (tt, tt);
    remembered = inl key-nil;
  },
  record {
    bounded = λ ctx. tags_bounded ctx;
    keyed = tt;
    grouped = record { distinct = tt; clean = tt };
    wide = (omega arith, omega arith);
  },
)
  where
    several-nil : several [] ≡ []
    several-nil = unfold several in refl

    key-nil : namespace_key (active_contexts [] none) ≡ ""
    key-nil = unfold namespace_key active_contexts single_context in refl

    tags_bounded : (ctx : String) → length (tags_of [] ctx) ≤ 3
    tags_bounded ctx = unfold Dict.get in omega arith

abbrev session : List Action
session =
    set_aggregated_contexts_to 5 ("stage" ∷ "prod" ∷ []) (some "g1")
    ∷ set_width (pos 900)
    ∷ upsert_group fleet
    ∷ []

run-IsInvariant_example : IsInvariant code_points (run code_points session started)
run-IsInvariant_example = run-IsInvariant code_points session started started-IsInvariant

-- Inspecting resources.
abbrev web : SelectedResource
web = pod "web"

abbrev db : SelectedResource
db = pod "db"

abbrev viewing : World
viewing = set_selected_resource (some web) started

abbrev viewing_db : World
viewing_db = open_resource db none viewing

others : same_resource web db ≡ false
unfolding same_resource
others = refl

trail : IsTrail (stack started) (selected started)
trail = record { alternates = tt; anchored = inl refl }

elsewhere : same_list (single_context (some "prod")) (active viewing_db) ≡ false
unfolding same_list single_context active_contexts effective_context_list open_resource
    set_selected_resource
elsewhere = refl

way_back : get_last? (stack viewing_db) ≡ some web
unfolding open_resource set_selected_resource pushed same_resource
way_back = refl

viewed : selected viewing ≡ some web
unfolding set_selected_resource
viewed = refl

go_back-open_example :
    (selected (go_back_resource (open_resource db none viewing)) ≡ some web)
    × (stack (go_back_resource (open_resource db none viewing)) ≡ stack viewing)
    × ((go_back_resource (open_resource db none viewing)).ui.last_selected_resource ≡ some web)
    × ((go_back_resource (open_resource db none viewing)).ui.requested_tab ≡ none)
go_back-open_example = go_back-open web db none viewing viewed others

inspector-IsTrail_example :
    ((new : SelectedResource) (tab : Option DetailTab)
      → IsTrail (stack (open_resource new tab started)) (selected (open_resource new tab started)))
    × IsTrail (stack (go_back_resource started)) (selected (go_back_resource started))
    × ((r : Option SelectedResource)
        → IsTrail
            (stack (set_selected_resource r started))
            (selected (set_selected_resource r started)))
    × ((view : ResourceView)
        → IsTrail
            (stack (set_selected_view view started))
            (selected (set_selected_view view started)))
    × ((key : Option String)
        → IsTrail (stack (set_selected_crd key started)) (selected (set_selected_crd key started)))
inspector-IsTrail_example = inspector-IsTrail started trail

go_back-open-switch_example :
    (selected (set_selected_context code_points 7 (some "prod") viewing_db) ≡ none)
    × (selected (
          go_back_resource
            (open_resource db none (set_selected_context code_points 7 (some "prod") viewing_db)))
        ≡ some web)
go_back-open-switch_example =
    go_back-open-switch code_points 7 (some "prod") web db none viewing_db elsewhere way_back

abbrev on_prod : World
on_prod = set_selected_context code_points 1 (some "prod") started

abbrev hiding : World
hiding = hide_sidebar_item ResourceView.pods on_prod

-- Tags, groups, the sidebar and the theme.
abbrev tagged : World
tagged = record started {
  ui = record started.ui {
    context_tags = ("prod", "critical" ∷ "tier" ∷ []) ∷ [];
    custom_tags = ("tier", tier) ∷ [];
  };
}

tagged-keys : Distinct (keys tagged.ui.context_tags)
unfolding keys includes
tagged-keys = (refl, tt)

untagged-IsTagBounded : IsTagBounded started
unfolding Dict.get
untagged-IsTagBounded ctx = omega arith

untagged-keys : Distinct (keys started.ui.context_tags)
unfolding keys
untagged-keys = tt

tags-remove_custom_tag_example :
    ((ctx : String) → tags (remove_custom_tag "tier" tagged) ctx ≡ without "tier" (tags tagged ctx))
    × ((j : String)
        → Dict.get (remove_custom_tag "tier" tagged).ui.custom_tags j
          ≡ (if "tier" == j then none else Dict.get tagged.ui.custom_tags j))
tags-remove_custom_tag_example = tags-remove_custom_tag "tier" tagged tagged-keys

find-group_actions_example :
    (find "g1" (groups (upsert_context_group fleet started)) ≡ (
      if is_accepted fleet && fleet.id == "g1"
      then some (cleaned fleet)
      else find "g1" (groups started)))
    × (find "g1" (groups (remove_context_group "g1" started))
        ≡ (if "g1" == "g1" then none else find "g1" (groups started)))
find-group_actions_example = find-group_actions fleet "g1" "g1" started

entry-sidebar_actions_example :
    (entry (hide_sidebar_item ResourceView.pods on_prod) "prod" ≡ (
      if is_active on_prod "prod"
      then hidden_also (view_name ResourceView.pods) (entry on_prod "prod")
      else entry on_prod "prod"))
    × (entry (show_sidebar_item ResourceView.pods on_prod) "prod" ≡ (
        if is_active on_prod "prod"
        then shown_again (view_name ResourceView.pods) (entry on_prod "prod")
        else entry on_prod "prod"))
    × (entry (clear_hidden_sidebar_items on_prod) "prod"
        ≡ (if is_active on_prod "prod" then none else entry on_prod "prod"))
entry-sidebar_actions_example = entry-sidebar_actions (ResourceView.pods) on_prod "prod"
