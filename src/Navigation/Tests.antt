-- ===== src/Navigation/Tests.antt =====
-- Tests of the sidebar, and the theorems at concrete states.
use klustr.Prelude.{
  ℕ, true, false, not, some, List, length, take, all, includes, All, refl, ◌≡◌, ◌&&◌, ◌∷◌, [],
}
use klustr.Navigation.Laws.{includes-sidebar, is_offered, names, sidebar}
use klustr.Navigation.Hiding.{includes-sidebar-actions}
use klustr.Navigation.Walk.{IsNamed, next_view-sidebar}
use klustr.Navigation.Hidden.Offers.{forgotten, offered_items-forgotten}
use klustr.Navigation.Hidden.{all_nav_items, item_by_view, offered_items}
use klustr.Navigation.{
  KeyEvent, Reaction, all_groups, group_views, index_of_view, nav_views, next_view, on_key,
  visible_groups, visible_of,
}
use klustr.Access.{Reports, accessible_from, kind_accessible_in_any}
use klustr.Crds.{CrdInfo}
use klustr.Ui.State.{World, active_contexts, effective_context_list, single_context}
use klustr.Ui.Sidebar.{hidden_in, hide_sidebar_item, show_sidebar_item}
use klustr.Ui.Sidebar.Hidden.{some_context}
use klustr.Ui.Fixtures.{started}
use klustr.Dict
use klustr.Dict.{Dict, get}
use klustr.Ui.Views.{ResourceView, view_name, overview, pods, workloadsoverview}

-- One context, which lists pods only, with Flux and without the Gateway API.
abbrev one : World
one = record started { ui = record started.ui { selected_context = some "prod" } }

abbrev flux : List (CrdInfo ℕ)
flux = record { group = "kustomize.toolkit.fluxcd.io"; resource = "kustomizations"; info = 0 } ∷ []

abbrev pods_only : Reports
pods_only = ("prod", "Pod" ∷ []) ∷ []

one_active : effective_context_list one.ui ≡ "prod" ∷ []
unfolding effective_context_list active_contexts single_context
one_active = refl

abbrev views : List ResourceView
views = nav_views (visible_groups flux pods_only ("prod" ∷ []) ("events" ∷ []))

first_views : take 4 (names views) ≡ "overview" ∷ "workloadsoverview" ∷ "pods" ∷ "accessreview" ∷ []
unfolding nav_views visible_groups all_groups visible_of group_views kind_accessible_in_any
    accessible_from includes view_name Dict.get
first_views = refl

abbrev down_key : KeyEvent
down_key = record { key = "ArrowDown"; has_modifier = false; is_editable = false }

-- Below the last view is the first.
wraps : on_key down_key (overview ∷ pods ∷ []) pods ≡ Reaction.selects (some overview)
unfolding on_key next_view index_of_view view_name
wraps = refl

overview_there : includes (view_name overview) (names views) ≡ true
unfolding nav_views visible_groups all_groups visible_of group_views kind_accessible_in_any
    accessible_from includes view_name Dict.get
overview_there = refl

below_overview : next_view true views overview ≡ some workloadsoverview
unfolding nav_views visible_groups all_groups visible_of group_views kind_accessible_in_any
    accessible_from includes view_name Dict.get next_view index_of_view
below_overview = refl

abbrev two_views : List ResourceView
two_views = overview ∷ pods ∷ []

bucket_forgotten : All (λ v. includes v forgotten ≡ true) ("fluxbuckets" ∷ [])
unfolding includes group_views view_name
bucket_forgotten = (refl, tt)

offers_pods : length (offered_items ("pods" ∷ "fluxbuckets" ∷ [])) ≡ 1
unfolding offered_items item_by_view all_nav_items view_name
offers_pods = refl

includes-sidebar_example : includes "pods" (sidebar flux pods_only one) ≡ (
    is_offered flux pods_only one "pods"
    && not (
        some_context (effective_context_list one.ui) (
          all
            (λ c. includes "pods" (hidden_in one.ui.hidden_sidebar_items_by_context c))
            (effective_context_list one.ui))))
includes-sidebar_example = includes-sidebar flux pods_only one "pods"

includes-sidebar-actions_example :
    (includes (view_name pods) (sidebar flux pods_only (hide_sidebar_item pods one)) ≡ false)
    × (includes (view_name pods) (sidebar flux pods_only (show_sidebar_item pods one))
        ≡ is_offered flux pods_only one (view_name pods))
includes-sidebar-actions_example =
    includes-sidebar-actions flux pods_only pods one "prod" ([]) one_active

next_view-sidebar_example : IsNamed (view_name overview) (
    next_view
      (not true)
      (nav_views (visible_groups flux pods_only ("prod" ∷ []) ("events" ∷ [])))
      workloadsoverview)
next_view-sidebar_example =
    next_view-sidebar flux pods_only ("prod" ∷ []) ("events" ∷ []) true overview workloadsoverview
      overview_there below_overview

offered_items-forgotten_example : offered_items ("fluxbuckets" ∷ []) ≡ []
offered_items-forgotten_example = offered_items-forgotten ("fluxbuckets" ∷ []) bucket_forgotten
