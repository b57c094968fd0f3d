-- ===== src/Navigation/Laws.antt =====
-- App.tsx: which views the sidebar has, in terms of the stores.
use klustr.Prelude.{
  String, ◌≡◌, refl, ap, ◌∙◌, Bool-cases, inl, inr, Bool, true, false, not, ◌&&◌, ◌||◌, ◌==◌,
  Option, none, some, List, [], ◌∷◌, ◌++◌, arith, eq_iff, includes, includes-append, any, all, ltb,
  length,
}
use klustr.Access.{Reports}
use klustr.Access.Laws.{is_listed, has_report, kind_accessible_in_any_lem}
use klustr.Crds.{CrdInfo}
use klustr.Ui.Views.{ResourceView, view_name}
use klustr.Ui.State.{World, effective_context_list}
use klustr.Ui.Sidebar.{hidden_in, effective_hidden_sidebar_items}
use klustr.Ui.Sidebar.Hidden.{some_context, includes-effective_hidden}
use klustr.Navigation.Groups.{NavItem, ResourceGroup}
use klustr.Navigation.{
  all_groups, is_reachable, is_kept, visible_items, visible_of, visible_groups, cons_if_any,
  group_views, nav_views,
}

abbrev pub names : List ResourceView → List String
names [] = []
names (v ∷ vs) = view_name v ∷ names vs

pub names-append : (vs ws : List ResourceView) → names (vs ++ ws) ≡ names vs ++ names ws
names-append [] ws = refl
names-append (v ∷ vs) ws = rw (names-append vs ws)

-- An item of the view.
abbrev pub is_of_view : String → Option ResourceView → Bool
is_of_view name none = false
is_of_view name (some v) = view_name v == name

-- Some item of the groups has the view and passes the test of its kind.
abbrev pub any_item : (Option String → Bool) → String → List NavItem → Bool
any_item test name [] = false
any_item test name (i ∷ items) = (is_of_view name i.view && test i.kind) || any_item test name items

abbrev pub any_in_groups : (Option String → Bool) → String → List ResourceGroup → Bool
any_in_groups test name [] = false
any_in_groups test name (g ∷ groups) = any_item test name g.items || any_in_groups test name groups

includes-names-append :
    (name : String) (vs ws : List ResourceView)
    → includes name (names (vs ++ ws)) ≡ (includes name (names vs) || includes name (names ws))
includes-names-append name vs ws =
    ap (includes name) (names-append vs ws) ∙ includes-append name (names vs) (names ws)

pub includes-cons_if_any :
    (name : String) (o : Option ResourceView) (vs : List ResourceView)
    → includes name (names (cons_if_any o vs)) ≡ (is_of_view name o || includes name (names vs))
unfolding includes
includes-cons_if_any name none vs = refl
includes-cons_if_any name (some v) vs = refl

-- A view that is not the name asked for may be hidden or not.
is_kept-of_view :
    (name : String) (hidden : List String) (o : Option ResourceView)
    → (is_of_view name o && is_kept hidden o) ≡ (is_of_view name o && not (includes name hidden))
is_kept-of_view name hidden none = refl
is_kept-of_view name hidden (some v) = elim (Bool-cases (view_name v == name)) [
  | inl e ↦ rw ((eq_iff (view_name v) name).0 e) refl
  | inr e ↦ rw e refl
]

-- A group without items has no views.
no_views :
    (name : String) (items : List NavItem)
    → ltb 0 (length items) ≡ false
    → includes name (names (group_views items)) ≡ false
unfolding group_views includes
no_views name [] h = refl
no_views name (i ∷ items) h = absurd (ground arith)

module _ (by_context : Reports) (active hidden : List String) (name : String) where
  includes-visible_items :
      (items : List NavItem)
      → includes name (names (group_views (visible_items by_context active hidden items)))
        ≡ (any_item (is_reachable by_context active) name items && not (includes name hidden))
  unfolding group_views
  includes-visible_items [] = unfold includes in refl
  includes-visible_items (i ∷ items) = ground (
    arith,
    includes-cons_if_any name i.view (group_views (visible_items by_context active hidden items)),
    is_kept-of_view name hidden i.view,
    includes-visible_items items,
  )

  includes-visible_of :
      (groups : List ResourceGroup)
      → includes name (names (nav_views (visible_of by_context active hidden groups)))
        ≡ (any_in_groups (is_reachable by_context active) name groups && not (includes name hidden))
  unfolding nav_views visible_of
  includes-visible_of [] = unfold includes in refl
  includes-visible_of (g ∷ groups) = ground (
    arith,
    includes-names-append name (group_views (visible_items by_context active hidden g.items))
        (nav_views (visible_of by_context active hidden groups)),
    includes-visible_items g.items,
    no_views name (visible_items by_context active hidden g.items),
    includes-visible_of groups,
  )

-- A kind can be listed in some active context, or no active context has reported yet.
abbrev pub is_allowed : Reports → List String → Option String → Bool
is_allowed by_context active none = true
is_allowed by_context active (some kind) =
    any (is_listed by_context kind) active || not (any (has_report by_context) active)

is_reachable-eq-is_allowed :
    (by_context : Reports) (active : List String) (kind : Option String)
    → is_reachable by_context active kind ≡ is_allowed by_context active kind
is_reachable-eq-is_allowed by_context active none = refl
is_reachable-eq-is_allowed by_context active (some kind) =
    kind_accessible_in_any_lem by_context active kind

-- The views of the sidebar in a state of the stores, by their names.
abbrev pub sidebar : {I : Type 0} → List (CrdInfo I) → Reports → World → List String
sidebar crds by_context w = names (
    nav_views (
      visible_groups crds by_context (effective_context_list w.ui)
        (effective_hidden_sidebar_items w.ui)))

-- Whether the sidebar would have a view if nothing was hidden: some group that the active contexts
-- and the definitions call for has an item of it, whose kind is allowed.
abbrev pub is_offered : {I : Type 0} → List (CrdInfo I) → Reports → World → String → Bool
is_offered crds by_context w name =
    any_in_groups (is_allowed by_context (effective_context_list w.ui)) name
      (all_groups (effective_context_list w.ui) crds)

-- The sidebar has exactly the views that a group calls for, whose kind some active context's report
-- lists, or no active context has a report, and that are not hidden in every active context. A view
-- without a kind needs no report.
pub includes-sidebar :
    {I : Type 0}
    → (crds : List (CrdInfo I)) (by_context : Reports) (w : World) (name : String)
    → includes name (sidebar crds by_context w) ≡ (
        is_offered crds by_context w name
        && not (
            some_context (effective_context_list w.ui) (
              all
                (λ c. includes name (hidden_in w.ui.hidden_sidebar_items_by_context c))
                (effective_context_list w.ui))))
unfolding visible_groups
includes-sidebar crds by_context w name =
    includes-visible_of by_context (effective_context_list w.ui)
      (effective_hidden_sidebar_items w.ui) name (all_groups (effective_context_list w.ui) crds)
    ∙ ap
        (λ test.
          any_in_groups test name (all_groups (effective_context_list w.ui) crds)
          && not (includes name (effective_hidden_sidebar_items w.ui)))
        (λ i kind. is_reachable-eq-is_allowed by_context (effective_context_list w.ui) kind i)
    ∙ ap (λ b. is_offered crds by_context w name && not b) (includes-effective_hidden name w)
