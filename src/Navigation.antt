-- ===== src/Navigation.antt =====
-- App.tsx: the sidebar, from its groups, the custom resource definitions, the access reports and the
-- items that the user hides, and the arrow keys that walk through it.
pub mod Groups
pub mod Hidden
mod Hiding
pub mod Laws
mod Walk
mod Distinct
mod Tests
use klustr.Prelude.{
  ℕ, zero, suc, ◌+◌, ◌-◌, ◌%◌, String, ◌==◌, Bool, true, false, not, ◌&&◌, ◌||◌, Option, none, some,
  List, [], ◌∷◌, ◌++◌, if◌then◌else◌, includes, any, keep, map, length, get_elem?, ltb, or_else,
}
use klustr.Access.{Reports, kind_accessible_in_any}
use klustr.Crds.{CrdInfo}
use klustr.Ui.Views.{ResourceView, view_name}
use klustr.Navigation.Groups.{
  NavItem, ResourceGroup, resource_groups, helm_group, argo_group, gateway_group, karpenter_group,
  flux_group, istio_group, cert_manager_group,
}

-- `...(flag ? [group] : [])`
abbrev pub group_if : Bool → ResourceGroup → List ResourceGroup
group_if flag group = if flag then group ∷ [] else []

module _ {I : Type 0} where
  abbrev pub has_group : String → List (CrdInfo I) → Bool
  has_group group crds = any (λ (c : CrdInfo I). c.group == group) crds

  abbrev pub has_resource : String → String → List (CrdInfo I) → Bool
  has_resource group resource crds =
      any (λ (c : CrdInfo I). c.group == group && c.resource == resource) crds

  unfoldable pub all_groups : List String → List (CrdInfo I) → List ResourceGroup
  all_groups active_contexts crds =
      let single = ltb (length active_contexts) 2 in
      resource_groups
      ++ (group_if (single && has_group "gateway.networking.k8s.io" crds) gateway_group
          ++ (group_if (single && has_group "networking.istio.io" crds) istio_group
              ++ (group_if (single && has_resource "cert-manager.io" "certificates" crds)
                    cert_manager_group
                  ++ (group_if (single && has_resource "argoproj.io" "applications" crds) argo_group
                      ++ (group_if (single && has_group "karpenter.sh" crds) karpenter_group
                          ++ (group_if
                                (single
                                  && has_resource "kustomize.toolkit.fluxcd.io" "kustomizations"
                                      crds)
                                flux_group
                              ++ helm_group ∷ []))))))

-- `!i.kind || kindAccessibleInAny(accessByContext, activeContexts, i.kind)`
abbrev pub is_reachable : Reports → List String → Option String → Bool
is_reachable by_context active_contexts none = true
is_reachable by_context active_contexts (some kind) =
    kind_accessible_in_any by_context active_contexts kind

-- `!i.view || !hidden.has(i.view)`
abbrev pub is_kept : List String → Option ResourceView → Bool
is_kept hidden none = true
is_kept hidden (some view) = not (includes (view_name view) hidden)

abbrev pub visible_items : Reports → List String → List String → List NavItem → List NavItem
visible_items by_context active_contexts hidden items =
    keep (λ (i : NavItem). is_reachable by_context active_contexts i.kind && is_kept hidden i.view)
      items

-- `.map(...)` and `.filter((g) => g.items.length > 0)`
unfoldable pub visible_of :
    Reports → List String → List String → List ResourceGroup → List ResourceGroup
unfolding includes kind_accessible_in_any
visible_of by_context active_contexts hidden [] = []
visible_of by_context active_contexts hidden (g ∷ groups) =
    let items = visible_items by_context active_contexts hidden g.items in
    let rest = visible_of by_context active_contexts hidden groups in
    if ltb 0 (length items) then record { label = g.label; items = items } ∷ rest else rest

unfoldable pub visible_groups :
    {I : Type 0} → List (CrdInfo I) → Reports → List String → List String → List ResourceGroup
unfolding all_groups visible_of
visible_groups crds by_context active_contexts hidden =
    visible_of by_context active_contexts hidden (all_groups active_contexts crds)

abbrev pub cons_if_any : Option ResourceView → List ResourceView → List ResourceView
cons_if_any none views = views
cons_if_any (some view) views = view ∷ views

-- `groupViews`
unfoldable pub group_views : List NavItem → List ResourceView
group_views [] = []
group_views (i ∷ items) = cons_if_any i.view (group_views items)

unfoldable pub nav_views : List ResourceGroup → List ResourceView
unfolding group_views
nav_views [] = []
nav_views (g ∷ groups) = group_views g.items ++ nav_views groups

-- What is read of a `KeyboardEvent`; `is_editable` is `isEditableTarget` of its target.
pub record KeyEvent : Type 0 where
  pub key : String
  pub has_modifier : Bool
  pub is_editable : Bool

-- The event is left alone, or handled: a view is selected, which is `undefined` where there is none.
pub data Reaction : Type 0 where
  ignored : Reaction
  selects : Option ResourceView → Reaction

-- `navViews.indexOf(selectedView)`, and the start from it
unfoldable pub index_of_view : List ResourceView → ResourceView → Option ℕ
index_of_view [] view = none
index_of_view (v ∷ views) view =
    let rest = index_of_view views view in
    if view_name v == view_name view
    then some 0
    else elim rest [ none ↦ none | some i ↦ some (suc i) ]

-- `(start + delta + navViews.length) % navViews.length`, for a length that is not 0
abbrev pub next_index : Bool → ℕ → ℕ → ℕ
next_index true start n = (start + 1 + n) % n
next_index false start n = (start + n - 1) % n

unfoldable pub next_view : Bool → List ResourceView → ResourceView → Option ResourceView
unfolding index_of_view
next_view down [] view = none
next_view down (v ∷ views) view =
    get_elem? (v ∷ views)
      (next_index down (or_else (index_of_view (v ∷ views) view) 0) (length (v ∷ views)))

unfoldable pub on_key : KeyEvent → List ResourceView → ResourceView → Reaction
unfolding next_view
on_key e views view =
    if e.has_modifier
    then ignored
    else if not (e.key == "ArrowUp") && not (e.key == "ArrowDown")
    then ignored
    else if e.is_editable
    then ignored
    else selects (next_view (e.key == "ArrowDown") views view)
