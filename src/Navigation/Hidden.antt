-- ===== src/Navigation/Hidden.antt =====
-- features/_shared/HiddenSidebarItemsButton.tsx: the hidden items that it offers to show again.
pub mod Offers
use klustr.Prelude.{
  String, ◌==◌, Bool, false, is_some, Option, none, some, List, [], ◌∷◌, ◌++◌, if◌then◌else◌,
}
use klustr.Ui.Views.{view_name}
use klustr.Navigation.Groups.{
  NavItem, ResourceGroup, resource_groups, helm_group, argo_group, gateway_group, karpenter_group,
}

abbrev pub items_in : List ResourceGroup → List NavItem
items_in [] = []
items_in (g ∷ groups) = g.items ++ items_in groups

-- `ALL_NAV_ITEMS`
unfoldable pub all_nav_items : List NavItem
all_nav_items =
    items_in resource_groups
    ++ gateway_group.items
    ++ argo_group.items
    ++ karpenter_group.items
    ++ helm_group.items

abbrev pub is_of : String → NavItem → Bool
is_of view i = elim i.view [ none ↦ false | some v ↦ view_name v == view ]

-- `ITEMS_BY_VIEW.get(view)`: the last item of a view is in the map.
unfoldable pub item_by_view : String → List NavItem → Option NavItem
item_by_view view [] = none
item_by_view view (i ∷ items) =
    let later = item_by_view view items in
    if is_some later then later else if is_of view i then some i else none

abbrev pub push_if_any : Option NavItem → List NavItem → List NavItem
push_if_any none out = out
push_if_any (some found) out = found ∷ out

-- The loop over `hiddenItems`
unfoldable pub offered_items : List String → List NavItem
unfolding item_by_view all_nav_items
offered_items [] = []
offered_items (view ∷ hidden) = push_if_any (item_by_view view all_nav_items) (offered_items hidden)
