-- ===== src/Navigation/Hidden/Offers.antt =====
-- features/_shared/HiddenSidebarItemsButton.tsx: what can be shown again.
use klustr.Prelude.{
  String, ◌≡◌, refl, subst, Bool-cases, inl, inr, ◌∙◌, Bool, true, false, not, ◌==◌, Option, none,
  some, List, [], ◌∷◌, ◌++◌, arith, eq_iff, includes, is_some, all, All, length, keep,
}
use klustr.Ui.Views.{view_name}
use klustr.Navigation.{group_views}
use klustr.Navigation.Groups.{NavItem, flux_group, istio_group, cert_manager_group}
use klustr.Navigation.Laws.{names, includes-cons_if_any}
use klustr.Navigation.Hidden.{item_by_view, push_if_any, all_nav_items, offered_items}

-- A view has an item in a list exactly if the views of the list have its name.
is_some-item_by_view :
    (name : String) (items : List NavItem)
    → is_some (item_by_view name items) ≡ includes name (names (group_views items))
unfolding item_by_view group_views
is_some-item_by_view name [] = unfold includes in refl
is_some-item_by_view name (i ∷ items) =
    ground
      (arith, includes-cons_if_any name i.view (group_views items), is_some-item_by_view name items)

-- The names of the views that the button has an item for.
abbrev pub listed_names : List String
listed_names = names (group_views all_nav_items)

length-push_if_any :
    (p : String → Bool) (name : String) (hidden : List String) (o : Option NavItem)
    (out : List NavItem)
    → is_some o ≡ p name
    → length out ≡ length (keep p hidden)
    → length (push_if_any o out) ≡ length (keep p (name ∷ hidden))
length-push_if_any p name hidden none out e h = ground arith
length-push_if_any p name hidden (some i) out e h = ground arith

-- The number that the button shows: it counts the hidden items that are in its list, and no other.
pub length-offered_items :
    (hidden : List String)
    → length (offered_items hidden) ≡ length (keep (λ v. includes v listed_names) hidden)
unfolding offered_items
length-offered_items [] = refl
length-offered_items (v ∷ hidden) =
    length-push_if_any (λ u. includes u listed_names) v hidden (item_by_view v all_nav_items)
      (offered_items hidden) (is_some-item_by_view v all_nav_items) (length-offered_items hidden)

-- The items of Flux, Istio and cert-manager, which the sidebar has and the list of the button has not.
abbrev pub forgotten : List String
forgotten = names (group_views (flux_group.items ++ istio_group.items ++ cert_manager_group.items))

none_listed : all (λ v. not (includes v listed_names)) forgotten ≡ true
unfolding includes group_views view_name all_nav_items
none_listed = refl

not_in :
    (p : String → Bool) (v : String) (xs : List String)
    → all (λ u. not (p u)) xs ≡ true
    → includes v xs ≡ true
    → p v ≡ false
unfolding includes
not_in p v [] h i = absurd (cc)
not_in p v (x ∷ xs) h i = elim (Bool-cases (x == v)) [
  | inl e ↦ subst (λ u. p u ≡ false) ((eq_iff x v).0 e) (ground arith)
  | inr e ↦ not_in p v xs (ground arith) (ground arith)
]

push-none : (o : Option NavItem) (out : List NavItem) → is_some o ≡ false → push_if_any o out ≡ out
push-none none out h = refl
push-none (some i) out h = absurd (cc)

-- When all hidden items are of the groups Flux, Istio and cert-manager, the button has nothing to show
-- again, and so is not there: neither one of them nor all at once can be brought back.
pub offered_items-forgotten :
    (hidden : List String)
    → All (λ v. includes v forgotten ≡ true) hidden
    → offered_items hidden ≡ []
unfolding offered_items
offered_items-forgotten [] h = refl
offered_items-forgotten (v ∷ hidden) (i, h) =
    push-none (item_by_view v all_nav_items) (offered_items hidden) (
      is_some-item_by_view v all_nav_items
      ∙ not_in (λ u. includes u listed_names) v forgotten none_listed i)
    ∙ offered_items-forgotten hidden h
