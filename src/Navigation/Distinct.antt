-- ===== src/Navigation/Distinct.antt =====
-- App.tsx: no view stands twice in the sidebar.
use klustr.Prelude.{
  String, ◌≡◌, refl, Bool, true, false, not, ◌&&◌, Option, none, some, List, [], ◌∷◌, ◌++◌, arith,
  includes, Bool-cases, inl, inr, Distinct, ltb, length, keep,
}
use klustr.Access.{Reports}
use klustr.Crds.{CrdInfo}
use klustr.Ui.Views.{ResourceView, view_name}
use klustr.Navigation.Groups.{
  NavItem, ResourceGroup, resource_groups, helm_group, argo_group, gateway_group, karpenter_group,
  flux_group, istio_group, cert_manager_group,
}
use klustr.Navigation.{
  all_groups, has_group, has_resource, group_if, visible_items, visible_of, visible_groups,
  group_views, nav_views, cons_if_any,
}
use klustr.Navigation.Laws.{names, names-append}

-- The first list is the second less some of its items.
pub data Thinned : List String → List String → Type 0 where
  done : Thinned [] []
  skip : (x : String) {xs ys : List String} → Thinned xs ys → Thinned xs (x ∷ ys)
  hold : (x : String) {xs ys : List String} → Thinned xs ys → Thinned (x ∷ xs) (x ∷ ys)

includes-Thinned :
    (a : String) {xs ys : List String}
    → Thinned xs ys
    → includes a ys ≡ false
    → includes a xs ≡ false
unfolding includes
includes-Thinned a done h = h
includes-Thinned a (skip x t) h = includes-Thinned a t (ground arith)
includes-Thinned a (hold x t) h = ground (arith, includes-Thinned a t)

Distinct-Thinned : {xs ys : List String} → Thinned xs ys → Distinct ys → Distinct xs
Distinct-Thinned done d = d
Distinct-Thinned (skip x t) d = Distinct-Thinned t d.1
Distinct-Thinned (hold x t) d = (includes-Thinned x t d.0, Distinct-Thinned t d.1)

all-Thinned : (xs : List String) → Thinned xs xs
all-Thinned [] = done
all-Thinned (x ∷ xs) = hold x (all-Thinned xs)

none-Thinned : (xs : List String) → Thinned [] xs
none-Thinned [] = done
none-Thinned (x ∷ xs) = skip x (none-Thinned xs)

Thinned-append :
    {xs ys us vs : List String} → Thinned xs ys → Thinned us vs → Thinned (xs ++ us) (ys ++ vs)
Thinned-append done t = t
Thinned-append (skip x s) t = skip x (Thinned-append s t)
Thinned-append (hold x s) t = hold x (Thinned-append s t)

-- The names of the views of items, and of groups.
abbrev item_names : List NavItem → List String
item_names items = names (group_views items)

abbrev group_names : List ResourceGroup → List String
group_names groups = names (nav_views groups)

hold_view :
    (o : Option ResourceView) (vs ws : List ResourceView)
    → Thinned (names vs) (names ws)
    → Thinned (names (cons_if_any o vs)) (names (cons_if_any o ws))
hold_view none vs ws t = t
hold_view (some v) vs ws t = hold (view_name v) t

skip_view :
    (o : Option ResourceView) (vs ws : List ResourceView)
    → Thinned (names vs) (names ws)
    → Thinned (names vs) (names (cons_if_any o ws))
skip_view none vs ws t = t
skip_view (some v) vs ws t = skip (view_name v) t

keep-Thinned :
    (p : NavItem → Bool) (items : List NavItem)
    → Thinned (item_names (keep p items)) (item_names items)
unfolding group_views
keep-Thinned p [] = done
keep-Thinned p (i ∷ items) = elim (Bool-cases (p i)) [
  | inl e ↦ rw (e, keep) (hold_view i.view _ _ (keep-Thinned p items))
  | inr e ↦ rw (e, keep) (skip_view i.view _ _ (keep-Thinned p items))
]

cons-Thinned :
    (g h : ResourceGroup) (gs hs : List ResourceGroup)
    → Thinned (item_names g.items) (item_names h.items)
    → Thinned (group_names gs) (group_names hs)
    → Thinned (group_names (g ∷ gs)) (group_names (h ∷ hs))
unfolding nav_views
cons-Thinned g h gs hs s t =
    rw
      (
        names-append (group_views g.items) (nav_views gs),
        names-append (group_views h.items) (nav_views hs),
      )
      (Thinned-append s t)

drop-Thinned :
    (h : ResourceGroup) (gs hs : List ResourceGroup)
    → Thinned (group_names gs) (group_names hs)
    → Thinned (group_names gs) (group_names (h ∷ hs))
unfolding nav_views
drop-Thinned h gs hs t =
    rw (names-append (group_views h.items) (nav_views hs))
      (Thinned-append (none-Thinned (item_names h.items)) t)

visible_of-Thinned :
    (by_context : Reports) (active hidden : List String) (gs : List ResourceGroup)
    → Thinned (group_names (visible_of by_context active hidden gs)) (group_names gs)
unfolding visible_of
visible_of-Thinned by_context active hidden [] = all-Thinned _
visible_of-Thinned by_context active hidden (g ∷ gs) =
    let items = visible_items by_context active hidden g.items in
    let t = visible_of-Thinned by_context active hidden gs in
    elim (Bool-cases (ltb 0 (length items))) [
      | inl e ↦
          rw (e, group_names)
            (cons-Thinned (record { label = g.label; items = items }) g _ gs
              (keep-Thinned _ g.items) t)
      | inr e ↦ rw (e, group_names) (drop-Thinned g _ gs t)
    ]

-- A group that may be there or not, before others.
group_if-Thinned :
    (flag : Bool) (g : ResourceGroup) (gs hs : List ResourceGroup)
    → Thinned (group_names gs) (group_names hs)
    → Thinned (group_names (group_if flag g ++ gs)) (group_names (g ∷ hs))
group_if-Thinned true g gs hs t = cons-Thinned g g gs hs (all-Thinned _) t
group_if-Thinned false g gs hs t = drop-Thinned g gs hs t

prefix-Thinned :
    (ps gs hs : List ResourceGroup)
    → Thinned (group_names gs) (group_names hs)
    → Thinned (group_names (ps ++ gs)) (group_names (ps ++ hs))
prefix-Thinned [] gs hs t = t
prefix-Thinned (p ∷ ps) gs hs t = cons-Thinned p p _ _ (all-Thinned _) (prefix-Thinned ps gs hs t)

-- All groups that the sidebar can have.
abbrev every_group : List ResourceGroup
every_group =
    resource_groups
    ++ gateway_group ∷ istio_group ∷ cert_manager_group ∷ argo_group ∷ karpenter_group ∷ flux_group
      ∷ helm_group ∷ []

all_groups-Thinned :
    {I : Type 0}
    → (active : List String) (crds : List (CrdInfo I))
    → Thinned (group_names (all_groups active crds)) (group_names every_group)
unfolding all_groups
all_groups-Thinned active crds =
    let single = ltb (length active) 2 in
    prefix-Thinned resource_groups _ _ (
      group_if-Thinned (single && has_group "gateway.networking.k8s.io" crds) gateway_group _ _ (
        group_if-Thinned (single && has_group "networking.istio.io" crds) istio_group _ _ (
          group_if-Thinned (single && has_resource "cert-manager.io" "certificates" crds)
            cert_manager_group _ _
            (group_if-Thinned (single && has_resource "argoproj.io" "applications" crds) argo_group
              _ _
              (group_if-Thinned (single && has_group "karpenter.sh" crds) karpenter_group _ _ (
                group_if-Thinned
                  (single && has_resource "kustomize.toolkit.fluxcd.io" "kustomizations" crds)
                  flux_group (helm_group ∷ []) (helm_group ∷ []) (all-Thinned _)))))))

is_distinct : List String → Bool
is_distinct [] = true
is_distinct (x ∷ xs) = not (includes x xs) && is_distinct xs

is_distinct_sound : (xs : List String) → is_distinct xs ≡ true → Distinct xs
unfolding is_distinct
is_distinct_sound [] h = tt
is_distinct_sound (x ∷ xs) h = (ground arith, is_distinct_sound xs (ground arith))

every_group-Distinct : Distinct (group_names every_group)
every_group-Distinct = is_distinct_sound (group_names every_group) checked
  where
    checked : is_distinct (group_names every_group) ≡ true
    checked = unfold is_distinct nav_views group_views view_name includes in refl

pub nav_views-Distinct :
    {I : Type 0}
    → (crds : List (CrdInfo I)) (by_context : Reports) (active hidden : List String)
    → Distinct (names (nav_views (visible_groups crds by_context active hidden)))
unfolding visible_groups
nav_views-Distinct crds by_context active hidden =
    Distinct-Thinned (visible_of-Thinned by_context active hidden (all_groups active crds))
      (Distinct-Thinned (all_groups-Thinned active crds) every_group-Distinct)
