-- ===== src/Navigation/Hiding.antt =====
-- App.tsx with the actions of store/ui.ts: hiding an item takes its view out of the sidebar.
use klustr.Prelude.{
  String, ◌≡◌, refl, ap, ◌∙◌, Bool, true, false, not, ◌&&◌, Option, none, some, List, [], ◌∷◌,
  arith, eq_refl, includes, includes-append, includes-without, all, all_of, or_else, Bool-cases,
  inl, inr, without,
}
use klustr.Access.{Reports}
use klustr.Crds.{CrdInfo}
use klustr.Ui.Views.{ResourceView, view_name}
use klustr.Ui.State.{World, active_contexts, effective_context_list}
use klustr.Ui.Sidebar.{hidden_in, hide_sidebar_item, show_sidebar_item}
use klustr.Ui.Sidebar.Hidden.{
  entry, is_active, hidden_also, shown_again, some_if_any, some_context, entry-sidebar_actions,
}
use klustr.Ui.Actions.Frame.{Contexts, contexts, frame-hide, frame-show}
use klustr.Navigation.{all_groups}
use klustr.Navigation.Laws.{is_allowed, any_in_groups, is_offered, sidebar, includes-sidebar}

active_of :
    (v w : World)
    → contexts v ≡ contexts w
    → effective_context_list v.ui ≡ effective_context_list w.ui
unfolding effective_context_list
active_of v w e = ap (λ (c : Contexts). active_contexts c.1 c.0) e

includes-hidden_also :
    (v : String) (o : Option (List String)) → includes v (or_else (hidden_also v o) []) ≡ true
unfolding includes
includes-hidden_also v o = elim (Bool-cases (includes v (or_else o []))) [
  | inl e ↦ rw (e, e)
  | inr e ↦ rw e (ground (arith, includes-append v (or_else o []) (v ∷ []), eq_refl v))
]

includes-some_if_any :
    (v : String) (list : List String) → includes v (or_else (some_if_any list) []) ≡ includes v list
includes-some_if_any v [] = refl
includes-some_if_any v (x ∷ xs) = refl

includes-shown_again :
    (v : String) (o : Option (List String)) → includes v (or_else (shown_again v o) []) ≡ false
includes-shown_again v none = unfold includes in refl
includes-shown_again v (some list) = elim (Bool-cases (includes v list)) [
  | inl e ↦ rw e (
      includes-some_if_any v (without v list)
      ∙ includes-without v v list
      ∙ ground (arith, eq_refl v))
  | inr e ↦ rw (e, e)
]

some_context_of :
    (cs : List String) (b : Bool) {c : String} {others : List String}
    → cs ≡ c ∷ others
    → some_context cs b ≡ b
some_context_of cs b e = rw e refl

some_context-all :
    (cs : List String) (p : String → Bool) {c : String} {others : List String}
    → cs ≡ c ∷ others
    → p c ≡ false
    → some_context cs (all p cs) ≡ false
some_context-all cs p e h = rw (e, h) refl

first_included : (c : String) (others : List String) → includes c (c ∷ others) ≡ true
unfolding includes
first_included c others = ground (arith, eq_refl c)

module _ (view : ResourceView) (w : World) where
  hidden_everywhere :
      all
        (λ c.
          includes
            (view_name view)
            (hidden_in (hide_sidebar_item view w).ui.hidden_sidebar_items_by_context c))
        (effective_context_list w.ui)
      ≡ true
  hidden_everywhere = all_of _ (effective_context_list w.ui) (λ c active. ground (
    arith,
    (entry-sidebar_actions view w c).0,
    includes-hidden_also (view_name view) (entry w c),
  ))

  shown_in :
      (c : String)
      → is_active w c ≡ true
      → includes
          (view_name view)
          (hidden_in (show_sidebar_item view w).ui.hidden_sidebar_items_by_context c)
        ≡ false
  shown_in c active =
      ground (
        arith,
        (entry-sidebar_actions view w c).1,
        includes-shown_again (view_name view) (entry w c),
      )

module _ {I : Type 0} (crds : List (CrdInfo I)) (by_context : Reports) where
  -- What the sidebar has of a view, in a state with the active contexts of another.
  sidebar_at :
      (v w : World) (name : String)
      → effective_context_list v.ui ≡ effective_context_list w.ui
      → includes name (sidebar crds by_context v) ≡ (
          is_offered crds by_context w name
          && not (
              some_context (effective_context_list w.ui) (
                all
                  (λ c. includes name (hidden_in v.ui.hidden_sidebar_items_by_context c))
                  (effective_context_list w.ui))))
  sidebar_at v w name e =
      includes-sidebar crds by_context v name
      ∙ ap
          (λ active.
            any_in_groups (is_allowed by_context active) name (all_groups active crds)
            && not (
                some_context active (
                  all (λ c. includes name (hidden_in v.ui.hidden_sidebar_items_by_context c))
                    active)))
          e

  -- With an active context: after an item is hidden, the sidebar has no view of its name, and after it
  -- is shown the sidebar has the view exactly if a group calls for it and its kind is allowed.
  pub includes-sidebar-actions :
      (view : ResourceView) (w : World) (ctx : String) (others : List String)
      → effective_context_list w.ui ≡ ctx ∷ others
      → (includes (view_name view) (sidebar crds by_context (hide_sidebar_item view w)) ≡ false)
        × (includes (view_name view) (sidebar crds by_context (show_sidebar_item view w))
            ≡ is_offered crds by_context w (view_name view))
  includes-sidebar-actions view w ctx others active = (
    sidebar_at (hide_sidebar_item view w) w (view_name view)
          (active_of (hide_sidebar_item view w) w (frame-hide view w).0)
        ∙ ground (
          arith,
          hidden_everywhere view w,
          some_context_of (effective_context_list w.ui) _ active,
        ),
    sidebar_at (show_sidebar_item view w) w (view_name view)
          (active_of (show_sidebar_item view w) w (frame-show view w).0)
        ∙ ground (
          arith,
          some_context-all (effective_context_list w.ui)
              (λ c.
                includes (view_name view)
                  (hidden_in (show_sidebar_item view w).ui.hidden_sidebar_items_by_context c))
              active (shown_in view w ctx (ap (includes ctx) active ∙ first_included ctx others)),
        ),
  )
