-- ===== src/Ui/Actions/Frame.antt =====
-- The fields of store/ui.ts that an action does not touch.
use klustr.Prelude.{
  ℕ, ◌≤◌, String, ◌≡◌, refl, Bool, true, false, Option, none, List, [], ◌∷◌, arith, inl, inr,
  Option-cases, get_last?,
}
use klustr.Prelude.Numerals.{ℤ, pos, negsuc}
use klustr.Dict.{Dict}
use klustr.Collation.{Collation, dedupe_sorted}
use klustr.Ui.Views.{ResourceView}
use klustr.Ui.Types.{ContextGroup, ContextTag, sidebar_width_min, sidebar_width_max}
use klustr.Ui.Persistence.{clamp_sidebar_width}
use klustr.Ui.State.{World, effective_context_list, single_context}
use klustr.Ui.Contexts.{
  normalize_contexts, with_session, session_if_any, set_selected_context, set_aggregated_contexts,
  toggle_aggregated_context, toggled, clear_aggregated_contexts, clear_if_any, with_group,
  apply_namespace_selection,
}
use klustr.Ui.Inspector.{go_back_resource}
use klustr.Ui.Appearance.{on_system_change}
use klustr.Ui.Sidebar.{
  HiddenItems, set_sidebar_width, hide_sidebar_item, show_sidebar_item, clear_hidden_sidebar_items,
  if_changed, update_hidden, for_contexts,
}
use klustr.Ui.Tags.{toggle_context_tag, clear_context_tags, remove_custom_tag}
use klustr.Ui.Groups.{upsert_context_group, remove_context_group}

abbrev pub Rest : Type 0
Rest = Dict (List String) × List ContextGroup × ℕ

abbrev pub rest : World → Rest
rest w = (w.ui.context_tags, w.ui.context_groups, w.ui.sidebar_width)

abbrev pub Contexts : Type 0
Contexts = Option String × List String × List String × Dict (List String)

abbrev pub contexts : World → Contexts
contexts w = (
  w.ui.selected_context, w.ui.aggregated_contexts, w.ui.selected_namespaces,
  w.ui.namespaces_by_context,
)

rest-session :
    (next : List String) (g : Option String) (now : ℕ) (w : World)
    → rest (session_if_any next g now w) ≡ rest w
unfolding with_session
rest-session [] g now w = refl
rest-session (c ∷ cs) g now w = refl

module _ (coll : Collation) where
  rest-normalize : (next : List String) (w : World) → rest (normalize_contexts coll next w) ≡ rest w
  unfolding normalize_contexts
  rest-normalize next w = refl

  pub rest-set_selected_context :
      (now : ℕ) (name : Option String) (w : World)
      → rest (set_selected_context coll now name w) ≡ rest w
  unfolding set_selected_context
  rest-set_selected_context now name w =
      let next = single_context name in
      ground
        (arith, rest-session next none now (normalize_contexts coll next w), rest-normalize next w)

  pub rest-set_aggregated_contexts :
      (now : ℕ) (names : List String) (g : Option String) (w : World)
      → rest (set_aggregated_contexts coll now names g w) ≡ rest w
  unfolding set_aggregated_contexts
  rest-set_aggregated_contexts now names g w =
      let next = dedupe_sorted coll names in
      ground (
        arith,
        rest-session next g now (with_group g (normalize_contexts coll next w)),
        rest-normalize next w,
      )

  pub rest-toggle_aggregated_context :
      (name : String) (w : World) → rest (toggle_aggregated_context coll name w) ≡ rest w
  unfolding toggle_aggregated_context
  rest-toggle_aggregated_context name w =
      ground (arith, rest-normalize (toggled coll name (effective_context_list w.ui)) w)

  rest-clear_if_any : (cs : List String) (w : World) → rest (clear_if_any coll cs w) ≡ rest w
  rest-clear_if_any [] w = refl
  rest-clear_if_any (c ∷ cs) w = rest-normalize [] w

  pub rest-clear_aggregated_contexts :
      (w : World) → rest (clear_aggregated_contexts coll w) ≡ rest w
  unfolding clear_aggregated_contexts
  rest-clear_aggregated_contexts w = rest-clear_if_any (effective_context_list w.ui) w

pub rest-apply_namespace_selection :
    (next : List String) (w : World) → rest (apply_namespace_selection next w) ≡ rest w
unfolding apply_namespace_selection
rest-apply_namespace_selection next w = ground arith

pub frame-go_back :
    (w : World)
    → (contexts (go_back_resource w) ≡ contexts w) × (rest (go_back_resource w) ≡ rest w)
unfolding go_back_resource
frame-go_back w = elim (Option-cases (get_last? w.ui.resource_nav_stack)) [
  | inl e ↦ rw (e, go_back_resource) (refl, refl)
  | inr (r, e) ↦ rw (e, go_back_resource) (refl, refl)
]

pub frame-on_system_change :
    (matches : Bool) (w : World)
    → (contexts (on_system_change matches w) ≡ contexts w)
      × (rest (on_system_change matches w) ≡ rest w)
unfolding on_system_change
frame-on_system_change matches w = ground arith

frame-if_changed :
    (r : HiddenItems × Bool) (w : World)
    → (contexts (if_changed r w) ≡ contexts w) × (rest (if_changed r w) ≡ rest w)
unfolding if_changed
frame-if_changed (m, true) w = (refl, refl)
frame-if_changed (m, false) w = (refl, refl)

frame-update_hidden :
    (round : String → HiddenItems → Option HiddenItems) (cs : List String) (w : World)
    → (contexts (update_hidden round cs w) ≡ contexts w)
      × (rest (update_hidden round cs w) ≡ rest w)
unfolding update_hidden
frame-update_hidden round [] w = (refl, refl)
frame-update_hidden round (c ∷ cs) w =
    frame-if_changed (for_contexts round (c ∷ cs) w.ui.hidden_sidebar_items_by_context false) w

pub frame-hide :
    (view : ResourceView) (w : World)
    → (contexts (hide_sidebar_item view w) ≡ contexts w)
      × (rest (hide_sidebar_item view w) ≡ rest w)
unfolding hide_sidebar_item
frame-hide view w = frame-update_hidden _ (effective_context_list w.ui) w

pub frame-show :
    (view : ResourceView) (w : World)
    → (contexts (show_sidebar_item view w) ≡ contexts w)
      × (rest (show_sidebar_item view w) ≡ rest w)
unfolding show_sidebar_item
frame-show view w = frame-update_hidden _ (effective_context_list w.ui) w

pub frame-clear_hidden :
    (w : World)
    → (contexts (clear_hidden_sidebar_items w) ≡ contexts w)
      × (rest (clear_hidden_sidebar_items w) ≡ rest w)
unfolding clear_hidden_sidebar_items
frame-clear_hidden w = frame-update_hidden _ (effective_context_list w.ui) w

pub contexts-tag_actions :
    (name : String) (t : ContextTag) (w : World)
    → (contexts (toggle_context_tag name t w) ≡ contexts w)
      × (contexts (clear_context_tags name w) ≡ contexts w)
unfolding toggle_context_tag clear_context_tags
contexts-tag_actions name t w = (ground arith, ground arith)

pub contexts-group_actions :
    (g : ContextGroup) (id : String) (w : World)
    → (contexts (upsert_context_group g w) ≡ contexts w)
      × (contexts (remove_context_group id w) ≡ contexts w)
unfolding upsert_context_group remove_context_group
contexts-group_actions g id w = (ground arith, ground arith)

pub contexts-set_sidebar_width :
    (px : ℤ) (w : World) → contexts (set_sidebar_width px w) ≡ contexts w
unfolding set_sidebar_width
contexts-set_sidebar_width px w = ground arith

-- The groups and the width stay when tags change, the tags and the width when groups change.
pub others-toggle_tag :
    (name : String) (t : ContextTag) (w : World)
    → ((rest (toggle_context_tag name t w)).1 ≡ (rest w).1)
      × ((rest (toggle_context_tag name t w)).2 ≡ (rest w).2)
unfolding toggle_context_tag
others-toggle_tag name t w = (ground arith, ground arith)

pub others-clear_tags :
    (name : String) (w : World)
    → ((rest (clear_context_tags name w)).1 ≡ (rest w).1)
      × ((rest (clear_context_tags name w)).2 ≡ (rest w).2)
unfolding clear_context_tags
others-clear_tags name w = (ground arith, ground arith)

pub others-upsert :
    (g : ContextGroup) (w : World)
    → ((rest (upsert_context_group g w)).0 ≡ (rest w).0)
      × ((rest (upsert_context_group g w)).2 ≡ (rest w).2)
unfolding upsert_context_group
others-upsert g w = (ground arith, ground arith)

pub others-remove :
    (id : String) (w : World)
    → ((rest (remove_context_group id w)).0 ≡ (rest w).0)
      × ((rest (remove_context_group id w)).2 ≡ (rest w).2)
unfolding remove_context_group
others-remove id w = (ground arith, ground arith)

pub frame-remove_tag :
    (id : String) (w : World)
    → (contexts (remove_custom_tag id w) ≡ contexts w)
      × ((rest (remove_custom_tag id w)).1 ≡ (rest w).1)
      × ((rest (remove_custom_tag id w)).2 ≡ (rest w).2)
unfolding remove_custom_tag
frame-remove_tag id w = (refl, refl, refl)

pub clamp_range :
    (px : ℤ)
    → (sidebar_width_min ≤ clamp_sidebar_width px) × (clamp_sidebar_width px ≤ sidebar_width_max)
unfolding clamp_sidebar_width
clamp_range (pos n) = omega arith
clamp_range (negsuc n) = omega arith
