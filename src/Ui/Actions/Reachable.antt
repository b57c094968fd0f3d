-- ===== src/Ui/Actions/Reachable.antt =====
-- The states of store/ui.ts after a run of actions.
use klustr.Prelude.{
  ◌≤◌, String, ◌≡◌, sym, subst, List, [], ◌∷◌, inl, inr, Bool-cases, Distinct, length, eqb,
}
use klustr.Dict.{keys}
use klustr.Collation.{Collation, dedupe_sorted}
use klustr.Ui.Types.{ContextGroup, max_tags_per_context, sidebar_width_min, sidebar_width_max}
use klustr.Ui.State.{World}
use klustr.Ui.Contexts.Invariant.{
  ContextsAgree, set_selected_context-IsConsistent, set_aggregated_contexts-IsConsistent,
  toggle_aggregated_context-IsConsistent, clear_aggregated_contexts-IsConsistent,
  apply_namespace_selection-IsConsistent,
}
use klustr.Ui.Tags.{tags_of}
use klustr.Prelude.Numerals.{ℤ}
use klustr.Ui.Persistence.{clamp_sidebar_width}
use klustr.Ui.Contexts.{
  toggled, set_selected_context, set_aggregated_contexts, toggle_aggregated_context,
  clear_aggregated_contexts, clear_last_session, apply_namespace_selection, set_selected_namespaces,
  toggle_selected_namespace, clear_selected_namespaces, set_default_context,
}
use klustr.Ui.Inspector.{
  set_selected_view, set_selected_crd, set_selected_resource, open_resource, go_back_resource,
  set_pending_action,
}
use klustr.Ui.Appearance.{set_theme, on_system_change, set_global_read_only}
use klustr.Ui.Sidebar.{
  toggle_sidebar_mode, set_sidebar_width, toggle_nav_group, toggle_crd_group, hide_sidebar_item,
  show_sidebar_item, clear_hidden_sidebar_items,
}
use klustr.Ui.Tags.{toggle_context_tag, clear_context_tags, add_custom_tag, remove_custom_tag}
use klustr.Ui.Tags.Laws.{actions-IsTagBounded, actions-Distinct-keys}
use klustr.Ui.Groups.{upsert_context_group, remove_context_group}
use klustr.Ui.Groups.Laws.{AreGroups, group_actions-AreGroups}
use klustr.Ui.Actions.{
  Action, act, run, set_selected_context_to, set_aggregated_contexts_to, toggle_aggregated,
  clear_aggregated, clear_session, set_namespaces, toggle_namespace, clear_namespaces,
  set_read_only, set_view, set_crd, set_resource, open_at, go_back, set_pending, pick_theme,
  toggle_mode, set_width, toggle_nav, toggle_crd, hide_item, show_item, clear_hidden, set_default,
  toggle_tag, clear_tags, add_tag, remove_tag, upsert_group, remove_group, system_change,
}
use klustr.Ui.Actions.Frame.{
  Rest, rest, Contexts, contexts, rest-set_selected_context, rest-set_aggregated_contexts,
  rest-toggle_aggregated_context, rest-clear_aggregated_contexts, rest-apply_namespace_selection,
  frame-go_back, frame-on_system_change, frame-hide, frame-show, frame-clear_hidden,
  contexts-tag_actions, contexts-group_actions, contexts-set_sidebar_width, others-toggle_tag,
  others-clear_tags, others-upsert, others-remove, frame-remove_tag, clamp_range,
}

abbrev no_group : ContextGroup
no_group = record { id = ""; name = ""; contexts = []; color = "" }

module _ (coll : Collation) where
  -- The tags, groups and width: three tags on a context at most, distinct keys, clean groups with
  -- distinct ids, a width in its range.
  pub record IsSound (r : Rest) : Type 0 where
    pub bounded : (ctx : String) → length (tags_of r.0 ctx) ≤ max_tags_per_context
    pub keyed : Distinct (keys r.0)
    pub grouped : AreGroups r.1
    pub wide : (sidebar_width_min ≤ r.2) × (r.2 ≤ sidebar_width_max)

  abbrev pub Agree : Contexts → Type 0
  Agree c = ContextsAgree coll c.0 c.1 c.2 c.3

  pub IsConsistent-frame :
      (v w : World) → contexts v ≡ contexts w → Agree (contexts w) → Agree (contexts v)
  IsConsistent-frame v w e k = subst Agree (sym e) k

  abbrev pub IsInvariant : World → Type 0
  IsInvariant w = Agree (contexts w) × IsSound (rest w)

  -- An action that leaves the rest alone, or the contexts.
  with_rest : (v w : World) → rest v ≡ rest w → Agree (contexts v) → IsInvariant w → IsInvariant v
  with_rest v w e k (_, s) = (k, subst IsSound (sym e) s)

  with_contexts :
      (v w : World) → contexts v ≡ contexts w → IsSound (rest v) → IsInvariant w → IsInvariant v
  with_contexts v w e s (k, _) = (subst Agree (sym e) k, s)

  with_both :
      (v w : World) → (contexts v ≡ contexts w) × (rest v ≡ rest w) → IsInvariant w → IsInvariant v
  with_both v w (e, e') (k, s) = (subst Agree (sym e) k, subst IsSound (sym e') s)

  act_namespaces :
      (next : List String) (w : World)
      → IsInvariant w
      → IsInvariant (apply_namespace_selection next w)
  act_namespaces next w i =
      with_rest (apply_namespace_selection next w) w (rest-apply_namespace_selection next w)
        (apply_namespace_selection-IsConsistent coll next w i.0) i

  act_tags :
      (r r' : Rest)
      → r'.1 ≡ r.1
      → r'.2 ≡ r.2
      → ((ctx : String) → length (tags_of r'.0 ctx) ≤ max_tags_per_context)
      → Distinct (keys r'.0)
      → IsSound r
      → IsSound r'
  act_tags r r' e1 e2 b d s = record {
    bounded = b;
    keyed = d;
    grouped = rw e1 s.grouped;
    wide = rw e2 s.wide;
  }

  act_groups : (r r' : Rest) → r'.0 ≡ r.0 → r'.2 ≡ r.2 → AreGroups r'.1 → IsSound r → IsSound r'
  act_groups r r' e0 e2 g s = record {
    bounded = λ ctx. rw e0 (s.bounded ctx);
    keyed = rw e0 s.keyed;
    grouped = g;
    wide = rw e2 s.wide;
  }

  act_width : (px : ℤ) (w : World) → IsSound (rest w) → IsSound (rest (set_sidebar_width px w))
  unfolding set_sidebar_width
  act_width px w s = elim (Bool-cases (eqb (clamp_sidebar_width px) w.ui.sidebar_width)) [
    | inl same ↦ rw same s
    | inr differ ↦ rw differ (record {
      bounded = s.bounded;
      keyed = s.keyed;
      grouped = s.grouped;
      wide = clamp_range px;
    })
  ]

  -- Every action keeps the invariant.
  act-IsInvariant : (a : Action) (w : World) → IsInvariant w → IsInvariant (act coll a w)
  unfolding act
  act-IsInvariant (set_selected_context_to now name) w i =
      with_rest (set_selected_context coll now name w) w (rest-set_selected_context coll now name w)
        (set_selected_context-IsConsistent coll now name w i.0) i
  act-IsInvariant (set_aggregated_contexts_to now names g) w i =
      with_rest (set_aggregated_contexts coll now names g w) w
        (rest-set_aggregated_contexts coll now names g w)
        (set_aggregated_contexts-IsConsistent coll now names g w i.0) i
  act-IsInvariant (toggle_aggregated name) w i =
      with_rest (toggle_aggregated_context coll name w) w
        (rest-toggle_aggregated_context coll name w)
        (toggle_aggregated_context-IsConsistent coll name w i.0) i
  act-IsInvariant clear_aggregated w i =
      with_rest (clear_aggregated_contexts coll w) w (rest-clear_aggregated_contexts coll w)
        (clear_aggregated_contexts-IsConsistent coll w i.0) i
  act-IsInvariant (set_namespaces names) w i =
      unfold set_selected_namespaces in act_namespaces (dedupe_sorted coll names) w i
  act-IsInvariant (toggle_namespace name) w i =
      unfold toggle_selected_namespace in
      act_namespaces (toggled coll name w.ui.selected_namespaces) w i
  act-IsInvariant clear_namespaces w i = unfold clear_selected_namespaces in act_namespaces [] w i
  act-IsInvariant go_back w i = with_both (go_back_resource w) w (frame-go_back w) i
  act-IsInvariant (set_width px) w i =
      with_contexts (set_sidebar_width px w) w (contexts-set_sidebar_width px w)
        (act_width px w i.1) i
  act-IsInvariant (hide_item view) w i =
      with_both (hide_sidebar_item view w) w (frame-hide view w) i
  act-IsInvariant (show_item view) w i =
      with_both (show_sidebar_item view w) w (frame-show view w) i
  act-IsInvariant clear_hidden w i =
      with_both (clear_hidden_sidebar_items w) w (frame-clear_hidden w) i
  act-IsInvariant (toggle_tag name t) w i =
      let (bound, _, _, _) = actions-IsTagBounded w i.1.bounded i.1.keyed in
      let (keyed, _, _) = actions-Distinct-keys w i.1.keyed in
      let (e1, e2) = others-toggle_tag name t w in
      with_contexts (toggle_context_tag name t w) w ((contexts-tag_actions name t w).0)
        (act_tags (rest w) (rest (toggle_context_tag name t w)) e1 e2 (bound name t) (keyed name t)
          i.1)
        i
  act-IsInvariant (clear_tags name) w i =
      let (_, bound, _, _) = actions-IsTagBounded w i.1.bounded i.1.keyed in
      let (_, keyed, _) = actions-Distinct-keys w i.1.keyed in
      let (e1, e2) = others-clear_tags name w in
      with_contexts (clear_context_tags name w) w ((contexts-tag_actions name "" w).1)
        (act_tags (rest w) (rest (clear_context_tags name w)) e1 e2 (bound name) (keyed name) i.1) i
  act-IsInvariant (remove_tag id) w i =
      let (_, _, _, bound) = actions-IsTagBounded w i.1.bounded i.1.keyed in
      let (_, _, keyed) = actions-Distinct-keys w i.1.keyed in
      let (same, e1, e2) = frame-remove_tag id w in
      with_contexts (remove_custom_tag id w) w same
        (act_tags (rest w) (rest (remove_custom_tag id w)) e1 e2 (bound id) (keyed id) i.1) i
  act-IsInvariant (upsert_group g) w i =
      with_contexts (upsert_context_group g w) w ((contexts-group_actions g "" w).0)
        (act_groups (rest w) (rest (upsert_context_group g w)) (others-upsert g w).0
          (others-upsert g w).1 ((group_actions-AreGroups w i.1.grouped).0 g) i.1)
        i
  act-IsInvariant (remove_group id) w i =
      with_contexts (remove_context_group id w) w ((contexts-group_actions no_group id w).1)
        (act_groups (rest w) (rest (remove_context_group id w)) (others-remove id w).0
          (others-remove id w).1 ((group_actions-AreGroups w i.1.grouped).1 id) i.1)
        i
  act-IsInvariant (system_change matches) w i =
      with_both (on_system_change matches w) w (frame-on_system_change matches w) i
  act-IsInvariant clear_session w i = unfold clear_last_session in i
  act-IsInvariant (set_read_only value) w i = unfold set_global_read_only in i
  act-IsInvariant (set_view view) w i = unfold set_selected_view in i
  act-IsInvariant (set_crd key) w i = unfold set_selected_crd in i
  act-IsInvariant (set_resource r) w i = unfold set_selected_resource in i
  act-IsInvariant (open_at r tab) w i = unfold open_resource in i
  act-IsInvariant (set_pending action) w i = unfold set_pending_action in i
  act-IsInvariant (pick_theme id) w i = unfold set_theme in i
  act-IsInvariant toggle_mode w i = unfold toggle_sidebar_mode in i
  act-IsInvariant (toggle_nav label) w i = unfold toggle_nav_group in i
  act-IsInvariant (toggle_crd label) w i = unfold toggle_crd_group in i
  act-IsInvariant (set_default name) w i = unfold set_default_context in i
  act-IsInvariant (add_tag def) w i = unfold add_custom_tag in i

  -- After every run of actions, from a state in which this holds: one of the two context fields is
  -- empty and the aggregated list is sorted, without repetitions and never of one member; the
  -- namespace filter in force is the one remembered for the active contexts, if there are any; no
  -- context has more than three tags; the groups are clean, with distinct ids; and the sidebar's
  -- width is in its range.
  pub run-IsInvariant :
      (actions : List Action) (w : World) → IsInvariant w → IsInvariant (run coll actions w)
  unfolding run
  run-IsInvariant [] w i = i
  run-IsInvariant (a ∷ rest) w i = run-IsInvariant rest (act coll a w) (act-IsInvariant a w i)
