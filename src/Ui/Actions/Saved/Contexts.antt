-- ===== src/Ui/Actions/Saved/Contexts.antt =====
-- store/ui.ts: the actions on contexts, namespaces and hidden items keep what localStorage holds of them in
-- step with the store.
use klustr.Prelude.{
  ℕ, String, ◌∙◌, ap, subst, Bool, true, false, ◌&&◌, ◌==◌, Option, none, List, [], ◌∷◌, inl, inr,
  Bool-cases, same_list,
}
use klustr.Dict.{Dict}
use klustr.Storage.{JsonText}
use klustr.Collation.{Collation, dedupe_sorted}
use klustr.Ui.Persistence.Settings.{Settings}
use klustr.Ui.Persistence.SettingWriters.{stored-persist_last_session}
use klustr.Ui.Persistence.ContextWriters.{
  stored-persist_aggregated_contexts, stored-persist_namespaces_by_context,
  stored-persist_hidden_sidebar_items_by_context,
}
use klustr.Ui.Persistence.EntryMaps.{
  IsEntryMap, IsEntryMap-put, IsEntryMap-remove, read_maps-IsEntryMap,
}
use klustr.Ui.State.{World, effective_context_list, single_context}
use klustr.Ui.Contexts.{
  namespace_key, save_namespaces, normalize_contexts, with_session, session_if_any, same_group,
  set_selected_context, set_aggregated_contexts, toggle_aggregated_context, toggled, clear_if_any,
  apply_namespace_selection, several,
}
use klustr.Ui.Sidebar.{HiddenItems, if_changed, update_hidden, for_contexts}
use klustr.Ui.Sidebar.Entries.{KeepsEntries, for_contexts-IsEntryMap}
use klustr.Ui.Actions.Saved.{IsSaved}

module _ (jt : JsonText) where
  -- The maps of the store are what the readers found.
  maps-IsEntryMap :
      (w : World)
      → IsSaved jt w
      → IsEntryMap w.ui.namespaces_by_context × IsEntryMap w.ui.hidden_sidebar_items_by_context
  maps-IsEntryMap w h =
      let (namespaces, hidden) = read_maps-IsEntryMap jt w.storage in
      (
        subst IsEntryMap (ap (λ (v : Settings). v.namespaces_by_context) h) namespaces,
        subst IsEntryMap (ap (λ (v : Settings). v.hidden_sidebar_items_by_context) h) hidden,
      )

  save_namespaces-IsEntryMap :
      (m : Dict (List String)) (key : String) (next : List String)
      → IsEntryMap m
      → IsEntryMap (save_namespaces m key next)
  unfolding save_namespaces
  save_namespaces-IsEntryMap m key [] k = IsEntryMap-remove m key k
  save_namespaces-IsEntryMap m key (n ∷ ns) k = IsEntryMap-put m key n ns k

  pub session_if_any-IsSaved :
      (next : List String) (g : Option String) (now : ℕ) (w : World)
      → IsSaved jt w
      → IsSaved jt (session_if_any next g now w)
  unfolding with_session
  session_if_any-IsSaved [] g now w h = h
  session_if_any-IsSaved (c ∷ cs) g now w h = stored-persist_last_session jt _ w.storage ∙ h

  pub apply_namespace_selection-IsSaved :
      (next : List String) (w : World)
      → IsSaved jt w
      → IsSaved jt (apply_namespace_selection next w)
  unfolding apply_namespace_selection
  apply_namespace_selection-IsSaved next w h =
      elim (Bool-cases (namespace_key (effective_context_list w.ui) == "")) [
        | inl e ↦ rw e h
        | inr e ↦ rw e (
            stored-persist_namespaces_by_context jt _ w.storage (
              save_namespaces-IsEntryMap w.ui.namespaces_by_context
                (namespace_key (effective_context_list w.ui)) next (maps-IsEntryMap w h).0)
            ∙ ap
                (λ (v : Settings). record v {
                  namespaces_by_context =
                      save_namespaces w.ui.namespaces_by_context
                        (namespace_key (effective_context_list w.ui)) next;
                })
                h)
      ]

  if_changed-IsSaved :
      (r : HiddenItems × Bool) (w : World)
      → IsEntryMap r.0
      → IsSaved jt w
      → IsSaved jt (if_changed r w)
  unfolding if_changed
  if_changed-IsSaved (m, true) w k h =
      stored-persist_hidden_sidebar_items_by_context jt m w.storage k
      ∙ ap (λ (v : Settings). record v { hidden_sidebar_items_by_context = m }) h
  if_changed-IsSaved (m, false) w k h = h

  pub update_hidden-IsSaved :
      (round : String → HiddenItems → Option HiddenItems) (cs : List String) (w : World)
      → KeepsEntries round
      → IsSaved jt w
      → IsSaved jt (update_hidden round cs w)
  unfolding update_hidden
  update_hidden-IsSaved round [] w keeps h = h
  update_hidden-IsSaved round (c ∷ cs) w keeps h =
      if_changed-IsSaved (for_contexts round (c ∷ cs) w.ui.hidden_sidebar_items_by_context false) w
        (for_contexts-IsEntryMap round keeps (c ∷ cs) w.ui.hidden_sidebar_items_by_context false
          (maps-IsEntryMap w h).1)
        h

  module _ (coll : Collation) where
    pub normalize_contexts-IsSaved :
        (next : List String) (w : World)
        → IsSaved jt w
        → IsSaved jt (normalize_contexts coll next w)
    unfolding normalize_contexts
    normalize_contexts-IsSaved next w h =
        stored-persist_aggregated_contexts jt (dedupe_sorted coll next) w.storage
        ∙ ap
            (λ (v : Settings). record v { aggregated_contexts = several (dedupe_sorted coll next) })
            h

    pub set_selected_context-IsSaved :
        (now : ℕ) (name : Option String) (w : World)
        → IsSaved jt w
        → IsSaved jt (set_selected_context coll now name w)
    unfolding set_selected_context
    set_selected_context-IsSaved now name w h =
        elim (Bool-cases (same_list (single_context name) (effective_context_list w.ui))) [
          | inl e ↦ rw e h
          | inr e ↦ rw e (
              session_if_any-IsSaved (single_context name) none now _
                (normalize_contexts-IsSaved (single_context name) w h))
        ]

    pub set_aggregated_contexts-IsSaved :
        (now : ℕ) (names : List String) (g : Option String) (w : World)
        → IsSaved jt w
        → IsSaved jt (set_aggregated_contexts coll now names g w)
    unfolding set_aggregated_contexts
    set_aggregated_contexts-IsSaved now names g w h =
        let next = dedupe_sorted coll names in
        elim (Bool-cases
          (same_list next (effective_context_list w.ui) && same_group w.ui.active_group_id g)) [
            | inl e ↦ rw e h
            | inr e ↦
                rw e (session_if_any-IsSaved next g now _ (normalize_contexts-IsSaved next w h))
          ]

    pub toggle_aggregated_context-IsSaved :
        (name : String) (w : World)
        → IsSaved jt w
        → IsSaved jt (toggle_aggregated_context coll name w)
    unfolding toggle_aggregated_context
    toggle_aggregated_context-IsSaved name w h =
        let next = toggled coll name (effective_context_list w.ui) in
        elim (Bool-cases (same_list next (effective_context_list w.ui))) [
          | inl e ↦ rw e h
          | inr e ↦ rw e (normalize_contexts-IsSaved next w h)
        ]

    pub clear_if_any-IsSaved :
        (cs : List String) (w : World) → IsSaved jt w → IsSaved jt (clear_if_any coll cs w)
    clear_if_any-IsSaved [] w h = h
    clear_if_any-IsSaved (c ∷ cs) w h = normalize_contexts-IsSaved [] w h
