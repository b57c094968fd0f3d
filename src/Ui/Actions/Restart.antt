-- ===== src/Ui/Actions/Restart.antt =====
-- store/ui.ts: what the user has set is there again when the program is started the next time.
mod Tests
use klustr.Prelude.{
  if◌then◌else◌, not, is_some, or_else, ℕ, String, ◌≡◌, ◌≢◌, ◌∙◌, All, refl, sym, ap, subst, Bool,
  true, false, ◌&&◌, ◌==◌, Option, none, some, List, [], ◌∷◌, arith, inl, inr, Bool-cases,
  Option-cases, get_last?, includes, length, leb, eqb, without, same_list, ◌++◌,
}
use klustr.Prelude.Numerals.{ℤ}
use klustr.Dict
use klustr.Storage.{Storage, JsonText}
use klustr.Collation.{Collation, dedupe_sorted}
use klustr.Ui.Views.{ResourceView, view_name}
use klustr.Ui.Types.{ContextGroup, ContextTag, max_tags_per_context}
use klustr.Ui.Persistence.{nonempty_entries, clamp_sidebar_width}
use klustr.Ui.Persistence.Settings.{Settings, stored}
use klustr.Ui.Persistence.SettingWriters.{stored-persist_theme_id, stored-persist_last_session}
use klustr.Ui.Sidebar.Entries.{hide_in-KeepsEntries, show_in-KeepsEntries, clear_in-KeepsEntries}
use klustr.Ui.Persistence.Records.{IsReadable}
use klustr.Ui.Persistence.Readable.{read_context_groups-IsReadable}
use klustr.Ui.Groups.Laws.{is_accepted, cleaned-IsClean, All-upserted, All-without_group}
use klustr.Ui.Themes.{is_theme_id}
use klustr.Ui.Persistence.Read.{read_saved_theme_id}
use klustr.Ui.State.{UiState, World, effective_context_list, single_context}
use klustr.Ui.Contexts.{
  namespace_key, save_namespaces, normalize_contexts, with_session, session_if_any, with_group,
  same_group, set_selected_context, set_aggregated_contexts, toggle_aggregated_context, toggled,
  clear_aggregated_contexts, clear_if_any, clear_last_session, apply_namespace_selection,
  set_selected_namespaces, toggle_selected_namespace, clear_selected_namespaces,
  set_default_context,
}
use klustr.Ui.Inspector.{
  set_selected_view, set_selected_crd, set_selected_resource, open_resource, go_back_resource,
  set_pending_action,
}
use klustr.Ui.Appearance.{set_theme, on_system_change, set_global_read_only}
use klustr.Ui.Sidebar.{
  HiddenItems, toggle_sidebar_mode, set_sidebar_width, toggle_nav_group, toggle_crd_group,
  hide_sidebar_item, show_sidebar_item, clear_hidden_sidebar_items, if_changed, update_hidden,
  for_contexts,
}
use klustr.Ui.Tags.{
  tags_of, assign_tags, toggle_context_tag, clear_context_tags, add_custom_tag, remove_custom_tag,
}
use klustr.Ui.Groups.{cleaned, is_empty, without_group, upsert_context_group, remove_context_group}
use klustr.Ui.Actions.{
  Action, act, run, boot, system_theme_id, set_selected_context_to, set_aggregated_contexts_to,
  toggle_aggregated, clear_aggregated, clear_session, set_namespaces, toggle_namespace,
  clear_namespaces, set_read_only, set_view, set_crd, set_resource, open_at, go_back, set_pending,
  pick_theme, toggle_mode, set_width, toggle_nav, toggle_crd, hide_item, show_item, clear_hidden,
  set_default, toggle_tag, clear_tags, add_tag, remove_tag, upsert_group, remove_group,
  system_change,
}
use klustr.Ui.Actions.Saved.Tags.{
  toggle_context_tag-IsSaved, clear_context_tags-IsSaved, add_custom_tag-IsSaved,
  remove_custom_tag-IsSaved,
}
use klustr.Ui.Persistence.TagDefs.{IsTagDef}
use klustr.Ui.Actions.Saved.{
  settings_of, set_theme-IsSaved, IsSaved, set_default_context-IsSaved, go_back_resource-IsSaved,
  on_system_change-IsSaved, set_sidebar_width-IsSaved, setting_actions-IsSaved,
}
use klustr.Ui.Actions.Saved.Contexts.{
  apply_namespace_selection-IsSaved, update_hidden-IsSaved, set_selected_context-IsSaved,
  set_aggregated_contexts-IsSaved, toggle_aggregated_context-IsSaved, clear_if_any-IsSaved,
}
use klustr.Ui.Actions.Saved.Groups.{upsert_context_group-IsSaved, remove_context_group-IsSaved}

-- An action that stores a group or a tag on a context stores it under an id, a custom tag with a color
-- that the application knows, and a theme that it knows.
abbrev pub IsStorable : Action → Type 0
IsStorable (upsert_group g) = g.id ≢ ""
IsStorable (toggle_tag name t) = t ≢ ""
IsStorable (add_tag def) = IsTagDef def
IsStorable (pick_theme id) = is_theme_id id ≡ true
IsStorable _ = Unit

-- A theme that was read at the start counts as picked.
picked-boot :
    (saved : Option String) (system : String)
    → (if not (is_some saved) then none else some (or_else saved system)) ≡ saved
picked-boot none system = refl
picked-boot (some id) system = refl

module _ (jt : JsonText) (coll : Collation) where
  act-IsSaved : (a : Action) (w : World) → IsStorable a → IsSaved jt w → IsSaved jt (act coll a w)
  unfolding act clear_aggregated_contexts clear_last_session set_selected_namespaces
      toggle_selected_namespace clear_selected_namespaces set_selected_view set_selected_crd
      set_selected_resource open_resource set_pending_action set_theme hide_sidebar_item
      show_sidebar_item clear_hidden_sidebar_items add_custom_tag
  act-IsSaved (set_selected_context_to now name) w _ h =
      set_selected_context-IsSaved jt coll now name w h
  act-IsSaved (set_aggregated_contexts_to now names g) w _ h =
      set_aggregated_contexts-IsSaved jt coll now names g w h
  act-IsSaved (toggle_aggregated name) w _ h = toggle_aggregated_context-IsSaved jt coll name w h
  act-IsSaved clear_aggregated w _ h =
      clear_if_any-IsSaved jt coll (effective_context_list w.ui) w h
  act-IsSaved clear_session w _ h = stored-persist_last_session jt none w.storage ∙ h
  act-IsSaved (set_namespaces names) w _ h = apply_namespace_selection-IsSaved jt _ w h
  act-IsSaved (toggle_namespace name) w _ h = apply_namespace_selection-IsSaved jt _ w h
  act-IsSaved clear_namespaces w _ h = apply_namespace_selection-IsSaved jt [] w h
  act-IsSaved (set_read_only value) w _ h = (setting_actions-IsSaved jt "" value w h).3
  act-IsSaved (set_view view) w _ h = h
  act-IsSaved (set_crd key) w _ h = h
  act-IsSaved (set_resource r) w _ h = h
  act-IsSaved (open_at r tab) w _ h = h
  act-IsSaved go_back w _ h = go_back_resource-IsSaved jt w h
  act-IsSaved (set_pending action) w _ h = h
  act-IsSaved (pick_theme id) w known h = set_theme-IsSaved jt id w known h
  act-IsSaved toggle_mode w _ h = (setting_actions-IsSaved jt "" true w h).2
  act-IsSaved (set_width px) w _ h = set_sidebar_width-IsSaved jt px w h
  act-IsSaved (toggle_nav label) w _ h = (setting_actions-IsSaved jt label true w h).0
  act-IsSaved (toggle_crd label) w _ h = (setting_actions-IsSaved jt label true w h).1
  act-IsSaved (hide_item view) w _ h =
      update_hidden-IsSaved jt _ (effective_context_list w.ui) w
        (hide_in-KeepsEntries (view_name view)) h
  act-IsSaved (show_item view) w _ h =
      update_hidden-IsSaved jt _ (effective_context_list w.ui) w
        (show_in-KeepsEntries (view_name view)) h
  act-IsSaved clear_hidden w _ h =
      update_hidden-IsSaved jt _ (effective_context_list w.ui) w clear_in-KeepsEntries h
  act-IsSaved (set_default name) w _ h = set_default_context-IsSaved jt name w h
  act-IsSaved (toggle_tag name t) w named h = toggle_context_tag-IsSaved jt name t w named h
  act-IsSaved (clear_tags name) w _ h = clear_context_tags-IsSaved jt name w h
  act-IsSaved (add_tag def) w valid h = add_custom_tag-IsSaved jt def w valid h
  act-IsSaved (remove_tag id) w _ h = remove_custom_tag-IsSaved jt id w h
  act-IsSaved (upsert_group g) w id h = upsert_context_group-IsSaved jt g w id h
  act-IsSaved (remove_group id) w _ h = remove_context_group-IsSaved jt id w h
  act-IsSaved (system_change matches) w _ h = on_system_change-IsSaved jt matches w h

  pub run-IsSaved :
      (actions : List Action) (w : World)
      → All IsStorable actions
      → IsSaved jt w
      → IsSaved jt (run coll actions w)
  unfolding run
  run-IsSaved [] w ids h = h
  run-IsSaved (a ∷ rest) w (id, ids) h = run-IsSaved rest (act coll a w) ids (act-IsSaved a w id h)

  settings_of-boot :
      (dark : Bool) (now : ℕ) (s : Storage) (classes : List String)
      → settings_of (boot jt dark now s classes) ≡ stored jt s
  unfolding boot
  settings_of-boot dark now s classes =
      ap (λ (o : Option String). record (stored jt s) { theme_id = o })
        (picked-boot (read_saved_theme_id jt s) (system_theme_id dark))

  pub boot-IsSaved :
      (dark : Bool) (now : ℕ) (s : Storage) (classes : List String)
      → IsSaved jt (boot jt dark now s classes)
  unfolding boot
  boot-IsSaved dark now s classes = sym (settings_of-boot dark now s classes)

  -- The picked theme, the collapsed and expanded groups of the sidebar, its mode and its width, the
  -- default context, the read-only mode, the aggregated contexts, the groups of contexts, the
  -- namespaces, hidden items and tags of each context, and the custom tags come back: when the program
  -- is started on any localStorage, any actions follow, none of which picks an unknown theme, stores a
  -- group with an empty id, toggles an empty tag or adds a custom tag of an unknown color, and the
  -- program is started again on what they left there, then the store has the settings that it had when
  -- the actions were done, and follows the system's theme exactly where it did then.
  pub settings_of-boot-run :
      (dark again_dark : Bool) (now later : ℕ) (s : Storage) (classes again_classes : List String)
      (actions : List Action)
      → All IsStorable actions
      → settings_of (
          boot jt again_dark later
            (run coll actions (boot jt dark now s classes)).storage
            again_classes)
        ≡ settings_of (run coll actions (boot jt dark now s classes))
  settings_of-boot-run dark again_dark now later s classes again_classes actions ids =
      settings_of-boot again_dark later (run coll actions (boot jt dark now s classes)).storage
        again_classes
      ∙ run-IsSaved actions (boot jt dark now s classes) ids (boot-IsSaved dark now s classes)
