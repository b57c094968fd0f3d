-- ===== src/Ui/Actions/Saved.antt =====
-- store/ui.ts: the actions keep what localStorage holds of the settings in step with the store.
pub mod Contexts
pub mod Groups
pub mod Tags
use klustr.Prelude.{
  if◌then◌else◌, some, ℕ, String, ◌≡◌, ◌∙◌, ap, subst, arith, All, Bool, true, false, ◌&&◌, ◌==◌,
  Option, none, List, [], ◌∷◌, inl, inr, Bool-cases, Option-cases, get_last?, includes, length, leb,
  eqb, same_list,
}
use klustr.Prelude.Numerals.{ℤ}
use klustr.Dict
use klustr.Dict.{Dict}
use klustr.Storage.{JsonText}
use klustr.Collation.{Collation, dedupe_sorted}
use klustr.Ui.Types.{ContextGroup, ContextTag, max_tags_per_context}
use klustr.Ui.Persistence.{clamp_sidebar_width}
use klustr.Ui.Persistence.Settings.{Settings, stored}
use klustr.Ui.Persistence.SettingWriters.{
  stored-persist_theme_id, stored-persist_collapsed_nav_groups, stored-persist_expanded_crd_groups,
  stored-persist_sidebar_mode, stored-persist_default_context, stored-persist_global_read_only,
  stored-persist_sidebar_width, stored-persist_last_session,
}
use klustr.Ui.Persistence.ContextWriters.{
  stored-persist_aggregated_contexts, stored-persist_context_groups,
  stored-persist_namespaces_by_context, stored-persist_hidden_sidebar_items_by_context,
}
use klustr.Ui.Persistence.EntryMaps.{
  IsEntryMap, IsEntryMap-put, IsEntryMap-remove, read_maps-IsEntryMap,
}
use klustr.Ui.Persistence.Records.{IsReadable}
use klustr.Ui.Persistence.SettingWriters.{
  stored-persist_theme_id, stored-persist_collapsed_nav_groups, stored-persist_expanded_crd_groups,
  stored-persist_sidebar_mode, stored-persist_default_context, stored-persist_global_read_only,
  stored-persist_sidebar_width,
}
use klustr.Ui.Themes.{is_theme_id}
use klustr.Ui.State.{UiState, World, effective_context_list, single_context}
use klustr.Ui.Contexts.{
  namespace_key, save_namespaces, normalize_contexts, with_session, session_if_any, same_group,
  set_selected_context, set_aggregated_contexts, toggle_aggregated_context, toggled, clear_if_any,
  apply_namespace_selection, set_default_context, nonempty_name, several,
}
use klustr.Ui.Inspector.{go_back_resource}
use klustr.Ui.Appearance.{set_theme, on_system_change, set_global_read_only}
use klustr.Ui.Sidebar.{
  HiddenItems, toggle_sidebar_mode, set_sidebar_width, toggle_nav_group, toggle_crd_group,
  if_changed, update_hidden, for_contexts, toggle_label, other_mode,
}
use klustr.Ui.Sidebar.Entries.{KeepsEntries, for_contexts-IsEntryMap}
use klustr.Ui.Tags.{tags_of, toggle_context_tag, clear_context_tags, remove_custom_tag}
use klustr.Ui.Groups.Laws.{is_accepted}
use klustr.Ui.Groups.{
  cleaned, upserted, is_empty, without_group, upsert_context_group, remove_context_group,
}

-- The settings as the store holds them.
abbrev pub settings_of : World → Settings
settings_of w = record {
  theme_id = if w.following_system then none else some w.ui.theme_id;
  collapsed_nav_groups = w.ui.collapsed_nav_groups;
  expanded_crd_groups = w.ui.expanded_crd_groups;
  sidebar_mode = w.ui.sidebar_mode;
  default_context = w.ui.default_context;
  global_read_only = w.ui.global_read_only;
  sidebar_width = w.ui.sidebar_width;
  aggregated_contexts = w.ui.aggregated_contexts;
  context_groups = w.ui.context_groups;
  namespaces_by_context = w.ui.namespaces_by_context;
  hidden_sidebar_items_by_context = w.ui.hidden_sidebar_items_by_context;
  context_tags = w.ui.context_tags;
  custom_tags = w.ui.custom_tags;
}

module _ (jt : JsonText) where
  -- What the readers of localStorage find are the settings of the store.
  abbrev pub IsSaved : World → Type 0
  IsSaved w = stored jt w.storage ≡ settings_of w

  pub set_default_context-IsSaved :
      (name : Option String) (w : World) → IsSaved w → IsSaved (set_default_context name w)
  unfolding set_default_context
  set_default_context-IsSaved name w h =
      stored-persist_default_context jt name w.storage
      ∙ ap (λ (v : Settings). record v { default_context = nonempty_name name }) h

  pub go_back_resource-IsSaved : (w : World) → IsSaved w → IsSaved (go_back_resource w)
  unfolding go_back_resource
  go_back_resource-IsSaved w h = elim (Option-cases (get_last? w.ui.resource_nav_stack)) [
    | inl e ↦ rw (e, go_back_resource) h
    | inr (r, e) ↦ rw (e, go_back_resource) h
  ]

  pub on_system_change-IsSaved :
      (matches : Bool) (w : World) → IsSaved w → IsSaved (on_system_change matches w)
  unfolding on_system_change
  on_system_change-IsSaved matches w h = elim (Bool-cases w.following_system) [
    | inl e ↦ rw e (h ∙ ap (λ b. in_theme (if b then none else some w.ui.theme_id)) e)
    | inr e ↦ simp e (h ∙ ap (λ b. in_theme (if b then none else some w.ui.theme_id)) e)
  ]
    where
      in_theme : Option String → Settings
      in_theme o = record (settings_of w) { theme_id = o }

  pub set_theme-IsSaved :
      (id : String) (w : World) → is_theme_id id ≡ true → IsSaved w → IsSaved (set_theme id w)
  unfolding set_theme
  set_theme-IsSaved id w known h =
      stored-persist_theme_id jt id w.storage known
      ∙ ap (λ (v : Settings). record v { theme_id = some id }) h

  pub set_sidebar_width-IsSaved :
      (px : ℤ) (w : World) → IsSaved w → IsSaved (set_sidebar_width px w)
  unfolding set_sidebar_width
  set_sidebar_width-IsSaved px w h =
      elim (Bool-cases (eqb (clamp_sidebar_width px) w.ui.sidebar_width)) [
        | inl e ↦ rw e h
        | inr e ↦ rw e (
            stored-persist_sidebar_width jt px w.storage
            ∙ ap (λ (v : Settings). record v { sidebar_width = clamp_sidebar_width px }) h)
      ]

  pub setting_actions-IsSaved :
      (label : String) (value : Bool) (w : World)
      → IsSaved w
      → IsSaved (toggle_nav_group label w)
        × IsSaved (toggle_crd_group label w)
        × IsSaved (toggle_sidebar_mode w)
        × IsSaved (set_global_read_only value w)
  unfolding toggle_nav_group toggle_crd_group toggle_sidebar_mode set_global_read_only
  setting_actions-IsSaved label value w h = (
    stored-persist_collapsed_nav_groups jt _ w.storage
        ∙ ap
            (λ (v : Settings). record v {
              collapsed_nav_groups = toggle_label label w.ui.collapsed_nav_groups;
            })
            h,
    stored-persist_expanded_crd_groups jt _ w.storage
        ∙ ap
            (λ (v : Settings). record v {
              expanded_crd_groups = toggle_label label w.ui.expanded_crd_groups;
            })
            h,
    stored-persist_sidebar_mode jt _ w.storage
        ∙ ap (λ (v : Settings). record v { sidebar_mode = other_mode w.ui.sidebar_mode }) h,
    stored-persist_global_read_only jt value w.storage
        ∙ ap (λ (v : Settings). record v { global_read_only = value }) h,
  )
