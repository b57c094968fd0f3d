-- ===== src/Ui/Persistence/Settings.antt =====
-- store/ui.persistence.ts: the settings that are stored one by one, each under a key of its own, as the
-- readers find them.
use klustr.Prelude.{
  ℕ, String, ◌≡◌, refl, ap, Bool, false, Bool-cases, inl, inr, if◌then◌else◌, Option, List, arith,
  ◌==◌,
}
use klustr.Dict
use klustr.Dict.{Dict, get-put, get-remove}
use klustr.Storage.{Item, Storage, JsonText, read_text, read_json}
use klustr.Ui.Types.{SidebarMode, ContextGroup, CustomTagDef}
use klustr.Ui.Persistence.{
  theme_storage_key, collapsed_nav_groups_key, expanded_crd_groups_key, sidebar_mode_key,
  default_context_key, global_read_only_key, sidebar_width_key, aggregated_contexts_key,
  context_groups_key, namespaces_by_context_key, hidden_sidebar_items_key, context_tags_key,
  custom_tags_key,
}
use klustr.Ui.Contexts.{several}
use klustr.Ui.Persistence.Read.{
  read_saved_theme_id, read_collapsed_nav_groups, read_expanded_crd_groups, read_sidebar_mode,
  read_default_context, read_global_read_only, read_sidebar_width, read_string_array,
  read_aggregated_contexts, read_context_groups, lists_of, read_namespaces_by_context,
  read_hidden_sidebar_items_by_context, read_context_tags, read_custom_tags,
}

-- `theme_id` is `none` where no theme was picked.
pub record Settings : Type 0 where
  pub theme_id : Option String
  pub collapsed_nav_groups : List String
  pub expanded_crd_groups : List String
  pub sidebar_mode : SidebarMode
  pub sidebar_width : ℕ
  pub default_context : Option String
  pub global_read_only : Bool
  pub aggregated_contexts : List String
  pub context_groups : List ContextGroup
  pub namespaces_by_context : Dict (List String)
  pub hidden_sidebar_items_by_context : Dict (List String)
  pub context_tags : Dict (List String)
  pub custom_tags : Dict CustomTagDef

abbrev chosen {ℓ} : {A : Type ℓ} → String → String → A → A → A
chosen changed key new old = if changed == key then new else old

module _ (jt : JsonText) where
  abbrev pub stored : Storage → Settings
  stored s = record {
    theme_id = read_saved_theme_id jt s;
    collapsed_nav_groups = read_collapsed_nav_groups jt s;
    expanded_crd_groups = read_expanded_crd_groups jt s;
    sidebar_mode = read_sidebar_mode jt s;
    sidebar_width = read_sidebar_width jt s;
    default_context = read_default_context jt s;
    global_read_only = read_global_read_only jt s;
    aggregated_contexts = several (read_aggregated_contexts jt s);
    context_groups = read_context_groups jt s;
    namespaces_by_context = read_namespaces_by_context jt s;
    hidden_sidebar_items_by_context = read_hidden_sidebar_items_by_context jt s;
    context_tags = read_context_tags jt s;
    custom_tags = read_custom_tags jt s;
  }

  -- The settings of `t` under the key that changed, and those of `s` elsewhere.
  abbrev pub updated : String → Storage → Storage → Settings
  updated changed s t = record {
    theme_id =
        chosen changed theme_storage_key (read_saved_theme_id jt t) (read_saved_theme_id jt s);
    collapsed_nav_groups =
        chosen changed collapsed_nav_groups_key (read_collapsed_nav_groups jt t)
          (read_collapsed_nav_groups jt s);
    expanded_crd_groups =
        chosen changed expanded_crd_groups_key (read_expanded_crd_groups jt t)
          (read_expanded_crd_groups jt s);
    sidebar_mode =
        chosen changed sidebar_mode_key (read_sidebar_mode jt t) (read_sidebar_mode jt s);
    sidebar_width =
        chosen changed sidebar_width_key (read_sidebar_width jt t) (read_sidebar_width jt s);
    default_context =
        chosen changed default_context_key (read_default_context jt t) (read_default_context jt s);
    global_read_only =
        chosen changed global_read_only_key (read_global_read_only jt t)
          (read_global_read_only jt s);
    aggregated_contexts =
        chosen changed aggregated_contexts_key (several (read_aggregated_contexts jt t))
          (several (read_aggregated_contexts jt s));
    context_groups =
        chosen changed context_groups_key (read_context_groups jt t) (read_context_groups jt s);
    namespaces_by_context =
        chosen changed namespaces_by_context_key (read_namespaces_by_context jt t)
          (read_namespaces_by_context jt s);
    hidden_sidebar_items_by_context =
        chosen changed hidden_sidebar_items_key (read_hidden_sidebar_items_by_context jt t)
          (read_hidden_sidebar_items_by_context jt s);
    context_tags =
        chosen changed context_tags_key (read_context_tags jt t) (read_context_tags jt s);
    custom_tags = chosen changed custom_tags_key (read_custom_tags jt t) (read_custom_tags jt s);
  }

  text-same :
      (s t : Storage) (key : String)
      → Dict.get t key ≡ Dict.get s key
      → read_text jt t key ≡ read_text jt s key
  unfolding read_text
  text-same s t key e = rw (e, read_text) refl

  json-same :
      (s t : Storage) (key : String)
      → Dict.get t key ≡ Dict.get s key
      → read_json jt t key ≡ read_json jt s key
  unfolding read_json
  json-same s t key e = rw (e, read_json) refl

  -- A reader sees nothing but the item under its key.
  theme-same :
      (s t : Storage)
      → Dict.get t theme_storage_key ≡ Dict.get s theme_storage_key
      → read_saved_theme_id jt t ≡ read_saved_theme_id jt s
  unfolding read_saved_theme_id
  theme-same s t e = rw (read_saved_theme_id, text-same s t theme_storage_key e) refl

  nav-same :
      (s t : Storage)
      → Dict.get t collapsed_nav_groups_key ≡ Dict.get s collapsed_nav_groups_key
      → read_collapsed_nav_groups jt t ≡ read_collapsed_nav_groups jt s
  unfolding read_collapsed_nav_groups read_string_array
  nav-same s t e = ground (arith, json-same s t collapsed_nav_groups_key e)

  crd-same :
      (s t : Storage)
      → Dict.get t expanded_crd_groups_key ≡ Dict.get s expanded_crd_groups_key
      → read_expanded_crd_groups jt t ≡ read_expanded_crd_groups jt s
  unfolding read_expanded_crd_groups read_string_array
  crd-same s t e = ground (arith, json-same s t expanded_crd_groups_key e)

  mode-same :
      (s t : Storage)
      → Dict.get t sidebar_mode_key ≡ Dict.get s sidebar_mode_key
      → read_sidebar_mode jt t ≡ read_sidebar_mode jt s
  unfolding read_sidebar_mode
  mode-same s t e = ground (arith, text-same s t sidebar_mode_key e)

  width-same :
      (s t : Storage)
      → Dict.get t sidebar_width_key ≡ Dict.get s sidebar_width_key
      → read_sidebar_width jt t ≡ read_sidebar_width jt s
  unfolding read_sidebar_width
  width-same s t e = rw (read_sidebar_width, text-same s t sidebar_width_key e) refl

  default-same :
      (s t : Storage)
      → Dict.get t default_context_key ≡ Dict.get s default_context_key
      → read_default_context jt t ≡ read_default_context jt s
  unfolding read_default_context
  default-same s t e = ground (arith, text-same s t default_context_key e)

  read_only-same :
      (s t : Storage)
      → Dict.get t global_read_only_key ≡ Dict.get s global_read_only_key
      → read_global_read_only jt t ≡ read_global_read_only jt s
  unfolding read_global_read_only
  read_only-same s t e = ground (arith, text-same s t global_read_only_key e)

  aggregated-same :
      (s t : Storage)
      → Dict.get t aggregated_contexts_key ≡ Dict.get s aggregated_contexts_key
      → several (read_aggregated_contexts jt t) ≡ several (read_aggregated_contexts jt s)
  unfolding read_aggregated_contexts read_string_array
  aggregated-same s t e = ap several (ground (arith, json-same s t aggregated_contexts_key e))

  groups-same :
      (s t : Storage)
      → Dict.get t context_groups_key ≡ Dict.get s context_groups_key
      → read_context_groups jt t ≡ read_context_groups jt s
  unfolding read_context_groups
  groups-same s t e = ground (arith, json-same s t context_groups_key e)

  namespaces-same :
      (s t : Storage)
      → Dict.get t namespaces_by_context_key ≡ Dict.get s namespaces_by_context_key
      → read_namespaces_by_context jt t ≡ read_namespaces_by_context jt s
  unfolding read_namespaces_by_context
  namespaces-same s t e = ap lists_of (json-same s t namespaces_by_context_key e)

  hidden-same :
      (s t : Storage)
      → Dict.get t hidden_sidebar_items_key ≡ Dict.get s hidden_sidebar_items_key
      → read_hidden_sidebar_items_by_context jt t ≡ read_hidden_sidebar_items_by_context jt s
  unfolding read_hidden_sidebar_items_by_context
  hidden-same s t e = ap lists_of (json-same s t hidden_sidebar_items_key e)

  tags-same :
      (s t : Storage)
      → Dict.get t context_tags_key ≡ Dict.get s context_tags_key
      → read_context_tags jt t ≡ read_context_tags jt s
  unfolding read_context_tags
  tags-same s t e = rw (read_context_tags, json-same s t context_tags_key e) refl

  defs-same :
      (s t : Storage)
      → Dict.get t custom_tags_key ≡ Dict.get s custom_tags_key
      → read_custom_tags jt t ≡ read_custom_tags jt s
  unfolding read_custom_tags
  defs-same s t e = rw (read_custom_tags, json-same s t custom_tags_key e) refl

  module _ (changed : String) (s t : Storage)
      (other : (key : String) → (changed == key) ≡ false → Dict.get t key ≡ Dict.get s key) where
    chosen-same {ℓ} :
        {A : Type ℓ} (key : String) (new old : A)
        → (Dict.get t key ≡ Dict.get s key → new ≡ old)
        → new ≡ chosen changed key new old
    chosen-same key new old same = elim (Bool-cases (changed == key)) [
      | inl e ↦ rw e refl
      | inr e ↦ rw e (same (other key e))
    ]

    stored-updated : stored t ≡ updated changed s t
    stored-updated = λ i. record {
      theme_id = chosen-same theme_storage_key _ _ (theme-same s t) i;
      collapsed_nav_groups = chosen-same collapsed_nav_groups_key _ _ (nav-same s t) i;
      expanded_crd_groups = chosen-same expanded_crd_groups_key _ _ (crd-same s t) i;
      sidebar_mode = chosen-same sidebar_mode_key _ _ (mode-same s t) i;
      sidebar_width = chosen-same sidebar_width_key _ _ (width-same s t) i;
      default_context = chosen-same default_context_key _ _ (default-same s t) i;
      global_read_only = chosen-same global_read_only_key _ _ (read_only-same s t) i;
      aggregated_contexts = chosen-same aggregated_contexts_key _ _ (aggregated-same s t) i;
      context_groups = chosen-same context_groups_key _ _ (groups-same s t) i;
      namespaces_by_context = chosen-same namespaces_by_context_key _ _ (namespaces-same s t) i;
      hidden_sidebar_items_by_context =
          chosen-same hidden_sidebar_items_key _ _ (hidden-same s t) i;
      context_tags = chosen-same context_tags_key _ _ (tags-same s t) i;
      custom_tags = chosen-same custom_tags_key _ _ (defs-same s t) i;
    }

  pub stored-put :
      (s : Storage) (key : String) (v : Item)
      → stored (Dict.put s key v) ≡ updated key s (Dict.put s key v)
  stored-put s key v =
      stored-updated key s (Dict.put s key v) (λ k differ. ground (arith, get-put s key k v))

  pub stored-remove :
      (s : Storage) (key : String) → stored (Dict.remove s key) ≡ updated key s (Dict.remove s key)
  stored-remove s key =
      stored-updated key s (Dict.remove s key) (λ k differ. ground (arith, get-remove s key k))
